-- ===== src/Remote/Index.antt =====
-- remote/index.rs: what is published in an index, and the indices together with a cache of entries.
pub mod Loaded
pub mod Chosen
use elba.Prelude.{
  ℕ, Bool, true, false, not, ◌&&◌, ◌||◌, Option, none, some, List, [], ◌∷◌, ◌≡◌, Eq, ◌==◌, length,
  keep, map, if◌then◌else◌,
}
use elba.Prelude.IndexMap.{IndexMap, get, insert}
use elba.Prelude.Outcome.{
  Error, Result, ok, err, and_ok, or_error, package_not_found, no_location, ambiguous_spec,
}
use elba.Prelude.Text.{Text, text_eq}
use elba.Package.Name.{Name}
use elba.Package.PackageId.{PackageId, package_eq}
use elba.Package.Spec.{Spec, agrees_with}
use elba.Remote.DirectRes.{DirectRes}
use elba.Remote.IndexRes.{IndexRes, index_eq}
use elba.Remote.Resolution.{Resolution, direct_res, index_res, resolution_eq}
use elba.Resolve.Incompat.{Summary}

pub record Dep (T C : Type 0) : Type 0 where
  pub name : Name
  pub index : T
  pub req : C

pub record IndexEntry (V C D L : Type 0) : Type 0 where
  pub name : Name
  pub version : V
  pub dependencies : List (Dep D C)
  pub yanked : Bool
  pub location : L

abbrev pub ResolvedEntry : Type 0 → Type 0 → Type 0 → Type 0
ResolvedEntry Url V C = IndexEntry V C (IndexRes Url) (DirectRes Url)

abbrev pub RawEntry : Type 0 → Type 0 → Type 0 → Type 0
RawEntry Url V C = IndexEntry V C (Option Text) (Option (DirectRes Url))

-- `dependencies` is that of the index's configuration. `lines` stands for the file of a package: the
-- entries that its lines are parsed as, or nothing if there is no such file.
pub record Index (Url V C : Type 0) : Type 0 where
  pub id : IndexRes Url
  pub dependencies : IndexMap Text (IndexRes Url)
  pub lines : Name → Option (List (Result (RawEntry Url V C)))

abbrev pub Entries : Type 0 → Type 0 → Type 0 → Type 0
Entries Url V C = IndexMap V (ResolvedEntry Url V C)

abbrev or_else : {A : Type 0} → Option A → A → A
or_else none a = a
or_else (some b) a = b

abbrev named_index :
    {Url : Type 0} → IndexMap Text (IndexRes Url) → Option Text → Option (IndexRes Url)
named_index deps none = none
named_index deps (some ix) = get ix deps

module _ {Url V C : Type 0} where
  -- A dependency that names no index of the configuration is in this index.
  abbrev resolve_dep : Index Url V C → Dep (Option Text) C → Dep (IndexRes Url) C
  resolve_dep ix x = record {
    index = or_else (named_index ix.dependencies x.index) ix.id;
    name = x.name;
    req = x.req;
  }

  unfoldable pub resolve_entry : Index Url V C → RawEntry Url V C → Result (ResolvedEntry Url V C)
  unfolding get
  resolve_entry ix entry = and_ok (or_error no_location entry.location) λ location. ok (record {
    name = entry.name;
    version = entry.version;
    dependencies = map (resolve_dep ix) entry.dependencies;
    yanked = entry.yanked;
    location = location;
  })

module _ {Url V C : Type 0} ⦃v : Eq V⦄ where
  -- The loop over the lines of the file.
  unfoldable pub add_lines :
      Index Url V C → List (Result (RawEntry Url V C)) → Entries Url V C → Result (Entries Url V C)
  unfolding resolve_entry
  add_lines ix [] res = ok res
  add_lines ix (line ∷ lines) res = and_ok line λ raw.
      and_ok (resolve_entry ix raw) λ entry. add_lines ix lines (insert entry.version entry res)

  unfoldable pub index_entries : Index Url V C → Name → Result (Entries Url V C)
  unfolding add_lines
  index_entries ix name =
      and_ok (or_error package_not_found (ix.lines name)) λ lines. add_lines ix lines []

pub record Indices (Url V C : Type 0) : Type 0 where
  pub indices : IndexMap (IndexRes Url) (Index Url V C)
  pub cache : IndexMap (PackageId Url) (Entries Url V C)

module _ {V E : Type 0} (before : V → V → Bool) where
  unfoldable pub insert_key : V → E → IndexMap V E → IndexMap V E
  insert_key k a [] = (k, a) ∷ []
  insert_key k a ((j, b) ∷ m) =
      if before k j then (k, a) ∷ (j, b) ∷ m else (j, b) ∷ insert_key k a m

  -- `sort_keys`, for an order that is a parameter.
  unfoldable pub sort_keys : IndexMap V E → IndexMap V E
  unfolding insert_key
  sort_keys [] = []
  sort_keys ((k, a) ∷ m) = insert_key k a (sort_keys m)

module _ {Url V C : Type 0} ⦃e : Eq Url⦄ ⦃v : Eq V⦄ (before : V → V → Bool) where
  abbrev pub load : PackageId Url → Resolution Url → Indices Url V C → Result (Entries Url V C)
  load pkg (direct_res d) s = err package_not_found
  load pkg (index_res ir) s =
      and_ok (or_error package_not_found (get ir s.indices))
        λ ix. and_ok (index_entries ix pkg.name) λ found. ok (sort_keys before found)

  -- What is loaded is kept in the cache.
  abbrev pub remember :
      PackageId Url
      → Indices Url V C
      → Result (Entries Url V C)
      → Result (Entries Url V C) × Indices Url V C
  remember pkg s (ok found) = (ok found, record s { cache = insert pkg found s.cache })
  remember pkg s (err e) = (err e, s)

  -- The cache is asked first.
  abbrev pub recall :
      PackageId Url
      → Indices Url V C
      → Option (Entries Url V C)
      → Result (Entries Url V C) × Indices Url V C
  recall pkg s (some found) = (ok found, s)
  recall pkg s none = remember pkg s (load pkg pkg.resolution s)

  unfoldable pub entries :
      PackageId Url → Indices Url V C → Result (Entries Url V C) × Indices Url V C
  unfolding index_entries sort_keys
  entries pkg s = recall pkg s (get pkg s.cache)

  unfoldable pub select :
      Summary (PackageId Url) V → Indices Url V C → Result (ResolvedEntry Url V C) × Indices Url V C
  unfolding entries
  select sum s =
      let (found, s') = entries sum.id s in
      (and_ok found (λ m. or_error package_not_found (get sum.version m)), s')

module _ {Url V C : Type 0} ⦃e : Eq Url⦄ where
  abbrev count : Option (Entries Url V C) → ℕ
  count none = 0
  count (some m) = length m

  unfoldable pub count_versions : Indices Url V C → PackageId Url → ℕ
  count_versions s pkg = count (get pkg s.cache)

abbrev pub last : {A : Type 0} → List A → Option A
last [] = none
last (x ∷ []) = some x
last (x ∷ y ∷ ys) = last (y ∷ ys)

abbrev pub summary_in : {Url V : Type 0} → Spec Url V → IndexRes Url → V → Summary (PackageId Url) V
summary_in spec ir ver = record {
  id = record { name = spec.name; resolution = index_res ir };
  version = ver;
}

module _ {Url V C : Type 0} ⦃e : Eq Url⦄ ⦃v : Eq V⦄ where
  -- The entries that are not yanked and of the version asked for.
  abbrev pub candidates : Spec Url V → Entries Url V C → Entries Url V C
  candidates spec = keep (λ (k, x). not x.yanked && agrees_with spec.version x.version)

  -- What one index has for the spec: the last of the candidates. An error of the index is passed over.
  abbrev pub candidate : Spec Url V → Result (Entries Url V C) → Option (V × ResolvedEntry Url V C)
  candidate spec (err e) = none
  candidate spec (ok es) = last (candidates spec es)

  -- The body of the loop, with `res` as it was.
  abbrev pub on_candidate :
      Spec Url V
      → IndexRes Url
      → Option (V × ResolvedEntry Url V C)
      → Option (Summary (PackageId Url) V)
      → Result (Option (Summary (PackageId Url) V))
  on_candidate spec ir none res = ok res
  on_candidate spec ir (some x) (some existing) = err ambiguous_spec
  on_candidate spec ir (some x) none = ok (some (summary_in spec ir x.0))

  unfoldable pub search_indices :
      Spec Url V
      → IndexMap (IndexRes Url) (Index Url V C)
      → Option (Summary (PackageId Url) V)
      → Result (Option (Summary (PackageId Url) V))
  unfolding index_entries
  search_indices spec [] res = ok res
  search_indices spec ((ir, ix) ∷ indices) res =
      and_ok
        (if agrees_with spec.resolution (index_res ir)
          then on_candidate spec ir (candidate spec (index_entries ix spec.name)) res
          else ok res)
        (search_indices spec indices)

  unfoldable pub select_by_spec : Indices Url V C → Spec Url V → Result (Summary (PackageId Url) V)
  unfolding search_indices
  select_by_spec s spec =
      and_ok (search_indices spec s.indices none) λ res. or_error package_not_found res
