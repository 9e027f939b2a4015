-- ===== src/Retrieve.antt =====
-- retrieve/mod.rs: the retriever, which finds versions and dependencies in the indices, the lockfile
-- and the sources that are checked out.
pub mod Choose
pub mod Best
pub mod Incompats
use elba.Prelude.{
  ℕ, Bool, true, false, not, ◌&&◌, Option, none, some, List, [], ◌∷◌, Eq, ◌==◌, map, keep, find,
  length, if◌then◌else◌,
}
use elba.Prelude.IndexMap.{IndexMap, get, insert, remove, contains_key}
use elba.Prelude.IndexSet.{contains}
use elba.Prelude.Outcome.{Result, ok, err, and_ok, or_error, package_not_found}
use elba.Prelude.Text.{Text, text_eq}
use elba.Package
use elba.Package.PackageId.{PackageId, package_eq}
use elba.Remote.DirectRes.{DirectRes, dir}
use elba.Remote.Index.{Entries, Indices, ResolvedEntry, last}
use elba.Semver.{Semver}
use elba.Remote.Resolution.{Resolution, direct_res, index_res, direct}
use elba.Remote
use elba.Resolve.Incompat.{Summary}

-- What the retriever calls of the cache of retrieve/cache.rs, which works on files and the network.
pub record CacheCalls (Url V C Source : Type 0) : Type 0 where
  -- `Cache::get_source_dir(location, false)`
  pub source_dir : DirectRes Url → Text
  -- `layout.src.join(hash)`
  pub in_layout : Text → Text
  -- `get_indices(reses, true, offline)`
  pub load_indices : Bool → Indices Url V C
  -- `checkout_source(pkg, location, eager, offline)`
  pub checkout_source :
      PackageId Url → DirectRes Url → Bool → Bool → Result (Option (DirectRes Url) × Source)
  -- `meta().version()`
  pub version_of : Source → V
  -- `meta().deps(ixmap, parent_pkg, false)`
  pub deps_of : Source → PackageId Url → Result (List (PackageId Url × C))

pub record Retriever (Url V C Source : Type 0) : Type 0 where
  pub root : Summary (PackageId Url) V
  pub root_deps : List (PackageId Url × C)
  pub indices : Indices Url V C
  pub indices_set : Bool
  -- The nodes of the graph.
  pub lockfile : List (Summary (PackageId Url) V)
  pub offline_cache : Option (List Text)
  pub sources : IndexMap (PackageId Url) Source
  pub res_mapping : IndexMap (PackageId Url) (PackageId Url)

abbrev pub is_offline : Option (List Text) → Bool
is_offline none = false
is_offline (some c) = true

module _ {Url V C Source : Type 0} (calls : CacheCalls Url V C Source) where
  unfoldable pub get_indices : Retriever Url V C Source → Retriever Url V C Source
  get_indices r = if r.indices_set then r else record r {
    indices = calls.load_indices (is_offline r.offline_cache);
    indices_set = true;
  }

  abbrev moved : ResolvedEntry Url V C → ResolvedEntry Url V C
  moved en = record en { location = dir (calls.in_layout (calls.source_dir en.location)) }

  -- The loop over the entries when offline: one that is not in the cache is an error for all.
  unfoldable pub relocate : List Text → Entries Url V C → Result (Entries Url V C)
  relocate cache [] = ok []
  relocate cache ((k, en) ∷ m) =
      let rest = relocate cache m in
      if contains (calls.source_dir en.location) cache
      then and_ok rest (λ m'. ok ((k, moved en) ∷ m'))
      else err package_not_found

module _ {Url V C Source : Type 0} ⦃e : Eq Url⦄ ⦃v : Eq V⦄ (before : V → V → Bool)
    (calls : CacheCalls Url V C Source) where
  -- `self.indices.entries(pkg)`, which may load entries.
  abbrev pub ask_indices :
      PackageId Url → Retriever Url V C Source → Result (Entries Url V C) × Retriever Url V C Source
  ask_indices pkg r =
      let (found, ixs) = Remote.Index.entries before pkg r.indices in
      (found, record r { indices = ixs })

  -- An error is tried again after the indices are loaded; what is found is asked for once more.
  abbrev pub ask_again :
      PackageId Url
      → Result (Entries Url V C) × Retriever Url V C Source
      → Result (Entries Url V C) × Retriever Url V C Source
  ask_again pkg (ok found, r) = ask_indices pkg r
  ask_again pkg (err f, r) =
      if r.indices_set
      then ask_indices pkg r
      else (let (found, r') = ask_indices pkg (get_indices calls r) in ask_indices pkg r')

  unfoldable pub entries :
      PackageId Url → Retriever Url V C Source → Result (Entries Url V C) × Retriever Url V C Source
  unfolding relocate get_indices
  entries pkg r = elim r.offline_cache [
    | none ↦ ask_again pkg (ask_indices pkg r)
    | some cache ↦ let (found, r') = ask_indices pkg r in (and_ok found (relocate calls cache), r')
  ]

  abbrev count_cached : List Text → Option (Entries Url V C) → ℕ
  count_cached cache none = 0
  count_cached cache (some m) =
      length (keep (λ (k, en). contains (calls.source_dir en.location) cache) m)

  unfoldable pub count_versions : Retriever Url V C Source → PackageId Url → ℕ
  count_versions r pkg = elim r.offline_cache [
    | none ↦ Remote.Index.count_versions r.indices pkg
    | some cache ↦ count_cached cache (get pkg r.indices.cache)
  ]

  abbrev mapped : PackageId Url → Option (PackageId Url) → PackageId Url
  mapped pkg none = pkg
  mapped pkg (some id) = id

  unfoldable pub remove_source :
      PackageId Url → Retriever Url V C Source → Option Source × Retriever Url V C Source
  unfolding get remove
  remove_source pkg r =
      let id = mapped pkg (get pkg r.res_mapping) in
      (get id r.sources, record r { sources = remove id r.sources })

  -- `og.unwrap_or_else(|| pkg.resolution().direct().unwrap())`; with neither it panics, which is no
  -- answer here.
  abbrev location_of : Option (DirectRes Url) → Resolution Url → Option (DirectRes Url)
  location_of (some d) res = some d
  location_of none res = direct res

  abbrev new_location : DirectRes Url → Option (DirectRes Url) → DirectRes Url
  new_location loc none = loc
  new_location loc (some delta) = delta

  -- What a checkout gives is kept under the resolution that it ends up with.
  abbrev keep_source :
      PackageId Url
      → DirectRes Url
      → Option (DirectRes Url) × Source
      → Retriever Url V C Source
      → Retriever Url V C Source
  keep_source pkg loc (new_res, s) r =
      let new_id : PackageId Url = record {
        name = pkg.name;
        resolution = direct_res (new_location loc new_res);
      } in
      record r {
        res_mapping = insert pkg new_id r.res_mapping;
        sources = insert new_id s r.sources;
      }

  abbrev checked_out :
      PackageId Url
      → DirectRes Url
      → Retriever Url V C Source
      → Result (Option (DirectRes Url) × Source)
      → Result Source × Retriever Url V C Source
  checked_out pkg loc r (err f) = (err f, r)
  checked_out pkg loc r (ok got) = (ok got.1, keep_source pkg loc got r)

  abbrev checkout :
      PackageId Url
      → Option (DirectRes Url)
      → Bool
      → Retriever Url V C Source
      → Option (Result Source × Retriever Url V C Source)
  checkout pkg none eager r = none
  checkout pkg (some loc) eager r =
      some
        (checked_out pkg loc r (calls.checkout_source pkg loc eager (is_offline r.offline_cache)))

  abbrev found_source :
      Option Source → Retriever Url V C Source → Option (Result Source × Retriever Url V C Source)
  found_source none r = none
  found_source (some s) r = some (ok s, r)

  -- `none` is a panic.
  unfoldable pub direct_checkout :
      PackageId Url
      → Option (DirectRes Url)
      → Bool
      → Retriever Url V C Source
      → Option (Result Source × Retriever Url V C Source)
  unfolding get insert direct
  direct_checkout pkg og eager r = elim (get pkg r.res_mapping) [
    | some id ↦ found_source (get id r.sources) r
    | none ↦ elim (get pkg r.sources) [
      | some s ↦ some (ok s, r)
      | none ↦ checkout pkg (location_of og pkg.resolution) eager r
    ]
  ]
