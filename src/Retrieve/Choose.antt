-- ===== src/Retrieve/Choose.antt =====
-- retrieve/mod.rs: `select` and `best`, the entry of a version and the best version of a package.
use elba.Prelude.{
  Bool, true, false, not, Option, none, some, List, [], ◌∷◌, Eq, map, keep, find, if◌then◌else◌,
}
use elba.Prelude.IndexMap.{IndexMap}
use elba.Prelude.IndexSet.{contains}
use elba.Prelude.Outcome.{Result, ok, err, and_ok, or_error, package_not_found}
use elba.Prelude.Text.{Text, text_eq}
use elba.Package
use elba.Package.PackageId.{PackageId, package_eq}
use elba.Remote.DirectRes.{dir}
use elba.Remote.Index.{Entries, Indices, ResolvedEntry, last}
use elba.Semver.{Semver}
use elba.Remote.Resolution.{Resolution, direct_res, index_res, direct}
use elba.Remote
use elba.Resolve.Incompat.{Summary}
use elba.Retrieve.{CacheCalls, Retriever, get_indices, entries, direct_checkout}

-- `remove(0)` takes the first, `pop` the last.
abbrev pub first : {A : Type 0} → List A → Option A
first [] = none
first (x ∷ xs) = some x

abbrev pub pick_from : {A : Type 0} → Bool → List A → Option A
pick_from minimize vs = if minimize then first vs else last vs

abbrev pub preferred : {A : Type 0} → List A → List A → List A
preferred (x ∷ xs) pre = x ∷ xs
preferred [] pre = pre

module _ {V C E : Type 0} (sv : Semver V C) where
  -- The versions that the constraint allows, those before a release and those of releases apart.
  abbrev pub allowed : C → Bool → IndexMap V E → List V
  allowed con pre m =
      keep (λ v. if pre then sv.is_prerelease v else not (sv.is_prerelease v))
        (keep (sv.satisfies con) (map (λ (k, en). k) m))

  -- A release if there is one, and else a version before a release.
  unfoldable pub pick : C → Bool → IndexMap V E → Result V
  pick con minimize m =
      or_error package_not_found
        (pick_from minimize (preferred (allowed con false m) (allowed con true m)))

module _ {Url V C Source : Type 0} ⦃e : Eq Url⦄ ⦃v : Eq V⦄ (before : V → V → Bool) (sv : Semver V C)
    (calls : CacheCalls Url V C Source) where
  -- `self.indices.select(sum)`
  abbrev pub ask_select :
      Summary (PackageId Url) V
      → Retriever Url V C Source
      → Result (ResolvedEntry Url V C) × Retriever Url V C Source
  ask_select sum r =
      let (found, ixs) = Remote.Index.select before sum r.indices in
      (found, record r { indices = ixs })

  abbrev select_again :
      Summary (PackageId Url) V
      → Result (ResolvedEntry Url V C) × Retriever Url V C Source
      → Result (ResolvedEntry Url V C) × Retriever Url V C Source
  select_again sum (ok found, r) = ask_select sum r
  select_again sum (err f, r) =
      if r.indices_set
      then ask_select sum r
      else (let (found, r') = ask_select sum (get_indices calls r) in ask_select sum r')

  -- An entry whose source is cached is moved there; any other is not found.
  abbrev cached_entry : List Text → ResolvedEntry Url V C → Result (ResolvedEntry Url V C)
  cached_entry cache en =
      if contains (calls.source_dir en.location) cache
      then ok (record en { location = dir (calls.in_layout (calls.source_dir en.location)) })
      else err package_not_found

  unfoldable pub select :
      Summary (PackageId Url) V
      → Retriever Url V C Source
      → Result (ResolvedEntry Url V C) × Retriever Url V C Source
  unfolding get_indices
  select sum r = elim r.offline_cache [
    | none ↦ select_again sum (ask_select sum r)
    | some cache ↦ let (found, r') = ask_select sum r in (and_ok found (cached_entry cache), r')
  ]

  abbrev chosen_source :
      Result Source × Retriever Url V C Source → Result V × Retriever Url V C Source
  chosen_source (s, r) = (and_ok s (λ src. ok (calls.version_of src)), r)

  abbrev map_some : {A B : Type 0} → (A → B) → Option A → Option B
  map_some f none = none
  map_some f (some a) = some (f a)

  -- `best` where the lockfile has no answer.
  abbrev pub best_unlocked :
      PackageId Url
      → C
      → Bool
      → Retriever Url V C Source
      → Option (Result V × Retriever Url V C Source)
  best_unlocked pkg con minimize r = elim (direct pkg.resolution) [
    | some d ↦ map_some chosen_source (direct_checkout before calls pkg none true r)
    | none ↦
        let (found, r') = entries before calls pkg (get_indices calls r) in
        some (and_ok found (pick sv con minimize), r')
  ]

  -- A locked source that cannot be checked out is passed over.
  abbrev pub or_unlocked :
      PackageId Url
      → C
      → Bool
      → Option (Result Source × Retriever Url V C Source)
      → Option (Result V × Retriever Url V C Source)
  or_unlocked pkg con minimize none = none
  or_unlocked pkg con minimize (some (ok src, r)) = some (ok (calls.version_of src), r)
  or_unlocked pkg con minimize (some (err f, r)) = best_unlocked pkg con minimize r

  -- `best` where the lockfile has a version that the constraint allows.
  abbrev pub best_locked :
      PackageId Url
      → C
      → Bool
      → Summary (PackageId Url) V
      → Resolution Url
      → Retriever Url V C Source
      → Option (Result V × Retriever Url V C Source)
  best_locked pkg con minimize lp (direct_res d) r =
      or_unlocked pkg con minimize (direct_checkout before calls pkg (some d) false r)
  best_locked pkg con minimize lp (index_res i) r =
      let (found, r') = select (record { id = pkg; version = lp.version }) r in
      some (and_ok found (λ en. ok en.version), r')

  abbrev pub best_with :
      PackageId Url
      → C
      → Bool
      → Option (Summary (PackageId Url) V)
      → Retriever Url V C Source
      → Option (Result V × Retriever Url V C Source)
  best_with pkg con minimize none r = best_unlocked pkg con minimize r
  best_with pkg con minimize (some lp) r =
      if sv.satisfies con lp.version
      then best_locked pkg con minimize lp lp.id.resolution r
      else best_unlocked pkg con minimize r

  -- `none` is a panic.
  unfoldable pub best :
      PackageId Url
      → C
      → Bool
      → Retriever Url V C Source
      → Option (Result V × Retriever Url V C Source)
  unfolding entries select direct_checkout pick Package.PackageId.lowkey_eq
  best pkg con minimize r =
      best_with pkg con minimize (find (λ sum. Package.PackageId.lowkey_eq sum.id pkg) r.lockfile) r
