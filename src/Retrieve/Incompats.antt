-- ===== src/Retrieve/Incompats.antt =====
-- retrieve/mod.rs, `incompats`: the incompatibilities that say what a version of a package depends on,
-- for as many versions around it as depend on the same.
pub mod Widening
pub mod Within
use elba.Prelude.{
  ℕ, Bool, true, false, not, ◌&&◌, ◌||◌, Option, none, some, List, [], ◌∷◌, Eq, ◌==◌, map,
  if◌then◌else◌,
}
use elba.Prelude.IndexMap.{IndexMap, insert}
use elba.Prelude.Outcome.{Result, ok, err, and_ok, package_not_found}
use elba.Semver.{Semver, is_equal, is_superset}
use elba.Package.Name.{name_eq}
use elba.Package.PackageId.{PackageId, package_eq}
use elba.Remote.Index.{Dep, Entries, ResolvedEntry}
use elba.Remote.IndexRes.{IndexRes, index_eq}
use elba.Remote.Resolution.{index_res, direct}
use elba.Resolve.Incompat.{Incompatibility, Summary, dependency, from_dep}
use elba.Retrieve.{CacheCalls, Retriever, direct_checkout, entries}

-- `Range` of the crate semver_constraints: `closed lower upper` is `Range::new` of two closed bounds,
-- which can fail, and `unbounded` that of two open ends.
pub record Ranges (V C : Type 0) : Type 0 where
  pub closed : V → V → Option C
  pub unbounded : C

-- The place of a version among entries: those before it, nearest first, and those after it.
pub record Place (Url V C : Type 0) : Type 0 where
  pub earlier : Entries Url V C
  pub version : V
  pub entry : ResolvedEntry Url V C
  pub later : Entries Url V C

module _ {Url V C : Type 0} ⦃v : Eq V⦄ where
  -- `get_full`
  unfoldable pub find_place : V → Entries Url V C → Entries Url V C → Option (Place Url V C)
  find_place ver passed [] = none
  find_place ver passed ((k, en) ∷ m) =
      let rest = find_place ver ((k, en) ∷ passed) m in
      if k == ver
      then some (record { earlier = passed; version = k; entry = en; later = m })
      else rest

abbrev cons_both : {A : Type 0} → Option A → Option (List A) → Option (List A)
cons_both (some a) (some as_list) = some (a ∷ as_list)
cons_both _ _ = none

module _ {Url V C : Type 0} ⦃e : Eq Url⦄ (sv : Semver V C) where
  abbrev pub same_dep : Dep (IndexRes Url) C → Dep (IndexRes Url) C → Bool
  same_dep dep new_dep = dep.name == new_dep.name && dep.index == new_dep.index

  abbrev pub covers : Dep (IndexRes Url) C → Dep (IndexRes Url) C → Bool
  covers dep new_dep =
      is_equal (sv.relation dep.req new_dep.req) || is_superset (sv.relation dep.req new_dep.req)

  -- The inner loop over the dependencies of another version: `seen`, and whether the bound is moved.
  unfoldable pub look :
      Dep (IndexRes Url) C → List (Dep (IndexRes Url) C) → Bool × Bool → Bool × Bool
  look dep [] (seen, moves) = (seen, moves)
  look dep (new_dep ∷ new_deps) (seen, moves) = look dep new_deps (
      if same_dep dep new_dep
      then (if covers dep new_dep then (true, true) else (false, moves))
      else (seen, moves))

  -- One of the two `while` loops: the bound that is reached, and whether the end is.
  unfoldable pub widen : Dep (IndexRes Url) C → V → Entries Url V C → V × Bool
  unfolding look
  widen dep bound [] = (bound, true)
  widen dep bound ((k, en) ∷ m) =
      let (seen, moves) = look dep en.dependencies (false, false) in
      let bound' = if moves then k else bound in
      let rest = widen dep bound' m in if seen then rest else (bound', false)

  -- The versions of the package that the incompatibility is for; `none` is a panic.
  unfoldable pub span : Ranges V C → Place Url V C → Dep (IndexRes Url) C → Option C
  unfolding widen
  span rs place dep =
      let (lower, at_start) = widen dep place.version place.earlier in
      let (upper, at_end) = widen dep place.version place.later in
      if at_start && at_end then some rs.unbounded else rs.closed lower upper

  abbrev of_dep :
      PackageId Url → Dep (IndexRes Url) C → Option C → Option (Incompatibility (PackageId Url) C)
  of_dep id dep none = none
  of_dep id dep (some range) = some (record {
    deps =
        insert (record { name = dep.name; resolution = index_res dep.index })
          (sv.complement dep.req) (insert id range []);
    cause = dependency;
  })

  -- The loop over the dependencies.
  unfoldable pub of_deps :
      Ranges V C
      → PackageId Url
      → Place Url V C
      → List (Dep (IndexRes Url) C)
      → Option (List (Incompatibility (PackageId Url) C))
  unfolding span insert
  of_deps rs id place [] = some []
  of_deps rs id place (dep ∷ deps) =
      cons_both (of_dep id dep (span rs place dep)) (of_deps rs id place deps)

module _ {Url V C Source : Type 0} ⦃e : Eq Url⦄ ⦃v : Eq V⦄ (before : V → V → Bool) (sv : Semver V C)
    (rs : Ranges V C) (calls : CacheCalls Url V C Source) where
  abbrev pub Answer : Type 0
  Answer = Result (List (Incompatibility (PackageId Url) C)) × Retriever Url V C Source

  abbrev each_dep :
      Summary (PackageId Url) V
      → List (PackageId Url × C)
      → List (Incompatibility (PackageId Url) C)
  each_dep pkg deps = map (λ (q, con). from_dep sv pkg (q, sv.complement con)) deps

  abbrev of_source :
      Summary (PackageId Url) V
      → PackageId Url
      → Option (Result Source × Retriever Url V C Source)
      → Option Answer
  of_source pkg parent none = none
  of_source pkg parent (some (src, r)) =
      some (and_ok src (λ s. and_ok (calls.deps_of s parent) (λ deps. ok (each_dep pkg deps))), r)

  abbrev answered :
      Option (List (Incompatibility (PackageId Url) C)) → Retriever Url V C Source → Option Answer
  answered none r = none
  answered (some res) r = some (ok res, r)

  abbrev of_place :
      PackageId Url → Option (Place Url V C) → Retriever Url V C Source → Option Answer
  of_place id none r = some (err package_not_found, r)
  of_place id (some place) r = answered (of_deps sv rs id place place.entry.dependencies) r

  abbrev of_entries :
      Summary (PackageId Url) V
      → Result (Entries Url V C) × Retriever Url V C Source
      → Option Answer
  of_entries pkg (err f, r) = some (err f, r)
  of_entries pkg (ok m, r) = of_place pkg.id (find_place pkg.version [] m) r

  -- `none` is a panic.
  unfoldable pub incompats :
      Summary (PackageId Url) V → PackageId Url → Retriever Url V C Source → Option Answer
  unfolding from_dep of_deps find_place direct_checkout entries
  incompats pkg parent r =
      if pkg.id == r.root.id && pkg.version == r.root.version
      then some (ok (each_dep pkg r.root_deps), r)
      else elim (direct pkg.id.resolution) [
        | some d ↦ of_source pkg parent (direct_checkout before calls pkg.id none false r)
        | none ↦ of_entries pkg (entries before calls pkg.id r)
      ]
