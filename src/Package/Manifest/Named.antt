-- ===== src/Package/Manifest/Named.antt =====
-- package/manifest.rs: the result of `deps` against the dependencies of the manifest.
use elba.Prelude.{
  Bool, true, false, Option, none, some, List, [], ◌∷◌, ◌++◌, ◌≡◌, refl, sym, ap, subst, ◌∙◌, ◌⊎◌,
  inl, inr, Eq, ◌==◌, get_elem?, if◌then◌else◌, Option-cases,
}
use elba.Prelude.IndexMap.{IndexMap, get, insert, get-insert}
use elba.Prelude.Outcome.{
  Error, Result, ok, err, and_ok, no_default_index, parent_not_local, Result-cases,
}
use elba.Prelude.Text.{Text, text_eq}
use elba.Package.Name.{Name}
use elba.Package.PackageId.{PackageId, package_eq}
use elba.Package.Manifest.{
  DepReq, registry, reg_long, local_dep, git_dep, Manifest, into_dep, add_dependencies, deps,
  parent_root,
}
use elba.Remote.IndexRes.{IndexRes}
use elba.Remote.DirectRes.{git, tar, dir}
use elba.Remote.Resolution.{Resolution, direct_res, index_res}
use elba.Remote.Url.{UrlCrate}
use elba.Remote
use elba.Semver.{Semver}

-- The dependencies that are asked for, in their order: those for development only with `dev_deps`.
abbrev pub asked : {Url C : Type 0} → Manifest Url C → Bool → List (Name × DepReq Url C)
asked m dev_deps = m.dependencies ++ (if dev_deps then m.dev_dependencies else [])

parent_root-cases :
    {Url : Type 0} (r : Resolution Url)
    → ((parent_root r ≡ none) × ((root : Text) → ¬ (r ≡ direct_res (dir root))))
      ⊎ ((root : Text) × (r ≡ direct_res (dir root)))
parent_root-cases (direct_res (dir path)) = inr (path, refl)
parent_root-cases (direct_res (git repo tag)) = inl (refl, λ root h. cc)
parent_root-cases (direct_res (tar url cksum)) = inl (refl, λ root h. cc)
parent_root-cases (index_res ix) = inl (refl, λ root h. cc)

module _ {Url V C : Type 0} ⦃e : Eq Url⦄ (sv : Semver V C) (crate : UrlCrate Url)
    (join : Text → Text → Text) (ixmap : IndexMap Text (IndexRes Url))
    (parent_pkg : PackageId Url) where
  -- The package and the constraint that a dependency of the manifest stands for.
  abbrev pub IsFor : Name × DepReq Url C → PackageId Url × C → Type 0
  IsFor (n, registry c) x =
      (ix : Text × IndexRes Url) × (get_elem? ixmap 0 ≡ some ix)
      × (x ≡ (record { name = n; resolution = index_res ix.1 }, c))
  IsFor (n, reg_long version index) x =
      (ix : IndexRes Url) × ((get index ixmap ≡ some ix)
        ⊎ ((get index ixmap ≡ none) × (Remote.IndexRes.from_str crate index ≡ ok ix)))
      × (x ≡ (record { name = n; resolution = index_res ix }, version))
  IsFor (n, local_dep path) x =
      (root : Text) × (parent_pkg.resolution ≡ direct_res (dir root))
      × (x ≡ (record { name = n; resolution = direct_res (dir (join root path)) }, sv.any))
  IsFor (n, git_dep repo tag) x =
      x ≡ (record { name = n; resolution = direct_res (git repo tag) }, sv.any)

  -- Why there is no such package.
  abbrev pub Lacks : DepReq Url C → Error → Type 0
  Lacks (registry c) x = (ixmap ≡ []) × (x ≡ no_default_index)
  Lacks (reg_long version index) x =
      (get index ixmap ≡ none) × (Remote.IndexRes.from_str crate index ≡ err x)
  Lacks (local_dep path) x =
      ((root : Text) → ¬ (parent_pkg.resolution ≡ direct_res (dir root))) × (x ≡ parent_not_local)
  Lacks (git_dep repo tag) x = ⊥

  abbrev pub AllFor : List (Name × DepReq Url C) → List (PackageId Url × C) → Type 0
  AllFor [] [] = Unit
  AllFor [] (x ∷ xs) = ⊥
  AllFor (d ∷ ds) [] = ⊥
  AllFor (d ∷ ds) (x ∷ xs) = IsFor d x × AllFor ds xs

  -- The first dependency for which there is no package has the error `x`.
  abbrev pub FirstLacks : Error → List (Name × DepReq Url C) → Type 0
  FirstLacks x [] = ⊥
  FirstLacks x ((n, dep) ∷ ds) =
      Lacks dep x ⊎ ((y : PackageId Url × C) × IsFor (n, dep) y × FirstLacks x ds)

  -- The constraint of the last that has the package, or `c` if none has.
  abbrev pub last_of : PackageId Url → List (PackageId Url × C) → Option C → Option C
  last_of q [] c = c
  last_of q ((p, d) ∷ xs) c = last_of q xs (if p == q then some d else c)

  into_dep-cases :
      (n : Name) (dep : DepReq Url C)
      → ((x : Error) × (into_dep sv crate join ixmap parent_pkg dep n ≡ err x) × Lacks dep x)
        ⊎ ((y : PackageId Url × C) × (into_dep sv crate join ixmap parent_pkg dep n ≡ ok y)
            × IsFor (n, dep) y)
  unfolding into_dep
  into_dep-cases n (registry c) = by_first ixmap refl
    where
      by_first :
          (m : IndexMap Text (IndexRes Url))
          → ixmap ≡ m
          → ((x : Error) × (into_dep sv crate join ixmap parent_pkg (registry c) n ≡ err x)
              × Lacks (registry c) x)
            ⊎ ((y : PackageId Url × C) × (into_dep sv crate join ixmap parent_pkg (registry c) n
                  ≡ ok y)
                × IsFor (n, registry c) y)
      by_first [] h = inl (no_default_index, rw h refl, (h, refl))
      by_first (ix ∷ m) h = inr (_, rw h refl, (ix, rw h refl, refl))
  into_dep-cases n (reg_long version index) = elim (Option-cases (get index ixmap)) [
    | inr (ix, at) ↦ inr (_, rw at refl, (ix, inl at, refl))
    | inl missing ↦ elim (Result-cases (Remote.IndexRes.from_str crate index)) [
      | inl (x, r) ↦ inl (x, rw (missing, r) refl, (missing, r))
      | inr (ix, r) ↦ inr (_, rw (missing, r) refl, (ix, inr (missing, r), refl))
    ]
  ]
  into_dep-cases n (local_dep path) = elim (parent_root-cases parent_pkg.resolution) [
    | inl (r, other) ↦ inl (parent_not_local, rw r refl, (other, refl))
    | inr (root, r) ↦ inr (_, rw r refl, (root, r, refl))
  ]
  into_dep-cases n (git_dep repo tag) = inr (_, refl, refl)

  -- A loop over `ds` that starts with the map `m` ends with the error of the first dependency that
  -- lacks its package, or adds what each is for.
  abbrev pub Added :
      List (Name × DepReq Url C)
      → IndexMap (PackageId Url) C
      → Result (IndexMap (PackageId Url) C)
      → Type 0
  Added ds m r =
      ((x : Error) × (r ≡ err x) × FirstLacks x ds)
      ⊎ ((found : IndexMap (PackageId Url) C) × (xs : List (PackageId Url × C)) × (r ≡ ok found)
          × AllFor ds xs
          × ((q : PackageId Url) → get q found ≡ last_of q xs (get q m)))

  add_dependencies-Added :
      (ds : List (Name × DepReq Url C)) (m : IndexMap (PackageId Url) C)
      → Added ds m (add_dependencies sv crate join ixmap parent_pkg ds m)
  unfolding add_dependencies
  add_dependencies-Added [] m = inr (m, [], refl, tt, λ q. refl)
  add_dependencies-Added ((n, dep) ∷ ds) m = elim (into_dep-cases n dep) [
    | inl (x, r, l) ↦ inl (x, rw r refl, inl l)
    | inr ((pid, c), r, h) ↦ elim (add_dependencies-Added ds (insert pid c m)) [
      | inl (x, s, l) ↦ inl (x, rw r s, inr ((pid, c), h, l))
      | inr (found, xs, s, all, at) ↦ inr (
        found,
        (pid, c) ∷ xs,
        rw r s,
        (h, all),
        λ q. at q ∙ ap (last_of q xs) (get-insert q pid c m),
      )
    ]
  ]

  -- Two loops in a row are one over both lists.
  add_dependencies-append :
      (ds es : List (Name × DepReq Url C)) (m : IndexMap (PackageId Url) C)
      → add_dependencies sv crate join ixmap parent_pkg (ds ++ es) m
        ≡ and_ok
            (add_dependencies sv crate join ixmap parent_pkg ds m)
            (add_dependencies sv crate join ixmap parent_pkg es)
  unfolding add_dependencies
  add_dependencies-append [] es m = refl
  add_dependencies-append ((n, dep) ∷ ds) es m =
      elim (Result-cases (into_dep sv crate join ixmap parent_pkg dep n)) [
        | inl (x, r) ↦ rw r refl
        | inr ((pid, c), r) ↦ rw r (add_dependencies-append ds es (insert pid c m))
      ]

  deps-asked :
      (m : Manifest Url C) (dev_deps : Bool)
      → deps sv crate join ixmap parent_pkg m dev_deps
        ≡ add_dependencies sv crate join ixmap parent_pkg (asked m dev_deps) []
  unfolding deps add_dependencies
  deps-asked m true = sym (add_dependencies-append m.dependencies m.dev_dependencies [])
  deps-asked m false = sym (add_dependencies-append m.dependencies [] [])

  -- `deps` fails with the error of the first dependency that is asked for and lacks its package: there
  -- is no index at all, the index has no name in the map and does not read, or the parent is not a
  -- directory. Otherwise each dependency has the package and the constraint that the manifest gives, in the
  -- default index, in the index that it names, in a directory of the parent or in a repository; and
  -- the result has these packages and no other, each with the constraint of the last dependency
  -- that is for it.
  pub deps-Asked :
      (m : Manifest Url C) (dev_deps : Bool)
      → Added (asked m dev_deps) [] (deps sv crate join ixmap parent_pkg m dev_deps)
  deps-Asked m dev_deps =
      subst (Added (asked m dev_deps) []) (sym (deps-asked m dev_deps))
        (add_dependencies-Added (asked m dev_deps) [])
