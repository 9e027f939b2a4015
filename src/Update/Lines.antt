-- ===== src/Update/Lines.antt =====
-- Which packages `update` says are added.
use mathlib.Core.Path.{fun_ext}
use elba.Prelude.{
  Bool, true, false, not, ◌&&◌, Option, none, some, List, [], ◌∷◌, ◌++◌, ◌≡◌, refl, sym, ap, ◌∙◌,
  arith, Eq, ◌==◌, beq_comm, if◌then◌else◌,
}
use elba.Graph.{Petgraph, find_by}
use elba.Package.Name.{name_eq}
use elba.Package.PackageId.{PackageId, lowkey_eq, package_eq}
use elba.Remote
use elba.Remote.DirectRes.{DirectRes, git, dir, tar, direct_eqb, direct_eqb_refl, direct_eqb_cong}
use elba.Remote.IndexRes.{index_eq}
use elba.Remote.Resolution.{Resolution, direct_res, index_res}
use elba.Resolve.Incompat.{Summary}
use elba.Update.{
  Change, updating_source, updating_version, removing, adding, compare_with, added_line, old_lines,
  new_lines, update_lines,
}

module _ {Url : Type 0} ⦃e : Eq Url⦄ where
  direct_eqb_comm : (a b : DirectRes Url) → direct_eqb a b ≡ direct_eqb b a
  direct_eqb_comm a b =
      ground
        (arith, direct_eqb_cong a b a, direct_eqb_cong b a b, direct_eqb_refl a, direct_eqb_refl b)

  direct_lowkey_comm :
      (a b : DirectRes Url) → Remote.DirectRes.lowkey_eq a b ≡ Remote.DirectRes.lowkey_eq b a
  unfolding Remote.DirectRes.lowkey_eq direct_eqb
  direct_lowkey_comm (git r t) (git r' t') = beq_comm r r'
  direct_lowkey_comm (git r t) (dir p) = refl
  direct_lowkey_comm (git r t) (tar u c) = refl
  direct_lowkey_comm (dir p) (git r t) = refl
  direct_lowkey_comm (dir p) (dir p') = direct_eqb_comm (dir p) (dir p')
  direct_lowkey_comm (dir p) (tar u c) = refl
  direct_lowkey_comm (tar u c) (git r t) = refl
  direct_lowkey_comm (tar u c) (dir p) = refl
  direct_lowkey_comm (tar u c) (tar u' c') = direct_eqb_comm (tar u c) (tar u' c')

  lowkey_comm : (a b : PackageId Url) → lowkey_eq a b ≡ lowkey_eq b a
  unfolding lowkey_eq Remote.Resolution.lowkey_eq
  lowkey_comm a b = ground (arith, beq_comm a.name b.name, by_kind a.resolution b.resolution)
    where
      by_kind :
          (r r' : Resolution Url)
          → Remote.Resolution.lowkey_eq r r' ≡ Remote.Resolution.lowkey_eq r' r
      by_kind (direct_res d) (direct_res d') = direct_lowkey_comm d d'
      by_kind (direct_res d) (index_res i) = refl
      by_kind (index_res i) (direct_res d) = refl
      by_kind (index_res i) (index_res i') = beq_comm i i'

module _ {S : Type 0} where
  abbrev pub added : List (Change S) → List S
  added [] = []
  added (adding new ∷ ls) = new ∷ added ls
  added (removing old ∷ ls) = added ls
  added (updating_source old new ∷ ls) = added ls
  added (updating_version old new ∷ ls) = added ls

  abbrev pub removed : List (Change S) → List S
  removed [] = []
  removed (removing old ∷ ls) = old ∷ removed ls
  removed (adding new ∷ ls) = removed ls
  removed (updating_source old new ∷ ls) = removed ls
  removed (updating_version old new ∷ ls) = removed ls

  added-append : (xs ys : List (Change S)) → added (xs ++ ys) ≡ added xs ++ added ys
  added-append [] ys = refl
  added-append (adding new ∷ xs) ys = ap (λ zs. new ∷ zs) (added-append xs ys)
  added-append (removing old ∷ xs) ys = added-append xs ys
  added-append (updating_source old new ∷ xs) ys = added-append xs ys
  added-append (updating_version old new ∷ xs) ys = added-append xs ys

  removed-append : (xs ys : List (Change S)) → removed (xs ++ ys) ≡ removed xs ++ removed ys
  removed-append [] ys = refl
  removed-append (removing old ∷ xs) ys = ap (λ zs. old ∷ zs) (removed-append xs ys)
  removed-append (adding new ∷ xs) ys = removed-append xs ys
  removed-append (updating_source old new ∷ xs) ys = removed-append xs ys
  removed-append (updating_version old new ∷ xs) ys = removed-append xs ys

append_nil : {A : Type 0} (xs : List A) → xs ++ [] ≡ xs
append_nil [] = refl
append_nil (x ∷ xs) = ap (λ ys. x ∷ ys) (append_nil xs)

-- Neither line of an update adds or removes.
module _ {S : Type 0} (old new : S) where
  added-updating :
      (b c : Bool)
      → added (
          if b
          then updating_source old new ∷ []
          else if c
          then updating_version old new ∷ []
          else [])
        ≡ []
  added-updating true c = refl
  added-updating false true = refl
  added-updating false false = refl

  removed-updating :
      (b c : Bool)
      → removed (
          if b
          then updating_source old new ∷ []
          else if c
          then updating_version old new ∷ []
          else [])
        ≡ []
  removed-updating true c = refl
  removed-updating false true = refl
  removed-updating false false = refl

module _ {Url V G : Type 0} ⦃e : Eq Url⦄ ⦃v : Eq V⦄ (pg : Petgraph (Summary (PackageId Url) V) G)
    (solve : G) where
  -- Both loops look for a package in the same way.
  same_search :
      (old : Summary (PackageId Url) V)
      → find_by pg (λ sum. lowkey_eq sum.id old.id) solve
        ≡ find_by pg (λ sum. lowkey_eq old.id sum.id) solve
  same_search old =
      ap (λ (p : Summary (PackageId Url) V → Bool). find_by pg p solve)
        (fun_ext (λ sum. lowkey_comm sum.id old.id))

  removed-compare_with :
      (old : Summary (PackageId Url) V) (found : Option (Summary (PackageId Url) V))
      → removed (compare_with pg solve old found) ≡ added (added_line pg solve old found)
  removed-compare_with old none = refl
  removed-compare_with old (some new) =
      removed-updating old new (not (old.id == new.id))
        (not (old.id == new.id && old.version == new.version))

  added-compare_with :
      (old : Summary (PackageId Url) V) (found : Option (Summary (PackageId Url) V))
      → added (compare_with pg solve old found) ≡ []
  added-compare_with old none = refl
  added-compare_with old (some new) =
      added-updating old new (not (old.id == new.id))
        (not (old.id == new.id && old.version == new.version))

  removed-added_line :
      (new : Summary (PackageId Url) V) (found : Option (Summary (PackageId Url) V))
      → removed (added_line pg solve new found) ≡ []
  removed-added_line new none = refl
  removed-added_line new (some sum) = refl

  added-old_lines : (prev : List (Summary (PackageId Url) V)) → added (old_lines pg solve prev) ≡ []
  unfolding old_lines
  added-old_lines [] = refl
  added-old_lines (old ∷ prev) =
      let found = find_by pg (λ sum. lowkey_eq sum.id old.id) solve in
      added-append (compare_with pg solve old found) (old_lines pg solve prev)
      ∙ rw (added-compare_with old found) (added-old_lines prev)

  removed-new_lines :
      (prev : List (Summary (PackageId Url) V)) → removed (new_lines pg solve prev) ≡ []
  unfolding new_lines
  removed-new_lines [] = refl
  removed-new_lines (new ∷ prev) =
      let found = find_by pg (λ sum. lowkey_eq new.id sum.id) solve in
      removed-append (added_line pg solve new found) (new_lines pg solve prev)
      ∙ rw (removed-added_line new found) (removed-new_lines prev)

  removed-old_lines :
      (prev : List (Summary (PackageId Url) V))
      → removed (old_lines pg solve prev) ≡ added (new_lines pg solve prev)
  unfolding old_lines new_lines
  removed-old_lines [] = refl
  removed-old_lines (old ∷ prev) =
      let found = find_by pg (λ sum. lowkey_eq sum.id old.id) solve in
      let found' = find_by pg (λ sum. lowkey_eq old.id sum.id) solve in
      removed-append (compare_with pg solve old found) (old_lines pg solve prev)
      ∙ ap (λ xs. xs ++ removed (old_lines pg solve prev))
          (removed-compare_with old found
            ∙ ap (λ o. added (added_line pg solve old o)) (same_search old))
      ∙ ap (λ xs. added (added_line pg solve old found') ++ xs) (removed-old_lines prev)
      ∙ sym (added-append (added_line pg solve old found') (new_lines pg solve prev))

  -- The packages that `update` says are added are the very ones that it says are removed, whatever the new
  -- solution holds.
  pub added-update_lines :
      (prev : List (Summary (PackageId Url) V))
      → added (update_lines pg solve prev) ≡ removed (update_lines pg solve prev)
  unfolding update_lines
  added-update_lines prev =
      added-append (old_lines pg solve prev) (new_lines pg solve prev)
      ∙ ap (λ xs. xs ++ added (new_lines pg solve prev)) (added-old_lines prev)
      ∙ sym (removed-old_lines prev)
      ∙ sym (
          removed-append (old_lines pg solve prev) (new_lines pg solve prev)
          ∙ ap (λ xs. removed (old_lines pg solve prev) ++ xs) (removed-new_lines prev)
          ∙ append_nil (removed (old_lines pg solve prev)))
