-- ===== src/Update.antt =====
-- cli/build.rs, `update`: what is said of the old lockfile and the new solution.
pub mod Lines
use elba.Prelude.{
  ℕ, Bool, true, false, not, ◌&&◌, Option, none, some, List, [], ◌∷◌, ◌++◌, ◌≡◌, refl, ap, ◌∙◌, inl,
  inr, arith, Eq, ◌==◌, Bool-cases, Option-cases, find, beq_comm, if◌then◌else◌,
}
use elba.Prelude.Members.{from_to}
use elba.Graph.{Petgraph, find_by}
use elba.Package.PackageId.{PackageId, lowkey_eq, package_eq}
use elba.Resolve.Incompat.{Summary}

-- The lines that are printed.
pub data Change (S : Type 0) : Type 0 where
  updating_source : (old new : S) → Change S
  updating_version : (old new : S) → Change S
  removing : (old : S) → Change S
  adding : (new : S) → Change S

module _ {Url V G : Type 0} ⦃e : Eq Url⦄ ⦃v : Eq V⦄ (pg : Petgraph (Summary (PackageId Url) V) G)
    (solve : G) where
  abbrev pub same_id : Summary (PackageId Url) V → Summary (PackageId Url) V → Bool
  same_id a b = a.id == b.id

  -- `old` and what is found for it.
  abbrev pub compare_with :
      Summary (PackageId Url) V
      → Option (Summary (PackageId Url) V)
      → List (Change (Summary (PackageId Url) V))
  compare_with old none = removing old ∷ []
  compare_with old (some new) =
      if not (same_id old new)
      then updating_source old new ∷ []
      else if not (same_id old new && old.version == new.version)
      then updating_version old new ∷ []
      else []

  -- The first loop.
  unfoldable pub old_lines :
      List (Summary (PackageId Url) V) → List (Change (Summary (PackageId Url) V))
  old_lines [] = []
  old_lines (old ∷ olds) =
      compare_with old (find_by pg (λ sum. lowkey_eq sum.id old.id) solve) ++ old_lines olds

  abbrev pub added_line :
      Summary (PackageId Url) V
      → Option (Summary (PackageId Url) V)
      → List (Change (Summary (PackageId Url) V))
  added_line new none = adding new ∷ []
  added_line new (some sum) = []

  -- The second loop.
  unfoldable pub new_lines :
      List (Summary (PackageId Url) V) → List (Change (Summary (PackageId Url) V))
  new_lines [] = []
  new_lines (new ∷ news) =
      added_line new (find_by pg (λ sum. lowkey_eq new.id sum.id) solve) ++ new_lines news

  -- Both go over the packages of the old lockfile.
  unfoldable pub update_lines :
      List (Summary (PackageId Url) V) → List (Change (Summary (PackageId Url) V))
  unfolding old_lines new_lines
  update_lines prev = old_lines prev ++ new_lines prev
