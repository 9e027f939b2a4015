-- ===== src/Tests.antt =====
-- Runs of the resolver on small inputs. The witnesses of the theorems are in the child modules.
mod Building
mod Locking
mod Resolving
mod Names
mod Ranges
mod Sources
use elba.Prelude.{ℕ, nat_eq, List, [], ◌∷◌, ◌≡◌, refl}
use elba.Prelude.IndexMap.{get, insert, remove}
use elba.Prelude.IndexSet
use elba.Prelude.Outcome.{Outcome, done}
use elba.Resolve.Propagate.{propagate_incompat, scan}
use elba.Resolve.Satisfier.{relation, satisfier}
use elba.Resolve.Solve.{decide_all}
use elba.Resolve.State.{Resolver, new, derivation, decision, index_terms, incompatibility}
use elba.Resolve.Assignment.{constraint_of, cause_of}
use elba.Resolve.Backtrack.{backtrack}
use elba.Samples.{Ver, v1, v2, Mask, masks, from_index, conflicting}

-- Everything that a run of the resolver computes with.
machine : Unit {0}
unfolding decide_all new from_index propagate_incompat scan relation satisfier derivation decision
    index_terms incompatibility constraint_of cause_of backtrack get insert remove IndexSet.contains
    IndexSet.insert
machine = tt

abbrev decisions_of : Outcome (Resolver ℕ Ver Mask (Unit {0})) (Unit {0}) → List (ℕ × Ver)
decisions_of (done a s) = s.decisions
decisions_of _ = []

-- The conflict over package 3 is resolved for the older version of package 1.
decided :
    decisions_of (decide_all masks (from_index conflicting) 30 (new tt))
    ≡ (0, v1) ∷ (2, v2) ∷ (3, v1) ∷ (1, v1) ∷ []
unfolding machine
decided = refl
