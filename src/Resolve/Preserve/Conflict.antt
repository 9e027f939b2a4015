-- ===== src/Resolve/Preserve/Conflict.antt =====
-- The rule of `Preserve` for conflict resolution.
use elba.Prelude.{ℕ, zero, suc, Bool, true, false, some, ◌≡◌, Eq, get_elem?, get_elem?-lt, ltb}
use elba.Prelude.Outcome.{M, Keeps, Keeps-and_then, Keeps-if, Keeps-on_option, Keeps-unwrap}
use elba.Semver.{Semver}
use elba.Retriever.{Retriever}
use elba.Resolve.Assignment.{Assignment, cause}
use elba.Resolve.Incompat.{Incompatibility}
use elba.Resolve.Backtrack.{backtrack}
use elba.Resolve.Conflict.{
  Search, search_start, search_terms, return_to, resolvent, resolve_on, resolve_round, resolve_loop,
  resolve_conflict, is_failure,
}
use elba.Resolve.Preserve.{Preserved, backtrack-Keeps, incompat_ixs-Keeps}
use elba.Resolve.State.{Resolver, incompat_ixs}

module _ {P V C R : Type 0} ⦃e : Eq P⦄ (sv : Semver V C) (I : Resolver P V C R → Type 0)
    (kept : Preserved sv I) where
  return_to-Keeps :
      (level inc : ℕ) (new_incompatibility : Bool) (s : Resolver P V C R)
      → I s
      → Keeps I (return_to sv level inc new_incompatibility s)
  unfolding return_to
  return_to-Keeps level inc false s h =
      Keeps-and_then I (backtrack sv level s) _ (backtrack-Keeps sv I kept level s h) (λ _ t i. i)
  return_to-Keeps level inc true s h =
      Keeps-and_then I (backtrack sv level s) _ (backtrack-Keeps sv I kept level s h) λ _ t i.
        Keeps-and_then I (incompat_ixs inc t) _ (incompat_ixs-Keeps sv I kept inc t i)
          (λ _ t' i'. i')

  resolvent-Keeps :
      (inc cause_ix : ℕ) (i : Incompatibility P C) (v : Search P V C) (s : Resolver P V C R)
      → get_elem? s.incompats inc ≡ some i
      → I s
      → Keeps I (resolvent sv inc cause_ix i v s)
  unfolding resolvent
  resolvent-Keeps inc cause_ix i v s known h = Keeps-unwrap I v.most_recent_satisfier s _ λ mrs _.
      Keeps-unwrap I v.most_recent_term s _ λ mrt _.
        Keeps-unwrap I (get_elem? s.incompats cause_ix) s _ λ j e.
          kept.on_learn _ s
            (get_elem?-lt s.incompats inc known, get_elem?-lt s.incompats cause_ix e) h

module _ {P V C R : Type 0} ⦃e : Eq P⦄ (sv : Semver V C) (ret : Retriever P V C R)
    (I : Resolver P V C R → Type 0) (kept : Preserved sv I) where
  resolve_on-Keeps :
      (again : ℕ → M (Resolver P V C R) ℕ)
      → ((inc : ℕ) (s : Resolver P V C R) → I s → Keeps I (again inc s))
      → (inc : ℕ) (new_incompatibility : Bool) (i : Incompatibility P C) (v : Search P V C)
        (mrs : Assignment P V C) (s : Resolver P V C R)
      → get_elem? s.incompats inc ≡ some i
      → I s
      → Keeps I (resolve_on sv ret again inc new_incompatibility i v mrs s)
  unfolding resolve_on
  resolve_on-Keeps again next inc new i v mrs s known h =
      Keeps-on_option I (cause mrs) s _ _ back λ cause_ix _.
        Keeps-if I (ltb v.previous_satisfier_level mrs.level) s _ _ back (
          Keeps-and_then I (resolvent sv inc cause_ix i v s) again
            (resolvent-Keeps sv I kept inc cause_ix i v s known h) next)
    where
      back : Keeps I (return_to sv v.previous_satisfier_level inc new s)
      back = return_to-Keeps sv I kept v.previous_satisfier_level inc new s h

  resolve_round-Keeps :
      (again : ℕ → M (Resolver P V C R) ℕ)
      → ((inc : ℕ) (s : Resolver P V C R) → I s → Keeps I (again inc s))
      → (inc : ℕ) (new_incompatibility : Bool) (s : Resolver P V C R) → I s
      → Keeps I (resolve_round sv ret again inc new_incompatibility s)
  unfolding resolve_round
  resolve_round-Keeps again next inc new s h =
      Keeps-unwrap I (get_elem? s.incompats inc) s _ λ i known.
        Keeps-if I (is_failure sv ret s i) s _ _ h (
          Keeps-unwrap I (search_terms sv s i.deps search_start) s _ λ v _.
            Keeps-unwrap I v.most_recent_satisfier s _
              λ mrs _. resolve_on-Keeps again next inc new i v mrs s known h)

  resolve_loop-Keeps :
      (fuel inc : ℕ) (new_incompatibility : Bool) (s : Resolver P V C R)
      → I s
      → Keeps I (resolve_loop sv ret fuel inc new_incompatibility s)
  unfolding resolve_loop
  resolve_loop-Keeps zero inc new s h = h
  resolve_loop-Keeps (suc fuel) inc new s h =
      resolve_round-Keeps (λ inc'. resolve_loop sv ret fuel inc' true)
        (λ inc' t. resolve_loop-Keeps fuel inc' true t) inc new s h

  pub resolve_conflict-Keeps :
      (fuel inc : ℕ) (s : Resolver P V C R) → I s → Keeps I (resolve_conflict sv ret fuel inc s)
  unfolding resolve_conflict
  resolve_conflict-Keeps fuel inc = resolve_loop-Keeps fuel inc false
