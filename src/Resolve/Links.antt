-- ===== src/Resolve/Links.antt =====
-- The indices that tie the resolver's parts together: causes of derivations, causes of derived
-- incompatibilities, and the incompatibilities listed for a package.
pub mod Kept
use elba.Prelude.{
  ℕ, zero, suc, ◌+◌, ◌<◌, Bool, true, Option, none, some, List, [], ◌∷◌, ◌++◌, ◌≡◌, refl, Eq, ◌==◌,
  inl, inr, arith, reverse, beq_sym, sym, subst, ap, length, get_elem?, get_elem?-append_left,
  get_elem?-snoc, All, All-append, All-append_left, All-map_of, Option-cases, some_inj, Bool-cases,
  ◌∙◌, if◌then◌else◌,
}
use elba.Prelude.IndexMap.{IndexMap, get, get_cong, insert, contains_key, is_some}
use elba.Prelude.Outcome.{Keeps}
use elba.Semver.{Semver}
use elba.Retriever.{Retriever}
use elba.Resolve.Assignment.{Assignment, AssignmentType}
use elba.Resolve.Backtrack.{Unwound, unwind, rewound}
use elba.Resolve.Frames.{Rest, rest, rest-register, rest-rewound}
use elba.Resolve.Incompat.{Incompatibility, IncompatibilityCause}
use elba.Resolve.Preserve.{Preserved, Supplies, HasTerm, IsSourced}
use elba.Resolve.Preserve.Solve.{decide_all-Keeps}
use elba.Resolve.Replay.{kept_prefix}
use elba.Resolve.Solve.{decide_all}
use elba.Resolve.State.{Resolver, decision, derivation, register, new, push_index, index_terms}

module _ {P V C : Type 0} (sv : Semver V C) where
  -- A derivation says the complement of a term of the incompatibility that it names.
  abbrev pub Caused : List (Incompatibility P C) → P → AssignmentType V C → Type 0
  Caused ics pkg (AssignmentType.decision v) = Unit
  Caused ics pkg (AssignmentType.derivation c cause positive) =
      (inc : Incompatibility P C) × (con : C) × (get_elem? ics cause ≡ some inc)
      × HasTerm pkg con inc.deps
      × (c ≡ sv.complement con)

  pub Caused-mono :
      (ics more : List (Incompatibility P C)) (pkg : P) (ty : AssignmentType V C)
      → Caused ics pkg ty
      → Caused (ics ++ more) pkg ty
  Caused-mono ics more pkg (AssignmentType.decision v) h = tt
  Caused-mono ics more pkg (AssignmentType.derivation c cause positive) (inc, con, known, term, e) =
      (inc, con, get_elem?-append_left ics more cause known, term, e)

-- A derived incompatibility comes behind the two that it was derived from.
abbrev pub Sourced : {P C : Type 0} → ℕ → List (Incompatibility P C) → Type 0
Sourced n [] = Unit
Sourced n (ic ∷ ics) = IsSourced n ic.cause × Sourced (suc n) ics

pub Sourced-snoc :
    {P C : Type 0} (n k : ℕ) (ics : List (Incompatibility P C)) (ic : Incompatibility P C)
    → n + length ics ≡ k
    → IsSourced k ic.cause
    → Sourced n ics
    → Sourced n (ics ++ ic ∷ [])
Sourced-snoc n k [] ic e h s =
    let e' : k ≡ n = omega arith in (subst (λ j. IsSourced j ic.cause) e' h, tt)
Sourced-snoc n k (i ∷ ics) ic e h s = (s.0, Sourced-snoc (suc n) k ics ic (omega arith) h s.1)

module _ {P C : Type 0} ⦃e : Eq P⦄ where
  -- The incompatibility at `ix` has a term for the package.
  abbrev pub Mentions : List (Incompatibility P C) → P → ℕ → Type 0
  Mentions ics p ix =
      (inc : Incompatibility P C) × (get_elem? ics ix ≡ some inc) × (contains_key p inc.deps ≡ true)

  abbrev pub Indexed : List (Incompatibility P C) → IndexMap P (List ℕ) → Type 0
  Indexed ics ixs = All (λ (p, l). All (Mentions ics p) l) ixs

  Mentions-cong :
      (ics : List (Incompatibility P C)) (p q : P) (ix : ℕ)
      → (p == q) ≡ true
      → Mentions ics p ix
      → Mentions ics q ix
  Mentions-cong ics p q ix same (inc, known, has) =
      (inc, known, ap is_some (sym (get_cong p q inc.deps same)) ∙ has)

  get-Indexed :
      (ics : List (Incompatibility P C)) (p : P) (ixs : IndexMap P (List ℕ)) (l : List ℕ)
      → Indexed ics ixs
      → get p ixs ≡ some l
      → All (Mentions ics p) l
  unfolding get
  get-Indexed ics p [] l h e = cc
  get-Indexed ics p ((q, m) ∷ ixs) l h e = elim (Bool-cases (q == p)) [
    | inl same ↦
        subst (All (Mentions ics p)) (some_inj (rw same at e))
          (All-map_of _ _ (λ ix. Mentions-cong ics q p ix same) m h.0)
    | inr other ↦ get-Indexed ics p ixs l h.1 (rw other at e)
  ]

  insert-Indexed :
      (ics : List (Incompatibility P C)) (p : P) (l : List ℕ) (ixs : IndexMap P (List ℕ))
      → All (Mentions ics p) l
      → Indexed ics ixs
      → Indexed ics (insert p l ixs)
  unfolding insert
  insert-Indexed ics p l [] m h = (m, tt)
  insert-Indexed ics p l ((q, k) ∷ ixs) m h = elim (Bool-cases (q == p)) [
    | inl same ↦
        rw (same, insert)
          (All-map_of _ _ (λ ix. Mentions-cong ics p q ix (beq_sym q p same)) l m, h.1)
    | inr other ↦ rw (other, insert) (h.0, insert-Indexed ics p l ixs m h.1)
  ]

  push-Indexed :
      (ics : List (Incompatibility P C)) (p : P) (ix : ℕ) (ixs : IndexMap P (List ℕ))
      → Mentions ics p ix
      → Indexed ics ixs
      → All (Mentions ics p) (push_index ix (get p ixs))
  push-Indexed ics p ix ixs m h = elim (Option-cases (get p ixs)) [
    | inl e ↦ rw e (m, tt)
    | inr (l, e) ↦
        rw e (All-append (Mentions ics p) l (ix ∷ []) (get-Indexed ics p ixs l h e) (m, tt))
  ]

  pub index_terms-Indexed :
      (ics : List (Incompatibility P C)) (ix : ℕ) (deps : IndexMap P C) (ixs : IndexMap P (List ℕ))
      → All (λ (p, c). Mentions ics p ix) deps
      → Indexed ics ixs
      → Indexed ics (index_terms ix deps ixs)
  unfolding index_terms
  index_terms-Indexed ics ix [] ixs m h = h
  index_terms-Indexed ics ix ((p, c) ∷ deps) ixs m h =
      index_terms-Indexed ics ix deps _ m.1
        (insert-Indexed ics p _ ixs (push-Indexed ics p ix ixs m.0 h) h)

  pub Mentions-mono :
      (ics more : List (Incompatibility P C)) (p : P) (ix : ℕ)
      → Mentions ics p ix
      → Mentions (ics ++ more) p ix
  Mentions-mono ics more p ix (inc, known, has) =
      (inc, get_elem?-append_left ics more ix known, has)

  -- Every key of a map is found in it.
  pub keys_found :
      (Q : P → Type 0) (deps all : IndexMap P C)
      → ((p : P) → contains_key p all ≡ true → Q p)
      → ((p : P) → contains_key p deps ≡ true → contains_key p all ≡ true)
      → All (λ (p, c). Q p) deps
  unfolding get
  keys_found Q [] all q sub = tt
  keys_found Q ((p, c) ∷ deps) all q sub =
      (q p (sub p (rw (e.beq_refl p))), keys_found Q deps all q (λ p' h. sub p' (later p' h)))
    where
      later : (p' : P) → contains_key p' deps ≡ true → contains_key p' ((p, c) ∷ deps) ≡ true
      later p' h = ground arith
