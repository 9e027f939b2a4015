-- ===== src/Resolve/State.antt =====
-- resolve/mod.rs, the state of the resolver and the methods that record an assignment or an
-- incompatibility.
use elba.Prelude.{
  ℕ, ◌+◌, ◌%◌, Bool, true, ◌||◌, Option, none, some, List, [], ◌∷◌, ◌++◌, Eq, length, get_elem?,
}
use elba.Prelude.IndexMap.{IndexMap, get, insert}
use elba.Prelude.Outcome.{M, unwrap, ask, modify, ◌>>=◌, ◌>>◌, pure}
use elba.Semver.{Semver}
use elba.Resolve.Assignment.{Assignment, AssignmentType}
use elba.Resolve.Incompat.{Incompatibility, IncompatibilityCause}

pub record Resolver (P V C R : Type 0) : Type 0 where
  pub step : ℕ
  pub level : ℕ
  pub assignments : List (Assignment P V C)
  pub decisions : IndexMap P V
  pub derivations : IndexMap P (Bool × C)
  pub incompats : List (Incompatibility P C)
  pub incompat_ixs : IndexMap P (List ℕ)
  pub retriever : R

-- `u16` arithmetic, as a release build does it.
abbrev pub u16_mod : ℕ
u16_mod = 65536

abbrev pub u16_add_one : ℕ → ℕ
u16_add_one n = (n + 1) % u16_mod

abbrev pub u16_sub_one : ℕ → ℕ
u16_sub_one n = (n + 65535) % u16_mod

unfoldable pub new : {P V C R : Type 0} → R → Resolver P V C R
new retriever = record {
  step = 1;
  level = 0;
  assignments = [];
  decisions = [];
  derivations = [];
  incompats = [];
  incompat_ixs = [];
  retriever = retriever;
}

unfoldable pub narrow : {V C : Type 0} → Semver V C → Option (Bool × C) → Bool → C → Bool × C
narrow sv none positive c = (positive, c)
narrow sv (some (old_positive, old)) positive c = (old_positive || positive, sv.intersection old c)

module _ {P V C R : Type 0} ⦃e : Eq P⦄ (sv : Semver V C) where
  register_type : P → AssignmentType V C → Resolver P V C R → Resolver P V C R
  register_type pkg (AssignmentType.decision version) s = record s {
    decisions = insert pkg version s.decisions;
    derivations = insert pkg (true, sv.of_version version) s.derivations;
  }
  register_type pkg (AssignmentType.derivation c cause positive) s = record s {
    derivations = insert pkg (narrow sv (get pkg s.derivations) positive c) s.derivations;
  }

  unfoldable pub register : Assignment P V C → Resolver P V C R → Resolver P V C R
  unfolding register_type narrow
  register a s = register_type a.pkg a.ty s

  -- `register`, `push` and the next step, which `decision` and `derivation` share.
  abbrev assign : AssignmentType V C → P → Resolver P V C R → Resolver P V C R
  assign ty pkg s =
      let a : Assignment P V C = record { step = s.step; level = s.level; ty = ty; pkg = pkg } in
      let s' = register a s in
      record s' { assignments = s'.assignments ++ a ∷ []; step = u16_add_one s'.step }

  unfoldable pub decision : P → V → Resolver P V C R → Resolver P V C R
  unfolding register
  decision pkg version s =
      assign (AssignmentType.decision version) pkg (record s { level = u16_add_one s.level })

  unfoldable pub derivation : P → C → ℕ → Bool → Resolver P V C R → Resolver P V C R
  unfolding register
  derivation pkg c cause positive = assign (AssignmentType.derivation c cause positive) pkg

abbrev pub push_index : ℕ → Option (List ℕ) → List ℕ
push_index icix none = icix ∷ []
push_index icix (some ixs) = ixs ++ icix ∷ []

-- `entry(n).or_insert_with(Vec::new).push(icix)` for each term.
unfoldable pub index_terms :
    {P C : Type 0} ⦃e : Eq P⦄ → ℕ → IndexMap P C → IndexMap P (List ℕ) → IndexMap P (List ℕ)
index_terms icix [] ixs = ixs
index_terms icix ((n, c) ∷ deps) ixs =
    index_terms icix deps (insert n (push_index icix (get n ixs)) ixs)

module _ {P V C R : Type 0} ⦃e : Eq P⦄ where
  unfoldable pub incompat_ixs : ℕ → M (Resolver P V C R) (Unit {0})
  incompat_ixs icix = do
    s ← ask (λ s. s)
    ic ← unwrap (get_elem? s.incompats icix)
    modify (λ s. record s { incompat_ixs = index_terms icix ic.deps s.incompat_ixs })

  unfoldable pub incompatibility : IndexMap P C → IncompatibilityCause → M (Resolver P V C R) ℕ
  unfolding incompat_ixs
  incompatibility pkgs cause = do
    s ← ask (λ s. s)
    let new_ix = length s.incompats
    modify (λ s. record s { incompats = s.incompats ++ record { deps = pkgs; cause = cause } ∷ [] })
    incompat_ixs new_ix
    pure new_ix
