-- ===== src/Tests/Resolving.antt =====
-- Instances of the theorems on the resolver, at small states over the sample index.
use elba.Prelude.{
  Bool, ap, ℕ, nat_eq, true, false, none, some, [], ◌∷◌, ◌≡◌, refl, inl, ◌⊎◌, arith, get_elem?, All,
  ◌≤◌, if◌then◌else◌, ◌==◌,
}
use elba.Prelude.IndexMap.{IndexMap, IsMap, get, insert, contains_key}
use elba.Prelude.Outcome.{Keeps}
use elba.Retriever.{Retriever}
use elba.Resolve.Agree.{Agrees, decide_all-Agrees}
use elba.Resolve.Assignment.{Assignment, AssignmentType, constraint_of}
use elba.Resolve.Choose.{next_package, unsatisfied}
use elba.Resolve.Choose.Fewest.{Member, next_package-fewest}
use elba.Resolve.Conflict.{new_terms, difference_of}
use elba.Resolve.Incompat.{Incompatibility, dependency}
use elba.Resolve.Links.Kept.{IsLinked, decide_all-IsLinked}
use elba.Resolve.Preserve.{Supplies}
use elba.Resolve.Propagate.{propagate_incompat}
use elba.Resolve.Satisfier.{satisfier}
use elba.Resolve.Satisfier.First.{First, satisfier-First}
use elba.Resolve.Solve.{decide_all}
use elba.Resolve.Sound.{Selection, Consistent, Violates}
use elba.Resolve.Sound.Propagate.{Outlives, propagate_incompat-Outlives}
use elba.Resolve.Sound.Resolvent.{IsPivot, resolvent_sound}
use elba.Resolve.Sound.Shared.{new_terms-overwrites}
use elba.Resolve.State.{Resolver, new, decision, derivation}
use elba.Resolve.Steps.{IsCounted, decide_all-IsCounted}
use elba.Samples.{
  Ver, v1, v2, Mask, mask, masks, mask_sets, from_index, conflicting, from_index-Supplies,
}

abbrev index : Retriever ℕ Ver Mask (Unit {0})
index = from_index conflicting

supplied : Supplies index
supplied = from_index-Supplies conflicting

decide_all-Agrees_example : Keeps (Agrees masks) (decide_all masks index 30 (new tt))
decide_all-Agrees_example = decide_all-Agrees masks index 30 tt supplied

decide_all-IsLinked_example : Keeps (IsLinked masks) (decide_all masks index 30 (new tt))
decide_all-IsLinked_example = decide_all-IsLinked masks index 30 tt supplied

decide_all-IsCounted_example : Keeps (IsCounted masks) (decide_all masks index 30 (new tt))
decide_all-IsCounted_example = decide_all-IsCounted masks index 30 tt supplied

-- Package 0 in its version 1 needs version 1 of package 1.
abbrev needs : Incompatibility ℕ Mask
needs = record { deps = (0, mask true false) ∷ (1, mask false true) ∷ []; cause = dependency }

abbrev known : Resolver ℕ Ver Mask (Unit {0})
known = record {
  step = 1;
  level = 0;
  assignments = [];
  decisions = [];
  derivations = [];
  incompats = needs ∷ [];
  incompat_ixs = [];
  retriever = tt;
}

-- The root is decided.
abbrev started : Resolver ℕ Ver Mask (Unit {0})
started = decision masks 0 v1 known

-- Version 1 of every package.
abbrev oldest : Selection ℕ Ver
oldest = record { chosen = λ p. v1; respects = λ p q h. refl }

oldest-Consistent : Consistent mask_sets oldest started
unfolding decision get insert
oldest-Consistent p positive c h = ground (arith, h)

started_knows : get_elem? started.incompats 0 ≡ some needs
unfolding decision
started_knows = refl

oldest_avoids : ¬ Violates mask_sets oldest needs.deps
oldest_avoids v = cc (v.1.0)

propagate_incompat-Outlives_example : Outlives mask_sets oldest (propagate_incompat masks 0 started)
propagate_incompat-Outlives_example =
    propagate_incompat-Outlives mask_sets oldest 0 needs started started_knows oldest-Consistent
      oldest_avoids

-- Package 1 is derived to be in version 1, and the root is decided.
abbrev derived_first : Resolver ℕ Ver Mask (Unit {0})
derived_first = derivation masks 1 (mask true false) 0 true started

satisfier-First_example :
    First masks 1
      (mask true false)
      (mask true true)
      derived_first.assignments
      (satisfier masks derived_first 1 (mask true false))
satisfier-First_example = satisfier-First masks derived_first 1 (mask true false)

abbrev asked : Resolver ℕ Ver Mask (Unit {0})
asked = record started {
  derivations =
      (0, (true, mask true false)) ∷ (1, (true, mask true true)) ∷ (2, (true, mask true true)) ∷ [];
}

takes : next_package index asked ≡ some (2, mask true true)
unfolding next_package from_index decision get insert
takes = refl

next_package-fewest_example :
    Member (2, (true, mask true true)) asked.derivations
    × (contains_key 2 asked.decisions ≡ false)
    × All
        (λ (q, d). index.count_versions asked.retriever 2 ≤ index.count_versions asked.retriever q)
        (unsatisfied asked)
next_package-fewest_example = next_package-fewest index asked 2 (mask true true) takes

-- The incompatibility of a conflict over package 1, and the cause of what was derived for it.
abbrev conflict : IndexMap ℕ Mask
conflict = (1, mask true false) ∷ (0, mask true false) ∷ []

abbrev why : IndexMap ℕ Mask
why = (1, mask false true) ∷ (2, mask true true) ∷ []

abbrev last : Assignment ℕ Ver Mask
last = record {
  step = 4;
  level = 2;
  ty = AssignmentType.derivation (mask true false) 0 true;
  pkg = 1;
}

last-IsPivot : IsPivot mask_sets 1 (mask true false) (mask false true) last conflict why
unfolding get constraint_of
last-IsPivot = record {
  same_package = refl;
  incompat_map = (refl, (refl, tt));
  cause_map = (refl, (refl, tt));
  term = inl (refl, refl);
  cause_term = inl (refl, refl);
  derived = refl;
}

abbrev learnt : IndexMap ℕ Mask
learnt =
    new_terms masks (1, mask true false) 1 (difference_of masks (1, mask true false) last) conflict
      why

oldest-Violates : Violates mask_sets oldest learnt
unfolding new_terms difference_of insert constraint_of
oldest-Violates = (refl, (refl, tt))

disjoint_rest : IsMap {K = ℕ} ((0, mask true false) ∷ (2, mask true true) ∷ [])
unfolding get
disjoint_rest = (refl, (refl, tt))

resolvent_sound_example : Violates mask_sets oldest conflict ⊎ Violates mask_sets oldest why
resolvent_sound_example =
    resolvent_sound mask_sets 1 (mask true false) (mask false true) last conflict why last-IsPivot
      oldest disjoint_rest oldest-Violates

-- Both have a term for package 0: the cause's is kept alone.
abbrev other_why : IndexMap ℕ Mask
other_why = (1, mask false true) ∷ (0, mask true true) ∷ []

other_why-IsMap : IsMap other_why
unfolding get
other_why-IsMap = (refl, (refl, tt))

other_why-get : get 0 other_why ≡ some (mask true true)
unfolding get
other_why-get = refl

new_terms-overwrites_example :
    get 0 (new_terms masks (1, mask true false) 1 none conflict other_why) ≡ some (mask true true)
new_terms-overwrites_example =
    new_terms-overwrites masks 1 1 0 (mask true false) (mask true true) none conflict other_why refl
      refl other_why-IsMap other_why-get

-- The resolvent is then violated by a selection that violates neither of the two.
abbrev root_newer : Selection ℕ Ver
root_newer = record {
  chosen = λ p. if p == 1 then v1 else v2;
  respects = λ p q h. ap (λ (b : Bool). if b then v1 else v2) (nat_eq.beq_cong p q 1 h);
}

overwritten_unsound :
    Violates mask_sets root_newer (
      new_terms masks
        (1, mask true false)
        1
        (difference_of masks (1, mask true false) last)
        conflict
        other_why)
    × (¬ Violates mask_sets root_newer conflict)
    × (¬ Violates mask_sets root_newer other_why)
unfolding new_terms difference_of insert constraint_of
overwritten_unsound = ((refl, tt), (λ v. cc (v.1.0)), (λ v. cc (v.0)))
