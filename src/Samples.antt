-- ===== src/Samples.antt =====
-- Small instances of the interfaces: two versions, constraints as sets of them, and an index of a few
-- packages. The witnesses and the tests stand on them.
pub mod Urls
pub mod Graphs
use elba.Prelude.{
  ℕ, nat_eq, Bool, true, false, not, ◌&&◌, ◌||◌, List, [], ◌∷◌, map, ◌≡◌, refl, ◌==◌, if◌then◌else◌,
  arith, Option, none, some, keep, length, find, All, subst,
}
use elba.Prelude.Outcome.{Result, ok, err, package_not_found}
use elba.Semver.{Semver, SetSemantics, Relation, superset, subset, equal, disjoint, other}
use elba.Resolve.Preserve.{Supplies, IsExternal}
use elba.Retriever.{Retriever}
use elba.Resolve.Incompat.{Summary, Incompatibility, from_dep}

pub data Ver : Type 0 where
  v1 v2 : Ver

pub record Mask : Type 0 where
  pub has_v1 : Bool
  pub has_v2 : Bool

abbrev pub mask : Bool → Bool → Mask
mask a b = record { has_v1 = a; has_v2 = b }

abbrev pub holds : Mask → Ver → Bool
holds m v1 = m.has_v1
holds m v2 = m.has_v2

abbrev only : Ver → Mask
only v1 = mask true false
only v2 = mask false true

abbrev implies : Bool → Bool → Bool
implies a b = not a || b

abbrev same : Bool → Bool → Bool
same a b = implies a b && implies b a

abbrev is_none : Mask → Bool
is_none m = not (m.has_v1 || m.has_v2)

abbrev mask_relation : Mask → Mask → Relation
mask_relation a b =
    if same a.has_v1 b.has_v1 && same a.has_v2 b.has_v2
    then equal
    else (if not (a.has_v1 && b.has_v1) && not (a.has_v2 && b.has_v2)
        then disjoint
        else (if implies a.has_v1 b.has_v1 && implies a.has_v2 b.has_v2
            then subset
            else (if implies b.has_v1 a.has_v1 && implies b.has_v2 a.has_v2
                then superset
                else other)))

abbrev pub masks : Semver Ver Mask
masks = record {
  any = mask true true;
  empty = mask false false;
  is_empty = is_none;
  con_eq = λ a b. same a.has_v1 b.has_v1 && same a.has_v2 b.has_v2;
  intersection = λ a b. mask (a.has_v1 && b.has_v1) (a.has_v2 && b.has_v2);
  difference = λ a b. mask (a.has_v1 && not b.has_v1) (a.has_v2 && not b.has_v2);
  complement = λ a. mask (not a.has_v1) (not a.has_v2);
  relation = mask_relation;
  of_version = only;
  satisfies = holds;
  is_prerelease = λ v. false;
}

pub holds-any : (x : Ver) → holds masks.any x ≡ true
holds-any v1 = refl
holds-any v2 = refl

pub holds-empty : (x : Ver) → holds masks.empty x ≡ false
holds-empty v1 = refl
holds-empty v2 = refl

pub holds-intersection :
    (c d : Mask) (x : Ver) → holds (masks.intersection c d) x ≡ (holds c x && holds d x)
holds-intersection c d v1 = refl
holds-intersection c d v2 = refl

pub holds-difference :
    (c d : Mask) (x : Ver) → holds (masks.difference c d) x ≡ (holds c x && not (holds d x))
holds-difference c d v1 = refl
holds-difference c d v2 = refl

pub holds-complement : (c : Mask) (x : Ver) → holds (masks.complement c) x ≡ not (holds c x)
holds-complement c v1 = refl
holds-complement c v2 = refl

pub holds-con_eq : (c d : Mask) (x : Ver) → masks.con_eq c d ≡ true → holds c x ≡ holds d x
holds-con_eq c d v1 h = ground arith
holds-con_eq c d v2 h = ground arith

pub holds-subset :
    (c d : Mask) (x : Ver) → masks.relation c d ≡ subset → holds c x ≡ true → holds d x ≡ true
holds-subset c d v1 h k = ground arith
holds-subset c d v2 h k = ground arith

pub holds-equal : (c d : Mask) (x : Ver) → masks.relation c d ≡ equal → holds c x ≡ holds d x
holds-equal c d v1 h = ground arith
holds-equal c d v2 h = ground arith

pub holds-disjoint :
    (c d : Mask) (x : Ver) → masks.relation c d ≡ disjoint → holds c x ≡ true → holds d x ≡ false
holds-disjoint c d v1 h k = ground arith
holds-disjoint c d v2 h k = ground arith

pub con_eq_refl : (c : Mask) → masks.con_eq c c ≡ true
con_eq_refl c = ground arith

abbrev pub mask_sets : SetSemantics masks Ver
mask_sets = record {
  mem = holds;
  mem-any = holds-any;
  mem-empty = holds-empty;
  mem-intersection = holds-intersection;
  mem-difference = holds-difference;
  mem-complement = holds-complement;
  con_eq_refl = con_eq_refl;
  mem-con_eq = holds-con_eq;
  mem-subset = holds-subset;
  mem-equal = holds-equal;
  mem-disjoint = holds-disjoint;
}

-- One version of one package in an index, with what it depends on.
pub record Entry : Type 0 where
  pub pkg : ℕ
  pub ver : Ver
  pub deps : List (ℕ × Mask)

abbrev pub entry : ℕ → Ver → List (ℕ × Mask) → Entry
entry pkg ver deps = record { pkg = pkg; ver = ver; deps = deps }

abbrev pub is_version : Ver → Ver → Bool
is_version v1 v1 = true
is_version v2 v2 = true
is_version _ _ = false

abbrev or_missing : {A : Type 0} → Option A → Result A
or_missing none = err package_not_found
or_missing (some a) = ok a

abbrev map_ok : {A B : Type 0} → (A → B) → Result A → Result B
map_ok f (ok a) = ok (f a)
map_ok f (err e) = err e

-- A retriever over a list of entries, newest first. It has no state of its own.
unfoldable pub from_index : List Entry → Retriever ℕ Ver Mask (Unit {0})
unfolding from_dep
from_index entries = record {
  root = λ r. record { id = 0; version = v1 };
  count_versions = λ r p. length (keep (λ en. en.pkg == p) entries);
  best = λ p con r. (
    map_ok (λ en. en.ver) (or_missing (find (λ en. en.pkg == p && holds con en.ver) entries)),
    r,
  );
  incompats = λ sum p r. (
    map_ok (λ en. map (λ (q, con). from_dep masks sum (q, masks.complement con)) en.deps)
        (or_missing (find (λ en. en.pkg == sum.id && is_version en.ver sum.version) entries)),
    r,
  );
  mapped = λ r p. p;
}

-- Package 1 in its newest version needs a version of 3 that 2 rules out.
abbrev pub conflicting : List Entry
conflicting =
    entry 0 v1 ((1, mask true true) ∷ (2, mask true true) ∷ [])
    ∷ entry 1 v2 ((3, mask false true) ∷ [])
    ∷ entry 1 v1 ((3, mask true false) ∷ [])
    ∷ entry 2 v2 ((3, mask true false) ∷ [])
    ∷ entry 3 v2 []
    ∷ entry 3 v1 []
    ∷ []

-- Every incompatibility of such a retriever is that of a dependency.
dependencies-IsExternal :
    (sum : Summary ℕ Ver) (deps : List (ℕ × Mask))
    → All
        (λ (ic : Incompatibility ℕ Mask). IsExternal ic.cause)
        (map (λ (q, con). from_dep masks sum (q, masks.complement con)) deps)
unfolding from_dep
dependencies-IsExternal sum [] = tt
dependencies-IsExternal sum (d ∷ deps) = (tt, dependencies-IsExternal sum deps)

found-IsExternal :
    (sum : Summary ℕ Ver) (found : Option Entry) (ics : List (Incompatibility ℕ Mask))
    → map_ok
        (λ en. map (λ (q, con). from_dep masks sum (q, masks.complement con)) en.deps)
        (or_missing found)
      ≡ ok ics
    → All (λ ic. IsExternal ic.cause) ics
found-IsExternal sum none ics h = cc
found-IsExternal sum (some en) ics h =
    subst (All (λ ic. IsExternal ic.cause)) (ground (arith, h))
      (dependencies-IsExternal sum en.deps)

pub from_index-Supplies : (entries : List Entry) → Supplies (from_index entries)
unfolding from_index
from_index-Supplies entries sum p r ics h = found-IsExternal sum _ ics h
