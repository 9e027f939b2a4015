-- ===== src/Tests/Locking.antt =====
-- A graph of two packages, written to a lockfile and read again.
use elba.Prelude.{
  ℕ, zero, suc, ◌<◌, nat_eq, true, false, some, List, [], ◌∷◌, ◌≡◌, refl, arith, eqb, get_elem?,
  some_inj,
}
use elba.Prelude.IndexSet
use elba.Prelude.Members.{contains}
use elba.Lockfile.{LockedPkg, of_lockfile, to_lockfile, from_iter}
use elba.Lockfile.Read.{IsRead, of_lockfile-IsRead}
use elba.Lockfile.Written.{IsSimple, IsWalk}
use elba.Lockfile.Kept.{IsKept, of_lockfile-to_lockfile}
use elba.Samples.Graphs.{Net, nets, nets-Laws, ends_of}
use elba.Prelude.{any_of, if◌then◌else◌, Bool}
use elba.Prelude.IndexMap.{get}
use elba.Prelude.Outcome.{ok, err, cannot_download, Returns}
use elba.Retriever.{Retriever}
use elba.Resolve.Incompat.{Incompatibility, Summary, dependency}
use elba.Resolve.State.{Resolver}
use elba.Resolve.Tree.{summary_beq, summary_eq, solve_tree}
use elba.Resolve.Tree.Search.{AreDecided, IsDecided, solve_tree-IsTree}
use elba.Resolve.Tree.Whole.{IsTree}

abbrev sample_net : Net ℕ
sample_net = record { nodes = 10 ∷ 11 ∷ []; edges = (0, 1) ∷ [] }

abbrev sample_pkgs : List (LockedPkg ℕ)
sample_pkgs =
    record { sum = 10; dependencies = 11 ∷ [] } ∷ record { sum = 11; dependencies = [] } ∷ []

written : to_lockfile nets sample_net ≡ some sample_pkgs
unfolding to_lockfile from_iter IndexSet.insert
written = refl

of_lockfile-IsRead_example : IsRead nets sample_pkgs (of_lockfile nets sample_pkgs)
of_lockfile-IsRead_example = of_lockfile-IsRead nets nets-Laws sample_pkgs

unequal :
    {A : Type 0} (a b u v : ℕ)
    → some a ≡ some u
    → some b ≡ some v
    → eqb u v ≡ true
    → eqb a b ≡ false
    → A
unequal a b u v h k e n =
    let first : a ≡ u = some_inj h in
    let second : b ≡ v = some_inj k in absurd (ground (arith, first, second, e, n))

sample_net_unique :
    (i j u v : ℕ)
    → get_elem? (10 ∷ 11 ∷ []) i ≡ some u
    → get_elem? (10 ∷ 11 ∷ []) j ≡ some v
    → eqb u v ≡ true
    → i ≡ j
sample_net_unique zero zero u v h k e = refl
sample_net_unique zero (suc zero) u v h k e = unequal 10 11 u v h k e refl
sample_net_unique zero (suc (suc j)) u v h k e = cc
sample_net_unique (suc zero) zero u v h k e = unequal 11 10 u v h k e refl
sample_net_unique (suc zero) (suc zero) u v h k e = refl
sample_net_unique (suc zero) (suc (suc j)) u v h k e = cc
sample_net_unique (suc (suc i)) j u v h k e = cc

sample_net_counted : (i u : ℕ) → get_elem? (10 ∷ 11 ∷ []) i ≡ some u → i < 2
sample_net_counted zero u h = omega arith
sample_net_counted (suc zero) u h = omega arith
sample_net_counted (suc (suc i)) u h = cc

sample_net_ends :
    (i j : ℕ)
    → contains j (ends_of i ((0, 1) ∷ [])) ≡ true
    → (v : ℕ) × (get_elem? (10 ∷ 11 ∷ []) j ≡ some v)
sample_net_ends i zero h = (10, refl)
sample_net_ends i (suc zero) h = (11, refl)
sample_net_ends zero (suc (suc j)) h = absurd (ground (arith, h))
sample_net_ends (suc i) (suc (suc j)) h = absurd (ground (arith, h))

sample_net-IsSimple : IsSimple nets sample_net
sample_net-IsSimple = record {
  unique = sample_net_unique;
  counted = sample_net_counted;
  ends = sample_net_ends;
}

sample_net_in_graph :
    (i : ℕ) → contains i (0 ∷ 1 ∷ []) ≡ true → (u : ℕ) × (get_elem? (10 ∷ 11 ∷ []) i ≡ some u)
sample_net_in_graph zero h = (10, refl)
sample_net_in_graph (suc zero) h = (11, refl)
sample_net_in_graph (suc (suc i)) h = absurd (ground (arith, h))

sample_net_from_root :
    (r u : ℕ) → get_elem? (10 ∷ 11 ∷ []) r ≡ some u → contains r (0 ∷ 1 ∷ []) ≡ true
sample_net_from_root zero u h = refl
sample_net_from_root (suc zero) u h = refl
sample_net_from_root (suc (suc r)) u h = cc

sample_net-IsWalk : IsWalk nets sample_net
sample_net-IsWalk = record {
  in_graph = λ r i m. sample_net_in_graph i m;
  from_root = sample_net_from_root;
  onward = λ r i j m n. let (v, at) = sample_net_ends i j n in sample_net_from_root j v at;
}

of_lockfile-to_lockfile_example :
    (pkgs : List (LockedPkg ℕ)) × (to_lockfile nets sample_net ≡ some pkgs)
    × IsKept nets sample_net (of_lockfile nets pkgs)
of_lockfile-to_lockfile_example =
    of_lockfile-to_lockfile nets nets-Laws sample_net 10 sample_net-IsSimple sample_net-IsWalk refl

-- A root package that needs one other.
abbrev root_sum : Summary ℕ ℕ
root_sum = record { id = 0; version = 1 }

abbrev dep_sum : Summary ℕ ℕ
dep_sum = record { id = 1; version = 5 }

abbrev needs_dep : Incompatibility ℕ (Unit {0})
needs_dep = record { deps = (0, tt) ∷ (1, tt) ∷ []; cause = dependency }

abbrev incs_if : Bool → List (Incompatibility ℕ (Unit {0}))
incs_if b = if b then needs_dep ∷ [] else []

abbrev needs_if : Bool → List (Summary ℕ ℕ)
needs_if b = if b then dep_sum ∷ [] else []

-- A retriever that keeps what it was asked for, and answers only while it is online.
record Site : Type 0 where
  online : Bool
  seen : List ℕ

abbrev one_dep : Retriever ℕ ℕ (Unit {0}) Site
one_dep = record {
  root = λ r. root_sum;
  count_versions = λ r p. 1;
  best = λ p c r. (ok 5, r);
  incompats = λ u p r. (
    if r.online then ok (incs_if (eqb u.id 0)) else err cannot_download,
    record r { seen = u.id ∷ r.seen },
  );
  mapped = λ r p. p;
}

abbrev decided_on : Resolver ℕ ℕ (Unit {0}) Site
decided_on = record {
  step = 3;
  level = 2;
  assignments = [];
  decisions = (0, 1) ∷ (1, 5) ∷ [];
  derivations = [];
  incompats = [];
  incompat_ixs = [];
  retriever = record { online = true; seen = [] };
}

one_dep-AreDecided :
    (b : Bool) (r : Site)
    → AreDecided (nets {T = Summary ℕ ℕ}) one_dep decided_on.decisions r (incs_if b) (needs_if b)
unfolding get
one_dep-AreDecided true r = (((1, tt), refl, refl, refl), tt)
one_dep-AreDecided false r = tt

one_dep-within :
    (b : Bool) (d : Summary ℕ ℕ)
    → any_of (λ x. summary_beq x d) (needs_if b) ≡ true
    → any_of (λ a. summary_beq a d) (root_sum ∷ dep_sum ∷ []) ≡ true
one_dep-within true d m = ground (arith, m)
one_dep-within false d m = cc

abbrev IsOnline : Site → Type 0
IsOnline r = r.online ≡ true

one_dep-IsDecided :
    IsDecided
      (nets {T = Summary ℕ ℕ})
      one_dep
      IsOnline
      decided_on.decisions
      (root_sum ∷ dep_sum ∷ [])
      (λ u. needs_if (eqb u.id 0))
one_dep-IsDecided = record {
  incs = λ u. incs_if (eqb u.id 0);
  answers = λ u r i m. rw i refl;
  stays = λ u r i m. i;
  decided = λ u r i m. one_dep-AreDecided (eqb u.id 0) r;
  within = λ u d m n. one_dep-within (eqb u.id 0) d n;
}

solve_tree-IsTree_example :
    Returns
      (λ g s.
        IsTree nets (λ u. needs_if (eqb u.id 0)) root_sum g
        × (s.decisions ≡ decided_on.decisions)
        × IsOnline s.retriever)
      (solve_tree nets one_dep 4 decided_on)
solve_tree-IsTree_example =
    solve_tree-IsTree nets one_dep nets-Laws IsOnline (root_sum ∷ dep_sum ∷ [])
      (λ u. needs_if (eqb u.id 0)) 4 decided_on one_dep-IsDecided refl refl (omega arith)
