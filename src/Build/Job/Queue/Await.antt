-- ===== src/Build/Job/Queue/Await.antt =====
-- `exec_async`, the job that is awaited in a round.
use elba.Prelude.{
  ℕ, zero, suc, Bool, true, false, not, Option, none, some, List, [], ◌∷◌, ◌≡◌, refl, sym, ap,
  subst, ◌∙◌, inl, inr, arith, All, map, keep, Bool-cases, clash, eqb, is_nil,
}
use elba.Prelude.Members.{contains, IsDistinct, contains-keep}
use elba.Prelude.Outcome.{ok, and_ok, Holds, Holds-and_ok, Holds-chain}
use elba.Build.Target.{Target, lib, bin, test, doc, has_lib}
use elba.Build.Job.{
  Builder, Task, Built, push_bin, lib_binary, own_deps, compile_one, compile_all, compile_target,
}
use elba.Build.Job.Queue.{take_at}

pub IsDistinct-keep : (p : ℕ → Bool) (xs : List ℕ) → IsDistinct xs → IsDistinct (keep p xs)
IsDistinct-keep p [] h = tt
IsDistinct-keep p (x ∷ xs) h = elim (Bool-cases (p x)) [
  | inl b ↦ rw b (contains-keep p xs x ∙ ground (arith, h.0), IsDistinct-keep p xs h.1)
  | inr b ↦ rw b (IsDistinct-keep p xs h.1)
]

keep-absent : (xs : List ℕ) (a : ℕ) → contains a xs ≡ false → keep (λ j. not (eqb j a)) xs ≡ xs
keep-absent [] a h = refl
keep-absent (x ∷ xs) a h = elim (Bool-cases (eqb x a)) [
  | inl b ↦ clash (ground (arith, b)) h
  | inr b ↦ rw b (ap (λ ys. x ∷ ys) (keep-absent xs a (rw b at h)))
]

-- `select_all` finds a future, and leaves the others.
module _ {A : Type 0} (P : A → Type 0) (f : A → ℕ) where
  abbrev pub IsTaken : List A → A × List A → Type 0
  IsTaken xs (a, rest) =
      P a
      × All P rest
      × (map f rest ≡ keep (λ j. not (eqb j (f a))) (map f xs))
      × (contains (f a) (map f xs) ≡ true)

  take_cons-IsTaken :
      (k : ℕ) (x : A) (xs : List A)
      → All P (x ∷ xs)
      → IsDistinct (map f (x ∷ xs))
      → (p : A × List A) × (take_at k (x ∷ xs) ≡ some p) × IsTaken (x ∷ xs) p
  take_cons-IsTaken k x [] h d =
      let own : eqb (f x) (f x) ≡ true = ground arith in
      ((x, []), refl, (h.0, tt, rw own refl, rw own refl))
  take_cons-IsTaken zero x (y ∷ ys) h d =
      let own : eqb (f x) (f x) ≡ true = ground arith in
      (
        (x, y ∷ ys),
        refl,
        (h.0, h.1, rw own (sym (keep-absent (map f (y ∷ ys)) (f x) d.0)), rw own refl),
      )
  take_cons-IsTaken (suc k) x (y ∷ ys) h d =
      let ((a, rest), e, (pa, all, same, m)) = take_cons-IsTaken k y ys h.1 d.1 in
      let other : eqb (f x) (f a) ≡ false = elim (Bool-cases (eqb (f x) (f a))) [
        | inl b ↦
            let eq : f x ≡ f a = ground (arith, b) in
            clash m (subst (λ z. contains z (map f (y ∷ ys)) ≡ false) eq d.0)
        | inr b ↦ b
      ] in
      ((a, x ∷ rest), rw e refl, (pa, (h.0, all), rw other (ap (λ zs. f x ∷ zs) same), rw other m))

  pub take_at-IsTaken :
      (k : ℕ) (xs : List A)
      → is_nil xs ≡ false
      → All P xs
      → IsDistinct (map f xs)
      → (p : A × List A) × (take_at k xs ≡ some p) × IsTaken xs p
  take_at-IsTaken k [] n h d = cc
  take_at-IsTaken k (x ∷ xs) n h d = take_cons-IsTaken k x xs h d

abbrev pub HasBinary : {Binary FilePath : Type 0} → Built Binary FilePath → Type 0
HasBinary {Binary} b = (x : Binary) × (b.res ≡ some x)

module _ {Source Hash Binary Layout FilePath : Type 0}
    (calls : Builder Source Hash Binary Layout FilePath) (t : Task Source Hash Binary Layout) where
  push_bin-res :
      (p : Option FilePath) (b : Built Binary FilePath) → (push_bin calls t p b).res ≡ b.res
  push_bin-res none b = refl
  push_bin-res (some p) b = refl

  compile_lib-HasBinary :
      (cg : Bool) (b : Built Binary FilePath) → Holds HasBinary (compile_one calls t (lib cg) b)
  compile_lib-HasBinary cg b =
      Holds-and_ok HasBinary (calls.compile_lib t.source cg t.deps t.layout)
        (λ _. and_ok (lib_binary calls t) (λ x. ok (record b { res = some x })))
        (λ _.
          Holds-and_ok HasBinary (lib_binary calls t) (λ x. ok (record b { res = some x }))
            (λ binary. (binary, refl)))

  compile_one-HasBinary :
      (target : Target) (b : Built Binary FilePath)
      → HasBinary b
      → Holds HasBinary (compile_one calls t target b)
  compile_one-HasBinary (lib cg) b h = compile_lib-HasBinary cg b
  compile_one-HasBinary (bin ix) b h =
      Holds-and_ok HasBinary (own_deps calls t)
        (λ deps.
          and_ok (calls.compile_bin t.source (bin ix) deps t.layout)
            (λ path. ok (push_bin calls t path b)))
        (λ deps.
          Holds-and_ok HasBinary (calls.compile_bin t.source (bin ix) deps t.layout)
            (λ path. ok (push_bin calls t path b)) (λ path. (h.0, push_bin-res path b ∙ h.1)))
  compile_one-HasBinary (test ix) b h =
      Holds-and_ok HasBinary (own_deps calls t)
        (λ deps. and_ok (calls.compile_bin t.source (test ix) deps t.layout) (λ path. ok b))
        (λ deps.
          Holds-and_ok HasBinary (calls.compile_bin t.source (test ix) deps t.layout) (λ path. ok b)
            (λ path. h))
  compile_one-HasBinary doc b h =
      Holds-and_ok HasBinary (calls.compile_doc t.source t.deps t.layout) (λ _. ok b) (λ _. h)

  compile_all-HasBinary :
      (ts : List Target) (b : Built Binary FilePath)
      → HasBinary b
      → Holds HasBinary (compile_all calls t ts b)
  unfolding compile_all
  compile_all-HasBinary [] b h = h
  compile_all-HasBinary (target ∷ ts) b h =
      Holds-chain HasBinary (compile_one calls t target b) (compile_all calls t ts)
        (compile_one-HasBinary target b h) (compile_all-HasBinary ts)

  pub compile_target-HasBinary : has_lib t.targets ≡ true → Holds HasBinary (compile_target calls t)
  unfolding compile_target compile_all
  compile_target-HasBinary h = by_targets t.targets h
    where
      by_targets :
          (ts : List Target)
          → has_lib ts ≡ true
          → Holds HasBinary (compile_all calls t ts (record { res = none; bins = [] }))
      by_targets [] h = cc
      by_targets (lib cg ∷ ts) h =
          let start : Built Binary FilePath = record { res = none; bins = [] } in
          Holds-chain HasBinary (compile_one calls t (lib cg) start) (compile_all calls t ts)
            (compile_lib-HasBinary cg start) (compile_all-HasBinary ts)
      by_targets (bin ix ∷ ts) h = cc
      by_targets (test ix ∷ ts) h = cc
      by_targets (doc ∷ ts) h = cc
