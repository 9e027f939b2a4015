-- ===== src/Resolve/Unwind.antt =====
-- The loop of `backtrack` that pops assignments.
use mathlib.Core.List.{reverse-cons, append_assoc, append-nil}
use elba.Prelude.{
  ℕ, ◌+◌, ◌%◌, ◌≤◌, ◌<◌, Bool, ◌||◌, some, List, [], ◌∷◌, ◌++◌, ◌≡◌, refl, inl, inr, Eq, ◌==◌,
  subst, some_inj, any_of, arith, Bool-cases, ap, ◌∙◌, sym, reverse, length, length-append, ltb,
  All, All-append,
}
use elba.Prelude.IndexSet.{contains, insert, contains-insert}
use elba.Resolve.Assignment.{Assignment}
use elba.Resolve.Backtrack.{Unwound, unwind}
use elba.Resolve.State.{u16_mod, u16_sub_one}

pub any_of-append {ℓ} :
    {A : Type ℓ} (t : A → Bool) (xs ys : List A)
    → any_of t (xs ++ ys) ≡ (any_of t xs || any_of t ys)
any_of-append t [] ys = refl
any_of-append t (x ∷ xs) ys = ground (arith, any_of-append t xs ys)

module _ {P V C : Type 0} ⦃e : Eq P⦄ where
  -- What is taken off (`popped`, in program order) and what stays.
  pub record Split (to step : ℕ) (packages : List P) (stack : List (Assignment P V C))
      (u : Unwound P V C) : Type 0 where
    pub popped : List (Assignment P V C)
    pub split : reverse stack ≡ reverse u.stack ++ popped
    pub above : All (λ a. to < a.level) popped
    pub top : Assignment P V C
    pub below : List (Assignment P V C)
    pub kept : u.stack ≡ top ∷ below
    pub at_most : top.level ≤ to
    pub lost :
        (p : P) → contains p u.packages ≡ (any_of (λ a. a.pkg == p) popped || contains p packages)
    pub in_range : step < u16_mod → u.step < u16_mod
    pub counted : (u.step + length popped) % u16_mod ≡ step % u16_mod

  pub unwind-Split :
      (to step : ℕ) (packages : List P) (stack : List (Assignment P V C)) (u : Unwound P V C)
      → unwind to step packages stack ≡ some u
      → Split to step packages stack u
  unfolding unwind
  unwind-Split to step packages [] u h = cc
  unwind-Split to step packages (a ∷ stack) u h = elim (Bool-cases (ltb to a.level)) [
    | inl above ↦
        let r =
          unwind-Split to (u16_sub_one step) (insert a.pkg packages) stack u (rw above at h) in
        record {
          popped = r.popped ++ a ∷ [];
          split =
              reverse-cons a stack
              ∙ ap (λ l. l ++ a ∷ []) r.split
              ∙ append_assoc (reverse u.stack) r.popped (a ∷ []);
          above = All-append _ r.popped (a ∷ []) r.above (ground arith, tt);
          top = r.top;
          below = r.below;
          kept = r.kept;
          at_most = r.at_most;
          lost = λ p. ground (
            arith,
            r.lost p,
            contains-insert a.pkg p packages,
            any_of-append (λ b. b.pkg == p) r.popped (a ∷ []),
          );
          in_range = λ _. r.in_range (omega arith);
          counted = omega (arith, r.counted, length-append r.popped (a ∷ []));
        }
    | inr stays ↦ subst (Split to step packages (a ∷ stack)) (some_inj (rw stays at h)) (record {
      popped = [];
      split = sym (append-nil (reverse (a ∷ stack)));
      above = tt;
      top = a;
      below = stack;
      kept = refl;
      at_most = ground arith;
      lost = λ p. refl;
      in_range = λ h. h;
      counted = omega arith;
    })
  ]
