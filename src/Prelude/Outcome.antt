-- ===== src/Prelude/Outcome.antt =====
-- Methods that change their object, can return early by `?` or `bail!`, and can panic. The object
-- outlives an error. `unfinished` is a loop whose fuel is used up, with the object as it then is.
use mathlib.Core.Path.{◌≡◌, refl}
use mathlib.Core.Bool.{Bool, true, false}
use elba.Prelude.Tests.{if◌then◌else◌}
use Prim.Native.Nat.{ℕ}
use mathlib.Core.Option.{Option, none, some}
use mathlib.Core.Logic.{◌⊎◌, inl, inr}

-- `Error` of util/error.rs, and the errors that `bail!` and `format_err!` make from a text.
pub data Error : Type 0 where
  invalid_source_url package_not_found no_conflict_res cannot_download : Error
  bad_group bad_name empty_group empty_name bad_name_format bad_package_id bad_version : Error
  no_location ambiguous_spec build_failed no_default_index parent_not_local : Error
  -- Any other error of code that is not modelled, such as a failed checkout.
  failed : ℕ → Error

pub data Result {ℓ} (A : Type ℓ) : Type ℓ where
  ok : A → Result A
  err : Error → Result A

pub Result-cases {ℓ} :
    {A : Type ℓ} (r : Result A) → ((e : Error) × (r ≡ err e)) ⊎ ((a : A) × (r ≡ ok a))
Result-cases (ok a) = inr (a, refl)
Result-cases (err e) = inl (e, refl)

-- `?` on a `Result` and `ok_or_else`.
abbrev pub and_ok : {A B : Type 0} → Result A → (A → Result B) → Result B
and_ok (ok a) f = f a
and_ok (err e) f = err e

-- Of two calls in a row that may have nothing to give.
abbrev pub and_some : {A B : Type 0} → Option A → (A → Option B) → Option B
and_some none f = none
and_some (some a) f = f a

abbrev pub or_error : {A : Type 0} → Error → Option A → Result A
or_error e none = err e
or_error e (some a) = ok a

pub data Outcome (S A : Type 0) : Type 0 where
  done : A → S → Outcome S A
  fail : Error → S → Outcome S A
  unfinished : S → Outcome S A
  panic : Outcome S A

abbrev pub M : Type 0 → Type 0 → Type 0
M S A = S → Outcome S A

module _ {S A : Type 0} where
  abbrev pub pure : A → M S A
  pure a s = done a s

  abbrev pub throw : Error → M S A
  throw e s = fail e s

  -- `Option::unwrap` and indexing.
  abbrev pub unwrap : Option A → M S A
  unwrap none s = panic
  unwrap (some a) s = done a s

  abbrev pub ask : (S → A) → M S A
  ask f s = done (f s) s

abbrev pub modify : {S : Type 0} → (S → S) → M S (Unit {0})
modify f s = done tt (f s)

module _ {S A B : Type 0} where
  abbrev pub and_then : Outcome S A → (A → M S B) → Outcome S B
  and_then (done a s) f = f a s
  and_then (fail e s) f = fail e s
  and_then (unfinished s) f = unfinished s
  and_then panic f = panic

  infixl 5 ◌>>=◌ ◌>>◌
  abbrev pub ◌>>=◌ : M S A → (A → M S B) → M S B
  ◌>>=◌ m f s = and_then (m s) f

  abbrev pub ◌>>◌ : M S A → M S B → M S B
  ◌>>◌ m n s = and_then (m s) (λ _. n)

-- Runs a fallible call of a part that keeps its own state.
abbrev pub call : {S A : Type 0} → (S → Result A × S) → M S (Result A)
call f s = let (result, s') = f s in done result s'

-- `?`
abbrev pub try : {S A : Type 0} → Result A → M S A
try (ok a) s = done a s
try (err e) s = fail e s

-- The object satisfies `I` wherever the method stops, by a result, an error or in mid-loop.
abbrev pub Keeps {ℓ} : {S A : Type 0} → (S → Type ℓ) → Outcome S A → Type ℓ
Keeps I (done a s) = I s
Keeps I (fail e s) = I s
Keeps I (unfinished s) = I s
Keeps I panic = Unit

pub Keeps-and_then {ℓ} :
    {S A B : Type 0} (I : S → Type ℓ) (o : Outcome S A) (f : A → M S B)
    → Keeps I o
    → ((a : A) (s : S) → I s → Keeps I (f a s))
    → Keeps I (and_then o f)
Keeps-and_then I (done a s) f h k = k a s h
Keeps-and_then I (fail e s) f h k = h
Keeps-and_then I (unfinished s) f h k = h
Keeps-and_then I panic f h k = tt

pub Keeps-unwrap {ℓ} :
    {S A B : Type 0} (I : S → Type ℓ) (o : Option A) (s : S) (f : A → M S B)
    → ((a : A) → o ≡ some a → Keeps I (f a s))
    → Keeps I (and_then (unwrap o s) f)
Keeps-unwrap I none s f h = tt
Keeps-unwrap I (some a) s f h = h a refl

pub Keeps-if {ℓ} :
    {S A : Type 0} (I : S → Type ℓ) (b : Bool) (s : S) (m n : M S A)
    → Keeps I (m s)
    → Keeps I (n s)
    → Keeps I ((if b then m else n) s)
Keeps-if I true s m n h k = h
Keeps-if I false s m n h k = k

pub Keeps-try {ℓ} :
    {S A B : Type 0} (I : S → Type ℓ) (r : Result A) (s : S) (f : A → M S B)
    → I s
    → ((a : A) → r ≡ ok a → Keeps I (f a s))
    → Keeps I (and_then (try r s) f)
Keeps-try I (ok a) s f h k = k a refl
Keeps-try I (err e) s f h k = h

-- `match` on an `Option` and on a `Result`, with the method's continuations.
module _ {S A B : Type 0} where
  abbrev pub on_option : Option A → M S B → (A → M S B) → M S B
  on_option none m f = m
  on_option (some a) m f = f a

  abbrev pub on_result : Result A → (A → M S B) → (Error → M S B) → M S B
  on_result (ok a) f g = f a
  on_result (err e) f g = g e

pub Keeps-on_option {ℓ} :
    {S A B : Type 0} (I : S → Type ℓ) (o : Option A) (s : S) (m : M S B) (f : A → M S B)
    → Keeps I (m s)
    → ((a : A) → o ≡ some a → Keeps I (f a s))
    → Keeps I (on_option o m f s)
Keeps-on_option I none s m f h k = h
Keeps-on_option I (some a) s m f h k = k a refl

pub Keeps-on_result {ℓ} :
    {S A B : Type 0} (I : S → Type ℓ) (r : Result A) (s : S) (f : A → M S B) (g : Error → M S B)
    → ((a : A) → r ≡ ok a → Keeps I (f a s))
    → ((e : Error) → Keeps I (g e s))
    → Keeps I (on_result r f g s)
Keeps-on_result I (ok a) s f g h k = h a refl
Keeps-on_result I (err e) s f g h k = k e

-- The method ends, and with a result only if `P` holds of it and of the object.
abbrev pub Ends : {S A : Type 0} → (A → S → Type 0) → Outcome S A → Type 0
Ends P (done a s) = P a s
Ends P (fail e s) = Unit
Ends P (unfinished s) = ⊥
Ends P panic = ⊥

pub Ends-and_then :
    {S A B : Type 0} (P : A → S → Type 0) (Q : B → S → Type 0) (o : Outcome S A) (f : A → M S B)
    → Ends P o
    → ((a : A) (s : S) → P a s → Ends Q (f a s))
    → Ends Q (and_then o f)
Ends-and_then P Q (done a s) f h k = k a s h
Ends-and_then P Q (fail e s) f h k = tt
Ends-and_then P Q (unfinished s) f h k = absurd h
Ends-and_then P Q panic f h k = absurd h

pub Ends-weaken :
    {S A : Type 0} (P Q : A → S → Type 0) (o : Outcome S A)
    → Ends P o
    → ((a : A) (s : S) → P a s → Q a s)
    → Ends Q o
Ends-weaken P Q (done a s) h k = k a s h
Ends-weaken P Q (fail e s) h k = tt
Ends-weaken P Q (unfinished s) h k = absurd h
Ends-weaken P Q panic h k = absurd h

-- The method ends, with an error only if `F` holds of it, and with a result only if `P` does.
abbrev pub EndsOr : {S A : Type 0} → (Error → Type 0) → (A → S → Type 0) → Outcome S A → Type 0
EndsOr F P (done a s) = P a s
EndsOr F P (fail e s) = F e
EndsOr F P (unfinished s) = ⊥
EndsOr F P panic = ⊥

pub EndsOr-and_then :
    {S A B : Type 0} (F : Error → Type 0) (P : A → S → Type 0) (Q : B → S → Type 0)
    (o : Outcome S A) (f : A → M S B)
    → EndsOr F P o
    → ((a : A) (s : S) → P a s → EndsOr F Q (f a s))
    → EndsOr F Q (and_then o f)
EndsOr-and_then F P Q (done a s) f h k = k a s h
EndsOr-and_then F P Q (fail e s) f h k = h
EndsOr-and_then F P Q (unfinished s) f h k = absurd h
EndsOr-and_then F P Q panic f h k = absurd h

pub EndsOr-weaken :
    {S A : Type 0} (F G : Error → Type 0) (P Q : A → S → Type 0) (o : Outcome S A)
    → EndsOr F P o
    → ((e : Error) → F e → G e)
    → ((a : A) (s : S) → P a s → Q a s)
    → EndsOr G Q o
EndsOr-weaken F G P Q (done a s) h j k = k a s h
EndsOr-weaken F G P Q (fail e s) h j k = j e h
EndsOr-weaken F G P Q (unfinished s) h j k = absurd h
EndsOr-weaken F G P Q panic h j k = absurd h

pub EndsOr-Ends :
    {S A : Type 0} (F : Error → Type 0) (P : A → S → Type 0) (o : Outcome S A)
    → EndsOr F P o
    → Ends P o
EndsOr-Ends F P (done a s) h = h
EndsOr-Ends F P (fail e s) h = tt
EndsOr-Ends F P (unfinished s) h = absurd h
EndsOr-Ends F P panic h = absurd h

-- The method ends with a result, and `P` holds of it and of the object.
abbrev pub Returns : {S A : Type 0} → (A → S → Type 0) → Outcome S A → Type 0
Returns P (done a s) = P a s
Returns P (fail e s) = ⊥
Returns P (unfinished s) = ⊥
Returns P panic = ⊥

-- A result, if it is one, satisfies `P`.
abbrev pub Holds : {A : Type 0} → (A → Type 0) → Result A → Type 0
Holds P (ok a) = P a
Holds P (err e) = Unit

pub Holds-and_ok :
    {A B : Type 0} (P : B → Type 0) (r : Result A) (f : A → Result B)
    → ((a : A) → Holds P (f a))
    → Holds P (and_ok r f)
Holds-and_ok P (ok a) f h = h a
Holds-and_ok P (err e) f h = tt

pub Holds-chain :
    {A B : Type 0} {P : A → Type 0} (Q : B → Type 0) (r : Result A) (f : A → Result B)
    → Holds P r
    → ((a : A) → P a → Holds Q (f a))
    → Holds Q (and_ok r f)
Holds-chain Q (ok a) f h k = k a h
Holds-chain Q (err e) f h k = tt
