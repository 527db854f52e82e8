-- ===== src/Prelude/Outcomes.antt =====
-- How a Rust call ends: with a value, in a panic, or in undefined behaviour (an `unsafe` access
-- outside its allocation). A loop of the model takes fuel, and can also run out of it.
use mathlib.Core.Path.{◌≡◌, refl}
use mathlib.Core.Bool.{Bool, true, false}
use mathlib.Core.Option.{Option, none, some}
use algors.Prelude.Tests.{if◌then◌else◌}

pub data Outcome {ℓ} (A : Type ℓ) : Type ℓ where
  done : A → Outcome A
  panic : Outcome A
  undefined : Outcome A
  exhausted : Outcome A

infixl 5 ◌>>=◌
abbrev pub ◌>>=◌ {ℓ κ} : {A : Type ℓ} {B : Type κ} → Outcome A → (A → Outcome B) → Outcome B
done a >>= k = k a
panic >>= k = panic
undefined >>= k = undefined
exhausted >>= k = exhausted

-- `Option::unwrap`, and an index that is checked at run time.
abbrev pub or_panic {ℓ} : {A : Type ℓ} → Option A → Outcome A
or_panic (some a) = done a
or_panic none = panic

-- The call ends with a value, and the value satisfies `P`.
pub data Yields {ℓ κ} {A : Type ℓ} (P : A → Type κ) : Outcome A → Type (ℓ ⊔ κ) where
  yields : {a : A} → P a → Yields P (done a)

module _ {ℓ κ} {A : Type ℓ} {P : A → Type κ} where
  pub Yields-bind {ℓ' κ'} :
      {B : Type ℓ'} {Q : B → Type κ'} {m : Outcome A} {k : A → Outcome B}
      → Yields P m
      → ((a : A) → P a → Yields Q (k a))
      → Yields Q (m >>= k)
  Yields-bind (yields {a = v} p) rest = rest v p

  pub Yields-mono {κ'} :
      {Q : A → Type κ'} {m : Outcome A} → ((a : A) → P a → Q a) → Yields P m → Yields Q m
  Yields-mono weaken (yields {a = v} p) = yields (weaken v p)

  pub Yields-if :
      (b : Bool) {t e : Outcome A}
      → (b ≡ true → Yields P t)
      → (b ≡ false → Yields P e)
      → Yields P (if b then t else e)
  Yields-if true on_true on_false = on_true refl
  Yields-if false on_true on_false = on_false refl

  -- The value that is yielded, with its equation.
  pub Yields-value : {m : Outcome A} → Yields P m → (a : A) × (m ≡ done a) × P a
  Yields-value (yields {a = v} p) = (v, refl, p)

  pub Yields-done : {a : A} → Yields P (done a) → P a
  Yields-done (yields p) = p

-- The call ends with a value that satisfies `P`, or, if it may stop, in a panic.
pub data YieldsOr {ℓ κ} (stops : Bool) {A : Type ℓ} (P : A → Type κ)
    : Outcome A → Type (ℓ ⊔ κ) where
  ran : {a : A} → P a → YieldsOr stops P (done a)
  stopped : stops ≡ true → YieldsOr stops P panic

module _ {ℓ κ} {stops : Bool} {A : Type ℓ} {P : A → Type κ} where
  pub YieldsOr-bind {ℓ' κ'} :
      {B : Type ℓ'} {Q : B → Type κ'} {m : Outcome A} {k : A → Outcome B}
      → YieldsOr stops P m
      → ((a : A) → P a → YieldsOr stops Q (k a))
      → YieldsOr stops Q (m >>= k)
  YieldsOr-bind (ran {a = v} p) rest = rest v p
  YieldsOr-bind (stopped e) rest = stopped e

  pub YieldsOr-done : {a : A} → YieldsOr stops P (done a) → P a
  YieldsOr-done (ran p) = p

-- If the call ends with a value, the value satisfies `P`.
pub data Whenever {ℓ κ} {A : Type ℓ} (P : A → Type κ) : Outcome A → Type (ℓ ⊔ κ) where
  ended : {a : A} → P a → Whenever P (done a)
  panicked : Whenever P panic
  failed : Whenever P undefined
  ran_out : Whenever P exhausted

module _ {ℓ κ} {A : Type ℓ} {P : A → Type κ} where
  pub Whenever-bind {ℓ'} :
      {B : Type ℓ'} (m : Outcome B) (k : B → Outcome A)
      → ((b : B) → Whenever P (k b))
      → Whenever P (m >>= k)
  Whenever-bind (done b) k rest = rest b
  Whenever-bind panic k rest = panicked
  Whenever-bind undefined k rest = failed
  Whenever-bind exhausted k rest = ran_out

  pub Whenever-mono {κ'} :
      {Q : A → Type κ'} {m : Outcome A} → ((a : A) → P a → Q a) → Whenever P m → Whenever Q m
  Whenever-mono weaken (ended {a = v} p) = ended (weaken v p)
  Whenever-mono weaken panicked = panicked
  Whenever-mono weaken failed = failed
  Whenever-mono weaken ran_out = ran_out

  pub Whenever-if : (b : Bool) (x y : A) → P x → P y → Whenever P (done (if b then x else y))
  Whenever-if true x y p q = ended p
  Whenever-if false x y p q = ended q

  pub Whenever-done : {a : A} → Whenever P (done a) → P a
  Whenever-done (ended p) = p

  -- The value that the call ends with satisfies `P`, too.
  pub YieldsOr-with {κ'} :
      {Q : A → Type κ'} {stops : Bool} {m : Outcome A}
      → Whenever P m
      → YieldsOr stops Q m
      → YieldsOr stops (λ a. Q a × P a) m
  YieldsOr-with w (ran q) = ran (q, Whenever-done w)
  YieldsOr-with w (stopped e) = stopped e
