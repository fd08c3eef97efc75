-- ===== src/Base/Tests.antt =====
-- Boolean tests, the conditional, unsigned words, and outcomes of code that may run into undefined
-- behaviour.
use Prim.Native.Nat.{ℕ, ◌+◌, ◌-◌, ◌%◌, ◌<◌, compare, Ordering}
use mathlib.Core.Path.{◌≡◌, refl}
use mathlib.Core.Logic.{◌↔◌, ◌⊎◌, inl, inr}
use mathlib.Core.Bool.{Bool, true, false}
use mathlib.Core.Option.{Option, none, some}
use native.Mathlib.Omega.{arith}

abbrev pub ltb : ℕ → ℕ → Bool
ltb a b = elim (compare a b) [ Ordering.lt ↦ true | _ ↦ false ]

abbrev pub leb : ℕ → ℕ → Bool
leb a b = elim (compare a b) [ Ordering.gt ↦ false | _ ↦ true ]

infix 50 ◌==◌
abbrev pub ◌==◌ : ℕ → ℕ → Bool
a == b = elim (compare a b) [ Ordering.eq ↦ true | _ ↦ false ]

infix 1 if◌then◌else◌
abbrev pub if◌then◌else◌ {ℓ} : {A : Type ℓ} → Bool → A → A → A
if true then x else y = x
if false then x else y = y

-- `uint64_t` and `uint32_t`: sums wrap, and a difference adds the modulus first.
abbrev pub u64 : ℕ → ℕ
u64 n = n % 18446744073709551616

abbrev pub u32 : ℕ → ℕ
u32 n = n % 4294967296

abbrev pub sub64 : ℕ → ℕ → ℕ
sub64 a b = u64 (a + 18446744073709551616 - b)

abbrev pub IsU64 : ℕ → Type 0
IsU64 n = n < 18446744073709551616

abbrev pub IsU32 : ℕ → Type 0
IsU32 n = n < 4294967296

pub ltb→lt : (a b : ℕ) → ltb a b ≡ true → a < b
ltb→lt a b h = ground arith

pub ==_iff : (a b : ℕ) → ((a == b) ≡ true) ↔ (a ≡ b)
==_iff a b = ground arith

-- To split on a computed value and keep the equation.
pub Bool-cases : (b : Bool) → (b ≡ true) ⊎ (b ≡ false)
Bool-cases true = inl refl
Bool-cases false = inr refl

pub Option-cases {ℓ} : {A : Type ℓ} (o : Option A) → (o ≡ none) ⊎ ((a : A) × (o ≡ some a))
Option-cases none = inl refl
Option-cases (some a) = inr (a, refl)

-- `undefined` stands for undefined behaviour: a read outside a vector, a read of a variable that
-- was never set, a range past the end.
pub data Outcome {ℓ} (A : Type ℓ) : Type ℓ where
  ok : A → Outcome A
  undefined : Outcome A

infixl 5 ◌>>=◌
abbrev pub ◌>>=◌ {ℓ κ} : {A : Type ℓ} {B : Type κ} → Outcome A → (A → Outcome B) → Outcome B
ok a >>= f = f a
undefined >>= f = undefined

abbrev pub or_undefined {ℓ} : {A : Type ℓ} → Option A → Outcome A
or_undefined none = undefined
or_undefined (some a) = ok a

-- What is known of an outcome: `P` of a defined result, and `U` if there is none.
abbrev pub Meets {ℓ κ} : Type κ → {A : Type ℓ} → (A → Type κ) → Outcome A → Type κ
Meets U P (ok a) = P a
Meets U P undefined = U

-- What holds of the result, if there is one.
abbrev pub Ensures {ℓ κ} : {A : Type ℓ} → (A → Type κ) → Outcome A → Type κ
Ensures P m = Meets Unit P m

-- The code has a defined result, and the predicate holds of it.
abbrev pub Returns {ℓ} : {A : Type ℓ} → (A → Type 0) → Outcome A → Type 0
Returns P m = Meets ⊥ P m

module _ {ℓ κ μ} (U : Type μ) {A : Type ℓ} {B : Type κ} where
  pub Meets-bind :
      (P : A → Type μ) (Q : B → Type μ) (m : Outcome A) (f : A → Outcome B)
      → Meets U P m
      → ((a : A) → P a → Meets U Q (f a))
      → Meets U Q (m >>= f)
  Meets-bind P Q (ok a) f h k = k a h
  Meets-bind P Q undefined f h k = h

module _ {ℓ κ μ} {A : Type ℓ} {B : Type κ} where
  pub Ensures-bind :
      (P : A → Type μ) (Q : B → Type μ) (m : Outcome A) (f : A → Outcome B)
      → Ensures P m
      → ((a : A) → P a → Ensures Q (f a))
      → Ensures Q (m >>= f)
  Ensures-bind = Meets-bind Unit

module _ {ℓ κ} {A : Type ℓ} {B : Type κ} where
  pub Returns-bind :
      (P : A → Type 0) (Q : B → Type 0) (m : Outcome A) (f : A → Outcome B)
      → Returns P m
      → ((a : A) → P a → Returns Q (f a))
      → Returns Q (m >>= f)
  Returns-bind = Meets-bind ⊥

module _ {ℓ κ} {A : Type ℓ} where
  pub Meets-weaken :
      (U : Type κ) (P Q : A → Type κ) (m : Outcome A)
      → Meets U P m
      → ((a : A) → P a → Q a)
      → Meets U Q m
  Meets-weaken U P Q (ok a) h k = k a h
  Meets-weaken U P Q undefined h k = h

-- A 64-bit value converted to `int` and back: the low 32 bits, their sign carried up.
abbrev pub through_int : ℕ → ℕ
through_int n = if ltb (u32 n) 2147483648 then u32 n else u32 n + 18446744069414584320

-- A binding whose first part is of no interest.
pub Ensures-bind_any {ℓ κ μ} :
    {A : Type ℓ} {B : Type κ} (Q : B → Type μ) (m : Outcome A) (f : A → Outcome B)
    → ((a : A) → Ensures Q (f a))
    → Ensures Q (m >>= f)
Ensures-bind_any Q (ok a) f k = k a
Ensures-bind_any Q undefined f k = tt

-- Both branches of a conditional.
pub if-Meets {ℓ κ} :
    (U : Type κ) {A : Type ℓ} (Q : A → Type κ) (b : Bool) (x y : Outcome A)
    → Meets U Q x
    → Meets U Q y
    → Meets U Q (if b then x else y)
if-Meets U Q true x y hx hy = hx
if-Meets U Q false x y hx hy = hy

pub if-Ensures {ℓ κ} :
    {A : Type ℓ} (Q : A → Type κ) (b : Bool) (x y : Outcome A)
    → Ensures Q x
    → Ensures Q y
    → Ensures Q (if b then x else y)
if-Ensures = if-Meets Unit

pub if-keeps {ℓ κ} :
    {A : Type ℓ} (Q : A → Type κ) (b : Bool) (x y : A) → Q x → Q y → Q (if b then x else y)
if-keeps Q true x y hx hy = hx
if-keeps Q false x y hx hy = hy

-- The defined result, with what holds of it.
pub Returns-ok {ℓ} :
    {A : Type ℓ} (P : A → Type 0) (m : Outcome A) → Returns P m → (a : A) × (m ≡ ok a) × P a
Returns-ok P (ok a) h = (a, refl, h)
Returns-ok P undefined h = absurd h

pub Returns-and {ℓ} :
    {A : Type ℓ} (P Q : A → Type 0) (m : Outcome A)
    → Returns P m
    → Ensures Q m
    → Returns (λ a. P a × Q a) m
Returns-and P Q (ok a) p q = (p, q)
Returns-and P Q undefined p q = absurd p
