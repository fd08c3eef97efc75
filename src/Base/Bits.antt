-- ===== src/Base/Bits.antt =====
-- `|` of a high field with low bits, and `&` with a mask of ones, as arithmetic.
use Prim.Native.Nat.{
  ℕ, zero, suc, ◌+◌, ◌-◌, ◌*◌, ◌/◌, ◌%◌, ◌^◌, ◌≤◌, ◌<◌, min, max, digits, bitwise, bit_and, bit_or,
  bit_and-bitwise, bit_or-bitwise,
}
use mathlib.Core.Path.{◌≡◌, refl, ap}
use native.Mathlib.Nat.{pow-suc, one-le-pow}
use native.Mathlib.Omega.{arith}

module _ (low : ℕ → ℕ) (op : ℕ → ℕ → ℕ) where
  -- More fuel than the number makes no difference.
  digits_enough : (x k l y : ℕ) → x ≤ k → x ≤ l → digits low op k x y ≡ digits low op l x y
  digits_enough zero zero zero y p q = refl
  digits_enough zero zero (suc l) y p q = refl
  digits_enough zero (suc k) zero y p q = refl
  digits_enough zero (suc k) (suc l) y p q = refl
  digits_enough (suc x) zero l y p q = absurd (omega arith)
  digits_enough (suc x) (suc k) zero y p q = absurd (omega arith)
  digits_enough (suc x) (suc k) (suc l) y p q =
      rw (digits_enough (suc x / 2) k l (y / 2) (omega arith) (omega arith))

  bitwise_lowest :
      (x y : ℕ)
      → bitwise low op (suc x) y ≡ bitwise low op (suc x / 2) (y / 2) * 2 + op (suc x % 2) (y % 2)
  bitwise_lowest x y =
      omega (arith, digits_enough (suc x / 2) x (suc x / 2) (y / 2) (omega arith) (omega arith))

or_lowest : (x y : ℕ) → bit_or x y ≡ bit_or (x / 2) (y / 2) * 2 + max (x % 2) (y % 2)
or_lowest zero y = simp bit_or-bitwise (omega arith)
or_lowest (suc x) y = simp bit_or-bitwise (bitwise_lowest (λ b. b) max x y)

and_lowest : (x y : ℕ) → bit_and x y ≡ bit_and (x / 2) (y / 2) * 2 + min (x % 2) (y % 2)
and_lowest zero y = simp bit_and-bitwise (omega arith)
and_lowest (suc x) y = simp bit_and-bitwise (bitwise_lowest (λ b. 0) min x y)

or_nothing : (n x : ℕ) → x ≤ n → bit_or x 0 ≡ x
or_nothing n zero p = refl
or_nothing zero (suc x) p = absurd (omega arith)
or_nothing (suc n) (suc x) p =
    omega (arith, or_lowest (suc x) 0, or_nothing n (suc x / 2) (omega arith))

double : (k x : ℕ) → x * 2 ^ suc k ≡ 2 * (x * 2 ^ k)
double k x = omega (arith, ap (λ (p : ℕ). x * p) (pow-suc 2 k))

-- Bits behind a field that leaves room for them are added to it.
pub or_low : (k x low : ℕ) → low < 2 ^ k → bit_or (x * 2 ^ k) low ≡ x * 2 ^ k + low
or_low zero x low p = ground (arith, or_nothing x x (omega arith))
or_low (suc k) x low p =
    let h = or_low k x (low / 2) (omega (arith, pow-suc 2 k)) in
    ground (arith, or_lowest (x * 2 ^ suc k) low, double k x, h)

-- Bits of both beyond the room are put together on their own.
pub or_high :
    (k x y low : ℕ) → low < 2 ^ k → bit_or (x * 2 ^ k) (y * 2 ^ k + low) ≡ bit_or x y * 2 ^ k + low
or_high zero x y low p = ground arith
or_high (suc k) x y low p =
    let h = or_high k x y (low / 2) (omega (arith, pow-suc 2 k)) in
    ground (
      arith,
      or_lowest (x * 2 ^ suc k) (y * 2 ^ suc k + low),
      double k x,
      double k y,
      double k (bit_or x y),
      h,
    )

-- The lowest bit is set, whatever it was.
pub or_odd : (x : ℕ) → bit_or (2 * x) 1 ≡ bit_or (2 * x + 1) 1
or_odd x = ground (arith, or_lowest (2 * x) 1, or_lowest (2 * x + 1) 1)

-- Ones keep the bits behind a field.
ones_keep : (k x low : ℕ) → low < 2 ^ k → bit_and (2 ^ k - 1) (x * 2 ^ k + low) ≡ low
ones_keep zero x low p = omega (arith, bit_and-bitwise 0 (x * 1 + low))
ones_keep (suc k) x low p =
    let h = ones_keep k x (low / 2) (omega (arith, pow-suc 2 k)) in
    ground (
      arith,
      and_lowest (2 ^ suc k - 1) (x * 2 ^ suc k + low),
      double k x,
      pow-suc 2 k,
      one-le-pow k 2,
      h,
    )

ones_mod : (k x : ℕ) → bit_and (2 ^ k - 1) x ≡ x % 2 ^ k
ones_mod k x = ground (arith, ones_keep k (x / 2 ^ k) (x % 2 ^ k), one-le-pow k 2)

-- A mask of `n` ones before `k` zeros.
pub and_mask : (k n x : ℕ) → bit_and ((2 ^ n - 1) * 2 ^ k) (x * 2 ^ k) ≡ x % 2 ^ n * 2 ^ k
and_mask zero n x = ground (arith, ones_mod n x)
and_mask (suc k) n x = ground (
  arith,
  and_lowest ((2 ^ n - 1) * 2 ^ suc k) (x * 2 ^ suc k),
  double k (2 ^ n - 1),
  double k x,
  double k (x % 2 ^ n),
  and_mask k n x,
)
