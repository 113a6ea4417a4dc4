-- ===== src/Base/Words.antt =====
-- Bit fields of machine words. A mask of `k` ones is a remainder, and `|` of fields that do not
-- overlap is a sum.
use Prim.Native.Nat.{
  ℕ, zero, suc, ◌+◌, ◌-◌, ◌*◌, ◌/◌, ◌%◌, ◌^◌, ◌≤◌, ◌<◌, min, max, digits, bit_and, bit_or,
  bit_and-bitwise, bit_or-bitwise,
}
use mathlib.Core.Path.{◌≡◌, refl, ap}
use native.Mathlib.Omega.{arith}
use native.Mathlib.Nat.{pow-suc, div-div-eq-div-mul, mod-eq-sub-mul-div, mul-div-le}

-- `x << k` and `x >> k`, with no wrap: a caller that can overflow writes the wrap out.
abbrev pub shl : ℕ → ℕ → ℕ
shl x k = x * 2 ^ k

abbrev pub shr : ℕ → ℕ → ℕ
shr x k = x / 2 ^ k

-- The digits of two numbers do not depend on the fuel, once there is enough.
module _ (rest : ℕ → ℕ) (digit : ℕ → ℕ → ℕ) where
  enough_digits : (f g x y : ℕ) → x ≤ f → x ≤ g → digits rest digit f x y ≡ digits rest digit g x y
  enough_digits zero zero x y hf hg = refl
  enough_digits zero (suc g) zero y hf hg = refl
  enough_digits zero (suc g) (suc x) y hf hg = absurd (omega arith)
  enough_digits (suc f) zero zero y hf hg = refl
  enough_digits (suc f) zero (suc x) y hf hg = absurd (omega arith)
  enough_digits (suc f) (suc g) zero y hf hg = refl
  enough_digits (suc f) (suc g) (suc x) y hf hg =
      omega (arith, enough_digits f g (suc x / 2) (y / 2) (omega arith) (omega arith))

bit_and-low : (x y : ℕ) → bit_and x y ≡ bit_and (x / 2) (y / 2) * 2 + min (x % 2) (y % 2)
bit_and-low zero y = omega (arith, bit_and-bitwise 0 y, bit_and-bitwise 0 (y / 2))
bit_and-low (suc x) y = omega (
  arith,
  bit_and-bitwise (suc x) y,
  bit_and-bitwise (suc x / 2) (y / 2),
  enough_digits (λ _. 0) min x (suc x / 2) (suc x / 2) (y / 2) (omega arith) (omega arith),
)

bit_or-low : (x y : ℕ) → bit_or x y ≡ bit_or (x / 2) (y / 2) * 2 + max (x % 2) (y % 2)
bit_or-low zero y = omega (arith, bit_or-bitwise 0 y, bit_or-bitwise 0 (y / 2))
bit_or-low (suc x) y = omega (
  arith,
  bit_or-bitwise (suc x) y,
  bit_or-bitwise (suc x / 2) (y / 2),
  enough_digits (λ b. b) max x (suc x / 2) (suc x / 2) (y / 2) (omega arith) (omega arith),
)

double-pow : (k : ℕ) → 2 ^ suc k ≡ 2 * 2 ^ k
double-pow k = omega (arith, pow-suc 2 k)

pub pow-pos : (k : ℕ) → 0 < 2 ^ k
pow-pos zero = omega arith
pow-pos (suc k) = omega (arith, pow-pos k, double-pow k)

bit_and-zero_below : (n x : ℕ) → x ≤ n → bit_and x 0 ≡ 0
bit_and-zero_below n zero h = refl
bit_and-zero_below zero (suc x) h = absurd (omega arith)
bit_and-zero_below (suc n) (suc x) h =
    omega (arith, bit_and-low (suc x) 0, bit_and-zero_below n (suc x / 2) (omega arith))

halve-mod : (x m : ℕ) → 0 < m → x % (2 * m) ≡ 2 * (x / 2 % m) + x % 2
halve-mod x m h = omega (
  arith,
  ap (λ (t : ℕ). m * t) (div-div-eq-div-mul x 2 m),
  mod-eq-sub-mul-div x (2 * m),
  mul-div-le x (2 * m),
  mod-eq-sub-mul-div (x / 2) m,
  mul-div-le (x / 2) m,
)

halve : (a m : ℕ) → suc a ≡ 2 * m → a / 2 ≡ m - 1
halve a m h = omega arith

-- `x & (2^k - 1)` is the remainder by `2^k`.
pub bit_and-mask : (k x : ℕ) → bit_and x (2 ^ k - 1) ≡ x % 2 ^ k
bit_and-mask zero x = omega (arith, bit_and-zero_below x x (omega arith))
bit_and-mask (suc k) x = omega (
  arith,
  double-pow k,
  pow-pos k,
  bit_and-low x (2 ^ suc k - 1),
  ap (bit_and (x / 2)) (halve (2 ^ suc k - 1) (2 ^ k) (omega (arith, double-pow k, pow-pos k))),
  bit_and-mask k (x / 2),
  ap (λ t. x % t) (double-pow k),
  halve-mod x (2 ^ k) (pow-pos k),
)

halve_shifted : (k y : ℕ) → y * 2 ^ suc k / 2 ≡ y * 2 ^ k
halve_shifted k y = omega (arith, ap (λ (t : ℕ). y * t) (double-pow k))

-- `x | (y << k)` is a sum when `x` has `k` bits.
pub bit_or-fields : (k x y : ℕ) → x < 2 ^ k → bit_or x (y * 2 ^ k) ≡ x + y * 2 ^ k
bit_or-fields zero x y h =
    let e : x ≡ 0 = omega arith in rw e (omega (arith, bit_or-bitwise 0 (y * 1)))
bit_or-fields (suc k) x y h = omega (
  arith,
  double-pow k,
  bit_or-low x (y * 2 ^ suc k),
  ap (bit_or (x / 2)) (halve_shifted k y),
  halve_shifted k y,
  ap (λ (t : ℕ). y * t) (double-pow k),
  bit_or-fields k (x / 2) y (omega (arith, double-pow k)),
)
