-- ===== src/Base/Mask.antt =====
-- `x & (2^k - 1)` keeps the low digits of x.
use Prim.Native.Nat.{
  ℕ, zero, suc, ◌+◌, ◌-◌, ◌*◌, ◌/◌, ◌%◌, ◌^◌, ◌≤◌, ◌<◌, min, bit_and, bit_and-bitwise, digits,
}
use mathlib.Core.Path.{◌≡◌, refl, ap}
use native.Mathlib.Nat.{mul_assoc}
use native.Mathlib.Omega.{arith}

-- A larger count of digits to go changes nothing.
digits-spare :
    (less more x y : ℕ)
    → x ≤ less
    → x ≤ more
    → digits (λ rest. zero) min less x y ≡ digits (λ rest. zero) min more x y
digits-spare (suc less) (suc more) (suc x) y h k =
    omega (arith, digits-spare less more (suc x / 2) (y / 2) (omega arith) (omega arith))
digits-spare zero more (suc x) y h k = absurd (omega arith)
digits-spare (suc less) zero (suc x) y h k = absurd (omega arith)
digits-spare zero zero zero y h k = refl
digits-spare zero (suc more) zero y h k = refl
digits-spare (suc less) zero zero y h k = refl
digits-spare (suc less) (suc more) zero y h k = refl

-- The lowest digit, and the rest.
bit_and-low : (x y : ℕ) → bit_and x y ≡ bit_and (x / 2) (y / 2) * 2 + min (x % 2) (y % 2)
bit_and-low zero y = omega (arith, bit_and-bitwise 0 (y / 2), bit_and-bitwise 0 y)
bit_and-low (suc x) y =
    let fewer = digits-spare x (suc x / 2) (suc x / 2) (y / 2) (omega arith) (omega arith) in
    omega (arith, fewer, bit_and-bitwise (suc x / 2) (y / 2), bit_and-bitwise (suc x) y)

none_left : (n a : ℕ) → a ≤ n → bit_and a 0 ≡ 0
none_left n zero h = omega (arith, bit_and-bitwise 0 0)
none_left zero (suc a) h = absurd (omega arith)
none_left (suc n) (suc a) h =
    omega (arith, bit_and-low (suc a) 0, none_left n (suc a / 2) (omega arith))

pub power_positive : (k : ℕ) → 0 < 2 ^ k
power_positive zero = omega arith
power_positive (suc k) = omega (arith, power_positive k)

pub bit_and-mask : (k q r : ℕ) → r < 2 ^ k → bit_and (q * 2 ^ k + r) (2 ^ k - 1) ≡ r
bit_and-mask zero q r h = omega (arith, none_left (q * 1 + r) (q * 1 + r) (omega arith))
bit_and-mask (suc k) q r h =
    let twice : q * 2 ^ suc k + r ≡ 2 * (q * 2 ^ k) + r =
      let double : q * 2 ^ suc k ≡ q * (2 ^ k * 2) = ap (◌*◌ q) (omega arith) in
      omega (arith, double, mul_assoc q (2 ^ k) 2) in
    let rest : bit_and (q * 2 ^ k + r / 2) (2 ^ k - 1) ≡ r / 2 =
      bit_and-mask k q (r / 2) (omega arith) in
    let half : (q * 2 ^ suc k + r) / 2 ≡ q * 2 ^ k + r / 2 = omega (arith, twice) in
    let mask : (2 ^ suc k - 1) / 2 ≡ 2 ^ k - 1 = omega (arith, power_positive k) in
    let low : bit_and ((q * 2 ^ suc k + r) / 2) ((2 ^ suc k - 1) / 2) ≡ r / 2 =
      rw half (rw mask rest) in
    omega (arith, bit_and-low (q * 2 ^ suc k + r) (2 ^ suc k - 1), low, twice, power_positive k)

-- A power of two divides every larger one.
pub power-power : (n k : ℕ) → 2 ^ k ≤ 2 ^ n → (m : ℕ) × (2 ^ n ≡ m * 2 ^ k)
power-power n zero h = (2 ^ n, omega arith)
power-power zero (suc k) h = absurd (omega (arith, power_positive k))
power-power (suc n) (suc k) h =
    let (m, e) = power-power n k (omega arith) in
    (
      m,
      (let double : m * 2 ^ suc k ≡ m * (2 ^ k * 2) = ap (◌*◌ m) (omega arith) in
          omega (arith, double, mul_assoc m (2 ^ k) 2, e)),
    )

-- `&` on a multiple of the power and a rest.
pub bit_and-above :
    (k m r : ℕ) → r < 2 ^ k → 0 < m → bit_and (m * 2 ^ k - 2 ^ k + r) (2 ^ k - 1) ≡ r
bit_and-above k zero r h p = absurd (omega arith)
bit_and-above k (suc m) r h p =
    let same : suc m * 2 ^ k - 2 ^ k + r ≡ m * 2 ^ k + r = omega arith in
    rw same (bit_and-mask k m r h)
