-- ===== src/Base/Bits.antt =====
-- Bitwise or of numbers whose bits do not overlap is their sum.
use Prim.Native.Nat.{
  ℕ, zero, suc, ◌+◌, ◌*◌, ◌/◌, ◌%◌, ◌^◌, ◌≤◌, ◌<◌, max, bit_or, digits, bit_or-bitwise,
}
use mathlib.Core.Path.{◌≡◌, refl, ap}
use native.Mathlib.Nat.{pow-suc}
use native.Mathlib.Omega.{arith}

abbrev or_digits : ℕ → ℕ → ℕ → ℕ
or_digits n a b = digits (λ b. b) max n a b

or_digits_fuel : (n m a b : ℕ) → a ≤ n → a ≤ m → or_digits n a b ≡ or_digits m a b
or_digits_fuel zero zero a b p q = refl
or_digits_fuel zero (suc m) zero b p q = refl
or_digits_fuel zero (suc m) (suc a) b p q = absurd (omega arith)
or_digits_fuel (suc n) zero zero b p q = refl
or_digits_fuel (suc n) zero (suc a) b p q = absurd (omega arith)
or_digits_fuel (suc n) (suc m) zero b p q = refl
or_digits_fuel (suc n) (suc m) (suc a) b p q =
    omega (arith, or_digits_fuel n m (suc a / 2) (b / 2) (omega arith) (omega arith))

zero-bit_or : (b : ℕ) → bit_or 0 b ≡ b
zero-bit_or b = bit_or-bitwise 0 b

bit_or_step : (a b : ℕ) → bit_or a b ≡ bit_or (a / 2) (b / 2) * 2 + max (a % 2) (b % 2)
bit_or_step zero b = omega (arith, zero-bit_or b, zero-bit_or (b / 2))
bit_or_step (suc a) b = omega (
  arith,
  bit_or-bitwise (suc a) b,
  bit_or-bitwise (suc a / 2) (b / 2),
  or_digits_fuel a (suc a / 2) (suc a / 2) (b / 2) (omega arith) (omega arith),
)

double-bit_or :
    (v c p b : ℕ) → bit_or (v / 2) c ≡ v / 2 + c → b * p ≡ c * 2 → bit_or v (b * p) ≡ v + b * p
double-bit_or v c p b ih e =
    let half : b * p / 2 ≡ c = omega arith in
    let even : b * p % 2 ≡ 0 = omega arith in
    let low : bit_or (v / 2) (b * p / 2) ≡ v / 2 + c = rw half ih in
    omega (arith, bit_or_step v (b * p))

-- Bits below position `k` and a number shifted left by `k` do not overlap.
pub bit_or-shift : (k v b : ℕ) → v < 2 ^ k → bit_or v (b * 2 ^ k) ≡ v + b * 2 ^ k
bit_or-shift zero zero b h = omega (arith, zero-bit_or (b * 2 ^ 0))
bit_or-shift zero (suc v) b h = absurd (omega arith)
bit_or-shift (suc k) v b h =
    double-bit_or v (b * 2 ^ k) (2 ^ suc k) b
      (bit_or-shift k (v / 2) b (omega (arith, pow-suc 2 k)))
      (omega (arith, ap (λ (t : ℕ). b * t) (pow-suc 2 k)))

pub pow-pos : (k : ℕ) → 0 < 2 ^ k
pow-pos zero = omega arith
pow-pos (suc k) = omega (arith, pow-suc 2 k, pow-pos k)

-- Eight more bits.
pub pow-add_eight : (i : ℕ) → 2 ^ ((i + 1) * 8) ≡ 2 ^ (i * 8) * 256
pow-add_eight i =
    let e : (i + 1) * 8 ≡ suc (suc (suc (suc (suc (suc (suc (suc (i * 8)))))))) = omega arith in
    rw e (
      omega (
        arith,
        pow-suc 2 (i * 8),
        pow-suc 2 (suc (i * 8)),
        pow-suc 2 (suc (suc (i * 8))),
        pow-suc 2 (suc (suc (suc (i * 8)))),
        pow-suc 2 (suc (suc (suc (suc (i * 8))))),
        pow-suc 2 (suc (suc (suc (suc (suc (i * 8)))))),
        pow-suc 2 (suc (suc (suc (suc (suc (suc (i * 8))))))),
        pow-suc 2 (suc (suc (suc (suc (suc (suc (suc (i * 8)))))))),
      ))

bit_or-zero : (f h : ℕ) → h ≤ f → bit_or h 0 ≡ h
bit_or-zero zero zero bound = zero-bit_or 0
bit_or-zero zero (suc h) bound = absurd (omega arith)
bit_or-zero (suc f) h bound = omega (arith, bit_or_step h 0, bit_or-zero f (h / 2) (omega arith))

double-bit_or_low : (a c v : ℕ) → bit_or c (v / 2) ≡ c + v / 2 → a ≡ c * 2 → bit_or a v ≡ a + v
double-bit_or_low a c v ih e =
    let half : a / 2 ≡ c = omega arith in
    let even : a % 2 ≡ 0 = omega arith in
    let low : bit_or (a / 2) (v / 2) ≡ c + v / 2 = rw half ih in omega (arith, bit_or_step a v)

-- The same with the shifted number first.
pub bit_or-low : (k b v : ℕ) → v < 2 ^ k → bit_or (b * 2 ^ k) v ≡ b * 2 ^ k + v
bit_or-low zero b zero h = omega (arith, bit_or-zero (b * 2 ^ 0) (b * 2 ^ 0) (omega arith))
bit_or-low zero b (suc v) h = absurd (omega arith)
bit_or-low (suc k) b v h =
    double-bit_or_low (b * 2 ^ suc k) (b * 2 ^ k) v
      (bit_or-low k b (v / 2) (omega (arith, pow-suc 2 k)))
      (omega (arith, ap (λ (t : ℕ). b * t) (pow-suc 2 k)))
