-- ===== src/Common/Bitwise.antt =====
-- `&` and `|` at variables, at every width: one equation for the lowest bit, then the masks.
use Prim.Native.Nat.{
  ℕ, zero, suc, ◌+◌, ◌-◌, ◌*◌, ◌/◌, ◌%◌, ◌^◌, ◌≤◌, ◌<◌, min, max, bit_and, bit_or, digits,
  bit_and-bitwise, bit_or-bitwise,
}
use mathlib.Core.Path.{◌≡◌, refl, ap, ◌∙◌}
use native.Mathlib.Omega.{arith}
use native.Mathlib.Nat.{
  two-pow-succ, div-add-mod', mod-lt, div-div-eq-div-mul, div-one, pow-zero, pow-succ', mul-one,
}
use compost_rpc.Common.Power.{two-pow-pos, div_unique, mod_unique}

-- More fuel than the first number needs changes nothing.
module _ (z : ℕ → ℕ) (f : ℕ → ℕ → ℕ) where
  enough_fuel : (n m a b : ℕ) → a ≤ n → a ≤ m → digits z f n a b ≡ digits z f m a b
  enough_fuel zero zero a b p q = refl
  enough_fuel zero (suc m) zero b p q = refl
  enough_fuel (suc n) zero zero b p q = refl
  enough_fuel (suc n) (suc m) zero b p q = refl
  enough_fuel zero (suc m) (suc a) b p q = absurd (omega arith)
  enough_fuel (suc n) zero (suc a) b p q = absurd (omega arith)
  enough_fuel (suc n) (suc m) (suc a) b p q =
      omega (arith, enough_fuel n m (suc a / 2) (b / 2) (omega arith) (omega arith))

pub bit_and-halves : (a b : ℕ) → bit_and a b ≡ 2 * bit_and (a / 2) (b / 2) + min (a % 2) (b % 2)
bit_and-halves zero b = omega (arith, bit_and-bitwise 0 b, bit_and-bitwise 0 (b / 2))
bit_and-halves (suc a) b = omega (
  arith,
  bit_and-bitwise (suc a) b,
  bit_and-bitwise (suc a / 2) (b / 2),
  enough_fuel (λ _. 0) min a (suc a / 2) (suc a / 2) (b / 2) (omega arith) (omega arith),
)

pub bit_or-halves : (a b : ℕ) → bit_or a b ≡ 2 * bit_or (a / 2) (b / 2) + max (a % 2) (b % 2)
bit_or-halves zero b = omega (arith, bit_or-bitwise 0 b, bit_or-bitwise 0 (b / 2))
bit_or-halves (suc a) b = omega (
  arith,
  bit_or-bitwise (suc a) b,
  bit_or-bitwise (suc a / 2) (b / 2),
  enough_fuel (λ y. y) max a (suc a / 2) (suc a / 2) (b / 2) (omega arith) (omega arith),
)

bit_and-zero_upto : (n a : ℕ) → a ≤ n → bit_and a 0 ≡ 0
bit_and-zero_upto n zero h = refl
bit_and-zero_upto zero (suc a) h = absurd (omega arith)
bit_and-zero_upto (suc n) (suc a) h =
    omega (arith, bit_and-halves (suc a) 0, bit_and-zero_upto n (suc a / 2) (omega arith))

bit_or-zero_upto : (n a : ℕ) → a ≤ n → bit_or a 0 ≡ a
bit_or-zero_upto n zero h = refl
bit_or-zero_upto zero (suc a) h = absurd (omega arith)
bit_or-zero_upto (suc n) (suc a) h =
    omega (arith, bit_or-halves (suc a) 0, bit_or-zero_upto n (suc a / 2) (omega arith))

pub bit_and-zero : (a : ℕ) → bit_and a 0 ≡ 0
bit_and-zero a = bit_and-zero_upto a a (omega arith)

pub bit_or-zero : (a : ℕ) → bit_or a 0 ≡ a
bit_or-zero a = bit_or-zero_upto a a (omega arith)

-- The remainder by a doubled modulus.
mod-double : (a m : ℕ) → 0 < m → a % (m + m) ≡ 2 * (a / 2 % m) + a % 2
mod-double a m h =
    mod_unique a (m + m) (a / 2 / m) _
      (omega (arith, ap (λ (t : ℕ). 2 * t) (div-add-mod' (a / 2) m)))
      (omega (arith, mod-lt (a / 2) h))

-- `a & ((1 << k) - 1)` is the remainder by `2 ^ k`.
pub bit_and-mask : (k a : ℕ) → bit_and a (2 ^ k - 1) ≡ a % 2 ^ k
bit_and-mask zero a = omega (arith, bit_and-zero a)
bit_and-mask (suc k) a = omega (
  arith,
  two-pow-succ k,
  two-pow-pos k,
  bit_and-halves a (2 ^ suc k - 1),
  mod-double a (2 ^ k) (two-pow-pos k),
  ap (λ t. a % t) (two-pow-succ k),
  bit_and-mask k (a / 2),
  ap (λ t. bit_and (a / 2) t) (half_mask k),
)
  where
    half_mask : (k : ℕ) → (2 ^ suc k - 1) / 2 ≡ 2 ^ k - 1
    half_mask k = omega (arith, two-pow-succ k, two-pow-pos k)

even-half : (m k : ℕ) → m * 2 ^ suc k / 2 ≡ m * 2 ^ k
even-half m k = omega (arith, ap (λ (t : ℕ). m * t) (two-pow-succ k))

even-rem : (m k : ℕ) → m * 2 ^ suc k % 2 ≡ 0
even-rem m k = omega (arith, ap (λ (t : ℕ). m * t) (two-pow-succ k))

half-shift : (k a : ℕ) → a / 2 / 2 ^ k ≡ a / 2 ^ suc k
half-shift k a = rw (div-div-eq-div-mul, ← pow-succ') refl

-- A mask moved up by `k` bits acts on what stands above them.
pub bit_and-shift : (k a m : ℕ) → bit_and a (m * 2 ^ k) ≡ bit_and (a / 2 ^ k) m * 2 ^ k
bit_and-shift zero a m = rw (pow-zero, div-one, mul-one, mul-one) refl
bit_and-shift (suc k) a m = omega (
  arith,
  bit_and-halves a (m * 2 ^ suc k),
  even-rem m k,
  ap (λ t. bit_and (a / 2) t) (even-half m k),
  bit_and-shift k (a / 2) m,
  ap (λ t. bit_and t m * 2 ^ k) (half-shift k a),
  ap (λ (t : ℕ). bit_and (a / 2 ^ suc k) m * t) (two-pow-succ k),
)

pub bit_or-shift : (k a m : ℕ) → bit_or a (m * 2 ^ k) ≡ bit_or (a / 2 ^ k) m * 2 ^ k + a % 2 ^ k
bit_or-shift zero a m = rw (pow-zero, div-one, mul-one, mul-one) (omega arith)
bit_or-shift (suc k) a m = omega (
  arith,
  bit_or-halves a (m * 2 ^ suc k),
  even-rem m k,
  ap (λ t. bit_or (a / 2) t) (even-half m k),
  bit_or-shift k (a / 2) m,
  ap (λ t. bit_or t m * 2 ^ k) (half-shift k a),
  ap (λ (t : ℕ). bit_or (a / 2 ^ suc k) m * t) (two-pow-succ k),
  mod-double a (2 ^ k) (two-pow-pos k),
  ap (λ t. a % t) (two-pow-succ k),
)

-- `(q << k) | r` is a sum where `r` fits below.
pub bit_or-fields : (k q r : ℕ) → r < 2 ^ k → bit_or (q * 2 ^ k) r ≡ q * 2 ^ k + r
bit_or-fields zero q r h = rw (r_zero) (omega (arith, bit_or-zero (q * 2 ^ 0)))
  where
    r_zero : r ≡ 0
    r_zero = omega arith
bit_or-fields (suc k) q r h = omega (
  arith,
  bit_or-halves (q * 2 ^ suc k) r,
  even-rem q k,
  ap (λ t. bit_or t (r / 2)) (even-half q k),
  bit_or-fields k q (r / 2) (omega (arith, two-pow-succ k)),
  ap (λ (t : ℕ). q * t) (two-pow-succ k),
)

-- Clearing a field of `p` bits that stands `s` bits up, and writing `v` there.
pub put_field :
    (p s b v : ℕ)
    → v < 2 ^ p
    → bit_or (b - bit_and b ((2 ^ p - 1) * 2 ^ s)) (v * 2 ^ s)
      ≡ (b / 2 ^ s / 2 ^ p * 2 ^ p + v) * 2 ^ s + b % 2 ^ s
put_field p s b v h =
    bit_or-shift s cleared v ∙ rw (upper, lower, bit_or-fields p (b / 2 ^ s / 2 ^ p) v h) refl
  where
    cleared : ℕ
    cleared = b - bit_and b ((2 ^ p - 1) * 2 ^ s)

    field : bit_and b ((2 ^ p - 1) * 2 ^ s) ≡ b / 2 ^ s % 2 ^ p * 2 ^ s
    field = rw (bit_and-shift, bit_and-mask) refl

    parts : cleared ≡ b / 2 ^ s / 2 ^ p * 2 ^ p * 2 ^ s + b % 2 ^ s
    parts = omega (
      arith,
      field,
      div-add-mod' b (2 ^ s),
      ap (λ (t : ℕ). t * 2 ^ s) (div-add-mod' (b / 2 ^ s) (2 ^ p)),
    )

    upper : cleared / 2 ^ s ≡ b / 2 ^ s / 2 ^ p * 2 ^ p
    upper = div_unique cleared (2 ^ s) _ (b % 2 ^ s) parts (mod-lt b (two-pow-pos s))

    lower : cleared % 2 ^ s ≡ b % 2 ^ s
    lower =
        mod_unique cleared (2 ^ s) (b / 2 ^ s / 2 ^ p * 2 ^ p) _ parts (mod-lt b (two-pow-pos s))
