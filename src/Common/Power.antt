-- ===== src/Common/Power.antt =====
-- Powers, and quotients and remainders by products, beyond what the library has.
use Prim.Native.Nat.{ℕ, zero, suc, ◌+◌, ◌*◌, ◌/◌, ◌%◌, ◌^◌, ◌<◌}
use mathlib.Core.Path.{◌≡◌, ap}
use native.Mathlib.Omega.{arith}
use native.Mathlib.Nat.{pow-succ', one-le-pow, pow-zero, suc-add, zero-add, div-add-mod', mod-lt}

pub pow-add : (b m n : ℕ) → b ^ (m + n) ≡ b ^ m * b ^ n
pow-add b zero n = rw (zero-add, pow-zero) (omega arith)
pow-add b (suc m) n =
    rw (suc-add, pow-succ', pow-succ') (omega (arith, ap (λ (t : ℕ). b * t) (pow-add b m n)))

pub two-pow-pos : (n : ℕ) → 0 < 2 ^ n
two-pow-pos n = omega (arith, one-le-pow n 2)

-- Quotient and remainder are determined by their equation.
pub div_unique : (a d q r : ℕ) → a ≡ q * d + r → r < d → a / d ≡ q
div_unique a d q r e h = grind arith

pub mod_unique : (a d q r : ℕ) → a ≡ q * d + r → r < d → a % d ≡ r
mod_unique a d q r e h = grind arith

-- A field above a number that fits below it.
pub field-lt : (d r m w : ℕ) → d < m → r < w → d * w + r < m * w
field-lt d r m w hd hr = grind arith

-- The low `m + n` bits are `m` bits over `n` bits.
pub mod-pow-add : (m n v : ℕ) → v % 2 ^ (m + n) ≡ v / 2 ^ n % 2 ^ m * 2 ^ n + v % 2 ^ n
mod-pow-add m n v =
    mod_unique v (2 ^ (m + n)) (v / 2 ^ n / 2 ^ m) _
      (omega (
        arith,
        pow-add 2 m n,
        ap (λ (t : ℕ). v / 2 ^ n / 2 ^ m * t) (pow-add 2 m n),
        div-add-mod' v (2 ^ n),
        ap (λ (t : ℕ). t * 2 ^ n) (div-add-mod' (v / 2 ^ n) (2 ^ m)),
      ))
      (rw pow-add (
        field-lt (v / 2 ^ n % 2 ^ m) (v % 2 ^ n) (2 ^ m) (2 ^ n) (mod-lt _ (two-pow-pos m))
          (mod-lt v (two-pow-pos n))))
