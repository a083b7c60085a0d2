-- ===== src/BitU/Low.antt =====
-- The low bits of a Python integer, which `pack` writes chunk by chunk.
use compost_rpc.Common.{ℕ, ◌+◌, ◌-◌, ◌*◌, ◌/◌, ◌%◌, ◌^◌, ◌<◌, ◌≡◌, ap, arith}
use compost_rpc.Common.Bitwise.{bit_and-mask}
use compost_rpc.Common.Power.{pow-add, two-pow-pos, mod-pow-add}
use compost_rpc.Common.Int.{ℤ, pos, negsuc}
use compost_rpc.BitU.{bits_of}
use native.Mathlib.Nat.{mod-lt, mod-eq_of_lt}

-- The remainder by `2 ^ w`, at least 0 as Python's `%` has it.
unfoldable pub low_bits : ℤ → ℕ → ℕ
low_bits (pos v) w = v % 2 ^ w
low_bits (negsuc v) w = 2 ^ w - 1 - v % 2 ^ w

pub low_bits-lt : (z : ℤ) (w : ℕ) → low_bits z w < 2 ^ w
unfolding low_bits
low_bits-lt (pos v) w = mod-lt v (two-pow-pos w)
low_bits-lt (negsuc v) w = omega (arith, two-pow-pos w)

pub low_bits-pos : (v w : ℕ) → v < 2 ^ w → low_bits (pos v) w ≡ v
unfolding low_bits
low_bits-pos v w h = mod-eq_of_lt h

pub bits_of-lt : (z : ℤ) (n m : ℕ) → bits_of z n (2 ^ m - 1) < 2 ^ m
unfolding bits_of
bits_of-lt (pos v) n m = rw bit_and-mask (mod-lt _ (two-pow-pos m))
bits_of-lt (negsuc v) n m = omega (arith, two-pow-pos m)

pub low_bits-add :
    (z : ℤ) (m n : ℕ) → low_bits z (m + n) ≡ bits_of z n (2 ^ m - 1) * 2 ^ n + low_bits z n
unfolding low_bits bits_of
low_bits-add (pos v) m n = rw bit_and-mask (mod-pow-add m n v)
low_bits-add (negsuc v) m n =
    rw (bit_and-mask, mod-pow-add m n v, pow-add)
      (complement (v / 2 ^ n % 2 ^ m) (v % 2 ^ n) (2 ^ m) (2 ^ n) (mod-lt _ (two-pow-pos m))
        (mod-lt v (two-pow-pos n)))
  where
    complement :
        (d r a b : ℕ) → d < a → r < b → a * b - 1 - (d * b + r) ≡ (a - 1 - d) * b + (b - 1 - r)
    complement d r a b hd hr =
        let whole : a ≡ a - 1 - d + d + 1 = omega arith in
        omega (arith, ap (λ (t : ℕ). t * b) whole)
