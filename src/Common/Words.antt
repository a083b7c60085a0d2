-- ===== src/Common/Words.antt =====
-- Two's complement: the integers as words of `n` bytes.
use Prim.Native.Nat.{ℕ, ◌+◌, ◌-◌, ◌*◌, ◌^◌, ◌%◌, ◌<◌, ◌≤◌}
use mathlib.Core.Path.{◌≡◌, ap, ◌∙◌}
use mathlib.Core.Bool.{Bool, true, false}
use native.Mathlib.Omega.{arith}
use native.Mathlib.Nat.{mod-eq_of_lt, mod-lt}
use compost_rpc.Common.Tests.{ltb, leb, ltb→lt, leb→le, ltb-false, if◌then◌else◌, if-true, if-false}
use compost_rpc.Common.Int.{ℤ, pos, negsuc}

-- The integer that a word stands for in a signed type.
unfoldable pub signed_value : ℕ → ℕ → ℤ
signed_value n x = if ltb (2 * x) (256 ^ n) then pos x else negsuc (256 ^ n - 1 - x)

-- The word of an integer, which is reduced by `256 ^ n`.
unfoldable pub word : ℕ → ℤ → ℕ
word n (pos v) = v % 256 ^ n
word n (negsuc v) = 256 ^ n - 1 - v % 256 ^ n

-- What a type of `n` bytes holds.
unfoldable pub in_range : Bool → ℕ → ℤ → Bool
in_range false n (pos v) = ltb v (256 ^ n)
in_range false n (negsuc v) = false
in_range true n (pos v) = ltb (2 * v) (256 ^ n)
in_range true n (negsuc v) = leb (2 * (v + 1)) (256 ^ n)

unfoldable pub value_of : Bool → ℕ → ℕ → ℤ
unfolding signed_value
value_of false n x = pos x
value_of true n x = signed_value n x

pub word-lt : (n : ℕ) (z : ℤ) → 0 < 256 ^ n → word n z < 256 ^ n
unfolding word
word-lt n (pos v) h = omega (arith, mod-lt v h)
word-lt n (negsuc v) h = omega (arith, h)

pub value_of-word :
    (signed : Bool) (n : ℕ) (z : ℤ) → in_range signed n z ≡ true → value_of signed n (word n z) ≡ z
unfolding in_range word value_of signed_value
value_of-word false n (pos v) h = ap pos (mod-eq_of_lt (ltb→lt v (256 ^ n) h))
value_of-word false n (negsuc v) h = cc
value_of-word true n (pos v) h =
    let small : v < 256 ^ n = omega (arith, ltb→lt (2 * v) (256 ^ n) h) in
    rw (mod-eq_of_lt small) (if-true (ltb (2 * v) (256 ^ n)) _ _ h)
value_of-word true n (negsuc v) h =
    let room : 2 * (v + 1) ≤ 256 ^ n = leb→le (2 * (v + 1)) (256 ^ n) h in
    let small : v < 256 ^ n = omega arith in
    let upper : 256 ^ n ≤ 2 * (256 ^ n - 1 - v) = omega arith in
    let back : 256 ^ n - 1 - (256 ^ n - 1 - v) ≡ v = omega arith in
    rw (mod-eq_of_lt small)
      (if-false (ltb (2 * (256 ^ n - 1 - v)) (256 ^ n)) _ _ (ltb-false _ _ upper) ∙ ap negsuc back)
