-- ===== src/Runtime/Fields.antt =====
-- The functions on bit fields of a 32-bit word, in plain arithmetic.
use compost_rpc.Common.{
  ℕ, ◌+◌, ◌-◌, ◌*◌, ◌/◌, ◌%◌, ◌^◌, ◌<◌, ◌≤◌, ◌≡◌, sym, ap, ◌∙◌, bit_and, bit_or, arith,
}
use compost_rpc.Common.Bitwise.{bit_and-mask, bit_and-shift, bit_or-shift}
use compost_rpc.Common.Power.{pow-add, two-pow-pos, div_unique, mod_unique, mod-pow-add}
use compost_rpc.Runtime.BitUint.{compost_u32_field_set, compost_u32_field_get}
use native.Mathlib.Nat.{mod-eq_of_lt, mod-lt, mul-lt-mul_of_pos_right, pow-le-pow_right}

div-shifted : (a k : ℕ) → a * 2 ^ k / 2 ^ k ≡ a
div-shifted a k = div_unique (a * 2 ^ k) (2 ^ k) a 0 (omega arith) (two-pow-pos k)

or-shifted : (a b k : ℕ) → bit_or (a * 2 ^ k) (b * 2 ^ k) ≡ bit_or a b * 2 ^ k
or-shifted a b k = omega (
  arith,
  bit_or-shift k (a * 2 ^ k) b,
  ap (λ t. bit_or t b * 2 ^ k) (div-shifted a k),
  mod_unique (a * 2 ^ k) (2 ^ k) a 0 (omega arith) (two-pow-pos k),
)

module _ (offset_bits size_bits : ℕ) (room : offset_bits + size_bits ≤ 32) where
  mask-lt : (2 ^ size_bits - 1) * 2 ^ offset_bits < 2 ^ 32
  mask-lt =
      let whole = pow-add 2 size_bits offset_bits in
      let bound : 2 ^ (size_bits + offset_bits) ≤ 2 ^ 32 =
        pow-le-pow_right (omega arith) {j = 32} (omega arith) in
      let below : (2 ^ size_bits - 1) * 2 ^ offset_bits < 2 ^ size_bits * 2 ^ offset_bits =
        mul-lt-mul_of_pos_right (omega (arith, two-pow-pos size_bits)) (two-pow-pos offset_bits) in
      omega (arith, whole, bound, below)

  -- The low bits of a value that is moved up inside 32 bits.
  moved :
      (v : ℕ) → v * 2 ^ offset_bits % 2 ^ 32 / 2 ^ offset_bits % 2 ^ size_bits ≡ v % 2 ^ size_bits
  moved v =
      let k : ℕ = 32 - offset_bits in
      let cut : v * 2 ^ offset_bits % 2 ^ 32 ≡ v % 2 ^ k * 2 ^ offset_bits = omega (
        arith,
        ap (λ e. v * 2 ^ offset_bits % 2 ^ e) full,
        mod-pow-add k offset_bits (v * 2 ^ offset_bits),
        ap (λ t. t % 2 ^ k * 2 ^ offset_bits) (div-shifted v offset_bits),
        mod_unique (v * 2 ^ offset_bits) (2 ^ offset_bits) v 0 (omega arith)
            (two-pow-pos offset_bits),
      ) in
      let split : v % 2 ^ k
          ≡ v / 2 ^ size_bits % 2 ^ (k - size_bits) * 2 ^ size_bits + v % 2 ^ size_bits =
        ap (λ e. v % 2 ^ e) (omega arith) ∙ mod-pow-add (k - size_bits) size_bits v in
      rw (cut, div-shifted (v % 2 ^ k) offset_bits)
        (mod_unique (v % 2 ^ k) (2 ^ size_bits) _ (v % 2 ^ size_bits) split
          (mod-lt v (two-pow-pos size_bits)))
    where
      full : 32 ≡ 32 - offset_bits + offset_bits
      full = omega arith

  masked :
      (a : ℕ)
      → bit_and a ((2 ^ size_bits - 1) * 2 ^ offset_bits)
        ≡ a / 2 ^ offset_bits % 2 ^ size_bits * 2 ^ offset_bits
  masked a =
      bit_and-shift offset_bits a (2 ^ size_bits - 1)
      ∙ ap (λ t. t * 2 ^ offset_bits) (bit_and-mask size_bits (a / 2 ^ offset_bits))

  field_set_lem :
      (backing v : ℕ)
      → compost_u32_field_set backing v offset_bits size_bits
        ≡ bit_or (backing / 2 ^ offset_bits % 2 ^ size_bits) (v % 2 ^ size_bits) * 2 ^ offset_bits
  unfolding compost_u32_field_set
  field_set_lem backing v =
      rw (mod-eq_of_lt mask-lt, masked backing, masked (v * 2 ^ offset_bits % 2 ^ 32), moved v)
        (or-shifted _ _ offset_bits)

-- Setting a field of a 32-bit word does not replace the field: the result has, at the field's place,
-- the old field or-ed with the low bits of the value, and nothing of the other fields.
pub field_set_ors :
    (backing v offset_bits size_bits : ℕ)
    → offset_bits + size_bits ≤ 32
    → compost_u32_field_set backing v offset_bits size_bits
      ≡ bit_or (compost_u32_field_get backing offset_bits size_bits) (v % 2 ^ size_bits)
        * 2 ^ offset_bits
unfolding compost_u32_field_get
field_set_ors backing v o s room =
    field_set_lem o s room backing v
    ∙ ap (λ t. bit_or t (v % 2 ^ s) * 2 ^ o) (sym (bit_and-mask s (backing / 2 ^ o)))
