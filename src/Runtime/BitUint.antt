-- ===== src/Runtime/BitUint.antt =====
-- `compost_bituint_load` and `_store`, and the functions on bit fields of a word.
use compost_rpc.Common.{
  ℕ, zero, suc, ◌+◌, ◌-◌, ◌*◌, ◌/◌, ◌%◌, ◌^◌, bit_and, bit_or, true, false, List, ltb, leb, get_or,
  set, if◌then◌else◌,
}

-- The `while` loop, on fuel: a round places at least one bit, so that `size_bits` rounds are enough.
unfoldable pub bituint_load_loop : ℕ → List ℕ → ℕ → ℕ → ℕ → ℕ → ℕ
bituint_load_loop zero src bits_remaining byte_index bit_position val = val
bituint_load_loop (suc fuel) src bits_remaining byte_index bit_position val =
    elim (ltb 0 bits_remaining) [
      | false ↦ val
      | true ↦
          let bits_to_fill = 8 - bit_position % 8 in
          let bits_to_place =
            if leb bits_remaining bits_to_fill then bits_remaining else bits_to_fill in
          let shift = bits_to_fill - bits_to_place in
          let mask = 2 ^ bits_to_place - 1 in
          let bit_value = bit_and (get_or src byte_index 0 / 2 ^ shift) mask in
          bituint_load_loop fuel src (bits_remaining - bits_to_place) ((byte_index + 1) % 2 ^ 32)
            ((bit_position + bits_to_place) % 2 ^ 32)
            (bit_or val (bit_value * 2 ^ (bits_remaining - bits_to_place) % 2 ^ 64))
    ]

-- `src` is what lies at the pointer; the result is cut to 32 bits.
unfoldable pub compost_bituint_load : List ℕ → ℕ → ℕ → ℕ
unfolding bituint_load_loop
compost_bituint_load src offset_bits size_bits =
    bituint_load_loop size_bits src size_bits (offset_bits / 8) offset_bits 0 % 2 ^ 32

-- `1UL` has 64 bits, and the result 32.
unfoldable pub compost_u32_field_set : ℕ → ℕ → ℕ → ℕ → ℕ
compost_u32_field_set backing bitfield_value offset_bits size_bits =
    let mask = (2 ^ size_bits - 1) * 2 ^ offset_bits % 2 ^ 32 in
    bit_or (bit_and backing mask) (bit_and (bitfield_value * 2 ^ offset_bits % 2 ^ 32) mask)

unfoldable pub compost_u32_field_get : ℕ → ℕ → ℕ → ℕ
compost_u32_field_get backing offset_bits size_bits =
    bit_and (backing / 2 ^ offset_bits) (2 ^ size_bits - 1)

-- The result is a `uint32_t`, as is `bitfield_value << offset_bits`.
unfoldable pub compost_u64_field_set : ℕ → ℕ → ℕ → ℕ → ℕ
compost_u64_field_set backing bitfield_value offset_bits size_bits =
    let mask = (2 ^ size_bits - 1) * 2 ^ offset_bits % 2 ^ 64 in
    bit_or (bit_and backing mask) (bit_and (bitfield_value * 2 ^ offset_bits % 2 ^ 32) mask)
    % 2 ^ 32

unfoldable pub compost_u64_field_get : ℕ → ℕ → ℕ → ℕ
compost_u64_field_get backing offset_bits size_bits =
    bit_and (backing / 2 ^ offset_bits) (2 ^ size_bits - 1) % 2 ^ 32

unfoldable pub compost_bits_to_bytes : ℕ → ℕ
compost_bits_to_bytes bits = (bits + 7) % 2 ^ 32 / 8

-- `dest[i] &= ~m; dest[i] |= v`, for a mask `m` inside the byte.
abbrev pub put_bits : List ℕ → ℕ → ℕ → ℕ → List ℕ
put_bits dest i m v = let b = get_or dest i 0 in set dest i (bit_or (b - bit_and b m) v % 256)

-- The `while` loop, with the fuel of the loading loop.
unfoldable pub bituint_store_loop : ℕ → List ℕ → ℕ → ℕ → ℕ → ℕ → List ℕ
bituint_store_loop zero dest value bits_remaining byte_index bit_position = dest
bituint_store_loop (suc fuel) dest value bits_remaining byte_index bit_position =
    elim (ltb 0 bits_remaining) [
      | false ↦ dest
      | true ↦
          let bits_to_fill = 8 - bit_position % 8 in
          let bits_to_place =
            if leb bits_remaining bits_to_fill then bits_remaining else bits_to_fill in
          let shift = bits_to_fill - bits_to_place in
          let mask = 2 ^ bits_to_place - 1 in
          let bit_value = bit_and (value / 2 ^ (bits_remaining - bits_to_place)) mask in
          bituint_store_loop fuel
            (put_bits dest byte_index (mask * 2 ^ shift) (bit_value * 2 ^ shift)) value
            (bits_remaining - bits_to_place) ((byte_index + 1) % 2 ^ 32)
            ((bit_position + bits_to_place) % 2 ^ 32)
    ]

unfoldable pub compost_bituint_store : List ℕ → ℕ → ℕ → ℕ → List ℕ
unfolding bituint_store_loop
compost_bituint_store dest value offset_bits size_bits =
    bituint_store_loop size_bits dest value size_bits (offset_bits / 8) offset_bits
