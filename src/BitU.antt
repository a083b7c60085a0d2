-- ===== src/BitU.antt =====
-- `BitU` of compost_rpc/compost_rpc.py: an unsigned integer of a given number of bits, packed at a
-- bit offset, the most significant bit first. A buffer is a list of bytes.
pub mod Low
pub mod Packing
pub mod Unpacking
pub mod RoundTrip
mod Runs
use compost_rpc.Common.{
  ℕ, zero, suc, ◌+◌, ◌-◌, ◌*◌, ◌/◌, ◌%◌, ◌^◌, min, bit_and, bit_or, true, false, none, some, List,
  ltb, if◌then◌else◌, get_elem?, set,
}
use compost_rpc.Common.Int.{ℤ, pos, negsuc, ltb_ℤ, leb_ℤ}
use compost_rpc.Common.Result.{Result, ok, err, index_error, value_error, ◌>>=◌}
use compost_rpc.MemUnit.{MemUnit, bits_per_byte}
use compost_rpc.MemUnit

-- `BitU[key]`, as the size of the class that it makes
unfoldable pub class_getitem : ℤ → Result MemUnit
class_getitem (negsuc n) = err value_error
class_getitem (pos key) = if ltb 32 key then err value_error else ok (record { bits = key })

-- The constructor of the class with this size.
unfoldable pub new : MemUnit → ℤ → Result ℤ
new size value =
    if ltb_ℤ value (pos 0)
    then err value_error
    else if leb_ℤ (pos (2 ^ size.bits)) value
    then err value_error
    else ok value

-- `buffer[i]`
unfoldable pub read : List ℕ → ℕ → Result ℕ
read buffer i = elim (get_elem? buffer i) [ none ↦ err index_error | some b ↦ ok b ]

-- The `while` loop of `unpack`. A round places at least one bit, so `bits_remaining` rounds are
-- enough: with no fuel left the loop's test fails.
unfoldable pub unpack_loop : ℕ → List ℕ → ℕ → ℕ → ℕ → ℕ → Result ℕ
unfolding read
unpack_loop zero buffer bits_remaining byte_index bit_position val = ok val
unpack_loop (suc fuel) buffer bits_remaining byte_index bit_position val =
    elim (ltb 0 bits_remaining) [
      | false ↦ ok val
      | true ↦
          let bits_to_fill = 8 - bit_position % 8 in
          let bits_to_place = min bits_remaining bits_to_fill in
          let shift = bits_to_fill - bits_to_place in
          let mask = 2 ^ bits_to_place - 1 in
          do
            b ← read buffer byte_index
            let bit_value = bit_and (b / 2 ^ shift) mask
            unpack_loop fuel buffer (bits_remaining - bits_to_place) (byte_index + 1)
                (bit_position + bits_to_place)
                (bit_or val (bit_value * 2 ^ (bits_remaining - bits_to_place)))
    ]

unfoldable pub unpack : MemUnit → List ℕ → MemUnit → Result (ℕ × MemUnit)
unfolding unpack_loop MemUnit.add
unpack size buffer offset = do
  val ← unpack_loop size.bits buffer size.bits (offset.bits / bits_per_byte) offset.bits 0
  ok (val, MemUnit.add offset size)

-- `(value >> n) & mask`: a Python integer has infinitely many sign bits.
unfoldable pub bits_of : ℤ → ℕ → ℕ → ℕ
bits_of (pos value) n mask = bit_and (value / 2 ^ n) mask
bits_of (negsuc value) n mask = mask - bit_and (value / 2 ^ n) mask

-- `a & ~m`: the bits of `a & m` are taken out of `a`.
abbrev pub and_not : ℕ → ℕ → ℕ
and_not a m = a - bit_and a m

-- The `while` loop of `pack`, with the fuel of `unpack_loop`.
unfoldable pub pack_loop : ℕ → ℤ → List ℕ → ℕ → ℕ → ℕ → Result (List ℕ)
unfolding read
pack_loop zero value buffer bits_remaining byte_index bit_position = ok buffer
pack_loop (suc fuel) value buffer bits_remaining byte_index bit_position =
    elim (ltb 0 bits_remaining) [
      | false ↦ ok buffer
      | true ↦
          let bits_to_fill = 8 - bit_position % 8 in
          let bits_to_place = min bits_remaining bits_to_fill in
          let shift = bits_to_fill - bits_to_place in
          let mask = 2 ^ bits_to_place - 1 in
          let bit_value = bits_of value (bits_remaining - bits_to_place) mask in
          do
            b ← read buffer byte_index
            let cleared = and_not b (mask * 2 ^ shift)
            pack_loop fuel value (set buffer byte_index (bit_or cleared (bit_value * 2 ^ shift)))
                (bits_remaining - bits_to_place) (byte_index + 1) (bit_position + bits_to_place)
    ]

unfoldable pub pack : MemUnit → List ℕ → MemUnit → ℤ → Result (List ℕ × MemUnit)
unfolding pack_loop bits_of MemUnit.add
pack size buffer offset value = do
  buffer' ← pack_loop size.bits value buffer size.bits (offset.bits / bits_per_byte) offset.bits
  ok (buffer', MemUnit.add offset size)
