-- ===== src/Payload/Unpack.antt =====
-- `unpack_payload`, with its local `_unpack`.
use compost_rpc.Common.{ℕ, zero, suc, ◌+◌, ◌*◌, ◌/◌, List, ltb, if◌then◌else◌, length, take, drop}
use compost_rpc.Common.Int.{ℤ, pos, pos_part}
use compost_rpc.Common.Result.{Result, ok, err, value_error, struct_error, ◌>>=◌}
use compost_rpc.MemUnit
use compost_rpc.MemUnit.{MemUnit}
use compost_rpc.BitU
use compost_rpc.Numbers.{u8, i8, i16, u16, unpack_number}
use compost_rpc.Payload.Types.{
  NumType, integer, f32, f64, num_size, EnumBase, on_bits, on_i8, on_u8, on_i16, Ty, num, bit_u,
  str, byte_string, list_of, enum, struct, Types, no_types, type_of, Value, int, float, text, raw,
  items, instance_of, Values, no_values, value, Library, is_member,
}

-- `unpack_from(">H", payload, i)`
unfoldable pub get_length : List ℕ → ℕ → Result ℕ
unfolding unpack_number
get_length payload i = do z ← unpack_number u16 payload i; ok (pos_part z)

-- The bytes behind a length, as many of them as there are, and the offset behind the whole.
unfoldable pub get_string : List ℕ → MemUnit → Result (List ℕ × MemUnit)
unfolding get_length MemUnit.bytes MemUnit.set_bytes
get_string payload offset = do
  n ← get_length payload (MemUnit.bytes offset)
  let offset' = MemUnit.set_bytes offset (MemUnit.bytes offset + 2)
  ok (
    take n (drop (MemUnit.bytes offset') payload),
    MemUnit.set_bytes offset' (MemUnit.bytes offset' + n),
  )

module _ {F S : Type 0} (lib : Library F S) where
  -- `unpack_from(t.fmt, payload, i)`
  unfoldable pub get_floating : ℕ → List ℕ → ℕ → Result (Value F S)
  get_floating n payload i =
      if ltb (length payload) (i + n)
      then err struct_error
      else ok (float (lib.unpack_float n (take n (drop i payload))))

  unfoldable pub get_number : NumType → List ℕ → ℕ → Result (Value F S)
  unfolding unpack_number get_floating
  get_number (integer t) payload i = do z ← unpack_number t payload i; ok (int z)
  get_number f32 payload i = get_floating 4 payload i
  get_number f64 payload i = get_floating 8 payload i

  -- The loop over the elements of a list, for the elements that are left.
  unfoldable pub get_items : NumType → List ℕ → ℕ → ℕ → Result (Values F S)
  unfolding get_number num_size
  get_items t payload i zero = ok no_values
  get_items t payload i (suc n) = do
    v ← get_number t payload i
    vs ← get_items t payload (i + num_size t) n
    ok (value v vs)

  unfoldable pub unpack_list : NumType → List ℕ → MemUnit → Result (Value F S × MemUnit)
  unfolding get_length get_items MemUnit.bytes MemUnit.set_bytes
  unpack_list t payload offset = do
    n ← get_length payload (MemUnit.bytes offset)
    let offset' = MemUnit.set_bytes offset (MemUnit.bytes offset + 2)
    vs ← get_items t payload (MemUnit.bytes offset') (n / num_size t)
    ok (items vs, MemUnit.set_bytes offset' (MemUnit.bytes offset' + n / num_size t * num_size t))

  -- A number at the byte that the offset is rounded up to; the offset itself is not.
  unfoldable pub unpack_num : NumType → List ℕ → MemUnit → Result (Value F S × MemUnit)
  unfolding get_number MemUnit.bytes MemUnit.add MemUnit.from_bytes
  unpack_num t payload offset = do
    v ← get_number t payload (MemUnit.bytes offset)
    ok (v, MemUnit.add offset (MemUnit.from_bytes (num_size t)))

  unfoldable pub unpack_bits : ℕ → List ℕ → MemUnit → Result (Value F S × MemUnit)
  unfolding BitU.unpack
  unpack_bits n payload offset = do
    (val, offset') ← BitU.unpack (record { bits = n }) payload offset
    ok (int (pos val), offset')

  -- `t(val)`
  unfoldable pub as_member : List ℤ → Value F S × MemUnit → Result (Value F S × MemUnit)
  unfolding is_member
  as_member members (int z, offset) =
      if is_member z members then ok (int z, offset) else err value_error
  as_member members r = err value_error

  unfoldable pub unpack_enum : EnumBase → List ℕ → MemUnit → Result (Value F S × MemUnit)
  unfolding unpack_bits unpack_num
  unpack_enum (on_bits n) payload offset = unpack_bits n payload offset
  unpack_enum on_i8 payload offset = unpack_num (integer i8) payload offset
  unpack_enum on_u8 payload offset = unpack_num (integer u8) payload offset
  unpack_enum on_i16 payload offset = unpack_num (integer i16) payload offset

  unfoldable mutual
    unfolding unpack_num unpack_bits get_string unpack_list unpack_enum as_member MemUnit.byte_align

    -- `_unpack`
    pub unpack_value : Ty → List ℕ → MemUnit → Result (Value F S × MemUnit)
    unpack_value (num t) payload offset = unpack_num t payload offset
    unpack_value (bit_u n) payload offset = unpack_bits n payload offset
    unpack_value str payload offset = do
      (b, offset') ← get_string payload offset
      s ← lib.decode b
      ok (text s, offset')
    unpack_value byte_string payload offset = do
      (b, offset') ← get_string payload offset
      ok (raw b, offset')
    unpack_value (list_of t) payload offset = unpack_list t payload offset
    unpack_value (enum base members) payload offset = do
      r ← unpack_enum base payload offset
      as_member members r
    unpack_value (struct ts) payload offset = do
      (vs, offset') ← unpack_all ts payload (MemUnit.byte_align offset)
      ok (instance_of vs, offset')

    -- The loop over the types.
    pub unpack_all : Types → List ℕ → MemUnit → Result (Values F S × MemUnit)
    unpack_all no_types payload offset = ok (no_values, offset)
    unpack_all (type_of t ts) payload offset = do
      (v, offset') ← unpack_value t payload offset
      (vs, offset'') ← unpack_all ts payload offset'
      ok (value v vs, offset'')

  unfoldable pub unpack_payload : Types → List ℕ → Result (Values F S)
  unfolding unpack_value
  unpack_payload types payload = do
    (vs, offset) ← unpack_all types payload (record { bits = 0 })
    ok vs
