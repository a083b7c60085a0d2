-- ===== src/Payload/Pack.antt =====
-- `pack_payload`, with its local `_pack`.
use compost_rpc.Common.{
  ℕ, suc, ◌+◌, ◌-◌, ◌*◌, min, List, [], ◌∷◌, ◌++◌, ◌==◌, ltb, if◌then◌else◌, length, take, drop,
  replicate,
}
use compost_rpc.Common.Int.{pos, negsuc}
use compost_rpc.Common.Result.{Result, ok, err, type_error, value_error, struct_error, ◌>>=◌}
use compost_rpc.MemUnit
use compost_rpc.MemUnit.{MemUnit}
use compost_rpc.BitU
use compost_rpc.Numbers.{IntType, u8, i8, i16, u16, pack_number}
use compost_rpc.Payload.Types.{
  NumType, integer, f32, f64, num_size, EnumBase, on_bits, on_i8, on_u8, on_i16, Ty, num, bit_u,
  str, byte_string, list_of, enum, struct, Types, no_types, type_of, Value, int, float, text, raw,
  items, instance_of, tuple, Values, no_values, value, Library,
}

-- The buffer and the offset.
abbrev pub Writer : Type 0
Writer = List ℕ × MemUnit

-- `buffer[i:i+n] = bytes`, of a memoryview: the sizes must agree, and a slice ends where the buffer
-- does.
unfoldable pub write_slice : List ℕ → ℕ → ℕ → List ℕ → Result (List ℕ)
write_slice buffer i n bytes =
    if min (length buffer) (i + n) - min (length buffer) i == length bytes
    then ok (take i buffer ++ (bytes ++ drop (i + n) buffer))
    else err value_error

-- Writing bytes at an offset, and going on behind them.
unfoldable pub put_bytes : Writer → ℕ → List ℕ → Result Writer
unfolding write_slice MemUnit.set_bytes MemUnit.bytes
put_bytes (buffer, offset) n bytes = do
  buffer' ← write_slice buffer (MemUnit.bytes offset) n bytes
  ok (buffer', MemUnit.set_bytes offset (MemUnit.bytes offset + n))

-- The same with `offset += size`.
unfoldable pub put_sized : Writer → ℕ → List ℕ → Result Writer
unfolding write_slice MemUnit.bytes MemUnit.add MemUnit.from_bytes
put_sized (buffer, offset) n bytes = do
  buffer' ← write_slice buffer (MemUnit.bytes offset) n bytes
  ok (buffer', MemUnit.add offset (MemUnit.from_bytes n))

unfoldable pub align : Writer → Writer
unfolding MemUnit.byte_align
align (buffer, offset) = (buffer, MemUnit.byte_align offset)

-- The length in two bytes, `pack(">H", n)`.
unfoldable pub put_length : Writer → ℕ → Result Writer
unfolding put_bytes pack_number
put_length w n = do b ← pack_number u16 (pos n); put_bytes w 2 b

unfoldable pub put_string : Writer → List ℕ → Result Writer
unfolding put_length
put_string w b = do w' ← put_length w (length b); put_bytes w' (length b) b

module _ {F S : Type 0} where
  unfoldable pub count : Values F S → ℕ
  count no_values = 0
  count (value v vs) = suc (count vs)

  -- `astuple` goes into instances and tuples.
  unfoldable mutual
    pub deep : Value F S → Value F S
    deep (instance_of vs) = tuple (deep_all vs)
    deep (tuple vs) = tuple (deep_all vs)
    deep (items vs) = items (deep_all vs)
    deep v = v

    pub deep_all : Values F S → Values F S
    deep_all no_values = no_values
    deep_all (value v vs) = value (deep v) (deep_all vs)

  -- `astuple` takes an instance of a dataclass only.
  unfoldable pub astuple : Value F S → Result (Values F S)
  unfolding deep
  astuple (instance_of vs) = ok (deep_all vs)
  astuple _ = err type_error

  -- `bytes(…)` of a sequence of numbers
  unfoldable pub bytes_of_items : Values F S → Result (List ℕ)
  bytes_of_items no_values = ok []
  bytes_of_items (value (int (pos b)) vs) =
      let rest = (do more ← bytes_of_items vs; ok (b ∷ more)) in
      if ltb b 256 then rest else err value_error
  bytes_of_items (value (int (negsuc b)) vs) = err value_error
  bytes_of_items (value v vs) = err type_error

  -- `bytes(value)`
  unfoldable pub bytes_of : Value F S → Result (List ℕ)
  unfolding bytes_of_items
  bytes_of (raw b) = ok b
  bytes_of (int (pos n)) = ok (replicate n 0)
  bytes_of (int (negsuc n)) = err value_error
  bytes_of (items vs) = bytes_of_items vs
  bytes_of (tuple vs) = bytes_of_items vs
  bytes_of _ = err type_error

  -- `t.pack(buffer, offset, value)` of a `BitU`. Only a number can be shifted.
  unfoldable pub pack_bits : ℕ → Writer → Value F S → Result Writer
  unfolding BitU.pack MemUnit.add
  pack_bits n (buffer, offset) (int z) = BitU.pack (record { bits = n }) buffer offset z
  pack_bits n (buffer, offset) v =
      if n == 0 then ok (buffer, MemUnit.add offset (record { bits = n })) else err type_error

  -- `pack(fmt, value)` of an integer format
  unfoldable pub pack_integer : IntType → Value F S → Result (List ℕ)
  unfolding pack_number
  pack_integer t (int z) = pack_number t z
  pack_integer t v = err struct_error

unfoldable pub how_many : Types → ℕ
how_many no_types = 0
how_many (type_of t ts) = suc (how_many ts)

abbrev pub capacity : ℕ
capacity = 1024

unfoldable pub used : Writer → List ℕ
unfolding MemUnit.bytes
used (buffer, offset) = take (MemUnit.bytes offset) buffer

module _ {F S : Type 0} (lib : Library F S) where
  -- `pack(fmt, value)` of a float format
  unfoldable pub pack_floating : ℕ → Value F S → Result (List ℕ)
  pack_floating n (float x) = lib.pack_float n x
  pack_floating n (int z) = do x ← lib.of_int z; lib.pack_float n x
  pack_floating n v = err struct_error

  unfoldable pub pack_num : NumType → Value F S → Result (List ℕ)
  unfolding pack_integer pack_floating
  pack_num (integer t) v = pack_integer t v
  pack_num f32 v = pack_floating 4 v
  pack_num f64 v = pack_floating 8 v

  -- One number at an offset that is a whole byte.
  unfoldable pub put_number : NumType → Writer → Value F S → Result Writer
  unfolding put_sized num_size pack_num
  put_number t w v = do b ← pack_num t v; put_sized w (num_size t) b

  -- The loop over the elements of a list.
  unfoldable pub put_items : NumType → Writer → Values F S → Result Writer
  unfolding put_number
  put_items t w no_values = ok w
  put_items t w (value v vs) = do w' ← put_number t w v; put_items t w' vs

  unfoldable pub pack_list : NumType → Writer → Value F S → Result Writer
  unfolding put_length put_items count
  pack_list t w (items vs) = do w' ← put_length w (count vs * num_size t); put_items t w' vs
  pack_list t w v = err type_error

  -- `str.encode(value)`
  unfoldable pub encode_text : Value F S → Result (List ℕ)
  encode_text (text s) = lib.encode s
  encode_text v = err type_error

  -- The types without members. An enum is packed by the branch of the type that it derives from.
  unfoldable pub pack_enum : EnumBase → Writer → Value F S → Result Writer
  unfolding pack_bits put_number align
  pack_enum (on_bits n) w v = pack_bits n w v
  pack_enum on_i8 w v = put_number (integer i8) (align w) v
  pack_enum on_u8 w v = put_number (integer u8) (align w) v
  pack_enum on_i16 w v = put_number (integer i16) (align w) v

  unfoldable mutual
    unfolding align put_number pack_bits encode_text bytes_of put_string pack_list pack_enum astuple

    -- `_pack`
    pub pack_value : Ty → Writer → Value F S → Result Writer
    pack_value (num t) w v = put_number t (align w) v
    pack_value (bit_u n) w v = pack_bits n w v
    pack_value str w v = do b ← encode_text v; put_string (align w) b
    pack_value byte_string w v = do b ← bytes_of v; put_string (align w) b
    pack_value (list_of t) w v = pack_list t (align w) v
    pack_value (enum base members) w v = pack_enum base w v
    pack_value (struct ts) w v = do vs ← astuple v; pack_all ts (align w) vs

    -- The loop over types and values, which `zip` ends with the shorter one.
    pub pack_all : Types → Writer → Values F S → Result Writer
    pack_all no_types w vs = ok w
    pack_all (type_of t ts) w no_values = ok w
    pack_all (type_of t ts) w (value v vs) = do w' ← pack_value t w v; pack_all ts w' vs

  unfoldable pub pack_payload : Types → Values F S → Result (List ℕ)
  unfolding pack_value used how_many count
  pack_payload types args =
      if count args == how_many types
      then (do w ← pack_all types (replicate capacity 0, record { bits = 0 }) args; ok (used w))
      else err value_error
