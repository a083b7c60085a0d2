-- ===== src/Numbers.antt =====
-- The integer types of compost_rpc/compost_rpc.py, and the formats of Python's `struct` that they
-- name: big endian, with one letter for the number of bytes and the sign.
pub mod Laws
mod Runs
use compost_rpc.Common.{
  ℕ, ◌+◌, ◌*◌, ◌/◌, ◌^◌, Bool, true, false, List, ltb, if◌then◌else◌, length, take, drop,
}
use compost_rpc.Common.BigEndian.{be_bytes, be_value}
use compost_rpc.Common.Int.{ℤ, pos, neg, ltb_ℤ, leb_ℤ}
use compost_rpc.Common.Result.{Result, ok, err, value_error, struct_error}
use compost_rpc.Common.Words.{word, in_range, value_of}
use compost_rpc.MemUnit.{MemUnit}
use compost_rpc.MemUnit

pub data IntType : Type 0 where
  u64 i64 u32 i32 u16 i16 u8 i8 : IntType

-- `size`, in bytes
unfoldable pub byte_size : IntType → ℕ
byte_size u64 = 8
byte_size i64 = 8
byte_size u32 = 4
byte_size i32 = 4
byte_size u16 = 2
byte_size i16 = 2
byte_size u8 = 1
byte_size i8 = 1

-- `fmt` is a small letter for the signed types.
unfoldable pub signed : IntType → Bool
signed u64 = false
signed i64 = true
signed u32 = false
signed i32 = true
signed u16 = false
signed i16 = true
signed u8 = false
signed i8 = true

-- The two tests of a constructor.
abbrev pub within : ℤ → ℤ → ℤ → Result ℤ
within lo hi value =
    if ltb_ℤ value lo then err value_error else if leb_ℤ hi value then err value_error else ok value

-- `__new__` of each type
abbrev pub new_u64 : ℤ → Result ℤ
new_u64 value = within (pos 0) (pos (2 ^ 64)) value

abbrev pub new_i64 : ℤ → Result ℤ
new_i64 value = within (neg (2 ^ 64)) (pos (2 ^ 64)) value

abbrev pub new_u32 : ℤ → Result ℤ
new_u32 value = within (pos 0) (pos (2 ^ 32)) value

abbrev pub new_i32 : ℤ → Result ℤ
new_i32 value = within (neg (2 ^ 31)) (pos (2 ^ 31)) value

abbrev pub new_u16 : ℤ → Result ℤ
new_u16 value = within (pos 0) (pos (2 ^ 16)) value

abbrev pub new_i16 : ℤ → Result ℤ
new_i16 value = within (neg (2 ^ 15)) (pos (2 ^ 15)) value

abbrev pub new_u8 : ℤ → Result ℤ
new_u8 value = within (pos 0) (pos (2 ^ 8)) value

abbrev pub new_i8 : ℤ → Result ℤ
new_i8 value = within (neg (2 ^ 7)) (pos (2 ^ 7)) value

-- `t(value)`
unfoldable pub construct : IntType → ℤ → Result ℤ
construct u64 value = new_u64 value
construct i64 value = new_i64 value
construct u32 value = new_u32 value
construct i32 value = new_i32 value
construct u16 value = new_u16 value
construct i16 value = new_i16 value
construct u8 value = new_u8 value
construct i8 value = new_i8 value

-- `pack(t.fmt, value)`: out of range it raises.
unfoldable pub pack_number : IntType → ℤ → Result (List ℕ)
unfolding byte_size signed in_range word be_bytes
pack_number t value =
    if in_range (signed t) (byte_size t) value
    then ok (be_bytes (byte_size t) (word (byte_size t) value))
    else err struct_error

-- `unpack_from(t.fmt, payload, i)`: where fewer bytes are left it raises.
unfoldable pub unpack_number : IntType → List ℕ → ℕ → Result ℤ
unfolding byte_size signed value_of be_value
unpack_number t payload i =
    if ltb (length payload) (i + byte_size t)
    then err struct_error
    else ok (value_of (signed t) (byte_size t) (be_value (take (byte_size t) (drop i payload))))
