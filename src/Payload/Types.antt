-- ===== src/Payload/Types.antt =====
-- The types of a protocol, and the Python objects that are packed and unpacked.
use compost_rpc.Common.{ℕ, List, Bool, false, ◌||◌, [], ◌∷◌, ◌==◌, ◌≡◌, All, length}
use compost_rpc.Common.BigEndian.{IsByte}
use compost_rpc.Common.Int.{ℤ, pos, negsuc}
use compost_rpc.Common.Result.{Result, ok}
use compost_rpc.Numbers.{IntType, byte_size}

-- `_NUMERIC_PRIMITIVE_TYPES`
pub data NumType : Type 0 where
  integer : IntType → NumType
  f32 f64 : NumType

-- `t.size.bytes`
unfoldable pub num_size : NumType → ℕ
unfolding byte_size
num_size (integer t) = byte_size t
num_size f32 = 4
num_size f64 = 8

-- The type that an `Enum` derives from.
pub data EnumBase : Type 0 where
  on_bits : ℕ → EnumBase
  on_i8 on_u8 on_i16 : EnumBase

-- A struct is the list of its members' types, and an enum has the values of its members.
mutual
  pub data Ty : Type 0 where
    num : NumType → Ty
    bit_u : ℕ → Ty
    str byte_string : Ty
    list_of : NumType → Ty
    enum : EnumBase → List ℤ → Ty
    struct : Types → Ty

  pub data Types : Type 0 where
    no_types : Types
    type_of : Ty → Types → Types

-- A Python object. The types of floats and of texts are parameters.
mutual
  pub data Value (F S : Type 0) : Type 0 where
    int : ℤ → Value F S
    float : F → Value F S
    text : S → Value F S
    raw : List ℕ → Value F S
    items : Values F S → Value F S
    instance_of : Values F S → Value F S
    tuple : Values F S → Value F S

  pub data Values (F S : Type 0) : Type 0 where
    no_values : Values F S
    value : Value F S → Values F S → Values F S

-- What is used of Python's `float`, `str` and of the two float formats of `struct`, by the number of
-- bytes.
pub record Library (F S : Type 0) : Type 0 where
  pub pack_float : ℕ → F → Result (List ℕ)
  pub unpack_float : ℕ → List ℕ → F
  pub of_int : ℤ → Result F
  pub encode : S → Result (List ℕ)
  pub decode : List ℕ → Result S

-- What is documented of it: a float that is packed in `n` bytes comes back rounded to that format, and
-- decoding undoes encoding.
pub record LibraryLaws {F S : Type 0} (lib : Library F S) : Type 0 where
  pub rounded : ℕ → F → F
  pub length-pack_float : (n : ℕ) (x : F) (b : List ℕ) → lib.pack_float n x ≡ ok b → length b ≡ n
  pub pack_float-IsByte : (n : ℕ) (x : F) (b : List ℕ) → lib.pack_float n x ≡ ok b → All IsByte b
  pub unpack_float-pack_float :
      (n : ℕ) (x : F) (b : List ℕ) → lib.pack_float n x ≡ ok b → lib.unpack_float n b ≡ rounded n x
  pub encode-IsByte : (s : S) (b : List ℕ) → lib.encode s ≡ ok b → All IsByte b
  pub decode-encode : (s : S) (b : List ℕ) → lib.encode s ≡ ok b → lib.decode b ≡ ok s

unfoldable pub is_eq : ℤ → ℤ → Bool
is_eq (pos a) (pos b) = a == b
is_eq (negsuc a) (negsuc b) = a == b
is_eq _ _ = false

-- `t(val)` of an enum finds a member with this value.
unfoldable pub is_member : ℤ → List ℤ → Bool
unfolding is_eq
is_member z [] = false
is_member z (m ∷ ms) = is_eq m z || is_member z ms
