-- ===== src/Payload/Runs.antt =====
-- Payloads of concrete types and values, with a library in which a float is a number.
use compost_rpc.Common.{
  ℕ, replicate, ◌*◌, ◌+◌, ◌%◌, ◌^◌, ◌≤◌, ◌≡◌, refl, subst, List, [], ◌∷◌, ◌++◌, Bool, true, false,
  some, arith, length, All,
}
use compost_rpc.Common.BigEndian.{
  IsByte, be_bytes, be_value, length-be_bytes, be_bytes-IsByte, be_value-be_bytes,
}
use compost_rpc.Common.Int.{ℤ, pos, negsuc}
use compost_rpc.Common.Result.{Result, ok, err, type_error}
use compost_rpc.Numbers.{u8, u16}
use compost_rpc.Payload.Types.{
  integer, f32, on_bits, num, bit_u, str, list_of, enum, struct, Types, no_types, type_of, int,
  float, text, items, instance_of, Values, no_values, value, Library, LibraryLaws,
}
use compost_rpc.Payload.Pack.{Writer, deep_all, pack_value, pack_payload, count, how_many}
use compost_rpc.Payload.Unpack.{unpack_payload}
use compost_rpc.Payload.Received.{received_all, FitsAll, phase_after_all, exact}
use compost_rpc.Payload.RoundTrip
use compost_rpc.Payload.Layout.{struct_size}
use compost_rpc.Payload.Tight.{tight_all}
use compost_rpc.Payload.Offsets.{dynamic_bytes_all}
use compost_rpc.Payload.StructSize
use compost_rpc.Payload.Sizes.{leaves_bits}
use compost_rpc.Payload.Shape.{HaveTypes}
use compost_rpc.Payload.Typed

abbrev pack_number_float : ℕ → ℕ → Result (List ℕ)
pack_number_float n x = ok (be_bytes n x)

abbrev of_int : ℤ → Result ℕ
of_int (pos n) = ok n
of_int (negsuc n) = err type_error

abbrev encode_flag : Bool → Result (List ℕ)
encode_flag true = ok (104 ∷ 105 ∷ [])
encode_flag false = ok []

abbrev decode_flag : List ℕ → Result Bool
decode_flag [] = ok false
decode_flag _ = ok true

abbrev pub numbers : Library ℕ Bool
numbers = record {
  pack_float = pack_number_float;
  unpack_float = λ n b. be_value b;
  of_int = of_int;
  encode = encode_flag;
  decode = decode_flag;
}

encode_flag-IsByte : (s : Bool) (b : List ℕ) → encode_flag s ≡ ok b → All IsByte b
encode_flag-IsByte true b e =
    let same : 104 ∷ 105 ∷ [] ≡ b = cc e in subst (All IsByte) same (omega arith, (omega arith, tt))
encode_flag-IsByte false b e = let same : [] ≡ b = cc e in subst (All IsByte) same tt

decode-encode_flag : (s : Bool) (b : List ℕ) → encode_flag s ≡ ok b → decode_flag b ≡ ok s
decode-encode_flag true b e =
    let same : 104 ∷ 105 ∷ [] ≡ b = cc e in subst (λ b. decode_flag b ≡ ok true) same refl
decode-encode_flag false b e =
    let same : [] ≡ b = cc e in subst (λ b. decode_flag b ≡ ok false) same refl

pub numbers-LibraryLaws : LibraryLaws numbers
numbers-LibraryLaws = record {
  rounded = λ n x. x % 256 ^ n;
  length-pack_float = λ n x b e.
      let same : be_bytes n x ≡ b = cc e in subst (λ b. length b ≡ n) same (length-be_bytes n x);
  pack_float-IsByte = λ n x b e.
      let same : be_bytes n x ≡ b = cc e in subst (All IsByte) same (be_bytes-IsByte n x);
  unpack_float-pack_float = λ n x b e.
      let same : be_bytes n x ≡ b = cc e in
      subst (λ b. be_value b ≡ x % 256 ^ n) same (be_value-be_bytes n x);
  encode-IsByte = encode_flag-IsByte;
  decode-encode = decode-encode_flag;
}

-- A byte, a bit field and an enum of two bits, a list, a struct and a float.
abbrev pub some_types : Types
some_types = type_of (num (integer u8)) (
    type_of (bit_u 3) (
      type_of (enum (on_bits 2) (pos 1 ∷ pos 2 ∷ [])) (
        type_of (list_of (integer u16)) (
          type_of (struct (type_of (bit_u 4) (type_of str no_types)))
            (type_of (num f32) no_types)))))

abbrev pub some_values : Values ℕ Bool
some_values = value (int (pos 7)) (
    value (int (pos 0xD)) (
      value (int (pos 2)) (
        value (items (value (int (pos 258)) no_values)) (
          value (instance_of (value (int (pos 9)) (value (text true) no_values)))
            (value (float 5) no_values)))))

abbrev pub some_bytes : List ℕ
some_bytes = 7 ∷ 0xB0 ∷ 0 ∷ 2 ∷ 1 ∷ 2 ∷ 0x90 ∷ 0 ∷ 2 ∷ 104 ∷ 105 ∷ 0 ∷ 0 ∷ 0 ∷ 5 ∷ []

pub some_values-pack : pack_payload numbers some_types some_values ≡ ok some_bytes
unfolding pack_payload be_bytes
some_values-pack = refl

pub some_values-FitsAll : FitsAll numbers numbers-LibraryLaws some_types some_values
unfolding FitsAll
some_values-FitsAll = (tt, (tt, (refl, (tt, ((tt, (tt, tt)), (tt, tt))))))

pub some_types-readable : phase_after_all some_types (exact 0) ≡ some (exact 0)
unfolding phase_after_all
some_types-readable = refl

unpack_payload-pack_payload_example :
    unpack_payload numbers some_types (some_bytes ++ (0 ∷ []))
    ≡ ok (received_all numbers numbers-LibraryLaws some_types some_values)
unpack_payload-pack_payload_example =
    RoundTrip.unpack_payload-pack_payload numbers numbers-LibraryLaws some_types some_values
      some_bytes (0 ∷ []) (exact 0) some_values-FitsAll some_types-readable (omega arith, tt)
      some_values-pack

-- What is read of them: the bit field has lost the bits that its field has no room for.
abbrev some_read : Values ℕ Bool
some_read = value (int (pos 7)) (
    value (int (pos 5)) (
      value (int (pos 2)) (
        value (items (value (int (pos 258)) no_values)) (
          value (instance_of (value (int (pos 9)) (value (text true) no_values)))
            (value (float 5) no_values)))))

some_bytes-IsByte : All IsByte some_bytes
some_bytes-IsByte =
    (RoundTrip.pack_payload_bounds numbers numbers-LibraryLaws some_types some_values some_bytes
      some_values-FitsAll some_values-pack).1

some_bytes-unpack : unpack_payload numbers some_types some_bytes ≡ ok some_read
unfolding unpack_payload be_value
some_bytes-unpack = refl

unpack_payload-HaveTypes_example : HaveTypes some_types some_read
unpack_payload-HaveTypes_example =
    Typed.unpack_payload-HaveTypes numbers some_types some_bytes some_read some_bytes-IsByte
      some_bytes-unpack

-- A bit field behind a number that does not start at a byte: it is read out of the number.
abbrev bits_number_bits : Types
bits_number_bits = type_of (bit_u 4) (type_of (num (integer u8)) (type_of (bit_u 4) no_types))

bits_number_bits-pack :
    pack_payload numbers bits_number_bits
      (value (int (pos 1)) (value (int (pos 0x23)) (value (int (pos 4)) no_values)))
    ≡ ok (0x10 ∷ 0x23 ∷ 0x40 ∷ [])
unfolding pack_payload be_bytes
bits_number_bits-pack = refl

bits_number_bits-unpack :
    unpack_payload numbers bits_number_bits (0x10 ∷ 0x23 ∷ 0x40 ∷ [])
    ≡ ok (value (int (pos 1)) (value (int (pos 0x23)) (value (int (pos 3)) no_values)))
unfolding unpack_payload be_value
bits_number_bits-unpack = refl

pack_payload_nested_example :
    pack_payload numbers
      (type_of (struct (type_of (struct some_types) no_types)) no_types)
      (value (instance_of (value (instance_of some_values) no_values)) no_values)
    ≡ err type_error
unfolding count how_many
pack_payload_nested_example =
    RoundTrip.pack_payload_nested numbers numbers-LibraryLaws some_types no_types no_types
      (instance_of some_values) no_values no_values refl

pack_payload_bounds_example : (length some_bytes ≤ 1024) × All IsByte some_bytes
pack_payload_bounds_example =
    RoundTrip.pack_payload_bounds numbers numbers-LibraryLaws some_types some_values some_bytes
      some_values-FitsAll some_values-pack

abbrev packed_struct : Types
packed_struct = type_of (bit_u 4) (
    type_of (bit_u 4)
      (type_of (num (integer u16)) (type_of str (type_of (num (integer u8)) no_types))))

abbrev struct_members : Values ℕ Bool
struct_members = value (int (pos 1)) (
    value (int (pos 2))
      (value (int (pos 0x304)) (value (text true) (value (int (pos 5)) no_values))))

abbrev after_struct : Writer
after_struct = (0x12 ∷ 3 ∷ 4 ∷ 0 ∷ 2 ∷ 104 ∷ 105 ∷ 5 ∷ [], record { bits = 64 })

struct_members-pack :
    pack_value numbers
      (struct packed_struct)
      (replicate 8 0, record { bits = 0 })
      (instance_of struct_members)
    ≡ ok after_struct
unfolding pack_value be_bytes
struct_members-pack = refl

struct_members-FitsAll : FitsAll numbers numbers-LibraryLaws packed_struct (deep_all struct_members)
unfolding FitsAll deep_all
struct_members-FitsAll = (tt, (tt, (tt, (tt, (tt, tt)))))

packed_struct-tight : tight_all packed_struct 0 ≡ some 0
unfolding tight_all
packed_struct-tight = refl

struct_size-pack_value_example :
    ((struct_size some_types).bits ≡ leaves_bits some_types)
    × (after_struct.1.bits
        ≡ 0
          + (struct_size packed_struct).bits
          + 8
            * dynamic_bytes_all numbers numbers-LibraryLaws packed_struct (deep_all struct_members))
struct_size-pack_value_example =
    StructSize.struct_size-pack_value numbers numbers-LibraryLaws some_types packed_struct
      (replicate 8 0, record { bits = 0 }) after_struct struct_members 0 struct_members-FitsAll refl
      packed_struct-tight struct_members-pack
