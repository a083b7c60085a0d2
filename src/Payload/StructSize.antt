-- ===== src/Payload/StructSize.antt =====
-- The size that the decorator `struct` computes, and what packing takes of the buffer.
use compost_rpc.Common.{ℕ, ◌+◌, ◌*◌, ◌%◌, ◌≡◌, ap, some, arith}
use compost_rpc.Common.Result.{ok, >>=-eq-ok}
use compost_rpc.Numbers.{i8, u8, i16, byte_size}
use compost_rpc.Payload.Types.{
  NumType, integer, num_size, EnumBase, on_bits, on_i8, on_u8, on_i16, Ty, num, bit_u, str,
  byte_string, list_of, enum, struct, Types, no_types, type_of, Value, int, float, text, raw, items,
  instance_of, tuple, Values, no_values, value, Library, LibraryLaws,
}
use compost_rpc.Payload.Pack.{
  Writer, align, put_number, pack_enum, astuple, deep_all, pack_value, pack_all,
}
use compost_rpc.Payload.Received.{Fits, FitsAll}
use compost_rpc.Payload.Layout.{enum_size, struct_size}
use compost_rpc.Payload.Sizes.{
  member_bits, members_bits, struct_size-members_bits, leaves_bits, struct_size-leaves_bits,
}
use compost_rpc.Payload.Tight.{
  tight, tight_all, tight_enum, at_start, and_then, and_then-eq_some, at_start-eq_some,
}
use compost_rpc.Payload.Offsets.{
  Takes, dynamic_bytes, dynamic_bytes_all, align_tight, pack_bits_offset, put_number_offset,
  text_offset, raw_offset, list_offset,
}

-- A step that starts and ends at a byte.
whole_Takes :
    (w w' : Writer) (bits r r' : ℕ)
    → w.1.bits % 8 ≡ r
    → at_start r ≡ some r'
    → bits % 8 ≡ 0
    → (w.1.bits % 8 ≡ 0 → w'.1.bits ≡ w.1.bits + bits)
    → Takes w w' bits r'
whole_Takes w w' bits r r' phase start bytes moves =
    let (here, there) = at_start-eq_some r r' start in
    let ends : w'.1.bits ≡ w.1.bits + bits = moves (omega arith) in
    record { ends = ends; phase = omega arith }

bits_Takes :
    (w w' : Writer) (n r r' : ℕ)
    → w.1.bits % 8 ≡ r
    → some ((r + n) % 8) ≡ some r'
    → w'.1.bits ≡ w.1.bits + n
    → Takes w w' n r'
bits_Takes w w' n r r' phase next ends =
    let same : (r + n) % 8 ≡ r' = cc next in record { ends = ends; phase = omega arith }

plus_zero : (w w' : Writer) (bits r : ℕ) → Takes w w' bits r → Takes w w' (bits + 8 * 0) r
plus_zero w w' bits r t = record { ends = omega (arith, t.ends); phase = t.phase }

module _ {F S : Type 0} (lib : Library F S) (laws : LibraryLaws lib) where
  number_Takes :
      (t : NumType) (w w' : Writer) (v : Value F S) (r r' : ℕ)
      → w.1.bits % 8 ≡ r
      → at_start r ≡ some r'
      → put_number lib t (align w) v ≡ ok w'
      → Takes w w' (num_size t * 8) r'
  number_Takes t w w' v r r' phase start e =
      whole_Takes w w' (num_size t * 8) r r' phase start (omega arith)
        (λ at. omega (arith, put_number_offset lib laws t (align w) w' v e, align_tight w at))

  enum_Takes :
      (base : EnumBase) (w w' : Writer) (v : Value F S) (r r' : ℕ)
      → w.1.bits % 8 ≡ r
      → tight_enum base r ≡ some r'
      → pack_enum lib base w v ≡ ok w'
      → Takes w w' (enum_size base).bits r'
  unfolding tight_enum pack_enum enum_size num_size byte_size
  enum_Takes (on_bits n) w w' v r r' phase next e =
      bits_Takes w w' n r r' phase next (pack_bits_offset n w w' v e)
  enum_Takes on_i8 w w' v r r' phase next e = number_Takes (integer i8) w w' v r r' phase next e
  enum_Takes on_u8 w w' v r r' phase next e = number_Takes (integer u8) w w' v r r' phase next e
  enum_Takes on_i16 w w' v r r' phase next e = number_Takes (integer i16) w w' v r r' phase next e

  mutual
    unfolding pack_value tight Fits member_bits members_bits dynamic_bytes astuple

    value_Takes :
        (t : Ty) (w w' : Writer) (v : Value F S) (r r' : ℕ)
        → Fits lib laws t v
        → w.1.bits % 8 ≡ r
        → tight t r ≡ some r'
        → pack_value lib t w v ≡ ok w'
        → Takes w w' (member_bits t + 8 * dynamic_bytes lib laws t v) r'
    value_Takes (num t) w w' v r r' fits phase next e =
        plus_zero w w' (num_size t * 8) r' (number_Takes t w w' v r r' phase next e)
    value_Takes (bit_u n) w w' v r r' fits phase next e =
        plus_zero w w' n r' (bits_Takes w w' n r r' phase next (pack_bits_offset n w w' v e))
    value_Takes (enum base members) w w' v r r' fits phase next e =
        plus_zero w w' (enum_size base).bits r' (enum_Takes base w w' v r r' phase next e)
    value_Takes str w w' v r r' fits phase next e =
        whole_Takes w w' _ r r' phase next (omega arith) (λ at. text_offset lib laws w w' v at e)
    value_Takes byte_string w w' v r r' fits phase next e =
        whole_Takes w w' _ r r' phase next (omega arith) (λ at. raw_offset lib laws w w' v at e)
    value_Takes (list_of t) w w' v r r' fits phase next e =
        whole_Takes w w' _ r r' phase next (omega arith) (λ at. list_offset lib laws t w w' v at e)
    value_Takes (struct ts) w w' (instance_of vs) r r' fits phase next e =
        let (r'', start, next') = and_then-eq_some (at_start r) (tight_all ts) next in
        let (here, there) = at_start-eq_some r r'' start in
        let aligned : (align w).1.bits ≡ w.1.bits = align_tight w (omega arith) in
        let all = values_Takes ts (align w) w' (deep_all vs) r'' r' fits (omega arith) next' e in
        record {
          ends = omega (arith, all.ends, aligned, struct_size-members_bits ts);
          phase = all.phase;
        }
    value_Takes (struct ts) w w' (int x) r r' fits phase next e = cc
    value_Takes (struct ts) w w' (float x) r r' fits phase next e = cc
    value_Takes (struct ts) w w' (text x) r r' fits phase next e = cc
    value_Takes (struct ts) w w' (raw x) r r' fits phase next e = cc
    value_Takes (struct ts) w w' (items x) r r' fits phase next e = cc
    value_Takes (struct ts) w w' (tuple x) r r' fits phase next e = cc

    values_Takes :
        (ts : Types) (w w' : Writer) (vs : Values F S) (r r' : ℕ)
        → FitsAll lib laws ts vs
        → w.1.bits % 8 ≡ r
        → tight_all ts r ≡ some r'
        → pack_all lib ts w vs ≡ ok w'
        → Takes w w' (members_bits ts + 8 * dynamic_bytes_all lib laws ts vs) r'
    values_Takes no_types w w' no_values r r' fits phase next e =
        let same : w ≡ w' = cc e in
        let phase' : r ≡ r' = cc next in
        record {
          ends = omega (arith, ap (λ (w : Writer). w.1.bits) same);
          phase = omega (arith, ap (λ (w : Writer). w.1.bits) same, phase');
        }
    values_Takes no_types w w' (value v vs) r r' fits phase next e = elim fits [ ]
    values_Takes (type_of t ts) w w' no_values r r' fits phase next e = elim fits [ ]
    values_Takes (type_of t ts) w w' (value v vs) r r' fits phase next e =
        let (r'', here, next') = and_then-eq_some (tight t r) (tight_all ts) next in
        let (mid, first, rest) =
          >>=-eq-ok (pack_value lib t w v) (λ mid. pack_all lib ts mid vs) e in
        let one = value_Takes t w mid v r r'' fits.0 phase here first in
        let more = values_Takes ts mid w' vs r'' r' fits.1 one.phase next' rest in
        record { ends = omega (arith, one.ends, more.ends); phase = more.phase }

  -- The size that the decorator computes of any struct is the sum of the sizes of all members, also of
  -- those inside members that are structs, where a string or a list counts 16 bits, for its length. For a
  -- struct whose instance packs, which has no struct among its members then, it is the number of bits
  -- that packing takes besides the bytes of its strings and lists: for members that fit their types,
  -- where packing starts at a byte and leaves no byte half full before a number, a string or a list.
  pub struct_size-pack_value :
      (any ts : Types) (w w' : Writer) (vs : Values F S) (r : ℕ)
      → FitsAll lib laws ts (deep_all vs)
      → w.1.bits % 8 ≡ 0
      → tight_all ts 0 ≡ some r
      → pack_value lib (struct ts) w (instance_of vs) ≡ ok w'
      → ((struct_size any).bits ≡ leaves_bits any)
        × (w'.1.bits
            ≡ w.1.bits + (struct_size ts).bits + 8 * dynamic_bytes_all lib laws ts (deep_all vs))
  unfolding tight at_start and_then Fits member_bits dynamic_bytes
  struct_size-pack_value any ts w w' vs r fits phase next e =
      let all = value_Takes (struct ts) w w' (instance_of vs) 0 r fits phase next e in
      (struct_size-leaves_bits any, omega (arith, all.ends))
