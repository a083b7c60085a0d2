-- ===== src/Payload/Values.antt =====
-- Bit fields and enums, packed and read back.
use compost_rpc.Common.{
  ℕ, ◌+◌, ◌%◌, ◌≡◌, refl, sym, ap, subst, List, Option, some, inl, inr, arith, Bool-cases, if-true,
  if-false, ==_iff, ◌==◌, if◌then◌else◌,
}
use compost_rpc.Common.Int.{ℤ, pos}
use compost_rpc.Common.Result.{Result, ok, err, type_error, ◌>>=◌}
use compost_rpc.MemUnit
use compost_rpc.MemUnit.{MemUnit}
use compost_rpc.BitU
use compost_rpc.BitU.Low.{low_bits}
use compost_rpc.Numbers.{i8, u8, i16}
use compost_rpc.Payload.Types.{
  NumType, integer, EnumBase, on_bits, on_i8, on_u8, on_i16, Value, int, float, items, text, raw,
  instance_of, tuple, Library, LibraryLaws, is_member,
}
use compost_rpc.Payload.Pack.{Writer, align, put_number, pack_bits, pack_enum}
use compost_rpc.Payload.Unpack.{unpack_num, unpack_bits, unpack_enum, as_member}
use compost_rpc.Payload.Received.{
  received_num, received_bits, received_enum, IsMember, Phase, exact, lagging, after_number,
  after_bits, after_enum, IsAt,
}
use compost_rpc.Payload.Steps.{IsValid, Moved, Follows, put_number-unpack, pack-unpack}

module _ {F S : Type 0} (lib : Library F S) (laws : LibraryLaws lib) where
  -- Reading `v` where it was written, by a reader that is in the phase of the writer.
  pub record Delivers (read : List ℕ → MemUnit → Result (Value F S × MemUnit))
      (after : Phase → Option Phase) (w w' : Writer) (v : Value F S) : Type 0 where
    pub moved : Moved w w'
    pub delivers :
        (ph ph' : Phase) (later : List ℕ) (u : MemUnit)
        → after ph ≡ some ph'
        → Follows w' later
        → IsAt ph w.1.bits u.bits
        → (u' : MemUnit) × (read later u ≡ ok (v, u')) × IsAt ph' w'.1.bits u'.bits

  pub number-Delivers :
      (t : NumType) (w w' : Writer) (v : Value F S)
      → IsValid w
      → put_number lib t (align w) v ≡ ok w'
      → Delivers (unpack_num lib t) (λ ph. some (after_number ph)) w w' (received_num lib laws t v)
  number-Delivers t w w' v valid e =
      let (moved, reads) = put_number-unpack lib laws t w w' v valid e in
      record {
        moved = moved;
        delivers = λ ph ph' later u next follows at.
            subst
              (λ ph'.
                (u' : MemUnit) × (unpack_num lib t later u ≡ ok (received_num lib laws t v, u'))
                × IsAt ph' w'.1.bits u'.bits)
              (cc next) (reads ph later u follows at);
      }

  after_bits-IsAt :
      (n : ℕ) (ph ph' : Phase) (p u : ℕ)
      → after_bits n ph ≡ some ph'
      → IsAt ph p u
      → (u ≡ p) × IsAt ph' (p + n) (p + n)
  unfolding after_bits IsAt
  after_bits-IsAt n (exact r) ph' p u next at =
      let same : exact ((r + n) % 8) ≡ ph' = cc next in
      (at.0, subst (λ ph'. IsAt ph' (p + n) (p + n)) same (refl, omega (arith, at.1)))
  after_bits-IsAt n lagging ph' p u next at = cc

  integer_bits-Delivers :
      (n : ℕ) (w w' : Writer) (z : ℤ)
      → IsValid w
      → BitU.pack (record { bits = n }) w.0 w.1 z ≡ ok w'
      → Delivers (unpack_bits lib n) (after_bits n) w w' (int (pos (low_bits z n)))
  unfolding unpack_bits MemUnit.add
  integer_bits-Delivers n w w' z valid e =
      let (moved, reads, ends) = pack-unpack lib laws n w w' z valid e in
      record {
        moved = moved;
        delivers = λ ph ph' later u next follows at.
            let (same, at') = after_bits-IsAt n ph ph' w.1.bits u.bits next at in
            let offset : u ≡ w.1 = ap (λ (b : ℕ). record { bits = b }) same in
            (
              MemUnit.add w.1 (record { bits = n }),
              rw (offset, reads later follows) refl,
              subst (λ p. IsAt ph' p (w.1.bits + n)) (sym ends) at',
            );
      }

  -- A field without bits takes any value.
  no_bits-Delivers :
      (n : ℕ) (w w' : Writer)
      → IsValid w
      → (if n == 0 then ok (w.0, MemUnit.add w.1 (record { bits = n })) else err type_error) ≡ ok w'
      → Delivers (unpack_bits lib n) (after_bits n) w w' (int (pos 0))
  unfolding BitU.pack low_bits
  no_bits-Delivers n w w' valid e = elim (Bool-cases (n == 0)) [
    | inl empty ↦
        let none_left : n ≡ 0 = (==_iff n 0).0 empty in
        let packed : BitU.pack (record { bits = n }) w.0 w.1 (pos 0) ≡ ok w' =
          subst (λ n. BitU.pack (record { bits = n }) w.0 w.1 (pos 0) ≡ ok w') (sym none_left)
            (subst (λ (n : ℕ). ok (w.0, MemUnit.add w.1 (record { bits = n })) ≡ ok w') none_left
              (cc (
                e,
                if-true {A = Result Writer} (n == 0)
                    (ok (w.0, MemUnit.add w.1 (record { bits = n }))) (err type_error) empty,
              ))) in
        let zero_bits : low_bits (pos 0) n ≡ 0 = rw none_left refl in
        subst (λ x. Delivers (unpack_bits lib n) (after_bits n) w w' (int (pos x))) zero_bits
          (integer_bits-Delivers n w w' (pos 0) valid packed)
    | inr some_bits ↦ cc (
      e,
      if-false {A = Result Writer} (n == 0) (ok (w.0, MemUnit.add w.1 (record { bits = n })))
          (err type_error) some_bits,
    )
  ]

  pub bits-Delivers :
      (n : ℕ) (w w' : Writer) (v : Value F S)
      → IsValid w
      → pack_bits n w v ≡ ok w'
      → Delivers (unpack_bits lib n) (after_bits n) w w' (received_bits lib laws n v)
  unfolding pack_bits received_bits
  bits-Delivers n w w' (int z) valid e = integer_bits-Delivers n w w' z valid e
  bits-Delivers n w w' (float x) valid e = no_bits-Delivers n w w' valid e
  bits-Delivers n w w' (text x) valid e = no_bits-Delivers n w w' valid e
  bits-Delivers n w w' (raw x) valid e = no_bits-Delivers n w w' valid e
  bits-Delivers n w w' (items x) valid e = no_bits-Delivers n w w' valid e
  bits-Delivers n w w' (instance_of x) valid e = no_bits-Delivers n w w' valid e
  bits-Delivers n w w' (tuple x) valid e = no_bits-Delivers n w w' valid e

  enum-Delivers :
      (base : EnumBase) (w w' : Writer) (v : Value F S)
      → IsValid w
      → pack_enum lib base w v ≡ ok w'
      → Delivers (unpack_enum lib base) (after_enum base) w w' (received_enum lib laws base v)
  unfolding pack_enum unpack_enum received_enum after_enum received_num
  enum-Delivers (on_bits n) w w' v valid e = bits-Delivers n w w' v valid e
  enum-Delivers on_i8 w w' v valid e = number-Delivers (integer i8) w w' v valid e
  enum-Delivers on_u8 w w' v valid e = number-Delivers (integer u8) w w' v valid e
  enum-Delivers on_i16 w w' v valid e = number-Delivers (integer i16) w w' v valid e

  as_member-ok :
      (members : List ℤ) (v : Value F S) (u : MemUnit)
      → IsMember lib laws members v
      → as_member lib members (v, u) ≡ ok (v, u)
  unfolding IsMember as_member
  as_member-ok members (int z) u h = if-true (is_member z members) _ _ h
  as_member-ok members (float x) u h = elim h [ ]
  as_member-ok members (text x) u h = elim h [ ]
  as_member-ok members (raw x) u h = elim h [ ]
  as_member-ok members (items x) u h = elim h [ ]
  as_member-ok members (instance_of x) u h = elim h [ ]
  as_member-ok members (tuple x) u h = elim h [ ]

  -- The number of an enum and the member that it stands for.
  pub member-Delivers :
      (base : EnumBase) (members : List ℤ) (w w' : Writer) (v : Value F S)
      → IsValid w
      → IsMember lib laws members (received_enum lib laws base v)
      → pack_enum lib base w v ≡ ok w'
      → Delivers
          (λ later u. unpack_enum lib base later u >>= as_member lib members)
          (after_enum base)
          w
          w'
          (received_enum lib laws base v)
  member-Delivers base members w w' v valid h e =
      let d = enum-Delivers base w w' v valid e in
      record {
        moved = d.moved;
        delivers = λ ph ph' later u next follows at.
            let (u', reads, at') = d.delivers ph ph' later u next follows at in
            (u', rw reads (as_member-ok members _ u' h), at');
      }
