-- ===== src/Payload/Typed.antt =====
-- `unpack_payload` gives values of the types that it was given.
use compost_rpc.Common.{
  ℕ, zero, suc, ◌+◌, ◌/◌, ◌≡◌, subst, List, inl, inr, Bool-cases, if-true, if-false, ltb, length,
  take, drop, All,
}
use compost_rpc.Common.BigEndian.{IsByte}
use compost_rpc.Common.Int.{ℤ, pos}
use compost_rpc.Common.Result.{Result, ok, err, value_error, struct_error, >>=-eq-ok}
use compost_rpc.MemUnit
use compost_rpc.MemUnit.{MemUnit}
use compost_rpc.BitU
use compost_rpc.Numbers.{unpack_number}
use compost_rpc.Payload.Types.{
  NumType, integer, f32, f64, num_size, EnumBase, Ty, num, bit_u, str, byte_string, list_of, enum,
  struct, Types, no_types, type_of, Value, int, float, text, raw, items, instance_of, tuple, Values,
  no_values, value, Library, is_member,
}
use compost_rpc.Payload.Unpack.{
  get_floating, get_number, get_items, get_length, get_string, unpack_list, unpack_num, unpack_bits,
  as_member, unpack_enum, unpack_value, unpack_all, unpack_payload,
}
use compost_rpc.Payload.Shape.{
  IsNumber, AreNumbers, IsField, HasType, HaveTypes, unpack_number-in_range, unpack-fits,
  get_string-IsByte,
}

module _ {F S : Type 0} (lib : Library F S) where
  get_floating-eq :
      (n : ℕ) (payload : List ℕ) (i : ℕ) (v : Value F S)
      → get_floating lib n payload i ≡ ok v
      → float (lib.unpack_float n (take n (drop i payload))) ≡ v
  unfolding get_floating
  get_floating-eq n payload i v e =
      let x : Value F S = float (lib.unpack_float n (take n (drop i payload))) in
      elim (Bool-cases (ltb (length payload) (i + n))) [
        | inl short ↦ cc (e, if-true (ltb (length payload) (i + n)) (err struct_error) (ok x) short)
        | inr room ↦ cc (e, if-false (ltb (length payload) (i + n)) (err struct_error) (ok x) room)
      ]

  get_number-IsNumber :
      (t : NumType) (payload : List ℕ) (i : ℕ) (v : Value F S)
      → All IsByte payload
      → get_number lib t payload i ≡ ok v
      → IsNumber t v
  unfolding get_number IsNumber
  get_number-IsNumber (integer t) payload i v bytes e =
      let (z, reads, r) = >>=-eq-ok (unpack_number t payload i) _ e in
      let same : int z ≡ v = cc r in
      subst (IsNumber (integer t)) same (unpack_number-in_range t payload i z bytes reads)
  get_number-IsNumber f32 payload i v bytes e =
      subst (IsNumber f32) (get_floating-eq 4 payload i v e) tt
  get_number-IsNumber f64 payload i v bytes e =
      subst (IsNumber f64) (get_floating-eq 8 payload i v e) tt

  get_items-AreNumbers :
      (t : NumType) (payload : List ℕ) (i n : ℕ) (vs : Values F S)
      → All IsByte payload
      → get_items lib t payload i n ≡ ok vs
      → AreNumbers t vs
  unfolding get_items AreNumbers
  get_items-AreNumbers t payload i zero vs bytes e =
      let same : no_values ≡ vs = cc e in subst (AreNumbers t) same tt
  get_items-AreNumbers t payload i (suc n) vs bytes e =
      let (v, reads, r) = >>=-eq-ok (get_number lib t payload i) _ e in
      let (ws, rest, r') = >>=-eq-ok (get_items lib t payload (i + num_size t) n) _ r in
      let same : value v ws ≡ vs = cc r' in
      subst (AreNumbers t) same (
        get_number-IsNumber t payload i v bytes reads,
        get_items-AreNumbers t payload (i + num_size t) n ws bytes rest,
      )

  unpack_list-HasType :
      (t : NumType) (payload : List ℕ) (u : MemUnit) (v : Value F S) (u' : MemUnit)
      → All IsByte payload
      → unpack_list lib t payload u ≡ ok (v, u')
      → HasType (list_of t) v
  unfolding unpack_list HasType
  unpack_list-HasType t payload u v u' bytes e =
      let (n, reads, r) = >>=-eq-ok (get_length payload (MemUnit.bytes u)) _ e in
      let i : ℕ = MemUnit.bytes (MemUnit.set_bytes u (MemUnit.bytes u + 2)) in
      let (vs, rest, r') = >>=-eq-ok (get_items lib t payload i (n / num_size t)) _ r in
      let same : items vs ≡ v = cc r' in
      subst (HasType (list_of t)) same
        (get_items-AreNumbers t payload i (n / num_size t) vs bytes rest)

  unpack_num-IsNumber :
      (t : NumType) (payload : List ℕ) (u : MemUnit) (v : Value F S) (u' : MemUnit)
      → All IsByte payload
      → unpack_num lib t payload u ≡ ok (v, u')
      → IsNumber t v
  unfolding unpack_num
  unpack_num-IsNumber t payload u v u' bytes e =
      let (w, reads, r) = >>=-eq-ok (get_number lib t payload (MemUnit.bytes u)) _ e in
      let same : w ≡ v = cc r in
      subst (IsNumber t) same (get_number-IsNumber t payload (MemUnit.bytes u) w bytes reads)

  unpack_bits-IsField :
      (n : ℕ) (payload : List ℕ) (u : MemUnit) (v : Value F S) (u' : MemUnit)
      → All IsByte payload
      → unpack_bits lib n payload u ≡ ok (v, u')
      → IsField n v
  unfolding unpack_bits IsField
  unpack_bits-IsField n payload u v u' bytes e =
      let ((x, after), reads, r) = >>=-eq-ok (BitU.unpack (record { bits = n }) payload u) _ e in
      let same : int (pos x) ≡ v = cc r in
      subst (IsField n) same (unpack-fits n payload u x after bytes reads)

  as_member-HasType :
      (base : EnumBase) (members : List ℤ) (w : Value F S) (u : MemUnit) (v : Value F S)
      (u' : MemUnit)
      → as_member lib members (w, u) ≡ ok (v, u')
      → HasType (enum base members) v
  unfolding as_member HasType
  as_member-HasType base members (int z) u v u' e =
      let member : Result (Value F S × MemUnit) = ok (int z, u) in
      elim (Bool-cases (is_member z members)) [
        | inl known ↦
            let same : int z ≡ v =
              cc (e, if-true (is_member z members) member (err value_error) known) in
            subst (HasType (enum base members)) same known
        | inr unknown ↦ cc (e, if-false (is_member z members) member (err value_error) unknown)
      ]
  as_member-HasType base members (float x) u v u' e = cc e
  as_member-HasType base members (text x) u v u' e = cc e
  as_member-HasType base members (raw x) u v u' e = cc e
  as_member-HasType base members (items x) u v u' e = cc e
  as_member-HasType base members (instance_of x) u v u' e = cc e
  as_member-HasType base members (tuple x) u v u' e = cc e

  mutual
    unfolding unpack_value HasType

    unpack_value-HasType :
        (t : Ty) (payload : List ℕ) (u : MemUnit) (v : Value F S) (u' : MemUnit)
        → All IsByte payload
        → unpack_value lib t payload u ≡ ok (v, u')
        → HasType t v
    unpack_value-HasType (num t) payload u v u' bytes e =
        unpack_num-IsNumber t payload u v u' bytes e
    unpack_value-HasType (bit_u n) payload u v u' bytes e =
        unpack_bits-IsField n payload u v u' bytes e
    unpack_value-HasType str payload u v u' bytes e =
        let ((b, after), reads, r) = >>=-eq-ok (get_string payload u) _ e in
        let (s, decoded, r') = >>=-eq-ok (lib.decode b) _ r in
        let same : text s ≡ v = cc r' in subst (HasType str) same tt
    unpack_value-HasType byte_string payload u v u' bytes e =
        let ((b, after), reads, r) = >>=-eq-ok (get_string payload u) _ e in
        let same : raw b ≡ v = cc r in
        subst (HasType byte_string) same (get_string-IsByte payload u b after bytes reads)
    unpack_value-HasType (list_of t) payload u v u' bytes e =
        unpack_list-HasType t payload u v u' bytes e
    unpack_value-HasType (enum base members) payload u v u' bytes e =
        let ((w, after), reads, r) = >>=-eq-ok (unpack_enum lib base payload u) _ e in
        as_member-HasType base members w after v u' r
    unpack_value-HasType (struct ts) payload u v u' bytes e =
        let ((vs, after), reads, r) =
          >>=-eq-ok (unpack_all lib ts payload (MemUnit.byte_align u)) _ e in
        let same : instance_of vs ≡ v = cc r in
        subst (HasType (struct ts)) same
          (unpack_all-HaveTypes ts payload (MemUnit.byte_align u) vs after bytes reads)

    unpack_all-HaveTypes :
        (ts : Types) (payload : List ℕ) (u : MemUnit) (vs : Values F S) (u' : MemUnit)
        → All IsByte payload
        → unpack_all lib ts payload u ≡ ok (vs, u')
        → HaveTypes ts vs
    unpack_all-HaveTypes no_types payload u vs u' bytes e =
        let same : no_values ≡ vs = cc e in subst (HaveTypes no_types) same tt
    unpack_all-HaveTypes (type_of t ts) payload u vs u' bytes e =
        let ((v, after), reads, r) = >>=-eq-ok (unpack_value lib t payload u) _ e in
        let ((ws, after'), rest, r') = >>=-eq-ok (unpack_all lib ts payload after) _ r in
        let same : value v ws ≡ vs = cc r' in
        subst (HaveTypes (type_of t ts)) same (
          unpack_value-HasType t payload u v after bytes reads,
          unpack_all-HaveTypes ts payload after ws after' bytes rest,
        )

  -- Whatever bytes are unpacked, when `unpack_payload` returns values, there is one for each type and it
  -- has that type: an integer is in the range of its type, a bit field fits its width, the elements of
  -- a list are numbers of its element type, an enum is one of its members, and a struct has a value
  -- of its type for each member.
  pub unpack_payload-HaveTypes :
      (types : Types) (payload : List ℕ) (vs : Values F S)
      → All IsByte payload
      → unpack_payload lib types payload ≡ ok vs
      → HaveTypes types vs
  unfolding unpack_payload
  unpack_payload-HaveTypes types payload vs bytes e =
      let ((ws, after), reads, r) =
        >>=-eq-ok (unpack_all lib types payload (record { bits = 0 })) _ e in
      let same : ws ≡ vs = cc r in
      subst (HaveTypes types) same
        (unpack_all-HaveTypes types payload (record { bits = 0 }) ws after bytes reads)
