-- ===== src/Payload/Offsets.antt =====
-- How far packing moves the offset, where no byte is left half full.
use compost_rpc.Common.{
  ℕ, ◌+◌, ◌*◌, ◌/◌, ◌%◌, ◌≡◌, refl, sym, ap, ◌∙◌, List, ◌==◌, if◌then◌else◌, if-true, if-false,
  Bool-cases, inl, inr, arith, length,
}
use compost_rpc.Common.Int.{ℤ, pos}
use compost_rpc.Common.Result.{Result, ok, err, type_error, >>=-eq-ok, ◌>>=◌}
use compost_rpc.MemUnit
use compost_rpc.MemUnit.{MemUnit}
use compost_rpc.BitU
use compost_rpc.Numbers.{u16, pack_number}
use compost_rpc.Payload.Types.{
  NumType, num_size, Ty, str, byte_string, list_of, struct, Types, type_of, Value, int, float, text,
  raw, items, instance_of, tuple, Values, no_values, value, Library, LibraryLaws,
}
use compost_rpc.Payload.Pack.{
  Writer, align, write_slice, put_bytes, put_sized, pack_num, put_number, put_items, put_length,
  put_string, pack_list, pack_bits, encode_text, bytes_of, deep_all, count,
}
use compost_rpc.Payload.Steps.{align-bits}

-- A step that moves the offset by some bits, and where it stands then in its byte.
pub record Takes (w w' : Writer) (bits r : ℕ) : Type 0 where
  pub ends : w'.1.bits ≡ w.1.bits + bits
  pub phase : w'.1.bits % 8 ≡ r

put_sized_offset :
    (w w' : Writer) (n : ℕ) (b : List ℕ) → put_sized w n b ≡ ok w' → w'.1.bits ≡ w.1.bits + n * 8
unfolding put_sized MemUnit.add MemUnit.from_bytes
put_sized_offset w w' n b e =
    let (buffer, slice, same) =
      >>=-eq-ok (write_slice w.0 (MemUnit.bytes w.1) n b)
        (λ buffer. ok (buffer, record { bits = w.1.bits + n * 8 })) e in
    let moved : (buffer, record { bits = w.1.bits + n * 8 }) ≡ w' = cc same in
    ap (λ (w : Writer). w.1.bits) (sym moved)

put_bytes_offset :
    (w w' : Writer) (n : ℕ) (b : List ℕ)
    → w.1.bits % 8 ≡ 0
    → put_bytes w n b ≡ ok w'
    → w'.1.bits ≡ w.1.bits + n * 8
unfolding put_bytes MemUnit.set_bytes MemUnit.bytes
put_bytes_offset w w' n b start e =
    let (buffer, slice, same) =
      >>=-eq-ok (write_slice w.0 (MemUnit.bytes w.1) n b)
        (λ buffer. ok (buffer, record { bits = (MemUnit.bytes w.1 + n) * 8 })) e in
    let moved : (buffer, record { bits = (MemUnit.bytes w.1 + n) * 8 }) ≡ w' = cc same in
    ap (λ (w : Writer). w.1.bits) (sym moved) ∙ omega arith

put_length_offset :
    (w w' : Writer) (n : ℕ) → w.1.bits % 8 ≡ 0 → put_length w n ≡ ok w' → w'.1.bits ≡ w.1.bits + 16
unfolding put_length
put_length_offset w w' n start e =
    let (b, packed, put) = >>=-eq-ok (pack_number u16 (pos n)) (put_bytes w 2) e in
    put_bytes_offset w w' 2 b start put

put_string_offset :
    (w w' : Writer) (b : List ℕ)
    → w.1.bits % 8 ≡ 0
    → put_string w b ≡ ok w'
    → w'.1.bits ≡ w.1.bits + (16 + 8 * length b)
unfolding put_string
put_string_offset w w' b start e =
    let (mid, first, put) =
      >>=-eq-ok (put_length w (length b)) (λ mid. put_bytes mid (length b) b) e in
    let ends : mid.1.bits ≡ w.1.bits + 16 = put_length_offset w mid (length b) start first in
    omega (arith, ends, put_bytes_offset mid w' (length b) b (omega (arith, ends)) put)

pub align_tight : (w : Writer) → w.1.bits % 8 ≡ 0 → (align w).1.bits ≡ w.1.bits
align_tight w start = omega (arith, align-bits w)

pack_offset :
    (n : ℕ) (w w' : Writer) (z : ℤ)
    → BitU.pack (record { bits = n }) w.0 w.1 z ≡ ok w'
    → w'.1.bits ≡ w.1.bits + n
unfolding BitU.pack MemUnit.add
pack_offset n w w' z e =
    let (buffer, packed, same) =
      >>=-eq-ok (BitU.pack_loop n z w.0 n (w.1.bits / 8) w.1.bits)
        (λ buffer. ok (buffer, record { bits = w.1.bits + n })) e in
    let moved : (buffer, record { bits = w.1.bits + n }) ≡ w' = cc same in
    ap (λ (w : Writer). w.1.bits) (sym moved)

no_bits_offset :
    (n : ℕ) (w w' : Writer)
    → (if n == 0 then ok (w.0, MemUnit.add w.1 (record { bits = n })) else err type_error) ≡ ok w'
    → w'.1.bits ≡ w.1.bits + n
unfolding MemUnit.add
no_bits_offset n w w' e =
    let moved : Writer = (w.0, MemUnit.add w.1 (record { bits = n })) in
    elim (Bool-cases (n == 0)) [
      | inl empty ↦
          let same : moved ≡ w' =
            cc (e, if-true {A = Result Writer} (n == 0) (ok moved) (err type_error) empty) in
          ap (λ (w : Writer). w.1.bits) (sym same)
      | inr some_bits ↦
          cc (e, if-false {A = Result Writer} (n == 0) (ok moved) (err type_error) some_bits)
    ]

module _ {F S : Type 0} where
  pub pack_bits_offset :
      (n : ℕ) (w w' : Writer) (v : Value F S) → pack_bits n w v ≡ ok w' → w'.1.bits ≡ w.1.bits + n
  unfolding pack_bits
  pack_bits_offset n w w' (int z) e = pack_offset n w w' z e
  pack_bits_offset n w w' (float x) e = no_bits_offset n w w' e
  pack_bits_offset n w w' (text x) e = no_bits_offset n w w' e
  pack_bits_offset n w w' (raw x) e = no_bits_offset n w w' e
  pack_bits_offset n w w' (items x) e = no_bits_offset n w w' e
  pack_bits_offset n w w' (instance_of x) e = no_bits_offset n w w' e
  pack_bits_offset n w w' (tuple x) e = no_bits_offset n w w' e

module _ {F S : Type 0} (lib : Library F S) (laws : LibraryLaws lib) where
  pub put_number_offset :
      (t : NumType) (w w' : Writer) (v : Value F S)
      → put_number lib t w v ≡ ok w'
      → w'.1.bits ≡ w.1.bits + num_size t * 8
  unfolding put_number
  put_number_offset t w w' v e =
      let (b, packed, put) = >>=-eq-ok (pack_num lib t v) (put_sized w (num_size t)) e in
      put_sized_offset w w' (num_size t) b put

  put_items_offset :
      (t : NumType) (w w' : Writer) (vs : Values F S)
      → put_items lib t w vs ≡ ok w'
      → w'.1.bits ≡ w.1.bits + 8 * (count vs * num_size t)
  unfolding put_items count
  put_items_offset t w w' no_values e =
      let same : w ≡ w' = cc e in omega (arith, ap (λ (w : Writer). w.1.bits) same)
  put_items_offset t w w' (value v vs) e =
      let (mid, first, rest) = >>=-eq-ok (put_number lib t w v) (λ mid. put_items lib t mid vs) e in
      omega (arith, put_number_offset t w mid v first, put_items_offset t mid w' vs rest)

  -- The bytes of a value that its type does not fix.
  unfoldable pub text_bytes : Value F S → ℕ
  unfolding encode_text
  text_bytes v = elim (encode_text lib v) [ ok b ↦ length b | err e ↦ 0 ]

  unfoldable pub raw_bytes : Value F S → ℕ
  unfolding bytes_of
  raw_bytes v = elim (bytes_of v) [ ok b ↦ length b | err e ↦ 0 ]

  unfoldable pub list_bytes : NumType → Value F S → ℕ
  unfolding count num_size
  list_bytes t (items vs) = count vs * num_size t
  list_bytes t v = 0

  unfoldable mutual
    unfolding text_bytes raw_bytes list_bytes deep_all

    pub dynamic_bytes : Ty → Value F S → ℕ
    dynamic_bytes str v = text_bytes v
    dynamic_bytes byte_string v = raw_bytes v
    dynamic_bytes (list_of t) v = list_bytes t v
    dynamic_bytes (struct ts) (instance_of vs) = dynamic_bytes_all ts (deep_all vs)
    dynamic_bytes t v = 0

    pub dynamic_bytes_all : Types → Values F S → ℕ
    dynamic_bytes_all (type_of t ts) (value v vs) = dynamic_bytes t v + dynamic_bytes_all ts vs
    dynamic_bytes_all ts vs = 0

  pub text_offset :
      (w w' : Writer) (v : Value F S)
      → w.1.bits % 8 ≡ 0
      → (encode_text lib v >>= put_string (align w)) ≡ ok w'
      → w'.1.bits ≡ w.1.bits + (16 + 8 * text_bytes v)
  unfolding text_bytes
  text_offset w w' v start e =
      let (b, encoded, put) = >>=-eq-ok (encode_text lib v) (put_string (align w)) e in
      let same : text_bytes v ≡ length b = rw (text_bytes, encoded) refl in
      let here : (align w).1.bits ≡ w.1.bits = align_tight w start in
      omega (arith, put_string_offset (align w) w' b (omega (arith, here)) put, same, here)

  pub raw_offset :
      (w w' : Writer) (v : Value F S)
      → w.1.bits % 8 ≡ 0
      → (bytes_of v >>= put_string (align w)) ≡ ok w'
      → w'.1.bits ≡ w.1.bits + (16 + 8 * raw_bytes v)
  unfolding raw_bytes
  raw_offset w w' v start e =
      let (b, made, put) = >>=-eq-ok (bytes_of v) (put_string (align w)) e in
      let same : raw_bytes v ≡ length b = rw (raw_bytes, made) refl in
      let here : (align w).1.bits ≡ w.1.bits = align_tight w start in
      omega (arith, put_string_offset (align w) w' b (omega (arith, here)) put, same, here)

  pub list_offset :
      (t : NumType) (w w' : Writer) (v : Value F S)
      → w.1.bits % 8 ≡ 0
      → pack_list lib t (align w) v ≡ ok w'
      → w'.1.bits ≡ w.1.bits + (16 + 8 * list_bytes t v)
  unfolding pack_list list_bytes
  list_offset t w w' (items vs) start e =
      let (mid, first, rest) =
        >>=-eq-ok (put_length (align w) (count vs * num_size t)) (λ mid. put_items lib t mid vs)
          e in
      let here : (align w).1.bits ≡ w.1.bits = align_tight w start in
      omega (
        arith,
        here,
        put_length_offset (align w) mid (count vs * num_size t) (omega (arith, here)) first,
        put_items_offset t mid w' vs rest,
      )
  list_offset t w w' (int x) start e = cc
  list_offset t w w' (float x) start e = cc
  list_offset t w w' (text x) start e = cc
  list_offset t w w' (raw x) start e = cc
  list_offset t w w' (instance_of x) start e = cc
  list_offset t w w' (tuple x) start e = cc
