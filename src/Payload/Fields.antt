-- ===== src/Payload/Fields.antt =====
-- Numbers, lists of numbers and strings at a byte offset: written and read back.
use compost_rpc.Common.{
  ℕ, suc, ◌+◌, ◌*◌, ◌≤◌, ◌≡◌, refl, sym, ap, subst, ◌∙◌, List, [], ltb, ltb-false, if-false, arith,
  length, take, drop, All,
}
use compost_rpc.Common.BigEndian.{IsByte}
use compost_rpc.Common.Result.{ok, >>=-eq-ok}
use compost_rpc.Numbers.{IntType}
use compost_rpc.Numbers.Laws.{unpack-pack_number}
use compost_rpc.Payload.Types.{
  NumType, integer, f32, f64, num_size, Value, int, float, items, text, raw, instance_of, tuple,
  Values, no_values, value, Library, LibraryLaws,
}
use compost_rpc.Payload.Pack.{
  Writer, put_bytes, pack_integer, pack_floating, pack_num, put_number, put_items, count,
}
use compost_rpc.Payload.Unpack.{get_floating, get_number, get_items}
use compost_rpc.Payload.Received.{received_floating, received_num, received_items}
use compost_rpc.Payload.Bytes.{
  Wrote, Wrote-trans, Agrees, Agrees-le, Agrees-before, put_bytes-Wrote, put_sized-put_bytes,
  slice-Agrees, unpack_number-slice,
}

module _ {F S : Type 0} (lib : Library F S) (laws : LibraryLaws lib) where
  -- What `b` is when it is the packed form of `v`: of the right size, bytes, and read back.
  record Packed (t : NumType) (v : Value F S) (b : List ℕ) : Type 0 where
    size : length b ≡ num_size t
    bytes : All IsByte b
    reads :
        (payload : List ℕ) (i : ℕ)
        → i + num_size t ≤ length payload
        → take (num_size t) (drop i payload) ≡ b
        → get_number lib t payload i ≡ ok (received_num lib laws t v)

  pack_integer-Packed :
      (t : IntType) (v : Value F S) (b : List ℕ) → pack_integer t v ≡ ok b → Packed (integer t) v b
  unfolding pack_integer get_number received_num num_size
  pack_integer-Packed t (int z) b e =
      let (_, size, bytes) = unpack-pack_number t z b [] [] e in
      record {
        size = size;
        bytes = bytes;
        reads = λ payload i room there. rw (unpack_number-slice t payload i e room there) refl;
      }
  pack_integer-Packed t (float x) b e = cc
  pack_integer-Packed t (text x) b e = cc
  pack_integer-Packed t (raw x) b e = cc
  pack_integer-Packed t (items x) b e = cc
  pack_integer-Packed t (instance_of x) b e = cc
  pack_integer-Packed t (tuple x) b e = cc

  -- A float that was packed, in its format.
  get_floating-slice :
      (n : ℕ) (x : F) (b : List ℕ) (payload : List ℕ) (i : ℕ)
      → lib.pack_float n x ≡ ok b
      → i + n ≤ length payload
      → take n (drop i payload) ≡ b
      → get_floating lib n payload i ≡ ok (float (laws.rounded n x))
  unfolding get_floating
  get_floating-slice n x b payload i e room there =
      if-false (ltb (length payload) (i + n)) _ _ (ltb-false (length payload) (i + n) room)
      ∙ ap (λ l. ok (float (lib.unpack_float n l))) there
      ∙ ap (λ y. ok (float y)) (laws.unpack_float-pack_float n x b e)

  record PackedFloat (n : ℕ) (v : Value F S) (b : List ℕ) : Type 0 where
    size : length b ≡ n
    bytes : All IsByte b
    reads :
        (payload : List ℕ) (i : ℕ)
        → i + n ≤ length payload
        → take n (drop i payload) ≡ b
        → get_floating lib n payload i ≡ ok (received_floating lib laws n v)

  pack_floating-PackedFloat :
      (n : ℕ) (v : Value F S) (b : List ℕ) → pack_floating lib n v ≡ ok b → PackedFloat n v b
  unfolding pack_floating received_floating
  pack_floating-PackedFloat n (float x) b e = record {
    size = laws.length-pack_float n x b e;
    bytes = laws.pack_float-IsByte n x b e;
    reads = λ payload i room there. get_floating-slice n x b payload i e room there;
  }
  pack_floating-PackedFloat n (int z) b e =
      let (x, of, packed) = >>=-eq-ok (lib.of_int z) _ e in
      record {
        size = laws.length-pack_float n x b packed;
        bytes = laws.pack_float-IsByte n x b packed;
        reads = λ payload i room there.
            rw (of, received_floating) (get_floating-slice n x b payload i packed room there);
      }
  pack_floating-PackedFloat n (text x) b e = cc
  pack_floating-PackedFloat n (raw x) b e = cc
  pack_floating-PackedFloat n (items x) b e = cc
  pack_floating-PackedFloat n (instance_of x) b e = cc
  pack_floating-PackedFloat n (tuple x) b e = cc

  pack_num-Packed :
      (t : NumType) (v : Value F S) (b : List ℕ) → pack_num lib t v ≡ ok b → Packed t v b
  unfolding pack_num get_number received_num num_size
  pack_num-Packed (integer t) v b e = pack_integer-Packed t v b e
  pack_num-Packed f32 v b e =
      let p = pack_floating-PackedFloat 4 v b e in
      record { size = p.size; bytes = p.bytes; reads = p.reads }
  pack_num-Packed f64 v b e =
      let p = pack_floating-PackedFloat 8 v b e in
      record { size = p.size; bytes = p.bytes; reads = p.reads }

  -- A number that was written is read back in every buffer that agrees.
  pub put_number-get :
      (t : NumType) (w w' : Writer) (v : Value F S) (i : ℕ)
      → All IsByte w.0
      → i ≤ length w.0
      → w.1.bits ≡ 8 * i
      → put_number lib t w v ≡ ok w'
      → Wrote w w' i (num_size t)
        × ((later : List ℕ)
            → Agrees (i + num_size t) later w'.0
            → get_number lib t later i ≡ ok (received_num lib laws t v))
  unfolding put_number
  put_number-get t w w' v i bytes inside start e =
      let (b, packed, put) = >>=-eq-ok (pack_num lib t v) _ e in
      let p = pack_num-Packed t v b packed in
      let put' : put_bytes w (num_size t) b ≡ ok w' =
        sym (put_sized-put_bytes w i (num_size t) b start) ∙ put in
      let (wrote, there) =
        put_bytes-Wrote w.0 i (num_size t) b bytes p.bytes inside p.size w.1 w' start put' in
      (wrote, λ later a. p.reads later i a.room (slice-Agrees i (num_size t) a there))

  -- The elements of a list.
  pub put_items-get :
      (t : NumType) (w w' : Writer) (vs : Values F S) (i : ℕ)
      → All IsByte w.0
      → i ≤ length w.0
      → w.1.bits ≡ 8 * i
      → put_items lib t w vs ≡ ok w'
      → Wrote w w' i (count vs * num_size t)
        × ((later : List ℕ)
            → Agrees (i + count vs * num_size t) later w'.0
            → get_items lib t later i (count vs) ≡ ok (received_items lib laws t vs))
  unfolding put_items count get_items received_items
  put_items-get t w w' no_values i bytes inside start e =
      let same : w ≡ w' = cc e in
      (
        subst (λ w'. Wrote w w' i (0 * num_size t)) same
            record {
              same_length = refl;
              bytes = bytes;
              kept = refl;
              ends = omega (arith, start);
              room = omega (arith, inside);
            },
        λ later a. refl,
      )
  put_items-get t w w' (value v vs) i bytes inside start e =
      let (mid, first, rest) = >>=-eq-ok (put_number lib t w v) _ e in
      let (one, reads_one) = put_number-get t w mid v i bytes inside start first in
      let (more, reads_more) =
        put_items-get t mid w' vs (i + num_size t) one.bytes
          (omega (arith, one.room, one.same_length)) one.ends rest in
      let size : num_size t + count vs * num_size t ≡ suc (count vs) * num_size t = omega arith in
      (
        subst (λ n. Wrote w w' i n) size (Wrote-trans i (num_size t) _ one more),
        λ later a.
            let whole : Agrees (i + num_size t + count vs * num_size t) later w'.0 =
              Agrees-le _ a (omega (arith, size)) in
            rw (reads_one later (Agrees-before more whole (omega arith)), reads_more later whole)
              refl,
      )
