-- ===== src/Payload/Strings.antt =====
-- Strings and lists, which have their length in front: written and read back.
use compost_rpc.Common.{
  ℕ, ◌+◌, ◌-◌, ◌*◌, ◌/◌, ◌≤◌, ◌<◌, ◌≡◌, refl, ap, ◌∙◌, List, [], arith, length, take, drop, All,
}
use compost_rpc.Common.BigEndian.{IsByte}
use compost_rpc.Common.Int.{pos}
use compost_rpc.Common.Result.{ok, >>=-eq-ok}
use compost_rpc.MemUnit
use compost_rpc.MemUnit.{MemUnit}
use compost_rpc.Numbers.{
  u64, i64, u32, i32, u16, i16, u8, i8, byte_size, pack_number, unpack_number,
}
use compost_rpc.Numbers.Laws.{unpack-pack_number}
use compost_rpc.Payload.Types.{
  NumType, integer, f32, f64, num_size, Value, int, float, items, text, raw, instance_of, tuple,
  Values, Library, LibraryLaws,
}
use compost_rpc.Payload.Pack.{Writer, put_length, put_string, pack_list, count}
use compost_rpc.Payload.Unpack.{get_items, get_length, get_string, unpack_list}
use compost_rpc.Payload.Received.{received_items, received_list}
use compost_rpc.Payload.Bytes.{
  Wrote, Wrote-trans, Agrees, Agrees-le, Agrees-before, put_bytes-Wrote, slice-Agrees,
  unpack_number-slice,
}
use compost_rpc.Payload.Fields.{put_items-get}
use native.Mathlib.Nat.{mul-div_cancel}

-- A length of at most 65535.
put_length-get :
    (w w' : Writer) (n i : ℕ)
    → All IsByte w.0
    → i ≤ length w.0
    → w.1.bits ≡ 8 * i
    → put_length w n ≡ ok w'
    → Wrote w w' i 2 × ((later : List ℕ) → Agrees (i + 2) later w'.0 → get_length later i ≡ ok n)
unfolding put_length get_length
put_length-get w w' n i bytes inside start e =
    let (b, packed, put) = >>=-eq-ok (pack_number u16 (pos n)) _ e in
    let (_, size, new) = unpack-pack_number u16 (pos n) b [] [] packed in
    let (wrote, there) = put_bytes-Wrote w.0 i 2 b bytes new inside size w.1 w' start put in
    (
      wrote,
      λ later a.
          let back : unpack_number u16 later i ≡ ok (pos n) =
            unpack_number-slice u16 later i packed a.room (slice-Agrees i 2 a there) in
          rw back refl,
    )

-- The offset at byte `i`.
abbrev pub at_byte : ℕ → MemUnit
at_byte i = record { bits = i * 8 }

-- Bytes behind a length are read whole, whatever the phase of the offset in its byte.
get_string-eq :
    (later : List ℕ) (u : MemUnit) (i n : ℕ)
    → MemUnit.bytes u ≡ i
    → get_length later i ≡ ok n
    → get_string later u ≡ ok (take n (drop (i + 2) later), at_byte (i + 2 + n))
unfolding get_string MemUnit.bytes MemUnit.set_bytes
get_string-eq later u i n at e =
    let second : ((i + 2) * 8 + 8 - 1) / 8 ≡ i + 2 = omega arith in rw (at, e, second) refl

pub put_string-get :
    (w w' : Writer) (b : List ℕ) (i : ℕ)
    → All IsByte w.0
    → All IsByte b
    → i ≤ length w.0
    → w.1.bits ≡ 8 * i
    → put_string w b ≡ ok w'
    → Wrote w w' i (2 + length b)
      × ((later : List ℕ) (u : MemUnit)
          → Agrees (i + (2 + length b)) later w'.0
          → MemUnit.bytes u ≡ i
          → get_string later u ≡ ok (b, at_byte (i + 2 + length b)))
unfolding put_string
put_string-get w w' b i bytes new inside start e =
    let (mid, first, put) = >>=-eq-ok (put_length w (length b)) _ e in
    let (one, reads_length) = put_length-get w mid (length b) i bytes inside start first in
    let (more, there) =
      put_bytes-Wrote mid.0 (i + 2) (length b) b one.bytes new
        (omega (arith, one.room, one.same_length)) refl mid.1 w' one.ends put in
    (
      Wrote-trans i 2 (length b) one more,
      λ later u a at.
          let whole : Agrees (i + 2 + length b) later w'.0 = Agrees-le _ a (omega arith) in
          get_string-eq later u i (length b) at
            (reads_length later (Agrees-before more whole (omega arith)))
          ∙ ap (λ l. ok (l, at_byte (i + 2 + length b)))
              (slice-Agrees (i + 2) (length b) whole there),
    )

num_size-pos : (t : NumType) → 0 < num_size t
unfolding num_size byte_size
num_size-pos (integer u64) = omega arith
num_size-pos (integer i64) = omega arith
num_size-pos (integer u32) = omega arith
num_size-pos (integer i32) = omega arith
num_size-pos (integer u16) = omega arith
num_size-pos (integer i16) = omega arith
num_size-pos (integer u8) = omega arith
num_size-pos (integer i8) = omega arith
num_size-pos f32 = omega arith
num_size-pos f64 = omega arith

module _ {F S : Type 0} (lib : Library F S) (laws : LibraryLaws lib) where
  unpack_list-eq :
      (t : NumType) (later : List ℕ) (u : MemUnit) (i c : ℕ) (vs : Values F S)
      → MemUnit.bytes u ≡ i
      → get_length later i ≡ ok (c * num_size t)
      → get_items lib t later (i + 2) c ≡ ok vs
      → unpack_list lib t later u ≡ ok (items vs, at_byte (i + 2 + c * num_size t))
  unfolding unpack_list MemUnit.bytes MemUnit.set_bytes
  unpack_list-eq t later u i c vs at e reads =
      let second : ((i + 2) * 8 + 8 - 1) / 8 ≡ i + 2 = omega arith in
      let number : c * num_size t / num_size t ≡ c = mul-div_cancel c (num_size-pos t) in
      rw (at, e, second, number, reads) refl

  -- A list of numbers that was packed at a byte offset.
  pub pack_list-get :
      (t : NumType) (w w' : Writer) (v : Value F S) (i : ℕ)
      → All IsByte w.0
      → i ≤ length w.0
      → w.1.bits ≡ 8 * i
      → pack_list lib t w v ≡ ok w'
      → (n : ℕ) × Wrote w w' i n
        × ((later : List ℕ) (u : MemUnit)
            → Agrees (i + n) later w'.0
            → MemUnit.bytes u ≡ i
            → unpack_list lib t later u ≡ ok (received_list lib laws t v, at_byte (i + n)))
  unfolding pack_list received_list
  pack_list-get t w w' (items vs) i bytes inside start e =
      let size : ℕ = count vs * num_size t in
      let (mid, first, put) = >>=-eq-ok (put_length w size) _ e in
      let (one, reads_length) = put_length-get w mid size i bytes inside start first in
      let (more, reads_items) =
        put_items-get lib laws t mid w' vs (i + 2) one.bytes
          (omega (arith, one.room, one.same_length)) one.ends put in
      let sum : i + 2 + size ≡ i + (2 + size) = omega arith in
      (
        2 + size,
        Wrote-trans i 2 size one more,
        λ later u a at.
            let whole : Agrees (i + 2 + size) later w'.0 = Agrees-le _ a (omega arith) in
            unpack_list-eq t later u i (count vs) _ at
              (reads_length later (Agrees-before more whole (omega arith)))
              (reads_items later whole)
            ∙ ap (λ k. ok (items (received_items lib laws t vs), at_byte k)) sum,
      )
  pack_list-get t w w' (int x) i bytes inside start e = cc
  pack_list-get t w w' (float x) i bytes inside start e = cc
  pack_list-get t w w' (text x) i bytes inside start e = cc
  pack_list-get t w w' (raw x) i bytes inside start e = cc
  pack_list-get t w w' (instance_of x) i bytes inside start e = cc
  pack_list-get t w w' (tuple x) i bytes inside start e = cc
