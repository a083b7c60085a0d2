-- ===== src/Payload/Steps.antt =====
-- One value that is packed at any bit offset: what stays of the buffer, and what is read back.
use compost_rpc.Common.{
  ℕ, zero, suc, ◌+◌, ◌*◌, ◌/◌, ◌≤◌, ◌≡◌, refl, sym, subst, ◌∙◌, List, arith, length, All,
}
use compost_rpc.Common.BigEndian.{IsByte}
use compost_rpc.Common.Int.{ℤ}
use compost_rpc.Common.Result.{ok}
use compost_rpc.BitString.{head_bits}
use compost_rpc.MemUnit
use compost_rpc.MemUnit.{MemUnit, bits-byte_align}
use compost_rpc.BitU
use compost_rpc.BitU.Low.{low_bits}
use compost_rpc.BitU.Packing.{Written-before}
use compost_rpc.BitU.RoundTrip.{pack_writes, pack_room, unpack-Written}
use compost_rpc.Payload.Types.{NumType, num_size, Value, Library, LibraryLaws}
use compost_rpc.Payload.Pack.{Writer, align, put_number}
use compost_rpc.Payload.Unpack.{unpack_num}
use compost_rpc.Payload.Received.{received_num, Phase, exact, lagging, after_number, IsAt}
use compost_rpc.Payload.Slices.{bits-of_bytes, bytes-of_bits}
use compost_rpc.Payload.Bytes.{Wrote, Agrees}
use compost_rpc.Payload.Fields.{put_number-get}

-- A step of the writer keeps what stands before its offset and stays inside the buffer.
pub record Moved (w w' : Writer) : Type 0 where
  pub same_length : length w'.0 ≡ length w.0
  pub bytes : All IsByte w'.0
  pub before : (n : ℕ) → n ≤ w.1.bits → head_bits w'.0 n ≡ head_bits w.0 n
  pub forward : w.1.bits ≤ w'.1.bits
  pub room : w'.1.bits ≤ 8 * length w.0

-- A writer that such steps reach.
pub record IsValid (w : Writer) : Type 0 where
  pub bytes : All IsByte w.0
  pub inside : w.1.bits ≤ 8 * length w.0

-- A buffer that has what was written before the writer's offset.
pub record Follows (w : Writer) (later : List ℕ) : Type 0 where
  pub bytes : All IsByte later
  pub room : w.1.bits ≤ 8 * length later
  pub same : (n : ℕ) → n ≤ w.1.bits → head_bits later n ≡ head_bits w.0 n

pub Moved-IsValid : {w w' : Writer} → Moved w w' → IsValid w'
Moved-IsValid m = record { bytes = m.bytes; inside = omega (arith, m.room, m.same_length) }

pub Moved-refl : {w : Writer} → IsValid w → Moved w w
Moved-refl {w} v = record {
  same_length = refl;
  bytes = v.bytes;
  before = λ n h. refl;
  forward = omega arith;
  room = v.inside;
}

pub Moved-trans : {w w' w'' : Writer} → Moved w w' → Moved w' w'' → Moved w w''
Moved-trans {w} {w'} {w''} f g = record {
  same_length = g.same_length ∙ f.same_length;
  bytes = g.bytes;
  before = λ n h. g.before n (omega (arith, f.forward)) ∙ f.before n h;
  forward = omega (arith, f.forward, g.forward);
  room = omega (arith, g.room, f.same_length);
}

pub Follows-before :
    {w w' : Writer} {later : List ℕ} → Moved w w' → Follows w' later → Follows w later
Follows-before {w} {w'} {later} m f = record {
  bytes = f.bytes;
  room = omega (arith, f.room, m.forward);
  same = λ n h. f.same n (omega (arith, m.forward)) ∙ m.before n h;
}

-- The byte that the writer's offset is rounded up to.
abbrev pub next_byte : Writer → ℕ
next_byte w = (w.1.bits + 7) / 8

pub align-bits : (w : Writer) → (align w).1.bits ≡ 8 * next_byte w
unfolding align
align-bits w = bits-byte_align w.1

pub align-Moved : {w : Writer} → IsValid w → Moved w (align w)
unfolding align
align-Moved {w} v = record {
  same_length = refl;
  bytes = v.bytes;
  before = λ n h. refl;
  forward = omega (arith, bits-byte_align w.1);
  room = omega (arith, bits-byte_align w.1, v.inside);
}

-- Bytes that were written at the next byte.
pub Wrote-Moved :
    {w w' : Writer} (n : ℕ) → IsValid w → Wrote (align w) w' (next_byte w) n → Moved w w'
unfolding align
Wrote-Moved {w} {w'} n v wrote =
    let head : next_byte w ≤ length w.0 = omega (arith, v.inside) in
    record {
      same_length = wrote.same_length;
      bytes = wrote.bytes;
      before = λ k h.
          bits-of_bytes (next_byte w) w'.0 w.0 wrote.bytes v.bytes
            (omega (arith, wrote.same_length)) head wrote.kept k (omega arith);
      forward = omega (arith, wrote.ends);
      room = omega (arith, wrote.ends, wrote.room);
    }

pub Follows-Agrees :
    {w w' : Writer} {later : List ℕ} (i n : ℕ)
    → Wrote w w' i n
    → Follows w' later
    → Agrees (i + n) later w'.0
Follows-Agrees {w} {w'} {later} i n wrote f = record {
  bytes =
      bytes-of_bits (i + n) later w'.0 f.bytes wrote.bytes (omega (arith, f.room, wrote.ends))
        (omega (arith, wrote.room, wrote.same_length))
        (λ k h. f.same k (omega (arith, wrote.ends)));
  room = omega (arith, f.room, wrote.ends);
}

-- Reader and writer round their offsets up to the same byte.
pub IsAt-bytes :
    (ph : Phase) (w : Writer) (u : MemUnit)
    → IsAt ph w.1.bits u.bits
    → MemUnit.bytes u ≡ next_byte w
unfolding IsAt MemUnit.bytes
IsAt-bytes (exact r) w u at = omega (arith, at.0)
IsAt-bytes lagging w u at = omega (arith, at)

after_number-IsAt :
    (ph : Phase) (w : Writer) (u s : ℕ)
    → IsAt ph w.1.bits u
    → IsAt (after_number ph) (8 * (next_byte w + s)) (u + s * 8)
unfolding IsAt after_number
after_number-IsAt (exact zero) w u s at = (omega (arith, at.0, at.1), omega arith)
after_number-IsAt (exact (suc r)) w u s at = omega (arith, at.0, at.1)
after_number-IsAt lagging w u s at = omega (arith, at)

module _ {F S : Type 0} (lib : Library F S) (laws : LibraryLaws lib) where
  -- A number, aligned by the writer.
  pub put_number-unpack :
      (t : NumType) (w w' : Writer) (v : Value F S)
      → IsValid w
      → put_number lib t (align w) v ≡ ok w'
      → Moved w w'
        × ((ph : Phase) (later : List ℕ) (u : MemUnit)
            → Follows w' later
            → IsAt ph w.1.bits u.bits
            → (u' : MemUnit) × (unpack_num lib t later u ≡ ok (received_num lib laws t v, u'))
              × IsAt (after_number ph) w'.1.bits u'.bits)
  unfolding align unpack_num MemUnit.add MemUnit.from_bytes
  put_number-unpack t w w' v valid e =
      let i : ℕ = next_byte w in
      let (wrote, reads) =
        put_number-get lib laws t (align w) w' v i valid.bytes (omega (arith, valid.inside))
          (align-bits w) e in
      (
        Wrote-Moved (num_size t) valid wrote,
        λ ph later u follows at. (
          record { bits = u.bits + num_size t * 8 },
          rw (IsAt-bytes ph w u at, reads later (Follows-Agrees i (num_size t) wrote follows)) refl,
          subst (λ p. IsAt (after_number ph) p (u.bits + num_size t * 8)) (sym wrote.ends)
              (after_number-IsAt ph w u.bits (num_size t) at),
        ),
      )

  -- A bit field of an integer.
  pub pack-unpack :
      (n : ℕ) (w w' : Writer) (z : ℤ)
      → IsValid w
      → BitU.pack (record { bits = n }) w.0 w.1 z ≡ ok w'
      → Moved w w'
        × ((later : List ℕ)
            → Follows w' later
            → BitU.unpack (record { bits = n }) later w.1
              ≡ ok (low_bits z n, MemUnit.add w.1 (record { bits = n })))
        × (w'.1.bits ≡ w.1.bits + n)
  unfolding MemUnit.add
  pack-unpack n w w' z valid e =
      let size : MemUnit = record { bits = n } in
      let room : w.1.bits + n ≤ 8 * length w.0 = pack_room size w.0 w.1 z valid.inside e in
      let (out, runs, written) = pack_writes size w.0 w.1 z room valid.bytes in
      let same : (out, MemUnit.add w.1 size) ≡ w' = cc (runs, e) in
      subst
        (λ w'.
          Moved w w'
          × ((later : List ℕ)
              → Follows w' later
              → BitU.unpack size later w.1 ≡ ok (low_bits z n, MemUnit.add w.1 size))
          × (w'.1.bits ≡ w.1.bits + n))
        same
        (
          record {
            same_length = written.same_length;
            bytes = written.bytes;
            before = λ k h. Written-before written k h;
            forward = omega arith;
            room = room;
          },
          λ later f. unpack-Written size later w.1 z written f.bytes f.room f.same,
          refl,
        )
