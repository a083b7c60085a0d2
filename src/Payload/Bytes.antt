-- ===== src/Payload/Bytes.antt =====
-- What the steps of packing that write whole bytes leave in the buffer, and how they are read back.
use compost_rpc.Common.{
  ℕ, ◌+◌, ◌-◌, ◌*◌, ◌≤◌, min, ◌≡◌, sym, ap, ap₂, subst, ◌∙◌, List, ◌++◌, inl, inr, ◌==◌, if-false,
  if-true, ==_iff, Bool-cases, arith, length, take, drop, All, length-append, All-append,
  length-drop,
}
use compost_rpc.Common.BigEndian.{IsByte}
use compost_rpc.Common.Int.{ℤ}
use compost_rpc.Common.Result.{ok, err, value_error, >>=-eq-ok, ◌>>=◌}
use compost_rpc.MemUnit
use compost_rpc.MemUnit.{MemUnit}
use compost_rpc.Numbers.{IntType, byte_size, pack_number, unpack_number}
use compost_rpc.Numbers.Laws.{unpack-pack_number}
use compost_rpc.Payload.Pack.{Writer, write_slice, put_bytes, put_sized}
use compost_rpc.Payload.Slices.{
  take-drop, length-take-min, slice-eq, take-eq, All-take, All-drop, take-append_at, drop-append_at,
}

-- From the byte offset `i` on, `n` bytes were written.
pub record Wrote (w w' : Writer) (i n : ℕ) : Type 0 where
  pub same_length : length w'.0 ≡ length w.0
  pub bytes : All IsByte w'.0
  pub kept : take i w'.0 ≡ take i w.0
  pub ends : w'.1.bits ≡ 8 * (i + n)
  pub room : i + n ≤ length w.0

-- The first `j` bytes are those of another buffer.
pub record Agrees (j : ℕ) (later out : List ℕ) : Type 0 where
  pub bytes : take j later ≡ take j out
  pub room : j ≤ length later

pub Agrees-le :
    {j : ℕ} {later out : List ℕ} (k : ℕ) → Agrees j later out → k ≤ j → Agrees k later out
Agrees-le {j} {later} {out} k a h = record {
  bytes = take-eq k j later out h a.bytes;
  room = omega (arith, a.room);
}

-- What was written first is read before what was written behind it.
pub Agrees-before :
    {w w' : Writer} {i n j : ℕ} {later : List ℕ}
    → Wrote w w' i n
    → Agrees j later w'.0
    → i ≤ j
    → Agrees i later w.0
Agrees-before {w} {w'} {i} {n} {j} {later} wrote a h =
    let head = Agrees-le i a h in record { bytes = head.bytes ∙ wrote.kept; room = head.room }

pub Wrote-trans :
    {w w' w'' : Writer} (i m n : ℕ)
    → Wrote w w' i m
    → Wrote w' w'' (i + m) n
    → Wrote w w'' i (m + n)
Wrote-trans {w} {w'} {w''} i m n f g = record {
  same_length = g.same_length ∙ f.same_length;
  bytes = g.bytes;
  kept = take-eq i (i + m) w''.0 w'.0 (omega arith) g.kept ∙ f.kept;
  ends = omega (arith, g.ends);
  room = omega (arith, g.room, f.same_length);
}

module _ (buffer : List ℕ) (i n : ℕ) (b : List ℕ) (bytes : All IsByte buffer) (new : All IsByte b)
    (inside : i ≤ length buffer) (size : length b ≡ n) where
  test : ℕ
  test = min (length buffer) (i + n) - min (length buffer) i

  written : List ℕ
  written = take i buffer ++ (b ++ drop (i + n) buffer)

  -- A slice that is written has its place in the buffer.
  write_slice-ok :
      (out : List ℕ) → write_slice buffer i n b ≡ ok out → (i + n ≤ length buffer) × (written ≡ out)
  unfolding write_slice test written
  write_slice-ok out e = elim (Bool-cases (test == length b)) [
    | inl fits ↦ (
      omega (arith, (==_iff test (length b)).0 fits),
      cc (e, if-true (test == length b) (ok written) (err value_error) fits),
    )
    | inr differs ↦ cc (e, if-false (test == length b) (ok written) (err value_error) differs)
  ]

  length-head : length (take i buffer) ≡ i
  length-head = omega (arith, length-take-min i buffer)

  -- Written bytes, as a step of the writer and where they are found.
  pub put_bytes-Wrote :
      (offset : MemUnit) (w' : Writer)
      → offset.bits ≡ 8 * i
      → put_bytes (buffer, offset) n b ≡ ok w'
      → Wrote (buffer, offset) w' i n × (take n (drop i w'.0) ≡ b)
  unfolding put_bytes MemUnit.bytes MemUnit.set_bytes written
  put_bytes-Wrote offset w' start e =
      let (out, slice, done) = >>=-eq-ok (write_slice buffer (MemUnit.bytes offset) n b) _ e in
      let at : MemUnit.bytes offset ≡ i = omega arith in
      let (room, same) = write_slice-ok out (ap (λ k. write_slice buffer k n b) (sym at) ∙ slice) in
      let tail : List ℕ = drop (i + n) buffer in
      let ended : (out, MemUnit.set_bytes offset (MemUnit.bytes offset + n)) ≡ w' = cc done in
      subst (λ w. Wrote (buffer, offset) w i n × (take n (drop i w.0) ≡ b)) ended
        (
          record {
            same_length =
                ap length (sym same)
                ∙ omega (
                  arith,
                  length-head,
                  length-append (take i buffer) (b ++ tail),
                  length-append b tail,
                  length-drop (i + n) buffer,
                );
            bytes =
                subst (λ l. All IsByte l) same
                  (All-append IsByte (take i buffer) (b ++ tail) (All-take IsByte i buffer bytes)
                    (All-append IsByte b tail new (All-drop IsByte (i + n) buffer bytes)));
            kept =
                ap (take i) (sym same) ∙ take-append_at i (take i buffer) (b ++ tail) length-head;
            ends = omega (arith, at);
            room = room;
          },
          ap (λ l. take n (drop i l)) (sym same)
              ∙ ap (take n) (drop-append_at i (take i buffer) (b ++ tail) length-head)
              ∙ take-append_at n b tail size,
        )

-- At a whole byte, both ways of moving the offset agree.
pub put_sized-put_bytes :
    (w : Writer) (i n : ℕ) (b : List ℕ) → w.1.bits ≡ 8 * i → put_sized w n b ≡ put_bytes w n b
unfolding put_sized put_bytes MemUnit.add MemUnit.from_bytes MemUnit.set_bytes MemUnit.bytes
put_sized-put_bytes w i n b start =
    let same : w.1.bits + n * 8 ≡ (MemUnit.bytes w.1 + n) * 8 = omega (arith, start) in
    ap
      (λ (k : ℕ). do
        buffer' ← write_slice w.0 (MemUnit.bytes w.1) n b
        ok (buffer', record { bits = k }))
      same

-- Bytes that were written are found in a buffer that agrees.
pub slice-Agrees :
    (i n : ℕ) {later out : List ℕ} {b : List ℕ}
    → Agrees (i + n) later out
    → take n (drop i out) ≡ b
    → take n (drop i later) ≡ b
slice-Agrees i n {later} {out} {b} a e = slice-eq i n (i + n) later out (omega arith) a.bytes ∙ e

-- A number is read where its bytes stand.
pub unpack_number-slice :
    (t : IntType) (payload : List ℕ) (i : ℕ) {b : List ℕ} {z : ℤ}
    → pack_number t z ≡ ok b
    → i + byte_size t ≤ length payload
    → take (byte_size t) (drop i payload) ≡ b
    → unpack_number t payload i ≡ ok z
unpack_number-slice t payload i {b} {z} packed room there =
    let rest : List ℕ = drop (byte_size t) (drop i payload) in
    let whole : take i payload ++ (b ++ rest) ≡ payload =
      ap (λ l. take i payload ++ (l ++ rest)) (sym there)
      ∙ ap (λ l. take i payload ++ l) (take-drop (byte_size t) (drop i payload))
      ∙ take-drop i payload in
    let head : length (take i payload) ≡ i = omega (arith, length-take-min i payload) in
    ap₂ (unpack_number t) (sym whole) (sym head)
    ∙ (unpack-pack_number t z b (take i payload) rest packed).0
