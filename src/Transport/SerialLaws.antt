-- ===== src/Transport/SerialLaws.antt =====
-- Messages on a serial line, and on the pipe of `StdioTransport`.
use compost_rpc.Common.{
  ℕ, ◌+◌, ◌*◌, ◌≤◌, ◌<◌, ◌≡◌, refl, sym, ap, ◌∙◌, Bool, false, List, ◌++◌, arith, ltb, ltb-false,
  length, take, drop, length-append, length-drop, length-take,
}
use compost_rpc.Common.Result.{ok, >>=-eq-ok}
use compost_rpc.Wire.Header
use compost_rpc.Wire.Header.{Header}
use compost_rpc.Wire.Msg
use compost_rpc.Wire.Msg.{Msg}
use compost_rpc.Wire.MsgLaws.{unpack-pack-from_data}
use compost_rpc.Payload.Slices.{take-drop, take-append_at, drop-append_at}
use compost_rpc.Transport.Stream.{serial_receive}
use mathlib.Core.List.{append_assoc}

-- A `read` that waits for as many bytes as it is asked for.
pub record ReadsAll {C : Type 0} (read : ℕ → C → List ℕ × C) (pending : C → List ℕ) : Type 0 where
  pub piece : (n : ℕ) (c : C) → n ≤ length (pending c) → (read n c).0 ≡ take n (pending c)
  pub rest : (n : ℕ) (c : C) → n ≤ length (pending c) → pending (read n c).1 ≡ drop n (pending c)

module _ {C : Type 0} (read : ℕ → C → List ℕ × C) (pending : C → List ℕ)
    (laws : ReadsAll read pending) where
  -- What is read of a front that is there.
  read_front :
      (c : C) (n : ℕ) (front more : List ℕ)
      → length front ≡ n
      → pending c ≡ front ++ more
      → ((read n c).0 ≡ front) × (pending (read n c).1 ≡ more)
  read_front c n front more size queue =
      let there : n ≤ length (pending c) =
        omega (arith, ap length queue, length-append front more, size) in
      (
        laws.piece n c there ∙ ap (take n) queue ∙ take-append_at n front more size,
        laws.rest n c there ∙ ap (drop n) queue ∙ drop-append_at n front more size,
      )

  serial_receive_bytes :
      (c : C) (bytes more : List ℕ) (h : Header)
      → Header.unpack (take 4 bytes) ≡ ok h
      → length bytes ≡ 4 + 4 * h.len
      → pending c ≡ bytes ++ more
      → (c' : C) × (serial_receive read c ≡ ok (bytes, c')) × (pending c' ≡ more)
  unfolding serial_receive Header.payload_byte_len
  serial_receive_bytes c bytes more h unpacked size queue =
      let four : length (take 4 bytes) ≡ 4 = length-take 4 bytes (omega (arith, size)) in
      let parts : take 4 bytes ++ drop 4 bytes ≡ bytes = take-drop 4 bytes in
      let (header, queue') = read_front c 4 (take 4 bytes) (drop 4 bytes ++ more) four (
        queue
        ∙ ap (λ l. l ++ more) (sym parts)
        ∙ append_assoc (take 4 bytes) (drop 4 bytes) more) in
      let (payload, queue'') =
        read_front (read 4 c).1 (4 * h.len) (drop 4 bytes) more
          (omega (arith, length-drop 4 bytes, size)) queue' in
      let test : ltb (length (take 4 bytes)) 4 ≡ false = ltb-false _ 4 (omega (arith, four)) in
      ((read (4 * h.len) (read 4 c).1).1, rw (header, test, unpacked, payload, parts) refl, queue'')

-- The next message on a serial line, whatever follows it, is received as it was packed, and what
-- follows stays. The port waits for the bytes that it is asked for; the transaction number, the id and
-- the payload fit the message.
pub serial_receive-pack :
    {C : Type 0} (read : ℕ → C → List ℕ × C) (pending : C → List ℕ) (laws : ReadsAll read pending)
    (txn : ℕ) (resp : Bool) (rpc_id : ℕ) (payload : List ℕ) (m : Msg) (bytes more : List ℕ) (c : C)
    → txn < 256
    → rpc_id < 4096
    → length payload ≤ 1020
    → Msg.pack (Msg.from_data txn resp rpc_id payload) ≡ ok (m, bytes)
    → pending c ≡ bytes ++ more
    → (c' : C) × (serial_receive read c ≡ ok (bytes, c')) × (pending c' ≡ more)
unfolding Msg.unpack Msg.len
serial_receive-pack read pending laws txn resp rpc_id payload m bytes more c ht hi hp packed queue =
    let (unpacked, _, _, size) =
      unpack-pack-from_data txn resp rpc_id payload ht hi hp m bytes packed in
    let (h, header, same) =
      >>=-eq-ok (Header.unpack (take 4 bytes))
        (λ header. ok (record { header = header; payload = drop 4 bytes })) unpacked in
    let same' : h ≡ m.header = cc same in
    serial_receive_bytes read pending laws c bytes more h header
      (omega (arith, size, ap (λ (h : Header). h.len) same')) queue
