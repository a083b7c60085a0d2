-- ===== src/Runtime/Device.antt =====
-- What the device sends for a request of the Python package.
use compost_rpc.Common.{
  ℕ, ◌+◌, ◌-◌, ◌*◌, ◌/◌, ◌≤◌, ◌<◌, ◌≡◌, refl, ap, ◌∙◌, true, false, none, some, List, [], ◌++◌,
  arith, length, take, drop, length-take, length-drop, first_four, take-append_more,
}
use compost_rpc.Common.Int.{ℤ, pos, negsuc}
use compost_rpc.Wire.Header.{Header}
use compost_rpc.Wire.HeaderLaws.{header_bytes}
use compost_rpc.Wire.MsgLaws.{on_wire, filler}
use compost_rpc.Runtime.Process.{Case, compost_msg_process}
use compost_rpc.Runtime.Switch.{case_for, request_id_bytes, reply_known, reply_unknown}

-- What the firmware sends of the transmit buffer.
unfoldable pub sent_reply : ℤ × List ℕ → List ℕ
sent_reply (pos n, tx_buf) = take n tx_buf
sent_reply (negsuc n, tx_buf) = []

-- The bytes behind a reply that fill its last word: what the transmit buffer held there.
abbrev pub leftover : List ℕ → List ℕ → List ℕ
leftover stored body =
    take (4 * ((length stored + 3) / 4) - length stored) (drop (length stored) body)

length-leftover :
    (stored body : List ℕ)
    → length stored + 3 ≤ length body
    → length (leftover stored body) ≡ 4 * ((length stored + 3) / 4) - length stored
length-leftover stored body room =
    length-take _ (drop (length stored) body) (omega (arith, length-drop (length stored) body))

sent_lem :
    (h : Header) (stored rest : List ℕ)
    → length stored ≤ 4 * ((length stored + 3) / 4)
    → take (4 + (length stored + 3) / 4 * 4) (header_bytes h ++ (stored ++ rest))
      ≡ header_bytes h ++ (stored ++ take (4 * ((length stored + 3) / 4) - length stored) rest)
unfolding header_bytes
sent_lem h stored rest fits =
    take-append_more (4 + (length stored + 3) / 4 * 4) (header_bytes h) (stored ++ rest)
      (omega arith)
    ∙ ap (λ l. header_bytes h ++ l)
        (ap (λ k. take k (stored ++ rest)) (omega arith)
          ∙ take-append_more (4 * ((length stored + 3) / 4)) stored rest fits)

module _ (txn id : ℕ) (payload tx_buf : List ℕ) (cases : List Case) where
  -- The answer of a handler that returns a value.
  pub device_answers :
      (c : Case) (stored : List ℕ)
      → 1 ≤ txn
      → txn < 256
      → id < 4096
      → length payload ≤ 1020
      → case_for id cases ≡ some c
      → c.returns ≡ true
      → c.reply (length tx_buf - 4) (payload ++ filler payload) ≡ stored
      → length stored ≤ 1020
      → 7 + length stored ≤ length tx_buf
      → (fill : List ℕ) × (length fill < 4)
        × (sent_reply (
              compost_msg_process cases
                (some tx_buf)
                (some (request_id_bytes txn false id payload)))
            ≡ header_bytes (on_wire txn true id stored) ++ (stored ++ fill))
  unfolding sent_reply header_bytes
  device_answers c stored numbered ht hi hp found returns replies small room =
      let (w, x, y, z, body, same) = first_four tx_buf (omega arith) in
      let total : 4 + length body ≡ length tx_buf = omega (arith, ap length same) in
      let size : length body ≡ length tx_buf - 4 = omega (arith, total) in
      let replies' = ap (λ n. c.reply n (payload ++ filler payload)) size ∙ replies in
      (
        leftover stored body,
        omega (arith, length-leftover stored body (omega arith)),
        rw
            (
              same,
              reply_known txn id payload w x y z body cases c stored numbered ht hi hp found returns
                  replies' small,
            )
            (sent_lem (on_wire txn true id stored) stored (drop (length stored) body)
              (omega arith)),
      )

  -- The answer where no case has the id.
  pub device_refuses :
      1 ≤ txn
      → txn < 256
      → id < 4096
      → length payload ≤ 1020
      → 4 ≤ length tx_buf
      → case_for id cases ≡ none
      → sent_reply
          (compost_msg_process cases (some tx_buf) (some (request_id_bytes txn false id payload)))
        ≡ header_bytes (on_wire txn true 0xFEE [])
  unfolding sent_reply header_bytes
  device_refuses numbered ht hi hp room found =
      let (w, x, y, z, body, same) = first_four tx_buf room in
      rw (same, reply_unknown txn id payload w x y z body cases numbered ht hi hp found) refl
