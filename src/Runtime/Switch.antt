-- ===== src/Runtime/Switch.antt =====
-- What `compost_msg_process` leaves in the transmit buffer for a request of the Python package.
use compost_rpc.Common.{
  ℕ, ◌+◌, ◌*◌, ◌/◌, ◌%◌, ◌≤◌, ◌<◌, ◌≡◌, refl, ap, ◌∙◌, true, false, Bool, Option, none, some, List,
  [], ◌∷◌, ◌++◌, arith, ltb, lt→ltb, if-true, Bool-cases, inl, inr, ◌==◌, if◌then◌else◌, length,
  drop,
}
use compost_rpc.Common.Int.{pos}
use native.Mathlib.Nat.{mod-eq_of_lt}
use compost_rpc.Wire.Header
use compost_rpc.Wire.Header.{Header}
use compost_rpc.Wire.HeaderLaws.{
  header_bytes, header_bytes-IsByte, unpack-header_bytes, word-lt, pack_fits,
}
use compost_rpc.Wire.MsgLaws.{on_wire, filler}
use compost_rpc.Runtime.Header.{
  CompostHeader, compost_header_load, compost_header_store, store_buffer,
}
use compost_rpc.Runtime.Interop.{as_compost, load-unpack, store-pack}
use compost_rpc.Runtime.Process.{
  Case, CompostMsg, compost_bytes_to_words, compost_invoke_switch, invoke, compost_unknown_msg,
  compost_msg_process, finish, dispatch, unset,
}

-- The case of the switch that an id selects.
unfoldable pub case_for : ℕ → List Case → Option Case
case_for id [] = none
case_for id (c ∷ cs) = if c.rpc_id == id then some c else case_for id cs

abbrev pub request_id_bytes : ℕ → Bool → ℕ → List ℕ → List ℕ
request_id_bytes txn resp rpc_id payload =
    header_bytes (on_wire txn resp rpc_id payload) ++ (payload ++ filler payload)

load_lem :
    (h : Header) (rest : List ℕ) (old : CompostHeader)
    → h.len < 256
    → h.txn < 256
    → h.rpc_id < 4096
    → compost_header_load (some (header_bytes h ++ rest)) (some old) ≡ (pos 0, some (as_compost h))
unfolding header_bytes
load_lem h rest old hl ht hi =
    let (back, reads, loads) =
      load-unpack h.len h.txn (Header.rpc_id_and_flags h / 256) (Header.rpc_id_and_flags h % 256)
        rest old (header_bytes-IsByte h hl ht) in
    let same : back ≡ record h { rpc_id = h.rpc_id % 4096 } = cc (reads, unpack-header_bytes h) in
    loads
    ∙ if-true (ltb (Header.rpc_id_and_flags h / 256) 32) _ _
        (lt→ltb _ 32 (omega (arith, word-lt h)))
    ∙ ap (λ k. (pos 0, some (as_compost k)))
        (same ∙ ap (λ n. record h { rpc_id = n }) (mod-eq_of_lt hi))

switch_known :
    (id : ℕ) (cases : List Case) (c : Case) (tx rx : CompostMsg)
    → rx.header.rpc_id ≡ id
    → case_for id cases ≡ some c
    → compost_invoke_switch cases tx rx ≡ invoke c tx rx
unfolding compost_invoke_switch case_for
switch_known id [] c tx rx e found = cc
switch_known id (d ∷ ds) c tx rx e found = rw e (ground (arith, switch_known id ds c tx rx e))

switch_unknown :
    (id : ℕ) (cases : List Case) (tx rx : CompostMsg)
    → rx.header.rpc_id ≡ id
    → case_for id cases ≡ none
    → compost_invoke_switch cases tx rx ≡ compost_unknown_msg tx
unfolding compost_invoke_switch case_for
switch_unknown id [] tx rx e found = refl
switch_unknown id (d ∷ ds) tx rx e found = rw e (ground (arith, switch_unknown id ds tx rx e))

module _ (txn id : ℕ) (payload : List ℕ) (w x y z : ℕ) (body : List ℕ) where
  abbrev started : CompostMsg
  started = record {
    header = record { txn = txn; resp = true; wlen = 0; rpc_id = 0 };
    payload_buf_size = length body;
    payload_buf = body;
  }

  abbrev request : CompostMsg
  request = record {
    header = as_compost (on_wire txn false id payload);
    payload_buf_size = length (payload ++ filler payload);
    payload_buf = payload ++ filler payload;
  }

  process_lem :
      (cases : List Case)
      → 1 ≤ txn
      → txn < 256
      → id < 4096
      → length payload ≤ 1020
      → compost_msg_process cases
          (some (w ∷ x ∷ y ∷ z ∷ body))
          (some (request_id_bytes txn false id payload))
        ≡ finish (w ∷ x ∷ y ∷ z ∷ body) (compost_invoke_switch cases started request)
  unfolding compost_msg_process header_bytes dispatch
  process_lem cases numbered ht hi hp =
      rw
        (load_lem (on_wire txn false id payload) (payload ++ filler payload) unset (omega arith) ht
          hi)
        (ground arith)

store_lem :
    (h : Header) (w x y z : ℕ) (rest : List ℕ)
    → h.len < 256
    → h.txn < 256
    → h.rpc_id < 4096
    → store_buffer (w ∷ x ∷ y ∷ z ∷ rest) (as_compost h) ≡ header_bytes h ++ rest
unfolding compost_header_store
store_lem h w x y z rest hl ht hi =
    cc (store-pack false h w x y z rest (header_bytes h) hi (pack_fits h hl ht))

case_for-id : (id : ℕ) (cases : List Case) (c : Case) → case_for id cases ≡ some c → c.rpc_id ≡ id
unfolding case_for
case_for-id id [] c found = cc
case_for-id id (d ∷ ds) c found = elim (Bool-cases (d.rpc_id == id)) [
  | inl here ↦ ground arith
  | inr there ↦ case_for-id id ds c (rw there at found)
]

words_lem : (n : ℕ) → n ≤ 1020 → compost_bytes_to_words n ≡ (n + 3) / 4
unfolding compost_bytes_to_words
words_lem n h = omega arith

module _ (txn id : ℕ) (payload : List ℕ) (w x y z : ℕ) (body : List ℕ) (cases : List Case) where
  -- The reply of the handler that is called with the request's payload.
  pub reply_known :
      (c : Case) (stored : List ℕ)
      → 1 ≤ txn
      → txn < 256
      → id < 4096
      → length payload ≤ 1020
      → case_for id cases ≡ some c
      → c.returns ≡ true
      → c.reply (length body) (payload ++ filler payload) ≡ stored
      → length stored ≤ 1020
      → compost_msg_process cases
          (some (w ∷ x ∷ y ∷ z ∷ body))
          (some (request_id_bytes txn false id payload))
        ≡ (
          pos (4 + (length stored + 3) / 4 * 4),
          header_bytes (on_wire txn true id stored) ++ (stored ++ drop (length stored) body),
        )
  unfolding invoke finish
  reply_known c stored numbered ht hi hp found returns replies small =
      rw
        (
          process_lem txn id payload w x y z body cases numbered ht hi hp,
          switch_known id cases c (started txn id payload w x y z body)
              (request txn id payload w x y z body) refl found,
          returns,
          replies,
          words_lem (length stored) small,
          case_for-id id cases c found,
          store_lem (on_wire txn true id stored) w x y z (stored ++ drop (length stored) body)
              (omega arith) ht hi,
        )
        (ground arith)

  -- No case has the id.
  pub reply_unknown :
      1 ≤ txn
      → txn < 256
      → id < 4096
      → length payload ≤ 1020
      → case_for id cases ≡ none
      → compost_msg_process cases
          (some (w ∷ x ∷ y ∷ z ∷ body))
          (some (request_id_bytes txn false id payload))
        ≡ (pos 4, header_bytes (on_wire txn true 0xFEE []) ++ body)
  unfolding compost_unknown_msg finish
  reply_unknown numbered ht hi hp found =
      rw
        (
          process_lem txn id payload w x y z body cases numbered ht hi hp,
          switch_unknown id cases (started txn id payload w x y z body)
              (request txn id payload w x y z body) refl found,
          store_lem (on_wire txn true 0xFEE []) w x y z body (omega arith) ht (omega arith),
        )
        (ground arith)
