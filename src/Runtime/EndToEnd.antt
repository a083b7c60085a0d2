-- ===== src/Runtime/EndToEnd.antt =====
-- A call of the Python session to a device that runs the C runtime.
use compost_rpc.Common.{
  ℕ, ◌+◌, ◌-◌, ◌≤◌, ◌<◌, ◌≡◌, refl, ap, ◌∙◌, true, false, none, some, List, [], ◌∷◌, ◌++◌, arith,
  length, All,
}
use compost_rpc.Common.Result.{ok, err, unknown_rpc_id_error}
use compost_rpc.Common.Table.{has}
use compost_rpc.Wire.Msg
use compost_rpc.Wire.Msg.{Msg}
use compost_rpc.Wire.HeaderLaws.{header_bytes}
use compost_rpc.Wire.MsgLaws.{on_wire, filler, pack-from_data, unpack-on_wire}
use compost_rpc.Protocol.Registry.{IsValid}
use compost_rpc.Runtime.Process.{Case, compost_msg_process}
use compost_rpc.Runtime.Switch.{request_id_bytes, case_for}
use compost_rpc.Runtime.Device.{sent_reply, device_answers, device_refuses}
use compost_rpc.Session.{Session, Environment, Event, received, next_txn, rpc}
use compost_rpc.Session.Txn.{next_txn_range}
use compost_rpc.Session.Listener.{IsTame}
use compost_rpc.Session.Notifications.{Notification, Answer}
use compost_rpc.Session.Answers.{Request, Refused, unknown, rpc_answered, rpc-Refused}
use native.Mathlib.Nat.{mod-eq_of_lt}

-- The ids of a protocol leave 0xFEE free.
reserved {ℓ} : {R : Type ℓ} (rpcs : List (ℕ × R)) → IsValid rpcs → has 0xFEE rpcs ≡ false
unfolding has
reserved [] v = refl
reserved ((k, r) ∷ t) v = ground (arith, reserved t v.2, v.0)

length-header_bytes :
    (txn id : ℕ) (payload rest : List ℕ)
    → 4 ≤ length (header_bytes (on_wire txn true id payload) ++ rest)
unfolding header_bytes
length-header_bytes txn id payload rest = omega arith

same_request :
    {A : Type 0} (s : Session A) (id : ℕ) (payload : List ℕ) (m : Msg) (request : List ℕ)
    → length payload ≤ 1020
    → Msg.pack (Msg.from_data (next_txn s.last_txn) false id payload) ≡ ok (m, request)
    → request ≡ request_id_bytes (next_txn s.last_txn) false id payload
same_request s id payload m request hp packed = cc (
  pack-from_data (next_txn s.last_txn) false id payload (omega (arith, next_txn_range s.last_txn))
      hp,
  packed,
)

-- What the device sends for a request.
abbrev pub device_event : List Case → List ℕ → List ℕ → Event
device_event cases tx_buf request =
    received (sent_reply (compost_msg_process cases (some tx_buf) (some request)))

module _ {A : Type 0} (env : Environment A) where
  -- A call through both ends. The session listens, its queue is empty, it knows the id, which is below
  -- 4096, and the request goes out: it has at most 1020 bytes and the transport sends it. The device has
  -- a handler for the id that returns a value, which is stored in at most 1020 bytes, and the device's
  -- buffer has room for them and seven bytes more. Then the call returns the bytes that the handler
  -- stored, for the payload of the call filled up with zeros, and fewer than four more, whatever
  -- notifications with quiet callbacks arrive before the answer, and whatever arrives behind it, where
  -- callbacks make no calls.
  pub rpc_end_to_end :
      IsTame env
      → (s : Session A) (id : ℕ) (payload : List ℕ) (early mid behind : List Event)
        (cases : List Case) (c : Case) (tx_buf : List ℕ) (m : Msg) (request stored : List ℕ)
      → Msg.pack (Msg.from_data (next_txn s.last_txn) false id payload) ≡ ok (m, request)
      → s.listening ≡ true
      → s.q ≡ []
      → has id s.rpcs ≡ true
      → id < 4096
      → Request env s id payload
      → All (Notification env s.rpcs) early
      → All (Notification env s.rpcs) mid
      → case_for id cases ≡ some c
      → c.returns ≡ true
      → c.reply (length tx_buf - 4) (payload ++ filler payload) ≡ stored
      → length stored ≤ 1020
      → 7 + length stored ≤ length tx_buf
      → (fill : List ℕ) × (length fill < 4)
        × ((rpc env s id payload early (mid ++ (device_event cases tx_buf request ∷ behind))).0
            ≡ ok (stored ++ fill))
  rpc_end_to_end tame s id payload early mid behind cases c tx_buf m request stored packed on empty
        known hi hp before between found returns replies small room =
      let txn : ℕ = next_txn s.last_txn in
      let range = next_txn_range s.last_txn in
      let (fill, short, sends) =
        device_answers txn id payload tx_buf cases c stored range.0 (omega (arith, range.1)) hi
          hp.fits found returns replies small room in
      let msg : Msg = record { header = on_wire txn true id stored; payload = stored ++ fill } in
      let a : Answer env s.rpcs txn (header_bytes (on_wire txn true id stored) ++ (stored ++ fill))
          msg =
        record {
          long = length-header_bytes txn id stored (stored ++ fill);
          parsed =
              unpack-on_wire txn true id stored (stored ++ fill)
              ∙ ap
                  (λ n. ok (record {
                    header = record (on_wire txn true id stored) { rpc_id = n };
                    payload = stored ++ fill;
                  }))
                  (mod-eq_of_lt hi);
          same_txn = refl;
          known = known;
        } in
      (
        fill,
        short,
        rw (same_request s id payload m request hp.fits packed, sends)
            (rpc_answered env tame s id payload early mid behind _ msg on empty hp before between
              a),
      )

  -- Where the device, whose buffer has four bytes at least, has no handler for an id below 4096, a call
  -- raises UnknownRpcIdError: the ids of a valid protocol leave the id of the device's refusal free.
  -- The session listens, its queue is empty, the payload is at most 1020 bytes long, the transport
  -- sends the request, nothing but notifications with quiet callbacks arrives before the refusal, and
  -- callbacks make no calls.
  pub rpc_without_handler :
      IsTame env
      → (s : Session A) (id : ℕ) (payload : List ℕ) (early mid behind : List Event)
        (cases : List Case) (tx_buf : List ℕ) (m : Msg) (request : List ℕ)
      → Msg.pack (Msg.from_data (next_txn s.last_txn) false id payload) ≡ ok (m, request)
      → s.listening ≡ true
      → s.q ≡ []
      → IsValid s.rpcs
      → id < 4096
      → Request env s id payload
      → All (Notification env s.rpcs) early
      → All (Notification env s.rpcs) mid
      → case_for id cases ≡ none
      → 4 ≤ length tx_buf
      → (rpc env s id payload early (mid ++ (device_event cases tx_buf request ∷ behind))).0
        ≡ err unknown_rpc_id_error
  unfolding header_bytes
  rpc_without_handler tame s id payload early mid behind cases tx_buf m request packed on empty
        valid hi hp before between found room =
      let txn : ℕ = next_txn s.last_txn in
      let range = next_txn_range s.last_txn in
      let sends =
        device_refuses txn id payload tx_buf cases range.0 (omega (arith, range.1)) hi hp.fits room
          found in
      let msg : Msg = record { header = on_wire txn true 0xFEE []; payload = [] } in
      let refused : Refused env s.rpcs (received (header_bytes (on_wire txn true 0xFEE [])))
          unknown_rpc_id_error =
        unknown (header_bytes (on_wire txn true 0xFEE [])) msg (omega arith)
          (unpack-on_wire txn true 0xFEE [] []) (reserved s.rpcs valid) in
      rw (same_request s id payload m request hp.fits packed, sends)
        (rpc-Refused env tame s id payload early mid behind _ _ on empty hp before between refused)
