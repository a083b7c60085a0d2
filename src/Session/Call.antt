-- ===== src/Session/Call.antt =====
-- `Rpc.__call__`: the arguments and the result of a call are tuples of values.
use compost_rpc.Common.{
  ℕ, ◌≤◌, ◌≡◌, refl, ap, ◌∙◌, true, false, Option, none, some, List, [], ◌∷◌, ◌++◌, arith, length,
  All, if◌then◌else◌,
}
use compost_rpc.Common.Result.{Result, ok, err, ◌>>=◌}
use compost_rpc.Wire.Msg.{Msg}
use compost_rpc.Wire.MsgLaws.{pack-from_data, on_wire, filler}
use compost_rpc.Wire.HeaderLaws.{header_bytes}
use compost_rpc.Protocol.Rpc.{Rpc}
use compost_rpc.Session.{Session, Environment, Event, received, next_txn, transmit, send_notif, rpc}
use compost_rpc.Session.Notifications.{Notification, Answer}
use compost_rpc.Session.Answers.{Request, rpc_answered}
use compost_rpc.Session.Listener.{IsTame}
use compost_rpc.Session.Stale.{Idle}

module _ {V : Type 0} where
  -- `ret_tuple[0]`, or `None` where the tuple is empty
  abbrev pub first : List V → Option V
  first [] = none
  first (v ∷ vs) = some v

  unfoldable pub returned : Rpc (List V) → Result (List ℕ) → Result (Option V)
  returned r response = do payload ← response; ret ← r.resp_serdes.unpack payload; ok (first ret)

module _ {V : Type 0} (env : Environment (List V)) where
  unfoldable pub perform :
      Session (List V)
      → Rpc (List V)
      → List Event
      → List Event
      → Result (List ℕ)
      → Result (Option V) × Session (List V)
  unfolding returned send_notif rpc
  perform s r early waiting (err e) = (err e, s)
  perform s r early waiting (ok payload) =
      if r.is_notification
      then (let (txn, s') = send_notif env s r.rpc_id payload false in ((do _ ← txn; ok none), s'))
      else (let (response, s') = rpc env s r.rpc_id payload early waiting in
          (returned r response, s'))

  -- `__call__`: `early` and `waiting` are what arrives, as in `rpc`.
  unfoldable pub call_rpc :
      Session (List V)
      → Rpc (List V)
      → List V
      → List Event
      → List Event
      → Result (Option V) × Session (List V)
  unfolding perform
  call_rpc s r args early waiting = perform s r early waiting (r.req_serdes.pack args)

  -- A call whose arguments pack to at most 1020 bytes and whose request the transport sends, in a
  -- session that listens with an empty queue, returns the first value that the payload of its answer
  -- unpacks to, or nothing where that is an empty tuple, whatever notifications with quiet callbacks
  -- arrive before the answer, and whatever arrives behind it, where callbacks make no calls.
  pub call_answered :
      IsTame env
      → (s : Session (List V)) (r : Rpc (List V)) (args ret : List V) (payload : List ℕ)
        (early mid behind : List Event) (bytes : List ℕ) (msg : Msg)
      → Idle env s
      → r.is_notification ≡ false
      → r.req_serdes.pack args ≡ ok payload
      → Request env s r.rpc_id payload
      → All (Notification env s.rpcs) early
      → All (Notification env s.rpcs) mid
      → Answer env s.rpcs (next_txn s.last_txn) bytes msg
      → r.resp_serdes.unpack msg.payload ≡ ok ret
      → (call_rpc s r args early (mid ++ (received bytes ∷ behind))).0 ≡ ok (first ret)
  unfolding call_rpc returned
  call_answered tame s r args ret payload early mid behind bytes msg idle waits packed fits before
        between a unpacked =
      let answered =
        rpc_answered env tame s r.rpc_id payload early mid behind bytes msg idle.listening idle.q
          fits before between a in
      rw (packed, waits) (ap (returned r) answered ∙ rw unpacked refl)

  -- Calling a notification whose arguments pack sends one message under the transaction number 0 and
  -- returns nothing; it does not wait, and changes nothing else in the session.
  call_notification :
      (s : Session (List V)) (r : Rpc (List V)) (args : List V) (payload : List ℕ)
      (early waiting : List Event)
      → r.is_notification ≡ true
      → r.req_serdes.pack args ≡ ok payload
      → length payload ≤ 1020
      → env.send s (header_bytes (on_wire 0 false r.rpc_id payload) ++ (payload ++ filler payload))
        ≡ ok tt
      → call_rpc s r args early waiting ≡ (
        ok none,
        record s {
          sent =
              s.sent
              ++ ((header_bytes (on_wire 0 false r.rpc_id payload) ++ (payload ++ filler payload))
                  ∷ []);
        },
      )
  unfolding call_rpc transmit
  call_notification s r args payload early waiting one_way packed fits goes_out =
      rw
        (
          packed,
          one_way,
          pack-from_data 0 false r.rpc_id payload (omega arith) fits,
          transmit,
          goes_out,
        )
        refl
