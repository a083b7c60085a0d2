-- ===== src/Session.antt =====
-- `_Session` of compost_rpc/compost_rpc.py. The listener thread and the callers share the queue:
-- what the listener does with one thing that the transport hands over is one step, and a call says
-- what arrives before it looks and while it waits.
pub mod Txn
pub mod Listener
pub mod Notifications
mod Rounds
pub mod Answers
pub mod Stale
pub mod Call
mod Runs
use compost_rpc.Common.{
  ℕ, zero, suc, ◌+◌, Bool, true, false, not, Option, none, some, List, [], ◌∷◌, ◌++◌, ltb, leb,
  ◌==◌, if◌then◌else◌, length, get_elem?,
}
use compost_rpc.Common.Result.{
  Error, Result, ok, err, runtime_error, request_timeout_error, unknown_rpc_id_error,
  unexpected_txn_error, malformed_message_error, ◌>>=◌,
}
use compost_rpc.Common.Table.{lookup, has}
use compost_rpc.Wire.Msg
use compost_rpc.Wire.Msg.{Msg}
use compost_rpc.Protocol.Rpc.{Rpc, PayloadSerdes}

-- `Queue[Msg | Exception]`
pub data Item : Type 0 where
  message : Msg → Item
  failure : Error → Item

-- What `transport.receive` does: it returns bytes, or it raises.
pub data Event : Type 0 where
  received : List ℕ → Event
  raised : Error → Event

-- `called` lists the callbacks that ran with their arguments, and `sent` what went to the transport.
pub record Session (A : Type 0) : Type 0 where
  pub rpcs : List (ℕ × Rpc A)
  pub last_txn : ℕ
  pub q : List Item
  pub listening : Bool
  pub called : List (ℕ × A)
  pub sent : List (List ℕ)

abbrev pub txn_max : ℕ
txn_max = 255

-- `next_txn`, as the new value of `last_txn`
unfoldable pub next_txn : ℕ → ℕ
next_txn last_txn = if leb txn_max last_txn then 1 else last_txn + 1

module _ {A : Type 0} where
  unfoldable pub init : List (ℕ × Rpc A) → Session A
  init rpcs = record { rpcs = rpcs; last_txn = 1; q = []; listening = true; called = []; sent = [] }

  -- `q.put`
  unfoldable pub put : Session A → Item → Session A
  put s item = record s { q = s.q ++ (item ∷ []) }

  -- An exception that leaves `receiver` ends the thread.
  unfoldable pub die : Session A → Session A
  die s = record s { listening = false }

  -- What a callback did, and the loop behind it: an exception ends the thread.
  unfoldable pub proceed : (Session A → Session A) → Result (Unit {0}) × Session A → Session A
  unfolding die
  proceed loop (err e, s) = die s
  proceed loop (ok _, s) = loop s

  -- The subscriber of an RPC at an index.
  unfoldable pub subscriber_at : ℕ → ℕ → Session A → Option ℕ
  subscriber_at rpc_id i s = elim (lookup rpc_id s.rpcs) [
    | none ↦ none
    | some call ↦ get_elem? call.subscribers i
  ]

  -- What `recv_response` makes of the item that it took from the queue.
  unfoldable pub judge : Session A → ℕ → Item → Result Msg
  judge s txn (failure e) = err e
  judge s txn (message msg) =
      if not (has msg.header.rpc_id s.rpcs)
      then err unknown_rpc_id_error
      else if not (msg.header.txn == txn)
      then err unexpected_txn_error
      else ok msg

  -- `self.q.get(timeout=...)`, at the end of the wait.
  unfoldable pub get_item : Session A → ℕ → List Item → Result Msg × Session A
  unfolding judge
  get_item s txn [] = (err request_timeout_error, s)
  get_item s txn (item ∷ rest) = (judge s txn item, record s { q = rest })

-- The code around a session, which is not its own. `run` is what a callback does with its arguments and
-- with the session: it may subscribe, unsubscribe, send and call, and it returns or raises. `growth`
-- bounds how many subscribers a notification gains while its callbacks run. `send` is the transport's:
-- it returns or raises, by what the session sent before.
pub record Environment (A : Type 0) : Type 0 where
  pub run : ℕ → A → Session A → Result (Unit {0}) × Session A
  pub growth : ℕ
  pub send : Session A → List ℕ → Result (Unit {0})

module _ {A : Type 0} (env : Environment A) where
  -- What packing a message gave, handed to the transport.
  unfoldable pub transmit : Session A → ℕ → Result (Msg × List ℕ) → Result ℕ × Session A
  transmit s txn (err e) = (err e, s)
  transmit s txn (ok (m, bytes)) = elim (env.send s bytes) [
    | err e ↦ (err e, s)
    | ok _ ↦ (ok txn, record s { sent = s.sent ++ (bytes ∷ []) })
  ]

  unfoldable pub send_request : Session A → ℕ → List ℕ → Result ℕ × Session A
  unfolding next_txn transmit
  send_request s rpc_id payload =
      let txn = next_txn s.last_txn in
      transmit (record s { last_txn = txn }) txn (Msg.pack (Msg.from_data txn false rpc_id payload))

  -- Notifications go out under the transaction number 0.
  unfoldable pub send_notif : Session A → ℕ → List ℕ → Bool → Result ℕ × Session A
  unfolding transmit
  send_notif s rpc_id payload response =
      transmit s 0 (Msg.pack (Msg.from_data 0 response rpc_id payload))

  unfoldable pub sender : Session A → Msg → Result (Unit {0}) × Session A
  unfolding transmit
  sender s msg = let (r, s') = transmit s 0 (Msg.pack msg) in ((do _ ← r; ok tt), s')

  -- `for sub in call.subscribers: sub(*call.req_serdes.unpack(msg.payload))`, from index `i` on. The
  -- list is the one that `subscribe` and `unsubscribe` change: each round looks at it anew.
  unfoldable pub notify : ℕ → ℕ → ℕ → PayloadSerdes A → List ℕ → Session A → Session A
  unfolding die subscriber_at proceed
  notify zero rpc_id i serdes payload s = s
  notify (suc rounds) rpc_id i serdes payload s = elim (subscriber_at rpc_id i s) [
    | none ↦ s
    | some sub ↦ elim (serdes.unpack payload) [
      | err e ↦ die s
      | ok args ↦
          proceed (notify rounds rpc_id (suc i) serdes payload)
            (env.run sub args (record s { called = s.called ++ ((sub, args) ∷ []) }))
    ]
  ]

  unfoldable pub dispatch : Session A → Msg → Option (Rpc A) → Session A
  unfolding notify put
  dispatch s msg none = put s (failure unknown_rpc_id_error)
  dispatch s msg (some call) =
      if msg.header.txn == 0
      then notify (suc (length call.subscribers + env.growth)) msg.header.rpc_id 0 call.req_serdes
          msg.payload s
      else put s (message msg)

  unfoldable pub take_msg : Session A → Result Msg → Session A
  unfolding die dispatch
  take_msg s (err e) = die s
  take_msg s (ok msg) = dispatch s msg (lookup msg.header.rpc_id s.rpcs)

  -- One round of the loop of `receiver`.
  unfoldable pub receive : Session A → Event → Session A
  unfolding take_msg put
  receive s (raised e) = put s (failure e)
  receive s (received bytes) =
      if ltb (length bytes) 4
      then put s (failure malformed_message_error)
      else take_msg s (Msg.unpack bytes)

  -- The rounds for what arrives, as long as the thread runs.
  unfoldable pub receiver : List Event → Session A → Session A
  unfolding receive
  receiver [] s = s
  receiver (e ∷ es) s = receiver es (if s.listening then receive s e else s)

  -- `waiting` is what arrives until the item is there or the time is up.
  unfoldable pub recv_response : Session A → ℕ → List Event → Result Msg × Session A
  unfolding receiver get_item
  recv_response s txn waiting =
      if not s.listening
      then (err runtime_error, s)
      else (let s' = receiver waiting s in get_item s' txn s'.q)

  unfoldable pub await_response :
      List Event → List Event → Result ℕ × Session A → Result (List ℕ) × Session A
  unfolding recv_response
  await_response early waiting (err e, s) = (err e, s)
  await_response early waiting (ok txn, s) =
      let (r, s') = recv_response (receiver early s) txn waiting in
      ((do msg ← r; ok msg.payload), s')

  -- `rpc`: `early` arrives after the request is sent and before the caller looks at the thread.
  unfoldable pub rpc :
      Session A → ℕ → List ℕ → List Event → List Event → Result (List ℕ) × Session A
  unfolding send_request await_response
  rpc s rpc_id payload early waiting = await_response early waiting (send_request s rpc_id payload)
