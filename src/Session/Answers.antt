-- ===== src/Session/Answers.antt =====
-- Calls that are answered, with notifications in between.
use compost_rpc.Common.{
  ℕ, ◌≤◌, ◌<◌, ◌≡◌, refl, sym, ap, ◌∙◌, subst, true, false, not, List, [], ◌∷◌, ◌++◌, arith, ltb,
  lt→ltb, ltb-false, ==_refl, if◌then◌else◌, if-true, if-false, length, All,
}
use compost_rpc.Common.Result.{
  Error, malformed_message_error, unknown_rpc_id_error, Result, err, ok, ◌>>=◌,
}
use compost_rpc.Wire.Msg
use compost_rpc.Wire.Msg.{Msg}
use compost_rpc.Protocol.Rpc.{Rpc}
use compost_rpc.Common.Table.{has, has-none}
use compost_rpc.Wire.MsgLaws.{pack-from_data, on_wire, filler}
use compost_rpc.Wire.HeaderLaws.{header_bytes}
use compost_rpc.Session.{
  Session, Environment, Item, Event, message, failure, received, raised, put, receive, receiver,
  next_txn, await_response, transmit, send_request, get_item, judge, recv_response, rpc,
}
use compost_rpc.Session.Txn.{next_txn_range}
use compost_rpc.Session.Listener.{IsTame, Later-receiver}
use compost_rpc.Session.Notifications.{Notification, Answer, receive_answer, receiver_notifications}

module _ {A : Type 0} where
  -- The message that a request goes out as, and the session that sent it.
  pub request_bytes : Session A → ℕ → List ℕ → List ℕ
  request_bytes s rpc_id payload =
      header_bytes (on_wire (next_txn s.last_txn) false rpc_id payload)
      ++ (payload ++ filler payload)

  unfoldable pub sent_session : Session A → ℕ → List ℕ → Session A
  sent_session s rpc_id payload = record s {
    last_txn = next_txn s.last_txn;
    sent = s.sent ++ (request_bytes s rpc_id payload ∷ []);
  }

  unfoldable pub payload_of : Result Msg × Session A → Result (List ℕ) × Session A
  payload_of (r, s) = ((do msg ← r; ok msg.payload), s)

module _ {A : Type 0} (env : Environment A) where
  -- A request that goes out: its payload fits a message, and the transport sends it.
  pub record Request (s : Session A) (rpc_id : ℕ) (payload : List ℕ) : Type 0 where
    pub fits : length payload ≤ 1020
    pub goes_out :
        env.send (record s { last_txn = next_txn s.last_txn }) (request_bytes s rpc_id payload)
        ≡ ok tt

  send_lem :
      (s : Session A) (rpc_id : ℕ) (payload : List ℕ)
      → Request s rpc_id payload
      → send_request env s rpc_id payload
        ≡ (ok (next_txn s.last_txn), sent_session s rpc_id payload)
  unfolding send_request transmit sent_session request_bytes
  send_lem s rpc_id payload r =
      rw
        (
          pack-from_data (next_txn s.last_txn) false rpc_id payload small r.fits,
          transmit,
          r.goes_out,
        )
        refl
    where
      small : next_txn s.last_txn < 256
      small = omega (arith, next_txn_range s.last_txn)

  recv_lem :
      (s : Session A) (txn : ℕ) (waiting : List Event)
      → s.listening ≡ true
      → recv_response env s txn waiting
        ≡ get_item (receiver env waiting s) txn (receiver env waiting s).q
  unfolding recv_response
  recv_lem s txn waiting on = if-false (not s.listening) _ _ (ap not on)

  -- What `rpc` comes to while the thread is running.
  pub rpc_waits :
      (s : Session A) (rpc_id : ℕ) (payload : List ℕ) (early waiting : List Event)
      → Request s rpc_id payload
      → (receiver env early (sent_session s rpc_id payload)).listening ≡ true
      → rpc env s rpc_id payload early waiting ≡ (
          let t = receiver env waiting (receiver env early (sent_session s rpc_id payload)) in
          payload_of (get_item t (next_txn s.last_txn) t.q))
  unfolding rpc payload_of
  rpc_waits s rpc_id payload early waiting fits on =
      ap (await_response env early waiting) (send_lem s rpc_id payload fits)
      ∙ ap payload_of (recv_lem _ (next_txn s.last_txn) waiting on)

  receiver-append :
      (es fs : List Event) (s : Session A)
      → receiver env (es ++ fs) s ≡ receiver env fs (receiver env es s)
  unfolding receiver
  receiver-append [] fs s = refl
  receiver-append (e ∷ es) fs s = receiver-append es fs (if s.listening then receive env s e else s)

  pub receiver-listening :
      (e : Event) (es : List Event) (s : Session A)
      → s.listening ≡ true
      → receiver env (e ∷ es) s ≡ receiver env es (receive env s e)
  unfolding receiver
  receiver-listening e es s on = ap (receiver env es) (if-true s.listening _ _ on)

  -- What the listener does up to an event that puts `item` into the queue.
  pub item_arrives :
      (s : Session A) (mid : List Event) (e : Event) (item : Item) (behind : List Event)
      → s.listening ≡ true
      → All (Notification env s.rpcs) mid
      → ((t : Session A) → t.rpcs ≡ s.rpcs → receive env t e ≡ put t item)
      → receiver env (mid ++ (e ∷ behind)) s ≡ receiver env behind (put (receiver env mid s) item)
  item_arrives s mid e item behind on between puts =
      let quiet = receiver_notifications env mid s on between in
      receiver-append mid (e ∷ behind) s
      ∙ receiver-listening e behind (receiver env mid s) (quiet.listening ∙ on)
      ∙ ap (receiver env behind) (puts _ quiet.rpcs)

  pub answer_arrives :
      (s : Session A) (txn : ℕ) (mid : List Event) (bytes : List ℕ) (msg : Msg)
      (behind : List Event)
      → s.listening ≡ true
      → 1 ≤ txn
      → All (Notification env s.rpcs) mid
      → Answer env s.rpcs txn bytes msg
      → receiver env (mid ++ (received bytes ∷ behind)) s
        ≡ receiver env behind (put (receiver env mid s) (message msg))
  answer_arrives s txn mid bytes msg behind on pos between a =
      item_arrives s mid (received bytes) (message msg) behind on between (λ t same.
        receive_answer env t txn bytes msg pos
          (subst (λ r. Answer env r txn bytes msg) (sym same) a))

  -- The caller takes the first item of the queue.
  pub get_first :
      (s : Session A) (txn : ℕ) (item : Item) (rest : List Item)
      → s.q ≡ item ∷ rest
      → get_item s txn s.q ≡ (judge s txn item, record s { q = rest })
  unfolding get_item
  get_first s txn item rest e = ap (get_item s txn) e

  pub judge_answer :
      (s : Session A) (txn : ℕ) (msg : Msg)
      → has msg.header.rpc_id s.rpcs ≡ true
      → msg.header.txn ≡ txn
      → judge s txn (message msg) ≡ ok msg
  unfolding judge
  judge_answer s txn msg known same = rw (known, same, ==_refl txn) refl

  -- A call takes the first item that is put into its empty queue.
  pub rpc_takes :
      IsTame env
      → (s : Session A) (rpc_id : ℕ) (payload : List ℕ) (early mid : List Event) (e : Event)
        (item : Item) (behind : List Event)
      → s.listening ≡ true
      → s.q ≡ []
      → Request s rpc_id payload
      → All (Notification env s.rpcs) early
      → All (Notification env s.rpcs) mid
      → ((t : Session A) → t.rpcs ≡ s.rpcs → receive env t e ≡ put t item)
      → (u : Session A) × ((k : ℕ) → has k u.rpcs ≡ has k s.rpcs)
        × ((rpc env s rpc_id payload early (mid ++ (e ∷ behind))).0
            ≡ (payload_of (judge u (next_txn s.last_txn) item, u)).0)
  unfolding sent_session payload_of put
  rpc_takes tame s rpc_id payload early mid e item behind on empty fits before between puts =
      let txn : ℕ = next_txn s.last_txn in
      let s0 : Session A = sent_session s rpc_id payload in
      let s1 : Session A = receiver env early s0 in
      let q1 = receiver_notifications env early s0 on before in
      let on1 : s1.listening ≡ true = q1.listening ∙ on in
      let between1 = subst (λ r. All (Notification env r) mid) (sym q1.rpcs) between in
      let q2 = receiver_notifications env mid s1 on1 between1 in
      let later = Later-receiver env tame behind (put (receiver env mid s1) item) in
      let t : Session A = receiver env behind (put (receiver env mid s1) item) in
      let queue : t.q ≡ item ∷ later.added =
        later.q ∙ ap (λ l. (l ++ (item ∷ [])) ++ later.added) (q2.q ∙ q1.q ∙ empty) in
      (
        t,
        λ k. later.ids k ∙ ap (has k) (q2.rpcs ∙ q1.rpcs),
        ap (λ x. x.0)
            (rpc_waits s rpc_id payload early (mid ++ (e ∷ behind)) fits on1
              ∙ ap (λ u. payload_of (get_item u txn u.q))
                  (item_arrives s1 mid e item behind on1 between1
                    (λ u same. puts u (same ∙ q1.rpcs)))
              ∙ ap payload_of (get_first t txn item later.added queue)),
      )

  -- While a session listens and its queue is empty, a call whose request goes out returns the payload
  -- of the first answer to it, whatever notifications with quiet callbacks arrive before that answer,
  -- and whatever arrives behind it, where callbacks make no calls.
  pub rpc_answered :
      IsTame env
      → (s : Session A) (rpc_id : ℕ) (payload : List ℕ) (early mid behind : List Event)
        (bytes : List ℕ) (msg : Msg)
      → s.listening ≡ true
      → s.q ≡ []
      → Request s rpc_id payload
      → All (Notification env s.rpcs) early
      → All (Notification env s.rpcs) mid
      → Answer env s.rpcs (next_txn s.last_txn) bytes msg
      → (rpc env s rpc_id payload early (mid ++ (received bytes ∷ behind))).0 ≡ ok msg.payload
  unfolding payload_of
  rpc_answered tame s rpc_id payload early mid behind bytes msg on empty fits before between a =
      let txn : ℕ = next_txn s.last_txn in
      let (u, same, out) =
        rpc_takes tame s rpc_id payload early mid (received bytes) (message msg) behind on empty
          fits before between
          (λ t eq.
            receive_answer env t txn bytes msg (next_txn_range s.last_txn).0
              (subst (λ r. Answer env r txn bytes msg) (sym eq) a)) in
      out
      ∙ ap (λ r. do m ← r; ok m.payload)
          (judge_answer u txn msg (same msg.header.rpc_id ∙ a.known) a.same_txn)

  -- What the listener reports to the caller as an error.
  pub data Refused (rpcs : List (ℕ × Rpc A)) : Event → Error → Type 0 where
    transport : (e : Error) → Refused rpcs (raised e) e
    short :
        (bytes : List ℕ) → length bytes < 4 → Refused rpcs (received bytes) malformed_message_error
    unknown :
        (bytes : List ℕ) (msg : Msg)
        → 4 ≤ length bytes
        → Msg.unpack bytes ≡ ok msg
        → has msg.header.rpc_id rpcs ≡ false
        → Refused rpcs (received bytes) unknown_rpc_id_error

  receive-Refused :
      (s : Session A) (e : Event) (error : Error)
      → Refused s.rpcs e error
      → receive env s e ≡ put s (failure error)
  unfolding receive
  receive-Refused s e error (transport x) = refl
  receive-Refused s e error (short bytes h) = if-true (ltb (length bytes) 4) _ _ (lt→ltb _ 4 h)
  receive-Refused s e error (unknown bytes msg long parsed absent) =
      rw (ltb-false (length bytes) 4 long, parsed, has-none msg.header.rpc_id s.rpcs absent) refl

  -- While a session listens and its queue is empty, the first thing that arrives for a call whose
  -- request goes out, and is no notification with quiet callbacks, may also be an exception of the
  -- transport, fewer than four bytes, or a message with an id outside the protocol: the call raises that
  -- exception, MalformedMessageError or UnknownRpcIdError, where callbacks make no calls.
  pub rpc-Refused :
      IsTame env
      → (s : Session A) (rpc_id : ℕ) (payload : List ℕ) (early mid behind : List Event) (e : Event)
        (error : Error)
      → s.listening ≡ true
      → s.q ≡ []
      → Request s rpc_id payload
      → All (Notification env s.rpcs) early
      → All (Notification env s.rpcs) mid
      → Refused s.rpcs e error
      → (rpc env s rpc_id payload early (mid ++ (e ∷ behind))).0 ≡ err error
  unfolding payload_of judge
  rpc-Refused tame s rpc_id payload early mid behind e error on empty fits before between refused =
      let (u, same, out) =
        rpc_takes tame s rpc_id payload early mid e (failure error) behind on empty fits before
          between
          (λ t eq. receive-Refused t e error (subst (λ r. Refused r e error) (sym eq) refused)) in
      out
