-- ===== src/Session/Notifications.antt =====
-- What the listener does with a notification and with an answer.
use compost_rpc.Common.{
  ℕ, zero, suc, ◌+◌, ◌<◌, none, Option, drop, get_elem?, drop-cons, drop-nil, ◌≤◌, ◌≡◌, refl, sym,
  ap, ◌∙◌, subst, true, false, some, List, [], ◌∷◌, ◌++◌, arith, ltb-false, ◌==◌, if◌then◌else◌,
  if-true, length, All, map,
}
use compost_rpc.Common.Result.{ok}
use compost_rpc.Common.Table.{lookup, has, has-lookup}
use compost_rpc.Wire.Msg
use compost_rpc.Wire.Msg.{Msg}
use compost_rpc.Protocol.Rpc.{Rpc, PayloadSerdes}
use compost_rpc.Session.{
  Session, Environment, Event, message, received, put, subscriber_at, proceed, notify, receive,
  receiver,
}
use mathlib.Core.List.{append-nil, append_assoc}

module _ {A : Type 0} (env : Environment A) where
  -- A notification that the protocol knows, whose payload unpacks.
  pub record Notice (rpcs : List (ℕ × Rpc A)) (e : Event) : Type 0 where
    pub bytes : List ℕ
    pub is_event : e ≡ received bytes
    pub long : 4 ≤ length bytes
    pub msg : Msg
    pub parsed : Msg.unpack bytes ≡ ok msg
    pub no_txn : msg.header.txn ≡ 0
    pub call : Rpc A
    pub known : lookup msg.header.rpc_id rpcs ≡ some call
    pub args : A
    pub unpacked : call.req_serdes.unpack msg.payload ≡ ok args

  -- A callback that returns and leaves the session alone.
  unfoldable pub IsQuiet : A → ℕ → Type 0
  IsQuiet args sub = (t : Session A) → env.run sub args t ≡ (ok tt, t)

  -- A notification whose callbacks are all quiet.
  pub record Notification (rpcs : List (ℕ × Rpc A)) (e : Event) : Type 0 where
    pub notice : Notice rpcs e
    pub returns : All (IsQuiet notice.args) notice.call.subscribers

  subscriber_at-lookup :
      (rpc_id i : ℕ) (s : Session A) (call : Rpc A) (found : Option ℕ)
      → lookup rpc_id s.rpcs ≡ some call
      → get_elem? call.subscribers i ≡ found
      → subscriber_at rpc_id i s ≡ found
  unfolding subscriber_at
  subscriber_at-lookup rpc_id i s call found known here = rw (subscriber_at, known) here

  -- One round of the loop, with a callback that returns.
  notify_round :
      (rounds rpc_id i sub : ℕ) (serdes : PayloadSerdes A) (payload : List ℕ) (args : A)
      (s t : Session A)
      → subscriber_at rpc_id i s ≡ some sub
      → serdes.unpack payload ≡ ok args
      → env.run sub args (record s { called = s.called ++ ((sub, args) ∷ []) }) ≡ (ok tt, t)
      → notify env (suc rounds) rpc_id i serdes payload s
        ≡ notify env rounds rpc_id (suc i) serdes payload t
  unfolding notify proceed
  notify_round rounds rpc_id i sub serdes payload args s t here good runs =
      rw (notify, here, good) (ap (proceed (notify env rounds rpc_id (suc i) serdes payload)) runs)

  -- From an index on, every subscriber is called once, in the order of subscription. As many rounds as
  -- there are subscribers left, and one more, are enough.
  pub notify_all :
      (rounds rpc_id i : ℕ) (call : Rpc A) (subs : List ℕ) (serdes : PayloadSerdes A)
      (payload : List ℕ) (args : A) (s : Session A)
      → lookup rpc_id s.rpcs ≡ some call
      → drop i call.subscribers ≡ subs
      → serdes.unpack payload ≡ ok args
      → All (IsQuiet args) subs
      → length subs < rounds
      → notify env rounds rpc_id i serdes payload s
        ≡ record s { called = s.called ++ map (λ sub. (sub, args)) subs }
  unfolding notify IsQuiet
  notify_all zero rpc_id i call subs serdes payload args s known left good h fuel = elim fuel [ ]
  notify_all (suc rounds) rpc_id i call [] serdes payload args s known left good h fuel =
      let gone =
        subscriber_at-lookup rpc_id i s call none known (drop-nil call.subscribers i left) in
      rw (notify, gone) (ap (λ c. record s { called = c }) (sym (append-nil s.called)))
  notify_all (suc rounds) rpc_id i call (sub ∷ subs) serdes payload args s known left good h fuel =
      let (here, behind) = drop-cons call.subscribers i sub subs left in
      let t : Session A = record s { called = s.called ++ ((sub, args) ∷ []) } in
      let found = subscriber_at-lookup rpc_id i s call (some sub) known here in
      notify_round rounds rpc_id i sub serdes payload args s t found good (h.0 t)
      ∙ notify_all rounds rpc_id (suc i) call subs serdes payload args t known behind good h.1
          (omega (arith, fuel))
      ∙ ap (λ c. record s { called = c }) (append_assoc s.called _ _)

  -- What the listener does with a notification, up to the loop over the subscribers.
  pub receive-Notice :
      (s : Session A) (e : Event) (n : Notice s.rpcs e)
      → receive env s e
        ≡ notify env
            (suc (length n.call.subscribers + env.growth))
            n.msg.header.rpc_id
            0
            n.call.req_serdes
            n.msg.payload
            s
  unfolding receive
  receive-Notice s e n =
      rw (n.is_event, receive, ltb-false (length n.bytes) 4 n.long, n.parsed, n.known, n.no_txn)
        refl

  -- A notification whose payload unpacks, and whose callbacks return and leave the session alone, calls
  -- every subscriber once, in the order of subscription, with the unpacked arguments, and leaves the
  -- rest of the session as it is.
  pub receive_notification :
      (s : Session A) (e : Event) (n : Notification s.rpcs e)
      → receive env s e ≡ record s {
        called = s.called ++ map (λ sub. (sub, n.notice.args)) n.notice.call.subscribers;
      }
  receive_notification s e n =
      let m = n.notice in
      receive-Notice s e m
      ∙ notify_all (suc (length m.call.subscribers + env.growth)) m.msg.header.rpc_id 0 m.call
          m.call.subscribers m.call.req_serdes m.msg.payload m.args s m.known refl m.unpacked
          n.returns (omega arith)

  -- An answer that the caller of request `txn` takes.
  pub record Answer (rpcs : List (ℕ × Rpc A)) (txn : ℕ) (bytes : List ℕ) (msg : Msg) : Type 0 where
    pub long : 4 ≤ length bytes
    pub parsed : Msg.unpack bytes ≡ ok msg
    pub same_txn : msg.header.txn ≡ txn
    pub known : has msg.header.rpc_id rpcs ≡ true

  pub receive_answer :
      (s : Session A) (txn : ℕ) (bytes : List ℕ) (msg : Msg)
      → 1 ≤ txn
      → Answer s.rpcs txn bytes msg
      → receive env s (received bytes) ≡ put s (message msg)
  unfolding receive
  receive_answer s txn bytes msg pos a =
      let (call, found) = has-lookup msg.header.rpc_id s.rpcs a.known in
      rw (ltb-false (length bytes) 4 a.long, a.parsed, found, a.same_txn, numbered) refl
    where
      numbered : (txn == 0) ≡ false
      numbered = ground arith

  -- Notifications with quiet callbacks leave everything but the record of the callbacks.
  pub record Undisturbed (s t : Session A) : Type 0 where
    pub rpcs : t.rpcs ≡ s.rpcs
    pub last_txn : t.last_txn ≡ s.last_txn
    pub q : t.q ≡ s.q
    pub listening : t.listening ≡ s.listening
    pub sent : t.sent ≡ s.sent

  pub receiver_notifications :
      (es : List Event) (s : Session A)
      → s.listening ≡ true
      → All (Notification s.rpcs) es
      → Undisturbed s (receiver env es s)
  unfolding receiver
  receiver_notifications [] s on h = record {
    rpcs = refl;
    last_txn = refl;
    q = refl;
    listening = refl;
    sent = refl;
  }
  receiver_notifications (e ∷ es) s on h =
      let t : Session A = record s {
        called = s.called ++ map (λ sub. (sub, h.0.notice.args)) h.0.notice.call.subscribers;
      } in
      let rest = receiver_notifications es t on h.1 in
      let step : (if s.listening then receive env s e else s) ≡ t =
        if-true s.listening _ _ on ∙ receive_notification s e h.0 in
      subst (λ x. Undisturbed s (receiver env es x)) (sym step)
        (record {
          rpcs = rest.rpcs;
          last_txn = rest.last_txn;
          q = rest.q;
          listening = rest.listening;
          sent = rest.sent;
        })
