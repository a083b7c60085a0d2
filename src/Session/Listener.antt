-- ===== src/Session/Listener.antt =====
-- What the listener thread does to a session, whatever arrives.
use compost_rpc.Common.{
  ℕ, zero, suc, ◌+◌, Option-cases, ◌≡◌, refl, sym, ap, ◌∙◌, Bool, true, false, Option, none, some,
  List, [], ◌∷◌, ◌++◌, ltb, ◌==◌, if◌then◌else◌, length, inl, inr,
}
use compost_rpc.Common.Result.{
  Result, ok, err, Result-cases, unknown_rpc_id_error, malformed_message_error,
}
use compost_rpc.Common.Table.{lookup, has}
use compost_rpc.Wire.Msg
use compost_rpc.Wire.Msg.{Msg}
use compost_rpc.Protocol.Rpc.{Rpc, PayloadSerdes}
use compost_rpc.Session.{
  Session, Environment, Item, Event, message, failure, received, raised, put, die, subscriber_at,
  proceed, notify, dispatch, take_msg, receive, receiver,
}
use mathlib.Core.List.{append-nil, append_assoc}

-- `t` is `s` after the listener ran: it knows the same ids, and its queue has only got longer at the end.
pub record Later {A : Type 0} (s t : Session A) : Type 0 where
  pub ids : (k : ℕ) → has k t.rpcs ≡ has k s.rpcs
  pub added : List Item
  pub q : t.q ≡ s.q ++ added

module _ {A : Type 0} where
  pub Later-refl : (s : Session A) → Later s s
  Later-refl s = record { ids = λ k. refl; added = []; q = sym (append-nil s.q) }

  pub Later-trans : {s t u : Session A} → Later s t → Later t u → Later s u
  Later-trans {s} f g = record {
    ids = λ k. g.ids k ∙ f.ids k;
    added = f.added ++ g.added;
    q = g.q ∙ ap (λ l. l ++ g.added) f.q ∙ append_assoc s.q f.added g.added;
  }

  Later-put : (s : Session A) (item : Item) → Later s (put s item)
  unfolding put
  Later-put s item = record { ids = λ k. refl; added = item ∷ []; q = refl }

  Later-state :
      (s : Session A) (b : Bool) (c : List (ℕ × A))
      → Later s (record s { listening = b; called = c })
  Later-state s b c = record { ids = λ k. refl; added = []; q = sym (append-nil s.q) }

  Later-die : (s : Session A) → Later s (die s)
  unfolding die
  Later-die s = Later-state s false s.called

  Later-if : (b : Bool) {s x y : Session A} → Later s x → Later s y → Later s (if b then x else y)
  Later-if true f g = f
  Later-if false f g = g

module _ {A : Type 0} (env : Environment A) where
  -- Callbacks that make no call of their own: they take nothing from the queue, and register no RPC. They
  -- may subscribe, unsubscribe, send notifications, return and raise.
  unfoldable pub IsTame : Type 0
  IsTame = (sub : ℕ) (args : A) (t : Session A) → Later t (env.run sub args t).1

module _ {A : Type 0} (env : Environment A) (tame : IsTame env) where
  Later-proceed :
      {s : Session A} (loop : Session A → Session A)
      → ((t : Session A) → Later t (loop t))
      → (r : Result (Unit {0}) × Session A) → Later s r.1
      → Later s (proceed loop r)
  unfolding proceed
  Later-proceed loop f (ok u, t) g = Later-trans g (f t)
  Later-proceed loop f (err e, t) g = Later-trans g (Later-die t)

  Later-notify :
      (rounds rpc_id i : ℕ) (serdes : PayloadSerdes A) (payload : List ℕ) (s : Session A)
      → Later s (notify env rounds rpc_id i serdes payload s)
  unfolding notify IsTame
  Later-notify zero rpc_id i serdes payload s = Later-refl s
  Later-notify (suc rounds) rpc_id i serdes payload s =
      elim (Option-cases (subscriber_at rpc_id i s)) [
        | inl none_left ↦ rw (notify, none_left) (Later-refl s)
        | inr (sub, here) ↦ elim (Result-cases (serdes.unpack payload)) [
          | inr (e, bad) ↦ rw (notify, here, bad) (Later-die s)
          | inl (args, good) ↦
              let t : Session A = record s { called = s.called ++ ((sub, args) ∷ []) } in
              let step = Later-trans (Later-state s s.listening t.called) (tame sub args t) in
              rw (notify, here, good)
                (Later-proceed (notify env rounds rpc_id (suc i) serdes payload)
                  (Later-notify rounds rpc_id (suc i) serdes payload) (env.run sub args t) step)
        ]
      ]

  Later-dispatch : (s : Session A) (msg : Msg) (o : Option (Rpc A)) → Later s (dispatch env s msg o)
  unfolding dispatch
  Later-dispatch s msg none = Later-put s (failure unknown_rpc_id_error)
  Later-dispatch s msg (some call) =
      Later-if (msg.header.txn == 0)
        (Later-notify (suc (length call.subscribers + env.growth)) msg.header.rpc_id 0
          call.req_serdes msg.payload s)
        (Later-put s (message msg))

  Later-take_msg : (s : Session A) (r : Result Msg) → Later s (take_msg env s r)
  unfolding take_msg
  Later-take_msg s (err e) = Later-die s
  Later-take_msg s (ok msg) = Later-dispatch s msg (lookup msg.header.rpc_id s.rpcs)

  pub Later-receive : (s : Session A) (e : Event) → Later s (receive env s e)
  unfolding receive
  Later-receive s (raised e) = Later-put s (failure e)
  Later-receive s (received bytes) =
      Later-if (ltb (length bytes) 4) (Later-put s (failure malformed_message_error))
        (Later-take_msg s (Msg.unpack bytes))

  -- Whatever arrives, while the callbacks make no calls, the listener only adds items at the end of the
  -- queue, and the session knows the same ids.
  pub Later-receiver : (es : List Event) (s : Session A) → Later s (receiver env es s)
  unfolding receiver
  Later-receiver [] s = Later-refl s
  Later-receiver (e ∷ es) s =
      Later-trans (Later-if s.listening (Later-receive s e) (Later-refl s)) (Later-receiver es _)
