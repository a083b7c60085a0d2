-- ===== src/Session/Stale.antt =====
-- Successions of calls: with an empty queue, and with the late answer to a call that timed out in it.
use compost_rpc.Common.{
  ℕ, ◌≡◌, ◌≢◌, refl, sym, ap, ◌∙◌, subst, true, false, List, [], ◌∷◌, ◌++◌, ◌==◌, arith, All,
}
use compost_rpc.Common.Result.{Result, ok, err, ◌>>=◌, unexpected_txn_error, request_timeout_error}
use compost_rpc.Common.Table.{has}
use compost_rpc.Wire.Msg.{Msg}
use compost_rpc.Session.{
  Session, Environment, Event, message, received, put, receiver, next_txn, get_item, judge, rpc,
}
use compost_rpc.Session.Txn.{next_txn_range}
use compost_rpc.Session.Notifications.{Notification, Answer, receiver_notifications, receive_answer}
use compost_rpc.Session.Answers.{
  Request, sent_session, payload_of, rpc_waits, answer_arrives, get_first, judge_answer,
  receiver-listening,
}

module _ {A : Type 0} (env : Environment A) where
  -- One call: the notifications that arrive before its answer, and the answer.
  pub record Exchange (s : Session A) : Type 0 where
    pub rpc_id : ℕ
    pub payload : List ℕ
    pub goes_out : Request env s rpc_id payload
    pub early : List Event
    pub mid : List Event
    pub bytes : List ℕ
    pub msg : Msg
    pub before : All (Notification env s.rpcs) early
    pub between : All (Notification env s.rpcs) mid
    pub answer : Answer env s.rpcs (next_txn s.last_txn) bytes msg

  pub call : (s : Session A) → Exchange s → Result (List ℕ) × Session A
  call s x = rpc env s x.rpc_id x.payload x.early (x.mid ++ (received x.bytes ∷ []))

  -- The session `t` when the wait is over.
  record Waited (s : Session A) (x : Exchange s) : Type 0 where
    pub t : Session A
    pub out : call s x ≡ payload_of (get_item t (next_txn s.last_txn) t.q)
    pub q : t.q ≡ s.q ++ (message x.msg ∷ [])
    pub rpcs : t.rpcs ≡ s.rpcs
    pub last_txn : t.last_txn ≡ next_txn s.last_txn
    pub listening : t.listening ≡ true

  waited : (s : Session A) (x : Exchange s) → s.listening ≡ true → Waited s x
  unfolding call sent_session put receiver
  waited s x on =
      let s0 : Session A = sent_session s x.rpc_id x.payload in
      let s1 : Session A = receiver env x.early s0 in
      let q1 = receiver_notifications env x.early s0 on x.before in
      let on1 : s1.listening ≡ true = q1.listening ∙ on in
      let between1 = subst (λ r. All (Notification env r) x.mid) (sym q1.rpcs) x.between in
      let a1 =
        subst (λ r. Answer env r (next_txn s.last_txn) x.bytes x.msg) (sym q1.rpcs) x.answer in
      let q2 = receiver_notifications env x.mid s1 on1 between1 in
      record {
        t = put (receiver env x.mid s1) (message x.msg);
        out =
            rpc_waits env s x.rpc_id x.payload x.early (x.mid ++ (received x.bytes ∷ [])) x.goes_out
              on1
            ∙ ap (λ u. payload_of (get_item u (next_txn s.last_txn) u.q))
                (answer_arrives env s1 (next_txn s.last_txn) x.mid x.bytes x.msg [] on1
                  (next_txn_range s.last_txn).0 between1 a1);
        q = ap (λ l. l ++ (message x.msg ∷ [])) (q2.q ∙ q1.q);
        rpcs = q2.rpcs ∙ q1.rpcs;
        last_txn = q2.last_txn ∙ q1.last_txn;
        listening = q2.listening ∙ on1;
      }

  -- No answer is outstanding.
  pub record Idle (s : Session A) : Type 0 where
    pub listening : s.listening ≡ true
    pub q : s.q ≡ []

  -- The queue holds one answer, which is not the answer to the next request.
  pub record Behind (s : Session A) : Type 0 where
    pub listening : s.listening ≡ true
    pub old : Msg
    pub q : s.q ≡ message old ∷ []
    pub known : has old.header.rpc_id s.rpcs ≡ true
    pub other : old.header.txn ≢ next_txn s.last_txn

  call_Idle :
      (s : Session A) (x : Exchange s)
      → Idle s
      → ((call s x).0 ≡ ok x.msg.payload) × Idle (call s x).1
  unfolding payload_of
  call_Idle s x idle =
      let w = waited s x idle.listening in
      let a = ap (has x.msg.header.rpc_id) w.rpcs ∙ x.answer.known in
      let first =
        get_first env w.t (next_txn s.last_txn) (message x.msg) []
          (w.q ∙ ap (λ l. l ++ (message x.msg ∷ [])) idle.q) in
      let out = w.out ∙ ap payload_of first in
      (
        ap (λ o. o.0) out
            ∙ ap (λ r. do m ← r; ok m.payload)
                (judge_answer env w.t (next_txn s.last_txn) x.msg a x.answer.same_txn),
        subst Idle (sym (ap (λ o. o.1) out)) (record { listening = w.listening; q = refl }),
      )

  judge_other :
      (s : Session A) (txn : ℕ) (old : Msg)
      → has old.header.rpc_id s.rpcs ≡ true
      → old.header.txn ≢ txn
      → judge s txn (message old) ≡ err unexpected_txn_error
  unfolding judge
  judge_other s txn old known other = rw (known, differs) refl
    where
      differs : (old.header.txn == txn) ≡ false
      differs = ground (arith, other)

  call_Behind :
      (s : Session A) (x : Exchange s)
      → Behind s
      → ((call s x).0 ≡ err unexpected_txn_error) × Behind (call s x).1
  unfolding payload_of
  call_Behind s x late =
      let txn : ℕ = next_txn s.last_txn in
      let w = waited s x late.listening in
      let first =
        get_first env w.t txn (message late.old) (message x.msg ∷ [])
          (w.q ∙ ap (λ l. l ++ (message x.msg ∷ [])) late.q) in
      let out = w.out ∙ ap payload_of first in
      let known = subst (λ r. has late.old.header.rpc_id r ≡ true) (sym w.rpcs) late.known in
      (
        ap (λ o. o.0) out
            ∙ ap (λ r. do m ← r; ok m.payload) (judge_other w.t txn late.old known late.other),
        subst Behind (sym (ap (λ o. o.1) out)) (record {
          listening = w.listening;
          old = x.msg;
          q = refl;
          known = subst (λ r. has x.msg.header.rpc_id r ≡ true) (sym w.rpcs) x.answer.known;
          other = λ e.
              (next_txn_range txn).2 (next_txn_range s.last_txn).0
                (sym (ap next_txn w.last_txn) ∙ sym e ∙ x.answer.same_txn);
        }),
      )

  -- Calls one after the other, each answered while it waits: the payloads of the answers and what the
  -- calls return.
  pub data Calls : Session A → List (List ℕ × Result (List ℕ)) → Session A → Type 0 where
    done : {s : Session A} → Calls s [] s
    next :
        {s t : Session A} {rs : List (List ℕ × Result (List ℕ))} (x : Exchange s)
        → Calls (call s x).1 rs t
        → Calls s ((x.msg.payload, (call s x).0) ∷ rs) t

  -- In a session that listens with an empty queue, each of a succession of calls whose requests go
  -- out, and that are answered while they wait, with nothing but notifications with quiet callbacks
  -- before the answer, returns the payload of its own answer, and the queue is empty at the end.
  pub Calls-answered :
      (s t : Session A) (rs : List (List ℕ × Result (List ℕ)))
      → Idle s
      → Calls s rs t
      → All (λ (p, r). r ≡ ok p) rs × Idle t
  Calls-answered s t rs idle done = (tt, idle)
  Calls-answered s t rs idle (next x more) =
      let (here, idle') = call_Idle s x idle in
      let (later, end) = Calls-answered _ t _ idle' more in ((here, later), end)

  -- Once the queue holds an answer to an earlier request, every call of a succession fails with
  -- `UnexpectedTxnError`, although each goes out and is answered while it waits, with nothing but
  -- notifications with quiet callbacks before the answer, and the queue again holds an
  -- answer to an earlier request at the end.
  pub Calls-late :
      (s t : Session A) (rs : List (List ℕ × Result (List ℕ)))
      → Behind s
      → Calls s rs t
      → All (λ (p, r). r ≡ err unexpected_txn_error) rs × Behind t
  Calls-late s t rs late done = (tt, late)
  Calls-late s t rs late (next x more) =
      let (here, late') = call_Behind s x late in
      let (later, end) = Calls-late _ t _ late' more in ((here, later), end)

  -- While a session listens and its queue is empty, a call whose payload is at most 1020 bytes long and
  -- whose request the transport sends raises the timeout error, if nothing but notifications with quiet
  -- callbacks arrives until the time is up; when its answer arrives after that, the queue holds an
  -- answer to an earlier request.
  pub rpc_timeout :
      (s : Session A) (rpc_id : ℕ) (payload : List ℕ) (early waiting : List Event) (bytes : List ℕ)
      (msg : Msg)
      → Idle s
      → Request env s rpc_id payload
      → All (Notification env s.rpcs) early
      → All (Notification env s.rpcs) waiting
      → Answer env s.rpcs (next_txn s.last_txn) bytes msg
      → ((rpc env s rpc_id payload early waiting).0 ≡ err request_timeout_error)
        × Behind (receiver env (received bytes ∷ []) (rpc env s rpc_id payload early waiting).1)
  unfolding sent_session payload_of get_item put receiver
  rpc_timeout s rpc_id payload early waiting bytes msg idle fits before during a =
      let txn : ℕ = next_txn s.last_txn in
      let s0 : Session A = sent_session s rpc_id payload in
      let s1 : Session A = receiver env early s0 in
      let q1 = receiver_notifications env early s0 idle.listening before in
      let on1 : s1.listening ≡ true = q1.listening ∙ idle.listening in
      let during1 = subst (λ r. All (Notification env r) waiting) (sym q1.rpcs) during in
      let q2 = receiver_notifications env waiting s1 on1 during1 in
      let t : Session A = receiver env waiting s1 in
      let a2 = subst (λ r. Answer env r txn bytes msg) (sym (q2.rpcs ∙ q1.rpcs)) a in
      let empty : t.q ≡ [] = q2.q ∙ q1.q ∙ idle.q in
      let out =
        rpc_waits env s rpc_id payload early waiting fits on1
        ∙ ap (λ l. payload_of (get_item t txn l)) empty in
      let arrives =
        receiver-listening env (received bytes) [] t (q2.listening ∙ on1)
        ∙ receive_answer env t txn bytes msg (next_txn_range s.last_txn).0 a2 in
      (
        ap (λ o. o.0) out,
        subst (λ u. Behind (receiver env (received bytes ∷ []) u)) (sym (ap (λ o. o.1) out))
            (subst Behind (sym arrives) (record {
              listening = q2.listening ∙ on1;
              old = msg;
              q = ap (λ l. l ++ (message msg ∷ [])) empty;
              known = a2.known;
              other = λ e.
                  (next_txn_range txn).2 (next_txn_range s.last_txn).0
                    (sym (ap next_txn (q2.last_txn ∙ q1.last_txn)) ∙ sym e ∙ a2.same_txn);
            })),
      )
