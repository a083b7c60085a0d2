-- ===== src/Session/Runs.antt =====
-- A session of a protocol with one call and one notification.
use compost_rpc.Common.{
  ℕ, ◌≤◌, length, ◌==◌, if◌then◌else◌, ◌≡◌, refl, sym, subst, true, false, some, List, [], ◌∷◌,
  ◌++◌, arith, All, map,
}
use compost_rpc.Common.BigEndian.{be_value}
use compost_rpc.Common.Result.{
  Result, ok, err, request_timeout_error, unexpected_txn_error, malformed_message_error,
}
use compost_rpc.Common.Table.{lookup, has, insert}
use compost_rpc.Wire.Header
use compost_rpc.Wire.Msg
use compost_rpc.Wire.Msg.{Msg}
use compost_rpc.Protocol.Rpc.{Rpc, to_remote, to_local}
use compost_rpc.Session.{Session, Environment, message, received, receive, receiver, next_txn, rpc}
use compost_rpc.Session.Listener.{IsTame, Later-refl}
use compost_rpc.Session.Notifications.{Notice, Notification, Answer, IsQuiet, receive_notification}
use compost_rpc.Session.Answers.{Request, short, rpc_answered, rpc-Refused}
use compost_rpc.Session.Call.{call_rpc, call_answered}
use compost_rpc.Session.Stale.{
  Idle, Behind, Exchange, done, next, call, Calls-answered, Calls-late, rpc_timeout,
}

-- Arguments are the bytes themselves, and callbacks do nothing.
abbrev quiet : Environment (List ℕ)
quiet = record { run = λ sub args t. (ok tt, t); growth = 0; send = λ s bytes. ok tt }

quiet-IsTame : IsTame quiet
unfolding IsTame
quiet-IsTame sub args t = Later-refl t

goes_out :
    (s : Session (List ℕ)) (id : ℕ) (payload : List ℕ)
    → length payload ≤ 1020
    → Request quiet s id payload
goes_out s id payload fits = record { fits = fits; goes_out = refl }

abbrev echo : Rpc (List ℕ)
echo = record {
  rpc_id = 3;
  name = "echo";
  req_serdes = record { pack = ok; unpack = ok };
  resp_serdes = record { pack = ok; unpack = ok };
  is_notification = false;
  direction = to_remote;
  subscribers = [];
}

abbrev tick : Rpc (List ℕ)
tick = record echo {
  rpc_id = 5;
  name = "tick";
  is_notification = true;
  direction = to_local;
  subscribers = 4 ∷ 6 ∷ [];
}

abbrev rpcs : List (ℕ × Rpc (List ℕ))
rpcs = (3, echo) ∷ (5, tick) ∷ []

abbrev fresh : Session (List ℕ)
fresh = record { rpcs = rpcs; last_txn = 1; q = []; listening = true; called = []; sent = [] }

abbrev tick_bytes : List ℕ
tick_bytes = 1 ∷ 0 ∷ 0 ∷ 5 ∷ 9 ∷ 9 ∷ 0 ∷ 0 ∷ []

abbrev answer_bytes : ℕ → List ℕ
answer_bytes txn = 1 ∷ txn ∷ 16 ∷ 3 ∷ 8 ∷ 7 ∷ 6 ∷ 5 ∷ []

abbrev answer_msg : ℕ → Msg
answer_msg txn = record {
  header = record { len = 1; txn = txn; resp = true; rpc_id = 3 };
  payload = 8 ∷ 7 ∷ 6 ∷ 5 ∷ [];
}

abbrev tick_msg : Msg
tick_msg = record {
  header = record { len = 1; txn = 0; resp = false; rpc_id = 5 };
  payload = 9 ∷ 9 ∷ 0 ∷ 0 ∷ [];
}

tick_Notice : Notice quiet rpcs (received tick_bytes)
unfolding Msg.unpack Header.unpack be_value lookup
tick_Notice = record {
  bytes = tick_bytes;
  is_event = refl;
  long = omega arith;
  msg = tick_msg;
  parsed = refl;
  no_txn = refl;
  call = tick;
  known = refl;
  args = 9 ∷ 9 ∷ 0 ∷ 0 ∷ [];
  unpacked = refl;
}

ticks : Notification quiet rpcs (received tick_bytes)
unfolding IsQuiet tick_Notice
ticks = record { notice = tick_Notice; returns = ((λ t. refl), ((λ t. refl), tt)) }

answers : (txn : ℕ) → Answer quiet rpcs txn (answer_bytes txn) (answer_msg txn)
unfolding Msg.unpack Header.unpack be_value has
answers txn = record { long = omega arith; parsed = refl; same_txn = refl; known = refl }

idle : Idle quiet fresh
idle = record { listening = refl; q = refl }

two_ticks : All (Notification quiet rpcs) (received tick_bytes ∷ received tick_bytes ∷ [])
two_ticks = (ticks, (ticks, tt))

rpc_answered_example :
    (rpc quiet fresh 3 (1 ∷ []) (received tick_bytes ∷ received tick_bytes ∷ []) (
      (received tick_bytes ∷ received tick_bytes ∷ [])
      ++ (received (answer_bytes (next_txn 1)) ∷ received tick_bytes ∷ []))).0
    ≡ ok (8 ∷ 7 ∷ 6 ∷ 5 ∷ [])
rpc_answered_example =
    rpc_answered quiet quiet-IsTame fresh 3 (1 ∷ [])
      (received tick_bytes ∷ received tick_bytes ∷ [])
      (received tick_bytes ∷ received tick_bytes ∷ []) (received tick_bytes ∷ [])
      (answer_bytes (next_txn 1)) (answer_msg (next_txn 1)) refl refl
      (goes_out fresh 3 (1 ∷ []) (omega arith)) two_ticks two_ticks (answers (next_txn 1))

rpc-Refused_example :
    (rpc quiet fresh 3
      (1 ∷ [])
      []
      ((received tick_bytes ∷ received tick_bytes ∷ []) ++ (received (1 ∷ 2 ∷ []) ∷ []))).0
    ≡ err malformed_message_error
rpc-Refused_example =
    rpc-Refused quiet quiet-IsTame fresh 3 (1 ∷ []) []
      (received tick_bytes ∷ received tick_bytes ∷ []) [] (received (1 ∷ 2 ∷ []))
      malformed_message_error refl refl (goes_out fresh 3 (1 ∷ []) (omega arith)) tt two_ticks
      (short (1 ∷ 2 ∷ []) (omega arith))

rpc_timeout_example :
    ((rpc quiet fresh 3 (1 ∷ []) [] (received tick_bytes ∷ received tick_bytes ∷ [])).0
      ≡ err request_timeout_error)
    × Behind quiet (
        receiver quiet
          (received (answer_bytes (next_txn 1)) ∷ [])
          (rpc quiet fresh 3 (1 ∷ []) [] (received tick_bytes ∷ received tick_bytes ∷ [])).1)
rpc_timeout_example =
    rpc_timeout quiet fresh 3 (1 ∷ []) [] (received tick_bytes ∷ received tick_bytes ∷ [])
      (answer_bytes (next_txn 1)) (answer_msg (next_txn 1)) idle
      (goes_out fresh 3 (1 ∷ []) (omega arith)) tt two_ticks (answers (next_txn 1))

-- A call with the argument 1 that is answered behind two notifications.
abbrev exchange : (s : Session (List ℕ)) → s.rpcs ≡ rpcs → Exchange quiet s
exchange s same = record {
  rpc_id = 3;
  payload = 1 ∷ [];
  goes_out = goes_out s 3 (1 ∷ []) (omega arith);
  early = received tick_bytes ∷ received tick_bytes ∷ [];
  mid = [];
  bytes = answer_bytes (next_txn s.last_txn);
  msg = answer_msg (next_txn s.last_txn);
  before =
      subst (λ r. All (Notification quiet r) (received tick_bytes ∷ received tick_bytes ∷ []))
        (sym same) two_ticks;
  between = tt;
  answer =
      subst
        (λ r.
          Answer quiet r (next_txn s.last_txn) (answer_bytes (next_txn s.last_txn))
            (answer_msg (next_txn s.last_txn)))
        (sym same) (answers (next_txn s.last_txn));
}

-- The session with the answer to the first request in its queue.
abbrev late : Session (List ℕ)
late = record fresh { q = message (answer_msg 1) ∷ [] }

late-Behind : Behind quiet late
unfolding has next_txn
late-Behind = record {
  listening = refl;
  old = answer_msg 1;
  q = refl;
  known = refl;
  other = omega arith;
}

abbrev results : (s : Session (List ℕ)) → s.rpcs ≡ rpcs → List (List ℕ × Result (List ℕ))
results s same = (8 ∷ 7 ∷ 6 ∷ 5 ∷ [], (call quiet s (exchange s same)).0) ∷ []

Calls-answered_example :
    All (λ (p, r). r ≡ ok p) (results fresh refl)
    × Idle quiet (call quiet fresh (exchange fresh refl)).1
Calls-answered_example =
    Calls-answered quiet fresh (call quiet fresh (exchange fresh refl)).1 (results fresh refl) idle
      (next (exchange fresh refl) done)

Calls-late_example :
    All (λ (p, r). r ≡ err unexpected_txn_error) (results late refl)
    × Behind quiet (call quiet late (exchange late refl)).1
Calls-late_example =
    Calls-late quiet late (call quiet late (exchange late refl)).1 (results late refl) late-Behind
      (next (exchange late refl) done)

receive_notification_example : receive quiet fresh (received tick_bytes) ≡ record fresh {
  called = fresh.called ++ map (λ sub. (sub, ticks.notice.args)) ticks.notice.call.subscribers;
}
receive_notification_example = receive_notification quiet fresh (received tick_bytes) ticks

-- Here the callback 4 unsubscribes itself, and 6 is skipped.
abbrev left : Rpc (List ℕ)
left = record tick { subscribers = 6 ∷ 8 ∷ [] }

abbrev three : List (ℕ × Rpc (List ℕ))
three = (5, record tick { subscribers = 4 ∷ 6 ∷ 8 ∷ [] }) ∷ []

abbrev once : ℕ → List ℕ → Session (List ℕ) → Result (Unit {0}) × Session (List ℕ)
once sub args t = if sub == 4 then (ok tt, record t { rpcs = insert 5 left t.rpcs }) else (ok tt, t)

abbrev one_shot : Environment (List ℕ)
one_shot = record quiet { run = once }

three_Notice : Notice one_shot three (received tick_bytes)
unfolding Msg.unpack Header.unpack be_value lookup
three_Notice = record {
  bytes = tick_bytes;
  is_event = refl;
  long = omega arith;
  msg = tick_msg;
  parsed = refl;
  no_txn = refl;
  call = record tick { subscribers = 4 ∷ 6 ∷ 8 ∷ [] };
  known = refl;
  args = 9 ∷ 9 ∷ 0 ∷ 0 ∷ [];
  unpacked = refl;
}

call_answered_example :
    (call_rpc quiet fresh echo (1 ∷ []) [] ([] ++ (received (answer_bytes (next_txn 1)) ∷ []))).0
    ≡ ok (some 8)
call_answered_example =
    call_answered quiet quiet-IsTame fresh echo (1 ∷ []) (8 ∷ 7 ∷ 6 ∷ 5 ∷ []) (1 ∷ []) [] [] []
      (answer_bytes (next_txn 1)) (answer_msg (next_txn 1)) idle refl refl
      (goes_out fresh 3 (1 ∷ []) (omega arith)) tt tt (answers (next_txn 1)) refl
