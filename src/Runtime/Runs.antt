-- ===== src/Runtime/Runs.antt =====
-- Headers and calls at concrete bytes, through the C runtime.
use compost_rpc.Common.{
  ℕ, ◌≤◌, ◌<◌, ◌≡◌, refl, true, false, some, List, [], ◌∷◌, ◌++◌, arith, ltb, length, drop,
  replicate, if◌then◌else◌,
}
use compost_rpc.Common.BigEndian.{be_bytes}
use compost_rpc.Common.Int.{pos, negsuc}
use compost_rpc.Common.Result.{ok, err, unknown_rpc_id_error}
use compost_rpc.Common.Table.{has}
use compost_rpc.Wire.Header
use compost_rpc.Wire.Header.{Header}
use compost_rpc.Wire.Msg
use compost_rpc.Wire.Msg.{Msg}
use compost_rpc.Wire.MsgLaws.{on_wire, filler}
use compost_rpc.Protocol.Rpc.{Rpc, to_remote}
use compost_rpc.Protocol.Registry.{IsValid}
use compost_rpc.Numbers.{i16, byte_size, pack_number}
use compost_rpc.Runtime.Numbers.{load_fn, store_fn}
use compost_rpc.Runtime.NumberLaws.{load_fn-pack_number, store_fn-pack_number}
use compost_rpc.Runtime.Header.{compost_header_load, compost_header_store, compost_eflags}
use compost_rpc.Runtime.Interop.{as_compost, load-unpack, store-pack}
use compost_rpc.Runtime.Process.{Case}
use compost_rpc.Runtime.Switch.{case_for}
use compost_rpc.Runtime.EndToEnd.{device_event, rpc_end_to_end, rpc_without_handler}
use compost_rpc.Session.{Session, Environment, next_txn, rpc}
use compost_rpc.Session.Listener.{IsTame, Later-refl}
use compost_rpc.Session.Answers.{Request}

abbrev answer : Header
answer = record { len = 1; txn = 9; resp = true; rpc_id = 0x304 }

load-unpack_example :
    (h : Header) × (Header.unpack (1 ∷ 9 ∷ 0x23 ∷ 4 ∷ []) ≡ ok h)
    × (compost_header_load (some (1 ∷ 9 ∷ 0x23 ∷ 4 ∷ 7 ∷ [])) (some (as_compost answer)) ≡ (
        if ltb 0x23 32
        then (pos 0, some (as_compost h))
        else (compost_eflags, some (as_compost answer))))
load-unpack_example = load-unpack 1 9 0x23 4 (7 ∷ []) (as_compost answer) (omega arith)

answer-packs : Header.pack answer ≡ ok (1 ∷ 9 ∷ 0x13 ∷ 4 ∷ [])
unfolding Header.pack be_bytes
answer-packs = refl

store-pack_example :
    compost_header_store true (some (0 ∷ 0 ∷ 0 ∷ 0 ∷ 7 ∷ [])) (as_compost answer)
    ≡ some (pos 0, some ((1 ∷ 9 ∷ 0x13 ∷ 4 ∷ []) ++ (7 ∷ [])))
store-pack_example =
    store-pack true answer 0 0 0 0 (7 ∷ []) (1 ∷ 9 ∷ 0x13 ∷ 4 ∷ []) (omega arith) answer-packs

abbrev quiet : Environment (List ℕ)
quiet = record { run = λ sub args t. (ok tt, t); growth = 0; send = λ s bytes. ok tt }

quiet-IsTame : IsTame quiet
unfolding IsTame
quiet-IsTame sub args t = Later-refl t

goes_out :
    (s : Session (List ℕ)) (id : ℕ) (payload : List ℕ)
    → length payload ≤ 1020
    → Request quiet s id payload
goes_out s id payload fits = record { fits = fits; goes_out = refl }

abbrev echo : Rpc (List ℕ)
echo = record {
  rpc_id = 3;
  name = "echo";
  req_serdes = record { pack = ok; unpack = ok };
  resp_serdes = record { pack = ok; unpack = ok };
  is_notification = false;
  direction = to_remote;
  subscribers = [];
}

abbrev fresh : Session (List ℕ)
fresh = record {
  rpcs = (3, echo) ∷ [];
  last_txn = 1;
  q = [];
  listening = true;
  called = [];
  sent = [];
}

fresh-IsValid : IsValid fresh.rpcs
unfolding has
fresh-IsValid = (omega arith, refl, tt)

abbrev request : List ℕ
request = 1 ∷ 2 ∷ 0 ∷ 3 ∷ 8 ∷ 7 ∷ 0 ∷ 0 ∷ []

abbrev padded : Msg
padded = record { header = on_wire 2 false 3 (8 ∷ 7 ∷ []); payload = 8 ∷ 7 ∷ 0 ∷ 0 ∷ [] }

request-packs : Msg.pack (Msg.from_data 2 false 3 (8 ∷ 7 ∷ [])) ≡ ok (padded, request)
unfolding Msg.pack Msg.from_data Header.pack be_bytes
request-packs = refl

-- A handler that returns its payload with one byte more.
abbrev handler : Case
handler = record { rpc_id = 3; returns = true; reply = λ size payload. 5 ∷ payload }

rpc_end_to_end_example :
    (fill : List ℕ) × (length fill < 4)
    × ((rpc quiet fresh 3
          (8 ∷ 7 ∷ [])
          []
          ([] ++ (device_event (handler ∷ []) (replicate 16 1) request ∷ []))).0
        ≡ ok ((5 ∷ 8 ∷ 7 ∷ filler (8 ∷ 7 ∷ [])) ++ fill))
unfolding has case_for next_txn
rpc_end_to_end_example =
    rpc_end_to_end quiet quiet-IsTame fresh 3 (8 ∷ 7 ∷ []) [] [] [] (handler ∷ []) handler
      (replicate 16 1) padded request (5 ∷ 8 ∷ 7 ∷ filler (8 ∷ 7 ∷ [])) request-packs refl refl refl
      (omega arith) (goes_out fresh 3 (8 ∷ 7 ∷ []) (omega arith)) tt tt refl refl refl (omega arith)
      (omega arith)

rpc_without_handler_example :
    (rpc quiet fresh 3 (8 ∷ 7 ∷ []) [] ([] ++ (device_event [] (replicate 16 1) request ∷ []))).0
    ≡ err unknown_rpc_id_error
unfolding case_for next_txn
rpc_without_handler_example =
    rpc_without_handler quiet quiet-IsTame fresh 3 (8 ∷ 7 ∷ []) [] [] [] [] (replicate 16 1) padded
      request request-packs refl refl fresh-IsValid (omega arith)
      (goes_out fresh 3 (8 ∷ 7 ∷ []) (omega arith)) tt tt refl (omega arith)

minus_two-packs : pack_number i16 (negsuc 1) ≡ ok (255 ∷ 254 ∷ [])
unfolding pack_number
minus_two-packs = refl

load_fn-pack_number_example : load_fn i16 ((255 ∷ 254 ∷ []) ++ (9 ∷ [])) ≡ (negsuc 1, 9 ∷ [])
load_fn-pack_number_example =
    load_fn-pack_number i16 (negsuc 1) (255 ∷ 254 ∷ []) (9 ∷ []) minus_two-packs

store_fn-pack_number_example : store_fn i16 (0 ∷ 0 ∷ 9 ∷ []) (negsuc 1) ≡ (
  (255 ∷ 254 ∷ []) ++ drop (length {A = ℕ} (255 ∷ 254 ∷ [])) (0 ∷ 0 ∷ 9 ∷ []),
  length {A = ℕ} (255 ∷ 254 ∷ []),
)
unfolding byte_size
store_fn-pack_number_example =
    store_fn-pack_number i16 (negsuc 1) (255 ∷ 254 ∷ []) (0 ∷ 0 ∷ 9 ∷ []) (omega arith)
      minus_two-packs
