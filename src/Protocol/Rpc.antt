-- ===== src/Protocol/Rpc.antt =====
-- `CallDirection`, `Rpc` and `Endpoint`. A callback is known by a number. Arguments and results are
-- of an abstract type, and the `PayloadSerdes` objects are what packs and unpacks them.
use Prim.Native.String.{String}
use compost_rpc.Common.{ℕ, Bool, true, false, ◌&&◌, ◌||◌, List, [], ◌∷◌, ◌++◌, ◌==◌, if◌then◌else◌}
use compost_rpc.Common.Result.{Result, ok, err, value_error, ◌>>=◌}

pub data CallDirection : Type 0 where
  to_remote to_local two_way : CallDirection

-- `PayloadSerdes`: what the session and the calls use of it.
pub record PayloadSerdes (A : Type 0) : Type 0 where
  pub pack : A → Result (List ℕ)
  pub unpack : List ℕ → Result A

pub record Rpc (A : Type 0) : Type 0 where
  pub rpc_id : ℕ
  pub name : String
  pub req_serdes : PayloadSerdes A
  pub resp_serdes : PayloadSerdes A
  pub is_notification : Bool
  pub direction : CallDirection
  pub subscribers : List ℕ

-- `list.remove` takes out the first one, and raises if there is none.
unfoldable pub remove_first : ℕ → List ℕ → Result (List ℕ)
remove_first callback [] = err value_error
remove_first callback (s ∷ subs) =
    let rest = (do kept ← remove_first callback subs; ok (s ∷ kept)) in
    if s == callback then ok subs else rest

module _ {A : Type 0} where
  unfoldable pub subscribe : Rpc A → ℕ → Rpc A
  subscribe r callback = record r { subscribers = r.subscribers ++ (callback ∷ []) }

  unfoldable pub unsubscribe : Rpc A → ℕ → Result (Rpc A)
  unfolding remove_first
  unsubscribe r callback = do
    subs ← remove_first callback r.subscribers
    ok (record r { subscribers = subs })

pub data Endpoint : Type 0 where
  remote local : Endpoint

unfoldable pub is_direction : CallDirection → CallDirection → Bool
is_direction to_remote to_remote = true
is_direction to_local to_local = true
is_direction two_way two_way = true
is_direction _ _ = false

unfoldable pub is_endpoint : Endpoint → Endpoint → Bool
is_endpoint remote remote = true
is_endpoint local local = true
is_endpoint _ _ = false

unfoldable pub is_call_outbound : Endpoint → CallDirection → Bool
unfolding is_direction is_endpoint
is_call_outbound self direction =
    is_direction direction to_local && is_endpoint self remote
    || is_direction direction to_remote && is_endpoint self local
    || is_direction direction two_way

unfoldable pub is_call_inbound : Endpoint → CallDirection → Bool
unfolding is_direction is_endpoint
is_call_inbound self direction =
    is_direction direction to_local && is_endpoint self local
    || is_direction direction to_remote && is_endpoint self remote
    || is_direction direction two_way
