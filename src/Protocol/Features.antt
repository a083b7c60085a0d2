-- ===== src/Protocol/Features.antt =====
-- `CodeGeneratorFeatures` and `CodeGenerator._validate_endpoint`, for the two generators.
use compost_rpc.Common.{
  ◌≡◌, refl, ◌↔◌, Bool, true, false, ◌&&◌, ◌||◌, List, [], ◌∷◌, if◌then◌else◌, All, arith,
}
use compost_rpc.Common.Result.{Result, ok, err, value_error}
use compost_rpc.Protocol.Rpc.{
  Rpc, CallDirection, to_remote, to_local, two_way, Endpoint, remote, local, is_call_inbound,
  is_call_outbound,
}

pub record CodeGeneratorFeatures : Type 0 where
  pub inbound_rpc : Bool
  pub outbound_rpc : Bool
  pub inbound_notification : Bool
  pub outbound_notification : Bool

abbrev pub c_features : CodeGeneratorFeatures
c_features = record {
  inbound_rpc = true;
  outbound_rpc = false;
  inbound_notification = true;
  outbound_notification = true;
}

abbrev pub csharp_features : CodeGeneratorFeatures
csharp_features = record {
  inbound_rpc = false;
  outbound_rpc = true;
  inbound_notification = true;
  outbound_notification = false;
}

-- The round of the loop for one RPC: whether it goes on.
unfoldable pub supported : CodeGeneratorFeatures → Endpoint → Bool → CallDirection → Bool
unfolding is_call_inbound is_call_outbound
supported f e is_notification direction =
    if is_notification
    then is_call_inbound e direction && f.inbound_notification
      || is_call_outbound e direction && f.outbound_notification
    else (is_call_inbound e direction && f.inbound_rpc
        || is_call_outbound e direction && f.outbound_rpc)

module _ {A : Type 0} where
  unfoldable pub validate_endpoint :
      CodeGeneratorFeatures → Endpoint → List (Rpc A) → Result (Unit {0})
  unfolding supported
  validate_endpoint f e [] = ok tt
  validate_endpoint f e (rpc ∷ rpcs) =
      let rest = validate_endpoint f e rpcs in
      if supported f e rpc.is_notification rpc.direction then rest else err value_error

  -- Only calls that come in are served by C code, and only calls that go out are made by C# code.
  abbrev pub c_serves : Endpoint → Rpc A → Bool
  c_serves e rpc = rpc.is_notification || is_call_inbound e rpc.direction

  abbrev pub csharp_serves : Endpoint → Rpc A → Bool
  csharp_serves e rpc =
      if rpc.is_notification
      then is_call_inbound e rpc.direction
      else is_call_outbound e rpc.direction

c_supported :
    (e : Endpoint) (n : Bool) (d : CallDirection)
    → supported c_features e n d ≡ (n || is_call_inbound e d)
unfolding supported
c_supported remote true to_remote = refl
c_supported remote true to_local = refl
c_supported remote true two_way = refl
c_supported local true to_remote = refl
c_supported local true to_local = refl
c_supported local true two_way = refl
c_supported remote false to_remote = refl
c_supported remote false to_local = refl
c_supported remote false two_way = refl
c_supported local false to_remote = refl
c_supported local false to_local = refl
c_supported local false two_way = refl

csharp_supported :
    (e : Endpoint) (n : Bool) (d : CallDirection)
    → supported csharp_features e n d ≡ (if n then is_call_inbound e d else is_call_outbound e d)
unfolding supported
csharp_supported remote true to_remote = refl
csharp_supported remote true to_local = refl
csharp_supported remote true two_way = refl
csharp_supported local true to_remote = refl
csharp_supported local true to_local = refl
csharp_supported local true two_way = refl
csharp_supported remote false to_remote = refl
csharp_supported remote false to_local = refl
csharp_supported remote false two_way = refl
csharp_supported local false to_remote = refl
csharp_supported local false to_local = refl
csharp_supported local false two_way = refl

module _ {A : Type 0} where
  -- A protocol is valid exactly if each RPC is served, for a test that the features amount to.
  valid_iff :
      (f : CodeGeneratorFeatures) (e : Endpoint) (serves : Rpc A → Bool)
      → ((rpc : Rpc A) → supported f e rpc.is_notification rpc.direction ≡ serves rpc)
      → (rpcs : List (Rpc A))
      → (validate_endpoint f e rpcs ≡ ok tt) ↔ All (λ rpc. serves rpc ≡ true) rpcs
  unfolding validate_endpoint
  valid_iff f e serves same [] = (λ _. tt, λ _. refl)
  valid_iff f e serves same (rpc ∷ rpcs) = ground (arith, valid_iff f e serves same rpcs, same rpc)

  -- The C generator takes a protocol for an endpoint exactly if every RPC that is no notification
  -- comes in there; the C# generator does exactly if every notification comes in there and every
  -- other RPC goes out.
  pub validate_endpoint_iff :
      (e : Endpoint) (rpcs : List (Rpc A))
      → ((validate_endpoint c_features e rpcs ≡ ok tt) ↔ All (λ rpc. c_serves e rpc ≡ true) rpcs)
        × ((validate_endpoint csharp_features e rpcs ≡ ok tt)
            ↔ All (λ rpc. csharp_serves e rpc ≡ true) rpcs)
  validate_endpoint_iff e rpcs = (
    valid_iff c_features e (c_serves e) (λ rpc. c_supported e rpc.is_notification rpc.direction)
        rpcs,
    valid_iff csharp_features e (csharp_serves e)
        (λ rpc. csharp_supported e rpc.is_notification rpc.direction) rpcs,
  )
