-- ===== src/Protocol/Runs.antt =====
-- Registration, the ends of a call and callbacks in a concrete protocol.
use compost_rpc.Common.{
  ℕ, ◌≡◌, ◌↔◌, refl, true, false, some, List, [], ◌∷◌, ◌==◌, if◌then◌else◌, arith,
}
use compost_rpc.Common.Int.{pos}
use compost_rpc.Common.Result.{ok}
use compost_rpc.Common.Table.{lookup, insert, has}
use compost_rpc.Protocol.Rpc.{Rpc, to_remote, remote}
use compost_rpc.Protocol.Registry.{IsValid, set_name, magnitude, set_name-IsValid}
use compost_rpc.Protocol.Features.{
  validate_endpoint, validate_endpoint_iff, c_features, csharp_features, c_serves, csharp_serves,
}
use compost_rpc.Common.{All}

abbrev echo : Rpc (List ℕ)
echo = record {
  rpc_id = 3;
  name = "echo";
  req_serdes = record { pack = ok; unpack = ok };
  resp_serdes = record { pack = ok; unpack = ok };
  is_notification = false;
  direction = to_remote;
  subscribers = 4 ∷ 6 ∷ [];
}

abbrev one_rpc : List (ℕ × Rpc (List ℕ))
one_rpc = (3, echo) ∷ []

one_rpc-IsValid : IsValid one_rpc
unfolding has
one_rpc-IsValid = (omega arith, refl, tt)

five-registers : set_name one_rpc (pos 5) echo ≡ ok ((3, echo) ∷ (5, echo) ∷ [])
unfolding set_name insert has
five-registers = refl

set_name-IsValid_example :
    (has (magnitude (pos 5)) one_rpc ≡ false)
    × IsValid ((3, echo) ∷ (5, echo) ∷ [])
    × ((n : ℕ)
        → lookup n ((3, echo) ∷ (5, echo) ∷ [])
          ≡ (if magnitude (pos 5) == n then some echo else lookup n one_rpc))
set_name-IsValid_example =
    set_name-IsValid one_rpc ((3, echo) ∷ (5, echo) ∷ []) (pos 5) echo one_rpc-IsValid
      five-registers

validate_endpoint_iff_example :
    ((validate_endpoint c_features remote (echo ∷ []) ≡ ok tt)
      ↔ All (λ rpc. c_serves remote rpc ≡ true) (echo ∷ []))
    × ((validate_endpoint csharp_features remote (echo ∷ []) ≡ ok tt)
        ↔ All (λ rpc. csharp_serves remote rpc ≡ true) (echo ∷ []))
validate_endpoint_iff_example = validate_endpoint_iff remote (echo ∷ [])
