-- ===== src/Numbers/Runs.antt =====
-- Constructors and formats at concrete values.
use compost_rpc.Common.{ℕ, ◌^◌, ◌≡◌, refl, [], ◌∷◌, ◌++◌, arith, length, All}
use compost_rpc.Common.BigEndian.{IsByte}
use compost_rpc.Common.Int.{pos, negsuc}
use compost_rpc.Common.Result.{ok, err, struct_error}
use compost_rpc.Numbers.{i64, i16, byte_size, construct, pack_number, unpack_number}
use compost_rpc.Numbers.Laws.{construct_wide, unpack-pack_number}

minus_two-packs : pack_number i16 (negsuc 1) ≡ ok (255 ∷ 254 ∷ [])
unfolding pack_number
minus_two-packs = refl

construct_wide_example :
    (construct i64 (pos (2 ^ 63)) ≡ ok (pos (2 ^ 63)))
    × (pack_number i64 (pos (2 ^ 63)) ≡ err struct_error)
construct_wide_example = construct_wide (2 ^ 63) (omega arith) (omega arith)

unpack-pack_number_example :
    (unpack_number i16 ((7 ∷ []) ++ ((255 ∷ 254 ∷ []) ++ (3 ∷ []))) 1 ≡ ok (negsuc 1))
    × (length {A = ℕ} (255 ∷ 254 ∷ []) ≡ byte_size i16)
    × All IsByte (255 ∷ 254 ∷ [])
unpack-pack_number_example =
    unpack-pack_number i16 (negsuc 1) (255 ∷ 254 ∷ []) (7 ∷ []) (3 ∷ []) minus_two-packs
