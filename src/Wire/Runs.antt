-- ===== src/Wire/Runs.antt =====
-- The laws of headers and messages at concrete bytes.
use compost_rpc.Common.{ℕ, ◌<◌, ◌≡◌, refl, true, false, List, [], ◌∷◌, ◌++◌, arith, length}
use compost_rpc.Common.BigEndian.{be_bytes}
use compost_rpc.Common.Result.{ok}
use compost_rpc.Wire.Header
use compost_rpc.Wire.Header.{Header}
use compost_rpc.Wire.Msg
use compost_rpc.Wire.Msg.{Msg}
use compost_rpc.Wire.MsgLaws
use compost_rpc.Wire.MsgLaws.{on_wire, filler}

abbrev wide : Header
wide = record { len = 2; txn = 17; resp = true; rpc_id = 0x1ABC }

wide-packs : Header.pack wide ≡ ok (2 ∷ 17 ∷ 26 ∷ 188 ∷ [])
unfolding Header.pack be_bytes
wide-packs = refl

abbrev five : List ℕ
five = 1 ∷ 2 ∷ 3 ∷ 4 ∷ 5 ∷ []

abbrev five_padded : Msg
five_padded = record { header = on_wire 7 false 0x0A1 five; payload = five ++ (0 ∷ 0 ∷ 0 ∷ []) }

abbrev five_bytes : List ℕ
five_bytes = 2 ∷ 7 ∷ 0 ∷ 161 ∷ five ++ (0 ∷ 0 ∷ 0 ∷ [])

five-packs : Msg.pack (Msg.from_data 7 false 0x0A1 five) ≡ ok (five_padded, five_bytes)
unfolding Msg.pack Msg.from_data Header.pack be_bytes
five-packs = refl

unpack-pack-from_data_example :
    (Msg.unpack five_bytes ≡ ok five_padded)
    × (five_padded ≡ record { header = on_wire 7 false 0x0A1 five; payload = five ++ filler five })
    × (length (filler five) < 4)
    × (length five_bytes ≡ Msg.len five_padded)
unpack-pack-from_data_example =
    MsgLaws.unpack-pack-from_data 7 false 0x0A1 five (omega arith) (omega arith) (omega arith)
      five_padded five_bytes five-packs
