-- ===== src/Wire/Msg.antt =====
-- `Msg`: a header and the payload bytes, whatever they mean.
use compost_rpc.Common.{
  ℕ, ◌+◌, ◌-◌, ◌*◌, ◌/◌, ◌%◌, Bool, List, ◌++◌, ltb, leb, ◌==◌, if◌then◌else◌, length, take, drop,
  replicate,
}
use compost_rpc.Common.Result.{Result, ok, assertion_error, ◌>>=◌, ◌>>◌, guard}
use compost_rpc.Wire.Header
use compost_rpc.Wire.Header.{Header}

pub record Msg : Type 0 where
  pub header : Header
  pub payload : List ℕ

-- `-(n // -d)`. Python's `//` rounds down, so `n // -d` is `-(n / d)`, or one less if there is a
-- remainder.
unfoldable pub ceiling_division : ℕ → ℕ → ℕ
ceiling_division n d = if n % d == 0 then n / d else n / d + 1

-- `__len__`
unfoldable pub len : Msg → ℕ
len m = 4 + 4 * m.header.len

-- What `pack` leaves in `self.payload`.
unfoldable pub pad : Msg → Msg
pad m =
    if ltb (length m.payload) (4 * m.header.len)
    then record m { payload = m.payload ++ replicate (4 * m.header.len - length m.payload) 0 }
    else m

unfoldable pub pack : Msg → Result (Msg × List ℕ)
unfolding pad
pack m = do
  guard (leb (length m.payload) (4 * m.header.len)) assertion_error
  let padded = pad m
  header ← Header.pack padded.header
  ok (padded, header ++ padded.payload)

unfoldable pub unpack : List ℕ → Result Msg
unpack bytes = do
  header ← Header.unpack (take 4 bytes)
  ok (record { header = header; payload = drop 4 bytes })

unfoldable pub from_data : ℕ → Bool → ℕ → List ℕ → Msg
unfolding ceiling_division
from_data txn response rpc_id payload = record {
  header = record {
    len = ceiling_division (length payload) 4;
    txn = txn;
    resp = response;
    rpc_id = rpc_id;
  };
  payload = payload;
}
