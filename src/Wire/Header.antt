-- ===== src/Wire/Header.antt =====
-- `Header`, with the formats of Python's `struct` that it uses.
use compost_rpc.Common.{
  ℕ, ◌+◌, ◌*◌, ◌^◌, bit_and, bit_or, Bool, not, List, [], ◌∷◌, ◌++◌, ltb, ◌==◌, if◌then◌else◌,
}
use compost_rpc.Common.BigEndian.{be_bytes, be_value}
use compost_rpc.Common.Result.{Result, ok, err, struct_error, ◌>>=◌}

pub record Header : Type 0 where
  pub len : ℕ
  pub txn : ℕ
  pub resp : Bool
  pub rpc_id : ℕ

-- One unsigned number of `n` bytes, as `struct.pack` writes it: out of range it raises.
unfoldable pub pack_uint : ℕ → ℕ → Result (List ℕ)
pack_uint n v = if ltb v (256 ^ n) then ok (be_bytes n v) else err struct_error

unfoldable pub payload_byte_len : Header → ℕ
payload_byte_len h = 4 * h.len

unfoldable pub msg_byte_len : Header → ℕ
unfolding payload_byte_len
msg_byte_len h = 4 + payload_byte_len h

unfoldable pub rpc_id_and_flags : Header → ℕ
rpc_id_and_flags h = let id = bit_and h.rpc_id 0x0FFF in if h.resp then bit_or id 0x1000 else id

-- `header_struct.pack`, the format ">BBH"
unfoldable pub pack : Header → Result (List ℕ)
unfolding pack_uint rpc_id_and_flags
pack h = do
  a ← pack_uint 1 h.len
  b ← pack_uint 1 h.txn
  c ← pack_uint 2 (rpc_id_and_flags h)
  ok (a ++ b ++ c)

unfoldable pub of_fields : ℕ → ℕ → ℕ → Header
of_fields len txn word = record {
  len = len;
  txn = txn;
  resp = not (bit_and word 0x1000 == 0);
  rpc_id = bit_and word 0x0FFF;
}

-- `header_struct.unpack` takes four bytes exactly.
unfoldable pub unpack : List ℕ → Result Header
unfolding of_fields
unpack (a ∷ b ∷ c ∷ d ∷ []) = ok (of_fields a b (be_value (c ∷ d ∷ [])))
unpack _ = err struct_error
