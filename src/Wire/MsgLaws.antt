-- ===== src/Wire/MsgLaws.antt =====
-- Messages made by `Msg.from_data`, packed and unpacked.
use compost_rpc.Common.{
  ℕ, ◌+◌, ◌-◌, ◌*◌, ◌/◌, ◌%◌, ◌<◌, ◌≤◌, ◌≡◌, refl, ap, ◌∙◌, Bool, List, ◌++◌, arith, lt→ltb,
  ltb-false, le→leb, length, length-append, length-replicate, replicate,
}
use compost_rpc.Common.Result.{ok, err, struct_error}
use compost_rpc.Wire.Header.{Header}
use compost_rpc.Wire.HeaderLaws.{header_bytes, pack_fits, pack_long, unpack-header_bytes}
use compost_rpc.Wire.Msg.{Msg, ceiling_division, len, pad, pack, unpack, from_data}
use native.Mathlib.Decide.{dec_lt}
use mathlib.Core.List.{append-nil}
use native.Mathlib.Nat.{mod-eq_of_lt}

pub words : (n : ℕ) → ceiling_division n 4 ≡ (n + 3) / 4
unfolding ceiling_division
words n = ground arith

-- The zero bytes that fill the last word.
abbrev pub filler : List ℕ → List ℕ
filler payload = replicate (4 * ((length payload + 3) / 4) - length payload) 0

length-filler :
    (payload : List ℕ) → length (filler payload) ≡ 4 * ((length payload + 3) / 4) - length payload
length-filler payload = length-replicate _ 0

abbrev pub on_wire : ℕ → Bool → ℕ → List ℕ → Header
on_wire txn resp rpc_id payload = record {
  len = (length payload + 3) / 4;
  txn = txn;
  resp = resp;
  rpc_id = rpc_id;
}

module _ (txn : ℕ) (resp : Bool) (rpc_id : ℕ) (payload : List ℕ) where
  abbrev h : Header
  h = on_wire txn resp rpc_id payload

  from_data_lem : from_data txn resp rpc_id payload ≡ record { header = h; payload = payload }
  unfolding from_data
  from_data_lem = rw (words (length payload)) refl

  pad_lem :
      pad (record { header = h; payload = payload })
      ≡ record { header = h; payload = payload ++ filler payload }
  unfolding pad
  pad_lem = elim (dec_lt (length payload) (4 * ((length payload + 3) / 4))) [
    | yes short ↦ rw (lt→ltb _ _ short) refl
    | no full ↦
        let none_missing : 4 * ((length payload + 3) / 4) - length payload ≡ 0 = omega arith in
        rw
          (
            ltb-false (length payload) (4 * ((length payload + 3) / 4)) (omega arith),
            none_missing,
            append-nil,
          )
          refl
  ]

  -- A payload of at most 255 words goes out behind its header, filled up with zeros.
  pub pack-from_data :
      txn < 256
      → length payload ≤ 1020
      → pack (from_data txn resp rpc_id payload)
        ≡ ok (
          record { header = h; payload = payload ++ filler payload },
          header_bytes h ++ (payload ++ filler payload),
        )
  unfolding pack
  pack-from_data ht hp =
      rw
        (
          from_data_lem,
          le→leb (length payload) (4 * ((length payload + 3) / 4)) (omega arith),
          pad_lem,
          pack_fits h (omega arith) ht,
        )
        refl

  -- A longer one does not go out: the length does not fit the header.
  pack-from_data_long :
      1020 < length payload → pack (from_data txn resp rpc_id payload) ≡ err struct_error
  unfolding pack
  pack-from_data_long hp =
      rw
        (
          from_data_lem,
          le→leb (length payload) (4 * ((length payload + 3) / 4)) (omega arith),
          pad_lem,
          pack_long h (omega arith),
        )
        refl

  -- Reading the bytes back, whatever follows them.
  pub unpack-on_wire :
      (rest : List ℕ)
      → unpack (header_bytes h ++ rest)
        ≡ ok (record { header = record h { rpc_id = rpc_id % 4096 }; payload = rest })
  unfolding unpack header_bytes
  unpack-on_wire rest = rw (unpack-header_bytes h) refl

-- `from_data`, `pack` and `unpack` carry a payload over. Where the transaction number and the
-- payload's words fit a byte each and the RPC id is below 4096, the receiver gets the message that
-- the sender packed: its payload is the given one with at most three zero bytes behind it, its
-- header is the given one, and the bytes are as many as `len` says.
pub unpack-pack-from_data :
    (txn : ℕ) (resp : Bool) (rpc_id : ℕ) (payload : List ℕ)
    → txn < 256
    → rpc_id < 4096
    → length payload ≤ 1020
    → (m : Msg) (bytes : List ℕ) → pack (from_data txn resp rpc_id payload) ≡ ok (m, bytes)
    → (unpack bytes ≡ ok m)
      × (m ≡ record {
        header = on_wire txn resp rpc_id payload;
        payload = payload ++ filler payload;
      })
      × (length (filler payload) < 4)
      × (length bytes ≡ len m)
unpack-pack-from_data txn resp rpc_id payload ht hi hp m bytes packed =
    rw (same_msg, same_bytes)
      (
        unpack-on_wire txn resp rpc_id payload (payload ++ filler payload)
            ∙ ap
                (λ n. ok (record {
                  header = record (on_wire txn resp rpc_id payload) { rpc_id = n };
                  payload = payload ++ filler payload;
                }))
                (mod-eq_of_lt hi),
        refl,
        omega (arith, length-filler payload),
        unfold header_bytes len in
            omega (arith, length-append payload (filler payload), length-filler payload),
      )
  where
    same_msg :
        m ≡ record { header = on_wire txn resp rpc_id payload; payload = payload ++ filler payload }
    same_msg = cc (pack-from_data txn resp rpc_id payload ht hp, packed)

    same_bytes :
        bytes ≡ header_bytes (on_wire txn resp rpc_id payload) ++ (payload ++ filler payload)
    same_bytes = cc (pack-from_data txn resp rpc_id payload ht hp, packed)
