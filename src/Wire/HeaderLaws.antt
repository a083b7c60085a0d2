-- ===== src/Wire/HeaderLaws.antt =====
-- What `Header.pack` writes, in plain arithmetic, and the round trips.
use compost_rpc.Common.{
  ℕ, ◌+◌, ◌*◌, ◌/◌, ◌%◌, ◌<◌, ◌≤◌, bit_and, bit_or, ◌≡◌, refl, ap, ap₂, ◌∙◌, Bool, true, false, not,
  ◌&&◌, List, [], ◌∷◌, arith, ltb, lt→ltb, ltb-false, ◌==◌, if◌then◌else◌, length, All,
}
use compost_rpc.Common.BigEndian.{IsByte, be_bytes, be_value}
use compost_rpc.Common.Bitwise.{bit_and-mask, bit_and-shift, bit_or-shift}
use compost_rpc.Common.Result.{ok, err, struct_error}
use compost_rpc.Wire.Header.{Header, pack_uint, rpc_id_and_flags, pack, of_fields, unpack}

pub low_twelve : (w : ℕ) → bit_and w 0x0FFF ≡ w % 4096
low_twelve w = bit_and-mask 12 w

pub response_bit : (w : ℕ) → bit_and w 0x1000 ≡ w / 4096 % 2 * 4096
response_bit w = bit_and-shift 12 w 1 ∙ ap (λ t. t * 4096) (bit_and-mask 1 (w / 4096))

or_response : (id : ℕ) → id < 4096 → bit_or id 0x1000 ≡ id + 4096
or_response id h = omega (arith, bit_or-shift 12 id 1, ap (λ t. bit_or t 1) none_above)
  where
    none_above : id / 4096 ≡ 0
    none_above = omega arith

abbrev pub flag : Bool → ℕ
flag true = 4096
flag false = 0

pub word_value : (h : Header) → rpc_id_and_flags h ≡ h.rpc_id % 4096 + flag h.resp
unfolding rpc_id_and_flags
word_value h = ground (arith, low_twelve h.rpc_id, or_response (bit_and h.rpc_id 0x0FFF))

unfoldable pub header_bytes : Header → List ℕ
header_bytes h = let w = rpc_id_and_flags h in h.len ∷ h.txn ∷ (w / 256) ∷ (w % 256) ∷ []

byte_field : (v : ℕ) → v < 256 → pack_uint 1 v ≡ ok (v ∷ [])
unfolding pack_uint be_bytes
byte_field v h = rw (lt→ltb v 256 h) (ap (λ t. ok (t ∷ [])) (omega arith))

byte_field_error : (v : ℕ) → 256 ≤ v → pack_uint 1 v ≡ err struct_error
unfolding pack_uint
byte_field_error v h = rw (ltb-false v 256 h) refl

word_field : (v : ℕ) → v < 65536 → pack_uint 2 v ≡ ok ((v / 256) ∷ (v % 256) ∷ [])
unfolding pack_uint be_bytes
word_field v h = rw (lt→ltb v 65536 h) (ap₂ (λ a b. ok (a ∷ b ∷ [])) (omega arith) (omega arith))

pub word-lt : (h : Header) → rpc_id_and_flags h < 8192
word-lt h = ground (arith, word_value h)

pub pack_fits : (h : Header) → h.len < 256 → h.txn < 256 → pack h ≡ ok (header_bytes h)
unfolding pack header_bytes
pack_fits h hl ht =
    rw
      (
        byte_field h.len hl,
        byte_field h.txn ht,
        word_field (rpc_id_and_flags h) (omega (arith, word-lt h)),
      )
      refl

pub pack_long : (h : Header) → 256 ≤ h.len → pack h ≡ err struct_error
unfolding pack
pack_long h hl = rw (byte_field_error h.len hl) refl

pack_txn : (h : Header) → h.len < 256 → 256 ≤ h.txn → pack h ≡ err struct_error
unfolding pack
pack_txn h hl ht = rw (byte_field h.len hl, byte_field_error h.txn ht) refl

-- Packing succeeds exactly where the two one-byte fields fit, whatever the RPC id is.
pack_bytes :
    (h : Header)
    → pack h ≡ (if ltb h.len 256 && ltb h.txn 256 then ok (header_bytes h) else err struct_error)
pack_bytes h = ground (arith, pack_fits h, pack_long h, pack_txn h)

pub header_bytes-IsByte : (h : Header) → h.len < 256 → h.txn < 256 → All IsByte (header_bytes h)
unfolding header_bytes
header_bytes-IsByte h hl ht = omega (arith, word-lt h)

flag_back : (w : ℕ) (b : Bool) → w < 4096 → not ((w + flag b) / 4096 % 2 * 4096 == 0) ≡ b
flag_back w true h = ground arith
flag_back w false h = ground arith

pub of_fields_parts :
    (len txn word : ℕ)
    → of_fields len txn word ≡ record {
      len = len;
      txn = txn;
      resp = not (word / 4096 % 2 * 4096 == 0);
      rpc_id = word % 4096;
    }
unfolding of_fields
of_fields_parts len txn word = rw (low_twelve word, response_bit word) refl

of_fields-word :
    (h : Header) (word : ℕ)
    → word ≡ h.rpc_id % 4096 + flag h.resp
    → of_fields h.len h.txn word ≡ record h { rpc_id = h.rpc_id % 4096 }
of_fields-word h word e =
    of_fields_parts h.len h.txn word
    ∙ rw e (
        ap₂ (λ r n. record h { resp = r; rpc_id = n }) (flag_back _ h.resp (omega arith))
          (id_back h.resp))
  where
    id_back : (b : Bool) → (h.rpc_id % 4096 + flag b) % 4096 ≡ h.rpc_id % 4096
    id_back true = omega arith
    id_back false = omega arith

-- What is read from the bytes that a header packs to: the header, its RPC id cut to 12 bits.
pub unpack-header_bytes :
    (h : Header) → unpack (header_bytes h) ≡ ok (record h { rpc_id = h.rpc_id % 4096 })
unfolding unpack header_bytes be_value
unpack-header_bytes h = ap ok (of_fields-word h _ (omega (arith, word_value h)))

pub pack_inversion :
    (h : Header) (bytes : List ℕ)
    → pack h ≡ ok bytes
    → (bytes ≡ header_bytes h) × (h.len < 256) × (h.txn < 256)
pack_inversion h bytes e = ground (arith, pack_bytes h)

-- Unpacking what a header packed to gives the header back, its RPC id cut to 12 bits; it packs to
-- four bytes.
unpack-pack_header :
    (h : Header) (bytes : List ℕ)
    → pack h ≡ ok bytes
    → (unpack bytes ≡ ok (record h { rpc_id = h.rpc_id % 4096 })) × (length bytes ≡ 4)
unfolding header_bytes
unpack-pack_header h bytes e = rw (pack_inversion h bytes e).0 (unpack-header_bytes h, refl)

flag_test : (x : ℕ) → x < 2 → flag (not (x * 4096 == 0)) ≡ x * 4096
flag_test x h = ground arith

-- The word of a header that was read keeps thirteen bits.
word-of_fields : (len txn word : ℕ) → rpc_id_and_flags (of_fields len txn word) ≡ word % 8192
word-of_fields len txn word =
    rw of_fields_parts (word_value _ ∙ omega (arith, flag_test (word / 4096 % 2) (omega arith)))

-- Any four bytes are a header, and it packs to the same bytes but for the three reserved flags,
-- which packing clears.
pack-unpack :
    (a b c d : ℕ)
    → All IsByte (a ∷ b ∷ c ∷ d ∷ [])
    → (h : Header) × (unpack (a ∷ b ∷ c ∷ d ∷ []) ≡ ok h)
      × (pack h ≡ ok (a ∷ b ∷ (c % 32) ∷ d ∷ []))
unfolding unpack header_bytes
pack-unpack a b c d bytes =
    let h : Header = of_fields a b (be_value (c ∷ d ∷ [])) in
    (h, refl, pack_fits h bytes.0 bytes.1.0 ∙ ap ok (ap₂ (λ x y. a ∷ b ∷ x ∷ y ∷ []) hi lo))
  where
    word : be_value (c ∷ d ∷ []) ≡ c * 256 + d
    word = unfold be_value in omega arith

    hi : rpc_id_and_flags (of_fields a b (be_value (c ∷ d ∷ []))) / 256 ≡ c % 32
    hi = omega (arith, word-of_fields a b (be_value (c ∷ d ∷ [])), word, bytes.1.1.1.0)

    lo : rpc_id_and_flags (of_fields a b (be_value (c ∷ d ∷ []))) % 256 ≡ d
    lo = omega (arith, word-of_fields a b (be_value (c ∷ d ∷ [])), word, bytes.1.1.1.0)
