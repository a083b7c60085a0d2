-- ===== src/Runtime/Interop.antt =====
-- The header codec of the C runtime against the one of the Python package.
use compost_rpc.Common.{
  ℕ, ◌+◌, ◌*◌, ◌/◌, ◌%◌, ◌^◌, ◌<◌, ◌≤◌, bit_and, bit_or, ◌≡◌, refl, sym, ap, ap₂, ◌∙◌, Bool, true,
  false, Option, ◌&&◌, leb, not, ltb, lt→ltb, ltb-false, if-true, if-false, some, List, [], ◌∷◌,
  ◌++◌, arith, ◌==◌, if◌then◌else◌, All,
}
use compost_rpc.Common.BigEndian.{IsByte, be_value}
use compost_rpc.Common.Bitwise.{bit_and-mask, bit_and-shift, bit_or-shift, bit_or-fields}
use compost_rpc.Common.Int.{ℤ, pos}
use compost_rpc.Common.Result.{ok}
use native.Mathlib.Decide.{dec_lt}
use compost_rpc.Wire.Header
use compost_rpc.Wire.Header.{Header, of_fields}
use compost_rpc.Wire.HeaderLaws.{of_fields_parts, header_bytes, pack_inversion, word_value}
use compost_rpc.Runtime.Header.{
  CompostHeader, compost_header_load, compost_header_store, compost_eflags, load_buffer,
  store_buffer,
}

-- A header of the Python package as the C runtime holds it.
abbrev pub as_compost : Header → CompostHeader
as_compost h = record { wlen = h.len; txn = h.txn; rpc_id = h.rpc_id; resp = h.resp }

low_nibble : (c : ℕ) → bit_and c 0x0F ≡ c % 16
low_nibble c = bit_and-mask 4 c

high_nibble : (c : ℕ) → c < 256 → bit_and c 0xF0 ≡ c / 16 * 16
high_nibble c h = bit_and-shift 4 c 15 ∙ ap (λ t. t * 16) (bit_and-mask 4 (c / 16)) ∙ omega arith

resp_bit : (f : ℕ) → bit_and f 0x10 ≡ f / 16 % 2 * 16
resp_bit f = bit_and-shift 4 f 1 ∙ ap (λ t. t * 16) (bit_and-mask 1 (f / 16))

id_word : (c d : ℕ) → d < 256 → bit_or (c % 16 * 2 ^ 8) d ≡ c % 16 * 256 + d
id_word c d h = bit_or-fields 8 (c % 16) d h

module _ (a b c d : ℕ) (rest : List ℕ) (hc : IsByte c) (hd : IsByte d) where
  loaded : CompostHeader
  loaded = record {
    wlen = a;
    txn = b;
    rpc_id = c % 16 * 256 + d;
    resp = not (c / 16 % 2 * 16 == 0);
  }

  flags_value : bit_and c 0xF0 ≡ c / 16 * 16
  flags_value = high_nibble c hc

  flag_value : bit_and (bit_and c 0xF0) 0x10 ≡ c / 16 % 2 * 16
  flag_value = resp_bit (bit_and c 0xF0) ∙ omega (arith, flags_value)

  load_valid :
      (old : CompostHeader) → c < 32 → load_buffer (a ∷ b ∷ c ∷ d ∷ rest) old ≡ (pos 0, loaded)
  unfolding load_buffer loaded
  load_valid old h = ground (arith, flags_value, flag_value, low_nibble c, id_word c d hd)

  load_reserved :
      (old : CompostHeader)
      → 32 ≤ c
      → load_buffer (a ∷ b ∷ c ∷ d ∷ rest) old ≡ (compost_eflags, old)
  unfolding load_buffer
  load_reserved old h = ground (arith, flags_value, flag_value)

  loaded-of_fields : c < 32 → loaded ≡ as_compost (of_fields a b (be_value (c ∷ d ∷ [])))
  unfolding loaded
  loaded-of_fields h = rw (of_fields_parts) (
      ap₂ (λ i r. record { wlen = a; txn = b; rpc_id = i; resp = r }) (omega (arith, word_lem))
        (ground (arith, word_lem)))
    where
      word_lem : be_value (c ∷ d ∷ []) ≡ c * 256 + d
      word_lem = unfold be_value in omega arith

-- On any four bytes and what follows them: where no reserved flag is set the C runtime loads the
-- header that the Python package unpacks from the four bytes, and else it returns COMPOST_EFLAGS and
-- leaves the old header as it is.
pub load-unpack :
    (a b c d : ℕ) (rest : List ℕ) (old : CompostHeader)
    → All IsByte (a ∷ b ∷ c ∷ d ∷ [])
    → (h : Header) × (Header.unpack (a ∷ b ∷ c ∷ d ∷ []) ≡ ok h)
      × (compost_header_load (some (a ∷ b ∷ c ∷ d ∷ rest)) (some old)
          ≡ (if ltb c 32 then (pos 0, some (as_compost h)) else (compost_eflags, some old)))
unfolding Header.unpack compost_header_load
load-unpack a b c d rest old bytes =
    (of_fields a b (be_value (c ∷ d ∷ [])), refl, loads (dec_lt c 32))
  where
    as_option : ℤ × CompostHeader → ℤ × Option CompostHeader
    as_option (ret, header) = (ret, some header)

    loads :
        Dec (c < 32)
        → as_option (load_buffer (a ∷ b ∷ c ∷ d ∷ rest) old) ≡ (
            if ltb c 32
            then (pos 0, some (as_compost (of_fields a b (be_value (c ∷ d ∷ [])))))
            else (compost_eflags, some old))
    loads (yes plain) =
        ap as_option (load_valid a b c d rest bytes.1.1.0 bytes.1.1.1.0 old plain)
        ∙ ap (λ l. (pos 0, some l)) (loaded-of_fields a b c d rest bytes.1.1.0 bytes.1.1.1.0 plain)
        ∙ sym (if-true (ltb c 32) _ _ (lt→ltb c 32 plain))
    loads (no flagged) =
        ap as_option (load_reserved a b c d rest bytes.1.1.0 bytes.1.1.1.0 old (omega arith))
        ∙ sym (if-false (ltb c 32) _ _ (ltb-false c 32 (omega arith)))

or_resp : (x : ℕ) → x < 16 → bit_or x 0x10 ≡ x + 16
or_resp x h = omega (arith, bit_or-shift 4 x 1, ap (λ t. bit_or t 1) none_above)
  where
    none_above : x / 16 ≡ 0
    none_above = omega arith

stored :
    (h : CompostHeader) (w x y z : ℕ) (rest : List ℕ)
    → h.wlen < 256
    → h.txn < 256
    → h.rpc_id < 4096
    → store_buffer (w ∷ x ∷ y ∷ z ∷ rest) h
      ≡ h.wlen ∷ h.txn ∷ (h.rpc_id / 256 + (if h.resp then 16 else 0)) ∷ (h.rpc_id % 256) ∷ rest
unfolding store_buffer
stored h w x y z rest hl ht hi = ground (arith, or_resp (h.rpc_id / 256))

word_hi :
    (h : Header)
    → h.rpc_id < 4096
    → h.rpc_id / 256 + (if h.resp then 16 else 0) ≡ Header.rpc_id_and_flags h / 256
word_hi h hi = ground (arith, word_value h)

word_lo : (h : Header) → h.rpc_id < 4096 → h.rpc_id % 256 ≡ Header.rpc_id_and_flags h % 256
word_lo h hi = ground (arith, word_value h)

-- The C runtime stores a header whose id is below 4096 as the bytes that the Python package packs it
-- to, in the first four bytes of the buffer, and touches nothing behind them; the assertion holds.
pub store-pack :
    (debug : Bool) (h : Header) (w x y z : ℕ) (rest bytes : List ℕ)
    → h.rpc_id < 4096
    → Header.pack h ≡ ok bytes
    → compost_header_store debug (some (w ∷ x ∷ y ∷ z ∷ rest)) (as_compost h)
      ≡ some (pos 0, some (bytes ++ rest))
unfolding compost_header_store header_bytes
store-pack debug h w x y z rest bytes hi packed =
    let (same, hl, ht) = pack_inversion h bytes packed in
    let holds : (debug && not (leb h.rpc_id 0x0FFF)) ≡ false = asserted debug h.rpc_id hi in
    if-false (debug && not (leb h.rpc_id 0x0FFF)) _ _ holds
    ∙ ap (λ b. some (pos 0, some b))
        (stored (as_compost h) w x y z rest hl ht hi
          ∙ rw same (ap₂ (λ u v. h.len ∷ h.txn ∷ u ∷ v ∷ rest) (word_hi h hi) (word_lo h hi)))
  where
    asserted : (debug : Bool) (n : ℕ) → n < 4096 → (debug && not (leb n 0x0FFF)) ≡ false
    asserted false n h = refl
    asserted true n h = ground (arith, h)
