-- ===== src/Runtime/NumberLaws.antt =====
-- The integers of the C runtime against the formats of the Python package.
use compost_rpc.Common.{
  ℕ, ◌+◌, ◌*◌, ◌/◌, ◌%◌, ◌^◌, ◌<◌, ◌≡◌, refl, sym, ap, ◌∙◌, bit_or, List, [], ◌∷◌, ◌++◌, arith,
  length, All, drop, first_four, ◌≤◌,
}
use compost_rpc.Common.BigEndian.{
  IsByte, be_bytes, be_value, be_value-be_bytes_lt, be_bytes-IsByte, length-be_bytes,
}
use compost_rpc.Common.Bitwise.{bit_or-fields, bit_or-shift}
use compost_rpc.Common.Power.{div_unique, mod_unique, two-pow-pos}
use compost_rpc.Common.Int.{ℤ, pos}
use compost_rpc.Common.Result.{ok}
use compost_rpc.Common.Words.{signed_value, word, value_of, word-lt, value_of-word}
use compost_rpc.Numbers.{
  IntType, u64, i64, u32, i32, u16, i16, u8, i8, byte_size, signed, pack_number,
}
use compost_rpc.Numbers.Laws.{pack_number_inversion, byte_size-pos}
use compost_rpc.Runtime.Numbers.{
  load_fn, store_fn, compost_u16_load, compost_u32_load, compost_u64_load, as_unsigned, cast,
  compost_u8_store, compost_u16_store, compost_u32_store, compost_u64_store,
}

-- One more byte below those that were or-ed together.
or_step :
    (x b k m : ℕ) → m ≡ 256 * 2 ^ k → b < 256 → bit_or (x * m) (b * 2 ^ k) ≡ (x * 256 + b) * 2 ^ k
or_step x b k m size small = omega (
  arith,
  bit_or-shift k (x * m) b,
  ap (λ t. bit_or t b * 2 ^ k) above,
  ap (λ (t : ℕ). t * 2 ^ k) (bit_or-fields 8 x b small),
  mod_unique (x * m) (2 ^ k) (x * 256) 0 split (two-pow-pos k),
)
  where
    split : x * m ≡ x * 256 * 2 ^ k + 0
    split = omega (arith, ap (λ (t : ℕ). x * t) size)

    above : x * m / 2 ^ k ≡ x * 256
    above = div_unique (x * m) (2 ^ k) (x * 256) 0 split (two-pow-pos k)

load_two :
    (a b : ℕ) (rest : List ℕ)
    → All IsByte (a ∷ b ∷ [])
    → compost_u16_load (a ∷ b ∷ rest) ≡ (be_value (a ∷ b ∷ []), rest)
unfolding compost_u16_load be_value
load_two a b rest h = ap (λ t. (t, rest)) (bit_or-fields 8 a b h.1.0 ∙ omega arith)

load_four :
    (a b c d : ℕ) (rest : List ℕ)
    → All IsByte (a ∷ b ∷ c ∷ d ∷ [])
    → compost_u32_load (a ∷ b ∷ c ∷ d ∷ rest) ≡ (be_value (a ∷ b ∷ c ∷ d ∷ []), rest)
unfolding compost_u32_load be_value
load_four a b c d rest h =
    let ab : ℕ = a * 256 + b in
    let abc : ℕ = ab * 256 + c in
    ap (λ t. (bit_or (bit_or t (c * 2 ^ 8)) d, rest)) (or_step a b 16 (2 ^ 24) (omega arith) h.1.0)
    ∙ ap (λ t. (bit_or t d, rest)) (or_step ab c 8 (2 ^ 16) (omega arith) h.1.1.0)
    ∙ ap (λ t. (t, rest)) (bit_or-fields 8 abc d h.1.1.1.0 ∙ omega arith)

load_eight :
    (a b c d e f g h : ℕ) (rest : List ℕ)
    → All IsByte (a ∷ b ∷ c ∷ d ∷ e ∷ f ∷ g ∷ h ∷ [])
    → compost_u64_load (a ∷ b ∷ c ∷ d ∷ e ∷ f ∷ g ∷ h ∷ rest)
      ≡ (be_value (a ∷ b ∷ c ∷ d ∷ e ∷ f ∷ g ∷ h ∷ []), rest)
unfolding compost_u64_load be_value
load_eight a b c d e f g h rest bytes =
    let ab : ℕ = a * 256 + b in
    let abc : ℕ = ab * 256 + c in
    let abcd : ℕ = abc * 256 + d in
    let abcde : ℕ = abcd * 256 + e in
    let abcdef : ℕ = abcde * 256 + f in
    let abcdefg : ℕ = abcdef * 256 + g in
    let or6 : ℕ → ℕ = λ t. bit_or t (g * 2 ^ 8) in
    let or5 : ℕ → ℕ = λ t. or6 (bit_or t (f * 2 ^ 16)) in
    let or4 : ℕ → ℕ = λ t. or5 (bit_or t (e * 2 ^ 24)) in
    let or3 : ℕ → ℕ = λ t. or4 (bit_or t (d * 2 ^ 32)) in
    let or2 : ℕ → ℕ = λ t. or3 (bit_or t (c * 2 ^ 40)) in
    ap (λ t. (bit_or (or2 t) h, rest)) (or_step a b 48 (2 ^ 56) (omega arith) bytes.1.0)
    ∙ ap (λ t. (bit_or (or3 t) h, rest)) (or_step ab c 40 (2 ^ 48) (omega arith) bytes.1.1.0)
    ∙ ap (λ t. (bit_or (or4 t) h, rest)) (or_step abc d 32 (2 ^ 40) (omega arith) bytes.1.1.1.0)
    ∙ ap (λ t. (bit_or (or5 t) h, rest)) (or_step abcd e 24 (2 ^ 32) (omega arith) bytes.1.1.1.1.0)
    ∙ ap (λ t. (bit_or (or6 t) h, rest))
        (or_step abcde f 16 (2 ^ 24) (omega arith) bytes.1.1.1.1.1.0)
    ∙ ap (λ t. (bit_or t h, rest)) (or_step abcdef g 8 (2 ^ 16) (omega arith) bytes.1.1.1.1.1.1.0)
    ∙ ap (λ t. (t, rest)) (bit_or-fields 8 abcdefg h bytes.1.1.1.1.1.1.1.0 ∙ omega arith)

load_word :
    (t : IntType) (x : ℕ) (rest : List ℕ)
    → x < 256 ^ byte_size t
    → load_fn t (be_bytes (byte_size t) x ++ rest) ≡ (value_of (signed t) (byte_size t) x, rest)
unfolding load_fn byte_size signed value_of be_bytes
load_word u64 x rest h =
    ap as_unsigned (load_eight _ _ _ _ _ _ _ _ rest (be_bytes-IsByte 8 x))
    ∙ ap (λ v. (pos v, rest)) (be_value-be_bytes_lt 8 x h)
load_word i64 x rest h =
    ap (cast 8) (load_eight _ _ _ _ _ _ _ _ rest (be_bytes-IsByte 8 x))
    ∙ ap (λ v. (signed_value 8 v, rest)) (be_value-be_bytes_lt 8 x h)
load_word u32 x rest h =
    ap as_unsigned (load_four _ _ _ _ rest (be_bytes-IsByte 4 x))
    ∙ ap (λ v. (pos v, rest)) (be_value-be_bytes_lt 4 x h)
load_word i32 x rest h =
    ap (cast 4) (load_four _ _ _ _ rest (be_bytes-IsByte 4 x))
    ∙ ap (λ v. (signed_value 4 v, rest)) (be_value-be_bytes_lt 4 x h)
load_word u16 x rest h =
    ap as_unsigned (load_two _ _ rest (be_bytes-IsByte 2 x))
    ∙ ap (λ v. (pos v, rest)) (be_value-be_bytes_lt 2 x h)
load_word i16 x rest h =
    ap (cast 2) (load_two _ _ rest (be_bytes-IsByte 2 x))
    ∙ ap (λ v. (signed_value 2 v, rest)) (be_value-be_bytes_lt 2 x h)
load_word u8 x rest h = ap (λ v. (pos v, rest)) (omega (arith, h))
load_word i8 x rest h = ap (λ v. (signed_value 1 v, rest)) (omega (arith, h))

-- For each integer type, the load that the generator picks for it reads from the bytes that the
-- Python package packs the value that was packed, and goes on behind them.
pub load_fn-pack_number :
    (t : IntType) (value : ℤ) (bytes rest : List ℕ)
    → pack_number t value ≡ ok bytes
    → load_fn t (bytes ++ rest) ≡ (value, rest)
load_fn-pack_number t value bytes rest packed =
    let (fits, same) = pack_number_inversion t value bytes packed in
    ap (λ l. load_fn t (l ++ rest)) (sym same)
    ∙ load_word t (word (byte_size t) value) rest (word-lt (byte_size t) value (byte_size-pos t))
    ∙ ap (λ v. (v, rest)) (value_of-word (signed t) (byte_size t) value fits)

store_one :
    (dest : List ℕ) (x : ℕ)
    → x < 256
    → 1 ≤ length dest
    → compost_u8_store dest x ≡ (be_bytes 1 x ++ drop 1 dest, 1)
unfolding compost_u8_store be_bytes
store_one [] x small room = ground arith
store_one (a ∷ rest) x small room = ap (λ z. (z ∷ rest, 1)) (omega arith)

store_two :
    (dest : List ℕ) (x : ℕ)
    → 2 ≤ length dest
    → compost_u16_store dest x ≡ (be_bytes 2 x ++ drop 2 dest, 2)
unfolding compost_u16_store be_bytes
store_two [] x room = ground arith
store_two (a ∷ []) x room = ground arith
store_two (a ∷ b ∷ rest) x room = ap (λ z. ((x / 2 ^ 8 % 256) ∷ z ∷ rest, 2)) (omega arith)

store_four :
    (dest : List ℕ) (x : ℕ)
    → 4 ≤ length dest
    → compost_u32_store dest x ≡ (be_bytes 4 x ++ drop 4 dest, 4)
unfolding compost_u32_store be_bytes
store_four dest x room =
    let (a, b, c, d, rest, same) = first_four dest room in
    rw same (
      ap (λ z. ((x / 2 ^ 24 % 256) ∷ (x / 2 ^ 16 % 256) ∷ (x / 2 ^ 8 % 256) ∷ z ∷ rest, 4))
        (omega arith))

store_eight :
    (dest : List ℕ) (x : ℕ)
    → 8 ≤ length dest
    → compost_u64_store dest x ≡ (be_bytes 8 x ++ drop 8 dest, 8)
unfolding compost_u64_store be_bytes
store_eight dest x room =
    let (a, b, c, d, more, same) = first_four dest (omega arith) in
    let (e, f, g, h, rest, same') = first_four more (omega (arith, ap length same)) in
    rw (same, same')
      (ap
        (λ z. (
          (x / 2 ^ 56 % 256)
              ∷ (x / 2 ^ 48 % 256)
              ∷ (x / 2 ^ 40 % 256)
              ∷ (x / 2 ^ 32 % 256)
              ∷ (x / 2 ^ 24 % 256)
              ∷ (x / 2 ^ 16 % 256)
              ∷ (x / 2 ^ 8 % 256)
              ∷ z
              ∷ rest,
          8,
        ))
        (omega arith))

store_word :
    (t : IntType) (value : ℤ) (dest : List ℕ)
    → byte_size t ≤ length dest
    → store_fn t dest value
      ≡ (be_bytes (byte_size t) (word (byte_size t) value) ++ drop (byte_size t) dest, byte_size t)
unfolding store_fn byte_size
store_word u64 value dest room = store_eight dest (word 8 value) room
store_word i64 value dest room = store_eight dest (word 8 value) room
store_word u32 value dest room = store_four dest (word 4 value) room
store_word i32 value dest room = store_four dest (word 4 value) room
store_word u16 value dest room = store_two dest (word 2 value) room
store_word i16 value dest room = store_two dest (word 2 value) room
store_word u8 value dest room = store_one dest (word 1 value) (word-lt 1 value (omega arith)) room
store_word i8 value dest room = store_one dest (word 1 value) (word-lt 1 value (omega arith)) room

-- For each integer type, the store that the generator picks for it writes the bytes that the Python
-- package packs, keeps what lies behind them, and goes on by as many bytes.
pub store_fn-pack_number :
    (t : IntType) (value : ℤ) (bytes dest : List ℕ)
    → byte_size t ≤ length dest
    → pack_number t value ≡ ok bytes
    → store_fn t dest value ≡ (bytes ++ drop (length bytes) dest, length bytes)
store_fn-pack_number t value bytes dest room packed =
    let (fits, same) = pack_number_inversion t value bytes packed in
    let size : length bytes ≡ byte_size t =
      ap length (sym same) ∙ length-be_bytes (byte_size t) _ in
    store_word t value dest room ∙ rw (same, size) refl
