-- ===== src/Numbers/Laws.antt =====
-- What the constructors admit, and numbers packed and unpacked.
use compost_rpc.Common.{
  ℕ, ◌+◌, ◌^◌, ◌<◌, ◌≤◌, ◌≡◌, ◌≢◌, ◌↔◌, refl, sym, subst, take, drop, ap, ◌∙◌, Bool-cases, inl, inr,
  true, List, ◌++◌, arith, ltb, ltb-false, if-false, if-true, length, length-append, take-append,
  drop-append, All,
}
use native.Mathlib.Nat.{one-le-pow}
use compost_rpc.Common.BigEndian.{
  IsByte, be_bytes, be_value, length-be_bytes, be_bytes-IsByte, be_value-be_bytes_lt,
}
use compost_rpc.Common.Int.{ℤ, pos, negsuc}
use compost_rpc.Common.Result.{ok, err, struct_error}
use compost_rpc.Common.Words.{word, in_range, value_of, word-lt, value_of-word}
use compost_rpc.Numbers.{
  IntType, u64, i64, u32, i32, u16, i16, u8, i8, byte_size, signed, construct, pack_number,
  unpack_number,
}

pub pack_number_inversion :
    (t : IntType) (value : ℤ) (bytes : List ℕ)
    → pack_number t value ≡ ok bytes
    → (in_range (signed t) (byte_size t) value ≡ true)
      × (be_bytes (byte_size t) (word (byte_size t) value) ≡ bytes)
unfolding pack_number
pack_number_inversion t value bytes packed =
    elim (Bool-cases (in_range (signed t) (byte_size t) value)) [
      | inl fits ↦ (
        fits,
        cc (
          packed,
          if-true (in_range (signed t) (byte_size t) value)
              (ok (be_bytes (byte_size t) (word (byte_size t) value))) (err struct_error) fits,
        ),
      )
      | inr outside ↦ cc (
        packed,
        if-false (in_range (signed t) (byte_size t) value)
            (ok (be_bytes (byte_size t) (word (byte_size t) value))) (err struct_error) outside,
      )
    ]

pub byte_size-pos : (t : IntType) → 0 < 256 ^ byte_size t
unfolding byte_size
byte_size-pos t = omega (arith, one-le-pow (byte_size t) 256)

-- For every type but I64, the constructor admits exactly the values that the type's format packs.
construct_iff :
    (t : IntType) (value : ℤ)
    → t ≢ i64
    → (construct t value ≡ ok value) ↔ (pack_number t value ≢ err struct_error)
unfolding construct pack_number byte_size signed in_range
construct_iff u64 (pos v) narrow = ground arith
construct_iff u64 (negsuc v) narrow = ground arith
construct_iff i64 (pos v) narrow = elim (narrow refl) [ ]
construct_iff i64 (negsuc v) narrow = elim (narrow refl) [ ]
construct_iff u32 (pos v) narrow = ground arith
construct_iff u32 (negsuc v) narrow = ground arith
construct_iff i32 (pos v) narrow = ground arith
construct_iff i32 (negsuc v) narrow = ground arith
construct_iff u16 (pos v) narrow = ground arith
construct_iff u16 (negsuc v) narrow = ground arith
construct_iff i16 (pos v) narrow = ground arith
construct_iff i16 (negsuc v) narrow = ground arith
construct_iff u8 (pos v) narrow = ground arith
construct_iff u8 (negsuc v) narrow = ground arith
construct_iff i8 (pos v) narrow = ground arith
construct_iff i8 (negsuc v) narrow = ground arith

-- I64 admits values from 2 ** 63 on, which its format does not pack.
pub construct_wide :
    (v : ℕ)
    → 2 ^ 63 ≤ v
    → v < 2 ^ 64
    → (construct i64 (pos v) ≡ ok (pos v)) × (pack_number i64 (pos v) ≡ err struct_error)
unfolding construct pack_number byte_size signed in_range
construct_wide v lo hi = ground arith

-- A packed number is read back at its place in any payload, and takes the bytes that its size says.
pub unpack-pack_number :
    (t : IntType) (value : ℤ) (bytes before behind : List ℕ)
    → pack_number t value ≡ ok bytes
    → (unpack_number t (before ++ (bytes ++ behind)) (length before) ≡ ok value)
      × (length bytes ≡ byte_size t)
      × All IsByte bytes
unfolding unpack_number
unpack-pack_number t value bytes before behind packed =
    let (fits, same) = pack_number_inversion t value bytes packed in
    let n : ℕ = byte_size t in
    let size : length bytes ≡ n = ap length (sym same) ∙ length-be_bytes n (word n value) in
    let room : n + length before ≤ length (before ++ (bytes ++ behind)) =
      omega (arith, length-append before (bytes ++ behind), length-append bytes behind, size) in
    let part : take n (drop (length before) (before ++ (bytes ++ behind))) ≡ bytes =
      rw drop-append (ap (λ k. take k (bytes ++ behind)) (sym size) ∙ take-append bytes behind) in
    let back : be_value bytes ≡ word n value =
      ap be_value (sym same)
      ∙ be_value-be_bytes_lt n (word n value) (word-lt n value (byte_size-pos t)) in
    (
      if-false (ltb (length (before ++ (bytes ++ behind))) (length before + n)) _ _
            (ltb-false _ (length before + n) (omega (arith, room)))
          ∙ ap ok (
              ap (λ l. value_of (signed t) n (be_value l)) part
              ∙ ap (value_of (signed t) n) back
              ∙ value_of-word (signed t) n value fits),
      size,
      subst (λ l. All IsByte l) same (be_bytes-IsByte n (word n value)),
    )
