-- ===== src/Runtime/Numbers.antt =====
-- The loads and stores of integers. A load has what lies at `*src`, and returns the value and what
-- lies behind it; a store has what lies at `*dest`, and returns what lies there afterwards and how
-- far `*dest` goes on. The buffer is long enough.
use compost_rpc.Common.{ℕ, ◌*◌, ◌/◌, ◌%◌, ◌^◌, bit_or, List, get_or, set, drop}
use compost_rpc.Common.Int.{ℤ, pos}
use compost_rpc.Common.Words.{signed_value, word}
use compost_rpc.Numbers.{IntType, u64, i64, u32, i32, u16, i16, u8, i8}

unfoldable pub compost_u8_load : List ℕ → ℕ × List ℕ
compost_u8_load src = (get_or src 0 0, drop 1 src)

unfoldable pub compost_u8_store : List ℕ → ℕ → List ℕ × ℕ
compost_u8_store dest src = (set dest 0 src, 1)

unfoldable pub compost_u16_load : List ℕ → ℕ × List ℕ
compost_u16_load src = (bit_or (get_or src 0 0 * 2 ^ 8) (get_or src 1 0), drop 2 src)

unfoldable pub compost_u16_store : List ℕ → ℕ → List ℕ × ℕ
compost_u16_store dest src = let d1 = set dest 0 (src / 2 ^ 8 % 256) in (set d1 1 (src % 256), 2)

unfoldable pub compost_u32_load : List ℕ → ℕ × List ℕ
compost_u32_load src = (
  bit_or
      (bit_or (bit_or (get_or src 0 0 * 2 ^ 24) (get_or src 1 0 * 2 ^ 16)) (get_or src 2 0 * 2 ^ 8))
      (get_or src 3 0),
  drop 4 src,
)

unfoldable pub compost_u32_store : List ℕ → ℕ → List ℕ × ℕ
compost_u32_store dest src =
    let d1 = set dest 0 (src / 2 ^ 24 % 256) in
    let d2 = set d1 1 (src / 2 ^ 16 % 256) in
    let d3 = set d2 2 (src / 2 ^ 8 % 256) in (set d3 3 (src % 256), 4)

unfoldable pub compost_u64_load : List ℕ → ℕ × List ℕ
compost_u64_load src =
    let w1 = bit_or (get_or src 0 0 * 2 ^ 56) (get_or src 1 0 * 2 ^ 48) in
    let w2 = bit_or w1 (get_or src 2 0 * 2 ^ 40) in
    let w3 = bit_or w2 (get_or src 3 0 * 2 ^ 32) in
    let w4 = bit_or w3 (get_or src 4 0 * 2 ^ 24) in
    let w5 = bit_or w4 (get_or src 5 0 * 2 ^ 16) in
    let w6 = bit_or w5 (get_or src 6 0 * 2 ^ 8) in (bit_or w6 (get_or src 7 0), drop 8 src)

unfoldable pub compost_u64_store : List ℕ → ℕ → List ℕ × ℕ
compost_u64_store dest src =
    let d1 = set dest 0 (src / 2 ^ 56 % 256) in
    let d2 = set d1 1 (src / 2 ^ 48 % 256) in
    let d3 = set d2 2 (src / 2 ^ 40 % 256) in
    let d4 = set d3 3 (src / 2 ^ 32 % 256) in
    let d5 = set d4 4 (src / 2 ^ 24 % 256) in
    let d6 = set d5 5 (src / 2 ^ 16 % 256) in
    let d7 = set d6 6 (src / 2 ^ 8 % 256) in (set d7 7 (src % 256), 8)

-- A cast to a signed type, of the value that was loaded.
abbrev pub cast : ℕ → ℕ × List ℕ → ℤ × List ℕ
cast n (val, src) = (signed_value n val, src)

abbrev pub as_unsigned : ℕ × List ℕ → ℤ × List ℕ
as_unsigned (val, src) = (pos val, src)

unfoldable pub compost_i8_load : List ℕ → ℤ × List ℕ
unfolding signed_value compost_u8_load
compost_i8_load src = cast 1 (compost_u8_load src)

unfoldable pub compost_i8_store : List ℕ → ℤ → List ℕ × ℕ
unfolding word compost_u8_store
compost_i8_store dest src = compost_u8_store dest (word 1 src)

unfoldable pub compost_i16_load : List ℕ → ℤ × List ℕ
unfolding signed_value compost_u16_load
compost_i16_load src = cast 2 (compost_u16_load src)

unfoldable pub compost_i16_store : List ℕ → ℤ → List ℕ × ℕ
unfolding word compost_u16_store
compost_i16_store dest src = compost_u16_store dest (word 2 src)

unfoldable pub compost_i32_load : List ℕ → ℤ × List ℕ
unfolding signed_value compost_u32_load
compost_i32_load src = cast 4 (compost_u32_load src)

unfoldable pub compost_i32_store : List ℕ → ℤ → List ℕ × ℕ
unfolding word compost_u32_store
compost_i32_store dest src = compost_u32_store dest (word 4 src)

unfoldable pub compost_i64_load : List ℕ → ℤ × List ℕ
unfolding signed_value compost_u64_load
compost_i64_load src = cast 8 (compost_u64_load src)

unfoldable pub compost_i64_store : List ℕ → ℤ → List ℕ × ℕ
unfolding word compost_u64_store
compost_i64_store dest src = compost_u64_store dest (word 8 src)

-- `_serdes_fn` picks the function by the name of the type.
unfoldable pub load_fn : IntType → List ℕ → ℤ × List ℕ
unfolding compost_u8_load compost_i8_load compost_u16_load compost_i16_load compost_u32_load
    compost_i32_load compost_u64_load compost_i64_load
load_fn u64 src = as_unsigned (compost_u64_load src)
load_fn i64 src = compost_i64_load src
load_fn u32 src = as_unsigned (compost_u32_load src)
load_fn i32 src = compost_i32_load src
load_fn u16 src = as_unsigned (compost_u16_load src)
load_fn i16 src = compost_i16_load src
load_fn u8 src = as_unsigned (compost_u8_load src)
load_fn i8 src = compost_i8_load src

unfoldable pub store_fn : IntType → List ℕ → ℤ → List ℕ × ℕ
unfolding compost_u8_store compost_i8_store compost_u16_store compost_i16_store compost_u32_store
    compost_i32_store compost_u64_store compost_i64_store word
store_fn u64 dest src = compost_u64_store dest (word 8 src)
store_fn i64 dest src = compost_i64_store dest src
store_fn u32 dest src = compost_u32_store dest (word 4 src)
store_fn i32 dest src = compost_i32_store dest src
store_fn u16 dest src = compost_u16_store dest (word 2 src)
store_fn i16 dest src = compost_i16_store dest src
store_fn u8 dest src = compost_u8_store dest (word 1 src)
store_fn i8 dest src = compost_i8_store dest src
