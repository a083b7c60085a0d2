-- ===== src/Runtime/FloatLaws.antt =====
-- Floats through the loads and stores of their words.
use compost_rpc.Common.{
  ℕ, ◌%◌, ◌^◌, ◌≤◌, ◌<◌, ◌≡◌, sym, ap, ◌∙◌, List, ◌++◌, arith, length, drop, ltb, lt→ltb, if-true,
}
use compost_rpc.Common.Int.{ℤ, pos}
use compost_rpc.Common.BigEndian.{be_bytes}
use compost_rpc.Common.Result.{ok}
use compost_rpc.Common.Words.{word}
use compost_rpc.Numbers.{u32, u64, byte_size, pack_number}
use compost_rpc.Runtime.Numbers.{
  load_fn, store_fn, as_unsigned, compost_u32_load, compost_u32_store, compost_u64_load,
  compost_u64_store,
}
use compost_rpc.Runtime.NumberLaws.{load_fn-pack_number, store_fn-pack_number}
use compost_rpc.Runtime.Strings.{
  compost_f32_load, compost_f32_store, compost_f64_load, compost_f64_store,
}
use native.Mathlib.Nat.{mod-eq_of_lt}

value_part : ℤ × List ℕ → ℕ
value_part (pos v, rest) = v
value_part (_, rest) = 0

u32_again :
    (dest : List ℕ) (w : ℕ)
    → w < 2 ^ 32
    → 4 ≤ length dest
    → (compost_u32_load (compost_u32_store dest w).0).0 ≡ w
unfolding load_fn store_fn as_unsigned pack_number value_part byte_size word
u32_again dest w fits room =
    let bytes : List ℕ = be_bytes 4 (w % 256 ^ 4) in
    let packed : pack_number u32 (pos w) ≡ ok bytes =
      if-true (ltb w (256 ^ 4)) _ _ (lt→ltb w (256 ^ 4) fits) in
    let same : w % 256 ^ 4 ≡ w = mod-eq_of_lt fits in
    let stored : (compost_u32_store dest (w % 256 ^ 4)).0 ≡ bytes ++ drop (length bytes) dest =
      ap (λ (r : List ℕ × ℕ). r.0) (store_fn-pack_number u32 (pos w) bytes dest room packed) in
    ap (λ k. (compost_u32_load (compost_u32_store dest k).0).0) (sym same)
    ∙ ap (λ l. (compost_u32_load l).0) stored
    ∙ ap value_part (load_fn-pack_number u32 (pos w) bytes (drop (length bytes) dest) packed)

u64_again :
    (dest : List ℕ) (w : ℕ)
    → w < 2 ^ 64
    → 8 ≤ length dest
    → (compost_u64_load (compost_u64_store dest w).0).0 ≡ w
unfolding load_fn store_fn as_unsigned pack_number value_part byte_size word
u64_again dest w fits room =
    let bytes : List ℕ = be_bytes 8 (w % 256 ^ 8) in
    let packed : pack_number u64 (pos w) ≡ ok bytes =
      if-true (ltb w (256 ^ 8)) _ _ (lt→ltb w (256 ^ 8) fits) in
    let same : w % 256 ^ 8 ≡ w = mod-eq_of_lt fits in
    let stored : (compost_u64_store dest (w % 256 ^ 8)).0 ≡ bytes ++ drop (length bytes) dest =
      ap (λ (r : List ℕ × ℕ). r.0) (store_fn-pack_number u64 (pos w) bytes dest room packed) in
    ap (λ k. (compost_u64_load (compost_u64_store dest k).0).0) (sym same)
    ∙ ap (λ l. (compost_u64_load l).0) stored
    ∙ ap value_part (load_fn-pack_number u64 (pos w) bytes (drop (length bytes) dest) packed)

-- A float that is stored where there is room is loaded again, if `memcpy` to its word and back gives
-- the float: for 32 bits and for 64 bits.
load-store_float :
    {F G : Type 0} (of_word32 : ℕ → F) (word32_of : F → ℕ) (of_word64 : ℕ → G) (word64_of : G → ℕ)
    (x : F) (y : G) (dest : List ℕ)
    → of_word32 (word32_of x) ≡ x
    → of_word64 (word64_of y) ≡ y
    → word32_of x < 2 ^ 32
    → word64_of y < 2 ^ 64
    → 8 ≤ length dest
    → ((compost_f32_load of_word32 word32_of (compost_f32_store of_word32 word32_of dest x).0).0
        ≡ x)
      × ((compost_f64_load of_word64 word64_of (compost_f64_store of_word64 word64_of dest y).0).0
          ≡ y)
unfolding compost_f32_load compost_f32_store compost_f64_load compost_f64_store
load-store_float of_word32 word32_of of_word64 word64_of x y dest back32 back64 fits32 fits64 room =
    (
      ap of_word32 (u32_again dest (word32_of x) fits32 (omega arith)) ∙ back32,
      ap of_word64 (u64_again dest (word64_of y) fits64 room) ∙ back64,
    )
