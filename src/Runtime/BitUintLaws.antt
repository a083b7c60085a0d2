-- ===== src/Runtime/BitUintLaws.antt =====
-- `compost_bituint_load` against `BitU.unpack`.
use compost_rpc.Common.{
  ℕ, zero, suc, ◌+◌, ◌-◌, ◌*◌, ◌/◌, ◌%◌, ◌^◌, ◌<◌, ◌≤◌, ◌≡◌, ap, ◌∙◌, bit_and, min, some, List, [],
  ◌∷◌, Option-cases, inl, inr, arith, leb, lt→ltb, ltb-false, get_or, get_elem?, if◌then◌else◌,
  length, All,
}
use compost_rpc.Common.Bitwise.{bit_and-mask}
use compost_rpc.Common.Power.{pow-add, two-pow-pos}
use compost_rpc.Common.Result.{ok, >>=-eq-ok}
use compost_rpc.MemUnit.{MemUnit}
use compost_rpc.MemUnit
use compost_rpc.BitU
use compost_rpc.BitU.RoundTrip
use compost_rpc.Common.BigEndian.{IsByte}
use compost_rpc.BitU.{read, unpack_loop}
use compost_rpc.Runtime.BitUint.{bituint_load_loop, compost_bituint_load}
use native.Mathlib.Nat.{mod-eq_of_lt, mod-lt, pow-le-pow_right, mul-lt-mul_of_pos_right}
use native.Mathlib.Decide.{dec_lt}

get_or-some : (src : List ℕ) (i b : ℕ) → get_elem? src i ≡ some b → get_or src i 0 ≡ b
get_or-some [] i b h = cc
get_or-some (a ∷ src) zero b h = cc
get_or-some (a ∷ src) (suc i) b h = get_or-some src i b h

get_or-read : (src : List ℕ) (i b : ℕ) → read src i ≡ ok b → get_or src i 0 ≡ b
unfolding read
get_or-read src i b h = elim (Option-cases (get_elem? src i)) [
  | inl missing ↦ cc (rw (read, missing) at h)
  | inr (c, here) ↦ get_or-some src i c here ∙ cc (rw (read, here) at h)
]

smaller : (a b : ℕ) → (if leb a b then a else b) ≡ min a b
smaller a b = ground arith

-- A chunk at its place stays below 64 bits.
chunk-lt : (x p rem : ℕ) → p ≤ rem → rem ≤ 32 → bit_and x (2 ^ p - 1) * 2 ^ (rem - p) < 2 ^ 64
chunk-lt x p rem hp hr =
    let small : bit_and x (2 ^ p - 1) < 2 ^ p = rw bit_and-mask (mod-lt x (two-pow-pos p)) in
    let below = mul-lt-mul_of_pos_right small (two-pow-pos (rem - p)) in
    let whole : 2 ^ rem ≡ 2 ^ p * 2 ^ (rem - p) =
      ap (λ k. 2 ^ k) (omega arith) ∙ pow-add 2 p (rem - p) in
    let bound : 2 ^ rem ≤ 2 ^ 32 = pow-le-pow_right (omega arith) hr in
    omega (arith, below, whole, bound)

load_loop_lem :
    (fuel : ℕ) (src : List ℕ) (rem index position val x : ℕ)
    → rem ≤ 32
    → index ≤ position
    → position + rem < 2 ^ 32
    → unpack_loop fuel src rem index position val ≡ ok x
    → bituint_load_loop fuel src rem index position val ≡ x
unfolding unpack_loop bituint_load_loop
load_loop_lem zero src rem index position val x hr hi hp h = cc
load_loop_lem (suc fuel) src rem index position val x hr hi hp h = elim (dec_lt 0 rem) [
  | no done ↦
      rw (bituint_load_loop, ltb-false 0 rem (omega arith))
        (cc (rw (unpack_loop, ltb-false 0 rem (omega arith)) at h))
  | yes more ↦
      let place : ℕ = min rem (8 - position % 8) in
      let (b, reads, next) =
        >>=-eq-ok (read src index) _ (rw (unpack_loop, lt→ltb 0 rem more) at h) in
      let next_index : index + 1 < 2 ^ 32 = omega arith in
      let next_position : position + place < 2 ^ 32 = omega arith in
      rw
        (
          bituint_load_loop,
          lt→ltb 0 rem more,
          smaller rem (8 - position % 8),
          get_or-read src index b reads,
        )
        (rw
          (
            mod-eq_of_lt next_index,
            mod-eq_of_lt next_position,
            mod-eq_of_lt (chunk-lt (b / 2 ^ (8 - position % 8 - place)) place rem (omega arith) hr),
          )
          (load_loop_lem fuel src (rem - place) (index + 1) (position + place) _ x (omega arith)
            (omega arith) (omega arith) next))
]

-- Where a field of at most 32 bits lies inside the buffer, the C runtime loads from it the number
-- that the Python package unpacks from it.
pub compost_bituint_load-unpack :
    (size : MemUnit) (buffer : List ℕ) (offset : MemUnit)
    → size.bits ≤ 32
    → offset.bits + size.bits ≤ 8 * length buffer
    → 8 * length buffer < 2 ^ 32
    → All IsByte buffer
    → (x : ℕ) × (BitU.unpack size buffer offset ≡ ok (x, MemUnit.add offset size))
      × (compost_bituint_load buffer offset.bits size.bits ≡ x)
unfolding BitU.unpack compost_bituint_load
compost_bituint_load-unpack size buffer offset narrow room short bytes =
    let (x, reads, holds) = RoundTrip.unpack_reads size buffer offset room bytes in
    let (y, loop, same) =
      >>=-eq-ok (unpack_loop size.bits buffer size.bits (offset.bits / 8) offset.bits 0) _ reads in
    let loaded =
      load_loop_lem size.bits buffer size.bits (offset.bits / 8) offset.bits 0 y narrow
        (omega arith) (omega arith) loop in
    let y_x : y ≡ x = cc same in
    let bound : 2 ^ size.bits ≤ 2 ^ 32 = pow-le-pow_right (omega arith) narrow in
    (
      x,
      reads,
      ap (λ t. t % 2 ^ 32) (loaded ∙ y_x) ∙ mod-eq_of_lt (omega (arith, holds.fits, bound)),
    )
