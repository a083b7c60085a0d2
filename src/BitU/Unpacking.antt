-- ===== src/BitU/Unpacking.antt =====
-- What the loop of `BitU.unpack` reads.
use compost_rpc.Common.{
  ℕ, zero, suc, ◌+◌, ◌-◌, ◌*◌, ◌/◌, ◌%◌, ◌^◌, ◌≤◌, ◌<◌, bit_or, ◌≡◌, refl, sym, ap, subst, ◌∙◌,
  List, some, arith, lt→ltb, ltb-false, length, get_elem?, All, get_elem?-lt,
}
use compost_rpc.Common.BigEndian.{IsByte}
use compost_rpc.Common.Bitwise.{bit_and-mask, bit_or-fields, bit_or-shift}
use compost_rpc.Common.Power.{pow-add, field-lt, two-pow-pos}
use compost_rpc.Common.Result.{ok, err, index_error}
use compost_rpc.BitString.{head_bits, head_bits-field}
use compost_rpc.BitU.{unpack_loop}
use compost_rpc.BitU.Packing.{
  place, shift, place-pos, whole, start, index-lt, read-eq, read-index_error,
}
use native.Mathlib.Decide.{dec_lt}
use native.Mathlib.Nat.{mod-lt, add-zero, add_assoc, mul-div_cancel, mul-mod_left}

-- `x` is the `w` bits that follow the first `o`.
pub record Holds (buffer : List ℕ) (o w x : ℕ) : Type 0 where
  pub fits : x < 2 ^ w
  pub field : head_bits buffer (o + w) ≡ head_bits buffer o * 2 ^ w + x

Holds-zero : (buffer : List ℕ) (o : ℕ) → Holds buffer o 0 0
Holds-zero buffer o = record {
  fits = omega arith;
  field = omega (arith, ap (λ n. head_bits buffer n) (add-zero o));
}

Holds-trans :
    {buffer : List ℕ} (o m n x y : ℕ)
    → Holds buffer o m x
    → Holds buffer (o + m) n y
    → Holds buffer o (m + n) (x * 2 ^ n + y)
Holds-trans {buffer} o m n x y f g = record {
  fits = rw pow-add (field-lt x y (2 ^ m) (2 ^ n) f.fits g.fits);
  field = omega (
    arith,
    ap (λ k. head_bits buffer k) (sym (add_assoc o m n)),
    g.field,
    ap (λ (t : ℕ). t * 2 ^ n) f.field,
    ap (λ (t : ℕ). head_bits buffer o * t) (pow-add 2 m n),
  );
}

module _ (buffer : List ℕ) (rem index position : ℕ) (more : 0 < rem)
    (at_byte : index ≡ position / 8) (room : position + rem ≤ 8 * length buffer) (b : ℕ)
    (here : get_elem? buffer index ≡ some b) where
  abbrev p : ℕ
  p = place buffer rem index position more at_byte room

  abbrev s : ℕ
  s = shift buffer rem index position more at_byte room

  chunk : ℕ
  chunk = b / 2 ^ s % 2 ^ p

  chunk-Holds : All IsByte buffer → Holds buffer position p chunk
  unfolding chunk
  chunk-Holds bytes = record {
    fits = mod-lt _ (two-pow-pos p);
    field = rw (start buffer rem index position more at_byte room) at (
        head_bits-field buffer index (position % 8) p s b
          (whole buffer rem index position more at_byte room)
          (place-pos buffer rem index position more at_byte room) bytes here);
  }

  split : p + (rem - p) ≡ rem
  split = omega arith

  pub two-pow-split : 2 ^ rem ≡ 2 ^ p * 2 ^ (rem - p)
  two-pow-split = ap (λ t. 2 ^ t) (sym split) ∙ pow-add 2 p (rem - p)

  placed :
      (V : ℕ) → bit_or (V * 2 ^ rem) (chunk * 2 ^ (rem - p)) ≡ (V * 2 ^ p + chunk) * 2 ^ (rem - p)
  unfolding chunk
  placed V = rw shifted (
      rw (bit_or-shift, mul-div_cancel (V * 2 ^ p) (two-pow-pos (rem - p)), mul-mod_left)
        (rw (bit_or-fields p V chunk (mod-lt _ (two-pow-pos p))) (add-zero _)))
    where
      shifted : V * 2 ^ rem ≡ V * 2 ^ p * 2 ^ (rem - p)
      shifted = omega (arith, ap (λ (t : ℕ). V * t) two-pow-split)

  unpack_round :
      (fuel V : ℕ)
      → unpack_loop (suc fuel) buffer rem index position (V * 2 ^ rem)
        ≡ unpack_loop fuel buffer
            (rem - p)
            (index + 1)
            (position + p)
            ((V * 2 ^ p + chunk) * 2 ^ (rem - p))
  unfolding unpack_loop chunk
  unpack_round fuel V =
      rw (unpack_loop, lt→ltb 0 rem more, read-eq buffer index here)
        (rw (bit_and-mask p (b / 2 ^ s))
          (ap (unpack_loop fuel buffer (rem - p) (index + 1) (position + p)) (placed V)))

regroup : (V c x P K R : ℕ) → R ≡ P * K → (V * P + c) * K + x ≡ V * R + (c * K + x)
regroup V c x P K R e = omega (arith, ap (λ (t : ℕ). V * t) e)

-- The loop reads the bits that follow the bit position, below those read before.
pub unpack_loop_lem :
    (fuel : ℕ) (buffer : List ℕ) (rem index position V : ℕ)
    → rem ≤ fuel
    → (0 < rem → index ≡ position / 8)
    → position + rem ≤ 8 * length buffer
    → All IsByte buffer
    → (x : ℕ) × (unpack_loop fuel buffer rem index position (V * 2 ^ rem) ≡ ok (V * 2 ^ rem + x))
      × Holds buffer position rem x
unfolding unpack_loop
unpack_loop_lem zero buffer rem index position V fuelled at_byte room bytes =
    let done : rem ≡ 0 = omega arith in
    (0, ap ok (omega arith), rw done (Holds-zero buffer position))
unpack_loop_lem (suc fuel) buffer rem index position V fuelled at_byte room bytes =
    elim (dec_lt 0 rem) [
      | no done ↦
          let none_left : rem ≡ 0 = omega arith in
          (
            0,
            rw (unpack_loop, ltb-false 0 rem (omega arith)) (ap ok (omega arith)),
            rw none_left (Holds-zero buffer position),
          )
      | yes more ↦
          let at : index ≡ position / 8 = at_byte more in
          let (b, here) =
            get_elem?-lt buffer index (index-lt buffer rem index position more at room) in
          let p : ℕ = place buffer rem index position more at room in
          let c : ℕ = chunk buffer rem index position more at room b here in
          let (x, runs, rest) =
            unpack_loop_lem fuel buffer (rem - p) (index + 1) (position + p) (V * 2 ^ p + c)
              (omega arith) (λ left. omega arith) (omega arith) bytes in
          let joined : p + (rem - p) ≡ rem = omega arith in
          (
            c * 2 ^ (rem - p) + x,
            unpack_round buffer rem index position more at room b here fuel V
                ∙ runs
                ∙ ap ok (
                    regroup V c x (2 ^ p) (2 ^ (rem - p)) (2 ^ rem)
                      (two-pow-split buffer rem index position more at room b here)),
            subst (λ n. Holds buffer position n (c * 2 ^ (rem - p) + x)) joined
                (Holds-trans position p (rem - p) c x
                  (chunk-Holds buffer rem index position more at room b here bytes) rest),
          )
    ]

-- Past the end of the buffer the loop raises `IndexError`.
pub unpack_loop_short :
    (fuel : ℕ) (buffer : List ℕ) (rem index position val : ℕ)
    → rem ≤ fuel
    → 0 < rem
    → index ≡ position / 8
    → 8 * length buffer < position + rem
    → unpack_loop fuel buffer rem index position val ≡ err index_error
unfolding unpack_loop
unpack_loop_short zero buffer rem index position val fuelled more at short = absurd (omega arith)
unpack_loop_short (suc fuel) buffer rem index position val fuelled more at short =
    elim (dec_lt index (length buffer)) [
      | no past ↦
          rw (unpack_loop, lt→ltb 0 rem more, read-index_error buffer index (omega arith)) refl
      | yes inside ↦
          let (b, here) = get_elem?-lt buffer index inside in
          rw (unpack_loop, lt→ltb 0 rem more, read-eq buffer index here)
            (unpack_loop_short fuel buffer _ (index + 1) _ _ (omega arith) (omega arith)
              (omega arith) (omega arith))
    ]
