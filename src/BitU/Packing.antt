-- ===== src/BitU/Packing.antt =====
-- What the loops of `BitU.pack` and `BitU.unpack` do to a buffer seen as a bit string.
use compost_rpc.Common.{
  ℕ, zero, suc, ◌+◌, ◌-◌, ◌*◌, ◌/◌, ◌%◌, ◌^◌, ◌≤◌, ◌<◌, min, ◌≡◌, refl, sym, ap, subst, ◌∙◌, List,
  some, arith, lt→ltb, ltb-false, length, get_elem?, set, All, get_elem?-lt, get_elem?-none,
  length-set, All-set,
}
use compost_rpc.Common.Int.{ℤ}
use compost_rpc.Common.BigEndian.{IsByte}
use compost_rpc.Common.Power.{pow-add}
use compost_rpc.Common.Result.{ok, err, index_error}
use compost_rpc.BitString.{
  head_bits, write_field, written-IsByte, head_bits-written, head_bits-written_keep,
}
use compost_rpc.BitU.{read, pack_loop, bits_of}
use compost_rpc.BitU.Low.{low_bits, low_bits-lt, bits_of-lt, low_bits-add}
use native.Mathlib.Decide.{dec_lt}
use native.Mathlib.Nat.{add-zero, add_assoc}

-- `out` is `buffer` with the `w` bits of `x` written from bit `o` on, as far as bit `o + w`.
pub record Written (buffer out : List ℕ) (o w x : ℕ) : Type 0 where
  pub same_length : length out ≡ length buffer
  pub bytes : All IsByte out
  pub before : (n : ℕ) → head_bits out (min n o) ≡ head_bits buffer (min n o)
  pub field : head_bits out (o + w) ≡ head_bits buffer o * 2 ^ w + x

pub Written-before :
    {buffer out : List ℕ} {o w x : ℕ}
    → Written buffer out o w x
    → (n : ℕ) → n ≤ o
    → head_bits out n ≡ head_bits buffer n
Written-before {buffer} {out} {o} f n h =
    let inside : min n o ≡ n = omega arith in
    ap (λ k. head_bits out k) (sym inside) ∙ f.before n ∙ ap (λ k. head_bits buffer k) inside

Written-zero :
    (value : ℤ) (buffer : List ℕ) (o : ℕ)
    → All IsByte buffer
    → Written buffer buffer o 0 (low_bits value 0)
Written-zero value buffer o h = record {
  same_length = refl;
  bytes = h;
  before = λ n. refl;
  field = omega (arith, low_bits-lt value 0, ap (λ n. head_bits buffer n) (add-zero o));
}

-- One field behind another is one field.
Written-trans :
    {buffer mid out : List ℕ} (o m n x y : ℕ)
    → Written buffer mid o m x
    → Written mid out (o + m) n y
    → Written buffer out o (m + n) (x * 2 ^ n + y)
Written-trans {buffer} {mid} {out} o m n x y f g = record {
  same_length = g.same_length ∙ f.same_length;
  bytes = g.bytes;
  before = λ k. Written-before g (min k o) (omega arith) ∙ f.before k;
  field = omega (
    arith,
    ap (λ k. head_bits out k) (sym (add_assoc o m n)),
    g.field,
    ap (λ (t : ℕ). t * 2 ^ n) f.field,
    ap (λ (t : ℕ). head_bits buffer o * t) (pow-add 2 m n),
  );
}

pub read-eq : (buffer : List ℕ) (i : ℕ) {b : ℕ} → get_elem? buffer i ≡ some b → read buffer i ≡ ok b
unfolding read
read-eq buffer i here = rw (read, here) refl

pub read-index_error :
    (buffer : List ℕ) (i : ℕ) → length buffer ≤ i → read buffer i ≡ err index_error
unfolding read
read-index_error buffer i h = rw (read, get_elem?-none buffer i h) refl

-- One round of a loop: the place of the chunk in its byte.
module _ (buffer : List ℕ) (rem index position : ℕ) (more : 0 < rem)
    (at_byte : index ≡ position / 8) (room : position + rem ≤ 8 * length buffer) where
  abbrev pub fill : ℕ
  fill = 8 - position % 8

  abbrev pub place : ℕ
  place = min rem fill

  abbrev pub shift : ℕ
  shift = fill - place

  pub place-pos : 0 < place
  place-pos = omega arith

  pub whole : position % 8 + place + shift ≡ 8
  whole = omega arith

  pub start : 8 * index + position % 8 ≡ position
  start = omega arith

  pub index-lt : index < length buffer
  index-lt = omega arith

  module _ (b : ℕ) (here : get_elem? buffer index ≡ some b) where
    pack_round :
        (fuel : ℕ) (value : ℤ)
        → pack_loop (suc fuel) value buffer rem index position
          ≡ pack_loop fuel value
              (set buffer index
                (write_field place shift b (bits_of value (rem - place) (2 ^ place - 1))))
              (rem - place)
              (index + 1)
              (position + place)
    unfolding pack_loop write_field
    pack_round fuel value = rw (pack_loop, lt→ltb 0 rem more, read-eq buffer index here) refl

    Written-round :
        (x : ℕ)
        → All IsByte buffer
        → x < 2 ^ place
        → Written buffer (set buffer index (write_field place shift b x)) position place x
    Written-round x bytes fits = record {
      same_length = length-set buffer index _;
      bytes = All-set IsByte buffer index _ bytes (
          written-IsByte buffer index (position % 8) place shift b x whole place-pos bytes here
            fits);
      before = λ n.
          head_bits-written_keep buffer index (position % 8) place shift b x whole place-pos bytes
            here fits (min n position) (omega (arith, start));
      field = rw start at (
          head_bits-written buffer index (position % 8) place shift b x whole place-pos bytes here
            fits);
    }

-- The loop writes the low bits of the value, from the bit position on.
pub pack_loop_lem :
    (fuel : ℕ) (value : ℤ) (buffer : List ℕ) (rem index position : ℕ)
    → rem ≤ fuel
    → (0 < rem → index ≡ position / 8)
    → position + rem ≤ 8 * length buffer
    → All IsByte buffer
    → (out : List ℕ) × (pack_loop fuel value buffer rem index position ≡ ok out)
      × Written buffer out position rem (low_bits value rem)
unfolding pack_loop
pack_loop_lem zero value buffer rem index position fuelled at_byte room bytes =
    let done : rem ≡ 0 = omega arith in
    (buffer, refl, rw done (Written-zero value buffer position bytes))
pack_loop_lem (suc fuel) value buffer rem index position fuelled at_byte room bytes =
    elim (dec_lt 0 rem) [
      | no done ↦
          let none_left : rem ≡ 0 = omega arith in
          (
            buffer,
            rw (pack_loop, ltb-false 0 rem (omega arith)) refl,
            rw none_left (Written-zero value buffer position bytes),
          )
      | yes more ↦
          let at : index ≡ position / 8 = at_byte more in
          let (b, here) =
            get_elem?-lt buffer index (index-lt buffer rem index position more at room) in
          let p : ℕ = place buffer rem index position more at room in
          let x : ℕ = bits_of value (rem - p) (2 ^ p - 1) in
          let first =
            Written-round buffer rem index position more at room b here x bytes
              (bits_of-lt value (rem - p) p) in
          let (out, runs, rest) =
            pack_loop_lem fuel value _ (rem - p) (index + 1) (position + p) (omega (arith))
              (λ left. omega arith) (omega (arith, first.same_length)) first.bytes in
          let split : p + (rem - p) ≡ rem = omega arith in
          (
            out,
            pack_round buffer rem index position more at room b here fuel value ∙ runs,
            subst (λ n. Written buffer out position n (low_bits value n)) split
                (rw low_bits-add (Written-trans position p (rem - p) x _ first rest)),
          )
    ]

-- A field that does not lie inside the buffer makes the loop raise `IndexError`.
pub pack_loop_short :
    (fuel : ℕ) (value : ℤ) (buffer : List ℕ) (rem index position : ℕ)
    → rem ≤ fuel
    → 0 < rem
    → index ≡ position / 8
    → 8 * length buffer < position + rem
    → pack_loop fuel value buffer rem index position ≡ err index_error
unfolding pack_loop
pack_loop_short zero value buffer rem index position fuelled more at short = absurd (omega arith)
pack_loop_short (suc fuel) value buffer rem index position fuelled more at short =
    elim (dec_lt index (length buffer)) [
      | no past ↦
          rw (pack_loop, lt→ltb 0 rem more, read-index_error buffer index (omega arith)) refl
      | yes inside ↦
          let (b, here) = get_elem?-lt buffer index inside in
          rw (pack_loop, lt→ltb 0 rem more, read-eq buffer index here)
            (pack_loop_short fuel value _ _ (index + 1) _ (omega arith) (omega arith) (omega arith)
              (omega (arith, length-set buffer index _)))
    ]
