-- ===== src/BitString.antt =====
-- A list of bytes read as one string of bits, the most significant bit of each byte first. The
-- packing code is specified by it: `head_bits buffer n` is the number that the first `n` bits form.
use compost_rpc.Common.{
  ℕ, zero, suc, ◌+◌, ◌-◌, ◌*◌, ◌/◌, ◌%◌, ◌^◌, ◌≤◌, ◌<◌, bit_or, bit_and, ◌≡◌, refl, sym, ap, ◌∙◌,
  ◌↔◌, some, List, [], ◌∷◌, ltb, ltb-false, lt→ltb, if◌then◌else◌, arith, length, get_elem?,
  get_elem?-some-lt, get_elem?-set_self, All-set, All-get_elem?, set, All,
}
use compost_rpc.Common.BigEndian.{IsByte}
use compost_rpc.Common.Power.{pow-add, two-pow-pos, div_unique, mod_unique}
use compost_rpc.Common.Bitwise.{put_field}
use native.Mathlib.Nat.{div-div-eq-div-mul, div-add-mod', mod-lt, div-lt_iff_lt-mul}
use native.Mathlib.Decide.{dec_lt}

unfoldable pub head_bits : List ℕ → ℕ → ℕ
head_bits [] n = 0
head_bits (b ∷ bs) n = if ltb n 8 then b / 2 ^ (8 - n) else b * 2 ^ (n - 8) + head_bits bs (n - 8)

pub head_bits-zero : (buffer : List ℕ) → All IsByte buffer → head_bits buffer 0 ≡ 0
unfolding head_bits
head_bits-zero [] h = refl
head_bits-zero (b ∷ bs) h = omega (arith, h.0)

-- The bits of a whole byte and what follows.
pub head_bits-later :
    (b n : ℕ) (bs : List ℕ) → head_bits (b ∷ bs) (8 + n) ≡ b * 2 ^ n + head_bits bs n
unfolding head_bits
head_bits-later b n bs = rw (ltb-false (8 + n) 8 (omega arith), eight)
  where
    eight : 8 + n - 8 ≡ n
    eight = omega arith

head_bits-first :
    (b n : ℕ) (bs : List ℕ) → All IsByte bs → n ≤ 8 → head_bits (b ∷ bs) n ≡ b / 2 ^ (8 - n)
unfolding head_bits
head_bits-first b n bs h hn = elim (dec_lt n 8) [
  | yes short ↦ rw (lt→ltb n 8 short)
  | no whole ↦ let full : n ≡ 8 = omega arith in rw full (omega (arith, head_bits-zero bs h))
]

pub head_bits-byte :
    (buffer : List ℕ) (i r b : ℕ)
    → All IsByte buffer
    → get_elem? buffer i ≡ some b
    → r ≤ 8
    → head_bits buffer (8 * i + r) ≡ head_bits buffer (8 * i) * 2 ^ r + b / 2 ^ (8 - r)
head_bits-byte [] i r b h e hr = cc
head_bits-byte (c ∷ bs) zero r b h e hr = omega (
  arith,
  ap (λ t. head_bits (c ∷ bs) t) start,
  ap (λ (t : ℕ). t * 2 ^ r) (head_bits-zero (c ∷ bs) h),
  head_bits-first c r bs h.1 hr,
  ap (λ t. t / 2 ^ (8 - r)) same,
)
  where
    same : c ≡ b
    same = cc e

    start : 8 * 0 + r ≡ r
    start = omega arith
head_bits-byte (c ∷ bs) (suc i) r b h e hr = omega (
  arith,
  ap (λ t. head_bits (c ∷ bs) t) ends,
  head_bits-later c (8 * i + r) bs,
  ap (λ (t : ℕ). t * 2 ^ r) (ap (λ t. head_bits (c ∷ bs) t) starts ∙ head_bits-later c (8 * i) bs),
  head_bits-byte bs i r b h.1 e hr,
  ap (λ (t : ℕ). c * t) (pow-add 2 (8 * i) r),
)
  where
    ends : 8 * suc i + r ≡ 8 + (8 * i + r)
    ends = omega arith

    starts : 8 * suc i ≡ 8 + 8 * i
    starts = omega arith

pub head_bits-set :
    (buffer : List ℕ) (i x n : ℕ)
    → All IsByte buffer
    → IsByte x
    → n ≤ 8 * i
    → head_bits (set buffer i x) n ≡ head_bits buffer n
unfolding head_bits
head_bits-set [] i x n h hx hn = refl
head_bits-set (b ∷ bs) zero x n h hx hn =
    let start : n ≡ 0 = omega arith in rw start (omega (arith, h.0))
head_bits-set (b ∷ bs) (suc i) x n h hx hn = ground (arith, head_bits-set bs i x (n - 8) h.1 hx)

-- A field of `p` bits in one byte: `r` bits stand above it and `s` bits below.
module _ (buffer : List ℕ) (i r p s b : ℕ) (whole : r + p + s ≡ 8) (some_bits : 0 < p)
    (bytes : All IsByte buffer) (here : get_elem? buffer i ≡ some b) where
  above : head_bits buffer (8 * i + r) ≡ head_bits buffer (8 * i) * 2 ^ r + b / 2 ^ s / 2 ^ p
  above =
      head_bits-byte buffer i r b bytes here (omega arith)
      ∙ ap (λ (t : ℕ). head_bits buffer (8 * i) * 2 ^ r + t) below
    where
      width : 8 - r ≡ s + p
      width = omega arith

      below : b / 2 ^ (8 - r) ≡ b / 2 ^ s / 2 ^ p
      below = rw (width, pow-add, div-div-eq-div-mul) refl

  pub head_bits-field :
      head_bits buffer (8 * i + r + p) ≡ head_bits buffer (8 * i + r) * 2 ^ p + b / 2 ^ s % 2 ^ p
  head_bits-field = omega (
    arith,
    ap (λ t. head_bits buffer t) regroup,
    ap (λ t. b / 2 ^ t) left,
    head_bits-byte buffer i (r + p) b bytes here (omega arith),
    ap (λ (t : ℕ). t * 2 ^ p) above,
    ap (λ (t : ℕ). head_bits buffer (8 * i) * t) (pow-add 2 r p),
    div-add-mod' (b / 2 ^ s) (2 ^ p),
  )
    where
      regroup : 8 * i + r + p ≡ 8 * i + (r + p)
      regroup = omega arith

      left : 8 - (r + p) ≡ s
      left = omega arith

byte_iff : (r p s x : ℕ) → r + p + s ≡ 8 → (x / 2 ^ s / 2 ^ p < 2 ^ r) ↔ (x < 256)
byte_iff r p s x whole =
    rw (div-div-eq-div-mul, ← pow-add)
      (
        (λ h. rw (← width) ((div-lt_iff_lt-mul (two-pow-pos (s + p))).0 h)),
        (λ h. (div-lt_iff_lt-mul (two-pow-pos (s + p))).1 (rw width h)),
      )
  where
    sum : r + (s + p) ≡ 8
    sum = omega arith

    width : 2 ^ r * 2 ^ (s + p) ≡ 256
    width = rw (← pow-add, sum) refl

-- A field of `p` bits cleared, and `v` put there.
unfoldable pub write_field : ℕ → ℕ → ℕ → ℕ → ℕ
write_field p s b v = bit_or (b - bit_and b ((2 ^ p - 1) * 2 ^ s)) (v * 2 ^ s)

-- `v` written over that field: the bits above it stay, and then `v` follows.
module _ (buffer : List ℕ) (i r p s b v : ℕ) (whole : r + p + s ≡ 8) (some_bits : 0 < p)
    (bytes : All IsByte buffer) (here : get_elem? buffer i ≡ some b) (fits : v < 2 ^ p) where
  abbrev written : ℕ
  written = write_field p s b v

  in_range : i < length buffer
  in_range = get_elem?-some-lt buffer i here

  written-parts : written ≡ (b / 2 ^ s / 2 ^ p * 2 ^ p + v) * 2 ^ s + b % 2 ^ s
  unfolding write_field
  written-parts = put_field p s b v fits

  written-div : written / 2 ^ s ≡ b / 2 ^ s / 2 ^ p * 2 ^ p + v
  written-div = div_unique written (2 ^ s) _ (b % 2 ^ s) written-parts (mod-lt b (two-pow-pos s))

  pub written-mod : write_field p s b v % 2 ^ s ≡ b % 2 ^ s
  written-mod =
      mod_unique written (2 ^ s) (b / 2 ^ s / 2 ^ p * 2 ^ p + v) _ written-parts
        (mod-lt b (two-pow-pos s))

  written-top : written / 2 ^ s / 2 ^ p ≡ b / 2 ^ s / 2 ^ p
  written-top = rw written-div (div_unique _ (2 ^ p) _ v refl fits)

  written-field : written / 2 ^ s % 2 ^ p ≡ v
  written-field = rw written-div (mod_unique _ (2 ^ p) (b / 2 ^ s / 2 ^ p) v refl fits)

  pub written-IsByte : IsByte (write_field p s b v)
  written-IsByte =
      (byte_iff r p s written whole).0
        (rw written-top ((byte_iff r p s b whole).1 (All-get_elem? IsByte buffer i bytes here)))

  set-bytes : All IsByte (set buffer i (write_field p s b v))
  set-bytes = All-set IsByte buffer i written bytes written-IsByte

  set-here : get_elem? (set buffer i (write_field p s b v)) i ≡ some written
  set-here = get_elem?-set_self buffer i written in_range

  same_before : head_bits (set buffer i (write_field p s b v)) (8 * i) ≡ head_bits buffer (8 * i)
  same_before = head_bits-set buffer i written (8 * i) bytes written-IsByte (omega arith)

  same_above :
      (m : ℕ)
      → m ≤ r
      → head_bits (set buffer i (write_field p s b v)) (8 * i + m) ≡ head_bits buffer (8 * i + m)
  same_above m h =
      head_bits-byte (set buffer i (write_field p s b v)) i m written set-bytes set-here
        (omega arith)
      ∙ rw (same_before, top) (sym (head_bits-byte buffer i m b bytes here (omega arith)))
    where
      width : 8 - m ≡ s + p + (r - m)
      width = omega arith

      top : written / 2 ^ (8 - m) ≡ b / 2 ^ (8 - m)
      top =
          rw (width, pow-add, pow-add, ← div-div-eq-div-mul, ← div-div-eq-div-mul, written-top)
            (simp (← div-div-eq-div-mul))

  pub head_bits-written_keep :
      (n : ℕ)
      → n ≤ 8 * i + r
      → head_bits (set buffer i (write_field p s b v)) n ≡ head_bits buffer n
  head_bits-written_keep n h = elim (dec_lt (8 * i) n) [
    | yes inside ↦
        let regroup : n ≡ 8 * i + (n - 8 * i) = omega arith in
        rw regroup (same_above (n - 8 * i) (omega arith))
    | no before ↦ head_bits-set buffer i written n bytes written-IsByte (omega arith)
  ]

  pub head_bits-written :
      head_bits (set buffer i (write_field p s b v)) (8 * i + r + p)
      ≡ head_bits buffer (8 * i + r) * 2 ^ p + v
  head_bits-written =
      head_bits-field (set buffer i (write_field p s b v)) i r p s written whole some_bits set-bytes
        set-here
      ∙ rw (same_above r (omega arith), written-field) refl
