-- ===== src/Payload/Slices.antt =====
-- Slices of buffers that agree, and the two ways of saying that buffers agree: by their bits and by
-- their bytes.
use compost_rpc.Common.{
  ℕ, zero, suc, ◌+◌, ◌-◌, ◌*◌, ◌^◌, ◌≤◌, min, ◌≡◌, refl, sym, ap, ap₂, ◌∙◌, List, [], ◌∷◌, ◌++◌,
  arith, length, take, drop, All,
}
use compost_rpc.Common.BigEndian.{IsByte}
use compost_rpc.BitString.{head_bits, head_bits-zero, head_bits-later}

module _ {ℓ} {A : Type ℓ} where
  pub take-drop : (n : ℕ) (xs : List A) → take n xs ++ drop n xs ≡ xs
  take-drop zero xs = refl
  take-drop (suc n) [] = refl
  take-drop (suc n) (x ∷ xs) = ap (λ l. x ∷ l) (take-drop n xs)

  pub drop-drop : (m n : ℕ) (xs : List A) → drop n (drop m xs) ≡ drop (m + n) xs
  drop-drop zero n xs = ap (λ k. drop k xs) (omega arith)
  drop-drop (suc m) zero [] =
      let same : suc m ≡ suc m + 0 = omega arith in ap (λ k. drop {A = A} k []) same
  drop-drop (suc m) (suc n) [] =
      let same : suc (m + suc n) ≡ suc m + suc n = omega arith in ap (λ k. drop {A = A} k []) same
  drop-drop (suc m) n (x ∷ xs) =
      let same : suc (m + n) ≡ suc m + n = omega arith in
      drop-drop m n xs ∙ ap (λ k. drop k (x ∷ xs)) same

  pub drop_all : (n : ℕ) (xs : List A) → length xs ≤ n → drop n xs ≡ []
  drop_all zero [] h = refl
  drop_all (suc n) [] h = refl
  drop_all zero (x ∷ xs) h = ground arith
  drop_all (suc n) (x ∷ xs) h = drop_all n xs (omega arith)

  pub take_all : (n : ℕ) (xs : List A) → length xs ≤ n → take n xs ≡ xs
  take_all zero [] h = refl
  take_all (suc n) [] h = refl
  take_all zero (x ∷ xs) h = ground arith
  take_all (suc n) (x ∷ xs) h = ap (λ l. x ∷ l) (take_all n xs (omega arith))

  pub length-take-min : (n : ℕ) (xs : List A) → length (take n xs) ≡ min n (length xs)
  length-take-min zero xs = omega arith
  length-take-min (suc n) [] = omega arith
  length-take-min (suc n) (x ∷ xs) = omega (arith, length-take-min n xs)

  -- A slice lies in any head that reaches behind it.
  slice-take :
      (i n j : ℕ) (xs : List A) → i + n ≤ j → take n (drop i (take j xs)) ≡ take n (drop i xs)
  slice-take zero zero j xs h = refl
  slice-take zero (suc n) zero xs h = ground arith
  slice-take zero (suc n) (suc j) [] h = refl
  slice-take zero (suc n) (suc j) (x ∷ xs) h =
      ap (λ l. x ∷ l) (slice-take zero n j xs (omega arith))
  slice-take (suc i) n zero xs h = ground arith
  slice-take (suc i) n (suc j) [] h = refl
  slice-take (suc i) n (suc j) (x ∷ xs) h = slice-take i n j xs (omega arith)

  pub slice-eq :
      (i n j : ℕ) (xs ys : List A)
      → i + n ≤ j
      → take j xs ≡ take j ys
      → take n (drop i xs) ≡ take n (drop i ys)
  slice-eq i n j xs ys h e =
      sym (slice-take i n j xs h) ∙ ap (λ l. take n (drop i l)) e ∙ slice-take i n j ys h

  pub take-eq : (n j : ℕ) (xs ys : List A) → n ≤ j → take j xs ≡ take j ys → take n xs ≡ take n ys
  take-eq n j xs ys h e = slice-eq 0 n j xs ys (omega arith) e

  pub All-take {κ} : (P : A → Type κ) (n : ℕ) (xs : List A) → All P xs → All P (take n xs)
  All-take P zero xs h = tt
  All-take P (suc n) [] h = tt
  All-take P (suc n) (x ∷ xs) h = (h.0, All-take P n xs h.1)

  pub All-drop {κ} : (P : A → Type κ) (n : ℕ) (xs : List A) → All P xs → All P (drop n xs)
  All-drop P zero xs h = h
  All-drop P (suc n) [] h = tt
  All-drop P (suc n) (x ∷ xs) h = All-drop P n xs h.1

  -- The head of a list behind its first `i` elements.
  pub take-append_at : (i : ℕ) (xs ys : List A) → length xs ≡ i → take i (xs ++ ys) ≡ xs
  take-append_at zero [] ys e = refl
  take-append_at zero (x ∷ xs) ys e = ground arith
  take-append_at (suc i) [] ys e = ground arith
  take-append_at (suc i) (x ∷ xs) ys e = ap (λ l. x ∷ l) (take-append_at i xs ys (omega arith))

  pub drop-append_at : (i : ℕ) (xs ys : List A) → length xs ≡ i → drop i (xs ++ ys) ≡ ys
  drop-append_at zero [] ys e = refl
  drop-append_at zero (x ∷ xs) ys e = ground arith
  drop-append_at (suc i) [] ys e = ground arith
  drop-append_at (suc i) (x ∷ xs) ys e = drop-append_at i xs ys (omega arith)

-- The first `8 * i` bits are those of the first `i` bytes.
head_bits-take :
    (i : ℕ) (xs : List ℕ) (n : ℕ)
    → All IsByte xs
    → i ≤ length xs
    → n ≤ 8 * i
    → head_bits (take i xs) n ≡ head_bits xs n
unfolding head_bits
head_bits-take zero xs n h room hn =
    let none_left : n ≡ 0 = omega arith in rw none_left (sym (head_bits-zero xs h))
head_bits-take (suc i) [] n h room hn = refl
head_bits-take (suc i) (x ∷ xs) n h room hn = ground (arith, head_bits-take i xs (n - 8) h.1)

pub bits-of_bytes :
    (i : ℕ) (xs ys : List ℕ)
    → All IsByte xs
    → All IsByte ys
    → i ≤ length xs
    → i ≤ length ys
    → take i xs ≡ take i ys
    → (n : ℕ) → n ≤ 8 * i
    → head_bits xs n ≡ head_bits ys n
bits-of_bytes i xs ys hx hy room_x room_y e n hn =
    sym (head_bits-take i xs n hx room_x hn)
    ∙ ap (λ l. head_bits l n) e
    ∙ head_bits-take i ys n hy room_y hn

-- Buffers with the same bits have the same bytes.
pub bytes-of_bits :
    (i : ℕ) (xs ys : List ℕ)
    → All IsByte xs
    → All IsByte ys
    → i ≤ length xs
    → i ≤ length ys
    → ((n : ℕ) → n ≤ 8 * i → head_bits xs n ≡ head_bits ys n)
    → take i xs ≡ take i ys
bytes-of_bits zero xs ys hx hy room_x room_y same = refl
bytes-of_bits (suc i) [] ys hx hy room_x room_y same = ground arith
bytes-of_bits (suc i) (x ∷ xs) [] hx hy room_x room_y same = ground arith
bytes-of_bits (suc i) (x ∷ xs) (y ∷ ys) hx hy room_x room_y same =
    ap₂ ◌∷◌ first (bytes-of_bits i xs ys hx.1 hy.1 (omega arith) (omega arith) (λ n h. later n h))
  where
    first : x ≡ y
    first = omega (
      arith,
      head_bits-later x 0 xs,
      head_bits-later y 0 ys,
      same (8 + 0) (omega arith),
      head_bits-zero xs hx.1,
      head_bits-zero ys hy.1,
    )

    later : (n : ℕ) → n ≤ 8 * i → head_bits xs n ≡ head_bits ys n
    later n h = omega (
      arith,
      head_bits-later x n xs,
      head_bits-later y n ys,
      same (8 + n) (omega arith),
      ap (λ (t : ℕ). t * 2 ^ n) first,
    )
