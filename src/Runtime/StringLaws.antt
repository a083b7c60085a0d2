-- ===== src/Runtime/StringLaws.antt =====
-- A string in a slice.
use compost_rpc.Common.{
  ℕ, zero, suc, ◌+◌, ◌-◌, ◌^◌, ◌%◌, ◌≤◌, ◌<◌, ◌≡◌, refl, sym, ap, ap₂, ◌∙◌, List, [], ◌∷◌, ◌++◌,
  arith, length, take, length-append, length-take, length-replicate, All, All-append, All-replicate,
  ltb, leb, lt→ltb, ltb-false, le→leb, if◌then◌else◌, if-true, if-false, replicate,
}
use compost_rpc.Common.Int.{ℤ, pos}
use compost_rpc.Common.BigEndian.{IsByte, be_bytes}
use compost_rpc.Numbers.{IntType, u8, byte_size, pack_number}
use compost_rpc.Payload.Slices.{take_all, All-take}
use compost_rpc.Runtime.Slices.{slice_set, copy_values, values_from, compost_slice_copy_from}
use compost_rpc.Runtime.CopyLaws.{IsOf, copy_values-Copied}
use compost_rpc.Runtime.Strings.{chars, clear, compost_str_copy}
use mathlib.Core.List.{append-nil}
use native.Mathlib.Decide.{dec_lt}
use native.Mathlib.Nat.{mod-eq_of_lt}

byte-IsOf : (b : ℕ) → IsByte b → IsOf u8 (pos b)
unfolding pack_number
byte-IsOf b h = (be_bytes 1 (b % 256 ^ 1), if-true (ltb b (256 ^ 1)) _ _ (lt→ltb b (256 ^ 1) h))

chars-IsOf : (cstr : List ℕ) → All IsByte cstr → All (IsOf u8) (chars cstr)
chars-IsOf [] h = tt
chars-IsOf (b ∷ cstr) h = (byte-IsOf b h.0, chars-IsOf cstr h.1)

length-chars : (cstr : List ℕ) → length (chars cstr) ≡ length cstr
length-chars [] = refl
length-chars (b ∷ cstr) = ap suc (length-chars cstr)

take-chars : (n : ℕ) (cstr : List ℕ) → take n (chars cstr) ≡ chars (take n cstr)
take-chars zero cstr = refl
take-chars (suc n) [] = refl
take-chars (suc n) (b ∷ cstr) = ap (λ l. pos b ∷ l) (take-chars n cstr)

copy_values-append :
    (t : IntType) (mem : List ℕ) (ptr i : ℕ) (xs ys : List ℤ)
    → copy_values t (copy_values t mem ptr i xs) ptr (i + length xs) ys
      ≡ copy_values t mem ptr i (xs ++ ys)
unfolding copy_values
copy_values-append t mem ptr i [] ys = ap (λ k. copy_values t mem ptr k ys) (omega arith)
copy_values-append t mem ptr i (x ∷ xs) ys =
    let next : i + suc (length xs) ≡ i + 1 + length xs = omega arith in
    ap (λ k. copy_values t (copy_values t (slice_set t mem ptr i x) ptr (i + 1) xs) ptr k ys) next
    ∙ copy_values-append t (slice_set t mem ptr i x) ptr (i + 1) xs ys

clear_lem :
    (mem : List ℕ) (ptr i count : ℕ)
    → clear mem ptr i count ≡ copy_values u8 mem ptr i (replicate count (pos 0))
unfolding clear copy_values
clear_lem mem ptr i zero = refl
clear_lem mem ptr i (suc count) = clear_lem (slice_set u8 mem ptr i (pos 0)) ptr (i + 1) count

module _ (mem : List ℕ) (ptr len : ℕ) (src : List ℕ) (bytes : All IsByte src)
    (room : ptr + len ≤ length mem) where
  limit : ℕ → ℕ
  limit k = if leb k len then k else len

  -- What the function leaves, for the number of characters that it copies.
  filled : ℕ → List ℕ
  filled k = copy_values u8 mem ptr 0 (take (limit k) (chars src))

  short_string :
      length src < len
      → values_from u8 (clear (filled (length src)) ptr (length src) (len - length src)) ptr 0 len
        ≡ take len (chars src) ++ replicate (len - length src) (pos 0)
  unfolding limit filled byte_size
  short_string more =
      let zeros : List ℤ = replicate (len - length src) (pos 0) in
      let all : List ℤ = chars src ++ zeros in
      let count : length all ≡ len = omega (
        arith,
        length-append (chars src) zeros,
        length-chars src,
        length-replicate {A = ℤ} (len - length src) (pos 0),
      ) in
      let head : take (limit (length src)) (chars src) ≡ chars src =
        ap (λ k. take k (chars src))
          (if-true (leb (length src) len) (length src) len (le→leb (length src) len (omega arith)))
        ∙ take_all (length src) (chars src) (omega (arith, length-chars src)) in
      let whole : clear (filled (length src)) ptr (length src) (len - length src)
          ≡ copy_values u8 mem ptr 0 all =
        clear_lem (filled (length src)) ptr (length src) (len - length src)
        ∙ ap₂ (λ l k. copy_values u8 (copy_values u8 mem ptr 0 l) ptr k zeros) head
            (omega (arith, length-chars src))
        ∙ copy_values-append u8 mem ptr 0 (chars src) zeros in
      let copied =
        copy_values-Copied u8 mem ptr 0 all
          (All-append (IsOf u8) (chars src) zeros (chars-IsOf src bytes)
            (All-replicate (IsOf u8) (len - length src) (pos 0) (byte-IsOf 0 (omega arith))))
          (omega (arith, room, count)) in
      ap₂ (λ m k. values_from u8 m ptr 0 k) whole (sym count)
      ∙ copied.reads
      ∙ ap (λ l. l ++ zeros) (sym (take_all len (chars src) (omega (arith, length-chars src))))

  long_string :
      len ≤ length src
      → values_from u8 (filled (length src)) ptr 0 len
        ≡ take len (chars src) ++ replicate (len - length src) (pos 0)
  unfolding limit filled byte_size
  long_string more =
      let cut : limit (length src) ≡ len = ground arith in
      let part : List ℤ = chars (take len src) in
      let same : take (limit (length src)) (chars src) ≡ part =
        ap (λ k. take k (chars src)) cut ∙ take-chars len src in
      let count : length part ≡ len = length-chars (take len src) ∙ length-take len src more in
      let none_left : len - length src ≡ 0 = omega arith in
      let copied =
        copy_values-Copied u8 mem ptr 0 part
          (chars-IsOf (take len src) (All-take IsByte len src bytes))
          (omega (arith, room, count)) in
      ap₂ (λ l k. values_from u8 (copy_values u8 mem ptr 0 l) ptr 0 k) same (sym count)
      ∙ copied.reads
      ∙ sym (take-chars len src)
      ∙ sym (append-nil (take len (chars src)))
      ∙ ap (λ k. take len (chars src) ++ replicate k (pos 0)) (sym none_left)

  -- A string of less than 65536 characters that is copied to a slice in memory fills it: what is read of
  -- the slice is the string, as much of it as has room, and zeros behind it.
  pub compost_str_copy-reads :
      length src < 65536
      → values_from u8 (compost_str_copy mem ptr len src) ptr 0 len
        ≡ take len (chars src) ++ replicate (len - length src) (pos 0)
  unfolding compost_str_copy compost_slice_copy_from limit filled
  compost_str_copy-reads fits =
      let size : length src % 2 ^ 16 ≡ length src = mod-eq_of_lt fits in
      let done : ℕ → List ℕ = λ k.
        if ltb (length src) len
        then clear (filled k) ptr (length src) (len - length src)
        else filled k in
      ap (λ k. values_from u8 (done k) ptr 0 len) size ∙ elim (dec_lt (length src) len) [
        | yes short ↦
            ap (λ m. values_from u8 m ptr 0 len)
              (if-true (ltb (length src) len) _ (filled (length src))
                (lt→ltb (length src) len short))
            ∙ short_string short
        | no long ↦
            ap (λ m. values_from u8 m ptr 0 len)
              (if-false (ltb (length src) len)
                (clear (filled (length src)) ptr (length src) (len - length src)) _
                (ltb-false (length src) len (omega arith)))
            ∙ long_string (omega arith)
      ]
