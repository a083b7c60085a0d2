-- ===== src/Common/BigEndian.antt =====
-- Numbers as bytes, the most significant byte first.
use Prim.Native.Nat.{ℕ, zero, suc, ◌+◌, ◌*◌, ◌/◌, ◌%◌, ◌^◌, ◌<◌}
use mathlib.Core.Path.{◌≡◌, refl, ap, ap₂, ◌∙◌}
use mathlib.Core.List.{List, [], ◌∷◌, ◌++◌}
use native.Mathlib.Omega.{arith}
use native.Mathlib.Nat.{pow-succ', one-le-pow, div-add-mod', mod-lt, mod-eq_of_lt}
use compost_rpc.Common.Lists.{length, length-append, All}
use compost_rpc.Common.Power.{pow-add, div_unique, mod_unique}

abbrev pub IsByte : ℕ → Type 0
IsByte b = b < 256

-- The `n` low bytes of `v`.
unfoldable pub be_bytes : ℕ → ℕ → List ℕ
be_bytes zero v = []
be_bytes (suc n) v = (v / 256 ^ n % 256) ∷ be_bytes n v

unfoldable pub be_value : List ℕ → ℕ
be_value [] = 0
be_value (b ∷ bs) = b * 256 ^ length bs + be_value bs

pub length-be_bytes : (n v : ℕ) → length (be_bytes n v) ≡ n
unfolding be_bytes
length-be_bytes zero v = refl
length-be_bytes (suc n) v = ap suc (length-be_bytes n v)

pub be_bytes-IsByte : (n v : ℕ) → All IsByte (be_bytes n v)
unfolding be_bytes
be_bytes-IsByte zero v = tt
be_bytes-IsByte (suc n) v = (omega arith, be_bytes-IsByte n v)

-- A digit above a number that fits below it.
digit-lt : (d r w : ℕ) → d < 256 → r < w → d * w + r < 256 * w
digit-lt d r w hd hr = grind arith

pow256-pos : (n : ℕ) → 0 < 256 ^ n
pow256-pos n = omega (arith, one-le-pow n 256)

mod-pow256 : (n v : ℕ) → v % 256 ^ suc n ≡ v / 256 ^ n % 256 * 256 ^ n + v % 256 ^ n
mod-pow256 n v =
    mod_unique v (256 ^ suc n) (v / 256 ^ n / 256) _
      (omega (
        arith,
        pow-succ' 256 n,
        ap (λ (t : ℕ). v / 256 ^ n / 256 * t) (pow-succ' 256 n),
        div-add-mod' v (256 ^ n),
        ap (λ (t : ℕ). t * 256 ^ n) (div-add-mod' (v / 256 ^ n) 256),
      ))
      (rw pow-succ' (digit-lt (v / 256 ^ n % 256) _ _ (omega arith) (mod-lt v (pow256-pos n))))

pub be_value-be_bytes : (n v : ℕ) → be_value (be_bytes n v) ≡ v % 256 ^ n
unfolding be_bytes be_value
be_value-be_bytes zero v = omega arith
be_value-be_bytes (suc n) v = rw (length-be_bytes, be_value-be_bytes n v, mod-pow256) refl

pub be_value-lt : (bs : List ℕ) → All IsByte bs → be_value bs < 256 ^ length bs
unfolding be_value
be_value-lt [] h = omega arith
be_value-lt (b ∷ bs) h = rw pow-succ' (digit-lt b _ _ h.0 (be_value-lt bs h.1))

pub be_value-append :
    (xs ys : List ℕ) → be_value (xs ++ ys) ≡ be_value xs * 256 ^ length ys + be_value ys
unfolding be_value
be_value-append [] ys = omega arith
be_value-append (x ∷ xs) ys = omega (
  arith,
  be_value-append xs ys,
  ap (λ (t : ℕ). x * 256 ^ t) (length-append xs ys),
  ap (λ (t : ℕ). x * t) (pow-add 256 (length xs) (length ys)),
)

be_bytes-eq :
    (bs : List ℕ) (h v : ℕ)
    → All IsByte bs
    → v ≡ h * 256 ^ length bs + be_value bs
    → be_bytes (length bs) v ≡ bs
unfolding be_bytes be_value
be_bytes-eq [] h v bytes e = refl
be_bytes-eq (b ∷ bs) h v bytes e =
    ap₂ ◌∷◌ (omega (arith, bytes.0, top)) (be_bytes-eq bs (h * 256 + b) v bytes.1 split)
  where
    split : v ≡ (h * 256 + b) * 256 ^ length bs + be_value bs
    split = omega (arith, e, ap (λ (t : ℕ). h * t) (pow-succ' 256 (length bs)))

    top : v / 256 ^ length bs ≡ h * 256 + b
    top = div_unique v (256 ^ length bs) _ (be_value bs) split (be_value-lt bs bytes.1)

pub be_bytes-be_value : (bs : List ℕ) → All IsByte bs → be_bytes (length bs) (be_value bs) ≡ bs
be_bytes-be_value bs h = be_bytes-eq bs 0 _ h (omega arith)

pub be_value-be_bytes_lt : (n v : ℕ) → v < 256 ^ n → be_value (be_bytes n v) ≡ v
be_value-be_bytes_lt n v h = be_value-be_bytes n v ∙ mod-eq_of_lt h
