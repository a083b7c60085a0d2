-- ===== src/Protocol/Registry.antt =====
-- `Protocol._rpcs`, `Protocol._validate_rpc_id`, and the registration that the decorator `rpc` does
-- when the class is made.
use compost_rpc.Common.{
  ℕ, suc, ◌≤◌, ◌≡◌, ◌≢◌, refl, ◌↔◌, some, ◌==◌, Bool, false, ◌||◌, List, [], ◌∷◌, if◌then◌else◌,
  arith,
}
use compost_rpc.Common.Int.{ℤ, pos, negsuc, ltb_ℤ, ◌≤ℤ◌}
use compost_rpc.Common.Result.{Result, ok, err, value_error, ◌>>◌}
use compost_rpc.Common.Table.{lookup, has, insert, lookup-insert, has-insert}

-- `rpc_id in cls._rpcs`
unfoldable pub id_in {ℓ} : {R : Type ℓ} → ℤ → List (ℕ × R) → Bool
id_in (pos n) rpcs = has n rpcs
id_in (negsuc n) rpcs = false

unfoldable pub validate_rpc_id {ℓ} : {R : Type ℓ} → List (ℕ × R) → ℤ → Result (Unit {0})
unfolding id_in
validate_rpc_id rpcs rpc_id =
    if id_in rpc_id rpcs
    then err value_error
    else if ltb_ℤ (pos 0xF00) rpc_id || ltb_ℤ rpc_id (pos 0)
    then err value_error
    else ok tt

abbrev pub magnitude : ℤ → ℕ
magnitude (pos n) = n
magnitude (negsuc n) = suc n

-- `Decorator.__set_name__`
unfoldable pub set_name {ℓ} : {R : Type ℓ} → List (ℕ × R) → ℤ → R → Result (List (ℕ × R))
unfolding validate_rpc_id
set_name rpcs rpc_id rpc = do validate_rpc_id rpcs rpc_id; ok (insert (magnitude rpc_id) rpc rpcs)

-- Every id is in range, and none is there twice.
abbrev pub IsValid {ℓ} : {R : Type ℓ} → List (ℕ × R) → Type 0
IsValid [] = Unit {0}
IsValid ((k, r) ∷ t) = (k ≤ 0xF00) × (has k t ≡ false) × IsValid t

insert-IsValid {ℓ} :
    {R : Type ℓ} (n : ℕ) (r : R) (t : List (ℕ × R))
    → n ≤ 0xF00
    → has n t ≡ false
    → IsValid t
    → IsValid (insert n r t)
unfolding insert has
insert-IsValid n r [] hn fresh v = (hn, refl, tt)
insert-IsValid n r ((k, s) ∷ t) hn fresh v =
    rw other (v.0, rw (has-insert n k r t, flip) v.1, insert-IsValid n r t hn later v.2)
  where
    other : (k == n) ≡ false
    other = ground arith

    later : has n t ≡ false
    later = ground arith

    flip : (n == k) ≡ false
    flip = ground arith

-- Registration is refused exactly for an id that is taken, negative or above 0xF00.
set_name_iff {ℓ} :
    {R : Type ℓ} (rpcs : List (ℕ × R)) (rpc_id : ℤ) (rpc : R)
    → (set_name rpcs rpc_id rpc ≢ err value_error)
      ↔ ((id_in rpc_id rpcs ≡ false) × (pos 0 ≤ℤ rpc_id) × (rpc_id ≤ℤ pos 0xF00))
unfolding set_name
set_name_iff rpcs (pos n) rpc = ground arith
set_name_iff rpcs (negsuc n) rpc = ground arith

-- An id that is registered was free. Registering keeps every id in range and single, adds the RPC under
-- its id, and leaves the others.
pub set_name-IsValid {ℓ} :
    {R : Type ℓ} (rpcs rpcs' : List (ℕ × R)) (rpc_id : ℤ) (rpc : R)
    → IsValid rpcs
    → set_name rpcs rpc_id rpc ≡ ok rpcs'
    → (has (magnitude rpc_id) rpcs ≡ false)
      × IsValid rpcs'
      × ((n : ℕ) → lookup n rpcs' ≡ (if magnitude rpc_id == n then some rpc else lookup n rpcs))
unfolding set_name
set_name-IsValid rpcs rpcs' (negsuc k) rpc v e = ground arith
set_name-IsValid rpcs rpcs' (pos k) rpc v e =
    let facts : (has k rpcs ≡ false) × (k ≤ 0xF00) × (insert k rpc rpcs ≡ rpcs') = ground arith in
    rw (← facts.2)
      (facts.0, insert-IsValid k rpc rpcs facts.1 facts.0 v, λ n. lookup-insert k n rpc rpcs)
