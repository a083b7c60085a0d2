-- ===== src/Payload/Tight.antt =====
-- Types that follow each other without a gap.
use compost_rpc.Common.{
  ℕ, ◌+◌, ◌%◌, ◌≡◌, refl, Option, none, some, ◌==◌, ==_iff, if◌then◌else◌, if-true, if-false,
  Bool-cases, inl, inr,
}
use compost_rpc.Payload.Types.{EnumBase, on_bits, Ty, bit_u, enum, struct, Types, no_types, type_of}

unfoldable pub at_start : ℕ → Option ℕ
at_start r = if r == 0 then some 0 else none

unfoldable pub and_then : Option ℕ → (ℕ → Option ℕ) → Option ℕ
and_then none next = none
and_then (some r) next = next r

unfoldable pub tight_enum : EnumBase → ℕ → Option ℕ
unfolding at_start
tight_enum (on_bits n) r = some ((r + n) % 8)
tight_enum base r = at_start r

-- The bits of the last byte that are used behind a value of this type, if nothing had to be left free
-- in front of it.
unfoldable mutual
  unfolding at_start and_then tight_enum

  pub tight : Ty → ℕ → Option ℕ
  tight (bit_u n) r = some ((r + n) % 8)
  tight (enum base members) r = tight_enum base r
  tight (struct ts) r = and_then (at_start r) (tight_all ts)
  tight t r = at_start r

  pub tight_all : Types → ℕ → Option ℕ
  tight_all no_types r = some r
  tight_all (type_of t ts) r = and_then (tight t r) (tight_all ts)

pub and_then-eq_some :
    (o : Option ℕ) (next : ℕ → Option ℕ) {r' : ℕ}
    → and_then o next ≡ some r'
    → (r : ℕ) × (o ≡ some r) × (next r ≡ some r')
unfolding and_then
and_then-eq_some none next e = cc
and_then-eq_some (some r) next e = (r, refl, e)

pub at_start-eq_some : (r r' : ℕ) → at_start r ≡ some r' → (r ≡ 0) × (r' ≡ 0)
unfolding at_start
at_start-eq_some r r' e = elim (Bool-cases (r == 0)) [
  | inl start ↦
      let same : some 0 ≡ some r' = cc (e, if-true {A = Option ℕ} (r == 0) (some 0) none start) in
      ((==_iff r 0).0 start, cc same)
  | inr inside ↦ cc (e, if-false {A = Option ℕ} (r == 0) (some 0) none inside)
]
