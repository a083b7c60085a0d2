-- ===== src/Payload/Received.antt =====
-- What the receiver of packed values is to get, and the two conditions for it: the values fit their
-- types, and no bit field stands where packing and unpacking have different offsets.
use compost_rpc.Common.{
  ℕ, zero, suc, ◌+◌, ◌*◌, ◌/◌, ◌%◌, ◌≡◌, refl, List, true, Option, none, some, All,
}
use compost_rpc.Common.BigEndian.{IsByte}
use compost_rpc.Common.Int.{ℤ, pos}
use compost_rpc.Common.Result.{ok, err}
use compost_rpc.BitU.Low.{low_bits}
use compost_rpc.Payload.Types.{
  NumType, integer, f32, f64, EnumBase, on_bits, Ty, num, bit_u, str, byte_string, list_of, enum,
  struct, Types, no_types, type_of, Value, int, float, raw, items, instance_of, Values, no_values,
  value, Library, LibraryLaws, is_member,
}
use compost_rpc.Payload.Pack.{bytes_of, astuple, deep_all}

module _ {F S : Type 0} (lib : Library F S) (laws : LibraryLaws lib) where
  -- A float comes back rounded.
  unfoldable pub received_floating : ℕ → Value F S → Value F S
  received_floating n (float x) = float (laws.rounded n x)
  received_floating n (int z) = elim (lib.of_int z) [
    | ok x ↦ float (laws.rounded n x)
    | err e ↦ int z
  ]
  received_floating n v = v

  unfoldable pub received_num : NumType → Value F S → Value F S
  unfolding received_floating
  received_num (integer t) v = v
  received_num f32 v = received_floating 4 v
  received_num f64 v = received_floating 8 v

  unfoldable pub received_items : NumType → Values F S → Values F S
  unfolding received_num
  received_items t no_values = no_values
  received_items t (value v vs) = value (received_num t v) (received_items t vs)

  unfoldable pub received_list : NumType → Value F S → Value F S
  unfolding received_items
  received_list t (items vs) = items (received_items t vs)
  received_list t v = v

  -- A bit field keeps the low bits.
  unfoldable pub received_bits : ℕ → Value F S → Value F S
  unfolding low_bits
  received_bits n (int z) = int (pos (low_bits z n))
  received_bits n v = int (pos 0)

  unfoldable pub received_bytes : Value F S → Value F S
  unfolding bytes_of
  received_bytes v = elim (bytes_of v) [ ok b ↦ raw b | err e ↦ v ]

  pub received_bytes-ok :
      (v : Value F S) {b : List ℕ} → bytes_of v ≡ ok b → received_bytes v ≡ raw b
  unfolding received_bytes
  received_bytes-ok v made = rw (received_bytes, made) refl

  unfoldable pub received_enum : EnumBase → Value F S → Value F S
  unfolding received_bits
  received_enum (on_bits n) v = received_bits n v
  received_enum base v = v

  unfoldable mutual
    unfolding received_num received_list received_bits received_bytes received_enum astuple

    pub received : Ty → Value F S → Value F S
    received (num t) v = received_num t v
    received (bit_u n) v = received_bits n v
    received str v = v
    received byte_string v = received_bytes v
    received (list_of t) v = received_list t v
    received (enum base members) v = received_enum base v
    received (struct ts) v = elim (astuple v) [
      | ok vs ↦ instance_of (received_all ts vs)
      | err e ↦ v
    ]

    pub received_all : Types → Values F S → Values F S
    received_all (type_of t ts) (value v vs) = value (received t v) (received_all ts vs)
    received_all ts vs = no_values

  unfoldable pub IsMember : List ℤ → Value F S → Type 0
  unfolding is_member
  IsMember members (int z) = is_member z members ≡ true
  IsMember members v = ⊥

  -- A byte string consists of bytes, what arrives for an enum is one of its members, and a struct has a
  -- value for each member.
  unfoldable mutual
    unfolding IsMember received_enum deep_all

    pub Fits : Ty → Value F S → Type 0
    Fits byte_string (raw b) = All IsByte b
    Fits (enum base members) v = IsMember members (received_enum base v)
    Fits (struct ts) (instance_of vs) = FitsAll ts (deep_all vs)
    Fits t v = Unit {0}

    pub FitsAll : Types → Values F S → Type 0
    FitsAll no_types no_values = Unit {0}
    FitsAll (type_of t ts) (value v vs) = Fits t v × FitsAll ts vs
    FitsAll ts vs = ⊥

-- Where the offset of the writer stands in its byte, while that of the reader is the same; or the
-- reader has read a number inside a byte, where the writer had moved on to the next one.
pub data Phase : Type 0 where
  exact : ℕ → Phase
  lagging : Phase

unfoldable pub after_number : Phase → Phase
after_number (exact zero) = exact 0
after_number (exact (suc r)) = lagging
after_number lagging = lagging

unfoldable pub after_bits : ℕ → Phase → Option Phase
after_bits n (exact r) = some (exact ((r + n) % 8))
after_bits n lagging = none

unfoldable pub after_enum : EnumBase → Phase → Option Phase
unfolding after_bits after_number
after_enum (on_bits n) ph = after_bits n ph
after_enum base ph = some (after_number ph)

unfoldable pub and_then : Option Phase → (Phase → Option Phase) → Option Phase
and_then none next = none
and_then (some ph) next = next ph

pub and_then-eq_some :
    (o : Option Phase) (next : Phase → Option Phase) {ph' : Phase}
    → and_then o next ≡ some ph'
    → (ph : Phase) × (o ≡ some ph) × (next ph ≡ some ph')
unfolding and_then
and_then-eq_some none next e = cc
and_then-eq_some (some ph) next e = (ph, refl, e)

-- The phase behind a value of a type, if it can be read there.
unfoldable mutual
  unfolding after_number after_bits after_enum and_then

  pub phase_after : Ty → Phase → Option Phase
  phase_after (num t) ph = some (after_number ph)
  phase_after (bit_u n) ph = after_bits n ph
  phase_after str ph = some (exact 0)
  phase_after byte_string ph = some (exact 0)
  phase_after (list_of t) ph = some (exact 0)
  phase_after (enum base members) ph = after_enum base ph
  phase_after (struct ts) ph = phase_after_all ts (exact 0)

  pub phase_after_all : Types → Phase → Option Phase
  phase_after_all no_types ph = some ph
  phase_after_all (type_of t ts) ph = and_then (phase_after t ph) (phase_after_all ts)

-- The offsets `p` of the writer and `u` of the reader, in bits.
unfoldable pub IsAt : Phase → ℕ → ℕ → Type 0
IsAt (exact r) p u = (u ≡ p) × (p % 8 ≡ r)
IsAt lagging p u = p ≡ 8 * ((u + 7) / 8)
