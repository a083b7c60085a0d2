-- ===== src/Payload/Sizes.antt =====
-- The size of a struct's class, and the bits that packing takes.
use compost_rpc.Common.{
  ℕ, ap₂, refl, ◌∙◌, suc, ◌+◌, ◌*◌, ◌<◌, ◌≡◌, refl, ap, List, [], ◌∷◌, ◌++◌, arith, length,
  length-append,
}
use compost_rpc.MemUnit
use compost_rpc.MemUnit.{MemUnit}
use compost_rpc.Payload.Types.{
  num_size, Ty, num, bit_u, str, byte_string, list_of, enum, struct, Types, no_types, type_of,
}
use compost_rpc.Payload.Layout.{
  StructClass, add_last, sum_size, enum_size, no_members, add_struct, add_dynamic, add_static,
  add_member, add_members, struct_class, struct_size,
}

total : List MemUnit → ℕ
unfolding sum_size
total l = (sum_size l).bits

total-add_last :
    (l : List MemUnit) (size : MemUnit)
    → 0 < length l
    → total (add_last l size) ≡ total l + size.bits
unfolding total sum_size add_last MemUnit.add
total-add_last [] size h = elim h [ ]
total-add_last (x ∷ []) size h = omega arith
total-add_last (x ∷ y ∷ l) size h = omega (arith, total-add_last (y ∷ l) size (omega arith))

length-add_last : (l : List MemUnit) (size : MemUnit) → length (add_last l size) ≡ length l
unfolding add_last
length-add_last [] size = refl
length-add_last (x ∷ []) size = refl
length-add_last (x ∷ y ∷ l) size = ap suc (length-add_last (y ∷ l) size)

total-append : (l m : List MemUnit) → total (l ++ m) ≡ total l + total m
unfolding total sum_size MemUnit.add
total-append [] m = omega arith
total-append (x ∷ l) m = omega (arith, total-append l m)

-- A class that grew by a size, with a layout that is not empty.
record Grows (cls cls' : StructClass) (size : ℕ) : Type 0 where
  grows : total cls'.layout ≡ total cls.layout + size
  not_empty : 0 < length cls'.layout

add_static-Grows :
    (cls : StructClass) (size : MemUnit)
    → 0 < length cls.layout
    → Grows cls (add_static cls size) size.bits
unfolding add_static
add_static-Grows cls size h = record {
  grows = total-add_last cls.layout size h;
  not_empty = omega (arith, length-add_last cls.layout size);
}

add_dynamic-Grows :
    (cls : StructClass) (t : Ty) → 0 < length cls.layout → Grows cls (add_dynamic cls t) 16
unfolding add_dynamic MemUnit.from_bytes total sum_size MemUnit.add
add_dynamic-Grows cls t h =
    let two : MemUnit = record { bits = 16 } in
    record {
      grows = omega (
        arith,
        total-append (add_last cls.layout two) (record { bits = 0 } ∷ []),
        total-add_last cls.layout two h,
      );
      not_empty = omega (
        arith,
        length-append (add_last cls.layout two) (record { bits = 0 } ∷ []),
        length-add_last cls.layout two,
      );
    }

add_struct-Grows :
    (cls : StructClass) (t : Ty) (inner : List MemUnit) (dynamic : List Ty)
    → 0 < length cls.layout
    → 0 < length inner
    → Grows cls (add_struct cls t inner dynamic) (total inner)
unfolding add_struct total sum_size MemUnit.add
add_struct-Grows cls t l [] h hi = record {
  grows = total-add_last cls.layout (sum_size l) h;
  not_empty = omega (arith, length-add_last cls.layout (sum_size l));
}
add_struct-Grows cls t [] (d ∷ ds) h hi = elim hi [ ]
add_struct-Grows cls t (x ∷ l) (d ∷ ds) h hi = record {
  grows = omega (arith, total-append (add_last cls.layout x) l, total-add_last cls.layout x h);
  not_empty = omega (arith, length-append (add_last cls.layout x) l, length-add_last cls.layout x);
}

-- The bits of a member.
unfoldable pub member_bits : Ty → ℕ
unfolding struct_size enum_size num_size
member_bits (struct ts) = (struct_size ts).bits
member_bits (num t) = num_size t * 8
member_bits (bit_u n) = n
member_bits (enum base members) = (enum_size base).bits
member_bits t = 16

unfoldable pub members_bits : Types → ℕ
unfolding member_bits
members_bits no_types = 0
members_bits (type_of t ts) = member_bits t + members_bits ts

mutual
  unfolding add_member add_members member_bits members_bits struct_size struct_class total
      MemUnit.from_bytes

  add_member-Grows :
      (t : Ty) (cls : StructClass)
      → 0 < length cls.layout
      → Grows cls (add_member t cls) (member_bits t)
  add_member-Grows (num t) cls h = add_static-Grows cls _ h
  add_member-Grows (bit_u n) cls h = add_static-Grows cls _ h
  add_member-Grows str cls h = add_dynamic-Grows cls str h
  add_member-Grows byte_string cls h = add_dynamic-Grows cls byte_string h
  add_member-Grows (list_of t) cls h = add_dynamic-Grows cls (list_of t) h
  add_member-Grows (enum base members) cls h = add_static-Grows cls _ h
  add_member-Grows (struct ts) cls h =
      let inner : StructClass = add_members ts no_members in
      add_struct-Grows cls (struct ts) inner.layout inner.dynamic_members h
        (add_members-Grows ts no_members (omega arith)).not_empty

  add_members-Grows :
      (ts : Types) (cls : StructClass)
      → 0 < length cls.layout
      → Grows cls (add_members ts cls) (members_bits ts)
  add_members-Grows no_types cls h = record { grows = omega arith; not_empty = h }
  add_members-Grows (type_of t ts) cls h =
      let first = add_member-Grows t cls h in
      let rest = add_members-Grows ts (add_member t cls) first.not_empty in
      record { grows = omega (arith, first.grows, rest.grows); not_empty = rest.not_empty }

-- The size of a struct is that of its members.
pub struct_size-members_bits : (ts : Types) → (struct_size ts).bits ≡ members_bits ts
unfolding struct_size struct_class total sum_size MemUnit.add
struct_size-members_bits ts =
    let all = add_members-Grows ts no_members (omega arith) in omega (arith, all.grows)

-- The sum of the sizes of the members that are no structs, at any depth.
unfoldable mutual
  unfolding num_size enum_size

  pub leaf_bits : Ty → ℕ
  leaf_bits (struct ts) = leaves_bits ts
  leaf_bits (num t) = num_size t * 8
  leaf_bits (bit_u n) = n
  leaf_bits (enum base members) = (enum_size base).bits
  leaf_bits t = 16

  pub leaves_bits : Types → ℕ
  leaves_bits no_types = 0
  leaves_bits (type_of t ts) = leaf_bits t + leaves_bits ts

mutual
  unfolding leaf_bits members_bits

  member_bits-leaf_bits : (t : Ty) → member_bits t ≡ leaf_bits t
  member_bits-leaf_bits (struct ts) = struct_size-members_bits ts ∙ members_bits-leaves_bits ts
  member_bits-leaf_bits (num t) = refl
  member_bits-leaf_bits (bit_u n) = refl
  member_bits-leaf_bits (enum base members) = refl
  member_bits-leaf_bits str = refl
  member_bits-leaf_bits byte_string = refl
  member_bits-leaf_bits (list_of t) = refl

  members_bits-leaves_bits : (ts : Types) → members_bits ts ≡ leaves_bits ts
  members_bits-leaves_bits no_types = refl
  members_bits-leaves_bits (type_of t ts) =
      ap₂ (λ a b. a + b) (member_bits-leaf_bits t) (members_bits-leaves_bits ts)

-- What the decorator computes, with structs inside structs.
pub struct_size-leaves_bits : (ts : Types) → (struct_size ts).bits ≡ leaves_bits ts
struct_size-leaves_bits ts = struct_size-members_bits ts ∙ members_bits-leaves_bits ts
