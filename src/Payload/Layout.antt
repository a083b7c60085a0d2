-- ===== src/Payload/Layout.antt =====
-- The decorator `struct`: the sizes between the dynamic members, and the size of the whole. Members are
-- named by their types. `_validate_type` has no part here: a list holds numbers by its type.
use compost_rpc.Common.{Bool, true, false, List, [], ◌∷◌, ◌++◌}
use compost_rpc.MemUnit
use compost_rpc.MemUnit.{MemUnit}
use compost_rpc.Payload.Types.{
  num_size, EnumBase, on_bits, on_i8, on_u8, on_i16, Ty, num, bit_u, str, byte_string, list_of,
  enum, struct, Types, no_types, type_of,
}

-- What the decorator writes to the class.
pub record StructClass : Type 0 where
  pub layout : List MemUnit
  pub dynamic_members : List Ty

-- `layout[-1] = layout[-1] + size`, of a layout that is not empty
unfoldable pub add_last : List MemUnit → MemUnit → List MemUnit
unfolding MemUnit.add
add_last [] size = []
add_last (x ∷ []) size = MemUnit.add x size ∷ []
add_last (x ∷ y ∷ l) size = x ∷ add_last (y ∷ l) size

-- The sum over `layout`
unfoldable pub sum_size : List MemUnit → MemUnit
unfolding MemUnit.add
sum_size [] = record { bits = 0 }
sum_size (x ∷ l) = MemUnit.add x (sum_size l)

unfoldable pub enum_size : EnumBase → MemUnit
enum_size (on_bits n) = record { bits = n }
enum_size on_i8 = record { bits = 8 }
enum_size on_u8 = record { bits = 8 }
enum_size on_i16 = record { bits = 16 }

abbrev pub no_members : StructClass
no_members = record { layout = record { bits = 0 } ∷ []; dynamic_members = [] }

-- The three branches of the loop. A struct comes with its layout and its dynamic members.
unfoldable pub add_struct : StructClass → Ty → List MemUnit → List Ty → StructClass
unfolding add_last sum_size
add_struct cls t l [] = record cls { layout = add_last cls.layout (sum_size l) }
add_struct cls t [] (d ∷ ds) = record cls { dynamic_members = cls.dynamic_members ++ (t ∷ []) }
add_struct cls t (x ∷ l) (d ∷ ds) = record {
  layout = add_last cls.layout x ++ l;
  dynamic_members = cls.dynamic_members ++ (t ∷ []);
}

unfoldable pub add_dynamic : StructClass → Ty → StructClass
unfolding add_last MemUnit.from_bytes
add_dynamic cls t = record {
  layout = add_last cls.layout (MemUnit.from_bytes 2) ++ (record { bits = 0 } ∷ []);
  dynamic_members = cls.dynamic_members ++ (t ∷ []);
}

unfoldable pub add_static : StructClass → MemUnit → StructClass
unfolding add_last
add_static cls size = record cls { layout = add_last cls.layout size }

unfoldable mutual
  unfolding add_struct add_dynamic add_static enum_size MemUnit.from_bytes num_size

  -- One round of the loop over the members.
  pub add_member : Ty → StructClass → StructClass
  add_member (struct ts) cls =
      let inner = add_members ts no_members in
      add_struct cls (struct ts) inner.layout inner.dynamic_members
  add_member (list_of t) cls = add_dynamic cls (list_of t)
  add_member str cls = add_dynamic cls str
  add_member byte_string cls = add_dynamic cls byte_string
  add_member (num t) cls = add_static cls (MemUnit.from_bytes (num_size t))
  add_member (bit_u n) cls = add_static cls (record { bits = n })
  add_member (enum base members) cls = add_static cls (enum_size base)

  pub add_members : Types → StructClass → StructClass
  add_members no_types cls = cls
  add_members (type_of t ts) cls = add_members ts (add_member t cls)

unfoldable pub struct_class : Types → StructClass
unfolding add_members
struct_class ts = add_members ts no_members

unfoldable pub struct_size : Types → MemUnit
unfolding struct_class sum_size
struct_size ts = sum_size (struct_class ts).layout

unfoldable pub is_type_dynamic : Ty → Bool
unfolding struct_class
is_type_dynamic (list_of t) = true
is_type_dynamic str = true
is_type_dynamic byte_string = true
is_type_dynamic (struct ts) = elim (struct_class ts).dynamic_members [
  | [] ↦ false
  | (d ∷ ds) ↦ true
]
is_type_dynamic t = false
