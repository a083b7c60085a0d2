-- ===== src/Runtime/MemoryRuns.antt =====
-- Bit fields and the allocator at concrete values.
use compost_rpc.Common.{ℕ, ◌*◌, ◌%◌, ◌^◌, ◌≡◌, bit_or, some, [], ◌∷◌, arith}
use compost_rpc.Common.Result.{ok}
use compost_rpc.MemUnit
use compost_rpc.MemUnit.{MemUnit}
use compost_rpc.BitU
use compost_rpc.Runtime.BitUint.{compost_bituint_load, compost_u32_field_set, compost_u32_field_get}
use compost_rpc.Runtime.BitUintLaws.{compost_bituint_load-unpack}
use compost_rpc.Runtime.Fields.{field_set_ors}
use compost_rpc.Runtime.Alloc.{CompostAlloc, IsApart, regions, regions-IsApart}

abbrev bits : ℕ → MemUnit
bits n = record { bits = n }

compost_bituint_load-unpack_example :
    (x : ℕ) × (BitU.unpack (bits 10) (0xEA ∷ 0xAF ∷ []) (bits 3)
      ≡ ok (x, MemUnit.add (bits 3) (bits 10)))
    × (compost_bituint_load (0xEA ∷ 0xAF ∷ []) 3 10 ≡ x)
compost_bituint_load-unpack_example =
    compost_bituint_load-unpack (bits 10) (0xEA ∷ 0xAF ∷ []) (bits 3) (omega arith) (omega arith)
      (omega arith) (omega arith)

field_set_ors_example :
    compost_u32_field_set 0xFF05 2 0 3
    ≡ bit_or (compost_u32_field_get 0xFF05 0 3) (2 % 2 ^ 3) * 2 ^ 0
field_set_ors_example = field_set_ors 0xFF05 2 0 3 (omega arith)

-- Two allocations with a suffix behind each, in a buffer of ten bytes.
abbrev two_suffixes : CompostAlloc
two_suffixes = record {
  suffixes = some (2 ∷ 3 ∷ []);
  suffixes_len = 2;
  alloc_ctr = 0;
  ptr = 0;
  buffer_len = 10;
}

regions-IsApart_example : IsApart 0 10 (regions two_suffixes (4 ∷ 9 ∷ 4 ∷ []))
regions-IsApart_example = regions-IsApart (4 ∷ 9 ∷ 4 ∷ []) two_suffixes
