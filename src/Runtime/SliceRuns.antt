-- ===== src/Runtime/SliceRuns.antt =====
-- Slices and strings in a concrete memory.
use compost_rpc.Common.{ℕ, ◌-◌, ◌≡◌, refl, List, [], ◌∷◌, ◌++◌, arith, take, replicate}
use compost_rpc.Common.Int.{ℤ, pos, negsuc}
use compost_rpc.Common.BigEndian.{be_bytes}
use compost_rpc.Numbers.{i16, u8, pack_number}
use compost_rpc.Runtime.Slices.{values_from, compost_slice_copy_from, compost_slice_ncopy_to}
use compost_rpc.Runtime.CopyLaws
use compost_rpc.Runtime.Strings.{chars, compost_str_copy}
use compost_rpc.Runtime.StringLaws

abbrev memory : List ℕ
memory = replicate 10 7

abbrev two_values : List ℤ
two_values = pos 258 ∷ negsuc 0 ∷ []

ncopy_to-copy_from_example :
    compost_slice_ncopy_to i16
      (compost_slice_copy_from i16 memory 2 3 two_values 2).0
      2
      3
      (pos 0 ∷ pos 0 ∷ [])
      2
    ≡ (two_values, 2)
unfolding pack_number
ncopy_to-copy_from_example =
    CopyLaws.ncopy_to-copy_from i16 memory 2 3 two_values (pos 0 ∷ pos 0 ∷ [])
      ((be_bytes 2 258, refl), ((be_bytes 2 65535, refl), tt)) (omega arith) (omega arith) refl

-- Two characters and two zeros.
compost_str_copy-reads_example :
    values_from u8 (compost_str_copy memory 3 4 (104 ∷ 105 ∷ [])) 3 0 4
    ≡ take 4 (chars (104 ∷ 105 ∷ [])) ++ replicate (4 - 2) (pos 0)
compost_str_copy-reads_example =
    StringLaws.compost_str_copy-reads memory 3 4 (104 ∷ 105 ∷ []) (omega arith, (omega arith, tt))
      (omega arith) (omega arith)
