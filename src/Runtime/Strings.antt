-- ===== src/Runtime/Strings.antt =====
-- The strings and the floats of the C runtime. A C string is the bytes in front of its zero, whose number
-- `strlen` is. `F` is the type of floats; `memcpy` to and from an integer are parameters. The functions on slices take a
-- length as `uint16_t`.
use compost_rpc.Common.{
  ℕ, zero, suc, ◌+◌, ◌-◌, ◌%◌, ◌^◌, List, none, some, ltb, if◌then◌else◌, length, map,
}
use compost_rpc.Common.Int.{ℤ, pos}
use compost_rpc.Numbers.{u8}
use compost_rpc.Runtime.Alloc.{CompostAlloc}
use compost_rpc.Runtime.Numbers.{
  compost_u32_load, compost_u32_store, compost_u64_load, compost_u64_store,
}
use compost_rpc.Runtime.Slices.{CompostSlice, compost_slice_new, slice_set, compost_slice_copy_from}

-- The bytes as values of the type of a slice.
abbrev pub chars : List ℕ → List ℤ
chars cstr = map pos cstr

-- The new slice, the allocator and the memory behind it. Where nothing can be allocated the slice is NULL
-- with the length 0, and nothing is copied. The assertions do nothing without COMPOST_DEBUG.
unfoldable pub compost_str_new :
    List ℕ → CompostAlloc → List ℕ → CompostSlice × CompostAlloc × List ℕ
unfolding compost_slice_new compost_slice_copy_from
compost_str_new mem alloc cstr =
    let len = length cstr in
    let (ret, alloc') = compost_slice_new u8 alloc (len % 2 ^ 16) in
    elim ret.ptr [
      | none ↦ (ret, alloc', mem)
      | some ptr ↦
          (ret, alloc', (compost_slice_copy_from u8 mem ptr ret.len (chars cstr) (len % 2 ^ 16)).0)
    ]

-- The loop that sets the rest of a slice to zero: `count` elements from the `i`-th on.
unfoldable pub clear : List ℕ → ℕ → ℕ → ℕ → List ℕ
unfolding slice_set
clear mem ptr i zero = mem
clear mem ptr i (suc count) = clear (slice_set u8 mem ptr i (pos 0)) ptr (i + 1) count

unfoldable pub compost_str_copy : List ℕ → ℕ → ℕ → List ℕ → List ℕ
unfolding compost_slice_copy_from clear
compost_str_copy mem dest_ptr dest_len src =
    let len = length src in
    let (mem', n) = compost_slice_copy_from u8 mem dest_ptr dest_len (chars src) (len % 2 ^ 16) in
    if ltb len dest_len then clear mem' dest_ptr len (dest_len - len) else mem'

module _ {F : Type 0} (of_word : ℕ → F) (word_of : F → ℕ) where
  unfoldable pub compost_f32_load : List ℕ → F × List ℕ
  unfolding compost_u32_load
  compost_f32_load src = let (tmp, rest) = compost_u32_load src in (of_word tmp, rest)

  unfoldable pub compost_f32_store : List ℕ → F → List ℕ × ℕ
  unfolding compost_u32_store
  compost_f32_store dest src = compost_u32_store dest (word_of src)

  unfoldable pub compost_f64_load : List ℕ → F × List ℕ
  unfolding compost_u64_load
  compost_f64_load src = let (tmp, rest) = compost_u64_load src in (of_word tmp, rest)

  unfoldable pub compost_f64_store : List ℕ → F → List ℕ × ℕ
  unfolding compost_u64_store
  compost_f64_store dest src = compost_u64_store dest (word_of src)
