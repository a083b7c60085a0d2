-- ===== src/Runtime/Slices.antt =====
-- The slices of the C runtime over the integer types. The memory is one list of bytes, a pointer an
-- index into it, and an array of the program a list of values.
use compost_rpc.Common.{
  ℕ, zero, suc, ◌+◌, ◌*◌, ◌/◌, ◌%◌, ◌^◌, Option, none, some, List, [], ◌∷◌, ◌++◌, ltb, leb, ◌==◌,
  if◌then◌else◌, take, drop,
}
use compost_rpc.Common.Int.{ℤ}
use compost_rpc.Numbers.{IntType, byte_size}
use compost_rpc.Runtime.Alloc.{CompostAlloc, compost_alloc_next}
use compost_rpc.Runtime.Numbers.{load_fn, store_fn, compost_u16_load, compost_u16_store}

pub record CompostSlice : Type 0 where
  pub ptr : Option ℕ
  pub len : ℕ

unfoldable pub compost_min : ℕ → ℕ → ℕ
compost_min len1 len2 = if ltb len1 len2 then len1 else len2

unfoldable pub compost_slice_init : Option ℕ → ℕ → CompostSlice
compost_slice_init ptr len = record { ptr = ptr; len = len }

-- What the allocator gave, as a slice.
unfoldable pub of_alloc : ℕ → Option ℕ → CompostSlice
of_alloc len none = record { ptr = none; len = 0 }
of_alloc len (some ptr) = record { ptr = some ptr; len = len }

-- The length is cut to the `uint16_t` of the allocator's parameter.
unfoldable pub compost_slice_new : IntType → CompostAlloc → ℕ → CompostSlice × CompostAlloc
unfolding of_alloc compost_alloc_next
compost_slice_new t alloc len =
    let (ptr, alloc') = compost_alloc_next alloc (byte_size t * len % 2 ^ 16) in
    (of_alloc len ptr, alloc')

unfoldable pub slice_get : IntType → List ℕ → ℕ → ℕ → ℤ
unfolding load_fn byte_size
slice_get t mem ptr idx = (load_fn t (drop (ptr + byte_size t * idx) mem)).0

unfoldable pub slice_set : IntType → List ℕ → ℕ → ℕ → ℤ → List ℕ
unfolding store_fn byte_size
slice_set t mem ptr idx value =
    let place = ptr + byte_size t * idx in take place mem ++ (store_fn t (drop place mem) value).0

-- The loop of `compost_slice_…_copy_from`, over the values that are left.
unfoldable pub copy_values : IntType → List ℕ → ℕ → ℕ → List ℤ → List ℕ
unfolding slice_set
copy_values t mem ptr i [] = mem
copy_values t mem ptr i (value ∷ values) =
    copy_values t (slice_set t mem ptr i value) ptr (i + 1) values

unfoldable pub compost_slice_copy_from : IntType → List ℕ → ℕ → ℕ → List ℤ → ℕ → List ℕ × ℕ
unfolding copy_values
compost_slice_copy_from t mem dest_ptr dest_len src len =
    let len_limit = if leb len dest_len then len else dest_len in
    (copy_values t mem dest_ptr 0 (take len_limit src), len_limit)

-- The loop of `compost_slice_…_ncopy_to`: `count` values from the `i`-th on.
unfoldable pub values_from : IntType → List ℕ → ℕ → ℕ → ℕ → List ℤ
unfolding slice_get
values_from t mem ptr i zero = []
values_from t mem ptr i (suc count) = slice_get t mem ptr i ∷ values_from t mem ptr (i + 1) count

unfoldable pub compost_slice_ncopy_to : IntType → List ℕ → ℕ → ℕ → List ℤ → ℕ → List ℤ × ℕ
unfolding values_from
compost_slice_ncopy_to t mem src_ptr src_len dest len =
    let len_limit = if leb len src_len then len else src_len in
    (values_from t mem src_ptr 0 len_limit ++ drop len_limit dest, len_limit)

-- `compost_slice_…_load`: the slice begins behind its length, and `*src` goes on behind the slice.
unfoldable pub compost_slice_load : IntType → List ℕ → ℕ → CompostSlice × ℕ
unfolding compost_u16_load byte_size
compost_slice_load t mem src =
    let len = (compost_u16_load (drop src mem)).0 in
    (record { ptr = some (src + 2); len = len / byte_size t }, src + 2 + len)

-- `memcpy(dest, src, n)`
abbrev pub memcpy : List ℕ → ℕ → ℕ → ℕ → List ℕ
memcpy mem dest src n = take dest mem ++ (take n (drop src mem) ++ drop (dest + n) mem)

-- `compost_slice_…_store`: the memory afterwards, and where `*dest` goes on.
unfoldable pub compost_slice_store : IntType → List ℕ → ℕ → ℕ → ℕ → List ℕ × ℕ
unfolding compost_u16_store byte_size
compost_slice_store t mem dest src_ptr src_len =
    let len = src_len * byte_size t % 2 ^ 16 in
    let moved = if src_ptr == dest then mem else memcpy mem (dest + 2) src_ptr len in
    (take dest moved ++ (compost_u16_store (drop dest moved) len).0, dest + 2 + len)

-- `compost_slice_…_copy`: the memory afterwards, and the length of the slice that is returned.
unfoldable pub compost_slice_copy : IntType → List ℕ → ℕ → ℕ → ℕ → ℕ → List ℕ × ℕ
unfolding compost_min byte_size
compost_slice_copy t mem dest_ptr dest_len src_ptr src_len =
    let len_limit = compost_min src_len dest_len in
    (
      if src_ptr == dest_ptr then mem else memcpy mem dest_ptr src_ptr (len_limit * byte_size t),
      len_limit,
    )

unfoldable pub compost_slice_copy_to : IntType → List ℕ → ℕ → ℕ → List ℤ → List ℤ
unfolding compost_slice_ncopy_to
compost_slice_copy_to t mem src_ptr src_len dest =
    (compost_slice_ncopy_to t mem src_ptr src_len dest src_len).0
