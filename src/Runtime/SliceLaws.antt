-- ===== src/Runtime/SliceLaws.antt =====
-- One element of a slice, set and read.
use compost_rpc.Common.{
  ℕ, ◌+◌, ◌*◌, ◌≤◌, ◌≡◌, sym, ap, ◌∙◌, List, ◌++◌, arith, length, take, drop, length-take,
  length-drop, drop-append,
}
use compost_rpc.Common.Int.{ℤ}
use compost_rpc.Common.Result.{ok}
use compost_rpc.Numbers.{IntType, byte_size, pack_number}
use compost_rpc.Runtime.Numbers.{load_fn, store_fn}
use compost_rpc.Runtime.NumberLaws.{load_fn-pack_number, store_fn-pack_number}
use compost_rpc.Runtime.Slices.{slice_get, slice_set}

-- An element that is set, to a value that the type holds and at a place inside the memory, reads back
-- as that value.
slice_get-slice_set :
    (t : IntType) (mem : List ℕ) (ptr idx : ℕ) (value : ℤ) (bytes : List ℕ)
    → pack_number t value ≡ ok bytes
    → ptr + byte_size t * idx + byte_size t ≤ length mem
    → slice_get t (slice_set t mem ptr idx value) ptr idx ≡ value
unfolding slice_get slice_set
slice_get-slice_set t mem ptr idx value bytes packed room =
    let place : ℕ = ptr + byte_size t * idx in
    let behind : List ℕ = drop (length bytes) (drop place mem) in
    let stored : (store_fn t (drop place mem) value).0 ≡ bytes ++ behind =
      ap (λ r. r.0)
        (store_fn-pack_number t value bytes (drop place mem) (omega (arith, length-drop place mem))
          packed) in
    let before : length (take place mem) ≡ place = length-take place mem (omega arith) in
    let part : drop place (take place mem ++ (bytes ++ behind)) ≡ bytes ++ behind =
      ap (λ k. drop k (take place mem ++ (bytes ++ behind))) (sym before)
      ∙ drop-append (take place mem) (bytes ++ behind) in
    ap (λ l. (load_fn t (drop place (take place mem ++ l))).0) stored
    ∙ ap (λ l. (load_fn t l).0) part
    ∙ ap (λ r. r.0) (load_fn-pack_number t value bytes behind packed)
