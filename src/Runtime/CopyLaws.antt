-- ===== src/Runtime/CopyLaws.antt =====
-- The loop that copies values to a slice, and the one that reads them.
use compost_rpc.Common.{
  ℕ, ◌+◌, ◌*◌, ◌≤◌, ◌≡◌, refl, sym, ap, ap₂, ◌∙◌, subst, List, [], ◌∷◌, ◌++◌, arith, length, take,
  drop, length-take, length-append, length-drop, All, leb, le→leb, if-true,
}
use compost_rpc.Common.Int.{ℤ}
use compost_rpc.Common.Result.{ok}
use compost_rpc.Numbers.{IntType, byte_size, pack_number}
use compost_rpc.Numbers.Laws.{unpack-pack_number}
use compost_rpc.Payload.Slices.{
  take-drop, slice-eq, take-eq, take-append_at, drop-append_at, take_all, drop_all,
}
use mathlib.Core.List.{append-nil}
use native.Mathlib.Nat.{mul-le-mul_left}
use compost_rpc.Runtime.Numbers.{load_fn, store_fn}
use compost_rpc.Runtime.NumberLaws.{load_fn-pack_number, store_fn-pack_number}
use compost_rpc.Runtime.Slices.{
  slice_get, slice_set, copy_values, values_from, compost_slice_copy_from, compost_slice_ncopy_to,
}

-- A value that the type holds.
abbrev pub IsOf : IntType → ℤ → Type 0
IsOf t v = (bytes : List ℕ) × (pack_number t v ≡ ok bytes)

-- What setting one element leaves in the memory.
record Set (t : IntType) (mem mem' : List ℕ) (place : ℕ) (bytes : List ℕ) : Type 0 where
  same_length : length mem' ≡ length mem
  before : take place mem' ≡ take place mem
  there : take (byte_size t) (drop place mem') ≡ bytes

slice_set-Set :
    (t : IntType) (mem : List ℕ) (ptr idx : ℕ) (value : ℤ) (bytes : List ℕ)
    → pack_number t value ≡ ok bytes
    → ptr + byte_size t * idx + byte_size t ≤ length mem
    → Set t mem (slice_set t mem ptr idx value) (ptr + byte_size t * idx) bytes
unfolding slice_set
slice_set-Set t mem ptr idx value bytes packed room =
    let place : ℕ = ptr + byte_size t * idx in
    let behind : List ℕ = drop (length bytes) (drop place mem) in
    let (_, size, _) = unpack-pack_number t value bytes [] [] packed in
    let stored : (store_fn t (drop place mem) value).0 ≡ bytes ++ behind =
      ap (λ r. r.0)
        (store_fn-pack_number t value bytes (drop place mem) (omega (arith, length-drop place mem))
          packed) in
    let front : length (take place mem) ≡ place = length-take place mem (omega arith) in
    record {
      same_length =
          ap (λ l. length (take place mem ++ l)) stored
          ∙ omega (
            arith,
            front,
            size,
            length-append (take place mem) (bytes ++ behind),
            length-append bytes behind,
            length-drop (length bytes) (drop place mem),
            length-drop place mem,
          );
      before =
          ap (λ l. take place (take place mem ++ l)) stored
          ∙ take-append_at place (take place mem) (bytes ++ behind) front;
      there =
          ap (λ l. take (byte_size t) (drop place (take place mem ++ l))) stored
          ∙ ap (take (byte_size t)) (drop-append_at place (take place mem) (bytes ++ behind) front)
          ∙ take-append_at (byte_size t) bytes behind size;
    }

-- An element whose bytes are in their place is read.
slice_get-there :
    (t : IntType) (mem : List ℕ) (ptr idx : ℕ) (value : ℤ) (bytes : List ℕ)
    → pack_number t value ≡ ok bytes
    → take (byte_size t) (drop (ptr + byte_size t * idx) mem) ≡ bytes
    → slice_get t mem ptr idx ≡ value
unfolding slice_get
slice_get-there t mem ptr idx value bytes packed there =
    let left : List ℕ = drop (ptr + byte_size t * idx) mem in
    let parts : left ≡ bytes ++ drop (byte_size t) left =
      sym (take-drop (byte_size t) left) ∙ ap (λ l. l ++ drop (byte_size t) left) there in
    ap (λ l. (load_fn t l).0) parts
    ∙ ap (λ r. r.0) (load_fn-pack_number t value bytes (drop (byte_size t) left) packed)

-- Values that were copied, from the `i`-th element on.
pub record Copied (t : IntType) (mem mem' : List ℕ) (ptr i : ℕ) (values : List ℤ) : Type 0 where
  pub same_length : length mem' ≡ length mem
  pub before : take (ptr + byte_size t * i) mem' ≡ take (ptr + byte_size t * i) mem
  pub reads : values_from t mem' ptr i (length values) ≡ values

pub copy_values-Copied :
    (t : IntType) (mem : List ℕ) (ptr i : ℕ) (values : List ℤ)
    → All (IsOf t) values
    → ptr + byte_size t * (i + length values) ≤ length mem
    → Copied t mem (copy_values t mem ptr i values) ptr i values
unfolding copy_values values_from
copy_values-Copied t mem ptr i [] held room = record {
  same_length = refl;
  before = refl;
  reads = refl;
}
copy_values-Copied t mem ptr i (value ∷ values) held room =
    let (bytes, packed) = held.0 in
    let s : ℕ = byte_size t in
    let place : ℕ = ptr + s * i in
    let mem1 : List ℕ = slice_set t mem ptr i value in
    let whole : place + s ≤ length mem = omega (arith, room) in
    let one = slice_set-Set t mem ptr i value bytes packed whole in
    let rest =
      copy_values-Copied t mem1 ptr (i + 1) values held.1 (omega (arith, room, one.same_length)) in
    let out : List ℕ = copy_values t mem1 ptr (i + 1) values in
    let next : ptr + s * (i + 1) ≡ place + s = omega arith in
    let kept : take (place + s) out ≡ take (place + s) mem1 =
      subst (λ k. take k out ≡ take k mem1) next rest.before in
    record {
      same_length = rest.same_length ∙ one.same_length;
      before = take-eq place (place + s) out mem1 (omega arith) kept ∙ one.before;
      reads =
          ap₂ ◌∷◌
            (slice_get-there t out ptr i value bytes packed
              (slice-eq place s (place + s) out mem1 (omega arith) kept ∙ one.there))
            rest.reads;
    }

-- Copying values to a slice in memory and reading as many back gives those values. They are of the type
-- of the slice and no more than it holds, and the memory has the whole slice.
pub ncopy_to-copy_from :
    (t : IntType) (mem : List ℕ) (ptr len : ℕ) (src dest : List ℤ)
    → All (IsOf t) src
    → ptr + byte_size t * len ≤ length mem
    → length src ≤ len
    → length dest ≡ length src
    → compost_slice_ncopy_to t
        (compost_slice_copy_from t mem ptr len src (length src)).0
        ptr
        len
        dest
        (length src)
      ≡ (src, length src)
unfolding compost_slice_ncopy_to compost_slice_copy_from
ncopy_to-copy_from t mem ptr len src dest held room short same =
    let n : ℕ = length src in
    let back : ℕ → List ℤ × ℕ =
      λ k. (values_from t (copy_values t mem ptr 0 (take k src)) ptr 0 k ++ drop k dest, k) in
    let copied =
      copy_values-Copied t mem ptr 0 src held
        (omega (arith, room, mul-le-mul_left (byte_size t) short)) in
    ap back (if-true (leb n len) n len (le→leb n len short))
    ∙ ap (λ l. (values_from t (copy_values t mem ptr 0 l) ptr 0 n ++ drop n dest, n))
        (take_all n src (omega arith))
    ∙ ap₂ (λ l m. (l ++ m, n)) copied.reads (drop_all n dest (omega (arith, same)))
    ∙ ap (λ l. (l, n)) (append-nil src)
