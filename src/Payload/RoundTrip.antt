-- ===== src/Payload/RoundTrip.antt =====
-- A whole payload: packed by one side, unpacked by the other.
use compost_rpc.Common.{
  ℕ, suc, ◌≤◌, ◌≡◌, refl, sym, ap, subst, ◌∙◌, List, ◌++◌, some, inl, inr, arith, length, take,
  replicate, All, All-append, All-replicate, length-replicate, length-append, Bool-cases, if-true,
  if-false, ==_iff, ◌==◌,
}
use compost_rpc.Common.BigEndian.{IsByte}
use compost_rpc.Common.Result.{Result, ok, err, value_error, type_error, >>=-eq-ok, ◌>>=◌}
use compost_rpc.MemUnit
use compost_rpc.MemUnit.{MemUnit, bits-byte_align, bytes_ceiling}
use compost_rpc.Payload.Types.{
  struct, Types, type_of, Value, int, float, items, text, raw, instance_of, tuple, Values, value,
  Library, LibraryLaws,
}
use compost_rpc.Payload.Pack.{
  Writer, astuple, deep, pack_value, pack_all, pack_payload, used, capacity, how_many, count,
}
use compost_rpc.Payload.Unpack.{unpack_payload}
use compost_rpc.Payload.Received.{received_all, FitsAll, Phase, exact, phase_after_all, IsAt}
use compost_rpc.Payload.Slices.{bits-of_bytes, take-append_at, length-take-min, All-take}
use compost_rpc.Payload.Steps.{IsValid, Moved, Follows}
use compost_rpc.Payload.Delivers.{values-DeliversAll}

abbrev start : Writer
start = (replicate capacity 0, record { bits = 0 })

start-IsValid : IsValid start
start-IsValid = record {
  bytes = All-replicate IsByte capacity 0 (omega arith);
  inside = omega arith;
}

module _ {F S : Type 0} (lib : Library F S) (laws : LibraryLaws lib) where
  -- The bytes that were used, with anything behind them, have what was written.
  used-Follows :
      (w w' : Writer) (pad : List ℕ) → Moved w w' → All IsByte pad → Follows w' (used w' ++ pad)
  unfolding used MemUnit.bytes
  used-Follows w w' pad m bytes =
      let i : ℕ = MemUnit.bytes w'.1 in
      let fits : i ≤ length w'.0 = omega (arith, m.room, m.same_length) in
      let head : length (take i w'.0) ≡ i = omega (arith, length-take-min i w'.0) in
      let all : All IsByte (take i w'.0 ++ pad) =
        All-append IsByte (take i w'.0) pad (All-take IsByte i w'.0 m.bytes) bytes in
      let room : i ≤ length (take i w'.0 ++ pad) =
        omega (arith, length-append (take i w'.0) pad, head) in
      record {
        bytes = all;
        room = omega (arith, room);
        same = λ n h.
            bits-of_bytes i (take i w'.0 ++ pad) w'.0 all m.bytes room fits
              (take-append_at i (take i w'.0) pad head) n (omega (arith, h));
      }

  -- Packing that succeeds packs all of the arguments.
  packed_args :
      (types : Types) (args : Values F S) (bytes : List ℕ)
      → pack_payload lib types args ≡ ok bytes
      → (w : Writer) × (pack_all lib types start args ≡ ok w) × (used w ≡ bytes)
  unfolding pack_payload
  packed_args types args bytes e =
      let all : Result Writer = pack_all lib types start args in
      let run : Result (List ℕ) = (do w ← all; ok (used w)) in
      elim (Bool-cases (count args == how_many types)) [
        | inl fits ↦
            let done : run ≡ ok bytes =
              cc (e, if-true (count args == how_many types) run (err value_error) fits) in
            let (w, packed, same) = >>=-eq-ok all (λ w. ok (used w)) done in (w, packed, cc same)
        | inr differs ↦
            cc (e, if-false (count args == how_many types) run (err value_error) differs)
      ]

  -- What was packed is unpacked by the same types, whatever follows it in the message: every value
  -- arrives as `received_all` says. It holds for values that fit their types, and for types in which no
  -- bit field follows a number that the reader reads inside a byte.
  pub unpack_payload-pack_payload :
      (types : Types) (args : Values F S) (bytes pad : List ℕ) (ph : Phase)
      → FitsAll lib laws types args
      → phase_after_all types (exact 0) ≡ some ph
      → All IsByte pad
      → pack_payload lib types args ≡ ok bytes
      → unpack_payload lib types (bytes ++ pad) ≡ ok (received_all lib laws types args)
  unfolding pack_payload unpack_payload IsAt
  unpack_payload-pack_payload types args bytes pad ph fits readable padding e =
      let (w, packed, same) = packed_args types args bytes e in
      let d = values-DeliversAll lib laws types start w args start-IsValid fits packed in
      let (u, reads, at) =
        d.delivers (exact 0) ph (used w ++ pad) (record { bits = 0 }) readable
          (used-Follows start w pad d.moved padding) (refl, refl) in
      rw (← same, reads) refl

  astuple-deep : (v : Value F S) → astuple (deep v) ≡ err type_error
  unfolding astuple deep
  astuple-deep (instance_of x) = refl
  astuple-deep (int x) = refl
  astuple-deep (float x) = refl
  astuple-deep (text x) = refl
  astuple-deep (raw x) = refl
  astuple-deep (items x) = refl
  astuple-deep (tuple x) = refl

  -- An instance of a struct whose first member is a struct cannot be packed, whatever it holds: the
  -- payload is refused with `TypeError`.
  pub pack_payload_nested :
      (inner rest types : Types) (v : Value F S) (vs args : Values F S)
      → count args ≡ how_many types
      → pack_payload lib
          (type_of (struct (type_of (struct inner) rest)) types)
          (value (instance_of (value v vs)) args)
        ≡ err type_error
  unfolding pack_payload pack_value how_many count astuple deep
  pack_payload_nested inner rest types v vs args same =
      if-true (suc (count args) == suc (how_many types)) _ _
        ((==_iff (suc (count args)) (suc (how_many types))).1 (ap suc same))
      ∙ rw (astuple-deep v) refl

  -- What was packed is at most 1024 bytes, and each of them is a byte.
  pub pack_payload_bounds :
      (types : Types) (args : Values F S) (bytes : List ℕ)
      → FitsAll lib laws types args
      → pack_payload lib types args ≡ ok bytes
      → (length bytes ≤ 1024) × All IsByte bytes
  unfolding used MemUnit.bytes
  pack_payload_bounds types args bytes fits e =
      let (w, packed, same) = packed_args types args bytes e in
      let d = values-DeliversAll lib laws types start w args start-IsValid fits packed in
      let i : ℕ = MemUnit.bytes w.1 in
      (
        omega (
          arith,
          ap length (sym same),
          length-take-min i w.0,
          length-replicate {A = ℕ} capacity 0,
          d.moved.room,
        ),
        subst (All IsByte) same (All-take IsByte i w.0 d.moved.bytes),
      )
