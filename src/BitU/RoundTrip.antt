-- ===== src/BitU/RoundTrip.antt =====
-- `BitU.pack` and `BitU.unpack` against the bit string that the buffer is.
use compost_rpc.Common.{
  ℕ, ◌+◌, ◌*◌, ◌/◌, ◌^◌, ◌≤◌, ◌<◌, ◌≡◌, refl, sym, ap, subst, ◌∙◌, List, arith, length, All,
}
use compost_rpc.Common.Int.{ℤ}
use compost_rpc.Common.BigEndian.{IsByte}
use compost_rpc.Common.Result.{ok, err, index_error, >>=-eq-ok}
use compost_rpc.BitString.{head_bits}
use compost_rpc.MemUnit
use compost_rpc.MemUnit.{MemUnit}
use compost_rpc.BitU.{unpack, unpack_loop, pack, pack_loop}
use compost_rpc.BitU.Low.{low_bits, low_bits-lt}
use compost_rpc.BitU.Packing.{Written, Written-before, pack_loop_lem, pack_loop_short}
use compost_rpc.BitU.Unpacking.{Holds, unpack_loop_lem, unpack_loop_short}
use native.Mathlib.Decide.{dec_lt}
use native.Mathlib.Nat.{zero-mul}

-- Where the field lies inside the buffer, packing succeeds and writes the low bits of the value
-- right behind the bits that stand before the offset, which keep their values.
pub pack_writes :
    (size : MemUnit) (buffer : List ℕ) (offset : MemUnit) (value : ℤ)
    → offset.bits + size.bits ≤ 8 * length buffer
    → All IsByte buffer
    → (out : List ℕ) × (pack size buffer offset value ≡ ok (out, MemUnit.add offset size))
      × Written buffer out offset.bits size.bits (low_bits value size.bits)
unfolding pack
pack_writes size buffer offset value room bytes =
    let (out, runs, written) =
      pack_loop_lem size.bits value buffer size.bits (offset.bits / 8) offset.bits (omega arith)
        (λ _. refl) room bytes in
    (out, rw runs refl, written)

-- Where the field lies inside the buffer, unpacking succeeds and returns exactly the bits that
-- follow the offset.
pub unpack_reads :
    (size : MemUnit) (buffer : List ℕ) (offset : MemUnit)
    → offset.bits + size.bits ≤ 8 * length buffer
    → All IsByte buffer
    → (x : ℕ) × (unpack size buffer offset ≡ ok (x, MemUnit.add offset size))
      × Holds buffer offset.bits size.bits x
unfolding unpack
unpack_reads size buffer offset room bytes =
    let (x, runs, holds) =
      unpack_loop_lem size.bits buffer size.bits (offset.bits / 8) offset.bits 0 (omega arith)
        (λ _. refl) room bytes in
    let from_zero : unpack_loop size.bits buffer size.bits (offset.bits / 8) offset.bits 0 ≡ ok x =
      ap (unpack_loop size.bits buffer size.bits (offset.bits / 8) offset.bits)
        (sym (zero-mul (2 ^ size.bits)))
      ∙ runs
      ∙ ap ok (omega arith) in
    (x, rw from_zero refl, holds)

-- A field that does not lie inside the buffer makes unpacking raise `IndexError`.
pub unpack_short :
    (size : MemUnit) (buffer : List ℕ) (offset : MemUnit)
    → 0 < size.bits
    → 8 * length buffer < offset.bits + size.bits
    → unpack size buffer offset ≡ err index_error
unfolding unpack
unpack_short size buffer offset some_bits short =
    rw
      (unpack_loop_short size.bits buffer size.bits (offset.bits / 8) offset.bits 0 (omega arith)
        some_bits refl short)
      refl

-- One field holds one value.
pub field_unique : (buffer : List ℕ) (o w x y : ℕ) → Holds buffer o w x → Holds buffer o w y → x ≡ y
field_unique buffer o w x y h k = omega (arith, h.field, k.field)

-- What was written stays readable in a buffer that agrees as far as its end.
pub Written-Holds :
    {buffer out : List ℕ} (later : List ℕ) (o w x : ℕ)
    → x < 2 ^ w
    → Written buffer out o w x
    → ((n : ℕ) → n ≤ o + w → head_bits later n ≡ head_bits out n)
    → Holds later o w x
Written-Holds later o w x fits written agree = record {
  fits = fits;
  field = omega (
    arith,
    written.field,
    agree (o + w) (omega arith),
    ap (λ (t : ℕ). t * 2 ^ w) (agree o (omega arith) ∙ Written-before written o (omega arith)),
  );
}

-- Packing that succeeds had room for the field.
pub pack_room :
    (size : MemUnit) (buffer : List ℕ) (offset : MemUnit) (value : ℤ) {r : List ℕ × MemUnit}
    → offset.bits ≤ 8 * length buffer
    → pack size buffer offset value ≡ ok r
    → offset.bits + size.bits ≤ 8 * length buffer
unfolding pack
pack_room size buffer offset value inside packed =
    elim (dec_lt (8 * length buffer) (offset.bits + size.bits)) [
      | no fits ↦ omega arith
      | yes outside ↦
          let (out, runs, _) =
            >>=-eq-ok (pack_loop size.bits value buffer size.bits (offset.bits / 8) offset.bits) _
              packed in
          cc (
            runs,
            pack_loop_short size.bits value buffer size.bits (offset.bits / 8) offset.bits
                (omega arith) (omega arith) refl outside,
          )
    ]

-- What was written is read in any buffer that agrees as far as its end.
pub unpack-Written :
    (size : MemUnit) {buffer out : List ℕ} (later : List ℕ) (offset : MemUnit) (value : ℤ)
    → Written buffer out offset.bits size.bits (low_bits value size.bits)
    → All IsByte later
    → offset.bits + size.bits ≤ 8 * length later
    → ((n : ℕ) → n ≤ offset.bits + size.bits → head_bits later n ≡ head_bits out n)
    → unpack size later offset ≡ ok (low_bits value size.bits, MemUnit.add offset size)
unpack-Written size {buffer} {out} later offset value written later_bytes room agree =
    let (x, reads, holds) = unpack_reads size later offset room later_bytes in
    let w : ℕ = size.bits in
    let back : Holds later offset.bits w (low_bits value w) =
      Written-Holds later offset.bits w _ (low_bits-lt value w) written agree in
    reads
    ∙ ap (λ t. ok (t, MemUnit.add offset size)) (field_unique later offset.bits w x _ holds back)

-- Reading back: in any buffer that agrees with the packed one up to the end of the field, unpacking
-- returns the low bits of the value that was packed, whatever was written behind it since.
pub unpack-pack :
    (size : MemUnit) (buffer : List ℕ) (offset : MemUnit) (value : ℤ) (out later : List ℕ)
    → offset.bits + size.bits ≤ 8 * length buffer
    → All IsByte buffer
    → All IsByte later
    → length later ≡ length buffer
    → pack size buffer offset value ≡ ok (out, MemUnit.add offset size)
    → ((n : ℕ) → n ≤ offset.bits + size.bits → head_bits later n ≡ head_bits out n)
    → unpack size later offset ≡ ok (low_bits value size.bits, MemUnit.add offset size)
unpack-pack size buffer offset value out later room bytes later_bytes same packed agree =
    let (out', runs, written) = pack_writes size buffer offset value room bytes in
    let w : ℕ = size.bits in
    let written' : Written buffer out offset.bits w (low_bits value w) =
      subst (λ o. Written buffer o offset.bits w (low_bits value w)) (cc (runs, packed)) written in
    unpack-Written size later offset value written' later_bytes (omega arith) agree
