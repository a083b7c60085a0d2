-- ===== src/BitU/Runs.antt =====
-- Packing and unpacking of bit fields in concrete buffers.
use compost_rpc.Common.{ℕ, ◌≤◌, ◌≡◌, refl, subst, List, [], ◌∷◌, arith}
use compost_rpc.Common.Int.{pos}
use compost_rpc.Common.Result.{ok}
use compost_rpc.BitString.{head_bits}
use compost_rpc.MemUnit
use compost_rpc.MemUnit.{MemUnit}
use compost_rpc.BitU
use compost_rpc.BitU.Low.{low_bits}
use compost_rpc.BitU.Packing.{Written, Written-before}
use compost_rpc.BitU.Unpacking.{Holds}
use compost_rpc.BitU.RoundTrip

abbrev bits : ℕ → MemUnit
bits n = record { bits = n }

abbrev two_bytes : List ℕ
two_bytes = 0xFF ∷ 0xFF ∷ []

-- Ten bits from bit 3 on.
eleven-packs : BitU.pack (bits 10) two_bytes (bits 3) (pos 0x155) ≡ ok (0xEA ∷ 0xAF ∷ [], bits 13)
unfolding BitU.pack
eleven-packs = refl

pack_writes_example :
    (out : List ℕ) × (BitU.pack (bits 10) two_bytes (bits 3) (pos 0x155)
      ≡ ok (out, MemUnit.add (bits 3) (bits 10)))
    × Written two_bytes out 3 10 (low_bits (pos 0x155) 10)
pack_writes_example =
    RoundTrip.pack_writes (bits 10) two_bytes (bits 3) (pos 0x155) (omega arith) (omega arith)

unpack_reads_example :
    (x : ℕ) × (BitU.unpack (bits 10) (0xEA ∷ 0xAF ∷ []) (bits 3)
      ≡ ok (x, MemUnit.add (bits 3) (bits 10)))
    × Holds (0xEA ∷ 0xAF ∷ []) 3 10 x
unpack_reads_example =
    RoundTrip.unpack_reads (bits 10) (0xEA ∷ 0xAF ∷ []) (bits 3) (omega arith) (omega arith)

-- The last three bits are written after that.
three-packs :
    BitU.pack (bits 3) (0xEA ∷ 0xAF ∷ []) (bits 13) (pos 0) ≡ ok (0xEA ∷ 0xA8 ∷ [], bits 16)
unfolding BitU.pack
three-packs = refl

same_head : (n : ℕ) → n ≤ 13 → head_bits (0xEA ∷ 0xA8 ∷ []) n ≡ head_bits (0xEA ∷ 0xAF ∷ []) n
same_head n h =
    let (out, runs, written) =
      RoundTrip.pack_writes (bits 3) (0xEA ∷ 0xAF ∷ []) (bits 13) (pos 0) (omega arith)
        (omega arith) in
    let same : out ≡ 0xEA ∷ 0xA8 ∷ [] = cc (runs, three-packs) in
    subst (λ l. head_bits l n ≡ head_bits (0xEA ∷ 0xAF ∷ []) n) same (Written-before written n h)

unpack-pack_example :
    BitU.unpack (bits 10) (0xEA ∷ 0xA8 ∷ []) (bits 3)
    ≡ ok (low_bits (pos 0x155) 10, MemUnit.add (bits 3) (bits 10))
unfolding MemUnit.add
unpack-pack_example =
    RoundTrip.unpack-pack (bits 10) two_bytes (bits 3) (pos 0x155) (0xEA ∷ 0xAF ∷ [])
      (0xEA ∷ 0xA8 ∷ []) (omega arith) (omega arith) (omega arith) refl eleven-packs same_head
