-- ===== src/MemUnit.antt =====
-- `MemUnit` of compost_rpc/compost_rpc.py: a memory size in bits. A method that writes to the
-- object returns the new one; every caller in the code goes on with what it gets back.
use compost_rpc.Common.{ℕ, ◌+◌, ◌-◌, ◌*◌, ◌/◌, ◌%◌, ◌≤◌, ◌<◌, ◌≡◌, arith, Bool, ◌==◌, if◌then◌else◌}

pub record MemUnit : Type 0 where
  pub bits : ℕ

abbrev pub bits_per_byte : ℕ
bits_per_byte = 8

unfoldable pub from_bytes : ℕ → MemUnit
from_bytes n = record { bits = n * bits_per_byte }

-- The size in bytes, rounded up.
unfoldable pub bytes : MemUnit → ℕ
bytes u = (u.bits + bits_per_byte - 1) / bits_per_byte

-- `u.bytes = n`
unfoldable pub set_bytes : MemUnit → ℕ → MemUnit
set_bytes u n = record u { bits = n * bits_per_byte }

unfoldable pub is_byte_aligned : MemUnit → Bool
is_byte_aligned u = u.bits % bits_per_byte == 0

unfoldable pub byte_align : MemUnit → MemUnit
unfolding is_byte_aligned bytes
byte_align u = if is_byte_aligned u then u else record u { bits = bytes u * bits_per_byte }

unfoldable pub eq : MemUnit → MemUnit → Bool
eq a b = a.bits == b.bits

unfoldable pub add : MemUnit → MemUnit → MemUnit
add a b = record { bits = a.bits + b.bits }

-- Aligning goes up to the next multiple of eight, by less than eight.
byte_align_bounds :
    (u : MemUnit)
    → ((byte_align u).bits % 8 ≡ 0)
      × (u.bits ≤ (byte_align u).bits)
      × ((byte_align u).bits < u.bits + 8)
unfolding byte_align
byte_align_bounds u = ground arith

pub bits-byte_align : (u : MemUnit) → (byte_align u).bits ≡ 8 * ((u.bits + 7) / 8)
unfolding byte_align
bits-byte_align u = ground arith

pub bytes_ceiling : (u : MemUnit) → bytes u ≡ (u.bits + 7) / 8
unfolding bytes
bytes_ceiling u = omega arith
