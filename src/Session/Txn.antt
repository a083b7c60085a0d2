-- ===== src/Session/Txn.antt =====
-- The transaction numbers of successive requests.
use compost_rpc.Common.{ℕ, zero, suc, ◌+◌, ◌-◌, ◌%◌, ◌≤◌, ◌<◌, ◌≡◌, ◌≢◌, arith}
use compost_rpc.Session.{next_txn}

-- A request's number fits a byte and is not 0, which marks notifications; it is not the last one.
pub next_txn_range :
    (last : ℕ) → (1 ≤ next_txn last) × (next_txn last ≤ 255) × (1 ≤ last → next_txn last ≢ last)
unfolding next_txn
next_txn_range last = ground arith

-- The number of the `k`-th request after one with the number `last`.
pub txn_after : ℕ → ℕ → ℕ
txn_after zero last = last
txn_after (suc k) last = next_txn (txn_after k last)

-- The numbers go round from 1 to 255.
txn_after_cycle : (k last : ℕ) → 1 ≤ last → last ≤ 255 → txn_after k last ≡ (last - 1 + k) % 255 + 1
unfolding txn_after next_txn
txn_after_cycle zero last lo hi = omega arith
txn_after_cycle (suc k) last lo hi = ground (arith, txn_after_cycle k last lo hi)

-- Two requests have the same number exactly when a multiple of 255 requests lies between them, so
-- that no two of 255 successive requests do.
txn_after_unique :
    (i d last : ℕ)
    → 1 ≤ last
    → last ≤ 255
    → 0 < d
    → d < 255
    → txn_after (i + d) last ≢ txn_after i last
txn_after_unique i d last lo hi more less e =
    omega (arith, e, txn_after_cycle (i + d) last lo hi, txn_after_cycle i last lo hi)
