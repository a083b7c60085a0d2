-- ===== src/Transport/SendLaws.antt =====
-- The loop of `send`.
use compost_rpc.Common.{
  ℕ, zero, suc, ◌+◌, ◌-◌, ◌≤◌, ◌<◌, ◌≡◌, sym, ap, ◌∙◌, List, ◌++◌, arith, lt→ltb, ltb-false, length,
  take, drop, length-drop,
}
use compost_rpc.Common.Result.{Result, ok}
use compost_rpc.Payload.Slices.{take-drop, drop-drop, drop_all}
use compost_rpc.Transport.Stream.{send_loop, send}
use mathlib.Core.List.{append-nil, append_assoc}
use native.Mathlib.Decide.{dec_lt}

-- What a socket or a port does with bytes to send that does not raise: it takes some of them, from the
-- front, and says how many.
pub record SendsSome {C : Type 0} (write : List ℕ → C → Result ℕ × C) (out : C → List ℕ)
    : Type 0 where
  pub count : List ℕ → C → ℕ
  pub returns : (b : List ℕ) (c : C) → 0 < length b → (write b c).0 ≡ ok (count b c)
  pub some : (b : List ℕ) (c : C) → 0 < length b → 0 < count b c
  pub at_most : (b : List ℕ) (c : C) → count b c ≤ length b
  pub taken : (b : List ℕ) (c : C) → out (write b c).1 ≡ out c ++ take (count b c) b

module _ {C : Type 0} (write : List ℕ → C → Result ℕ × C) (out : C → List ℕ)
    (laws : SendsSome write out) where
  all_sent :
      (msg : List ℕ) (sent : ℕ) (c : C)
      → sent ≤ length msg
      → length msg ≤ sent
      → (sent ≡ length msg) × (out c ≡ out c ++ drop sent msg)
  all_sent msg sent c inside past =
      (omega arith, sym (append-nil (out c)) ∙ ap (λ l. out c ++ l) (sym (drop_all sent msg past)))

  send_loop_all :
      (fuel : ℕ) (msg : List ℕ) (sent : ℕ) (c : C)
      → sent ≤ length msg
      → length msg ≤ sent + fuel
      → ((send_loop write fuel msg sent c).0 ≡ ok (length msg))
        × (out (send_loop write fuel msg sent c).1 ≡ out c ++ drop sent msg)
  unfolding send_loop
  send_loop_all zero msg sent c inside fuelled =
      let (same, kept) = all_sent msg sent c inside (omega arith) in (ap ok same, kept)
  send_loop_all (suc fuel) msg sent c inside fuelled = elim (dec_lt sent (length msg)) [
    | no done ↦
        let (same, kept) = all_sent msg sent c inside (omega arith) in
        rw (send_loop, ltb-false sent (length msg) (omega arith)) (ap ok same, kept)
    | yes more ↦
        let left : List ℕ = drop sent msg in
        let n : ℕ = laws.count left c in
        let c' : C = (write left c).1 in
        let size : length left ≡ length msg - sent = length-drop sent msg in
        let (all, kept) =
          send_loop_all fuel msg (sent + n) c' (omega (arith, laws.at_most left c, size))
            (omega (arith, laws.some left c (omega (arith, size)))) in
        rw (send_loop, lt→ltb sent (length msg) more, laws.returns left c (omega (arith, size)))
          (
            all,
            kept
                ∙ ap (λ l. l ++ drop (sent + n) msg) (laws.taken left c)
                ∙ append_assoc (out c) (take n left) (drop (sent + n) msg)
                ∙ ap (λ l. out c ++ l)
                    (ap (λ l. take n left ++ l) (sym (drop-drop sent n msg)) ∙ take-drop n left),
          )
  ]

  -- `send` ends with the whole message sent, in order and once, however the socket splits it, while
  -- no write raises.
  pub send_all :
      (msg : List ℕ) (c : C)
      → ((send write msg c).0 ≡ ok (length msg)) × (out (send write msg c).1 ≡ out c ++ msg)
  unfolding send
  send_all msg c = send_loop_all (length msg) msg 0 c (omega arith) (omega arith)
