-- ===== src/Session/Rounds.antt =====
-- The rounds of the loop over the subscribers of a notification, when callbacks change the list.
use compost_rpc.Common.{
  ℕ, zero, suc, ◌+◌, ◌≤◌, ◌<◌, ◌≡◌, refl, sym, List, [], ◌∷◌, ◌++◌, none, arith, Option-cases, inl,
  inr,
}
use compost_rpc.Common.Result.{Result, ok, err, Result-cases}
use compost_rpc.Protocol.Rpc.{PayloadSerdes}
use compost_rpc.Session.{Session, Environment, subscriber_at, proceed, notify}

-- `n` bounds the length of the list in every session that `P` holds of, and callbacks keep `P`.
module _ {A : Type 0} (env : Environment A) (P : Session A → Type 0) (rpc_id n : ℕ)
    (bound : (t : Session A) (i : ℕ) → P t → n ≤ i → subscriber_at rpc_id i t ≡ none)
    (keeps : (sub : ℕ) (args : A) (t : Session A)
      → P t
      → P (env.run sub args (record t { called = t.called ++ ((sub, args) ∷ []) })).1) where
  proceed_same :
      (loop loop' : Session A → Session A)
      → ((t : Session A) → P t → loop t ≡ loop' t)
      → (after : Result (Unit {0}) × Session A) → P after.1
      → proceed loop after ≡ proceed loop' after
  unfolding proceed
  proceed_same loop loop' same (err e, t) q = refl
  proceed_same loop loop' same (ok u, t) q = same t q

  -- More rounds than the bound make no difference: the loop has ended.
  pub notify_enough :
      (rounds rounds' i : ℕ) (serdes : PayloadSerdes A) (payload : List ℕ) (s : Session A)
      → P s
      → n < i + rounds
      → n < i + rounds'
      → notify env rounds rpc_id i serdes payload s ≡ notify env rounds' rpc_id i serdes payload s
  unfolding notify proceed
  notify_enough zero zero i serdes payload s p enough enough' = refl
  notify_enough zero (suc rounds') i serdes payload s p enough enough' =
      let gone = bound s i p (omega (arith, enough)) in sym (rw (notify, gone) refl)
  notify_enough (suc rounds) zero i serdes payload s p enough enough' =
      let gone = bound s i p (omega (arith, enough')) in rw (notify, gone) refl
  notify_enough (suc rounds) (suc rounds') i serdes payload s p enough enough' =
      elim (Option-cases (subscriber_at rpc_id i s)) [
        | inl gone ↦ rw (notify, gone) refl
        | inr (sub, here) ↦ elim (Result-cases (serdes.unpack payload)) [
          | inr (e, bad) ↦ rw (notify, here, bad) refl
          | inl (args, good) ↦
              let after = env.run sub args (record s { called = s.called ++ ((sub, args) ∷ []) }) in
              rw (notify, here, good)
                (proceed_same (notify env rounds rpc_id (suc i) serdes payload)
                  (notify env rounds' rpc_id (suc i) serdes payload)
                  (λ t q.
                    notify_enough rounds rounds' (suc i) serdes payload t q (omega (arith, enough))
                      (omega (arith, enough')))
                  after (keeps sub args s p))
        ]
      ]
