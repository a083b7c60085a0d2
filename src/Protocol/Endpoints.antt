-- ===== src/Protocol/Endpoints.antt =====
-- The two ends of a call, and the callbacks of a notification.
use compost_rpc.Common.{
  ℕ, ◌≡◌, ◌≢◌, refl, sym, ap, ◌∙◌, if-true, true, false, ◌||◌, List, [], ◌∷◌, ◌++◌, arith, ◌==◌,
  ==_refl, All,
}
use compost_rpc.Common.Result.{ok, err, value_error, ◌>>=◌}
use compost_rpc.Protocol.Rpc.{
  Rpc, CallDirection, to_remote, to_local, two_way, Endpoint, remote, local, is_call_inbound,
  is_call_outbound, remove_first, subscribe, unsubscribe,
}

abbrev pub other_end : Endpoint → Endpoint
other_end remote = local
other_end local = remote

-- What comes in at one end of a call is what goes out at the other, and at each end a call comes in
-- or goes out.
inbound-outbound :
    (e : Endpoint) (d : CallDirection)
    → (is_call_inbound e d ≡ is_call_outbound (other_end e) d)
      × ((is_call_inbound e d || is_call_outbound e d) ≡ true)
unfolding is_call_inbound is_call_outbound
inbound-outbound remote to_remote = (refl, refl)
inbound-outbound remote to_local = (refl, refl)
inbound-outbound remote two_way = (refl, refl)
inbound-outbound local to_remote = (refl, refl)
inbound-outbound local to_local = (refl, refl)
inbound-outbound local two_way = (refl, refl)

remove_first-last :
    (c : ℕ) (subs : List ℕ) → All (λ s. s ≢ c) subs → remove_first c (subs ++ (c ∷ [])) ≡ ok subs
unfolding remove_first
remove_first-last c [] h = rw (==_refl c) refl
remove_first-last c (s ∷ subs) h = rw (other, remove_first-last c subs h.1) refl
  where
    other : (s == c) ≡ false
    other = ground (arith, h.0)

remove_first-absent :
    (c : ℕ) (subs : List ℕ) → All (λ s. s ≢ c) subs → remove_first c subs ≡ err value_error
unfolding remove_first
remove_first-absent c [] h = refl
remove_first-absent c (s ∷ subs) h = rw (other, remove_first-absent c subs h.1) refl
  where
    other : (s == c) ≡ false
    other = ground (arith, h.0)

-- Taking a callback out again that was not subscribed before gives the RPC as it was; it can then
-- not be taken out a second time.
unsubscribe-subscribe :
    {A : Type 0} (r : Rpc A) (c : ℕ)
    → All (λ s. s ≢ c) r.subscribers
    → (unsubscribe (subscribe r c) c ≡ ok r) × (unsubscribe r c ≡ err value_error)
unfolding subscribe unsubscribe
unsubscribe-subscribe r c h =
    (rw (remove_first-last c r.subscribers h) refl, rw (remove_first-absent c r.subscribers h) refl)

-- Unsubscribing the first subscriber leaves those behind it.
pub unsubscribe-first :
    {A : Type 0} (r left : Rpc A) (c : ℕ) (subs : List ℕ)
    → r.subscribers ≡ c ∷ subs
    → unsubscribe r c ≡ ok left
    → left.subscribers ≡ subs
unfolding unsubscribe remove_first
unsubscribe-first r left c subs first e =
    let removed : remove_first c r.subscribers ≡ ok subs =
      ap (remove_first c) first ∙ if-true (c == c) _ _ (==_refl c) in
    let same : record r { subscribers = subs } ≡ left =
      cc (e, ap (λ l. do kept ← l; ok (record r { subscribers = kept })) removed) in
    sym (ap (λ (r : Rpc _). r.subscribers) same)
