-- ===== src/Transport/FrameLaws.antt =====
-- Messages in frames, and a payload that goes through a datagram.
use compost_rpc.Common.{
  ℕ, ◌+◌, ◌-◌, ◌≤◌, ◌≡◌, refl, sym, ap, ap₂, ◌∙◌, not, List, ◌++◌, inl, inr, Bool-cases, arith,
  lt→ltb, ltb-false, ◌==◌, ==_iff, if-true, if-false, length, take, drop, replicate, length-append,
  length-replicate,
}
use compost_rpc.Common.BigEndian.{be_bytes, length-be_bytes}
use compost_rpc.Common.Result.{Result, ok, err, value_error}
use compost_rpc.Payload.Slices.{drop-append_at, take_all}
use compost_rpc.Transport.Frames.{
  fill, udp_send, udp_receive, mac_addresses, ethernet_send, ethernet_receive,
}
use mathlib.Core.List.{append-nil, append_assoc}
use native.Mathlib.Decide.{dec_lt}

-- A frame that is filled has the frame in front, and zeros behind it.
pub fill_lem : (n : ℕ) (frame : List ℕ) → fill n frame ≡ frame ++ replicate (n - length frame) 0
unfolding fill
fill_lem n frame = elim (dec_lt (length frame) n) [
  | yes short ↦ rw (lt→ltb (length frame) n short) refl
  | no long ↦
      let none_missing : 0 ≡ n - length frame = omega arith in
      rw (ltb-false (length frame) n (omega arith))
        (sym (append-nil frame) ∙ ap (λ k. frame ++ replicate k 0) none_missing)
]

-- A message of at most 1500 bytes is received with the zeros that fill its datagram.
pub udp_receive-udp_send :
    (msg : List ℕ)
    → length msg ≤ 1500
    → udp_receive (udp_send msg) ≡ msg ++ replicate (64 - length msg) 0
unfolding udp_receive udp_send
udp_receive-udp_send msg h =
    ap (take 1500) (fill_lem 64 msg)
    ∙ take_all 1500 (msg ++ replicate (64 - length msg) 0) (
        omega (
          arith,
          length-append msg (replicate (64 - length msg) 0),
          length-replicate {A = ℕ} (64 - length msg) 0,
        ))

mac_addresses-length :
    (destination source addresses : List ℕ)
    → mac_addresses destination source ≡ ok addresses
    → length addresses ≡ 12
unfolding mac_addresses
mac_addresses-length destination source addresses e = elim (Bool-cases (length destination == 6)) [
  | inr wrong ↦ cc (
    e,
    if-true {A = Result (List ℕ)} (not (length destination == 6)) (err value_error) _
        (ap not wrong),
  )
  | inl six ↦ elim (Bool-cases (length source == 6)) [
    | inr wrong ↦ cc (
      e,
      if-false {A = Result (List ℕ)} (not (length destination == 6)) (err value_error) _
          (ap not six),
      if-true {A = Result (List ℕ)} (not (length source == 6)) (err value_error)
          (ok (destination ++ source)) (ap not wrong),
    )
    | inl six' ↦
        let same : destination ++ source ≡ addresses = cc (
          e,
          if-false {A = Result (List ℕ)} (not (length destination == 6)) (err value_error) _
              (ap not six),
          if-false {A = Result (List ℕ)} (not (length source == 6)) (err value_error)
              (ok (destination ++ source)) (ap not six'),
        ) in
        omega (
          arith,
          ap length (sym same),
          length-append destination source,
          (==_iff (length destination) 6).0 six,
          (==_iff (length source) 6).0 six',
        )
  ]
]

-- A frame carries a message of at most 1522 bytes, with the zeros that fill the frame behind it.
ethernet_receive-ethernet_send :
    (destination source addresses msg : List ℕ)
    → mac_addresses destination source ≡ ok addresses
    → length msg ≤ 1522
    → (frame : List ℕ) × (ethernet_send addresses msg ≡ ok frame)
      × (ethernet_receive frame ≡ msg ++ replicate (50 - length msg) 0)
unfolding ethernet_send ethernet_receive
ethernet_receive-ethernet_send destination source addresses msg made h =
    let twelve : length addresses ≡ 12 = mac_addresses-length destination source addresses made in
    let front : List ℕ = addresses ++ be_bytes 2 (length msg) in
    let whole : List ℕ = addresses ++ (be_bytes 2 (length msg) ++ msg) in
    let zeros : List ℕ = replicate (50 - length msg) 0 in
    let fourteen : length front ≡ 14 = omega (
      arith,
      twelve,
      length-append addresses (be_bytes 2 (length msg)),
      length-be_bytes 2 (length msg),
    ) in
    let sum : length whole ≡ 14 + length msg = omega (
      arith,
      ap length (sym (append_assoc addresses (be_bytes 2 (length msg)) msg)),
      length-append front msg,
      fourteen,
    ) in
    let missing : 64 - length whole ≡ 50 - length msg = omega arith in
    let parts : fill 64 whole ≡ front ++ (msg ++ zeros) =
      fill_lem 64 whole
      ∙ ap₂ (λ l k. l ++ replicate k 0) (sym (append_assoc addresses (be_bytes 2 (length msg)) msg))
          missing
      ∙ append_assoc front msg zeros in
    let short : length (front ++ (msg ++ zeros)) ≤ 1536 = omega (
      arith,
      length-append front (msg ++ zeros),
      length-append msg zeros,
      length-replicate {A = ℕ} (50 - length msg) 0,
      fourteen,
    ) in
    (
      fill 64 whole,
      rw (lt→ltb (length msg) 65536 (omega arith)) refl,
      ap (λ l. drop 14 (take 1536 l)) parts
          ∙ ap (drop 14) (take_all 1536 (front ++ (msg ++ zeros)) short)
          ∙ drop-append_at 14 front (msg ++ zeros) fourteen,
    )
