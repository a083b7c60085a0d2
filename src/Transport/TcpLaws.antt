-- ===== src/Transport/TcpLaws.antt =====
-- The loops of `TcpTransport.receive`.
use compost_rpc.Common.{
  ℕ, zero, suc, ◌+◌, ◌-◌, ◌*◌, ◌≤◌, ◌<◌, ◌≡◌, refl, sym, ap, ap₂, ◌∙◌, true, false, List, [], ◌∷◌,
  ◌++◌, arith, lt→ltb, ltb-false, ◌==◌, ==_iff, length, length-append,
}
use compost_rpc.Common.Result.{ok, err, runtime_error}
use compost_rpc.Wire.Header
use compost_rpc.Wire.Header.{Header}
use compost_rpc.Transport.Stream.{receive_loop, tcp_receive}
use native.Mathlib.Decide.{dec_lt}

not_zero : (n : ℕ) → 0 < n → (n == 0) ≡ false
not_zero n h = ground arith

length-unpack : (header : List ℕ) (h : Header) → Header.unpack header ≡ ok h → length header ≡ 4
unfolding Header.unpack
length-unpack (a ∷ b ∷ c ∷ d ∷ []) h e = omega arith
length-unpack (a ∷ b ∷ c ∷ d ∷ x ∷ xs) h e = cc
length-unpack [] h e = cc
length-unpack (a ∷ []) h e = cc
length-unpack (a ∷ b ∷ []) h e = cc
length-unpack (a ∷ b ∷ c ∷ []) h e = cc

module _ {C : Type 0} (recv : ℕ → C → List ℕ × C) where
  receive_loop_done :
      (fuel wanted received : ℕ) (got : List ℕ) (c : C)
      → wanted ≤ received
      → receive_loop recv fuel wanted received got c ≡ ok (got, c)
  unfolding receive_loop
  receive_loop_done zero wanted received got c h = refl
  receive_loop_done (suc fuel) wanted received got c h =
      rw (receive_loop, ltb-false received wanted h) refl

  -- One round: a piece that is not empty is counted together with all that stood before it.
  module _ (fuel wanted received : ℕ) (got : List ℕ) (c : C) (more : received < wanted) where
    abbrev piece : List ℕ
    piece = (recv (wanted - received) c).0

    abbrev after : C
    after = (recv (wanted - received) c).1

    receive_loop_round :
        0 < length (got ++ piece)
        → receive_loop recv (suc fuel) wanted received got c
          ≡ receive_loop recv fuel wanted (received + length (got ++ piece)) (got ++ piece) after
    unfolding receive_loop
    receive_loop_round some_bytes =
        let test : (length (got ++ piece) == 0) ≡ false =
          not_zero (length (got ++ piece)) some_bytes in
        rw (receive_loop, lt→ltb received wanted more, test) refl

    receive_loop_closed :
        length (got ++ piece) ≡ 0
        → receive_loop recv (suc fuel) wanted received got c ≡ err runtime_error
    unfolding receive_loop
    receive_loop_closed none_left =
        let test : (length (got ++ piece) == 0) ≡ true =
          (==_iff (length (got ++ piece)) 0).1 none_left in
        rw (receive_loop, lt→ltb received wanted more, test) refl

  -- More rounds change nothing once there are as many as bytes are wanted: the loop has ended by its
  -- condition or has raised. Nothing is supposed of the socket.
  pub receive_loop_ends :
      (fuel extra wanted received : ℕ) (got : List ℕ) (c : C)
      → wanted ≤ received + fuel
      → receive_loop recv (fuel + extra) wanted received got c
        ≡ receive_loop recv fuel wanted received got c
  receive_loop_ends zero extra wanted received got c enough =
      receive_loop_done (0 + extra) wanted received got c (omega arith)
      ∙ sym (receive_loop_done 0 wanted received got c (omega arith))
  receive_loop_ends (suc fuel) extra wanted received got c enough =
      let next : suc fuel + extra ≡ suc (fuel + extra) = omega arith in
      ap (λ k. receive_loop recv k wanted received got c) next ∙ elim (dec_lt received wanted) [
        | no done ↦
            receive_loop_done (suc (fuel + extra)) wanted received got c (omega arith)
            ∙ sym (receive_loop_done (suc fuel) wanted received got c (omega arith))
        | yes more ↦
            let got' : List ℕ = got ++ (recv (wanted - received) c).0 in
            let c' : C = (recv (wanted - received) c).1 in
            elim (dec_lt 0 (length got')) [
              | no closed ↦
                  receive_loop_closed (fuel + extra) wanted received got c more (omega arith)
                  ∙ sym (receive_loop_closed fuel wanted received got c more (omega arith))
              | yes some_bytes ↦
                  receive_loop_round (fuel + extra) wanted received got c more some_bytes
                  ∙ receive_loop_ends fuel extra wanted (received + length got') got' c'
                      (omega arith)
                  ∙ sym (receive_loop_round fuel wanted received got c more some_bytes)
            ]
      ]

  -- A loop that gets what it wants in one piece, or in two.
  loop_one :
      (fuel wanted : ℕ) (c c' : C) (a : List ℕ)
      → 0 < fuel
      → 0 < wanted
      → recv wanted c ≡ (a, c')
      → wanted ≤ length a
      → receive_loop recv fuel wanted 0 [] c ≡ ok (a, c')
  loop_one fuel wanted c c' a fuelled more e all =
      let first : recv (wanted - 0) c ≡ (a, c') = ap (λ k. recv k c) (omega arith) ∙ e in
      let round : suc (fuel - 1) ≡ fuel = omega arith in
      let size : length (recv (wanted - 0) c).0 ≡ length a =
        ap (λ (r : List ℕ × C). length r.0) first in
      ap (λ k. receive_loop recv k wanted 0 [] c) (sym round)
      ∙ receive_loop_round (fuel - 1) wanted 0 [] c more (omega (arith, size))
      ∙ receive_loop_done (fuel - 1) wanted (0 + length (recv (wanted - 0) c).0)
          (recv (wanted - 0) c).0 (recv (wanted - 0) c).1 (omega (arith, size))
      ∙ ap ok first

  loop_two :
      (fuel wanted : ℕ) (c c' c'' : C) (a b : List ℕ)
      → 1 < fuel
      → recv wanted c ≡ (a, c')
      → recv (wanted - length a) c' ≡ (b, c'')
      → 0 < length a
      → length a < wanted
      → wanted ≤ length a + length (a ++ b)
      → receive_loop recv fuel wanted 0 [] c ≡ ok (a ++ b, c'')
  loop_two fuel wanted c c' c'' a b fuelled e e' some_bytes more all =
      let first : recv (wanted - 0) c ≡ (a, c') = ap (λ k. recv k c) (omega arith) ∙ e in
      let round : suc (fuel - 1) ≡ fuel = omega arith in
      let round' : suc (fuel - 2) ≡ fuel - 1 = omega arith in
      let size : length (recv (wanted - 0) c).0 ≡ length a =
        ap (λ (r : List ℕ × C). length r.0) first in
      ap (λ k. receive_loop recv k wanted 0 [] c) (sym round)
      ∙ receive_loop_round (fuel - 1) wanted 0 [] c (omega arith) (omega (arith, size))
      ∙ ap (λ (r : List ℕ × C). receive_loop recv (fuel - 1) wanted (0 + length r.0) r.0 r.1) first
      ∙ ap₂ (λ k n. receive_loop recv k wanted n a c') (sym round') (omega arith)
      ∙ receive_loop_round (fuel - 2) wanted (length a) a c' more
          (omega (arith, length-append a (recv (wanted - length a) c').0))
      ∙ ap
          (λ (r : List ℕ × C).
            receive_loop recv (fuel - 2) wanted (length a + length (a ++ r.0)) (a ++ r.0) r.1)
          e'
      ∙ receive_loop_done (fuel - 2) wanted (length a + length (a ++ b)) (a ++ b) c'' all

  -- A message whose header and whose payload arrive in one piece each is received whole.
  tcp_receive_whole :
      (c c' c'' : C) (header payload : List ℕ) (h : Header)
      → recv 4 c ≡ (header, c')
      → Header.unpack header ≡ ok h
      → 0 < h.len
      → recv (4 * h.len) c' ≡ (payload, c'')
      → length payload ≡ 4 * h.len
      → (tcp_receive recv c ≡ ok (header ++ payload, c''))
        × (length (header ++ payload) ≡ Header.msg_byte_len h)
  unfolding tcp_receive Header.payload_byte_len Header.msg_byte_len
  tcp_receive_whole c c' c'' header payload h e unpacked some_words e' size =
      let four : length header ≡ 4 = length-unpack header h unpacked in
      let first : receive_loop recv 4 4 0 [] c ≡ ok (header, c') =
        loop_one 4 4 c c' header (omega arith) (omega arith) e (omega (arith, four)) in
      let second : receive_loop recv (4 * h.len) (4 * h.len) 0 [] c' ≡ ok (payload, c'') =
        loop_one (4 * h.len) (4 * h.len) c' c'' payload (omega arith) (omega arith) e'
          (omega (arith, size)) in
      (rw (first, unpacked, second) refl, omega (arith, length-append header payload, four, size))

  -- The payload is cut off: if it arrives in several pieces, the first two of which are `a` and `b`, and
  -- counting `a` twice makes up for what is missing, then a message that is shorter than its header
  -- says is returned as if it were complete, and the rest of it stays in the stream.
  pub tcp_receive_truncated :
      (c c' c'' d : C) (header a b : List ℕ) (h : Header)
      → recv 4 c ≡ (header, c')
      → Header.unpack header ≡ ok h
      → recv (4 * h.len) c' ≡ (a, c'')
      → recv (4 * h.len - length a) c'' ≡ (b, d)
      → 0 < length a
      → length a + length b < 4 * h.len
      → 4 * h.len ≤ 2 * length a + length b
      → (tcp_receive recv c ≡ ok (header ++ (a ++ b), d))
        × (length (header ++ (a ++ b)) < Header.msg_byte_len h)
  unfolding tcp_receive Header.payload_byte_len Header.msg_byte_len
  tcp_receive_truncated c c' c'' d header a b h e unpacked e' e'' some_bytes short twice =
      let four : length header ≡ 4 = length-unpack header h unpacked in
      let sum : length (a ++ b) ≡ length a + length b = length-append a b in
      let first : receive_loop recv 4 4 0 [] c ≡ ok (header, c') =
        loop_one 4 4 c c' header (omega arith) (omega arith) e (omega (arith, four)) in
      let second : receive_loop recv (4 * h.len) (4 * h.len) 0 [] c' ≡ ok (a ++ b, d) =
        loop_two (4 * h.len) (4 * h.len) c' c'' d a b (omega arith) e' e'' some_bytes (omega arith)
          (omega (arith, sum)) in
      (rw (first, unpacked, second) refl, omega (arith, length-append header (a ++ b), sum, four))
