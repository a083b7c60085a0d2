-- ===== src/Transport/CanLaws.antt =====
-- `SocketCanFdTransport`: a message through a frame.
use compost_rpc.Common.{
  ℕ, ◌+◌, ◌-◌, ◌*◌, ◌≤◌, ◌≡◌, ◌≢◌, ◌⊎◌, sym, ap, ap₂, ◌∙◌, false, not, List, [], ◌∷◌, ◌++◌, some,
  inl, inr, Bool-cases, arith, ltb, leb, le→leb, ◌==◌, ==_iff, if-true, if-false, length, take,
  drop, replicate, length-append, length-replicate, All,
}
use compost_rpc.Common.Result.{Result, ok, err, value_error, ◌>>=◌, >>=-eq-ok}
use compost_rpc.Payload.Slices.{take-append_at, drop-append_at}
use compost_rpc.Transport.Frames.{fill, canfd_mtu, can_send, can_receive}
use mathlib.Core.List.{append_assoc}
use compost_rpc.Transport.FrameLaws.{fill_lem}

-- What the format of a frame header does, on any machine.
pub record HeaderFormat (pack_header : ℕ → ℕ → Result (List ℕ)) (unpack_header : List ℕ → ℕ × ℕ)
    : Type 0 where
  pub size : (id n : ℕ) (h : List ℕ) → pack_header id n ≡ ok h → length h ≡ 8
  pub back : (id n : ℕ) (h : List ℕ) → pack_header id n ≡ ok h → unpack_header h ≡ (id, n)

module _ (pack_header : ℕ → ℕ → Result (List ℕ)) (unpack_header : List ℕ → ℕ × ℕ)
    (laws : HeaderFormat pack_header unpack_header) where
  -- A frame that is not for this receiver.
  unfoldable pub IsOther : ℕ → List ℕ → Type 0
  IsOther id frame = (length frame ≢ canfd_mtu) ⊎ ((unpack_header (take 8 frame)).0 ≢ id)

  ne→== : (a b : ℕ) → a ≢ b → (a == b) ≡ false
  ne→== a b h = elim (Bool-cases (a == b)) [
    | inl same ↦ absurd (h ((==_iff a b).0 same))
    | inr differ ↦ differ
  ]

  can_receive-other :
      (id : ℕ) (frame : List ℕ) (frames : List (List ℕ))
      → IsOther id frame
      → can_receive pack_header unpack_header id (frame ∷ frames)
        ≡ can_receive pack_header unpack_header id frames
  unfolding can_receive IsOther
  can_receive-other id frame frames (inl size) =
      if-true (not (length frame == canfd_mtu)) _ _ (ap not (ne→== (length frame) canfd_mtu size))
  can_receive-other id frame frames (inr sender) = elim (Bool-cases (length frame == canfd_mtu)) [
    | inr size ↦ if-true (not (length frame == canfd_mtu)) _ _ (ap not size)
    | inl size ↦
        if-false (not (length frame == canfd_mtu)) _ _ (ap not size)
        ∙ if-true (not ((unpack_header (take 8 frame)).0 == id)) _ _
            (ap not (ne→== (unpack_header (take 8 frame)).0 id sender))
  ]

  -- A frame is its header, the message, and zeros up to 72 bytes.
  can_send-parts :
      (id words : ℕ) (msg frame : List ℕ)
      → can_send pack_header unpack_header id (words ∷ msg) ≡ ok frame
      → (4 + 4 * words ≤ 64)
        × (header : List ℕ) × (pack_header id (4 + 4 * words) ≡ ok header)
        × (fill canfd_mtu (header ++ (words ∷ msg)) ≡ frame)
  unfolding can_send
  can_send-parts id words msg frame sent =
      let rest : Result (List ℕ) = (do
        header ← pack_header id (4 + 4 * words)
        ok (fill canfd_mtu (header ++ (words ∷ msg)))) in
      elim (Bool-cases (ltb 64 (4 + 4 * words))) [
        | inl long ↦ cc (sent, if-true (ltb 64 (4 + 4 * words)) (err value_error) rest long)
        | inr short ↦
            let done : rest ≡ ok frame =
              sym (if-false (ltb 64 (4 + 4 * words)) (err value_error) rest short) ∙ sent in
            let (header, packed, same) = >>=-eq-ok (pack_header id (4 + 4 * words)) _ done in
            (ground (arith, short), header, packed, cc same)
      ]

  can_receive-frame :
      (id words : ℕ) (msg frame : List ℕ) (frames : List (List ℕ))
      → length (words ∷ msg) ≡ 4 + 4 * words
      → can_send pack_header unpack_header id (words ∷ msg) ≡ ok frame
      → can_receive pack_header unpack_header id (frame ∷ frames) ≡ some (ok (words ∷ msg), frames)
  unfolding can_receive can_send
  can_receive-frame id words msg frame frames size sent =
      let (short, header, packed, same) = can_send-parts id words msg frame sent in
      let eight : length header ≡ 8 = laws.size id (4 + 4 * words) header packed in
      let n : ℕ = canfd_mtu - length (header ++ (words ∷ msg)) in
      let zeros : List ℕ = replicate n 0 in
      let sum : length (header ++ (words ∷ msg)) ≡ 8 + length (words ∷ msg) =
        omega (arith, length-append header (words ∷ msg), eight) in
      let parts : frame ≡ header ++ ((words ∷ msg) ++ zeros) =
        sym same
        ∙ fill_lem canfd_mtu (header ++ (words ∷ msg))
        ∙ append_assoc header (words ∷ msg) zeros in
      let mtu : length frame ≡ canfd_mtu = omega (
        arith,
        ap length (sym same ∙ fill_lem canfd_mtu (header ++ (words ∷ msg))),
        length-append (header ++ (words ∷ msg)) zeros,
        length-replicate {A = ℕ} n 0,
        sum,
        size,
      ) in
      let read : unpack_header (take 8 frame) ≡ (id, 4 + 4 * words) =
        ap unpack_header
          (ap (take 8) parts ∙ take-append_at 8 header ((words ∷ msg) ++ zeros) eight)
        ∙ laws.back id (4 + 4 * words) header packed in
      let id_read : (unpack_header (take 8 frame)).0 ≡ id = ap (λ (r : ℕ × ℕ). r.0) read in
      let n_read : (unpack_header (take 8 frame)).1 ≡ 4 + 4 * words =
        ap (λ (r : ℕ × ℕ). r.1) read in
      let message : take (unpack_header (take 8 frame)).1 (drop 8 frame) ≡ words ∷ msg =
        ap₂ take n_read (ap (drop 8) parts ∙ drop-append_at 8 header ((words ∷ msg) ++ zeros) eight)
        ∙ take-append_at (4 + 4 * words) (words ∷ msg) zeros size in
      if-false (not (length frame == canfd_mtu)) _ _
        (ap not ((==_iff (length frame) canfd_mtu).1 mtu))
      ∙ if-false (not ((unpack_header (take 8 frame)).0 == id)) _ _
          (ap not ((==_iff (unpack_header (take 8 frame)).0 id).1 id_read))
      ∙ if-true (leb (unpack_header (take 8 frame)).1 64) _ _
          (le→leb (unpack_header (take 8 frame)).1 64 (omega (arith, n_read)))
      ∙ ap (λ (b : List ℕ). some (ok b, frames)) message

  -- The receiver waits through any frames that are not for it, and takes the first one that is: the
  -- message that was sent under its id. The format of the frame header reads what it packs, and the
  -- message is as long as its first byte says.
  pub can_receive-can_send :
      (id words : ℕ) (msg frame : List ℕ) (others more : List (List ℕ))
      → length (words ∷ msg) ≡ 4 + 4 * words
      → can_send pack_header unpack_header id (words ∷ msg) ≡ ok frame
      → All (IsOther id) others
      → can_receive pack_header unpack_header id (others ++ (frame ∷ more))
        ≡ some (ok (words ∷ msg), more)
  can_receive-can_send id words msg frame [] more size sent skip =
      can_receive-frame id words msg frame more size sent
  can_receive-can_send id words msg frame (other ∷ others) more size sent skip =
      can_receive-other id other (others ++ (frame ∷ more)) skip.0
      ∙ can_receive-can_send id words msg frame others more size sent skip.1
