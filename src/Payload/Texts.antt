-- ===== src/Payload/Texts.antt =====
-- Strings, byte strings and lists at any bit offset: packed and read back.
use compost_rpc.Common.{
  ℕ, ◌+◌, ◌*◌, ◌≡◌, refl, sym, subst, List, [], some, inl, inr, arith, length, replicate, ltb,
  ltb→lt, ◌∷◌, All, All-replicate, Bool-cases, if-true, if-false,
}
use compost_rpc.Common.BigEndian.{IsByte}
use compost_rpc.Common.Int.{pos, negsuc}
use compost_rpc.Common.Result.{Result, ok, err, value_error, >>=-eq-ok, ◌>>=◌}
use compost_rpc.MemUnit.{MemUnit}
use compost_rpc.Payload.Types.{
  NumType, str, byte_string, Value, int, float, items, text, raw, instance_of, tuple, Values,
  no_values, value, Library, LibraryLaws,
}
use compost_rpc.Payload.Pack.{
  Writer, align, put_string, pack_list, bytes_of, bytes_of_items, encode_text, pack_value,
}
use compost_rpc.Payload.Unpack.{get_string, unpack_list, unpack_value}
use compost_rpc.Payload.Received.{
  received, received_bytes, received_bytes-ok, received_list, Fits, Phase, exact, phase_after, IsAt,
}
use compost_rpc.Payload.Strings.{at_byte, put_string-get, pack_list-get}
use compost_rpc.Payload.Steps.{
  IsValid, next_byte, align-bits, Wrote-Moved, Follows-Agrees, IsAt-bytes,
}
use compost_rpc.Payload.Values.{Delivers}

module _ {F S : Type 0} (lib : Library F S) (laws : LibraryLaws lib) where
  at_byte-IsAt :
      (w : Writer) (j : ℕ) (ph : Phase)
      → some (exact 0) ≡ some ph
      → w.1.bits ≡ 8 * j
      → IsAt ph w.1.bits (at_byte j).bits
  unfolding IsAt
  at_byte-IsAt w j ph next e =
      let start : IsAt (exact 0) w.1.bits (at_byte j).bits = (omega (arith, e), omega (arith, e)) in
      subst (λ ph. IsAt ph w.1.bits (at_byte j).bits) {x = exact 0} (cc next) start

  -- Bytes with their length in front, which are then made into a value.
  string-Delivers :
      (w w' : Writer) (b : List ℕ) (v : Value F S)
      (made : List ℕ × MemUnit → Result (Value F S × MemUnit))
      → IsValid w
      → All IsByte b
      → put_string (align w) b ≡ ok w'
      → ((u : MemUnit) → made (b, u) ≡ ok (v, u))
      → Delivers lib laws (λ later u. get_string later u >>= made) (λ ph. some (exact 0)) w w' v
  unfolding align
  string-Delivers w w' b v made valid bytes e makes =
      let i : ℕ = next_byte w in
      let (wrote, reads) =
        put_string-get (align w) w' b i valid.bytes bytes (omega (arith, valid.inside))
          (align-bits w) e in
      let n : ℕ = 2 + length b in
      record {
        moved = Wrote-Moved n valid wrote;
        delivers = λ ph ph' later u next follows at. (
          at_byte (i + 2 + length b),
          rw (reads later u (Follows-Agrees i n wrote follows) (IsAt-bytes ph w u at)) (makes _),
          at_byte-IsAt w' (i + 2 + length b) ph' next (omega (arith, wrote.ends)),
        );
      }

  pub list-Delivers :
      (t : NumType) (w w' : Writer) (v : Value F S)
      → IsValid w
      → pack_list lib t (align w) v ≡ ok w'
      → Delivers lib laws
          (unpack_list lib t)
          (λ ph. some (exact 0))
          w
          w'
          (received_list lib laws t v)
  unfolding align
  list-Delivers t w w' v valid e =
      let i : ℕ = next_byte w in
      let (n, wrote, reads) =
        pack_list-get lib laws t (align w) w' v i valid.bytes (omega (arith, valid.inside))
          (align-bits w) e in
      record {
        moved = Wrote-Moved n valid wrote;
        delivers = λ ph ph' later u next follows at. (
          at_byte (i + n),
          reads later u (Follows-Agrees i n wrote follows) (IsAt-bytes ph w u at),
          at_byte-IsAt w' (i + n) ph' next (omega (arith, wrote.ends)),
        );
      }

  pub text-Delivers :
      (w w' : Writer) (v : Value F S)
      → IsValid w
      → pack_value lib str w v ≡ ok w'
      → Delivers lib laws (unpack_value lib str) (phase_after str) w w' (received lib laws str v)
  unfolding pack_value unpack_value received phase_after encode_text
  text-Delivers w w' (text s) valid e =
      let (b, encoded, put) = >>=-eq-ok (lib.encode s) _ e in
      string-Delivers w w' b (text s) _ valid (laws.encode-IsByte s b encoded) put
        (λ u. rw (laws.decode-encode s b encoded) refl)
  text-Delivers w w' (int x) valid e = cc
  text-Delivers w w' (float x) valid e = cc
  text-Delivers w w' (raw x) valid e = cc
  text-Delivers w w' (items x) valid e = cc
  text-Delivers w w' (instance_of x) valid e = cc
  text-Delivers w w' (tuple x) valid e = cc

  -- `bytes(v)` gives bytes.
  bytes_of_items-IsByte : (vs : Values F S) (b : List ℕ) → bytes_of_items vs ≡ ok b → All IsByte b
  unfolding bytes_of_items
  bytes_of_items-IsByte no_values b e = let same : [] ≡ b = cc e in subst (All IsByte) same tt
  bytes_of_items-IsByte (value (int (pos x)) vs) b e = elim (Bool-cases (ltb x 256)) [
    | inl small ↦
        let rest : Result (List ℕ) = (do more ← bytes_of_items vs; ok (x ∷ more)) in
        let done : rest ≡ ok b = cc (e, if-true (ltb x 256) rest (err value_error) small) in
        let (more, e', same) = >>=-eq-ok (bytes_of_items vs) (λ more. ok (x ∷ more)) done in
        let whole : x ∷ more ≡ b = cc same in
        subst (All IsByte) whole (ltb→lt x 256 small, bytes_of_items-IsByte vs more e')
    | inr large ↦
        let rest : Result (List ℕ) = (do more ← bytes_of_items vs; ok (x ∷ more)) in
        cc (e, if-false (ltb x 256) rest (err value_error) large)
  ]
  bytes_of_items-IsByte (value (int (negsuc x)) vs) b e = cc
  bytes_of_items-IsByte (value (float x) vs) b e = cc
  bytes_of_items-IsByte (value (text x) vs) b e = cc
  bytes_of_items-IsByte (value (raw x) vs) b e = cc
  bytes_of_items-IsByte (value (items x) vs) b e = cc
  bytes_of_items-IsByte (value (instance_of x) vs) b e = cc
  bytes_of_items-IsByte (value (tuple x) vs) b e = cc

  bytes_of-IsByte :
      (v : Value F S) (b : List ℕ) → Fits lib laws byte_string v → bytes_of v ≡ ok b → All IsByte b
  unfolding bytes_of Fits
  bytes_of-IsByte (raw x) b fits e = let same : x ≡ b = cc e in subst (All IsByte) same fits
  bytes_of-IsByte (int (pos n)) b fits e =
      let same : replicate n 0 ≡ b = cc e in
      subst (All IsByte) same (All-replicate IsByte n 0 (omega arith))
  bytes_of-IsByte (int (negsuc n)) b fits e = cc
  bytes_of-IsByte (items vs) b fits e = bytes_of_items-IsByte vs b e
  bytes_of-IsByte (tuple vs) b fits e = bytes_of_items-IsByte vs b e
  bytes_of-IsByte (float x) b fits e = cc
  bytes_of-IsByte (text x) b fits e = cc
  bytes_of-IsByte (instance_of x) b fits e = cc

  pub bytes-Delivers :
      (w w' : Writer) (v : Value F S)
      → IsValid w
      → Fits lib laws byte_string v
      → pack_value lib byte_string w v ≡ ok w'
      → Delivers lib laws
          (unpack_value lib byte_string)
          (phase_after byte_string)
          w
          w'
          (received lib laws byte_string v)
  unfolding pack_value unpack_value received phase_after received_bytes
  bytes-Delivers w w' v valid fits e =
      let (b, made, put) = >>=-eq-ok (bytes_of v) _ e in
      subst
        (λ v'. Delivers lib laws (unpack_value lib byte_string) (phase_after byte_string) w w' v')
        (sym (received_bytes-ok lib laws v made))
        (string-Delivers w w' b (raw b) _ valid (bytes_of-IsByte v b fits made) put (λ u. refl))
