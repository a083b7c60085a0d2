-- ===== src/Payload/Delivers.antt =====
-- Structs, and all the values of a payload: packed and read back.
use compost_rpc.Common.{ℕ, ◌*◌, ◌≡◌, refl, sym, ap, subst, ◌∙◌, List, some, arith}
use compost_rpc.Common.Result.{ok, >>=-eq-ok}
use compost_rpc.MemUnit
use compost_rpc.MemUnit.{MemUnit, bits-byte_align, bytes_ceiling}
use compost_rpc.Payload.Types.{
  Ty, num, bit_u, str, byte_string, list_of, enum, struct, Types, no_types, type_of, Value, int,
  float, items, text, raw, instance_of, tuple, Values, no_values, value, Library, LibraryLaws,
}
use compost_rpc.Payload.Pack.{Writer, align, astuple, deep_all, pack_value, pack_all}
use compost_rpc.Payload.Unpack.{unpack_value, unpack_all}
use compost_rpc.Payload.Received.{
  received, received_all, Fits, FitsAll, Phase, exact, phase_after, phase_after_all,
  and_then-eq_some, IsAt,
}
use compost_rpc.Payload.Steps.{
  IsValid, Moved, Moved-IsValid, Moved-refl, Moved-trans, Follows, Follows-before, align-bits,
  align-Moved, IsAt-bytes,
}
use compost_rpc.Payload.Values.{Delivers, number-Delivers, bits-Delivers, member-Delivers}
use compost_rpc.Payload.Texts.{text-Delivers, bytes-Delivers, list-Delivers}

module _ {F S : Type 0} (lib : Library F S) (laws : LibraryLaws lib) where
  -- Reading all of `vs` where they were written.
  pub record DeliversAll (ts : Types) (w w' : Writer) (vs : Values F S) : Type 0 where
    pub moved : Moved w w'
    pub delivers :
        (ph ph' : Phase) (later : List ℕ) (u : MemUnit)
        → phase_after_all ts ph ≡ some ph'
        → Follows w' later
        → IsAt ph w.1.bits u.bits
        → (u' : MemUnit) × (unpack_all lib ts later u ≡ ok (vs, u')) × IsAt ph' w'.1.bits u'.bits

  no_types-DeliversAll : (w : Writer) → IsValid w → DeliversAll no_types w w no_values
  unfolding phase_after_all unpack_all
  no_types-DeliversAll w valid = record {
    moved = Moved-refl valid;
    delivers = λ ph ph' later u next follows at.
        (u, refl, subst (λ ph. IsAt ph w.1.bits u.bits) (cc next) at);
  }

  type_of-DeliversAll :
      (t : Ty) (ts : Types) (w mid w' : Writer) (v : Value F S) (vs : Values F S)
      → Delivers lib laws (unpack_value lib t) (phase_after t) w mid v
      → DeliversAll ts mid w' vs
      → DeliversAll (type_of t ts) w w' (value v vs)
  unfolding phase_after_all unpack_all
  type_of-DeliversAll t ts w mid w' v vs first rest = record {
    moved = Moved-trans first.moved rest.moved;
    delivers = λ ph ph' later u next follows at.
        let (ph'', after, next') = and_then-eq_some (phase_after t ph) (phase_after_all ts) next in
        let (u', reads, at') =
          first.delivers ph ph'' later u after (Follows-before rest.moved follows) at in
        let (u'', reads_rest, at'') = rest.delivers ph'' ph' later u' next' follows at' in
        (u'', rw (reads, reads_rest) refl, at'');
  }

  struct-Delivers :
      (ts : Types) (w w' : Writer) (vs : Values F S)
      → IsValid w
      → DeliversAll ts (align w) w' vs
      → Delivers lib laws
          (unpack_value lib (struct ts))
          (phase_after (struct ts))
          w
          w'
          (instance_of vs)
  unfolding unpack_value phase_after IsAt align
  struct-Delivers ts w w' vs valid all = record {
    moved = Moved-trans (align-Moved valid) all.moved;
    delivers = λ ph ph' later u next follows at.
        let here : (MemUnit.byte_align u).bits ≡ (align w).1.bits =
          bits-byte_align u
          ∙ ap (λ (i : ℕ). 8 * i) (sym (bytes_ceiling u) ∙ IsAt-bytes ph w u at)
          ∙ sym (align-bits w) in
        let (u', reads, at') =
          all.delivers (exact 0) ph' later (MemUnit.byte_align u) next follows
            (here, omega (arith, align-bits w)) in
        (u', rw reads refl, at');
  }

  -- A value that was packed is delivered; what it holds is what `received` says.
  mutual
    unfolding pack_value unpack_value received phase_after Fits astuple

    value-Delivers :
        (t : Ty) (w w' : Writer) (v : Value F S)
        → IsValid w
        → Fits lib laws t v
        → pack_value lib t w v ≡ ok w'
        → Delivers lib laws (unpack_value lib t) (phase_after t) w w' (received lib laws t v)
    value-Delivers (num t) w w' v valid fits e = number-Delivers lib laws t w w' v valid e
    value-Delivers (bit_u n) w w' v valid fits e = bits-Delivers lib laws n w w' v valid e
    value-Delivers str w w' v valid fits e = text-Delivers lib laws w w' v valid e
    value-Delivers byte_string w w' v valid fits e = bytes-Delivers lib laws w w' v valid fits e
    value-Delivers (list_of t) w w' v valid fits e = list-Delivers lib laws t w w' v valid e
    value-Delivers (enum base members) w w' v valid fits e =
        member-Delivers lib laws base members w w' v valid fits e
    value-Delivers (struct ts) w w' (instance_of vs) valid fits e =
        struct-Delivers ts w w' _ valid (
          values-DeliversAll ts (align w) w' (deep_all vs) (Moved-IsValid (align-Moved valid)) fits
            e)
    value-Delivers (struct ts) w w' (int x) valid fits e = cc
    value-Delivers (struct ts) w w' (float x) valid fits e = cc
    value-Delivers (struct ts) w w' (text x) valid fits e = cc
    value-Delivers (struct ts) w w' (raw x) valid fits e = cc
    value-Delivers (struct ts) w w' (items x) valid fits e = cc
    value-Delivers (struct ts) w w' (tuple x) valid fits e = cc

    pub values-DeliversAll :
        (ts : Types) (w w' : Writer) (vs : Values F S)
        → IsValid w
        → FitsAll lib laws ts vs
        → pack_all lib ts w vs ≡ ok w'
        → DeliversAll ts w w' (received_all lib laws ts vs)
    values-DeliversAll no_types w w' no_values valid fits e =
        let same : w ≡ w' = cc e in
        subst (λ w'. DeliversAll no_types w w' no_values) same (no_types-DeliversAll w valid)
    values-DeliversAll no_types w w' (value v vs) valid fits e = elim fits [ ]
    values-DeliversAll (type_of t ts) w w' no_values valid fits e = elim fits [ ]
    values-DeliversAll (type_of t ts) w w' (value v vs) valid fits e =
        let (mid, first, rest) =
          >>=-eq-ok (pack_value lib t w v) (λ mid. pack_all lib ts mid vs) e in
        let d = value-Delivers t w mid v valid fits.0 first in
        type_of-DeliversAll t ts w mid w' _ _ d
          (values-DeliversAll ts mid w' vs (Moved-IsValid d.moved) fits.1 rest)
