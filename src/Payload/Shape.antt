-- ===== src/Payload/Shape.antt =====
-- Values of a type, and what is unpacked of numbers, bit fields and strings.
use compost_rpc.Common.{
  ℕ, zero, suc, ◌+◌, ◌-◌, ◌*◌, ◌^◌, ◌≤◌, ◌<◌, ◌≡◌, subst, List, Bool, true, false, inl, inr,
  Bool-cases, if-true, if-false, lt→ltb, le→leb, ltb, arith, length, take, drop, All, length-take,
  length-drop,
}
use compost_rpc.Common.BigEndian.{IsByte, be_value, be_value-lt}
use compost_rpc.Common.Int.{ℤ, pos, negsuc}
use compost_rpc.Common.Result.{>>=-eq-ok, ok, err, struct_error}
use compost_rpc.Common.Words.{in_range, value_of, signed_value}
use compost_rpc.MemUnit
use compost_rpc.MemUnit.{MemUnit}
use compost_rpc.BitU
use compost_rpc.BitU.RoundTrip.{unpack_reads, unpack_short}
use compost_rpc.Numbers.{IntType, byte_size, signed, unpack_number}
use compost_rpc.Payload.Types.{
  NumType, integer, f32, f64, Ty, num, bit_u, str, byte_string, list_of, enum, struct, Types,
  no_types, type_of, Value, int, float, text, raw, items, instance_of, Values, no_values, value,
  is_member,
}
use compost_rpc.Payload.Unpack.{get_length, get_string}
use compost_rpc.Payload.Slices.{All-take, All-drop}
use native.Mathlib.Decide.{dec_lt}

module _ {F S : Type 0} where
  unfoldable pub IsNumber : NumType → Value F S → Type 0
  unfolding in_range signed byte_size
  IsNumber (integer t) (int z) = in_range (signed t) (byte_size t) z ≡ true
  IsNumber (integer t) v = ⊥
  IsNumber f32 (float x) = Unit {0}
  IsNumber f64 (float x) = Unit {0}
  IsNumber t v = ⊥

  unfoldable pub AreNumbers : NumType → Values F S → Type 0
  unfolding IsNumber
  AreNumbers t no_values = Unit {0}
  AreNumbers t (value v vs) = IsNumber t v × AreNumbers t vs

  unfoldable pub IsField : ℕ → Value F S → Type 0
  IsField n (int (pos x)) = x < 2 ^ n
  IsField n v = ⊥

  -- An integer in the range of its type, a member of an enum, an instance with a value of its type for
  -- each member, and so on.
  unfoldable mutual
    unfolding IsNumber AreNumbers IsField is_member

    pub HasType : Ty → Value F S → Type 0
    HasType (num t) v = IsNumber t v
    HasType (bit_u n) v = IsField n v
    HasType str (text s) = Unit {0}
    HasType byte_string (raw b) = All IsByte b
    HasType (list_of t) (items vs) = AreNumbers t vs
    HasType (enum base members) (int z) = is_member z members ≡ true
    HasType (struct ts) (instance_of vs) = HaveTypes ts vs
    HasType t v = ⊥

    pub HaveTypes : Types → Values F S → Type 0
    HaveTypes no_types no_values = Unit {0}
    HaveTypes (type_of t ts) (value v vs) = HasType t v × HaveTypes ts vs
    HaveTypes ts vs = ⊥

-- What a word stands for is in the range of the type.
value_of-in_range : (s : Bool) (n x : ℕ) → x < 256 ^ n → in_range s n (value_of s n x) ≡ true
unfolding in_range value_of signed_value
value_of-in_range false n x h = lt→ltb x (256 ^ n) h
value_of-in_range true n x h = elim (Bool-cases (ltb (2 * x) (256 ^ n))) [
  | inl low ↦ rw (if-true (ltb (2 * x) (256 ^ n)) (pos x) (negsuc (256 ^ n - 1 - x)) low) low
  | inr high ↦
      let upper : 256 ^ n ≤ 2 * x = ground (arith, high) in
      rw (if-false (ltb (2 * x) (256 ^ n)) (pos x) (negsuc (256 ^ n - 1 - x)) high)
        (le→leb (2 * (256 ^ n - 1 - x + 1)) (256 ^ n) (omega arith))
]

pub unpack_number-in_range :
    (t : IntType) (payload : List ℕ) (i : ℕ) (z : ℤ)
    → All IsByte payload
    → unpack_number t payload i ≡ ok z
    → in_range (signed t) (byte_size t) z ≡ true
unfolding unpack_number
unpack_number-in_range t payload i z bytes e =
    let n : ℕ = byte_size t in
    let part : List ℕ = take n (drop i payload) in
    let v : ℤ = value_of (signed t) n (be_value part) in
    elim (Bool-cases (ltb (length payload) (i + n))) [
      | inl short ↦ cc (e, if-true (ltb (length payload) (i + n)) (err struct_error) (ok v) short)
      | inr room ↦
          let same : v ≡ z =
            cc (e, if-false (ltb (length payload) (i + n)) (err struct_error) (ok v) room) in
          let inside : i + n ≤ length payload = ground (arith, room) in
          let size : length part ≡ n =
            length-take n (drop i payload) (omega (arith, length-drop i payload, inside)) in
          let fits : be_value part < 256 ^ length part =
            be_value-lt part
              (All-take IsByte n (drop i payload) (All-drop IsByte i payload bytes)) in
          subst (λ z. in_range (signed t) n z ≡ true) same
            (value_of-in_range (signed t) n (be_value part)
              (subst (λ k. be_value part < 256 ^ k) size fits))
    ]

-- No bit is read as 0.
no_field :
    (n : ℕ) (payload : List ℕ) (u : MemUnit) (x : ℕ) (u' : MemUnit)
    → n ≡ 0
    → BitU.unpack (record { bits = n }) payload u ≡ ok (x, u')
    → x < 2 ^ n
unfolding BitU.unpack BitU.unpack_loop
no_field zero payload u x u' z e = let same : 0 ≡ x = cc e in subst (λ x. x < 1) same (omega arith)
no_field (suc n) payload u x u' z e = omega (arith, z)

-- A field that was read fits its width.
pub unpack-fits :
    (n : ℕ) (payload : List ℕ) (u : MemUnit) (x : ℕ) (u' : MemUnit)
    → All IsByte payload
    → BitU.unpack (record { bits = n }) payload u ≡ ok (x, u')
    → x < 2 ^ n
unpack-fits n payload u x u' bytes e = elim (dec_lt (8 * length payload) (u.bits + n)) [
  | no inside ↦
      let (y, reads, holds) = unpack_reads (record { bits = n }) payload u (omega arith) bytes in
      let same : y ≡ x = cc (reads, e) in subst (λ x. x < 2 ^ n) same holds.fits
  | yes outside ↦ elim (dec_lt 0 n) [
    | yes some_bits ↦ cc (e, unpack_short (record { bits = n }) payload u some_bits outside)
    | no none_left ↦ let zero_bits : n ≡ 0 = omega arith in no_field n payload u x u' zero_bits e
  ]
]

-- The bytes of a string are bytes of the payload.
pub get_string-IsByte :
    (payload : List ℕ) (u : MemUnit) (b : List ℕ) (u' : MemUnit)
    → All IsByte payload
    → get_string payload u ≡ ok (b, u')
    → All IsByte b
unfolding get_string
get_string-IsByte payload u b u' bytes e =
    let (n, reads, r) = >>=-eq-ok (get_length payload (MemUnit.bytes u)) _ e in
    let i : ℕ = MemUnit.bytes (MemUnit.set_bytes u (MemUnit.bytes u + 2)) in
    let same : take n (drop i payload) ≡ b = cc r in
    subst (All IsByte) same (All-take IsByte n (drop i payload) (All-drop IsByte i payload bytes))
