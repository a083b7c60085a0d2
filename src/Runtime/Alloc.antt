-- ===== src/Runtime/Alloc.antt =====
-- The allocator of the C runtime. A pointer into the buffer is the distance from its start, and
-- `none` for NULL.
use compost_rpc.Common.{
  ℕ, ◌+◌, ◌%◌, ◌≤◌, ◌^◌, ◌≡◌, arith, Bool, false, ◌||◌, Option, none, some, List, [], ◌∷◌, ltb, leb,
  if◌then◌else◌, get_or, sym, subst, if-true, if-false, Bool-cases, ◌⊎◌, inl, inr,
}

pub record CompostAlloc : Type 0 where
  pub suffixes : Option (List ℕ)
  pub suffixes_len : ℕ
  pub alloc_ctr : ℕ
  pub ptr : ℕ
  pub buffer_len : ℕ

unfoldable pub compost_alloc_init : ℕ → CompostAlloc
compost_alloc_init len = record {
  suffixes = none;
  suffixes_len = 0;
  alloc_ctr = 0;
  ptr = 0;
  buffer_len = len;
}

unfoldable pub compost_alloc_set_suffixes : CompostAlloc → List ℕ → ℕ → CompostAlloc
compost_alloc_set_suffixes alloc suffixes len = record alloc {
  suffixes = some suffixes;
  suffixes_len = len;
}

unfoldable pub compost_alloc_reset : CompostAlloc → CompostAlloc
compost_alloc_reset alloc = record alloc {
  suffixes = none;
  suffixes_len = 0;
  alloc_ctr = 0;
  ptr = 0;
}

-- `alloc->suffixes != NULL && alloc->alloc_ctr >= alloc->suffixes_len`
unfoldable pub used_up : CompostAlloc → Option (List ℕ) → Bool
used_up alloc none = false
used_up alloc (some suffixes) = leb alloc.suffixes_len alloc.alloc_ctr

unfoldable pub suffix : CompostAlloc → Option (List ℕ) → ℕ
suffix alloc none = 0
suffix alloc (some suffixes) =
    if ltb 0 alloc.suffixes_len then get_or suffixes alloc.alloc_ctr 0 else 0

-- `capacity` may be negative: the test `len > capacity` is written with `ptr` on the other side.
unfoldable pub compost_alloc_next : CompostAlloc → ℕ → Option ℕ × CompostAlloc
unfolding used_up suffix
compost_alloc_next alloc len =
    if ltb alloc.buffer_len (alloc.ptr + len) || used_up alloc alloc.suffixes
    then (none, alloc)
    else (
      some alloc.ptr,
      record alloc {
        ptr = alloc.ptr + len + suffix alloc alloc.suffixes;
        alloc_ctr = (alloc.alloc_ctr + 1) % 2 ^ 16;
      },
    )

-- The region of one request, if it was given one.
unfoldable pub region : ℕ → Option ℕ → List (ℕ × ℕ) → List (ℕ × ℕ)
region len none rest = rest
region len (some start) rest = (start, len) ∷ rest

-- The regions that a succession of requests is given, as their starts and lengths.
unfoldable pub regions : CompostAlloc → List ℕ → List (ℕ × ℕ)
unfolding compost_alloc_next region
regions alloc [] = []
regions alloc (len ∷ lens) =
    let (ret, alloc') = compost_alloc_next alloc len in region len ret (regions alloc' lens)

-- Regions that lie one behind the other between two bounds.
abbrev pub IsApart : ℕ → ℕ → List (ℕ × ℕ) → Type 0
IsApart lo hi [] = Unit {0}
IsApart lo hi ((start, len) ∷ rest) =
    (lo ≤ start) × (start + len ≤ hi) × IsApart (start + len) hi rest

IsApart-lower :
    (lo lo' hi : ℕ) (rs : List (ℕ × ℕ)) → lo' ≤ lo → IsApart lo hi rs → IsApart lo' hi rs
IsApart-lower lo lo' hi [] h rs = tt
IsApart-lower lo lo' hi ((start, len) ∷ rest) h (a, b, c) = (omega arith, b, c)

next-cases :
    (alloc : CompostAlloc) (len : ℕ)
    → (compost_alloc_next alloc len ≡ (none, alloc))
      ⊎ ((alloc.ptr + len ≤ alloc.buffer_len)
          × (compost_alloc_next alloc len ≡ (
            some alloc.ptr,
            record alloc {
              ptr = alloc.ptr + len + suffix alloc alloc.suffixes;
              alloc_ctr = (alloc.alloc_ctr + 1) % 2 ^ 16;
            },
          )))
unfolding compost_alloc_next
next-cases alloc len =
    elim (Bool-cases (ltb alloc.buffer_len (alloc.ptr + len) || used_up alloc alloc.suffixes)) [
      | inl refused ↦ inl (if-true _ _ _ refused)
      | inr fits ↦ inr (room fits, if-false _ _ _ fits)
    ]
  where
    room :
        (ltb alloc.buffer_len (alloc.ptr + len) || used_up alloc alloc.suffixes) ≡ false
        → alloc.ptr + len ≤ alloc.buffer_len
    room fits = ground arith

-- Whatever is requested and whatever the suffixes are, the regions that the allocator gives out lie
-- inside the buffer, and each lies behind all those given out before it.
pub regions-IsApart :
    (lens : List ℕ) (alloc : CompostAlloc) → IsApart alloc.ptr alloc.buffer_len (regions alloc lens)
unfolding regions region
regions-IsApart [] alloc = tt
regions-IsApart (len ∷ lens) alloc = elim (next-cases alloc len) [
  | inl refused ↦ subst after (sym refused) (regions-IsApart lens alloc)
  | inr (room, given) ↦ subst after (sym given) (
    omega arith,
    room,
    IsApart-lower (alloc.ptr + len + suffix alloc alloc.suffixes) (alloc.ptr + len) alloc.buffer_len
        _ (omega arith) (regions-IsApart lens _),
  )
]
  where
    after : Option ℕ × CompostAlloc → Type 0
    after (ret, alloc') = IsApart alloc.ptr alloc.buffer_len (region len ret (regions alloc' lens))
