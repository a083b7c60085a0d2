-- ===== src/Generator/Paths.antt =====
-- Lists of paths, and the paths that are written.
use compost_rpc.Common.{
  ℕ, ◌≡◌, refl, sym, ap, subst, ◌∙◌, Bool, true, false, not, ◌&&◌, ◌||◌, List, [], ◌∷◌, ◌++◌, inl,
  inr, Bool-cases, if-true, if-false, ==_iff, ◌==◌,
}
use compost_rpc.Generator.{OutputKey, Tag, has_tag, any_exists, tag_of, written}

unfoldable pub has : ℕ → List ℕ → Bool
has p [] = false
has p (q ∷ ps) = p == q || has p ps

-- No path stands twice.
unfoldable pub IsDistinct : List ℕ → Type 0
unfolding has
IsDistinct [] = Unit {0}
IsDistinct (p ∷ ps) = (has p ps ≡ false) × IsDistinct ps

unfoldable pub paths : {S : Type 0} → List (ℕ × S) → List ℕ
paths [] = []
paths ((p, c) ∷ files) = p ∷ paths files

unfoldable pub all_paths : {S : Type 0} → List (OutputKey × List (ℕ × S)) → List ℕ
unfolding paths
all_paths [] = []
all_paths ((k, files) ∷ rest) = paths files ++ all_paths rest

pub has-append : (p : ℕ) (xs ys : List ℕ) → has p (xs ++ ys) ≡ (has p xs || has p ys)
unfolding has
has-append p [] ys = refl
has-append p (x ∷ xs) ys = elim (Bool-cases (p == x)) [
  | inl same ↦ rw same refl
  | inr differ ↦ rw (differ, has-append p xs ys) refl
]

pub or-false_left : (a b : Bool) → (a || b) ≡ false → a ≡ false
or-false_left true b e = cc
or-false_left false b e = refl

pub or-false_right : (a b : Bool) → (a || b) ≡ false → b ≡ false
or-false_right true b e = cc
or-false_right false b e = e

pub or-false : (a b : Bool) → a ≡ false → b ≡ false → (a || b) ≡ false
or-false true b e f = cc
or-false false b e f = f

pub or_right : (a b : Bool) → a ≡ false → (a || b) ≡ b
or_right true b e = cc
or_right false b e = refl

-- Lists without a path in common.
unfoldable pub AreApart : List ℕ → List ℕ → Type 0
AreApart xs ys = (p : ℕ) → has p xs ≡ true → has p ys ≡ false

pub IsDistinct-append :
    (xs ys : List ℕ) → IsDistinct xs → IsDistinct ys → AreApart xs ys → IsDistinct (xs ++ ys)
unfolding IsDistinct AreApart has
IsDistinct-append [] ys hx hy apart = hy
IsDistinct-append (x ∷ xs) ys hx hy apart = (
  has-append x xs ys ∙ or-false (has x xs) (has x ys) hx.0 (apart x (here x xs)),
  IsDistinct-append xs ys hx.1 hy (λ p h. apart p (later p x xs h)),
)
  where
    here : (x : ℕ) (xs : List ℕ) → (x == x || has x xs) ≡ true
    here x xs = let same : (x == x) ≡ true = (==_iff x x).1 refl in rw same refl

    later : (p x : ℕ) (xs : List ℕ) → has p xs ≡ true → (p == x || has p xs) ≡ true
    later p x xs h = elim (Bool-cases (p == x)) [
      | inl same ↦ rw same refl
      | inr differ ↦ rw (differ, h) refl
    ]

pub IsDistinct-parts :
    (xs ys : List ℕ) → IsDistinct (xs ++ ys) → IsDistinct xs × IsDistinct ys × AreApart xs ys
unfolding IsDistinct AreApart has
IsDistinct-parts [] ys h = (tt, h, λ p e. cc e)
IsDistinct-parts (x ∷ xs) ys h =
    let (dx, dy, apart) = IsDistinct-parts xs ys h.1 in
    let none_left : (has x xs || has x ys) ≡ false = sym (has-append x xs ys) ∙ h.0 in
    (
      (or-false_left (has x xs) (has x ys) none_left, dx),
      dy,
      λ p e. elim (Bool-cases (p == x)) [
        | inl same ↦
            let equal : x ≡ p = sym ((==_iff p x).0 same) in
            subst (λ p. has p ys ≡ false) equal (or-false_right (has x xs) (has x ys) none_left)
        | inr differ ↦ apart p (sym (or_right (p == x) (has p xs) differ) ∙ e)
      ],
    )

module _ {S : Type 0} where
  pub paths-append : (a b : List (ℕ × S)) → paths (a ++ b) ≡ paths a ++ paths b
  unfolding paths
  paths-append [] b = refl
  paths-append ((p, c) ∷ a) b = ap (λ l. p ∷ l) (paths-append a b)

  module _ (exists : ℕ → Bool) (tags : List Tag) (cache : List (OutputKey × List (ℕ × S))) where
    pub written-has :
        (outputs : List (OutputKey × List (ℕ × S))) (p : ℕ)
        → has p (all_paths outputs) ≡ false
        → has p (paths (written exists tags cache outputs)) ≡ false
    unfolding all_paths written has paths
    written-has [] p h = refl
    written-has ((k, files) ∷ rest) p h =
        let both : (has p (paths files) || has p (all_paths rest)) ≡ false =
          sym (has-append p (paths files) (all_paths rest)) ∙ h in
        let later : List (ℕ × S) = written exists tags cache rest in
        let left : has p (paths later) ≡ false =
          written-has rest p (or-false_right (has p (paths files)) (has p (all_paths rest)) both) in
        elim (Bool-cases (any_exists exists files && not (has_tag (tag_of cache k) tags))) [
          | inl skipped ↦ rw (if-true _ later (files ++ later) skipped) left
          | inr taken ↦ rw (if-false _ later (files ++ later) taken) (
              ap (has p) (paths-append files later)
              ∙ has-append p (paths files) (paths later)
              ∙ or-false (has p (paths files)) (has p (paths later))
                  (or-false_left (has p (paths files)) (has p (all_paths rest)) both) left)
        ]

    pub written-IsDistinct :
        (outputs : List (OutputKey × List (ℕ × S)))
        → IsDistinct (all_paths outputs)
        → IsDistinct (paths (written exists tags cache outputs))
    unfolding all_paths written paths IsDistinct AreApart
    written-IsDistinct [] h = tt
    written-IsDistinct ((k, files) ∷ rest) h =
        let (here, later_distinct, apart) = IsDistinct-parts (paths files) (all_paths rest) h in
        let later : List (ℕ × S) = written exists tags cache rest in
        let left : IsDistinct (paths later) = written-IsDistinct rest later_distinct in
        elim (Bool-cases (any_exists exists files && not (has_tag (tag_of cache k) tags))) [
          | inl skipped ↦ rw (if-true _ later (files ++ later) skipped) left
          | inr taken ↦ rw (if-false _ later (files ++ later) taken) (
              subst IsDistinct (sym (paths-append files later)) (
                IsDistinct-append (paths files) (paths later) here left
                  (λ p e. written-has rest p (apart p e))))
        ]
