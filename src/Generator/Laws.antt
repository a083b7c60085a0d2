-- ===== src/Generator/Laws.antt =====
-- Which files are written, whatever was generated before.
use compost_rpc.Common.{
  ℕ, ◌≡◌, refl, sym, ap, subst, ◌∙◌, Bool, true, false, List, [], ◌∷◌, ◌++◌, Option, some, inl, inr,
  Bool-cases, if-true, if-false, ==_iff, ◌==◌,
}
use mathlib.Core.List.{append-nil, append_assoc}
use compost_rpc.Generator.{
  OutputKey, Reply, Choice, waiting, nothing, only, Generator, has_key, has_path, new, claim_paths,
  generate, enter, leave, set_force_overwrite, to_overwrite, written, choose, write_choice, run,
}
use compost_rpc.Generator.Paths.{
  has, IsDistinct, paths, all_paths, has-append, or-false_left, or-false_right, or-false, or_right,
  AreApart, IsDistinct-append, written-IsDistinct,
}

module _ {S : Type 0} where
  -- Paths that were free and are claimed.
  record Claims (cache : List (ℕ × OutputKey)) (files : List (ℕ × S))
      (cache' : List (ℕ × OutputKey)) : Type 0 where
    distinct : IsDistinct (paths files)
    free : (p : ℕ) → has p (paths files) ≡ true → has_path p cache ≡ false
    covered : (p : ℕ) → has_path p cache' ≡ false → has p (paths files) ≡ false

  claim_paths-keeps :
      (key : OutputKey) (files : List (ℕ × S)) (cache : List (ℕ × OutputKey)) (p : ℕ)
      → has_path p (claim_paths key files cache).0 ≡ false
      → has_path p cache ≡ false
  unfolding claim_paths has_path
  claim_paths-keeps key [] cache p h = h
  claim_paths-keeps key ((path, content) ∷ files) cache p h =
      elim (Bool-cases (has_path path cache)) [
        | inl taken ↦ rw (claim_paths, taken) at h
        | inr free ↦
            or-false_right (p == path) (has_path p cache)
              (claim_paths-keeps key files ((path, key) ∷ cache) p (rw (claim_paths, free) at h))
      ]

  claim_first :
      (path : ℕ) (key : OutputKey) (content : S) (files : List (ℕ × S))
      (cache cache' : List (ℕ × OutputKey))
      → has_path path cache ≡ false
      → Claims ((path, key) ∷ cache) files cache'
      → ((p : ℕ) → has_path p cache' ≡ false → has_path p ((path, key) ∷ cache) ≡ false)
      → Claims cache ((path, content) ∷ files) cache'
  unfolding has_path paths IsDistinct has
  claim_first path key content files cache cache' free rest keeps = record {
    distinct = (not_again, rest.distinct);
    free = λ p e. elim (Bool-cases (p == path)) [
      | inl same ↦
          let equal : path ≡ p = sym ((==_iff p path).0 same) in
          subst (λ p. has_path p cache ≡ false) equal free
      | inr differ ↦
          or-false_right (p == path) (has_path p cache)
            (rest.free p (sym (or_right (p == path) (has p (paths files)) differ) ∙ e))
    ];
    covered = λ p e.
        or-false (p == path) (has p (paths files))
          (or-false_left (p == path) (has_path p cache) (keeps p e)) (rest.covered p e);
  }
    where
      not_again : has path (paths files) ≡ false
      not_again = elim (Bool-cases (has path (paths files))) [
        | inr absent ↦ absent
        | inl again ↦
            let twice : (path == path) ≡ false =
              or-false_left (path == path) (has_path path cache) (rest.free path again) in
            cc (twice, (==_iff path path).1 refl)
      ]

  claim_paths-Claims :
      (key : OutputKey) (files : List (ℕ × S)) (cache : List (ℕ × OutputKey))
      → (claim_paths key files cache).1 ≡ true
      → Claims cache files (claim_paths key files cache).0
  unfolding claim_paths has_path paths IsDistinct has
  claim_paths-Claims key [] cache h = record {
    distinct = tt;
    free = λ p e. cc e;
    covered = λ p e. refl;
  }
  claim_paths-Claims key ((path, content) ∷ files) cache h =
      elim (Bool-cases (has_path path cache)) [
        | inl taken ↦ let stopped : false ≡ true = rw (claim_paths, taken) at h in cc stopped
        | inr free ↦
            rw (claim_paths, free)
              (claim_first path key content files cache _ free
                (claim_paths-Claims key files ((path, key) ∷ cache) (rw (claim_paths, free) at h))
                (λ p e. claim_paths-keeps key files ((path, key) ∷ cache) p e))
      ]

  -- No two outputs have a path in common or twice, and their paths are in the path cache.
  pub record IsValid (g : Generator S) : Type 0 where
    pub distinct : IsDistinct (all_paths g.output_cache)
    pub claimed :
        (p : ℕ) → has_path p g.path_cache ≡ false → has p (all_paths g.output_cache) ≡ false

  all_paths-append :
      (outputs : List (OutputKey × List (ℕ × S))) (key : OutputKey) (files : List (ℕ × S))
      → all_paths (outputs ++ ((key, files) ∷ [])) ≡ all_paths outputs ++ (paths files ++ [])
  unfolding all_paths
  all_paths-append [] key files = refl
  all_paths-append ((k, first) ∷ rest) key files =
      ap (λ l. paths first ++ l) (all_paths-append rest key files)
      ∙ sym (append_assoc (paths first) (all_paths rest) (paths files ++ []))

  -- An output whose paths were free is added.
  add_output-IsValid :
      (g : Generator S) (key : OutputKey) (files : List (ℕ × S)) (cache : List (ℕ × OutputKey))
      → IsValid g
      → Claims g.path_cache files cache
      → ((p : ℕ) → has_path p cache ≡ false → has_path p g.path_cache ≡ false)
      → IsValid
          (record g { path_cache = cache; output_cache = g.output_cache ++ ((key, files) ∷ []) })
  unfolding AreApart
  add_output-IsValid g key files cache valid claims keeps =
      let all : all_paths (g.output_cache ++ ((key, files) ∷ []))
          ≡ all_paths g.output_cache ++ paths files =
        all_paths-append g.output_cache key files
        ∙ ap (λ l. all_paths g.output_cache ++ l) (append-nil (paths files)) in
      record {
        distinct = subst IsDistinct (sym all) (
            IsDistinct-append (all_paths g.output_cache) (paths files) valid.distinct
              claims.distinct
              (λ p e. elim (Bool-cases (has p (paths files))) [
                | inr absent ↦ absent
                | inl there ↦ cc (e, valid.claimed p (claims.free p there))
              ]));
        claimed = λ p e.
            ap (has p) all
            ∙ has-append p (all_paths g.output_cache) (paths files)
            ∙ or-false (has p (all_paths g.output_cache)) (has p (paths files))
                (valid.claimed p (keeps p e)) (claims.covered p e);
      }

  -- `generate` keeps that, when it raises as well.
  generate-IsValid :
      (key : OutputKey) (files : List (ℕ × S)) (g : Generator S)
      → IsValid g
      → IsValid (generate key files g).0
  unfolding generate
  generate-IsValid key files g valid = elim (Bool-cases (has_key key g.output_cache)) [
    | inl again ↦ rw (generate, again) valid
    | inr fresh ↦ elim (Bool-cases (claim_paths key files g.path_cache).1) [
      | inl free ↦
          rw (generate, fresh, free)
            (add_output-IsValid g key files (claim_paths key files g.path_cache).0 valid
              (claim_paths-Claims key files g.path_cache free)
              (λ p e. claim_paths-keeps key files g.path_cache p e))
      | inr taken ↦
          rw (generate, fresh, taken)
            (record {
              distinct = valid.distinct;
              claimed = λ p e. valid.claimed p (claim_paths-keeps key files g.path_cache p e);
            })
    ]
  ]

  -- What can happen to a generator.
  pub data Reached : Generator S → Type 0 where
    made : Reached new
    generated :
        {g : Generator S} (key : OutputKey) (files : List (ℕ × S))
        → Reached g
        → Reached (generate key files g).0
    entered : {g : Generator S} → Reached g → Reached (enter g)
    left : {g : Generator S} → Reached g → Reached (leave g)
    forced : {g : Generator S} (value : Bool) → Reached g → Reached (set_force_overwrite value g)

  pub Reached-IsValid : {g : Generator S} → Reached g → IsValid g
  unfolding enter leave set_force_overwrite IsDistinct all_paths has has_path
  Reached-IsValid made = record { distinct = tt; claimed = λ p e. refl }
  Reached-IsValid (generated {g} key files r) = generate-IsValid key files g (Reached-IsValid r)
  Reached-IsValid (entered r) = record { distinct = tt; claimed = λ p e. refl }
  Reached-IsValid (left r) =
      let valid = Reached-IsValid r in record { distinct = valid.distinct; claimed = valid.claimed }
  Reached-IsValid (forced value r) =
      let valid = Reached-IsValid r in record { distinct = valid.distinct; claimed = valid.claimed }

  choice-IsDistinct :
      (g : Generator S) (exists : ℕ → Bool) (replies : List (List Reply)) (files : List (ℕ × S))
      → IsDistinct (all_paths g.output_cache)
      → (choice : Choice) → write_choice exists g.output_cache choice ≡ some files
      → IsDistinct (paths files)
  unfolding IsDistinct paths write_choice
  choice-IsDistinct g exists replies files distinct waiting e = cc e
  choice-IsDistinct g exists replies files distinct nothing e =
      let same : [] ≡ files = cc e in subst (λ files. IsDistinct (paths files)) same tt
  choice-IsDistinct g exists replies files distinct (only tags) e =
      let same : written exists tags g.output_cache g.output_cache ≡ files = cc e in
      subst (λ files. IsDistinct (paths files)) same
        (written-IsDistinct exists tags g.output_cache g.output_cache distinct)

  -- Whatever was generated before, and in whichever contexts, and whatever a user answers: no run writes
  -- a file twice.
  pub run-IsDistinct :
      (g : Generator S) (exists : ℕ → Bool) (replies : List (List Reply)) (files : List (ℕ × S))
      → Reached g
      → run g exists replies ≡ some files
      → IsDistinct (paths files)
  unfolding run IsDistinct paths
  run-IsDistinct g exists replies files reached e = elim (Bool-cases g.in_with_context) [
    | inl inside ↦
        let same : [] ≡ files =
          cc (e, if-true {A = Option (List (ℕ × S))} g.in_with_context (some []) _ inside) in
        subst (λ files. IsDistinct (paths files)) same tt
    | inr outside ↦
        choice-IsDistinct g exists replies files (Reached-IsValid reached).distinct
          (choose g.force_overwrite (to_overwrite exists g.output_cache g.output_cache) replies)
          (sym (if-false {A = Option (List (ℕ × S))} g.in_with_context (some []) _ outside) ∙ e)
  ]
