-- ===== src/Generator/Overwrite.antt =====
-- Files that exist are written only if the user said so.
use compost_rpc.Common.{
  ℕ, ◌≡◌, refl, ◌⊎◌, sym, ap, subst, ◌∙◌, Bool, true, false, not, ◌&&◌, ◌||◌, List, [], ◌∷◌, ◌++◌,
  Option, some, inl, inr, Bool-cases, if-true, if-false,
}
use compost_rpc.Generator.{
  OutputKey, Tag, Reply, nothing, only, Generator, has_tag, any_exists, tag_of, to_overwrite,
  written, ask, answered, choose, write_choice, run,
}
use compost_rpc.Generator.Paths.{
  has, IsDistinct, AreApart, IsDistinct-parts, paths, all_paths, paths-append, has-append, or-false,
  written-has,
}
use compost_rpc.Generator.Laws.{Reached, Reached-IsValid}

or-true_left : (a b : Bool) → a ≡ true → (a || b) ≡ true
or-true_left true b e = refl
or-true_left false b e = cc

or-true_right : (a b : Bool) → b ≡ true → (a || b) ≡ true
or-true_right true b e = refl
or-true_right false b e = e

-- The answer that a user gave, and the choice that follows from it.
chosen :
    (langs tags : List Tag) (replies : List (List Reply)) (tag : Tag)
    → ask langs replies ≡ some tags
    → has_tag tag tags ≡ false
    → (choose false langs replies ≡ nothing)
      ⊎ ((only_tags : List Tag) × (choose false langs replies ≡ only only_tags)
          × (has_tag tag only_tags ≡ false))
unfolding choose answered has_tag
chosen [] tags replies tag e refused = inr ([], refl, refl)
chosen (t ∷ ts) [] replies tag e refused = inl (ap answered e)
chosen (t ∷ ts) (u ∷ us) replies tag e refused = inr (u ∷ us, ap answered e, refused)

module _ {S : Type 0} where
  has-all_paths :
      (p : ℕ) (before after : List (OutputKey × List (ℕ × S))) (key : OutputKey)
      (out : List (ℕ × S))
      → has p (paths out) ≡ true
      → has p (all_paths (before ++ ((key, out) ∷ after))) ≡ true
  unfolding all_paths
  has-all_paths p [] after key out h =
      has-append p (paths out) (all_paths after)
      ∙ or-true_left (has p (paths out)) (has p (all_paths after)) h
  has-all_paths p ((k, files) ∷ before) after key out h =
      let rest : List ℕ = all_paths (before ++ ((key, out) ∷ after)) in
      has-append p (paths files) rest
      ∙ or-true_right (has p (paths files)) (has p rest) (has-all_paths p before after key out h)

  module _ (exists : ℕ → Bool) (tags : List Tag) (cache : List (OutputKey × List (ℕ × S)))
      (key : OutputKey) (out : List (ℕ × S)) (conflict : any_exists exists out ≡ true)
      (refused : has_tag (tag_of cache key) tags ≡ false) (p : ℕ)
      (there : has p (paths out) ≡ true) where
    -- An output that exists and was not chosen is left out, with all of its paths.
    written_refused :
        (before after : List (OutputKey × List (ℕ × S)))
        → IsDistinct (all_paths (before ++ ((key, out) ∷ after)))
        → has p (paths (written exists tags cache (before ++ ((key, out) ∷ after)))) ≡ false
    unfolding written all_paths AreApart
    written_refused [] after distinct =
        let (_, _, apart) = IsDistinct-parts (paths out) (all_paths after) distinct in
        let later : List (ℕ × S) = written exists tags cache after in
        let skipped : (any_exists exists out && not (has_tag (tag_of cache key) tags)) ≡ true =
          rw (conflict, refused) refl in
        rw (if-true _ later (out ++ later) skipped)
          (written-has exists tags cache after p (apart p there))
    written_refused ((k, files) ∷ before) after distinct =
        let outputs : List (OutputKey × List (ℕ × S)) = before ++ ((key, out) ∷ after) in
        let (_, rest, apart) = IsDistinct-parts (paths files) (all_paths outputs) distinct in
        let later : List (ℕ × S) = written exists tags cache outputs in
        let left : has p (paths later) ≡ false = written_refused before after rest in
        let absent : has p (paths files) ≡ false = elim (Bool-cases (has p (paths files))) [
          | inr no_path ↦ no_path
          | inl path ↦ cc (apart p path, has-all_paths p before after key out there)
        ] in
        elim (Bool-cases (any_exists exists files && not (has_tag (tag_of cache k) tags))) [
          | inl skipped ↦ rw (if-true _ later (files ++ later) skipped) left
          | inr taken ↦ rw (if-false _ later (files ++ later) taken) (
              ap (has p) (paths-append files later)
              ∙ has-append p (paths files) (paths later)
              ∙ or-false (has p (paths files)) (has p (paths later)) absent left)
        ]

  -- Without force, a file is not written if its output has files that exist already and the answer of
  -- the user does not name the language of that output.
  pub run_refused :
      (g : Generator S) (exists : ℕ → Bool) (replies : List (List Reply)) (files : List (ℕ × S))
      (tags : List Tag) (before after : List (OutputKey × List (ℕ × S))) (key : OutputKey)
      (out : List (ℕ × S)) (p : ℕ)
      → Reached g
      → g.force_overwrite ≡ false
      → g.output_cache ≡ before ++ ((key, out) ∷ after)
      → ask (to_overwrite exists g.output_cache g.output_cache) replies ≡ some tags
      → any_exists exists out ≡ true
      → has_tag (tag_of g.output_cache key) tags ≡ false
      → has p (paths out) ≡ true
      → run g exists replies ≡ some files
      → has p (paths files) ≡ false
  unfolding run has paths write_choice
  run_refused g exists replies files tags before after key out p reached unforced cached asked
        conflict refused there e =
      let langs : List Tag = to_overwrite exists g.output_cache g.output_cache in
      let distinct : IsDistinct (all_paths (before ++ ((key, out) ∷ after))) =
        subst (λ c. IsDistinct (all_paths c)) cached (Reached-IsValid reached).distinct in
      elim (Bool-cases g.in_with_context) [
        | inl inside ↦
            let same : [] ≡ files =
              cc (e, if-true {A = Option (List (ℕ × S))} g.in_with_context (some []) _ inside) in
            subst (λ files. has p (paths files) ≡ false) same refl
        | inr outside ↦
            let running : write_choice exists g.output_cache
                  (choose g.force_overwrite langs replies)
                ≡ some files =
              sym (if-false {A = Option (List (ℕ × S))} g.in_with_context (some []) _ outside)
              ∙ e in
            let unforced_choice : choose g.force_overwrite langs replies
                ≡ choose false langs replies =
              ap (λ b. choose b langs replies) unforced in
            elim (chosen langs tags replies (tag_of g.output_cache key) asked refused) [
              | inl none_chosen ↦
                  let same : some [] ≡ some files =
                    sym (ap (write_choice exists g.output_cache) (unforced_choice ∙ none_chosen))
                    ∙ running in
                  let same' : [] ≡ files = cc same in
                  subst (λ files. has p (paths files) ≡ false) same' refl
              | inr (only_tags, these, absent) ↦
                  let same : some (written exists only_tags g.output_cache g.output_cache)
                      ≡ some files =
                    sym (ap (write_choice exists g.output_cache) (unforced_choice ∙ these))
                    ∙ running in
                  let same' : written exists only_tags g.output_cache g.output_cache ≡ files =
                    cc same in
                  subst (λ files. has p (paths files) ≡ false) same'
                    (subst (λ c. has p (paths (written exists only_tags g.output_cache c)) ≡ false)
                      (sym cached)
                      (written_refused exists only_tags g.output_cache key out conflict absent p
                        there before after distinct))
            ]
      ]
