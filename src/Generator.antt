-- ===== src/Generator.antt =====
-- `Generator` of compost_rpc/compost_rpc.py: what `generate` keeps of the files that a code generator
-- makes, and which of them `run` writes. A path is a number, and `S` is the type of the contents.
pub mod Paths
pub mod Laws
pub mod Overwrite
mod Runs
use compost_rpc.Common.{
  ℕ, suc, Bool, true, false, not, ◌&&◌, ◌||◌, List, [], ◌∷◌, ◌++◌, Option, none, some, ltb, ◌==◌,
  if◌then◌else◌,
}
use compost_rpc.Common.Result.{Result, ok, err, value_error}
use compost_rpc.Protocol.Rpc.{Endpoint, is_endpoint}

-- `_OutputKey`. The generator is the place of its object in `_generators`.
pub record OutputKey : Type 0 where
  pub generator : ℕ
  pub endpoint : Endpoint

unfoldable pub is_key : OutputKey → OutputKey → Bool
unfolding is_endpoint
is_key a b = a.generator == b.generator && is_endpoint a.endpoint b.endpoint

-- What `as_typed_str` makes of a key: the name of the generator, and the endpoint if asked for.
pub record Tag : Type 0 where
  pub short_name : ℕ
  pub endpoint : Option Endpoint

unfoldable pub as_typed_str : OutputKey → Bool → Tag
as_typed_str key with_endpoint = record {
  short_name = key.generator;
  endpoint = if with_endpoint then some key.endpoint else none;
}

unfoldable pub is_tag : Tag → Tag → Bool
unfolding is_endpoint
is_tag a b = a.short_name == b.short_name && elim a.endpoint [
  | none ↦ elim b.endpoint [ none ↦ true | some f ↦ false ]
  | some e ↦ elim b.endpoint [ none ↦ false | some f ↦ is_endpoint e f ]
]

module _ {S : Type 0} where
  unfoldable pub has_key : OutputKey → List (OutputKey × List (ℕ × S)) → Bool
  unfolding is_key
  has_key key [] = false
  has_key key ((k, files) ∷ rest) = is_key key k || has_key key rest

unfoldable pub has_path : ℕ → List (ℕ × OutputKey) → Bool
has_path path [] = false
has_path path ((p, key) ∷ rest) = path == p || has_path path rest

pub record Generator (S : Type 0) : Type 0 where
  pub force_overwrite : Bool
  pub output_cache : List (OutputKey × List (ℕ × S))
  pub path_cache : List (ℕ × OutputKey)
  pub in_with_context : Bool

-- What a user enters: for each part between the commas, `a` or `all`, nothing or `n` or `none`, or
-- something else, which is the tag that it spells or none.
pub data Reply : Type 0 where
  all_files no_files unknown : Reply
  language : Tag → Reply

unfoldable pub has_tag : Tag → List Tag → Bool
unfolding is_tag
has_tag tag [] = false
has_tag tag (t ∷ tags) = is_tag tag t || has_tag tag tags

-- The response, if every part of it names one of the languages.
unfoldable pub tags_of : List Tag → List Reply → Option (List Tag)
unfolding has_tag
tags_of langs_typed [] = some []
tags_of langs_typed (language t ∷ reply) =
    let rest = tags_of langs_typed reply in
    if has_tag t langs_typed then elim rest [ none ↦ none | some tags ↦ some (t ∷ tags) ] else none
tags_of langs_typed (part ∷ reply) = none

unfoldable pub response : List Tag → List Reply → Option (List Tag)
unfolding tags_of
response langs_typed (all_files ∷ []) = some langs_typed
response langs_typed (no_files ∷ []) = some []
response langs_typed reply = tags_of langs_typed reply

-- The loop that asks until an answer is valid. With `none` it still asks.
unfoldable pub ask : List Tag → List (List Reply) → Option (List Tag)
unfolding response
ask langs_typed [] = none
ask langs_typed (reply ∷ replies) = elim (response langs_typed reply) [
  | none ↦ ask langs_typed replies
  | some tags ↦ some tags
]

-- What comes of it: `run` still asks, it returns, or it writes the files of these languages and those
-- that do not exist.
pub data Choice : Type 0 where
  waiting nothing : Choice
  only : List Tag → Choice

unfoldable pub answered : Option (List Tag) → Choice
answered none = waiting
answered (some []) = nothing
answered (some (t ∷ ts)) = only (t ∷ ts)

-- `overwrite_response`, for the languages with files that exist.
unfoldable pub choose : Bool → List Tag → List (List Reply) → Choice
unfolding ask answered
choose force [] replies = only []
choose true (t ∷ ts) replies = only (t ∷ ts)
choose false (t ∷ ts) replies = answered (ask (t ∷ ts) replies)

module _ {S : Type 0} where
  abbrev pub new : Generator S
  new = record {
    force_overwrite = false;
    output_cache = [];
    path_cache = [];
    in_with_context = false;
  }

  -- The loop over the paths of a result. The paths before one that is taken stay in the cache.
  unfoldable pub claim_paths :
      OutputKey → List (ℕ × S) → List (ℕ × OutputKey) → List (ℕ × OutputKey) × Bool
  unfolding has_path
  claim_paths key [] cache = (cache, true)
  claim_paths key ((path, content) ∷ files) cache = elim (has_path path cache) [
    | true ↦ (cache, false)
    | false ↦ claim_paths key files ((path, key) ∷ cache)
  ]

  -- `generate`, as `_patch_generate` wraps it, for the files that the code generator returned.
  unfoldable pub generate :
      OutputKey → List (ℕ × S) → Generator S → Generator S × Result (List (ℕ × S))
  unfolding has_key claim_paths
  generate key result g =
      if has_key key g.output_cache
      then (g, err value_error)
      else (let (cache, free) = claim_paths key result g.path_cache in
          if free
          then (
            record g { path_cache = cache; output_cache = g.output_cache ++ ((key, result) ∷ []) },
            ok result,
          )
          else (record g { path_cache = cache }, err value_error))

  unfoldable pub enter : Generator S → Generator S
  enter g = record g { in_with_context = true; output_cache = [] }

  unfoldable pub leave : Generator S → Generator S
  leave g = record g { in_with_context = false }

  unfoldable pub set_force_overwrite : Bool → Generator S → Generator S
  set_force_overwrite value g = record g { force_overwrite = value }

  -- How many outputs a generator has. `verbose` is set when a second one is found.
  unfoldable pub outputs_of : ℕ → List (OutputKey × List (ℕ × S)) → ℕ
  outputs_of generator [] = 0
  outputs_of generator ((k, files) ∷ rest) =
      let n = outputs_of generator rest in if k.generator == generator then suc n else n

  unfoldable pub tag_of : List (OutputKey × List (ℕ × S)) → OutputKey → Tag
  unfolding as_typed_str outputs_of
  tag_of cache key = as_typed_str key (ltb 1 (outputs_of key.generator cache))

  -- Whether one of the files exists.
  unfoldable pub any_exists : (ℕ → Bool) → List (ℕ × S) → Bool
  any_exists exists [] = false
  any_exists exists ((path, content) ∷ files) = exists path || any_exists exists files

  -- `langs_typed`: the tags of the outputs with files that exist.
  unfoldable pub to_overwrite :
      (ℕ → Bool) → List (OutputKey × List (ℕ × S)) → List (OutputKey × List (ℕ × S)) → List Tag
  unfolding any_exists tag_of
  to_overwrite exists cache [] = []
  to_overwrite exists cache ((key, files) ∷ rest) =
      let later = to_overwrite exists cache rest in
      if any_exists exists files then tag_of cache key ∷ later else later

  -- The files that the last loop writes.
  unfoldable pub written :
      (ℕ → Bool)
      → List Tag
      → List (OutputKey × List (ℕ × S))
      → List (OutputKey × List (ℕ × S))
      → List (ℕ × S)
  unfolding any_exists tag_of has_tag
  written exists tags cache [] = []
  written exists tags cache ((key, files) ∷ rest) =
      let later = written exists tags cache rest in
      if any_exists exists files && not (has_tag (tag_of cache key) tags)
      then later
      else files ++ later

  unfoldable pub write_choice :
      (ℕ → Bool) → List (OutputKey × List (ℕ × S)) → Choice → Option (List (ℕ × S))
  unfolding written
  write_choice exists cache waiting = none
  write_choice exists cache nothing = some []
  write_choice exists cache (only tags) = some (written exists tags cache cache)

  -- The files that `run` writes, in order, for the answers that a user gives; `none` while it asks.
  unfoldable pub run : Generator S → (ℕ → Bool) → List (List Reply) → Option (List (ℕ × S))
  unfolding choose to_overwrite write_choice
  run g exists replies =
      if g.in_with_context
      then some []
      else write_choice exists g.output_cache
          (choose g.force_overwrite (to_overwrite exists g.output_cache g.output_cache) replies)
