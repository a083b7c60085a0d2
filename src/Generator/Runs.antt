-- ===== src/Generator/Runs.antt =====
-- Outputs of concrete generators, with numbers for the contents.
use compost_rpc.Common.{ℕ, ◌≡◌, refl, true, false, List, [], ◌∷◌, none, some}
use compost_rpc.Common.Result.{err, value_error}
use compost_rpc.Protocol.Rpc.{remote, local}
use compost_rpc.Generator.{OutputKey, Reply, language, unknown, Generator, generate, enter, run}
use compost_rpc.Generator.Paths.{has, IsDistinct, paths}
use compost_rpc.Generator.Laws
use compost_rpc.Generator.Laws.{Reached, made, generated}
use compost_rpc.Generator.Overwrite

abbrev c_remote : OutputKey
c_remote = record { generator = 0; endpoint = remote }

abbrev csharp_local : OutputKey
csharp_local = record { generator = 1; endpoint = local }

abbrev c_files : List (ℕ × ℕ)
c_files = (10, 1) ∷ (11, 2) ∷ []

abbrev csharp_files : List (ℕ × ℕ)
csharp_files = (20, 3) ∷ []

abbrev both : Generator ℕ
both = record {
  force_overwrite = false;
  output_cache = (c_remote, c_files) ∷ (csharp_local, csharp_files) ∷ [];
  path_cache = (20, csharp_local) ∷ (11, c_remote) ∷ (10, c_remote) ∷ [];
  in_with_context = false;
}

both-Reached : Reached both
unfolding generate
both-Reached = generated csharp_local csharp_files (generated c_remote c_files made)

-- The first answer is asked for again, the second one names C# only.
abbrev replies : List (List Reply)
replies = (unknown ∷ []) ∷ (language (record { short_name = 1; endpoint = none }) ∷ []) ∷ []

both-runs : run both (λ p. true) replies ≡ some csharp_files
unfolding run
both-runs = refl

run-IsDistinct_example : IsDistinct (paths csharp_files)
run-IsDistinct_example =
    Laws.run-IsDistinct both (λ p. true) replies csharp_files both-Reached both-runs

run_refused_example : has 11 (paths csharp_files) ≡ false
unfolding run has paths
run_refused_example =
    Overwrite.run_refused both (λ p. true) replies csharp_files
      (record { short_name = 1; endpoint = none } ∷ []) [] ((csharp_local, csharp_files) ∷ [])
      c_remote c_files 11 both-Reached refl refl refl refl refl refl both-runs

-- A second context takes the outputs away but not the paths, so that the same files cannot be made again.
enter-generate : (generate c_remote c_files (enter both)).1 ≡ err value_error
unfolding generate enter
enter-generate = refl
