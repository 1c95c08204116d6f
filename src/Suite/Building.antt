-- ===== src/Suite/Building.antt =====
-- The building of an `Exercise` by `ExerciseRunner`, crates/benchmark-core/src/exercise_runner/mod.rs.
-- The parser of .meta/config.json and the type of what it gives are arguments.
use llm_benchmark.Common.{not, List, [], ◌∷◌, ◌++◌, Option, none, some, if◌then◌else◌, map, retain}
use llm_benchmark.Json.{◌>>=◌}
use llm_benchmark.Ordering.{sort_by}
use llm_benchmark.Reasoning.Patterns.{Chars}
use llm_benchmark.Suite.{Bundle, exercise_names, list_files, read_file, has_exercise}
use llm_benchmark.Suite.Discovery.{
  is_deprecated, need_not_follow, find_source_file, find_test_file, find_reference_dir, meta,
}

pub record ExerciseFiles : Type 0 where
  pub solution : Option (List Chars)
  pub test : Option (List Chars)
  pub example : Option (List Chars)

pub record Exercise (Metadata : Type 0) : Type 0 where
  pub name : Chars
  pub language : Chars
  pub source_file : Option Chars
  pub test_file : Option Chars
  pub reference_dir : Option Chars
  pub metadata : Option Metadata
  pub example_files : List Chars
  pub solution_files : List Chars
  pub test_files : List Chars

-- `unwrap_or_default`.
abbrev or_no_files : Option (List Chars) → List Chars
or_no_files none = []
or_no_files (some files) = files

-- `.meta/config.json`.
abbrev pub config_json : Chars
config_json = meta ++ (47 ∷ 99 ∷ 111 ∷ 110 ∷ 102 ∷ 105 ∷ 103 ∷ 46 ∷ 106 ∷ 115 ∷ 111 ∷ 110 ∷ [])

module _ {Metadata : Type 0} (from_slice : Chars → Option Metadata)
    (files_of : Metadata → Option ExerciseFiles) where
  -- The solution, example and test files.
  unfoldable pub resolve_metadata_paths : Option Metadata → List Chars × (List Chars × List Chars)
  resolve_metadata_paths metadata = elim (metadata >>= files_of) [
    | some files ↦ (or_no_files files.solution, (or_no_files files.example, or_no_files files.test))
    | none ↦ ([], ([], []))
  ]

  module _ (bundle : Bundle) where
    unfoldable pub parse_metadata : Chars → Chars → Option Metadata
    unfolding read_file
    parse_metadata language exercise = read_file bundle language exercise config_json >>= from_slice

    unfoldable pub build_exercise : Chars → Chars → Exercise Metadata
    unfolding list_files parse_metadata resolve_metadata_paths find_source_file find_test_file
        find_reference_dir
    build_exercise name language =
        let files = list_files bundle language name in
        let metadata = parse_metadata language name in
        let paths = resolve_metadata_paths metadata in
        record {
          name = name;
          language = language;
          source_file = find_source_file files language;
          test_file = find_test_file files language;
          reference_dir = find_reference_dir files language;
          metadata = metadata;
          example_files = paths.1.0;
          solution_files = paths.0;
          test_files = paths.1.1;
        }

    unfoldable pub find_exercise : Chars → Chars → Option (Exercise Metadata)
    unfolding is_deprecated has_exercise build_exercise
    find_exercise language exercise_name =
        if is_deprecated exercise_name
        then none
        else if not (has_exercise bundle language exercise_name)
        then none
        else some (build_exercise exercise_name language)

    -- The exercises in the order of their names.
    unfoldable pub find_all_exercises : Chars → List (Exercise Metadata)
    unfolding sort_by need_not_follow is_deprecated build_exercise exercise_names
    find_all_exercises language =
        sort_by (λ a b. need_not_follow a.name b.name)
          (map (λ name. build_exercise name language)
            (retain (λ name. not (is_deprecated name)) (exercise_names bundle language)))
