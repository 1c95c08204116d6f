-- ===== src/Suite/Tests.antt =====
-- The exercise suite and the runs of its exercises at concrete values.
use llm_benchmark.Common.{
  Bool, true, false, not, String, List, [], ◌∷◌, none, some, ◌≡◌, refl, arith, ◌&&◌, ◌||◌, ◌≤◌, ◌⊎◌,
  ◌*◌, length, str_eq, if◌then◌else◌,
}
use Prim.Native.Nat.{max}
use llm_benchmark.Json.{Value, boolean, object, field, end, get}
use llm_benchmark.Ordering.{IsOrdered, chars_leb}
use llm_benchmark.Reasoning.Patterns.{Chars, codes}
use llm_benchmark.Suite.{Bundle, read_file, has_exercise, languages, filter_map}
use llm_benchmark.Suite.Listing.{contains_chars, has_plain_file}
use llm_benchmark.Suite.Discovery.{
  get_exercises_for_language, is_deprecated, discover, find_source_file, find_reference_dir,
}
use llm_benchmark.Suite.Names.{ComesBefore, after_calls, discovered_exactly}
use llm_benchmark.Suite.Stream.{
  Runs, Takes, Buffer, Step, Reach, begin, start_order, keep, run_results, skips, starts, ends,
  here, next, stored_success,
}
use llm_benchmark.Suite.Counts.{count}
use llm_benchmark.Suite.Runs.{planned, run_all_exercises_returns}

abbrev file : String → Chars × Chars
file path = (codes path, codes "text")

abbrev bundle : Bundle
bundle =
    file "go/exercises/practice/pov/pov.go"
    ∷ file "go/exercises/practice/counter/counter.go"
    ∷ file "go/exercises/practice/zebra/zebra.go"
    ∷ file "go/exercises/practice/beer/beer.go"
    ∷ file "go/exercises/practice/beer/.meta/config.json"
    ∷ file "go/README.md"
    ∷ file "java/exercises/practice/beer/src/main/java/Beer.java"
    ∷ []

pov_last : discover bundle (codes "go") ≡ codes "beer" ∷ codes "zebra" ∷ codes "pov" ∷ []
unfolding discover codes
pov_last = refl

both_languages : languages bundle ≡ codes "go" ∷ codes "java" ∷ []
unfolding languages codes chars_leb
both_languages = refl

read_beer :
    read_file bundle (codes "go") (codes "beer") (codes ".meta/config.json") ≡ some (codes "text")
unfolding read_file codes
read_beer = refl

java_source :
    find_source_file
      (codes "src/main/java/a/B.java" ∷ codes "src/main/java/Beer.java" ∷ [])
      (codes "java")
    ≡ some (codes "src/main/java/Beer.java")
unfolding find_source_file codes
java_source = refl

go_reference :
    find_reference_dir (codes ".meta/example.go" ∷ []) (codes "go") ≡ some (codes ".meta")
unfolding find_reference_dir codes
go_reference = refl

discovered_exactly_example :
    IsOrdered ComesBefore
      (get_exercises_for_language bundle (codes "go") (after_calls bundle (codes "java" ∷ []) [])).0
    × (contains_chars
          (98 ∷ codes "eer")
          (get_exercises_for_language bundle
            (codes "go")
            (after_calls bundle (codes "java" ∷ []) [])).0
        ≡ (not (is_deprecated (98 ∷ codes "eer"))
            && (has_exercise bundle (codes "go") (98 ∷ codes "eer")
                || has_plain_file bundle (codes "go") (98 ∷ codes "eer"))))
unfolding codes
discovered_exactly_example =
    discovered_exactly bundle (codes "java" ∷ []) (codes "go") 98 (codes "eer") refl

abbrev succeeded : Value
succeeded = object (field "success" (boolean true) end)

-- The exercise `done` has a success stored, the run of `bad` fails.
abbrev some_runs : Runs String String
some_runs = record {
  outcome = λ e. if str_eq e "bad" then none else some e;
  stored = λ e. if str_eq e "done" then some succeeded else none;
  duration = λ e. 1;
}

abbrev three : List String
three = "done" ∷ "bad" ∷ "good" ∷ []

abbrev both_under_way : Buffer some_runs false 2
both_under_way = record { waiting = []; running = "bad" ∷ "good" ∷ []; finished = [] }

abbrev good_first : Buffer some_runs false 2
good_first = record { waiting = []; running = []; finished = "good" ∷ "bad" ∷ [] }

three_run : Reach some_runs false 2 (begin some_runs false 2 three) 5 good_first
unfolding begin start_order keep stored_success get
three_run =
    next
      (next
        (next
          (next (next here (skips "done" ("bad" ∷ "good" ∷ []) refl (omega arith) refl))
            (starts "bad" ("good" ∷ []) refl (omega arith) refl))
          (starts "good" [] refl (omega arith) refl))
        (ends "good" ("bad" ∷ []) (Takes.later Takes.first)))
      (ends "bad" [] Takes.first)

run_all_exercises_returns_example :
    (length good_first.running ≤ max 2 1)
    × ((5 ≤ 2 * length three)
        × (((t : Buffer some_runs false 2) × Step some_runs false 2 good_first t)
            ⊎ ((test : String → Bool)
                → count test (run_results some_runs false 2 good_first)
                  ≡ count test
                      (filter_map (Runs.outcome some_runs) (planned some_runs false 2 three)))))
run_all_exercises_returns_example = run_all_exercises_returns some_runs false 2 three three_run
