-- ===== src/AocRun/Tests.antt =====
-- The runner of crates/benchmark-core/src/aoc_runner.rs and the validator at a concrete day.
use llm_benchmark.Common.{ℕ, true, false, String, ◌≡◌, refl, none, any}
use llm_benchmark.Item.{Category}
use llm_benchmark.Text.{
  trim, is_empty, str_append, lines, is_whitespace, starts_with_lf, push_first,
}
use llm_benchmark.AocRun.{new_day, Solver, validate}
use llm_benchmark.AocRun.Runner.{
  validate_answers, answers_of, ok, err, AgentResult, Returns, run_day,
}
use llm_benchmark.AocRun.Answers.{is_one_line}
use llm_benchmark.AocRun.Agreement.{request, says, validator_runner_agree}
use llm_benchmark.AocRun.Runs.{is_removal, is_ok, run_day_removes_dir, run_day_solved}

abbrev show : ℕ → String
show n = "7"

abbrev solver : Solver
solver user year day = ("42", "1337")

abbrev given : AgentResult
given = record {
  category = Category.polyglot;
  exercise = "day07";
  language = "aoc2015";
  success = false;
  output = "";
  error_message = none;
}

abbrev failing : Returns
failing = record { created = none; filled = none; agent = err "no container"; answer_file = err "" }

run_day_removes_dir_example :
    any is_removal (run_day show solver true (new_day 7 "benchmark") "m" failing).0
    ≡ is_ok (run_day show solver true (new_day 7 "benchmark") "m" failing).1
run_day_removes_dir_example =
    run_day_removes_dir show solver true (new_day 7 "benchmark") "m" failing

run_day_solved_example :
    let returns : Returns = record {
      created = none;
      filled = none;
      agent = ok given;
      answer_file = ok (str_append "42" (str_append "\n" (str_append "1337" (str_append "\n" ""))));
    } in
    (result : AgentResult) × ((run_day show solver false (new_day 7 "benchmark") "m" returns).1
      ≡ ok result)
    × (result.success ≡ true)
    × (result.error_message ≡ none)
unfolding is_one_line trim is_empty is_whitespace new_day
run_day_solved_example =
    run_day_solved show solver false (new_day 7 "benchmark") "m" given "42" "1337" refl refl refl
      refl refl refl refl

validator_runner_agree_example :
    (says 1 (validate show solver (request "benchmark" 7 "42" none))
      ≡ (validate_answers solver (new_day 7 "benchmark") "42" "1337").0)
    × (says 2 (validate show solver (request "benchmark" 7 "1337" none))
        ≡ (validate_answers solver (new_day 7 "benchmark") "42" "1337").1)
unfolding is_empty
validator_runner_agree_example =
    validator_runner_agree show solver "benchmark" 7 "42" "1337" none refl refl refl

-- A blank first line does not stand for an empty answer: the second answer is taken for the first.
blank_line_skipped : answers_of "\n1337\n" ≡ ("1337", "")
unfolding answers_of lines trim is_empty is_whitespace starts_with_lf push_first str_append
blank_line_skipped = refl
