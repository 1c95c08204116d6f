-- ===== src/AocRun/Answers.antt =====
-- The answer file of crates/benchmark-core/src/aoc_runner.rs, written as the prompt says and read.
use Prim.Native.Char.{Char, code}
use llm_benchmark.Common.{Bool, true, false, not, String, ◌∷◌, ◌==◌, ◌≡◌, refl, ◌&&◌, arith}
use llm_benchmark.Text.{trim, is_empty, str_append, lines, starts_with_lf, push_first}
use llm_benchmark.AocRun.Runner.{answers_of, read_answers, ok}

-- The text has no line feed and no carriage return.
unfoldable pub is_one_line : String → Bool
is_one_line String.[] = true
is_one_line (String.◌∷◌ c s) = not (code c == 10) && not (code c == 13) && is_one_line s

plain_char :
    (c : Char) (s : String)
    → is_one_line (String.◌∷◌ c s) ≡ true
    → (code c == 10 ≡ false) × (code c == 13 ≡ false) × (is_one_line s ≡ true)
unfolding is_one_line
plain_char c s h = ground (arith, h)

-- A line that is ended by a line feed stands before the lines of the rest.
lines-append :
    (a rest : String)
    → is_one_line a ≡ true
    → lines (str_append a (str_append "\n" rest)) ≡ a ∷ lines rest
unfolding lines str_append is_one_line push_first starts_with_lf
lines-append String.[] rest h = refl
lines-append (String.◌∷◌ c s) rest h =
    let (feed, return, more) = plain_char c s h in rw (feed, return, lines-append s rest more) refl

-- The answers of two lines are read back.
pub read_answers-written :
    (a b : String)
    → is_one_line a ≡ true
    → is_one_line b ≡ true
    → trim a ≡ a
    → trim b ≡ b
    → is_empty a ≡ false
    → is_empty b ≡ false
    → read_answers (ok (str_append a (str_append "\n" (str_append b (str_append "\n" "")))))
      ≡ ok (a, b)
unfolding read_answers answers_of
read_answers-written a b la lb ta tb ea eb =
    rw (lines-append a (str_append b (str_append "\n" "")) la, lines-append b "" lb, ta, tb, ea, eb)
      (cc (ta, tb))
