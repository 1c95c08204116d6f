-- ===== src/Session/Output.antt =====
-- The accumulated output of a session of benchmark-web/src/models/session.rs.
use Prim.Native.Nat.{min, max}
use mathlib.Core.List.{append-nil, append_assoc}
use llm_benchmark.Common.{
  ℕ, suc, ◌+◌, ◌≤◌, String, ◌≡◌, refl, sym, ap, ◌∙◌, inl, inr, List, [], ◌∷◌, ◌++◌, arith, leb, map,
  Bool-cases, length, length-append,
}
use llm_benchmark.Session.{max_lines, push_line, push_consumed}

-- What reaches the buffer: a line of `emit_output`, or one of the consumer of an agent's output.
pub data Line : Type 0 where
  emitted consumed : String → Line

abbrev pub text_of : Line → String
text_of (emitted m) = m
text_of (consumed m) = m

abbrev pub push : Line → List String → List String
push (emitted m) out = push_line m out
push (consumed m) out = push_consumed m out

unfoldable pub push_all : List Line → List String → List String
unfolding push_line
push_all [] out = out
push_all (l ∷ ls) out = push_all ls (push l out)

-- The lines of the consumer.
abbrev pub count_consumed : List Line → ℕ
count_consumed [] = 0
count_consumed (emitted m ∷ ls) = count_consumed ls
count_consumed (consumed m ∷ ls) = suc (count_consumed ls)

-- What a push keeps, and how long the buffer is then.
record Pushed (l : Line) (out : List String) : Type 0 where
  lost : List String
  split : out ++ text_of l ∷ [] ≡ lost ++ push l out
  at_least : min (suc (length out)) max_lines ≤ length (push l out)
  at_most : length (push l out) ≤ max max_lines (length out) + count_consumed (l ∷ [])

push-Pushed : (l : Line) (out : List String) → Pushed l out
unfolding push_line
push-Pushed (consumed m) out = record {
  lost = [];
  split = refl;
  at_least = ground (arith, length-append out (m ∷ []));
  at_most = ground (arith, length-append out (m ∷ []));
}
push-Pushed (emitted m) [] = record {
  lost = [];
  split = refl;
  at_least = omega arith;
  at_most = omega arith;
}
push-Pushed (emitted m) (x ∷ xs) = elim (Bool-cases (leb max_lines (suc (length xs)))) [
  | inl full ↦ record {
    lost = x ∷ [];
    split = rw (full, push_line) refl;
    at_least = rw (full, push_line) (ground (arith, length-append xs (m ∷ [])));
    at_most = rw (full, push_line) (ground (arith, length-append xs (m ∷ [])));
  }
  | inr room ↦ record {
    lost = [];
    split = rw (room, push_line) refl;
    at_least = rw (room, push_line) (ground (arith, length-append xs (m ∷ [])));
    at_most = rw (room, push_line) (ground (arith, room, length-append xs (m ∷ [])));
  }
]

count_consumed-cons :
    (l : Line) (ls : List Line)
    → count_consumed (l ∷ ls) ≡ count_consumed (l ∷ []) + count_consumed ls
count_consumed-cons (emitted m) ls = omega arith
count_consumed-cons (consumed m) ls = omega arith

-- Whatever lines come, emitted or from the consumer, the buffer is the last of all the lines that it
-- got, in their order: all of them or 10000 at least, and at most 10000, or what it had if that was
-- more, and one more for each line from the consumer.
pub push_all_last :
    (ls : List Line) (out : List String)
    → (lost : List String) × (out ++ map text_of ls ≡ lost ++ push_all ls out)
      × (min (length out + length ls) max_lines ≤ length (push_all ls out))
      × (length (push_all ls out) ≤ max max_lines (length out) + count_consumed ls)
unfolding push_all
push_all_last [] out = ([], append-nil out, omega arith, omega arith)
push_all_last (l ∷ ls) out =
    let p = push-Pushed l out in
    let (lost, split, low, high) = push_all_last ls (push l out) in
    (
      p.lost ++ lost,
      sym (append_assoc out (text_of l ∷ []) (map text_of ls))
          ∙ ap (λ o. o ++ map text_of ls) p.split
          ∙ append_assoc p.lost (push l out) (map text_of ls)
          ∙ ap (λ o. p.lost ++ o) split
          ∙ sym (append_assoc p.lost lost (push_all ls (push l out))),
      omega (arith, p.at_least, low),
      omega (arith, p.at_most, high, count_consumed-cons l ls),
    )
