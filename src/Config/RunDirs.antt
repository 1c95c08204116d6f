-- ===== src/Config/RunDirs.antt =====
-- `OutputConfig` of crates/benchmark-types/src/config/mod.rs: the directory of a run and its number. A
-- text is the list of its bytes, and `none` stands for a panic.
use Prim.Native.Nat.{max}
use llm_benchmark.Common.{
  ℕ, zero, suc, ◌+◌, ◌-◌, ◌*◌, ◌%◌, ◌^◌, Bool, true, false, List, [], ◌∷◌, ◌++◌, Option, none, some,
  if◌then◌else◌, ltb, leb, ◌==◌, ◌&&◌, length,
}
use llm_benchmark.Ordering.{chars_leb, sort_by}
use llm_benchmark.Reasoning.Patterns.{Chars, starts_with, chars_eq}

-- What `read_dir` yields for one entry.
pub record DirEntry : Type 0 where
  pub name : Chars
  pub is_dir : Bool

-- The rest of a text starts at a character: its first byte does not continue one.
unfoldable pub is_boundary : Chars → Bool
is_boundary [] = true
is_boundary (b ∷ s) = if leb 128 b && ltb b 192 then false else true

-- `&name[n..]`.
unfoldable pub slice_from : ℕ → Chars → Option Chars
unfolding is_boundary
slice_from zero s = if is_boundary s then some s else none
slice_from (suc n) [] = none
slice_from (suc n) (b ∷ s) = slice_from n s

-- The digits of a `usize`, after those that give `acc`.
unfoldable pub parse_digits : ℕ → Chars → Option ℕ
parse_digits acc [] = some acc
parse_digits acc (b ∷ s) =
    let rest = parse_digits (acc * 10 + (b - 48)) s in
    if leb 48 b && leb b 57 && ltb (acc * 10 + (b - 48)) (2 ^ 64) then rest else none

-- `parse::<usize>`.
unfoldable pub parse_usize : Chars → Option ℕ
unfolding parse_digits
parse_usize [] = none
parse_usize (b ∷ []) = parse_digits 0 (b ∷ [])
parse_usize (b ∷ c ∷ s) = if b == 43 then parse_digits 0 (c ∷ s) else parse_digits 0 (b ∷ c ∷ s)

-- `-r`.
abbrev pub run_mark : Chars
run_mark = 45 ∷ 114 ∷ []

abbrev or_more : ℕ → Option ℕ → Option ℕ
or_more best none = some best
or_more best (some n) = some (max best n)

-- One round of the loop over the entries.
unfoldable pub see_entry : Chars → ℕ → DirEntry → Option ℕ
unfolding chars_eq starts_with slice_from parse_usize
see_entry subdir_base best e =
    if e.is_dir
    then if chars_eq e.name subdir_base
      then some best
      else if starts_with (subdir_base ++ run_mark) e.name
      then elim (slice_from (length subdir_base + 3) e.name) [
        | some run_part ↦ or_more best (parse_usize run_part)
        | none ↦ none
      ]
      else some best
    else some best

unfoldable pub see_entries : Chars → ℕ → List DirEntry → Option ℕ
unfolding see_entry
see_entries subdir_base best [] = some best
see_entries subdir_base best (e ∷ es) = elim (see_entry subdir_base best e) [
  | some best_now ↦ see_entries subdir_base best_now es
  | none ↦ none
]

-- `get_next_run_number`; a directory that is not there or cannot be read has no entries.
unfoldable pub get_next_run_number : Chars → List DirEntry → Option ℕ
unfolding see_entries
get_next_run_number subdir_base entries = elim (see_entries subdir_base 0 entries) [
  | some best ↦ some ((best + 1) % 2 ^ 64)
  | none ↦ none
]

unfoldable pub sort_languages : List Chars → List Chars
unfolding sort_by chars_leb
sort_languages = sort_by chars_leb

-- `join("-")`.
unfoldable pub join_dashes : List Chars → Chars
join_dashes [] = []
join_dashes (l ∷ []) = l
join_dashes (l ∷ m ∷ ms) = l ++ 45 ∷ join_dashes (m ∷ ms)

abbrev or_default : Chars → Chars → Chars
or_default name [] = name
or_default name (b ∷ s) = b ∷ s

-- The name of the first run.
unfoldable pub subdir_base_of : Chars → Chars → List Chars → Chars
unfolding sort_languages join_dashes
subdir_base_of agent_name model languages =
    or_default (117 ∷ 110 ∷ 107 ∷ 110 ∷ 111 ∷ 119 ∷ 110 ∷ []) agent_name
    ++ 45 ∷ or_default (100 ∷ 101 ∷ 102 ∷ 97 ∷ 117 ∷ 108 ∷ 116 ∷ []) model
    ++ 45 ∷ join_dashes (sort_languages languages)

module _ (decimal : ℕ → Chars) where
  -- The name of the run of that number.
  unfoldable pub subdir_of : Chars → Option ℕ → Option Chars
  subdir_of base none = none
  subdir_of base (some n) = some (if ltb 1 n then base ++ run_mark ++ decimal n else base)

  -- `get_results_dir`, within the results directory that has these entries.
  unfoldable pub get_results_dir : List DirEntry → Chars → Chars → List Chars → Option Chars
  unfolding subdir_base_of get_next_run_number subdir_of
  get_results_dir entries agent_name model languages =
      subdir_of (subdir_base_of agent_name model languages)
        (get_next_run_number (subdir_base_of agent_name model languages) entries)
