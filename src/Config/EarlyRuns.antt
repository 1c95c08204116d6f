-- ===== src/Config/EarlyRuns.antt =====
-- The run numbers of `OutputConfig`, crates/benchmark-types/src/config/mod.rs, that are read from names.
use llm_benchmark.Common.{
  ℕ, suc, ◌+◌, false, List, [], ◌∷◌, ◌++◌, some, length, ◌≡◌, refl, ◌⊎◌, inl, inr, All, arith,
}
use llm_benchmark.Reasoning.Patterns.{Chars, starts_with}
use llm_benchmark.Reasoning.Greedy.{chars_eq_self}
use llm_benchmark.Config.RunDirs.{
  DirEntry, slice_from, is_boundary, run_mark, see_entry, see_entries, get_next_run_number,
  get_results_dir, subdir_base_of, subdir_of, parse_usize,
}

-- An entry that is no directory, or one whose name is the base, or the base with a run number of one
-- digit, or does not start with the base and `-r`.
abbrev pub IsEarlyRun : Chars → DirEntry → Type 0
IsEarlyRun base e =
    ((e.is_dir ≡ false) ⊎ (e.name ≡ base))
    ⊎ (((d : ℕ) × (e.name ≡ base ++ run_mark ++ d ∷ []))
        ⊎ (starts_with (base ++ run_mark) e.name ≡ false))

suc_add_three : (n : ℕ) → suc n + 3 ≡ suc (n + 3)
suc_add_three n = omega arith

slice_from_end : (s : Chars) (d : ℕ) → slice_from (length s + 3) (s ++ run_mark ++ d ∷ []) ≡ some []
unfolding slice_from is_boundary
slice_from_end [] d = refl
slice_from_end (b ∷ s) d = rw (suc_add_three (length s)) (slice_from_end s d)

module _ (base : Chars) (best : ℕ) where
  -- A directory that does not start with the base and `-r` changes nothing.
  see_entry_other :
      (e : DirEntry)
      → starts_with (base ++ run_mark) e.name ≡ false
      → see_entry base best e ≡ some best
  unfolding see_entry
  see_entry_other e other = ground (arith, other)

  -- Nor does one for which the rest of the name is empty.
  see_entry_empty :
      (e : DirEntry)
      → slice_from (length base + 3) e.name ≡ some []
      → see_entry base best e ≡ some best
  unfolding see_entry parse_usize
  see_entry_empty e at_end = simp at_end (ground arith)

  see_entry_early : (e : DirEntry) → IsEarlyRun base e → see_entry base best e ≡ some best
  unfolding see_entry
  see_entry_early e (inl (inl file)) = ground (arith, file)
  see_entry_early e (inl (inr same)) = rw same (rw (chars_eq_self base) (ground arith))
  see_entry_early e (inr (inl (d, named))) = see_entry_empty e (rw named (slice_from_end base d))
  see_entry_early e (inr (inr other)) = see_entry_other e other

module _ (base : Chars) where
  see_entries_early :
      (es : List DirEntry) → All (IsEarlyRun base) es → see_entries base 0 es ≡ some 0
  unfolding see_entries
  see_entries_early [] early = refl
  see_entries_early (e ∷ es) early =
      rw (see_entries, see_entry_early base 0 e early.0) (see_entries_early es early.1)

  next_run_early :
      (es : List DirEntry) → All (IsEarlyRun base) es → get_next_run_number base es ≡ some 1
  unfolding get_next_run_number
  next_run_early es early = rw (get_next_run_number, see_entries_early es early) refl

module _ (decimal : ℕ → Chars) (agent_name model : Chars) (languages : List Chars) where
  -- Where the earlier runs have numbers of one digit at most, the directory of the next run is that of
  -- the first run, whether it is there or not.
  pub early_runs_overwrite_first :
      (entries : List DirEntry)
      → All (IsEarlyRun (subdir_base_of agent_name model languages)) entries
      → get_results_dir decimal entries agent_name model languages
        ≡ some (subdir_base_of agent_name model languages)
  unfolding get_results_dir subdir_of
  early_runs_overwrite_first entries early =
      rw (next_run_early (subdir_base_of agent_name model languages) entries early) refl
