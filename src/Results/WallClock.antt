-- ===== src/Results/WallClock.antt =====
-- The wall-clock time of `get_statistics` in benchmark-web/src/services/result_service/statistics.rs.
use llm_benchmark.Common.{
  ℕ, ◌≤◌, Bool, true, false, String, List, [], ◌∷◌, ◌++◌, Option, none, some, if◌then◌else◌, ◌≡◌,
  refl, ap, ◌∙◌, ◌&&◌, leb, str_eq, All, All-append, any, arith, Bool-cases, Option-cases, inl, inr,
}
use llm_benchmark.Text.{is_empty}
use llm_benchmark.QuickBench.{get_exercises_for_language}
use llm_benchmark.Stats.{TimeInterval, merge_intervals_and_total_duration}
use llm_benchmark.Stats.Measure.{count, count-ext, covered, contains_time}
use llm_benchmark.Stats.Merging.{AreProper, merge_intervals-count}
use llm_benchmark.Results.{
  CachedResult, Filters, matches, matches_filter, passes_quick, is_quick_bench_exercise,
  interval_of, passes_wall, wall_intervals, get_statistics,
}

-- The result ran at the time, as far as its two timestamps say.
abbrev pub ran_at : (String → Option ℕ) → ℕ → CachedResult → Bool
ran_at parse t r = covered (interval_of parse r) t

-- No result ends after the bound.
abbrev pub EndBy : (String → Option ℕ) → ℕ → List CachedResult → Type 0
EndBy parse n rs = All (λ r. All (λ i. i.end ≤ n) (interval_of parse r)) rs

covered-append :
    (t : ℕ) (is js : List TimeInterval)
    → covered (is ++ js) t ≡ (if covered is t then true else covered js t)
covered-append t [] js = refl
covered-append t (i ∷ is) js = elim (Bool-cases (contains_time t i)) [
  | inl e ↦ rw e refl
  | inr e ↦ rw e (covered-append t is js)
]

-- The text that a filter asks for.
abbrev agrees : Option String → String → Bool
agrees none text = true
agrees (some wanted) text = if is_empty wanted then true else str_eq text wanted

-- What the filters ask for, whatever the category.
abbrev pub asked_for : Filters → CachedResult → Bool
asked_for f r =
    agrees f.by_language r.language
    && agrees f.by_agent r.agent
    && agrees f.by_model r.model
    && agrees f.by_exercise r.exercise
    && (if f.quick_only
        then any (λ e. str_eq e r.exercise) (get_exercises_for_language r.language)
        else true)

matches-agrees : (o : Option String) (text : String) → matches text o ≡ agrees o text
unfolding matches
matches-agrees none text = refl
matches-agrees (some wanted) text = ground arith

passes_quick-asked :
    (quick : Bool) (r : CachedResult)
    → passes_quick quick r ≡ (
        if quick
        then any (λ e. str_eq e r.exercise) (get_exercises_for_language r.language)
        else true)
unfolding passes_quick is_quick_bench_exercise
passes_quick-asked true r = refl
passes_quick-asked false r = refl

passes_wall-asked_for : (f : Filters) (r : CachedResult) → passes_wall f r ≡ asked_for f r
unfolding passes_wall matches_filter
passes_wall-asked_for f r =
    rw
      (
        ← matches-agrees f.by_language r.language,
        ← matches-agrees f.by_agent r.agent,
        ← matches-agrees f.by_model r.model,
        ← matches-agrees f.by_exercise r.exercise,
        ← passes_quick-asked f.quick_only r,
      )
      refl

wall_intervals-same :
    (parse : String → Option ℕ) (f g : Filters)
    → ((r : CachedResult) → passes_wall f r ≡ passes_wall g r)
    → (rs : List CachedResult) → wall_intervals parse f rs ≡ wall_intervals parse g rs
unfolding wall_intervals
wall_intervals-same parse f g same [] = refl
wall_intervals-same parse f g same (r ∷ rs) =
    rw (wall_intervals, same r, wall_intervals-same parse f g same rs) refl

module _ (parse : String → Option ℕ) where
  interval_of-AreProper :
      (n : ℕ) (r : CachedResult)
      → All (λ i. i.end ≤ n) (interval_of parse r)
      → AreProper n (interval_of parse r)
  unfolding interval_of
  interval_of-AreProper n r h = elim (Option-cases (parse r.start_time)) [
    | inl e ↦ rw (interval_of, e) tt
    | inr (s, e) ↦ elim (Option-cases (parse r.end_time)) [
      | inl d ↦ rw (interval_of, e, d) tt
      | inr (u, d) ↦ elim (Bool-cases (leb s u)) [
        | inl b ↦
            rw (interval_of, e, d, b) ((ground (arith, b), (rw (interval_of, e, d, b) at h).0), tt)
        | inr b ↦ rw (interval_of, e, d, b) tt
      ]
    ]
  ]

  module _ (f : Filters) where
    wall_intervals-AreProper :
        (n : ℕ) (rs : List CachedResult)
        → EndBy parse n rs
        → AreProper n (wall_intervals parse f rs)
    unfolding wall_intervals
    wall_intervals-AreProper n [] h = tt
    wall_intervals-AreProper n (r ∷ rs) h = elim (Bool-cases (passes_wall f r)) [
      | inl e ↦ rw e (
          All-append (λ i. (i.start ≤ i.end) × (i.end ≤ n)) (interval_of parse r)
            (wall_intervals parse f rs) (interval_of-AreProper n r h.0)
            (wall_intervals-AreProper n rs h.1))
      | inr e ↦ rw e (wall_intervals-AreProper n rs h.1)
    ]

    wall_intervals-covered :
        (t : ℕ) (rs : List CachedResult)
        → covered (wall_intervals parse f rs) t ≡ any (λ r. passes_wall f r && ran_at parse t r) rs
    unfolding wall_intervals
    wall_intervals-covered t [] = refl
    wall_intervals-covered t (r ∷ rs) = elim (Bool-cases (passes_wall f r)) [
      | inl e ↦
          rw (wall_intervals, e)
            (covered-append t (interval_of parse r) (wall_intervals parse f rs)
              ∙ ap (λ c. if covered (interval_of parse r) t then true else c)
                  (wall_intervals-covered t rs))
      | inr e ↦ rw (wall_intervals, e) (wall_intervals-covered t rs)
    ]

    any-asked_for :
        (t : ℕ) (rs : List CachedResult)
        → any (λ r. passes_wall f r && ran_at parse t r) rs
          ≡ any (λ r. asked_for f r && ran_at parse t r) rs
    any-asked_for t [] = refl
    any-asked_for t (r ∷ rs) = rw (passes_wall-asked_for f r, any-asked_for t rs) refl

    passes_wall-category :
        (category : Option String) (r : CachedResult)
        → passes_wall (record f { by_category = category }) r ≡ passes_wall f r
    unfolding passes_wall matches_filter
    passes_wall-category category r = refl

    -- The wall-clock time of all is the number of milliseconds at which at least one of the results
    -- ran that are asked for by language, agent, model, exercise and quick benchmark; with another
    -- filter by category, which all other numbers heed, it is the same.
    pub statistics_wall_clock :
        (n : ℕ) (rs : List CachedResult) (category : Option String)
        → EndBy parse n rs
        → ((get_statistics parse f rs).wall_clock_ms
            ≡ count (λ t. any (λ r. asked_for f r && ran_at parse t r) rs) n)
          × ((get_statistics parse (record f { by_category = category }) rs).wall_clock_ms
              ≡ (get_statistics parse f rs).wall_clock_ms)
    unfolding get_statistics
    statistics_wall_clock n rs category h = (
      merge_intervals-count n (wall_intervals parse f rs) (wall_intervals-AreProper n rs h)
          ∙ count-ext (covered (wall_intervals parse f rs))
              (λ t. any (λ r. asked_for f r && ran_at parse t r) rs)
              (λ t. wall_intervals-covered t rs ∙ any-asked_for t rs) n,
      ap merge_intervals_and_total_duration (
          wall_intervals-same parse (record f { by_category = category }) f
            (λ r. passes_wall-category category r) rs),
    )
