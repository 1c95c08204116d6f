-- ===== src/Processor/Clearing.antt =====
-- `clear_all` of benchmark-web/src/services/queue_processor.rs: it cancels every active session.
use llm_benchmark.Common.{
  ℕ, Bool, true, false, String, ◌≡◌, refl, sym, ap, ◌∙◌, inl, inr, ◌⊎◌, List, [], ◌∷◌, none, some,
  any, str_eq, str-cases, Bool-cases, Option-cases, length, subst, eq_iff, any-append_right,
}
use llm_benchmark.Status.{RunStatus, is_active}
use llm_benchmark.Queue.{InnerQueue, empty, clear_all as clear_all_items}
use llm_benchmark.Queue.Entries.{get_entry}
use llm_benchmark.Session.{BenchmarkSession}
use llm_benchmark.Session.Heaps.{is_cancelled}
use llm_benchmark.Manager.{
  SessionManager, get_session, get_cancellation_token, cancel_session, get_active_sessions,
  active_of,
}
use llm_benchmark.Manager.Tokens.{HasTokens, cancel_session_fires, cancel_session-refused}
use llm_benchmark.Manager.Registered.{cancel_session-HasTokens}
use llm_benchmark.Processor.{cancel_each, clear_all}

-- The session at the id is CANCELLED, and its token is fired.
pub record Shut (k : String) (token : ℕ) (m : SessionManager) : Type 0 where
  pub session : BenchmarkSession
  pub found : get_session k m ≡ some session
  pub marked : session.status ≡ RunStatus.cancelled
  pub fired : is_cancelled token m.heap ≡ true

false-true : false ≡ true → ⊥
false-true e = cc

some_session : {s t : BenchmarkSession} → some s ≡ some t → s ≡ t
some_session e = cc

-- Whether the call of one id changes something.
refused-or-fires :
    (now : ℕ) (j : String) (m : SessionManager)
    → HasTokens m
    → (cancel_session now j m ≡ (false, m))
      ⊎ ((s : BenchmarkSession) × (t : ℕ) × (get_session j m ≡ some s)
          × (is_active s.status ≡ true)
          × (get_cancellation_token j m ≡ some t))
unfolding get_session get_cancellation_token
refused-or-fires now j m v = elim (Option-cases (get_session j m)) [
  | inl e ↦ inl (cancel_session-refused now j m (λ s f. absurd (none_some (sym e ∙ f))))
  | inr (s, e) ↦ elim (Bool-cases (is_active s.status)) [
    | inl active ↦ let (t, known) = v.registered j s e in inr (s, t, e, active, known)
    | inr idle ↦ inl (
        cancel_session-refused now j m
          (λ x f. ap (λ y. is_active y.status) (some_session (sym f ∙ e)) ∙ idle))
  ]
]
  where
    none_some : {s : BenchmarkSession} → none ≡ some s → ⊥
    none_some e = cc

module _ (now : ℕ) (k : String) (token : ℕ) where
  -- A session that is shut stays so.
  cancel_session-Shut :
      (j : String) (m : SessionManager)
      → HasTokens m
      → get_cancellation_token k m ≡ some token
      → Shut k token m
      → Shut k token (cancel_session now j m).1
  unfolding get_cancellation_token
  cancel_session-Shut j m v known shut = elim (refused-or-fires now j m v) [
    | inl same ↦ rw same shut
    | inr (s, t, found, active, owned) ↦
        let (_, c) = cancel_session_fires now j m s t v found active owned in
        elim (str-cases j k) [
          | inl (same, _) ↦ absurd (
              false-true (
                ap is_active (sym shut.marked)
                ∙ ap (λ x. is_active x.status)
                    (some_session (sym shut.found ∙ ap (λ i. get_session i m) (sym same) ∙ found))
                ∙ active))
          | inr (_, differ) ↦ record {
            session = shut.session;
            found = c.others k differ ∙ shut.found;
            marked = shut.marked;
            fired =
                c.other_flags token (λ e. false-true (
                  sym differ
                  ∙ v.separate j k token (subst (λ i. get_entry j m.tokens ≡ some i) e owned)
                      known))
                ∙ shut.fired;
          }
        ]
  ]

  -- Another id leaves the session and the tokens as they are.
  cancel_session-other :
      (j : String) (m : SessionManager)
      → HasTokens m
      → str_eq j k ≡ false
      → get_session k (cancel_session now j m).1 ≡ get_session k m
  cancel_session-other j m v differ = elim (refused-or-fires now j m v) [
    | inl same ↦ rw same refl
    | inr (s, t, found, active, owned) ↦
        (cancel_session_fires now j m s t v found active owned).1.others k differ
  ]

  cancel_session-tokens :
      (j : String) (m : SessionManager) → HasTokens m → (cancel_session now j m).1.tokens ≡ m.tokens
  cancel_session-tokens j m v = elim (refused-or-fires now j m v) [
    | inl same ↦ rw same refl
    | inr (s, t, found, active, owned) ↦
        (cancel_session_fires now j m s t v found active owned).1.same_tokens
  ]

  abbrev names : BenchmarkSession → Bool
  names s = str_eq s.id k

  cancel_each-Shut :
      (ss : List BenchmarkSession) (m : SessionManager) (s : BenchmarkSession)
      → HasTokens m
      → get_cancellation_token k m ≡ some token
      → Shut k token m
        ⊎ ((get_session k m ≡ some s) × (is_active s.status ≡ true) × (any names ss ≡ true))
      → Shut k token (cancel_each now ss m)
  unfolding cancel_each get_cancellation_token
  cancel_each-Shut [] m s v known (inl shut) = shut
  cancel_each-Shut [] m s v known (inr (_, _, none_left)) = absurd (false-true none_left)
  cancel_each-Shut (x ∷ xs) m s v known h =
      let m' = (cancel_session now x.id m).1 in
      let v' = cancel_session-HasTokens now x.id m v in
      let known' = ap (get_entry k) (cancel_session-tokens x.id m v) ∙ known in
      cancel_each-Shut xs m' s v' known' (elim h [
        | inl shut ↦ inl (cancel_session-Shut x.id m v known shut)
        | inr (found, active, listed) ↦ elim (str-cases x.id k) [
          | inl (same, _) ↦
              let (_, c) = cancel_session_fires now k m s token v found active known in
              inl (
                subst (λ i. Shut k token (cancel_session now i m).1) (sym same)
                  (record {
                    session = c.session;
                    found = c.shown;
                    marked = c.marked;
                    fired = c.fired;
                  }))
          | inr (_, differ) ↦
              inr (cancel_session-other x.id m v differ ∙ found, active, rw differ at listed)
        ]
      ])

active_of-lists :
    (k : String) (entries : List (String × BenchmarkSession)) (s : BenchmarkSession)
    → get_entry k entries ≡ some s
    → is_active s.status ≡ true
    → s.id ≡ k
    → any (λ x. str_eq x.id k) (active_of entries) ≡ true
unfolding get_entry active_of
active_of-lists k [] s e active own = cc
active_of-lists k ((j, w) ∷ rest) s e active own = elim (Bool-cases (str_eq j k)) [
  | inl t ↦
      let same : s ≡ w = some_session (sym (rw t at e)) in
      let active' : is_active w.status ≡ true = ap (λ x. is_active x.status) (sym same) ∙ active in
      let own' : str_eq w.id k ≡ true = (eq_iff w.id k).1 (ap (λ x. x.id) (sym same) ∙ own) in
      rw active' (rw own' refl)
  | inr t ↦
      let later = active_of-lists k rest s (rw t at e) active own in
      elim (Bool-cases (is_active w.status)) [
        | inl a ↦ rw a (any-append_right (λ x. str_eq x.id k) (w ∷ []) (active_of rest) later)
        | inr i ↦ rw i later
      ]
]

-- Clearing everything cancels every session that is registered under its id and active: it is
-- CANCELLED afterwards and its token is fired. The queue is empty, and the result is the number of
-- entries that it had.
pub clear_all_cancels :
    (now : ℕ) (q : InnerQueue) (m : SessionManager) (s : BenchmarkSession) (token : ℕ)
    → HasTokens m
    → get_session s.id m ≡ some s
    → is_active s.status ≡ true
    → get_cancellation_token s.id m ≡ some token
    → ((clear_all now q m).0 ≡ length q.all_items)
      × ((clear_all now q m).1 ≡ empty)
      × Shut s.id token (clear_all now q m).2
unfolding clear_all clear_all_items get_active_sessions get_session
clear_all_cancels now q m s token v found active known = (
  refl,
  refl,
  cancel_each-Shut now s.id token (get_active_sessions m) m s v known
      (inr (found, active, active_of-lists s.id m.sessions s found active refl)),
)
