-- ===== src/Manager/Tokens.antt =====
-- Cancellation in benchmark-web/src/services/session_manager.rs: the tokens that are registered, and
-- what `cancel_session` does to them.
use llm_benchmark.Common.{
  ℕ, ◌<◌, true, false, String, ◌≡◌, ◌≢◌, refl, sym, ap, ◌∙◌, inl, inr, [], ◌∷◌, some, arith, str_eq,
  eq_iff, str_eq_self, str-cases, Option-cases, length, length-append,
}
use llm_benchmark.Status.{RunStatus, is_active}
use llm_benchmark.Queue.Entries.{get_entry, insert_entry, get_entry-insert_entry}
use llm_benchmark.Session.Heaps.{
  is_cancelled, cancel_token, new_token, get_flag-set_self, get_flag-set_ne,
}
use llm_benchmark.Session.{
  BenchmarkSession, Request, new_session, cancel, emit_output, with_category,
}
use llm_benchmark.Manager.{
  SessionManager, new_manager, create_session, get_session, get_cancellation_token, cancel_session,
  cancel_found, fire,
}

-- Every session has a token, every token a flag, and no two sessions share one.
pub record HasTokens (m : SessionManager) : Type 0 where
  pub registered :
      (k : String) (s : BenchmarkSession)
      → get_entry k m.sessions ≡ some s
      → (t : ℕ) × (get_entry k m.tokens ≡ some t)
  pub allocated : (k : String) (t : ℕ) → get_entry k m.tokens ≡ some t → t < length m.heap.flags
  pub separate :
      (j k : String) (t : ℕ)
      → get_entry j m.tokens ≡ some t
      → get_entry k m.tokens ≡ some t
      → str_eq j k ≡ true

pub new_manager-HasTokens : HasTokens new_manager
unfolding new_manager get_entry
new_manager-HasTokens = record {
  registered = λ k s e. cc;
  allocated = λ k t e. cc;
  separate = λ j k t e f. cc;
}

-- A new session takes the next flag; it may even take the id of an older session.
pub create_session-HasTokens :
    (uuid : String) (r : Request) (m : SessionManager)
    → HasTokens m
    → HasTokens (create_session uuid r m).1
unfolding create_session new_session with_category new_token
create_session-HasTokens uuid r m v = record {
  registered = λ k s e. elim (str-cases uuid k) [
    | inl (_, t) ↦ (
      length m.heap.flags,
      get_entry-insert_entry uuid k (length m.heap.flags) m.tokens ∙ rw t refl,
    )
    | inr (_, t) ↦
        let (old, f) =
          v.registered k s (sym (get_entry-insert_entry uuid k _ m.sessions ∙ rw t refl) ∙ e) in
        (old, get_entry-insert_entry uuid k (length m.heap.flags) m.tokens ∙ rw t f)
  ];
  allocated = λ k t e. ground (
    arith,
    get_entry-insert_entry uuid k (length m.heap.flags) m.tokens,
    v.allocated k t,
    length-append m.heap.flags (false ∷ []),
  );
  separate = λ j k t e f. ground (
    arith,
    get_entry-insert_entry uuid k (length m.heap.flags) m.tokens,
    get_entry-insert_entry uuid j (length m.heap.flags) m.tokens,
    v.allocated k t,
    v.allocated j t,
    v.separate j k t,
    eq_iff uuid j,
    eq_iff uuid k,
    eq_iff j k,
  );
}

-- A call of `cancel_session` on a session that is not active, or that is not there.
pub cancel_session-refused :
    (now : ℕ) (k : String) (m : SessionManager)
    → ((s : BenchmarkSession) → get_entry k m.sessions ≡ some s → is_active s.status ≡ false)
    → cancel_session now k m ≡ (false, m)
unfolding cancel_session cancel_found
cancel_session-refused now k m h = elim (Option-cases (get_entry k m.sessions)) [
  | inl e ↦ rw (e, cancel_found) refl
  | inr (s, e) ↦ rw (e, cancel_found) (rw (h s e) refl)
]

module _ (now : ℕ) (k : String) (m : SessionManager) (s : BenchmarkSession) (token : ℕ)
    (found : get_entry k m.sessions ≡ some s) (active : is_active s.status ≡ true)
    (known : get_entry k m.tokens ≡ some token) where
  pub cancel_session-accepted : cancel_session now k m ≡ (
    true,
    record m {
      sessions = insert_entry k (cancel now s m.heap).0 m.sessions;
      heap = cancel_token token (cancel now s m.heap).1;
    },
  )
  unfolding cancel_session cancel_found fire
  cancel_session-accepted = rw (found, cancel_found, active, known, fire) refl

-- What a cancellation does: `r` is the state after it.
pub record Cancelled (k : String) (token : ℕ) (m r : SessionManager) : Type 0 where
  pub session : BenchmarkSession
  pub shown : get_session k r ≡ some session
  pub marked : session.status ≡ RunStatus.cancelled
  pub fired : is_cancelled token r.heap ≡ true
  pub others : (j : String) → str_eq k j ≡ false → get_session j r ≡ get_session j m
  pub other_flags : (t : ℕ) → token ≢ t → is_cancelled t r.heap ≡ is_cancelled t m.heap
  pub same_tokens : r.tokens ≡ m.tokens

-- Cancelling an active session succeeds, marks it CANCELLED, and fires its token, so that whoever
-- holds a clone of the token sees it; no other session and no other token changes.
pub cancel_session_fires :
    (now : ℕ) (k : String) (m : SessionManager) (s : BenchmarkSession) (token : ℕ)
    → HasTokens m
    → get_session k m ≡ some s
    → is_active s.status ≡ true
    → get_cancellation_token k m ≡ some token
    → ((cancel_session now k m).0 ≡ true) × Cancelled k token m (cancel_session now k m).1
unfolding get_session get_cancellation_token is_cancelled cancel_token cancel emit_output
cancel_session_fires now k m s token v found active known =
    let accepted = cancel_session-accepted now k m s token found active known in
    (
      ap (λ r. r.0) accepted,
      record {
        session = (cancel now s m.heap).0;
        shown = rw accepted (
            get_entry-insert_entry k k (cancel now s m.heap).0 m.sessions
            ∙ rw (str_eq_self k) refl);
        marked = refl;
        fired = rw accepted (get_flag-set_self m.heap.flags token (v.allocated k token known));
        others = λ j h.
            rw accepted (get_entry-insert_entry k j (cancel now s m.heap).0 m.sessions ∙ rw h refl);
        other_flags = λ t h. rw accepted (get_flag-set_ne m.heap.flags token t h);
        same_tokens = rw accepted refl;
      },
    )
