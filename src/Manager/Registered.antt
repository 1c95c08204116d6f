-- ===== src/Manager/Registered.antt =====
-- The sessions of benchmark-web/src/services/session_manager.rs that have a token or are about to get
-- it, and what each call does to that.
use llm_benchmark.Common.{
  ℕ, true, String, ◌≡◌, refl, sym, ◌∙◌, inl, inr, List, [], ◌∷◌, some, arith, str_eq_self,
  str-cases, Bool-cases, Option-cases, length-set, ◌<◌, ◌⊎◌, any, ◌||◌, str_eq, subst, not_both,
  length, length-append, false, eq_iff,
}
use llm_benchmark.Status.{is_active}
use llm_benchmark.Queue.Entries.{get_entry, insert_entry, get_entry-insert_entry}
use llm_benchmark.Session.Heaps.{Heap, cancel_token, new_token}
use llm_benchmark.Session.{
  BenchmarkSession, Request, new_session, with_category, cancel, force_complete, emit_output,
}
use llm_benchmark.Manager.{
  SessionManager, cancel_session, cancel_found, update_session, update_found, shutdown, force_all,
  insert_session, insert_token, fire,
}
use llm_benchmark.Manager.Tokens.{HasTokens, cancel_session-accepted}

pub force_all-flags :
    (now : ℕ) (ss : List (String × BenchmarkSession)) (h : Heap)
    → (force_all now ss h).flags ≡ h.flags
unfolding force_all force_complete cancel emit_output
force_all-flags now [] h = refl
force_all-flags now ((k, s) ∷ ss) h =
    ground (arith, force_all-flags now ss (force_complete now s h).1, force_all-flags now ss h)

-- One of the ids, and the others.
pub data Leaves : List String → String → List String → Type 0 where
  first : {x : String} {xs : List String} → Leaves (x ∷ xs) x xs
  later : {x y : String} {xs ys : List String} → Leaves xs x ys → Leaves (y ∷ xs) x (y ∷ ys)

pub any-Leaves :
    (k : String) {xs ys : List String} {x : String}
    → Leaves xs x ys
    → any (str_eq k) xs ≡ (str_eq k x || any (str_eq k) ys)
any-Leaves k {xs = x ∷ xs} first = ground arith
any-Leaves k (later {y = y} l) = ground (arith, any-Leaves k l)

-- The registry, and the ids of the calls of `create_session` that have stored their session and not
-- yet its token.
pub record Calls : Type 0 where
  pub manager : SessionManager
  pub creating : List String

-- A session has a token, or its creation is under way.
abbrev pub IsKnown : Calls → String → Type 0
IsKnown c k =
    ((t : ℕ) × (get_entry k c.manager.tokens ≡ some t)) ⊎ (any (str_eq k) c.creating ≡ true)

pub record IsRegistered (c : Calls) : Type 0 where
  pub registered :
      (k : String) (s : BenchmarkSession) → get_entry k c.manager.sessions ≡ some s → IsKnown c k
  pub allocated :
      (k : String) (t : ℕ) → get_entry k c.manager.tokens ≡ some t → t < length c.manager.heap.flags
  pub separate :
      (j k : String) (t : ℕ)
      → get_entry j c.manager.tokens ≡ some t
      → get_entry k c.manager.tokens ≡ some t
      → str_eq j k ≡ true

-- While no creation is under way, each session has a token.
pub IsRegistered-HasTokens :
    (m : SessionManager) → IsRegistered (record { manager = m; creating = [] }) → HasTokens m
IsRegistered-HasTokens m v = record {
  registered = λ k s e. elim (v.registered k s e) [
    | inl token ↦ token
    | inr none_under_way ↦ absurd (not_both refl none_under_way)
  ];
  allocated = v.allocated;
  separate = v.separate;
}

pub HasTokens-IsRegistered :
    (m : SessionManager) → HasTokens m → IsRegistered (record { manager = m; creating = [] })
HasTokens-IsRegistered m v = record {
  registered = λ k s e. inl (v.registered k s e);
  allocated = v.allocated;
  separate = v.separate;
}

-- Storing a session under an id of which something holds.
after-insert {ℓ} :
    (P : String → Type ℓ) (k : String) (s : BenchmarkSession)
    (ss : List (String × BenchmarkSession))
    → P k
    → ((j : String) (x : BenchmarkSession) → get_entry j ss ≡ some x → P j)
    → (j : String) (x : BenchmarkSession) → get_entry j (insert_entry k s ss) ≡ some x
    → P j
after-insert P k s ss at_k h j x e = elim (str-cases k j) [
  | inl (same, _) ↦ subst P same at_k
  | inr (_, t) ↦ h j x (sym (get_entry-insert_entry k j s ss ∙ rw t refl) ∙ e)
]

module _ (creating : List String) where
  abbrev with_calls : SessionManager → Calls
  with_calls m = record { manager = m; creating = creating }

  pub cancel_session-IsRegistered :
      (now : ℕ) (k : String) (m : SessionManager)
      → IsRegistered (with_calls m)
      → IsRegistered (with_calls (cancel_session now k m).1)
  unfolding cancel_session cancel_found fire cancel_token cancel emit_output
  cancel_session-IsRegistered now k m v = elim (Option-cases (get_entry k m.sessions)) [
    | inl e ↦ rw (e, cancel_found) v
    | inr (s, e) ↦ elim (Bool-cases (is_active s.status)) [
      | inr idle ↦ rw (e, cancel_found, idle) v
      | inl active ↦ elim (Option-cases (get_entry k m.tokens)) [
        | inl gone ↦
            rw (e, cancel_found, active, gone, fire)
              (record {
                registered =
                    after-insert (IsKnown (with_calls m)) k _ m.sessions (v.registered k s e)
                      v.registered;
                allocated = v.allocated;
                separate = v.separate;
              })
        | inr (token, known) ↦ rw (cancel_session-accepted now k m s token e active known) (record {
          registered =
              after-insert (IsKnown (with_calls m)) k _ m.sessions (v.registered k s e)
                v.registered;
          allocated = λ j t f. omega (arith, v.allocated j t f, length-set m.heap.flags token true);
          separate = v.separate;
        })
      ]
    ]
  ]

  pub update_session-IsRegistered :
      (s : BenchmarkSession) (m : SessionManager)
      → IsRegistered (with_calls m)
      → IsRegistered (with_calls (update_session s m))
  unfolding update_session update_found
  update_session-IsRegistered s m v = elim (Option-cases (get_entry s.id m.sessions)) [
    | inl e ↦ rw (e, update_found) v
    | inr (old, e) ↦
        rw (e, update_found)
          (record {
            registered =
                after-insert (IsKnown (with_calls m)) s.id s m.sessions (v.registered s.id old e)
                  v.registered;
            allocated = v.allocated;
            separate = v.separate;
          })
  ]

  pub shutdown-IsRegistered :
      (now : ℕ) (m : SessionManager)
      → IsRegistered (with_calls m)
      → IsRegistered (with_calls (shutdown now m))
  unfolding shutdown get_entry
  shutdown-IsRegistered now m v = record {
    registered = λ k s e. cc;
    allocated = λ k t e. rw (force_all-flags now m.sessions m.heap) (v.allocated k t e);
    separate = v.separate;
  }

pub cancel_session-HasTokens :
    (now : ℕ) (k : String) (m : SessionManager) → HasTokens m → HasTokens (cancel_session now k m).1
cancel_session-HasTokens now k m v =
    IsRegistered-HasTokens (cancel_session now k m).1
      (cancel_session-IsRegistered [] now k m (HasTokens-IsRegistered m v))

pub insert_session-IsRegistered :
    (uuid : String) (r : Request) (c : Calls)
    → IsRegistered c
    → IsRegistered
        (record { manager = (insert_session uuid r c.manager).1; creating = uuid ∷ c.creating })
unfolding new_session with_category
insert_session-IsRegistered uuid r c v = record {
  registered =
      after-insert (IsKnown (record { manager = c.manager; creating = uuid ∷ c.creating })) uuid _
        c.manager.sessions (inr (rw (str_eq_self uuid) refl))
        (λ k s e. elim (v.registered k s e) [
          | inl token ↦ inl token
          | inr under_way ↦ inr (ground (arith, under_way))
        ]);
  allocated = v.allocated;
  separate = v.separate;
}

pub insert_token-IsRegistered :
    (k : String) (others : List String) (c : Calls)
    → Leaves c.creating k others
    → IsRegistered c
    → IsRegistered (record { manager = insert_token k c.manager; creating = others })
unfolding new_token
insert_token-IsRegistered k others c l v = record {
  registered = λ j s e. elim (str-cases k j) [
    | inl (_, t) ↦ inl (
      length c.manager.heap.flags,
      get_entry-insert_entry k j (length c.manager.heap.flags) c.manager.tokens ∙ rw t refl,
    )
    | inr (_, t) ↦ elim (v.registered j s e) [
      | inl (old, f) ↦
          inl (
            old,
            get_entry-insert_entry k j (length c.manager.heap.flags) c.manager.tokens ∙ rw t f,
          )
      | inr under_way ↦ inr (ground (arith, under_way, t, any-Leaves j l, eq_iff j k, eq_iff k j))
    ]
  ];
  allocated = λ j t e. ground (
    arith,
    get_entry-insert_entry k j (length c.manager.heap.flags) c.manager.tokens,
    v.allocated j t,
    length-append c.manager.heap.flags (false ∷ []),
  );
  separate = λ i j t e f. ground (
    arith,
    get_entry-insert_entry k j (length c.manager.heap.flags) c.manager.tokens,
    get_entry-insert_entry k i (length c.manager.heap.flags) c.manager.tokens,
    v.allocated j t,
    v.allocated i t,
    v.separate i j t,
    eq_iff k i,
    eq_iff k j,
    eq_iff i j,
  );
}
