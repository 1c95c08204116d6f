-- ===== src/Manager/Steps.antt =====
-- Histories of the session registry of benchmark-web/src/services/session_manager.rs, and what its
-- shutdown leaves undone.
use llm_benchmark.Common.{ℕ, String, ◌≡◌, refl, ◌∙◌, List, ◌∷◌, none, some, str_eq_self}
use llm_benchmark.Queue.Entries.{get_entry, get_entry-insert_entry}
use llm_benchmark.Session.Heaps.{is_cancelled}
use llm_benchmark.Session.{BenchmarkSession, Request}
use llm_benchmark.Manager.{
  SessionManager, get_session, get_cancellation_token, cancel_session, update_session, update_found,
  shutdown, insert_session, insert_token,
}
use llm_benchmark.Manager.Registered.{
  Leaves, Calls, IsRegistered, force_all-flags, cancel_session-IsRegistered,
  update_session-IsRegistered, shutdown-IsRegistered, insert_session-IsRegistered,
  insert_token-IsRegistered,
}

-- A step of the calls, at the level of their locks: the two parts of `create_session`, and the other
-- calls, each of which holds the lock of the sessions from its start to its end.
pub data Step (c : Calls) : Calls → Type 0 where
  inserts_session :
      (uuid : String) (r : Request)
      → Step c
          (record { manager = (insert_session uuid r c.manager).1; creating = uuid ∷ c.creating })
  inserts_token :
      (k : String) (others : List String)
      → Leaves c.creating k others
      → Step c (record { manager = insert_token k c.manager; creating = others })
  cancels :
      (now : ℕ) (k : String) → Step c (record c { manager = (cancel_session now k c.manager).1 })
  updates : (s : BenchmarkSession) → Step c (record c { manager = update_session s c.manager })
  shuts_down : (now : ℕ) → Step c (record c { manager = shutdown now c.manager })

pub data Reach (c : Calls) : Calls → Type 0 where
  here : Reach c c
  next : {d e : Calls} → Reach c d → Step d e → Reach c e

Step-IsRegistered : {c d : Calls} → Step c d → IsRegistered c → IsRegistered d
Step-IsRegistered {c = c} (inserts_session uuid r) v = insert_session-IsRegistered uuid r c v
Step-IsRegistered {c = c} (inserts_token k others l) v = insert_token-IsRegistered k others c l v
Step-IsRegistered {c = c} (cancels now k) v =
    cancel_session-IsRegistered c.creating now k c.manager v
Step-IsRegistered {c = c} (updates s) v = update_session-IsRegistered c.creating s c.manager v
Step-IsRegistered {c = c} (shuts_down now) v = shutdown-IsRegistered c.creating now c.manager v

-- However the calls interleave, between the two locks of `create_session` as well, every registered
-- session has a cancellation token, or its `create_session` is between its two locks; each token has a
-- flag, and no two ids share one.
pub Reach-IsRegistered : {c d : Calls} → IsRegistered c → Reach c d → IsRegistered d
Reach-IsRegistered v here = v
Reach-IsRegistered v (next h s) = Step-IsRegistered s (Reach-IsRegistered v h)

-- A shutdown forgets every session and fires no cancellation token: each token reads afterwards what
-- it read before, also that of a session that was running.
pub shutdown_fires_none :
    (now : ℕ) (m : SessionManager) (k : String) (token : ℕ)
    → (get_session k (shutdown now m) ≡ none)
      × (get_cancellation_token k (shutdown now m) ≡ get_cancellation_token k m)
      × (is_cancelled token (shutdown now m).heap ≡ is_cancelled token m.heap)
unfolding shutdown get_session get_cancellation_token get_entry is_cancelled
shutdown_fires_none now m k token = (refl, refl, rw (force_all-flags now m.sessions m.heap) refl)

-- An update of a session that is there stores it, and leaves the heap alone.
pub update_session-stores :
    (s old : BenchmarkSession) (m : SessionManager)
    → get_session s.id m ≡ some old
    → (get_session s.id (update_session s m) ≡ some s) × ((update_session s m).heap ≡ m.heap)
unfolding get_session update_session update_found
update_session-stores s old m e =
    rw (e, update_found)
      (get_entry-insert_entry s.id s.id s m.sessions ∙ rw (str_eq_self s.id) refl, refl)
