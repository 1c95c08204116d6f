-- ===== src/Manager/Tests.antt =====
-- The session registry of benchmark-web/src/services/session_manager.rs and the output of a session
-- of benchmark-web/src/models/session.rs, at concrete sessions.
use Prim.Native.Nat.{min, max}
use llm_benchmark.Common.{
  ◌+◌, ◌≤◌, true, false, String, ◌≡◌, refl, List, [], ◌∷◌, ◌++◌, none, some, length, false,
}
use llm_benchmark.Queue.Entries.{get_entry, insert_entry}
use llm_benchmark.Session.Heaps.{is_cancelled, new_token}
use llm_benchmark.Session.{BenchmarkSession, Request, new_session, max_lines, cancel}
use llm_benchmark.Session.Output.{emitted, consumed, push_all, push_all_last}
use llm_benchmark.Manager.Tokens.{
  HasTokens, new_manager-HasTokens, create_session-HasTokens, Cancelled, cancel_session_fires,
}
use llm_benchmark.Manager.Registered.{Calls, IsRegistered, HasTokens-IsRegistered}
use llm_benchmark.Manager.Steps.{here, next, inserts_session, cancels, Reach-IsRegistered}
use llm_benchmark.Manager.{
  SessionManager, new_manager, create_session, insert_session, insert_token, get_session,
  get_cancellation_token, cancel_session,
}

abbrev asked : Request
asked = record {
  agent_name = "pi";
  languages = "java" ∷ [];
  model = "qwen";
  thinking_level = none;
  exercise_name = some "two-fer";
  retry = false;
  timeout_ms = 3600000;
}

abbrev one_session : SessionManager
one_session = (create_session "s" asked new_manager).1

abbrev session_s : BenchmarkSession
session_s = (create_session "s" asked new_manager).0

one_session-HasTokens : HasTokens one_session
one_session-HasTokens = create_session-HasTokens "s" asked new_manager new_manager-HasTokens

abbrev no_calls : Calls
no_calls = record { manager = new_manager; creating = [] }

abbrev between : Calls
between = record { manager = (insert_session "s" asked new_manager).1; creating = "s" ∷ [] }

-- A cancellation that comes between the two locks of `create_session`.
abbrev cancelled_between : Calls
cancelled_between = record between { manager = (cancel_session 7 "s" between.manager).1 }

Reach-IsRegistered_example : IsRegistered cancelled_between
Reach-IsRegistered_example =
    Reach-IsRegistered (HasTokens-IsRegistered new_manager new_manager-HasTokens)
      (next (next here (inserts_session "s" asked)) (cancels 7 "s"))

-- It reports true, and the token that the session gets after it is not fired.
never_fired :
    ((cancel_session 7 "s" between.manager).0 ≡ true)
    × (get_cancellation_token "s" (insert_token "s" cancelled_between.manager) ≡ some 0)
    × (is_cancelled 0 (insert_token "s" cancelled_between.manager).heap ≡ false)
unfolding cancel_session new_session new_manager new_token get_cancellation_token insert_entry
    get_entry is_cancelled cancel
never_fired = (refl, refl, refl)

cancel_session_fires_example :
    ((cancel_session 7 "s" one_session).0 ≡ true)
    × Cancelled "s" 0 one_session (cancel_session 7 "s" one_session).1
unfolding create_session new_session new_manager new_token get_session get_cancellation_token
    insert_entry get_entry
cancel_session_fires_example =
    cancel_session_fires 7 "s" one_session session_s 0 one_session-HasTokens refl refl refl

push_all_last_example :
    (lost : List String) × (("a" ∷ []) ++ ("b" ∷ "c" ∷ [])
      ≡ lost ++ push_all (emitted "b" ∷ consumed "c" ∷ []) ("a" ∷ []))
    × (min (1 + 2) max_lines ≤ length (push_all (emitted "b" ∷ consumed "c" ∷ []) ("a" ∷ [])))
    × (length (push_all (emitted "b" ∷ consumed "c" ∷ []) ("a" ∷ [])) ≤ max max_lines 1 + 1)
push_all_last_example = push_all_last (emitted "b" ∷ consumed "c" ∷ []) ("a" ∷ [])
