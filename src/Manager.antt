-- ===== src/Manager.antt =====
-- The registry of sessions: SessionManager of benchmark-web/src/services/session_manager.rs. The two
-- hash maps are association lists; a token is the address of its flag.
pub mod Tokens
pub mod Registered
pub mod Steps
mod Tests
use llm_benchmark.Common.{
  ℕ, suc, Bool, true, false, String, List, [], ◌∷◌, Option, none, some, if◌then◌else◌, length,
}
use llm_benchmark.Status.{RunStatus, is_active}
use llm_benchmark.Queue.Entries.{get_entry, insert_entry}
use llm_benchmark.Session.Heaps.{Heap, new_token, cancel_token}
use llm_benchmark.Session.{BenchmarkSession, Request, new_session, cancel, force_complete}

pub record SessionManager : Type 0 where
  pub sessions : List (String × BenchmarkSession)
  pub tokens : List (String × ℕ)
  pub heap : Heap

-- `new`.
unfoldable pub new_manager : SessionManager
new_manager = record {
  sessions = [];
  tokens = [];
  heap = record { buffers = []; channels = []; flags = [] };
}

-- The first part of `create_session`, under the lock of the sessions.
abbrev pub insert_session : String → Request → SessionManager → BenchmarkSession × SessionManager
insert_session uuid r m =
    let (session, h) = new_session uuid r m.heap in
    (session, record m { sessions = insert_entry session.id session m.sessions; heap = h })

-- The second part, under the lock of the tokens.
abbrev pub insert_token : String → SessionManager → SessionManager
insert_token id m =
    let (token, h) = new_token m.heap in
    record m { tokens = insert_entry id token m.tokens; heap = h }

-- `create_session`: the one after the other.
unfoldable pub create_session :
    String → Request → SessionManager → BenchmarkSession × SessionManager
create_session uuid r m =
    let (session, m') = insert_session uuid r m in (session, insert_token session.id m')

-- `get_session` and `get_cancellation_token`.
unfoldable pub get_session : String → SessionManager → Option BenchmarkSession
get_session k m = get_entry k m.sessions

unfoldable pub get_cancellation_token : String → SessionManager → Option ℕ
get_cancellation_token k m = get_entry k m.tokens

fire : Option ℕ → Heap → Heap
fire none h = h
fire (some token) h = cancel_token token h

cancel_found : ℕ → String → Option BenchmarkSession → SessionManager → Bool × SessionManager
cancel_found now k none m = (false, m)
cancel_found now k (some s) m =
    if is_active s.status
    then (let (s', h) = cancel now s m.heap in
        (
          true,
          record m {
            sessions = insert_entry k s' m.sessions;
            heap = fire (get_entry k m.tokens) h;
          },
        ))
    else (false, m)

-- `cancel_session`: only a pending or running session; its token is fired under the same lock.
unfoldable pub cancel_session : ℕ → String → SessionManager → Bool × SessionManager
unfolding cancel_found fire
cancel_session now k m = cancel_found now k (get_entry k m.sessions) m

update_found : BenchmarkSession → Option BenchmarkSession → SessionManager → SessionManager
update_found session none m = m
update_found session (some _) m = record m { sessions = insert_entry session.id session m.sessions }

-- `update_session`: an unknown session is not added.
unfoldable pub update_session : BenchmarkSession → SessionManager → SessionManager
unfolding update_found
update_session session m = update_found session (get_entry session.id m.sessions) m

-- `get_active_session_count` and `get_active_sessions`.
unfoldable pub active_of : List (String × BenchmarkSession) → List BenchmarkSession
active_of [] = []
active_of ((k, s) ∷ rest) = if is_active s.status then s ∷ active_of rest else active_of rest

unfoldable pub get_active_sessions : SessionManager → List BenchmarkSession
unfolding active_of
get_active_sessions m = active_of m.sessions

unfoldable pub get_active_session_count : SessionManager → ℕ
unfolding get_active_sessions
get_active_session_count m = length (get_active_sessions m)

-- The loop of `shutdown` over the sessions.
pub force_all : ℕ → List (String × BenchmarkSession) → Heap → Heap
force_all now [] h = h
force_all now ((k, s) ∷ rest) h =
    force_all now rest (if is_active s.status then (force_complete now s h).1 else h)

-- `shutdown`: the sessions are completed by force, then dropped; the tokens stay.
unfoldable pub shutdown : ℕ → SessionManager → SessionManager
unfolding force_all
shutdown now m = record m { sessions = []; heap = force_all now m.sessions m.heap }
