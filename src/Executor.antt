-- ===== src/Executor.antt =====
-- The start and the final part of `execute` of benchmark-web/src/services/benchmark_executor.rs. The
-- session as the exercises leave it, whether they ended in an error, and the reading of the
-- cancellation token are arguments; the exercises themselves are in Executor/Exercises.
pub mod Exercises
pub mod Arms
pub mod Reported
pub mod Failures
pub mod Outcome
mod Tests
use llm_benchmark.Common.{
  ℕ, Bool, true, false, String, ◌≡◌, subst, Option, none, some, if◌then◌else◌, arith, is_some,
}
use llm_benchmark.Status.{RunStatus, is_active}
use llm_benchmark.Session.Heaps.{Heap, is_cancelled}
use llm_benchmark.Session.{BenchmarkSession, start, complete, set_error_message, emit_output}
use llm_benchmark.Manager.{
  SessionManager, get_session, get_cancellation_token, cancel_session, update_session,
}
use llm_benchmark.Manager.Steps.{update_session-stores}
use llm_benchmark.Manager.Tokens.{HasTokens, cancel_session_fires}

-- `session.start()` and the update that follows it.
unfoldable pub begin_run : ℕ → BenchmarkSession → SessionManager → BenchmarkSession × SessionManager
begin_run now s m = (start now s, update_session (start now s) m)

mark_failed : Option String → BenchmarkSession → BenchmarkSession
mark_failed none s = s
mark_failed (some error) s = set_error_message error (record s { status = RunStatus.failed })

mark_cancelled : Bool → BenchmarkSession → BenchmarkSession
mark_cancelled true s = record s { status = RunStatus.cancelled }
mark_cancelled false s = s

close_status : ℕ → RunStatus → BenchmarkSession → BenchmarkSession
close_status now RunStatus.failed s = record s { finished_at = some now }
close_status now RunStatus.cancelled s = record s { finished_at = some now }
close_status now _ s = complete now s

close : ℕ → BenchmarkSession → BenchmarkSession
unfolding close_status
close now s = close_status now s.status s

-- The session after the final part, before it is handed to the manager: FAILED on an error, then
-- CANCELLED if the token reads so, then COMPLETED unless it is one of the two.
unfoldable pub finalize : ℕ → Option String → Bool → BenchmarkSession → BenchmarkSession
unfolding mark_failed mark_cancelled close complete set_error_message
finalize now error fired s = close now (mark_cancelled fired (mark_failed error s))

-- The two lines that the final part emits, the second one only on an error.
unfoldable pub final_output :
    (describe : String → String) → Option String → BenchmarkSession → Heap → Heap
final_output describe none s h = emit_output "Benchmark execution completed\n" s h
final_output describe (some error) s h =
    emit_output (describe error) s (emit_output "Benchmark execution completed\n" s h)

-- The final part leaves no session running: its state is CANCELLED whenever the token was read as
-- fired, else FAILED whenever the run ended in an error, else what the exercises left if that is
-- FAILED or CANCELLED, else COMPLETED; and the time of the end is set.
pub finalize_status :
    (now : ℕ) (error : Option String) (fired : Bool) (s : BenchmarkSession)
    → let r = finalize now error fired s in
      (r.status ≡ (
        if fired
        then RunStatus.cancelled
        else if is_some error
        then RunStatus.failed
        else elim s.status [
          | RunStatus.failed ↦ RunStatus.failed
          | RunStatus.cancelled ↦ RunStatus.cancelled
          | _ ↦ RunStatus.completed
        ]))
      × (r.finished_at ≡ some now)
      × (is_active r.status ≡ false)
unfolding finalize
finalize_status now error fired s = ground arith

finalize_id :
    (now : ℕ) (error : Option String) (fired : Bool) (s : BenchmarkSession)
    → (finalize now error fired s).id ≡ s.id
unfolding finalize
finalize_id now error fired s = ground arith

finalize-completed :
    (now : ℕ) (s : BenchmarkSession)
    → s.status ≡ RunStatus.completed
    → (finalize now none false s).status ≡ RunStatus.completed
unfolding finalize
finalize-completed now s h = ground arith

-- The cancellation of a successful run can be overwritten: if the exercises left the session COMPLETED
-- without an error, and the cancellation comes after the final part has read the token and before it
-- hands its session to the manager, the call reports true and the token is fired, but the session of
-- the manager ends COMPLETED.
pub cancel_overwritten :
    (now later : ℕ) (m : SessionManager) (s stored : BenchmarkSession) (token : ℕ)
    → HasTokens m
    → get_session s.id m ≡ some stored
    → is_active stored.status ≡ true
    → get_cancellation_token s.id m ≡ some token
    → s.status ≡ RunStatus.completed
    → is_cancelled token m.heap ≡ false
    → let r = (cancel_session now s.id m).1 in
      let f = finalize later none (is_cancelled token m.heap) s in
      ((cancel_session now s.id m).0 ≡ true)
      × (get_session s.id (update_session f r) ≡ some f)
      × (f.status ≡ RunStatus.completed)
      × (is_cancelled token (update_session f r).heap ≡ true)
cancel_overwritten now later m s stored token v found active known local unfired =
    let (done, c) = cancel_session_fires now s.id m stored token v found active known in
    let f = finalize later none (is_cancelled token m.heap) s in
    let same : f.id ≡ s.id = finalize_id later none (is_cancelled token m.heap) s in
    let (shown, kept) =
      update_session-stores f c.session (cancel_session now s.id m).1 (rw same c.shown) in
    (
      done,
      subst (λ k. get_session k (update_session f (cancel_session now s.id m).1) ≡ some f) same
          shown,
      rw unfired (finalize-completed later s local),
      rw kept c.fired,
    )
