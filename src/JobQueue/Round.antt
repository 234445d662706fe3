-- ===== src/JobQueue/Round.antt =====
-- scripts/patchhub/asgi/async_queue.py: `_run_loop` from the start of a job to the `finally` block,
-- and the loop over the ids.
use patchhub.Prelude.{
  Bool, List, Option, String, [], false, if◌then◌else◌, none, not, some, true, ℤ, ◌==◌, ◌||◌, ◌∷◌,
}
use patchhub.Prelude.Text.{is_empty}
use patchhub.Dict.{insert, lookup}
use patchhub.JobQueue.{
  Job, Mode, Queue, Status, append_cleanup_error, callback_error, canceled, change_job, fail,
  is_blank, is_some, join_error, write_job,
}
use patchhub.JobQueue.Finalize.{reconcile_active_job}
use patchhub.JobQueue.Loop.{
  Body, Capture, ExecResult, Work, compose_tail_timeout_error, crash, dispatch, end_text, no_result,
  revert_error, sha, start_found,
}

-- The `try` block: the commit at the start, then the work by mode.
unfoldable pub start_captured : String → Work → Mode → Capture → Queue → Body
unfolding change_job dispatch
start_captured id w mode (sha s) q =
    dispatch id w mode (change_job false id (λ job. record job { run_start_sha = some s }) q)
start_captured id w mode (revert_error message) q = no_result q (some (end_text message))
start_captured id w mode (crash e) q = no_result q (some e)

unfoldable pub try_block : String → Work → Option Job → Queue → Body
unfolding start_captured dispatch is_blank
try_block id w none q = no_result q none
try_block id w (some job) q =
    if is_blank job.effective_runner_target_repo
    then dispatch id w job.mode q
    else start_captured id w job.mode w.start_head (w.capturing q)

-- `except Exception`. With a result at hand the text is noted in memory only.
abbrev pub keep_canceled : Status → Status
keep_canceled canceled = canceled
keep_canceled _ = fail

abbrev pub note_error : String → String → Option Job → Queue → Queue
note_error id e none q = q
note_error id e (some job) q = record q {
  jobs = insert id (record job { error = some (join_error job.error e) }) q.jobs;
}

unfoldable pub fail_found : String → Work → String → Option Job → Queue → Queue
unfolding write_job append_cleanup_error
fail_found id w e none q = q
fail_found id w e (some job) q = append_cleanup_error id (callback_error w.failure_cleanup) (
    w.failing (
      write_job true id
        (record job {
          status = keep_canceled job.status;
          ended_utc = some w.failed_at;
          error = some e;
        })
        q))

unfoldable pub except_block : String → Work → Option ExecResult → Option String → Queue → Queue
unfolding fail_found is_empty
except_block id w result none q = q
except_block id w none (some e) q = fail_found id w e (lookup id q.jobs) q
except_block id w (some res) (some e) q = note_error id e (lookup id q.jobs) q

-- `finally`
abbrev pub reconcile_rc : Option ExecResult → Option ℤ
reconcile_rc none = none
reconcile_rc (some res) = some res.return_code

abbrev pub reconcile_error : Option ExecResult → Bool → Option Job → Option String
reconcile_error none timed_out job = none
reconcile_error (some res) timed_out none = none
reconcile_error (some res) timed_out (some job) = compose_tail_timeout_error job res timed_out

unfoldable pub without : String → List String → List String
without id [] = []
without id (x ∷ rest) = let kept = without id rest in if x == id then kept else x ∷ kept

unfoldable pub finally_block : String → Work → Body → Queue → Queue
unfolding compose_tail_timeout_error reconcile_active_job without
finally_block id w b q =
    let error = reconcile_error b.result b.pump_tail_timed_out (lookup id q.jobs) in
    let q' =
      (reconcile_active_job id (reconcile_rc b.result) error w.executor_runs w.reconciling w.after
        q).1 in
    record q' { brokers = without id q'.brokers; channels = without id q'.channels }

unfoldable pub run_started : String → Work → Queue → Queue
unfolding try_block except_block finally_block
run_started id w q =
    let b = try_block id w (lookup id q.jobs) q in
    finally_block id w b (except_block id w b.result b.failure b.q)

abbrev pub or_else {ℓ κ} : {A : Type ℓ} {B : Type κ} → Option A → B → (A → B) → B
or_else none b f = b
or_else (some a) b f = f a

-- One id: `true` if the loop ends, because the wait, which stands outside the `try`, raises, or
-- because the stop event was set during it.
unfoldable pub round : String → Work → Queue → Bool × Queue
unfolding start_found run_started
round id w q =
    let q' = w.waiting q in
    if not (is_some (lookup id q.jobs))
    then (false, q)
    else if is_some w.wait_error || q'.stop
    then (true, q')
    else (false, or_else (start_found id w.started_at (lookup id q'.jobs) q') q' (run_started id w))

-- One turn of `while not self._stop.is_set()`, at what `_q` holds; `true` if the loop has ended.
-- At an empty `_q` it waits.
unfoldable pub take_next : List (Option String) → Work → Queue → Bool × Queue
unfolding round
take_next [] w q = (q.stop, q)
take_next (none ∷ rest) w q = (q.stop, record q { pending = rest })
take_next (some id ∷ rest) w q =
    if q.stop then (true, q) else round id w (record q { pending = rest })

unfoldable pub run_loop : List Work → Queue → Bool × Queue
unfolding take_next
run_loop [] q = (false, q)
run_loop (w ∷ ws) q =
    let (stops, q') = take_next q.pending w q in
    let rest = run_loop ws q' in if stops then (true, q') else rest
