-- ===== src/JobQueue/Loop.antt =====
-- scripts/patchhub/asgi/async_queue.py: `_run_loop`, one round for each id that it takes.
-- The fields of `Work` are what a round is answered, and what other tasks do while it awaits.
-- `wait_error` is the text of an exception of the wait, which opens the lock file. A wait that
-- never returns has no value here: such a loop stands still before the round.
use patchhub.Prelude.{
  Bool, List, Option, String, [], false, if◌then◌else◌, is_pos, none, not, pos, some, true, ℤ, ◌&&◌,
  ◌<>◌, ◌||◌, ◌∷◌,
}
use patchhub.Prelude.Text.{is_empty}
use patchhub.Dict.{lookup}
use patchhub.JobQueue.{
  Callback, Job, Mode, Queue, change_job, is_blank, is_queued, revert_job, rollback, running,
  write_job,
}
use patchhub.JobQueue.Finalize.{After, Try, done, finalize_running_job, join_all, thrown}

pub record ExecResult : Type 0 where
  pub return_code : ℤ
  pub stdout_tail_timed_out : Bool

-- `_capture_head_sha`: a commit id, a `RevertJobRuntimeError` by its message, or another
-- exception by its text.
pub data Capture : Type 0 where
  sha : String → Capture
  revert_error : String → Capture
  crash : String → Capture

pub record Work : Type 0 where
  pub started_at : String
  pub failed_at : String
  pub start_head : Capture
  pub handler : Try (ℤ × Option String)
  pub exec : Try ExecResult
  pub pump_timed_out : Bool
  pub end_head : Capture
  pub executor_runs : Bool
  pub after : After
  pub failure_cleanup : Callback
  pub waiting : Queue → Queue
  pub wait_error : Option String
  pub capturing : Queue → Queue
  pub working : Queue → Queue
  pub failing : Queue → Queue
  pub reconciling : Queue → Queue

-- One turn of `_wait_for_runner_slot`, as it sees the stop event, the executor and the lock file.
pub record Poll : Type 0 where
  pub stopped : Bool
  pub executor_runs : Bool
  pub lock_held : Bool

-- The turn at which the wait returns, or `none` while it goes on.
unfoldable pub wait_for_runner_slot : List Poll → Option Poll
wait_for_runner_slot [] = none
wait_for_runner_slot (p ∷ rest) =
    if p.stopped || (not p.executor_runs && not p.lock_held)
    then some p
    else wait_for_runner_slot rest

-- `_compose_tail_timeout_error`
abbrev timeout_reasons : Bool → Bool → List String
timeout_reasons true true =
    "stdout_tail_timeout_after_runner_exit" ∷ "event_pump_tail_timeout_after_runner_exit" ∷ []
timeout_reasons true false = "stdout_tail_timeout_after_runner_exit" ∷ []
timeout_reasons false true = "event_pump_tail_timeout_after_runner_exit" ∷ []
timeout_reasons false false = []

abbrev put_first : Option String → List String → List String
put_first none reasons = reasons
put_first (some error) reasons = if is_empty error then reasons else error ∷ reasons

abbrev join_reasons : Option String → List String → Option String
join_reasons error [] = error
join_reasons error (r ∷ rest) = join_all (put_first error (r ∷ rest))

unfoldable pub compose_tail_timeout_error : Job → ExecResult → Bool → Option String
unfolding is_empty
compose_tail_timeout_error job res pump_tail_timed_out =
    join_reasons job.error (timeout_reasons res.stdout_tail_timed_out pump_tail_timed_out)

-- The section that takes the job over, once the runner slot is free.
unfoldable pub start_found : String → String → Option Job → Queue → Option Queue
unfolding write_job
start_found id now none q = none
start_found id now (some job) q =
    if is_queued job.status
    then some (write_job true id (record job { status = running; started_utc = some now }) q)
    else none

-- What the `try` block leaves: the queue, the runner's result, the event pump's timeout, and the
-- text of an exception.
pub record Body : Type 0 where
  pub q : Queue
  pub result : Option ExecResult
  pub pump_tail_timed_out : Bool
  pub failure : Option String

abbrev pub no_result : Queue → Option String → Body
no_result q failure = record {
  q = q;
  result = none;
  pump_tail_timed_out = false;
  failure = failure;
}

abbrev pub open_broker : String → Queue → Queue
open_broker id q = record q { brokers = id ∷ q.brokers }

-- The modes `revert_job` and `rollback` are run by a handler in the server.
unfoldable pub run_internal : String → Work → Queue → Try (ℤ × Option String) → Body
unfolding change_job finalize_running_job
run_internal id w q (thrown e) = no_result (w.working (open_broker id q)) (some e)
run_internal id w q (done (rc, error)) =
    no_result
      (finalize_running_job id rc error w.after
        (change_job false id (λ job. job) (w.working (open_broker id q)))).1
      none

-- The end of a runner's job: the commit at its end is noted, and a commit that cannot be read
-- turns a success into a failure.
abbrev pub capture_error : Option String → String → String
capture_error none added = added
capture_error (some old) added = if is_empty old then added else old <> ("; " <> added)

abbrev pub failed_rc : ℤ → ℤ
failed_rc rc = if is_pos rc 0 then pos 1 else rc

abbrev pub end_text : String → String
end_text message = "RevertJobRuntimeError: " <> message

unfoldable pub finish_captured : String → Work → ExecResult → Option String → Queue → Capture → Body
unfolding change_job finalize_running_job is_empty
finish_captured id w res error q (sha s) = record {
  q =
      (finalize_running_job id res.return_code error w.after
        (change_job false id (λ job. record job { run_end_sha = some s }) q)).1;
  result = some res;
  pump_tail_timed_out = w.pump_timed_out;
  failure = none;
}
finish_captured id w res error q (revert_error message) = record {
  q =
      (finalize_running_job id (failed_rc res.return_code)
        (some (capture_error error (end_text message))) w.after q).1;
  result = some res;
  pump_tail_timed_out = w.pump_timed_out;
  failure = none;
}
finish_captured id w res error q (crash e) = record {
  q = q;
  result = some res;
  pump_tail_timed_out = w.pump_timed_out;
  failure = some e;
}

unfoldable pub finish_found : String → Work → ExecResult → Option Job → Queue → Body
unfolding finish_captured is_blank compose_tail_timeout_error
finish_found id w res none q = record {
  q = q;
  result = some res;
  pump_tail_timed_out = w.pump_timed_out;
  failure = none;
}
finish_found id w res (some job) q =
    let error = compose_tail_timeout_error job res w.pump_timed_out in
    if is_blank job.effective_runner_target_repo
    then record {
      q = (finalize_running_job id res.return_code error w.after q).1;
      result = some res;
      pump_tail_timed_out = w.pump_timed_out;
      failure = none;
    }
    else finish_captured id w res error q w.end_head

unfoldable pub run_external : String → Work → Queue → Try ExecResult → Body
unfolding finish_found
run_external id w q (thrown e) =
    let opened = open_broker id q in
    no_result (w.working (record opened { channels = id ∷ opened.channels })) (some e)
run_external id w q (done res) =
    let opened = open_broker id q in
    let q' = w.working (record opened { channels = id ∷ opened.channels }) in
    finish_found id w res (lookup id q'.jobs) q'

unfoldable pub dispatch : String → Work → Mode → Queue → Body
unfolding run_internal run_external
dispatch id w revert_job q = run_internal id w q w.handler
dispatch id w rollback q = run_internal id w q w.handler
dispatch id w _ q = run_external id w q w.exec
