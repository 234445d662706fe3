-- ===== src/Tests/Jobs.antt =====
-- The job queue on concrete data.
use patchhub.Dict.{lookup}
use patchhub.Prelude.{
  All, Bool, List, String, [], arith, false, none, refl, some, true, ℤ, ◌∷◌, ◌≡◌,
}
use patchhub.JobQueue.{Job, Queue, Status, absent, fail, patch, queued, running}
use patchhub.JobQueue.Cancel.{Request, cancel_local, has_channel}
use patchhub.JobQueue.Finalize.{After, done, finalize_running_job, thrown}
use patchhub.JobQueue.Loop.{Work, sha}
use patchhub.JobQueue.Round.{round, run_loop}
use patchhub.JobQueue.Life.{
  IsAside, IsLater, has_ended, is_aside_refl, is_later, later_of_aside, status_at,
}
use patchhub.JobQueue.Life.Sections.{
  Forward, IsForward, cancel-Forward, cancel_section, cancel_section-Aside,
}
use patchhub.JobQueue.Life.Rounds.{IsBeside}
use patchhub.JobQueue.Life.RunLoop.{IsFair, IsIdle, round-queued, run_loop-IsIdle, run_loop-later}
use patchhub.JobQueue.Life.Cancellation.{IsAlone, cancel_local-socket}

abbrev job : String → Status → Job
job id s = record {
  job_id = id;
  created_utc = "2026-01-01T00:00:00Z";
  mode = patch;
  issue_id = "7";
  canonical_command = [];
  status = s;
  started_utc = none;
  ended_utc = none;
  return_code = none;
  error = none;
  cancel_requested_utc = none;
  cancel_ack_utc = none;
  cancel_source = none;
  effective_runner_target_repo = none;
  run_start_sha = none;
  run_end_sha = none;
  rollback_scope_manifest_rel_path = none;
  rollback_scope_manifest_hash = none;
  rollback_authority_kind = none;
  rollback_authority_source_ref = none;
  applied_files = [];
  applied_files_source = "unavailable";
}

abbrev queue : Status → List String → Queue
queue s channels = record {
  jobs = ("a", job "a" s) ∷ ("b", job "b" queued) ∷ [];
  pending = some "a" ∷ some "b" ∷ [];
  stop = false;
  stored = [];
  changes = 0;
  announced = [];
  authorities = [];
  brokers = [];
  channels = channels;
  db_primary = false;
}

abbrev after : After
after = record {
  ended_at = "t3";
  applied = thrown "no archive";
  manifest = thrown "no manifest";
  cleanup = absent;
  between = cancel_section "b" "t9";
}

-- The runner fails with 1, while another task cancels job "b".
abbrev work : Work
work = record {
  started_at = "t1";
  failed_at = "t2";
  start_head = sha "abc";
  handler = thrown "unused";
  exec = done (record { return_code = ℤ.pos 1; stdout_tail_timed_out = false });
  pump_timed_out = false;
  end_head = sha "def";
  executor_runs = false;
  after = after;
  failure_cleanup = absent;
  waiting = λ q. q;
  wait_error = none;
  capturing = λ q. q;
  working = cancel_section "b" "t8";
  failing = λ q. q;
  reconciling = λ q. q;
}

abbrev still : IsAside (λ q. q)
still k q = is_aside_refl (status_at k q)

abbrev work-IsBeside : IsBeside work
work-IsBeside = record {
  waiting = still;
  capturing = still;
  working = cancel_section-Aside "b" "t8";
  failing = still;
  reconciling = still;
  between = cancel_section-Aside "b" "t9";
}

abbrev fair : All IsFair (work ∷ work ∷ [])
fair = ((work-IsBeside, refl), ((work-IsBeside, refl), tt))

queue-IsIdle : IsIdle (queue queued [])
unfolding lookup
queue-IsIdle k = ground arith

run_loop-IsIdle_example : IsIdle (run_loop (work ∷ work ∷ []) (queue queued [])).1
run_loop-IsIdle_example = run_loop-IsIdle (work ∷ work ∷ []) (queue queued []) fair queue-IsIdle

run_loop-later_example :
    is_later
      (status_at "a" (queue queued []))
      (status_at "a" (run_loop (work ∷ work ∷ []) (queue queued [])).1)
    ≡ true
run_loop-later_example = run_loop-later (work ∷ work ∷ []) (queue queued []) "a" fair

round-queued_example : has_ended (status_at "a" (round "a" work (queue queued [])).1) ≡ true
unfolding lookup
round-queued_example = round-queued "a" work work-IsBeside (queue queued []) refl refl refl refl

abbrev request : Bool → (Queue → Queue) → Request
request sent beside = record {
  requested_at = "t4";
  acked_at = "t5";
  ended_at = "t6";
  sent = sent;
  terminated = true;
  cleanup = absent;
  before_lock = beside;
  during_send = beside;
  during_terminate = beside;
  during_cleanup = beside;
}

abbrev cancels_b : IsLater (cancel_section "b" "t7")
cancels_b k q =
    later_of_aside (status_at k q) (status_at k (cancel_section "b" "t7" q))
      (cancel_section-Aside "b" "t7" k q)

abbrev busy : Request
busy = request false (cancel_section "b" "t7")

abbrev busy-IsForward : IsForward busy
busy-IsForward = record {
  before_lock = cancels_b;
  during_send = cancels_b;
  during_terminate = cancels_b;
  during_cleanup = cancels_b;
}

abbrev alone : (sent : Bool) → IsAlone (request sent (λ q. q))
alone sent = record {
  before_lock = λ q. refl;
  during_send = λ q. refl;
  during_terminate = λ q. refl;
}

cancel-Forward_example : Forward "b" (queue running []) (cancel_local "a" busy (queue running [])).1
cancel-Forward_example = cancel-Forward "a" "b" busy busy-IsForward (queue running [])

cancel_local-socket_example :
    status_at "a"
      (finalize_running_job "a"
        (ℤ.pos 1)
        none
        after
        (cancel_local "a" (request true (λ q. q)) (queue running ("a" ∷ []))).1).1
    ≡ some fail
unfolding lookup has_channel
cancel_local-socket_example =
    cancel_local-socket "a" (request true (λ q. q)) (ℤ.pos 1) none after (queue running ("a" ∷ []))
      (alone true) (cancel_section-Aside "b" "t9") refl refl refl refl
