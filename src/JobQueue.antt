-- ===== src/JobQueue.antt =====
-- scripts/patchhub/asgi/async_queue.py: the state of `AsyncJobQueue`, and the sections that its
-- handlers share. A handler that awaits without the lock lets other tasks run: what they do to the
-- queue there is a function that the handler takes. Writes to the job store succeed.
pub mod Finalize
pub mod Cancel
pub mod Loop
pub mod Round
pub mod Life
use patchhub.Prelude.{
  Bool, List, Option, String, [], false, if◌then◌else◌, none, some, true, ℕ, ℤ, ◌++◌, ◌+◌, ◌<>◌,
  ◌∷◌,
}
use patchhub.Prelude.Text.{is_empty, strip}
use patchhub.Dict.{Dict, insert, lookup, values}

pub data Mode : Type 0 where
  patch repair finalize_live finalize_workspace rerun_latest rollback revert_job : Mode

pub data Status : Type 0 where
  queued running success fail canceled unknown : Status

pub data CancelSource : Type 0 where
  socket terminate hard_stop : CancelSource
  other : String → CancelSource

-- The fields of `JobRecord` that the queue reads or writes.
pub record Job : Type 0 where
  pub job_id : String
  pub created_utc : String
  pub mode : Mode
  pub issue_id : String
  pub canonical_command : List String
  pub status : Status
  pub started_utc : Option String
  pub ended_utc : Option String
  pub return_code : Option ℤ
  pub error : Option String
  pub cancel_requested_utc : Option String
  pub cancel_ack_utc : Option String
  pub cancel_source : Option CancelSource
  pub effective_runner_target_repo : Option String
  pub run_start_sha : Option String
  pub run_end_sha : Option String
  pub rollback_scope_manifest_rel_path : Option String
  pub rollback_scope_manifest_hash : Option String
  pub rollback_authority_kind : Option String
  pub rollback_authority_source_ref : Option String
  pub applied_files : List String
  pub applied_files_source : String

-- `jobs` is `_jobs` and `pending` is `_q`, whose `None` is `none`. `stored` is the job store, a
-- database or a `job.json` for each job, and `changes` counts its writes with
-- `count_as_job_change`. `announced` lists the jobs with a "queued" log line. `brokers` and
-- `channels` are the keys of `_brokers` and `_pump_commands`. `db_primary` says that there is a
-- job database.
pub record Queue : Type 0 where
  pub jobs : Dict Job
  pub pending : List (Option String)
  pub stop : Bool
  pub stored : Dict Job
  pub changes : ℕ
  pub announced : List String
  pub authorities : List String
  pub brokers : List String
  pub channels : List String
  pub db_primary : Bool

abbrev pub is_queued : Status → Bool
is_queued queued = true
is_queued _ = false

abbrev pub is_running : Status → Bool
is_running running = true
is_running _ = false

abbrev pub is_canceled : Status → Bool
is_canceled canceled = true
is_canceled _ = false

abbrev pub is_success : Status → Bool
is_success success = true
is_success _ = false

-- `str(x or "")`
abbrev pub text_of : Option String → String
text_of none = ""
text_of (some s) = s

abbrev pub is_some {ℓ} : {A : Type ℓ} → Option A → Bool
is_some none = false
is_some (some a) = true

-- `if not str(x or "").strip()`
unfoldable pub is_blank : Option String → Bool
unfolding strip is_empty
is_blank o = is_empty (strip (text_of o))

-- `_persist`: the whole job goes to the store.
unfoldable pub persist : Bool → Job → Queue → Queue
persist count job q = record q {
  stored = insert job.job_id job q.stored;
  changes = if count then q.changes + 1 else q.changes;
}

-- The job object that `_jobs` holds under an id takes these fields, and is persisted.
unfoldable pub write_job : Bool → String → Job → Queue → Queue
unfolding persist
write_job count id job q = persist count job (record q { jobs = insert id job q.jobs })

-- The job that `_jobs` holds under an id, changed and persisted, if there is one.
unfoldable pub write_found : Bool → String → (Job → Job) → Option Job → Queue → Queue
unfolding write_job
write_found count id change none q = q
write_found count id change (some job) q = write_job count id (change job) q

unfoldable pub change_job : Bool → String → (Job → Job) → Queue → Queue
unfolding write_found
change_job count id change q = write_found count id change (lookup id q.jobs) q

-- `_enqueue_local`: both stores get the line that says "queued" after the job.
unfoldable pub enqueue : Job → Queue → Queue
unfolding write_job
enqueue job q =
    let q' = write_job true job.job_id job q in
    record q' {
      announced = q'.announced ++ (job.job_id ∷ []);
      pending = q'.pending ++ (some job.job_id ∷ []);
    }

-- `_state_local`
pub record QueueState : Type 0 where
  pub queued_count : ℕ
  pub running_count : ℕ

unfoldable pub count_status : (Status → Bool) → List Job → ℕ
count_status test [] = 0
count_status test (job ∷ rest) = (if test job.status then 1 else 0) + count_status test rest

unfoldable pub state : Queue → QueueState
unfolding count_status values
state q = record {
  queued_count = count_status is_queued (values q.jobs);
  running_count = count_status is_running (values q.jobs);
}

-- `_append_terminal_cleanup_error`
abbrev pub join_error : Option String → String → String
join_error none added = added
join_error (some old) added = if is_empty old then added else old <> ("; " <> added)

unfoldable pub append_cleanup_error : String → Option String → Queue → Queue
unfolding change_job is_empty
append_cleanup_error id none q = q
append_cleanup_error id (some added) q =
    change_job false id (λ job. record job { error = some (join_error job.error added) }) q

-- `_run_terminal_job_cleanup_callback`: no callback, or one that returns or raises.
pub data Callback : Type 0 where
  absent returned : Callback
  raised : String → Callback

abbrev pub callback_error : Callback → Option String
callback_error (raised e) = some e
callback_error _ = none
