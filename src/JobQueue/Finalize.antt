-- ===== src/JobQueue/Finalize.antt =====
-- scripts/patchhub/asgi/async_queue.py: how a running job ends. What the functions outside the
-- file answer (applied files, the rollback manifest, the cleanup callback) is a value of `After`.
use patchhub.Dict.{lookup}
use patchhub.Prelude.Text.{is_empty}
use patchhub.Prelude.{
  Bool, List, Option, String, [], false, if◌then◌else◌, is_pos, negsuc, none, not, some, true, ℤ,
  ◌&&◌, ◌++◌, ◌<>◌, ◌==◌, ◌||◌, ◌∷◌,
}
use patchhub.JobQueue.{
  Callback, CancelSource, Job, Queue, Status, append_cleanup_error, callback_error, canceled,
  change_job, fail, hard_stop, is_blank, is_running, is_some, is_success, socket, success,
  terminate, text_of, write_job,
}

-- A call that returns, or that raises: the text is `f"{type(exc).__name__}: {exc}"`.
pub data Try {ℓ} (A : Type ℓ) : Type ℓ where
  done : A → Try A
  thrown : String → Try A

-- What `build_manifest_for_job` and `write_manifest` give; a missing entry of the dict is "".
pub record Manifest : Type 0 where
  pub has_entries : Bool
  pub authority_kind : String
  pub authority_source_ref : String
  pub rel_path : String
  pub hash : String

pub record Applied : Type 0 where
  pub files : List String
  pub source : String

-- `between` is what other tasks do while `_finalize_running_job` awaits with the lock released.
pub record After : Type 0 where
  pub ended_at : String
  pub applied : Try Applied
  pub manifest : Try Manifest
  pub cleanup : Callback
  pub between : Queue → Queue

abbrev is_source : Option CancelSource → Bool
is_source (some socket) = true
is_source _ = false

abbrev is_killed : Option CancelSource → Bool
is_killed (some terminate) = true
is_killed (some hard_stop) = true
is_killed _ = false

unfoldable pub was_canceled : Job → ℤ → Bool
was_canceled job rc =
    (is_source job.cancel_source
      && is_some job.cancel_requested_utc
      && is_some job.cancel_ack_utc
      && is_pos rc 130)
    || (is_killed job.cancel_source
        && is_some job.cancel_requested_utc
        && is_some job.cancel_ack_utc)

unfoldable pub final_status : Job → ℤ → Status
unfolding was_canceled
final_status job rc =
    if is_pos rc 0 then success else if was_canceled job rc then canceled else fail

unfoldable pub ended : Job → ℤ → Option String → String → Job
unfolding final_status
ended job rc error now = record job {
  return_code = some rc;
  error = error;
  status = final_status job rc;
  ended_utc = some now;
}

-- `_materialize_applied_files`
abbrev pub set_applied : Applied → Job → Job
set_applied a job = record job { applied_files = a.files; applied_files_source = a.source }

abbrev is_nil {ℓ} : {A : Type ℓ} → List A → Bool
is_nil [] = true
is_nil (x ∷ xs) = false

abbrev has_news : Applied → Bool
has_news a = not (is_nil a.files) || not (a.source == "unavailable")

unfoldable pub materialize_applied_files : String → Try Applied → Queue → Queue × List String
unfolding change_job
materialize_applied_files id (thrown e) q = if q.db_primary then (q, e ∷ []) else (q, [])
materialize_applied_files id (done a) q =
    (if q.db_primary && has_news a then change_job false id (set_applied a) q else q, [])

-- `_persist_rollback_manifest`
abbrev or_text : String → String → String
or_text text default = if is_empty text then default else text

abbrev sha_range : Job → String
sha_range job = text_of job.run_start_sha <> (".." <> text_of job.run_end_sha)

-- The early returns: no target, a missing commit id, or no commit made.
unfoldable pub lacks_commits : Job → Bool
unfolding is_blank
lacks_commits job =
    is_blank job.effective_runner_target_repo
    || (is_blank job.run_start_sha || is_blank job.run_end_sha)
    || text_of job.run_start_sha == text_of job.run_end_sha

unfoldable pub set_authority : Bool → Manifest → Job → Job
unfolding is_empty
set_authority db_primary m job = record job {
  rollback_scope_manifest_rel_path = if db_primary then none else some m.rel_path;
  rollback_scope_manifest_hash = if db_primary then none else some m.hash;
  rollback_authority_kind = some (or_text m.authority_kind "git_commit_range");
  rollback_authority_source_ref = some (or_text m.authority_source_ref (sha_range job));
}

-- In the database the manifest is an authority row of its own (`upsert_manifest_authority`).
unfoldable pub store_manifest : String → Manifest → Queue → Queue
unfolding set_authority change_job
store_manifest id m q =
    change_job false id (set_authority q.db_primary m)
      (if q.db_primary then record q { authorities = q.authorities ++ (id ∷ []) } else q)

unfoldable pub persist_found : String → Option Job → Try Manifest → Queue → Queue × List String
unfolding lacks_commits store_manifest
persist_found id none m q = (q, [])
persist_found id (some job) (thrown e) q = if lacks_commits job then (q, []) else (q, e ∷ [])
persist_found id (some job) (done m) q =
    (if lacks_commits job || not m.has_entries then q else store_manifest id m q, [])

unfoldable pub persist_rollback_manifest : String → Try Manifest → Queue → Queue × List String
unfolding persist_found
persist_rollback_manifest id m q = persist_found id (lookup id q.jobs) m q

-- `"; ".join(errors)` where there is one.
abbrev pub join_texts : String → List String → String
join_texts first [] = first
join_texts first (e ∷ es) = first <> ("; " <> join_texts e es)

abbrev pub join_all : List String → Option String
join_all [] = none
join_all (e ∷ es) = some (join_texts e es)

abbrev pub error_list : Option String → List String
error_list none = []
error_list (some e) = e ∷ []

-- What a success adds once the end is persisted and the lock is free, and the errors of that.
unfoldable pub success_steps : String → Status → After → Queue → Queue × List String
unfolding materialize_applied_files persist_rollback_manifest
success_steps id status w q =
    let (q₁, e₁) = materialize_applied_files id w.applied q in
    let (q₂, e₂) = persist_rollback_manifest id w.manifest q₁ in
    if is_success status then (q₂, e₁ ++ e₂) else (q, [])

unfoldable pub after_finalize : String → Status → After → Queue → Queue
unfolding success_steps append_cleanup_error
after_finalize id status w q =
    let (q', errors) = success_steps id status w q in
    append_cleanup_error id (join_all (errors ++ error_list (callback_error w.cleanup)))
      (w.between q')

unfoldable pub finalize_found :
    String → ℤ → Option String → After → Option Job → Queue → Bool × Queue
unfolding ended after_finalize write_job
finalize_found id rc error w none q = (false, q)
finalize_found id rc error w (some job) q =
    let job' = ended job rc error w.ended_at in
    if is_running job.status
    then (true, after_finalize id job'.status w (write_job true id job' q))
    else (false, q)

-- `_finalize_running_job`: whether the job was running, and the queue.
unfoldable pub finalize_running_job : String → ℤ → Option String → After → Queue → Bool × Queue
unfolding finalize_found
finalize_running_job id rc error w q = finalize_found id rc error w (lookup id q.jobs) q

abbrev pub fallback_error : Option String → String
fallback_error error =
    let text = text_of error in
    if is_empty text then "runner_completion_reconciliation_without_return_code" else text

abbrev pub fallback_rc : Option ℤ → ℤ
fallback_rc none = negsuc 0
fallback_rc (some rc) = rc

abbrev pub job_runs : Option Job → Bool
job_runs none = false
job_runs (some job) = is_running job.status

-- `_reconcile_active_job`. Whether the executor runs is asked with the lock released.
unfoldable pub reconcile_active_job :
    String → Option ℤ → Option String → Bool → (Queue → Queue) → After → Queue → Bool × Queue
unfolding finalize_running_job is_empty
reconcile_active_job id rc error executor_runs between w q =
    let q' = between q in
    if not (job_runs (lookup id q.jobs))
    then (false, q)
    else if executor_runs
    then (false, q')
    else finalize_running_job id (fallback_rc rc) (some (fallback_error error)) w q'
