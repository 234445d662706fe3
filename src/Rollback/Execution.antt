-- ===== src/Rollback/Execution.antt =====
-- scripts/patchhub/asgi/rollback_runtime.py: `RollbackJobHandler.run`, on the repositories by their
-- tokens. Its log lines and events are left out. A failure keeps what was done before it. The rollback
-- job has the target of its source job, so the head at the end is that of the same repository.
use patchhub.Rollback.Repository.{Git, capture_head_sha}
use patchhub.Prelude.{
  Bool, List, Option, String, [], false, if◌then◌else◌, none, not, some, true, ◌++◌, ◌<>◌, ◌==◌,
  ◌||◌, ◌∷◌,
}
use patchhub.Prelude.Text.{is_empty, strip}
use patchhub.Dict.{Dict, insert, lookup}
use patchhub.CommandLine.{Result, err, ok, ◌>>=◌}
use patchhub.JobQueue.{text_of}
use patchhub.Rollback.{DatedJob}
use patchhub.Rollback.Manifest.{str_list}
use patchhub.Rollback.Authority.{Manifests, stripped, validate_source_job_authority}
use patchhub.Rollback.Later.{LaterOverlapJob}
use patchhub.Rollback.Preflight.{Preflight, TokenPayload, any_item, run_rollback_preflight}

pub record RollbackRequest : Type 0 where
  pub source_id : String
  pub request_scope_kind : String
  pub request_repo_paths : List String
  pub rollback_preflight_token : String

pub record ExecutionStep : Type 0 where
  pub step_start_sha : String
  pub step_restore_paths : List String
  pub commit_message : String

-- `_build_execution_steps`, with the jobs as they are by then, by their ids.
unfoldable pub jobs_by_id : List DatedJob → Dict DatedJob → Dict DatedJob
unfolding insert
jobs_by_id [] table = table
jobs_by_id (job ∷ jobs) table = jobs_by_id jobs (insert job.job_row.job_id job table)

abbrev pub step_of : String → String → List String → DatedJob → ExecutionStep
step_of prefix id paths job = record {
  step_start_sha = text_of job.job_row.run_start_sha;
  step_restore_paths = paths;
  commit_message = prefix <> id;
}

abbrev pub chain_step : LaterOverlapJob → Option DatedJob → List ExecutionStep
chain_step item none = []
chain_step item (some job) =
    step_of "PatchHub roll-back overlap " job.job_row.job_id (str_list item.overlap_paths) job ∷ []

unfoldable pub chain_steps : Dict DatedJob → List LaterOverlapJob → List ExecutionStep
unfolding lookup is_empty
chain_steps table [] = []
chain_steps table (item ∷ items) =
    chain_step item (lookup item.later_job.job_row.job_id table) ++ chain_steps table items

unfoldable pub build_execution_steps : List DatedJob → DatedJob → Preflight → List ExecutionStep
unfolding chain_steps jobs_by_id is_empty
build_execution_steps all_jobs source preflight =
    chain_steps (jobs_by_id all_jobs []) preflight.chain
    ++ (step_of "PatchHub roll-back " source.job_row.job_id
          (str_list preflight.selection.selected_restore_paths) source
        ∷ [])

-- `_apply_step`: the error, if there is one, and the repository after the step.
module _ {R : Type 0} (git : Git R) where
  unfoldable pub commit_changes : String → Result Bool → R → Option String × R
  commit_changes message (err error) repo = (some error, repo)
  commit_changes message (ok false) repo = (none, repo)
  commit_changes message (ok true) repo = git.git_commit message repo

  unfoldable pub after_restore : ExecutionStep → Option String × R → Option String × R
  unfolding commit_changes
  after_restore step (some error, repo) = (some error, repo)
  after_restore step (none, repo) =
      commit_changes step.commit_message (git.git_has_changes step.step_restore_paths repo) repo

  unfoldable pub apply_step : ExecutionStep → R → Option String × R
  unfolding after_restore is_empty
  apply_step step repo =
      if is_empty step.step_start_sha || not (any_item step.step_restore_paths)
      then (some "rollback step is missing run_start_sha or restore paths", repo)
      else after_restore step (git.git_restore step.step_start_sha step.step_restore_paths repo)

  -- The loop over the steps ends at the first that fails.
  unfoldable pub after_step : (R → Option String × R) → Option String × R → Option String × R
  after_step rest (some error, repo) = (some error, repo)
  after_step rest (none, repo) = rest repo

  unfoldable pub apply_steps : List ExecutionStep → R → Option String × R
  unfolding after_step apply_step
  apply_steps [] repo = (none, repo)
  apply_steps (step ∷ steps) repo = after_step (apply_steps steps) (apply_step step repo)

  -- What follows the steps: the job's `run_end_sha`.
  abbrev pub final_head : Result String → Result String
  final_head (ok head) = ok head
  final_head (err message) = err ("rollback commit created but cannot capture HEAD: " <> message)

  unfoldable pub finish_steps : Option String × R → Result String × R
  unfolding capture_head_sha
  finish_steps (some error, repo) = (err error, repo)
  finish_steps (none, repo) = (final_head (capture_head_sha git repo), repo)

-- `RollbackJobHandler.run`
abbrev pub rollback_preflight_of :
    {R : Type 0}
    → (List String → List String)
    → (TokenPayload → String)
    → Manifests
    → Git R
    → Dict R
    → RollbackRequest
    → DatedJob
    → List DatedJob
    → Result Preflight
rollback_preflight_of sorted digest manifests git roots request source all_jobs = do
  authority ← validate_source_job_authority source.job_row
  run_rollback_preflight sorted digest manifests git roots source authority
      request.request_scope_kind request.request_repo_paths all_jobs

-- The end of `run`: with a preflight, the job's answer and the target repository. `none` for the
-- repository says that it was not touched.
unfoldable pub execute_plan :
    {R : Type 0}
    → Git R
    → List DatedJob
    → DatedJob
    → Preflight
    → Result R
    → Result String × Option R
unfolding build_execution_steps apply_steps finish_steps
execute_plan git all_jobs source preflight (err message) = (err message, none)
execute_plan git all_jobs source preflight (ok repo) =
    let done =
      finish_steps git (apply_steps git (build_execution_steps all_jobs source preflight) repo) in
    (done.0, some done.1)

-- `_resolve_target_root` of the handler.
abbrev pub root_or_error : {R : Type 0} → Option R → Result R
root_or_error none = err "unknown rollback target repo"
root_or_error (some repo) = ok repo

unfoldable pub run_preflight :
    {R : Type 0}
    → Git R
    → Dict R
    → RollbackRequest
    → List DatedJob
    → DatedJob
    → Result Preflight
    → Result String × Option R
unfolding execute_plan lookup strip
run_preflight git roots request all_jobs source (err message) =
    (err ("rollback preflight failed: " <> message), none)
run_preflight git roots request all_jobs source (ok preflight) =
    if not (preflight.token == request.rollback_preflight_token)
    then (err "rollback state changed after preview", none)
    else if not preflight.can_execute
    then (err "rollback cannot execute until guided blockers are resolved", none)
    else execute_plan git all_jobs source preflight
        (root_or_error (lookup (stripped source.job_row.effective_runner_target_repo) roots))

unfoldable pub run_source :
    {R : Type 0}
    → (List String → List String)
    → (TokenPayload → String)
    → Manifests
    → Git R
    → Dict R
    → RollbackRequest
    → List DatedJob
    → List DatedJob
    → Option DatedJob
    → Result String × Option R
unfolding run_preflight run_rollback_preflight validate_source_job_authority
run_source sorted digest manifests git roots request all_jobs later_jobs none =
    (err "rollback source job not found", none)
run_source sorted digest manifests git roots request all_jobs later_jobs (some source) =
    run_preflight git roots request later_jobs source
      (rollback_preflight_of sorted digest manifests git roots request source all_jobs)
