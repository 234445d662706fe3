-- ===== src/Rollback/Actions.antt =====
-- scripts/patchhub/rollback_helper_actions.py: `run_helper_action`, with the repositories before and
-- after it. `_has_selected_changes` is asked after the restore, as there.
use patchhub.Rollback.Repository.{Git, resolve_target_root}
use patchhub.Dict.{Dict, insert}
use patchhub.Rollback.Authority.{Manifests, stripped, validate_source_job_authority}
use patchhub.Rollback.Preflight.{Preflight, TokenPayload, any_item, run_rollback_preflight}
use patchhub.JobQueue.{is_some, text_of}
use patchhub.Rollback.Manifest.{str_list}
use patchhub.Rollback.{DatedJob}
use patchhub.CommandLine.{Result, err, ok}
use patchhub.Prelude.{
  Bool, List, Option, String, [], contains, false, if◌then◌else◌, none, not, some, true, ◌<>◌, ◌==◌,
  ◌||◌, ◌∷◌,
}
use patchhub.Prelude.Text.{is_empty, strip}

-- The answers of the commands of one action: the error, if there is one, and the repository.
module _ {R : Type 0} (git : Git R) where
  unfoldable pub commit_synced : String → Result Bool → R → Option String × R
  commit_synced message (err error) repo = (some error, repo)
  commit_synced message (ok false) repo = (none, repo)
  commit_synced message (ok true) repo = git.git_commit message repo

  unfoldable pub after_sync : String → List String → Option String × R → Option String × R
  unfolding commit_synced
  after_sync message paths (some error, repo) = (some error, repo)
  after_sync message paths (none, repo) =
      commit_synced message (git.git_has_changes paths repo) repo

  unfoldable pub act : String → String → Preflight → R → Option String × R
  unfolding after_sync strip is_empty
  act action id preflight repo =
      let dirty = str_list preflight.dirty_overlap in
      let synced = str_list preflight.sync_paths in
      let head = strip preflight.latest_authority_head in
      if action == "discard_dirty"
      then (if any_item dirty
          then git.git_discard dirty repo
          else (some "no overlapping dirty paths to discard", repo))
      else if action == "preserve_dirty"
      then (if any_item dirty
          then git.git_stash ("PatchHub rollback preserve " <> id) dirty repo
          else (some "no overlapping dirty paths to preserve", repo))
      else if action == "sync_to_authority"
      then (if not (any_item synced) || is_empty head
          then (some "no authority sync work is required", repo)
          else after_sync ("PatchHub sync rollback scope " <> id) synced
              (git.git_restore head synced repo))
      else (some "unsupported rollback helper action", repo)

-- The preflight before the action, and the one after it.
module _ {R : Type 0} (sorted : List String → List String) (digest : TokenPayload → String)
    (manifests : Manifests) (git : Git R) (source : DatedJob) (kind : String) (paths : List String)
    (all_jobs : List DatedJob) where
  unfoldable pub preflight_on : Dict R → String × String → Result Preflight
  unfolding run_rollback_preflight
  preflight_on roots authority =
      run_rollback_preflight sorted digest
        (record manifests { allow_filesystem_fallback = not (is_some manifests.manifest_loader) })
        git roots source authority kind paths all_jobs

  unfoldable pub after_action :
      Dict R → String × String → Option String × R → Result Preflight × Dict R
  unfolding preflight_on insert strip
  after_action roots authority (some error, repo) =
      (err error, insert (stripped source.job_row.effective_runner_target_repo) repo roots)
  after_action roots authority (none, repo) =
      let roots_after = insert (stripped source.job_row.effective_runner_target_repo) repo roots in
      (preflight_on roots_after authority, roots_after)

  unfoldable pub act_on :
      Dict R → String × String → String → Preflight → Result R → Result Preflight × Dict R
  unfolding after_action act
  act_on roots authority action preflight (err message) = (err message, roots)
  act_on roots authority action preflight (ok repo) =
      after_action roots authority (act git action source.job_row.job_id preflight repo)

  unfoldable pub after_preflight :
      Dict R → String × String → String → Result Preflight → Result Preflight × Dict R
  unfolding act_on resolve_target_root contains
  after_preflight roots authority action (err message) = (err message, roots)
  after_preflight roots authority action (ok preflight) =
      if contains ("" ∷ "refresh" ∷ "recheck" ∷ []) action
      then (ok preflight, roots)
      else act_on roots authority action preflight
          (resolve_target_root roots (text_of source.job_row.effective_runner_target_repo))

  unfoldable pub after_authority :
      Dict R → String → Result (String × String) → Result Preflight × Dict R
  unfolding after_preflight preflight_on
  after_authority roots action (err message) = (err message, roots)
  after_authority roots action (ok authority) =
      after_preflight roots authority action (preflight_on roots authority)

  unfoldable pub run_helper_action : String → Dict R → Result Preflight × Dict R
  unfolding after_authority validate_source_job_authority strip
  run_helper_action action roots =
      after_authority roots (strip action) (validate_source_job_authority source.job_row)
