-- ===== src/Rollback/Restore.antt =====
-- scripts/patchhub/asgi/rollback_runtime.py: what the steps of a rollback leave in the files.
use patchhub.Rollback.Repository.{Git}
use patchhub.Answers.{is_ok}
use patchhub.JobQueue.{text_of}
use patchhub.Rollback.Manifest.{str_list}
use patchhub.Rollback.{DatedJob}
use patchhub.Gates.Protection.{is_none}
use patchhub.Prelude.{
  Bool, List, Option, String, [], ap, arith, contains, false, if_keeps, none, not, refl, some, sym,
  true, ◌++◌, ◌||◌, ◌∙◌, ◌∷◌, ◌≡◌,
}
use patchhub.Prelude.Text.{is_empty}
use patchhub.CommandLine.{Result, err, ok}
use patchhub.Rollback.Preflight.{Preflight, any_item}
use patchhub.Rollback.Execution.{
  ExecutionStep, after_restore, after_step, apply_step, apply_steps, build_execution_steps,
  chain_steps, commit_changes, execute_plan, finish_steps, jobs_by_id, step_of,
}

-- The repository afterwards, when it was touched and when it was not.
abbrev pub or_repo {ℓ} : {R : Type ℓ} → R → Option R → R
or_repo repo none = repo
or_repo repo (some repo_after) = repo_after

-- `git commit` writes no file.
module _ {R : Type 0} (git : Git R) (file : R → String → Option String)
    (commits : (message : String) (repo : R) (p : String)
      → file (git.git_commit message repo).1 p ≡ file repo p) where
  file-commit_changes :
      (message : String) (changed : Result Bool) (repo : R) (p : String)
      → file (commit_changes git message changed repo).1 p ≡ file repo p
  unfolding commit_changes
  file-commit_changes message (err error) repo p = refl
  file-commit_changes message (ok false) repo p = refl
  file-commit_changes message (ok true) repo p = commits message repo p

  pub file-after_restore :
      (step : ExecutionStep) (done : Option String × R) (p : String)
      → file (after_restore git step done).1 p ≡ file done.1 p
  unfolding after_restore
  file-after_restore step (some error, repo) p = refl
  file-after_restore step (none, repo) p =
      file-commit_changes step.commit_message (git.git_has_changes step.step_restore_paths repo)
        repo p

  is_none-after_restore :
      (step : ExecutionStep) (done : Option String × R)
      → is_none (after_restore git step done).0 ≡ true
      → is_none done.0 ≡ true
  unfolding after_restore
  is_none-after_restore step (some error, repo) h = h
  is_none-after_restore step (none, repo) h = refl

  after_step_done :
      (rest : R → Option String × R) (done : Option String × R) (p : String) (text : Option String)
      → ((repo : R) → is_none (rest repo).0 ≡ true → file (rest repo).1 p ≡ text)
      → is_none (after_step git rest done).0 ≡ true
      → file (after_step git rest done).1 p ≡ text
  unfolding after_step
  after_step_done rest (some error, repo) p text h n = absurd (ground (arith, n))
  after_step_done rest (none, repo) p text h n = h repo n

  -- The end of the loop.
  after_step_nil : (done : Option String × R) → after_step git (λ repo. (none, repo)) done ≡ done
  unfolding after_step
  after_step_nil (some error, repo) = refl
  after_step_nil (none, repo) = refl

  pub file-finish_steps :
      (done : Option String × R) (p : String) → file (finish_steps git done).1 p ≡ file done.1 p
  unfolding finish_steps
  file-finish_steps (some error, repo) p = refl
  file-finish_steps (none, repo) p = refl

  finish_steps_done :
      (done : Option String × R)
      → is_ok (finish_steps git done).0 ≡ true
      → (is_none done.0 ≡ true) × ((finish_steps git done).1 ≡ done.1)
  unfolding finish_steps
  finish_steps_done (some error, repo) h = absurd (ground (arith, h))
  finish_steps_done (none, repo) h = (refl, refl)

-- What git documents: `git restore` that succeeds leaves the listed paths as they are at the source,
-- and `git commit` writes no file.
module _ {R : Type 0} (git : Git R) (file : R → String → Option String)
    (file_at : String → String → Option String)
    (restores : (sha : String) (paths : List String) (repo : R) (p : String)
      → contains paths p ≡ true
      → is_none (git.git_restore sha paths repo).0 ≡ true
      → file (git.git_restore sha paths repo).1 p ≡ file_at sha p)
    (commits : (message : String) (repo : R) (p : String)
      → file (git.git_commit message repo).1 p ≡ file repo p) where
  -- A step that ends without an error has restored its paths.
  file-apply_step_done :
      (step : ExecutionStep) (repo : R) (p : String)
      → contains step.step_restore_paths p ≡ true
      → is_none (apply_step git step repo).0 ≡ true
      → file (apply_step git step repo).1 p ≡ file_at step.step_start_sha p
  unfolding apply_step
  file-apply_step_done step repo p member =
      if_keeps
        (λ (done : Option String × R).
          is_none done.0 ≡ true → file done.1 p ≡ file_at step.step_start_sha p)
        (is_empty step.step_start_sha || not (any_item step.step_restore_paths)) _ _
        (λ e h. absurd (ground (arith, h)))
        (λ e h.
          let done = git.git_restore step.step_start_sha step.step_restore_paths repo in
          file-after_restore git file commits step done p
          ∙ restores step.step_start_sha step.step_restore_paths repo p member
              (is_none-after_restore git file commits step done h))

  apply_steps_last :
      (steps : List ExecutionStep) (last : ExecutionStep) (repo : R) (p : String)
      → contains last.step_restore_paths p ≡ true
      → is_none (apply_steps git (steps ++ (last ∷ [])) repo).0 ≡ true
      → file (apply_steps git (steps ++ (last ∷ [])) repo).1 p ≡ file_at last.step_start_sha p
  unfolding apply_steps
  apply_steps_last [] last repo p member h =
      let same = after_step_nil git file commits (apply_step git last repo) in
      ap (λ (done : Option String × R). file done.1 p) same
      ∙ file-apply_step_done last repo p member
          (sym (ap (λ (done : Option String × R). is_none done.0) same) ∙ h)
  apply_steps_last (step ∷ steps) last repo p member h =
      after_step_done git file commits (apply_steps git (steps ++ (last ∷ [])))
        (apply_step git step repo) p (file_at last.step_start_sha p)
        (λ r n. apply_steps_last steps last r p member n) h

  -- A rollback that ends well leaves every path that was selected for restoring as it was before the
  -- source job, whatever newer jobs were undone on the way.
  pub execute_plan-restores :
      (all_jobs : List DatedJob) (source : DatedJob) (preflight : Preflight) (repo : R) (p : String)
      → is_ok (execute_plan git all_jobs source preflight (ok repo)).0 ≡ true
      → contains (str_list preflight.selection.selected_restore_paths) p ≡ true
      → file (or_repo repo (execute_plan git all_jobs source preflight (ok repo)).1) p
        ≡ file_at (text_of source.job_row.run_start_sha) p
  unfolding execute_plan build_execution_steps
  execute_plan-restores all_jobs source preflight repo p h member =
      let chain = chain_steps (jobs_by_id all_jobs []) preflight.chain in
      let last =
        step_of "PatchHub roll-back " source.job_row.job_id
          (str_list preflight.selection.selected_restore_paths) source in
      let done = apply_steps git (chain ++ (last ∷ [])) repo in
      let ended = finish_steps_done git file commits done h in
      ap (λ r. file r p) ended.1 ∙ apply_steps_last chain last repo p member ended.0
