-- ===== src/Rollback/Outside.antt =====
-- scripts/patchhub/asgi/rollback_runtime.py: what a rollback leaves alone. The path arguments of git are
-- pathspecs: one can match the files of a directory, or several files by a pattern, so that which
-- paths a list of them matches is a parameter.
use patchhub.Rollback.Repository.{Git}
use patchhub.Prelude.{
  Bool, List, Option, Option-cases, String, [], arith, false, if_keeps, inl, inr, none, not, refl,
  some, true, ◌&&◌, ◌++◌, ◌||◌, ◌∙◌, ◌∷◌, ◌≡◌,
}
use patchhub.Prelude.Text.{is_empty}
use patchhub.Dict.{Dict, lookup}
use patchhub.Rollback.{DatedJob}
use patchhub.Rollback.Later.{LaterOverlapJob}
use patchhub.Rollback.Manifest.{str_list}
use patchhub.CommandLine.{ok}
use patchhub.Rollback.Preflight.{Preflight, any_item}
use patchhub.Rollback.Execution.{
  ExecutionStep, after_step, apply_step, apply_steps, build_execution_steps, chain_steps,
  execute_plan, jobs_by_id, step_of,
}
use patchhub.Rollback.Restore.{file-after_restore, file-finish_steps, or_repo}

-- The pathspecs of the steps, as the preflight has them: those of the newer jobs, and those selected.
abbrev pub chain_misses : (List String → String → Bool) → String → List LaterOverlapJob → Bool
chain_misses matched p [] = true
chain_misses matched p (item ∷ items) =
    not (matched (str_list item.overlap_paths) p) && chain_misses matched p items

abbrev pub is_outside : (List String → String → Bool) → String → Preflight → Bool
is_outside matched p preflight =
    chain_misses matched p preflight.chain
    && not (matched (str_list preflight.selection.selected_restore_paths) p)

abbrev steps_miss : (List String → String → Bool) → String → List ExecutionStep → Bool
steps_miss matched p [] = true
steps_miss matched p (step ∷ steps) =
    not (matched step.step_restore_paths p) && steps_miss matched p steps

steps_miss-chain_steps :
    (matched : List String → String → Bool) (p : String) (table : Dict DatedJob)
    (items : List LaterOverlapJob) (last : ExecutionStep)
    → chain_misses matched p items ≡ true
    → matched last.step_restore_paths p ≡ false
    → steps_miss matched p (chain_steps table items ++ (last ∷ [])) ≡ true
unfolding chain_steps
steps_miss-chain_steps matched p table [] last h miss = ground (arith, miss)
steps_miss-chain_steps matched p table (item ∷ items) last h miss =
    let rest = steps_miss-chain_steps matched p table items last in
    elim (Option-cases (lookup item.later_job.job_row.job_id table)) [
      | inl none_found ↦ rw none_found (rest (ground (arith, h)) miss)
      | inr (job, found) ↦ rw found (ground (arith, h, miss, rest))
    ]

-- What git documents: `git restore` writes no path that its pathspecs do not match, and `git commit`
-- writes no file.
module _ {R : Type 0} (git : Git R) (file : R → String → Option String)
    (matched : List String → String → Bool)
    (keeps : (sha : String) (specs : List String) (repo : R) (p : String)
      → matched specs p ≡ false
      → file (git.git_restore sha specs repo).1 p ≡ file repo p)
    (commits : (message : String) (repo : R) (p : String)
      → file (git.git_commit message repo).1 p ≡ file repo p) where
  file-apply_step :
      (step : ExecutionStep) (repo : R) (p : String)
      → matched step.step_restore_paths p ≡ false
      → file (apply_step git step repo).1 p ≡ file repo p
  unfolding apply_step
  file-apply_step step repo p out =
      if_keeps (λ (done : Option String × R). file done.1 p ≡ file repo p)
        (is_empty step.step_start_sha || not (any_item step.step_restore_paths)) _ _ (λ e. refl)
        (λ e.
          file-after_restore git file commits step
            (git.git_restore step.step_start_sha step.step_restore_paths repo) p
          ∙ keeps step.step_start_sha step.step_restore_paths repo p out)

  file-after_step :
      (rest : R → Option String × R) (done : Option String × R) (p : String)
      → ((repo : R) → file (rest repo).1 p ≡ file repo p)
      → file (after_step git rest done).1 p ≡ file done.1 p
  unfolding after_step
  file-after_step rest (some error, repo) p h = refl
  file-after_step rest (none, repo) p h = h repo

  -- The steps, whether they succeed or fail, leave every path that none of them matches as it was.
  file-apply_steps :
      (steps : List ExecutionStep) (repo : R) (p : String)
      → steps_miss matched p steps ≡ true
      → file (apply_steps git steps repo).1 p ≡ file repo p
  unfolding apply_steps
  file-apply_steps [] repo p out = refl
  file-apply_steps (step ∷ steps) repo p out =
      file-after_step (apply_steps git steps) (apply_step git step repo) p
        (λ r. file-apply_steps steps r p (ground (arith, out)))
      ∙ file-apply_step step repo p (ground (arith, out))

  -- A rollback, also one that fails half-way, touches no path that neither the pathspecs of the
  -- selection nor those of the newer jobs match.
  pub execute_plan-is_outside :
      (all_jobs : List DatedJob) (source : DatedJob) (preflight : Preflight) (repo : R) (p : String)
      → is_outside matched p preflight ≡ true
      → file (or_repo repo (execute_plan git all_jobs source preflight (ok repo)).1) p ≡ file repo p
  unfolding execute_plan build_execution_steps
  execute_plan-is_outside all_jobs source preflight repo p out =
      let last =
        step_of "PatchHub roll-back " source.job_row.job_id
          (str_list preflight.selection.selected_restore_paths) source in
      let steps = chain_steps (jobs_by_id all_jobs []) preflight.chain ++ (last ∷ []) in
      file-finish_steps git file commits (apply_steps git steps repo) p
      ∙ file-apply_steps steps repo p (
          steps_miss-chain_steps matched p (jobs_by_id all_jobs []) preflight.chain last
            (ground (arith, out)) (ground (arith, out)))
