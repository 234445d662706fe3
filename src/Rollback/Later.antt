-- ===== src/Rollback/Later.antt =====
-- scripts/patchhub/rollback_preflight.py: the newer jobs that a rollback has to undo first, and the
-- latest job with authority.
use patchhub.Prelude.{
  Bool, List, Option, String, [], contains, if◌then◌else◌, leb, ltb, none, not, select, some, ◌&&◌,
  ◌++◌, ◌==◌, ◌∷◌,
}
use patchhub.Prelude.Text.{strip}
use patchhub.CommandLine.{Result, err, ok, ◌>>=◌}
use patchhub.JobQueue.{is_blank, is_some, is_success, text_of}
use patchhub.Rollback.{DatedJob, NormalizedSelection, RawEntries}
use patchhub.Rollback.Manifest.{normalize_selected_entries}
use patchhub.Rollback.Authority.{
  Manifests, load_authority_manifest, load_job_manifest_authority, stripped,
}

-- `sorted(jobs, key=created, reverse=True)`, which keeps the order of jobs of one moment.
unfoldable pub insert_newest : DatedJob → List DatedJob → List DatedJob
insert_newest job [] = job ∷ []
insert_newest job (next ∷ rest) =
    let later = insert_newest job rest in
    if leb next.created_unix_ms job.created_unix_ms then job ∷ (next ∷ rest) else next ∷ later

unfoldable pub newest_first : List DatedJob → List DatedJob
unfolding insert_newest
newest_first [] = []
newest_first (job ∷ jobs) = insert_newest job (newest_first jobs)

-- `_later_overlap_jobs`
pub record LaterOverlapJob : Type 0 where
  pub later_job : DatedJob
  pub overlap_paths : List String
  pub overlap_entry_ids : List String

abbrev pub is_later : DatedJob → DatedJob → Bool
is_later source job =
    not (job.job_row.job_id == source.job_row.job_id)
    && is_success job.job_row.status
    && text_of job.job_row.effective_runner_target_repo
      == text_of source.job_row.effective_runner_target_repo
    && ltb source.created_unix_ms job.created_unix_ms

abbrev pub common_paths : List String → List String → List String
common_paths selected paths = select (λ path. contains selected path) paths

-- The second selection, which is not guarded: its error is the error of the whole.
abbrev pub narrowed :
    (List String → List String)
    → DatedJob
    → RawEntries
    → List String
    → Result (List LaterOverlapJob)
narrowed sorted job manifest [] = ok []
narrowed sorted job manifest (path ∷ paths) = do
  selected ← normalize_selected_entries sorted manifest "subset" (path ∷ paths)
  ok (
      record {
        later_job = job;
        overlap_paths = selected.selected_repo_paths;
        overlap_entry_ids = selected.selected_entry_ids;
      }
      ∷ [])

abbrev pub overlap_with :
    (List String → List String)
    → DatedJob
    → List String
    → RawEntries
    → Result NormalizedSelection
    → Result (List LaterOverlapJob)
overlap_with sorted job selected manifest (err message) = ok []
overlap_with sorted job selected manifest (ok full) =
    narrowed sorted job manifest (sorted (common_paths selected full.selected_restore_paths))

abbrev pub overlap_in :
    (List String → List String)
    → DatedJob
    → List String
    → Result RawEntries
    → Result (List LaterOverlapJob)
overlap_in sorted job selected (err message) = ok []
overlap_in sorted job selected (ok manifest) =
    overlap_with sorted job selected manifest (normalize_selected_entries sorted manifest "full" [])

unfoldable pub overlap_of :
    (List String → List String) → Manifests → List String → DatedJob → Result (List LaterOverlapJob)
unfolding normalize_selected_entries load_authority_manifest strip contains
overlap_of sorted manifests selected job = overlap_in sorted job selected (
    load_authority_manifest manifests job.job_row
      (stripped job.job_row.rollback_scope_manifest_rel_path)
      (stripped job.job_row.rollback_scope_manifest_hash))

unfoldable pub later_loop :
    (List String → List String)
    → Manifests
    → DatedJob
    → List String
    → List DatedJob
    → Result (List LaterOverlapJob)
unfolding overlap_of
later_loop sorted manifests source selected [] = ok []
later_loop sorted manifests source selected (job ∷ jobs) = do
  first ← (if is_later source job then overlap_of sorted manifests selected job else ok [])
  rest ← later_loop sorted manifests source selected jobs
  ok (first ++ rest)

unfoldable pub later_overlap_jobs :
    (List String → List String)
    → Manifests
    → DatedJob
    → List DatedJob
    → List String
    → Result (List LaterOverlapJob)
unfolding later_loop newest_first
later_overlap_jobs sorted manifests source all_jobs selected =
    later_loop sorted manifests source selected (newest_first all_jobs)

-- `_latest_authority_job`
abbrev pub has_authority : Manifests → String → DatedJob → Bool
has_authority manifests target job =
    is_success job.job_row.status
    && text_of job.job_row.effective_runner_target_repo == target
    && is_some (load_job_manifest_authority manifests job.job_row)
    && not (is_blank job.job_row.run_end_sha)

abbrev pub first_job : List DatedJob → Option DatedJob
first_job [] = none
first_job (job ∷ jobs) = some job

unfoldable pub latest_authority_job : Manifests → List DatedJob → String → Option DatedJob
unfolding load_job_manifest_authority newest_first is_blank
latest_authority_job manifests all_jobs target =
    first_job (newest_first (select (has_authority manifests target) all_jobs))
