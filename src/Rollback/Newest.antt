-- ===== src/Rollback/Newest.antt =====
-- scripts/patchhub/rollback_preflight.py: the order in which newer jobs are undone.
use patchhub.Rollback.Ordered.{
  all_until, all_until_later, is_newest_first, is_newest_first-newest_first,
}
use patchhub.JobQueue.{Status, canceled, fail, is_success, queued, running, success, unknown}
use patchhub.Answers.{Answers, Answers-bind, Answers-then, Answers-weaken}
use patchhub.Rollback.Later.{
  LaterOverlapJob, common_paths, is_later, later_loop, later_overlap_jobs, narrowed, newest_first,
  overlap_in, overlap_of, overlap_with,
}
use patchhub.Rollback.Authority.{Manifests, load_authority_manifest, stripped}
use patchhub.Rollback.Manifest.{normalize_selected_entries}
use patchhub.Rollback.{DatedJob, NormalizedSelection, RawEntries}
use patchhub.CommandLine.{Result, err, ok}
use patchhub.Prelude.{
  All, Bool-cases, List, String, [], ap, arith, eq_iff, false, inl, inr, leb, map, none, refl, some,
  true, ℕ, ◌++◌, ◌<◌, ◌∙◌, ◌∷◌, ◌≡◌, ◌≢◌,
}

-- What one job adds: itself, or nothing.
abbrev IsOf : DatedJob → List LaterOverlapJob → Type 0
IsOf job [] = Unit
IsOf job (item ∷ []) = item.later_job ≡ job
IsOf job (item ∷ next ∷ rest) = true ≡ false

narrowed-IsOf :
    (sorted : List String → List String) (job : DatedJob) (manifest : RawEntries)
    (paths : List String)
    → Answers (IsOf job) (narrowed sorted job manifest paths)
narrowed-IsOf sorted job manifest [] = tt
narrowed-IsOf sorted job manifest (path ∷ paths) =
    Answers-bind (IsOf job) (normalize_selected_entries sorted manifest "subset" (path ∷ paths)) _
      (λ selected. refl)

overlap_with-IsOf :
    (sorted : List String → List String) (job : DatedJob) (selected : List String)
    (manifest : RawEntries) (full : Result NormalizedSelection)
    → Answers (IsOf job) (overlap_with sorted job selected manifest full)
overlap_with-IsOf sorted job selected manifest (err message) = tt
overlap_with-IsOf sorted job selected manifest (ok full) =
    narrowed-IsOf sorted job manifest (sorted (common_paths selected full.selected_restore_paths))

overlap_in-IsOf :
    (sorted : List String → List String) (job : DatedJob) (selected : List String)
    (manifest : Result RawEntries)
    → Answers (IsOf job) (overlap_in sorted job selected manifest)
overlap_in-IsOf sorted job selected (err message) = tt
overlap_in-IsOf sorted job selected (ok manifest) =
    overlap_with-IsOf sorted job selected manifest
      (normalize_selected_entries sorted manifest "full" [])

overlap_of-IsOf :
    (sorted : List String → List String) (manifests : Manifests) (selected : List String)
    (job : DatedJob)
    → Answers (IsOf job) (overlap_of sorted manifests selected job)
unfolding overlap_of
overlap_of-IsOf sorted manifests selected job = overlap_in-IsOf sorted job selected (
    load_authority_manifest manifests job.job_row
      (stripped job.job_row.rollback_scope_manifest_rel_path)
      (stripped job.job_row.rollback_scope_manifest_hash))

-- The jobs to undo, and what is known of them.
abbrev pub jobs_of : List LaterOverlapJob → List DatedJob
jobs_of items = map (λ (item : LaterOverlapJob). item.later_job) items

-- The target repository as it is written, with none read as the empty name.
abbrev pub target_of : DatedJob → String
target_of job = elim job.job_row.effective_runner_target_repo [ none ↦ "" | some name ↦ name ]

success_of : (s : Status) → is_success s ≡ true → s ≡ success
success_of queued h = cc
success_of running h = cc
success_of success h = refl
success_of fail h = cc
success_of canceled h = cc
success_of unknown h = cc

-- What a rollback of `source` asks of a job that it undoes first.
abbrev pub IsNewerSuccess : DatedJob → DatedJob → Type 0
IsNewerSuccess source job =
    (job.job_row.job_id ≢ source.job_row.job_id)
    × (job.job_row.status ≡ success)
    × (target_of job ≡ target_of source)
    × (source.created_unix_ms < job.created_unix_ms)

is_later-IsNewerSuccess :
    (source job : DatedJob) → is_later source job ≡ true → IsNewerSuccess source job
is_later-IsNewerSuccess source job h = (
  ground (arith, eq_iff job.job_row.job_id source.job_row.job_id),
  success_of job.job_row.status (ground arith),
  ground (arith, eq_iff (target_of job) (target_of source)),
  ground arith,
)

abbrev pub IsChain : DatedJob → List LaterOverlapJob → Type 0
IsChain source items =
    (is_newest_first (jobs_of items) ≡ true) × All (IsNewerSuccess source) (jobs_of items)

-- A chain of jobs that are no newer than a moment.
abbrev ChainUntil : DatedJob → ℕ → List LaterOverlapJob → Type 0
ChainUntil source n items = IsChain source items × (all_until n (jobs_of items) ≡ true)

ChainUntil-append :
    (source job : DatedJob) (n : ℕ) (first rest : List LaterOverlapJob)
    → leb job.created_unix_ms n ≡ true
    → is_later source job ≡ true
    → IsOf job first
    → ChainUntil source job.created_unix_ms rest
    → ChainUntil source n (first ++ rest)
unfolding all_until is_newest_first
ChainUntil-append source job n [] rest le later is_of (chain, until) =
    (chain, all_until_later job.created_unix_ms n (jobs_of rest) (ground (arith, le)) until)
ChainUntil-append source job n (item ∷ []) rest le later is_of ((newest, all), until) =
    let same : item.later_job.created_unix_ms ≡ job.created_unix_ms =
      ap (λ (j : DatedJob). j.created_unix_ms) is_of in
    let newer : IsNewerSuccess source item.later_job =
      is_later-IsNewerSuccess source item.later_job (ap (is_later source) is_of ∙ later) in
    (
      (
        ground (
          arith,
          same,
          newest,
          until,
          all_until_later job.created_unix_ms item.later_job.created_unix_ms (jobs_of rest)
              (omega (arith, same)),
        ),
        (newer, all),
      ),
      ground (
        arith,
        same,
        le,
        all_until_later job.created_unix_ms n (jobs_of rest) (ground (arith, le)),
        until,
      ),
    )
ChainUntil-append source job n (item ∷ next ∷ more) rest le later is_of chain =
    absurd (ground (arith, is_of))

later_loop-ChainUntil :
    (sorted : List String → List String) (manifests : Manifests) (source : DatedJob)
    (selected : List String) (n : ℕ) (jobs : List DatedJob)
    → all_until n jobs ≡ true
    → is_newest_first jobs ≡ true
    → Answers (ChainUntil source n) (later_loop sorted manifests source selected jobs)
unfolding later_loop all_until is_newest_first
later_loop-ChainUntil sorted manifests source selected n [] until newest = ((refl, tt), refl)
later_loop-ChainUntil sorted manifests source selected n (job ∷ jobs) until newest =
    let rest = later_loop sorted manifests source selected jobs in
    let chain : Answers (ChainUntil source job.created_unix_ms) rest =
      later_loop-ChainUntil sorted manifests source selected job.created_unix_ms jobs
        (ground (arith, newest)) (ground (arith, newest)) in
    let le : leb job.created_unix_ms n ≡ true = ground (arith, until) in
    elim (Bool-cases (is_later source job)) [
      | inl later ↦ rw later (
          Answers-then (IsOf job) (ChainUntil source n) (overlap_of sorted manifests selected job) _
            (overlap_of-IsOf sorted manifests selected job)
            (λ first is_of.
              Answers-then (ChainUntil source job.created_unix_ms) (ChainUntil source n) rest _
                chain
                (λ items more. ChainUntil-append source job n first items le later is_of more)))
      | inr not_later ↦ rw not_later (
          Answers-then (ChainUntil source job.created_unix_ms) (ChainUntil source n) rest _ chain
            (λ items more. (
              more.0,
              all_until_later job.created_unix_ms n (jobs_of items) (ground (arith, le)) more.1,
            )))
    ]

abbrev newest_of : List DatedJob → ℕ
newest_of [] = 0
newest_of (job ∷ jobs) = job.created_unix_ms

all_until-newest_of :
    (jobs : List DatedJob) → is_newest_first jobs ≡ true → all_until (newest_of jobs) jobs ≡ true
unfolding all_until is_newest_first
all_until-newest_of [] h = refl
all_until-newest_of (job ∷ jobs) h = ground (arith, h)

-- The jobs that a rollback undoes first are created later than the source job, ended as a success,
-- have the same target repository and another id, and they are undone from the newest on.
pub later_overlap_jobs-IsChain :
    (sorted : List String → List String) (manifests : Manifests) (source : DatedJob)
    (all_jobs : List DatedJob) (selected : List String)
    → Answers (IsChain source) (later_overlap_jobs sorted manifests source all_jobs selected)
unfolding later_overlap_jobs
later_overlap_jobs-IsChain sorted manifests source all_jobs selected =
    let jobs = newest_first all_jobs in
    let newest = is_newest_first-newest_first all_jobs in
    Answers-weaken (ChainUntil source (newest_of jobs)) (IsChain source)
      (later_loop sorted manifests source selected jobs)
      (later_loop-ChainUntil sorted manifests source selected (newest_of jobs) jobs
        (all_until-newest_of jobs newest) newest)
      (λ items chain. chain.0)
