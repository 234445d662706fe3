-- ===== src/Rollback/Preflight.antt =====
-- scripts/patchhub/rollback_preflight.py: `run_rollback_preflight`, and what the helper tells of it.
use patchhub.Prelude.{
  Bool, List, Option, String, [], contains, false, if◌then◌else◌, map, none, not, select, some,
  true, ◌&&◌, ◌++◌, ◌||◌, ◌∷◌,
}
use patchhub.Prelude.Text.{strip}
use patchhub.Dict.{Dict}
use patchhub.CommandLine.{Result, ok, ◌>>=◌}
use patchhub.JobQueue.{text_of}
use patchhub.Rollback.{DatedJob, NormalizedSelection}
use patchhub.Rollback.Manifest.{normalize_selected_entries}
use patchhub.Rollback.Authority.{Manifests, load_authority_manifest, stripped}
use patchhub.Rollback.Later.{
  LaterOverlapJob, common_paths, later_overlap_jobs, latest_authority_job,
}
use patchhub.Rollback.Repository.{
  Git, capture_head_sha, dirty_paths, resolve_target_root, sync_overlap_paths,
}

-- `_helper_state`. Its rows and paths, which are handed through, are left out.
pub record HelperState : Type 0 where
  pub blockers : List String
  pub advice : List String
  pub actions : List String

abbrev pub any_item {ℓ} : {A : Type ℓ} → List A → Bool
any_item [] = false
any_item (x ∷ xs) = true

abbrev pub when_list : Bool → List String → List String
when_list test items = if test then items else []

unfoldable pub helper_state : Bool → Bool → Bool → Bool → Bool → Option HelperState
helper_state dirty_overlap dirty_nonoverlap sync_paths chain_rows can_execute =
    if dirty_overlap || dirty_nonoverlap || sync_paths || chain_rows
    then some (record {
      blockers =
          when_list dirty_overlap ("Overlapping dirty paths block rollback until resolved." ∷ [])
          ++ when_list sync_paths
              ("Live selected scope differs from latest PatchHub authority state." ∷ []);
      advice =
          when_list dirty_nonoverlap
            ("Unrelated dirty paths exist, but they do not block this rollback." ∷ [])
          ++ when_list chain_rows
              ("Newer overlapping PatchHub jobs will be rolled back first." ∷ []);
      actions =
          ("refresh" ∷ [])
          ++ (when_list dirty_overlap ("preserve_dirty" ∷ "discard_dirty" ∷ [])
              ++ (when_list sync_paths ("sync_to_authority" ∷ [])
                  ++ (("scope_narrow" ∷ "scope_expand" ∷ [])
                      ++ when_list can_execute ("execute_rollback" ∷ []))));
    })
    else none

-- What `_build_token` hashes.
pub record TokenPayload : Type 0 where
  pub source_job_id : String
  pub target_repo : String
  pub manifest_hash : String
  pub token_scope_kind : String
  pub entry_ids : List String
  pub current_head : String
  pub dirty_overlap_paths : List String
  pub sync_overlap : List String
  pub chain_job_ids : List String

pub record Preflight : Type 0 where
  pub selection : NormalizedSelection
  pub payload : TokenPayload
  pub dirty_overlap : List String
  pub dirty_nonoverlap : List String
  pub sync_paths : List String
  pub latest_authority_head : String
  pub chain : List LaterOverlapJob
  pub can_execute : Bool
  pub token : String
  pub helper : Option HelperState

abbrev pub head_of_latest : Option DatedJob → String
head_of_latest none = ""
head_of_latest (some job) = text_of job.job_row.run_end_sha

abbrev pub token_payload :
    DatedJob
    → String
    → NormalizedSelection
    → String
    → List String
    → List String
    → List LaterOverlapJob
    → TokenPayload
token_payload source hash selected head dirty synced later = record {
  source_job_id = source.job_row.job_id;
  target_repo = text_of source.job_row.effective_runner_target_repo;
  manifest_hash = hash;
  token_scope_kind = selected.scope_kind;
  entry_ids = selected.selected_entry_ids;
  current_head = head;
  dirty_overlap_paths = dirty;
  sync_overlap = synced;
  chain_job_ids = map (λ (item : LaterOverlapJob). item.later_job.job_row.job_id) later;
}

abbrev pub preflight_of :
    (TokenPayload → String)
    → TokenPayload
    → NormalizedSelection
    → List String
    → List String
    → List String
    → String
    → List LaterOverlapJob
    → Preflight
preflight_of digest hashed selected overlap nonoverlap synced latest_head later =
    let ready = not (any_item overlap) && not (any_item synced) in
    record {
      selection = selected;
      payload = hashed;
      dirty_overlap = overlap;
      dirty_nonoverlap = nonoverlap;
      sync_paths = synced;
      latest_authority_head = latest_head;
      chain = later;
      can_execute = ready;
      token = digest hashed;
      helper =
          helper_state (any_item overlap) (any_item nonoverlap) (any_item synced) (any_item later)
            ready;
    }

-- `run_rollback_preflight`: from the repository's status on, from the repository on, and the whole.
module _ {R : Type 0} (sorted : List String → List String) (digest : TokenPayload → String)
    (manifests : Manifests) (git : Git R) (source : DatedJob) (all_jobs : List DatedJob)
    (hash : String) where
  unfoldable pub preflight_with : NormalizedSelection → R → String → List String → Result Preflight
  unfolding dirty_paths later_overlap_jobs latest_authority_job sync_overlap_paths helper_state
      contains strip
  preflight_with selected repo head lines =
      let restored = selected.selected_restore_paths in
      let dirty = dirty_paths lines in
      let overlap = sorted (common_paths restored dirty) in
      let nonoverlap = sorted (select (λ path. not (contains overlap path)) dirty) in
      let latest =
        latest_authority_job manifests all_jobs
          (stripped source.job_row.effective_runner_target_repo) in
      do
        later ← later_overlap_jobs sorted manifests source all_jobs restored
        synced ← sync_overlap_paths sorted git repo latest restored
        ok (
            preflight_of digest (token_payload source hash selected head overlap synced later)
              selected overlap nonoverlap synced (head_of_latest latest) later)

  unfoldable pub preflight_in : NormalizedSelection → R → Result Preflight
  unfolding preflight_with capture_head_sha
  preflight_in selected repo = do
    head ← capture_head_sha git repo
    lines ← git.git_status repo
    preflight_with selected repo head lines

unfoldable pub run_rollback_preflight :
    {R : Type 0}
    → (List String → List String)
    → (TokenPayload → String)
    → Manifests
    → Git R
    → Dict R
    → DatedJob
    → String × String
    → String
    → List String
    → List DatedJob
    → Result Preflight
unfolding load_authority_manifest normalize_selected_entries resolve_target_root preflight_in strip
run_rollback_preflight sorted digest manifests git roots source (rel_path, hash) kind paths
      all_jobs =
    do
      manifest ← load_authority_manifest manifests source.job_row rel_path hash
      selected ← normalize_selected_entries sorted manifest kind paths
      repo ← resolve_target_root roots (stripped source.job_row.effective_runner_target_repo)
      preflight_in sorted digest manifests git source all_jobs hash selected repo
