-- ===== src/Rollback.antt =====
-- scripts/patchhub/rollback_scope_manifest.py, rollback_preflight.py, rollback_helper_actions.py and
-- asgi/rollback_runtime.py: what a rollback of a job restores, what stands in its way, and its
-- execution. `git`, the files of manifests, JSON and SHA-256 are arguments.
pub mod Diff
pub mod Manifest
pub mod Selection
pub mod Authority
pub mod Later
pub mod Repository
pub mod Preflight
pub mod Coverage
pub mod Readiness
pub mod Execution
pub mod Actions
pub mod Guidance
pub mod Ordered
pub mod Newest
pub mod Restore
pub mod Outside
use patchhub.Prelude.{List, String, ℕ}
use patchhub.JobQueue.{Job}

-- The entry of one path, or of a renamed pair. Its `source_descriptor` is left out.
pub record Entry : Type 0 where
  pub entry_id : String
  pub lifecycle_kind : String
  pub old_path : String
  pub new_path : String
  pub selection_paths : List String
  pub restore_paths : List String

-- An item of the manifest's array, when it is a JSON object and when it is not.
pub data RawEntry : Type 0 where
  object_entry : Entry → RawEntry
  no_object : RawEntry

-- The value under `entries`: missing or null, no array, or an array.
pub data RawEntries : Type 0 where
  absent no_array : RawEntries
  array : List RawEntry → RawEntries

pub record NormalizedSelection : Type 0 where
  pub scope_kind : String
  pub selected_entries : List Entry
  pub selected_entry_ids : List String
  pub selected_repo_paths : List String
  pub selected_restore_paths : List String

-- A job with the field that orders the jobs.
pub record DatedJob : Type 0 where
  pub created_unix_ms : ℕ
  pub job_row : Job
