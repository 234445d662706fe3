-- ===== src/Rollback/Authority.antt =====
-- scripts/patchhub/rollback_preflight.py: which jobs can be rolled back, and the manifest of a job.
use patchhub.Prelude.{Bool, Option, String, if◌then◌else◌, none, not, some, ◌&&◌, ◌||◌}
use patchhub.Prelude.Text.{is_empty, strip}
use patchhub.CommandLine.{Result, err, ok}
use patchhub.JobQueue.{Job, is_blank, text_of}
use patchhub.Rollback.{RawEntries}

-- Where manifests come from: a loader when there is a database, and the file of a path and a hash.
pub record Manifests : Type 0 where
  pub manifest_loader : Option (Job → Option RawEntries)
  pub load_manifest : String → String → Result RawEntries
  pub allow_filesystem_fallback : Bool

abbrev pub stripped : Option String → String
stripped o = strip (text_of o)

-- `validate_source_job_authority`
unfoldable pub validate_source_job_authority : Job → Result (String × String)
unfolding is_blank strip
validate_source_job_authority job =
    if is_blank job.effective_runner_target_repo
      || is_blank job.run_start_sha
      || is_blank job.run_end_sha
      || is_blank job.rollback_authority_kind
      || is_blank job.rollback_authority_source_ref
    then err "source job is not rollback-capable"
    else ok
        (stripped job.rollback_scope_manifest_rel_path, stripped job.rollback_scope_manifest_hash)

-- `load_job_manifest_authority`
abbrev pub answer_of {ℓ} : {A : Type ℓ} → Result A → Option A
answer_of (ok a) = some a
answer_of (err message) = none

abbrev pub from_file : Manifests → String → String → Option RawEntries
from_file manifests rel_path manifest_hash =
    if is_empty rel_path || is_empty manifest_hash
    then none
    else answer_of (manifests.load_manifest rel_path manifest_hash)

abbrev pub after_loader : Manifests → Option RawEntries → Option RawEntries → Option RawEntries
after_loader manifests (some manifest) file = some manifest
after_loader manifests none file = if manifests.allow_filesystem_fallback then file else none

abbrev pub from_loader :
    Manifests → Job → Option (Job → Option RawEntries) → Option RawEntries → Option RawEntries
from_loader manifests job none file = file
from_loader manifests job (some loader) file = after_loader manifests (loader job) file

unfoldable pub load_job_manifest_authority : Manifests → Job → Option RawEntries
unfolding strip is_empty
load_job_manifest_authority manifests job = from_loader manifests job manifests.manifest_loader (
    from_file manifests (stripped job.rollback_scope_manifest_rel_path)
      (stripped job.rollback_scope_manifest_hash))

-- `_load_authority_manifest`
abbrev pub or_load : Manifests → String → String → Option RawEntries → Result RawEntries
or_load manifests rel_path manifest_hash (some manifest) = ok manifest
or_load manifests rel_path manifest_hash none =
    if manifests.allow_filesystem_fallback
      && not (is_empty rel_path)
      && not (is_empty manifest_hash)
    then manifests.load_manifest rel_path manifest_hash
    else err "rollback authority payload is missing"

unfoldable pub load_authority_manifest : Manifests → Job → String → String → Result RawEntries
unfolding load_job_manifest_authority is_empty
load_authority_manifest manifests job rel_path manifest_hash =
    or_load manifests rel_path manifest_hash (load_job_manifest_authority manifests job)
