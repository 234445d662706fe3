-- ===== src/Tests/Rollback.antt =====
-- A rollback on concrete jobs, in a repository that is a function from paths to texts.
use patchhub.Rollback.Guidance.{helper_says, is_blocked, offers_execution, preflight_of-helper_says}
use patchhub.Rollback.Outside.{execute_plan-is_outside, is_outside}
use patchhub.Rollback.Diff.{diff_entries}
use patchhub.Rollback.Repository.{Git}
use patchhub.Rollback.Selection.{selection}
use patchhub.Rollback.Coverage.{
  normalize_selected_entries-covers, normalize_selected_entries-is_distinct,
}
use patchhub.Rollback.Restore.{execute_plan-restores, or_repo}
use patchhub.Rollback.Newest.{IsChain, later_overlap_jobs-IsChain}
use patchhub.Rollback.Execution.{RollbackRequest, execute_plan, rollback_preflight_of}
use patchhub.Rollback.Preflight.{
  Preflight, TokenPayload, preflight_of, run_rollback_preflight, token_payload,
}
use patchhub.Rollback.Later.{later_overlap_jobs}
use patchhub.Rollback.Authority.{Manifests, validate_source_job_authority}
use patchhub.Rollback.Manifest.{
  by_path, manifest_entries, normalize_selected_entries, selection_of, str_list,
}
use patchhub.Rollback.{DatedJob, Entry, NormalizedSelection, RawEntries, array, object_entry}
use patchhub.JobQueue.{Job, patch, success}
use patchhub.Gates.Protection.{is_none}
use patchhub.Answers.{Answers, is_ok}
use patchhub.CommandLine.{Result, err, ok}
use patchhub.Dict.{Dict, lookup}
use patchhub.Prelude.Split.{split_all}
use patchhub.Prelude.Text.{is_empty, is_space, lstrip_if, rstrip_if, strip, strip_if, upper}
use patchhub.Prelude.{
  Bool, List, Option, String, [], ap, contains, false, if_keeps, if◌then◌else◌, is_distinct, map,
  none, not, refl, some, sym, true, ◌==◌, ◌∙◌, ◌∷◌, ◌≡◌,
}

abbrev Files : Type 0
Files = String → Option String

abbrev file : Files → String → Option String
file files p = files p

abbrev file_at : String → String → Option String
file_at sha p = if sha == "s1" then some "before" else none

abbrev restored : String → List String → Files → Files
restored sha paths files p = if contains paths p then file_at sha p else files p

abbrev git : Git Files
git = record {
  git_head = λ files. ok "h2\n";
  git_status = λ files. ok ("?? notes.txt" ∷ []);
  git_diff = λ a b files. ok [];
  git_restore = λ sha paths files. (none, restored sha paths files);
  git_has_changes = λ paths files. ok true;
  git_commit = λ message files. (none, files);
  git_discard = λ paths files. (none, restored "h2" paths files);
  git_stash = λ message paths files. (none, restored "h2" paths files);
}

if_true : {A : Type 0} {b : Bool} (x y : A) → b ≡ true → (if b then x else y) ≡ x
if_true x y h = rw h refl

if_false : {A : Type 0} {b : Bool} (x y : A) → b ≡ false → (if b then x else y) ≡ y
if_false x y h = rw h refl

restores_lem :
    (sha : String) (paths : List String) (files : Files) (p : String)
    → contains paths p ≡ true
    → is_none (git.git_restore sha paths files).0 ≡ true
    → file (git.git_restore sha paths files).1 p ≡ file_at sha p
restores_lem sha paths files p member done = if_true (file_at sha p) (files p) member

keeps_lem :
    (sha : String) (paths : List String) (files : Files) (p : String)
    → contains paths p ≡ false
    → file (git.git_restore sha paths files).1 p ≡ file files p
keeps_lem sha paths files p out = if_false (file_at sha p) (files p) out

commits_lem :
    (message : String) (files : Files) (p : String)
    → file (git.git_commit message files).1 p ≡ file files p
commits_lem message files p = refl

abbrev row : String → String → Job
row id sha = record {
  job_id = id;
  created_utc = "";
  mode = patch;
  issue_id = "7";
  canonical_command = [];
  status = success;
  started_utc = none;
  ended_utc = none;
  return_code = none;
  error = none;
  cancel_requested_utc = none;
  cancel_ack_utc = none;
  cancel_source = none;
  effective_runner_target_repo = some "main";
  run_start_sha = some sha;
  run_end_sha = some "h2";
  rollback_scope_manifest_rel_path = none;
  rollback_scope_manifest_hash = none;
  rollback_authority_kind = some "git";
  rollback_authority_source_ref = some "ref";
  applied_files = [];
  applied_files_source = "";
}

abbrev source_job : DatedJob
source_job = record { created_unix_ms = 10; job_row = row "j1" "s1" }

abbrev newer_job : DatedJob
newer_job = record { created_unix_ms = 20; job_row = row "j2" "s2" }

abbrev diff_lines : List String
diff_lines = "M\ta.py" ∷ "" ∷ "R100\tb.py\tc.py" ∷ []

abbrev entries : List Entry
entries =
    record {
      entry_id = "entry_1";
      lifecycle_kind = "modify";
      old_path = "a.py";
      new_path = "a.py";
      selection_paths = "a.py" ∷ [];
      restore_paths = "a.py" ∷ [];
    }
    ∷ record {
      entry_id = "entry_3";
      lifecycle_kind = "rename";
      old_path = "b.py";
      new_path = "c.py";
      selection_paths = "b.py" ∷ "c.py" ∷ [];
      restore_paths = "b.py" ∷ "c.py" ∷ [];
    }
    ∷ []

-- The manifest of a diff.
diff_entries_run : diff_entries 1 diff_lines ≡ ok entries
unfolding diff_entries strip strip_if lstrip_if rstrip_if is_empty is_space split_all upper
diff_entries_run = refl

abbrev manifest : RawEntries
manifest = array (map (λ (entry : Entry). object_entry entry) entries)

abbrev manifests : Manifests
manifests = record {
  manifest_loader = some (λ job. some manifest);
  load_manifest = λ rel_path hash. err "missing";
  allow_filesystem_fallback = false;
}

abbrev unsorted : List String → List String
unsorted paths = paths

unsorted_lem : (paths : List String) (p : String) → contains (unsorted paths) p ≡ contains paths p
unsorted_lem paths p = refl

later_overlap_jobs-IsChain_example :
    Answers
      (IsChain source_job)
      (later_overlap_jobs unsorted manifests source_job (source_job ∷ newer_job ∷ []) ("a.py" ∷ []))
later_overlap_jobs-IsChain_example =
    later_overlap_jobs-IsChain unsorted manifests source_job (source_job ∷ newer_job ∷ [])
      ("a.py" ∷ [])

abbrev request : RollbackRequest
request = record {
  source_id = "j1";
  request_scope_kind = "subset";
  request_repo_paths = "a.py" ∷ [];
  rollback_preflight_token = "h2";
}

abbrev head_token : TokenPayload → String
head_token hashed = hashed.current_head

abbrev roots : Dict Files
roots = ("main", λ p. some "now") ∷ []

abbrev repo_files : Files
repo_files p = some "now"

abbrev blank_preflight : Preflight
blank_preflight =
    preflight_of head_token
      (token_payload source_job "" (selection_of unsorted "full" []) "" [] [] [])
      (selection_of unsorted "full" []) [] [] [] "" []

abbrev answer_or : Result Preflight → Preflight
answer_or (ok preflight) = preflight
answer_or (err message) = blank_preflight

abbrev all_jobs : List DatedJob
all_jobs = source_job ∷ newer_job ∷ []

abbrev seen : Result Preflight
seen = rollback_preflight_of unsorted head_token manifests git roots request source_job all_jobs

ended_well : is_ok (execute_plan git all_jobs source_job (answer_or seen) (ok repo_files)).0 ≡ true
unfolding execute_plan validate_source_job_authority run_rollback_preflight is_empty
ended_well = refl

chosen_a : contains (str_list (answer_or seen).selection.selected_restore_paths) "a.py" ≡ true
unfolding contains validate_source_job_authority run_rollback_preflight is_empty
chosen_a = refl

execute_plan-restores_example :
    file
      (or_repo repo_files (execute_plan git all_jobs source_job (answer_or seen) (ok repo_files)).1)
      "a.py"
    ≡ file_at "s1" "a.py"
execute_plan-restores_example =
    execute_plan-restores git file file_at restores_lem commits_lem all_jobs source_job
      (answer_or seen) repo_files "a.py" ended_well chosen_a

outside_b : is_outside contains "b.py" (answer_or seen) ≡ true
unfolding contains validate_source_job_authority run_rollback_preflight is_empty
outside_b = refl

execute_plan-is_outside_example :
    file
      (or_repo repo_files (execute_plan git all_jobs source_job (answer_or seen) (ok repo_files)).1)
      "b.py"
    ≡ some "now"
execute_plan-is_outside_example =
    execute_plan-is_outside git file contains keeps_lem commits_lem all_jobs source_job
      (answer_or seen) repo_files "b.py" outside_b

-- Of a table with one entry, both entries that are found are that one.
abbrev one_entry : List Entry
one_entry =
    record {
      entry_id = "entry_1";
      lifecycle_kind = "modify";
      old_path = "a.py";
      new_path = "a.py";
      selection_paths = "a.py" ∷ [];
      restore_paths = "a.py" ∷ [];
    }
    ∷ []

abbrev paths_at : Option Entry → List String
paths_at none = "a.py" ∷ []
paths_at (some entry) = selection entry

one_path : (p : String) → paths_at (lookup p (by_path one_entry [])) ≡ "a.py" ∷ []
unfolding lookup by_path is_empty
one_path p =
    if_keeps (λ (found : Option Entry). paths_at found ≡ "a.py" ∷ []) ("a.py" == p) _ _ (λ e. refl)
      (λ e. refl)

one_id :
    (a b : String) (first second : Entry)
    → lookup a (by_path one_entry []) ≡ some first
    → lookup b (by_path one_entry []) ≡ some second
    → first.entry_id ≡ second.entry_id
    → selection first ≡ selection second
one_id a b first second at_a at_b same =
    sym (ap paths_at at_a) ∙ (one_path a ∙ (sym (one_path b) ∙ ap paths_at at_b))

one_read :
    manifest_entries (array (map (λ (entry : Entry). object_entry entry) one_entry)) ≡ ok one_entry
unfolding manifest_entries
one_read = refl

is_subset : strip " subset" ≡ "subset"
unfolding strip strip_if lstrip_if rstrip_if is_empty is_space
is_subset = refl

a_asked : contains ("a.py" ∷ []) "a.py" ≡ true
unfolding contains
a_asked = refl

a_named : is_empty (strip "a.py") ≡ false
unfolding strip strip_if lstrip_if rstrip_if is_empty is_space
a_named = refl

normalize_selected_entries-covers_example :
    Answers
      (λ (selected : NormalizedSelection).
        contains selected.selected_repo_paths (strip "a.py") ≡ true)
      (normalize_selected_entries unsorted
        (array (map (λ (entry : Entry). object_entry entry) one_entry))
        " subset"
        ("a.py" ∷ []))
normalize_selected_entries-covers_example =
    normalize_selected_entries-covers unsorted unsorted_lem
      (array (map (λ (entry : Entry). object_entry entry) one_entry)) one_entry " subset"
      ("a.py" ∷ []) "a.py" one_id one_read is_subset a_asked a_named

normalize_selected_entries-is_distinct_example :
    Answers
      (λ (selected : NormalizedSelection). is_distinct selected.selected_entry_ids ≡ true)
      (normalize_selected_entries unsorted manifest " subset" ("b.py" ∷ "c.py" ∷ []))
normalize_selected_entries-is_distinct_example =
    normalize_selected_entries-is_distinct unsorted manifest " subset" ("b.py" ∷ "c.py" ∷ [])
      is_subset

abbrev dirty_preflight : Preflight
dirty_preflight =
    preflight_of head_token
      (token_payload source_job "" (selection_of unsorted "full" []) "" ("a.py" ∷ []) [] [])
      (selection_of unsorted "full" []) ("a.py" ∷ []) [] [] "" []

preflight_of-helper_says_example :
    (helper_says is_blocked false dirty_preflight.helper ≡ not dirty_preflight.can_execute)
    × (helper_says offers_execution true dirty_preflight.helper ≡ dirty_preflight.can_execute)
preflight_of-helper_says_example =
    preflight_of-helper_says head_token
      (token_payload source_job "" (selection_of unsorted "full" []) "" ("a.py" ∷ []) [] [])
      (selection_of unsorted "full" []) ("a.py" ∷ []) [] [] "" []
