-- ===== src/Rollback/Repository.antt =====
-- scripts/patchhub/rollback_preflight.py: what the preflight reads of the target repository. `Git`
-- stands for the commands the code runs on a repository: the answer of each, its error text where the
-- return code is not zero, and for those that write, the repository after it. The lists of paths
-- that the writing commands are given are pathspecs, as they are in git.
use patchhub.Prelude.{
  Bool, List, Option, String, [], contains, if◌then◌else◌, none, not, some, true, ◌++◌, ◌==◌, ◌||◌,
  ◌∷◌,
}
use patchhub.Prelude.Text.{drop_count, has_count, is_empty, split_at, strip}
use patchhub.Dict.{Dict, lookup}
use patchhub.CommandLine.{Result, err, ok, ◌>>=◌}
use patchhub.Gates.Paths.{add_distinct}
use patchhub.Rollback.{DatedJob}
use patchhub.Rollback.Authority.{stripped}
use patchhub.Rollback.Later.{common_paths}

pub record Git (R : Type 0) : Type 0 where
  pub git_head : R → Result String
  pub git_status : R → Result (List String)
  pub git_diff : String → String → R → Result (List String)
  pub git_restore : String → List String → R → Option String × R
  pub git_has_changes : List String → R → Result Bool
  pub git_commit : String → R → Option String × R
  pub git_discard : List String → R → Option String × R
  pub git_stash : String → List String → R → Option String × R

-- `_resolve_target_root`
abbrev pub known_root {ℓ} : {R : Type ℓ} → Bool → Option R → Result R
known_root true (some root) = ok root
known_root _ _ = err "unknown rollback target repo"

unfoldable pub resolve_target_root {ℓ} : {R : Type ℓ} → Dict R → String → Result R
unfolding lookup strip is_empty
resolve_target_root roots token =
    known_root (not (is_empty (strip token))) (lookup (strip token) roots)

-- `_capture_head_sha`
abbrev pub some_head : String → Result String
some_head text = if is_empty text then err "cannot capture HEAD" else ok text

unfoldable pub capture_head_sha : {R : Type 0} → Git R → R → Result String
unfolding strip is_empty
capture_head_sha git repo = do head ← git.git_head repo; some_head (strip head)

-- `_dirty_paths`, of the lines of `git status --porcelain`.
abbrev pub both_paths : String → Option (String × String) → List String
both_paths body none = body ∷ []
both_paths body (some (old, new)) = old ∷ new ∷ []

unfoldable pub dirty_candidates : List String → List String
unfolding has_count drop_count split_at
dirty_candidates [] = []
dirty_candidates (line ∷ lines) =
    let rest = dirty_candidates lines in
    if has_count 4 line
    then both_paths (drop_count 3 line) (split_at " -> " (drop_count 3 line)) ++ rest
    else rest

unfoldable pub dirty_paths : List String → List String
unfolding dirty_candidates add_distinct strip
dirty_paths lines = add_distinct strip (dirty_candidates lines) []

-- `_sync_overlap_paths`
abbrev pub sync_between :
    {R : Type 0}
    → (List String → List String)
    → Git R
    → R
    → String
    → String
    → List String
    → Result (List String)
sync_between sorted git repo latest current selected =
    if is_empty latest || latest == current then ok [] else do
      lines ← git.git_diff latest current repo
      ok (sorted (common_paths selected (add_distinct strip lines [])))

abbrev pub sync_to :
    {R : Type 0}
    → (List String → List String)
    → Git R
    → R
    → Option DatedJob
    → List String
    → Result (List String)
sync_to sorted git repo none selected = ok []
sync_to sorted git repo (some job) selected = do
  current ← capture_head_sha git repo
  sync_between sorted git repo (stripped job.job_row.run_end_sha) current selected

unfoldable pub sync_overlap_paths :
    {R : Type 0}
    → (List String → List String)
    → Git R
    → R
    → Option DatedJob
    → List String
    → Result (List String)
unfolding capture_head_sha add_distinct contains strip is_empty
sync_overlap_paths sorted git repo latest selected = sync_to sorted git repo latest selected
