-- ===== src/Gates/Select.antt =====
-- scripts/am_patch/gates.py: `_run_gate` of `run_gates`, what each gate answers. The runners of the
-- tools, which start processes, are parameters: whether they pass, or the error they raise.
use patchhub.Prelude.{
  Bool, List, String, [], false, if◌then◌else◌, map, none, not, some, true, ◌&&◌, ◌<>◌, ◌==◌, ◌||◌,
  ◌∷◌,
}
use patchhub.Prelude.Text.{strip}
use patchhub.CommandLine.{Result, ok}
use patchhub.Gates.{Answer, ran, skip, skipped_by}
use patchhub.Gates.Paths.{add_distinct, check_docs_gate}
use patchhub.Gates.Triggers.{
  has_changed_basename, has_changed_file, has_no_prefix, norm_gate_path, run_dont_touch_gate,
  should_run_badguys, should_run_pyright,
}

pub record Tools : Type 0 where
  pub compile : Result Bool
  pub js : Result Bool
  pub biome : Result Bool
  pub typescript : Result Bool
  pub ruff : Result Bool
  pub pytest : Result Bool
  pub mypy : Result Bool
  pub pyright : Result Bool
  pub monolith : Result Bool
  pub badguys : Result Bool

pub record Settings : Type 0 where
  pub decision_paths : List String
  pub skip_dont_touch : Bool
  pub dont_touch_paths : List String
  pub compile_check : Bool
  pub skip_js : Bool
  pub skip_biome : Bool
  pub skip_typescript : Bool
  pub skip_ruff : Bool
  pub ruff_mode : String
  pub ruff_targets : List String
  pub skip_pytest : Bool
  pub pytest_mode : String
  pub pytest_py_prefixes : List String
  pub pytest_js_prefixes : List String
  pub skip_mypy : Bool
  pub mypy_mode : String
  pub mypy_targets : List String
  pub skip_pyright : Bool
  pub pyright_mode : String
  pub pyright_targets : List String
  pub skip_monolith : Bool
  pub monolith_enabled : Bool
  pub skip_docs : Bool
  pub docs_include : List String
  pub docs_exclude : List String
  pub docs_required_files : List String
  pub docs_status_entries : List (String × String)
  pub skip_badguys : Bool
  pub badguys_mode : String
  pub badguys_trigger_prefixes : List String
  pub badguys_trigger_files : List String

unfoldable pub norm_decision_paths : List String → List String
unfolding norm_gate_path
norm_decision_paths paths = map norm_gate_path paths

-- `_norm_targets(targets, fallback=[])`
unfoldable pub norm_targets : List String → List String
unfolding add_distinct strip
norm_targets targets = add_distinct strip targets []

unfoldable pub dont_touch_gate : Settings → Answer
unfolding run_dont_touch_gate
dont_touch_gate s =
    if s.skip_dont_touch
    then skipped_by "gate_dont_touch=SKIP (skipped_by_user)"
    else elim (run_dont_touch_gate s.decision_paths s.dont_touch_paths) [
      | none ↦ ran (ok true)
      | some reason ↦ ran (ok false)
    ]

unfoldable pub ruff_gate : Settings → Tools → Answer
unfolding has_changed_basename has_changed_file norm_decision_paths
ruff_gate s tools =
    let paths = norm_decision_paths s.decision_paths in
    let trigger =
      has_changed_basename paths ("pyproject.toml" ∷ [])
      || has_changed_file paths (".py" ∷ []) s.ruff_targets in
    if s.skip_ruff
    then skipped_by "gate_ruff=SKIP (skipped_by_user)"
    else if not (s.ruff_mode == "always") && not trigger
    then skipped_by "gate_ruff=SKIP (no_matching_files)"
    else ran tools.ruff

unfoldable pub pytest_gate : Settings → Tools → Answer
unfolding has_changed_basename has_changed_file norm_decision_paths
pytest_gate s tools =
    let paths = norm_decision_paths s.decision_paths in
    let trigger_py =
      has_changed_basename paths ("pyproject.toml" ∷ "pytest.ini" ∷ [])
      || has_changed_file paths (".py" ∷ []) s.pytest_py_prefixes in
    let trigger_js =
      not (has_no_prefix s.pytest_js_prefixes)
      && has_changed_file paths (".js" ∷ ".mjs" ∷ ".cjs" ∷ []) s.pytest_js_prefixes in
    if s.skip_pytest
    then skipped_by "gate_pytest=SKIP (skipped_by_user)"
    else if not (s.pytest_mode == "always") && not trigger_py && not trigger_js
    then skipped_by "gate_pytest=SKIP (no_matching_files)"
    else ran tools.pytest

unfoldable pub mypy_gate : Settings → Tools → Answer
unfolding has_changed_basename has_changed_file norm_decision_paths
mypy_gate s tools =
    let paths = norm_decision_paths s.decision_paths in
    let trigger =
      has_changed_basename paths ("pyproject.toml" ∷ [])
      || has_changed_file paths (".py" ∷ []) s.mypy_targets in
    if s.skip_mypy
    then skipped_by "gate_mypy=SKIP (skipped_by_user)"
    else if not (s.mypy_mode == "always") && not trigger
    then skipped_by "gate_mypy=SKIP (no_matching_files)"
    else ran tools.mypy

unfoldable pub pyright_gate : Settings → Tools → Answer
unfolding should_run_pyright norm_targets
pyright_gate s tools =
    let trigger = should_run_pyright s.decision_paths (norm_targets s.pyright_targets) in
    if s.skip_pyright
    then skipped_by "gate_pyright=SKIP (skipped_by_user)"
    else if not (s.pyright_mode == "always") && not trigger
    then skipped_by "gate_pyright=SKIP (no_matching_files)"
    else ran tools.pyright

unfoldable pub monolith_gate : Settings → Tools → Answer
monolith_gate s tools =
    if s.skip_monolith
    then skipped_by "gate_monolith=SKIP (skipped_by_user)"
    else if not s.monolith_enabled
    then skipped_by "gate_monolith=SKIP (disabled_by_policy)"
    else ran tools.monolith

unfoldable pub docs_gate : Settings → Answer
unfolding check_docs_gate
docs_gate s =
    let (missing, trigger) =
      check_docs_gate s.decision_paths s.docs_include s.docs_exclude s.docs_required_files
        s.docs_status_entries in
    if s.skip_docs
    then skipped_by "gate_docs=SKIP (skipped_by_user)"
    else ran (ok (has_no_prefix missing))

unfoldable pub badguys_gate : Settings → Tools → Answer
unfolding should_run_badguys
badguys_gate s tools =
    let (triggered, reason) =
      should_run_badguys s.decision_paths s.badguys_mode s.badguys_trigger_prefixes
        s.badguys_trigger_files in
    if s.skip_badguys
    then skipped_by "gate_badguys=SKIP (skipped_by_user)"
    else if not triggered
    then skipped_by ("gate_badguys=SKIP (" <> reason <> ")")
    else ran tools.badguys

abbrev unless_skipped : Bool → String → Result Bool → Answer
unless_skipped skip line tool = if skip then skipped_by line else ran tool

-- `_run_gate`
unfoldable pub run_gate : Settings → Tools → String → Answer
unfolding dont_touch_gate ruff_gate pytest_gate mypy_gate pyright_gate monolith_gate docs_gate
    badguys_gate
run_gate s tools name =
    if name == "dont-touch"
    then dont_touch_gate s
    else if name == "compile"
    then unless_skipped (not s.compile_check) "gate_compile=SKIP (disabled_by_policy)" tools.compile
    else if name == "js"
    then unless_skipped s.skip_js "gate_js=SKIP (skipped_by_user)" tools.js
    else if name == "biome"
    then unless_skipped s.skip_biome "gate_biome=SKIP (skipped_by_user)" tools.biome
    else if name == "typescript"
    then unless_skipped s.skip_typescript "gate_typescript=SKIP (skipped_by_user)" tools.typescript
    else if name == "ruff"
    then ruff_gate s tools
    else if name == "pytest"
    then pytest_gate s tools
    else if name == "mypy"
    then mypy_gate s tools
    else if name == "pyright"
    then pyright_gate s tools
    else if name == "monolith"
    then monolith_gate s tools
    else if name == "docs"
    then docs_gate s
    else if name == "badguys"
    then badguys_gate s tools
    else ran (ok true)
