-- ===== src/Tests/Tools.antt =====
-- The command line, the gates and the scope of a patch on concrete data.
use patchhub.Dict.{Dict}
use patchhub.Prelude.Text.{is_empty, is_space, lstrip_if, rstrip_if, strip, strip_if}
use patchhub.Prelude.{
  Bool, List, String, [], contains, false, is_distinct, map, not, refl, select, true, ◌&&◌, ◌==◌,
  ◌∷◌, ◌≡◌,
}
use patchhub.CommandLine.{err, ok}
use patchhub.CommandLine.GateArgv.{build_gate_argv, validate_gate_argv}
use patchhub.CommandLine.GateArgv.Canonical.{validate_gate_argv-build_gate_argv}
use patchhub.Gates.{Answer, gate_names, norm_gates_order, run_gates}
use patchhub.Gates.Select.{Settings, Tools, run_gate}
use patchhub.Gates.Order.{Ends, all_shown, any_of, fails, is_mode, raises, run_gates-Ends, tried}
use patchhub.Gates.Names.{contains-norm_gates_order, is_asked}
use patchhub.Gates.Triggers.{run_dont_touch_gate}
use patchhub.Gates.Protection.{any_covered, is_none, is_none-run_dont_touch_gate}
use patchhub.Scope.Delta.{contains-delta_paths}
use patchhub.Scope.{
  ScopeOptions, default_workfiles, delta_paths, enforce_scope_delta, is_touched, normalize_path,
}
use patchhub.Scope.Enforce.{enforce_scope_delta-accepts, is_accepted, may_leave, may_touch}

abbrev states : Dict Bool
states = ("skip_ruff", true) ∷ ("skip_docs", false) ∷ []

validate_gate_argv-build_gate_argv_example :
    validate_gate_argv (build_gate_argv states) ≡ ok (build_gate_argv states)
validate_gate_argv-build_gate_argv_example = validate_gate_argv-build_gate_argv states

abbrev settings : Settings
settings = record {
  decision_paths = "scripts/a.py" ∷ "docs/b.md" ∷ [];
  skip_dont_touch = false;
  dont_touch_paths = "docs/" ∷ [];
  compile_check = true;
  skip_js = true;
  skip_biome = true;
  skip_typescript = true;
  skip_ruff = false;
  ruff_mode = "auto";
  ruff_targets = "scripts" ∷ [];
  skip_pytest = false;
  pytest_mode = "auto";
  pytest_py_prefixes = "tests" ∷ [];
  pytest_js_prefixes = [];
  skip_mypy = false;
  mypy_mode = "always";
  mypy_targets = [];
  skip_pyright = true;
  pyright_mode = "auto";
  pyright_targets = [];
  skip_monolith = true;
  monolith_enabled = true;
  skip_docs = true;
  docs_include = [];
  docs_exclude = [];
  docs_required_files = [];
  docs_status_entries = [];
  skip_badguys = true;
  badguys_mode = "auto";
  badguys_trigger_prefixes = [];
  badguys_trigger_files = [];
}

-- Ruff fails and mypy raises an error.
abbrev tools : Tools
tools = record {
  compile = ok true;
  js = ok true;
  biome = ok true;
  typescript = ok true;
  ruff = ok false;
  pytest = ok true;
  mypy = err "no interpreter";
  pyright = ok true;
  monolith = ok true;
  badguys = ok true;
}

abbrev answer : String → Answer
answer = run_gate settings tools

abbrev wanted : List String
wanted = " Compile" ∷ "ruff" ∷ "pytest" ∷ "mypy" ∷ "docs" ∷ []

auto-valid : is_mode "auto" ≡ true
unfolding strip strip_if lstrip_if rstrip_if is_space is_empty
auto-valid = refl

run_gates-Ends_example :
    Ends answer true true
      (all_shown answer true (tried answer true (norm_gates_order wanted)))
      (select (fails answer true) (tried answer true (norm_gates_order wanted)))
      (any_of (raises answer true) (tried answer true (norm_gates_order wanted)))
      (run_gates answer true true "auto" wanted)
run_gates-Ends_example = run_gates-Ends answer true true "auto" wanted auto-valid

abbrev options : ScopeOptions
options = record {
  no_op_fail = true;
  allow_no_op = false;
  allow_outside_files = false;
  declared_untouched_fail = true;
  allow_declared_untouched = false;
  blessed_outputs = "audit/results/pytest_junit.xml" ∷ [];
  workfiles = default_workfiles;
}

abbrev unsorted : List String → List String
unsorted paths = paths

enforce_scope_delta-accepts_example :
    is_accepted (enforce_scope_delta unsorted options ("a.py" ∷ []) [] ("a.py" ∷ "b.pyc" ∷ [])) ≡ (
      may_touch options
        (map normalize_path ("a.py" ∷ []))
        []
        (select (is_touched options) ("a.py" ∷ "b.pyc" ∷ []))
      && may_leave options
          (map normalize_path ("a.py" ∷ []))
          (select (is_touched options) ("a.py" ∷ "b.pyc" ∷ [])))
enforce_scope_delta-accepts_example =
    enforce_scope_delta-accepts unsorted options ("a.py" ∷ []) [] ("a.py" ∷ "b.pyc" ∷ [])

contains-norm_gates_order_example :
    (is_distinct (norm_gates_order wanted) ≡ true)
    × (contains (norm_gates_order wanted) "ruff"
        ≡ (is_asked wanted "ruff" && contains gate_names "ruff"))
contains-norm_gates_order_example = contains-norm_gates_order wanted "ruff"

is_none-run_dont_touch_gate_example :
    is_none (run_dont_touch_gate settings.decision_paths settings.dont_touch_paths)
    ≡ not (any_covered settings.dont_touch_paths settings.decision_paths)
is_none-run_dont_touch_gate_example =
    is_none-run_dont_touch_gate settings.decision_paths settings.dont_touch_paths

contains-delta_paths_example :
    (is_distinct (delta_paths ("a.py" ∷ []) ("a.py" ∷ "b.py" ∷ "b.py" ∷ [])) ≡ true)
    × (contains (delta_paths ("a.py" ∷ []) ("a.py" ∷ "b.py" ∷ "b.py" ∷ [])) "b.py" ≡ (
        contains (map normalize_path ("a.py" ∷ "b.py" ∷ "b.py" ∷ [])) "b.py"
        && not (contains (map normalize_path ("a.py" ∷ [])) "b.py")))
contains-delta_paths_example =
    contains-delta_paths ("a.py" ∷ []) ("a.py" ∷ "b.py" ∷ "b.py" ∷ []) "b.py"

abbrev is_source : String → Bool
is_source p = not (p == "gone.js")

abbrev accepts : List String → String → Bool
accepts cmd p = not (p == "bad.mjs")

abbrev js_files : List String
js_files = "./a.js" ∷ "bad.mjs" ∷ "gone.js" ∷ "c.py" ∷ []

abbrev node_check : List String
node_check = "node" ∷ "--check" ∷ []
