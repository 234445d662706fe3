-- ===== src/Tests/Monolith.antt =====
-- The monolith gate on concrete files.
use patchhub.Monolith.{MonolithAreas}
use patchhub.Monolith.Totals.{total, total-fan_graph}
use patchhub.Monolith.Unchanged.{change_violations_unchanged}
use patchhub.Monolith.Verdict.{any_blocks, gate_passes_warn_only}
use patchhub.Monolith.Gate.{
  MonolithSettings, SourceTree, changes_of, gate_passes, run_monolith_gate,
}
use patchhub.Monolith.Rules.{Change, Limits, change_violations, core_rule}
use patchhub.Monolith.Fan.{Parsed, fan_graph, python}
use patchhub.Monolith.Metrics.{FileMetrics, Tree, import_from, import_names}
use patchhub.CommandLine.{err, ok}
use patchhub.Prelude.{
  Bool, List, Option, String, [], arith, false, if◌then◌else◌, none, not, refl, some, true, ◌==◌,
  ◌∷◌, ◌≡◌,
}

abbrev limits : Limits
limits = record {
  large_loc = 900;
  huge_loc = 1300;
  large_allow_loc_increase = 20;
  huge_allow_loc_increase = 0;
  large_allow_exports_delta = 2;
  huge_allow_exports_delta = 0;
  large_allow_imports_delta = 1;
  huge_allow_imports_delta = 0;
  new_file_max_loc = 400;
  new_file_max_exports = 25;
  new_file_max_imports = 15;
  hub_fanin_delta = 5;
  hub_fanout_delta = 5;
  hub_exports_delta_min = 3;
  hub_loc_delta_min = 100;
  crossarea_min_distinct_areas = 3;
  catchall_basenames = "utils.py" ∷ [];
  catchall_dirs = "helpers" ∷ [];
  catchall_allowlist = [];
}

abbrev gate_settings : MonolithSettings
gate_settings = record {
  mode = "warn_only";
  scan_scope = "patch";
  scan_extensions = "py" ∷ [];
  compute_fanin = true;
  on_parse_error = "warn";
  areas_prefixes = "src/audiomason/core" ∷ "plugins" ∷ [];
  areas_names = "core" ∷ "plugins" ∷ [];
  areas_dynamic = "" ∷ "plugins.<name>" ∷ [];
  limits = limits;
}

abbrev imports_plugin : Tree
imports_plugin = record {
  definition_names = "main" ∷ "_hidden" ∷ [];
  import_nodes = import_names ("plugins.web.api" ∷ []) ∷ import_from 1 (some "base") ∷ [];
}

abbrev new_files : String → Option Parsed
new_files p = if p == "src/audiomason/core/a.py" then some (python (some imports_plugin)) else none

abbrev no_files : String → Option Parsed
no_files p = none

abbrev no_error : String → Option String
no_error p = none

abbrev cwd_tree : SourceTree
cwd_tree = record {
  read_tree = new_files;
  read_error = no_error;
  read_lines = λ p. "import x" ∷ "" ∷ [];
}

abbrev repo_tree : SourceTree
repo_tree = record { read_tree = no_files; read_error = no_error; read_lines = λ p. [] }

abbrev same_order : List String → List String
same_order xs = xs

-- A new file of the core that imports a plugin fails the gate.
core_fails :
    run_monolith_gate same_order cwd_tree repo_tree [] gate_settings
      ("src/audiomason/core/a.py" ∷ [])
    ≡ ok false
unfolding run_monolith_gate
core_fails = refl

-- An old file that is not UTF-8 ends the gate.
abbrev latin_tree : SourceTree
latin_tree = record cwd_tree { read_error = λ p. some "invalid start byte" }

old_unreadable :
    run_monolith_gate same_order cwd_tree latin_tree [] gate_settings
      ("src/audiomason/core/a.py" ∷ [])
    ≡ err "invalid start byte"
unfolding run_monolith_gate
old_unreadable = refl

abbrev core_areas : List MonolithAreas
core_areas =
    record { rel_prefix = "src/audiomason/core/"; area = "core"; dynamic = none }
    ∷ record { rel_prefix = "plugins/"; area = "plugins"; dynamic = some "plugins.<name>" }
    ∷ []

abbrev gate_changes : List Change
gate_changes =
    changes_of gate_settings core_areas cwd_tree repo_tree ("src/audiomason/core/a.py" ∷ [])

gate_passes_warn_only_example :
    gate_passes gate_settings gate_changes ≡ not (any_blocks gate_settings gate_changes)
gate_passes_warn_only_example = gate_passes_warn_only gate_settings gate_changes refl

abbrev workspace_scope : MonolithSettings
workspace_scope = record gate_settings { scan_scope = "workspace" }

abbrev measured : FileMetrics
measured = record {
  loc = 1400;
  exports = 30;
  internal_imports = 20;
  distinct_areas = 4;
  parse_ok = true;
}

abbrev moved_imports : Change
moved_imports = record {
  changed_path = "src/audiomason/core/big.py";
  old_exists = true;
  new_m = measured;
  old_m = measured;
  file_area = "core";
  core_areas = "plugins.web" ∷ [];
  fanin_new = some 40;
  fanout_new = some 2;
  fanin_old = some 10;
  fanout_old = some 2;
}

change_violations_unchanged_example :
    change_violations "fail" limits moved_imports ≡ core_rule moved_imports
change_violations_unchanged_example =
    change_violations_unchanged "fail" limits moved_imports refl refl refl (omega arith)
      (omega arith)

abbrev imports_both : Tree
imports_both = record {
  definition_names = [];
  import_nodes = import_names ("tests.b" ∷ "tests.a" ∷ []) ∷ [];
}

abbrev reads_both : String → Option Parsed
reads_both p = some (python (some imports_both))

abbrev exists_all : String → Bool
exists_all p = true

total-fan_graph_example :
    total (fan_graph exists_all reads_both ("tests/a.py" ∷ "tests/b.py" ∷ [])).0
    ≡ total (fan_graph exists_all reads_both ("tests/a.py" ∷ "tests/b.py" ∷ [])).1
total-fan_graph_example = total-fan_graph exists_all reads_both ("tests/a.py" ∷ "tests/b.py" ∷ [])
