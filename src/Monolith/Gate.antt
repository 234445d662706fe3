-- ===== src/Monolith/Gate.antt =====
-- scripts/am_patch/monolith_gate.py: `run_monolith_gate`, from its settings and the two trees to the
-- answer. Its log lines and totals are left out.
use patchhub.Prelude.{
  Bool, List, Option, String, [], contains, false, if◌then◌else◌, map, none, not, some, true, ℕ,
  ◌&&◌, ◌<>◌, ◌==◌, ◌||◌, ◌∷◌,
}
use patchhub.Dict.{Dict, lookup}
use patchhub.CommandLine.{Result, err, ok, ◌>>=◌}
use patchhub.Monolith.{
  MonolithAreas, area_for_module, area_for_relpath, areas_from_policy, scan_candidates,
}
use patchhub.Monolith.Metrics.{FileMetrics, analyze_python, iter_import_modules, module_for_relpath}
use patchhub.Monolith.Javascript.{js_internal_import_targets, js_metrics}
use patchhub.Monolith.Fan.{Parsed, fan_graph, javascript, python}
use patchhub.Monolith.Rules.{
  Change, Limits, Severity, Violation, all_violations, fails, reports, warns,
}

-- A tree: what is read of a file and its lines, `none` where the path does not exist, and the text
-- of the exception where the path is there and `read_text` raises, for a directory or a file that is
-- not UTF-8. The parser is taken to raise nothing but the SyntaxError that is caught.
pub record SourceTree : Type 0 where
  pub read_tree : String → Option Parsed
  pub read_error : String → Option String
  pub read_lines : String → List String

abbrev pub is_present : Option Parsed → Bool
is_present none = false
is_present (some p) = true

pub record MonolithSettings : Type 0 where
  pub mode : String
  pub scan_scope : String
  pub scan_extensions : List String
  pub compute_fanin : Bool
  pub on_parse_error : String
  pub areas_prefixes : List String
  pub areas_names : List String
  pub areas_dynamic : List String
  pub limits : Limits

-- `_analyze_file`. A missing old file is read as the empty text, which parses.
unfoldable pub analyze_file :
    (String → Bool) → List MonolithAreas → String → List String → Option Parsed → FileMetrics
unfolding analyze_python js_metrics
analyze_file exists areas rp lines none = record {
  loc = 0;
  exports = 0;
  internal_imports = 0;
  distinct_areas = 0;
  parse_ok = true;
}
analyze_file exists areas rp lines (some (python tree)) = analyze_python areas rp lines tree
analyze_file exists areas rp lines (some (javascript found)) =
    js_metrics exists areas rp lines found

-- The areas that MONO.CORE looks at.
unfoldable pub core_imports :
    (String → Bool) → List MonolithAreas → String → Option Parsed → List String
unfolding iter_import_modules module_for_relpath area_for_module area_for_relpath
    js_internal_import_targets
core_imports exists areas rp (some (python (some tree))) =
    map (λ m. area_for_module m areas)
      (iter_import_modules tree.import_nodes (module_for_relpath rp))
core_imports exists areas rp (some (javascript found)) =
    map (λ tgt. area_for_relpath tgt areas) (js_internal_import_targets exists rp found)
core_imports exists areas rp _ = []

abbrev pub either_exists : SourceTree → SourceTree → String → Bool
either_exists cwd repo rp = is_present (cwd.read_tree rp) || is_present (repo.read_tree rp)

-- `fanin_map.get(rp) if gate_monolith_compute_fanin else None`
abbrev pub count_in : Bool → Dict ℕ → String → Option ℕ
count_in compute counts rp = if compute then lookup rp counts else none

unfoldable pub change_of :
    Bool
    → List MonolithAreas
    → SourceTree
    → SourceTree
    → Dict ℕ × Dict ℕ
    → Dict ℕ × Dict ℕ
    → String
    → Change
unfolding analyze_file core_imports lookup area_for_relpath
change_of compute areas cwd repo fans fans_old rp = record {
  changed_path = rp;
  old_exists = is_present (repo.read_tree rp);
  new_m = analyze_file (either_exists cwd repo) areas rp (cwd.read_lines rp) (cwd.read_tree rp);
  old_m = analyze_file (either_exists cwd repo) areas rp (repo.read_lines rp) (repo.read_tree rp);
  file_area = area_for_relpath rp areas;
  core_areas = core_imports (either_exists cwd repo) areas rp (cwd.read_tree rp);
  fanin_new = count_in compute fans.0 rp;
  fanout_new = count_in compute fans.1 rp;
  fanin_old = count_in compute fans_old.0 rp;
  fanout_old = count_in compute fans_old.1 rp;
}

unfoldable pub changes_of :
    MonolithSettings → List MonolithAreas → SourceTree → SourceTree → List String → List Change
unfolding change_of fan_graph
changes_of settings areas cwd repo candidates =
    map
      (change_of settings.compute_fanin areas cwd repo
        (fan_graph (either_exists cwd repo) cwd.read_tree candidates)
        (fan_graph (either_exists cwd repo) repo.read_tree candidates))
      candidates

-- The severity of a violation by the mode.
unfoldable pub mapped_severity : String → String → Violation → Severity
mapped_severity mode on_parse_error v =
    if mode == "report_only"
    then reports
    else if mode == "strict"
    then fails
    else if mode == "warn_only"
    then (if v.rule_id == "MONO.CORE"
          || v.rule_id == "MONO.CATCHALL"
          || (v.rule_id == "MONO.PARSE" && on_parse_error == "fail")
        then fails
        else warns)
    else v.severity

abbrev pub is_fail : Severity → Bool
is_fail fails = true
is_fail warns = false
is_fail reports = false

unfoldable pub any_fail : String → String → List Violation → Bool
unfolding mapped_severity
any_fail mode on_parse_error [] = false
any_fail mode on_parse_error (v ∷ violations) =
    is_fail (mapped_severity mode on_parse_error v) || any_fail mode on_parse_error violations

-- The loop and what follows it.
unfoldable pub gate_passes : MonolithSettings → List Change → Bool
unfolding any_fail all_violations
gate_passes settings changes = not (
    any_fail settings.mode settings.on_parse_error
      (all_violations settings.on_parse_error settings.limits changes))

-- The reads of the candidates, which no `try` guards: each of the two graphs reads the paths that its
-- tree has, and the loop reads each path of the workspace and then the old one, if there is one.
abbrev pub first_error : Option String → Option String → Option String
first_error none later = later
first_error (some error) later = some error

abbrev pub read_present : SourceTree → String → Option String
read_present tree rp = if is_present (tree.read_tree rp) then tree.read_error rp else none

abbrev pub read_text : SourceTree → String → Option String
read_text tree rp =
    if is_present (tree.read_tree rp) then tree.read_error rp else some "No such file or directory"

unfoldable pub fan_read_error : SourceTree → List String → Option String
fan_read_error tree [] = none
fan_read_error tree (rp ∷ rps) = first_error (read_present tree rp) (fan_read_error tree rps)

unfoldable pub loop_read_error : SourceTree → SourceTree → List String → Option String
loop_read_error cwd repo [] = none
loop_read_error cwd repo (rp ∷ rps) =
    first_error (read_text cwd rp)
      (first_error (read_present repo rp) (loop_read_error cwd repo rps))

unfoldable pub read_failure : Bool → SourceTree → SourceTree → List String → Option String
unfolding fan_read_error loop_read_error
read_failure compute cwd repo candidates =
    let fans = first_error (fan_read_error cwd candidates) (fan_read_error repo candidates) in
    first_error (if compute then fans else none) (loop_read_error cwd repo candidates)

abbrev pub unless_error : Option String → Bool → Result Bool
unless_error none passes = ok passes
unless_error (some error) passes = err error

abbrev pub gate_of_candidates :
    MonolithSettings → SourceTree → SourceTree → List MonolithAreas → List String → Result Bool
gate_of_candidates settings cwd repo areas candidates =
    unless_error (read_failure settings.compute_fanin cwd repo candidates)
      (gate_passes settings (changes_of settings areas cwd repo candidates))

unfoldable pub run_monolith_gate :
    (List String → List String)
    → SourceTree
    → SourceTree
    → List String
    → MonolithSettings
    → List String
    → Result Bool
unfolding scan_candidates gate_passes changes_of areas_from_policy read_failure
run_monolith_gate sorted cwd repo workspace_paths settings decision_paths =
    if not (contains ("strict" ∷ "warn_only" ∷ "report_only" ∷ []) settings.mode)
    then err ("invalid gate_monolith_mode='" <> (settings.mode <> "'"))
    else if not (contains ("fail" ∷ "warn" ∷ []) settings.on_parse_error)
    then err ("invalid gate_monolith_on_parse_error='" <> (settings.on_parse_error <> "'"))
    else do
      areas ← areas_from_policy settings.areas_prefixes settings.areas_names settings.areas_dynamic
      candidates ←
          scan_candidates sorted (λ rp. is_present (cwd.read_tree rp)) workspace_paths
            settings.scan_scope settings.scan_extensions decision_paths
      gate_of_candidates settings cwd repo areas candidates
