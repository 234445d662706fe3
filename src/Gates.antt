-- ===== src/Gates.antt =====
-- scripts/am_patch/gates.py: `run_gates`, its order and its loop. The loop takes the run of one
-- gate as a parameter, which Gates/Select models. Log lines other than those that say why a gate
-- was skipped, and the check of the call site, are not modelled.
pub mod Paths
pub mod Triggers
pub mod Select
pub mod Javascript
pub mod Members
pub mod Accepts
pub mod Order
pub mod Names
pub mod Protection
use patchhub.Prelude.{
  Bool, List, String, [], contains, false, if◌then◌else◌, not, true, ◌&&◌, ◌++◌, ◌<>◌, ◌==◌, ◌||◌,
  ◌∷◌,
}
use patchhub.Prelude.Text.{lower, strip, upper}
use patchhub.CommandLine.{Result, err, ok}

-- What a run of the gates shows for itself.
pub record Run : Type 0 where
  pub failures : List String
  pub skipped : List String
  pub warnings : List String
  pub progress : List String

abbrev pub no_run : Run
no_run = record { failures = []; skipped = []; warnings = []; progress = [] }

abbrev pub gate_names : List String
gate_names =
    "dont-touch" ∷ "compile" ∷ "js" ∷ "biome" ∷ "typescript" ∷ "ruff" ∷ "pytest" ∷ "mypy"
    ∷ "pyright" ∷ "docs" ∷ "monolith" ∷ "badguys" ∷ []

unfoldable pub norm_gate_name : String → String
norm_gate_name s = lower (strip s)

unfoldable pub order_loop : List String → List String → List String
unfolding norm_gate_name
order_loop [] out = out
order_loop (item ∷ order) out =
    let name = norm_gate_name item in
    order_loop order
      (if contains gate_names name && not (contains out name) then out ++ (name ∷ []) else out)

-- `_norm_gates_order`
unfoldable pub norm_gates_order : List String → List String
unfolding order_loop
norm_gates_order order = order_loop order []

-- A gate that is skipped.
abbrev pub skip : String → String → Run → Run
skip name line run = record run {
  skipped = run.skipped ++ (name ∷ []);
  warnings = run.warnings ++ (line ∷ []);
}

unfoldable pub skip_missing : List String → List String → Run → Run
skip_missing order [] run = run
skip_missing order (gate ∷ gates) run = skip_missing order gates (
    if contains order gate
    then run
    else skip gate ("gate_" <> gate <> "=SKIP (not in gates_order)") run)

abbrev pub report : String → String → Run → Run
report word gate run = record run {
  progress = run.progress ++ ((word <> ":GATE_" <> upper gate) ∷ []);
}

abbrev pub fail : String → Run → Run
fail gate run = record run { failures = run.failures ++ (gate ∷ []) }

unfoldable pub join_gates : String → List String → String
join_gates sep [] = ""
join_gates sep (g ∷ []) = g
join_gates sep (g ∷ h ∷ rest) = g <> sep <> join_gates sep (h ∷ rest)

abbrev pub has_failures : List String → Bool
has_failures [] = false
has_failures (g ∷ gs) = true

-- How `run_gates` ends.
pub data Verdict : Type 0 where
  passed : Verdict
  stopped : String → Verdict

-- After the loop.
unfoldable pub conclude : Bool → Run → Run × Verdict
conclude allow_fail run =
    if has_failures run.failures
    then (if allow_fail
        then (
          record run {
            warnings =
                run.warnings
                ++ ("gates_failed_allowed=true"
                    ∷ ("gates_failed=" <> join_gates "," run.failures)
                    ∷ []);
          },
          passed,
        )
        else (run, stopped ("gates failed: " <> join_gates ", " run.failures)))
    else (run, passed)

-- What one gate does: it is skipped, with the line that says why, or it answers whether it passed,
-- or raises an error.
pub data Answer : Type 0 where
  skipped_by : String → Answer
  ran : Result Bool → Answer

abbrev pub note : String → Answer → Run → Run × Result Bool
note name (skipped_by line) run = (skip name line run, ok true)
note name (ran r) run = (run, r)

-- What the loop does after a gate, with the rest of the loop as an argument.
unfoldable pub after_gate :
    Bool → Bool → String → (Run → Run × Verdict) → Run × Result Bool → Run × Verdict
unfolding conclude
after_gate run_all allow_fail gate rest (run, err e) = (run, stopped e)
after_gate run_all allow_fail gate rest (run, ok true) = rest (report "OK" gate run)
after_gate run_all allow_fail gate rest (run, ok false) =
    let failed = fail gate (report "FAIL" gate run) in
    if run_all
    then rest failed
    else if allow_fail
    then conclude allow_fail failed
    else (failed, stopped ("gate failed: " <> gate))

unfoldable pub gate_loop : (String → Answer) → Bool → Bool → List String → Run → Run × Verdict
unfolding conclude after_gate
gate_loop answer run_all allow_fail [] run = conclude allow_fail run
gate_loop answer run_all allow_fail (gate ∷ order) run =
    after_gate run_all allow_fail gate (gate_loop answer run_all allow_fail order)
      (note gate (answer gate) (report "DO" gate run))

-- `run_gates`, of the mode of the typescript gate and the gates' order.
unfoldable pub run_gates : (String → Answer) → Bool → Bool → String → List String → Run × Verdict
unfolding gate_loop norm_gates_order skip_missing
run_gates answer run_all allow_fail typescript_mode gates_order =
    let mode = strip typescript_mode in
    let order = norm_gates_order gates_order in
    if not (mode == "auto" || mode == "always")
    then (no_run, stopped ("invalid gate_typescript_mode: '" <> mode <> "'"))
    else if not (has_failures order)
    then (record no_run { warnings = "GATES: SKIPPED (gates_order empty)" ∷ [] }, passed)
    else gate_loop answer run_all allow_fail order (skip_missing order gate_names no_run)
