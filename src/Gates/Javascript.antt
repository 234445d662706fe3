-- ===== src/Gates/Javascript.antt =====
-- scripts/am_patch/gates.py: the js gate, which checks each touched file by a command. Whether a
-- path is a file and whether the command, run on a path, returns 0 are arguments.
use patchhub.Prelude.{
  Bool, List, String, [], false, if◌then◌else◌, not, select, true, ◌<>◌, ◌||◌, ◌∷◌,
}
use patchhub.Prelude.Text.{has_prefix, is_empty, lower, strip}
use patchhub.CommandLine.{Result, err, ok}
use patchhub.Gates.Paths.{add_distinct, norm_rel_paths}
use patchhub.Gates.Triggers.{ends_with_any, has_no_prefix}

abbrev pub js_extension : String → String
js_extension e = let s = lower (strip e) in if is_empty s || has_prefix "." s then s else "." <> s

unfoldable pub norm_js_extensions : List String → List String
unfolding add_distinct
norm_js_extensions exts = add_distinct js_extension exts []

unfoldable pub js_paths_of : List String → List String → List String
unfolding ends_with_any
js_paths_of exts paths = select (λ p. ends_with_any (lower p) exts) paths

-- `check_js_gate`: the touched paths, none where the gate is not triggered.
unfoldable pub check_js_gate : (List String → List String) → List String → List String → List String
unfolding norm_js_extensions js_paths_of norm_rel_paths
check_js_gate sorted decision_paths extensions =
    let js_paths = js_paths_of (norm_js_extensions extensions) (norm_rel_paths decision_paths) in
    if has_no_prefix (norm_js_extensions extensions) || has_no_prefix js_paths
    then []
    else sorted js_paths

unfoldable pub run_each : (List String → String → Bool) → List String → List String → Bool
run_each runs cmd [] = true
run_each runs cmd (rel ∷ rest) =
    let later = run_each runs cmd rest in if runs cmd rel then later else false

abbrev pub is_word : String → Bool
is_word x = not (is_empty (strip x))

-- `run_js_syntax_gate`
unfoldable pub run_js_syntax_gate :
    (List String → List String)
    → (String → Bool)
    → (List String → String → Bool)
    → List String
    → List String
    → List String
    → Result Bool
unfolding check_js_gate run_each
run_js_syntax_gate sorted is_file runs decision_paths extensions command =
    let existing = select is_file (check_js_gate sorted decision_paths extensions) in
    let cmd = select is_word command in
    if has_no_prefix (check_js_gate sorted decision_paths extensions)
    then ok true
    else if has_no_prefix existing
    then ok true
    else if has_no_prefix cmd
    then err "gate_js_command must be non-empty"
    else ok (run_each runs cmd existing)
