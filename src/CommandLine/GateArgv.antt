-- ===== src/CommandLine/GateArgv.antt =====
-- scripts/patchhub/gate_argv.py: the gate options of a command line and their canonical form.
pub mod Canonical
use patchhub.Prelude.{
  Bool, List, Option, String, [], false, if◌then◌else◌, none, not, some, true, ◌++◌, ◌<>◌, ◌==◌,
  ◌||◌, ◌∷◌,
}
use patchhub.Prelude.Text.{lower, split_once, strip}
use patchhub.Dict.{Dict, insert, lookup}
use patchhub.CommandLine.{Result, err, ok, ◌>>=◌}

pub record GateOption : Type 0 where
  pub key : String
  pub cli_flag : String
  pub direct_true : Bool

abbrev option : String → String → Bool → GateOption
option key cli_flag direct_true = record {
  key = key;
  cli_flag = cli_flag;
  direct_true = direct_true;
}

abbrev pub gate_options : List GateOption
gate_options =
    option "compile_check" "--no-compile-check" false
    ∷ option "gates_skip_dont_touch" "--skip-dont-touch" true
    ∷ option "gates_skip_ruff" "--skip-ruff" true
    ∷ option "gates_skip_pytest" "--skip-pytest" true
    ∷ option "gates_skip_mypy" "--skip-mypy" true
    ∷ option "gates_skip_pyright" "--skip-pyright" true
    ∷ option "gates_skip_js" "--skip-js" true
    ∷ option "gates_skip_docs" "--skip-docs" true
    ∷ option "gates_skip_monolith" "--skip-monolith" true
    ∷ option "gates_skip_biome" "--skip-biome" true
    ∷ option "gates_skip_typescript" "--skip-typescript" true
    ∷ []

-- `_FLAG_TO_OPTION` and `_KEY_TO_OPTION`
unfoldable pub flag_to_option : List GateOption → String → Option GateOption
flag_to_option [] flag = none
flag_to_option (item ∷ rest) flag =
    if item.cli_flag == flag then some item else flag_to_option rest flag

unfoldable pub has_key : List GateOption → String → Bool
has_key [] key = false
has_key (item ∷ rest) key = item.key == key || has_key rest key

unfoldable pub parse_bool_text : String → Result Bool
unfolding lower strip
parse_bool_text value =
    let norm = lower (strip value) in
    if norm == "true"
    then ok true
    else if norm == "false"
    then ok false
    else err ("Override value must be true/false (got " <> (value <> ")"))

unfoldable pub parse_split : Option (String × String) → Result (String × Bool)
unfolding lower strip has_key parse_bool_text
parse_split none = err "--override requires KEY=VALUE"
parse_split (some (key, raw_value)) =
    let norm = lower (strip key) in
    if has_key gate_options norm
    then (do value ← parse_bool_text raw_value; ok (norm, value))
    else err ("Unsupported gate override key: " <> norm)

unfoldable pub parse_override_pair : String → Result (String × Bool)
unfolding parse_split split_once strip
parse_override_pair pair = parse_split (split_once "=" (strip pair))

abbrev pub bool_text : Bool → String
bool_text true = "true"
bool_text false = "false"

-- What `build_gate_argv` adds for one option.
abbrev pub same_bool : Bool → Bool → Bool
same_bool true b = b
same_bool false b = not b

abbrev pub option_argv : GateOption → Option Bool → List String
option_argv item none = []
option_argv item (some value) =
    if same_bool value item.direct_true
    then item.cli_flag ∷ []
    else "--override" ∷ (item.key <> ("=" <> bool_text value)) ∷ []

unfoldable pub build_loop : List GateOption → Dict Bool → List String
build_loop [] states = []
build_loop (item ∷ rest) states =
    option_argv item (lookup item.key states) ++ build_loop rest states

unfoldable pub build_gate_argv : Dict Bool → List String
unfolding build_loop lookup
build_gate_argv states = build_loop gate_options states

-- The loop of `split_gate_argv`: the states so far, and the tokens that are no gate option. After
-- "--override" the flag says that its value is awaited.
unfoldable pub split_loop :
    List String → Bool → Dict Bool → List String → Result (List String × Dict Bool)
split_loop [] false states rest = ok (rest, states)
split_loop [] true states rest = err "--override requires KEY=VALUE"
split_loop (pair ∷ argv) true states rest = do
  entry ← parse_override_pair pair
  split_loop argv false (insert entry.0 entry.1 states) rest
split_loop (token ∷ argv) false states rest = elim (flag_to_option gate_options token) [
  | some item ↦ split_loop argv false (insert item.key item.direct_true states) rest
  | none ↦
      let awaiting = split_loop argv true states rest in
      let skipped = split_loop argv false states (rest ++ (token ∷ [])) in
      if token == "--override" then awaiting else skipped
]

unfoldable pub split_gate_argv : List String → Result (List String × List String)
unfolding split_loop build_gate_argv flag_to_option parse_override_pair insert
split_gate_argv argv = do split ← split_loop argv false [] []; ok (split.0, build_gate_argv split.1)

abbrev accept : List String → List String → Result (List String)
accept [] canonical = ok canonical
accept (token ∷ rest) canonical = err ("Unexpected gate argv token: " <> token)

unfoldable pub validate_gate_argv : List String → Result (List String)
unfolding split_gate_argv
validate_gate_argv argv = do split ← split_gate_argv argv; accept split.0 split.1
