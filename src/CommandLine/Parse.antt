-- ===== src/CommandLine/Parse.antt =====
-- scripts/patchhub/command_parse.py: reading a runner's command line, and its canonical form.
-- `shlex.split`, which makes the list of arguments, is not modelled.
use patchhub.Prelude.{
  Bool, List, Option, String, [], contains, false, if◌then◌else◌, length, ltb, none, not, some,
  true, ◌&&◌, ◌++◌, ◌==◌, ◌||◌, ◌∷◌,
}
use patchhub.Prelude.Text.{has_prefix, is_digits, is_empty}
use patchhub.CommandLine.{Result, err, ok, ◌>>=◌}
use patchhub.CommandLine.GateArgv.{validate_gate_argv}
use patchhub.JobQueue.{
  Mode, finalize_live, finalize_workspace, patch, repair, rerun_latest, revert_job, rollback,
}

pub record ParsedCommand : Type 0 where
  pub mode : Mode
  pub issue_id : String
  pub commit_message : String
  pub patch_path : String
  pub gate_argv : List String
  pub canonical_argv : List String
  pub target_repo : String

pub record TailOptions : Type 0 where
  pub target_repo : String
  pub gate_argv : List String

-- The return of `_parse_tail_options`.
unfoldable pub finish_tail : List String → String → Result TailOptions
finish_tail gate_tokens target_repo = do
  gate_argv ← validate_gate_argv gate_tokens
  ok (record { target_repo = target_repo; gate_argv = gate_argv })

abbrev pub target_flag : String
target_flag = "--target-repo-name"

-- Its loop, over the tokens that are left.
unfoldable pub tail_loop : List String → List String → String → Result TailOptions
unfolding finish_tail is_empty
tail_loop [] gate_tokens target_repo = finish_tail gate_tokens target_repo
tail_loop (token ∷ []) gate_tokens target_repo =
    if token == target_flag
    then err "--target-repo-name requires VALUE"
    else finish_tail (gate_tokens ++ (token ∷ [])) target_repo
tail_loop (token ∷ value ∷ rest) gate_tokens target_repo =
    let named = tail_loop rest gate_tokens value in
    let plain = tail_loop (value ∷ rest) (gate_tokens ++ (token ∷ [])) target_repo in
    if token == target_flag
    then (if is_empty target_repo then named else err "--target-repo-name may appear only once")
    else plain

unfoldable pub parse_tail_options : List String → Result TailOptions
unfolding tail_loop
parse_tail_options tokens = tail_loop tokens [] ""

abbrev pub target_tail : String → List String
target_tail target_repo = if is_empty target_repo then [] else target_flag ∷ target_repo ∷ []

-- `build_canonical_command`
abbrev positionals : Mode → String → String → String → Result (List String)
positionals finalize_live issue_id message patch_path = ok ("-f" ∷ message ∷ [])
positionals finalize_workspace issue_id message patch_path = ok ("-w" ∷ issue_id ∷ [])
positionals rerun_latest issue_id message patch_path =
    ok (issue_id ∷ message ∷ ((if is_empty patch_path then [] else patch_path ∷ []) ++ ("-l" ∷ [])))
positionals patch issue_id message patch_path = ok (issue_id ∷ message ∷ patch_path ∷ [])
positionals repair issue_id message patch_path = ok (issue_id ∷ message ∷ patch_path ∷ [])
positionals rollback issue_id message patch_path = err "Unsupported mode: rollback"
positionals revert_job issue_id message patch_path = err "Unsupported mode: revert_job"

unfoldable pub build_canonical_command :
    List String → Mode → String → String → String → List String → String → Result (List String)
unfolding is_empty
build_canonical_command prefix mode issue_id message patch_path gate_argv target_repo = do
  gate_tail ← validate_gate_argv gate_argv
  middle ← positionals mode issue_id message patch_path
  ok (prefix ++ (middle ++ (target_tail target_repo ++ gate_tail)))

-- A command with its tail read and its canonical form built.
unfoldable pub with_tail :
    List String → Mode → String → String → String → List String → Result ParsedCommand
unfolding parse_tail_options build_canonical_command
with_tail prefix mode issue_id message patch_path tokens = do
  tail ← parse_tail_options tokens
  canonical ←
      build_canonical_command prefix mode issue_id message patch_path tail.gate_argv
        tail.target_repo
  ok (record {
    mode = mode;
    issue_id = issue_id;
    commit_message = message;
    patch_path = patch_path;
    gate_argv = tail.gate_argv;
    canonical_argv = canonical;
    target_repo = tail.target_repo;
  })

-- `argv.index`, which raises where the script is missing: what stands up to it, and behind it.
abbrev put_before : String → Option (List String × List String) → Option (List String × List String)
put_before token none = none
put_before token (some (before, behind)) = some (token ∷ before, behind)

unfoldable pub split_at_script : List String → Option (List String × List String)
split_at_script [] = none
split_at_script (token ∷ rest) =
    let later = split_at_script rest in
    if token == "scripts/am_patch.py" then some (token ∷ [], rest) else put_before token later

-- `pos.remove(flag)`
unfoldable pub remove_first : String → List String → List String
remove_first flag [] = []
remove_first flag (token ∷ rest) =
    let later = remove_first flag rest in if token == flag then rest else token ∷ later

unfoldable pub parse_live : List String → List String → Result ParsedCommand
unfolding with_tail is_empty
parse_live prefix [] = err "finalize_live requires exactly one MESSAGE argument"
parse_live prefix (message ∷ tokens) =
    if is_empty message
    then err "MESSAGE is empty"
    else with_tail prefix finalize_live "" message "" tokens

unfoldable pub parse_workspace : List String → List String → Result ParsedCommand
unfolding with_tail is_digits
parse_workspace prefix [] = err "finalize_workspace requires exactly one ISSUE_ID argument"
parse_workspace prefix (issue_id ∷ tokens) =
    if is_digits issue_id
    then with_tail prefix finalize_workspace issue_id "" "" tokens
    else err "ISSUE_ID must be digits"

abbrev usage : String
usage = "Expected: ISSUE_ID \"commit message\" PATCH"

-- The patch path is there unless an option stands in its place; only a rerun may do without it.
unfoldable pub parse_patch_path :
    List String → Bool → String → String → List String → Result ParsedCommand
unfolding with_tail has_prefix is_empty
parse_patch_path prefix true issue_id message [] =
    with_tail prefix rerun_latest issue_id message "" []
parse_patch_path prefix false issue_id message [] = err usage
parse_patch_path prefix true issue_id message (token ∷ tokens) =
    if has_prefix "-" token
    then with_tail prefix rerun_latest issue_id message "" (token ∷ tokens)
    else with_tail prefix rerun_latest issue_id message token tokens
parse_patch_path prefix false issue_id message (token ∷ tokens) =
    if has_prefix "-" token || is_empty token
    then err usage
    else with_tail prefix patch issue_id message token tokens

unfoldable pub parse_patch : List String → Bool → List String → Result ParsedCommand
unfolding parse_patch_path is_digits is_empty
parse_patch prefix flag_l (issue_id ∷ message ∷ tokens) =
    if not (is_digits issue_id)
    then err "ISSUE_ID must be digits"
    else if is_empty message
    then err "Commit message is empty"
    else parse_patch_path prefix flag_l issue_id message tokens
parse_patch prefix flag_l _ = err usage

abbrev pub more_than_one : Bool → Bool → Bool → Bool
more_than_one f w l = (f && w) || (f && l) || (w && l)

unfoldable pub parse_rest : List String → List String → Result ParsedCommand
unfolding parse_live parse_workspace parse_patch remove_first contains
parse_rest prefix rest =
    let f = contains rest "-f" in
    let w = contains rest "-w" in
    let l = contains rest "-l" in
    if more_than_one f w l
    then err "Conflicting finalize/rerun flags"
    else if f
    then parse_live prefix (remove_first "-f" rest)
    else if w
    then parse_workspace prefix (remove_first "-w" rest)
    else parse_patch prefix l (if l then remove_first "-l" rest else rest)

abbrev at_script : Option (List String × List String) → Result ParsedCommand
at_script none = err "Missing scripts/am_patch.py"
at_script (some (prefix, rest)) = parse_rest prefix rest

unfoldable pub parse_runner_argv : List String → Result ParsedCommand
unfolding parse_rest split_at_script
parse_runner_argv argv =
    if ltb (length argv) 3 then err "Command is too short" else at_script (split_at_script argv)
