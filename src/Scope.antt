-- ===== src/Scope.antt =====
-- scripts/am_patch/scope.py: the paths a patch changed, and which of them it may change. Running
-- `git status` and its log are not modelled: its answer is an argument. Sorting of the declared
-- paths, which only orders a message, is an argument too.
pub mod Enforce
pub mod Delta
use patchhub.Prelude.{
  Bool, List, String, [], contains, eqb, false, if◌then◌else◌, map, none, not, select, some, true,
  ℕ, ◌&&◌, ◌++◌, ◌<>◌, ◌==◌, ◌||◌, ◌∷◌,
}
use patchhub.Prelude.Text.{
  drop_count, has_count, has_part, has_prefix, has_suffix, is_char, is_empty, rstrip_if, split_at,
  strip, take_chars,
}
use patchhub.Gates.Paths.{has_entry, slash}
use patchhub.CommandLine.{Result, err, ok, ◌>>=◌}

-- `_normalize_path`
unfoldable pub normalize_path : String → String
unfolding strip rstrip_if has_suffix
normalize_path p =
    let s = strip p in if has_suffix "/" s && not (s == "/") then rstrip_if (is_char slash) s else s

unfoldable pub is_blessed_gate_output : String → List String → Bool
unfolding normalize_path
is_blessed_gate_output p [] = false
is_blessed_gate_output p (item ∷ items) =
    normalize_path p == normalize_path item || is_blessed_gate_output p items

unfoldable pub blessed_loop : List String → List String → List String → List String
unfolding is_blessed_gate_output
blessed_loop blessed_outputs out [] = out
blessed_loop blessed_outputs out (p ∷ paths) =
    let np = normalize_path p in
    blessed_loop blessed_outputs
      (if is_empty np || contains out np || not (is_blessed_gate_output np blessed_outputs)
        then out
        else out ++ (np ∷ []))
      paths

unfoldable pub blessed_gate_outputs_in : List String → List String → List String
unfolding blessed_loop
blessed_gate_outputs_in paths blessed_outputs = blessed_loop blessed_outputs [] paths

-- What the runner itself leaves behind.
pub record Workfiles : Type 0 where
  pub ignore_prefixes : List String
  pub ignore_suffixes : List String
  pub ignore_contains : List String

abbrev pub default_workfiles : Workfiles
default_workfiles = record {
  ignore_prefixes =
      ".am_patch/" ∷ ".pytest_cache/" ∷ ".mypy_cache/" ∷ ".ruff_cache/" ∷ "__pycache__/" ∷ [];
  ignore_suffixes = ".pyc" ∷ [];
  ignore_contains = "/__pycache__/" ∷ [];
}

unfoldable pub under_prefix : String → List String → Bool
under_prefix np [] = false
under_prefix np (pre ∷ rest) =
    np == rstrip_if (is_char slash) pre || has_prefix pre np || under_prefix np rest

unfoldable pub has_any_part : String → List String → Bool
has_any_part np [] = false
has_any_part np (c ∷ rest) = has_part c np || has_any_part np rest

unfoldable pub has_any_suffix : String → List String → Bool
has_any_suffix np [] = false
has_any_suffix np (suf ∷ rest) = has_suffix suf np || has_any_suffix np rest

unfoldable pub is_runner_workfile : Workfiles → String → Bool
unfolding normalize_path under_prefix has_any_part has_any_suffix
is_runner_workfile w p =
    let np = normalize_path p in
    not (is_empty np)
    && (under_prefix np w.ignore_prefixes
        || has_any_part np w.ignore_contains
        || has_any_suffix np w.ignore_suffixes)

-- `_status_code`, and the payload of a line of four characters or more.
unfoldable pub status_code : String → String
unfolding has_prefix
status_code line = if has_prefix "??" line then "??" else take_chars 2 line

-- The entries of one line of `git status --porcelain`.
unfoldable pub line_entries : String → List (String × String)
unfolding status_code normalize_path split_at
line_entries raw =
    let line = rstrip_if (is_char "\n") raw in
    let status = status_code line in
    let payload = strip (drop_count 3 line) in
    if has_count 4 line
    then (elim (split_at " -> " payload) [
      | none ↦ (status, normalize_path payload) ∷ []
      | some (old, new) ↦ (status, normalize_path old) ∷ (status, normalize_path new) ∷ []
    ])
    else []

unfoldable pub all_entries : List String → List (String × String)
unfolding line_entries
all_entries [] = []
all_entries (line ∷ lines) = line_entries line ++ all_entries lines

unfoldable pub distinct_entries :
    List (String × String) → List (String × String) → List (String × String)
unfolding has_entry
distinct_entries out [] = out
distinct_entries out ((status, path) ∷ rest) =
    distinct_entries
      (if is_empty path || has_entry out status path then out else out ++ ((status, path) ∷ []))
      rest

-- `_parse_changed_path_entries`, of the lines of the output.
unfoldable pub parse_changed_path_entries : List String → List (String × String)
unfolding all_entries distinct_entries
parse_changed_path_entries lines = distinct_entries [] (all_entries lines)

-- `changed_paths`, of the return code and the lines of `git status`.
unfoldable pub changed_path_entries : ℕ → List String → Result (List (String × String))
unfolding parse_changed_path_entries
changed_path_entries returncode lines =
    if eqb returncode 0
    then ok (parse_changed_path_entries lines)
    else err "git status failed in workspace"

unfoldable pub distinct_paths : List String → List (String × String) → List String
distinct_paths out [] = out
distinct_paths out ((status, path) ∷ rest) =
    distinct_paths (if is_empty path || contains out path then out else out ++ (path ∷ [])) rest

unfoldable pub changed_paths : ℕ → List String → Result (List String)
unfolding changed_path_entries distinct_paths
changed_paths returncode lines = do
  entries ← changed_path_entries returncode lines
  ok (distinct_paths [] entries)

unfoldable pub delta_loop : List String → List String → List String → List String
unfolding normalize_path
delta_loop before out [] = out
delta_loop before out (p ∷ after) =
    let np = normalize_path p in
    delta_loop before (if contains before np || contains out np then out else out ++ (np ∷ []))
      after

unfoldable pub delta_paths : List String → List String → List String
unfolding delta_loop
delta_paths before after = delta_loop (map normalize_path before) [] after

pub record RunnerError : Type 0 where
  pub stage : String
  pub category : String
  pub message : String

-- The touched paths, or the error.
pub data Enforced : Type 0 where
  accepted : List String → Enforced
  raised : RunnerError → Enforced

pub record ScopeOptions : Type 0 where
  pub no_op_fail : Bool
  pub allow_no_op : Bool
  pub allow_outside_files : Bool
  pub declared_untouched_fail : Bool
  pub allow_declared_untouched : Bool
  pub blessed_outputs : List String
  pub workfiles : Workfiles

abbrev pub is_outside : ScopeOptions → List String → List String → String → Bool
is_outside o declared allowed p =
    not (contains declared p)
    && not (contains allowed p)
    && not (is_blessed_gate_output p o.blessed_outputs)

abbrev pub is_touched : ScopeOptions → String → Bool
is_touched o p = not (is_runner_workfile o.workfiles p)

abbrev pub has_none : List String → Bool
has_none [] = true
has_none (p ∷ ps) = false

-- `", ".join(paths)`
unfoldable pub join_paths : List String → String
join_paths [] = ""
join_paths (p ∷ []) = p
join_paths (p ∷ q ∷ rest) = p <> ", " <> join_paths (q ∷ rest)

abbrev pub scope_error : String → String → Enforced
scope_error category message =
    raised (record { stage = "SCOPE"; category = category; message = message })

-- `enforce_scope_delta`, with the declared paths sorted, each once. Its argument `before` is unused.
unfoldable pub enforce_untouched : ScopeOptions → List String → List String → Enforced
enforce_untouched o declared touched =
    let untouched = select (λ p. not (contains touched p)) declared in
    if o.declared_untouched_fail && not o.allow_declared_untouched && not (has_none untouched)
    then scope_error "SCOPE" ("declared but not touched: " <> join_paths untouched)
    else accepted touched

unfoldable pub enforce_touched : ScopeOptions → List String → List String → List String → Enforced
unfolding enforce_untouched
enforce_touched o declared allowed touched =
    let outside = select (is_outside o declared allowed) touched in
    let next = enforce_untouched o declared touched in
    if has_none touched
    then (if o.no_op_fail && not o.allow_no_op then scope_error "NOOP" "no changes made" else next)
    else if not (has_none outside) && not o.allow_outside_files
    then scope_error "SCOPE" ("touched undeclared paths: " <> join_paths outside)
    else next

unfoldable pub enforce_scope_delta :
    (List String → List String) → ScopeOptions → List String → List String → List String → Enforced
unfolding enforce_touched is_runner_workfile
enforce_scope_delta sorted o files_current allowed_union after =
    enforce_touched o (sorted (map normalize_path files_current)) (map normalize_path allowed_union)
      (select (is_touched o) after)
