-- ===== src/Gates/Triggers.antt =====
-- What makes a gate run: scripts/am_patch/gate_dont_touch.py, `should_run_pyright` of
-- gate_pyright.py, `should_run_badguys` of gate_badguys.py, and `_has_changed_basename` and
-- `_has_changed_file` within `run_gates` of gates.py.
use Prim.Native.Char.{Char}
use patchhub.Prelude.{
  Bool, List, Option, String, [], contains, false, if◌then◌else◌, none, not, some, true, ◌&&◌, ◌++◌,
  ◌<>◌, ◌==◌, ◌||◌, ◌∷◌,
}
use patchhub.Prelude.Text.{
  drop_prefix, has_prefix, has_suffix, is_char, is_empty, lower, lstrip_if, replace_char, rstrip_if,
  strip,
}
use patchhub.Gates.Paths.{add_distinct, backslash, norm_rel_path, norm_rel_paths, slash}

-- `_norm_decision_path`
unfoldable pub norm_decision_path : String → String
unfolding lstrip_if rstrip_if drop_prefix
norm_decision_path p =
    rstrip_if (is_char slash)
      (lstrip_if (is_char slash) (drop_prefix "./" (replace_char backslash slash (strip p))))

-- The base of a protected path, whether it is a directory, and how it is shown.
pub record Protected : Type 0 where
  pub base : String
  pub is_dir : Bool
  pub display : String

unfoldable pub norm_protected_path : String → Protected
unfolding has_suffix drop_prefix
norm_protected_path p =
    let raw =
      lstrip_if (is_char slash) (drop_prefix "./" (replace_char backslash slash (strip p))) in
    let base = rstrip_if (is_char slash) raw in
    record {
      base = base;
      is_dir = has_suffix "/" raw;
      display = (if has_suffix "/" raw then base <> "/" else base);
    }

-- `_dir_prefix_match`
unfoldable pub dir_prefix_match : String → String → Bool
dir_prefix_match path prefix =
    not (is_empty prefix) && (path == prefix || has_prefix (prefix <> "/") path)

unfoldable pub is_protected : String → Protected → Bool
unfolding dir_prefix_match
is_protected d p = if p.is_dir then dir_prefix_match d p.base else d == p.base

unfoldable pub has_protected : List Protected → Protected → Bool
has_protected [] p = false
has_protected (q ∷ rest) p = (q.display == p.display && q.base == p.base) || has_protected rest p

unfoldable pub protected_loop : List String → List Protected → List Protected
unfolding has_protected norm_protected_path
protected_loop [] out = out
protected_loop (p ∷ paths) out =
    let key = norm_protected_path p in
    protected_loop paths
      (if is_empty key.base || has_protected out key then out else out ++ (key ∷ []))

-- The first protected path that matches a decision.
unfoldable pub first_protected : String → List Protected → Option Protected
unfolding is_protected
first_protected d [] = none
first_protected d (p ∷ rest) =
    let later = first_protected d rest in if is_protected d p then some p else later

unfoldable pub blocked_loop : List Protected → List String → Option (Protected × String)
unfolding first_protected
blocked_loop protected [] = none
blocked_loop protected (d ∷ rest) = elim (first_protected d protected) [
  | none ↦ blocked_loop protected rest
  | some p ↦ some (p, d)
]

-- `run_dont_touch_gate`: the protected path that blocks, and the decision that touches it.
unfoldable pub run_dont_touch_gate : List String → List String → Option (Protected × String)
unfolding blocked_loop protected_loop norm_decision_path
run_dont_touch_gate decision_paths protected_paths =
    blocked_loop (protected_loop protected_paths [])
      (add_distinct norm_decision_path decision_paths [])

unfoldable pub under_any : String → List String → Bool
under_any path [] = false
under_any path (prefix ∷ rest) =
    path == prefix || has_prefix (prefix <> "/") path || under_any path rest

unfoldable pub pyright_loop : List String → List String → Bool
unfolding under_any
pyright_loop prefixes [] = false
pyright_loop prefixes (relpath ∷ rest) =
    let norm = norm_rel_path relpath in
    norm == "pyrightconfig.json"
    || (has_suffix ".py" norm && under_any norm prefixes)
    || pyright_loop prefixes rest

abbrev pub has_no_prefix : List String → Bool
has_no_prefix [] = true
has_no_prefix (p ∷ ps) = false

unfoldable pub should_run_pyright : List String → List String → Bool
unfolding pyright_loop
should_run_pyright decision_paths targets =
    let prefixes = norm_rel_paths targets in
    not (has_no_prefix prefixes) && pyright_loop prefixes decision_paths

-- The non-empty ones of the normalised paths.
unfoldable pub norm_each : List String → List String
norm_each [] = []
norm_each (p ∷ ps) =
    let rest = norm_each ps in let s = norm_rel_path p in if is_empty s then rest else s ∷ rest

unfoldable pub badguys_loop : List String → List String → List String → Bool × String
unfolding under_any
badguys_loop files prefixes [] = (false, "no_matching_files")
badguys_loop files prefixes (raw ∷ rest) =
    let path = norm_rel_path raw in
    let later = badguys_loop files prefixes rest in
    if is_empty path
    then later
    else if contains files path
    then (true, "trigger_file")
    else if under_any path prefixes
    then (true, "trigger_prefix")
    else later

unfoldable pub should_run_badguys : List String → String → List String → List String → Bool × String
unfolding badguys_loop norm_each
should_run_badguys decision_paths mode trigger_prefixes trigger_files =
    let asked = lower (strip (if is_empty mode then "auto" else mode)) in
    if asked == "always"
    then (true, "always")
    else badguys_loop (norm_each trigger_files) (norm_each trigger_prefixes) decision_paths

-- `p.replace("\\", "/").lstrip("./")`, which takes away every leading dot and slash.
abbrev pub is_dot_or_slash : Char → Bool
is_dot_or_slash c = is_char "." c || is_char slash c

unfoldable pub norm_gate_path : String → String
unfolding lstrip_if
norm_gate_path p = lstrip_if is_dot_or_slash (replace_char backslash slash p)

-- `_has_changed_basename`, on the normalised decision paths.
unfoldable pub has_changed_basename : List String → List String → Bool
has_changed_basename [] names = false
has_changed_basename (pth ∷ rest) names = contains names pth || has_changed_basename rest names

unfoldable pub norm_prefixes : List String → List String
norm_prefixes [] = []
norm_prefixes (x ∷ rest) =
    let later = norm_prefixes rest in
    if is_empty x then later else lstrip_if is_dot_or_slash (rstrip_if (is_char slash) x) ∷ later

unfoldable pub ends_with_any : String → List String → Bool
ends_with_any p [] = false
ends_with_any p (ext ∷ exts) = has_suffix ext p || ends_with_any p exts

unfoldable pub changed_file_loop : List String → List String → List String → Bool
unfolding under_any ends_with_any
changed_file_loop exts prefixes [] = false
changed_file_loop exts prefixes (pth ∷ rest) =
    (ends_with_any pth exts && under_any pth prefixes) || changed_file_loop exts prefixes rest

unfoldable pub has_changed_file : List String → List String → List String → Bool
unfolding changed_file_loop norm_prefixes
has_changed_file paths exts prefixes = changed_file_loop exts (norm_prefixes prefixes) paths
