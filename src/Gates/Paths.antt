-- ===== src/Gates/Paths.antt =====
-- The path tests of the gates: scripts/am_patch/gate_docs.py (with the same helpers in gates.py,
-- gate_pyright.py and gate_badguys.py) and scripts/am_patch/gate_dont_touch.py. Texts that are
-- lowered are taken to be ASCII. The entries of a git status are parsed in Scope.
use Prim.Native.Char.{Char}
use patchhub.Prelude.{
  Bool, List, Option, String, [], contains, false, if◌then◌else◌, none, not, some, ◌&&◌, ◌++◌, ◌<>◌,
  ◌==◌, ◌||◌, ◌∷◌,
}
use patchhub.Prelude.Text.{
  drop_prefix, has_prefix, is_char, is_empty, lstrip_if, replace_char, strip, strip_if,
}

abbrev pub slash : Char
slash = "/"

abbrev pub backslash : Char
backslash = "\\"

-- `_norm_rel_path`
unfoldable pub norm_rel_path : String → String
unfolding drop_prefix strip_if
norm_rel_path p =
    strip_if (is_char slash) (drop_prefix "./" (replace_char backslash slash (strip p)))

-- A loop that appends what it does not have yet.
unfoldable pub add_distinct : (String → String) → List String → List String → List String
add_distinct norm [] out = out
add_distinct norm (p ∷ ps) out =
    add_distinct norm ps
      (if is_empty (norm p) || contains out (norm p) then out else out ++ (norm p ∷ []))

unfoldable pub norm_rel_paths : List String → List String
unfolding add_distinct
norm_rel_paths paths = add_distinct norm_rel_path paths []

-- `_path_has_prefix`, the path first.
unfoldable pub path_has_prefix : String → String → Bool
path_has_prefix path prefix =
    not (is_empty prefix) && (path == prefix || has_prefix (prefix <> "/") path)

unfoldable pub any_prefix : String → List String → Bool
any_prefix path [] = false
any_prefix path (prefix ∷ rest) = path_has_prefix path prefix || any_prefix path rest

-- `_docs_gate_is_watched`: the path that triggers the gate.
unfoldable pub watched_loop : List String → List String → List String → Option String
unfolding any_prefix
watched_loop inc exc [] = none
watched_loop inc exc (path ∷ paths) =
    let later = watched_loop inc exc paths in
    if any_prefix path exc then later else if any_prefix path inc then some path else later

unfoldable pub docs_gate_is_watched : List String → List String → List String → Option String
unfolding watched_loop norm_rel_paths
docs_gate_is_watched decision_paths include exclude =
    watched_loop (norm_rel_paths include) (norm_rel_paths exclude) (norm_rel_paths decision_paths)

-- `_norm_docs_required_prefixes`: what to show and the prefix, each prefix once.
unfoldable pub display_of : String → String
display_of raw =
    lstrip_if (is_char slash) (drop_prefix "./" (replace_char backslash slash (strip raw)))

unfoldable pub required_loop :
    List String → List String → List (String × String) → List (String × String)
required_loop [] seen out = out
required_loop (raw ∷ rest) seen out =
    let prefix = norm_rel_path raw in
    let later = required_loop rest seen out in
    let added = required_loop rest (prefix ∷ seen) (out ++ ((display_of raw, prefix) ∷ [])) in
    if is_empty (display_of raw) || is_empty prefix || contains seen prefix then later else added

unfoldable pub norm_docs_required_prefixes : List String → List (String × String)
unfolding required_loop
norm_docs_required_prefixes required_files = required_loop required_files [] []

-- `_norm_changed_entries`
unfoldable pub has_entry : List (String × String) → String → String → Bool
has_entry [] status path = false
has_entry ((s, p) ∷ rest) status path = (s == status && p == path) || has_entry rest status path

unfoldable pub entries_loop :
    List (String × String) → List (String × String) → List (String × String)
unfolding has_entry
entries_loop [] out = out
entries_loop ((status, path) ∷ rest) out =
    let s = strip status in
    let p = norm_rel_path path in
    let later = entries_loop rest out in
    let added = entries_loop rest (out ++ ((s, p) ∷ [])) in
    if is_empty s || is_empty p || has_entry out s p then later else added

unfoldable pub norm_changed_entries : List (String × String) → List (String × String)
unfolding entries_loop
norm_changed_entries changed_entries = entries_loop changed_entries []

-- `_docs_gate_has_added_fragment`
unfoldable pub has_added_fragment : List (String × String) → String → List String → Bool
has_added_fragment [] required_prefix decision_path_set = false
has_added_fragment ((status, path) ∷ rest) required_prefix decision_path_set =
    (contains decision_path_set path
      && (status == "??" || has_prefix "A" status)
      && path_has_prefix path required_prefix)
    || has_added_fragment rest required_prefix decision_path_set

unfoldable pub missing_of :
    List (String × String) → List String → List (String × String) → List String
unfolding has_added_fragment
missing_of entries paths [] = []
missing_of entries paths ((display, prefix) ∷ required) =
    let rest = missing_of entries paths required in
    if has_added_fragment entries prefix paths then rest else display ∷ rest

-- `check_docs_gate`: what is missing, and the path that triggered the gate.
unfoldable pub check_docs_gate :
    List String
    → List String
    → List String
    → List String
    → List (String × String)
    → List String × Option String
unfolding docs_gate_is_watched norm_docs_required_prefixes norm_changed_entries missing_of
check_docs_gate decision_paths include exclude required_files changed_entries =
    elim (docs_gate_is_watched decision_paths include exclude) [
      | none ↦ ([], none)
      | some trigger ↦ (
        missing_of (norm_changed_entries changed_entries) (norm_rel_paths decision_paths)
            (norm_docs_required_prefixes required_files),
        some trigger,
      )
    ]
