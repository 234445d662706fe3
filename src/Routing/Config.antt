-- ===== src/Routing/Config.antt =====
-- scripts/am_patch/pytest_namespace_config.py: namespaces, prefixes, and the clean-up of the policy.
use Prim.Native.Char.{Char}
use patchhub.Prelude.{
  Bool, List, Option, String, [], contains, false, if◌then◌else◌, ltb, none, not, some, true, ℕ,
  ◌&&◌, ◌++◌, ◌<>◌, ◌==◌, ◌||◌, ◌∷◌,
}
use patchhub.Prelude.Text.{
  drop_end, has_prefix, has_suffix, is_char, is_empty, rstrip_if, strip, strip_if, text_length,
}
use patchhub.Dict.{Dict, insert, keys}
use patchhub.Gates.Triggers.{norm_gate_path}
use patchhub.Gates.Paths.{add_distinct, slash}

-- `normalize_path` is `norm_gate_path` of the gates. `normalize_prefix`
unfoldable pub normalize_prefix : String → String
unfolding norm_gate_path rstrip_if
normalize_prefix value = norm_gate_path (rstrip_if (is_char slash) value)

unfoldable pub matches_prefix : String → String → Bool
unfolding normalize_prefix has_prefix
matches_prefix path prefix =
    let norm_path = norm_gate_path path in
    let norm_prefix = normalize_prefix prefix in
    if is_empty norm_prefix
    then false
    else if norm_prefix == "*"
    then true
    else norm_path == norm_prefix || has_prefix (norm_prefix <> "/") norm_path

unfoldable pub namespace_stem : String → String
unfolding strip has_suffix drop_end
namespace_stem namespace =
    let text = strip namespace in
    if text == "*" then "*" else if has_suffix ".*" text then drop_end 2 text else text

unfoldable pub roots_loop : Dict String → Dict String → Dict String
unfolding normalize_prefix insert
roots_loop [] out = out
roots_loop ((namespace, prefix) ∷ raw) out =
    let ns = strip namespace in
    let pref = normalize_prefix prefix in
    roots_loop raw (if is_empty ns || is_empty pref then out else insert ns pref out)

unfoldable pub normalize_roots : Dict String → Dict String
unfolding roots_loop
normalize_roots raw = roots_loop raw []

unfoldable pub tree_loop : Dict String → Dict String → Dict String
unfolding normalize_prefix namespace_stem insert
tree_loop [] out = out
tree_loop ((namespace, prefix) ∷ raw) out =
    let ns = namespace_stem namespace in
    let pref = normalize_prefix prefix in
    tree_loop raw (if is_empty ns || is_empty pref || ns == "*" then out else insert ns pref out)

unfoldable pub normalize_tree : Dict String → Dict String
unfolding tree_loop
normalize_tree raw = tree_loop raw []

-- The values of a dict of lists, cleaned up by a loop of their own.
unfoldable pub cleaned_deps : List String → List String → List String
unfolding namespace_stem
cleaned_deps [] cleaned = cleaned
cleaned_deps (dep ∷ deps) cleaned =
    let item = namespace_stem dep in
    cleaned_deps deps (
      if is_empty item || item == "*" || contains cleaned item
      then cleaned
      else cleaned ++ (item ∷ []))

unfoldable pub dependencies_loop : Dict (List String) → Dict (List String) → Dict (List String)
unfolding cleaned_deps insert
dependencies_loop [] out = out
dependencies_loop ((namespace, deps) ∷ raw) out =
    let ns = namespace_stem namespace in
    dependencies_loop raw
      (if is_empty ns || ns == "*" then out else insert ns (cleaned_deps deps []) out)

unfoldable pub normalize_dependencies : Dict (List String) → Dict (List String)
unfolding dependencies_loop
normalize_dependencies raw = dependencies_loop raw []

unfoldable pub normalize_full_suite_prefixes : List String → List String
unfolding add_distinct normalize_prefix
normalize_full_suite_prefixes raw = add_distinct normalize_prefix raw []

abbrev pub is_dot : Char → Bool
is_dot c = is_char "." c

abbrev pub module_prefix : String → String
module_prefix prefix = strip_if is_dot (strip prefix)

unfoldable pub modules_loop : Dict (List String) → Dict (List String) → Dict (List String)
unfolding namespace_stem add_distinct insert
modules_loop [] out = out
modules_loop ((namespace, prefixes) ∷ raw) out =
    let ns = namespace_stem namespace in
    modules_loop raw (
      if is_empty ns || ns == "*"
      then out
      else insert ns (add_distinct module_prefix prefixes []) out)

unfoldable pub normalize_namespace_modules : Dict (List String) → Dict (List String)
unfolding modules_loop
normalize_namespace_modules raw = modules_loop raw []

-- The length of the best match so far, -1 at first.
abbrev pub is_longer : ℕ → Option ℕ → Bool
is_longer n none = true
is_longer n (some best) = ltb best n

unfoldable pub root_loop : String → List String → String → Option ℕ → String
unfolding namespace_stem text_length
root_loop ns [] best best_len = best
root_loop ns (raw_namespace ∷ roots) best best_len =
    let stem = namespace_stem raw_namespace in
    let found =
      not (stem == "*")
      && (ns == stem || has_prefix (stem <> ".") ns)
      && is_longer (text_length stem) best_len in
    root_loop ns roots (if found then stem else best)
      (if found then some (text_length stem) else best_len)

unfoldable pub root_for_namespace : String → Dict String → String
unfolding root_loop keys
root_for_namespace namespace roots = root_loop (namespace_stem namespace) (keys roots) "*" none

unfoldable pub namespace_contains : String → String → Bool
unfolding namespace_stem has_prefix
namespace_contains parent child =
    let p = namespace_stem parent in
    let c = namespace_stem child in if p == "*" then true else c == p || has_prefix (p <> ".") c
