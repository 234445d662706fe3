-- ===== src/Routing/Match.antt =====
-- scripts/am_patch/pytest_namespace_routing.py: `match_namespace`, and the choice of the tests that
-- belong to a namespace, of pytest_namespace_discovery.py.
use patchhub.Prelude.{
  Bool, List, Option, String, [], contains, false, if◌then◌else◌, none, not, some, true, ℕ, ◌&&◌,
  ◌++◌, ◌==◌, ◌||◌, ◌∷◌,
}
use patchhub.Prelude.Text.{has_prefix, has_suffix, is_empty, last_part, strip, text_length}
use patchhub.Dict.{Dict, keys}
use patchhub.Routing.Config.{
  is_longer, matches_prefix, namespace_contains, namespace_stem, root_for_namespace,
}
use patchhub.Routing.Closure.{members_of}
use patchhub.Gates.Triggers.{norm_gate_path}
use patchhub.Gates.Paths.{add_distinct}

-- The best namespace so far, and the length of its prefix.
pub record Best : Type 0 where
  pub best_namespace : String
  pub best_len : Option ℕ

unfoldable pub tree_match : String → Dict String → Best → Best
unfolding matches_prefix namespace_stem text_length
tree_match path [] best = best
tree_match path ((namespace, prefix) ∷ tree) best = tree_match path tree (
    if matches_prefix path prefix && is_longer (text_length prefix) best.best_len
    then record { best_namespace = namespace_stem namespace; best_len = some (text_length prefix) }
    else best)

unfoldable pub roots_match : String → Dict String → Best → Best
unfolding matches_prefix namespace_stem text_length
roots_match path [] best = best
roots_match path ((raw_namespace, prefix) ∷ roots) best = roots_match path roots (
    if not (namespace_stem raw_namespace == "*")
      && matches_prefix path prefix
      && is_longer (text_length prefix) best.best_len
    then record {
      best_namespace = namespace_stem raw_namespace;
      best_len = some (text_length prefix);
    }
    else best)

abbrev pub no_match : Best
no_match = record { best_namespace = "*"; best_len = none }

unfoldable pub match_namespace : String → Dict String → Dict String → String
unfolding tree_match roots_match
match_namespace path roots tree =
    let best = tree_match path tree no_match in
    if best.best_namespace == "*"
    then (roots_match path roots best).best_namespace
    else best.best_namespace

-- `select_tests_for_namespaces`
abbrev pub owns : Bool → String → List String → Bool
owns include_descendants wanted [] = false
owns include_descendants wanted (owned ∷ rest) =
    (if include_descendants
      then namespace_contains wanted owned
      else namespace_stem owned == wanted)
    || owns include_descendants wanted rest

abbrev pub any_owns : Bool → List String → List String → Bool
any_owns include_descendants [] owned = false
any_owns include_descendants (wanted ∷ rest) owned =
    owns include_descendants wanted owned || any_owns include_descendants rest owned

unfoldable pub wanted_of : List String → List String
unfolding namespace_stem strip
wanted_of [] = []
wanted_of (item ∷ rest) =
    let later = wanted_of rest in
    if is_empty (strip item) then later else namespace_stem item ∷ later

abbrev pub Ownership : Type 0
Ownership = List (String × List String)

unfoldable pub owned_paths : Bool → List String → Ownership → List String
unfolding namespace_contains namespace_stem
owned_paths include_descendants wanted [] = []
owned_paths include_descendants wanted ((rel_path, owned) ∷ rest) =
    let later = owned_paths include_descendants wanted rest in
    if any_owns include_descendants wanted owned then rel_path ∷ later else later

unfoldable pub select_tests_for_namespaces : Ownership → List String → Bool → List String
unfolding owned_paths wanted_of
select_tests_for_namespaces ownership namespaces include_descendants =
    owned_paths include_descendants (wanted_of namespaces) ownership

unfoldable pub is_direct_test_path : String → Bool
unfolding norm_gate_path matches_prefix last_part has_prefix has_suffix
is_direct_test_path path =
    let norm = norm_gate_path path in
    matches_prefix norm "tests" && has_prefix "test_" (last_part norm) && has_suffix ".py" norm

-- `_catchall_evidence_targets`
abbrev pub any_path : String → List String → Bool
any_path norm [] = false
any_path norm (item ∷ rest) = norm_gate_path item == norm || any_path norm rest

unfoldable pub catchall_evidence_targets : String → Ownership → List String
unfolding norm_gate_path
catchall_evidence_targets path [] = []
catchall_evidence_targets path ((rel_path, evidence_paths) ∷ rest) =
    let later = catchall_evidence_targets path rest in
    if any_path (norm_gate_path path) evidence_paths then rel_path ∷ later else later

-- `dedupe_keep_first`
unfoldable pub dedupe_keep_first : List String → List String
unfolding add_distinct
dedupe_keep_first items = add_distinct strip items []

abbrev pub no_paths : List String → Bool
no_paths [] = true
no_paths (p ∷ ps) = false

-- `namespace_targets`
unfoldable pub dependent_targets : Ownership → List String → List String
unfolding select_tests_for_namespaces
dependent_targets ownership [] = []
dependent_targets ownership (dependent ∷ rest) =
    select_tests_for_namespaces ownership (dependent ∷ []) true ++ dependent_targets ownership rest

unfoldable pub own_targets : String → Ownership → Dict String → List String
unfolding select_tests_for_namespaces root_for_namespace
own_targets ns ownership roots =
    let root_namespace = root_for_namespace ns roots in
    let subtree = select_tests_for_namespaces ownership (ns ∷ []) (not (root_namespace == ns)) in
    if not (no_paths subtree)
    then subtree
    else if root_namespace == ns
    then []
    else select_tests_for_namespaces ownership (root_namespace ∷ []) false

unfoldable pub namespace_targets :
    String → Dict (List String) → Dict (List String) → Ownership → Dict String → List String
unfolding dedupe_keep_first dependent_targets own_targets members_of
namespace_targets namespace dependencies reverse_closure ownership roots =
    let ns = namespace_stem namespace in
    let targets =
      select_tests_for_namespaces ownership (ns ∷ []) false
      ++ dependent_targets ownership (members_of reverse_closure ns) in
    dedupe_keep_first (
      if contains (keys dependencies) ns
      then targets
      else targets ++ own_targets ns ownership roots)
