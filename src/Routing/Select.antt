-- ===== src/Routing/Select.antt =====
-- scripts/am_patch/pytest_namespace_routing.py: `select_namespace_pytest_targets`, and
-- pytest_bucket_routing.py. The check of the policy against the repository, and the ownership that
-- the discovery reads from it, are arguments. The values of a policy have the types of its schema.
use patchhub.Prelude.{
  Bool, List, Option, String, [], contains, false, if◌then◌else◌, none, not, select, some, ◌&&◌,
  ◌++◌, ◌<>◌, ◌==◌, ◌||◌, ◌∷◌,
}
use patchhub.Prelude.Text.{is_empty, strip}
use patchhub.Dict.{Dict, insert, values}
use patchhub.CommandLine.{Result, err, ok}
use patchhub.Routing.Config.{
  matches_prefix, namespace_stem, normalize_dependencies, normalize_full_suite_prefixes,
  normalize_namespace_modules, normalize_roots, normalize_tree,
}
use patchhub.Routing.Closure.{members_of, reverse_dependency_closure}
use patchhub.Routing.Match.{
  Ownership, catchall_evidence_targets, dedupe_keep_first, is_direct_test_path, match_namespace,
  namespace_targets, no_paths,
}

-- `_merge_dependency_layers`
unfoldable pub stems_of : List String → List String
unfolding namespace_stem
stems_of [] = []
stems_of (provider ∷ rest) =
    let later = stems_of rest in
    if namespace_stem provider == "*" then later else namespace_stem provider ∷ later

unfoldable pub internal_layer : Dict (List String) → Dict (List String) → Dict (List String)
unfolding stems_of insert
internal_layer [] merged = merged
internal_layer ((namespace, providers) ∷ dependencies) merged =
    internal_layer dependencies (insert (namespace_stem namespace) (stems_of providers) merged)

unfoldable pub add_providers : List String → List String → List String
unfolding namespace_stem
add_providers [] members = members
add_providers (provider ∷ rest) members =
    let stem = namespace_stem provider in
    add_providers rest
      (if not (stem == "*") && not (contains members stem) then members ++ (stem ∷ []) else members)

unfoldable pub external_layer : Dict (List String) → Dict (List String) → Dict (List String)
unfolding add_providers insert members_of
external_layer [] merged = merged
external_layer ((namespace, providers) ∷ external_dependencies) merged =
    let ns = namespace_stem namespace in
    external_layer external_dependencies
      (insert ns (add_providers providers (members_of merged ns)) merged)

unfoldable pub merge_dependency_layers :
    Dict (List String) → Dict (List String) → Dict (List String)
unfolding internal_layer external_layer
merge_dependency_layers dependencies external_dependencies =
    external_layer external_dependencies (internal_layer dependencies [])

pub record Policy : Type 0 where
  pub pytest_routing_mode : String
  pub pytest_roots : Dict String
  pub pytest_tree : Dict String
  pub pytest_namespace_modules : Dict (List String)
  pub pytest_dependencies : Dict (List String)
  pub pytest_external_dependencies : Dict (List String)
  pub pytest_full_suite_prefixes : List String

-- What is read from the repository: an error of the policy's check, and who owns each test.
pub record Discovery : Type 0 where
  pub policy_error : Option String
  pub ownership : Ownership
  pub catchall_ownership : Ownership

abbrev pub matches_any : String → List String → Bool
matches_any path [] = false
matches_any path (prefix ∷ rest) = matches_prefix path prefix || matches_any path rest

unfoldable pub any_full_suite : List String → List String → Bool
unfolding matches_prefix
any_full_suite [] prefixes = false
any_full_suite (path ∷ rest) prefixes = matches_any path prefixes || any_full_suite rest prefixes

-- The tests of one path.
unfoldable pub path_targets :
    Dict String
    → Dict String
    → Dict (List String)
    → Dict (List String)
    → Discovery
    → String
    → List String
unfolding match_namespace catchall_evidence_targets namespace_targets
path_targets roots tree dependencies closure d path =
    let namespace = match_namespace path roots tree in
    let catchall = catchall_evidence_targets path d.catchall_ownership in
    if namespace == "*" && not (no_paths catchall)
    then catchall
    else namespace_targets namespace dependencies closure d.ownership roots

unfoldable pub targets_loop :
    Dict String
    → Dict String
    → Dict (List String)
    → Dict (List String)
    → Discovery
    → List String
    → List String
unfolding path_targets
targets_loop roots tree dependencies closure d [] = []
targets_loop roots tree dependencies closure d (path ∷ rest) =
    path_targets roots tree dependencies closure d path
    ++ targets_loop roots tree dependencies closure d rest

unfoldable pub select_routed : Policy → Discovery → List String → List String → List String
unfolding normalize_roots normalize_tree normalize_dependencies merge_dependency_layers
    normalize_full_suite_prefixes reverse_dependency_closure any_full_suite targets_loop
    dedupe_keep_first is_direct_test_path
select_routed p d decision_paths pytest_targets =
    let roots = normalize_roots p.pytest_roots in
    let tree = normalize_tree p.pytest_tree in
    let merged =
      merge_dependency_layers (normalize_dependencies p.pytest_dependencies)
        (normalize_dependencies p.pytest_external_dependencies) in
    let direct = select is_direct_test_path decision_paths in
    dedupe_keep_first (
      direct
      ++ (if any_full_suite decision_paths
            (normalize_full_suite_prefixes p.pytest_full_suite_prefixes)
          then pytest_targets
          else targets_loop roots tree merged (reverse_dependency_closure merged) d decision_paths))

unfoldable pub select_namespace_pytest_targets :
    Policy → Discovery → List String → List String → Result (List String)
unfolding select_routed
select_namespace_pytest_targets p d decision_paths pytest_targets = elim d.policy_error [
  | some e ↦ err e
  | none ↦ ok (select_routed p d decision_paths pytest_targets)
]

-- `_mapping_dict_str`, `_mapping_dict_list` and `_mapping_list`
unfoldable pub text_items : Dict String → Dict String → Dict String
unfolding strip insert
text_items [] out = out
text_items ((key, value) ∷ raw) out = text_items raw (
    if is_empty (strip key) || is_empty (strip value)
    then out
    else insert (strip key) (strip value) out)

unfoldable pub mapping_list : List String → List String
unfolding strip
mapping_list [] = []
mapping_list (item ∷ rest) =
    let later = mapping_list rest in if is_empty (strip item) then later else strip item ∷ later

unfoldable pub list_items : Dict (List String) → Dict (List String) → Dict (List String)
unfolding mapping_list insert
list_items [] out = out
list_items ((key, values) ∷ raw) out =
    list_items raw
      (if is_empty (strip key) then out else insert (strip key) (mapping_list values) out)

-- `xs or default`
abbrev pub or_default : {A : Type 0} → List A → List A → List A
or_default [] default = default
or_default (x ∷ xs) default = x ∷ xs

-- The policy that `select_pytest_targets` hands on.
unfoldable pub read_policy : Policy → Policy → Policy
unfolding text_items list_items normalize_namespace_modules normalize_dependencies
read_policy defaults p = record {
  pytest_routing_mode = p.pytest_routing_mode;
  pytest_roots = or_default (text_items p.pytest_roots []) defaults.pytest_roots;
  pytest_tree = or_default (text_items p.pytest_tree []) defaults.pytest_tree;
  pytest_namespace_modules =
      or_default (normalize_namespace_modules (list_items p.pytest_namespace_modules []))
        defaults.pytest_namespace_modules;
  pytest_dependencies =
      or_default (normalize_dependencies (list_items p.pytest_dependencies []))
        defaults.pytest_dependencies;
  pytest_external_dependencies =
      or_default (normalize_dependencies (list_items p.pytest_external_dependencies []))
        defaults.pytest_external_dependencies;
  pytest_full_suite_prefixes =
      or_default (mapping_list p.pytest_full_suite_prefixes) defaults.pytest_full_suite_prefixes;
}

abbrev pub routing_mode : String → String
routing_mode raw = if is_empty (strip raw) then "legacy" else strip raw

unfoldable pub select_pytest_targets :
    Policy → Discovery → Option Policy → List String → List String → Result (List String)
unfolding read_policy select_namespace_pytest_targets strip
select_pytest_targets defaults d none decision_paths pytest_targets = ok pytest_targets
select_pytest_targets defaults d (some p) decision_paths pytest_targets =
    if routing_mode p.pytest_routing_mode == "legacy"
    then ok pytest_targets
    else if not (routing_mode p.pytest_routing_mode == "bucketed")
    then err ("invalid pytest_routing_mode: '" <> routing_mode p.pytest_routing_mode <> "'")
    else select_namespace_pytest_targets (read_policy defaults p) d decision_paths pytest_targets
