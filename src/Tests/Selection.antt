-- ===== src/Tests/Selection.antt =====
-- The routing of tests and the allocation of issues on concrete data.
use patchhub.ZipSubset.Choice.{IsChoice, validate_selected_patch_entries-IsChoice}
use patchhub.ZipSubset.{ZipManifest, build_zip_patch_manifest, validate_selected_patch_entries}
use patchhub.Routing.Match.{match_namespace, owns}
use patchhub.Routing.Config.{
  matches_prefix, namespace_contains, namespace_stem, normalize_dependencies,
  normalize_full_suite_prefixes, normalize_roots, normalize_tree,
}
use patchhub.Prelude.Text.{
  has_prefix, is_char, is_empty, is_space, lstrip_if, replace_char, rstrip_if, strip, strip_if,
  text_length,
}
use patchhub.Answers.{Answers, is_ok}
use patchhub.IssueAlloc.{
  IsNext, all_below, allocate_next_issue_id, allocate_next_issue_id-IsNext,
  is_ok-allocate_next_issue_id, known_ids,
}
use patchhub.Routing.Coverage.{contains-select_routed, merged_of, namespace_of}
use patchhub.Routing.Reach.{
  DependsOn, closure_from-ends, directly, reverse_dependency_closure-DependsOn,
}
use patchhub.Routing.Select.{
  Discovery, Policy, any_full_suite, merge_dependency_layers, select_routed,
}
use patchhub.Routing.Closure.{closure_from, members_of, reverse_dependency_closure}
use patchhub.Dict.{Dict, lookup}
use mathlib.Core.List.Memᴰ.{head, tail}
use patchhub.Prelude.{
  List, String, [], arith, contains, false, is_distinct, leb, none, refl, some, true, ◌&&◌, ◌==◌,
  ◌↔◌, ◌∷◌, ◌≡◌,
}

abbrev deps : Dict (List String)
deps = ("web", "api" ∷ []) ∷ ("api", "core" ∷ []) ∷ []

reverse_dependency_closure-DependsOn_example :
    (is_distinct (members_of (reverse_dependency_closure deps) "core") ≡ true)
    × (contains (members_of (reverse_dependency_closure deps) "core") "web" ≡ true
        ↔ DependsOn deps "core" "web")
reverse_dependency_closure-DependsOn_example =
    reverse_dependency_closure-DependsOn deps "core" "web"

abbrev reverse_deps : Dict (List String)
reverse_deps = ("core", "api" ∷ []) ∷ ("api", "core" ∷ "web" ∷ []) ∷ []

closure_from-ends_example : (r : List String) × (closure_from reverse_deps "core" ≡ some r)
closure_from-ends_example = closure_from-ends reverse_deps "core"

abbrev policy : Policy
policy = record {
  pytest_routing_mode = "bucketed";
  pytest_roots = [];
  pytest_tree = ("core", "src/core") ∷ ("api", "src/api") ∷ [];
  pytest_namespace_modules = [];
  pytest_dependencies = ("api", "core" ∷ []) ∷ [];
  pytest_external_dependencies = [];
  pytest_full_suite_prefixes = "conftest.py" ∷ [];
}

abbrev discovery : Discovery
discovery = record {
  policy_error = none;
  ownership = ("tests/test_core.py", "core" ∷ []) ∷ ("tests/test_api.py", "api.v1" ∷ []) ∷ [];
  catchall_ownership = [];
}

-- The hypotheses of the theorem, each computed.
api_depends :
    DependsOn (merged_of policy) (namespace_stem (namespace_of policy "src/core/a.py")) "api"
unfolding any_full_suite normalize_full_suite_prefixes matches_prefix namespace_stem strip strip_if
    lstrip_if rstrip_if is_empty is_space normalize_dependencies merge_dependency_layers
    replace_char is_char lookup has_prefix text_length match_namespace normalize_roots
    normalize_tree namespace_contains contains
api_depends = directly refl

no_full_suite :
    any_full_suite
      ("src/core/a.py" ∷ [])
      (normalize_full_suite_prefixes policy.pytest_full_suite_prefixes)
    ≡ false
unfolding any_full_suite normalize_full_suite_prefixes matches_prefix namespace_stem strip strip_if
    lstrip_if rstrip_if is_empty is_space normalize_dependencies merge_dependency_layers
    replace_char is_char lookup has_prefix text_length match_namespace normalize_roots
    normalize_tree namespace_contains contains
no_full_suite = refl

path_there : contains ("src/core/a.py" ∷ []) "src/core/a.py" ≡ true
unfolding contains
path_there = refl

has_namespace : namespace_of policy "src/core/a.py" == "*" ≡ false
unfolding any_full_suite normalize_full_suite_prefixes matches_prefix namespace_stem strip strip_if
    lstrip_if rstrip_if is_empty is_space normalize_dependencies merge_dependency_layers
    replace_char is_char lookup has_prefix text_length match_namespace normalize_roots
    normalize_tree namespace_contains contains
has_namespace = refl

api_named : is_empty (strip "api") ≡ false
unfolding strip strip_if lstrip_if rstrip_if is_empty is_space
api_named = refl

api_owns : owns true (namespace_stem "api") ("api.v1" ∷ []) ≡ true
unfolding namespace_stem namespace_contains strip strip_if lstrip_if rstrip_if is_empty is_space
api_owns = refl

test_clean : strip "tests/test_api.py" ≡ "tests/test_api.py"
unfolding strip strip_if lstrip_if rstrip_if is_empty is_space
test_clean = refl

test_named : is_empty "tests/test_api.py" ≡ false
unfolding is_empty
test_named = refl

contains-select_routed_example :
    contains
      (select_routed policy discovery ("src/core/a.py" ∷ []) ("tests" ∷ []))
      "tests/test_api.py"
    ≡ true
contains-select_routed_example =
    contains-select_routed policy discovery ("src/core/a.py" ∷ []) ("tests" ∷ []) "src/core/a.py"
      "api" no_full_suite path_there has_namespace api_depends api_named (tail (head refl)) api_owns
      test_clean test_named

allocate_next_issue_id-IsNext_example :
    Answers
      (IsNext 100 999 (known_ids (120 ∷ 307 ∷ []) (some 306) none) 400)
      (allocate_next_issue_id (120 ∷ 307 ∷ []) (some 306) none 100 999)
allocate_next_issue_id-IsNext_example =
    allocate_next_issue_id-IsNext (120 ∷ 307 ∷ []) (some 306) none 100 999 400 (omega arith)

is_ok-allocate_next_issue_id_example :
    is_ok (allocate_next_issue_id (120 ∷ 999 ∷ []) (some 306) none 100 999)
    ≡ (leb 100 999 && all_below 999 (known_ids (120 ∷ 999 ∷ []) (some 306) none))
is_ok-allocate_next_issue_id_example =
    is_ok-allocate_next_issue_id (120 ∷ 999 ∷ []) (some 306) none 100 999

abbrev in_order : List String → List String
in_order names = names

in_order_lem : (names : List String) (p : String) → contains (in_order names) p ≡ contains names p
in_order_lem names p = refl

abbrev zip_manifest : ZipManifest
zip_manifest =
    build_zip_patch_manifest in_order (
      "COMMIT_MESSAGE.txt" ∷ "patches/per_file/src__a.py.patch" ∷ "patches/per_file/b.py.patch"
      ∷ [])

-- The members and the paths that their names encode.
zip_manifest_entries :
    zip_manifest.zip_entries
    ≡ record { zip_member = "patches/per_file/src__a.py.patch"; repo_path = some "src/a.py" }
      ∷ record { zip_member = "patches/per_file/b.py.patch"; repo_path = some "b.py" }
      ∷ []
unfolding build_zip_patch_manifest
zip_manifest_entries = refl

validate_selected_patch_entries-IsChoice_example :
    Answers
      (IsChoice zip_manifest
        ("" ∷ "patches/per_file/b.py.patch" ∷ [])
        "patches/per_file/b.py.patch")
      (validate_selected_patch_entries in_order zip_manifest
        ("" ∷ "patches/per_file/b.py.patch" ∷ []))
validate_selected_patch_entries-IsChoice_example =
    validate_selected_patch_entries-IsChoice in_order in_order_lem zip_manifest
      ("" ∷ "patches/per_file/b.py.patch" ∷ []) "patches/per_file/b.py.patch"
