-- ===== src/Routing/Coverage.antt =====
-- The routing misses no test of an affected namespace.
use mathlib.Core.List.{Memᴰ}
use mathlib.Core.List.Memᴰ.{head, tail}
use patchhub.Dict.{Dict, keys}
use patchhub.Prelude.{
  Bool, Bool-cases, List, String, [], ap, arith, contains, contains-append, contains-append_all,
  contains_cons, contains_nil, eq_iff, eq_refl, false, if_keeps, inl, inr, select, sym, true, ◌++◌,
  ◌==◌, ◌∙◌, ◌∷◌, ◌≡◌,
}
use patchhub.Prelude.Text.{is_empty, strip}
use patchhub.Gates.Paths.{add_distinct}
use patchhub.Routing.Match.{
  Ownership, any_owns, dedupe_keep_first, dependent_targets, is_direct_test_path, match_namespace,
  namespace_targets, own_targets, owned_paths, owns, select_tests_for_namespaces, wanted_of,
}
use patchhub.Routing.Config.{
  namespace_stem, normalize_dependencies, normalize_full_suite_prefixes, normalize_roots,
  normalize_tree,
}
use patchhub.Routing.Closure.{members_of, reverse_dependency_closure}
use patchhub.Routing.Reach.{DependsOn, reverse_dependency_closure-DependsOn}
use patchhub.Routing.Select.{
  Discovery, Policy, any_full_suite, merge_dependency_layers, path_targets, select_routed,
  targets_loop,
}

-- Each item is kept, as its clean-up, unless that is empty.
contains-add_distinct_out :
    (norm : String → String) (ps out : List String) (x : String)
    → contains out x ≡ true
    → contains (add_distinct norm ps out) x ≡ true
unfolding add_distinct
contains-add_distinct_out norm [] out x h = h
contains-add_distinct_out norm (p ∷ ps) out x h = ground (
  arith,
  contains-append out (norm p) x,
  contains-add_distinct_out norm ps out x,
  contains-add_distinct_out norm ps (out ++ (norm p ∷ [])) x,
)

pub contains-add_distinct :
    (norm : String → String) (ps out : List String) (t : String)
    → contains ps t ≡ true
    → is_empty (norm t) ≡ false
    → contains (add_distinct norm ps out) (norm t) ≡ true
unfolding add_distinct
contains-add_distinct norm [] out t h n = ground (arith, contains_nil t)
contains-add_distinct norm (p ∷ ps) out t h n = elim (Bool-cases (p == t)) [
  | inl e ↦ ground (
    arith,
    (eq_iff p t).0 e,
    contains-add_distinct_out norm ps out (norm t),
    contains-add_distinct_out norm ps (out ++ (norm t ∷ [])) (norm t),
    contains-append out (norm t) (norm t),
    eq_refl (norm t),
  )
  | inr ne ↦ ground (
    arith,
    contains_cons p ps t,
    contains-add_distinct norm ps out t,
    contains-add_distinct norm ps (out ++ (norm p ∷ [])) t,
  )
]

contains-owned_paths :
    (descend : Bool) (wanted : List String) {t : String} {owned : List String}
    {ownership : Ownership}
    → Memᴰ (t, owned) ownership
    → any_owns descend wanted owned ≡ true
    → contains (owned_paths descend wanted ownership) t ≡ true
unfolding owned_paths
contains-owned_paths descend wanted {t} {owned} (head {x} {xs} e) h =
    let found : any_owns descend wanted x.1 ≡ true =
      ap (λ (o : List String). any_owns descend wanted o)
        (ap (λ (y : String × List String). y.1) (sym e))
      ∙ h in
    let same : t ≡ x.0 = ap (λ (y : String × List String). y.0) e in
    rw found
      (rw same (ground (arith, contains_cons x.0 (owned_paths descend wanted xs) x.0, eq_refl x.0)))
contains-owned_paths descend wanted {t} {owned} (tail {x} {xs} m) h = ground (
  arith,
  contains_cons x.0 (owned_paths descend wanted xs) t,
  contains-owned_paths descend wanted m h,
)

contains-dependent_targets :
    (ownership : Ownership) (dependents : List String) (y t : String)
    → contains dependents y ≡ true
    → contains (select_tests_for_namespaces ownership (y ∷ []) true) t ≡ true
    → contains (dependent_targets ownership dependents) t ≡ true
unfolding dependent_targets
contains-dependent_targets ownership [] y t h s = ground (arith, contains_nil y)
contains-dependent_targets ownership (x ∷ rest) y t h s = ground (
  arith,
  contains_cons x rest y,
  eq_iff x y,
  contains-append_all (select_tests_for_namespaces ownership (x ∷ []) true)
      (dependent_targets ownership rest) t,
  contains-dependent_targets ownership rest y t,
)

contains-select_tests :
    (ownership : Ownership) (y : String) {t : String} {owned : List String}
    → is_empty (strip y) ≡ false
    → Memᴰ (t, owned) ownership
    → owns true (namespace_stem y) owned ≡ true
    → contains (select_tests_for_namespaces ownership (y ∷ []) true) t ≡ true
unfolding select_tests_for_namespaces wanted_of
contains-select_tests ownership y n m h =
    rw n (contains-owned_paths true (namespace_stem y ∷ []) m (ground arith))

contains-namespace_targets :
    (namespace : String) (dependencies closure : Dict (List String)) (ownership : Ownership)
    (roots : Dict String) (y t : String)
    → contains (members_of closure (namespace_stem namespace)) y ≡ true
    → contains (select_tests_for_namespaces ownership (y ∷ []) true) t ≡ true
    → is_empty (strip t) ≡ false
    → contains (namespace_targets namespace dependencies closure ownership roots) (strip t) ≡ true
unfolding namespace_targets dedupe_keep_first
contains-namespace_targets namespace dependencies closure ownership roots y t c s n =
    let ns = namespace_stem namespace in
    let own = select_tests_for_namespaces ownership (ns ∷ []) false in
    let dependents = dependent_targets ownership (members_of closure ns) in
    let found : contains (own ++ dependents) t ≡ true = ground (
      arith,
      contains-append_all own dependents t,
      contains-dependent_targets ownership (members_of closure ns) y t,
    ) in
    if_keeps (λ (xs : List String). contains (add_distinct strip xs []) (strip t) ≡ true)
      (contains (keys dependencies) ns) (own ++ dependents)
      ((own ++ dependents) ++ own_targets ns ownership roots)
      (λ _. contains-add_distinct strip (own ++ dependents) [] t found n)
      (λ _.
        contains-add_distinct strip ((own ++ dependents) ++ own_targets ns ownership roots) [] t
          (ground
            (arith, contains-append_all (own ++ dependents) (own_targets ns ownership roots) t))
          n)

contains-targets_loop :
    (roots tree : Dict String) (dependencies closure : Dict (List String)) (d : Discovery)
    (paths : List String) (path t : String)
    → contains paths path ≡ true
    → contains (path_targets roots tree dependencies closure d path) t ≡ true
    → contains (targets_loop roots tree dependencies closure d paths) t ≡ true
unfolding targets_loop
contains-targets_loop roots tree dependencies closure d [] path t h s =
    ground (arith, contains_nil path)
contains-targets_loop roots tree dependencies closure d (x ∷ rest) path t h s = ground (
  arith,
  contains_cons x rest path,
  eq_iff x path,
  contains-append_all (path_targets roots tree dependencies closure d x)
      (targets_loop roots tree dependencies closure d rest) t,
  contains-targets_loop roots tree dependencies closure d rest path t,
)

abbrev pub merged_of : Policy → Dict (List String)
merged_of p =
    merge_dependency_layers (normalize_dependencies p.pytest_dependencies)
      (normalize_dependencies p.pytest_external_dependencies)

abbrev pub namespace_of : Policy → String → String
namespace_of p path =
    match_namespace path (normalize_roots p.pytest_roots) (normalize_tree p.pytest_tree)

contains-path_targets :
    (p : Policy) (d : Discovery) (path y t : String)
    → (namespace_of p path == "*") ≡ false
    → DependsOn (merged_of p) (namespace_stem (namespace_of p path)) y
    → contains (select_tests_for_namespaces d.ownership (y ∷ []) true) t ≡ true
    → is_empty (strip t) ≡ false
    → contains
        (path_targets
          (normalize_roots p.pytest_roots)
          (normalize_tree p.pytest_tree)
          (merged_of p)
          (reverse_dependency_closure (merged_of p))
          d
          path)
        (strip t)
      ≡ true
unfolding path_targets
contains-path_targets p d path y t ns dep s n =
    let closure = reverse_dependency_closure (merged_of p) in
    let near : contains (members_of closure (namespace_stem (namespace_of p path))) y ≡ true =
      (reverse_dependency_closure-DependsOn (merged_of p) (namespace_stem (namespace_of p path))
          y).1.1
        dep in
    rw ns (
      contains-namespace_targets (namespace_of p path) (merged_of p) closure d.ownership
        (normalize_roots p.pytest_roots) y t near s n)

-- Where no changed path asks for the full suite, a test that is owned by a namespace which depends
-- on the namespace of a changed path, directly or through others, or by one below such a namespace,
-- is among the chosen tests. The changed path has a namespace of its own, the name of the dependent
-- is not blank, and the test's path is not empty and has no outer spaces.
pub contains-select_routed :
    (p : Policy) (d : Discovery) (decision_paths pytest_targets : List String) (path y : String)
    {t : String} {owned : List String}
    → any_full_suite decision_paths (normalize_full_suite_prefixes p.pytest_full_suite_prefixes)
      ≡ false
    → contains decision_paths path ≡ true
    → (namespace_of p path == "*") ≡ false
    → DependsOn (merged_of p) (namespace_stem (namespace_of p path)) y
    → is_empty (strip y) ≡ false
    → Memᴰ (t, owned) d.ownership
    → owns true (namespace_stem y) owned ≡ true
    → strip t ≡ t
    → is_empty t ≡ false
    → contains (select_routed p d decision_paths pytest_targets) t ≡ true
unfolding select_routed dedupe_keep_first
contains-select_routed p d decision_paths pytest_targets path y {t} {owned} full c ns dep yn m o ts
      tn =
    let direct = select is_direct_test_path decision_paths in
    let routed =
      targets_loop (normalize_roots p.pytest_roots) (normalize_tree p.pytest_tree) (merged_of p)
        (reverse_dependency_closure (merged_of p)) d decision_paths in
    let blank : is_empty (strip t) ≡ false = rw ts tn in
    let near : contains
          (path_targets (normalize_roots p.pytest_roots) (normalize_tree p.pytest_tree)
            (merged_of p) (reverse_dependency_closure (merged_of p)) d path)
          t
        ≡ true =
      rw ts at (
        contains-path_targets p d path y t ns dep (contains-select_tests d.ownership y yn m o)
          blank) in
    let found : contains (direct ++ routed) t ≡ true = ground (
      arith,
      contains-append_all direct routed t,
      contains-targets_loop (normalize_roots p.pytest_roots) (normalize_tree p.pytest_tree)
          (merged_of p) (reverse_dependency_closure (merged_of p)) d decision_paths path t c near,
    ) in
    rw full (rw ts at (contains-add_distinct strip (direct ++ routed) [] t found blank))
