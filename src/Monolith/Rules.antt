-- ===== src/Monolith/Rules.antt =====
-- scripts/am_patch/monolith_gate.py: the rules that `run_monolith_gate` applies to each candidate. An
-- increase is compared as `old + allowed < new`, so that no difference is taken. Each rule gives the
-- violations it adds, in the order it adds them.
use patchhub.Prelude.{
  Bool, List, Option, String, [], contains, false, if◌then◌else◌, leb, ltb, not, some, ℕ, ◌&&◌,
  ◌++◌, ◌+◌, ◌==◌, ◌||◌, ◌∷◌,
}
use patchhub.Prelude.Text.{has_prefix, has_suffix}
use patchhub.Monolith.{Tier, huge, is_catchall_new_file, large, normal, tier}
use patchhub.Monolith.Metrics.{FileMetrics}

pub data Severity : Type 0 where
  fails warns reports : Severity

pub record Violation : Type 0 where
  pub rule_id : String
  pub relpath : String
  pub hint : String
  pub severity : Severity

pub record Limits : Type 0 where
  pub large_loc : ℕ
  pub huge_loc : ℕ
  pub large_allow_loc_increase : ℕ
  pub huge_allow_loc_increase : ℕ
  pub large_allow_exports_delta : ℕ
  pub huge_allow_exports_delta : ℕ
  pub large_allow_imports_delta : ℕ
  pub huge_allow_imports_delta : ℕ
  pub new_file_max_loc : ℕ
  pub new_file_max_exports : ℕ
  pub new_file_max_imports : ℕ
  pub hub_fanin_delta : ℕ
  pub hub_fanout_delta : ℕ
  pub hub_exports_delta_min : ℕ
  pub hub_loc_delta_min : ℕ
  pub crossarea_min_distinct_areas : ℕ
  pub catchall_basenames : List String
  pub catchall_dirs : List String
  pub catchall_allowlist : List String

-- A candidate as the loop sees it: whether the repository has it, what it measures there and in the
-- workspace, the areas it imports, and its four counts in the import graph where there are any.
pub record Change : Type 0 where
  pub changed_path : String
  pub old_exists : Bool
  pub new_m : FileMetrics
  pub old_m : FileMetrics
  pub file_area : String
  pub core_areas : List String
  pub fanin_new : Option ℕ
  pub fanout_new : Option ℕ
  pub fanin_old : Option ℕ
  pub fanout_old : Option ℕ

-- `add(rule_id, rp, ..., "FAIL")` under a test.
unfoldable pub add_when : Bool → String → String → String → Severity → List Violation
add_when test id rp text sev =
    if test then record { rule_id = id; relpath = rp; hint = text; severity = sev } ∷ [] else []

abbrev pub parse_failed : Change → Bool
parse_failed c = not c.new_m.parse_ok || (c.old_exists && not c.old_m.parse_ok)

unfoldable pub parse_rule : String → Change → List Violation
unfolding add_when has_suffix
parse_rule on_parse_error c =
    add_when (parse_failed c) "MONO.PARSE" c.changed_path
      (if has_suffix ".js" c.changed_path
        then "fix_js_syntax_or_encoding"
        else "fix_python_syntax_or_encoding")
      (if on_parse_error == "fail" then fails else warns)

abbrev pub is_new_catchall : Limits → Change → Bool
is_new_catchall limits c =
    not c.old_exists
    && is_catchall_new_file c.changed_path limits.catchall_basenames limits.catchall_dirs
        limits.catchall_allowlist

unfoldable pub catchall_rule : Limits → Change → List Violation
unfolding add_when is_catchall_new_file
catchall_rule limits c =
    add_when (is_new_catchall limits c) "MONO.CATCHALL" c.changed_path "rename_or_split_module"
      fails

unfoldable pub newfile_rule : Limits → Change → List Violation
unfolding add_when
newfile_rule limits c =
    add_when (not c.old_exists && ltb limits.new_file_max_loc c.new_m.loc) "MONO.NEWFILE"
      c.changed_path "split_file_or_reduce_scope" fails
    ++ (add_when (not c.old_exists && ltb limits.new_file_max_exports c.new_m.exports)
          "MONO.NEWFILE" c.changed_path "split_public_api" fails
        ++ add_when (not c.old_exists && ltb limits.new_file_max_imports c.new_m.internal_imports)
            "MONO.NEWFILE" c.changed_path "reduce_coupling" fails)

-- MONO.GROWTH with the increases that the file's tier allows.
abbrev pub grown : Change → ℕ → ℕ → ℕ → List Violation
grown c allow_loc allow_exp allow_imp =
    add_when (ltb (c.old_m.loc + allow_loc) c.new_m.loc) "MONO.GROWTH" c.changed_path
      "split_or_refactor" fails
    ++ (add_when (ltb (c.old_m.exports + allow_exp) c.new_m.exports) "MONO.GROWTH" c.changed_path
          "split_public_api" fails
        ++ add_when (ltb (c.old_m.internal_imports + allow_imp) c.new_m.internal_imports)
            "MONO.GROWTH" c.changed_path "reduce_coupling" fails)

abbrev pub growth_at : Limits → Change → Tier → List Violation
growth_at limits c huge =
    grown c limits.huge_allow_loc_increase limits.huge_allow_exports_delta
      limits.huge_allow_imports_delta
growth_at limits c large =
    grown c limits.large_allow_loc_increase limits.large_allow_exports_delta
      limits.large_allow_imports_delta
growth_at limits c normal = []

unfoldable pub growth_rule : Limits → Change → List Violation
unfolding add_when tier
growth_rule limits c = growth_at limits c (tier limits.large_loc limits.huge_loc c.new_m.loc)

abbrev pub any_plugin : List String → Bool
any_plugin [] = false
any_plugin (area ∷ areas) = has_prefix "plugins." area || any_plugin areas

abbrev pub breaks_core : Change → Bool
breaks_core c = c.file_area == "core" && (any_plugin c.core_areas || contains c.core_areas "runner")

unfoldable pub core_rule : Change → List Violation
unfolding add_when has_prefix contains
core_rule c = add_when (breaks_core c) "MONO.CORE" c.changed_path "remove_core_dependency" fails

unfoldable pub crossarea_rule : Limits → Change → List Violation
unfolding add_when
crossarea_rule limits c =
    add_when
      (leb limits.crossarea_min_distinct_areas c.new_m.distinct_areas
        && (ltb c.old_m.loc c.new_m.loc || ltb c.old_m.exports c.new_m.exports))
      "MONO.CROSSAREA" c.changed_path "split_by_area_or_add_facade" fails

-- MONO.HUB, where all four counts are known.
abbrev pub hub_counts : Limits → Change → ℕ → ℕ → ℕ → ℕ → List Violation
hub_counts limits c in_new out_new in_old out_old =
    add_when
      (leb (in_old + limits.hub_fanin_delta) in_new
        && leb (c.old_m.exports + limits.hub_exports_delta_min) c.new_m.exports)
      "MONO.HUB" c.changed_path "avoid_hub_growth" fails
    ++ add_when
        (leb (out_old + limits.hub_fanout_delta) out_new
          && leb (c.old_m.loc + limits.hub_loc_delta_min) c.new_m.loc)
        "MONO.HUB" c.changed_path "reduce_outbound_dependencies" fails

abbrev pub hub_known : Limits → Change → Option ℕ → Option ℕ → Option ℕ → Option ℕ → List Violation
hub_known limits c (some in_new) (some out_new) (some in_old) (some out_old) =
    hub_counts limits c in_new out_new in_old out_old
hub_known limits c _ _ _ _ = []

unfoldable pub hub_rule : Limits → Change → List Violation
unfolding add_when
hub_rule limits c = hub_known limits c c.fanin_new c.fanout_new c.fanin_old c.fanout_old

-- The body of the loop.
unfoldable pub change_violations : String → Limits → Change → List Violation
unfolding parse_rule catchall_rule newfile_rule growth_rule core_rule crossarea_rule hub_rule
change_violations on_parse_error limits c =
    parse_rule on_parse_error c
    ++ (catchall_rule limits c
        ++ (newfile_rule limits c
            ++ (growth_rule limits c
                ++ (core_rule c ++ (crossarea_rule limits c ++ hub_rule limits c)))))

unfoldable pub all_violations : String → Limits → List Change → List Violation
unfolding change_violations
all_violations on_parse_error limits [] = []
all_violations on_parse_error limits (c ∷ changes) =
    change_violations on_parse_error limits c ++ all_violations on_parse_error limits changes
