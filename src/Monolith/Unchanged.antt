-- ===== src/Monolith/Unchanged.antt =====
-- scripts/am_patch/monolith_gate.py: what an unchanged file can violate.
use patchhub.Prelude.{
  Bool, List, Option, String, [], ap, append-nil, arith, false, none, refl, some, true, ℕ, ◌++◌,
  ◌∙◌, ◌≡◌, ◌≤◌,
}
use patchhub.Monolith.{Tier, huge, large, normal}
use patchhub.Monolith.Metrics.{FileMetrics}
use patchhub.Monolith.Rules.{
  Change, Limits, Severity, Violation, add_when, catchall_rule, change_violations, core_rule,
  crossarea_rule, grown, growth_at, growth_rule, hub_known, hub_rule, newfile_rule, parse_rule,
}

add_when-false :
    {test : Bool} (id rp text : String) (sev : Severity)
    → test ≡ false
    → add_when test id rp text sev ≡ []
unfolding add_when
add_when-false id rp text sev h = rw h refl

-- Rules that find nothing leave what the others find.
no_more : {xs ys zs : List Violation} → xs ≡ [] → ys ≡ zs → xs ++ ys ≡ zs
no_more e f = rw e f

module _ (limits : Limits) (c : Change) (there : c.old_exists ≡ true) (same : c.new_m ≡ c.old_m)
    (parses : c.old_m.parse_ok ≡ true) (exports_min : 1 ≤ limits.hub_exports_delta_min)
    (loc_min : 1 ≤ limits.hub_loc_delta_min) where
  same_loc : c.new_m.loc ≡ c.old_m.loc
  same_loc = ap (λ (m : FileMetrics). m.loc) same

  same_exports : c.new_m.exports ≡ c.old_m.exports
  same_exports = ap (λ (m : FileMetrics). m.exports) same

  same_imports : c.new_m.internal_imports ≡ c.old_m.internal_imports
  same_imports = ap (λ (m : FileMetrics). m.internal_imports) same

  still_parses : c.new_m.parse_ok ≡ true
  still_parses = ap (λ (m : FileMetrics). m.parse_ok) same ∙ parses

  parse_rule_nil : (ope : String) → parse_rule ope c ≡ []
  unfolding parse_rule
  parse_rule_nil ope = add_when-false _ _ _ _ (rw (still_parses, there, parses) refl)

  catchall_rule_nil : catchall_rule limits c ≡ []
  unfolding catchall_rule
  catchall_rule_nil = add_when-false _ _ _ _ (rw there refl)

  newfile_rule_nil : newfile_rule limits c ≡ []
  unfolding newfile_rule add_when
  newfile_rule_nil = rw there refl

  grown_nil : (l e i : ℕ) → grown c l e i ≡ []
  grown_nil l e i = no_more (add_when-false _ _ _ _ (ground (arith, same_loc))) (
      no_more (add_when-false _ _ _ _ (ground (arith, same_exports)))
        (add_when-false _ _ _ _ (ground (arith, same_imports))))

  growth_at_nil : (t : Tier) → growth_at limits c t ≡ []
  growth_at_nil huge = grown_nil _ _ _
  growth_at_nil large = grown_nil _ _ _
  growth_at_nil normal = refl

  crossarea_rule_nil : crossarea_rule limits c ≡ []
  unfolding crossarea_rule
  crossarea_rule_nil = add_when-false _ _ _ _ (ground (arith, same_loc, same_exports))

  hub_known_nil : (a b d e : Option ℕ) → hub_known limits c a b d e ≡ []
  hub_known_nil none b d e = refl
  hub_known_nil (some a) none d e = refl
  hub_known_nil (some a) (some b) none e = refl
  hub_known_nil (some a) (some b) (some d) none = refl
  hub_known_nil (some a) (some b) (some d) (some e) =
      no_more (add_when-false _ _ _ _ (ground (arith, same_exports)))
        (add_when-false _ _ _ _ (ground (arith, same_loc)))

-- A file of the repository that parses and whose metrics the patch leaves as they were can only
-- violate MONO.CORE, whatever became of the imports around it, as long as the hub rules ask for an
-- increase of exports and of lines at all.
pub change_violations_unchanged :
    (ope : String) (limits : Limits) (c : Change)
    → c.old_exists ≡ true
    → c.new_m ≡ c.old_m
    → c.old_m.parse_ok ≡ true
    → 1 ≤ limits.hub_exports_delta_min
    → 1 ≤ limits.hub_loc_delta_min
    → change_violations ope limits c ≡ core_rule c
unfolding change_violations growth_rule hub_rule
change_violations_unchanged ope limits c there same parses exports_min loc_min =
    no_more (parse_rule_nil limits c there same parses exports_min loc_min ope) (
      no_more (catchall_rule_nil limits c there same parses exports_min loc_min) (
        no_more (newfile_rule_nil limits c there same parses exports_min loc_min) (
          no_more (growth_at_nil limits c there same parses exports_min loc_min _) (
            ap (λ vs. core_rule c ++ vs)
              (no_more (crossarea_rule_nil limits c there same parses exports_min loc_min)
                (hub_known_nil limits c there same parses exports_min loc_min _ _ _ _))
            ∙ append-nil (core_rule c)))))
