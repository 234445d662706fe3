-- ===== src/Monolith/Verdict.antt =====
-- scripts/am_patch/monolith_gate.py: when the gate fails, by its mode.
use patchhub.Prelude.Text.{has_prefix}
use patchhub.Prelude.{
  Bool, List, Option, String, [], ap, arith, contains, false, none, not, refl, some, true, ℕ, ◌&&◌,
  ◌++◌, ◌==◌, ◌||◌, ◌∙◌, ◌∷◌, ◌≡◌,
}
use patchhub.Monolith.{Tier, huge, is_catchall_new_file, large, normal}
use patchhub.Monolith.Rules.{
  Change, Limits, Severity, Violation, add_when, all_violations, breaks_core, catchall_rule,
  change_violations, core_rule, crossarea_rule, fails, grown, growth_at, growth_rule, hub_known,
  hub_rule, is_new_catchall, parse_failed, parse_rule,
}
use patchhub.Monolith.Gate.{MonolithSettings, any_fail, gate_passes, mapped_severity}

-- What fails the gate in the mode `warn_only`, told from the file alone.
unfoldable pub blocks : MonolithSettings → Change → Bool
unfolding has_prefix contains is_catchall_new_file
blocks settings c =
    (parse_failed c && settings.on_parse_error == "fail")
    || (is_new_catchall settings.limits c || breaks_core c)

abbrev pub any_blocks : MonolithSettings → List Change → Bool
any_blocks settings [] = false
any_blocks settings (c ∷ changes) = blocks settings c || any_blocks settings changes

abbrev warn_only : String
warn_only = "warn_only"

any_fail-append :
    (mode ope : String) (xs ys : List Violation)
    → any_fail mode ope (xs ++ ys) ≡ (any_fail mode ope xs || any_fail mode ope ys)
unfolding any_fail
any_fail-append mode ope [] ys = refl
any_fail-append mode ope (x ∷ xs) ys = ground (arith, any_fail-append mode ope xs ys)

-- In the mode `warn_only` three rules are left.
abbrev still_fails : String → String → Bool
still_fails id ope =
    id == "MONO.CORE" || id == "MONO.CATCHALL" || (id == "MONO.PARSE" && ope == "fail")

any_fail-add_when :
    (ope : String) (test : Bool) (id rp text : String) (sev : Severity)
    → any_fail warn_only ope (add_when test id rp text sev) ≡ (test && still_fails id ope)
unfolding any_fail add_when mapped_severity
any_fail-add_when ope false id rp text sev = refl
any_fail-add_when ope true id rp text sev = ground arith

any_fail-parse_rule :
    (ope : String) (c : Change)
    → any_fail warn_only ope (parse_rule ope c) ≡ (parse_failed c && ope == "fail")
unfolding parse_rule
any_fail-parse_rule ope c = any_fail-add_when ope (parse_failed c) "MONO.PARSE" _ _ _

newfile_warns :
    (ope : String) (test : Bool) (rp text : String)
    → any_fail warn_only ope (add_when test "MONO.NEWFILE" rp text fails) ≡ false
newfile_warns ope test rp text =
    ground (arith, any_fail-add_when ope test "MONO.NEWFILE" rp text fails)

growth_warns :
    (ope : String) (test : Bool) (rp text : String)
    → any_fail warn_only ope (add_when test "MONO.GROWTH" rp text fails) ≡ false
growth_warns ope test rp text =
    ground (arith, any_fail-add_when ope test "MONO.GROWTH" rp text fails)

crossarea_warns :
    (ope : String) (test : Bool) (rp text : String)
    → any_fail warn_only ope (add_when test "MONO.CROSSAREA" rp text fails) ≡ false
crossarea_warns ope test rp text =
    ground (arith, any_fail-add_when ope test "MONO.CROSSAREA" rp text fails)

hub_warns :
    (ope : String) (test : Bool) (rp text : String)
    → any_fail warn_only ope (add_when test "MONO.HUB" rp text fails) ≡ false
hub_warns ope test rp text = ground (arith, any_fail-add_when ope test "MONO.HUB" rp text fails)

any_fail-grown :
    (ope : String) (c : Change) (l e i : ℕ) → any_fail warn_only ope (grown c l e i) ≡ false
any_fail-grown ope c l e i = simp (any_fail-append, growth_warns)

any_fail-growth_at :
    (ope : String) (limits : Limits) (c : Change) (t : Tier)
    → any_fail warn_only ope (growth_at limits c t) ≡ false
unfolding any_fail
any_fail-growth_at ope limits c huge = any_fail-grown ope c _ _ _
any_fail-growth_at ope limits c large = any_fail-grown ope c _ _ _
any_fail-growth_at ope limits c normal = refl

any_fail-hub_known :
    (ope : String) (limits : Limits) (c : Change) (a b d e : Option ℕ)
    → any_fail warn_only ope (hub_known limits c a b d e) ≡ false
unfolding any_fail
any_fail-hub_known ope limits c none b d e = refl
any_fail-hub_known ope limits c (some a) none d e = refl
any_fail-hub_known ope limits c (some a) (some b) none e = refl
any_fail-hub_known ope limits c (some a) (some b) (some d) none = refl
any_fail-hub_known ope limits c (some a) (some b) (some d) (some e) =
    simp (any_fail-append, hub_warns)

any_fail-change_violations :
    (settings : MonolithSettings) (c : Change)
    → any_fail warn_only settings.on_parse_error
        (change_violations settings.on_parse_error settings.limits c)
      ≡ blocks settings c
unfolding change_violations catchall_rule core_rule growth_rule crossarea_rule hub_rule blocks
any_fail-change_violations settings c =
    let ope = settings.on_parse_error in
    let limits = settings.limits in
    simp
      (
        any_fail-append, any_fail-parse_rule, newfile_warns, any_fail-growth_at, crossarea_warns,
        any_fail-hub_known, any_fail-add_when,
      )
      (ground arith)

any_fail-all_violations :
    (settings : MonolithSettings) (changes : List Change)
    → any_fail warn_only settings.on_parse_error
        (all_violations settings.on_parse_error settings.limits changes)
      ≡ any_blocks settings changes
unfolding all_violations any_fail blocks
any_fail-all_violations settings [] = refl
any_fail-all_violations settings (c ∷ changes) =
    let ope = settings.on_parse_error in
    rw
      (any_fail-append warn_only ope (change_violations ope settings.limits c)
        (all_violations ope settings.limits changes))
      (rw (any_fail-change_violations settings c)
        (ap (λ b. blocks settings c || b) (any_fail-all_violations settings changes)))

abbrev pub found : MonolithSettings → List Change → List Violation
found settings changes = all_violations settings.on_parse_error settings.limits changes

-- In the mode `warn_only` the gate passes exactly when no file fails to parse while parse errors are
-- to fail, none is a new catch-all file, and none of the core imports a plugin or the runner.
pub gate_passes_warn_only :
    (settings : MonolithSettings) (changes : List Change)
    → settings.mode ≡ "warn_only"
    → gate_passes settings changes ≡ not (any_blocks settings changes)
unfolding gate_passes blocks
gate_passes_warn_only settings changes m = rw m (ap not (any_fail-all_violations settings changes))

any_fail_report_only : (ope : String) (vs : List Violation) → any_fail "report_only" ope vs ≡ false
unfolding any_fail mapped_severity
any_fail_report_only ope [] = refl
any_fail_report_only ope (v ∷ vs) = any_fail_report_only ope vs

abbrev pub has_any {ℓ} : {A : Type ℓ} → List A → Bool
has_any [] = false
has_any (x ∷ xs) = true

any_fail_strict : (ope : String) (vs : List Violation) → any_fail "strict" ope vs ≡ has_any vs
unfolding any_fail mapped_severity
any_fail_strict ope [] = refl
any_fail_strict ope (v ∷ vs) = refl

-- In the mode `report_only` the gate always passes. In the mode `strict` it passes exactly when no
-- rule finds a violation, whatever severity the rule gave it: then `on_parse_error` is of no effect.
gate_passes_other_modes :
    (settings : MonolithSettings) (changes : List Change)
    → (settings.mode ≡ "report_only" → gate_passes settings changes ≡ true)
      × (settings.mode ≡ "strict"
          → gate_passes settings changes ≡ not (has_any (found settings changes)))
unfolding gate_passes
gate_passes_other_modes settings changes = (
  λ m.
      ap (λ mode. not (any_fail mode settings.on_parse_error (found settings changes))) m
      ∙ ap not (any_fail_report_only settings.on_parse_error (found settings changes)),
  λ m.
      ap (λ mode. not (any_fail mode settings.on_parse_error (found settings changes))) m
      ∙ ap not (any_fail_strict settings.on_parse_error (found settings changes)),
)
