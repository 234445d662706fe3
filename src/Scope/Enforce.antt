-- ===== src/Scope/Enforce.antt =====
-- What the scope of a patch promises.
use patchhub.Prelude.{
  Bool, List, String, [], arith, contains, false, if◌then◌else◌, map, not, refl, select, true, ◌&&◌,
  ◌||◌, ◌∷◌, ◌≡◌,
}
use patchhub.Scope.{
  Enforced, ScopeOptions, accepted, enforce_scope_delta, enforce_touched, enforce_untouched,
  has_none, is_blessed_gate_output, is_outside, is_touched, normalize_path, raised,
}

abbrev pub is_accepted : Enforced → Bool
is_accepted (accepted touched) = true
is_accepted (raised e) = false

-- Every path of the list passes.
abbrev pub every : (String → Bool) → List String → Bool
every p [] = true
every p (x ∷ xs) = p x && every p xs

has_none-select :
    (p : String → Bool) (xs : List String) → has_none (select (λ x. not (p x)) xs) ≡ every p xs
has_none-select p [] = refl
has_none-select p (x ∷ xs) = ground (arith, has_none-select p xs)

has_none-outside :
    (o : ScopeOptions) (declared allowed xs : List String)
    → has_none (select (is_outside o declared allowed) xs)
      ≡ every
          (λ p.
            contains declared p || contains allowed p || is_blessed_gate_output p o.blessed_outputs)
          xs
has_none-outside o declared allowed [] = refl
has_none-outside o declared allowed (x ∷ xs) =
    ground (arith, has_none-outside o declared allowed xs)

-- The conditions on the touched paths and on the declared ones.
abbrev pub may_touch : ScopeOptions → List String → List String → List String → Bool
may_touch o declared allowed touched =
    if has_none touched
    then not o.no_op_fail || o.allow_no_op
    else o.allow_outside_files
      || every
          (λ p.
            contains declared p || contains allowed p || is_blessed_gate_output p o.blessed_outputs)
          touched

abbrev pub may_leave : ScopeOptions → List String → List String → Bool
may_leave o declared touched =
    not o.declared_untouched_fail || o.allow_declared_untouched || every (contains touched) declared

-- A patch is accepted exactly if the paths it touched, workfiles of the runner aside, are all
-- declared, allowed or blessed outputs of gates (or outside files are allowed), if it touched
-- something (or a patch that does nothing may pass), and if every declared path is among those it
-- touched (or that is not asked for).
pub enforce_scope_delta-accepts :
    (sorted : List String → List String) (o : ScopeOptions)
    (files_current allowed after : List String)
    → is_accepted (enforce_scope_delta sorted o files_current allowed after) ≡ (
        may_touch o
          (sorted (map normalize_path files_current))
          (map normalize_path allowed)
          (select (is_touched o) after)
        && may_leave o (sorted (map normalize_path files_current)) (select (is_touched o) after))
unfolding enforce_scope_delta enforce_touched enforce_untouched
enforce_scope_delta-accepts sorted o files_current allowed after =
    let declared = sorted (map normalize_path files_current) in
    let touched = select (is_touched o) after in
    ground (
      arith,
      has_none-outside o declared (map normalize_path allowed) touched,
      has_none-select (contains touched) declared,
    )
