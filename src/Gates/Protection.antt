-- ===== src/Gates/Protection.antt =====
-- When the dont-touch gate blocks a patch.
use Prim.Native.String.{count}
use text.Mathlib.TextLemmas.{length-append as count-append}
use patchhub.Prelude.{
  All, Bool, List, Option, String, [], ap, arith, contains, eq_iff, false, if◌then◌else◌, none, not,
  refl, some, sym, true, ◌&&◌, ◌++◌, ◌+◌, ◌<>◌, ◌==◌, ◌||◌, ◌∙◌, ◌∷◌, ◌≡◌,
}
use patchhub.Prelude.Text.{
  drop_prefix, has_prefix, has_suffix, is_char, is_empty, lstrip_if, replace_char, strip, strip_if,
}
use patchhub.Gates.Paths.{add_distinct, backslash, slash}
use patchhub.Gates.Triggers.{
  Protected, blocked_loop, dir_prefix_match, first_protected, has_protected, is_protected,
  norm_decision_path, norm_protected_path, protected_loop, run_dont_touch_gate,
}

abbrev pub is_none {ℓ} : {A : Type ℓ} → Option A → Bool
is_none none = true
is_none (some a) = false

abbrev pub touches : List Protected → String → Bool
touches [] d = false
touches (p ∷ ps) d = is_protected d p || touches ps d

-- What the options say: a path without its outer slashes, whether it is written as a directory, and
-- whether it covers a path of a patch.
abbrev pub plain : String → String
plain p = strip_if (is_char slash) (drop_prefix "./" (replace_char backslash slash (strip p)))

abbrev pub is_dir_name : String → Bool
is_dir_name p =
    has_suffix "/"
      (lstrip_if (is_char slash) (drop_prefix "./" (replace_char backslash slash (strip p))))

abbrev pub covers : String → String → Bool
covers p d =
    not (is_empty (plain p)) && (d == plain p || (is_dir_name p && has_prefix (plain p <> "/") d))

abbrev pub any_covers : List String → String → Bool
any_covers [] d = false
any_covers (p ∷ ps) d = covers p d || any_covers ps d

abbrev pub any_covered : List String → List String → Bool
any_covered ps [] = false
any_covered ps (d ∷ ds) = (not (is_empty (plain d)) && any_covers ps (plain d)) || any_covered ps ds

abbrev any_norm : List Protected → List String → Bool
any_norm ps [] = false
any_norm ps (d ∷ ds) = touches ps d || any_norm ps ds

is_none-first_protected :
    (ps : List Protected) (d : String) → is_none (first_protected d ps) ≡ not (touches ps d)
unfolding first_protected
is_none-first_protected [] d = refl
is_none-first_protected (p ∷ ps) d = ground (arith, is_none-first_protected ps d)

is_none-blocked_loop :
    (ps : List Protected) (ds : List String) → is_none (blocked_loop ps ds) ≡ not (any_norm ps ds)
unfolding blocked_loop
is_none-blocked_loop ps [] = refl
is_none-blocked_loop ps (d ∷ ds) =
    ground (arith, is_none-first_protected ps d, is_none-blocked_loop ps ds)

any_norm-contains :
    (ps : List Protected) (ds : List String) (d : String)
    → contains ds d ≡ true
    → touches ps d ≡ true
    → any_norm ps ds ≡ true
unfolding contains
any_norm-contains ps [] d c t = cc
any_norm-contains ps (e ∷ ds) d c t = ground (arith, eq_iff e d, any_norm-contains ps ds d)

any_norm-append :
    (ps : List Protected) (ds : List String) (d : String)
    → any_norm ps (ds ++ (d ∷ [])) ≡ (any_norm ps ds || touches ps d)
any_norm-append ps [] d = ground arith
any_norm-append ps (e ∷ ds) d = ground (arith, any_norm-append ps ds d)

plain-norm_decision_path : (p : String) → norm_decision_path p ≡ plain p
unfolding norm_decision_path strip_if
plain-norm_decision_path p = refl

-- The display tells a directory from a file of the same base.
abbrev shown : Protected → String
shown p = if p.is_dir then p.base <> "/" else p.base

abbrev IsShown : Protected → Type 0
IsShown p = p.display ≡ shown p

norm_protected_path-IsShown : (p : String) → IsShown (norm_protected_path p)
unfolding norm_protected_path
norm_protected_path-IsShown p = refl

shown_longer : (s : String) → s <> "/" ≡ s → count s + 1 ≡ count s
shown_longer s e = sym (count-append s "/") ∙ ap count e

is_dir_of_shown :
    (a b : Bool) (s : String) → (if a then s <> "/" else s) ≡ (if b then s <> "/" else s) → a ≡ b
is_dir_of_shown true true s e = refl
is_dir_of_shown false false s e = refl
is_dir_of_shown true false s e = absurd (omega (arith, shown_longer s e))
is_dir_of_shown false true s e = absurd (omega (arith, shown_longer s (sym e)))

same_protected :
    (q p : Protected)
    → IsShown q
    → IsShown p
    → q.display ≡ p.display
    → q.base ≡ p.base
    → (d : String) → is_protected d p ≡ is_protected d q
unfolding is_protected
same_protected q p shown_q shown_p same base d =
    let dir : q.is_dir ≡ p.is_dir =
      is_dir_of_shown q.is_dir p.is_dir p.base
        (ap (λ s. if q.is_dir then s <> "/" else s) (sym base) ∙ sym shown_q ∙ same ∙ shown_p) in
    rw (dir, base) refl

touches-has_protected :
    (out : List Protected) (p : Protected) (d : String)
    → All IsShown out
    → IsShown p
    → has_protected out p ≡ true
    → is_protected d p ≡ true
    → touches out d ≡ true
unfolding has_protected
touches-has_protected [] p d shown_out shown_p has h = cc
touches-has_protected (q ∷ out) p d shown_out shown_p has h = ground (
  arith,
  eq_iff q.display p.display,
  eq_iff q.base p.base,
  (λ (same : q.display ≡ p.display) (base : q.base ≡ p.base).
      same_protected q p shown_out.0 shown_p same base d),
  touches-has_protected out p d shown_out.1 shown_p,
  h,
)

touches-append :
    (out : List Protected) (p : Protected) (d : String)
    → touches (out ++ (p ∷ [])) d ≡ (touches out d || is_protected d p)
touches-append [] p d = ground arith
touches-append (q ∷ out) p d = ground (arith, touches-append out p d)

All-append :
    (out : List Protected) (p : Protected)
    → All IsShown out
    → IsShown p
    → All IsShown (out ++ (p ∷ []))
All-append [] p all h = (h, tt)
All-append (q ∷ out) p all h = (all.0, All-append out p all.1 h)

covers-is_protected :
    (p d : String)
    → is_empty (plain p) ≡ false
    → is_protected d (norm_protected_path p) ≡ covers p d
unfolding is_protected norm_protected_path strip_if dir_prefix_match
covers-is_protected p d h = ground arith

base_plain : (p : String) → (norm_protected_path p).base ≡ plain p
unfolding norm_protected_path strip_if
base_plain p = refl

touches-protected_loop :
    (ps : List String) (out : List Protected) (d : String)
    → All IsShown out
    → touches (protected_loop ps out) d ≡ (touches out d || any_covers ps d)
unfolding protected_loop
touches-protected_loop [] out d all = ground arith
touches-protected_loop (p ∷ ps) out d all =
    let key = norm_protected_path p in
    let is_shown = norm_protected_path-IsShown p in
    ground (
      arith,
      base_plain p,
      covers-is_protected p d,
      touches-has_protected out key d all is_shown,
      touches-append out key d,
      touches-protected_loop ps out d all,
      touches-protected_loop ps (out ++ (key ∷ [])) d (All-append out key all is_shown),
    )

any_norm-add_distinct :
    (ps : List Protected) (paths : List String) (ds out : List String)
    → ((d : String) → touches ps d ≡ any_covers paths d)
    → any_norm ps (add_distinct norm_decision_path ds out)
      ≡ (any_norm ps out || any_covered paths ds)
unfolding add_distinct
any_norm-add_distinct ps paths [] out same = ground arith
any_norm-add_distinct ps paths (d ∷ ds) out same = ground (
  arith,
  plain-norm_decision_path d,
  same (norm_decision_path d),
  any_norm-contains ps out (norm_decision_path d),
  any_norm-append ps out (norm_decision_path d),
  any_norm-add_distinct ps paths ds out same,
  any_norm-add_distinct ps paths ds (out ++ (norm_decision_path d ∷ [])) same,
)

-- The dont-touch gate passes exactly if no path of the patch is a protected path or lies below a
-- protected path that is written with a slash at its end. Paths are compared with forward slashes,
-- without outer spaces, one leading "./" and outer slashes, and those that are empty then do not count.
pub is_none-run_dont_touch_gate :
    (decision_paths protected_paths : List String)
    → is_none (run_dont_touch_gate decision_paths protected_paths)
      ≡ not (any_covered protected_paths decision_paths)
unfolding run_dont_touch_gate
is_none-run_dont_touch_gate decision_paths protected_paths =
    let ps = protected_loop protected_paths [] in
    ground (
      arith,
      is_none-blocked_loop ps (add_distinct norm_decision_path decision_paths []),
      any_norm-add_distinct ps protected_paths decision_paths []
          (λ d. touches-protected_loop protected_paths [] d tt),
    )
