-- ===== src/ZipSubset/Choice.antt =====
-- scripts/patchhub/zip_patch_subset.py: what an accepted choice of members is.
use patchhub.ZipSubset.{
  ZipManifest, allowed_members, is_nil, not_empty, select_members, validate_selected_patch_entries,
}
use patchhub.Answers.{Answers, Answers-then, Answers-weaken}
use patchhub.CommandLine.{Result}
use patchhub.Prelude.{
  List, String, [], arith, contains, contains-append, contains_cons, contains_nil, eq_iff, if_keeps,
  not, true, ◌&&◌, ◌++◌, ◌||◌, ◌∙◌, ◌∷◌, ◌≡◌,
}
use patchhub.Prelude.Text.{is_empty}

-- What the loop has made of the names, for one name.
abbrev IsPicked : List String → List String → List String → String → List String → Type 0
IsPicked allowed names selected p out =
    (contains out p ≡ (contains selected p || (not (is_empty p) && contains names p)))
    × ((not (contains out p) || contains allowed p) ≡ true)

select_members-IsPicked :
    (allowed names selected : List String) (p : String)
    → (not (contains selected p) || contains allowed p) ≡ true
    → Answers (IsPicked allowed names selected p) (select_members allowed names selected)
unfolding select_members
select_members-IsPicked allowed [] selected p known = (ground (arith, contains_nil p), known)
select_members-IsPicked allowed (name ∷ names) selected p known =
    let Picked =
      λ (r : Result (List String)). Answers (IsPicked allowed (name ∷ names) selected p) r in
    let more = contains_cons name names p in
    if_keeps Picked (is_empty name || contains selected name) _ _
      (λ skipped.
        Answers-weaken (IsPicked allowed names selected p)
          (IsPicked allowed (name ∷ names) selected p) (select_members allowed names selected)
          (select_members-IsPicked allowed names selected p known)
          (λ out picked. (ground (arith, more, picked.0, skipped, eq_iff name p), picked.1)))
      (λ fresh.
        if_keeps Picked (not (contains allowed name)) _ _ (λ unknown_name. tt)
          (λ allowed_name.
            let longer = contains-append selected name p in
            Answers-weaken (IsPicked allowed names (selected ++ (name ∷ [])) p)
              (IsPicked allowed (name ∷ names) selected p)
              (select_members allowed names (selected ++ (name ∷ [])))
              (select_members-IsPicked allowed names (selected ++ (name ∷ [])) p
                (ground (arith, longer, known, allowed_name, eq_iff name p)))
              (λ out picked.
                (ground (arith, more, longer, picked.0, fresh, eq_iff name p), picked.1))))

-- The answer holds a name exactly when it is asked for and not empty, and then it is a selectable
-- member of the zip.
abbrev pub IsChoice : ZipManifest → List String → String → List String → Type 0
IsChoice manifest requested p selected =
    (contains selected p ≡ (not (is_empty p) && contains requested p))
    × ((not (contains selected p) || contains (allowed_members manifest.zip_entries) p) ≡ true)

not_empty-IsChoice :
    (sorted : List String → List String)
    (sorted_keeps : (xs : List String) (p : String) → contains (sorted xs) p ≡ contains xs p)
    (manifest : ZipManifest) (requested : List String) (p : String) (out : List String)
    → IsChoice manifest requested p out
    → Answers (IsChoice manifest requested p) (not_empty sorted out)
not_empty-IsChoice sorted sorted_keeps manifest requested p [] choice = tt
not_empty-IsChoice sorted sorted_keeps manifest requested p (name ∷ names) choice = (
  sorted_keeps (name ∷ names) p ∙ choice.0,
  ground (arith, sorted_keeps (name ∷ names) p, choice.1),
)

-- A choice that is accepted holds exactly the names that were asked for, the empty one left out, and
-- each of them is a selectable member of the zip.
pub validate_selected_patch_entries-IsChoice :
    (sorted : List String → List String)
    (sorted_keeps : (xs : List String) (p : String) → contains (sorted xs) p ≡ contains xs p)
    (manifest : ZipManifest) (requested : List String) (p : String)
    → Answers
        (IsChoice manifest requested p)
        (validate_selected_patch_entries sorted manifest requested)
unfolding validate_selected_patch_entries
validate_selected_patch_entries-IsChoice sorted sorted_keeps manifest requested p =
    let allowed = allowed_members manifest.zip_entries in
    if_keeps (λ (r : Result (List String)). Answers (IsChoice manifest requested p) r)
      (not manifest.is_selectable || is_nil allowed) _ _ (λ closed. tt)
      (λ open_choice.
        Answers-then (IsPicked allowed requested [] p) (IsChoice manifest requested p)
          (select_members allowed requested []) (not_empty sorted)
          (select_members-IsPicked allowed requested [] p (ground (arith, contains_nil p)))
          (λ out picked.
            not_empty-IsChoice sorted sorted_keeps manifest requested p out
              (ground (arith, contains_nil p, picked.0), picked.1)))
