-- ===== src/Rollback/Coverage.antt =====
-- scripts/patchhub/rollback_scope_manifest.py: what a subset selection guarantees.
use patchhub.Answers.{Answers, Answers-bind, Answers-known, Answers-then}
use patchhub.Routing.Coverage.{contains-add_distinct}
use patchhub.Gates.Paths.{add_distinct}
use patchhub.Rollback.Selection.{Leads-by_path, covers, select_loop-Covers, selection}
use patchhub.Prelude.Text.{is_empty, strip}
use patchhub.Rollback.Manifest.{
  by_path, chosen_entries, manifest_entries, normalize_selected_entries, paths_of, same_path,
  select_loop, subset_entries,
}
use patchhub.Rollback.{Entry, NormalizedSelection, RawEntries}
use patchhub.CommandLine.{Result, ok}
use patchhub.Prelude.{
  List, Option, Option-cases, String, [], ap, arith, contains, contains-append, contains_cons,
  false, if_keeps, inl, inr, is_distinct, is_distinct-append, map, none, refl, some, sym, true,
  ◌++◌, ◌∙◌, ◌∷◌, ◌≡◌,
}
use patchhub.Dict.{Dict, lookup}

abbrev Holds : String → List Entry → Type 0
Holds q out = contains (paths_of selection out) q ≡ true

covers_nil : (q : String) (found : Option Entry) → covers [] [] q found ≡ true
unfolding contains
covers_nil q none = refl
covers_nil q (some entry) = refl

subset_entries-Holds :
    (entries : List Entry) (paths : List String) (q : String)
    (same_ids : (a b : String) (first second : Entry)
      → lookup a (by_path entries []) ≡ some first
      → lookup b (by_path entries []) ≡ some second
      → first.entry_id ≡ second.entry_id
      → selection first ≡ selection second)
    → contains paths q ≡ true
    → Answers (Holds q) (subset_entries entries paths)
unfolding lookup contains
subset_entries-Holds entries [] q same_ids h = tt
subset_entries-Holds entries (path ∷ paths) q same_ids h =
    select_loop-Covers (by_path entries []) (Leads-by_path entries [] (λ p. refl)) same_ids
      (path ∷ paths) [] [] q (λ r. covers_nil r (lookup r (by_path entries []))) (ground (arith, h))

-- A subset selection that is accepted covers every path that was asked for and is not blank, where
-- entries with one id have the same paths.
pub normalize_selected_entries-covers :
    (sorted : List String → List String)
    (sorted_keeps : (xs : List String) (p : String) → contains (sorted xs) p ≡ contains xs p)
    (manifest : RawEntries) (entries : List Entry) (kind : String) (paths : List String)
    (t : String)
    (same_ids : (a b : String) (first second : Entry)
      → lookup a (by_path entries []) ≡ some first
      → lookup b (by_path entries []) ≡ some second
      → first.entry_id ≡ second.entry_id
      → selection first ≡ selection second)
    → manifest_entries manifest ≡ ok entries
    → strip kind ≡ "subset"
    → contains paths t ≡ true
    → is_empty (strip t) ≡ false
    → Answers
        (λ (selected : NormalizedSelection). contains selected.selected_repo_paths (strip t) ≡ true)
        (normalize_selected_entries sorted manifest kind paths)
unfolding normalize_selected_entries
normalize_selected_entries-covers sorted sorted_keeps manifest entries kind paths t same_ids read
      subset asked full =
    let chosen : Answers (Holds (strip t)) (chosen_entries entries (strip kind) paths) = rw subset (
      subset_entries-Holds entries (add_distinct strip paths []) (strip t) same_ids
        (contains-add_distinct strip paths [] t asked full)) in
    Answers-known _ (manifest_entries manifest) _ entries read (
      Answers-then (Holds (strip t)) _ (chosen_entries entries (strip kind) paths) _ chosen
        (λ selected holds.
          sorted_keeps (add_distinct same_path (paths_of selection selected) []) (strip t)
          ∙ contains-add_distinct same_path (paths_of selection selected) [] (strip t) holds full))

-- The ids of the entries so far are the ids seen, each once.
abbrev ids_of : List Entry → List String
ids_of selected = map (λ (entry : Entry). entry.entry_id) selected

abbrev Fresh : List Entry → Type 0
Fresh selected = is_distinct (ids_of selected) ≡ true

ids_of-append :
    (selected : List Entry) (entry : Entry)
    → ids_of (selected ++ (entry ∷ [])) ≡ ids_of selected ++ (entry.entry_id ∷ [])
ids_of-append [] entry = refl
ids_of-append (x ∷ selected) entry =
    ap (λ (ids : List String). x.entry_id ∷ ids) (ids_of-append selected entry)

select_loop-Fresh :
    (table : Dict Entry) (paths seen_ids : List String) (selected : List Entry)
    → ((id : String) → contains seen_ids id ≡ contains (ids_of selected) id)
    → Fresh selected
    → Answers Fresh (select_loop table paths seen_ids selected)
unfolding select_loop
select_loop-Fresh table [] seen_ids selected seen fresh = fresh
select_loop-Fresh table (path ∷ paths) seen_ids selected seen fresh =
    elim (Option-cases (lookup path table)) [
      | inl none_there ↦ rw none_there tt
      | inr (entry, at) ↦
          let id = entry.entry_id in
          rw at (
            if_keeps (λ (r : Result (List Entry)). Answers Fresh r) (contains seen_ids id) _ _
              (λ old. select_loop-Fresh table paths seen_ids selected seen fresh)
              (λ new.
                select_loop-Fresh table paths (id ∷ seen_ids) (selected ++ (entry ∷ []))
                  (λ other_id. rw (ids_of-append selected entry) (
                    ground (
                      arith,
                      contains_cons id seen_ids other_id,
                      contains-append (ids_of selected) id other_id,
                      seen other_id,
                    )))
                  (rw (ids_of-append selected entry)
                    (is_distinct-append (ids_of selected) id fresh (sym (seen id) ∙ new)))))
    ]

subset_entries-Fresh :
    (entries : List Entry) (paths : List String) → Answers Fresh (subset_entries entries paths)
unfolding contains is_distinct
subset_entries-Fresh entries [] = tt
subset_entries-Fresh entries (path ∷ paths) =
    select_loop-Fresh (by_path entries []) (path ∷ paths) [] [] (λ id. refl) refl

-- A subset selection that is accepted names no entry twice, whatever the manifest and the request
-- hold.
pub normalize_selected_entries-is_distinct :
    (sorted : List String → List String) (manifest : RawEntries) (kind : String)
    (paths : List String)
    → strip kind ≡ "subset"
    → Answers
        (λ (selected : NormalizedSelection). is_distinct selected.selected_entry_ids ≡ true)
        (normalize_selected_entries sorted manifest kind paths)
unfolding normalize_selected_entries
normalize_selected_entries-is_distinct sorted manifest kind paths subset =
    Answers-bind _ (manifest_entries manifest) _ (λ entries.
      let chosen : Answers Fresh (chosen_entries entries (strip kind) paths) =
        rw subset (subset_entries-Fresh entries (add_distinct strip paths [])) in
      Answers-then Fresh _ (chosen_entries entries (strip kind) paths) _ chosen
        (λ selected fresh. fresh))
