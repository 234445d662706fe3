-- ===== src/Rollback/Selection.antt =====
-- scripts/patchhub/rollback_scope_manifest.py: the selection of entries covers what was asked for.

use patchhub.Answers.{Answers}
use patchhub.CommandLine.{Result}
use patchhub.Rollback.Manifest.{by_path, paths_of, put_paths, select_loop, str_list}
use patchhub.Rollback.{Entry}
use patchhub.Prelude.{
  Bool, Bool-cases, List, Option, Option-cases, String, [], ap, arith, contains,
  contains-append_all, contains_cons, contains_nil, eq_iff, eq_refl, if_keeps, inl, inr, none, not,
  refl, some, sym, true, ◌++◌, ◌==◌, ◌||◌, ◌∙◌, ◌∷◌, ◌≡◌,
}
use patchhub.Dict.{Dict, insert, lookup, lookup-insert}

abbrev pub selection : Entry → List String
selection entry = entry.selection_paths

paths_of-append :
    (xs : List Entry) (entry : Entry) (p : String)
    → contains (paths_of selection (xs ++ (entry ∷ []))) p
      ≡ (contains (paths_of selection xs) p || contains (str_list (selection entry)) p)
unfolding paths_of
paths_of-append [] entry p =
    ground (arith, contains-append_all (str_list (selection entry)) [] p, contains_nil p)
paths_of-append (x ∷ xs) entry p = ground (
  arith,
  contains-append_all (str_list (selection x)) (paths_of selection xs) p,
  contains-append_all (str_list (selection x)) (paths_of selection (xs ++ (entry ∷ []))) p,
  paths_of-append xs entry p,
)

-- The table leads each path to an entry that has it.
abbrev pub has_path : String → Option Entry → Bool
has_path p none = true
has_path p (some entry) = contains (str_list (selection entry)) p

abbrev pub Leads : Dict Entry → Type 0
Leads table = (p : String) → has_path p (lookup p table) ≡ true

Leads-insert :
    (q : String) (entry : Entry) (table : Dict Entry)
    → contains (str_list (selection entry)) q ≡ true
    → Leads table
    → Leads (insert q entry table)
Leads-insert q entry table member leads p = rw (lookup-insert q p entry table) (
    if_keeps (λ (found : Option Entry). has_path p found ≡ true) (q == p) (some entry)
      (lookup p table)
      (λ same. sym (ap (contains (str_list (selection entry))) ((eq_iff q p).0 same)) ∙ member)
      (λ differ. leads p))

Leads-put_paths :
    (entry : Entry) (paths : List String) (table : Dict Entry)
    → ((q : String) → contains paths q ≡ true → contains (str_list (selection entry)) q ≡ true)
    → Leads table
    → Leads (put_paths entry paths table)
unfolding put_paths
Leads-put_paths entry [] table members leads = leads
Leads-put_paths entry (path ∷ paths) table members leads =
    Leads-put_paths entry paths (insert path entry table)
      (λ q h. members q (ground (arith, contains_cons path paths q, h)))
      (Leads-insert path entry table
        (members path (ground (arith, contains_cons path paths path, eq_refl path))) leads)

pub Leads-by_path :
    (entries : List Entry) (table : Dict Entry) → Leads table → Leads (by_path entries table)
unfolding by_path
Leads-by_path [] table leads = leads
Leads-by_path (entry ∷ entries) table leads =
    Leads-by_path entries (put_paths entry (str_list entry.selection_paths) table)
      (Leads-put_paths entry (str_list entry.selection_paths) table (λ q h. h) leads)

-- What a loop has: the paths of every entry whose id it has seen.
abbrev pub covers : List String → List Entry → String → Option Entry → Bool
covers seen_ids selected q none = true
covers seen_ids selected q (some entry) =
    not (contains seen_ids entry.entry_id) || contains (paths_of selection selected) q

module _ (table : Dict Entry) (leads : Leads table)
    (same_ids : (a b : String) (first second : Entry)
      → lookup a table ≡ some first
      → lookup b table ≡ some second
      → first.entry_id ≡ second.entry_id
      → selection first ≡ selection second) where
  abbrev pub Covers : List String → List Entry → Type 0
  Covers seen_ids selected = (q : String) → covers seen_ids selected q (lookup q table) ≡ true

  covers-next :
      (path : String) (entry : Entry) (seen_ids : List String) (selected : List Entry) (q : String)
      (found : Option Entry)
      → lookup path table ≡ some entry
      → lookup q table ≡ found
      → covers seen_ids selected q found ≡ true
      → covers (entry.entry_id ∷ seen_ids) (selected ++ (entry ∷ [])) q found ≡ true
  covers-next path entry seen_ids selected q none at there h = refl
  covers-next path entry seen_ids selected q (some other_entry) at there h =
      elim (Bool-cases (entry.entry_id == other_entry.entry_id)) [
        | inl same ↦
            let paths : selection entry ≡ selection other_entry =
              same_ids path q entry other_entry at there
                ((eq_iff entry.entry_id other_entry.entry_id).0 same) in
            let member : contains (str_list (selection entry)) q ≡ true =
              ap (λ (items : List String). contains (str_list items) q) paths
              ∙ (ap (has_path q) (sym there) ∙ leads q) in
            ground (arith, paths_of-append selected entry q, member)
        | inr differ ↦ ground (
          arith,
          contains_cons entry.entry_id seen_ids other_entry.entry_id,
          paths_of-append selected entry q,
          h,
          differ,
        )
      ]

  pub select_loop-Covers :
      (paths seen_ids : List String) (selected : List Entry) (q : String)
      → Covers seen_ids selected
      → (contains paths q || contains (paths_of selection selected) q) ≡ true
      → Answers
          (λ (out : List Entry). contains (paths_of selection out) q ≡ true)
          (select_loop table paths seen_ids selected)
  unfolding select_loop
  select_loop-Covers [] seen_ids selected q inv h = ground (arith, contains_nil q, h)
  select_loop-Covers (path ∷ paths) seen_ids selected q inv h =
      elim (Option-cases (lookup path table)) [
        | inl none_there ↦ rw none_there tt
        | inr (entry, at) ↦
            let at_path = ap (covers seen_ids selected path) (sym at) ∙ inv path in
            let member = ap (has_path path) (sym at) ∙ leads path in
            let more = contains_cons path paths q in
            rw at (
              if_keeps
                (λ (r : Result (List Entry)).
                  Answers (λ (out : List Entry). contains (paths_of selection out) q ≡ true) r)
                (contains seen_ids entry.entry_id) _ _
                (λ seen.
                  select_loop-Covers paths seen_ids selected q inv
                    (ground (arith, more, at_path, seen, h, eq_iff path q)))
                (λ fresh.
                  select_loop-Covers paths (entry.entry_id ∷ seen_ids) (selected ++ (entry ∷ [])) q
                    (λ r.
                      covers-next path entry seen_ids selected r (lookup r table) at refl (inv r))
                    (ground
                      (arith, more, member, paths_of-append selected entry q, h, eq_iff path q))))
      ]
