-- ===== src/Rollback/Manifest.antt =====
-- scripts/patchhub/rollback_scope_manifest.py: the entries that a manifest holds, and those that a
-- request selects of it.
use patchhub.Prelude.{
  List, Option, String, [], contains, if◌then◌else◌, map, none, not, select, some, ◌++◌, ◌<>◌, ◌==◌,
  ◌∷◌,
}
use patchhub.Prelude.Text.{is_empty, strip}
use patchhub.Dict.{Dict, insert, lookup}
use patchhub.CommandLine.{Result, err, ok, ◌>>=◌}
use patchhub.Gates.Paths.{add_distinct}
use patchhub.Rollback.{
  Entry, NormalizedSelection, RawEntries, RawEntry, absent, array, no_array, no_object,
  object_entry,
}

-- `_manifest_entries`: an empty array is taken for no array.
unfoldable pub object_entries : List RawEntry → Result (List Entry)
object_entries [] = ok []
object_entries (object_entry entry ∷ items) = do rest ← object_entries items; ok (entry ∷ rest)
object_entries (no_object ∷ items) = err "rollback manifest entry must be an object"

unfoldable pub manifest_entries : RawEntries → Result (List Entry)
unfolding object_entries
manifest_entries absent = ok []
manifest_entries no_array = err "rollback manifest entries must be a JSON array"
manifest_entries (array []) = err "rollback manifest entries must be a JSON array"
manifest_entries (array (item ∷ items)) = object_entries (item ∷ items)

-- `_str_list`
abbrev pub str_list : List String → List String
str_list items = select (λ item. not (is_empty item)) items

-- `by_path`
unfoldable pub put_paths : Entry → List String → Dict Entry → Dict Entry
unfolding insert
put_paths entry [] table = table
put_paths entry (path ∷ paths) table = put_paths entry paths (insert path entry table)

unfoldable pub by_path : List Entry → Dict Entry → Dict Entry
unfolding put_paths is_empty
by_path [] table = table
by_path (entry ∷ entries) table =
    by_path entries (put_paths entry (str_list entry.selection_paths) table)

-- The loop over the selected paths, with the ids and the entries so far.
abbrev pub with_match : Option Entry → (Entry → Result (List Entry)) → Result (List Entry)
with_match none select_it = err "selected rollback path does not resolve to authority entry"
with_match (some entry) select_it = select_it entry

unfoldable pub select_loop :
    Dict Entry → List String → List String → List Entry → Result (List Entry)
unfolding lookup contains
select_loop table [] seen_ids selected = ok selected
select_loop table (path ∷ paths) seen_ids selected = with_match (lookup path table) (λ entry.
    let again = select_loop table paths seen_ids selected in
    let next = select_loop table paths (entry.entry_id ∷ seen_ids) (selected ++ (entry ∷ [])) in
    if contains seen_ids entry.entry_id then again else next)

-- `sorted({path for item in selected for path in ...})`
unfoldable pub paths_of : (Entry → List String) → List Entry → List String
paths_of field [] = []
paths_of field (entry ∷ entries) = str_list (field entry) ++ paths_of field entries

abbrev pub same_path : String → String
same_path path = path

abbrev pub selection_of : (List String → List String) → String → List Entry → NormalizedSelection
selection_of sorted kind selected = record {
  scope_kind = kind;
  selected_entries = selected;
  selected_entry_ids = map (λ (entry : Entry). entry.entry_id) selected;
  selected_repo_paths =
      sorted
        (add_distinct same_path (paths_of (λ (entry : Entry). entry.selection_paths) selected) []);
  selected_restore_paths =
      sorted
        (add_distinct same_path (paths_of (λ (entry : Entry). entry.restore_paths) selected) []);
}

-- `normalize_selected_entries`. `_normalize_path_list` cleans the request's paths.
abbrev pub subset_entries : List Entry → List String → Result (List Entry)
subset_entries entries [] = err "rollback_selected_repo_paths is required for subset rollback"
subset_entries entries (path ∷ paths) = select_loop (by_path entries []) (path ∷ paths) [] []

abbrev pub chosen_entries : List Entry → String → List String → Result (List Entry)
chosen_entries entries kind selected_repo_paths =
    if kind == "full"
    then ok entries
    else if kind == "subset"
    then subset_entries entries (add_distinct strip selected_repo_paths [])
    else err "rollback_scope_kind must be full or subset"

unfoldable pub normalize_selected_entries :
    (List String → List String) → RawEntries → String → List String → Result NormalizedSelection
unfolding manifest_entries by_path select_loop add_distinct paths_of strip
normalize_selected_entries sorted manifest scope_kind selected_repo_paths = do
  entries ← manifest_entries manifest
  selected ← chosen_entries entries (strip scope_kind) selected_repo_paths
  ok (selection_of sorted (strip scope_kind) selected)

-- `entry_display_label`
unfoldable pub entry_display_label : Entry → String
unfolding is_empty
entry_display_label entry =
    if entry.lifecycle_kind == "rename"
    then "rename " <> (entry.old_path <> (" -> " <> entry.new_path))
    else if entry.lifecycle_kind == "delete"
    then "delete " <> entry.old_path
    else if entry.lifecycle_kind == "add"
    then "add " <> entry.new_path
    else if entry.lifecycle_kind == "modify"
    then "modify " <> entry.new_path
    else if not (is_empty entry.new_path)
    then entry.new_path
    else if not (is_empty entry.old_path)
    then entry.old_path
    else entry.lifecycle_kind
