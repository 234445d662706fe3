-- ===== src/ZipSubset.antt =====
-- scripts/patchhub/zip_patch_subset.py: the patches of a zip file that a client can choose, the check
-- of its choice, and the smaller zip. A zip file is its members with their data.
pub mod Choice
use patchhub.Prelude.{
  Bool, List, Option, String, [], contains, false, if◌then◌else◌, none, not, select, some, true,
  ◌&&◌, ◌++◌, ◌<>◌, ◌||◌, ◌∷◌,
}
use patchhub.Prelude.Text.{
  drop_count, drop_end, has_part, has_prefix, has_suffix, is_empty, replace_pairs,
}
use patchhub.Prelude.Split.{split_all}
use patchhub.Dict.{Dict, insert, lookup}
use patchhub.CommandLine.{Result, err, ok, ◌>>=◌}
use patchhub.Gates.Paths.{slash}
use patchhub.JobQueue.{is_some}
use patchhub.Monolith.Javascript.{is_part}

pub record ZipEntry : Type 0 where
  pub zip_member : String
  pub repo_path : Option String

pub record ZipManifest : Type 0 where
  pub is_selectable : Bool
  pub reason : String
  pub zip_entries : List ZipEntry
  pub root_metadata_present : List String

-- `_repo_path_from_patch_member`
abbrev pub any_part : List String → Bool
any_part [] = false
any_part (part ∷ parts) = true

abbrev pub safe_path : String → Option String
safe_path path =
    let parts = select is_part (split_all slash path) in
    if has_prefix "/" path || not (any_part parts) || contains parts ".." then none else some path

unfoldable pub repo_path_from_patch_member : String → Option String
unfolding has_prefix has_suffix drop_count drop_end has_part replace_pairs split_all contains
    is_empty
repo_path_from_patch_member name =
    let encoded = drop_end 6 (drop_count 17 name) in
    if not (has_prefix "patches/per_file/" name)
      || not (has_suffix ".patch" name)
      || is_empty encoded
      || has_part "/" encoded
      || has_part "\\" encoded
    then none
    else safe_path (replace_pairs "_" "/" false encoded)

-- `build_zip_patch_manifest`, of the sorted names.
abbrev pub root_metadata_names : List String
root_metadata_names = "COMMIT_MESSAGE.txt" ∷ "ISSUE_NUMBER.txt" ∷ "target.txt" ∷ []

unfoldable pub entries_of : List String → List ZipEntry
unfolding repo_path_from_patch_member contains has_suffix
entries_of [] = []
entries_of (name ∷ names) =
    let rest = entries_of names in
    if contains root_metadata_names name || not (has_suffix ".patch" name)
    then rest
    else record { zip_member = name; repo_path = repo_path_from_patch_member name } ∷ rest

abbrev pub all_selectable : List ZipEntry → Bool
all_selectable [] = true
all_selectable (entry ∷ entries) = is_some entry.repo_path && all_selectable entries

abbrev pub has_entries : List ZipEntry → Bool
has_entries [] = false
has_entries (entry ∷ entries) = true

unfoldable pub build_zip_patch_manifest : (List String → List String) → List String → ZipManifest
unfolding entries_of contains
build_zip_patch_manifest sorted namelist =
    let entries = entries_of (sorted namelist) in
    let selectable = has_entries entries && all_selectable entries in
    record {
      is_selectable = selectable;
      reason =
          (if not (has_entries entries)
            then "zip_has_no_patch_entries"
            else if not selectable
            then "zip_not_pm_per_file_layout"
            else "ok");
      zip_entries = entries;
      root_metadata_present =
          sorted (select (λ name. contains root_metadata_names name) (sorted namelist));
    }

-- `validate_selected_patch_entries`
unfoldable pub allowed_members : List ZipEntry → List String
allowed_members [] = []
allowed_members (entry ∷ entries) =
    let rest = allowed_members entries in
    if is_some entry.repo_path then entry.zip_member ∷ rest else rest

unfoldable pub select_members : List String → List String → List String → Result (List String)
unfolding contains is_empty
select_members allowed [] selected = ok selected
select_members allowed (name ∷ names) selected =
    let same = select_members allowed names selected in
    let more = select_members allowed names (selected ++ (name ∷ [])) in
    if is_empty name || contains selected name
    then same
    else if not (contains allowed name)
    then err "selected_patch_entries contains an unknown zip member"
    else more

abbrev pub not_empty : (List String → List String) → List String → Result (List String)
not_empty sorted [] = err "selected_patch_entries is empty"
not_empty sorted (name ∷ names) = ok (sorted (name ∷ names))

abbrev pub is_nil : List String → Bool
is_nil [] = true
is_nil (name ∷ names) = false

unfoldable pub validate_selected_patch_entries :
    (List String → List String) → ZipManifest → List String → Result (List String)
unfolding allowed_members select_members
validate_selected_patch_entries sorted manifest requested =
    if not manifest.is_selectable || is_nil (allowed_members manifest.zip_entries)
    then err "Zip subset selection is not available for this patch"
    else do
      selected ← select_members (allowed_members manifest.zip_entries) requested []
      not_empty sorted selected

-- `selected_repo_paths_from_manifest`
abbrev pub is_blank_path : Option String → Bool
is_blank_path none = true
is_blank_path (some path) = is_empty path

unfoldable pub allowed_paths : List ZipEntry → Dict (Option String) → Dict (Option String)
unfolding insert is_empty
allowed_paths [] table = table
allowed_paths (entry ∷ entries) table =
    allowed_paths entries (
      if is_blank_path entry.repo_path
      then table
      else insert entry.zip_member entry.repo_path table)

abbrev pub path_list : Option (Option String) → List String
path_list (some (some path)) = path ∷ []
path_list _ = []

unfoldable pub paths_in : Dict (Option String) → List String → List String
unfolding lookup
paths_in table [] = []
paths_in table (name ∷ names) = path_list (lookup name table) ++ paths_in table names

unfoldable pub selected_repo_paths_from_manifest : ZipManifest → List String → List String
unfolding allowed_paths paths_in
selected_repo_paths_from_manifest manifest selected =
    paths_in (allowed_paths manifest.zip_entries []) selected

-- `create_subset_zip`: the members that are written, in order.
abbrev pub member_list : String → Option String → Dict String
member_list name none = []
member_list name (some data_text) = (name, data_text) ∷ []

unfoldable pub copied_metadata : Dict String → List String → Dict String
unfolding lookup
copied_metadata src [] = []
copied_metadata src (name ∷ names) = member_list name (lookup name src) ++ copied_metadata src names

abbrev pub read_member : String → Option String → Result (Dict String)
read_member name none = err ("There is no item named '" <> (name <> "' in the archive"))
read_member name (some data_text) = ok ((name, data_text) ∷ [])

unfoldable pub copied_members : Dict String → List String → Result (Dict String)
unfolding lookup
copied_members src [] = ok []
copied_members src (name ∷ names) = do
  first ← read_member name (lookup name src)
  rest ← copied_members src names
  ok (first ++ rest)

unfoldable pub create_subset_zip : Dict String → List String → Result (Dict String)
unfolding copied_metadata copied_members
create_subset_zip src selected = do
  members ← copied_members src selected
  ok (copied_metadata src root_metadata_names ++ members)
