-- ===== src/Rollback/Diff.antt =====
-- scripts/patchhub/rollback_scope_manifest.py: the entries of a manifest, from the output of
-- `git diff --name-status -M`.
use Prim.Native.Char.{Char}
use patchhub.Prelude.{List, String, [], if◌then◌else◌, suc, zero, ℕ, ◌+◌, ◌<>◌, ◌==◌, ◌||◌, ◌∷◌}
use patchhub.Prelude.Text.{has_prefix, is_empty, strip, upper}
use patchhub.Prelude.Split.{split_all}
use patchhub.CommandLine.{Result, err, ok, ◌>>=◌}
use patchhub.Rollback.{Entry}

abbrev pub tab : Char
tab = "\t"

-- `f"{n}"`: the digits of a number, the last one first.
unfoldable pub next_digit : String → String
next_digit d =
    if d == "0"
    then "1"
    else if d == "1"
    then "2"
    else if d == "2"
    then "3"
    else if d == "3"
    then "4"
    else if d == "4"
    then "5"
    else if d == "5"
    then "6"
    else if d == "6"
    then "7"
    else if d == "7"
    then "8"
    else "9"

unfoldable pub next_number : List String → List String
unfolding next_digit
next_number [] = "1" ∷ []
next_number (d ∷ digits) =
    let rest = next_number digits in if d == "9" then "0" ∷ rest else next_digit d ∷ digits

unfoldable pub number_digits : ℕ → List String
unfolding next_number
number_digits zero = "0" ∷ []
number_digits (suc n) = next_number (number_digits n)

abbrev pub joined_reversed : List String → String → String
joined_reversed [] s = s
joined_reversed (d ∷ digits) s = joined_reversed digits (d <> s)

unfoldable pub number_text : ℕ → String
unfolding number_digits
number_text n = joined_reversed (number_digits n) ""

-- `_single_path_lifecycle`
unfoldable pub single_path_lifecycle : String → Result String
unfolding strip upper
single_path_lifecycle status =
    let text = upper (strip status) in
    if text == "A"
    then ok "add"
    else if text == "M"
    then ok "modify"
    else if text == "D"
    then ok "delete"
    else err ("unsupported rollback lifecycle status: " <> text)

abbrev pub rename_entry : ℕ → String → String → Entry
rename_entry idx old new = record {
  entry_id = "entry_" <> number_text idx;
  lifecycle_kind = "rename";
  old_path = old;
  new_path = new;
  selection_paths = old ∷ new ∷ [];
  restore_paths = old ∷ new ∷ [];
}

abbrev pub path_entry : ℕ → String → String → Entry
path_entry idx path lifecycle = record {
  entry_id = "entry_" <> number_text idx;
  lifecycle_kind = lifecycle;
  old_path = (if lifecycle == "modify" || lifecycle == "delete" then path else "");
  new_path = (if lifecycle == "modify" || lifecycle == "add" then path else "");
  selection_paths = path ∷ [];
  restore_paths = path ∷ [];
}

-- One line of the output, as the fields between its tabs.
abbrev pub path_line : ℕ → String → String → Result Entry
path_line idx status path = do
  lifecycle ← single_path_lifecycle status
  ok (path_entry idx (strip path) lifecycle)

unfoldable pub entry_of_parts : ℕ → List String → Result Entry
unfolding single_path_lifecycle number_text strip has_prefix
entry_of_parts idx (status ∷ old ∷ new ∷ rest) =
    if has_prefix "R" status
    then ok (rename_entry idx (strip old) (strip new))
    else path_line idx status old
entry_of_parts idx (status ∷ path ∷ []) = path_line idx status path
entry_of_parts idx _ = err "unsupported git diff name-status output"

-- `_diff_entries`, of the lines from the one at `idx` on.
abbrev pub and_entry : Result Entry → Result (List Entry) → Result (List Entry)
and_entry first rest = do entry ← first; entries ← rest; ok (entry ∷ entries)

unfoldable pub diff_entries : ℕ → List String → Result (List Entry)
unfolding entry_of_parts split_all strip is_empty
diff_entries idx [] = ok []
diff_entries idx (raw ∷ lines) =
    let rest = diff_entries (idx + 1) lines in
    if is_empty (strip raw)
    then rest
    else and_entry (entry_of_parts idx (split_all tab (strip raw))) rest
