-- ===== src/Prelude/Split.antt =====
-- `str.split` at one character and `str.join`, as the program uses them on dotted names and paths.
use Prim.Native.Char.{Char}
use patchhub.Prelude.{List, String, [], if◌then◌else◌, ◌<>◌, ◌∷◌}
use patchhub.Prelude.Text.{fold_text, is_char, put_char}

-- `s.split(sep)` at one character.
abbrev pub put_first : Char → List String → List String
put_first c [] = put_char c "" ∷ []
put_first c (part ∷ parts) = put_char c part ∷ parts

abbrev pub split_step : Char → Char → List String → List String
split_step sep c parts = if is_char c sep then "" ∷ parts else put_first c parts

unfoldable pub split_all : Char → String → List String
unfolding fold_text is_char put_char
split_all sep s = fold_text (split_step sep) ("" ∷ []) s

-- `sep.join(parts)`
unfoldable pub join_text : String → List String → String
join_text sep [] = ""
join_text sep (part ∷ []) = part
join_text sep (part ∷ next ∷ rest) = part <> (sep <> join_text sep (next ∷ rest))
