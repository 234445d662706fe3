-- ===== src/Monolith/Metrics.antt =====
-- scripts/am_patch/monolith_gate.py: what the gate measures in a Python file. The syntax tree is the
-- answer of `ast.parse`, an argument: its top-level definitions by name, and its import statements in
-- the order of `ast.walk`. Sets are lists without repetition.
use patchhub.Prelude.{
  Bool, List, Option, String, [], eqb, false, if◌then◌else◌, length, none, not, select, some, take,
  true, ℕ, ◌&&◌, ◌++◌, ◌+◌, ◌-◌, ◌<>◌, ◌==◌, ◌||◌, ◌∷◌,
}
use patchhub.Prelude.Text.{
  drop_count, drop_end, has_prefix, has_suffix, is_empty, replace_char, strip, strip_if,
  text_length,
}
use patchhub.Prelude.Split.{join_text, split_all}
use patchhub.Gates.Paths.{add_distinct, slash}
use patchhub.Monolith.{
  MonolithAreas, all_but_last, area_for_module, count_loc, is_dot_char, norm_relpath,
}

pub data ImportNode : Type 0 where
  import_names : List String → ImportNode
  import_from : ℕ → Option String → ImportNode

pub record Tree : Type 0 where
  pub definition_names : List String
  pub import_nodes : List ImportNode

pub record FileMetrics : Type 0 where
  pub loc : ℕ
  pub exports : ℕ
  pub internal_imports : ℕ
  pub distinct_areas : ℕ
  pub parse_ok : Bool

-- `_count_exports`
unfoldable pub count_exports : List String → ℕ
unfolding has_prefix is_empty
count_exports [] = 0
count_exports (name ∷ names) =
    (if not (is_empty name) && not (has_prefix "_" name) then 1 else 0) + count_exports names

-- `_iter_import_modules`: `strip().strip(".")` of a name, and a relative import by its level.
unfoldable pub clean_module : String → String
unfolding strip_if strip
clean_module mod_name = strip_if is_dot_char (strip mod_name)

abbrev pub module_text : Option String → String
module_text none = ""
module_text (some m) = strip_if is_dot_char m

abbrev pub relative_to : List String → String → String
relative_to base m = if is_empty m then join_text "." base else join_text "." (base ++ (m ∷ []))

unfoldable pub resolve_relative : Option String → ℕ → Option String → Option String
unfolding is_empty join_text split_all strip_if
resolve_relative none level mod_name = none
resolve_relative (some current_module) level mod_name =
    let parents = all_but_last (split_all "." current_module) in
    if is_empty current_module || eqb level 0
    then none
    else some (relative_to (take (length parents - (level - 1)) parents) (module_text mod_name))

abbrev pub text_list : Option String → List String
text_list none = []
text_list (some s) = s ∷ []

unfoldable pub imported_names : Option String → List ImportNode → List String
unfolding resolve_relative
imported_names current_module [] = []
imported_names current_module (import_names names ∷ nodes) =
    names ++ imported_names current_module nodes
imported_names current_module (import_from level mod_name ∷ nodes) =
    text_list (if eqb level 0 then mod_name else resolve_relative current_module level mod_name)
    ++ imported_names current_module nodes

unfoldable pub iter_import_modules : List ImportNode → Option String → List String
unfolding add_distinct clean_module imported_names
iter_import_modules nodes current_module =
    add_distinct clean_module (imported_names current_module nodes) []

-- `_module_for_relpath`
abbrev pub drop_suffix : String → String → String
drop_suffix suffix s = if has_suffix suffix s then drop_end (text_length suffix) s else s

abbrev pub dotted_path : String → String
dotted_path path = drop_suffix ".__init__" (replace_char slash "." (drop_end 3 path))

abbrev pub plugin_module : List String → String
plugin_module (root ∷ name ∷ parts) =
    let rest = join_text "/" parts in
    let dotted = replace_char slash "." (drop_suffix ".py" rest) in
    if rest == "__init__.py" || is_empty dotted
    then "plugins." <> name
    else "plugins." <> (name <> ("." <> dotted))
plugin_module _ = ""

unfoldable pub module_for_relpath : String → Option String
unfolding norm_relpath has_prefix has_suffix drop_end drop_count replace_char split_all join_text
    is_empty text_length
module_for_relpath relpath =
    let rp = norm_relpath relpath in
    if has_prefix "src/audiomason/" rp && has_suffix ".py" rp
    then some (dotted_path (drop_count 4 rp))
    else if has_prefix "scripts/am_patch/" rp && has_suffix ".py" rp
    then some (dotted_path (drop_count 8 rp))
    else if has_prefix "plugins/" rp && has_suffix ".py" rp
    then some (plugin_module (split_all slash rp))
    else if has_prefix "tests/" rp && has_suffix ".py" rp
    then some (dotted_path rp)
    else none

-- `_analyze_file` of a Python file, whose modules in no area are left out.
abbrev pub internal_modules : List MonolithAreas → List String → List String
internal_modules areas mods = select (λ m. not (area_for_module m areas == "other")) mods

abbrev pub imported_areas : List MonolithAreas → List String → List String
imported_areas areas mods = add_distinct (λ m. area_for_module m areas) mods []

unfoldable pub analyze_python :
    List MonolithAreas → String → List String → Option Tree → FileMetrics
unfolding count_loc count_exports iter_import_modules module_for_relpath area_for_module
    add_distinct
analyze_python areas relpath lines none = record {
  loc = count_loc lines;
  exports = 0;
  internal_imports = 0;
  distinct_areas = 0;
  parse_ok = false;
}
analyze_python areas relpath lines (some tree) =
    let mods = iter_import_modules tree.import_nodes (module_for_relpath relpath) in
    record {
      loc = count_loc lines;
      exports = count_exports tree.definition_names;
      internal_imports = length (internal_modules areas mods);
      distinct_areas = length (imported_areas areas (internal_modules areas mods));
      parse_ok = true;
    }
