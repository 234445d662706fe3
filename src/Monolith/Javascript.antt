-- ===== src/Monolith/Javascript.antt =====
-- scripts/am_patch/monolith_js_metrics.py. What its regular expressions match in a text is an
-- argument; the rest, from a specifier to the file it names, is the code's own.
use patchhub.Prelude.{
  Bool, List, Option, String, [], contains, false, if◌then◌else◌, length, none, not, select, some,
  true, ℕ, ◌&&◌, ◌++◌, ◌+◌, ◌<>◌, ◌==◌, ◌||◌, ◌∷◌,
}
use patchhub.Prelude.Text.{
  drop_prefix, has_prefix, has_suffix, is_char, is_empty, replace_pairs, split_once, strip,
  strip_if,
}
use patchhub.Prelude.Split.{join_text, split_all}
use patchhub.Gates.Paths.{add_distinct, backslash, slash}
use patchhub.Monolith.{MonolithAreas, area_for_relpath, count_loc, last_of, parent_of}
use patchhub.Monolith.Metrics.{FileMetrics}

-- `_RE_EXPORT_LINE`, `module.exports`, `_RE_EXPORTS_DOT`, and the three expressions of imports.
pub record JsMatches : Type 0 where
  pub export_lines : ℕ
  pub module_exports : ℕ
  pub export_dots : List String
  pub import_specs : List String

unfoldable pub count_js_exports : JsMatches → ℕ
unfolding add_distinct
count_js_exports found =
    found.export_lines
    + (found.module_exports + length (add_distinct (λ name. name) found.export_dots []))

unfoldable pub iter_internal_specs : JsMatches → List String
unfolding add_distinct strip
iter_internal_specs found = add_distinct strip found.import_specs []

-- `s.split(sep, 1)[0]`
abbrev pub left_of : Option (String × String) → String → String
left_of none s = s
left_of (some (left, right)) s = left

abbrev pub drop_query : String → String
drop_query s = let t = left_of (split_once "?" s) s in left_of (split_once "#" t) t

-- `str(Path(path))`: no empty and no `.` part, but `..` stays.
abbrev pub is_part : String → Bool
is_part part = not (is_empty part || part == ".")

unfoldable pub path_text : String → String
unfolding join_text split_all is_empty
path_text path =
    let s = join_text "/" (select is_part (split_all slash path)) in if is_empty s then "." else s

unfoldable pub is_js_file : String → Bool
unfolding has_suffix split_all
is_js_file path = has_suffix ".js" path && not (last_of (split_all slash path) == ".js")

-- `_norm_relpath` of this file, which replaces two backslashes in a row and no single one.
unfoldable pub norm_js_path : String → String
unfolding drop_prefix replace_pairs strip strip_if
norm_js_path p =
    strip_if (is_char slash) (drop_prefix "./" (strip (replace_pairs backslash slash false p)))

-- `_resolve_spec_to_relpath`, with the files of either tree.
abbrev pub found_file : (String → Bool) → String → Option String → Option String
found_file exists path later = if exists path then some path else later

unfoldable pub resolve_spec_to_relpath : (String → Bool) → String → String → Option String
unfolding norm_js_path parent_of path_text is_js_file split_once has_prefix strip
resolve_spec_to_relpath exists relpath spec =
    let s = strip spec in
    let base = parent_of (norm_js_path relpath) in
    let cand = path_text (norm_js_path (path_text (base <> ("/" <> drop_query s)))) in
    if not (has_prefix "./" s || has_prefix "../" s)
    then none
    else if is_js_file cand
    then found_file exists (norm_js_path cand) none
    else found_file exists (norm_js_path (cand <> ".js"))
        (found_file exists (norm_js_path (path_text (cand <> "/index.js"))) none)

-- `if tgt: targets.add(tgt)`
abbrev pub add_target : Option String → List String → List String
add_target none targets = targets
add_target (some tgt) targets =
    if is_empty tgt || contains targets tgt then targets else targets ++ (tgt ∷ [])

unfoldable pub targets_of : (String → Bool) → String → List String → List String → List String
unfolding resolve_spec_to_relpath
targets_of exists relpath [] targets = targets
targets_of exists relpath (spec ∷ specs) targets =
    targets_of exists relpath specs
      (add_target (resolve_spec_to_relpath exists relpath spec) targets)

-- `js_internal_import_targets`
unfoldable pub js_internal_import_targets : (String → Bool) → String → JsMatches → List String
unfolding targets_of iter_internal_specs
js_internal_import_targets exists relpath found =
    targets_of exists relpath (iter_internal_specs found) []

-- `js_metrics`
unfoldable pub js_metrics :
    (String → Bool) → List MonolithAreas → String → List String → JsMatches → FileMetrics
unfolding count_loc count_js_exports js_internal_import_targets area_for_relpath add_distinct
js_metrics exists areas relpath lines found =
    let targets = js_internal_import_targets exists relpath found in
    record {
      loc = count_loc lines;
      exports = count_js_exports found;
      internal_imports = length targets;
      distinct_areas = length (
          select (λ area. not (area == "other"))
            (add_distinct (λ tgt. area_for_relpath tgt areas) targets []));
      parse_ok = true;
    }
