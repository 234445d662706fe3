-- ===== src/Monolith.antt =====
-- scripts/am_patch/monolith_gate.py: the areas of the tree, and which files the gate looks at. What
-- a parser reads from a file, its metrics and its imports, is an argument; so are the files there
-- are. Limits are natural numbers. Of a violation's message the hint is kept.
pub mod Metrics
pub mod Javascript
pub mod Fan
pub mod Rules
pub mod Gate
pub mod Verdict
pub mod Failure
pub mod Unchanged
pub mod Totals
use Prim.Native.Char.{Char}
use patchhub.Prelude.{
  Bool, List, Option, String, [], contains, false, if◌then◌else◌, leb, map, none, not, select, some,
  ℕ, ◌&&◌, ◌++◌, ◌+◌, ◌<>◌, ◌==◌, ◌||◌, ◌∷◌,
}
use patchhub.Prelude.Text.{
  drop_prefix, has_prefix, has_suffix, is_char, is_empty, lower, replace_char, rstrip_if, strip,
  strip_if,
}
use patchhub.Prelude.Split.{join_text, split_all}
use patchhub.CommandLine.{Result, err, ok, ◌>>=◌}
use patchhub.Gates.Paths.{add_distinct, backslash, slash}

pub record MonolithAreas : Type 0 where
  pub rel_prefix : String
  pub area : String
  pub dynamic : Option String

-- `_norm_relpath`
unfoldable pub norm_relpath : String → String
unfolding drop_prefix strip_if strip
norm_relpath p =
    strip_if (is_char slash) (drop_prefix "./" (strip (replace_char backslash slash p)))

abbrev pub dotted_lower : String → String
dotted_lower item =
    let s = strip item in if is_empty s then s else lower (if has_prefix "." s then s else "." <> s)

unfoldable pub norm_extensions : List String → List String
unfolding add_distinct
norm_extensions exts = add_distinct dotted_lower exts []

abbrev pub ends_in : String → List String → Bool
ends_in rp [] = false
ends_in rp (ext ∷ exts) = has_suffix ext rp || ends_in rp exts

unfoldable pub has_allowed_suffix : String → List String → Bool
unfolding norm_relpath has_suffix lower
has_allowed_suffix relpath exts = ends_in (lower (norm_relpath relpath)) exts

-- `_count_loc`, of the lines of a text.
unfoldable pub count_loc : List String → ℕ
unfolding strip is_empty
count_loc [] = 0
count_loc (line ∷ lines) = (if is_empty (strip line) then 0 else 1) + count_loc lines

-- `_areas_from_policy`. A prefix without a name or without a dynamic entry ends it by the
-- IndexError, also where the prefix would be left out.
abbrev area_of : String → String → String → List MonolithAreas
area_of prefix name dynamic =
    let p = norm_relpath prefix in
    if is_empty p || is_empty (strip name)
    then []
    else record {
      rel_prefix = rstrip_if (is_char slash) p <> "/";
      area = strip name;
      dynamic = (if is_empty (strip dynamic) then none else some (strip dynamic));
    }
      ∷ []

unfoldable pub areas_from_policy :
    List String → List String → List String → Result (List MonolithAreas)
unfolding norm_relpath rstrip_if strip
areas_from_policy [] names dynamics = ok []
areas_from_policy (prefix ∷ prefixes) (name ∷ names) (dynamic ∷ dynamics) = do
  rest ← areas_from_policy prefixes names dynamics
  ok (area_of prefix name dynamic ++ rest)
areas_from_policy (prefix ∷ prefixes) [] dynamics = err "list index out of range"
areas_from_policy (prefix ∷ prefixes) (name ∷ names) [] = err "list index out of range"

abbrev pub is_plugins : Option String → Bool
is_plugins none = false
is_plugins (some d) = d == "plugins.<name>"

-- The area of a path in a plugin's directory.
abbrev pub plugin_area : List String → String → String
plugin_area (root ∷ name ∷ rest) area = if root == "plugins" then "plugins." <> name else area
plugin_area _ area = area

unfoldable pub area_loop : String → String → List MonolithAreas → String
unfolding has_prefix split_all
area_loop rp rp2 [] = "other"
area_loop rp rp2 (a ∷ areas) =
    let later = area_loop rp rp2 areas in
    if has_prefix a.rel_prefix rp2
    then (if is_plugins a.dynamic then plugin_area (split_all slash rp) a.area else a.area)
    else later

unfoldable pub area_for_relpath : String → List MonolithAreas → String
unfolding area_loop norm_relpath has_suffix
area_for_relpath relpath areas =
    let rp = norm_relpath relpath in
    area_loop rp (if has_suffix "/" rp then rp else rp <> "/") areas

-- `_module_to_rel_hint`
abbrev pub is_dot_char : Char → Bool
is_dot_char c = is_char "." c

abbrev pub file_or_init : String → List String → Option String
file_or_init dir parts =
    let rest = join_text "/" parts in
    some (if is_empty rest then dir <> "/__init__.py" else dir <> "/" <> rest <> ".py")

abbrev pub plugin_hint : List String → Option String
plugin_hint [] = none
plugin_hint (name ∷ rest) = file_or_init ("plugins/" <> name) rest

unfoldable pub hint_of_parts : List String → Option String
unfolding join_text
hint_of_parts [] = none
hint_of_parts (root ∷ parts) =
    if root == "audiomason"
    then file_or_init "src/audiomason" parts
    else if root == "am_patch"
    then file_or_init "scripts/am_patch" parts
    else if root == "plugins"
    then plugin_hint parts
    else if root == "tests"
    then file_or_init "tests" parts
    else none

unfoldable pub module_to_rel_hint : String → Option String
unfolding hint_of_parts split_all strip_if strip
module_to_rel_hint mod_name =
    let s = strip_if is_dot_char (strip mod_name) in
    if is_empty s then none else hint_of_parts (split_all "." s)

-- `Path(hint).parent`
abbrev pub all_but_last : List String → List String
all_but_last [] = []
all_but_last (part ∷ []) = []
all_but_last (part ∷ next ∷ rest) = part ∷ all_but_last (next ∷ rest)

unfoldable pub parent_of : String → String
unfolding join_text split_all
parent_of path =
    let dir = join_text "/" (all_but_last (split_all slash path)) in
    if is_empty dir then "." else dir

unfoldable pub area_for_hint : Option String → List MonolithAreas → String
unfolding area_for_relpath norm_relpath parent_of
area_for_hint none areas = "other"
area_for_hint (some hint) areas =
    let area = area_for_relpath hint areas in
    let d = norm_relpath (parent_of hint) in
    if not (area == "other")
    then area
    else if is_empty d
    then "other"
    else area_for_relpath (d <> "/x.py") areas

-- `_area_for_module`
unfoldable pub area_for_module : String → List MonolithAreas → String
unfolding area_for_hint module_to_rel_hint
area_for_module mod_name areas = area_for_hint (module_to_rel_hint mod_name) areas

abbrev pub last_of : List String → String
last_of [] = ""
last_of (part ∷ []) = part
last_of (part ∷ next ∷ rest) = last_of (next ∷ rest)

abbrev pub any_named : List String → List String → Bool
any_named names [] = false
any_named names (part ∷ parts) = contains names part || any_named names parts

-- `_is_catchall_new_file`
unfoldable pub is_catchall_new_file : String → List String → List String → List String → Bool
unfolding norm_relpath split_all
is_catchall_new_file relpath basenames dirs allowlist =
    let rp = norm_relpath relpath in
    let parts = select (λ p. not (is_empty p)) (split_all slash rp) in
    not (contains (map norm_relpath allowlist) rp)
    && (contains basenames (last_of (split_all slash rp)) || any_named dirs (all_but_last parts))

pub data Tier : Type 0 where
  huge large normal : Tier

-- `_tier`, of the limits for large and huge files.
unfoldable pub tier : ℕ → ℕ → ℕ → Tier
tier large_loc huge_loc loc =
    if leb huge_loc loc then huge else if leb large_loc loc then large else normal

-- `_scan_candidates`, with the paths that the workspace holds under the areas' prefixes.
unfoldable pub patch_loop : (String → Bool) → List String → List String → List String → List String
unfolding norm_relpath has_allowed_suffix
patch_loop exists exts [] out = out
patch_loop exists exts (p ∷ paths) out =
    let rp = norm_relpath p in
    patch_loop exists exts paths (
      if has_allowed_suffix rp exts && exists rp && not (contains out rp)
      then out ++ (rp ∷ [])
      else out)

unfoldable pub scan_candidates :
    (List String → List String)
    → (String → Bool)
    → List String
    → String
    → List String
    → List String
    → Result (List String)
unfolding patch_loop norm_extensions
scan_candidates sorted exists workspace_paths scope extensions decision_paths =
    if scope == "patch"
    then ok (sorted (patch_loop exists (norm_extensions extensions) decision_paths []))
    else if scope == "workspace"
    then ok workspace_paths
    else err ("invalid gate_monolith_scan_scope='" <> scope <> "'")
