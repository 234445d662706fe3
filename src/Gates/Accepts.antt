-- ===== src/Gates/Accepts.antt =====
-- scripts/am_patch/gates.py: when the js gate passes.
use Prim.Native.String.append as append
use patchhub.Prelude.{Bool, List, String, [], false, if◌then◌else◌, not, ◌&&◌, ◌<>◌, ◌||◌, ◌∷◌}
use patchhub.Prelude.Text.{has_prefix, has_suffix, is_empty, lower, strip}
use patchhub.Gates.Paths.{norm_rel_path}

-- A configured extension that is not blank, in lower case and with its dot, ends the path.
abbrev pub dotted : String → String
dotted e = if has_prefix "." (lower (strip e)) then lower (strip e) else "." <> lower (strip e)

abbrev pub has_extension : List String → String → Bool
has_extension [] p = false
has_extension (e ∷ exts) p =
    (not (is_empty (lower (strip e))) && has_suffix (dotted e) (lower p)) || has_extension exts p

-- The path is blank, has no configured extension, is no file, or the command accepts it.
abbrev pub js_accepts : (String → Bool) → (String → Bool) → List String → String → Bool
js_accepts is_file accepts exts d =
    is_empty (norm_rel_path d)
    || (not (has_extension exts (norm_rel_path d))
        || (not (is_file (norm_rel_path d)) || accepts (norm_rel_path d)))

abbrev passes : (String → Bool) → (String → Bool) → String → Bool
passes is_file accepts p = not (is_file p) || accepts p
