-- ===== src/Scope/Delta.antt =====
-- Which paths `delta_paths` gives.
use patchhub.Prelude.{
  List, String, [], arith, contains, contains-append, eq_iff, is_distinct, is_distinct-append, map,
  not, refl, true, ◌&&◌, ◌++◌, ◌||◌, ◌∷◌, ◌≡◌,
}
use patchhub.Scope.{delta_loop, delta_paths, normalize_path}

contains-delta_loop :
    (before out after : List String) (p : String)
    → contains (delta_loop before out after) p
      ≡ (contains out p || (contains (map normalize_path after) p && not (contains before p)))
unfolding delta_loop contains
contains-delta_loop before out [] p = ground arith
contains-delta_loop before out (q ∷ after) p = ground (
  arith,
  contains-append out (normalize_path q) p,
  eq_iff (normalize_path q) p,
  contains-delta_loop before out after p,
  contains-delta_loop before (out ++ (normalize_path q ∷ [])) after p,
)

is_distinct-delta_loop :
    (before out after : List String)
    → is_distinct out ≡ true
    → is_distinct (delta_loop before out after) ≡ true
unfolding delta_loop
is_distinct-delta_loop before out [] d = d
is_distinct-delta_loop before out (q ∷ after) d = ground (
  arith,
  is_distinct-append out (normalize_path q) d,
  is_distinct-delta_loop before out after,
  is_distinct-delta_loop before (out ++ (normalize_path q ∷ [])) after,
)

-- No new path is given twice, and a path is among the new ones exactly if it is one of the second
-- list and none of the first, in normalised form.
pub contains-delta_paths :
    (before after : List String) (p : String)
    → (is_distinct (delta_paths before after) ≡ true)
      × (contains (delta_paths before after) p
          ≡ (contains (map normalize_path after) p && not (contains (map normalize_path before) p)))
unfolding delta_paths contains is_distinct
contains-delta_paths before after p = (
  is_distinct-delta_loop (map normalize_path before) [] after refl,
  contains-delta_loop (map normalize_path before) [] after p,
)
