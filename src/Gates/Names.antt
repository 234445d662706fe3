-- ===== src/Gates/Names.antt =====
-- Which gates `_norm_gates_order` keeps.
use patchhub.Prelude.Text.{lower, strip}
use patchhub.Prelude.{
  Bool, List, String, [], arith, contains, contains-append, contains_nil, eq_iff, false,
  is_distinct, is_distinct-append, refl, true, ◌&&◌, ◌++◌, ◌==◌, ◌||◌, ◌∷◌, ◌≡◌,
}
use patchhub.Gates.{gate_names, norm_gate_name, norm_gates_order, order_loop}

-- Some item of the order is the name, in lower case and without outer spaces.
abbrev pub is_asked : List String → String → Bool
is_asked [] g = false
is_asked (item ∷ order) g = lower (strip item) == g || is_asked order g

contains-order_loop :
    (order out : List String) (g : String)
    → contains (order_loop order out) g
      ≡ (contains out g || (is_asked order g && contains gate_names g))
unfolding order_loop norm_gate_name
contains-order_loop [] out g = ground (arith, contains_nil g)
contains-order_loop (item ∷ order) out g = ground (
  arith,
  contains-append out (lower (strip item)) g,
  eq_iff (lower (strip item)) g,
  contains-order_loop order out g,
  contains-order_loop order (out ++ (lower (strip item) ∷ [])) g,
)

is_distinct-order_loop :
    (order out : List String) → is_distinct out ≡ true → is_distinct (order_loop order out) ≡ true
unfolding order_loop
is_distinct-order_loop [] out d = d
is_distinct-order_loop (item ∷ order) out d = ground (
  arith,
  is_distinct-append out (lower (strip item)) d,
  is_distinct-order_loop order out,
  is_distinct-order_loop order (out ++ (lower (strip item) ∷ [])),
)

-- A gate runs at most once, and it is in the order exactly if it is one of the known gates and the
-- given order has its name, in lower case and without outer spaces.
pub contains-norm_gates_order :
    (order : List String) (g : String)
    → (is_distinct (norm_gates_order order) ≡ true)
      × (contains (norm_gates_order order) g ≡ (is_asked order g && contains gate_names g))
unfolding norm_gates_order contains is_distinct
contains-norm_gates_order order g =
    (is_distinct-order_loop order [] refl, contains-order_loop order [] g)
