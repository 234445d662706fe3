-- ===== src/Monolith/Totals.antt =====
-- scripts/am_patch/monolith_gate.py: the import graph counts every import at both of its ends.
use patchhub.Prelude.{
  Bool, List, Option, String, [], arith, contains, contains-append, false, if◌then◌else◌,
  is_distinct, is_distinct-append, length, none, refl, some, true, ℕ, ◌+◌, ◌∷◌, ◌≡◌,
}
use patchhub.Dict.{Dict, insert, lookup}
use patchhub.Monolith.Metrics.{iter_import_modules, module_for_relpath}
use patchhub.Monolith.Javascript.{js_internal_import_targets}
use patchhub.Monolith.Fan.{
  Parsed, add_other, count_targets, edges_of, fan_graph, fanin_of, fanout_of, javascript,
  js_targets, module_to_rel, or_zero, python, python_targets, resolve_target, targets_in, zeros,
}

unfoldable pub total : Dict ℕ → ℕ
total [] = 0
total ((k, n) ∷ d) = n + total d

-- A count that goes up by one is one more in all.
total-insert :
    (k : String) (d : Dict ℕ) → total (insert k (or_zero (lookup k d) + 1) d) ≡ total d + 1
unfolding total insert lookup
total-insert k [] = refl
total-insert k ((j, n) ∷ d) = ground (arith, total-insert k d)

total-count_targets :
    (tgts : List String) (fanin : Dict ℕ)
    → total (count_targets tgts fanin) ≡ total fanin + length tgts
unfolding count_targets
total-count_targets [] fanin = omega arith
total-count_targets (tgt ∷ tgts) fanin = omega (
  arith,
  total-count_targets tgts (insert tgt (or_zero (lookup tgt fanin) + 1) fanin),
  total-insert tgt fanin,
)

total-fanin_of :
    (edges : Dict (List String)) (fanin : Dict ℕ)
    → total (fanin_of edges fanin) ≡ total fanin + total (fanout_of edges)
unfolding fanin_of fanout_of total
total-fanin_of [] fanin = omega arith
total-fanin_of ((src, tgts) ∷ edges) fanin =
    omega (arith, total-fanin_of edges (count_targets tgts fanin), total-count_targets tgts fanin)

total-zeros : (relpaths : List String) → total (zeros relpaths) ≡ 0
unfolding total zeros
total-zeros [] = refl
total-zeros (rp ∷ relpaths) = omega (arith, total-zeros relpaths)

-- The counts of the imports that go out of the candidates and of those that come in add up to the
-- same number, whatever the files hold.
pub total-fan_graph :
    (exists : String → Bool) (read_tree : String → Option Parsed) (relpaths : List String)
    → total (fan_graph exists read_tree relpaths).0 ≡ total (fan_graph exists read_tree relpaths).1
unfolding fan_graph
total-fan_graph exists read_tree relpaths = omega (
  arith,
  total-fanin_of (edges_of exists read_tree relpaths (module_to_rel relpaths []) relpaths)
      (zeros relpaths),
  total-zeros relpaths,
)

-- The targets that a file has: each once, and never the file itself.
abbrev IsProper : String → List String → Type 0
IsProper rp targets = (is_distinct targets ≡ true) × (contains targets rp ≡ false)

add_other-IsProper :
    (rp : String) (tgt : Option String) (targets : List String)
    → IsProper rp targets
    → IsProper rp (add_other rp tgt targets)
add_other-IsProper rp none targets (d, n) = (d, n)
add_other-IsProper rp (some tgt) targets (d, n) = (
  ground (arith, is_distinct-append targets tgt d),
  ground (arith, contains-append targets tgt rp),
)

python_targets-IsProper :
    (table : Dict String) (rp : String) (mods targets : List String)
    → IsProper rp targets
    → IsProper rp (python_targets table rp mods targets)
unfolding python_targets
python_targets-IsProper table rp [] targets h = h
python_targets-IsProper table rp (m ∷ mods) targets h =
    python_targets-IsProper table rp mods (add_other rp (resolve_target table m) targets)
      (add_other-IsProper rp (resolve_target table m) targets h)

js_targets-IsProper :
    (relpaths : List String) (rp : String) (tgts targets : List String)
    → IsProper rp targets
    → IsProper rp (js_targets relpaths rp tgts targets)
unfolding js_targets
js_targets-IsProper relpaths rp [] targets h = h
js_targets-IsProper relpaths rp (tgt ∷ tgts) targets h =
    let found = if contains relpaths tgt then some tgt else none in
    js_targets-IsProper relpaths rp tgts (add_other rp found targets)
      (add_other-IsProper rp found targets h)

no_targets-IsProper : (rp : String) → IsProper rp []
unfolding is_distinct contains
no_targets-IsProper rp = (refl, refl)

-- The import graph has no loop from a file to itself, and counts two imports of one file once.
targets_in-IsProper :
    (exists : String → Bool) (relpaths : List String) (table : Dict String) (rp : String)
    (read : Option Parsed)
    → IsProper rp (targets_in exists relpaths table rp read)
unfolding targets_in
targets_in-IsProper exists relpaths table rp none = no_targets-IsProper rp
targets_in-IsProper exists relpaths table rp (some (python none)) = no_targets-IsProper rp
targets_in-IsProper exists relpaths table rp (some (python (some tree))) =
    python_targets-IsProper table rp (iter_import_modules tree.import_nodes (module_for_relpath rp))
      [] (no_targets-IsProper rp)
targets_in-IsProper exists relpaths table rp (some (javascript matches)) =
    js_targets-IsProper relpaths rp (js_internal_import_targets exists rp matches) []
      (no_targets-IsProper rp)
