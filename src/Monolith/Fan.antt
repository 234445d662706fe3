-- ===== src/Monolith/Fan.antt =====
-- scripts/am_patch/monolith_gate.py: `_fan_graph`, the imports between the candidates. `read_tree` is
-- the text of a file in the tree that is looked at, parsed, and `none` where the file is missing.
use patchhub.Prelude.{
  Bool, List, Option, String, [], contains, if◌then◌else◌, length, none, some, ℕ, ◌+◌, ◌==◌, ◌∷◌,
}
use patchhub.Prelude.Text.{is_empty}
use patchhub.Prelude.Split.{join_text, split_all}
use patchhub.Dict.{Dict, insert, lookup}
use patchhub.Monolith.Metrics.{Tree, clean_module, iter_import_modules, module_for_relpath}
use patchhub.Monolith.Javascript.{JsMatches, add_target, js_internal_import_targets}

-- What is read of a file.
pub data Parsed : Type 0 where
  python : Option Tree → Parsed
  javascript : JsMatches → Parsed

abbrev pub put_module : Option String → String → Dict String → Dict String
put_module none rp table = table
put_module (some m) rp table = if is_empty m then table else insert m rp table

unfoldable pub module_to_rel : List String → Dict String → Dict String
unfolding insert module_for_relpath
module_to_rel [] table = table
module_to_rel (rp ∷ relpaths) table =
    module_to_rel relpaths (put_module (module_for_relpath rp) rp table)

-- `resolve_target`: the module, then its packages from the inside out. The parts come last first.
abbrev pub rev_list : List String → List String → List String
rev_list [] out = out
rev_list (part ∷ parts) out = rev_list parts (part ∷ out)

abbrev pub or_else : Option String → Option String → Option String
or_else none later = later
or_else (some rp) later = some rp

unfoldable pub outer_packages : Dict String → List String → Option String
unfolding join_text lookup
outer_packages table [] = none
outer_packages table (part ∷ parts) =
    or_else (lookup (join_text "." (rev_list (part ∷ parts) [])) table) (outer_packages table parts)

unfoldable pub resolve_target : Dict String → String → Option String
unfolding outer_packages clean_module split_all
resolve_target table mod_name =
    let s = clean_module mod_name in
    if is_empty s then none else outer_packages table (rev_list (split_all "." s) [])

-- `if tgt and tgt != rp: edges[rp].add(tgt)`
abbrev pub add_other : String → Option String → List String → List String
add_other rp none targets = targets
add_other rp (some tgt) targets = if tgt == rp then targets else add_target (some tgt) targets

unfoldable pub python_targets : Dict String → String → List String → List String → List String
unfolding resolve_target
python_targets table rp [] targets = targets
python_targets table rp (m ∷ mods) targets =
    python_targets table rp mods (add_other rp (resolve_target table m) targets)

unfoldable pub js_targets : List String → String → List String → List String → List String
unfolding contains
js_targets relpaths rp [] targets = targets
js_targets relpaths rp (tgt ∷ tgts) targets =
    js_targets relpaths rp tgts
      (add_other rp (if contains relpaths tgt then some tgt else none) targets)

unfoldable pub targets_in :
    (String → Bool) → List String → Dict String → String → Option Parsed → List String
unfolding python_targets js_targets iter_import_modules module_for_relpath
    js_internal_import_targets
targets_in exists relpaths table rp none = []
targets_in exists relpaths table rp (some (python none)) = []
targets_in exists relpaths table rp (some (python (some tree))) =
    python_targets table rp (iter_import_modules tree.import_nodes (module_for_relpath rp)) []
targets_in exists relpaths table rp (some (javascript found)) =
    js_targets relpaths rp (js_internal_import_targets exists rp found) []

unfoldable pub edges_of :
    (String → Bool)
    → (String → Option Parsed)
    → List String
    → Dict String
    → List String
    → Dict (List String)
unfolding targets_in
edges_of exists read_tree relpaths table [] = []
edges_of exists read_tree relpaths table (rp ∷ rest) =
    (rp, targets_in exists relpaths table rp (read_tree rp))
    ∷ edges_of exists read_tree relpaths table rest

-- `fanin[tgt] = fanin.get(tgt, 0) + 1`
abbrev pub or_zero : Option ℕ → ℕ
or_zero none = 0
or_zero (some n) = n

unfoldable pub count_targets : List String → Dict ℕ → Dict ℕ
unfolding insert lookup
count_targets [] fanin = fanin
count_targets (tgt ∷ tgts) fanin =
    count_targets tgts (insert tgt (or_zero (lookup tgt fanin) + 1) fanin)

unfoldable pub fanin_of : Dict (List String) → Dict ℕ → Dict ℕ
unfolding count_targets
fanin_of [] fanin = fanin
fanin_of ((src, tgts) ∷ edges) fanin = fanin_of edges (count_targets tgts fanin)

unfoldable pub fanout_of : Dict (List String) → Dict ℕ
fanout_of [] = []
fanout_of ((rp, tgts) ∷ edges) = (rp, length tgts) ∷ fanout_of edges

unfoldable pub zeros : List String → Dict ℕ
zeros [] = []
zeros (rp ∷ relpaths) = (rp, 0) ∷ zeros relpaths

unfoldable pub fan_graph :
    (String → Bool) → (String → Option Parsed) → List String → Dict ℕ × Dict ℕ
unfolding edges_of module_to_rel fanin_of fanout_of zeros
fan_graph exists read_tree relpaths =
    let edges = edges_of exists read_tree relpaths (module_to_rel relpaths []) relpaths in
    (fanin_of edges (zeros relpaths), fanout_of edges)
