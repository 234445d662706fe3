-- ===== src/Routing/Closure.antt =====
-- scripts/am_patch/pytest_namespace_routing.py: `reverse_dependency_closure`. The breadth-first
-- search runs on fuel, and `Reach` proves that it gets enough.
use patchhub.Prelude.{
  List, Option, String, [], contains, if◌then◌else◌, length, none, some, suc, zero, ℕ, ◌++◌, ◌+◌,
  ◌∷◌,
}
use patchhub.Dict.{Dict, insert, keys, lookup}
use patchhub.Routing.Config.{namespace_stem}

-- `reverse.get(name, [])`
abbrev pub or_nil : Option (List String) → List String
or_nil none = []
or_nil (some xs) = xs

unfoldable pub members_of : Dict (List String) → String → List String
unfolding lookup
members_of reverse name = or_nil (lookup name reverse)

-- One pair of a dependent and a provider.
unfoldable pub add_member : String → String → Dict (List String) → Dict (List String)
unfolding members_of insert
add_member dep_name prov_name reverse =
    let members = members_of reverse prov_name in
    insert prov_name (if contains members dep_name then members else members ++ (dep_name ∷ []))
      reverse

unfoldable pub providers_loop : String → List String → Dict (List String) → Dict (List String)
unfolding add_member
providers_loop dep_name [] reverse = reverse
providers_loop dep_name (provider ∷ providers) reverse =
    providers_loop dep_name providers (add_member dep_name (namespace_stem provider) reverse)

unfoldable pub reverse_loop : Dict (List String) → Dict (List String) → Dict (List String)
unfolding providers_loop
reverse_loop [] reverse = reverse
reverse_loop ((dependent, providers) ∷ dependencies) reverse =
    reverse_loop dependencies (providers_loop (namespace_stem dependent) providers reverse)

-- `while queue`: `none` means that the fuel ran out.
unfoldable pub bfs :
    Dict (List String) → ℕ → List String → List String → List String → Option (List String)
unfolding members_of
bfs reverse zero queue seen ordered = none
bfs reverse (suc fuel) [] seen ordered = some ordered
bfs reverse (suc fuel) (current ∷ queue) seen ordered =
    let again = bfs reverse fuel queue seen ordered in
    let next =
      bfs reverse fuel (queue ++ members_of reverse current) (current ∷ seen)
        (ordered ++ (current ∷ [])) in
    if contains seen current then again else next

-- Every member list is read once at most.
unfoldable pub edges : Dict (List String) → ℕ
edges [] = 0
edges ((name, members) ∷ rest) = length members + edges rest

unfoldable pub closure_from : Dict (List String) → String → Option (List String)
unfolding bfs edges members_of
closure_from reverse provider =
    bfs reverse (suc (length (members_of reverse provider) + edges reverse))
      (members_of reverse provider) [] []

unfoldable pub closure_loop :
    Dict (List String) → List String → Dict (List String) → Dict (List String)
unfolding closure_from
closure_loop reverse [] closure = closure
closure_loop reverse (provider ∷ providers) closure =
    closure_loop reverse providers
      (insert provider (or_nil (closure_from reverse provider)) closure)

unfoldable pub reverse_dependency_closure : Dict (List String) → Dict (List String)
unfolding reverse_loop closure_loop keys
reverse_dependency_closure dependencies =
    let reverse = reverse_loop dependencies [] in closure_loop reverse (keys reverse) []
