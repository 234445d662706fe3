-- ===== src/Routing/Reach.antt =====
-- The closure of the dependencies holds exactly the namespaces that depend on the provider, at
-- whatever distance.
use patchhub.Prelude.{
  Bool-cases, List, String, [], arith, contains, eq_iff, false, if◌then◌else◌, inl, inr,
  is_distinct, length, refl, some, suc, sym, true, ℕ, ◌+◌, ◌↔◌, ◌∙◌, ◌∷◌, ◌≡◌,
}
use patchhub.Dict.{Dict, insert, keys, lookup}
use patchhub.Routing.Closure.{
  bfs, closure_from, closure_loop, edges, members_of, or_nil, reverse_dependency_closure,
  reverse_loop,
}
use patchhub.Routing.Reverse.{contains-reverse_loop, depends_on, members_of-insert}
use patchhub.Routing.Search.{
  From, From-contains, IsClosed, IsClosing, at_start, bfs-IsClosed, bfs-Within, bfs-total, onward,
  pending_nil,
}

-- `x` depends on the provider, or on something that does.
pub data DependsOn (deps : Dict (List String)) (provider : String) : String → Type 0 where
  directly : {x : String} → depends_on deps x provider ≡ true → DependsOn deps provider x
  through :
      {x y : String}
      → DependsOn deps provider x
      → depends_on deps y x ≡ true
      → DependsOn deps provider y

module _ (reverse : Dict (List String)) (p : String) where
  abbrev starts : List String
  starts = members_of reverse p

  closure_from-runs : (r : List String) × (closure_from reverse p ≡ some r)
  unfolding closure_from
  closure_from-runs =
      bfs-total reverse (suc (length starts + edges reverse)) starts [] []
        (omega (arith, pending_nil reverse))

  starting : IsClosing reverse starts starts [] []
  unfolding contains is_distinct
  starting = record {
    started = λ x h. ground arith;
    closed = λ x y h m. cc;
    listed = λ x. refl;
    once = refl;
  }

  closure_from-From :
      (x : String)
      → (contains (or_nil (closure_from reverse p)) x ≡ true → From reverse starts x)
        × (From reverse starts x → contains (or_nil (closure_from reverse p)) x ≡ true)
        × (is_distinct (or_nil (closure_from reverse p)) ≡ true)
  unfolding closure_from contains
  closure_from-From x =
      let fuel : ℕ = suc (length starts + edges reverse) in
      let (r, runs) = closure_from-runs in
      let closed : IsClosed reverse starts r =
        bfs-IsClosed reverse starts fuel starts [] [] runs starting in
      let within : (y : String) → contains r y ≡ true → From reverse starts y =
        bfs-Within reverse starts fuel starts [] [] runs (λ y h. at_start h) (λ y h. cc) in
      rw runs (within x, (λ f. From-contains reverse starts r closed f), closed.0)

members_of-closure_loop :
    (reverse : Dict (List String)) (ks : List String) (closure : Dict (List String)) (p : String)
    → members_of (closure_loop reverse ks closure) p
      ≡ (if contains ks p then or_nil (closure_from reverse p) else members_of closure p)
unfolding closure_loop contains
members_of-closure_loop reverse [] closure p = refl
members_of-closure_loop reverse (k ∷ ks) closure p = ground (
  arith,
  eq_iff k p,
  members_of-closure_loop reverse ks (insert k (or_nil (closure_from reverse k)) closure) p,
  members_of-insert k p (or_nil (closure_from reverse k)) closure,
)

members_of-none :
    (r : Dict (List String)) (p : String) → contains (keys r) p ≡ false → members_of r p ≡ []
unfolding members_of lookup keys contains
members_of-none [] p h = refl
members_of-none ((k, ms) ∷ r) p h = ground (arith, members_of-none r p)

-- A provider without dependents has an empty closure, by the search too.
closure_from-none :
    (reverse : Dict (List String)) (p : String)
    → members_of reverse p ≡ []
    → or_nil (closure_from reverse p) ≡ []
unfolding closure_from bfs
closure_from-none reverse p e = rw e refl

members_of-closure :
    (deps : Dict (List String)) (p : String)
    → members_of (reverse_dependency_closure deps) p
      ≡ or_nil (closure_from (reverse_loop deps []) p)
unfolding reverse_dependency_closure members_of lookup
members_of-closure deps p =
    let reverse = reverse_loop deps [] in
    elim (Bool-cases (contains (keys reverse) p)) [
      | inl e ↦ members_of-closure_loop reverse (keys reverse) [] p ∙ rw e refl
      | inr ne ↦
          members_of-closure_loop reverse (keys reverse) [] p
          ∙ rw ne (sym (closure_from-none reverse p (members_of-none reverse p ne)))
    ]

depends_on-members :
    (deps : Dict (List String)) (p x : String)
    → contains (members_of (reverse_loop deps []) p) x ≡ depends_on deps x p
unfolding members_of lookup contains
depends_on-members deps p x = contains-reverse_loop deps [] p x

From-DependsOn :
    (deps : Dict (List String)) (p : String) {x : String}
    → From (reverse_loop deps []) (members_of (reverse_loop deps []) p) x
    → DependsOn deps p x
From-DependsOn deps p (at_start {x} h) = directly (sym (depends_on-members deps p x) ∙ h)
From-DependsOn deps p (onward {x} {y} f m) =
    through (From-DependsOn deps p f) (sym (depends_on-members deps x y) ∙ m)

DependsOn-From :
    (deps : Dict (List String)) (p : String) {x : String}
    → DependsOn deps p x
    → From (reverse_loop deps []) (members_of (reverse_loop deps []) p) x
DependsOn-From deps p (directly {x} h) = at_start (depends_on-members deps p x ∙ h)
DependsOn-From deps p (through {x} {y} d h) =
    onward (DependsOn-From deps p d) (depends_on-members deps x y ∙ h)

-- The closure lists under every provider, each once, exactly the namespaces that depend on it,
-- directly or through others.
pub reverse_dependency_closure-DependsOn :
    (deps : Dict (List String)) (provider x : String)
    → (is_distinct (members_of (reverse_dependency_closure deps) provider) ≡ true)
      × (contains (members_of (reverse_dependency_closure deps) provider) x ≡ true
          ↔ DependsOn deps provider x)
reverse_dependency_closure-DependsOn deps provider x =
    let (to, from, once) = closure_from-From (reverse_loop deps []) provider x in
    rw (members_of-closure deps provider) (
      once,
      ((λ h. From-DependsOn deps provider (to h)), (λ d. from (DependsOn-From deps provider d))),
    )

-- The search of every provider ends within its fuel.
pub closure_from-ends :
    (reverse : Dict (List String)) (provider : String)
    → (r : List String) × (closure_from reverse provider ≡ some r)
closure_from-ends reverse provider = closure_from-runs reverse provider
