-- ===== src/Routing/Reverse.antt =====
-- The reversed dependencies list the dependents of every provider.
use patchhub.Prelude.{
  Bool, List, String, [], arith, contains, contains-append, eq_iff, false, if◌then◌else◌, ◌&&◌,
  ◌++◌, ◌==◌, ◌||◌, ◌∷◌, ◌≡◌,
}
use patchhub.Dict.{Dict, insert, lookup-insert}
use patchhub.Routing.Closure.{add_member, members_of, providers_loop, reverse_loop}
use patchhub.Routing.Config.{namespace_stem}

-- A list of providers has `p`, and `x` names `p` as a provider.
abbrev pub provides : List String → String → Bool
provides [] p = false
provides (provider ∷ rest) p = namespace_stem provider == p || provides rest p

abbrev pub depends_on : Dict (List String) → String → String → Bool
depends_on [] x p = false
depends_on ((dependent, providers) ∷ rest) x p =
    (namespace_stem dependent == x && provides providers p) || depends_on rest x p

pub members_of-insert :
    (k p : String) (ms : List String) (r : Dict (List String))
    → members_of (insert k ms r) p ≡ (if k == p then ms else members_of r p)
unfolding members_of
members_of-insert k p ms r = ground (arith, lookup-insert k p ms r)

contains-add_member :
    (d q : String) (r : Dict (List String)) (p x : String)
    → contains (members_of (add_member d q r) p) x
      ≡ (contains (members_of r p) x || (q == p && d == x))
unfolding add_member
contains-add_member d q r p x =
    let ms = members_of r q in
    ground (
      arith,
      members_of-insert q p (if contains ms d then ms else ms ++ (d ∷ [])) r,
      contains-append ms d x,
      eq_iff q p,
      eq_iff d x,
    )

contains-providers_loop :
    (d : String) (providers : List String) (r : Dict (List String)) (p x : String)
    → contains (members_of (providers_loop d providers r) p) x
      ≡ (contains (members_of r p) x || (d == x && provides providers p))
unfolding providers_loop
contains-providers_loop d [] r p x = ground arith
contains-providers_loop d (q ∷ providers) r p x = ground (
  arith,
  contains-providers_loop d providers (add_member d (namespace_stem q) r) p x,
  contains-add_member d (namespace_stem q) r p x,
)

pub contains-reverse_loop :
    (deps r : Dict (List String)) (p x : String)
    → contains (members_of (reverse_loop deps r) p) x
      ≡ (contains (members_of r p) x || depends_on deps x p)
unfolding reverse_loop
contains-reverse_loop [] r p x = ground arith
contains-reverse_loop ((dependent, providers) ∷ deps) r p x = ground (
  arith,
  contains-reverse_loop deps (providers_loop (namespace_stem dependent) providers r) p x,
  contains-providers_loop (namespace_stem dependent) providers r p x,
)
