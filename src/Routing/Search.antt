-- ===== src/Routing/Search.antt =====
-- The search ends, and finds exactly what can be reached from its start, each once.
use mathlib.Core.Path.{subst}
use patchhub.Prelude.{
  Bool, Bool-cases, List, String, [], ap, arith, contains, contains-append, contains-append_all,
  contains_cons, contains_nil, eq_iff, eq_refl, false, if◌then◌else◌, inl, inr, is_distinct,
  is_distinct-append, length, length-append, refl, some, suc, true, zero, ℕ, ◌++◌, ◌+◌, ◌<◌, ◌||◌,
  ◌∙◌, ◌∷◌, ◌≡◌, ◌≤◌,
}
use patchhub.Dict.{Dict, lookup}
use patchhub.Routing.Closure.{bfs, edges, members_of, or_nil}

-- The members that are still to be read.
abbrev pub pending : List String → Dict (List String) → ℕ
pending seen [] = 0
pending seen ((k, ms) ∷ r) = (if contains seen k then 0 else length ms) + pending seen r

pending_mono :
    (c : String) (seen : List String) (r : Dict (List String))
    → pending (c ∷ seen) r ≤ pending seen r
pending_mono c seen [] = omega arith
pending_mono c seen ((k, ms) ∷ r) = ground (arith, contains_cons c seen k, pending_mono c seen r)

pending_step :
    (c : String) (seen : List String) (r : Dict (List String))
    → contains seen c ≡ false
    → pending (c ∷ seen) r + length (members_of r c) ≤ pending seen r
unfolding members_of lookup
pending_step c seen [] h = omega arith
pending_step c seen ((k, ms) ∷ r) h = ground (
  arith,
  contains_cons c seen k,
  eq_iff k c,
  eq_iff c k,
  pending_mono c seen r,
  pending_step c seen r h,
)

pub pending_nil : (r : Dict (List String)) → pending [] r ≡ edges r
unfolding edges contains
pending_nil [] = refl
pending_nil ((k, ms) ∷ r) = ground (arith, pending_nil r)

module _ (reverse : Dict (List String)) where
  pub bfs-total :
      (fuel : ℕ) (queue seen ordered : List String)
      → length queue + pending seen reverse < fuel
      → (r : List String) × (bfs reverse fuel queue seen ordered ≡ some r)
  unfolding bfs
  bfs-total zero queue seen ordered h = absurd (omega arith)
  bfs-total (suc fuel) [] seen ordered h = (ordered, refl)
  bfs-total (suc fuel) (current ∷ queue) seen ordered h =
      elim (Bool-cases (contains seen current)) [
        | inl e ↦ rw e (bfs-total fuel queue seen ordered (omega arith))
        | inr ne ↦ rw ne (
            bfs-total fuel (queue ++ members_of reverse current) (current ∷ seen)
              (ordered ++ (current ∷ []))
              (omega (
                arith,
                length-append queue (members_of reverse current),
                pending_step current seen reverse ne,
              )))
      ]

  -- What the search can come to from its start.
  pub data From (starts : List String) : String → Type 0 where
    at_start : {x : String} → contains starts x ≡ true → From starts x
    onward :
        {x y : String} → From starts x → contains (members_of reverse x) y ≡ true → From starts y

  abbrev pub Within : List String → List String → Type 0
  Within starts xs = (x : String) → contains xs x ≡ true → From starts x

  Within-append :
      (starts xs ys : List String) → Within starts xs → Within starts ys → Within starts (xs ++ ys)
  Within-append starts xs ys f g x h = elim (Bool-cases (contains xs x)) [
    | inl e ↦ f x e
    | inr ne ↦ g x (ground (arith, contains-append_all xs ys x))
  ]

  pub bfs-Within :
      (starts : List String) (fuel : ℕ) (queue seen ordered : List String) {r : List String}
      → bfs reverse fuel queue seen ordered ≡ some r
      → Within starts queue
      → Within starts ordered
      → Within starts r
  unfolding bfs
  bfs-Within starts zero queue seen ordered e f g = cc
  bfs-Within starts (suc fuel) [] seen ordered e f g =
      subst (λ xs. Within starts xs) (ap or_nil e) g
  bfs-Within starts (suc fuel) (current ∷ queue) seen ordered e f g =
      let later : Within starts queue =
        λ x h. f x (ground (arith, contains_cons current queue x)) in
      let now : From starts current =
        f current (ground (arith, contains_cons current queue current, eq_refl current)) in
      let one : Within starts (current ∷ []) = λ x h.
        subst (λ y. From starts y)
          ((eq_iff current x).0 (ground (arith, contains_cons current [] x, contains_nil x))) now in
      elim (Bool-cases (contains seen current)) [
        | inl s ↦ bfs-Within starts fuel queue seen ordered (rw s at e) later g
        | inr ns ↦
            bfs-Within starts fuel (queue ++ members_of reverse current) (current ∷ seen)
              (ordered ++ (current ∷ [])) (rw ns at e)
              (Within-append starts queue (members_of reverse current) later (λ x h. onward now h))
              (Within-append starts ordered (current ∷ []) g one)
      ]

  abbrev pub covers : List String → List String → String → Bool
  covers seen queue x = contains seen x || contains queue x

  -- What the search has seen is closed, up to what waits in the queue.
  pub record IsClosing (starts queue seen ordered : List String) : Type 0 where
    pub started : (x : String) → contains starts x ≡ true → covers seen queue x ≡ true
    pub closed :
        (x y : String)
        → contains seen x ≡ true
        → contains (members_of reverse x) y ≡ true
        → covers seen queue y ≡ true
    pub listed : (x : String) → contains ordered x ≡ contains seen x
    pub once : is_distinct ordered ≡ true

  abbrev pub IsClosed : List String → List String → Type 0
  IsClosed starts r =
      (is_distinct r ≡ true)
      × ((x : String) → contains starts x ≡ true → contains r x ≡ true)
      × ((x y : String)
          → contains r x ≡ true
          → contains (members_of reverse x) y ≡ true
          → contains r y ≡ true)

  IsClosing-again :
      (starts : List String) (current : String) (queue seen ordered : List String)
      → contains seen current ≡ true
      → IsClosing starts (current ∷ queue) seen ordered
      → IsClosing starts queue seen ordered
  IsClosing-again starts current queue seen ordered s v = record {
    started = λ x h. ground (arith, v.started x h, contains_cons current queue x, eq_iff current x);
    closed = λ x y h m.
        ground (arith, v.closed x y h m, contains_cons current queue y, eq_iff current y);
    listed = v.listed;
    once = v.once;
  }

  IsClosing-next :
      (starts : List String) (current : String) (queue seen ordered : List String)
      → contains seen current ≡ false
      → IsClosing starts (current ∷ queue) seen ordered
      → IsClosing starts
          (queue ++ members_of reverse current)
          (current ∷ seen)
          (ordered ++ (current ∷ []))
  IsClosing-next starts current queue seen ordered ns v = record {
    started = λ x h. ground (
      arith,
      v.started x h,
      contains_cons current queue x,
      contains_cons current seen x,
      contains-append_all queue (members_of reverse current) x,
    );
    closed = λ x y h m. ground (
      arith,
      v.closed x y,
      contains_cons current seen x,
      contains_cons current queue y,
      contains_cons current seen y,
      eq_iff current x,
      contains-append_all queue (members_of reverse current) y,
    );
    listed = λ x.
        ground (arith, v.listed x, contains-append ordered current x, contains_cons current seen x);
    once = is_distinct-append ordered current v.once (v.listed current ∙ ns);
  }

  pub bfs-IsClosed :
      (starts : List String) (fuel : ℕ) (queue seen ordered : List String) {r : List String}
      → bfs reverse fuel queue seen ordered ≡ some r
      → IsClosing starts queue seen ordered
      → IsClosed starts r
  unfolding bfs
  bfs-IsClosed starts zero queue seen ordered e v = cc
  bfs-IsClosed starts (suc fuel) [] seen ordered e v =
      subst (λ xs. IsClosed starts xs) (ap or_nil e)
        (
          v.once,
          (λ x h. ground (arith, v.started x h, v.listed x, contains_nil x)),
          (λ x y h m. ground (arith, v.closed x y, v.listed x, v.listed y, contains_nil y)),
        )
  bfs-IsClosed starts (suc fuel) (current ∷ queue) seen ordered e v =
      elim (Bool-cases (contains seen current)) [
        | inl s ↦
            bfs-IsClosed starts fuel queue seen ordered (rw s at e)
              (IsClosing-again starts current queue seen ordered s v)
        | inr ns ↦
            bfs-IsClosed starts fuel (queue ++ members_of reverse current) (current ∷ seen)
              (ordered ++ (current ∷ [])) (rw ns at e)
              (IsClosing-next starts current queue seen ordered ns v)
      ]

  pub From-contains :
      (starts r : List String) {x : String}
      → IsClosed starts r
      → From starts x
      → contains r x ≡ true
  From-contains starts r c (at_start {x} h) = c.1 x h
  From-contains starts r c (onward {x} {y} f m) = c.2 x y (From-contains starts r c f) m
