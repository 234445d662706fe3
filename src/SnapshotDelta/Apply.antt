-- ===== src/SnapshotDelta/Apply.antt =====
-- A client that applies a change to the items it had ends with the items of the current snapshot.
use patchhub.Prelude.{
  Bool, List, Option, String, [], arith, eq_iff, if_keeps, if◌then◌else◌, inl, inr, none, not, refl,
  some, true, ◌∷◌, ◌≡◌, ◌⊎◌,
}
use patchhub.Dict.{Dict, erase, insert, lookup, lookup-erase, lookup-insert}
use patchhub.SnapshotDelta.{Diff, added_loop, diff, differs, removed_loop, to_map, updated_loop}
use patchhub.SnapshotDelta.Maps.{IsKeyed, IsUnique, to_map-IsKeyed, to_map-IsUnique}

abbrev pick_updated : {A : Type 0} → (A → A → Bool) → Option A → Option A → Option A → Option A
pick_updated same b none old = old
pick_updated same b (some item) old = if differs same b item then some item else old

abbrev pick_added : {A : Type 0} → Option A → Option A → Option A → Option A
pick_added (some prev) found old = old
pick_added none none old = old
pick_added none (some item) old = some item

abbrev pick_removed : {A : Type 0} → Option A → Option A → Option A → Option A
pick_removed (some item) found old = old
pick_removed none none old = old
pick_removed none (some item) old = none

module _ {A : Type 0} (key_fn : A → String) where
  -- The client puts the items of a change under their keys.
  insert_all : List A → Dict A → Dict A
  insert_all [] d = d
  insert_all (item ∷ items) d = insert_all items (insert (key_fn item) item d)

  lookup-insert_all-added :
      (b es m : Dict A) (j : String)
      → IsUnique es
      → IsKeyed key_fn es
      → lookup j (insert_all (added_loop b es) m)
        ≡ pick_added (lookup j b) (lookup j es) (lookup j m)
  unfolding insert_all added_loop lookup
  lookup-insert_all-added b [] m j u k = ground arith
  lookup-insert_all-added b ((key, item) ∷ rest) m j (fresh, u) (own, k) = ground (
    arith,
    eq_iff key j,
    lookup-insert (key_fn item) j item m,
    eq_iff (key_fn item) j,
    lookup-insert_all-added b rest m j u k,
    lookup-insert_all-added b rest (insert (key_fn item) item m) j u k,
  )

  lookup-insert_all-updated :
      (same : A → A → Bool) (b es m : Dict A) (j : String)
      → IsUnique es
      → IsKeyed key_fn es
      → lookup j (insert_all (updated_loop same b es) m)
        ≡ pick_updated same (lookup j b) (lookup j es) (lookup j m)
  unfolding insert_all updated_loop lookup
  lookup-insert_all-updated same b [] m j u k = refl
  lookup-insert_all-updated same b ((key, item) ∷ rest) m j (fresh, u) (own, k) = ground (
    arith,
    eq_iff key j,
    lookup-insert (key_fn item) j item m,
    eq_iff (key_fn item) j,
    lookup-insert_all-updated same b rest m j u k,
    lookup-insert_all-updated same b rest (insert (key_fn item) item m) j u k,
  )

module _ {A R : Type 0} (removed_key : R → String) where
  -- The client drops what a removed entry names.
  erase_all : List R → Dict A → Dict A
  erase_all [] d = d
  erase_all (r ∷ rs) d = erase_all rs (erase (removed_key r) d)

  lookup-erase_all :
      (key_fn : A → String) (removed_fn : A → R) (after_map es m : Dict A) (j : String)
      → ((item : A) → removed_key (removed_fn item) ≡ key_fn item)
      → IsKeyed key_fn es
      → lookup j (erase_all (removed_loop removed_fn after_map es) m)
        ≡ pick_removed (lookup j after_map) (lookup j es) (lookup j m)
  unfolding erase_all removed_loop lookup
  lookup-erase_all key_fn removed_fn after_map [] m j law k = ground arith
  lookup-erase_all key_fn removed_fn after_map ((key, item) ∷ rest) m j law (own, k) = ground (
    arith,
    law item,
    eq_iff key j,
    lookup-erase (removed_key (removed_fn item)) j m,
    eq_iff (removed_key (removed_fn item)) j,
    lookup-erase_all key_fn removed_fn after_map rest m j law k,
    lookup-erase_all key_fn removed_fn after_map rest (erase (removed_key (removed_fn item)) m) j
        law k,
  )

-- The client's side of a change.
pub apply_diff : {A R : Type 0} → (A → String) → (R → String) → Diff A R → Dict A → Dict A
unfolding insert_all erase_all
apply_diff key_fn removed_key d m =
    insert_all key_fn d.updated (insert_all key_fn d.added (erase_all removed_key d.removed m))

-- Both lack an item, or both have it, up to the equality by which the store compares.
abbrev pub Agrees : {A : Type 0} → (A → A → Bool) → Option A → Option A → Type 0
Agrees same none none = Unit
Agrees same (some a) (some b) = (a ≡ b) ⊎ (same a b ≡ true)
Agrees same _ _ = ⊥

agreement :
    {A : Type 0} (same : A → A → Bool) (b a : Option A)
    → Agrees same (pick_updated same b a (pick_added b a (pick_removed a b b))) a
agreement same none none = tt
agreement same none (some item) = inl refl
agreement same (some prev) none = tt
agreement {A} same (some prev) (some item) =
    if_keeps (λ (o : Option A). Agrees same o (some item)) (not (same prev item)) _ _
      (λ _. inl refl) (λ e. inr (ground arith))

-- Applied to the items of the earlier snapshot, the change gives under every key the item of the
-- later one, up to `==`, whatever keys come twice in the lists. The removed entries must name the
-- keys of their items.
pub diff-Agrees :
    {A R : Type 0} (same : A → A → Bool) (key_fn : A → String) (removed_fn : A → R)
    (removed_key : R → String) (include_order : Bool) (before after : List A) (j : String)
    → ((item : A) → removed_key (removed_fn item) ≡ key_fn item)
    → Agrees same
        (lookup j (
          apply_diff key_fn removed_key
            (diff same key_fn removed_fn include_order before after)
            (to_map key_fn before)))
        (lookup j (to_map key_fn after))
unfolding diff apply_diff
diff-Agrees same key_fn removed_fn removed_key include_order before after j law =
    let b = to_map key_fn before in
    let a = to_map key_fn after in
    let m₁ = erase_all removed_key (removed_loop removed_fn a b) b in
    let m₂ = insert_all key_fn (added_loop b a) m₁ in
    let e₁ =
      lookup-erase_all removed_key key_fn removed_fn a b b j law (to_map-IsKeyed key_fn before) in
    let e₂ =
      lookup-insert_all-added key_fn b a m₁ j (to_map-IsUnique key_fn after)
        (to_map-IsKeyed key_fn after) in
    let e₃ =
      lookup-insert_all-updated key_fn same b a m₂ j (to_map-IsUnique key_fn after)
        (to_map-IsKeyed key_fn after) in
    rw (e₃, e₂, e₁) (agreement same (lookup j b) (lookup j a))
