-- ===== src/SnapshotDelta/Maps.antt =====
-- The dicts that `_diff` builds: each key once, and each item under its own key.
use patchhub.Prelude.{List, String, [], arith, eq_iff, if_keeps, none, refl, ◌==◌, ◌∷◌, ◌≡◌}
use patchhub.Dict.{Dict, insert, lookup, lookup-insert}
use patchhub.SnapshotDelta.{map_loop, to_map}

module _ {A : Type 0} where
  abbrev pub IsUnique : Dict A → Type 0
  IsUnique [] = Unit
  IsUnique ((k, v) ∷ d) = (lookup k d ≡ none) × IsUnique d

  abbrev pub IsKeyed : (A → String) → Dict A → Type 0
  IsKeyed key_fn [] = Unit
  IsKeyed key_fn ((k, v) ∷ d) = (key_fn v ≡ k) × IsKeyed key_fn d

  insert-IsUnique : (k : String) (v : A) (d : Dict A) → IsUnique d → IsUnique (insert k v d)
  unfolding insert lookup
  insert-IsUnique k v [] u = (refl, tt)
  insert-IsUnique k v ((j, w) ∷ d) (fresh, u) =
      if_keeps IsUnique (j == k) ((k, v) ∷ d) ((j, w) ∷ insert k v d)
        (λ e. (ground (arith, eq_iff j k), u))
        (λ ne.
          (ground (arith, lookup-insert k j v d, eq_iff j k, eq_iff k j), insert-IsUnique k v d u))

  insert-IsKeyed :
      (key_fn : A → String) (v : A) (d : Dict A)
      → IsKeyed key_fn d
      → IsKeyed key_fn (insert (key_fn v) v d)
  unfolding insert
  insert-IsKeyed key_fn v [] u = (refl, tt)
  insert-IsKeyed key_fn v ((j, w) ∷ d) (e, u) =
      if_keeps (IsKeyed key_fn) (j == key_fn v) ((key_fn v, v) ∷ d) ((j, w) ∷ insert (key_fn v) v d)
        (λ _. (refl, u)) (λ _. (e, insert-IsKeyed key_fn v d u))

  map_loop-IsUnique :
      (key_fn : A → String) (items : List A) (acc : Dict A)
      → IsUnique acc
      → IsUnique (map_loop key_fn items acc)
  unfolding map_loop
  map_loop-IsUnique key_fn [] acc u = u
  map_loop-IsUnique key_fn (item ∷ items) acc u =
      map_loop-IsUnique key_fn items (insert (key_fn item) item acc)
        (insert-IsUnique (key_fn item) item acc u)

  map_loop-IsKeyed :
      (key_fn : A → String) (items : List A) (acc : Dict A)
      → IsKeyed key_fn acc
      → IsKeyed key_fn (map_loop key_fn items acc)
  unfolding map_loop
  map_loop-IsKeyed key_fn [] acc u = u
  map_loop-IsKeyed key_fn (item ∷ items) acc u =
      map_loop-IsKeyed key_fn items (insert (key_fn item) item acc)
        (insert-IsKeyed key_fn item acc u)

  pub to_map-IsUnique : (key_fn : A → String) (items : List A) → IsUnique (to_map key_fn items)
  to_map-IsUnique key_fn items = map_loop-IsUnique key_fn items [] tt

  pub to_map-IsKeyed : (key_fn : A → String) (items : List A) → IsKeyed key_fn (to_map key_fn items)
  to_map-IsKeyed key_fn items = map_loop-IsKeyed key_fn items [] tt
