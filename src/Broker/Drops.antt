-- ===== src/Broker/Drops.antt =====
-- The count of the dropped items, and the end mark.
use patchhub.Prelude.{
  Bool, List, String, [], ap, arith, drop, drop-append, false, if◌then◌else◌, keep_last, length,
  length-append, none, refl, some, true, ℕ, ◌++◌, ◌+◌, ◌-◌, ◌<◌, ◌∷◌, ◌≡◌,
}
use patchhub.Broker.{
  Broker, Item, Subscriber, close, close_loop, enqueue_item, publish, publish_loop, yielded,
}
use patchhub.Broker.Queues.{IsBounded, enqueue_item_lem}

abbrev pub Each : (Subscriber → Subscriber → Type 0) → List Subscriber → List Subscriber → Type 0
Each R [] [] = Unit
Each R (s ∷ ss) (t ∷ ts) = R s t × Each R ss ts
Each R _ _ = ⊥

-- What `publish` does to a subscriber `s`, which becomes `t`.
abbrev pub Takes : ℕ → Item → Subscriber → Subscriber → Type 0
Takes limit item s t =
    if s.listed
    then (t.queue ≡ keep_last limit (s.queue ++ (item ∷ []))) × (t.id ≡ s.id) × (t.listed ≡ true)
    else (t ≡ s)

-- How many items the listed queues have no room for, if each is given one more.
abbrev pub overflow : ℕ → List Subscriber → ℕ
overflow limit [] = 0
overflow limit (s ∷ rest) =
    (if s.listed then length s.queue + 1 - limit else 0) + overflow limit rest

enqueue_item-overflow :
    (limit : ℕ) (q : List Item) (item : Item)
    → 0 < limit
    → ((enqueue_item limit q item).ok ≡ true)
      × ((enqueue_item limit q item).dropped ≡ length q + 1 - limit)
enqueue_item-overflow limit q item h =
    rw (enqueue_item_lem limit q item h) (refl, omega (arith, length-append q (item ∷ [])))

publish_one :
    (limit : ℕ) (item : Item) (s : Subscriber) (b : Bool)
    → 0 < limit
    → s.listed ≡ b
    → let t : Subscriber =
        if b then record s { queue = (enqueue_item limit s.queue item).queue } else s in
      if b
      then (t.queue ≡ keep_last limit (s.queue ++ (item ∷ []))) × (t.id ≡ s.id) × (t.listed ≡ true)
      else (t ≡ s)
publish_one limit item s true h listed =
    (ap (λ r. r.queue) (enqueue_item_lem limit s.queue item h), refl, listed)
publish_one limit item s false h listed = refl

publish_loop-Each :
    (limit : ℕ) (item : Item) (subs : List Subscriber) (total : ℕ)
    → 0 < limit
    → Each (Takes limit item) subs (publish_loop limit item subs total).0
unfolding publish_loop
publish_loop-Each limit item [] total h = tt
publish_loop-Each limit item (s ∷ rest) total h =
    (publish_one limit item s s.listed h refl, publish_loop-Each limit item rest _ h)

publish_loop-overflow :
    (limit : ℕ) (item : Item) (subs : List Subscriber) (total : ℕ)
    → 0 < limit
    → (publish_loop limit item subs total).1 ≡ total + overflow limit subs
unfolding publish_loop
publish_loop-overflow limit item [] total h = omega arith
publish_loop-overflow limit item (s ∷ rest) total h = ground (
  arith,
  enqueue_item-overflow limit s.queue item h,
  publish_loop-overflow limit item rest total h,
  publish_loop-overflow limit item rest (total + (enqueue_item limit s.queue item).dropped) h,
)

-- At an open broker in bounds a published event is put last in every listed queue, which keeps the
-- last of its items up to the queue size, a queue that is not listed stays as it is, and the
-- count of the dropped items grows by exactly the items that the full queues lose.
pub publish-Each :
    (b : Broker) (raw : String) (k : ℕ)
    → IsBounded b
    → b.closed ≡ false
    → Each
        (Takes b.max_queue_items (some (record { offset = k; line = raw })))
        b.subs
        (publish b raw k).subs
      × ((publish b raw k).dropped_total ≡ b.dropped_total + overflow b.max_queue_items b.subs)
unfolding publish
publish-Each b raw k v h = rw h (
  publish_loop-Each b.max_queue_items _ b.subs b.dropped_total v.queue_room,
  publish_loop-overflow b.max_queue_items _ b.subs b.dropped_total v.queue_room,
)

-- What `close` does to a subscriber `s`, which becomes `t`.
abbrev pub Closes : ℕ → Subscriber → Subscriber → Type 0
Closes limit s t =
    if s.listed
    then (t.queue ≡ keep_last limit (s.queue ++ (none ∷ [])))
      × ((yielded t.queue).1 ≡ true)
      × (t.listed ≡ false)
    else (t ≡ s)

yielded-end : (q : List Item) → (yielded (q ++ (none ∷ []))).1 ≡ true
unfolding yielded
yielded-end [] = refl
yielded-end (none ∷ q) = refl
yielded-end (some e ∷ q) = yielded-end q

yielded-keep_last :
    (limit : ℕ) (q : List Item)
    → 0 < limit
    → (yielded (keep_last limit (q ++ (none ∷ [])))).1 ≡ true
yielded-keep_last limit q h =
    rw
      (drop-append (length (q ++ (none ∷ [])) - limit) q (none ∷ [])
        (omega (arith, length-append q (none ∷ []))))
      (yielded-end (drop (length (q ++ (none ∷ [])) - limit) q))

close_one :
    (limit : ℕ) (s : Subscriber) (b : Bool)
    → 0 < limit
    → let t : Subscriber =
        if b
        then record s { queue = (enqueue_item limit s.queue none).queue; listed = false }
        else s in
      if b
      then (t.queue ≡ keep_last limit (s.queue ++ (none ∷ [])))
        × ((yielded t.queue).1 ≡ true)
        × (t.listed ≡ false)
      else (t ≡ s)
close_one limit s true h =
    rw (enqueue_item_lem limit s.queue none h) (refl, yielded-keep_last limit s.queue h, refl)
close_one limit s false h = refl

close_loop-Each :
    (limit : ℕ) (subs : List Subscriber) (total : ℕ)
    → 0 < limit
    → Each (Closes limit) subs (close_loop limit subs total).0
unfolding close_loop
close_loop-Each limit [] total h = tt
close_loop-Each limit (s ∷ rest) total h =
    (close_one limit s s.listed h, close_loop-Each limit rest _ h)

-- Closing an open broker in bounds ends every stream: each listed queue gets the end mark behind the items
-- that still fit before it, so its generator returns; a queue that is not listed stays as it is.
pub close-Each :
    (b : Broker)
    → IsBounded b
    → b.closed ≡ false
    → Each (Closes b.max_queue_items) b.subs (close b).subs
unfolding close
close-Each b v h = rw h (close_loop-Each b.max_queue_items b.subs b.dropped_total v.queue_room)
