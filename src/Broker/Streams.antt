-- ===== src/Broker/Streams.antt =====
-- What a subscriber reads: the replay and the live events.
use Prim.Native.Nat.{max}
use mathlib.Core.Path.{ap₂, subst}
use patchhub.Prelude.{
  Bool-cases, List, Option, String, [], ap, append-nil, append_assoc, arith, drop, eqb, false,
  if◌then◌else◌, inl, inr, keep_last, keep_last-keep_last, length, ltb, map, none, refl, some, suc,
  sym, zero, ℕ, ◌&&◌, ◌++◌, ◌+◌, ◌-◌, ◌<◌, ◌∙◌, ◌∷◌, ◌≡◌, ◌≤◌,
}
use patchhub.Broker.{
  Broker, Event, Item, Subscriber, enqueue_item, generated, new_broker, publish, publish_loop,
  replay_after, subscribe, yielded,
}
use patchhub.Broker.Queues.{enqueue_item_lem}

-- Events published in turn.
pub publish_all : Broker → List Event → Broker
publish_all b [] = b
publish_all b (e ∷ es) = publish_all (publish b e.line e.offset) es

-- The queue of the first subscriber of that name that the broker lists.
abbrev pub held : ℕ → List Subscriber → Option (List Item)
held id [] = none
held id (s ∷ rest) = if eqb s.id id && s.listed then some s.queue else held id rest

abbrev push : ℕ → Item → Option (List Item) → Option (List Item)
push limit item none = none
push limit item (some q) = some (keep_last limit (q ++ (item ∷ [])))

held-publish_loop :
    (id limit : ℕ) (item : Item) (subs : List Subscriber) (total : ℕ)
    → 0 < limit
    → held id (publish_loop limit item subs total).0 ≡ push limit item (held id subs)
unfolding publish_loop
held-publish_loop id limit item [] total h = refl
held-publish_loop id limit item (s ∷ rest) total h = ground (
  arith,
  enqueue_item_lem limit s.queue item h,
  held-publish_loop id limit item rest total h,
  held-publish_loop id limit item rest (total + (enqueue_item limit s.queue item).dropped) h,
)

-- One event at an open broker: what it leaves alone, the retained events, and a listed queue.
module _ (b : Broker) (e : Event) (h : b.closed ≡ false) where
  abbrev after : Broker
  after = publish b e.line e.offset

  publish-closed : after.closed ≡ false
  unfolding publish
  publish-closed = ground arith

  publish-sizes :
      (after.max_queue_items ≡ b.max_queue_items) × (after.max_replay_items ≡ b.max_replay_items)
  unfolding publish
  publish-sizes = ground arith

  publish-recent : after.recent ≡ keep_last b.max_replay_items (b.recent ++ (e ∷ []))
  unfolding publish
  publish-recent = rw h

  publish-held :
      (id : ℕ)
      → 0 < b.max_queue_items
      → held id after.subs ≡ push b.max_queue_items (some e) (held id b.subs)
  unfolding publish
  publish-held id k =
      rw h (held-publish_loop id b.max_queue_items (some e) b.subs b.dropped_total k)

abbrev pub Retains : Broker → ℕ → List Event → Type 0
Retains b limit history =
    (b.closed ≡ false) × (b.max_replay_items ≡ limit) × (b.recent ≡ keep_last limit history)

Retains-publish_all :
    (b : Broker) (limit : ℕ) (history es : List Event)
    → Retains b limit history
    → Retains (publish_all b es) limit (history ++ es)
unfolding publish_all
Retains-publish_all b limit history [] r = rw append-nil r
Retains-publish_all b limit history (e ∷ es) (h, k, r) =
    let step : Retains (publish b e.line e.offset) limit (history ++ (e ∷ [])) = (
      publish-closed b e h,
      (publish-sizes b e h).1 ∙ k,
      publish-recent b e h
          ∙ ap₂ (λ n l. keep_last n (l ++ (e ∷ []))) k r
          ∙ keep_last-keep_last limit history (e ∷ []),
    ) in
    rw (append_assoc history (e ∷ []) es) at
      (Retains-publish_all (publish b e.line e.offset) limit (history ++ (e ∷ [])) es step)

-- The subscriber `id` of an open broker holds the last `limit` of the items `sent` to it.
abbrev pub Holds : Broker → ℕ → ℕ → List Item → Type 0
Holds b id limit sent =
    (b.closed ≡ false)
    × (b.max_queue_items ≡ limit)
    × (held id b.subs ≡ some (keep_last limit sent))

Holds-publish_all :
    (b : Broker) (id limit : ℕ) (sent : List Item) (es : List Event)
    → 0 < limit
    → Holds b id limit sent
    → Holds (publish_all b es) id limit (sent ++ map some es)
unfolding publish_all
Holds-publish_all b id limit sent [] room r = rw append-nil r
Holds-publish_all b id limit sent (e ∷ es) room (h, k, r) =
    let step : Holds (publish b e.line e.offset) id limit (sent ++ (some e ∷ [])) = (
      publish-closed b e h,
      (publish-sizes b e h).0 ∙ k,
      publish-held b e h id (omega arith)
          ∙ ap (push b.max_queue_items (some e)) r
          ∙ ap (λ n. some (keep_last n (keep_last limit sent ++ (some e ∷ [])))) k
          ∙ ap some (keep_last-keep_last limit sent (some e ∷ [])),
    ) in
    rw (append_assoc sent (some e ∷ []) (map some es)) at
      (Holds-publish_all (publish b e.line e.offset) id limit (sent ++ (some e ∷ [])) es room step)

queue_size-publish_all :
    (b : Broker) (es : List Event)
    → b.closed ≡ false
    → (publish_all b es).max_queue_items ≡ b.max_queue_items
unfolding publish_all
queue_size-publish_all b [] h = refl
queue_size-publish_all b (e ∷ es) h =
    queue_size-publish_all (publish b e.line e.offset) es (publish-closed b e h)
    ∙ (publish-sizes b e h).0

Retains-new_broker : (m n : ℕ) → Retains (new_broker m n) (max 1 n) []
unfolding new_broker
Retains-new_broker m n = (refl, refl, ground arith)

queue_size-new_broker : (m n : ℕ) → (new_broker m n).max_queue_items ≡ max 1 m
unfolding new_broker
queue_size-new_broker m n = refl

Holds-subscribe :
    (b : Broker) (id k limit : ℕ)
    → b.closed ≡ false
    → b.max_queue_items ≡ limit
    → Holds (subscribe b id k).2 id limit []
unfolding subscribe
Holds-subscribe b id k limit h e = ground arith

drop-map : (n : ℕ) (es : List Event) → drop n (map some es) ≡ map some (drop n es)
drop-map zero es = refl
drop-map (suc n) [] = refl
drop-map (suc n) (e ∷ es) = drop-map n es

length-map : (es : List Event) → length (map some es) ≡ length es
length-map [] = refl
length-map (e ∷ es) = ap suc (length-map es)

keep_last-map : (n : ℕ) (es : List Event) → keep_last n (map some es) ≡ map some (keep_last n es)
keep_last-map n es = rw (length-map es) (drop-map (length es - n) es)

-- The events after an offset: the second list is the first without those up to the offset.
pub data Follows (k : ℕ) : List Event → List Event → Type 0 where
  nothing : Follows k [] []
  taken :
      {e : Event} {es out : List Event}
      → k < e.offset
      → Follows k es out
      → Follows k (e ∷ es) (e ∷ out)
  skipped :
      {e : Event} {es out : List Event} → e.offset ≤ k → Follows k es out → Follows k (e ∷ es) out

replay_after-Follows : (k : ℕ) (es : List Event) → Follows k es (replay_after k es)
replay_after-Follows k [] = nothing
replay_after-Follows k (e ∷ es) =
    let rest = replay_after-Follows k es in
    elim (Bool-cases (ltb k e.offset)) [
      | inl later ↦ rw later (taken (ground (arith, later)) rest)
      | inr passed ↦ rw passed (skipped (ground (arith, passed)) rest)
    ]

abbrev pub lines_of : List Event → List String
lines_of es = map (λ (e : Event). e.line) es

abbrev pub items_of : Option (List Item) → List Item
items_of none = []
items_of (some q) = q

yielded_events : (es : List Event) → yielded (map some es) ≡ (lines_of es, false)
unfolding yielded
yielded_events [] = refl
yielded_events (e ∷ es) = ap (λ r. (e.line ∷ r.0, r.1)) (yielded_events es)

-- A broker opened with sizes m and n, fed with `es`, then asked for the events after offset k by
-- a new subscriber, then fed with `fs`: the replay is made of the last n of `es`, those after k
-- alone, in order; the subscriber's queue holds the last m of `fs`; and its reader gets the lines
-- of the replay and then those of the last m of `fs`, in order, and waits for more. A size of 0
-- counts as 1.
pub stream_lem :
    (m n id k : ℕ) (es fs : List Event)
    → let b = publish_all (new_broker m n) es in
      let s = subscribe b id k in
      let queue = held id (publish_all s.2 fs).subs in
      Follows k (keep_last (max 1 n) es) s.0
      × (queue ≡ some (map some (keep_last (max 1 m) fs)))
      × (generated s.0 s.1 (items_of queue)
          ≡ (lines_of s.0 ++ lines_of (keep_last (max 1 m) fs), false))
unfolding subscribe generated
stream_lem m n id k es fs =
    let b : Broker = publish_all (new_broker m n) es in
    let r : Retains b (max 1 n) es =
      Retains-publish_all (new_broker m n) (max 1 n) [] es (Retains-new_broker m n) in
    let size : b.max_queue_items ≡ max 1 m =
      queue_size-publish_all (new_broker m n) es (Retains-new_broker m n).0
      ∙ queue_size-new_broker m n in
    let queue = held id (publish_all (subscribe b id k).2 fs).subs in
    let holds : queue ≡ some (map some (keep_last (max 1 m) fs)) =
      (Holds-publish_all (subscribe b id k).2 id (max 1 m) [] fs (omega arith)
        (Holds-subscribe b id k (max 1 m) r.0 size)).2
      ∙ ap some (keep_last-map (max 1 m) fs) in
    (
      subst (Follows k (keep_last (max 1 n) es)) (ap (replay_after k) (sym r.2))
          (replay_after-Follows k (keep_last (max 1 n) es)),
      holds,
      ap₂ (generated (replay_after k b.recent)) r.0 (ap items_of holds)
          ∙ ap (λ y. (lines_of (replay_after k b.recent) ++ y.0, y.1))
              (yielded_events (keep_last (max 1 m) fs)),
    )
