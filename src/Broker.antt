-- ===== src/Broker.antt =====
-- scripts/patchhub/asgi/job_event_broker.py: the fan-out of live job events to bounded queues.
-- A subscriber's `asyncio.Queue` is a list, oldest item first; the end mark `None` is `none`.
-- An offset is a byte position or a row number, so a natural number.
pub mod Queues
pub mod Streams
pub mod Drops
use Prim.Native.Nat.{max}
use patchhub.Prelude.{
  Bool, List, Option, String, [], eqb, false, if◌then◌else◌, keep_last, leb, length, ltb, map, none,
  select, some, true, ℕ, ◌++◌, ◌+◌, ◌∷◌,
}

pub record Event : Type 0 where
  pub offset : ℕ
  pub line : String

abbrev pub Item : Type 0
Item = Option Event

-- A subscriber holds its queue also after the broker has forgotten it: `listed` says whether
-- the queue is in `_subs`.
pub record Subscriber : Type 0 where
  pub id : ℕ
  pub queue : List Item
  pub listed : Bool

pub record Broker : Type 0 where
  pub max_queue_items : ℕ
  pub max_replay_items : ℕ
  pub subs : List Subscriber
  pub closed : Bool
  pub dropped_total : ℕ
  pub recent : List Event

-- What `_enqueue_item` returns, beside the queue that it leaves.
pub record Enqueued : Type 0 where
  pub ok : Bool
  pub dropped : ℕ
  pub queue : List Item

-- The loop of `_enqueue_item`: `put_nowait` raises when the queue is full, and then the oldest
-- item makes room.
unfoldable pub enqueue_loop : ℕ → Item → List Item → ℕ → Enqueued
enqueue_loop limit item [] dropped =
    if leb limit 0
    then record { ok = false; dropped = dropped; queue = [] }
    else record { ok = true; dropped = dropped; queue = item ∷ [] }
enqueue_loop limit item (oldest ∷ rest) dropped =
    let room = enqueue_loop limit item rest (dropped + 1) in
    if leb limit (length (oldest ∷ rest))
    then room
    else record { ok = true; dropped = dropped; queue = (oldest ∷ rest) ++ (item ∷ []) }

unfoldable pub enqueue_item : ℕ → List Item → Item → Enqueued
unfolding enqueue_loop
enqueue_item limit q item = enqueue_loop limit item q 0

unfoldable pub new_broker : ℕ → ℕ → Broker
new_broker max_queue_items max_replay_items = record {
  max_queue_items = max 1 max_queue_items;
  max_replay_items = max 1 max_replay_items;
  subs = [];
  closed = false;
  dropped_total = 0;
  recent = [];
}

-- The first critical section of `subscribe`: the replay, whether the broker is closed, and the
-- broker with the new queue.
abbrev pub replay_after : ℕ → List Event → List Event
replay_after after_offset = select (λ item. ltb after_offset item.offset)

unfoldable pub subscribe : Broker → ℕ → ℕ → List Event × Bool × Broker
subscribe b id after_offset = (
  replay_after after_offset b.recent,
  b.closed,
  if b.closed
      then b
      else record b { subs = record { id = id; queue = []; listed = true } ∷ b.subs },
)

-- The loop of `publish` over `list(self._subs)`, and the events that it drops.
unfoldable pub publish_loop : ℕ → Item → List Subscriber → ℕ → List Subscriber × ℕ
unfolding enqueue_item
publish_loop limit item [] total = ([], total)
publish_loop limit item (s ∷ rest) total =
    let r = enqueue_item limit s.queue item in
    let total' : ℕ =
      if s.listed then (if r.ok then total + r.dropped else total + r.dropped + 1) else total in
    let (rest', end) = publish_loop limit item rest total' in
    ((if s.listed then record s { queue = r.queue } else s) ∷ rest', end)

unfoldable pub publish : Broker → String → ℕ → Broker
unfolding publish_loop
publish b raw end_offset =
    if b.closed
    then b
    else let item : Event = record { offset = end_offset; line = raw } in
      let (subs', total) = publish_loop b.max_queue_items (some item) b.subs b.dropped_total in
      record b {
        recent = keep_last b.max_replay_items (b.recent ++ (item ∷ []));
        subs = subs';
        dropped_total = total;
      }

-- The loop of `close`: a refused end mark is not counted, and `_subs.clear()` unlists every queue.
unfoldable pub close_loop : ℕ → List Subscriber → ℕ → List Subscriber × ℕ
unfolding enqueue_item
close_loop limit [] total = ([], total)
close_loop limit (s ∷ rest) total =
    let r = enqueue_item limit s.queue none in
    let (rest', end) = close_loop limit rest (if s.listed then total + r.dropped else total) in
    ((if s.listed then record s { queue = r.queue; listed = false } else s) ∷ rest', end)

unfoldable pub close : Broker → Broker
unfolding close_loop
close b =
    if b.closed
    then b
    else let (subs', total) = close_loop b.max_queue_items b.subs b.dropped_total in
      record b { closed = true; subs = subs'; dropped_total = total }

-- `await q.get()` of a subscriber whose queue has an item: the item leaves the queue.
abbrev pub tail_of : List Item → List Item
tail_of [] = []
tail_of (_ ∷ rest) = rest

unfoldable pub receive_loop : ℕ → List Subscriber → List Subscriber
receive_loop id [] = []
receive_loop id (s ∷ rest) =
    (if eqb s.id id then record s { queue = tail_of s.queue } else s) ∷ receive_loop id rest

unfoldable pub receive : Broker → ℕ → Broker
unfolding receive_loop
receive b id = record b { subs = receive_loop id b.subs }

-- The `finally` of `subscribe`: `self._subs.discard(q)`.
unfoldable pub discard_loop : ℕ → List Subscriber → List Subscriber
discard_loop id [] = []
discard_loop id (s ∷ rest) =
    (if eqb s.id id then record s { listed = false } else s) ∷ discard_loop id rest

unfoldable pub discard : Broker → ℕ → Broker
unfolding discard_loop
discard b id = record b { subs = discard_loop id b.subs }

-- The lines that the generator of `subscribe` yields from a queue, and whether it has returned.
unfoldable pub yielded : List Item → List String × Bool
yielded [] = ([], false)
yielded (none ∷ rest) = ([], true)
yielded (some e ∷ rest) = let (lines, ended) = yielded rest in (e.line ∷ lines, ended)

-- The generator of `subscribe`, of the replay, whether the broker was closed, and the items that
-- its queue has given: the lines, and whether it has returned.
unfoldable pub generated : List Event → Bool → List Item → List String × Bool
unfolding yielded
generated replay true items = (map (λ (e : Event). e.line) replay, true)
generated replay false items =
    let (lines, ended) = yielded items in (map (λ (e : Event). e.line) replay ++ lines, ended)
