-- ===== src/Broker/Queues.antt =====
-- Bounds of the broker's queues, and the policy that drops the oldest item.
use patchhub.Prelude.{
  All, Bool, List, String, [], ap, arith, drop, false, if_keeps, keep_last, keep_last_short, length,
  length-append, length-keep_last, none, suc, true, ℕ, ◌&&◌, ◌++◌, ◌+◌, ◌-◌, ◌<◌, ◌∙◌, ◌∷◌, ◌≡◌,
  ◌≤◌,
}
use patchhub.Broker.{
  Broker, Item, Subscriber, close, close_loop, discard, discard_loop, enqueue_item, enqueue_loop,
  new_broker, publish, publish_loop, receive, receive_loop, subscribe, tail_of,
}

keep_last-cons :
    (limit : ℕ) (x : Item) (xs : List Item)
    → limit ≤ length xs
    → keep_last limit (x ∷ xs) ≡ keep_last limit xs
keep_last-cons limit x xs h =
    let e : suc (length xs) - limit ≡ suc (length xs - limit) = omega arith in
    ap (λ k. drop k (x ∷ xs)) e

keep_last_of_room :
    (limit : ℕ) (q : List Item) (item : Item)
    → length q < limit
    → keep_last limit (q ++ (item ∷ [])) ≡ q ++ (item ∷ [])
keep_last_of_room limit q item h =
    keep_last_short limit (q ++ (item ∷ [])) (omega (arith, length-append q (item ∷ [])))

enqueue_loop_lem :
    (limit : ℕ) (item : Item) (q : List Item) (d : ℕ)
    → 0 < limit
    → enqueue_loop limit item q d ≡ record {
      ok = true;
      dropped = d + (length q + 1 - limit);
      queue = keep_last limit (q ++ (item ∷ []));
    }
unfolding enqueue_loop
enqueue_loop_lem limit item [] d h = ground (arith, keep_last_of_room limit [] item)
enqueue_loop_lem limit item (x ∷ q) d h = ground (
  arith,
  enqueue_loop_lem limit item q (d + 1) h,
  keep_last_of_room limit (x ∷ q) item,
  keep_last-cons limit x (q ++ (item ∷ [])),
  length-append q (item ∷ []),
)

-- A bounded queue takes every new item, loses only its oldest items, and counts them.
pub enqueue_item_lem :
    (limit : ℕ) (q : List Item) (item : Item)
    → 0 < limit
    → enqueue_item limit q item ≡ record {
      ok = true;
      dropped = length q + 1 - limit;
      queue = keep_last limit (q ++ (item ∷ []));
    }
unfolding enqueue_item
enqueue_item_lem limit q item h = enqueue_loop_lem limit item q 0 h ∙ ground arith

-- The bounds that every operation keeps, and that a closed broker lists no queue.
abbrev pub Fits : ℕ → Subscriber → Type 0
Fits limit s = length s.queue ≤ limit

abbrev pub Quiet : Bool → Subscriber → Type 0
Quiet closed s = (closed && s.listed) ≡ false

open-Quiet : (closed : Bool) (subs : List Subscriber) → closed ≡ false → All (Quiet closed) subs
open-Quiet closed [] e = tt
open-Quiet closed (s ∷ rest) e = (ground arith, open-Quiet closed rest e)

pub record IsBounded (b : Broker) : Type 0 where
  pub queue_room : 0 < b.max_queue_items
  pub replay_room : length b.recent ≤ b.max_replay_items
  pub queues : All (Fits b.max_queue_items) b.subs
  pub quiet : All (Quiet b.closed) b.subs

enqueue_item-length :
    (limit : ℕ) (q : List Item) (item : Item)
    → 0 < limit
    → length (enqueue_item limit q item).queue ≤ limit
enqueue_item-length limit q item h =
    rw (enqueue_item_lem limit q item h) (length-keep_last limit (q ++ (item ∷ [])))

publish_loop-Fits :
    (limit : ℕ) (item : Item) (subs : List Subscriber) (total : ℕ)
    → 0 < limit
    → All (Fits limit) subs
    → All (Fits limit) (publish_loop limit item subs total).0
unfolding publish_loop
publish_loop-Fits limit item [] total h f = tt
publish_loop-Fits limit item (s ∷ rest) total h f = (
  ground (arith, enqueue_item-length limit s.queue item h),
  publish_loop-Fits limit item rest _ h f.1,
)

close_loop-Fits :
    (limit : ℕ) (subs : List Subscriber) (total : ℕ)
    → 0 < limit
    → All (Fits limit) subs
    → All (Fits limit) (close_loop limit subs total).0
unfolding close_loop
close_loop-Fits limit [] total h f = tt
close_loop-Fits limit (s ∷ rest) total h f =
    (ground (arith, enqueue_item-length limit s.queue none h), close_loop-Fits limit rest _ h f.1)

close_loop-Quiet :
    (limit : ℕ) (subs : List Subscriber) (total : ℕ)
    → All (Quiet true) (close_loop limit subs total).0
unfolding close_loop
close_loop-Quiet limit [] total = tt
close_loop-Quiet limit (s ∷ rest) total = (ground arith, close_loop-Quiet limit rest _)

tail_of-length : (q : List Item) → length (tail_of q) ≤ length q
tail_of-length [] = omega arith
tail_of-length (x ∷ q) = omega arith

receive_loop-Fits :
    (limit id : ℕ) (subs : List Subscriber)
    → All (Fits limit) subs
    → All (Fits limit) (receive_loop id subs)
unfolding receive_loop
receive_loop-Fits limit id [] f = tt
receive_loop-Fits limit id (s ∷ rest) f =
    (ground (arith, tail_of-length s.queue), receive_loop-Fits limit id rest f.1)

receive_loop-Quiet :
    (closed : Bool) (id : ℕ) (subs : List Subscriber)
    → All (Quiet closed) subs
    → All (Quiet closed) (receive_loop id subs)
unfolding receive_loop
receive_loop-Quiet closed id [] f = tt
receive_loop-Quiet closed id (s ∷ rest) f = (ground arith, receive_loop-Quiet closed id rest f.1)

discard_loop-Fits :
    (limit id : ℕ) (subs : List Subscriber)
    → All (Fits limit) subs
    → All (Fits limit) (discard_loop id subs)
unfolding discard_loop
discard_loop-Fits limit id [] f = tt
discard_loop-Fits limit id (s ∷ rest) f = (ground arith, discard_loop-Fits limit id rest f.1)

discard_loop-Quiet :
    (closed : Bool) (id : ℕ) (subs : List Subscriber)
    → All (Quiet closed) subs
    → All (Quiet closed) (discard_loop id subs)
unfolding discard_loop
discard_loop-Quiet closed id [] f = tt
discard_loop-Quiet closed id (s ∷ rest) f = (ground arith, discard_loop-Quiet closed id rest f.1)

-- What the event pump and the subscribers can do to a broker, one critical section a step.
pub data Step : Broker → Broker → Type 0 where
  subscribed : (b : Broker) (id after_offset : ℕ) → Step b (subscribe b id after_offset).2
  published : (b : Broker) (raw : String) (end_offset : ℕ) → Step b (publish b raw end_offset)
  received : (b : Broker) (id : ℕ) → Step b (receive b id)
  discarded : (b : Broker) (id : ℕ) → Step b (discard b id)
  ended : (b : Broker) → Step b (close b)

pub data Reach (s : Broker) : Broker → Type 0 where
  here : Reach s s
  next : {t u : Broker} → Reach s t → Step t u → Reach s u

subscribe-IsBounded : (b : Broker) (id k : ℕ) → IsBounded b → IsBounded (subscribe b id k).2
unfolding subscribe
subscribe-IsBounded b id k v =
    if_keeps IsBounded b.closed _ _ (λ e. v)
      (λ e. record {
        queue_room = v.queue_room;
        replay_room = v.replay_room;
        queues = (omega arith, v.queues);
        quiet = open-Quiet b.closed (record { id = id; queue = []; listed = true } ∷ b.subs) e;
      })

publish-IsBounded : (b : Broker) (raw : String) (k : ℕ) → IsBounded b → IsBounded (publish b raw k)
unfolding publish
publish-IsBounded b raw k v =
    if_keeps IsBounded b.closed _ _ (λ e. v)
      (λ e. record {
        queue_room = v.queue_room;
        replay_room = length-keep_last b.max_replay_items _;
        queues = publish_loop-Fits b.max_queue_items _ b.subs b.dropped_total v.queue_room v.queues;
        quiet = open-Quiet b.closed _ e;
      })

close-IsBounded : (b : Broker) → IsBounded b → IsBounded (close b)
unfolding close
close-IsBounded b v =
    if_keeps IsBounded b.closed _ _ (λ e. v)
      (λ e. record {
        queue_room = v.queue_room;
        replay_room = v.replay_room;
        queues = close_loop-Fits b.max_queue_items b.subs b.dropped_total v.queue_room v.queues;
        quiet = close_loop-Quiet b.max_queue_items b.subs b.dropped_total;
      })

Step-IsBounded : {b c : Broker} → Step b c → IsBounded b → IsBounded c
unfolding receive discard
Step-IsBounded (subscribed b id k) v = subscribe-IsBounded b id k v
Step-IsBounded (published b raw k) v = publish-IsBounded b raw k v
Step-IsBounded (ended b) v = close-IsBounded b v
Step-IsBounded (received b id) v = record {
  queue_room = v.queue_room;
  replay_room = v.replay_room;
  queues = receive_loop-Fits b.max_queue_items id b.subs v.queues;
  quiet = receive_loop-Quiet b.closed id b.subs v.quiet;
}
Step-IsBounded (discarded b id) v = record {
  queue_room = v.queue_room;
  replay_room = v.replay_room;
  queues = discard_loop-Fits b.max_queue_items id b.subs v.queues;
  quiet = discard_loop-Quiet b.closed id b.subs v.quiet;
}

new_broker-IsBounded : (m n : ℕ) → IsBounded (new_broker m n)
unfolding new_broker
new_broker-IsBounded m n = record {
  queue_room = omega arith;
  replay_room = omega arith;
  queues = tt;
  quiet = tt;
}

Reach-IsBounded_from : {b c : Broker} → IsBounded b → Reach b c → IsBounded c
Reach-IsBounded_from v here = v
Reach-IsBounded_from v (next r st) = Step-IsBounded st (Reach-IsBounded_from v r)

-- Whatever sizes are asked for and in whatever order events, subscribers and the end come, no
-- queue and no replay buffer passes its bound, there is room for one item, and a closed broker
-- feeds no queue.
pub Reach-IsBounded : (m n : ℕ) {b : Broker} → Reach (new_broker m n) b → IsBounded b
Reach-IsBounded m n r = Reach-IsBounded_from (new_broker-IsBounded m n) r
