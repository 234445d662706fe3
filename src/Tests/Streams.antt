-- ===== src/Tests/Streams.antt =====
-- The event broker and the snapshot deltas on concrete data.
use Prim.Native.Nat.{max}
use patchhub.Dict.{Dict, lookup}
use patchhub.Prelude.{
  Bool, List, String, [], false, keep_last, map, refl, some, true, ℕ, ◌&&◌, ◌++◌, ◌+◌, ◌==◌, ◌∷◌,
  ◌≡◌,
}
use patchhub.JobQueue.{text_of}
use patchhub.Broker.{Broker, Event, close, generated, new_broker, publish, subscribe}
use patchhub.Broker.Queues.{
  IsBounded, Reach, Reach-IsBounded, ended, here, next, published, subscribed,
}
use patchhub.Broker.Drops.{Closes, Each, Takes, close-Each, overflow, publish-Each}
use patchhub.Broker.Streams.{Follows, held, items_of, lines_of, publish_all, stream_lem}
use patchhub.SnapshotDelta.{Snapshot, build_delta, diff, new_store, to_map}
use patchhub.SnapshotDelta.Apply.{Agrees, apply_diff, diff-Agrees}
use patchhub.SnapshotDelta.History.{
  build_delta-retained, is_resync, record_all, records-new_store, trim,
}

abbrev event : ℕ → String → Event
event k line = record { offset = k; line = line }

abbrev three : List Event
three = event 10 "a" ∷ event 20 "b" ∷ event 30 "c" ∷ []

abbrev followed : Broker
followed = publish (subscribe (new_broker 1 2) 7 0).2 "a" 10

abbrev followed-Reach : Reach (new_broker 1 2) followed
followed-Reach =
    next (next here (subscribed (new_broker 1 2) 7 0))
      (published (subscribe (new_broker 1 2) 7 0).2 "a" 10)

followed_open : followed.closed ≡ false
unfolding publish subscribe new_broker
followed_open = refl

Reach-IsBounded_example : IsBounded (close followed)
Reach-IsBounded_example = Reach-IsBounded 1 2 (next followed-Reach (ended followed))

stream_lem_example :
    let b = publish_all (new_broker 2 2) three in
    let s = subscribe b 7 20 in
    let queue = held 7 (publish_all s.2 three).subs in
    Follows 20 (keep_last 2 three) s.0
    × (queue ≡ some (map some (keep_last 2 three)))
    × (generated s.0 s.1 (items_of queue) ≡ (lines_of s.0 ++ lines_of (keep_last 2 three), false))
stream_lem_example = stream_lem 2 2 7 20 three three

publish-Each_example :
    Each
      (Takes followed.max_queue_items (some (record { offset = 20; line = "b" })))
      followed.subs
      (publish followed "b" 20).subs
    × ((publish followed "b" 20).dropped_total
        ≡ followed.dropped_total + overflow followed.max_queue_items followed.subs)
publish-Each_example =
    publish-Each followed "b" 20 (Reach-IsBounded 1 2 followed-Reach) followed_open

close-Each_example : Each (Closes followed.max_queue_items) followed.subs (close followed).subs
close-Each_example = close-Each followed (Reach-IsBounded 1 2 followed-Reach) followed_open

abbrev job : String → String → Dict String
job id status = ("job_id", id) ∷ ("status", status) ∷ []

abbrev id_of : Dict String → String
id_of item = text_of (lookup "job_id" item)

abbrev jobs_before : List (Dict String)
jobs_before = job "1" "queued" ∷ job "2" "running" ∷ []

abbrev jobs_after : List (Dict String)
jobs_after = job "2" "success" ∷ job "3" "queued" ∷ []

abbrev same_job : Dict String → Dict String → Bool
same_job ((a, id) ∷ (b, s) ∷ []) ((c, id') ∷ (d, s') ∷ []) = id == id' && s == s'
same_job _ _ = false

abbrev own : String → String
own id = id

diff-Agrees_example :
    Agrees same_job
      (lookup "2" (
        apply_diff id_of own
          (diff same_job id_of id_of true jobs_before jobs_after)
          (to_map id_of jobs_before)))
      (lookup "2" (to_map id_of jobs_after))
diff-Agrees_example =
    diff-Agrees same_job id_of id_of own true jobs_before jobs_after "2" (λ item. refl)

abbrev shot : ℕ → List (Dict String) → Snapshot String
shot seq jobs = record {
  seq = seq;
  jobs = jobs;
  runs = [];
  patches = [];
  workspaces = [];
  header = [];
  operator_info = ("operator", "me") ∷ [];
  sigs = [];
}

abbrev shots : List (Snapshot String)
shots = shot 1 [] ∷ shot 2 jobs_before ∷ shot 3 jobs_after ∷ []

records-new_store_example :
    (record_all (new_store String 0) shots).records ≡ keep_last (max 2 0) (map trim shots)
records-new_store_example = records-new_store 0 shots

abbrev same_info : Dict String → Dict String → Bool
same_info [] [] = true
same_info ((a, s) ∷ []) ((b, t) ∷ []) = a == b && s == t
same_info _ _ = false

build_delta-retained_example :
    is_resync (build_delta own same_info (record_all (new_store String 0) shots) 2) ≡ false
build_delta-retained_example =
    build_delta-retained own same_info 0 2 (("operator", "me") ∷ []) shots refl
      (refl, (refl, (refl, tt))) refl
