-- ===== src/JobQueue/Life.antt =====
-- How the status of a job moves, under the sections that the handlers are made of.
pub mod Sections
pub mod Endings
pub mod Rounds
pub mod Outcome
pub mod RunLoop
pub mod Cancellation
use patchhub.Prelude.{
  Bool, Option, String, arith, eq_iff, false, if◌then◌else◌, none, refl, some, true, ◌==◌, ◌||◌,
  ◌≡◌,
}
use patchhub.Dict.{lookup, lookup-insert}
use patchhub.JobQueue.{
  Job, Queue, Status, append_cleanup_error, canceled, change_job, fail, is_canceled, is_queued,
  is_running, queued, running, success, unknown, write_found, write_job,
}

abbrev pub found_status : Option Job → Option Status
found_status none = none
found_status (some job) = some job.status

-- The status that `_jobs` holds for an id.
abbrev pub status_at : String → Queue → Option Status
status_at k q = found_status (lookup k q.jobs)

abbrev pub same : Status → Status → Bool
same queued queued = true
same running running = true
same success success = true
same fail fail = true
same canceled canceled = true
same unknown unknown = true
same _ _ = false

abbrev pub is_over : Status → Bool
is_over success = true
is_over fail = true
is_over canceled = true
is_over _ = false

-- A job that has ended, in whichever way.
abbrev pub has_ended : Option Status → Bool
has_ended none = false
has_ended (some s) = is_over s

abbrev pub runs : Option Status → Bool
runs none = false
runs (some s) = is_running s

-- The life of a job only moves forward: it is queued, then runs or is canceled, then ends, and
-- what has ended stays as it is.
abbrev pub moves_on : Status → Status → Bool
moves_on queued t = true
moves_on running t = is_running t || is_over t
moves_on s t = same s t

abbrev pub is_later : Option Status → Option Status → Bool
is_later none o = true
is_later (some s) none = false
is_later (some s) (some t) = moves_on s t

-- What the tasks beside the loop can do: they add a queued job, and cancel a queued one.
abbrev pub steps_aside : Status → Status → Bool
steps_aside queued t = is_queued t || is_canceled t
steps_aside s t = same s t

abbrev pub is_aside : Option Status → Option Status → Bool
is_aside none none = true
is_aside none (some t) = is_queued t || is_canceled t
is_aside (some s) none = false
is_aside (some s) (some t) = steps_aside s t

pub is_aside_refl : (o : Option Status) → is_aside o o ≡ true
is_aside_refl o = ground arith

pub is_aside_trans :
    (a b c : Option Status) → is_aside a b ≡ true → is_aside b c ≡ true → is_aside a c ≡ true
is_aside_trans a b c p q = ground arith

pub is_later_refl : (o : Option Status) → is_later o o ≡ true
is_later_refl o = ground arith

pub is_later_trans :
    (a b c : Option Status) → is_later a b ≡ true → is_later b c ≡ true → is_later a c ≡ true
is_later_trans a b c p q = ground arith

pub later_of_aside : (a b : Option Status) → is_aside a b ≡ true → is_later a b ≡ true
later_of_aside a b p = ground arith

-- What other tasks do while a handler awaits, for every job.
abbrev pub IsAside : (Queue → Queue) → Type 0
IsAside f = (k : String) (q : Queue) → is_aside (status_at k q) (status_at k (f q)) ≡ true

abbrev pub IsLater : (Queue → Queue) → Type 0
IsLater f = (k : String) (q : Queue) → is_later (status_at k q) (status_at k (f q)) ≡ true

pub status-write_job :
    (count : Bool) (id k : String) (job : Job) (q : Queue)
    → status_at k (write_job count id job q) ≡ (if id == k then some job.status else status_at k q)
unfolding write_job
status-write_job count id k job q = ground (arith, lookup-insert id k job q.jobs)

status-write_found :
    (count : Bool) (id k : String) (change : Job → Job) (found : Option Job) (q : Queue)
    → ((job : Job) → (change job).status ≡ job.status)
    → lookup id q.jobs ≡ found
    → status_at k (write_found count id change found q) ≡ status_at k q
unfolding write_found
status-write_found count id k change none q keeps e = refl
status-write_found count id k change (some job) q keeps e =
    ground (arith, status-write_job count id k (change job) q, keeps job, eq_iff id k)

pub status-change_job :
    (count : Bool) (id k : String) (change : Job → Job) (q : Queue)
    → ((job : Job) → (change job).status ≡ job.status)
    → status_at k (change_job count id change q) ≡ status_at k q
unfolding change_job
status-change_job count id k change q keeps =
    status-write_found count id k change (lookup id q.jobs) q keeps refl

pub status-append_cleanup_error :
    (id k : String) (e : Option String) (q : Queue)
    → status_at k (append_cleanup_error id e q) ≡ status_at k q
unfolding append_cleanup_error
status-append_cleanup_error id k none q = refl
status-append_cleanup_error id k (some e) q = status-change_job false id k _ q (λ job. refl)
