-- ===== src/JobQueue/Life/RunLoop.antt =====
-- What a whole round, and the loop, do to the life of the jobs.
use mathlib.Core.Path.{subst}
use patchhub.Prelude.{
  All, Bool, Bool-cases, List, Option, String, [], arith, eq_iff, eq_refl, false, if_keeps, inl,
  inr, none, refl, some, true, ◌==◌, ◌||◌, ◌∷◌, ◌≡◌, ◌≢◌,
}
use patchhub.Dict.{lookup}
use patchhub.JobQueue.{Job, Queue, Status, queued, running, write_job}
use patchhub.JobQueue.Loop.{Work, start_found}
use patchhub.JobQueue.Round.{or_else, round, run_loop, run_started, take_next}
use patchhub.JobQueue.Life.{
  found_status, has_ended, is_aside, is_aside_refl, is_aside_trans, is_later, is_later_refl,
  is_later_trans, runs, status-write_job, status_at,
}
use patchhub.JobQueue.Life.Rounds.{IsBeside}
use patchhub.JobQueue.Life.Outcome.{run_started-aside, run_started-own}

module _ (id : String) (w : Work) (beside : IsBeside w) where
  started-queued :
      (found : Option Job) (q : Queue)
      → w.executor_runs ≡ false
      → found_status found ≡ some queued
      → has_ended
          (status_at id (or_else (start_found id w.started_at found q) q (run_started id w)))
        ≡ true
  unfolding start_found
  started-queued none q idle h = cc
  started-queued (some job) q idle h =
      let job' : Job = record job { status = running; started_utc = some w.started_at } in
      let q₁ = write_job true id job' q in
      ground
        (arith, status-write_job true id id job' q, eq_refl id, run_started-own id w beside q₁ idle)

  started-other :
      (found : Option Job) (q : Queue)
      → found_status found ≢ some queued
      → or_else (start_found id w.started_at found q) q (run_started id w) ≡ q
  unfolding start_found
  started-other none q h = refl
  started-other (some job) q h = ground arith

  started-aside :
      (k : String) (found : Option Job) (q : Queue)
      → lookup id q.jobs ≡ found
      → (id == k) ≡ false
      → is_aside
          (status_at k q)
          (status_at k (or_else (start_found id w.started_at found q) q (run_started id w)))
        ≡ true
  unfolding start_found
  started-aside k none q h ne = is_aside_refl (status_at k q)
  started-aside k (some job) q h ne =
      let q₁ =
        write_job true id (record job { status = running; started_utc = some w.started_at }) q in
      ground (
        arith,
        is_aside_refl (status_at k q),
        status-write_job true id k
            (record job { status = running; started_utc = some w.started_at }) q,
        status-write_job true id id
            (record job { status = running; started_utc = some w.started_at }) q,
        eq_refl id,
        run_started-aside id w beside k q₁,
      )

  -- A round for a job that is queued when the round takes it ends that job, in whichever way and
  -- whatever its handler, runner, commits and callbacks answer or raise, if the wait returns and
  -- the loop is not stopped in it. Other tasks neither start the job nor end it while it runs, and
  -- the runner has gone when the round ends.
  pub round-queued :
      (q : Queue)
      → w.executor_runs ≡ false
      → status_at id q ≡ some queued
      → w.wait_error ≡ none
      → (w.waiting q).stop ≡ false
      → has_ended (status_at id (round id w q).1) ≡ true
  unfolding round
  round-queued q idle h returns go =
      let q₁ = w.waiting q in
      ground (
        arith,
        beside.waiting id q,
        started-queued (lookup id q₁.jobs) q₁ idle,
        started-other (lookup id q₁.jobs) q₁,
      )

  pub round-aside :
      (k : String) (q : Queue)
      → (id == k) ≡ false
      → is_aside (status_at k q) (status_at k (round id w q).1) ≡ true
  unfolding round
  round-aside k q ne =
      let q₁ = w.waiting q in
      ground (
        arith,
        is_aside_refl (status_at k q),
        beside.waiting k q,
        started-aside k (lookup id q₁.jobs) q₁ refl ne,
        is_aside_trans (status_at k q) (status_at k q₁) (
            status_at k
              (or_else (start_found id w.started_at (lookup id q₁.jobs) q₁) q₁ (run_started id w))),
      )

-- No job runs.
abbrev pub IsIdle : Queue → Type 0
IsIdle q = (k : String) → runs (status_at k q) ≡ false

-- What the loop is given: the tasks beside it start and end no running job, and the runner has
-- gone when a round ends.
abbrev pub IsFair : Work → Type 0
IsFair w = IsBeside w × (w.executor_runs ≡ false)

-- A queued job is ended, or is met by the other tasks only.
abbrev ends_or_aside : Option Status → Option Status → Bool
ends_or_aside (some queued) o = has_ended o || is_aside (some queued) o
ends_or_aside a o = is_aside a o

round-own :
    (id : String) (w : Work) (q : Queue)
    → IsFair w
    → ends_or_aside (status_at id q) (status_at id (round id w q).1) ≡ true
unfolding round
round-own id w q fair =
    let q₁ = w.waiting q in
    ground (
      arith,
      is_aside_refl (status_at id q),
      fair.0.waiting id q,
      started-queued id w fair.0 (lookup id q₁.jobs) q₁ fair.1,
      started-other id w fair.0 (lookup id q₁.jobs) q₁,
    )

round-any :
    (id : String) (w : Work) (q : Queue) (k : String)
    → IsFair w
    → ends_or_aside (status_at k q) (status_at k (round id w q).1) ≡ true
round-any id w q k fair = elim (Bool-cases (id == k)) [
  | inl e ↦
      subst (λ j. ends_or_aside (status_at j q) (status_at j (round id w q).1) ≡ true)
        ((eq_iff id k).0 e) (round-own id w q fair)
  | inr ne ↦ ground (arith, round-aside id w fair.0 k q ne)
]

idle_of_any : (a b : Option Status) → ends_or_aside a b ≡ true → runs a ≡ false → runs b ≡ false
idle_of_any a b h r = ground arith

later_of_any : (a b : Option Status) → ends_or_aside a b ≡ true → is_later a b ≡ true
later_of_any a b h = ground arith

take_next-any :
    (items : List (Option String)) (w : Work) (q : Queue) (k : String)
    → IsFair w
    → ends_or_aside (status_at k q) (status_at k (take_next items w q).1) ≡ true
unfolding take_next
take_next-any [] w q k fair = ground arith
take_next-any (none ∷ rest) w q k fair = ground arith
take_next-any (some id ∷ rest) w q k fair =
    let refl_at : ends_or_aside (status_at k q) (status_at k q) ≡ true = ground arith in
    if_keeps (λ (r : Bool × Queue). ends_or_aside (status_at k q) (status_at k r.1) ≡ true) q.stop _
      _ (λ e. refl_at) (λ e. round-any id w (record q { pending = rest }) k fair)

-- Wherever the loop stands between two rounds, after any number of them and whatever failed in
-- them, no job runs, if none did at the start: one runner at most is at work.
pub run_loop-IsIdle :
    (ws : List Work) (q : Queue) → All IsFair ws → IsIdle q → IsIdle (run_loop ws q).1
unfolding run_loop
run_loop-IsIdle [] q fair idle = idle
run_loop-IsIdle (w ∷ ws) q fair idle =
    let q₁ = (take_next q.pending w q).1 in
    let idle₁ : IsIdle q₁ = λ k.
      idle_of_any (status_at k q) (status_at k q₁) (take_next-any q.pending w q k fair.0)
        (idle k) in
    if_keeps (λ (r : Bool × Queue). IsIdle r.1) (take_next q.pending w q).0 _ _ (λ e. idle₁)
      (λ e. run_loop-IsIdle ws q₁ fair.1 idle₁)

-- Any number of rounds moves every job forward only: one that runs or has ended is never queued
-- again, and one that has ended keeps its status.
pub run_loop-later :
    (ws : List Work) (q : Queue) (k : String)
    → All IsFair ws
    → is_later (status_at k q) (status_at k (run_loop ws q).1) ≡ true
unfolding run_loop
run_loop-later [] q k fair = is_later_refl (status_at k q)
run_loop-later (w ∷ ws) q k fair =
    let q₁ = (take_next q.pending w q).1 in
    let later₁ =
      later_of_any (status_at k q) (status_at k q₁) (take_next-any q.pending w q k fair.0) in
    if_keeps (λ (r : Bool × Queue). is_later (status_at k q) (status_at k r.1) ≡ true)
      (take_next q.pending w q).0 _ _ (λ e. later₁)
      (λ e.
        is_later_trans (status_at k q) (status_at k q₁) (status_at k (run_loop ws q₁).1) later₁
          (run_loop-later ws q₁ k fair.1))
