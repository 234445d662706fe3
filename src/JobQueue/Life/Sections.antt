-- ===== src/JobQueue/Life/Sections.antt =====
-- The handlers of `enqueue` and `cancel` only move jobs forward.
use patchhub.Prelude.{Option, String, arith, eq_iff, none, refl, some, true, ◌≡◌}
use patchhub.Dict.{lookup}
use patchhub.JobQueue.{
  CancelSource, Job, Queue, callback_error, canceled, enqueue, queued, socket, write_job,
}
use patchhub.JobQueue.Cancel.{
  Request, acknowledge, cancel_by_terminate, cancel_found, cancel_local, cancel_queued,
  cancel_running, noted, request_found,
}
use patchhub.JobQueue.Life.{
  IsAside, IsLater, is_aside, is_aside_refl, is_later, is_later_refl, is_later_trans,
  status-append_cleanup_error, status-change_job, status-write_job, status_at,
}

-- Each section of the handlers, run alone, is something that the loop can meet while it awaits.
pub enqueue-Aside :
    (job : Job) (k : String) (q : Queue)
    → job.status ≡ queued
    → status_at job.job_id q ≡ none
    → is_aside (status_at k q) (status_at k (enqueue job q)) ≡ true
unfolding enqueue
enqueue-Aside job k q h fresh = ground (
  arith,
  status-write_job true job.job_id k job q,
  eq_iff job.job_id k,
  is_aside_refl (status_at k q),
)

-- The section of `_cancel_local` that ends a queued job.
abbrev pub or_same : Option Queue → Queue → Queue
or_same none q = q
or_same (some q') q = q'

abbrev pub cancel_section : String → String → Queue → Queue
cancel_section id now q = or_same (cancel_found id now (lookup id q.jobs) q) q

cancel_found-Aside :
    (id now k : String) (found : Option Job) (q : Queue)
    → lookup id q.jobs ≡ found
    → is_aside (status_at k q) (status_at k (or_same (cancel_found id now found q) q)) ≡ true
unfolding cancel_found
cancel_found-Aside id now k none q e = is_aside_refl (status_at k q)
cancel_found-Aside id now k (some job) q e = ground (
  arith,
  status-write_job true id k (record job { status = canceled; ended_utc = some now }) q,
  eq_iff id k,
  is_aside_refl (status_at k q),
)

pub cancel_section-Aside : (id now : String) → IsAside (cancel_section id now)
cancel_section-Aside id now k q = cancel_found-Aside id now k (lookup id q.jobs) q refl

status-request_found :
    (id now k : String) (found : Option Job) (q : Queue)
    → lookup id q.jobs ≡ found
    → status_at k (request_found id now found q) ≡ status_at k q
unfolding request_found
status-request_found id now k none q e = refl
status-request_found id now k (some job) q e =
    ground (arith, status-write_job true id k (noted now job) q, eq_iff id k)

status-acknowledge :
    (source : CancelSource) (now id k : String) (q : Queue)
    → status_at k (acknowledge source now id q) ≡ status_at k q
unfolding acknowledge
status-acknowledge source now id k q = status-change_job true id k _ q (λ job. refl)

-- What the other tasks do during a request moves jobs forward.
pub record IsForward (w : Request) : Type 0 where
  pub before_lock : IsLater w.before_lock
  pub during_send : IsLater w.during_send
  pub during_terminate : IsLater w.during_terminate
  pub during_cleanup : IsLater w.during_cleanup

abbrev pub Forward : String → Queue → Queue → Type 0
Forward k q q' = is_later (status_at k q) (status_at k q') ≡ true

module _ (id k : String) (w : Request) (f : IsForward w) where
  cancel_by_terminate-Forward : (q : Queue) → Forward k q (cancel_by_terminate id w q).1
  unfolding cancel_by_terminate
  cancel_by_terminate-Forward q = ground (
    arith,
    status-acknowledge CancelSource.terminate w.acked_at id k (w.during_terminate q),
    f.during_terminate k q,
  )

  cancel_running-Forward :
      (found : Option Job) (q : Queue)
      → lookup id q.jobs ≡ found
      → Forward k q (cancel_running id w found q).1
  unfolding cancel_running
  cancel_running-Forward none q e = is_later_refl (status_at k q)
  cancel_running-Forward (some job) q e =
      let q₁ = request_found id w.requested_at (some job) q in
      let q₂ = w.during_send q₁ in
      ground (
        arith,
        status-request_found id w.requested_at k (some job) q e,
        f.during_send k q₁,
        status-acknowledge socket w.acked_at id k q₂,
        cancel_by_terminate-Forward q₁,
        cancel_by_terminate-Forward q₂,
        is_later_trans (status_at k q) (status_at k q₂)
            (status_at k (cancel_by_terminate id w q₂).1),
      )

  cancel_queued-Forward :
      (found : Option Job) (q : Queue)
      → lookup id q.jobs ≡ found
      → Forward k q (cancel_queued id w (cancel_found id w.ended_at found q) q).1
  unfolding cancel_queued cancel_found
  cancel_queued-Forward none q e = is_later_refl (status_at k q)
  cancel_queued-Forward (some job) q e =
      let job' : Job = record job { status = canceled; ended_utc = some w.ended_at } in
      let q₁ = write_job true id job' q in
      ground (
        arith,
        status-write_job true id k job' q,
        eq_iff id k,
        is_later_refl (status_at k q),
        f.during_cleanup k q₁,
        status-append_cleanup_error id k (callback_error w.cleanup) (w.during_cleanup q₁),
      )

  -- A cancel moves every job forward only, whatever the channel and the executor answer.
  pub cancel-Forward : (q : Queue) → Forward k q (cancel_local id w q).1
  unfolding cancel_local
  cancel-Forward q =
      let q₁ = w.before_lock q in
      ground (
        arith,
        f.before_lock k q,
        is_later_refl (status_at k q),
        cancel_queued-Forward (lookup id q₁.jobs) q₁ refl,
        cancel_running-Forward (lookup id q₁.jobs) q₁ refl,
        is_later_trans (status_at k q) (status_at k q₁)
            (status_at k (cancel_running id w (lookup id q₁.jobs) q₁).1),
        is_later_trans (status_at k q) (status_at k q₁) (
            status_at k
              (cancel_queued id w (cancel_found id w.ended_at (lookup id q₁.jobs) q₁) q₁).1),
      )
