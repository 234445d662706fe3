-- ===== src/JobQueue/Life/Cancellation.antt =====
-- How a cancel of a running job and the end of its runner meet in the job's final status.
use patchhub.Prelude.{
  Bool, Option, String, arith, eq_refl, if◌then◌else◌, is_pos, none, refl, some, true, ℤ, ◌∙◌, ◌≡◌,
}
use patchhub.Dict.{lookup, lookup-insert_self}
use patchhub.JobQueue.Life.Endings.{is_over-final_status, status-after_finalize}
use patchhub.JobQueue.{
  CancelSource, Job, Queue, canceled, change_job, fail, running, socket, success, write_found,
  write_job,
}
use patchhub.JobQueue.Cancel.{
  Request, acknowledge, cancel_local, cancel_running, has_channel, noted, request_found,
}
use patchhub.JobQueue.Finalize.{After, ended, final_status, finalize_found, finalize_running_job}
use patchhub.JobQueue.Life.{IsAside, status-write_job, status_at}

-- A running job that is finalized gets the status of its return code and its cancel.
finalize_found-status :
    (id : String) (rc : ℤ) (error : Option String) (w : After) (found : Option Job) (q : Queue)
    {job : Job}
    → IsAside w.between
    → found ≡ some job
    → job.status ≡ running
    → ((finalize_found id rc error w found q).0 ≡ true)
      × (status_at id (finalize_found id rc error w found q).1 ≡ some (final_status job rc))
unfolding finalize_found ended
finalize_found-status id rc error w none q aside h r = cc
finalize_found-status id rc error w (some j) q {job} aside h r =
    let j' = ended j rc error w.ended_at in
    let q₁ = write_job true id j' q in
    ground (
      arith,
      is_over-final_status j rc,
      status-write_job true id id j' q,
      eq_refl id,
      status-after_finalize id id j'.status w q₁ aside,
    )

lookup-write_job :
    (count : Bool) (id : String) (job : Job) (q : Queue)
    → lookup id (write_job count id job q).jobs ≡ some job
unfolding write_job
lookup-write_job count id job q = lookup-insert_self id job q.jobs

-- No other task runs while the request is served.
pub record IsAlone (w : Request) : Type 0 where
  pub before_lock : (q : Queue) → w.before_lock q ≡ q
  pub during_send : (q : Queue) → w.during_send q ≡ q
  pub during_terminate : (q : Queue) → w.during_terminate q ≡ q

-- The job once its cancel was acknowledged.
abbrev acked : CancelSource → Request → Job → Job
acked source w job = record (noted w.requested_at job) {
  cancel_ack_utc = some w.acked_at;
  cancel_source = some source;
}

lookup-acknowledge :
    (source : CancelSource) (now id : String) (q : Queue) {job : Job}
    → lookup id q.jobs ≡ some job
    → lookup id (acknowledge source now id q).jobs
      ≡ some (record job { cancel_ack_utc = some now; cancel_source = some source })
unfolding acknowledge change_job write_found write_job
lookup-acknowledge source now id q {job} h = rw h (lookup-insert_self id _ q.jobs)

lookup-request_found :
    (id now : String) (q : Queue) {job : Job}
    → lookup id q.jobs ≡ some job
    → lookup id (request_found id now (some job) q).jobs ≡ some (noted now job)
unfolding request_found
lookup-request_found id now q {job} h =
    ground (arith, h, lookup-write_job true id (noted now job) q)

channels-request_found :
    (id now : String) (found : Option Job) (q : Queue)
    → (request_found id now found q).channels ≡ q.channels
unfolding request_found write_job
channels-request_found id now none q = refl
channels-request_found id now (some job) q = ground arith

lookup-cancel_running_socket :
    (id : String) (w : Request) (q : Queue) {job : Job}
    → IsAlone w
    → lookup id q.jobs ≡ some job
    → has_channel id q.channels ≡ true
    → w.sent ≡ true
    → lookup id (cancel_running id w (some job) q).1.jobs ≡ some (acked socket w job)
unfolding cancel_running
lookup-cancel_running_socket id w q {job} alone h c t =
    let q₁ = request_found id w.requested_at (some job) q in
    rw (channels-request_found id w.requested_at (some job) q, c, t, alone.during_send)
      (lookup-acknowledge socket w.acked_at id q₁ (lookup-request_found id w.requested_at q h))

cancel_local-running :
    (id : String) (w : Request) (q : Queue) {job : Job}
    → IsAlone w
    → lookup id q.jobs ≡ some job
    → job.status ≡ running
    → cancel_local id w q ≡ cancel_running id w (some job) q
unfolding cancel_local
cancel_local-running id w q {job} alone h r = rw (alone.before_lock, h, r)

-- A running job that is canceled over its command channel and then finalized ends as canceled
-- exactly if the runner returned 130, as a success at 0, and as a failure at any other code. No other
-- task runs during the cancel, and the tasks beside the end touch no job that has ended.
pub cancel_local-socket :
    (id : String) (w : Request) (rc : ℤ) (error : Option String) (a : After) (q : Queue) {job : Job}
    → IsAlone w
    → IsAside a.between
    → lookup id q.jobs ≡ some job
    → job.status ≡ running
    → has_channel id q.channels ≡ true
    → w.sent ≡ true
    → status_at id (finalize_running_job id rc error a (cancel_local id w q).1).1
      ≡ some (if is_pos rc 0 then success else if is_pos rc 130 then canceled else fail)
unfolding finalize_running_job
cancel_local-socket id w rc error a q {job} alone aside h r c t =
    let q₁ = (cancel_local id w q).1 in
    let e : lookup id q₁.jobs ≡ some (acked socket w job) =
      rw (cancel_local-running id w q alone h r)
        (lookup-cancel_running_socket id w q alone h c t) in
    (finalize_found-status id rc error a (lookup id q₁.jobs) q₁ aside e r).1
    ∙ unfold final_status in ground arith
