-- ===== src/JobQueue/Cancel.antt =====
-- scripts/patchhub/asgi/async_queue.py: `_cancel_local` and `_hard_stop_local`. The answers of the
-- command channel and of the executor come with what other tasks do while they are awaited.
use patchhub.Prelude.{
  Bool, List, Option, String, [], false, if◌then◌else◌, none, not, some, true, ◌==◌, ◌||◌, ◌∷◌,
}
use patchhub.Dict.{lookup}
use patchhub.JobQueue.{
  Callback, CancelSource, Job, Queue, Status, append_cleanup_error, callback_error, canceled,
  change_job, is_queued, is_running, is_some, socket, terminate, unknown, write_job,
}

-- `sent` is the answer of `command_channel.send`, and `terminated` that of `executor.terminate`.
pub record Request : Type 0 where
  pub requested_at : String
  pub acked_at : String
  pub ended_at : String
  pub sent : Bool
  pub terminated : Bool
  pub cleanup : Callback
  pub before_lock : Queue → Queue
  pub during_send : Queue → Queue
  pub during_terminate : Queue → Queue
  pub during_cleanup : Queue → Queue

unfoldable pub has_channel : String → List String → Bool
has_channel id [] = false
has_channel id (c ∷ rest) = c == id || has_channel id rest

-- The section that ends a job which no runner has started.
unfoldable pub cancel_found : String → String → Option Job → Queue → Option Queue
unfolding write_job
cancel_found id now none q = none
cancel_found id now (some job) q =
    if is_queued job.status
    then some (write_job true id (record job { status = canceled; ended_utc = some now }) q)
    else none

abbrev pub or_now : Option String → String → Option String
or_now none now = some now
or_now (some old) now = some old

-- The section that notes the request; it writes only the first time.
abbrev pub noted : String → Job → Job
noted now job = record job { cancel_requested_utc = or_now job.cancel_requested_utc now }

unfoldable pub request_found : String → String → Option Job → Queue → Queue
unfolding write_job
request_found id now none q = q
request_found id now (some job) q =
    if is_some job.cancel_requested_utc then q else write_job true id (noted now job) q

-- The section after an answer of the channel or of the executor.
unfoldable pub acknowledge : CancelSource → String → String → Queue → Queue
unfolding change_job
acknowledge source now id q =
    change_job true id
      (λ job. record job { cancel_ack_utc = some now; cancel_source = some source }) q

unfoldable pub cancel_queued : String → Request → Option Queue → Queue → Bool × Queue
unfolding append_cleanup_error
cancel_queued id w none q = (false, q)
cancel_queued id w (some q') q =
    (true, append_cleanup_error id (callback_error w.cleanup) (w.during_cleanup q'))

unfoldable pub cancel_by_terminate : String → Request → Queue → Bool × Queue
unfolding acknowledge
cancel_by_terminate id w q =
    let q' = w.during_terminate q in
    (w.terminated, if w.terminated then acknowledge terminate w.acked_at id q' else q')

-- The channel is the one that stood under the id when the request was noted.
unfoldable pub cancel_running : String → Request → Option Job → Queue → Bool × Queue
unfolding request_found cancel_by_terminate has_channel
cancel_running id w none q = (false, q)
cancel_running id w (some job) q =
    let noted_q = request_found id w.requested_at (some job) q in
    let answered_q = w.during_send noted_q in
    if not (has_channel id noted_q.channels)
    then cancel_by_terminate id w noted_q
    else if w.sent
    then (true, acknowledge socket w.acked_at id answered_q)
    else cancel_by_terminate id w answered_q

abbrev status_of : Option Job → Status
status_of none = unknown
status_of (some job) = job.status

-- `_cancel_local`
unfoldable pub cancel_local : String → Request → Queue → Bool × Queue
unfolding cancel_found cancel_queued cancel_running
cancel_local id w q =
    let status = status_of (lookup id q.jobs) in
    let q' = w.before_lock q in
    if is_queued status
    then cancel_queued id w (cancel_found id w.ended_at (lookup id q'.jobs) q') q'
    else if is_running status
    then cancel_running id w (lookup id q'.jobs) q'
    else (false, q)

-- `_hard_stop_local`
unfoldable pub hard_stop_found : String → Request → Option Job → Queue → Bool × Queue
unfolding request_found acknowledge
hard_stop_found id w none q = (false, q)
hard_stop_found id w (some job) q =
    let q' = w.during_terminate (request_found id w.requested_at (some job) q) in
    if not (is_running job.status)
    then (false, q)
    else if w.terminated
    then (is_some (lookup id q'.jobs), acknowledge CancelSource.hard_stop w.acked_at id q')
    else (false, q')

unfoldable pub hard_stop_local : String → Request → Queue → Bool × Queue
unfolding hard_stop_found
hard_stop_local id w q = hard_stop_found id w (lookup id q.jobs) q
