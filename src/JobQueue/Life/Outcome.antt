-- ===== src/JobQueue/Life/Outcome.antt =====
-- What `except`, `finally` and so a started round do to the life of the jobs.
use patchhub.Prelude.{
  Bool, Option, String, arith, eq_iff, eq_refl, false, none, refl, some, true, ℤ, ◌==◌, ◌||◌, ◌≡◌,
}
use patchhub.Dict.{lookup, lookup-insert}
use patchhub.JobQueue.{Job, Queue, callback_error, is_some, join_error, write_job}
use patchhub.JobQueue.Finalize.{
  fallback_error, fallback_rc, finalize_found, finalize_running_job, reconcile_active_job,
}
use patchhub.JobQueue.Loop.{Body, ExecResult, Work}
use patchhub.JobQueue.Round.{
  except_block, fail_found, finally_block, keep_canceled, note_error, reconcile_error, reconcile_rc,
  run_started, try_block,
}
use patchhub.JobQueue.Life.{
  found_status, has_ended, is_aside, is_aside_refl, is_aside_trans, runs,
  status-append_cleanup_error, status-write_job, status_at,
}
use patchhub.JobQueue.Life.Endings.{finalize_found-aside, finalize_found-ended}
use patchhub.JobQueue.Life.Rounds.{IsBeside, try_block-Keeps}

module _ (id : String) (w : Work) (beside : IsBeside w) where
  fail_found-ended :
      (e : String) (found : Option Job) (q : Queue)
      → runs (found_status found) ≡ true
      → has_ended (status_at id (fail_found id w e found q)) ≡ true
  unfolding fail_found
  fail_found-ended e none q r = cc
  fail_found-ended e (some job) q r =
      let job' : Job = record job {
        status = keep_canceled job.status;
        ended_utc = some w.failed_at;
        error = some e;
      } in
      let q₁ = write_job true id job' q in
      ground (
        arith,
        status-write_job true id id job' q,
        eq_refl id,
        beside.failing id q₁,
        status-append_cleanup_error id id (callback_error w.failure_cleanup) (w.failing q₁),
      )

  fail_found-aside :
      (k e : String) (found : Option Job) (q : Queue)
      → (id == k) ≡ false
      → is_aside (status_at k q) (status_at k (fail_found id w e found q)) ≡ true
  unfolding fail_found
  fail_found-aside k e none q ne = is_aside_refl (status_at k q)
  fail_found-aside k e (some job) q ne =
      let job' : Job = record job {
        status = keep_canceled job.status;
        ended_utc = some w.failed_at;
        error = some e;
      } in
      let q₁ = write_job true id job' q in
      ground (
        arith,
        status-write_job true id k job' q,
        beside.failing k q₁,
        status-append_cleanup_error id k (callback_error w.failure_cleanup) (w.failing q₁),
      )

  status-note_error :
      (k e : String) (found : Option Job) (q : Queue)
      → lookup id q.jobs ≡ found
      → status_at k (note_error id e found q) ≡ status_at k q
  status-note_error k e none q h = refl
  status-note_error k e (some job) q h = ground (
    arith,
    lookup-insert id k (record job { error = some (join_error job.error e) }) q.jobs,
    eq_iff id k,
  )

  -- After `except`, the job runs or has ended.
  except_block-own :
      (result : Option ExecResult) (failure : Option String) (q : Queue)
      → (runs (status_at id q) || has_ended (status_at id q)) ≡ true
      → (is_some failure ≡ true → runs (status_at id q) ≡ true)
      → (runs (status_at id (except_block id w result failure q))
          || has_ended (status_at id (except_block id w result failure q)))
        ≡ true
  unfolding except_block
  except_block-own result none q own failed = own
  except_block-own none (some e) q own failed =
      ground (arith, fail_found-ended e (lookup id q.jobs) q (failed refl))
  except_block-own (some res) (some e) q own failed =
      ground (arith, status-note_error id e (lookup id q.jobs) q refl)

  except_block-aside :
      (k : String) (result : Option ExecResult) (failure : Option String) (q : Queue)
      → (id == k) ≡ false
      → is_aside (status_at k q) (status_at k (except_block id w result failure q)) ≡ true
  unfolding except_block
  except_block-aside k result none q ne = is_aside_refl (status_at k q)
  except_block-aside k none (some e) q ne = fail_found-aside k e (lookup id q.jobs) q ne
  except_block-aside k (some res) (some e) q ne =
      rw (status-note_error k e (lookup id q.jobs) q refl) (is_aside_refl (status_at k q))

  reconcile-own :
      (rc : Option ℤ) (error : Option String) (q : Queue)
      → (runs (status_at id q) || has_ended (status_at id q)) ≡ true
      → has_ended (status_at id (reconcile_active_job id rc error false w.reconciling w.after q).1)
        ≡ true
  unfolding reconcile_active_job finalize_running_job
  reconcile-own rc error q own =
      let q₁ = w.reconciling q in
      ground (
        arith,
        beside.reconciling id q,
        finalize_found-ended id (fallback_rc rc) (some (fallback_error error)) w.after
            beside.between (lookup id q₁.jobs) q₁,
      )

  reconcile-aside :
      (k : String) (rc : Option ℤ) (error : Option String) (executor_runs : Bool) (q : Queue)
      → (id == k) ≡ false
      → is_aside
          (status_at k q)
          (status_at k (reconcile_active_job id rc error executor_runs w.reconciling w.after q).1)
        ≡ true
  unfolding reconcile_active_job finalize_running_job
  reconcile-aside k rc error executor_runs q ne =
      let q₁ = w.reconciling q in
      let q₂ =
        (finalize_found id (fallback_rc rc) (some (fallback_error error)) w.after
          (lookup id q₁.jobs) q₁).1 in
      ground (
        arith,
        is_aside_refl (status_at k q),
        beside.reconciling k q,
        finalize_found-aside id (fallback_rc rc) (some (fallback_error error)) w.after
            beside.between k (lookup id q₁.jobs) q₁ ne,
        is_aside_trans (status_at k q) (status_at k q₁) (status_at k q₂),
      )

  finally_block-own :
      (b : Body) (q : Queue)
      → w.executor_runs ≡ false
      → (runs (status_at id q) || has_ended (status_at id q)) ≡ true
      → has_ended (status_at id (finally_block id w b q)) ≡ true
  unfolding finally_block
  finally_block-own b q idle own = rw idle (
      reconcile-own (reconcile_rc b.result)
        (reconcile_error b.result b.pump_tail_timed_out (lookup id q.jobs)) q own)

  finally_block-aside :
      (k : String) (b : Body) (q : Queue)
      → (id == k) ≡ false
      → is_aside (status_at k q) (status_at k (finally_block id w b q)) ≡ true
  unfolding finally_block
  finally_block-aside k b q ne =
      reconcile-aside k (reconcile_rc b.result)
        (reconcile_error b.result b.pump_tail_timed_out (lookup id q.jobs)) w.executor_runs q ne

  pub run_started-own :
      (q : Queue)
      → w.executor_runs ≡ false
      → runs (status_at id q) ≡ true
      → has_ended (status_at id (run_started id w q)) ≡ true
  unfolding run_started
  run_started-own q idle r =
      let b = try_block id w (lookup id q.jobs) q in
      let kept = try_block-Keeps id w beside (lookup id q.jobs) q r in
      finally_block-own b (except_block id w b.result b.failure b.q) idle
        (except_block-own b.result b.failure b.q kept.own kept.failed)

  pub run_started-aside :
      (k : String) (q : Queue)
      → runs (status_at id q) ≡ true
      → (id == k) ≡ false
      → is_aside (status_at k q) (status_at k (run_started id w q)) ≡ true
  unfolding run_started
  run_started-aside k q r ne =
      let b = try_block id w (lookup id q.jobs) q in
      let q₁ = except_block id w b.result b.failure b.q in
      let kept = try_block-Keeps id w beside (lookup id q.jobs) q r in
      is_aside_trans (status_at k q) (status_at k b.q) _ (kept.others k ne) (
        is_aside_trans (status_at k b.q) (status_at k q₁) _
          (except_block-aside k b.result b.failure b.q ne) (finally_block-aside k b q₁ ne))
