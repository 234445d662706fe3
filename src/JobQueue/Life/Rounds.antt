-- ===== src/JobQueue/Life/Rounds.antt =====
-- What a round of the loop does to the life of its job and of the other jobs.
use patchhub.Prelude.{
  Bool, Option, String, arith, false, if_keeps, none, refl, some, true, ℤ, ◌==◌, ◌||◌, ◌∷◌, ◌≡◌,
}
use patchhub.Dict.{lookup}
use patchhub.JobQueue.{Job, Mode, Queue, change_job, is_blank, is_some, revert_job, rollback}
use patchhub.JobQueue.Finalize.{Try, done, finalize_running_job, thrown}
use patchhub.JobQueue.Loop.{
  Body, Capture, ExecResult, Work, capture_error, compose_tail_timeout_error, crash, dispatch,
  end_text, failed_rc, finish_captured, finish_found, open_broker, revert_error, run_external,
  run_internal, sha,
}
use patchhub.JobQueue.Round.{start_captured, try_block}
use patchhub.JobQueue.Life.{
  IsAside, has_ended, is_aside, is_aside_refl, is_aside_trans, runs, status-change_job, status_at,
}
use patchhub.JobQueue.Life.Endings.{finalize_found-aside, finalize_found-ended}

-- Other tasks start no job and end no running one while a round awaits.
pub record IsBeside (w : Work) : Type 0 where
  pub waiting : IsAside w.waiting
  pub capturing : IsAside w.capturing
  pub working : IsAside w.working
  pub failing : IsAside w.failing
  pub reconciling : IsAside w.reconciling
  pub between : IsAside w.after.between

-- What a part of the `try` block leaves of a running job `id`, and of the others.
pub record Keeps (id : String) (q : Queue) (b : Body) : Type 0 where
  pub others : (k : String) → (id == k) ≡ false → is_aside (status_at k q) (status_at k b.q) ≡ true
  pub own : (runs (status_at id b.q) || has_ended (status_at id b.q)) ≡ true
  pub failed : is_some b.failure ≡ true → runs (status_at id b.q) ≡ true

module _ (id : String) (w : Work) (beside : IsBeside w) where
  abbrev Others : Queue → Queue → Type 0
  Others q q' = (k : String) → (id == k) ≡ false → is_aside (status_at k q) (status_at k q') ≡ true

  Others-trans : (q q₁ q₂ : Queue) → Others q q₁ → Others q₁ q₂ → Others q q₂
  Others-trans q q₁ q₂ f g k ne =
      is_aside_trans (status_at k q) (status_at k q₁) (status_at k q₂) (f k ne) (g k ne)

  aside-runs :
      (f : Queue → Queue) (q : Queue)
      → IsAside f
      → runs (status_at id q) ≡ true
      → runs (status_at id (f q)) ≡ true
  aside-runs f q aside h = ground (arith, aside id q)

  finalized-Keeps :
      (q q₁ : Queue) (rc : ℤ) (error : Option String) (result : Option ExecResult)
      (timed_out : Bool)
      → Others q q₁
      → runs (status_at id q₁) ≡ true
      → Keeps id q (record {
        q = (finalize_running_job id rc error w.after q₁).1;
        result = result;
        pump_tail_timed_out = timed_out;
        failure = none;
      })
  unfolding finalize_running_job
  finalized-Keeps q q₁ rc error result timed_out others r = record {
    others = λ k ne.
        is_aside_trans (status_at k q) (status_at k q₁) _ (others k ne)
          (finalize_found-aside id rc error w.after beside.between k (lookup id q₁.jobs) q₁ ne);
    own =
        ground
          (arith, finalize_found-ended id rc error w.after beside.between (lookup id q₁.jobs) q₁);
    failed = λ f. cc;
  }

  running-Keeps :
      (q q₁ : Queue) (result : Option ExecResult) (timed_out : Bool) (failure : Option String)
      → Others q q₁
      → runs (status_at id q₁) ≡ true
      → Keeps id q
          (record { q = q₁; result = result; pump_tail_timed_out = timed_out; failure = failure })
  running-Keeps q q₁ result timed_out failure others r = record {
    others = others;
    own = ground arith;
    failed = λ _. r;
  }

  change_job-runs :
      (count : Bool) (change : Job → Job) (q : Queue)
      → ((job : Job) → (change job).status ≡ job.status)
      → runs (status_at id q) ≡ true
      → runs (status_at id (change_job count id change q)) ≡ true
  change_job-runs count change q keeps r = rw (status-change_job count id id change q keeps) r

  change_job-Others :
      (count : Bool) (change : Job → Job) (q : Queue)
      → ((job : Job) → (change job).status ≡ job.status)
      → Others q (change_job count id change q)
  change_job-Others count change q keeps k ne =
      rw (status-change_job count id k change q keeps) (is_aside_refl (status_at k q))

  run_internal-Keeps :
      (q : Queue) (h : Try (ℤ × Option String))
      → runs (status_at id q) ≡ true
      → Keeps id q (run_internal id w q h)
  unfolding run_internal
  run_internal-Keeps q (thrown e) r =
      running-Keeps q (w.working (open_broker id q)) none false (some e)
        (λ k ne. beside.working k (open_broker id q))
        (aside-runs w.working (open_broker id q) beside.working r)
  run_internal-Keeps q (done (rc, error)) r =
      let q₁ = w.working (open_broker id q) in
      let q₂ = change_job false id (λ job. job) q₁ in
      finalized-Keeps q q₂ rc error none false
        (Others-trans q q₁ q₂ (λ k ne. beside.working k (open_broker id q))
          (change_job-Others false (λ job. job) q₁ (λ job. refl)))
        (change_job-runs false (λ job. job) q₁ (λ job. refl)
          (aside-runs w.working (open_broker id q) beside.working r))

  finish_captured-Keeps :
      (res : ExecResult) (error : Option String) (q q₁ : Queue) (c : Capture)
      → Others q q₁
      → runs (status_at id q₁) ≡ true
      → Keeps id q (finish_captured id w res error q₁ c)
  unfolding finish_captured
  finish_captured-Keeps res error q q₁ (sha s) others r =
      let change = λ (job : Job). record job { run_end_sha = some s } in
      finalized-Keeps q (change_job false id change q₁) res.return_code error (some res)
        w.pump_timed_out
        (Others-trans q q₁ (change_job false id change q₁) others
          (change_job-Others false change q₁ (λ job. refl)))
        (change_job-runs false change q₁ (λ job. refl) r)
  finish_captured-Keeps res error q q₁ (revert_error m) others r =
      finalized-Keeps q q₁ (failed_rc res.return_code) (some (capture_error error (end_text m)))
        (some res) w.pump_timed_out others r
  finish_captured-Keeps res error q q₁ (crash e) others r = running-Keeps q q₁ _ _ _ others r

  finish_found-Keeps :
      (res : ExecResult) (found : Option Job) (q q₁ : Queue)
      → Others q q₁
      → runs (status_at id q₁) ≡ true
      → Keeps id q (finish_found id w res found q₁)
  unfolding finish_found
  finish_found-Keeps res none q q₁ others r = running-Keeps q q₁ _ _ _ others r
  finish_found-Keeps res (some job) q q₁ others r =
      if_keeps (Keeps id q) (is_blank job.effective_runner_target_repo) _ _
        (λ blank.
          finalized-Keeps q q₁ res.return_code (compose_tail_timeout_error job res w.pump_timed_out)
            (some res) w.pump_timed_out others r)
        (λ set.
          finish_captured-Keeps res (compose_tail_timeout_error job res w.pump_timed_out) q q₁
            w.end_head others r)

  run_external-Keeps :
      (q : Queue) (h : Try ExecResult)
      → runs (status_at id q) ≡ true
      → Keeps id q (run_external id w q h)
  unfolding run_external
  run_external-Keeps q (thrown e) r =
      let q₁ : Queue = record q { brokers = id ∷ q.brokers; channels = id ∷ q.channels } in
      running-Keeps q (w.working q₁) none false (some e) (λ k ne. beside.working k q₁)
        (aside-runs w.working q₁ beside.working r)
  run_external-Keeps q (done res) r =
      let q₁ : Queue = record q { brokers = id ∷ q.brokers; channels = id ∷ q.channels } in
      finish_found-Keeps res (lookup id (w.working q₁).jobs) q (w.working q₁)
        (λ k ne. beside.working k q₁) (aside-runs w.working q₁ beside.working r)

  dispatch-Keeps :
      (mode : Mode) (q : Queue) → runs (status_at id q) ≡ true → Keeps id q (dispatch id w mode q)
  unfolding dispatch
  dispatch-Keeps revert_job q r = run_internal-Keeps q w.handler r
  dispatch-Keeps rollback q r = run_internal-Keeps q w.handler r
  dispatch-Keeps _ q r = run_external-Keeps q w.exec r

  from-Keeps : (q q₁ : Queue) (b : Body) → Others q q₁ → Keeps id q₁ b → Keeps id q b
  from-Keeps q q₁ b others kept = record {
    others = Others-trans q q₁ b.q others kept.others;
    own = kept.own;
    failed = kept.failed;
  }

  start_captured-Keeps :
      (mode : Mode) (c : Capture) (q : Queue)
      → runs (status_at id q) ≡ true
      → Keeps id q (start_captured id w mode c q)
  unfolding start_captured
  start_captured-Keeps mode (sha s) q r =
      let change = λ (job : Job). record job { run_start_sha = some s } in
      let q₁ = change_job false id change q in
      from-Keeps q q₁ (dispatch id w mode q₁) (change_job-Others false change q (λ job. refl))
        (dispatch-Keeps mode q₁ (change_job-runs false change q (λ job. refl) r))
  start_captured-Keeps mode (revert_error m) q r =
      running-Keeps q q none false _ (λ k ne. is_aside_refl (status_at k q)) r
  start_captured-Keeps mode (crash e) q r =
      running-Keeps q q none false _ (λ k ne. is_aside_refl (status_at k q)) r

  pub try_block-Keeps :
      (found : Option Job) (q : Queue)
      → runs (status_at id q) ≡ true
      → Keeps id q (try_block id w found q)
  unfolding try_block
  try_block-Keeps none q r =
      running-Keeps q q none false none (λ k ne. is_aside_refl (status_at k q)) r
  try_block-Keeps (some job) q r =
      if_keeps (Keeps id q) (is_blank job.effective_runner_target_repo) _ _
        (λ blank. dispatch-Keeps job.mode q r)
        (λ set.
          from-Keeps q (w.capturing q) (start_captured id w job.mode w.start_head (w.capturing q))
            (λ k ne. beside.capturing k q)
            (start_captured-Keeps job.mode w.start_head (w.capturing q)
              (aside-runs w.capturing q beside.capturing r)))
