-- ===== src/JobQueue/Life/Endings.antt =====
-- How a running job ends: the status that `_finalize_running_job` gives, and what it leaves alone.
use patchhub.Dict.{lookup}
use patchhub.Prelude.{
  Option, String, arith, eq_refl, false, none, refl, some, true, ℤ, ◌++◌, ◌==◌, ◌∙◌, ◌≡◌,
}
use patchhub.JobQueue.{Job, Queue, Status, callback_error, write_job}
use patchhub.JobQueue.Finalize.{
  After, Applied, Manifest, Try, after_finalize, done, ended, error_list, final_status,
  finalize_found, join_all, materialize_applied_files, persist_found, persist_rollback_manifest,
  set_applied, set_authority, store_manifest, success_steps, thrown,
}
use patchhub.JobQueue.Life.{
  IsAside, found_status, has_ended, is_aside, is_aside_refl, is_over, runs,
  status-append_cleanup_error, status-change_job, status-write_job, status_at,
}

-- `after_finalize` and the sections of a success write no status.
module _ (id k : String) where
  status-materialize :
      (a : Try Applied) (q : Queue)
      → status_at k (materialize_applied_files id a q).0 ≡ status_at k q
  unfolding materialize_applied_files
  status-materialize (thrown e) q = ground arith
  status-materialize (done a) q =
      ground (arith, status-change_job false id k (set_applied a) q (λ job. refl))

  status-store_manifest :
      (m : Manifest) (q : Queue) → status_at k (store_manifest id m q) ≡ status_at k q
  unfolding store_manifest
  status-store_manifest m q =
      status-change_job false id k (set_authority q.db_primary m) _
        (λ job. unfold set_authority in refl)
      ∙ ground arith

  status-persist_found :
      (found : Option Job) (m : Try Manifest) (q : Queue)
      → status_at k (persist_found id found m q).0 ≡ status_at k q
  unfolding persist_found
  status-persist_found none m q = refl
  status-persist_found (some job) (thrown e) q = ground arith
  status-persist_found (some job) (done m) q = ground (arith, status-store_manifest m q)

  status-success_steps :
      (s : Status) (w : After) (q : Queue) → status_at k (success_steps id s w q).0 ≡ status_at k q
  unfolding success_steps persist_rollback_manifest
  status-success_steps s w q =
      let q₁ = (materialize_applied_files id w.applied q).0 in
      ground (
        arith,
        status-materialize w.applied q,
        status-persist_found (lookup id q₁.jobs) w.manifest q₁,
      )

  pub status-after_finalize :
      (s : Status) (w : After) (q : Queue)
      → IsAside w.between
      → is_aside (status_at k q) (status_at k (after_finalize id s w q)) ≡ true
  unfolding after_finalize
  status-after_finalize s w q aside =
      let q₁ = (success_steps id s w q).0 in
      ground (
        arith,
        status-success_steps s w q,
        aside k q₁,
        status-append_cleanup_error id k
            (join_all ((success_steps id s w q).1 ++ error_list (callback_error w.cleanup)))
            (w.between q₁),
      )

pub is_over-final_status : (job : Job) (rc : ℤ) → is_over (final_status job rc) ≡ true
unfolding final_status
is_over-final_status job rc = ground arith

module _ (id : String) (rc : ℤ) (error : Option String) (w : After)
    (aside : IsAside w.between) where
  pub finalize_found-ended :
      (found : Option Job) (q : Queue)
      → runs (found_status found) ≡ true
      → has_ended (status_at id (finalize_found id rc error w found q).1) ≡ true
  unfolding finalize_found ended
  finalize_found-ended none q h = cc
  finalize_found-ended (some job) q h =
      let job' = ended job rc error w.ended_at in
      let q₁ = write_job true id job' q in
      ground (
        arith,
        status-write_job true id id job' q,
        eq_refl id,
        is_over-final_status job rc,
        status-after_finalize id id job'.status w q₁ aside,
      )

  pub finalize_found-idle :
      (found : Option Job) (q : Queue)
      → runs (found_status found) ≡ false
      → finalize_found id rc error w found q ≡ (false, q)
  unfolding finalize_found
  finalize_found-idle none q h = refl
  finalize_found-idle (some job) q h = ground arith

  pub finalize_found-aside :
      (k : String) (found : Option Job) (q : Queue)
      → (id == k) ≡ false
      → is_aside (status_at k q) (status_at k (finalize_found id rc error w found q).1) ≡ true
  unfolding finalize_found
  finalize_found-aside k none q h = is_aside_refl (status_at k q)
  finalize_found-aside k (some job) q h =
      let job' = ended job rc error w.ended_at in
      let q₁ = write_job true id job' q in
      ground (
        arith,
        is_aside_refl (status_at k q),
        status-write_job true id k job' q,
        status-after_finalize id k job'.status w q₁ aside,
      )
