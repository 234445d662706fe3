-- ===== src/Rollback/Guidance.antt =====
-- scripts/patchhub/rollback_preflight.py: what the helper tells agrees with what the rollback may
-- do.
use patchhub.Rollback.Later.{LaterOverlapJob}
use patchhub.Rollback.Preflight.{HelperState, TokenPayload, any_item, helper_state, preflight_of}
use patchhub.JobQueue.{state}
use patchhub.Rollback.{NormalizedSelection}
use patchhub.Prelude.{
  Bool, List, Option, String, contains, false, none, not, refl, some, true, ◌&&◌, ◌≡◌,
}

abbrev pub helper_says : (HelperState → Bool) → Bool → Option HelperState → Bool
helper_says tells silent none = silent
helper_says tells silent (some state) = tells state

abbrev pub is_blocked : HelperState → Bool
is_blocked state = any_item state.blockers

abbrev pub offers_execution : HelperState → Bool
offers_execution state = contains state.actions "execute_rollback"

helper_state-says :
    (dirty_overlap dirty_nonoverlap sync_paths chain_rows : Bool)
    → (helper_says is_blocked false (
          helper_state dirty_overlap dirty_nonoverlap sync_paths chain_rows
            (not dirty_overlap && not sync_paths))
        ≡ not (not dirty_overlap && not sync_paths))
      × (helper_says offers_execution true (
            helper_state dirty_overlap dirty_nonoverlap sync_paths chain_rows
              (not dirty_overlap && not sync_paths))
          ≡ (not dirty_overlap && not sync_paths))
unfolding helper_state contains
helper_state-says true true true chain = (refl, refl)
helper_state-says true true false chain = (refl, refl)
helper_state-says true false true chain = (refl, refl)
helper_state-says true false false chain = (refl, refl)
helper_state-says false true true chain = (refl, refl)
helper_state-says false true false chain = (refl, refl)
helper_state-says false false true chain = (refl, refl)
helper_state-says false false false true = (refl, refl)
helper_state-says false false false false = (refl, refl)

-- The helper shows a blocker exactly when the rollback cannot execute, and offers the action that
-- executes exactly when it can. A preflight without a helper shows no blocker and counts as one that
-- offers the action.
pub preflight_of-helper_says :
    (digest : TokenPayload → String) (hashed : TokenPayload) (selected : NormalizedSelection)
    (overlap nonoverlap synced : List String) (latest_head : String) (later : List LaterOverlapJob)
    → (helper_says is_blocked false
          (preflight_of digest hashed selected overlap nonoverlap synced latest_head later).helper
        ≡ not
            (preflight_of digest hashed selected overlap nonoverlap synced latest_head
              later).can_execute)
      × (helper_says offers_execution true
            (preflight_of digest hashed selected overlap nonoverlap synced latest_head later).helper
          ≡ (preflight_of digest hashed selected overlap nonoverlap synced latest_head
              later).can_execute)
preflight_of-helper_says digest hashed selected overlap nonoverlap synced latest_head later =
    helper_state-says (any_item overlap) (any_item nonoverlap) (any_item synced) (any_item later)
