-- ===== src/Rollback/Readiness.antt =====
-- scripts/patchhub/rollback_preflight.py, asgi/rollback_runtime.py: a rollback that goes ahead finds
-- no path of the selection changed by hand.
use patchhub.Rollback.Repository.{dirty_paths}
use patchhub.Answers.{Answers}
use patchhub.Dict.{Dict}
use patchhub.Rollback.Preflight.{Preflight}
use patchhub.Prelude.{List, String, contains, false, true, ◌≡◌}

-- No path that the rollback restores is among the dirty ones, when it may go ahead.
abbrev IsClean : List String → String → Preflight → Type 0
IsClean lines p preflight =
    preflight.can_execute ≡ true
    → contains preflight.selection.selected_restore_paths p ≡ true
    → contains (dirty_paths lines) p ≡ false
