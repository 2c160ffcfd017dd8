-- ===== src/Examples/Statuses.antt =====
-- Histories of a deployment.
use shipwick.Base.{◌≡◌, ◌⊎◌, ◌<◌, refl, true}
use shipwick.Status.{rollback, restoring, can_transition, is_settled, progress}
use shipwick.Status.Machine.{can_transition-progress}

can_transition-progress_example :
    (is_settled restoring ≡ true) ⊎ (progress rollback < progress restoring)
unfolding can_transition
can_transition-progress_example = can_transition-progress rollback restoring refl
