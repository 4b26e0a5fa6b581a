-- ===== src/Renewal/Worker/Published.antt =====
-- core/engine/renewal/queue.go: announcements and the queue.
use certpilot.Prelude.{◌≡◌, Bool, arith, if◌then◌else◌}
use certpilot.Renewal.Worker.{World, Run, Event, publish}

pub publish_if-jobs :
    (c : Bool) (r : Run) (e : Event) (w : World) → (if c then publish r e w else w).jobs ≡ w.jobs
unfolding publish
publish_if-jobs c r e w = ground arith
