-- ===== src/Coordinator/Maintenance/Examples.antt =====
-- The maintenance scheduler with a collector that fails once.
use syncali.Prelude.{none, List, [], ◌∷◌, same, if◌then◌else◌}
use syncali.Coordinator.Maintenance.{
  Scheduler, blob_gc, health_summary_flush, defer, failed, finished,
}
use syncali.Coordinator.Maintenance.Alarm.{Handlers, SchedulerCall, defers, fires, looks}

abbrev idle : Scheduler
idle = record { jobs = []; alarm = none }

-- The collector fails, and asks for a flush of the health summary at once.
abbrev handlers : Handlers Unit
handlers key now (w, s) =
    if same key blob_gc
    then (failed "lost", (w, defer health_summary_flush now now s))
    else (finished, (w, s))

abbrev calls : List (SchedulerCall Unit)
calls = defers blob_gc 5 1 ∷ fires handlers 1_800_000 ∷ looks ∷ []
