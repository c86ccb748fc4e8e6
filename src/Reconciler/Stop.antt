-- ===== src/Reconciler/Stop.antt =====
-- stopWorkload and stopWorkloadWithContext of reconciler.go.
pub mod Ends
use agents_orchestrator.Prelude.{
  String, Bool, true, false, not, ◌&&◌, Option, none, some, List, [], ◌∷◌, Time, lower_contains,
  if◌then◌else◌, ◌==◌,
}
use agents_orchestrator.Errors.{Error, Result, ok, err, fault}
use agents_orchestrator.Api.{Workload, WorkloadStatus, FailureReason, meta_id}
use agents_orchestrator.Platform
use agents_orchestrator.Platform.{UpdateWorkload}
use agents_orchestrator.Effect.{Eff, pure, fail, asks, attempt, ignore, continue, ◌>>=◌, ◌>>◌, when}
use agents_orchestrator.Reconciler.Records.{normalize_runner_workload_id}
use agents_orchestrator.Reconciler.Runner.{
  delete_identity, stop_runner_workload, mark_workload_failed, revoke_pull_credential,
}
use agents_orchestrator.Reconciler.Workloads.{handle_missing_runner_workload}

-- runnerdial.IsNoTerminators
unfoldable pub is_no_terminators : Error → Bool
is_no_terminators e = lower_contains "no terminators" e.text

abbrev pub status_update : String → WorkloadStatus → Option Time → UpdateWorkload
status_update id status removed_at = record {
  id = id;
  status = some status;
  instance_id = none;
  removed_at = removed_at;
  failure_reason = none;
  failure_message = none;
  containers = [];
}

-- The runner cannot be reached at all, or the error is passed on.
unreachable : Workload → Error → Eff (Unit {0})
unfolding is_no_terminators
unreachable w e = if is_no_terminators e then handle_missing_runner_workload w else fail e

-- What follows the runner's answer to the stop.
unfoldable pub conclude_stop : Workload → Eff (Unit {0})
conclude_stop w = do
  removed_at ← Platform.now
  Platform.update_workload (status_update (meta_id w.meta) WorkloadStatus.stopped (some removed_at))
  revoke_pull_credential (meta_id w.meta)
  ziti ← asks (λ env. env.settings.has_ziti)
  when (ziti && not (w.ziti_identity_id == "")) (delete_identity w.ziti_identity_id)

after_runner_stop : Workload → Result (Unit {0}) → Eff (Unit {0})
unfolding conclude_stop unreachable
after_runner_stop w (ok _) = conclude_stop w
after_runner_stop w (err e) = unreachable w e

after_dial : Workload → String → Result (Unit {0}) → Eff (Unit {0})
unfolding after_runner_stop unreachable
after_dial w instance_id (err e) = unreachable w e
after_dial w instance_id (ok _) = do
  Platform.update_workload (status_update (meta_id w.meta) WorkloadStatus.stopping none)
  r ← attempt (stop_runner_workload w.runner_id instance_id)
  after_runner_stop (record w { status = WorkloadStatus.stopping }) r

-- stopWorkloadWithContext
unfoldable pub stop_workload_with_context : Workload → Eff (Unit {0})
unfolding after_dial
stop_workload_with_context w =
    if meta_id w.meta == "" then fail (fault "workload missing id") else do
      parse ← asks (λ env. env.parse_uuid)
      let instance_id = normalize_runner_workload_id parse w.instance_id
      if instance_id == ""
          then mark_workload_failed (meta_id w.meta) none FailureReason.runtime_lost
              "missing instance id" []
          else if w.runner_id == ""
          then fail (fault "workload %s missing runner id")
          else (do r ← attempt (Platform.dial w.runner_id); after_dial w instance_id r)

-- stopWorkload
unfoldable pub stop_workload : Workload → Eff (Unit {0})
stop_workload w = if meta_id w.meta == "" then pure tt else ignore (stop_workload_with_context w)
