-- ===== src/Reconciler/Workloads.antt =====
-- How one tracked workload is reconciled with what its runner reports: handleMissingRunnerWorkload,
-- handlePresentRunnerWorkload and failWorkloadOnRunner of workload_reconcile.go. The Go handlers
-- write the new status into the shared record; here they return it.
pub mod Status
use agents_orchestrator.Prelude.{
  ℕ, String, Bool, true, false, not, ◌&&◌, ◌||◌, Option, none, some, List, [], ◌∷◌, length, nat_eq,
  Time, if◌then◌else◌, ◌==◌, is_some,
}
use agents_orchestrator.Errors.{Error, Result, ok, err, fault}
use agents_orchestrator.Api.{
  Workload, WorkloadStatus, FailureReason, Container, Inspection, meta_id, is_stopping,
}
use agents_orchestrator.Platform
use agents_orchestrator.Platform.{UpdateWorkload}
use agents_orchestrator.Effect.{
  Eff, pure, fail, lift, asks, attempt, ignore, continue, ◌>>=◌, ◌>>◌, when,
}
use agents_orchestrator.Reconciler.Records.{string_ptr, normalize_runner_workload_id}
use agents_orchestrator.Reconciler.Runner.{
  delete_identity, stop_runner_workload, inspect_runner_workload, mark_workload_failed,
  map_runner_containers,
}
use agents_orchestrator.Reconciler.Classify.{
  WorkloadFailure, Verdict, fails, ready, waits, classify_starting_containers,
  classify_running_containers,
}

-- `if r.zitiMgmt != nil && workload.GetZitiIdentityId() != ""`, errors logged
unfoldable pub drop_identity : Workload → Eff (Unit {0})
drop_identity w = do
  ziti ← asks (λ env. env.settings.has_ziti)
  when (ziti && not (w.ziti_identity_id == "")) (ignore (delete_identity w.ziti_identity_id))

unfoldable pub missing : WorkloadStatus → String → Workload → Eff (Unit {0})
unfolding drop_identity
missing WorkloadStatus.starting id w = do
  mark_workload_failed id (string_ptr w.instance_id) FailureReason.runtime_lost
      "workload missing on runner" []
  drop_identity w
missing WorkloadStatus.running id w = do
  mark_workload_failed id (string_ptr w.instance_id) FailureReason.runtime_lost
      "workload missing on runner" []
  drop_identity w
missing WorkloadStatus.stopping id w = do
  missing_at ← Platform.now
  Platform.update_workload (record {
    id = id;
    status = some WorkloadStatus.stopped;
    instance_id = none;
    removed_at = some missing_at;
    failure_reason = none;
    failure_message = none;
    containers = [];
  })
missing _ id w = pure tt

-- handleMissingRunnerWorkload
unfoldable pub handle_missing_runner_workload : Workload → Eff (Unit {0})
unfolding missing
handle_missing_runner_workload w =
    if meta_id w.meta == "" then pure tt else missing w.status (meta_id w.meta) w

-- failWorkloadOnRunner, and the workload with its new status
unfoldable pub fail_workload_on_runner :
    String → Workload → String → WorkloadFailure → List Container → Eff Workload
unfolding drop_identity
fail_workload_on_runner runner w instance_id failure containers =
    if meta_id w.meta == "" then pure w else do
      mark_workload_failed (meta_id w.meta) (string_ptr instance_id) failure.reason failure.message
          containers
      ignore (stop_runner_workload runner instance_id)
      drop_identity w
      pure (record w { status = WorkloadStatus.failed })

-- What the inspection tells: the mapped containers, `inspectStateRunning`, `inspectContainerCount`.
pub record Observed : Type 0 where
  pub containers : Option (List Container)
  pub state_running : Bool
  pub container_count : ℕ

unfoldable pub observe : Result Inspection → Observed
unfolding map_runner_containers
observe (err e) = record { containers = none; state_running = false; container_count = 0 }
observe (ok i) = record {
  containers = elim (map_runner_containers i.containers) [ err e ↦ none | ok mapped ↦ mapped ];
  state_running = i.state_running;
  container_count = length i.containers;
}

-- What the `switch` on the status decides: fail the workload, or go on with a new status or none.
pub data Decision : Type 0 where
  fails_with : WorkloadFailure → List Container → Decision
  becomes : Option WorkloadStatus → Decision

of_verdict : List Container → Verdict → Decision
of_verdict cs (fails f) = fails_with f cs
of_verdict cs ready = becomes (some WorkloadStatus.running)
of_verdict cs waits = becomes none

of_running : List Container → Option WorkloadFailure → Decision
of_running cs none = becomes none
of_running cs (some f) = fails_with f cs

decide_status : WorkloadStatus → Option (List Container) → Observed → Workload → Eff Decision
unfolding of_verdict of_running
decide_status WorkloadStatus.starting (some cs) o w = do
  now ← Platform.now
  v ← lift (classify_starting_containers cs w now)
  pure (of_verdict cs v)
decide_status WorkloadStatus.starting none o w = pure (
    becomes
      (if o.state_running && nat_eq o.container_count 0 then some WorkloadStatus.running else none))
decide_status WorkloadStatus.running (some cs) o w =
    pure (of_running cs (classify_running_containers cs))
decide_status _ cs o w = pure (becomes none)

unfoldable pub decide_present : Workload → Observed → Eff Decision
unfolding decide_status
decide_present w o = decide_status w.status o.containers o w

or_status : Option WorkloadStatus → WorkloadStatus → WorkloadStatus
or_status none s = s
or_status (some t) s = t

some_list : Option (List Container) → List Container
some_list none = []
some_list (some cs) = cs

-- The update, if anything changed, and the stop of a workload that is stopping.
unfoldable pub finish_present :
    String → Workload → String → Observed → Option WorkloadStatus → Eff Workload
unfolding or_status some_list
finish_present runner w instance_id o status = do
  let moved = not (w.instance_id == instance_id)
  w' ←
      (if moved || (is_some o.containers || is_some status)
        then (do
          Platform.update_workload (record {
            id = meta_id w.meta;
            status = status;
            instance_id = if moved then string_ptr instance_id else none;
            removed_at = none;
            failure_reason = none;
            failure_message = none;
            containers = some_list o.containers;
          })
          pure (record w {
            status = or_status status w.status;
            instance_id = if moved then instance_id else w.instance_id;
          }))
        else pure w)
  when (is_stopping w'.status) (stop_runner_workload runner instance_id)
  pure w'

act_present : String → Workload → String → Observed → Decision → Eff Workload
unfolding finish_present fail_workload_on_runner
act_present runner w instance_id o (fails_with f cs) =
    fail_workload_on_runner runner w instance_id f cs
act_present runner w instance_id o (becomes status) = finish_present runner w instance_id o status

-- handlePresentRunnerWorkload; `reported` is the instance id of the runner's item.
unfoldable pub handle_present_runner_workload : String → Workload → String → Eff Workload
unfolding act_present decide_present observe
handle_present_runner_workload runner w reported = if meta_id w.meta == "" then pure w else do
  parse ← asks (λ env. env.parse_uuid)
  let instance_id = normalize_runner_workload_id parse reported
  if instance_id == "" then pure w else do
    r ← attempt (inspect_runner_workload runner instance_id)
    decision ← decide_present w (observe r)
    act_present runner w instance_id (observe r) decision
