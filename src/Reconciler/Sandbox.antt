-- ===== src/Reconciler/Sandbox.antt =====
-- internal/reconciler/sandbox_reconciler.go: one sandbox and the workload behind it. The start of a
-- sandbox's workload is in the child `Launch`. `fuel` bounds the pages of a listing.
mod State
mod Launch
pub mod Steps
pub mod Deletion
pub use State.{SandboxPlan}
unfoldable pub use State.{
  update_sandbox_runtime_state, runtime_state_already_current, ttl_expired, sandbox_idle,
  same_sandbox_status, mark_sandbox_failed,
}
unfoldable pub use Launch.{start_sandbox_workload}
use agents_orchestrator.Prelude.{
  ℕ, zero, suc, String, Bool, true, false, not, ◌&&◌, ◌||◌, Option, none, some, List, [], ◌∷◌, ◌++◌,
  Time, trim_space, is_some, if◌then◌else◌, ◌==◌,
}
use agents_orchestrator.Errors.{Error, Result, ok, err, fault}
use agents_orchestrator.Api.{
  Workload, WorkloadStatus, Volume, VolumeStatus, Sandbox, SandboxStatus, OwnerKind, meta_id,
  is_sandbox_kind,
}
use agents_orchestrator.Uuid.{parse_uuid}
use agents_orchestrator.Platform
use agents_orchestrator.Platform.{UpdateVolume, WorkloadQuery, Page}
use agents_orchestrator.Effect.{
  Eff, pure, fail, lift, asks, attempt, ignore, continue, ◌>>=◌, ◌>>◌, when, each,
}
use agents_orchestrator.Reconciler.Records.{
  is_active_workload_status, is_pinned_volume_status, normalize_runner_workload_id,
}
use agents_orchestrator.Reconciler.Runner.{delete_identity}
use agents_orchestrator.Reconciler.Workloads.{handle_present_runner_workload}
use agents_orchestrator.Reconciler.Stop.{stop_workload_with_context}

unfoldable pub sandbox_workload_pages :
    ℕ → String → String → List (Option Workload) → Eff (List (Option Workload))
sandbox_workload_pages zero id token acc = fail (fault "context deadline exceeded")
sandbox_workload_pages (suc fuel) id token acc = do
  page ← Platform.list_workloads (WorkloadQuery.of_sandbox id) token
  if page.next == ""
      then pure (acc ++ page.items)
      else sandbox_workload_pages fuel id page.next (acc ++ page.items)

unfoldable pub sandbox_volume_pages :
    ℕ → String → String → List (Option Volume) → Eff (List (Option Volume))
sandbox_volume_pages zero id token acc = fail (fault "context deadline exceeded")
sandbox_volume_pages (suc fuel) id token acc = do
  page ← Platform.list_sandbox_volumes id token
  if page.next == ""
      then pure (acc ++ page.items)
      else sandbox_volume_pages fuel id page.next (acc ++ page.items)

-- stopSandboxWorkload. The snapshot of the shells, which never fails, is one event here.
-- What it reads and requests is in ShellSnapshot.
unfoldable pub stop_sandbox_workload : Workload → Eff (Unit {0})
stop_sandbox_workload w =
    if meta_id w.meta == "" then fail (fault "sandbox workload meta missing") else do
      when
          (w.persistent_shells
            && (not (trim_space w.owner_id == "") && is_sandbox_kind w.owner_kind))
          (Platform.snapshot_shells (trim_space w.owner_id))
      stop_workload_with_context w
      ziti ← asks (λ env. env.settings.has_ziti)
      when (ziti && not (w.ziti_identity_id == "")) (delete_identity w.ziti_identity_id)

-- The loop over the workloads: the first active one is the sandbox's, any other is stopped.
unfoldable pub pick_active : List (Option Workload) → Option Workload → Eff (Option Workload)
pick_active [] found = pure found
pick_active (none ∷ ws) found = pick_active ws found
pick_active (some w ∷ ws) none =
    pick_active ws (if is_active_workload_status w.status then some w else none)
pick_active (some w ∷ ws) (some found) =
    if is_active_workload_status w.status
    then stop_sandbox_workload w >> pick_active ws (some found)
    else pick_active ws (some found)

unfoldable pub pinned_volumes : List (Option Volume) → List Volume
pinned_volumes [] = []
pinned_volumes (none ∷ vs) = pinned_volumes vs
pinned_volumes (some v ∷ vs) =
    if is_pinned_volume_status v.status then v ∷ pinned_volumes vs else pinned_volumes vs

-- loadSandboxWorkloadPlan
unfoldable pub load_sandbox_workload_plan : ℕ → Sandbox → Eff SandboxPlan
unfolding sandbox_workload_pages sandbox_volume_pages pick_active pinned_volumes
load_sandbox_workload_plan fuel s = elim s.meta [
  | none ↦ fail (fault "sandbox meta missing")
  | some m ↦ do
    parse ← asks (λ env. env.parse_uuid)
    id ← lift (parse_uuid parse m.id)
    workloads ← sandbox_workload_pages fuel id "" []
    volumes ← sandbox_volume_pages fuel id "" []
    active ← pick_active workloads none
    pure (record {
      sandbox = s;
      sandbox_id = id;
      workspace_volumes = pinned_volumes volumes;
      active_workload = active;
    })
]

follow_status : Sandbox → Workload → WorkloadStatus → Eff (Unit {0})
unfolding update_sandbox_runtime_state
follow_status s w WorkloadStatus.running =
    update_sandbox_runtime_state s SandboxStatus.running (meta_id w.meta) false
follow_status s w WorkloadStatus.failed =
    update_sandbox_runtime_state s SandboxStatus.failed "" true
follow_status s w _ = pure tt

-- reconcileActiveSandboxWorkload, and the workload as it leaves it.
unfoldable pub reconcile_active_sandbox_workload : Sandbox → Workload → Eff Workload
unfolding follow_status
reconcile_active_sandbox_workload s w =
    if trim_space w.runner_id == ""
    then fail (fault "sandbox workload %s runner id missing")
    else if trim_space w.owner_id == ""
    then fail (fault "sandbox workload %s owner id missing")
    else do
      Platform.dial (trim_space w.runner_id)
      parse ← asks (λ env. env.parse_uuid)
      let instance_id = normalize_runner_workload_id parse w.instance_id
      if instance_id == "" then pure w else do
        w' ← handle_present_runner_workload (trim_space w.runner_id) w instance_id
        follow_status s w' w'.status
        pure w'

delete_volume : Volume → Eff (Unit {0})
delete_volume v = do
  when (not (v.runner_id == ""))
      (do Platform.dial v.runner_id; Platform.remove_volume v.runner_id (meta_id v.meta))
  removed_at ← Platform.now
  Platform.update_volume (record {
    id = meta_id v.meta;
    status = some VolumeStatus.deleted;
    instance_id = none;
    removed_at = some removed_at;
  })

-- deleteSandboxWorkspace
unfoldable pub delete_sandbox_workspace : List Volume → Eff (Unit {0})
unfolding delete_volume
delete_sandbox_workspace vs = each delete_volume vs

stop_active : Option Workload → Eff (Unit {0})
stop_active none = pure tt
stop_active (some w) = stop_sandbox_workload w

-- terminateSandbox
unfoldable pub terminate_sandbox : SandboxPlan → Eff (Unit {0})
unfolding stop_active delete_sandbox_workspace
terminate_sandbox plan = do
  stop_active plan.active_workload
  update_sandbox_runtime_state plan.sandbox SandboxStatus.terminated "" true
  delete_sandbox_workspace plan.workspace_volumes
  Platform.delete_sandbox plan.sandbox_id

-- startSandboxWorkloadAttempt: a start that fails fails the sandbox.
after_attempt : SandboxPlan → Result (Unit {0}) → Eff (Unit {0})
after_attempt plan (ok _) = pure tt
after_attempt plan (err e) =
    update_sandbox_runtime_state plan.sandbox SandboxStatus.failed "" true >> fail e

unfoldable pub start_sandbox_workload_attempt : SandboxPlan → Eff (Unit {0})
unfolding after_attempt start_sandbox_workload
start_sandbox_workload_attempt plan = do
  r ← attempt (start_sandbox_workload plan)
  after_attempt plan r

-- The cases of the switch, each over the active workload.
when_starting : SandboxPlan → Option Workload → Eff (Unit {0})
unfolding start_sandbox_workload_attempt reconcile_active_sandbox_workload
when_starting plan none = start_sandbox_workload_attempt plan
when_starting plan (some w) = do _ ← reconcile_active_sandbox_workload plan.sandbox w; pure tt

when_running : SandboxPlan → Time → Option Workload → Eff (Unit {0})
unfolding start_sandbox_workload_attempt reconcile_active_sandbox_workload
when_running plan now none =
    if is_some plan.sandbox.workload_id
    then update_sandbox_runtime_state plan.sandbox SandboxStatus.stopped "" true
    else start_sandbox_workload_attempt plan
when_running plan now (some w) = do
  w' ← reconcile_active_sandbox_workload plan.sandbox w
  duration ← asks (λ env. env.parse_duration)
  if sandbox_idle duration plan.sandbox w' now
      then (do
        stop_sandbox_workload w'
        update_sandbox_runtime_state plan.sandbox SandboxStatus.stopped "" true)
      else pure tt

-- A sandbox that is to have no workload: stopped and failed alike.
when_ended : SandboxPlan → SandboxStatus → Option Workload → Eff (Unit {0})
when_ended plan status (some w) = do
  stop_sandbox_workload w
  update_sandbox_runtime_state plan.sandbox status "" true
when_ended plan status none =
    when (is_some plan.sandbox.workload_id)
      (update_sandbox_runtime_state plan.sandbox status "" true)

when_terminated : SandboxPlan → Eff (Unit {0})
unfolding stop_active delete_sandbox_workspace
when_terminated plan = do
  stop_active plan.active_workload
  when (is_some plan.sandbox.workload_id)
      (update_sandbox_runtime_state plan.sandbox SandboxStatus.terminated "" true)
  delete_sandbox_workspace plan.workspace_volumes

by_status : SandboxPlan → Time → SandboxStatus → Eff (Unit {0})
unfolding when_starting when_running when_ended when_terminated
by_status plan now SandboxStatus.starting = when_starting plan plan.active_workload
by_status plan now SandboxStatus.running = when_running plan now plan.active_workload
by_status plan now SandboxStatus.stopped =
    when_ended plan SandboxStatus.stopped plan.active_workload
by_status plan now SandboxStatus.failed = when_ended plan SandboxStatus.failed plan.active_workload
by_status plan now SandboxStatus.terminated = when_terminated plan
by_status plan now SandboxStatus.unspecified = fail (fault "sandbox %s status unspecified")
by_status plan now (SandboxStatus.other n) = fail (fault "sandbox %s status %s unsupported")

-- What reconcileSandbox does with the plan that it has loaded.
unfoldable pub follow_plan : SandboxPlan → Time → Eff (Unit {0})
unfolding by_status terminate_sandbox
follow_plan plan now = do
  duration ← asks (λ env. env.parse_duration)
  if ttl_expired duration plan.sandbox now
        && not (same_sandbox_status plan.sandbox.status SandboxStatus.terminated)
      then terminate_sandbox plan
      else by_status plan now plan.sandbox.status

-- reconcileSandbox
unfoldable pub reconcile_sandbox : ℕ → Sandbox → Time → Eff (Unit {0})
unfolding load_sandbox_workload_plan follow_plan
reconcile_sandbox fuel s now = do plan ← load_sandbox_workload_plan fuel s; follow_plan plan now
