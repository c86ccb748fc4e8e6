-- ===== src/Reconciler/Stop/Ends.antt =====
-- What a stop leaves in the workload's record.
use agents_orchestrator.Prelude.{
  ◌<◌, String, ◌≡◌, refl, Bool, true, false, ◌&&◌, Option, none, some, List, [], ◌∷◌, arith, count,
  ◌==◌, eq_refl,
}
use agents_orchestrator.Errors.{Error, Result, ok, err}
use agents_orchestrator.Api.{Workload, WorkloadStatus, FailureReason, Container, meta_id}
use agents_orchestrator.Platform.{Event, Trace, Env, UpdateWorkload}
use agents_orchestrator.Platform
use agents_orchestrator.Reconciler.Records.{
  string_ptr, normalize_runner_workload_id, is_active_workload_status,
}
use agents_orchestrator.Reconciler.Runner.{
  stop_runner_workload, stop_runner_workload_with_prefix, after_stop, after_prefixed_stop,
  mark_workload_failed, revoke_pull_credential,
}
use agents_orchestrator.Reconciler.Workloads.{
  handle_missing_runner_workload, missing, drop_identity,
}
use agents_orchestrator.Reconciler.Stop.{
  status_update, unreachable, conclude_stop, after_runner_stop, after_dial,
  stop_workload_with_context,
}

abbrev is_end : Option WorkloadStatus → Bool
is_end (some WorkloadStatus.stopped) = true
is_end (some WorkloadStatus.failed) = true
is_end _ = false

-- The record of a workload is written as stopped or failed.
abbrev pub ends : String → Event → Bool
ends id (Event.update_workload u r) = u.id == id && is_end u.status
ends id _ = false

stop-ends :
    (i : String) (runner id : String) (env : Env) (t : Trace)
    → count (ends i) t ≡ count (ends i) (stop_runner_workload runner id env t).1
unfolding stop_runner_workload after_stop stop_runner_workload_with_prefix after_prefixed_stop
    Platform.stop
stop-ends i runner id env t = ground arith

mark-ends :
    (id : String) (i : Option String) (reason : FailureReason) (m : String) (cs : List Container)
    (env : Env) (t : Trace)
    → count (ends id) t < count (ends id) (mark_workload_failed id i reason m cs env t).1
unfolding mark_workload_failed Platform.update_workload
mark-ends id i reason m cs env t = ground (arith, eq_refl id)

drop-ends :
    (id : String) (w : Workload) (env : Env) (t : Trace)
    → count (ends id) (drop_identity w env t).1 ≡ count (ends id) t
unfolding drop_identity Platform.delete_identity
drop-ends id w env t = ground arith

conclude-ends :
    (w : Workload) (env : Env) (t : Trace)
    → count (ends (meta_id w.meta)) t < count (ends (meta_id w.meta)) (conclude_stop w env t).1
unfolding conclude_stop revoke_pull_credential Platform.update_workload Platform.delete_identity
    Platform.revoke_credential
conclude-ends w env t = ground (arith, eq_refl (meta_id w.meta))

missing-ends :
    (s : WorkloadStatus) (id : String) (w : Workload) (env : Env) (t : Trace)
    → is_active_workload_status s ≡ true
    → count (ends id) t < count (ends id) (missing s id w env t).1
unfolding missing is_active_workload_status Platform.update_workload
missing-ends WorkloadStatus.starting id w env t h = ground (
  arith,
  mark-ends id (string_ptr w.instance_id) FailureReason.runtime_lost "workload missing on runner" []
      env t,
  drop-ends id w env
      (mark_workload_failed id (string_ptr w.instance_id) FailureReason.runtime_lost
        "workload missing on runner" [] env t).1,
)
missing-ends WorkloadStatus.running id w env t h = ground (
  arith,
  mark-ends id (string_ptr w.instance_id) FailureReason.runtime_lost "workload missing on runner" []
      env t,
  drop-ends id w env
      (mark_workload_failed id (string_ptr w.instance_id) FailureReason.runtime_lost
        "workload missing on runner" [] env t).1,
)
missing-ends WorkloadStatus.stopping id w env t h = ground (arith, eq_refl id)
missing-ends WorkloadStatus.stopped id w env t h = ground arith
missing-ends WorkloadStatus.failed id w env t h = ground arith
missing-ends WorkloadStatus.unspecified id w env t h = ground arith
missing-ends (WorkloadStatus.other n) id w env t h = ground arith

unreachable-ends :
    (w : Workload) (e : Error) (env : Env) (t : Trace)
    → meta_id w.meta == "" ≡ false
    → is_active_workload_status w.status ≡ true
    → (unreachable w e env t).0 ≡ ok tt
    → count (ends (meta_id w.meta)) t < count (ends (meta_id w.meta)) (unreachable w e env t).1
unfolding unreachable handle_missing_runner_workload
unreachable-ends w e env t k h o = ground (arith, missing-ends w.status (meta_id w.meta) w env t h)

after_runner_stop-ends :
    (w : Workload) (r : Result (Unit {0})) (env : Env) (t : Trace)
    → meta_id w.meta == "" ≡ false
    → is_active_workload_status w.status ≡ true
    → (after_runner_stop w r env t).0 ≡ ok tt
    → count (ends (meta_id w.meta)) t
      < count (ends (meta_id w.meta)) (after_runner_stop w r env t).1
unfolding after_runner_stop
after_runner_stop-ends w (ok _) env t k h o = conclude-ends w env t
after_runner_stop-ends w (err e) env t k h o = unreachable-ends w e env t k h o

-- From the STOPPING update on, which has been requested by the trace `t`.
stopping-ends :
    (w : Workload) (i : String) (env : Env) (t : Trace)
    → meta_id w.meta == "" ≡ false
    → let (r, u) = stop_runner_workload w.runner_id i env t in
      let v : Workload = record w { status = WorkloadStatus.stopping } in
      (after_runner_stop v r env u).0 ≡ ok tt
      → count (ends (meta_id w.meta)) t
        < count (ends (meta_id w.meta)) (after_runner_stop v r env u).1
unfolding is_active_workload_status
stopping-ends w i env t k o =
    let (r, u) = stop_runner_workload w.runner_id i env t in
    ground (
      arith,
      stop-ends (meta_id w.meta) w.runner_id i env t,
      after_runner_stop-ends (record w { status = WorkloadStatus.stopping }) r env u k refl o,
    )

after_dial-ends :
    (w : Workload) (i : String) (r : Result (Unit {0})) (env : Env) (t : Trace)
    → meta_id w.meta == "" ≡ false
    → is_active_workload_status w.status ≡ true
    → (after_dial w i r env t).0 ≡ ok tt
    → count (ends (meta_id w.meta)) t < count (ends (meta_id w.meta)) (after_dial w i r env t).1
unfolding after_dial Platform.update_workload
after_dial-ends w i (err e) env t k h o = unreachable-ends w e env t k h o
after_dial-ends w i (ok _) env t k h o =
    let u = status_update (meta_id w.meta) WorkloadStatus.stopping none in
    ground (arith, stopping-ends w i env (Event.update_workload u (env.update_workload t u) ∷ t) k)

-- A stop of an active workload that succeeds has asked to record the workload as stopped or
-- failed.
pub stop_ends_record :
    (w : Workload) (env : Env) (t : Trace)
    → is_active_workload_status w.status ≡ true
    → (stop_workload_with_context w env t).0 ≡ ok tt
    → count (ends (meta_id w.meta)) t
      < count (ends (meta_id w.meta)) (stop_workload_with_context w env t).1
unfolding stop_workload_with_context Platform.dial
stop_ends_record w env t h o =
    let i = normalize_runner_workload_id env.parse_uuid w.instance_id in
    let r = env.dial t w.runner_id in
    ground (
      arith,
      after_dial-ends w i r env (Event.dial w.runner_id r ∷ t),
      mark-ends (meta_id w.meta) none FailureReason.runtime_lost "missing instance id" [] env t,
    )
