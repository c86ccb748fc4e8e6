-- ===== src/Reconciler/Sandbox/Steps.antt =====
-- What a cycle that succeeds has done to a sandbox that is over.
use agents_orchestrator.Prelude.{
  ◌<◌, String, ◌≡◌, refl, Bool, true, false, ◌||◌, some, List, ◌∷◌, Time, is_some, arith,
  trim_space, count,
}
use agents_orchestrator.Errors.{Result, ok, err}
use agents_orchestrator.Api.{Workload, Volume, Sandbox, SandboxStatus, meta_id}
use agents_orchestrator.Platform.{Event, Trace, Env}
use agents_orchestrator.Platform
use agents_orchestrator.Effect.{Eff, continue, when, ◌>>◌}
use agents_orchestrator.Effect.Without.{Without, bind-Without, each-Without}
use agents_orchestrator.Reconciler.Records.{is_active_workload_status}
use agents_orchestrator.Reconciler.Stop.Ends.{ends, stop_ends_record}
use agents_orchestrator.Reconciler.Sandbox.State.{
  SandboxPlan, update_sandbox_runtime_state, ttl_expired, same_sandbox_status,
}
use agents_orchestrator.Reconciler.Sandbox.{
  stop_sandbox_workload, delete_volume, delete_sandbox_workspace, stop_active, terminate_sandbox,
  when_ended, when_terminated, by_status, follow_plan,
}

stop_sandbox-ends :
    (w : Workload) (env : Env) (t : Trace)
    → is_active_workload_status w.status ≡ true
    → (stop_sandbox_workload w env t).0 ≡ ok tt
    → count (ends (meta_id w.meta)) t
      < count (ends (meta_id w.meta)) (stop_sandbox_workload w env t).1
unfolding stop_sandbox_workload Platform.snapshot_shells Platform.delete_identity
stop_sandbox-ends w env t h o = ground (
  arith,
  stop_ends_record w env t h,
  stop_ends_record w env (Event.snapshot_shells (trim_space w.owner_id) ∷ t) h,
)

update-ends :
    (id : String) (s : Sandbox) (status : SandboxStatus) (workload : String) (clear : Bool)
    → Without (ends id) (update_sandbox_runtime_state s status workload clear)
unfolding update_sandbox_runtime_state Platform.update_sandbox
update-ends id s status workload clear env t = ground arith

delete_volume-ends : (id : String) (v : Volume) → Without (ends id) (delete_volume v)
unfolding delete_volume Platform.dial Platform.remove_volume Platform.update_volume
delete_volume-ends id v env t = ground arith

workspace-ends : (id : String) (vs : List Volume) → Without (ends id) (delete_sandbox_workspace vs)
unfolding delete_sandbox_workspace
workspace-ends id vs = each-Without (ends id) delete_volume vs (delete_volume-ends id)

-- What a first part that succeeds has added stays, if the rest adds nothing.
first_then :
    (p : Event → Bool) (m f : Eff (Unit {0})) (env : Env) (t : Trace)
    → ((m env t).0 ≡ ok tt → count p t < count p (m env t).1)
    → Without p f
    → ((m >> f) env t).0 ≡ ok tt
    → count p t < count p ((m >> f) env t).1
first_then p m f env t h k o = from (m env t) h k o
  where
    from :
        (x : Result (Unit {0}) × Trace)
        → (x.0 ≡ ok tt → count p t < count p x.1)
        → Without p f
        → (continue x.0 (λ _. f) env x.1).0 ≡ ok tt
        → count p t < count p (continue x.0 (λ _. f) env x.1).1
    from (ok tt, u) h k o = ground (arith, h refl, k env u)
    from (err e, u) h k o = ground arith

rest-ends :
    (id : String) (plan : SandboxPlan)
    → Without
        (ends id)
        (delete_sandbox_workspace plan.workspace_volumes >> Platform.delete_sandbox plan.sandbox_id)
unfolding Platform.delete_sandbox
rest-ends id plan =
    bind-Without (ends id) (delete_sandbox_workspace plan.workspace_volumes)
      (λ _. Platform.delete_sandbox plan.sandbox_id) (workspace-ends id plan.workspace_volumes)
      (λ _ env t. ground arith)

terminate-ends :
    (plan : SandboxPlan) (w : Workload) (env : Env) (t : Trace)
    → plan.active_workload ≡ some w
    → is_active_workload_status w.status ≡ true
    → (terminate_sandbox plan env t).0 ≡ ok tt
    → count (ends (meta_id w.meta)) t
      < count (ends (meta_id w.meta)) (terminate_sandbox plan env t).1
unfolding terminate_sandbox stop_active
terminate-ends plan w env t h k o =
    let update = update_sandbox_runtime_state plan.sandbox SandboxStatus.terminated "" true in
    let id = meta_id w.meta in
    rw (h, terminate_sandbox, stop_active)
      (first_then (ends id) (stop_sandbox_workload w)
        (update
          >> (delete_sandbox_workspace plan.workspace_volumes
              >> Platform.delete_sandbox plan.sandbox_id))
        env t (stop_sandbox-ends w env t k)
        (bind-Without (ends id) update _
          (update-ends id plan.sandbox SandboxStatus.terminated "" true) (λ _. rest-ends id plan))
        (rw (h, terminate_sandbox, stop_active) at o))

when_ended-ends :
    (plan : SandboxPlan) (s : SandboxStatus) (w : Workload) (env : Env) (t : Trace)
    → is_active_workload_status w.status ≡ true
    → (when_ended plan s (some w) env t).0 ≡ ok tt
    → count (ends (meta_id w.meta)) t
      < count (ends (meta_id w.meta)) (when_ended plan s (some w) env t).1
unfolding when_ended
when_ended-ends plan s w env t k o = ground (
  arith,
  stop_sandbox-ends w env t k,
  update-ends (meta_id w.meta) plan.sandbox s "" true env (stop_sandbox_workload w env t).1,
)

when_terminated-ends :
    (plan : SandboxPlan) (w : Workload) (env : Env) (t : Trace)
    → plan.active_workload ≡ some w
    → is_active_workload_status w.status ≡ true
    → (when_terminated plan env t).0 ≡ ok tt
    → count (ends (meta_id w.meta)) t < count (ends (meta_id w.meta)) (when_terminated plan env t).1
unfolding when_terminated stop_active
when_terminated-ends plan w env t h k o =
    let update =
      when (is_some plan.sandbox.workload_id)
        (update_sandbox_runtime_state plan.sandbox SandboxStatus.terminated "" true) in
    let id = meta_id w.meta in
    rw (h, when_terminated, stop_active)
      (first_then (ends id) (stop_sandbox_workload w)
        (update >> delete_sandbox_workspace plan.workspace_volumes) env t
        (stop_sandbox-ends w env t k)
        (bind-Without (ends id) update _
          (λ env t.
            ground (arith, update-ends id plan.sandbox SandboxStatus.terminated "" true env t))
          (λ _. workspace-ends id plan.workspace_volumes))
        (rw (h, when_terminated, stop_active) at o))

-- The statuses of a sandbox that is to have no workload.
abbrev pub is_over : SandboxStatus → Bool
is_over SandboxStatus.stopped = true
is_over SandboxStatus.failed = true
is_over SandboxStatus.terminated = true
is_over _ = false

by_status-ends :
    (plan : SandboxPlan) (now : Time) (s : SandboxStatus) (w : Workload) (env : Env) (t : Trace)
    → plan.active_workload ≡ some w
    → is_active_workload_status w.status ≡ true
    → is_over s ≡ true
    → (by_status plan now s env t).0 ≡ ok tt
    → count (ends (meta_id w.meta)) t < count (ends (meta_id w.meta)) (by_status plan now s env t).1
unfolding by_status
by_status-ends plan now SandboxStatus.stopped w env t h k l o =
    rw (h, by_status)
      (when_ended-ends plan SandboxStatus.stopped w env t k (rw (h, by_status) at o))
by_status-ends plan now SandboxStatus.failed w env t h k l o =
    rw (h, by_status) (when_ended-ends plan SandboxStatus.failed w env t k (rw (h, by_status) at o))
by_status-ends plan now SandboxStatus.terminated w env t h k l o =
    when_terminated-ends plan w env t h k o
by_status-ends plan now SandboxStatus.starting w env t h k l o = ground arith
by_status-ends plan now SandboxStatus.running w env t h k l o = ground arith
by_status-ends plan now SandboxStatus.unspecified w env t h k l o = ground arith
by_status-ends plan now (SandboxStatus.other n) w env t h k l o = ground arith

-- If a sandbox is stopped, failed, terminated or past its TTL, and the cycle over its plan
-- succeeds, then the end of the plan's active workload has been asked to be recorded.
pub over_sandbox_ends_workload :
    (plan : SandboxPlan) (now : Time) (w : Workload) (env : Env) (t : Trace)
    → plan.active_workload ≡ some w
    → is_active_workload_status w.status ≡ true
    → (is_over plan.sandbox.status || ttl_expired env.parse_duration plan.sandbox now) ≡ true
    → (follow_plan plan now env t).0 ≡ ok tt
    → count (ends (meta_id w.meta)) t < count (ends (meta_id w.meta)) (follow_plan plan now env t).1
unfolding follow_plan same_sandbox_status
over_sandbox_ends_workload plan now w env t h k l o = ground (
  arith,
  terminate-ends plan w env t h k,
  by_status-ends plan now plan.sandbox.status w env t h k,
)
