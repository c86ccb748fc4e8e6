-- ===== src/Reconciler/Sandbox/Deletion.antt =====
-- The deletion of a sandbox whose time is over.
use agents_orchestrator.Prelude.{
  String, ◌≡◌, refl, Bool, true, false, not, ◌&&◌, if◌then◌else◌, Time, ◌∷◌, arith,
}
use agents_orchestrator.Errors.{Result, ok, err}
use agents_orchestrator.Api.{SandboxStatus}
use agents_orchestrator.Platform.{Event, Trace, Env}
use agents_orchestrator.Platform
use agents_orchestrator.Effect.{Eff, continue, ◌>>◌}
use agents_orchestrator.Reconciler.Sandbox.State.{
  SandboxPlan, update_sandbox_runtime_state, ttl_expired, same_sandbox_status,
}
use agents_orchestrator.Reconciler.Sandbox.{
  delete_sandbox_workspace, stop_active, terminate_sandbox, follow_plan, by_status,
}

-- If it succeeds, its last request was the deletion of the sandbox, which has succeeded.
abbrev Deletes : String → Eff (Unit {0}) → Type 0
Deletes id f =
    (env : Env) (t : Trace)
    → (f env t).0 ≡ ok tt
    → (u : Trace) × ((f env t).1 ≡ Event.delete_sandbox id (ok tt) ∷ u)

after-Deletes :
    (id : String) (f : Eff (Unit {0})) (env : Env) (x : Result (Unit {0}) × Trace)
    → Deletes id f
    → (continue x.0 (λ _. f) env x.1).0 ≡ ok tt
    → (u : Trace) × ((continue x.0 (λ _. f) env x.1).1 ≡ Event.delete_sandbox id (ok tt) ∷ u)
after-Deletes id f env (ok tt, u) h o = h env u o
after-Deletes id f env (err e, u) h o = cc

then-Deletes : (id : String) (m f : Eff (Unit {0})) → Deletes id f → Deletes id (m >> f)
then-Deletes id m f h env t o = after-Deletes id f env (m env t) h o

delete-Deletes : (id : String) → Deletes id (Platform.delete_sandbox id)
unfolding Platform.delete_sandbox
delete-Deletes id env t o = (t, rw o refl)

terminate-Deletes : (plan : SandboxPlan) → Deletes plan.sandbox_id (terminate_sandbox plan)
unfolding terminate_sandbox
terminate-Deletes plan =
    let id = plan.sandbox_id in
    let delete = Platform.delete_sandbox id in
    let workspace = delete_sandbox_workspace plan.workspace_volumes in
    let update = update_sandbox_runtime_state plan.sandbox SandboxStatus.terminated "" true in
    then-Deletes id (stop_active plan.active_workload) (update >> (workspace >> delete)) (
      then-Deletes id update (workspace >> delete)
        (then-Deletes id workspace delete (delete-Deletes id)))

if-Deletes :
    (id : String) (b : Bool) (m n : Eff (Unit {0}))
    → b ≡ true
    → Deletes id m
    → Deletes id (if b then m else n)
if-Deletes id true m n h k = k
if-Deletes id false m n h k = λ env t o. absurd (ground arith)

-- If a sandbox that is not terminated is past its TTL, and the cycle over its plan succeeds, then
-- its last request was the deletion of the sandbox, which has succeeded.
pub expired_sandbox_is_deleted :
    (plan : SandboxPlan) (now : Time) (env : Env) (t : Trace)
    → ttl_expired env.parse_duration plan.sandbox now ≡ true
    → same_sandbox_status plan.sandbox.status SandboxStatus.terminated ≡ false
    → (follow_plan plan now env t).0 ≡ ok tt
    → (u : Trace) × ((follow_plan plan now env t).1
        ≡ Event.delete_sandbox plan.sandbox_id (ok tt) ∷ u)
unfolding follow_plan
expired_sandbox_is_deleted plan now env t h k o =
    if-Deletes plan.sandbox_id
      (ttl_expired env.parse_duration plan.sandbox now
        && not (same_sandbox_status plan.sandbox.status SandboxStatus.terminated))
      (terminate_sandbox plan) (by_status plan now plan.sandbox.status) (ground arith)
      (terminate-Deletes plan) env t o
