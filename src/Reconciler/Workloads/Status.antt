-- ===== src/Reconciler/Workloads/Status.antt =====
-- How the status of a workload goes on.
use agents_orchestrator.Prelude.{
  String, ◌≡◌, refl, ◌⊎◌, inl, inr, false, Option, none, some, List, arith, ◌==◌, Bool-cases,
}
use agents_orchestrator.Errors.{Result, ok, err}
use agents_orchestrator.Api.{Workload, WorkloadStatus, Container, meta_id}
use agents_orchestrator.Platform.{Event, Trace, Env}
use agents_orchestrator.Platform
use agents_orchestrator.Effect.{continue}
use agents_orchestrator.Reconciler.Runner.{inspect_runner_workload, mark_workload_failed}
use agents_orchestrator.Reconciler.Records.{normalize_runner_workload_id}
use agents_orchestrator.Reconciler.Workloads.{
  drop_identity, fail_workload_on_runner, Observed, Decision, fails_with, becomes, decide_present,
  decide_status, finish_present, act_present, or_status, observe, handle_present_runner_workload,
  of_verdict, of_running,
}

-- The steps of a present workload: it stays as it is, starts to run, or fails.
abbrev pub Goes : WorkloadStatus → WorkloadStatus → Type 0
Goes s u =
    (u ≡ s)
    ⊎ ((s ≡ WorkloadStatus.starting) × ((u ≡ WorkloadStatus.running) ⊎ (u ≡ WorkloadStatus.failed)))
    ⊎ ((s ≡ WorkloadStatus.running) × (u ≡ WorkloadStatus.failed))

decision_status : WorkloadStatus → Decision → WorkloadStatus
decision_status s (fails_with f cs) = WorkloadStatus.failed
decision_status s (becomes none) = s
decision_status s (becomes (some u)) = u

decide-Goes :
    (s : WorkloadStatus) (cs : Option (List Container)) (o : Observed) (w : Workload) (env : Env)
    (t : Trace) (d : Decision)
    → (decide_status s cs o w env t).0 ≡ ok d
    → Goes s (decision_status s d)
unfolding decide_status decision_status of_verdict of_running
decide-Goes WorkloadStatus.starting (some cs) o w env t d h = ground arith
decide-Goes WorkloadStatus.starting none o w env t d h = ground arith
decide-Goes WorkloadStatus.running (some cs) o w env t d h = ground arith
decide-Goes WorkloadStatus.running none o w env t d h = ground arith
decide-Goes WorkloadStatus.stopping cs o w env t d h = ground arith
decide-Goes _ cs o w env t d h = ground arith

act-Goes :
    (runner : String) (w : Workload) (i : String) (o : Observed) (d : Decision) (w' : Workload)
    (env : Env) (t : Trace)
    → Goes w.status (decision_status w.status d)
    → (act_present runner w i o d env t).0 ≡ ok w'
    → meta_id w.meta == "" ≡ false
    → Goes w.status w'.status
unfolding act_present finish_present fail_workload_on_runner or_status decision_status
    Platform.update_workload mark_workload_failed drop_identity
act-Goes runner w i o (fails_with f cs) w' env t g h k = ground arith
act-Goes runner w i o (becomes none) w' env t g h k = ground arith
act-Goes runner w i o (becomes (some s)) w' env t g h k = ground arith

observed-Goes :
    (runner : String) (w : Workload) (i : String) (o : Observed) (w' : Workload)
    (p : Result Decision × Trace) (env : Env)
    → meta_id w.meta == "" ≡ false
    → ((d : Decision) → p.0 ≡ ok d → Goes w.status (decision_status w.status d))
    → (continue p.0 (act_present runner w i o) env p.1).0 ≡ ok w'
    → Goes w.status w'.status
observed-Goes runner w i o w' (ok d, u) env k g h = act-Goes runner w i o d w' env u (g d refl) h k
observed-Goes runner w i o w' (err e, u) env k g h = cc

-- Whatever the services answer, a workload whose handling on its runner's report succeeds keeps
-- its status, goes from starting to running or to failed, or goes from running to failed.
pub present-Goes :
    (runner reported : String) (w w' : Workload) (env : Env) (t : Trace)
    → (handle_present_runner_workload runner w reported env t).0 ≡ ok w'
    → Goes w.status w'.status
unfolding handle_present_runner_workload decide_present
present-Goes runner reported w w' env t h = elim (Bool-cases (meta_id w.meta == "")) [
  | inl absent ↦ ground arith
  | inr there ↦
      let i = normalize_runner_workload_id env.parse_uuid reported in
      elim (Bool-cases (i == "")) [
        | inl unnamed ↦ ground arith
        | inr named ↦
            let (r, u) = inspect_runner_workload runner i env t in
            observed-Goes runner w i (observe r) w' (decide_present w (observe r) env u) env there
              (λ d e. decide-Goes w.status (observe r).containers (observe r) w env u d e)
              (rw (there, named, handle_present_runner_workload) at h)
      ]
]
