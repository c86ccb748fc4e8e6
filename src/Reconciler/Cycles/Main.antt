-- ===== src/Reconciler/Cycles/Main.antt =====
-- reconciler.go: reconcile, one cycle over the desired and the actual workloads, with degradation and
-- logs left out; and reconcileSandboxes of sandbox_reconciler.go.
use agents_orchestrator.Prelude.{
  ℕ, String, Bool, true, ◌&&◌, Option, none, some, List, [], ◌∷◌, Time, Map, lookup,
}
use agents_orchestrator.Errors.{Result, ok}
use agents_orchestrator.Api.{Sandbox}
use agents_orchestrator.Platform
use agents_orchestrator.Effect.{
  Eff, pure, lift, asks, observes, attempt, ignore, each, when, ◌>>=◌, ◌>>◌,
}
use agents_orchestrator.Reconciler.Diff.{AgentInstanceTarget, Actions, compute_actions}
use agents_orchestrator.Reconciler.StartDecision.{should_start_workload}
use agents_orchestrator.Reconciler.Start.{start_workload}
use agents_orchestrator.Reconciler.Stop.{stop_workload}
use agents_orchestrator.Reconciler.Sandbox.{reconcile_sandbox}
use agents_orchestrator.Reconciler.Desired.{fetch_desired, add_idle_timeouts_for_workloads}
use agents_orchestrator.Reconciler.Listings.{paged, fetch_actual}
use agents_orchestrator.Reconciler.Orphans.{reconcile_orphan_identities}
use agents_orchestrator.Reconciler.GroupRoles.{reconcile_all_agent_group_roles}
use agents_orchestrator.Reconciler.Cycles.Group.{keys}

-- One candidate of ToStart, given the start decision: an error is logged.
follow_decision : ℕ → AgentInstanceTarget → Result Bool → Eff (Unit {0})
unfolding start_workload
follow_decision fuel t (ok true) = start_workload fuel t
follow_decision fuel t _ = pure tt

start_candidate : ℕ → Time → Map Time → AgentInstanceTarget → Eff (Unit {0})
unfolding should_start_workload follow_decision
start_candidate fuel now updated_at t = do
  r ← attempt (should_start_workload fuel t now updated_at)
  follow_decision fuel t r

-- The entries of a map, in the order of given keys.
pick {ℓ} : {V : Type ℓ} → String → Option V → List (String × V) → List (String × V)
pick k none rest = rest
pick k (some v) rest = (k, v) ∷ rest

entries {ℓ} : {V : Type ℓ} → List String → Map V → Map V
unfolding pick
entries [] m = []
entries (k ∷ ks) m = pick k (lookup k m) (entries ks m)

follow_actions : ℕ → Map Time → Actions → Eff (Unit {0})
unfolding start_candidate each
follow_actions fuel updated_at a = do
  now ← Platform.now
  each (start_candidate fuel now updated_at) a.to_start
  each stop_workload a.to_stop

identities_and_roles : ℕ → Eff (Unit {0})
unfolding reconcile_orphan_identities reconcile_all_agent_group_roles
identities_and_roles fuel = do
  ziti ← asks (λ env. env.settings.has_ziti)
  groups ← asks (λ env. env.settings.has_groups)
  when ziti (reconcile_orphan_identities fuel)
  when (ziti && groups) (reconcile_all_agent_group_roles fuel)

-- reconcile
unfoldable pub reconcile : ℕ → Eff (Unit {0})
unfolding fetch_desired fetch_actual add_idle_timeouts_for_workloads entries follow_actions
    identities_and_roles
reconcile fuel = do
  desired ← fetch_desired fuel
  actual ← fetch_actual fuel
  idle_timeouts ← add_idle_timeouts_for_workloads actual desired.times.idle_timeouts
  now ← Platform.now
  parse ← asks (λ env. env.parse_uuid)
  fallback ← asks (λ env. env.settings.idle)
  visit ← observes (λ env tr. env.visit tr)
  actions ← lift (
      compute_actions parse (λ m. entries (visit (keys m)) m) desired.targets actual idle_timeouts
        fallback now)
  follow_actions fuel desired.times.updated_at actions
  identities_and_roles fuel

-- listTrackedSandboxes
unfoldable pub list_tracked_sandboxes : ℕ → Eff (List (Option Sandbox))
unfolding paged
list_tracked_sandboxes fuel = paged fuel Platform.list_sandboxes ok "" []

reconcile_one : ℕ → Option Sandbox → Eff (Unit {0})
unfolding reconcile_sandbox
reconcile_one fuel none = pure tt
reconcile_one fuel (some s) = do now ← Platform.now; ignore (reconcile_sandbox fuel s now)

-- reconcileSandboxes: an error of one sandbox is logged, and the next follows. An absent sandbox has
-- no id, which ends its handling before any request.
unfoldable pub reconcile_sandboxes : ℕ → Eff (Unit {0})
unfolding list_tracked_sandboxes reconcile_one each
reconcile_sandboxes fuel = do
  sandboxes ← list_tracked_sandboxes fuel
  each (reconcile_one fuel) sandboxes
