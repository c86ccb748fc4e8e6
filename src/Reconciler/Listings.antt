-- ===== src/Reconciler/Listings.antt =====
-- The listings that every cycle starts from: listAllAgents and agentOrganizationsFrom of
-- identity_metadata.go, actual.go, listActiveSandboxWorkloads of orphan.go, listActiveVolumes of
-- volume_reconcile.go, listLiveAgentWorkloads of group_sync.go, and listRunnersByOrg of runners.go.
-- `fuel` bounds the pages of a listing, as the deadline of the cycle's context does.
pub mod Scope
pub mod Joins
pub mod Requests
use agents_orchestrator.Prelude.{
  ℕ, zero, suc, String, Bool, true, false, not, Option, List, [], ◌∷◌, ◌++◌, keep, if◌then◌else◌,
  ◌==◌,
}
use agents_orchestrator.Errors.{Result, ok, fault}
use agents_orchestrator.Api.{Agent, Workload, Volume, Runner}
use agents_orchestrator.Platform
use agents_orchestrator.Platform.{Page, WorkloadQuery, VolumeQuery}
use agents_orchestrator.Effect.{Eff, pure, fail, lift, asks, observes, ◌>>=◌}
use agents_orchestrator.Reconciler.Listings.Scope.{
  take_each, agent_organizations_from, scoped_workload, scoped_volume, scoped_agent_workload,
  present_workload,
}
use agents_orchestrator.Reconciler.Placement.{list_runners}

-- The loop over pages: each page's items are taken in turn, until no next page is named.
unfoldable pub paged {ℓ κ} :
    {A : Type ℓ} {B : Type κ}
    → ℕ
    → (String → Eff (Page A))
    → (List A → Result (List B))
    → String
    → List B
    → Eff (List B)
paged zero request take token acc = fail (fault "context deadline exceeded")
paged (suc fuel) request take token acc = do
  page ← request token
  taken ← lift (take page.items)
  if page.next == "" then pure (acc ++ taken) else paged fuel request take page.next (acc ++ taken)

-- listAllAgents
unfoldable pub list_all_agents : ℕ → Eff (List (Option Agent))
unfolding paged
list_all_agents fuel = do
  agents ← asks (λ env. env.settings.has_agents)
  if agents then paged fuel Platform.list_agents ok "" [] else fail (fault "agents client is nil")

-- agentOrganizations
unfoldable pub agent_organizations : ℕ → Eff (List String)
unfolding list_all_agents agent_organizations_from
agent_organizations fuel = do
  agents ← list_all_agents fuel
  parse ← asks (λ env. env.parse_uuid)
  lift (agent_organizations_from parse agents [])

abbrev is_empty {ℓ} : {A : Type ℓ} → List A → Bool
is_empty [] = true
is_empty (x ∷ xs) = false

-- listActiveWorkloads
unfoldable pub list_active_workloads : ℕ → List String → Eff (List Workload)
unfolding paged take_each scoped_agent_workload
list_active_workloads fuel organizations = if is_empty organizations then pure [] else do
  parse ← asks (λ env. env.parse_uuid)
  paged fuel (Platform.list_workloads WorkloadQuery.active)
      (take_each (scoped_agent_workload parse organizations)) "" []

-- The loop of listPendingSampleWorkloads in metering_sample.go
unfoldable pub list_pending_sample_workloads : ℕ → List String → Eff (List Workload)
unfolding paged take_each scoped_workload
list_pending_sample_workloads fuel organizations = if is_empty organizations then pure [] else do
  parse ← asks (λ env. env.parse_uuid)
  paged fuel (Platform.list_workloads WorkloadQuery.pending_sample)
      (take_each (scoped_workload parse organizations)) "" []

volumes_of : VolumeQuery → ℕ → List String → Eff (List Volume)
unfolding paged take_each scoped_volume
volumes_of query fuel organizations = if is_empty organizations then pure [] else do
  parse ← asks (λ env. env.parse_uuid)
  paged fuel (Platform.list_volumes query) (take_each (scoped_volume parse organizations)) "" []

-- listPendingSampleVolumes in metering_sample.go
unfoldable pub list_pending_sample_volumes : ℕ → List String → Eff (List Volume)
unfolding volumes_of
list_pending_sample_volumes fuel organizations =
    volumes_of VolumeQuery.pending_sample fuel organizations

-- listActiveVolumes. The keys to ignore that it also returns are always none.
unfoldable pub list_active_volumes : ℕ → List String → Eff (List Volume)
unfolding volumes_of
list_active_volumes fuel organizations = volumes_of VolumeQuery.active fuel organizations

-- listActiveSandboxWorkloads
unfoldable pub list_active_sandbox_workloads : ℕ → Eff (List Workload)
unfolding paged take_each present_workload
list_active_sandbox_workloads fuel =
    paged fuel (Platform.list_workloads WorkloadQuery.active_sandboxes) (take_each present_workload)
      "" []

-- listLiveAgentWorkloads
unfoldable pub list_live_agent_workloads : ℕ → String → Eff (List (Option Workload))
unfolding paged
list_live_agent_workloads fuel agent_id =
    paged fuel (Platform.list_workloads (WorkloadQuery.live_of_agent agent_id)) ok "" []

-- fetchActual
unfoldable pub fetch_actual : ℕ → Eff (List Workload)
unfolding agent_organizations list_active_workloads
fetch_actual fuel = do
  organizations ← agent_organizations fuel
  tracked ← list_active_workloads fuel organizations
  pure (keep (λ w. not (w.runner_id == "")) tracked)

runners_of : ℕ → List String → Eff (List (Option Runner))
unfolding list_runners
runners_of fuel [] = pure []
runners_of fuel (id ∷ ids) = do
  first ← list_runners fuel id
  rest ← runners_of fuel ids
  pure (first ++ rest)

-- listRunnersByOrg, over the organizations in the order that the runtime visits them
unfoldable pub list_runners_by_org : ℕ → List String → Eff (List (Option Runner))
unfolding runners_of
list_runners_by_org fuel organizations = do
  ids ← observes (λ env tr. env.visit tr organizations)
  runners_of fuel ids
