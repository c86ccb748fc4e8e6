-- ===== src/Reconciler/Cycles/WorkloadLoop.antt =====
-- workload_reconcile.go: reconcileWorkloads. A handler's error is logged, and the loop goes on.
pub mod Spared
use agents_orchestrator.Prelude.{
  ℕ, String, Bool, true, false, not, Option, none, some, List, [], ◌∷◌, ◌++◌, Map, lookup, any,
  member, trim_space, is_some, if◌then◌else◌, ◌==◌,
}
use agents_orchestrator.Errors.{Error, Result, ok, err}
use agents_orchestrator.Api.{Workload, Runner, meta_id}
use agents_orchestrator.Platform
use agents_orchestrator.Platform.{RunnerItem}
use agents_orchestrator.Effect.{Eff, pure, lift, asks, observes, attempt, ignore, each, ◌>>=◌, ◌>>◌}
use agents_orchestrator.Reconciler.Records.{
  workload_runner_identity_id, normalize_runner_workload_id,
}
use agents_orchestrator.Reconciler.Runner.{pause_instance, stop_runner_workload}
use agents_orchestrator.Reconciler.Stop.{is_no_terminators}
use agents_orchestrator.Reconciler.Workloads.{
  handle_missing_runner_workload, handle_present_runner_workload,
}
use agents_orchestrator.Reconciler.Listings.{
  agent_organizations, list_active_workloads, list_active_sandbox_workloads, list_runners_by_org,
}
use agents_orchestrator.Reconciler.Cycles.Group.{
  Reads, Visited, by_runner, scope_runners, reported_items, keys, inner,
}
use agents_orchestrator.Reconciler.Cycles.Settle.{range, settle}

abbrev pub reads : Reads Workload
reads = record {
  runner_id = λ w. w.runner_id;
  identity = workload_runner_identity_id;
  id = λ w. meta_id w.meta;
}

listed_ids : List (Option Runner) → List String
listed_ids [] = []
listed_ids (none ∷ rs) = listed_ids rs
listed_ids (some r ∷ rs) =
    if meta_id r.meta == "" then listed_ids rs else meta_id r.meta ∷ listed_ids rs

owned : List (String × Workload) → Bool
owned ws = any (λ w. not (workload_runner_identity_id w.1 == "")) ws

got : Result (Option Runner) → List (Option Runner)
got (ok (some r)) = some r ∷ []
got _ = []

named_runners : Map (Map Workload) → List String → List String → Eff (List (Option Runner))
unfolding owned got
named_runners tracked listed [] = pure []
named_runners tracked listed (id ∷ ids) =
    let others = named_runners tracked listed ids in
    if member id listed
    then others
    else if not (owned (inner (lookup id tracked)))
    then others
    else do r ← attempt (Platform.get_runner id); rest ← others; pure (got r ++ rest)

-- runnersForWorkloads: the runners of the organizations, and those that the workloads name.
unfoldable pub runners_for_workloads :
    ℕ → List String → Map (Map Workload) → Eff (List (Option Runner))
unfolding list_runners_by_org listed_ids named_runners
runners_for_workloads fuel organizations tracked = do
  runners ← list_runners_by_org fuel organizations
  ids ← observes (λ env tr. env.visit tr (keys tracked))
  named ← named_runners tracked (listed_ids runners) ids
  pure (runners ++ named)

-- One workload of a runner that is not enrolled.
lose_workload : Workload → Eff (Unit {0})
lose_workload w = do
  ignore (handle_missing_runner_workload w)
  pause_instance (trim_space w.agent_instance_id) "runner_deprovisioned"

-- A runner that no terminator reaches has none of its workloads; after another error nothing is known.
unfoldable pub unreached : Map Workload → Error → Eff (Unit {0})
unfolding range
unreached tracked e =
    if is_no_terminators e
    then range (λ w. ignore (handle_missing_runner_workload w)) tracked
    else pure tt

stop_orphan : String → RunnerItem → Eff (Unit {0})
stop_orphan runner_id i = do
  parse ← asks (λ env. env.parse_uuid)
  let instance_id = normalize_runner_workload_id parse i.instance_id
  if instance_id == "" then pure tt else ignore (stop_runner_workload runner_id instance_id)

unfoldable pub missing_workload : Unit {0} → Workload → Eff (Unit {0})
missing_workload s w = ignore (handle_missing_runner_workload w)

unfoldable pub present_workload : String → Unit {0} → Workload → RunnerItem → Eff (Unit {0})
present_workload runner_id s w i = ignore (handle_present_runner_workload runner_id w i.instance_id)

-- The tracked workloads against the report; what is left of it belongs to no record.
against_report : String → Map Workload → List (Option RunnerItem) → Eff (Unit {0})
unfolding range settle reported_items stop_orphan missing_workload present_workload
against_report runner_id tracked items = do
  left ← settle (present_workload runner_id) missing_workload tracked (reported_items items []) tt
  range (stop_orphan runner_id) left.0

after_list : String → Map Workload → Result (List (Option RunnerItem)) → Eff (Unit {0})
unfolding unreached against_report
after_list runner_id tracked (err e) = unreached tracked e
after_list runner_id tracked (ok items) = against_report runner_id tracked items

after_dial : String → Map Workload → Result (Unit {0}) → Eff (Unit {0})
unfolding unreached after_list
after_dial runner_id tracked (err e) = unreached tracked e
after_dial runner_id tracked (ok _) = do
  r ← attempt (Platform.list_runner_workloads runner_id)
  after_list runner_id tracked r

-- The body of the loop over the runners.
unfoldable pub reconcile_runner : Visited → Map (Map Workload) → String → Eff (Unit {0})
unfolding range lose_workload after_dial
reconcile_runner visited tracked runner_id =
    let here = inner (lookup runner_id tracked) in
    if not (member runner_id visited.enrolled)
    then range lose_workload here
    else do r ← attempt (Platform.dial runner_id); after_dial runner_id here r

-- reconcileWorkloads
unfoldable pub reconcile_workloads : ℕ → Eff (Unit {0})
unfolding agent_organizations list_active_workloads list_active_sandbox_workloads by_runner
    runners_for_workloads scope_runners reconcile_runner each
reconcile_workloads fuel = do
  organizations ← agent_organizations fuel
  agents ← list_active_workloads fuel organizations
  sandboxes ← list_active_sandbox_workloads fuel
  tracked ← lift (by_runner reads (agents ++ sandboxes) [])
  runners ← runners_for_workloads fuel organizations tracked
  visited ← lift (
      scope_runners organizations tracked runners
        (record { enrolled = []; to_visit = keys tracked }))
  ids ← observes (λ env tr. env.visit tr visited.to_visit)
  each (reconcile_runner visited tracked) ids
