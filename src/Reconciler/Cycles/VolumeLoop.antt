-- ===== src/Reconciler/Cycles/VolumeLoop.antt =====
-- volume_reconcile.go: reconcileVolumes. A handler's error is logged, and the loop goes on; the two
-- caches are shared by all runners of a cycle.
pub mod Lost
use agents_orchestrator.Prelude.{
  ℕ, String, Bool, true, false, not, Option, none, some, List, [], ◌∷◌, ◌++◌, Map, lookup, member,
  if◌then◌else◌, ◌==◌,
}
use agents_orchestrator.Errors.{Error, Result, ok, err, fault}
use agents_orchestrator.Api.{Volume, VolumeStatus, meta_id, is_sandbox_kind}
use agents_orchestrator.Platform
use agents_orchestrator.Platform.{RunnerItem}
use agents_orchestrator.Effect.{Eff, pure, fail, lift, asks, observes, attempt, ignore, ◌>>=◌, ◌>>◌}
use agents_orchestrator.Reconciler.Records.{volume_identity_id}
use agents_orchestrator.Reconciler.Runner.{pause_instance}
use agents_orchestrator.Reconciler.Stop.{is_no_terminators}
use agents_orchestrator.Reconciler.Sandbox.{mark_sandbox_failed}
use agents_orchestrator.Reconciler.Volumes.{
  Caches, close_missing_volume, handle_missing_runner_volume, handle_present_runner_volume,
  remove_runner_volume,
}
use agents_orchestrator.Reconciler.Listings.{
  agent_organizations, list_active_volumes, list_runners_by_org,
}
use agents_orchestrator.Reconciler.Cycles.Group.{
  Reads, Visited, by_runner, scope_runners, reported_items, keys, inner,
}
use agents_orchestrator.Reconciler.Cycles.Settle.{range, settle}

abbrev pub reads : Reads Volume
reads = record {
  runner_id = λ v. v.runner_id;
  identity = volume_identity_id;
  id = λ v. meta_id v.meta;
}

-- One volume of a runner that is not enrolled.
unfoldable pub lose_volume : Volume → Eff (Unit {0})
lose_volume v = do
  ignore (close_missing_volume v)
  if is_sandbox_kind v.owner_kind
      then pure tt
      else pause_instance (volume_identity_id v) "runner_deprovisioned"

unfoldable pub unreached : Map Volume → Error → Eff (Unit {0})
unfolding range
unreached tracked e =
    if is_no_terminators e
    then range (λ v. ignore (handle_missing_runner_volume v)) tracked
    else pure tt

remove_orphan : String → RunnerItem → Eff (Unit {0})
remove_orphan runner_id i =
    if i.instance_id == "" then pure tt else ignore (remove_runner_volume runner_id i.instance_id)

abbrev pub was_active : VolumeStatus → Bool
was_active VolumeStatus.active = true
was_active _ = false

-- A volume that its runner does not report: its record is closed, and what it served has lost it.
unfoldable pub lost_volume : Volume → Eff (Unit {0})
lost_volume v = do
  ignore (close_missing_volume v)
  if not (was_active v.status)
      then pure tt
      else if is_sandbox_kind v.owner_kind
      then ignore (mark_sandbox_failed v.owner_id)
      else pause_instance (volume_identity_id v) "volume_lost"

missing_volume : Caches → Volume → Eff Caches
unfolding lost_volume
missing_volume c v = do lost_volume v; pure c

present_volume : ℕ → String → Caches → Volume → RunnerItem → Eff Caches
present_volume fuel runner_id c v i = do
  r ← handle_present_runner_volume fuel runner_id v i.instance_id c
  pure r.1

against_report : ℕ → String → Map Volume → List (Option RunnerItem) → Caches → Eff Caches
unfolding range settle reported_items remove_orphan missing_volume present_volume
against_report fuel runner_id tracked items c = do
  left ← settle (present_volume fuel runner_id) missing_volume tracked (reported_items items []) c
  range (remove_orphan runner_id) left.0
  pure left.1

after_list : ℕ → String → Map Volume → Caches → Result (List (Option RunnerItem)) → Eff Caches
unfolding unreached against_report
after_list fuel runner_id tracked c (err e) = unreached tracked e >> pure c
after_list fuel runner_id tracked c (ok items) = against_report fuel runner_id tracked items c

after_dial : ℕ → String → Map Volume → Caches → Result (Unit {0}) → Eff Caches
unfolding unreached after_list
after_dial fuel runner_id tracked c (err e) = unreached tracked e >> pure c
after_dial fuel runner_id tracked c (ok _) = do
  r ← attempt (Platform.list_runner_volumes runner_id)
  after_list fuel runner_id tracked c r

-- The body of the loop over the runners.
unfoldable pub reconcile_runner : ℕ → Visited → Map (Map Volume) → Caches → String → Eff Caches
unfolding range lose_volume after_dial
reconcile_runner fuel visited tracked c runner_id =
    let here = inner (lookup runner_id tracked) in
    if not (member runner_id visited.enrolled)
    then range lose_volume here >> pure c
    else do r ← attempt (Platform.dial runner_id); after_dial fuel runner_id here c r

reconcile_runners : ℕ → Visited → Map (Map Volume) → Caches → List String → Eff (Unit {0})
unfolding reconcile_runner
reconcile_runners fuel visited tracked c [] = pure tt
reconcile_runners fuel visited tracked c (id ∷ ids) = do
  next ← reconcile_runner fuel visited tracked c id
  reconcile_runners fuel visited tracked next ids

-- reconcileVolumes
unfoldable pub reconcile_volumes : ℕ → Eff (Unit {0})
unfolding agent_organizations list_active_volumes by_runner list_runners_by_org scope_runners
    reconcile_runners
reconcile_volumes fuel = do
  agents ← asks (λ env. env.settings.has_agents)
  if not agents then fail (fault "agents client not configured") else do
    organizations ← agent_organizations fuel
    volumes ← list_active_volumes fuel organizations
    tracked ← lift (by_runner reads volumes [])
    runners ← list_runners_by_org fuel organizations
    visited ← lift (
        scope_runners organizations tracked runners
          (record { enrolled = []; to_visit = keys tracked }))
    ids ← observes (λ env tr. env.visit tr visited.to_visit)
    reconcile_runners fuel visited tracked (record { infos = []; activities = [] }) ids
