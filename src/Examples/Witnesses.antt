-- ===== src/Examples/Witnesses.antt =====
-- Each theorem on the example's input.
use agents_orchestrator.Prelude.{
  Option, ◌+◌, ◌≤◌, ◌<◌, ◌≡◌, refl, true, false, not, ◌&&◌, ◌||◌, none, some, List, [], ◌∷◌, count,
  length, any, pos, max_int64, second, Time, ◌*◌, ◌⊎◌, inl, String, Map, lookup, member, All,
  is_some, if◌then◌else◌, ◌==◌, arith, nat_eq, leb, ltb, keep,
}
use agents_orchestrator.Errors.{Code, Result, ok, err, fault}
use agents_orchestrator.Subscriber.{Subscriber, Received, run}
use agents_orchestrator.Subscriber.Wakes.{
  Step, after, agents_due, sandboxes_due, signals_exactly_when_due,
}
use agents_orchestrator.Subscriber.Pauses.{Paced, reconnects_keep_pace}
use agents_orchestrator.Assembler.Resources.{ComputeResources, max_int32}
use agents_orchestrator.Assembler.Resources.Totals.{allocation_is_sum}
use agents_orchestrator.Assembler.LlmMode.{Vendor, PlaceholderKind, Attachment, attach}
use agents_orchestrator.Assembler.LlmMode.Vendors.{has_text, vendor_opts_in_once}
use agents_orchestrator.ZitiManager.{
  World, Manager, run_lease_renewal, extend_lease_with_retry, enroll,
}
use agents_orchestrator.ZitiManager.Lease.{
  asks_lease, is_gone, lost_only_if_gone, lease_asked_at_most_four_times,
}
use agents_orchestrator.ZitiManager.Enrollment.{is_paced, enrollment_keeps_pace}
use agents_orchestrator.Api.{
  meta_id, Workload, WorkloadStatus, Volume, VolumeStatus, Runner, SandboxStatus, OwnerKind,
}
use agents_orchestrator.Platform.{Env, Page, WorkloadQuery, Event, Trace, IdentityType, RunnerItem}
use agents_orchestrator.Examples.{
  dated_meta, env_stray, env_silent, stray, agent_workload, one_runner, no_volume, main_container,
  env, target, sandbox,
}
use agents_orchestrator.RunnerSelect.{select}
use agents_orchestrator.RunnerSelect.Fits.{Fits}
use agents_orchestrator.RunnerSelect.Eligible.{Listed, selects_eligible, selects_when_eligible}
use agents_orchestrator.Reconciler.Classify.{classify_starting_containers}
use agents_orchestrator.Reconciler.Classify.Readiness.{
  is_ready, plays_main, all, settled, past_grace_at, ready_exactly_when_settled,
}
use agents_orchestrator.Reconciler.Classify.Grace.{blames_pull, grace_spares_pulls}
use agents_orchestrator.Reconciler.Diff.{Actions, AgentInstanceTarget, compute_actions}
use agents_orchestrator.Reconciler.Diff.Collect.{is_of, chosen}
use agents_orchestrator.Reconciler.Diff.Choice.{survivors, starts_unserved, stops_all_but_oldest}
use agents_orchestrator.Reconciler.Placement.{pin_page}
use agents_orchestrator.Reconciler.Placement.Pin
use agents_orchestrator.Reconciler.Placement.Pin.{agrees, pinned_volumes_agree}
use agents_orchestrator.Reconciler.Records.{is_active_workload_status, workload_created_at}
use agents_orchestrator.Reconciler.Sandbox.{SandboxPlan, follow_plan}
use agents_orchestrator.Reconciler.Sandbox.Deletion.{expired_sandbox_is_deleted}
use agents_orchestrator.Reconciler.Sandbox.Steps.{over_sandbox_ends_workload}
use agents_orchestrator.Reconciler.ShellSnapshot.{
  ShellDirectory, ExecEvent, parse_shell_directories, snapshot_shell_directories,
}
use agents_orchestrator.Reconciler.ShellSnapshot.Lines.{
  Recordable, has_code, begins_in_space, ends_in_space, printed, parse_shell_directories-printed,
}
use agents_orchestrator.Reconciler.ShellSnapshot.Recorded.{sent, together, snapshot_records_shells}
use agents_orchestrator.Reconciler.Start.{start_workload}
use agents_orchestrator.Reconciler.Start.Identities
use agents_orchestrator.Reconciler.Start.Identities.{made}
use agents_orchestrator.Reconciler.Start.Balance.{start_balances_identities}
use agents_orchestrator.Reconciler.StartDecision.{
  active_statuses, ended_statuses, list_workloads_by_agent_instance,
  latest_workload_by_agent_instance, should_start_workload,
}
use agents_orchestrator.Reconciler.StartDecision.Listing.{listing_ends}
use agents_orchestrator.Reconciler.StartDecision.Backoff.{listing_keeps_limit}
use agents_orchestrator.Reconciler.StartDecision.History.{
  pauses, starts_after_backoff, pauses_when_exhausted,
}
use agents_orchestrator.Reconciler.Stop.{stop_workload_with_context}
use agents_orchestrator.Reconciler.Stop.Ends.{ends, stop_ends_record}
use agents_orchestrator.Reconciler.Volumes.{
  Caches, activity_from, outlived, handle_present_runner_volume, handle_missing_runner_volume,
  close_missing_volume,
}
use agents_orchestrator.Reconciler.Volumes.Expiry.{protects, dated, outlived_exactly}
use agents_orchestrator.Reconciler.Volumes.Survival.{
  removes, closes, sandbox_volume_survives, closes_by_evidence,
}
use agents_orchestrator.Effect.{each}
use agents_orchestrator.Reconciler.Cycles.Group.{reported_items}
use agents_orchestrator.Reconciler.Cycles.Settle.{settle}
use agents_orchestrator.Reconciler.Cycles.Settle.Left.{first_item}
use agents_orchestrator.Reconciler.Cycles.WorkloadLoop
use agents_orchestrator.Reconciler.Cycles.WorkloadLoop.Spared.{
  acts, silence_spares_workloads, orphans_are_untracked,
}
use agents_orchestrator.Reconciler.Cycles.VolumeLoop.{lost_volume}
use agents_orchestrator.Reconciler.GroupRoles.{
  patch_workload_to_current_group_roles, stale_candidate_attributes,
}
use agents_orchestrator.Reconciler.GroupRoles.Patches.{patches, workloads_get_patched}
use agents_orchestrator.Reconciler.GroupRoles.Stale.{is_text, removes_stale_once}
use agents_orchestrator.Reconciler.Listings.{list_active_workloads}
use agents_orchestrator.Reconciler.Listings.Scope.{take_each, scoped_agent_workload}
use agents_orchestrator.Reconciler.Listings.Joins.{listing_joins_pages}
use agents_orchestrator.Reconciler.Metering.{sample_metering, sample_workload_metering}
use agents_orchestrator.Reconciler.Metering.Labels.{LabelSources}
use agents_orchestrator.Reconciler.Metering.Failures.{failed, fails_when_unattributable}
use agents_orchestrator.Reconciler.Metering.Marks.{marks, unbilled, failed_billing_marks_nothing}
use agents_orchestrator.Reconciler.Metering.Totals.{bills_elapsed_time}
use agents_orchestrator.Reconciler.Orphans.{sweep_orphan_identities}
use agents_orchestrator.Reconciler.Orphans.Sweep.{deletes, is_orphan, sweep_deletes_orphans}
use agents_orchestrator.Reconciler.Workloads.{handle_present_runner_workload}
use agents_orchestrator.Reconciler.Workloads.Status.{Goes, present-Goes}

abbrev no_sources : LabelSources
no_sources = record { agent_environments = []; sandboxes = [] }

abbrev refusing : Code → World
refusing c = record {
  is_done = λ _. false;
  cuts = λ _ _. false;
  extend = λ _ _. err (record { code = c; text = "refused" });
  request = λ _. err (record { code = c; text = "refused" });
  loaded = λ _. ok tt;
}

abbrev manager : Manager
manager = record { identity_id = "z1"; lost = none }

abbrev item : RunnerItem
item = record { key = "w2"; instance_id = "w2" }

start_balances_identities_example :
    let u = (start_workload 3 target env []).1 in
    (z : String) × ((k : String)
      → count (made k) u + count (Identities.settled k z) []
        ≡ count (made k) [] + count (Identities.settled k z) u)
start_balances_identities_example = start_balances_identities 3 target env [] refl

abbrev younger_workload : Workload
younger_workload = record agent_workload { meta = dated_meta "w2"; last_activity_at = some 180 }

starts_unserved_example :
    ◌≡◌ {A = List AgentInstanceTarget}
      (target ∷ [])
      (keep (λ t. not (any (is_of some t.agent_instance_id) [])) (target ∷ []))
unfolding compute_actions agents_orchestrator.Reconciler.Diff.collect
    agents_orchestrator.Reconciler.Diff.collect_one agents_orchestrator.Uuid.parse_uuid
    agents_orchestrator.Reconciler.Diff.workload_activity_at
    agents_orchestrator.Reconciler.Diff.stops agents_orchestrator.Reconciler.Diff.stop_test
    agents_orchestrator.Reconciler.Diff.desired_set_of
starts_unserved_example =
    starts_unserved some (λ m. m) (target ∷ []) [] [] (pos 100) 1000
      (record { to_start = target ∷ []; to_stop = [] }) refl

stops_all_but_oldest_example :
    count
        (chosen some (λ w. meta_id w.meta == "w2") "instance-1")
        (younger_workload ∷ agent_workload ∷ [])
      + survivors some
          (λ m. m)
          []
          (younger_workload ∷ agent_workload ∷ [])
          []
          (pos 100)
          1000
          (λ w. meta_id w.meta == "w2")
          "instance-1"
    ≡ count
        (chosen some (λ w. meta_id w.meta == "w2") "instance-1")
        (younger_workload ∷ agent_workload ∷ [])
unfolding compute_actions agents_orchestrator.Reconciler.Diff.collect
    agents_orchestrator.Reconciler.Diff.collect_one agents_orchestrator.Uuid.parse_uuid
    agents_orchestrator.Reconciler.Diff.workload_activity_at
    agents_orchestrator.Reconciler.Diff.stops agents_orchestrator.Reconciler.Diff.stop_test
    agents_orchestrator.Reconciler.Diff.desired_set_of
stops_all_but_oldest_example =
    stops_all_but_oldest some (λ m. m) [] (younger_workload ∷ agent_workload ∷ []) [] (pos 100) 1000
      (λ w. meta_id w.meta == "w2") "instance-1"
      (record { to_start = []; to_stop = younger_workload ∷ agent_workload ∷ [] }) (λ p m. refl)
      refl

stop_ends_record_example :
    count (ends "w1") [] < count (ends "w1") (stop_workload_with_context agent_workload env []).1
unfolding is_active_workload_status stop_workload_with_context
    agents_orchestrator.Reconciler.Records.normalize_runner_workload_id
    agents_orchestrator.Platform.dial agents_orchestrator.Platform.update_workload
    agents_orchestrator.Reconciler.Runner.stop_runner_workload agents_orchestrator.Platform.stop
    agents_orchestrator.Reconciler.Runner.revoke_pull_credential
    agents_orchestrator.Platform.delete_identity
stop_ends_record_example = stop_ends_record agent_workload env [] refl refl

abbrev stopped_plan : SandboxPlan
stopped_plan = record {
  sandbox = sandbox SandboxStatus.stopped;
  sandbox_id = "sandbox-1";
  workspace_volumes = [];
  active_workload = some agent_workload;
}

over_sandbox_ends_workload_example :
    count (ends "w1") [] < count (ends "w1") (follow_plan stopped_plan 1000 env []).1
unfolding is_active_workload_status follow_plan agents_orchestrator.Reconciler.Sandbox.ttl_expired
    agents_orchestrator.Reconciler.Sandbox.stop_sandbox_workload stop_workload_with_context
    agents_orchestrator.Reconciler.Records.normalize_runner_workload_id
    agents_orchestrator.Platform.dial agents_orchestrator.Platform.update_workload
    agents_orchestrator.Reconciler.Runner.stop_runner_workload agents_orchestrator.Platform.stop
    agents_orchestrator.Reconciler.Runner.revoke_pull_credential
    agents_orchestrator.Platform.delete_identity agents_orchestrator.Uuid.parse_uuid
    agents_orchestrator.Platform.update_sandbox agents_orchestrator.Effect.each
    agents_orchestrator.Platform.delete_sandbox
over_sandbox_ends_workload_example =
    over_sandbox_ends_workload stopped_plan 1000 agent_workload env [] refl refl refl refl

present-Goes_example : Goes WorkloadStatus.running WorkloadStatus.running
unfolding handle_present_runner_workload
    agents_orchestrator.Reconciler.Records.normalize_runner_workload_id
    agents_orchestrator.Reconciler.Runner.inspect_runner_workload
    agents_orchestrator.Platform.inspect
    agents_orchestrator.Reconciler.Classify.classify_running_containers
    agents_orchestrator.Platform.update_workload
present-Goes_example = present-Goes "runner-1" "w1" agent_workload agent_workload env [] refl

ready_exactly_when_settled_example :
    is_ready (classify_starting_containers (main_container ∷ []) agent_workload 1000) ≡ (
      any plays_main (main_container ∷ [])
      && all (settled (past_grace_at 1000 100)) (main_container ∷ []))
unfolding workload_created_at
ready_exactly_when_settled_example =
    ready_exactly_when_settled (main_container ∷ []) agent_workload 1000 100 refl

grace_spares_pulls_example :
    blames_pull (classify_starting_containers (main_container ∷ []) agent_workload 1000) ≡ false
unfolding workload_created_at
grace_spares_pulls_example =
    grace_spares_pulls (main_container ∷ []) agent_workload 1000 100 refl refl

selects_eligible_example :
    Listed one_runner (some one_runner ∷ [])
    × Fits "org" (("zone", "a") ∷ []) ("gpu" ∷ []) one_runner
unfolding select
selects_eligible_example =
    selects_eligible "org" (("zone", "a") ∷ []) ("gpu" ∷ []) (λ n. ok 0) (some one_runner ∷ [])
      one_runner refl

one_runner-Fits : Fits "org" (("zone", "a") ∷ []) ("gpu" ∷ []) one_runner
one_runner-Fits = record {
  enrolled = refl;
  in_scope = inl refl;
  labelled = (inl refl, tt);
  capable = (refl, tt);
}

selects_when_eligible_example :
    (r : Runner) × (select
        (λ n. ok 0)
        (some one_runner ∷ [])
        "org"
        (("zone", "a") ∷ [])
        ("gpu" ∷ [])
      ≡ ok r)
selects_when_eligible_example =
    selects_when_eligible "org" (("zone", "a") ∷ []) ("gpu" ∷ []) (λ n. ok 0) (some one_runner ∷ [])
      one_runner (λ n. (0, refl, omega arith)) (refl, tt) (inl refl) one_runner-Fits (refl, tt)

abbrev failed_workload : Workload
failed_workload = record agent_workload { status = WorkloadStatus.failed; removed_at = some 1000 }

-- The instance has failed once.
abbrev history : WorkloadQuery → Page (Option Workload)
history q = elim q [
  | WorkloadQuery.of_instance id (WorkloadStatus.stopped ∷ WorkloadStatus.failed ∷ []) n ↦ record {
    items = some failed_workload ∷ [];
    next = "";
  }
  | WorkloadQuery.of_instance id (WorkloadStatus.failed ∷ []) n ↦ record {
    items = some failed_workload ∷ [];
    next = "";
  }
  | _ ↦ record { items = []; next = "" }
]

abbrev env_failed : Env
env_failed = record env { list_workloads = λ t q token. ok (history q) }

abbrev no_active_found : Trace
no_active_found =
    (list_workloads_by_agent_instance 2 "instance-1" active_statuses 1 env_failed []).1

abbrev failure_found : Trace
failure_found =
    (latest_workload_by_agent_instance 2 "instance-1" ended_statuses env_failed no_active_found).1

abbrev no_stop_found : Trace
no_stop_found =
    (latest_workload_by_agent_instance 2 "instance-1" (WorkloadStatus.stopped ∷ []) env_failed
      failure_found).1

abbrev failures_found : Trace
failures_found =
    (list_workloads_by_agent_instance 2 "instance-1" (WorkloadStatus.failed ∷ []) 11 env_failed
      no_stop_found).1

starts_after_backoff_example :
    (should_start_workload 2 target 100000000000 (("agent-1", 50) ∷ []) env_failed []).0 ≡ ok true
unfolding list_workloads_by_agent_instance agents_orchestrator.Platform.list_workloads
    latest_workload_by_agent_instance agents_orchestrator.Reconciler.Records.workload_ended_at
    workload_created_at
starts_after_backoff_example =
    starts_after_backoff 2 target 100000000000 (("agent-1", 50) ∷ []) env_failed [] no_active_found
      failure_found no_stop_found failures_found failed_workload 50 1000 50 none
      (failed_workload ∷ []) [] refl refl refl refl refl (omega arith) refl refl refl
      ((100, refl, omega arith), tt) tt

pauses_when_exhausted_example :
    count
      (pauses "instance-1" "start_failures_exhausted")
      (should_start_workload 2 target 100000000000 (("agent-1", 50) ∷ []) env_failed []).1
    ≡ 0
unfolding list_workloads_by_agent_instance agents_orchestrator.Platform.list_workloads
    latest_workload_by_agent_instance agents_orchestrator.Reconciler.Records.workload_ended_at
    workload_created_at
pauses_when_exhausted_example =
    pauses_when_exhausted 2 target 100000000000 (("agent-1", 50) ∷ []) env_failed [] no_active_found
      failure_found no_stop_found failures_found failed_workload 50 1000 50 none
      (failed_workload ∷ []) [] refl refl refl refl refl (omega arith) refl refl refl
      ((100, refl, omega arith), tt) tt "instance-1" "start_failures_exhausted"

listing_keeps_limit_example : length (agent_workload ∷ []) ≤ 1
unfolding list_workloads_by_agent_instance agents_orchestrator.Platform.list_workloads
listing_keeps_limit_example =
    listing_keeps_limit 2 "instance-1" [] 1 (agent_workload ∷ []) env [] refl refl

outlived_exactly_example :
    outlived
      (pos 100)
      (activity_from
        (agent_workload ∷ [])
        (record { has_active = false; latest_removed_at = none }))
      1000
    ≡ (not (any (protects 100 1000) (agent_workload ∷ [])) && any dated (agent_workload ∷ []))
outlived_exactly_example = outlived_exactly 100 1000 (agent_workload ∷ []) (omega arith)

abbrev no_caches : Caches
no_caches = record { infos = []; activities = [] }

abbrev workspace : Volume
workspace = no_volume "v1" VolumeStatus.active OwnerKind.sandbox

sandbox_volume_survives_example :
    (count removes (handle_present_runner_volume 2 "runner-1" workspace "disk-2" no_caches env []).1
      ≡ 0)
    × (count removes (lost_volume workspace env []).1 ≡ 0)
    × (count removes (handle_missing_runner_volume workspace env []).1 ≡ 0)
sandbox_volume_survives_example =
    sandbox_volume_survives 2 "runner-1" workspace "disk-2" no_caches env [] refl refl

closes_by_evidence_example :
    (count (closes "v1") (handle_missing_runner_volume workspace env []).1 ≡ 0)
    × (count (closes "v1") (close_missing_volume workspace env []).1 ≡ 1)
closes_by_evidence_example = closes_by_evidence workspace "v1" env []

pinned_volumes_agree_example : Pin.all (agrees "runner-1") (some workspace ∷ []) ≡ true
unfolding pin_page agents_orchestrator.Reconciler.Records.is_pinned_volume_status
pinned_volumes_agree_example = pinned_volumes_agree (some workspace ∷ []) "runner-1" refl

listing_ends_example :
    (ws : List Workload) × ((list_workloads_by_agent_instance 2 "instance-1" [] 1 env []).0 ≡ ok ws)
listing_ends_example =
    listing_ends 1 "instance-1" [] env [] refl refl
      (λ u q next. (record { items = some agent_workload ∷ []; next = "" }, refl, refl))

abbrev expired_plan : SandboxPlan
expired_plan = record {
  sandbox = record (sandbox SandboxStatus.running) { ttl = "50ns" };
  sandbox_id = "sandbox-1";
  workspace_volumes = workspace ∷ [];
  active_workload = some agent_workload;
}

expired_sandbox_is_deleted_example :
    (u : Trace) × ((follow_plan expired_plan 1000 env []).1
      ≡ Event.delete_sandbox "sandbox-1" (ok tt) ∷ u)
unfolding agents_orchestrator.Reconciler.Sandbox.ttl_expired
    agents_orchestrator.Reconciler.Sandbox.same_sandbox_status follow_plan
    agents_orchestrator.Reconciler.Sandbox.stop_sandbox_workload stop_workload_with_context
    agents_orchestrator.Reconciler.Records.normalize_runner_workload_id
    agents_orchestrator.Platform.dial agents_orchestrator.Platform.update_workload
    agents_orchestrator.Reconciler.Runner.stop_runner_workload agents_orchestrator.Platform.stop
    agents_orchestrator.Reconciler.Runner.revoke_pull_credential
    agents_orchestrator.Platform.delete_identity agents_orchestrator.Uuid.parse_uuid
    agents_orchestrator.Platform.update_sandbox agents_orchestrator.Effect.each
    agents_orchestrator.Platform.remove_volume agents_orchestrator.Platform.update_volume
    agents_orchestrator.Platform.delete_sandbox
expired_sandbox_is_deleted_example =
    expired_sandbox_is_deleted expired_plan 1000 env [] refl refl refl

bills_elapsed_time_example : (9000 * 1000 ≤ 9000000) × (9000000 ≤ 9000 * 1000 + 999 * 2)
unfolding agents_orchestrator.Prelude.trim_space agents_orchestrator.Reconciler.Metering.Totals.bill
bills_elapsed_time_example =
    bills_elapsed_time no_sources 100
      ((agent_workload, 5000100)
        ∷ (
          record agent_workload {
            removed_at = some 9000100;
            last_metering_sampled_at = some 5000100;
          },
          6000000,
        )
        ∷ [])
      9000 ((refl, refl), ((refl, refl), tt)) (omega arith, (omega arith, tt)) (omega arith) refl

failed_billing_marks_nothing_example :
    (count marks (sample_metering 3 1000 env []).1 ≡ 0)
    ⊎ (count unbilled (sample_metering 3 1000 env []).1 ≡ 0)
failed_billing_marks_nothing_example = failed_billing_marks_nothing 3 1000 env []

sweep_deletes_orphans_example :
    count
      (deletes "z9")
      (sweep_orphan_identities 1 IdentityType.agent ("z1" ∷ []) 1000 env_stray []).1
    ≡ count (is_orphan ("z1" ∷ []) 1000 "z9") (some stray ∷ []) + 0
unfolding agents_orchestrator.Reconciler.Listings.Joins.Serves
    agents_orchestrator.Platform.list_identities
sweep_deletes_orphans_example =
    sweep_deletes_orphans ("z1" ∷ []) 1000 "z9" 0 IdentityType.agent (some stray ∷ []) [] env_stray
      [] (λ t. refl) (omega arith) refl

silence_spares_workloads_example :
    count acts
      (WorkloadLoop.reconcile_runner
        (record { enrolled = "runner-1" ∷ []; to_visit = [] })
        (("runner-1", ("w1", agent_workload) ∷ []) ∷ [])
        "runner-1"
        env_silent
        []).1
    ≡ 0
unfolding agents_orchestrator.Reconciler.Stop.is_no_terminators
    agents_orchestrator.Prelude.lower_contains
silence_spares_workloads_example =
    silence_spares_workloads (record { enrolled = "runner-1" ∷ []; to_visit = [] })
      (("runner-1", ("w1", agent_workload) ∷ []) ∷ []) "runner-1" env_silent [] refl (inl refl)

orphans_are_untracked_example :
    (left : Map RunnerItem) × ((settle
        (WorkloadLoop.present_workload "runner-1")
        WorkloadLoop.missing_workload
        (("w1", agent_workload) ∷ [])
        (reported_items (some item ∷ []) [])
        tt
        env
        []).0
      ≡ ok (left, tt))
    × ((k : String)
        → lookup k left
          ≡ (if k == "" || member k ("w1" ∷ []) then none else first_item k (some item ∷ [])))
orphans_are_untracked_example =
    orphans_are_untracked "runner-1" (("w1", agent_workload) ∷ []) (some item ∷ []) env []
      (λ j. refl)

abbrev configured_at : Map Time
configured_at = ("agent-1", 200) ∷ []

listing_joins_pages_example :
    (list_active_workloads 1 ("org" ∷ []) env []).0
    ≡ take_each (scoped_agent_workload some ("org" ∷ [])) (some agent_workload ∷ [])
unfolding agents_orchestrator.Reconciler.Listings.Joins.Serves
    agents_orchestrator.Platform.list_workloads
listing_joins_pages_example =
    listing_joins_pages ("org" ∷ []) env (some agent_workload ∷ []) [] 0 [] (omega arith)
      (λ t. refl) (omega arith)

fails_when_unattributable_example :
    failed (sample_workload_metering no_sources agent_workload 1000) ≡ false
unfolding agents_orchestrator.Prelude.trim_space
fails_when_unattributable_example = fails_when_unattributable no_sources agent_workload 1000

workloads_get_patched_example :
    count
      (patches "z1")
      (each (patch_workload_to_current_group_roles 3 []) (some agent_workload ∷ []) env []).1
    ≡ 1 + 0
unfolding each patch_workload_to_current_group_roles agents_orchestrator.Platform.list_groups
    agents_orchestrator.Platform.patch_roles
workloads_get_patched_example =
    workloads_get_patched "z1" 3 [] (some agent_workload ∷ []) env [] refl

removes_stale_once_example :
    count (is_text "b") (stale_candidate_attributes ("a" ∷ []) ("b" ∷ "a" ∷ "b" ∷ [])) ≡ 1
removes_stale_once_example = removes_stale_once "b" ("a" ∷ []) ("b" ∷ "a" ∷ "b" ∷ [])

lost_only_if_gone_example :
    ((if is_some (run_lease_renewal (refusing Code.not_found) 2 manager []).0.lost then 1 else 0)
        + 0
      ≤ count is_gone (run_lease_renewal (refusing Code.not_found) 2 manager []).1)
    × (count is_gone (run_lease_renewal (refusing Code.not_found) 2 manager []).1 ≤ 1 + 0)
lost_only_if_gone_example = lost_only_if_gone (refusing Code.not_found) 2 manager [] refl

lease_asked_at_most_four_times_example :
    count asks_lease (extend_lease_with_retry (refusing Code.unavailable) "z1" []).1 ≤ 4 + 0
lease_asked_at_most_four_times_example =
    lease_asked_at_most_four_times (refusing Code.unavailable) "z1" []

enrollment_keeps_pace_example : is_paced (enroll (refusing Code.unavailable) 6 []).1 ≡ true
enrollment_keeps_pace_example = enrollment_keeps_pace (refusing Code.unavailable) 6

abbrev asked : ComputeResources
asked = record { requests_cpu = "500m"; requests_memory = "1Ki" }

allocation_is_sum_example :
    (1000 ≡ 500 + (500 + 0)) × (2048 ≡ 1024 + (1024 + 0)) × (1000 ≤ max_int32) × (2048 ≤ max_int64)
unfolding agents_orchestrator.Assembler.Resources.sum_allocated_resources
    agents_orchestrator.Prelude.trim_space
allocation_is_sum_example =
    allocation_is_sum (λ _. some (pos 500)) (λ _. some (pos 1024)) (dated_meta "agent-1")
      (some asked) (record { mcp = some (some asked) } ∷ []) 1000 2048 refl

abbrev subscription : Attachment
subscription = record {
  vendor = Vendor.openai;
  placeholder_kind = PlaceholderKind.env;
  placeholder_env = "OPENAI_API_KEY";
}

vendor_opts_in_once_example :
    count
      (has_text "llm-native-openai")
      (attach
        (subscription ∷ subscription ∷ [])
        []
        (record { native = true; role_attributes = []; env_vars = [] })).role_attributes
    ≡ 1
vendor_opts_in_once_example =
    vendor_opts_in_once Vendor.openai (subscription ∷ subscription ∷ []) [] refl

abbrev root_shell : ShellDirectory
root_shell = record { shell_id = "main"; cwd = "/root" }

abbrev work_shell : ShellDirectory
work_shell = record { shell_id = "build 2"; cwd = "/agyn/my work" }

root_shell-Recordable : Recordable root_shell
unfolding has_code begins_in_space ends_in_space agents_orchestrator.Prelude.is_space
    agents_orchestrator.Prelude.strip_prefix
root_shell-Recordable = record {
  named = refl;
  no_tab = refl;
  name_in_line = refl;
  name_begins = refl;
  name_ends = refl;
  absolute = refl;
  path_in_line = refl;
  path_ends = refl;
}

work_shell-Recordable : Recordable work_shell
unfolding has_code begins_in_space ends_in_space agents_orchestrator.Prelude.is_space
    agents_orchestrator.Prelude.strip_prefix
work_shell-Recordable = record {
  named = refl;
  no_tab = refl;
  name_in_line = refl;
  name_begins = refl;
  name_ends = refl;
  absolute = refl;
  path_in_line = refl;
  path_ends = refl;
}

parse_shell_directories-printed_example :
    parse_shell_directories "main\t/root\nbuild 2\t/agyn/my work\n" ≡ root_shell ∷ work_shell ∷ []
unfolding printed
parse_shell_directories-printed_example =
    parse_shell_directories-printed (root_shell ∷ work_shell ∷ [])
      (root_shell-Recordable, (work_shell-Recordable, tt))

abbrev shell_workload : Workload
shell_workload = record agent_workload {
  persistent_shells = true;
  owner_kind = OwnerKind.sandbox;
  owner_id = " box-1";
}

snapshot_records_shells_example :
    snapshot_shell_directories
      (λ runner target.
        ok (ExecEvent.stdout "main\t/ro" ∷ ExecEvent.stdout "ot\n" ∷ ExecEvent.exit ∷ []))
      (some shell_workload)
    ≡ some (record { sandbox_id = "box-1"; directories = root_shell ∷ [] })
unfolding together printed sent agents_orchestrator.Prelude.trim_space
snapshot_records_shells_example =
    snapshot_records_shells
      (λ runner target.
        ok (ExecEvent.stdout "main\t/ro" ∷ ExecEvent.stdout "ot\n" ∷ ExecEvent.exit ∷ []))
      shell_workload ("main\t/ro" ∷ "ot\n" ∷ []) [] root_shell [] refl refl refl refl refl
      (root_shell-Recordable, tt)

signals_exactly_when_due_example :
    ((after (Step.response (some "workload.status_changed") ∷ Step.taken ∷ [])).wake
      ≡ agents_due (Step.response (some "workload.status_changed") ∷ Step.taken ∷ []))
    × ((after (Step.response (some "workload.status_changed") ∷ Step.taken ∷ [])).sandbox_wake
        ≡ sandboxes_due (Step.response (some "workload.status_changed") ∷ Step.taken ∷ []))
signals_exactly_when_due_example =
    signals_exactly_when_due (Step.response (some "workload.status_changed") ∷ Step.taken ∷ [])

abbrev outage : List (Result (List Received))
outage = err (fault "unavailable") ∷ ok [] ∷ []

abbrev no_signal : Subscriber
no_signal = record { wake = false; sandbox_wake = false }

reconnects_keep_pace_example :
    All Paced (run outage second no_signal).0 × (length (run outage second no_signal).0 ≡ 2)
reconnects_keep_pace_example =
    reconnects_keep_pace outage second no_signal (omega arith, omega arith)
