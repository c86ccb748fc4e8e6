-- ===== src/Reconciler/Sandbox/Launch.antt =====
-- startSandboxWorkload and the records and identity that it makes, in sandbox_reconciler.go.
use agents_orchestrator.Prelude.{
  String, Bool, true, false, not, Option, none, some, [], lookup, trim_space, if◌then◌else◌, ◌==◌,
}
use agents_orchestrator.Errors.{Error, Result, ok, err, fault, is_already_exists}
use agents_orchestrator.Api.{
  WorkloadStatus, VolumeStatus, SandboxStatus, OwnerKind, FailureReason, Runner, Volume, meta_id,
}
use agents_orchestrator.Platform
use agents_orchestrator.Platform.{
  UpdateWorkload, CreateWorkload, CreateVolume, StartRequest, StartReply, StartStatus,
  IdentityRequest, Assembled,
}
use agents_orchestrator.Effect.{
  Eff, pure, fail, lift, asks, observes, attempt, ignore, ◌>>=◌, ◌>>◌, when, each,
}
use agents_orchestrator.Reconciler.Records.{
  string_ptr, normalize_runner_workload_id, is_pinned_volume_status,
}
use agents_orchestrator.Reconciler.Runner.{
  stop_runner_workload, mark_workload_failed, mint_pull_credential,
}
use agents_orchestrator.Reconciler.Placement.{get_runner_if_enrolled}
use agents_orchestrator.Reconciler.Identity.{
  IdentityInfo, id_ptr, check_identity, compensate_identity,
}
use agents_orchestrator.Reconciler.VolumeRecords.{VolumeRecord, build_volume_records}
use agents_orchestrator.Reconciler.Start.{
  failure_summary, build_containers, or_empty, is_failed, enroll, identify,
}
use agents_orchestrator.Reconciler.Sandbox.State.{SandboxPlan, update_sandbox_runtime_state}

-- `assembled.Request.GetAdditionalProperties()["label.sandbox-id"]`
abbrev owner_label : Assembled → String
owner_label a = or_empty (lookup "label.sandbox-id" a.request.additional_properties)

-- createSandboxIdentity; the tags repeat the fields.
create_sandbox_identity : String → Assembled → String → Eff (Option IdentityInfo)
unfolding check_identity
create_sandbox_identity sandbox_id a workload_id = do
  ziti ← asks (λ env. env.settings.has_ziti)
  if not ziti then pure none else do
    reply ← Platform.create_identity (
        IdentityRequest.for_sandbox sandbox_id a.owner_id a.environment_id a.organization_id
          workload_id a.llm_role_attributes)
    check_identity reply

is_open : Option Volume → Bool
is_open none = false
is_open (some v) = is_pinned_volume_status v.status

-- ensureOpenVolumeRecord
unfoldable pub ensure_open_volume_record : String → Eff (Unit {0})
unfolding is_open
ensure_open_volume_record id = do
  v ← Platform.get_volume_record id
  if is_open v then pure tt else fail (fault "volume record %s is closed and was not reopened")

after_volume : VolumeRecord → Result (Unit {0}) → Eff (Unit {0})
unfolding ensure_open_volume_record
after_volume r (ok _) = pure tt
after_volume r (err e) = if is_already_exists e then ensure_open_volume_record r.id else fail e

create_sandbox_volume : Assembled → String → VolumeRecord → Eff (Unit {0})
unfolding after_volume
create_sandbox_volume a runner_id r = do
  c ← attempt (
      Platform.create_volume (record {
        id = r.id;
        runner_id = runner_id;
        thread_id = "";
        agent_id = "";
        organization_id = a.organization_id;
        volume_id = "";
        size_gb = r.size_gb;
        status = VolumeStatus.provisioning;
        owner_kind = OwnerKind.sandbox;
        owner_id = owner_label a;
        volume_definition_id = some r.volume_id;
        agent_class_id = none;
        agent_instance_id = none;
      }))
  after_volume r c

-- createSandboxVolumeRecords
unfoldable pub create_sandbox_volume_records : Assembled → String → Eff (Unit {0})
unfolding create_sandbox_volume
create_sandbox_volume_records a runner_id = do
  quantity_gb ← asks (λ env. env.quantity_gb)
  records ← lift (build_volume_records quantity_gb a.persistent_volumes)
  each (create_sandbox_volume a runner_id) records

-- createSandboxWorkloadRecord
unfoldable pub create_sandbox_workload_record :
    String → String → Assembled → Option String → Eff (Unit {0})
create_sandbox_workload_record workload_id runner_id a ziti = Platform.create_workload (record {
  id = workload_id;
  runner_id = runner_id;
  thread_id = "";
  agent_id = "";
  organization_id = a.organization_id;
  status = WorkloadStatus.starting;
  ziti_identity_id = or_empty ziti;
  allocated_cpu_millicores = a.allocated_cpu_millicores;
  allocated_ram_bytes = a.allocated_ram_bytes;
  flavor = a.flavor;
  persistent_shells = a.persistent_shells;
  owner_kind = OwnerKind.sandbox;
  owner_id = owner_label a;
  agent_class_id = none;
  agent_instance_id = none;
})

abbrev is_running : StartStatus → Bool
is_running StartStatus.running = true
is_running _ = false

-- The identity goes back, and the error is passed on.
give_back : Option String → Error → Eff (Unit {0})
give_back ziti e = compensate_identity ziti >> fail e

-- What the parts of one start share.
pub record SandboxAttempt : Type 0 where
  pub plan : SandboxPlan
  pub workload_id : String
  pub runner_id : String
  pub request : StartRequest
  pub ziti : Option String

reported_failure : SandboxAttempt → String → StartReply → Eff (Unit {0})
reported_failure a instance_id reply = do
  when (not (instance_id == "")) (ignore (stop_runner_workload a.runner_id instance_id))
  mark_workload_failed a.workload_id (string_ptr instance_id) FailureReason.start_failed
      (failure_summary reply.failure) (build_containers a.request reply.containers)
  compensate_identity a.ziti
  update_sandbox_runtime_state a.plan.sandbox SandboxStatus.failed "" true

mismatched_id : SandboxAttempt → String → StartReply → Eff (Unit {0})
mismatched_id a instance_id reply = do
  when (not (reply.id == "")) (ignore (stop_runner_workload a.runner_id reply.id))
  mark_workload_failed a.workload_id (string_ptr instance_id) FailureReason.start_failed
      "workload id mismatch" (build_containers a.request reply.containers)
  compensate_identity a.ziti
  update_sandbox_runtime_state a.plan.sandbox SandboxStatus.failed "" true

record_start : SandboxAttempt → String → StartReply → Eff (Unit {0})
record_start a instance_id reply = do
  Platform.update_workload (record {
    id = a.workload_id;
    status = if is_running reply.status then some WorkloadStatus.running else none;
    instance_id = string_ptr instance_id;
    removed_at = none;
    failure_reason = none;
    failure_message = none;
    containers = build_containers a.request reply.containers;
  })
  when (is_running reply.status)
      (update_sandbox_runtime_state a.plan.sandbox SandboxStatus.running a.workload_id false)

unfoldable pub after_sandbox_start : SandboxAttempt → Result StartReply → Eff (Unit {0})
unfolding reported_failure mismatched_id record_start give_back
after_sandbox_start a (err e) = do
  mark_workload_failed a.workload_id none FailureReason.start_failed e.text []
  give_back a.ziti e
after_sandbox_start a (ok reply) = do
  parse ← asks (λ env. env.parse_uuid)
  let instance_id = normalize_runner_workload_id parse reply.id
  if is_failed reply.status
      then reported_failure a instance_id reply
      else if reply.id == a.workload_id
      then record_start a instance_id reply
      else mismatched_id a instance_id reply

after_workload_record : SandboxAttempt → Result (Unit {0}) → Eff (Unit {0})
unfolding after_sandbox_start give_back
after_workload_record a (err e) = give_back a.ziti e
after_workload_record a (ok _) = do
  r ← attempt (Platform.start a.runner_id a.request)
  after_sandbox_start a r

after_volume_records : SandboxAttempt → Assembled → Result (Unit {0}) → Eff (Unit {0})
unfolding after_workload_record create_sandbox_workload_record give_back
after_volume_records a assembled (err e) = give_back a.ziti e
after_volume_records a assembled (ok _) = do
  r ← attempt (create_sandbox_workload_record a.workload_id a.runner_id assembled a.ziti)
  after_workload_record a r

-- From createSandboxVolumeRecords on.
unfoldable pub launch_sandbox : SandboxAttempt → Assembled → Eff (Unit {0})
unfolding after_volume_records create_sandbox_volume_records
launch_sandbox a assembled = do
  r ← attempt (create_sandbox_volume_records assembled a.runner_id)
  after_volume_records a assembled r

start_on : SandboxPlan → Assembled → Option (Runner × Bool) → Eff (Unit {0})
unfolding launch_sandbox create_sandbox_identity
start_on plan a none = fail (fault "sandbox %s runner %s is not enrolled")
start_on plan a (some (r, false)) = fail (fault "sandbox %s runner %s is not enrolled")
start_on plan a (some (r, true)) =
    if meta_id r.meta == "" then fail (fault "sandbox %s runner meta missing") else do
      Platform.dial (trim_space a.runner_id)
      workload_id ← observes (λ env tr. env.new_uuid tr)
      credentials ← mint_pull_credential workload_id a.granted_image_ids a.organization_id
      identity ← create_sandbox_identity plan.sandbox_id a workload_id
      request ← enroll identity (identify a.request workload_id credentials)
      launch_sandbox
          (record {
            plan = plan;
            workload_id = workload_id;
            runner_id = trim_space a.runner_id;
            request = request;
            ziti = id_ptr identity;
          })
          a

-- startSandboxWorkload
unfoldable pub start_sandbox_workload : SandboxPlan → Eff (Unit {0})
unfolding start_on
start_sandbox_workload plan = do
  a ← Platform.assemble_sandbox (meta_id plan.sandbox.meta)
  if trim_space a.runner_id == ""
      then fail (fault "sandbox %s runner id missing")
      else do found ← get_runner_if_enrolled (trim_space a.runner_id); start_on plan a found
