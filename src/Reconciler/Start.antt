-- ===== src/Reconciler/Start.antt =====
-- startWorkload of reconciler.go, with createWorkloadRecord of lifecycle_helpers.go and
-- buildContainers. Every error is logged and ends the attempt; what the attempt has created by then
-- is undone first.
pub mod Identities
pub mod Balance
use agents_orchestrator.Prelude.{
  ℕ, String, Bool, true, false, not, ◌&&◌, ◌||◌, Option, none, some, List, [], ◌∷◌, ◌++◌, Map,
  insert, pos, if◌then◌else◌, ◌==◌,
}
use agents_orchestrator.Errors.{Error, Result, ok, err, fault}
use agents_orchestrator.Api.{
  Workload, WorkloadStatus, OwnerKind, FailureReason, Container, ContainerRole, ContainerStatus,
  Runner, meta_id,
}
use agents_orchestrator.Platform
use agents_orchestrator.Platform.{
  UpdateWorkload, CreateWorkload, ContainerSpec, StartRequest, StartReply, StartStatus, Failure,
  StartedContainers, StartedSidecar, Assembled,
}
use agents_orchestrator.Effect.{
  Eff, pure, fail, lift, asks, observes, attempt, ignore, continue, ◌>>=◌, ◌>>◌, when,
}
use agents_orchestrator.Reconciler.Records.{string_ptr, normalize_runner_workload_id}
use agents_orchestrator.Reconciler.Runner.{
  stop_runner_workload, mark_workload_failed, pause_instance, mint_pull_credential,
}
use agents_orchestrator.Reconciler.Placement.{
  pinned_runner_for_agent_instance, place, Placed, on, pin_not_enrolled,
}
use agents_orchestrator.Reconciler.Identity.{
  IdentityInfo, id_ptr, create_identity, compensate_identity, attach_ziti_enrollment_token,
}
use agents_orchestrator.Reconciler.VolumeRecords.{
  VolumeRecord, build_volume_records, create_volume_records, mark_volume_records_failed,
}
use agents_orchestrator.Reconciler.Diff.{AgentInstanceTarget}

-- failureSummary
unfoldable pub failure_summary : Option Failure → String
failure_summary none = "unknown failure"
failure_summary (some f) = if f.message == "" then f.code else f.message

waiting_container : String → String → ContainerRole → String → Container
waiting_container id name role image = record {
  container_id = id;
  name = name;
  role = role;
  image = image;
  status = ContainerStatus.waiting;
  reason = "";
  message = "";
  exit_code = none;
  restart_count = pos 0;
  started_at = none;
  finished_at = none;
}

-- `sidecarSpecs[name]`: of two specs of one name the later one
image_of : String → List ContainerSpec → String → String
image_of name [] found = found
image_of name (c ∷ cs) found = image_of name cs (if c.name == name then c.image else found)

sidecar_containers : List ContainerSpec → List (Option StartedSidecar) → List Container
unfolding waiting_container image_of
sidecar_containers specs [] = []
sidecar_containers specs (none ∷ cs) = sidecar_containers specs cs
sidecar_containers specs (some c ∷ cs) =
    if c.id == ""
    then sidecar_containers specs cs
    else waiting_container c.id c.name ContainerRole.sidecar (image_of c.name specs "")
      ∷ sidecar_containers specs cs

-- buildContainers
unfoldable pub build_containers : StartRequest → Option StartedContainers → List Container
unfolding waiting_container sidecar_containers
build_containers request none = []
build_containers request (some info) =
    let sidecars = sidecar_containers request.sidecars info.sidecars in
    if info.main == ""
    then sidecars
    else waiting_container info.main request.main.name ContainerRole.main request.main.image
      ∷ sidecars

abbrev pub or_empty : Option String → String
or_empty none = ""
or_empty (some s) = s

-- createWorkloadRecord
unfoldable pub create_workload_record :
    String → String → AgentInstanceTarget → Assembled → Option String → Eff (Unit {0})
create_workload_record workload_id runner_id target a ziti = Platform.create_workload (record {
  id = workload_id;
  runner_id = runner_id;
  thread_id = target.agent_instance_id;
  agent_id = target.agent_id;
  organization_id = a.organization_id;
  status = WorkloadStatus.starting;
  ziti_identity_id = or_empty ziti;
  allocated_cpu_millicores = a.allocated_cpu_millicores;
  allocated_ram_bytes = a.allocated_ram_bytes;
  flavor = a.flavor;
  persistent_shells = a.persistent_shells;
  owner_kind = OwnerKind.agent_instance;
  owner_id = target.agent_instance_id;
  agent_class_id = some target.agent_id;
  agent_instance_id = some target.agent_instance_id;
})

-- markVolumeRecordsFailed, then compensateIdentity: how every later failure is undone.
unfoldable pub undo : List VolumeRecord → Option String → Eff (Unit {0})
undo created ziti = mark_volume_records_failed created >> compensate_identity ziti

abbrev pub is_failed : StartStatus → Bool
is_failed StartStatus.failed = true
is_failed _ = false

-- The requests of one attempt, which its parts share.
pub record Attempt : Type 0 where
  pub workload_id : String
  pub runner_id : String
  pub request : StartRequest
  pub created : List VolumeRecord
  pub ziti : Option String

-- The runner says that the workload failed.
reported_failure : Attempt → String → StartReply → Eff (Unit {0})
unfolding undo failure_summary build_containers
reported_failure a instance_id reply = do
  when (not (instance_id == "")) (ignore (stop_runner_workload a.runner_id instance_id))
  mark_workload_failed a.workload_id (string_ptr instance_id) FailureReason.start_failed
      (failure_summary reply.failure) (build_containers a.request reply.containers)
  undo a.created a.ziti

missing_id : Attempt → StartReply → Eff (Unit {0})
unfolding undo build_containers
missing_id a reply = do
  mark_workload_failed a.workload_id none FailureReason.start_failed "missing workload id"
      (build_containers a.request reply.containers)
  undo a.created a.ziti

-- The runner started something else: it is stopped under the id that the runner gave.
mismatched_id : Attempt → StartReply → Eff (Unit {0})
unfolding undo build_containers
mismatched_id a reply = do
  ignore (stop_runner_workload a.runner_id reply.id)
  mark_workload_failed a.workload_id (string_ptr reply.id) FailureReason.start_failed
      "workload id mismatch" (build_containers a.request reply.containers)
  undo a.created a.ziti

record_start : Attempt → String → StartReply → Eff (Unit {0})
unfolding build_containers
record_start a instance_id reply = ignore (
    Platform.update_workload (record {
      id = a.workload_id;
      status = none;
      instance_id = string_ptr instance_id;
      removed_at = none;
      failure_reason = none;
      failure_message = none;
      containers = build_containers a.request reply.containers;
    }))

-- What follows a reply of the runner.
unfoldable pub after_reply : Attempt → StartReply → Eff (Unit {0})
unfolding reported_failure missing_id mismatched_id record_start
after_reply a reply = do
  parse ← asks (λ env. env.parse_uuid)
  let instance_id = normalize_runner_workload_id parse reply.id
  if is_failed reply.status
      then reported_failure a instance_id reply
      else if reply.id == ""
      then missing_id a reply
      else if reply.id == a.workload_id
      then record_start a instance_id reply
      else mismatched_id a reply

unfoldable pub after_start : Attempt → Result StartReply → Eff (Unit {0})
unfolding after_reply undo
after_start a (ok reply) = after_reply a reply
after_start a (err e) = do
  mark_workload_failed a.workload_id none FailureReason.start_failed e.text []
  undo a.created a.ziti

after_record : Attempt → Result (Unit {0}) → Eff (Unit {0})
unfolding after_start undo
after_record a (err e) = undo a.created a.ziti
after_record a (ok _) = do r ← attempt (Platform.start a.runner_id a.request); after_start a r

unfoldable pub after_volumes :
    AgentInstanceTarget → Assembled → Attempt → Option Error → Eff (Unit {0})
unfolding after_record undo create_workload_record
after_volumes target assembled a (some e) = undo a.created a.ziti
after_volumes target assembled a none = do
  r ← attempt (create_workload_record a.workload_id a.runner_id target assembled a.ziti)
  after_record a r

-- From createVolumeRecords on.
unfoldable pub launch :
    AgentInstanceTarget
    → Assembled
    → String
    → String
    → StartRequest
    → List VolumeRecord
    → Option String
    → Eff (Unit {0})
unfolding after_volumes
launch target assembled workload_id runner_id request records ziti = do
  made ← create_volume_records records runner_id target assembled.organization_id
  after_volumes target assembled
      (record {
        workload_id = workload_id;
        runner_id = runner_id;
        request = request;
        created = made.0;
        ziti = ziti;
      })
      made.1

-- The enrollment token goes into the request; without a container for it the identity goes back.
unfoldable pub enroll : Option IdentityInfo → StartRequest → Eff StartRequest
unfolding attach_ziti_enrollment_token
enroll none request = pure request
enroll (some i) request = elim (attach_ziti_enrollment_token i.enrollment_jwt request) [
  | ok r ↦ pure r
  | err e ↦ compensate_identity (some i.id) >> fail e
]

-- The request with the id of the workload, and with the credentials that were minted, if any.
unfoldable pub identify : StartRequest → String → List (String × String × String) → StartRequest
identify r workload_id credentials = record r {
  workload_id = workload_id;
  main = record r.main { variables = r.main.variables ++ ("WORKLOAD_ID", workload_id) ∷ [] };
  additional_properties = insert "label.workload_key" workload_id r.additional_properties;
  image_pull_credentials = elim credentials [ [] ↦ r.image_pull_credentials | c ∷ cs ↦ c ∷ cs ];
}

-- From attachZitiEnrollmentToken on.
unfoldable pub with_identity :
    AgentInstanceTarget
    → Assembled
    → String
    → String
    → StartRequest
    → List VolumeRecord
    → Option IdentityInfo
    → Eff (Unit {0})
unfolding enroll launch
with_identity target assembled workload_id runner_id request records identity = do
  enrolled ← enroll identity request
  launch target assembled workload_id runner_id enrolled records (id_ptr identity)

-- From createIdentity on.
unfoldable pub with_credentials :
    ℕ
    → AgentInstanceTarget
    → Assembled
    → String
    → String
    → List VolumeRecord
    → List (String × String × String)
    → Eff (Unit {0})
unfolding with_identity identify create_identity
with_credentials fuel target assembled workload_id runner_id records credentials = do
  identity ←
      create_identity fuel target workload_id assembled.organization_id assembled.environment_id
        assembled.llm_role_attributes
  with_identity target assembled workload_id runner_id
      (identify assembled.request workload_id credentials) records identity

-- From `workloadID := uuid.New()` on.
unfoldable pub with_id : ℕ → AgentInstanceTarget → Assembled → String → String → Eff (Unit {0})
unfolding with_credentials mint_pull_credential
with_id fuel target assembled runner_id workload_id = do
  quantity_gb ← asks (λ env. env.quantity_gb)
  records ← lift (build_volume_records quantity_gb assembled.persistent_volumes)
  credentials ←
      mint_pull_credential workload_id assembled.granted_image_ids assembled.organization_id
  with_credentials fuel target assembled workload_id runner_id records credentials

unfoldable pub start_on : ℕ → AgentInstanceTarget → Assembled → Placed → Eff (Unit {0})
unfolding with_id
start_on fuel target assembled pin_not_enrolled =
    pause_instance target.agent_instance_id "runner_deprovisioned"
start_on fuel target assembled (on runner) =
    if meta_id runner.meta == "" then fail (fault "runner missing id") else do
      Platform.dial (meta_id runner.meta)
      workload_id ← observes (λ env tr. env.new_uuid tr)
      with_id fuel target assembled (meta_id runner.meta) workload_id

-- startWorkload
unfoldable pub start_workload : ℕ → AgentInstanceTarget → Eff (Unit {0})
unfolding start_on pinned_runner_for_agent_instance place
start_workload fuel target = ignore (do
  assembled ← Platform.assemble target.agent_id target.agent_instance_id target.thread_id
  pinned ← pinned_runner_for_agent_instance fuel target.agent_instance_id
  placed ← place fuel pinned assembled
  start_on fuel target assembled placed)
