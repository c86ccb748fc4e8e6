-- ===== src/Platform/Messages.antt =====
-- Requests, replies, events and the environment that replies.
use agents_orchestrator.Prelude.{ℕ, String, Bool, Option, List, Time, Duration, Map, ℤ}
use agents_orchestrator.Errors.{Result}
use agents_orchestrator.Api.{
  WorkloadStatus, VolumeStatus, SandboxStatus, OwnerKind, FailureReason, Workload, Volume, Runner,
  Agent, AgentInstance, Sandbox, Container, Inspection,
}

-- runners.v1.UpdateWorkloadRequest; no containers is the absent list.
pub record UpdateWorkload : Type 0 where
  pub id : String
  pub status : Option WorkloadStatus
  pub instance_id : Option String
  pub removed_at : Option Time
  pub failure_reason : Option FailureReason
  pub failure_message : Option String
  pub containers : List Container

-- runners.v1.UpdateVolumeRequest
pub record UpdateVolume : Type 0 where
  pub id : String
  pub status : Option VolumeStatus
  pub instance_id : Option String
  pub removed_at : Option Time

-- runners.v1.CreateWorkloadRequest
pub record CreateWorkload : Type 0 where
  pub id : String
  pub runner_id : String
  pub thread_id : String
  pub agent_id : String
  pub organization_id : String
  pub status : WorkloadStatus
  pub ziti_identity_id : String
  pub allocated_cpu_millicores : ℕ
  pub allocated_ram_bytes : ℕ
  pub flavor : String
  pub persistent_shells : Bool
  pub owner_kind : OwnerKind
  pub owner_id : String
  pub agent_class_id : Option String
  pub agent_instance_id : Option String

-- runners.v1.CreateVolumeRequest
pub record CreateVolume : Type 0 where
  pub id : String
  pub runner_id : String
  pub thread_id : String
  pub agent_id : String
  pub organization_id : String
  pub volume_id : String
  pub size_gb : String
  pub status : VolumeStatus
  pub owner_kind : OwnerKind
  pub owner_id : String
  pub volume_definition_id : Option String
  pub agent_class_id : Option String
  pub agent_instance_id : Option String

-- runner.v1.ContainerSpec
pub record ContainerSpec : Type 0 where
  pub name : String
  pub image : String
  pub variables : List (String × String)

-- runner.v1.StartWorkloadRequest
pub record StartRequest : Type 0 where
  pub workload_id : String
  pub main : ContainerSpec
  pub sidecars : List ContainerSpec
  pub init_containers : List ContainerSpec
  pub capabilities : List String
  pub additional_properties : Map String
  pub image_pull_credentials : List (String × String × String)

-- runner.v1.WorkloadStatus, of the runner's own reply.
pub data StartStatus : Type 0 where
  unspecified starting running stopped failed : StartStatus
  other : ℕ → StartStatus

-- runner.v1.WorkloadFailure
pub record Failure : Type 0 where
  pub code : String
  pub message : String

pub record StartedSidecar : Type 0 where
  pub id : String
  pub name : String

pub record StartedContainers : Type 0 where
  pub main : String
  pub sidecars : List (Option StartedSidecar)

-- runner.v1.StartWorkloadResponse
pub record StartReply : Type 0 where
  pub id : String
  pub status : StartStatus
  pub failure : Option Failure
  pub containers : Option StartedContainers

-- agents.v1.UpdateSandboxRuntimeStateRequest; the outer `Option` is the oneof, the inner `none`
-- its ClearWorkloadId.
pub record UpdateSandbox : Type 0 where
  pub id : String
  pub status : SandboxStatus
  pub workload_id_update : Option (Option String)

-- ziti_management.v1.CreateAgentIdentityRequest and CreateSandboxIdentityRequest
pub data IdentityRequest : Type 0 where
  for_agent : String → String → List String → String → String → IdentityRequest
  for_sandbox : String → String → String → String → String → List String → IdentityRequest

pub record IdentityReply : Type 0 where
  pub ziti_identity_id : String
  pub enrollment_jwt : String

pub data IdentityType : Type 0 where
  agent sandbox : IdentityType

-- ziti_management.v1.ManagedIdentity
pub record ManagedIdentity : Type 0 where
  pub ziti_identity_id : String
  pub created_at : Option Time

-- agents.v1.Volume, as the volume loop reads it
pub record VolumeDefinition : Type 0 where
  pub persistent : Bool
  pub ttl : String

-- assembler.PersistentVolumeInfo: the key of the record, the definition's id, the size that the
-- definition declares if there is one, and whether the request has the volume's spec.
pub record PersistentVolume : Type 0 where
  pub key : String
  pub id : String
  pub size : Option String
  pub has_spec : Bool

-- assembler.AssembleResult and SandboxAssembleResult, with the fields that placing a workload reads.
pub record Assembled : Type 0 where
  pub request : StartRequest
  pub organization_id : String
  pub environment_id : String
  pub owner_id : String
  pub runner_id : String
  pub runner_labels : List (String × String)
  pub llm_role_attributes : List String
  pub granted_image_ids : List String
  pub persistent_volumes : List PersistentVolume
  pub allocated_cpu_millicores : ℕ
  pub allocated_ram_bytes : ℕ
  pub flavor : String
  pub persistent_shells : Bool

-- The listings of workload records that the program asks for.
pub data WorkloadQuery : Type 0 where
  active : WorkloadQuery
  active_sandboxes : WorkloadQuery
  of_sandbox : String → WorkloadQuery
  of_instance : String → List WorkloadStatus → ℕ → WorkloadQuery
  pending_sample : WorkloadQuery
  live_of_agent : String → WorkloadQuery

-- The listings of volume records that go over all instances.
pub data VolumeQuery : Type 0 where
  active pending_sample : VolumeQuery

-- metering.v1.Unit and UsageRecord
pub data UsageUnit : Type 0 where
  flavor_seconds gb_seconds : UsageUnit

pub record UsageRecord : Type 0 where
  pub org_id : String
  pub idempotency_key : String
  pub producer : String
  pub timestamp : Time
  pub labels : Map String
  pub unit : UsageUnit
  pub value : ℤ

-- runners.v1.SampledAtEntry
pub record SampledAtEntry : Type 0 where
  pub id : String
  pub sampled_at : Time

-- What the metering labels read of agents.v1.Sandbox.
pub record SandboxOwner : Type 0 where
  pub owner_id : String
  pub environment_id : String

-- runner.v1.WorkloadListItem and VolumeListItem: the record's id as the runner knows it, and the
-- runner's own.
pub record RunnerItem : Type 0 where
  pub key : String
  pub instance_id : String

-- ziti_management.v1.PatchIdentityRoleAttributesRequest
pub record RolePatch : Type 0 where
  pub ziti_identity_id : String
  pub add : List String
  pub remove : List String

-- Go's float64 as its bit pattern, with the operations that the program uses of it: parsing,
-- Duration.Seconds, conversion of an integer constant, `<`, `*`, `/`, and int64(math.Round(x)).
pub record Floats : Type 0 where
  pub parse : String → Option ℕ
  pub of_seconds : Duration → ℕ
  pub of_integer : ℕ → ℕ
  pub less : ℕ → ℕ → Bool
  pub is_zero : ℕ → Bool
  pub times : ℕ → ℕ → ℕ
  pub divided_by : ℕ → ℕ → ℕ
  pub rounded : ℕ → ℤ

pub record Page {ℓ} (A : Type ℓ) : Type ℓ where
  pub items : List A
  pub next : String

pub data Event : Type 0 where
  update_workload : UpdateWorkload → Result (Unit {0}) → Event
  update_volume : UpdateVolume → Result (Unit {0}) → Event
  create_workload : CreateWorkload → Result (Unit {0}) → Event
  create_volume : CreateVolume → Result (Unit {0}) → Event
  get_volume_record : String → Result (Option Volume) → Event
  get_runner : String → Result (Option Runner) → Event
  dial : String → Result (Unit {0}) → Event
  start : String → StartRequest → Result StartReply → Event
  stop : String → String → Result (Unit {0}) → Event
  inspect : String → String → Result Inspection → Event
  remove_volume : String → String → Result (Unit {0}) → Event
  list_workloads : WorkloadQuery → String → Result (Page (Option Workload)) → Event
  pause_instance : String → String → Result (Unit {0}) → Event
  update_sandbox : UpdateSandbox → Result (Unit {0}) → Event
  delete_sandbox : String → Result (Unit {0}) → Event
  snapshot_shells : String → Event
  get_volume_definition : String → Result (Option VolumeDefinition) → Event
  create_identity : IdentityRequest → Result IdentityReply → Event
  delete_identity : String → Result (Unit {0}) → Event
  list_identities : IdentityType → String → Result (Page (Option ManagedIdentity)) → Event
  mint_credential : String → List String → String → Result (String × String) → Event
  revoke_credential : String → Result (Unit {0}) → Event
  assemble : String → String → String → Result Assembled → Event
  assemble_sandbox : String → Result Assembled → Event
  list_runners : String → String → Result (Page (Option Runner)) → Event
  list_instance_volumes : String → String → Result (Page (Option Volume)) → Event
  list_groups : String → String → String → Result (Page String) → Event
  list_sandbox_volumes : String → String → Result (Page (Option Volume)) → Event
  list_agents : String → Result (Page (Option Agent)) → Event
  get_agent : String → Result (Option Agent) → Event
  get_environment : String → Result (Option Time) → Event
  list_instances : String → Result (Page (Option AgentInstance)) → Event
  get_inbox : String → Result (List String) → Event
  get_sandbox : String → Result SandboxOwner → Event
  list_sandboxes : String → Result (Page (Option Sandbox)) → Event
  list_volumes : VolumeQuery → String → Result (Page (Option Volume)) → Event
  record_usage : List UsageRecord → Result (Unit {0}) → Event
  mark_workloads : List SampledAtEntry → Result (Unit {0}) → Event
  mark_volumes : List SampledAtEntry → Result (Unit {0}) → Event
  list_runner_workloads : String → Result (List (Option RunnerItem)) → Event
  list_runner_volumes : String → Result (List (Option RunnerItem)) → Event
  patch_roles : RolePatch → Result (Unit {0}) → Event

abbrev pub Trace : Type 0
Trace = List Event

-- The optional clients and the settings of `Reconciler`.
pub record Settings : Type 0 where
  pub has_agents : Bool
  pub has_ziti : Bool
  pub has_groups : Bool
  pub has_image_proxy : Bool
  pub image_proxy_host : String
  pub idle : Duration

pub record Env : Type 0 where
  pub settings : Settings
  -- uuid.Parse and its canonical text, time.ParseDuration, uuid.New
  pub parse_uuid : String → Option String
  pub parse_duration : String → Option Duration
  -- strconv.ParseFloat, whether the number is above 0, and its product with 24 hours
  pub parse_days : String → Option (Bool × Duration)
  pub new_uuid : Trace → String
  pub now : Trace → Time
  pub update_workload : Trace → UpdateWorkload → Result (Unit {0})
  pub update_volume : Trace → UpdateVolume → Result (Unit {0})
  pub create_workload : Trace → CreateWorkload → Result (Unit {0})
  pub create_volume : Trace → CreateVolume → Result (Unit {0})
  pub get_volume_record : Trace → String → Result (Option Volume)
  pub get_runner : Trace → String → Result (Option Runner)
  pub dial : Trace → String → Result (Unit {0})
  pub start : Trace → String → StartRequest → Result StartReply
  pub stop : Trace → String → String → Result (Unit {0})
  pub inspect : Trace → String → String → Result Inspection
  pub remove_volume : Trace → String → String → Result (Unit {0})
  pub list_workloads : Trace → WorkloadQuery → String → Result (Page (Option Workload))
  pub pause_instance : Trace → String → String → Result (Unit {0})
  pub update_sandbox : Trace → UpdateSandbox → Result (Unit {0})
  pub delete_sandbox : Trace → String → Result (Unit {0})
  pub get_volume_definition : Trace → String → Result (Option VolumeDefinition)
  pub create_identity : Trace → IdentityRequest → Result IdentityReply
  pub delete_identity : Trace → String → Result (Unit {0})
  pub list_identities : Trace → IdentityType → String → Result (Page (Option ManagedIdentity))
  pub mint_credential : Trace → String → List String → String → Result (String × String)
  pub revoke_credential : Trace → String → Result (Unit {0})
  pub assemble : Trace → String → String → String → Result Assembled
  pub assemble_sandbox : Trace → String → Result Assembled
  pub list_runners : Trace → String → String → Result (Page (Option Runner))
  pub list_instance_volumes : Trace → String → String → Result (Page (Option Volume))
  pub list_groups : Trace → String → String → String → Result (Page String)
  pub list_sandbox_volumes : Trace → String → String → Result (Page (Option Volume))
  -- rand.Int below its argument
  pub random_index : Trace → ℕ → Result ℕ
  -- resource.ParseQuantity: the size in GB printed by strconv.FormatFloat, and whether it is above 0
  pub quantity_gb : String → Option (Bool × String)
  pub floats : Floats
  -- The order in which the runtime ranges over a map that has these keys.
  pub visit : Trace → List String → List String
  pub list_agents : Trace → String → Result (Page (Option Agent))
  pub get_agent : Trace → String → Result (Option Agent)
  pub get_environment : Trace → String → Result (Option Time)
  pub list_instances : Trace → String → Result (Page (Option AgentInstance))
  pub get_inbox : Trace → String → Result (List String)
  pub list_sandboxes : Trace → String → Result (Page (Option Sandbox))
  pub get_sandbox : Trace → String → Result SandboxOwner
  pub list_volumes : Trace → VolumeQuery → String → Result (Page (Option Volume))
  pub record_usage : Trace → List UsageRecord → Result (Unit {0})
  pub mark_workloads : Trace → List SampledAtEntry → Result (Unit {0})
  pub mark_volumes : Trace → List SampledAtEntry → Result (Unit {0})
  pub list_runner_workloads : Trace → String → Result (List (Option RunnerItem))
  pub list_runner_volumes : Trace → String → Result (List (Option RunnerItem))
  pub patch_roles : Trace → RolePatch → Result (Unit {0})
