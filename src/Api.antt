-- ===== src/Api.antt =====
-- The messages of the platform's services, with the fields that the orchestrator reads or writes.
-- Their Go types are generated at build time. A proto enum is open: `other` is any value that its
-- file does not name. A field that the generated getter reads as "" when absent is a text here;
-- one whose absence the program tests is an `Option`. A UUID is its canonical text.
use agents_orchestrator.Prelude.{ℕ, ℤ, String, Bool, true, false, Option, none, some, List, Time}

pub data WorkloadStatus : Type 0 where
  unspecified starting running stopping stopped failed : WorkloadStatus
  other : ℕ → WorkloadStatus

pub data VolumeStatus : Type 0 where
  unspecified provisioning active deprovisioning deleted failed : VolumeStatus
  other : ℕ → VolumeStatus

pub data SandboxStatus : Type 0 where
  unspecified starting running stopped failed terminated : SandboxStatus
  other : ℕ → SandboxStatus

pub data RunnerStatus : Type 0 where
  unspecified enrolled : RunnerStatus
  other : ℕ → RunnerStatus

pub data OwnerKind : Type 0 where
  unspecified agent_instance sandbox : OwnerKind
  other : ℕ → OwnerKind

pub data ContainerRole : Type 0 where
  unspecified main sidecar init : ContainerRole
  other : ℕ → ContainerRole

pub data ContainerStatus : Type 0 where
  unspecified running terminated waiting : ContainerStatus
  other : ℕ → ContainerStatus

pub data FailureReason : Type 0 where
  start_failed image_pull_failed config_invalid crashloop runtime_lost : FailureReason

pub record Meta : Type 0 where
  pub id : String
  pub created_at : Option Time
  pub updated_at : Option Time

-- runners.v1.Workload
pub record Workload : Type 0 where
  pub meta : Option Meta
  pub status : WorkloadStatus
  pub runner_id : String
  pub organization_id : String
  pub owner_kind : OwnerKind
  pub owner_id : String
  pub agent_id : String
  pub agent_class_id : String
  pub agent_instance_id : String
  pub instance_id : String
  pub ziti_identity_id : String
  pub persistent_shells : Bool
  pub last_activity_at : Option Time
  pub removed_at : Option Time
  pub thread_id : String
  pub flavor : String
  pub last_metering_sampled_at : Option Time

-- runners.v1.Volume
pub record Volume : Type 0 where
  pub meta : Option Meta
  pub status : VolumeStatus
  pub runner_id : String
  pub thread_id : String
  pub organization_id : String
  pub owner_kind : OwnerKind
  pub owner_id : String
  pub agent_id : String
  pub agent_instance_id : String
  pub volume_id : String
  pub instance_id : String
  pub size_gb : String
  pub removed_at : Option Time
  pub last_metering_sampled_at : Option Time

-- runners.v1.Runner
pub record Runner : Type 0 where
  pub meta : Option Meta
  pub status : RunnerStatus
  pub organization_id : String
  pub labels : List (String × String)
  pub capabilities : List String

-- agents.v1.Agent
pub record Agent : Type 0 where
  pub meta : Option Meta
  pub organization_id : String
  pub environment_id : String
  pub idle_timeout : Option String

-- agents.v1.AgentInstance
pub record AgentInstance : Type 0 where
  pub meta : Option Meta
  pub agent_id : String
  pub organization_id : String

-- agents.v1.Sandbox
pub record Sandbox : Type 0 where
  pub meta : Option Meta
  pub status : SandboxStatus
  pub workload_id : Option String
  pub ttl : String
  pub idle_timeout : String

-- runner.v1.WorkloadContainer and runners.v1.Container, which share these fields.
pub record Container : Type 0 where
  pub container_id : String
  pub name : String
  pub role : ContainerRole
  pub image : String
  pub status : ContainerStatus
  pub reason : String
  pub message : String
  pub exit_code : Option ℤ
  pub restart_count : ℤ
  pub started_at : Option Time
  pub finished_at : Option Time

-- runner.v1.InspectWorkloadResponse
pub record Inspection : Type 0 where
  pub state_running : Bool
  pub containers : List (Option Container)

-- The generated `GetMeta().GetId()`, which reads an absent message as empty.
abbrev pub meta_id : Option Meta → String
meta_id none = ""
meta_id (some m) = m.id

abbrev pub meta_created_at : Option Meta → Option Time
meta_created_at none = none
meta_created_at (some m) = m.created_at

abbrev pub meta_updated_at : Option Meta → Option Time
meta_updated_at none = none
meta_updated_at (some m) = m.updated_at

abbrev pub is_sandbox_kind : OwnerKind → Bool
is_sandbox_kind OwnerKind.sandbox = true
is_sandbox_kind _ = false

abbrev pub is_enrolled : RunnerStatus → Bool
is_enrolled RunnerStatus.enrolled = true
is_enrolled _ = false

abbrev pub is_stopping : WorkloadStatus → Bool
is_stopping WorkloadStatus.stopping = true
is_stopping _ = false
