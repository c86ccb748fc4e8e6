-- ===== src/Examples.antt =====
-- The theorems at concrete inputs: an environment in which every service answers, with one runner,
-- one agent and one sandbox.
pub mod Witnesses
use agents_orchestrator.Prelude.{
  ℕ, ◌+◌, ◌*◌, ◌/◌, second, negsuc, ◌≤◌, ◌<◌, String, ◌≡◌, refl, Bool, true, false, not, ◌&&◌, ◌||◌,
  Option, none, some, List, [], ◌∷◌, count, length, any, Time, pos, arith, nat_eq, leb, ltb, keep,
  max_int64,
}
use agents_orchestrator.Errors.{Result, ok, err, fault}
use agents_orchestrator.Api.{
  Meta, Agent, AgentInstance, Workload, WorkloadStatus, Volume, VolumeStatus, Runner, RunnerStatus,
  Sandbox, SandboxStatus, OwnerKind, Container, ContainerRole, ContainerStatus, Inspection,
}
use agents_orchestrator.Platform.{
  Event, Env, Settings, Page, StartRequest, StartReply, StartStatus, ContainerSpec, Assembled,
  IdentityReply, ManagedIdentity, Floats,
}
use agents_orchestrator.Reconciler.Diff.{AgentInstanceTarget}

abbrev pub dated_meta : String → Option Meta
dated_meta id = some (record { id = id; created_at = some 100; updated_at = some 200 })

abbrev pub agent_workload : Workload
agent_workload = record {
  meta = dated_meta "w1";
  status = WorkloadStatus.running;
  runner_id = "runner-1";
  organization_id = "org";
  owner_kind = OwnerKind.agent_instance;
  owner_id = "instance-1";
  agent_id = "agent-1";
  agent_class_id = "agent-1";
  agent_instance_id = "instance-1";
  instance_id = "w1";
  ziti_identity_id = "z1";
  persistent_shells = false;
  last_activity_at = some 150;
  removed_at = none;
  thread_id = "thread-1";
  flavor = "small";
  last_metering_sampled_at = none;
}

abbrev pub agent : Agent
agent = record {
  meta = dated_meta "agent-1";
  organization_id = "org";
  environment_id = "env";
  idle_timeout = none;
}

abbrev pub instance_1 : AgentInstance
instance_1 = record {
  meta = dated_meta "instance-1";
  agent_id = "agent-1";
  organization_id = "org";
}

-- Numbers that are whole, in place of floating-point ones.
abbrev pub floats : Floats
floats = record {
  parse = λ _. some 1;
  of_seconds = elim [ pos n ↦ n / second | negsuc n ↦ 0 ];
  of_integer = λ n. n;
  less = ltb;
  is_zero = λ x. nat_eq x 0;
  times = λ x y. x * y;
  divided_by = λ x y. x / y;
  rounded = pos;
}

abbrev pub one_runner : Runner
one_runner = record {
  meta = dated_meta "runner-1";
  status = RunnerStatus.enrolled;
  organization_id = "";
  labels = ("zone", "a") ∷ [];
  capabilities = "gpu" ∷ [];
}

abbrev pub no_volume : String → VolumeStatus → OwnerKind → Volume
no_volume id status kind = record {
  meta = dated_meta id;
  status = status;
  runner_id = "runner-1";
  thread_id = "instance-1";
  organization_id = "org";
  owner_kind = kind;
  owner_id = "instance-1";
  agent_id = "agent-1";
  agent_instance_id = "instance-1";
  volume_id = "volume";
  instance_id = "disk-1";
  size_gb = "1";
  removed_at = none;
  last_metering_sampled_at = none;
}

abbrev pub main_container : Container
main_container = record {
  container_id = "c1";
  name = "main";
  role = ContainerRole.main;
  image = "image";
  status = ContainerStatus.running;
  reason = "";
  message = "";
  exit_code = none;
  restart_count = pos 0;
  started_at = none;
  finished_at = none;
}

abbrev pub spec : String → ContainerSpec
spec name = record { name = name; image = "image"; variables = [] }

abbrev pub request : StartRequest
request = record {
  workload_id = "";
  main = spec "main";
  sidecars = [];
  init_containers = spec "ziti-enroll" ∷ [];
  capabilities = "gpu" ∷ [];
  additional_properties = [];
  image_pull_credentials = [];
}

abbrev pub assembled : Assembled
assembled = record {
  request = request;
  organization_id = "org";
  environment_id = "env";
  owner_id = "instance-1";
  runner_id = "";
  runner_labels = ("zone", "a") ∷ [];
  llm_role_attributes = [];
  granted_image_ids = [];
  persistent_volumes = [];
  allocated_cpu_millicores = 500;
  allocated_ram_bytes = 1024;
  flavor = "small";
  persistent_shells = false;
}

abbrev pub done : Result (Unit {0})
done = ok tt

abbrev pub env : Env
env = record {
  settings = record {
    has_agents = true;
    has_ziti = true;
    has_groups = true;
    has_image_proxy = true;
    image_proxy_host = "proxy";
    idle = pos 1000;
  };
  parse_uuid = some;
  parse_duration = λ _. some (pos 50);
  parse_days = λ _. none;
  new_uuid = λ _. "w1";
  now = λ _. 1000;
  update_workload = λ _ _. done;
  update_volume = λ _ _. done;
  create_workload = λ _ _. done;
  create_volume = λ _ _. done;
  get_volume_record = λ _ _. ok none;
  get_runner = λ _ _. ok (some one_runner);
  dial = λ _ _. done;
  start = λ _ _ r. ok (record {
    id = r.workload_id;
    status = StartStatus.running;
    failure = none;
    containers = none;
  });
  stop = λ _ _ _. done;
  inspect = λ _ _ _. ok (record { state_running = true; containers = some main_container ∷ [] });
  remove_volume = λ _ _ _. done;
  list_workloads = λ _ _ _. ok (record { items = some agent_workload ∷ []; next = "" });
  pause_instance = λ _ _ _. done;
  update_sandbox = λ _ _. done;
  delete_sandbox = λ _ _. done;
  get_volume_definition = λ _ _. ok none;
  create_identity = λ _ _. ok (record { ziti_identity_id = "z1"; enrollment_jwt = "jwt" });
  delete_identity = λ _ _. done;
  list_identities = λ _ _ _. ok (record { items = []; next = "" });
  mint_credential = λ _ _ _ _. ok ("user", "token");
  revoke_credential = λ _ _. done;
  assemble = λ _ _ _ _. ok assembled;
  assemble_sandbox = λ _ _. ok assembled;
  list_runners = λ _ _ _. ok (record { items = some one_runner ∷ []; next = "" });
  list_instance_volumes = λ _ _ _. ok (record { items = []; next = "" });
  list_groups = λ _ _ _ _. ok (record { items = "g" ∷ []; next = "" });
  list_sandbox_volumes = λ _ _ _. ok (record { items = []; next = "" });
  random_index = λ _ _. ok 0;
  quantity_gb = λ _. some (true, "1");
  floats = floats;
  visit = λ _ keys. keys;
  list_agents = λ _ _. ok (record { items = some agent ∷ []; next = "" });
  get_agent = λ _ _. ok (some agent);
  get_environment = λ _ _. ok none;
  list_instances = λ _ _. ok (record { items = some instance_1 ∷ []; next = "" });
  get_inbox = λ _ _. ok ("thread-1" ∷ []);
  list_sandboxes = λ _ _. ok (record { items = []; next = "" });
  get_sandbox = λ _ _. ok (record { owner_id = "user-1"; environment_id = "env" });
  list_volumes = λ _ _ _. ok (record { items = []; next = "" });
  record_usage = λ _ _. done;
  mark_workloads = λ _ _. done;
  mark_volumes = λ _ _. done;
  list_runner_workloads = λ _ _. ok [];
  list_runner_volumes = λ _ _. ok [];
  patch_roles = λ _ _. done;
}

abbrev pub target : AgentInstanceTarget
target = record {
  agent_instance_id = "instance-1";
  agent_id = "agent-1";
  organization_id = "org";
  thread_id = "thread-1";
}

abbrev pub sandbox : SandboxStatus → Sandbox
sandbox status = record {
  meta = dated_meta "sandbox-1";
  status = status;
  workload_id = some "w1";
  ttl = "";
  idle_timeout = "";
}

-- An identity that no workload has, made long ago.
abbrev pub stray : ManagedIdentity
stray = record { ziti_identity_id = "z9"; created_at = none }

abbrev pub env_stray : Env
env_stray = record env {
  list_identities = λ _ _ _. ok (record { items = some stray ∷ []; next = "" });
}

abbrev pub env_silent : Env
env_silent = record env { dial = λ _ _. err (fault "context deadline exceeded") }
