-- ===== src/Platform/Rpc.antt =====
-- One action for each request: it is answered, and both go on the trace.
use agents_orchestrator.Prelude.{String, Option, List, ◌∷◌, Time}
use agents_orchestrator.Errors.{ok}
use agents_orchestrator.Api.{Workload, Volume, Runner, Inspection, Agent, AgentInstance, Sandbox}
use agents_orchestrator.Effect.{Eff}
use agents_orchestrator.Platform.Messages.{
  UpdateWorkload, UpdateVolume, CreateWorkload, CreateVolume, StartRequest, StartReply,
  UpdateSandbox, IdentityRequest, IdentityReply, IdentityType, ManagedIdentity, VolumeDefinition,
  WorkloadQuery, Page, Event, Assembled, VolumeQuery, UsageRecord, SampledAtEntry, SandboxOwner,
  RunnerItem, RolePatch,
}

-- time.Now().UTC()
abbrev pub now : Eff Time
now env tr = (ok (env.now tr), tr)

unfoldable pub update_workload : UpdateWorkload → Eff (Unit {0})
update_workload a env tr = let r = env.update_workload tr a in (r, Event.update_workload a r ∷ tr)

unfoldable pub update_volume : UpdateVolume → Eff (Unit {0})
update_volume a env tr = let r = env.update_volume tr a in (r, Event.update_volume a r ∷ tr)

unfoldable pub create_workload : CreateWorkload → Eff (Unit {0})
create_workload a env tr = let r = env.create_workload tr a in (r, Event.create_workload a r ∷ tr)

unfoldable pub create_volume : CreateVolume → Eff (Unit {0})
create_volume a env tr = let r = env.create_volume tr a in (r, Event.create_volume a r ∷ tr)

unfoldable pub get_volume_record : String → Eff (Option Volume)
get_volume_record a env tr =
    let r = env.get_volume_record tr a in (r, Event.get_volume_record a r ∷ tr)

unfoldable pub get_runner : String → Eff (Option Runner)
get_runner a env tr = let r = env.get_runner tr a in (r, Event.get_runner a r ∷ tr)

unfoldable pub dial : String → Eff (Unit {0})
dial a env tr = let r = env.dial tr a in (r, Event.dial a r ∷ tr)

unfoldable pub start : String → StartRequest → Eff StartReply
start a b env tr = let r = env.start tr a b in (r, Event.start a b r ∷ tr)

unfoldable pub stop : String → String → Eff (Unit {0})
stop a b env tr = let r = env.stop tr a b in (r, Event.stop a b r ∷ tr)

unfoldable pub inspect : String → String → Eff Inspection
inspect a b env tr = let r = env.inspect tr a b in (r, Event.inspect a b r ∷ tr)

unfoldable pub remove_volume : String → String → Eff (Unit {0})
remove_volume a b env tr = let r = env.remove_volume tr a b in (r, Event.remove_volume a b r ∷ tr)

unfoldable pub list_workloads : WorkloadQuery → String → Eff (Page (Option Workload))
list_workloads a b env tr =
    let r = env.list_workloads tr a b in (r, Event.list_workloads a b r ∷ tr)

unfoldable pub pause_instance : String → String → Eff (Unit {0})
pause_instance a b env tr =
    let r = env.pause_instance tr a b in (r, Event.pause_instance a b r ∷ tr)

unfoldable pub update_sandbox : UpdateSandbox → Eff (Unit {0})
update_sandbox a env tr = let r = env.update_sandbox tr a in (r, Event.update_sandbox a r ∷ tr)

unfoldable pub delete_sandbox : String → Eff (Unit {0})
delete_sandbox a env tr = let r = env.delete_sandbox tr a in (r, Event.delete_sandbox a r ∷ tr)

-- snapshotShellDirectories is best-effort, and returns nothing.
unfoldable pub snapshot_shells : String → Eff (Unit {0})
snapshot_shells id env tr = (ok tt, Event.snapshot_shells id ∷ tr)

unfoldable pub get_volume_definition : String → Eff (Option VolumeDefinition)
get_volume_definition a env tr =
    let r = env.get_volume_definition tr a in (r, Event.get_volume_definition a r ∷ tr)

unfoldable pub create_identity : IdentityRequest → Eff IdentityReply
create_identity a env tr = let r = env.create_identity tr a in (r, Event.create_identity a r ∷ tr)

unfoldable pub delete_identity : String → Eff (Unit {0})
delete_identity a env tr = let r = env.delete_identity tr a in (r, Event.delete_identity a r ∷ tr)

unfoldable pub list_identities : IdentityType → String → Eff (Page (Option ManagedIdentity))
list_identities a b env tr =
    let r = env.list_identities tr a b in (r, Event.list_identities a b r ∷ tr)

unfoldable pub mint_credential : String → List String → String → Eff (String × String)
mint_credential a b c env tr =
    let r = env.mint_credential tr a b c in (r, Event.mint_credential a b c r ∷ tr)

unfoldable pub revoke_credential : String → Eff (Unit {0})
revoke_credential a env tr =
    let r = env.revoke_credential tr a in (r, Event.revoke_credential a r ∷ tr)

unfoldable pub assemble : String → String → String → Eff Assembled
assemble a b c env tr = let r = env.assemble tr a b c in (r, Event.assemble a b c r ∷ tr)

unfoldable pub assemble_sandbox : String → Eff Assembled
assemble_sandbox a env tr =
    let r = env.assemble_sandbox tr a in (r, Event.assemble_sandbox a r ∷ tr)

unfoldable pub list_runners : String → String → Eff (Page (Option Runner))
list_runners a b env tr = let r = env.list_runners tr a b in (r, Event.list_runners a b r ∷ tr)

unfoldable pub list_instance_volumes : String → String → Eff (Page (Option Volume))
list_instance_volumes a b env tr =
    let r = env.list_instance_volumes tr a b in (r, Event.list_instance_volumes a b r ∷ tr)

unfoldable pub list_groups : String → String → String → Eff (Page String)
list_groups a b c env tr = let r = env.list_groups tr a b c in (r, Event.list_groups a b c r ∷ tr)

unfoldable pub list_sandbox_volumes : String → String → Eff (Page (Option Volume))
list_sandbox_volumes a b env tr =
    let r = env.list_sandbox_volumes tr a b in (r, Event.list_sandbox_volumes a b r ∷ tr)

unfoldable pub list_agents : String → Eff (Page (Option Agent))
list_agents a env tr = let r = env.list_agents tr a in (r, Event.list_agents a r ∷ tr)

unfoldable pub get_agent : String → Eff (Option Agent)
get_agent a env tr = let r = env.get_agent tr a in (r, Event.get_agent a r ∷ tr)

unfoldable pub get_environment : String → Eff (Option Time)
get_environment a env tr = let r = env.get_environment tr a in (r, Event.get_environment a r ∷ tr)

unfoldable pub list_instances : String → Eff (Page (Option AgentInstance))
list_instances a env tr = let r = env.list_instances tr a in (r, Event.list_instances a r ∷ tr)

unfoldable pub get_inbox : String → Eff (List String)
get_inbox a env tr = let r = env.get_inbox tr a in (r, Event.get_inbox a r ∷ tr)

unfoldable pub get_sandbox : String → Eff SandboxOwner
get_sandbox a env tr = let r = env.get_sandbox tr a in (r, Event.get_sandbox a r ∷ tr)

unfoldable pub record_usage : List UsageRecord → Eff (Unit {0})
record_usage a env tr = let r = env.record_usage tr a in (r, Event.record_usage a r ∷ tr)

unfoldable pub mark_workloads : List SampledAtEntry → Eff (Unit {0})
mark_workloads a env tr = let r = env.mark_workloads tr a in (r, Event.mark_workloads a r ∷ tr)

unfoldable pub mark_volumes : List SampledAtEntry → Eff (Unit {0})
mark_volumes a env tr = let r = env.mark_volumes tr a in (r, Event.mark_volumes a r ∷ tr)

unfoldable pub list_runner_workloads : String → Eff (List (Option RunnerItem))
list_runner_workloads a env tr =
    let r = env.list_runner_workloads tr a in (r, Event.list_runner_workloads a r ∷ tr)

unfoldable pub list_runner_volumes : String → Eff (List (Option RunnerItem))
list_runner_volumes a env tr =
    let r = env.list_runner_volumes tr a in (r, Event.list_runner_volumes a r ∷ tr)

unfoldable pub patch_roles : RolePatch → Eff (Unit {0})
patch_roles a env tr = let r = env.patch_roles tr a in (r, Event.patch_roles a r ∷ tr)

unfoldable pub list_volumes : VolumeQuery → String → Eff (Page (Option Volume))
list_volumes a b env tr = let r = env.list_volumes tr a b in (r, Event.list_volumes a b r ∷ tr)

unfoldable pub list_sandboxes : String → Eff (Page (Option Sandbox))
list_sandboxes a env tr = let r = env.list_sandboxes tr a in (r, Event.list_sandboxes a r ∷ tr)
