-- ===== src/Platform.antt =====
-- The services around the orchestrator, as it sees them. A request and its reply make an event; the
-- trace of a run is its events, newest first. `Env` answers each request as it likes, in view of
-- everything that happened before, so that a statement for every `Env` is one for every behaviour
-- of the services, of the clock, and of what runs concurrently between two requests.
pub mod Messages
pub mod Rpc
pub use Messages.*
unfoldable pub use Rpc.{
  now, update_workload, update_volume, create_workload, create_volume, get_volume_record,
  get_runner, dial, start, stop, inspect, remove_volume, list_workloads, pause_instance,
  update_sandbox, delete_sandbox, snapshot_shells, get_volume_definition, create_identity,
  delete_identity, list_identities, mint_credential, revoke_credential, assemble, assemble_sandbox,
  list_runners, list_instance_volumes, list_groups, list_sandbox_volumes, list_agents, get_agent,
  get_environment, list_instances, get_inbox, get_sandbox, list_sandboxes, record_usage,
  mark_workloads, mark_volumes, list_runner_workloads, list_runner_volumes, patch_roles,
  list_volumes,
}
