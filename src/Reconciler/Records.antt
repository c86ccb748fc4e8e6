-- ===== src/Reconciler/Records.antt =====
-- Small helpers that the reconciler's files share: runtime_record_identity.go, workload_id.go, and
-- the readers of times and owners in start_decision.go and volume_reconcile.go.
use agents_orchestrator.Prelude.{
  String, Bool, true, false, Option, none, some, Time, if◌then◌else◌, ◌==◌, trim_space,
  strip_prefix, is_some,
}
use agents_orchestrator.Errors.{Result, ok, err, fault}
use agents_orchestrator.Api.{
  Meta, Workload, Volume, VolumeStatus, WorkloadStatus, meta_updated_at, is_sandbox_kind,
}

-- workload_id.go. The runner may report its pod's name, `workload-<uuid>`.
abbrev pub runner_workload_prefix : String
runner_workload_prefix = "workload-"

module _ (parse : String → Option String) where
  normalized : String → Option String → String
  normalized id none = id
  normalized id (some trimmed) =
      if trimmed == "" then id else if is_some (parse trimmed) then trimmed else id

  unfoldable pub normalize_runner_workload_id : String → String
  unfolding normalized strip_prefix
  normalize_runner_workload_id id = normalized id (strip_prefix runner_workload_prefix id)

-- workloadRunnerIdentityID
unfoldable pub workload_runner_identity_id : Workload → String
workload_runner_identity_id w =
    if is_sandbox_kind w.owner_kind then trim_space w.owner_id else trim_space w.agent_instance_id

-- volumeIdentityID
unfoldable pub volume_identity_id : Volume → String
volume_identity_id v =
    let owner_id = trim_space v.owner_id in
    let instance_id = trim_space v.agent_instance_id in
    if owner_id == ""
    then (if instance_id == "" then trim_space v.agent_id else instance_id)
    else owner_id

created : Option Meta → Result Time
created none = err (fault "workload meta missing")
created (some m) = elim m.created_at [
  | none ↦ err (fault "workload created_at missing")
  | some t ↦ ok t
]

unfoldable pub workload_created_at : Workload → Result Time
unfolding created
workload_created_at w = created w.meta

ended : Option Time → Option Time → Result Time
ended (some t) updated = ok t
ended none (some t) = ok t
ended none none = err (fault "workload removed_at and updated_at missing")

unfoldable pub workload_ended_at : Workload → Result Time
unfolding ended
workload_ended_at w = ended w.removed_at (meta_updated_at w.meta)

-- isPinnedVolumeStatus
unfoldable pub is_pinned_volume_status : VolumeStatus → Bool
is_pinned_volume_status VolumeStatus.provisioning = true
is_pinned_volume_status VolumeStatus.active = true
is_pinned_volume_status VolumeStatus.deprovisioning = true
is_pinned_volume_status _ = false

-- isActiveWorkloadStatus
unfoldable pub is_active_workload_status : WorkloadStatus → Bool
is_active_workload_status WorkloadStatus.starting = true
is_active_workload_status WorkloadStatus.running = true
is_active_workload_status WorkloadStatus.stopping = true
is_active_workload_status _ = false

-- stringPtr
abbrev pub string_ptr : String → Option String
string_ptr value = if value == "" then none else some value
