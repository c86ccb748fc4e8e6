-- ===== src/Reconciler/Volumes/Survival.antt =====
-- When a disk is removed from its runner.
use agents_orchestrator.Prelude.{
  ℕ, ◌+◌, String, ◌≡◌, Bool, true, false, not, ◌&&◌, ◌||◌, Option, some, arith, count, trim_space,
  if◌then◌else◌, ◌==◌, eq_iff,
}
use agents_orchestrator.Api.{Volume, VolumeStatus, meta_id, is_sandbox_kind}
use agents_orchestrator.Platform.{Event, Trace, Env}
use agents_orchestrator.Platform
use agents_orchestrator.Effect.Without.{Without}
use agents_orchestrator.Errors.{Result-cases}
use agents_orchestrator.Uuid.{parse_uuid}
use agents_orchestrator.Reconciler.Records.{volume_identity_id}
use agents_orchestrator.Reconciler.Runner.{pause_instance}
use agents_orchestrator.Reconciler.Sandbox.{mark_sandbox_failed}
use agents_orchestrator.Reconciler.Cycles.VolumeLoop.{lost_volume}
use agents_orchestrator.Reconciler.Volumes.{
  Caches, handle_present_runner_volume, handle_missing_runner_volume, close_missing_volume,
  present_by_status, after_rename, missing_by_status, close_by_status, close_record,
}

abbrev pub removes : Event → Bool
removes (Event.remove_volume runner id r) = true
removes _ = false

abbrev pub is_deprovisioning : VolumeStatus → Bool
is_deprovisioning VolumeStatus.deprovisioning = true
is_deprovisioning _ = false

present-Without :
    (fuel : ℕ) (runner : String) (v : Volume) (i : String) (c : Caches) (s : VolumeStatus)
    → is_sandbox_kind v.owner_kind ≡ true
    → is_deprovisioning s ≡ false
    → Without removes (present_by_status fuel runner v i c s)
unfolding present_by_status after_rename Platform.update_volume
present-Without fuel runner v i c VolumeStatus.active h k env t = ground arith
present-Without fuel runner v i c VolumeStatus.provisioning h k env t = ground arith
present-Without fuel runner v i c VolumeStatus.deprovisioning h k env t = ground arith
present-Without fuel runner v i c _ h k env t = ground arith

missing-Without : (s : VolumeStatus) (id : String) → Without removes (missing_by_status s id)
unfolding missing_by_status close_record Platform.update_volume
missing-Without VolumeStatus.deprovisioning id env t = ground arith
missing-Without _ id env t = ground arith

close-Without : (s : VolumeStatus) (id : String) → Without removes (close_by_status s id)
unfolding close_by_status close_record Platform.update_volume
close-Without VolumeStatus.deprovisioning id env t = ground arith
close-Without VolumeStatus.active id env t = ground arith
close-Without _ id env t = ground arith

close_missing-Without : (v : Volume) → Without removes (close_missing_volume v)
unfolding close_missing_volume
close_missing-Without v env t = ground (arith, close-Without v.status (meta_id v.meta) env t)

handle_missing-Without : (v : Volume) → Without removes (handle_missing_runner_volume v)
unfolding handle_missing_runner_volume
handle_missing-Without v env t = ground (arith, missing-Without v.status (meta_id v.meta) env t)

mark-Without : (s : String) → Without removes (mark_sandbox_failed s)
unfolding mark_sandbox_failed Platform.update_sandbox
mark-Without s env t = ground (arith, Result-cases (parse_uuid env.parse_uuid (trim_space s)))

pause-Without : (id reason : String) → Without removes (pause_instance id reason)
unfolding pause_instance Platform.pause_instance
pause-Without id reason env t = ground arith

lost-Without : (v : Volume) → Without removes (lost_volume v)
unfolding lost_volume
lost-Without v env t =
    let closed = (close_missing_volume v env t).1 in
    ground (
      arith,
      close_missing-Without v env t,
      mark-Without v.owner_id env closed,
      pause-Without (volume_identity_id v) "volume_lost" env closed,
    )

-- The handling of a tracked sandbox volume that is not being deprovisioned asks no runner to
-- remove a volume, whether the runner reports the volume, reports without it, or cannot be
-- reached. What a runner reports without a tracked record is not meant.
pub sandbox_volume_survives :
    (fuel : ℕ) (runner : String) (v : Volume) (i : String) (c : Caches) (env : Env) (t : Trace)
    → is_sandbox_kind v.owner_kind ≡ true
    → is_deprovisioning v.status ≡ false
    → (count removes (handle_present_runner_volume fuel runner v i c env t).1 ≡ count removes t)
      × (count removes (lost_volume v env t).1 ≡ count removes t)
      × (count removes (handle_missing_runner_volume v env t).1 ≡ count removes t)
unfolding handle_present_runner_volume
sandbox_volume_survives fuel runner v i c env t h k = (
  ground (arith, present-Without fuel runner v i c v.status h k env t),
  lost-Without v env t,
  handle_missing-Without v env t,
)

abbrev is_deleted : Option VolumeStatus → Bool
is_deleted (some VolumeStatus.deleted) = true
is_deleted _ = false

-- The record `k` of a volume is written as deleted.
abbrev pub closes : String → Event → Bool
closes k (Event.update_volume u r) = u.id == k && is_deleted u.status
closes k _ = false

abbrev pub is_active : VolumeStatus → Bool
is_active VolumeStatus.active = true
is_active _ = false

missing-closes :
    (k : String) (s : VolumeStatus) (id : String) (env : Env) (t : Trace)
    → count (closes k) (missing_by_status s id env t).1
      ≡ count (closes k) t + (if id == k && is_deprovisioning s then 1 else 0)
unfolding missing_by_status close_record Platform.update_volume
missing-closes k VolumeStatus.deprovisioning id env t = ground arith
missing-closes k _ id env t = ground arith

lost-closes :
    (k : String) (s : VolumeStatus) (id : String) (env : Env) (t : Trace)
    → count (closes k) (close_by_status s id env t).1
      ≡ count (closes k) t + (if id == k && (is_deprovisioning s || is_active s) then 1 else 0)
unfolding close_by_status close_record Platform.update_volume
lost-closes k VolumeStatus.deprovisioning id env t = ground arith
lost-closes k VolumeStatus.active id env t = ground arith
lost-closes k _ id env t = ground arith

-- If the runner of a volume cannot be asked, the volume's own record is written as deleted, once,
-- exactly if it has an id and is being deprovisioned; if the runner does not have the volume, also
-- if it is active. In any other case no record is, and never that of another volume.
pub closes_by_evidence :
    (v : Volume) (k : String) (env : Env) (t : Trace)
    → (count (closes k) (handle_missing_runner_volume v env t).1
        ≡ count (closes k) t
          + (if not (k == "") && meta_id v.meta == k && is_deprovisioning v.status then 1 else 0))
      × (count (closes k) (close_missing_volume v env t).1
          ≡ count (closes k) t
            + (if not (k == "")
                  && meta_id v.meta == k
                  && (is_deprovisioning v.status || is_active v.status)
                then 1
                else 0))
unfolding handle_missing_runner_volume close_missing_volume
closes_by_evidence v k env t = ground (
  arith,
  eq_iff (meta_id v.meta) k,
  missing-closes k v.status (meta_id v.meta) env t,
  lost-closes k v.status (meta_id v.meta) env t,
)
