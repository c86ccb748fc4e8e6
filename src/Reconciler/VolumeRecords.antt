-- ===== src/Reconciler/VolumeRecords.antt =====
-- The records of a starting workload's volumes: volume_records.go, and createVolumeRecords,
-- prepareExistingVolumeRecord and markVolumeRecordsFailed of lifecycle_helpers.go.
use agents_orchestrator.Prelude.{
  String, Bool, true, false, not, ◌&&◌, ◌||◌, Option, none, some, List, [], ◌∷◌, Time, trim_space,
  nat_eq, if◌then◌else◌, ◌==◌,
}
use agents_orchestrator.Errors.{Error, Result, ok, err, fault, is_already_exists}
use agents_orchestrator.Api.{Volume, VolumeStatus, OwnerKind}
use agents_orchestrator.Platform
use agents_orchestrator.Platform.{PersistentVolume, CreateVolume, UpdateVolume}
use agents_orchestrator.Effect.{Eff, pure, fail, attempt, ignore, ◌>>=◌, each}
use agents_orchestrator.Reconciler.Diff.{AgentInstanceTarget}

pub record VolumeRecord : Type 0 where
  pub id : String
  pub volume_id : String
  pub size_gb : String

abbrev pub invalid_volume_record : Error
invalid_volume_record = fault "invalid volume record"

module _ (quantity_gb : String → Option (Bool × String)) where
  -- volumeSizeGB
  unfoldable pub volume_size_gb : String → Result String
  volume_size_gb size =
      if trim_space size == ""
      then err (fault "size missing")
      else elim (quantity_gb (trim_space size)) [
        | none ↦ err (fault "parse size %q: %w")
        | some (positive, text) ↦ if positive then ok text else err (fault "size must be positive")
      ]

  record_of : PersistentVolume → Result VolumeRecord
  unfolding volume_size_gb
  record_of info = elim info.size [
    | none ↦ err (fault "volume %s missing")
    | some size ↦
        if info.has_spec
        then elim (volume_size_gb size) [
          | err e ↦ err e
          | ok size_gb ↦ ok (record { id = info.key; volume_id = info.id; size_gb = size_gb })
        ]
        else err (fault "volume spec missing for %s")
  ]

  -- buildVolumeRecords, without the label that it writes into the volume's spec
  unfoldable pub build_volume_records : List PersistentVolume → Result (List VolumeRecord)
  unfolding record_of
  build_volume_records [] = ok []
  build_volume_records (v ∷ vs) =
      let rest = build_volume_records vs in
      elim (record_of v) [
        | err e ↦ err e
        | ok r ↦ elim rest [ err e ↦ err e | ok rs ↦ ok (r ∷ rs) ]
      ]

same_kind : OwnerKind → OwnerKind → Bool
same_kind OwnerKind.unspecified OwnerKind.unspecified = true
same_kind OwnerKind.agent_instance OwnerKind.agent_instance = true
same_kind OwnerKind.sandbox OwnerKind.sandbox = true
same_kind (OwnerKind.other m) (OwnerKind.other n) = nat_eq m n
same_kind _ _ = false

-- Does the record that is there already belong to this request, and is it open?
unfoldable pub matches_request : Volume → CreateVolume → Bool
unfolding same_kind
matches_request v r =
    v.thread_id == r.thread_id
    && (v.agent_id == r.agent_id
        && (v.runner_id == r.runner_id
            && (v.volume_id == r.volume_id
                && (v.organization_id == r.organization_id
                    && (same_kind v.owner_kind r.owner_kind && v.owner_id == r.owner_id)))))

unfoldable pub is_open_status : VolumeStatus → Bool
is_open_status VolumeStatus.provisioning = true
is_open_status VolumeStatus.active = true
is_open_status _ = false

unfoldable pub check_existing : CreateVolume → Option Volume → Eff (Unit {0})
unfolding matches_request is_open_status
check_existing r none = fail invalid_volume_record
check_existing r (some v) =
    if matches_request v r && is_open_status v.status then pure tt else fail invalid_volume_record

-- prepareExistingVolumeRecord
unfoldable pub prepare_existing_volume_record : CreateVolume → Eff (Unit {0})
unfolding check_existing
prepare_existing_volume_record r = do v ← Platform.get_volume_record r.id; check_existing r v

abbrev pub volume_request : VolumeRecord → String → AgentInstanceTarget → String → CreateVolume
volume_request r runner_id target organization_id = record {
  id = r.id;
  runner_id = runner_id;
  thread_id = target.agent_instance_id;
  agent_id = target.agent_id;
  organization_id = organization_id;
  volume_id = r.volume_id;
  size_gb = r.size_gb;
  status = VolumeStatus.provisioning;
  owner_kind = OwnerKind.agent_instance;
  owner_id = target.agent_instance_id;
  volume_definition_id = some r.volume_id;
  agent_class_id = some target.agent_id;
  agent_instance_id = some target.agent_instance_id;
}

is_incomplete : VolumeRecord → Bool
is_incomplete r = r.id == "" || (r.volume_id == "" || r.size_gb == "")

-- What one request came to: a record of ours, one that was there and fits, or an error.
pub data Reserved : Type 0 where
  ours existing : Reserved
  refused : Error → Reserved

after_existing : Result (Unit {0}) → Reserved
after_existing (ok _) = existing
after_existing (err e) = refused e

unfoldable pub after_create : CreateVolume → Result (Unit {0}) → Eff Reserved
unfolding prepare_existing_volume_record after_existing
after_create r (ok _) = pure ours
after_create r (err e) =
    if not (is_already_exists e)
    then pure (refused e)
    else do p ← attempt (prepare_existing_volume_record r); pure (after_existing p)

unfoldable pub reserve : VolumeRecord → String → AgentInstanceTarget → String → Eff Reserved
unfolding is_incomplete after_create
reserve r runner_id target organization_id =
    if is_incomplete r then pure (refused invalid_volume_record) else do
      c ← attempt (Platform.create_volume (volume_request r runner_id target organization_id))
      after_create (volume_request r runner_id target organization_id) c

unfoldable pub after_reserve :
    VolumeRecord
    → Reserved
    → Eff (List VolumeRecord × Option Error)
    → Eff (List VolumeRecord × Option Error)
after_reserve r (refused e) rest = pure ([], some e)
after_reserve r existing rest = rest
after_reserve r ours rest = do later ← rest; pure (r ∷ later.0, later.1)

-- createVolumeRecords: the records that this call created, and the error that ended it, if any.
unfoldable pub create_volume_records :
    List VolumeRecord
    → String
    → AgentInstanceTarget
    → String
    → Eff (List VolumeRecord × Option Error)
unfolding reserve after_reserve
create_volume_records [] runner_id target organization_id = pure ([], none)
create_volume_records (r ∷ rs) runner_id target organization_id = do
  reserved ← reserve r runner_id target organization_id
  after_reserve r reserved (create_volume_records rs runner_id target organization_id)

unfoldable pub mark_volume_failed : Time → VolumeRecord → Eff (Unit {0})
mark_volume_failed removed_at v =
    if v.id == ""
    then pure tt
    else ignore (
        Platform.update_volume (record {
          id = v.id;
          status = some VolumeStatus.failed;
          instance_id = none;
          removed_at = some removed_at;
        }))

-- markVolumeRecordsFailed
unfoldable pub mark_volume_records_failed : List VolumeRecord → Eff (Unit {0})
unfolding mark_volume_failed
mark_volume_records_failed [] = pure tt
mark_volume_records_failed (r ∷ rs) = do
  removed_at ← Platform.now
  each (mark_volume_failed removed_at) (r ∷ rs)
