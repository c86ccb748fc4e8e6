-- ===== src/Reconciler/Volumes.antt =====
-- One tracked volume against what its runner reports, and its TTL: the handlers of
-- volume_reconcile.go. `fuel` bounds the pages of a listing.
pub mod Expiry
pub mod Survival
use agents_orchestrator.Prelude.{
  ℕ, zero, suc, String, Bool, true, false, not, ◌&&◌, ◌||◌, Option, none, some, List, [], ◌∷◌, Time,
  Duration, ℤ, pos, negsuc, ltb_ℤ, time_sub, after, Map, lookup, insert, trim_space, strip_suffix,
  if◌then◌else◌, ◌==◌,
}
use agents_orchestrator.Errors.{Error, Result, ok, err, fault}
use agents_orchestrator.Api.{
  Workload, WorkloadStatus, Volume, VolumeStatus, meta_id, is_sandbox_kind,
}
use agents_orchestrator.Platform
use agents_orchestrator.Platform.{UpdateVolume, VolumeDefinition, Env}
use agents_orchestrator.Effect.{
  Eff, pure, fail, lift, asks, attempt, ignore, continue, ◌>>=◌, ◌>>◌, when,
}
use agents_orchestrator.Reconciler.Records.{
  volume_identity_id, workload_ended_at, is_active_workload_status, string_ptr,
}
use agents_orchestrator.Reconciler.StartDecision.{list_workloads_by_agent_instance}

pub record InstanceActivity : Type 0 where
  pub has_active : Bool
  pub latest_removed_at : Option Time

pub record VolumeTtlInfo : Type 0 where
  pub persistent : Bool
  pub ttl : Option Duration

-- The two caches of a cycle, which outlive an error.
pub record Caches : Type 0 where
  pub infos : Map VolumeTtlInfo
  pub activities : Map InstanceActivity

is_positive : Duration → Bool
is_positive (pos zero) = false
is_positive (pos (suc n)) = true
is_positive (negsuc n) = false

module _ (duration : String → Option Duration) (days : String → Option (Bool × Duration)) where
  parse_days_ttl : Option String → Result Duration
  parse_days_ttl none = err (fault "parse ttl %q: %w")
  parse_days_ttl (some value) = elim (days value) [
    | none ↦ err (fault "parse ttl %q: %w")
    | some (positive, d) ↦ if positive then ok d else err (fault "ttl must be greater than 0")
  ]

  -- parseVolumeTTL
  unfoldable pub parse_volume_ttl : String → Result Duration
  unfolding is_positive parse_days_ttl
  parse_volume_ttl value =
      let trimmed = trim_space value in
      if trimmed == "" then err (fault "ttl is empty") else elim (duration trimmed) [
        | some d ↦ if is_positive d then ok d else err (fault "ttl must be greater than 0")
        | none ↦ parse_days_ttl (strip_suffix "d" trimmed)
      ]

  unfoldable pub info_of : VolumeDefinition → Result VolumeTtlInfo
  unfolding parse_volume_ttl
  info_of v =
      if v.ttl == ""
      then ok (record { persistent = v.persistent; ttl = none })
      else elim (parse_volume_ttl v.ttl) [
        | err e ↦ err e
        | ok d ↦ ok (record { persistent = v.persistent; ttl = some d })
      ]

read_info : Env → String → Caches → Result (Option VolumeDefinition) → Result VolumeTtlInfo × Caches
unfolding info_of
read_info env id c (err e) = (err e, c)
read_info env id c (ok none) = (err (fault "volume %s missing"), c)
read_info env id c (ok (some v)) = elim (info_of env.parse_duration env.parse_days v) [
  | err e ↦ (err e, c)
  | ok info ↦ (ok info, record c { infos = insert id info c.infos })
]

-- volumeTTLInfo
unfoldable pub volume_ttl_info : String → Caches → Eff (Result VolumeTtlInfo × Caches)
unfolding read_info
volume_ttl_info id c = elim (lookup id c.infos) [
  | some info ↦ pure (ok info, c)
  | none ↦ do
    r ← attempt (Platform.get_volume_definition id)
    env ← asks (λ env. env)
    pure (read_info env id c r)
]

later : Option Time → Time → Option Time
later none t = some t
later (some u) t = if after t u then some t else some u

has_ended : WorkloadStatus → Bool
has_ended WorkloadStatus.stopped = true
has_ended WorkloadStatus.failed = true
has_ended _ = false

-- One round of the loop over the instance's workloads.
note_workload : Workload → InstanceActivity → InstanceActivity
unfolding later has_ended
note_workload w a =
    let active : InstanceActivity = record a {
      has_active = a.has_active || is_active_workload_status w.status;
    } in
    if has_ended w.status
    then elim (workload_ended_at w) [
      | err e ↦ active
      | ok t ↦ record active { latest_removed_at = later a.latest_removed_at t }
    ]
    else active

unfoldable pub activity_from : List Workload → InstanceActivity → InstanceActivity
unfolding note_workload
activity_from [] a = a
activity_from (w ∷ ws) a = activity_from ws (note_workload w a)

read_activity : String → Caches → Result (List Workload) → Result InstanceActivity × Caches
unfolding activity_from
read_activity id c (err e) = (err e, c)
read_activity id c (ok ws) =
    let activity = activity_from ws (record { has_active = false; latest_removed_at = none }) in
    (ok activity, record c { activities = insert id activity c.activities })

-- agentInstanceActivity
unfoldable pub agent_instance_activity :
    ℕ → String → Caches → Eff (Result InstanceActivity × Caches)
unfolding read_activity list_workloads_by_agent_instance
agent_instance_activity fuel id c = elim (lookup id c.activities) [
  | some activity ↦ pure (ok activity, c)
  | none ↦ do
    r ← attempt (list_workloads_by_agent_instance fuel id [] 0)
    pure (read_activity id c r)
]

-- `activity.hasActive || activity.latestRemovedAt == nil`, then the age against the TTL.
unfoldable pub outlived : Duration → InstanceActivity → Time → Bool
outlived ttl a now =
    if a.has_active
    then false
    else elim a.latest_removed_at [ none ↦ false | some t ↦ not (ltb_ℤ (time_sub now t) ttl) ]

by_activity : Duration → Result InstanceActivity × Caches → Eff (Result Bool × Caches)
unfolding outlived
by_activity ttl (err e, c) = pure (err e, c)
by_activity ttl (ok a, c) = do now ← Platform.now; pure (ok (outlived ttl a now), c)

with_ttl : ℕ → Volume → Caches → Option Duration → Eff (Result Bool × Caches)
unfolding by_activity agent_instance_activity volume_identity_id
with_ttl fuel v c none = pure (ok false, c)
with_ttl fuel v c (some ttl) =
    if volume_identity_id v == ""
    then pure (err (fault "volume %s missing agent_instance_id"), c)
    else do r ← agent_instance_activity fuel (volume_identity_id v) c; by_activity ttl r

with_info : ℕ → Volume → Result VolumeTtlInfo × Caches → Eff (Result Bool × Caches)
unfolding with_ttl
with_info fuel v (err e, c) = pure (err e, c)
with_info fuel v (ok info, c) =
    if info.persistent then with_ttl fuel v c info.ttl else pure (ok false, c)

-- volumeTTLExpired
unfoldable pub volume_ttl_expired : ℕ → Volume → Caches → Eff (Result Bool × Caches)
unfolding with_info volume_ttl_info
volume_ttl_expired fuel v c =
    if v.volume_id == ""
    then pure (err (fault "volume %s missing volume_id"), c)
    else do r ← volume_ttl_info v.volume_id c; with_info fuel v r

abbrev pub volume_update : String → Option VolumeStatus → Option String → Option Time → UpdateVolume
volume_update id status instance_id removed_at = record {
  id = id;
  status = status;
  instance_id = instance_id;
  removed_at = removed_at;
}

-- removeRunnerVolume
abbrev pub remove_runner_volume : String → String → Eff (Unit {0})
remove_runner_volume runner instance_id = Platform.remove_volume runner instance_id

unfoldable pub close_record : String → Eff (Unit {0})
close_record id = do
  removed_at ← Platform.now
  Platform.update_volume (volume_update id (some VolumeStatus.deleted) none (some removed_at))

unfoldable pub close_by_status : VolumeStatus → String → Eff (Unit {0})
unfolding close_record
close_by_status VolumeStatus.active id = close_record id
close_by_status VolumeStatus.deprovisioning id = close_record id
close_by_status _ id = pure tt

-- closeMissingVolume: the runner does not have the disk.
unfoldable pub close_missing_volume : Volume → Eff (Unit {0})
unfolding close_by_status
close_missing_volume v =
    if meta_id v.meta == "" then pure tt else close_by_status v.status (meta_id v.meta)

missing_by_status : VolumeStatus → String → Eff (Unit {0})
unfolding close_record
missing_by_status VolumeStatus.deprovisioning id = close_record id
missing_by_status _ id = pure tt

-- handleMissingRunnerVolume: the runner cannot be asked.
unfoldable pub handle_missing_runner_volume : Volume → Eff (Unit {0})
unfolding missing_by_status
handle_missing_runner_volume v =
    if meta_id v.meta == "" then pure tt else missing_by_status v.status (meta_id v.meta)

expire : String → Volume → String → Result Bool × Caches → Eff (Result (Unit {0}) × Caches)
expire runner v instance_id (err e, c) = pure (err e, c)
expire runner v instance_id (ok false, c) = pure (ok tt, c)
expire runner v instance_id (ok true, c) = do
  r ← attempt (do
    Platform.update_volume
        (volume_update (meta_id v.meta) (some VolumeStatus.deprovisioning) none none)
    remove_runner_volume runner instance_id)
  pure (r, c)

after_rename :
    ℕ → String → Volume → String → Caches → Result (Unit {0}) → Eff (Result (Unit {0}) × Caches)
unfolding expire volume_ttl_expired
after_rename fuel runner v instance_id c (err e) = pure (err e, c)
after_rename fuel runner v instance_id c (ok _) =
    if is_sandbox_kind v.owner_kind
    then pure (ok tt, c)
    else do r ← volume_ttl_expired fuel v c; expire runner v instance_id r

present_by_status :
    ℕ → String → Volume → String → Caches → VolumeStatus → Eff (Result (Unit {0}) × Caches)
unfolding after_rename
present_by_status fuel runner v instance_id c VolumeStatus.provisioning = do
  r ← attempt (
      Platform.update_volume
        (volume_update (meta_id v.meta) (some VolumeStatus.active) (string_ptr instance_id) none))
  pure (r, c)
present_by_status fuel runner v instance_id c VolumeStatus.active = do
  r ← attempt (
      when (not (v.instance_id == instance_id)) (
        Platform.update_volume (volume_update (meta_id v.meta) none (string_ptr instance_id) none)))
  after_rename fuel runner v instance_id c r
present_by_status fuel runner v instance_id c VolumeStatus.deprovisioning = do
  r ← attempt (remove_runner_volume runner instance_id)
  pure (r, c)
present_by_status fuel runner v instance_id c _ = pure (ok tt, c)

-- handlePresentRunnerVolume, with the caches as it leaves them.
unfoldable pub handle_present_runner_volume :
    ℕ → String → Volume → String → Caches → Eff (Result (Unit {0}) × Caches)
unfolding present_by_status
handle_present_runner_volume fuel runner v instance_id c =
    if meta_id v.meta == ""
    then pure (ok tt, c)
    else if instance_id == ""
    then pure (ok tt, c)
    else present_by_status fuel runner v instance_id c v.status
