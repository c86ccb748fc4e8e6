-- ===== src/Reconciler/Metering.antt =====
-- metering_sample.go: what running workloads and open volumes have used since they were last
-- sampled goes to the metering service, and they are marked as sampled up to then.
pub mod Amounts
pub mod Labels
pub mod Totals
pub mod Failures
pub mod Marks
use agents_orchestrator.Prelude.{
  ℕ, zero, suc, ◌+◌, ◌-◌, ◌%◌, ◌^◌, String, Bool, true, false, not, ◌&&◌, Option, none, some, List,
  [], ◌∷◌, ◌++◌, Time, ℤ, pos, negsuc, time_sub, Map, insert, member, trim_space, concat, show_ℕ,
  leb, max_int64, if◌then◌else◌, ◌==◌, is_some,
}
use agents_orchestrator.Errors.{Result, ok, err, fault}
use agents_orchestrator.Api.{
  Agent, Workload, Volume, OwnerKind, meta_id, meta_created_at, is_sandbox_kind,
}
use agents_orchestrator.Platform
use agents_orchestrator.Platform.{UsageRecord, UsageUnit, SampledAtEntry, SandboxOwner, Floats}
use agents_orchestrator.Effect.{Eff, pure, lift, asks, attempt, when, ◌>>=◌, ◌>>◌}
use agents_orchestrator.Reconciler.Identity.{sort_texts}
use agents_orchestrator.Reconciler.Listings.{
  list_all_agents, list_pending_sample_workloads, list_pending_sample_volumes,
}
use agents_orchestrator.Reconciler.Listings.Scope.{agent_organizations_from}
use agents_orchestrator.Reconciler.Metering.Amounts.{
  not_positive, micro_flavor_seconds, micro_gb_seconds_from_size,
}
use agents_orchestrator.Reconciler.Metering.Labels.{
  LabelSources, agent_environment_ids, workload_labels, volume_labels,
}

-- Time.UnixNano, a signed 64-bit number that wraps around.
unfoldable pub unix_nano : Time → ℤ
unix_nano t =
    let wrapped = (t + 2 ^ 66 - 62135596800000000000) % 2 ^ 64 in
    if leb wrapped max_int64 then pos wrapped else negsuc (2 ^ 64 - wrapped - 1)

-- strconv.FormatInt(n, 10)
format_int : ℤ → String
unfolding show_ℕ
format_int (pos n) = show_ℕ n
format_int (negsuc n) = concat "-" (show_ℕ (suc n))

-- meteringKey
unfoldable pub metering_key : String → String → String → String → Time → String
unfolding unix_nano format_int
metering_key resource id unit kind interval_end =
    let parts = concat resource (
      concat ":" (
        concat id (concat ":" (concat unit (concat ":" (format_int (unix_nano interval_end))))))) in
    if kind == "" then parts else concat parts (concat ":" kind)

abbrev end_or : Time → Option Time → Time
end_or now none = now
end_or now (some removed_at) = removed_at

-- sampleWindow: where the span starts, if that is known, and where it ends.
unfoldable pub sample_window : Option Time → Option Time → Option Time → Time → Result (Time × Time)
sample_window created_at last_sampled_at removed_at now =
    let end = end_or now removed_at in
    elim last_sampled_at [
      | some s ↦ ok (s, end)
      | none ↦ elim created_at [
        | some s ↦ ok (s, end)
        | none ↦ err (fault "%s %s missing created_at")
      ]
    ]

abbrev sampled : String → Time → SampledAtEntry
sampled id t = record { id = id; sampled_at = t }

workload_usage : LabelSources → Workload → String → Time → Time → Result (List UsageRecord)
unfolding workload_labels micro_flavor_seconds
workload_usage sources w id start end =
    if not_positive (time_sub end start)
    then ok []
    else let org_id = trim_space w.organization_id in
      let flavor = trim_space w.flavor in
      if org_id == ""
      then err (fault "workload %s organization id missing")
      else elim (workload_labels sources w id) [
        | err e ↦ err e
        | ok labels ↦
            if flavor == "" then ok [] else elim (micro_flavor_seconds (time_sub end start)) [
              | err e ↦ err e
              | ok value ↦
                  if not_positive value
                  then ok []
                  else ok (
                      record {
                        org_id = org_id;
                        idempotency_key = metering_key "workload" id "flavor_seconds" "" end;
                        producer = "orchestrator";
                        timestamp = end;
                        labels = insert "flavor" flavor labels;
                        unit = UsageUnit.flavor_seconds;
                        value = value;
                      }
                      ∷ [])
            ]
      ]

-- sampleWorkloadMetering. The entry that it returns is there whenever it succeeds.
unfoldable pub sample_workload_metering :
    LabelSources → Workload → Time → Result (List UsageRecord × SampledAtEntry)
unfolding sample_window workload_usage
sample_workload_metering sources w now =
    let id = meta_id w.meta in
    if id == ""
    then err (fault "workload meta missing")
    else elim (sample_window (meta_created_at w.meta) w.last_metering_sampled_at w.removed_at now) [
      | err e ↦ err e
      | ok (start, end) ↦ elim (workload_usage sources w id start end) [
        | err e ↦ err e
        | ok usage ↦ ok (usage, sampled id end)
      ]
    ]

volume_usage : Floats → LabelSources → Volume → String → Time → Time → Result (List UsageRecord)
unfolding volume_labels micro_gb_seconds_from_size
volume_usage floats sources v id start end =
    if not_positive (time_sub end start)
    then ok []
    else let org_id = trim_space v.organization_id in
      if org_id == ""
      then err (fault "volume %s organization id missing")
      else elim (volume_labels sources v id) [
        | err e ↦ err e
        | ok labels ↦ elim (micro_gb_seconds_from_size floats v.size_gb (time_sub end start)) [
          | err e ↦ err e
          | ok value ↦
              if not_positive value
              then ok []
              else ok (
                  record {
                    org_id = org_id;
                    idempotency_key = metering_key "volume" id "gb_seconds" "storage" end;
                    producer = "orchestrator";
                    timestamp = end;
                    labels = insert "kind" "storage" labels;
                    unit = UsageUnit.gb_seconds;
                    value = value;
                  }
                  ∷ [])
        ]
      ]

-- sampleVolumeMetering, with its one record or none as a list.
unfoldable pub sample_volume_metering :
    Floats → LabelSources → Volume → Time → Result (List UsageRecord × SampledAtEntry)
unfolding sample_window volume_usage
sample_volume_metering floats sources v now =
    let id = meta_id v.meta in
    if id == ""
    then err (fault "volume meta missing")
    else elim (sample_window (meta_created_at v.meta) v.last_metering_sampled_at v.removed_at now) [
      | err e ↦ err e
      | ok (start, end) ↦ elim (volume_usage floats sources v id start end) [
        | err e ↦ err e
        | ok usage ↦ ok (usage, sampled id end)
      ]
    ]

-- The loop over the workloads or over the volumes: the records and the entries of all.
unfoldable pub sample_all {ℓ} :
    {A : Type ℓ}
    → (A → Result (List UsageRecord × SampledAtEntry))
    → List A
    → Result (List UsageRecord × List SampledAtEntry)
sample_all f [] = ok ([], [])
sample_all f (x ∷ xs) =
    let rest = sample_all f xs in
    elim (f x) [
      | err e ↦ err e
      | ok (usage, entry) ↦ elim rest [
        | err e ↦ err e
        | ok (usages, entries) ↦ ok (usage ++ usages, entry ∷ entries)
      ]
    ]

pending : OwnerKind → String → List String → List String
pending kind owner_id acc =
    let id = trim_space owner_id in
    if not (is_sandbox_kind kind)
    then acc
    else if id == ""
    then acc
    else if member id acc
    then acc
    else acc ++ id ∷ []

pending_workloads : List Workload → List String → List String
unfolding pending
pending_workloads [] acc = acc
pending_workloads (w ∷ ws) acc = pending_workloads ws (pending w.owner_kind w.owner_id acc)

pending_volumes : List Volume → List String → List String
unfolding pending
pending_volumes [] acc = acc
pending_volumes (v ∷ vs) acc = pending_volumes vs (pending v.owner_kind v.owner_id acc)

attributed : String → Result SandboxOwner → Map SandboxOwner → Map SandboxOwner
attributed id (err e) acc = acc
attributed id (ok o) acc =
    let owner_id = trim_space o.owner_id in
    if owner_id == ""
    then acc
    else insert id (record { owner_id = owner_id; environment_id = trim_space o.environment_id })
        acc

attribute_each : List String → Map SandboxOwner → Eff (Map SandboxOwner)
unfolding attributed
attribute_each [] acc = pure acc
attribute_each (id ∷ ids) acc = do
  r ← attempt (Platform.get_sandbox id)
  attribute_each ids (attributed id r acc)

-- sandboxAttribution
unfoldable pub sandbox_attribution : List Workload → List Volume → Eff (Map SandboxOwner)
unfolding pending_workloads pending_volumes attribute_each sort_texts
sandbox_attribution ws vs =
    attribute_each (sort_texts (pending_volumes vs (pending_workloads ws []))) []

abbrev some_of {ℓ} : {A : Type ℓ} → List A → Bool
some_of [] = false
some_of (x ∷ xs) = true

-- The three requests at the end of sampleMetering.
unfoldable pub commit :
    List UsageRecord → List SampledAtEntry → List SampledAtEntry → Eff (Unit {0})
commit usages workloads volumes = do
  when (some_of usages) (Platform.record_usage usages)
  when (some_of workloads) (Platform.mark_workloads workloads)
  when (some_of volumes) (Platform.mark_volumes volumes)

commit_both :
    List UsageRecord × List SampledAtEntry → List UsageRecord × List SampledAtEntry → Eff (Unit {0})
unfolding commit
commit_both w v = commit (w.0 ++ v.0) w.1 v.1

commit_samples : Floats → LabelSources → List Workload → List Volume → Time → Eff (Unit {0})
unfolding commit_both sample_all
commit_samples floats sources ws vs now = do
  w ← lift (sample_all (λ w. sample_workload_metering sources w now) ws)
  v ← lift (sample_all (λ v. sample_volume_metering floats sources v now) vs)
  commit_both w v

sample_with : List Workload → List Volume → Map String → Time → Map SandboxOwner → Eff (Unit {0})
unfolding commit_samples
sample_with ws vs environments now sandboxes = do
  floats ← asks (λ env. env.floats)
  commit_samples floats (record { agent_environments = environments; sandboxes = sandboxes }) ws vs
      now

sample_pending : List Workload → List Volume → Map String → Time → Eff (Unit {0})
unfolding sample_with sandbox_attribution
sample_pending ws vs environments now = do
  sandboxes ← sandbox_attribution ws vs
  sample_with ws vs environments now sandboxes

sample_listed : Map String → Time → List Workload → List Volume → Eff (Unit {0})
unfolding sample_pending
sample_listed environments now ws vs =
    if not (some_of ws) && not (some_of vs) then pure tt else sample_pending ws vs environments now

sample_organizations : ℕ → Map String → Time → List String → Eff (Unit {0})
unfolding sample_listed
sample_organizations fuel environments now organizations = do
  ws ← list_pending_sample_workloads fuel organizations
  vs ← list_pending_sample_volumes fuel organizations
  sample_listed environments now ws vs

sample_agents : ℕ → Time → List (Option Agent) → Eff (Unit {0})
unfolding sample_organizations agent_organizations_from agent_environment_ids
sample_agents fuel now agents = do
  parse ← asks (λ env. env.parse_uuid)
  organizations ← lift (agent_organizations_from parse agents [])
  sample_organizations fuel (agent_environment_ids agents []) now organizations

-- sampleMetering
unfoldable pub sample_metering : ℕ → Time → Eff (Unit {0})
unfolding sample_agents list_all_agents
sample_metering fuel now = do agents ← list_all_agents fuel; sample_agents fuel now agents
