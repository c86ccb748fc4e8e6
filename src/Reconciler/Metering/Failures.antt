-- ===== src/Reconciler/Metering/Failures.antt =====
-- When a workload cannot be sampled.
use agents_orchestrator.Prelude.{
  String, ◌≡◌, refl, inl, inr, Bool, true, false, not, ◌&&◌, ◌||◌, Option, none, some, arith, Time,
  time_sub, Map, ltb, trim_space, ◌==◌, Bool-cases, Option-cases,
}
use agents_orchestrator.Errors.{Result, ok, err, fault, Result-cases}
use agents_orchestrator.Api.{Workload, OwnerKind, meta_id, meta_created_at}
use agents_orchestrator.Reconciler.Metering.Amounts.{not_positive, micro_flavor_seconds}
use agents_orchestrator.Reconciler.Metering.Labels.{
  LabelSources, base_labels, sandbox_labels, instance_labels, apply_owner_labels, workload_labels,
}
use agents_orchestrator.Reconciler.Metering.Totals.{billed_up_to}
use agents_orchestrator.Reconciler.Metering.{
  end_or, sample_window, workload_usage, sample_workload_metering,
}

abbrev pub failed {ℓ} : {A : Type ℓ} → Result A → Bool
failed (ok a) = false
failed (err e) = true

abbrev blank : String → Bool
blank s = trim_space s == ""

-- The owner's kind is not known, or what it is named by is missing.
abbrev pub lacks_owner : OwnerKind → String → String → String → Bool
lacks_owner OwnerKind.sandbox owner_id agent_id thread_id = blank owner_id
lacks_owner OwnerKind.unspecified owner_id agent_id thread_id = blank agent_id || blank thread_id
lacks_owner OwnerKind.agent_instance owner_id agent_id thread_id = blank agent_id || blank thread_id
lacks_owner (OwnerKind.other n) owner_id agent_id thread_id = true

apply_owner_labels-failed :
    (sources : LabelSources) (kind : OwnerKind) (owner_id agent_id thread_id : String)
    (m : Map String)
    → failed (apply_owner_labels sources kind owner_id agent_id thread_id m)
      ≡ lacks_owner kind owner_id agent_id thread_id
unfolding apply_owner_labels sandbox_labels instance_labels
apply_owner_labels-failed sources OwnerKind.sandbox o a t m = ground arith
apply_owner_labels-failed sources OwnerKind.unspecified o a t m = ground arith
apply_owner_labels-failed sources OwnerKind.agent_instance o a t m = ground arith
apply_owner_labels-failed sources (OwnerKind.other n) o a t m = refl

-- No usage record of the workload can say whom to bill.
abbrev pub unattributable : Workload → Bool
unattributable w =
    blank w.organization_id
    || blank w.runner_id
    || lacks_owner w.owner_kind w.owner_id w.agent_id w.thread_id

workload_labels-failed :
    (sources : LabelSources) (w : Workload) (id : String)
    → failed (workload_labels sources w id)
      ≡ (blank w.runner_id || lacks_owner w.owner_kind w.owner_id w.agent_id w.thread_id)
unfolding workload_labels
workload_labels-failed sources w id = ground (
  arith,
  apply_owner_labels-failed sources w.owner_kind w.owner_id w.agent_id w.thread_id
      (base_labels "workload" id (trim_space w.runner_id)),
)

not_positive-time_sub : (start end : Time) → not_positive (time_sub end start) ≡ not (ltb start end)
not_positive-time_sub start end = ground arith

micro_flavor_seconds-failed :
    (start end : Time)
    → ltb start end ≡ true
    → failed (micro_flavor_seconds (time_sub end start)) ≡ false
unfolding micro_flavor_seconds
micro_flavor_seconds-failed start end h = ground arith

workload_usage-failed :
    (sources : LabelSources) (w : Workload) (id : String) (start end : Time)
    → failed (workload_usage sources w id start end) ≡ (ltb start end && unattributable w)
unfolding workload_usage
workload_usage-failed sources w id start end =
    let labels = workload_labels-failed sources w id in
    let none_to_bill = not_positive-time_sub start end in
    elim (Bool-cases (ltb start end)) [
      | inr h ↦ ground (arith, h, none_to_bill)
      | inl h ↦ ground (arith, h, none_to_bill, labels, micro_flavor_seconds-failed start end h)
    ]

-- What is known of when the time to bill starts.
abbrev pub unsampled : Option Time → Workload → Time → Bool
unsampled none w now = true
unsampled (some start) w now = ltb start (end_or now w.removed_at) && unattributable w

sample_window-undated :
    (w : Workload) (now : Time)
    → billed_up_to w ≡ none
    → sample_window (meta_created_at w.meta) w.last_metering_sampled_at w.removed_at now
      ≡ err (fault "%s %s missing created_at")
unfolding sample_window
sample_window-undated w now h = ground (arith, h)

sample_window-dated :
    (w : Workload) (start now : Time)
    → billed_up_to w ≡ some start
    → sample_window (meta_created_at w.meta) w.last_metering_sampled_at w.removed_at now
      ≡ ok (start, end_or now w.removed_at)
unfolding sample_window
sample_window-dated w start now h = ground (arith, h)

-- A workload cannot be sampled exactly if it has no id, if neither its last sample nor its
-- creation is dated, or if there is time to bill and its organization, its runner or its owner is
-- not known.
pub fails_when_unattributable :
    (sources : LabelSources) (w : Workload) (now : Time)
    → failed (sample_workload_metering sources w now)
      ≡ (meta_id w.meta == "" || unsampled (billed_up_to w) w now)
unfolding sample_workload_metering sample_window
fails_when_unattributable sources w now =
    let id = meta_id w.meta in
    elim (Bool-cases (id == "")) [
      | inl blank ↦ rw blank refl
      | inr named ↦ elim (Option-cases (billed_up_to w)) [
        | inl h ↦ rw (named, sample_window-undated w now h, h) refl
        | inr (start, h) ↦
            let end = end_or now w.removed_at in
            rw (named, sample_window-dated w start now h, h)
              (elim (Result-cases (workload_usage sources w id start end)) [
                | inl (us, g) ↦ rw g (rw (← workload_usage-failed sources w id start end, g) refl)
                | inr (e, g) ↦ rw g (rw (← workload_usage-failed sources w id start end, g) refl)
              ])
      ]
    ]
