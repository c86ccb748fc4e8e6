-- ===== src/Reconciler/Metering/Totals.antt =====
-- What a workload is billed over several cycles.
use agents_orchestrator.Prelude.{
  ℕ, ◌+◌, ◌-◌, ◌*◌, ◌/◌, ◌≤◌, String, ◌≡◌, inl, inr, false, Option, none, some, List, [], ◌∷◌,
  arith, length, Time, ℤ, pos, negsuc, time_sub, max_int64, trim_space, ◌==◌, subst,
}
use agents_orchestrator.Errors.{Result, ok, err, Result-cases}
use agents_orchestrator.Api.{Workload, meta_id, meta_created_at}
use agents_orchestrator.Platform.{UsageRecord, SampledAtEntry}
use agents_orchestrator.Reconciler.Metering.Amounts.{micro_flavor_seconds}
use agents_orchestrator.Reconciler.Metering.Labels.{LabelSources}
use agents_orchestrator.Reconciler.Metering.{
  end_or, sample_window, workload_usage, sample_workload_metering,
}

abbrev value_of : ℤ → ℕ
value_of (pos n) = n
value_of (negsuc n) = 0

-- What the records add up to, in millionths of a second.
abbrev pub billed : List UsageRecord → ℕ
billed [] = 0
billed (u ∷ us) = value_of u.value + billed us

span :
    (start end : ℕ) → start ≤ end → end ≤ start + max_int64 → time_sub end start ≡ pos (end - start)
span start end h k = ground arith

usage-billed :
    (sources : LabelSources) (w : Workload) (id : String) (start end : Time)
    (usage : List UsageRecord)
    → start ≤ end
    → end ≤ start + max_int64
    → trim_space w.flavor == "" ≡ false
    → workload_usage sources w id start end ≡ ok usage
    → billed usage ≡ (end - start) / 1000
unfolding workload_usage micro_flavor_seconds
usage-billed sources w id start end usage h k named e = from (end - start) (span start end h k)
  where
    from : (n : ℕ) → time_sub end start ≡ pos n → billed usage ≡ n / 1000
    from n s = ground (arith, e, s, named)

-- The workload's own account of when it was last billed up to.
abbrev pub billed_up_to : Workload → Option Time
billed_up_to w = elim w.last_metering_sampled_at [ some t ↦ some t | none ↦ meta_created_at w.meta ]

-- The workload's record as a cycle reads it, and the clock of the cycle.
abbrev pub Cycle : Type 0
Cycle = Workload × Time

abbrev pub cycle_end : Cycle → Time
cycle_end c = end_or c.1 c.0.removed_at

sample-billed :
    (sources : LabelSources) (w : Workload) (start now : Time) (usage : List UsageRecord)
    (entry : SampledAtEntry)
    → billed_up_to w ≡ some start
    → start ≤ end_or now w.removed_at
    → end_or now w.removed_at ≤ start + max_int64
    → trim_space w.flavor == "" ≡ false
    → sample_workload_metering sources w now ≡ ok (usage, entry)
    → (entry.sampled_at ≡ end_or now w.removed_at)
      × (billed usage ≡ (end_or now w.removed_at - start) / 1000)
unfolding sample_workload_metering sample_window
sample-billed sources w start now usage entry since h k named e =
    let id = meta_id w.meta in
    let end = end_or now w.removed_at in
    elim (Result-cases (workload_usage sources w id start end)) [
      | inl (us, g) ↦
          ground (arith, e, since, g, usage-billed sources w id start end us h k named g)
      | inr (bad, g) ↦ ground (arith, e, since, g)
    ]

-- What successive cycles bill.
unfoldable pub bill : LabelSources → List Cycle → Result ℕ
unfolding sample_workload_metering
bill sources [] = ok 0
bill sources (c ∷ cs) = elim (sample_workload_metering sources c.0 c.1) [
  | err e ↦ err e
  | ok (usage, entry) ↦ elim (bill sources cs) [ err e ↦ err e | ok n ↦ ok (billed usage + n) ]
]

-- Where a cycle's sample asks to be stored that the workload is billed up to.
abbrev pub sampled_to : LabelSources → Cycle → Time → Time
sampled_to sources c start = elim (sample_workload_metering sources c.0 c.1) [
  | err e ↦ start
  | ok (usage, entry) ↦ entry.sampled_at
]

-- What each cycle has asked for is stored before the next one reads the record, and the workload
-- has a flavor.
abbrev pub Stored : LabelSources → Time → List Cycle → Type 0
Stored sources start [] = Unit
Stored sources start (c ∷ cs) =
    ((billed_up_to c.0 ≡ some start) × (trim_space c.0.flavor == "" ≡ false))
    × Stored sources (sampled_to sources c start) cs

abbrev pub Ascending : Time → List Cycle → Type 0
Ascending start [] = Unit
Ascending start (c ∷ cs) = (start ≤ cycle_end c) × Ascending (cycle_end c) cs

abbrev pub last_end : Time → List Cycle → Time
last_end start [] = start
last_end start (c ∷ cs) = last_end (cycle_end c) cs

last_end-ge : (start : Time) (cs : List Cycle) → Ascending start cs → start ≤ last_end start cs
last_end-ge start [] h = omega arith
last_end-ge start (c ∷ cs) (h, hs) = omega (arith, h, last_end-ge (cycle_end c) cs hs)

-- If the time that each cycle's sample asks to be stored is stored before the next cycle reads the
-- record, and the spans end in order, within the 292 years of a duration, then a workload with a
-- flavor whose samples succeed is billed no more than the time from the first start to the last
-- end, and at most 999 nanoseconds per cycle less: on that condition no time is billed twice, and
-- none is lost but by rounding.
pub bills_elapsed_time :
    (sources : LabelSources) (start : Time) (cs : List Cycle) (total : ℕ)
    → Stored sources start cs
    → Ascending start cs
    → last_end start cs ≤ start + max_int64
    → bill sources cs ≡ ok total
    → (total * 1000 ≤ last_end start cs - start)
      × (last_end start cs - start ≤ total * 1000 + 999 * length cs)
unfolding bill
bills_elapsed_time sources start [] total stored h k e = ground (arith, e)
bills_elapsed_time sources start (c ∷ cs) total ((since, named), stored) (h, hs) k e =
    elim (Result-cases (sample_workload_metering sources c.0 c.1)) [
      | inr (bad, g) ↦ absurd (ground (arith, e, g))
      | inl ((usage, entry), g) ↦
          let later = last_end-ge (cycle_end c) cs hs in
          let (same, amount) =
            sample-billed sources c.0 start c.1 usage entry since h (omega (arith, h, k, later))
              named g in
          elim (Result-cases (bill sources cs)) [
            | inr (bad, g') ↦ absurd (ground (arith, e, g, g'))
            | inl (n, g') ↦
                let (most, least) =
                  bills_elapsed_time sources (cycle_end c) cs n
                    (subst (λ at. Stored sources at cs) same (rw (g, sampled_to) at stored)) hs
                    (omega (arith, h, k, later)) g' in
                ground (arith, e, g, g', amount, most, least)
          ]
    ]
