-- ===== src/Reconciler/Volumes/Expiry.antt =====
-- When a volume has outlived its TTL.
use agents_orchestrator.Prelude.{
  ℕ, ◌+◌, ◌≤◌, ◌≡◌, Bool, true, false, not, ◌&&◌, ◌||◌, Option, none, some, List, [], ◌∷◌, Time,
  arith, any, leb, pos, max_int64, time_sub-ge,
}
use agents_orchestrator.Errors.{ok, err}
use agents_orchestrator.Api.{Workload}
use agents_orchestrator.Reconciler.Records.{workload_ended_at, is_active_workload_status}
use agents_orchestrator.Reconciler.Volumes.{
  InstanceActivity, note_workload, activity_from, outlived, has_ended, later,
}

-- Is the workload at work, or has it ended so lately that the TTL has not passed?
pub protects : ℕ → Time → Workload → Bool
protects ttl now w =
    is_active_workload_status w.status
    || (has_ended w.status
        && elim (workload_ended_at w) [ err e ↦ false | ok t ↦ not (leb (t + ttl) now) ])

pub dated : Workload → Bool
dated w = has_ended w.status && elim (workload_ended_at w) [ err e ↦ false | ok t ↦ true ]

-- The TTL has passed since the end that is noted, if one is.
passed : ℕ → Time → Option Time → Bool
passed ttl now none = true
passed ttl now (some t) = leb (t + ttl) now

noted : Option Time → Bool
noted none = false
noted (some t) = true

outlived-activity :
    (ttl : ℕ) (now : Time) (ws : List Workload) (a : InstanceActivity)
    → ttl ≤ max_int64
    → outlived (pos ttl) (activity_from ws a) now ≡ (
        not a.has_active
        && not (any (protects ttl now) ws)
        && (passed ttl now a.latest_removed_at && (any dated ws || noted a.latest_removed_at)))
unfolding outlived activity_from note_workload protects dated passed noted has_ended later
outlived-activity ttl now [] a h = at_end a.has_active a.latest_removed_at
  where
    at_end :
        (b : Bool) (o : Option Time)
        → outlived (pos ttl) (record { has_active = b; latest_removed_at = o }) now
          ≡ (not b && true && (passed ttl now o && (false || noted o)))
    at_end b none = ground arith
    at_end b (some t) = ground (arith, time_sub-ge now t ttl h)
outlived-activity ttl now (w ∷ ws) a h =
    ground (arith, outlived-activity ttl now ws (note_workload w a) h)

-- With a TTL that fits a duration, a volume has outlived it exactly if none of the instance's
-- workloads is active or ended less than the TTL ago, and at least one has ended at a time that
-- its record tells.
pub outlived_exactly :
    (ttl : ℕ) (now : Time) (ws : List Workload)
    → ttl ≤ max_int64
    → outlived
        (pos ttl)
        (activity_from ws (record { has_active = false; latest_removed_at = none }))
        now
      ≡ (not (any (protects ttl now) ws) && any dated ws)
unfolding noted passed
outlived_exactly ttl now ws h = ground (
  arith,
  outlived-activity ttl now ws (record { has_active = false; latest_removed_at = none }) h,
)
