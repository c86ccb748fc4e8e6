-- ===== src/Reconciler/Diff.antt =====
-- internal/reconciler/diff.go: which agent instances to start and which workloads to stop.
pub mod Collect
pub mod Counts
pub mod Choice
use agents_orchestrator.Prelude.{
  String, Bool, true, false, Option, none, some, List, [], ◌∷◌, ◌++◌, Time, Duration, time_sub,
  ltb_ℤ, ltb, Map, lookup, insert, is_some, if◌then◌else◌,
}
use agents_orchestrator.Errors.{Result, ok, err, fault, ◌>>=◌}
use agents_orchestrator.Api.{Meta, Workload, is_stopping}
use agents_orchestrator.Uuid.{parse_uuid}

pub record AgentInstanceTarget : Type 0 where
  pub agent_instance_id : String
  pub agent_id : String
  pub organization_id : String
  pub thread_id : String

pub record Actions : Type 0 where
  pub to_start : List AgentInstanceTarget
  pub to_stop : List Workload

pub record WorkloadEntry : Type 0 where
  pub workload : Workload
  pub activity_at : Time

activity_of : Option Meta → Option Time → Result Time
activity_of none last = err (fault "workload meta missing")
activity_of (some m) (some t) = ok t
activity_of (some m) none = elim m.created_at [
  | none ↦ err (fault "workload meta created_at missing")
  | some t ↦ ok t
]

unfoldable pub workload_activity_at : Workload → Result Time
unfolding activity_of
workload_activity_at w = activity_of w.meta w.last_activity_at

-- The locals `actualSet` and `duplicates` of the first loop.
pub record Collected : Type 0 where
  pub actual_set : Map WorkloadEntry
  pub duplicates : List Workload

-- `existing, ok := actualSet[agentInstanceID]`
unfoldable pub place : String → WorkloadEntry → Collected → Option WorkloadEntry → Collected
place id entry c none = record c { actual_set = insert id entry c.actual_set }
place id entry c (some existing) =
    if ltb entry.activity_at existing.activity_at
    then record {
      actual_set = insert id entry c.actual_set;
      duplicates = c.duplicates ++ existing.workload ∷ [];
    }
    else record c { duplicates = c.duplicates ++ entry.workload ∷ [] }

module _ (parse : String → Option String) where
  -- One round of `for _, workload := range actual`.
  unfoldable pub collect_one : Workload → Collected → Result Collected
  unfolding place
  collect_one w c = do
    id ← parse_uuid parse w.agent_instance_id
    activity_at ← workload_activity_at w
    let entry : WorkloadEntry = record { workload = w; activity_at = activity_at }
    ok (place id entry c (lookup id c.actual_set))

  unfoldable pub collect : List Workload → Collected → Result Collected
  collect [] c = ok c
  collect (w ∷ ws) c = do c' ← collect_one w c; collect ws c'

unfoldable pub missing : Map WorkloadEntry → List AgentInstanceTarget → List AgentInstanceTarget
missing actual [] = []
missing actual (t ∷ ts) =
    if is_some (lookup t.agent_instance_id actual) then missing actual ts else t ∷ missing actual ts

unfoldable pub desired_set_of :
    List AgentInstanceTarget → Map AgentInstanceTarget → Map AgentInstanceTarget
desired_set_of [] m = m
desired_set_of (t ∷ ts) m = desired_set_of ts (insert t.agent_instance_id t m)

abbrev pub or_duration : Option Duration → Duration → Duration
or_duration none fallback = fallback
or_duration (some d) fallback = d

module _ (parse : String → Option String) (desired_set : Map AgentInstanceTarget)
    (idle_timeouts : Map Duration) (fallback : Duration) (now : Time) where
  -- One round of `for agentInstanceID, entry := range actualSet`: is the workload to be stopped?
  unfoldable pub stop_test : String × WorkloadEntry → Result Bool
  stop_test (id, entry) =
      if is_some (lookup id desired_set)
      then ok false
      else if is_stopping entry.workload.status
      then ok true
      else do
        agent_id ← parse_uuid parse entry.workload.agent_class_id
        let idle_timeout = or_duration (lookup agent_id idle_timeouts) fallback
        ok (ltb_ℤ idle_timeout (time_sub now entry.activity_at))

  unfoldable pub stops : Map WorkloadEntry → Result (List Workload)
  stops [] = ok []
  stops ((id, entry) ∷ m) = do
    stop ← stop_test (id, entry)
    rest ← stops m
    ok (if stop then entry.workload ∷ rest else rest)

-- `iterate` is the order in which Go's runtime ranges over a map.
module _ (parse : String → Option String) (iterate : Map WorkloadEntry → Map WorkloadEntry)
    (desired : List AgentInstanceTarget) (actual : List Workload) (idle_timeouts : Map Duration)
    (fallback : Duration) (now : Time) where
  unfoldable pub compute_actions : Result Actions
  unfolding missing
  compute_actions = do
    c ← collect parse actual (record { actual_set = []; duplicates = [] })
    let desired_set = desired_set_of desired []
    idle ← stops parse desired_set idle_timeouts fallback now (iterate c.actual_set)
    ok (record { to_start = missing c.actual_set desired; to_stop = c.duplicates ++ idle })
