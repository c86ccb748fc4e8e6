-- ===== src/Reconciler/StartDecision.antt =====
-- internal/reconciler/start_decision.go: may an instance with waiting work be started now?
-- `fuel` bounds the pages of a listing, as the deadline of the cycle's context does.
pub mod Backoff
pub mod History
pub mod Listing
use agents_orchestrator.Prelude.{
  ℕ, zero, suc, ◌+◌, ◌-◌, String, Bool, true, false, not, ◌&&◌, ◌||◌, Option, none, some, List, [],
  ◌∷◌, ◌++◌, length, nat_eq, leb, ltb, min, Time, Duration, pos, time_sub, ltb_ℤ, after, Map,
  lookup, if◌then◌else◌, ◌==◌,
}
use agents_orchestrator.Errors.{Result, ok, err, fault}
use agents_orchestrator.Api.{Workload, WorkloadStatus, meta_id}
use agents_orchestrator.Platform
use agents_orchestrator.Platform.{WorkloadQuery, Page}
use agents_orchestrator.Effect.{Eff, pure, fail, lift, continue, ◌>>=◌, ◌>>◌}
use agents_orchestrator.Reconciler.Records.{workload_created_at, workload_ended_at}
use agents_orchestrator.Reconciler.Runner.{pause_instance}
use agents_orchestrator.Reconciler.Diff.{AgentInstanceTarget}

abbrev pub max_start_attempts : ℕ
max_start_attempts = 10

-- startBackoffSchedule[min(index, 4)]
unfoldable pub start_backoff : ℕ → ℕ
start_backoff zero = 10000000000
start_backoff (suc zero) = 30000000000
start_backoff (suc (suc zero)) = 60000000000
start_backoff (suc (suc (suc zero))) = 300000000000
start_backoff _ = 900000000000

abbrev pub workload_history_page_size : ℕ
workload_history_page_size = 100

check_meta : Workload → Result (Unit {0})
check_meta w = elim w.meta [
  | none ↦ err (fault "workload meta missing")
  | some m ↦ if m.id == "" then err (fault "workload meta id missing") else ok tt
]

-- `limit > 0 && len(workloads) >= limit`
abbrev full : ℕ → List Workload → Bool
full limit ws = not (nat_eq limit 0) && leb limit (length ws)

-- The loop over one page.
unfoldable pub take_page : ℕ → List Workload → List (Option Workload) → Result (List Workload)
unfolding check_meta
take_page limit acc [] = ok acc
take_page limit acc (none ∷ ws) = err (fault "workload is nil")
take_page limit acc (some w ∷ ws) =
    let rest = take_page limit (acc ++ w ∷ []) ws in
    elim (check_meta w) [
      | err e ↦ err e
      | ok _ ↦ if full limit (acc ++ w ∷ []) then ok (acc ++ w ∷ []) else rest
    ]

abbrev page_size_for : ℕ → List Workload → ℕ
page_size_for limit acc =
    if nat_eq limit 0
    then workload_history_page_size
    else min (limit - length acc) workload_history_page_size

unfoldable pub list_loop :
    ℕ → String → List WorkloadStatus → ℕ → String → List Workload → Eff (List Workload)
unfolding take_page
list_loop zero id statuses limit token acc = fail (fault "context deadline exceeded")
list_loop (suc fuel) id statuses limit token acc = if full limit acc then pure acc else do
  page ←
      Platform.list_workloads (WorkloadQuery.of_instance id statuses (page_size_for limit acc))
        token
  acc' ← lift (take_page limit acc page.items)
  if full limit acc' || page.next == ""
      then pure acc'
      else list_loop fuel id statuses limit page.next acc'

-- listWorkloadsByAgentInstance
unfoldable pub list_workloads_by_agent_instance :
    ℕ → String → List WorkloadStatus → ℕ → Eff (List Workload)
unfolding list_loop
list_workloads_by_agent_instance fuel id statuses limit =
    if id == ""
    then fail (fault "agent instance id missing")
    else list_loop fuel id statuses limit "" []

abbrev head_of : List Workload → Option Workload
head_of [] = none
head_of (w ∷ ws) = some w

-- latestWorkloadByAgentInstance
unfoldable pub latest_workload_by_agent_instance :
    ℕ → String → List WorkloadStatus → Eff (Option Workload)
unfolding list_workloads_by_agent_instance
latest_workload_by_agent_instance fuel id statuses = do
  ws ← list_workloads_by_agent_instance fuel id statuses 1
  pure (head_of ws)

-- The loop that counts `consecutiveFailures`.
unfoldable pub count_failures : Time → List Workload → ℕ → Result ℕ
count_failures floor [] n = ok n
count_failures floor (w ∷ ws) n =
    let rest = count_failures floor ws (n + 1) in
    elim (workload_created_at w) [ err e ↦ err e | ok t ↦ if after t floor then rest else ok n ]

-- `resetFloor`, given the last workload that was stopped.
reset_floor : Time → Option Workload → Result Time
reset_floor updated_at none = ok updated_at
reset_floor updated_at (some w) = elim (workload_created_at w) [
  | err e ↦ err e
  | ok t ↦ ok (if after t updated_at then t else updated_at)
]

-- The last part: what the number of failures in a row says.
unfoldable pub decide_by_failures : String → Time → Time → ℕ → Eff Bool
unfolding start_backoff
decide_by_failures id now removed_at failures =
    if leb max_start_attempts failures
    then (pause_instance id "start_failures_exhausted" >> pure false)
    else if nat_eq failures 0
    then pure true
    else pure (not (ltb_ℤ (time_sub now removed_at) (pos (start_backoff (failures - 1)))))

abbrev pub active_statuses : List WorkloadStatus
active_statuses = WorkloadStatus.starting ∷ WorkloadStatus.running ∷ WorkloadStatus.stopping ∷ []

abbrev pub ended_statuses : List WorkloadStatus
ended_statuses = WorkloadStatus.stopped ∷ WorkloadStatus.failed ∷ []

-- From `updatedAt.After(latestRemovedAt)` on.
after_failure : ℕ → AgentInstanceTarget → Time → Time → Time → Eff Bool
unfolding latest_workload_by_agent_instance reset_floor count_failures decide_by_failures
after_failure fuel target now updated_at removed_at =
    if after updated_at removed_at then pure true else do
      last_stopped ←
          latest_workload_by_agent_instance fuel target.agent_instance_id
            (WorkloadStatus.stopped ∷ [])
      floor ← lift (reset_floor updated_at last_stopped)
      recent ←
          list_workloads_by_agent_instance fuel target.agent_instance_id
            (WorkloadStatus.failed ∷ []) (max_start_attempts + 1)
      failures ← lift (count_failures floor recent 0)
      decide_by_failures target.agent_instance_id now removed_at failures

is_stopped : WorkloadStatus → Bool
is_stopped WorkloadStatus.stopped = true
is_stopped _ = false

-- What the latest ended workload says.
by_latest : ℕ → AgentInstanceTarget → Time → Map Time → Option Workload → Eff Bool
unfolding after_failure is_stopped
by_latest fuel target now updates none = pure true
by_latest fuel target now updates (some latest) =
    if is_stopped latest.status then pure true else elim (lookup target.agent_id updates) [
      | none ↦ fail (fault "agent %s updated_at missing")
      | some updated_at ↦ do
        removed_at ← lift (workload_ended_at latest)
        after_failure fuel target now updated_at removed_at
    ]

-- What the workloads still active say.
by_active : ℕ → AgentInstanceTarget → Time → Map Time → List Workload → Eff Bool
unfolding latest_workload_by_agent_instance by_latest
by_active fuel target now updates (w ∷ ws) = pure false
by_active fuel target now updates [] = do
  latest ← latest_workload_by_agent_instance fuel target.agent_instance_id ended_statuses
  by_latest fuel target now updates latest

-- shouldStartWorkload
unfoldable pub should_start_workload : ℕ → AgentInstanceTarget → Time → Map Time → Eff Bool
unfolding list_workloads_by_agent_instance by_active
should_start_workload fuel target now updates = do
  active ← list_workloads_by_agent_instance fuel target.agent_instance_id active_statuses 1
  by_active fuel target now updates active
