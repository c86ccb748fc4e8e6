-- ===== src/Reconciler/StartDecision/History.antt =====
-- When an instance whose latest workload failed is started again, by the history of its workloads.
use agents_orchestrator.Prelude.{
  ℕ, zero, suc, ◌+◌, ◌*◌, ◌≤◌, ◌<◌, max, String, ◌≡◌, refl, ap, sym, ◌∙◌, Bool, false, not, ◌&&◌,
  ◌||◌, Option, none, some, List, [], ◌∷◌, ◌++◌, arith, length, nat_eq, leb, ltb, time_sub-ge,
  count, All, Map, lookup, Time, max_int64, after, eq_iff, if◌then◌else◌, ◌==◌,
}
use agents_orchestrator.Errors.{Result, ok}
use agents_orchestrator.Api.{Workload, WorkloadStatus}
use agents_orchestrator.Platform.{Event, Trace, Env, WorkloadQuery}
use agents_orchestrator.Platform
use agents_orchestrator.Effect.{Eff, continue, lift, pure, ◌>>=◌}
use agents_orchestrator.Effect.Without.{Without, bind-Without, if-Without}
use agents_orchestrator.Reconciler.Records.{workload_created_at, workload_ended_at}
use agents_orchestrator.Reconciler.Runner.{pause_instance}
use agents_orchestrator.Reconciler.Diff.{AgentInstanceTarget}
use agents_orchestrator.Reconciler.StartDecision.{
  active_statuses, ended_statuses, start_backoff, decide_by_failures, count_failures, reset_floor,
  after_failure, by_latest, by_active, is_stopped, latest_workload_by_agent_instance,
  list_workloads_by_agent_instance, should_start_workload, list_loop, full, page_size_for,
  take_page, head_of,
}
use agents_orchestrator.Reconciler.StartDecision.Backoff.{next_page}

-- How long an instance waits after so many failures in a row, in nanoseconds.
abbrev pub wait_after : ℕ → ℕ
wait_after n =
    (if nat_eq n 1
      then 10
      else if nat_eq n 2
      then 30
      else if nat_eq n 3
      then 60
      else if nat_eq n 4
      then 300
      else 900)
    * 1000000000

-- The later of the time of configuration and the creation of the last workload that was stopped.
abbrev pub IsFloor : Time → Option Workload → Time → Type 0
IsFloor updated none floor = floor ≡ updated
IsFloor updated (some w) floor =
    (at : Time) × (workload_created_at w ≡ ok at) × (floor ≡ max updated at)

abbrev pub IsAfter : Time → Workload → Type 0
IsAfter floor w = (at : Time) × (workload_created_at w ≡ ok at) × (floor < at)

-- The first of these, if there is one, was not created after the floor.
abbrev pub StartsBefore : Time → List Workload → Type 0
StartsBefore floor [] = Unit
StartsBefore floor (w ∷ ws) = (at : Time) × (workload_created_at w ≡ ok at) × (at ≤ floor)

reset_floor-IsFloor :
    (updated : Time) (o : Option Workload) (floor : Time)
    → IsFloor updated o floor
    → reset_floor updated o ≡ ok floor
unfolding reset_floor
reset_floor-IsFloor updated none floor h = rw h refl
reset_floor-IsFloor updated (some w) floor (at, created, h) =
    rw (reset_floor, created, h) (ground arith)

count_failures-streak :
    (floor : Time) (recent older : List Workload) (n : ℕ)
    → All (IsAfter floor) recent
    → StartsBefore floor older
    → count_failures floor (recent ++ older) n ≡ ok (n + length recent)
unfolding count_failures
count_failures-streak floor [] [] n since before = ap ok (omega arith)
count_failures-streak floor [] (w ∷ ws) n since (at, created, h) =
    rw (count_failures, created) (ground (arith, h))
count_failures-streak floor (w ∷ recent) older n ((at, created, h), since) before =
    let rest = count_failures-streak floor recent older (n + 1) since before in
    rw (count_failures, created, rest) (ground (arith, h))

bind-at {ℓ κ} :
    {A : Type ℓ} {B : Type κ} (m : Eff A) (f : A → Eff B) (env : Env) (t u : Trace) (a : A)
    → m env t ≡ (ok a, u)
    → (m >>= f) env t ≡ f a env u
bind-at m f env t u a h = ap (λ o. continue o.0 f env o.1) h

start_backoff-wait_after : (n : ℕ) → start_backoff n ≡ wait_after (suc n)
unfolding start_backoff
start_backoff-wait_after zero = refl
start_backoff-wait_after (suc zero) = refl
start_backoff-wait_after (suc (suc zero)) = refl
start_backoff-wait_after (suc (suc (suc zero))) = refl
start_backoff-wait_after (suc (suc (suc (suc n)))) = ground arith

wait_after-le : (n : ℕ) → wait_after n ≤ max_int64
wait_after-le n = ground arith

decide-waits :
    (id : String) (now removed n : ℕ) (env : Env) (t : Trace)
    → (decide_by_failures id now removed n env t).0
      ≡ ok (ltb n 10 && (nat_eq n 0 || leb (removed + wait_after n) now))
unfolding decide_by_failures pause_instance
decide-waits id now removed zero env t = ground arith
decide-waits id now removed (suc n) env t = ground (
  arith,
  start_backoff-wait_after n,
  time_sub-ge now removed (wait_after (suc n)) (wait_after-le (suc n)),
)

-- The instance `k` is asked to be paused for the reason `why`.
abbrev pub pauses : String → String → Event → Bool
pauses k why (Event.pause_instance id reason r) = id == k && reason == why
pauses k why _ = false

decide-pauses :
    (k why id : String) (now removed n : ℕ) (env : Env) (t : Trace)
    → count (pauses k why) (decide_by_failures id now removed n env t).1
      ≡ count (pauses k why) t
        + (if not (k == "") && id == k && "start_failures_exhausted" == why && leb 10 n
            then 1
            else 0)
unfolding decide_by_failures pause_instance Platform.pause_instance
decide-pauses k why id now removed n env t = ground (arith, eq_iff id k)

module _ (k why : String) where
  list_loop-pauses :
      (fuel : ℕ) (id : String) (statuses : List WorkloadStatus) (limit : ℕ) (token : String)
      (acc : List Workload)
      → Without (pauses k why) (list_loop fuel id statuses limit token acc)
  unfolding list_loop next_page Platform.list_workloads
  list_loop-pauses zero id statuses limit token acc = λ env t. refl
  list_loop-pauses (suc fuel) id statuses limit token acc =
      if-Without (pauses k why) (full limit acc) _ _ (λ env t. refl)
        (bind-Without (pauses k why)
          (Platform.list_workloads (WorkloadQuery.of_instance id statuses (page_size_for limit acc))
            token)
          (next_page fuel id statuses limit acc) (λ env t. ground arith)
          λ page.
            bind-Without (pauses k why) (lift (take_page limit acc page.items))
              (λ acc'.
                if full limit acc' || page.next == ""
                then pure acc'
                else list_loop fuel id statuses limit page.next acc')
              (λ env t. refl)
              λ acc'.
                if-Without (pauses k why) (full limit acc' || page.next == "") _ _ (λ env t. refl)
                  (list_loop-pauses fuel id statuses limit page.next acc'))

  list-pauses :
      (fuel : ℕ) (id : String) (statuses : List WorkloadStatus) (limit : ℕ)
      → Without (pauses k why) (list_workloads_by_agent_instance fuel id statuses limit)
  unfolding list_workloads_by_agent_instance
  list-pauses fuel id statuses limit =
      if-Without (pauses k why) (id == "") _ _ (λ env t. refl)
        (list_loop-pauses fuel id statuses limit "" [])

  latest-pauses :
      (fuel : ℕ) (id : String) (statuses : List WorkloadStatus)
      → Without (pauses k why) (latest_workload_by_agent_instance fuel id statuses)
  unfolding latest_workload_by_agent_instance
  latest-pauses fuel id statuses =
      bind-Without (pauses k why) (list_workloads_by_agent_instance fuel id statuses 1)
        (λ ws. pure (head_of ws)) (list-pauses fuel id statuses 1) (λ ws env t. refl)

  kept {ℓ} :
      {A : Type ℓ} (m : Eff A) (env : Env) (t u : Trace) (r : Result A)
      → Without (pauses k why) m
      → m env t ≡ (r, u)
      → count (pauses k why) u ≡ count (pauses k why) t
  kept m env t u r h e = ap (λ o. count (pauses k why) o.1) (sym e) ∙ h env t

module _ (fuel : ℕ) (target : AgentInstanceTarget) (now : Time) (updates : Map Time) (env : Env)
    (t u v w x : Trace) (latest : Workload) (updated removed floor : Time)
    (last_stop : Option Workload) (recent older : List Workload)
    (no_active : list_workloads_by_agent_instance fuel target.agent_instance_id active_statuses 1
        env t
      ≡ (ok [], u))
    (ended : latest_workload_by_agent_instance fuel target.agent_instance_id ended_statuses env u
      ≡ (ok (some latest), v))
    (has_failed : latest.status ≡ WorkloadStatus.failed)
    (configured : lookup target.agent_id updates ≡ some updated)
    (removed_then : workload_ended_at latest ≡ ok removed) (unchanged : updated ≤ removed)
    (last_stopped : latest_workload_by_agent_instance fuel target.agent_instance_id
        (WorkloadStatus.stopped ∷ [])
        env
        v
      ≡ (ok last_stop, w))
    (has_floor : IsFloor updated last_stop floor)
    (listed : list_workloads_by_agent_instance fuel target.agent_instance_id
        (WorkloadStatus.failed ∷ [])
        11
        env
        w
      ≡ (ok (recent ++ older), x))
    (since : All (IsAfter floor) recent) (before : StartsBefore floor older) where
  after_failure-decides :
      after_failure fuel target now updated removed env v
      ≡ decide_by_failures target.agent_instance_id now removed (length recent) env x
  unfolding after_failure
  after_failure-decides =
      let same : after updated removed ≡ false = ground (arith, unchanged) in
      let streak : count_failures floor (recent ++ older) 0 ≡ ok (length recent) =
        count_failures-streak floor recent older 0 since before ∙ ap ok (omega arith) in
      rw
        (
          same,
          after_failure,
          last_stopped,
          reset_floor-IsFloor updated last_stop floor has_floor,
          listed,
          streak,
        )
        refl

  by_latest-decides :
      by_latest fuel target now updates (some latest) env v
      ≡ decide_by_failures target.agent_instance_id now removed (length recent) env x
  unfolding by_latest is_stopped
  by_latest-decides = rw (has_failed, by_latest, configured, removed_then) after_failure-decides

  decides :
      should_start_workload fuel target now updates env t
      ≡ decide_by_failures target.agent_instance_id now removed (length recent) env x
  unfolding should_start_workload by_active
  decides =
      bind-at (list_workloads_by_agent_instance fuel target.agent_instance_id active_statuses 1)
        (by_active fuel target now updates) env t u [] no_active
      ∙ bind-at (latest_workload_by_agent_instance fuel target.agent_instance_id ended_statuses)
          (by_latest fuel target now updates) env u v (some latest) ended
      ∙ by_latest-decides

  -- Suppose that an instance has no active workload, that its latest ended one has failed, that its
  -- agent was not configured after that end, and that the failed workloads listed for it begin with
  -- some created after the floor, which is the later of that configuration and the creation of the
  -- last workload that was stopped, and go on, if at all, with one that was not. Then
  -- shouldStartWorkload allows a start exactly if those created after the floor are none, or are
  -- fewer than ten and, since the end, 10 seconds have passed after one of them, 30 after two, 60
  -- after three, 300 after four and 900 after more.
  pub starts_after_backoff :
      (should_start_workload fuel target now updates env t).0
      ≡ ok (
          ltb (length recent) 10
          && (nat_eq (length recent) 0 || leb (removed + wait_after (length recent)) now))
  starts_after_backoff =
      ap (λ o. o.0) decides
      ∙ decide-waits target.agent_instance_id now removed (length recent) env x

  -- Under the conditions of starts_after_backoff, shouldStartWorkload asks to pause the instance,
  -- once, as start_failures_exhausted, exactly if its id is not empty and the failed workloads
  -- created after the floor are ten or more; it asks for no other pause.
  pub pauses_when_exhausted :
      (k why : String)
      → count (pauses k why) (should_start_workload fuel target now updates env t).1
        ≡ count (pauses k why) t
          + (if not (k == "")
                && target.agent_instance_id == k
                && "start_failures_exhausted" == why
                && leb 10 (length recent)
              then 1
              else 0)
  pauses_when_exhausted k why =
      let id = target.agent_instance_id in
      let unpaused : count (pauses k why) x ≡ count (pauses k why) t =
        kept k why (list_workloads_by_agent_instance fuel id (WorkloadStatus.failed ∷ []) 11) env w
          x (ok (recent ++ older)) (list-pauses k why fuel id (WorkloadStatus.failed ∷ []) 11)
          listed
        ∙ kept k why (latest_workload_by_agent_instance fuel id (WorkloadStatus.stopped ∷ [])) env v
            w (ok last_stop) (latest-pauses k why fuel id (WorkloadStatus.stopped ∷ []))
            last_stopped
        ∙ kept k why (latest_workload_by_agent_instance fuel id ended_statuses) env u v
            (ok (some latest)) (latest-pauses k why fuel id ended_statuses) ended
        ∙ kept k why (list_workloads_by_agent_instance fuel id active_statuses 1) env t u (ok [])
            (list-pauses k why fuel id active_statuses 1) no_active in
      ap (λ o. count (pauses k why) o.1) decides
      ∙ decide-pauses k why id now removed (length recent) env x
      ∙ ap
          (λ n.
            n
            + (if not (k == "")
                  && id == k
                  && "start_failures_exhausted" == why
                  && leb 10 (length recent)
                then 1
                else 0))
          unpaused
