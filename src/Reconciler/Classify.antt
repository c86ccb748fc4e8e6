-- ===== src/Reconciler/Classify.antt =====
-- classifyStartingContainers, classifyRunningContainers and their tests in workload_reconcile.go.
pub mod Readiness
pub mod Grace
use agents_orchestrator.Prelude.{
  ℕ, String, concat, Bool, true, false, not, ◌&&◌, ◌||◌, Option, none, some, List, [], ◌∷◌, Time, ℤ,
  pos, ltb_ℤ, Duration, time_sub, second, if◌then◌else◌, ◌==◌, show_ℕ, zero, suc, negsuc, ◌+◌,
}
use agents_orchestrator.Errors.{Result, ok, err, fault, ◌>>=◌}
use agents_orchestrator.Api.{Workload, Container, ContainerRole, ContainerStatus, FailureReason}
use agents_orchestrator.Reconciler.Records.{workload_created_at}

abbrev pub start_grace_period : Duration
start_grace_period = pos 60000000000

abbrev pub crashloop_threshold : ℤ
crashloop_threshold = pos 3

pub record WorkloadFailure : Type 0 where
  pub reason : FailureReason
  pub message : String

unfoldable pub is_image_pull_failure : Container → Bool
is_image_pull_failure c = c.reason == "ImagePullBackOff" || c.reason == "ErrImagePull"

unfoldable pub is_config_invalid_failure : Container → Bool
is_config_invalid_failure c =
    c.reason == "CreateContainerConfigError"
    || c.reason == "CreateContainerError"
    || c.reason == "InvalidImageName"

unfoldable pub container_failure_message : Container → String
container_failure_message c = if c.message == "" then c.reason else c.message

-- CrashLoopBackOff with `GetRestartCount() >= crashloopThreshold`
unfoldable pub is_crash_looping : Container → Bool
is_crash_looping c =
    c.reason == "CrashLoopBackOff" && not (ltb_ℤ c.restart_count crashloop_threshold)

abbrev pub exit_code_of : Option ℤ → ℤ
exit_code_of none = pos 0
exit_code_of (some c) = c

abbrev pub is_zero : ℤ → Bool
is_zero (pos n) = elim n [ zero ↦ true | suc _ ↦ false ]
is_zero _ = false

-- The locals of the loop.
pub record Seen : Type 0 where
  pub main_running : Bool
  pub found_main : Bool
  pub init_blocked : Bool

-- What a round of a classifying loop does: return a failure, or go on.
pub data Round : Type 0 where
  failed : WorkloadFailure → Round
  go_on : Seen → Round

abbrev failure : FailureReason → Container → Round
failure reason c = failed (record { reason = reason; message = container_failure_message c })

show_ℤ : ℤ → String
show_ℤ (pos n) = show_ℕ n
show_ℤ (negsuc n) = concat "-" (show_ℕ (n + 1))

unfoldable pub terminated_message : Container → String
unfolding show_ℤ container_failure_message
terminated_message c =
    let message = container_failure_message c in
    let exit_code = exit_code_of c.exit_code in
    if message == ""
    then concat "main container terminated with exit code " (show_ℤ exit_code)
    else if is_zero exit_code
    then message
    else concat message (concat " (exit code " (concat (show_ℤ exit_code) ")"))

init_status : ContainerStatus → Container → Seen → Round
init_status ContainerStatus.waiting c seen = go_on (record seen { init_blocked = true })
init_status ContainerStatus.terminated c seen =
    if is_zero (exit_code_of c.exit_code) then go_on seen else failure FailureReason.start_failed c
init_status ContainerStatus.running c seen = go_on seen
init_status _ c seen = go_on (record seen { init_blocked = true })

unfoldable pub classify_init : Bool → Container → Seen → Round
unfolding init_status is_config_invalid_failure is_image_pull_failure
classify_init past_grace c seen =
    if is_config_invalid_failure c
    then failure FailureReason.config_invalid c
    else if is_image_pull_failure c && past_grace
    then failure FailureReason.image_pull_failed c
    else init_status c.status c seen

main_status : ContainerStatus → Bool → Container → Seen → Round
main_status ContainerStatus.running past_grace c seen = go_on seen
main_status ContainerStatus.terminated past_grace c seen =
    failed (record { reason = FailureReason.start_failed; message = terminated_message c })
main_status ContainerStatus.waiting past_grace c seen =
    if is_crash_looping c
    then failure FailureReason.crashloop c
    else if is_image_pull_failure c && past_grace
    then failure FailureReason.image_pull_failed c
    else if is_config_invalid_failure c && past_grace
    then failure FailureReason.config_invalid c
    else go_on (record seen { main_running = false })
main_status _ past_grace c seen = go_on (record seen { main_running = false })

unfoldable pub classify_main : Bool → Container → Seen → Round
unfolding main_status is_crash_looping is_config_invalid_failure is_image_pull_failure
classify_main past_grace c seen =
    main_status c.status past_grace c (record seen { found_main = true })

-- `switch container.GetRole()`
unfoldable pub classify_role : ContainerRole → Bool → Container → Seen → Round
unfolding classify_init classify_main
classify_role ContainerRole.init past_grace c seen = classify_init past_grace c seen
classify_role ContainerRole.main past_grace c seen = classify_main past_grace c seen
classify_role _ past_grace c seen = go_on seen

pub data Verdict : Type 0 where
  fails : WorkloadFailure → Verdict
  ready : Verdict
  waits : Verdict

unfoldable pub verdict_of : Seen → Result Verdict
verdict_of seen =
    if not seen.found_main
    then err (fault "workload %s missing main container")
    else if not seen.init_blocked && seen.main_running
    then ok ready
    else ok waits

-- The containers are those that mapRunnerContainers made, none of them nil.
unfoldable pub classify_loop : Bool → List Container → Seen → Result Verdict
unfolding classify_role verdict_of
classify_loop past_grace [] seen = verdict_of seen
classify_loop past_grace (c ∷ cs) seen = elim (classify_role c.role past_grace c seen) [
  | failed f ↦ ok (fails f)
  | go_on seen' ↦ classify_loop past_grace cs seen'
]

unfoldable pub classify_starting_containers : List Container → Workload → Time → Result Verdict
unfolding classify_loop
classify_starting_containers containers w now = do
  created_at ← workload_created_at w
  let past_grace = ltb_ℤ start_grace_period (time_sub now created_at)
  classify_loop past_grace containers
      (record { main_running = true; found_main = false; init_blocked = false })

abbrev pub is_main : ContainerRole → Bool
is_main ContainerRole.main = true
is_main _ = false

abbrev pub is_waiting : ContainerStatus → Bool
is_waiting ContainerStatus.waiting = true
is_waiting _ = false

unfoldable pub classify_running_containers : List Container → Option WorkloadFailure
unfolding is_crash_looping
classify_running_containers [] = none
classify_running_containers (c ∷ cs) =
    if is_main c.role && (is_waiting c.status && is_crash_looping c)
    then some (record { reason = FailureReason.crashloop; message = container_failure_message c })
    else classify_running_containers cs
