-- ===== src/Reconciler/Runner.antt =====
-- The calls on a runner and on the records that the reconciler's files share: stopRunnerWorkload,
-- inspectRunnerWorkload, deleteIdentity and mapRunnerContainers of reconciler.go, markWorkloadFailed
-- of lifecycle_helpers.go, pauseInstance of start_decision.go, the credentials of pullcredentials.go.
use agents_orchestrator.Prelude.{
  String, concat, Bool, true, false, not, ◌&&◌, ◌||◌, Option, none, some, List, [], ◌∷◌,
  if◌then◌else◌, ◌==◌, is_some,
}
use agents_orchestrator.Errors.{Result, ok, err, fault, is_not_found}
use agents_orchestrator.Api.{
  WorkloadStatus, FailureReason, Container, ContainerRole, ContainerStatus, Inspection,
}
use agents_orchestrator.Platform
use agents_orchestrator.Platform.{UpdateWorkload}
use agents_orchestrator.Effect.{Eff, pure, fail, asks, attempt, ignore, ◌>>=◌, when}
use agents_orchestrator.Reconciler.Records.{string_ptr, runner_workload_prefix}

-- deleteIdentity
abbrev pub delete_identity : String → Eff (Unit {0})
delete_identity id = Platform.delete_identity id

unfoldable pub after_prefixed_stop : Result (Unit {0}) → Eff (Unit {0})
after_prefixed_stop (ok _) = pure tt
after_prefixed_stop (err e) = if is_not_found e then pure tt else fail e

-- stopRunnerWorkloadWithPrefix
unfoldable pub stop_runner_workload_with_prefix : String → String → Eff (Unit {0})
unfolding after_prefixed_stop
stop_runner_workload_with_prefix runner id = do
  r ← attempt (Platform.stop runner (concat runner_workload_prefix id))
  after_prefixed_stop r

unfoldable pub after_stop : String → String → Option String → Result (Unit {0}) → Eff (Unit {0})
unfolding stop_runner_workload_with_prefix
after_stop runner id parsed (ok _) = pure tt
after_stop runner id parsed (err e) =
    if not (is_not_found e)
    then fail e
    else if not (is_some parsed)
    then fail e
    else stop_runner_workload_with_prefix runner id

-- stopRunnerWorkload
unfoldable pub stop_runner_workload : String → String → Eff (Unit {0})
unfolding after_stop
stop_runner_workload runner id = do
  r ← attempt (Platform.stop runner id)
  parsed ← asks (λ env. env.parse_uuid id)
  after_stop runner id parsed r

after_inspect : String → String → Option String → Result Inspection → Eff Inspection
after_inspect runner id parsed (ok i) = pure i
after_inspect runner id parsed (err e) =
    if not (is_not_found e)
    then fail e
    else if not (is_some parsed)
    then fail e
    else Platform.inspect runner (concat runner_workload_prefix id)

-- inspectRunnerWorkload
unfoldable pub inspect_runner_workload : String → String → Eff Inspection
unfolding after_inspect
inspect_runner_workload runner id = do
  r ← attempt (Platform.inspect runner id)
  parsed ← asks (λ env. env.parse_uuid id)
  after_inspect runner id parsed r

-- markWorkloadFailed
unfoldable pub mark_workload_failed :
    String → Option String → FailureReason → String → List Container → Eff (Unit {0})
mark_workload_failed id instance_id reason message containers = do
  removed_at ← Platform.now
  ignore (
      Platform.update_workload (record {
        id = id;
        status = some WorkloadStatus.failed;
        instance_id = elim instance_id [ none ↦ none | some i ↦ string_ptr i ];
        removed_at = some removed_at;
        failure_reason = some reason;
        failure_message = string_ptr message;
        containers = containers;
      }))

-- pauseInstance
unfoldable pub pause_instance : String → String → Eff (Unit {0})
pause_instance id reason = if id == "" then pure tt else ignore (Platform.pause_instance id reason)

-- revokePullCredential
unfoldable pub revoke_pull_credential : String → Eff (Unit {0})
revoke_pull_credential workload_id = do
  proxy ← asks (λ env. env.settings.has_image_proxy)
  when (proxy && not (workload_id == "")) (ignore (Platform.revoke_credential workload_id))

is_empty : List String → Bool
is_empty [] = true
is_empty (x ∷ xs) = false

-- mintPullCredential, and mintSandboxPullCredential, which does the same for the sandbox's result
unfoldable pub mint_pull_credential :
    String → List String → String → Eff (List (String × String × String))
unfolding is_empty
mint_pull_credential workload_id image_ids organization_id = do
  settings ← asks (λ env. env.settings)
  let disabled =
      not settings.has_image_proxy || (settings.image_proxy_host == "" || is_empty image_ids)
  if disabled then pure [] else do
    minted ← Platform.mint_credential workload_id image_ids organization_id
    pure ((settings.image_proxy_host, minted.0, minted.1) ∷ [])

-- runnerContainerRole
unfoldable pub runner_container_role : ContainerRole → Result ContainerRole
runner_container_role ContainerRole.unspecified =
    err (fault "runner returned unspecified container role")
runner_container_role (ContainerRole.other n) = err (fault "unknown runner container role: %v")
runner_container_role role = ok role

-- runnerContainerStatus
unfoldable pub runner_container_status : ContainerStatus → Result ContainerStatus
runner_container_status ContainerStatus.unspecified = ok ContainerStatus.waiting
runner_container_status (ContainerStatus.other n) =
    err (fault "unknown runner container status: %v")
runner_container_status status = ok status

map_one : Container → Result Container
unfolding runner_container_role runner_container_status
map_one c = elim (runner_container_role c.role) [
  | err e ↦ err e
  | ok role ↦ elim (runner_container_status c.status) [
    | err e ↦ err e
    | ok status ↦ ok (record c { role = role; status = status })
  ]
]

map_all : List (Option Container) → Result (List Container)
unfolding map_one
map_all [] = ok []
map_all (none ∷ cs) = err (fault "runner returned nil workload container")
map_all (some c ∷ cs) =
    let rest = map_all cs in
    elim (map_one c) [
      | err e ↦ err e
      | ok mapped ↦ elim rest [ err e ↦ err e | ok others ↦ ok (mapped ∷ others) ]
    ]

-- mapRunnerContainers; no containers give a nil slice.
unfoldable pub map_runner_containers : List (Option Container) → Result (Option (List Container))
unfolding map_all
map_runner_containers [] = ok none
map_runner_containers (c ∷ cs) = elim (map_all (c ∷ cs)) [
  | err e ↦ err e
  | ok mapped ↦ ok (some mapped)
]
