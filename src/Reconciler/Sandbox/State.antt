-- ===== src/Reconciler/Sandbox/State.antt =====
-- The runtime state of a sandbox and its clocks, in sandbox_reconciler.go.
use agents_orchestrator.Prelude.{
  ℕ, zero, suc, ◌+◌, String, Bool, true, false, not, ◌&&◌, Option, none, some, List, Time, Duration,
  pos, negsuc, ltb_ℤ, ltb, time_sub, nat_eq, trim_space, if◌then◌else◌, ◌==◌,
}
use agents_orchestrator.Errors.{Result, ok, err, fault}
use agents_orchestrator.Api.{Meta, Workload, Volume, Sandbox, SandboxStatus}
use agents_orchestrator.Uuid.{parse_uuid}
use agents_orchestrator.Platform
use agents_orchestrator.Platform.{UpdateSandbox}
use agents_orchestrator.Effect.{Eff, pure, lift, asks, ◌>>=◌}
use agents_orchestrator.Reconciler.Diff.{workload_activity_at}

-- sandboxWorkloadPlan
pub record SandboxPlan : Type 0 where
  pub sandbox : Sandbox
  pub sandbox_id : String
  pub workspace_volumes : List Volume
  pub active_workload : Option Workload

unfoldable pub same_sandbox_status : SandboxStatus → SandboxStatus → Bool
same_sandbox_status SandboxStatus.unspecified SandboxStatus.unspecified = true
same_sandbox_status SandboxStatus.starting SandboxStatus.starting = true
same_sandbox_status SandboxStatus.running SandboxStatus.running = true
same_sandbox_status SandboxStatus.stopped SandboxStatus.stopped = true
same_sandbox_status SandboxStatus.failed SandboxStatus.failed = true
same_sandbox_status SandboxStatus.terminated SandboxStatus.terminated = true
same_sandbox_status (SandboxStatus.other m) (SandboxStatus.other n) = nat_eq m n
same_sandbox_status _ _ = false

same_workload : Option String → Option (Option String) → Bool
same_workload current none = true
same_workload none (some none) = true
same_workload (some id) (some none) = false
same_workload none (some (some id)) = "" == id
same_workload (some current) (some (some id)) = current == id

-- runtimeStateAlreadyCurrent
unfoldable pub runtime_state_already_current : Sandbox → UpdateSandbox → Bool
unfolding same_sandbox_status same_workload
runtime_state_already_current s r =
    same_sandbox_status s.status r.status && same_workload s.workload_id r.workload_id_update

-- sandboxIDString
unfoldable pub sandbox_id_string : (String → Option String) → Sandbox → Result String
sandbox_id_string parse s = elim s.meta [
  | none ↦ err (fault "sandbox meta missing")
  | some m ↦ parse_uuid parse m.id
]

workload_update : String → Bool → Option (Option String)
workload_update workload_id clear =
    if clear
    then some none
    else if trim_space workload_id == ""
    then none
    else some (some (trim_space workload_id))

-- updateSandboxRuntimeState
unfoldable pub update_sandbox_runtime_state :
    Sandbox → SandboxStatus → String → Bool → Eff (Unit {0})
unfolding sandbox_id_string workload_update runtime_state_already_current
update_sandbox_runtime_state s status workload_id clear = do
  parse ← asks (λ env. env.parse_uuid)
  id ← lift (sandbox_id_string parse s)
  let request : UpdateSandbox = record {
    id = id;
    status = status;
    workload_id_update = workload_update workload_id clear;
  }
  if runtime_state_already_current s request then pure tt else Platform.update_sandbox request

-- markSandboxFailed
unfoldable pub mark_sandbox_failed : String → Eff (Unit {0})
mark_sandbox_failed sandbox_id = do
  parse ← asks (λ env. env.parse_uuid)
  id ← lift (parse_uuid parse (trim_space sandbox_id))
  Platform.update_sandbox
      (record { id = id; status = SandboxStatus.failed; workload_id_update = some none })

-- A duration above 0, or no bound at all.
abbrev pub bound_of : Option Duration → Option ℕ
bound_of none = none
bound_of (some (negsuc n)) = none
bound_of (some (pos zero)) = none
bound_of (some (pos (suc n))) = some (suc n)

abbrev pub created_at_of : Option Meta → Option Time
created_at_of none = none
created_at_of (some m) = m.created_at

past : Option Time → Option ℕ → Time → Bool
past none bound now = false
past (some t) none now = false
past (some t) (some d) now = not (ltb now (t + d))

-- ttlExpired
unfoldable pub ttl_expired : (String → Option Duration) → Sandbox → Time → Bool
unfolding past
ttl_expired duration s now =
    past (created_at_of s.meta) (bound_of (duration (trim_space s.ttl))) now

quiet : Option ℕ → Result Time → Time → Bool
quiet none activity now = false
quiet (some d) (err e) now = false
quiet (some d) (ok t) now = ltb_ℤ (pos d) (time_sub now t)

-- sandboxIdle
unfoldable pub sandbox_idle : (String → Option Duration) → Sandbox → Workload → Time → Bool
unfolding quiet
sandbox_idle duration s w now =
    quiet (bound_of (duration (trim_space s.idle_timeout))) (workload_activity_at w) now
