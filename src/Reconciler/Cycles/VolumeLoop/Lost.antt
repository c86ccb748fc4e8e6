-- ===== src/Reconciler/Cycles/VolumeLoop/Lost.antt =====
-- What a lost volume does to its owner.
use agents_orchestrator.Prelude.{
  ℕ, String, Bool, true, false, ◌&&◌, trim_space, if◌then◌else◌, ◌==◌,
}
use agents_orchestrator.Errors.{Result, ok, err}
use agents_orchestrator.Api.{SandboxStatus}
use agents_orchestrator.Platform.{Event, Env, UpdateSandbox}
use agents_orchestrator.Platform
use agents_orchestrator.Uuid.{parse_uuid}
use agents_orchestrator.Effect.Without.{Without}
use agents_orchestrator.Reconciler.Runner.{pause_instance}

-- A pause of the instance `k` for the reason `why`, and the sandbox `k` recorded as failed.
abbrev pub asks_pause : String → String → Event → Bool
asks_pause k why (Event.pause_instance id reason _) = id == k && reason == why
asks_pause k why _ = false

abbrev pub fails : UpdateSandbox → Bool
fails u = elim u.status [ SandboxStatus.failed ↦ true | _ ↦ false ]

abbrev pub fails_sandbox : String → Event → Bool
fails_sandbox k (Event.update_sandbox u _) = u.id == k && fails u
fails_sandbox k _ = false

-- The text is an id, which is `k`.
abbrev pub names : Result String → String → Bool
names (ok id) k = id == k
names (err e) k = false

abbrev pub names_uuid : Env → String → String → Bool
names_uuid env s k = names (parse_uuid env.parse_uuid (trim_space s)) k

abbrev one_if : Bool → ℕ
one_if b = if b then 1 else 0
