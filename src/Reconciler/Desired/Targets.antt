-- ===== src/Reconciler/Desired/Targets.antt =====
-- Every target comes with the times of its agent.
use agents_orchestrator.Prelude.{String, ◌≡◌, some, [], lookup, Time, max, Option}
use agents_orchestrator.Errors.{ok}
use agents_orchestrator.Api.{Agent, meta_updated_at}
use agents_orchestrator.Platform.{Env, Trace}
use agents_orchestrator.Reconciler.Desired.{
  AgentTimes, Desired, fetch_agent, environment_updated_at,
}

-- After some requests the agent `id` is answered, and after some the environment that it names;
-- `at` is the later of the times at which the two were last updated.
abbrev pub Configured : Env → String → Time → Type 0
Configured env id at =
    (a : Agent) × (u : Trace) × ((fetch_agent id env u).0 ≡ ok a)
    × (own : Time) × (meta_updated_at a.meta ≡ some own)
    × (environment : Time) × (u' : Trace) × ((environment_updated_at a.environment_id env u').0
        ≡ ok environment)
    × (at ≡ max own environment)

abbrev pub IsTimed : Env → AgentTimes → String → Type 0
IsTimed env times id = (at : Time) × (lookup id times.updated_at ≡ some at) × Configured env id at

abbrev no_times : AgentTimes
no_times = record { idle_timeouts = []; updated_at = [] }
