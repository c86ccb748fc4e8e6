-- ===== src/Reconciler/Metering/Marks.antt =====
-- What is marked as sampled has been billed.
use agents_orchestrator.Prelude.{
  ℕ, ◌≡◌, refl, ◌∙◌, inl, inr, ◌⊎◌, Bool, true, false, not, ◌&&◌, List, [], ◌∷◌, ◌++◌, arith, Time,
  Map, count, String, if◌then◌else◌, Option,
}
use agents_orchestrator.Errors.{Result, ok, err}
use agents_orchestrator.Api.{Agent, Workload, Volume}
use agents_orchestrator.Platform.{
  Event, Trace, Env, UsageRecord, SampledAtEntry, SandboxOwner, Floats, WorkloadQuery, VolumeQuery,
}
use agents_orchestrator.Platform
use agents_orchestrator.Effect.{Eff, pure, attempt, continue, ◌>>=◌, ◌>>◌, when, lift}
use agents_orchestrator.Effect.Without.{Without, bind-Without, if-Without}
use agents_orchestrator.Reconciler.Identity.{sort_texts}
use agents_orchestrator.Reconciler.Listings.{
  list_all_agents, list_pending_sample_workloads, list_pending_sample_volumes,
}
use agents_orchestrator.Reconciler.Listings.Scope.{agent_organizations_from}
use agents_orchestrator.Reconciler.Listings.Requests.{
  list_all_agents-Without, list_pending_sample_workloads-Without,
  list_pending_sample_volumes-Without,
}
use agents_orchestrator.Reconciler.Metering.Labels.{LabelSources, agent_environment_ids}
use agents_orchestrator.Reconciler.Metering.{
  some_of, attribute_each, attributed, pending_volumes, pending_workloads, sandbox_attribution,
  commit, commit_both, commit_samples, sample_all, sample_workload_metering, sample_volume_metering,
  sample_with, sample_pending, sample_listed, sample_organizations, sample_agents, sample_metering,
}

-- A request to mark records as sampled.
abbrev pub marks : Event → Bool
marks (Event.mark_workloads _ _) = true
marks (Event.mark_volumes _ _) = true
marks _ = false

-- A request to the metering service that has failed.
abbrev pub unbilled : Event → Bool
unbilled (Event.record_usage _ (err _)) = true
unbilled _ = false

-- Nothing is marked, or no billing has failed.
abbrev pub Keeps {ℓ} : {A : Type ℓ} → Eff A → Type 0
Keeps m =
    (env : Env) (t : Trace)
    → (count marks (m env t).1 ≡ count marks t) ⊎ (count unbilled (m env t).1 ≡ count unbilled t)

bind-Keeps {ℓ κ} :
    {A : Type ℓ} {B : Type κ} (m : Eff A) (f : A → Eff B)
    → Without marks m
    → Without unbilled m
    → ((a : A) → Keeps (f a))
    → Keeps (m >>= f)
bind-Keeps {A = A} m f hm hu hf = λ env t. from env t (m env t) (hm env t) (hu env t)
  where
    from :
        (env : Env) (t : Trace) (o : Result A × Trace)
        → count marks o.1 ≡ count marks t
        → count unbilled o.1 ≡ count unbilled t
        → (count marks (continue o.0 f env o.1).1 ≡ count marks t)
          ⊎ (count unbilled (continue o.0 f env o.1).1 ≡ count unbilled t)
    from env t (ok a, u) h k = elim (hf a env u) [ inl g ↦ inl (g ∙ h) | inr g ↦ inr (g ∙ k) ]
    from env t (err e, u) h k = inl h

mark_workloads-Without : (ws : List SampledAtEntry) → Without unbilled (Platform.mark_workloads ws)
unfolding Platform.mark_workloads
mark_workloads-Without ws = λ env t. omega arith

mark_volumes-Without : (vs : List SampledAtEntry) → Without unbilled (Platform.mark_volumes vs)
unfolding Platform.mark_volumes
mark_volumes-Without vs = λ env t. omega arith

mark_both-Without :
    (ws vs : List SampledAtEntry)
    → Without unbilled (
        when (some_of ws) (Platform.mark_workloads ws)
        >> when (some_of vs) (Platform.mark_volumes vs))
mark_both-Without ws vs =
    bind-Without unbilled (when (some_of ws) (Platform.mark_workloads ws))
      (λ _. when (some_of vs) (Platform.mark_volumes vs))
      (if-Without unbilled (some_of ws) (Platform.mark_workloads ws) (pure tt)
        (mark_workloads-Without ws) (λ env t. refl))
      (λ _.
        if-Without unbilled (some_of vs) (Platform.mark_volumes vs) (pure tt)
          (mark_volumes-Without vs) (λ env t. refl))

commit-Keeps : (us : List UsageRecord) (ws vs : List SampledAtEntry) → Keeps (commit us ws vs)
unfolding commit Platform.record_usage
commit-Keeps [] ws vs = λ env t. inr (mark_both-Without ws vs env t)
commit-Keeps (u ∷ us) ws vs = λ env t. from env (u ∷ us) t (env.record_usage t (u ∷ us))
  where
    from :
        (env : Env) (records : List UsageRecord) (t : Trace) (r : Result (Unit {0}))
        → (let u =
              (continue r
                (λ _.
                  when (some_of ws) (Platform.mark_workloads ws)
                  >> when (some_of vs) (Platform.mark_volumes vs))
                env
                (Event.record_usage records r ∷ t)).1 in
            (count marks u ≡ count marks t) ⊎ (count unbilled u ≡ count unbilled t))
    from env records t (ok done) =
        inr (mark_both-Without ws vs env (Event.record_usage records (ok done) ∷ t) ∙ omega arith)
    from env records t (err e) = inl (omega arith)

get_sandbox-marks : (id : String) → Without marks (Platform.get_sandbox id)
unfolding Platform.get_sandbox
get_sandbox-marks id env t = omega arith

get_sandbox-unbilled : (id : String) → Without unbilled (Platform.get_sandbox id)
unfolding Platform.get_sandbox
get_sandbox-unbilled id env t = omega arith

list_agents-marks : (id : String) → Without marks (Platform.list_agents id)
unfolding Platform.list_agents
list_agents-marks id env t = omega arith

list_agents-unbilled : (id : String) → Without unbilled (Platform.list_agents id)
unfolding Platform.list_agents
list_agents-unbilled id env t = omega arith

list_workloads-marks :
    (id : String) → Without marks (Platform.list_workloads WorkloadQuery.pending_sample id)
unfolding Platform.list_workloads
list_workloads-marks id env t = omega arith

list_workloads-unbilled :
    (id : String) → Without unbilled (Platform.list_workloads WorkloadQuery.pending_sample id)
unfolding Platform.list_workloads
list_workloads-unbilled id env t = omega arith

list_volumes-marks :
    (id : String) → Without marks (Platform.list_volumes VolumeQuery.pending_sample id)
unfolding Platform.list_volumes
list_volumes-marks id env t = omega arith

list_volumes-unbilled :
    (id : String) → Without unbilled (Platform.list_volumes VolumeQuery.pending_sample id)
unfolding Platform.list_volumes
list_volumes-unbilled id env t = omega arith

attribution-Without :
    (p : Event → Bool) (ids : List String) (acc : Map SandboxOwner)
    → ((id : String) → Without p (Platform.get_sandbox id))
    → Without p (attribute_each ids acc)
unfolding attribute_each
attribution-Without p [] acc h = λ env t. refl
attribution-Without p (id ∷ ids) acc h =
    bind-Without p (attempt (Platform.get_sandbox id))
      (λ r. attribute_each ids (attributed id r acc)) (h id)
      (λ r. attribution-Without p ids (attributed id r acc) h)

lift-Keeps {ℓ κ} :
    {A : Type ℓ} {B : Type κ} (r : Result A) (f : A → Eff B)
    → ((a : A) → Keeps (f a))
    → Keeps (lift r >>= f)
lift-Keeps (ok a) f h = h a
lift-Keeps (err e) f h = λ env t. inl refl

sandbox_attribution-Without :
    (p : Event → Bool) (ws : List Workload) (vs : List Volume)
    → ((id : String) → Without p (Platform.get_sandbox id))
    → Without p (sandbox_attribution ws vs)
unfolding sandbox_attribution
sandbox_attribution-Without p ws vs h =
    attribution-Without p (sort_texts (pending_volumes vs (pending_workloads ws []))) [] h

commit_samples-Keeps :
    (floats : Floats) (sources : LabelSources) (ws : List Workload) (vs : List Volume) (now : Time)
    → Keeps (commit_samples floats sources ws vs now)
unfolding commit_samples commit_both
commit_samples-Keeps floats sources ws vs now =
    let volumes = sample_all (λ v. sample_volume_metering floats sources v now) vs in
    lift-Keeps (sample_all (λ w. sample_workload_metering sources w now) ws)
      (λ w. lift volumes >>= commit_both w)
      (λ w. lift-Keeps volumes (commit_both w) (λ v. commit-Keeps (w.0 ++ v.0) w.1 v.1))

sample_with-Keeps :
    (ws : List Workload) (vs : List Volume) (environments : Map String) (now : Time)
    (sandboxes : Map SandboxOwner)
    → Keeps (sample_with ws vs environments now sandboxes)
unfolding sample_with
sample_with-Keeps ws vs environments now sandboxes env t =
    commit_samples-Keeps env.floats
      (record { agent_environments = environments; sandboxes = sandboxes }) ws vs now env t

sample_listed-Keeps :
    (environments : Map String) (now : Time) (ws : List Workload) (vs : List Volume)
    → Keeps (sample_listed environments now ws vs)
unfolding sample_listed sample_pending
sample_listed-Keeps environments now ws vs = from (not (some_of ws) && not (some_of vs))
  where
    from : (b : Bool) → Keeps (if b then pure tt else sample_pending ws vs environments now)
    from true = λ env t. inl refl
    from false =
        bind-Keeps (sandbox_attribution ws vs) (sample_with ws vs environments now)
          (sandbox_attribution-Without marks ws vs get_sandbox-marks)
          (sandbox_attribution-Without unbilled ws vs get_sandbox-unbilled)
          (sample_with-Keeps ws vs environments now)

sample_organizations-Keeps :
    (fuel : ℕ) (environments : Map String) (now : Time) (organizations : List String)
    → Keeps (sample_organizations fuel environments now organizations)
unfolding sample_organizations
sample_organizations-Keeps fuel environments now organizations =
    bind-Keeps (list_pending_sample_workloads fuel organizations)
      (λ ws. list_pending_sample_volumes fuel organizations >>= sample_listed environments now ws)
      (list_pending_sample_workloads-Without marks fuel organizations list_workloads-marks)
      (list_pending_sample_workloads-Without unbilled fuel organizations list_workloads-unbilled)
      (λ ws.
        bind-Keeps (list_pending_sample_volumes fuel organizations)
          (sample_listed environments now ws)
          (list_pending_sample_volumes-Without marks fuel organizations list_volumes-marks)
          (list_pending_sample_volumes-Without unbilled fuel organizations list_volumes-unbilled)
          (sample_listed-Keeps environments now ws))

sample_agents-Keeps :
    (fuel : ℕ) (now : Time) (agents : List (Option Agent)) → Keeps (sample_agents fuel now agents)
unfolding sample_agents
sample_agents-Keeps fuel now agents env t =
    let environments = agent_environment_ids agents [] in
    lift-Keeps (agent_organizations_from env.parse_uuid agents [])
      (sample_organizations fuel environments now)
      (sample_organizations-Keeps fuel environments now) env t

-- A cycle in which a request to the metering service fails marks nothing as sampled, whatever the
-- services answer: what was not billed is left to a later cycle.
pub failed_billing_marks_nothing : (fuel : ℕ) (now : Time) → Keeps (sample_metering fuel now)
unfolding sample_metering
failed_billing_marks_nothing fuel now =
    bind-Keeps (list_all_agents fuel) (sample_agents fuel now)
      (list_all_agents-Without marks fuel list_agents-marks)
      (list_all_agents-Without unbilled fuel list_agents-unbilled) (sample_agents-Keeps fuel now)
