-- ===== src/Reconciler/Listings/Requests.antt =====
-- Listings make no other request than for their pages.
use agents_orchestrator.Prelude.{ℕ, zero, suc, String, refl, Bool, List, [], ◌++◌, ◌==◌}
use agents_orchestrator.Errors.{Result, ok, fault}
use agents_orchestrator.Platform.{Event, Page}
use agents_orchestrator.Platform
use agents_orchestrator.Effect.{Eff, fail, lift}
use agents_orchestrator.Effect.Without.{Without, bind-Without, if-Without}
use agents_orchestrator.Reconciler.Listings.Scope.{take_each, scoped_workload, scoped_volume}
use agents_orchestrator.Reconciler.Listings.{
  paged, list_all_agents, list_pending_sample_workloads, list_pending_sample_volumes, volumes_of,
  is_empty,
}

module _ (p : Event → Bool) where
  pub paged-Without {ℓ κ} :
      {A : Type ℓ} {B : Type κ} (fuel : ℕ) (request : String → Eff (Page A))
      (take : List A → Result (List B)) (token : String) (acc : List B)
      → ((next : String) → Without p (request next))
      → Without p (paged fuel request take token acc)
  unfolding paged
  paged-Without zero request take token acc h = λ env t. refl
  paged-Without (suc fuel) request take token acc h =
      bind-Without p (request token) _ (h token) (λ page.
        bind-Without p (lift (take page.items)) _ (λ env t. refl)
          (λ taken.
            if-Without p (page.next == "") _ _ (λ env t. refl)
              (paged-Without fuel request take page.next (acc ++ taken) h)))

  pub list_all_agents-Without :
      (fuel : ℕ)
      → ((token : String) → Without p (Platform.list_agents token))
      → Without p (list_all_agents fuel)
  unfolding list_all_agents
  list_all_agents-Without fuel h = λ env t.
      if-Without p env.settings.has_agents (paged fuel Platform.list_agents ok "" [])
        (fail (fault "agents client is nil")) (paged-Without fuel Platform.list_agents ok "" [] h)
        (λ env t. refl) env t

  pub list_pending_sample_workloads-Without :
      (fuel : ℕ) (organizations : List String)
      → ((token : String)
          → Without p (Platform.list_workloads Platform.WorkloadQuery.pending_sample token))
      → Without p (list_pending_sample_workloads fuel organizations)
  unfolding list_pending_sample_workloads
  list_pending_sample_workloads-Without fuel organizations h =
      if-Without p (is_empty organizations) _ _ (λ env t. refl)
        (λ env t.
          paged-Without fuel (Platform.list_workloads Platform.WorkloadQuery.pending_sample)
            (take_each (scoped_workload env.parse_uuid organizations)) "" [] h env t)

  pub list_pending_sample_volumes-Without :
      (fuel : ℕ) (organizations : List String)
      → ((token : String)
          → Without p (Platform.list_volumes Platform.VolumeQuery.pending_sample token))
      → Without p (list_pending_sample_volumes fuel organizations)
  unfolding list_pending_sample_volumes volumes_of
  list_pending_sample_volumes-Without fuel organizations h =
      if-Without p (is_empty organizations) _ _ (λ env t. refl)
        (λ env t.
          paged-Without fuel (Platform.list_volumes Platform.VolumeQuery.pending_sample)
            (take_each (scoped_volume env.parse_uuid organizations)) "" [] h env t)
