-- ===== src/Reconciler/GroupRoles/Patches.antt =====
-- Every identity gets its patch.
use agents_orchestrator.Prelude.{
  ℕ, zero, suc, ◌+◌, String, ◌≡◌, refl, ◌∙◌, inl, inr, Bool, false, not, ◌&&◌, Option, none, some,
  List, [], ◌∷◌, ◌++◌, arith, count, if◌then◌else◌, ◌==◌, Bool-cases,
}
use agents_orchestrator.Errors.{Result, ok, err, Result-cases}
use agents_orchestrator.Api.{Workload}
use agents_orchestrator.Platform.{Event, Env, Trace}
use agents_orchestrator.Platform
use agents_orchestrator.Effect.{Eff, pure, lift, continue, each, ◌>>=◌}
use agents_orchestrator.Effect.Without.{Without, bind-Without, if-Without}
use agents_orchestrator.Reconciler.Identity.{
  agent_group_role_attributes, group_pages, role_attributes, sort_texts,
}
use agents_orchestrator.Reconciler.GroupRoles.{
  patch_identity, patch_workload, patch_workload_to_current_group_roles,
}

-- A patch of this identity's attributes.
abbrev pub patches : String → Event → Bool
patches id (Event.patch_roles p _) = p.ziti_identity_id == id
patches id _ = false

-- The workload has an identity, and it is this one.
abbrev pub has_identity : String → Option Workload → Bool
has_identity id none = false
has_identity id (some w) = not (w.ziti_identity_id == "") && w.ziti_identity_id == id

module _ (id : String) where
  list_groups-Without : (a b c : String) → Without (patches id) (Platform.list_groups a b c)
  unfolding Platform.list_groups
  list_groups-Without a b c env t = omega arith

  group_pages-Without :
      (fuel : ℕ) (agent_id organization_id token : String) (acc : List String)
      → Without (patches id) (group_pages fuel agent_id organization_id token acc)
  unfolding group_pages
  group_pages-Without zero a o token acc = λ env t. refl
  group_pages-Without (suc fuel) a o token acc =
      bind-Without (patches id) (Platform.list_groups a o token)
        (λ page.
          if page.next == ""
          then pure (acc ++ page.items)
          else group_pages fuel a o page.next (acc ++ page.items))
        (list_groups-Without a o token)
        (λ page.
          if-Without (patches id) (page.next == "") (pure (acc ++ page.items))
            (group_pages fuel a o page.next (acc ++ page.items)) (λ env t. refl)
            (group_pages-Without fuel a o page.next (acc ++ page.items)))

  sorted : List String → Eff (List String)
  sorted ids = lift (role_attributes ids []) >>= λ attributes. pure (sort_texts attributes)

  sorted-Without : (ids : List String) → Without (patches id) (sorted ids)
  unfolding sorted
  sorted-Without ids env t = elim (Result-cases (role_attributes ids [])) [
    | inl (a, h) ↦ rw h refl
    | inr (e, h) ↦ rw h refl
  ]

  attributes-Without :
      (fuel : ℕ) (agent_id organization_id : String)
      → Without (patches id) (agent_group_role_attributes fuel agent_id organization_id)
  unfolding agent_group_role_attributes sorted
  attributes-Without fuel a o env t =
      if-Without (patches id) (not env.settings.has_groups) (pure [])
        (group_pages fuel a o "" [] >>= sorted) (λ env t. refl)
        (bind-Without (patches id) (group_pages fuel a o "" []) sorted
          (group_pages-Without fuel a o "" []) sorted-Without)
        env t

  patch_identity-patches :
      (candidates : List String) (z : String) (desired : List String) (env : Env) (t : Trace)
      → count (patches id) (patch_identity candidates z desired env t).1
        ≡ (if z == id then 1 else 0) + count (patches id) t
  unfolding patch_identity Platform.patch_roles
  patch_identity-patches candidates z desired env t = refl

  patch_workload-patches :
      (fuel : ℕ) (candidates : List String) (w : Workload) (agent : Option String) (env : Env)
      (t : Trace)
      → (patch_workload fuel candidates w agent env t).0 ≡ ok tt
      → count (patches id) (patch_workload fuel candidates w agent env t).1
        ≡ (if w.ziti_identity_id == id then 1 else 0) + count (patches id) t
  unfolding patch_workload
  patch_workload-patches fuel candidates w none env t h = cc
  patch_workload-patches fuel candidates w (some a) env t h =
      from (agent_group_role_attributes fuel a w.organization_id env t)
        (attributes-Without fuel a w.organization_id env t) h
    where
      from :
          (o : Result (List String) × Trace)
          → count (patches id) o.1 ≡ count (patches id) t
          → (continue o.0 (patch_identity candidates w.ziti_identity_id) env o.1).0 ≡ ok tt
          → count
              (patches id)
              (continue o.0 (patch_identity candidates w.ziti_identity_id) env o.1).1
            ≡ (if w.ziti_identity_id == id then 1 else 0) + count (patches id) t
      from (err e, u) k g = cc
      from (ok d, u) k g =
          omega (arith, patch_identity-patches candidates w.ziti_identity_id d env u, k)

  patch-patches :
      (fuel : ℕ) (candidates : List String) (o : Option Workload) (env : Env) (t : Trace)
      → (patch_workload_to_current_group_roles fuel candidates o env t).0 ≡ ok tt
      → count (patches id) (patch_workload_to_current_group_roles fuel candidates o env t).1
        ≡ (if has_identity id o then 1 else 0) + count (patches id) t
  unfolding patch_workload_to_current_group_roles
  patch-patches fuel candidates none env t h = cc
  patch-patches fuel candidates (some w) env t h = elim (Bool-cases (w.ziti_identity_id == "")) [
    | inl k ↦ rw (k, patch_workload_to_current_group_roles) (omega arith)
    | inr k ↦
        rw (k, patch_workload_to_current_group_roles)
          (patch_workload-patches fuel candidates w (env.parse_uuid w.agent_id) env t
            (rw (k, patch_workload_to_current_group_roles) at h))
  ]

-- If the loop over the workloads succeeds, then each identity was asked to be patched as often as
-- a workload of the loop has it.
pub workloads_get_patched :
    (id : String) (fuel : ℕ) (candidates : List String) (ws : List (Option Workload)) (env : Env)
    (t : Trace)
    → (each (patch_workload_to_current_group_roles fuel candidates) ws env t).0 ≡ ok tt
    → count (patches id) (each (patch_workload_to_current_group_roles fuel candidates) ws env t).1
      ≡ count (has_identity id) ws + count (patches id) t
unfolding each
workloads_get_patched id fuel candidates [] env t h = omega arith
workloads_get_patched id fuel candidates (w ∷ ws) env t h =
    let one = patch_workload_to_current_group_roles fuel candidates w env t in
    elim (Result-cases one.0) [
      | inr (e, g) ↦ absurd (ground (arith, g, (rw (g, each) at h)))
      | inl (done, g) ↦
          let rest = workloads_get_patched id fuel candidates ws env one.1 (rw (g, each) at h) in
          rw (g, each) (rest ∙ omega (arith, patch-patches id fuel candidates w env t g))
    ]
