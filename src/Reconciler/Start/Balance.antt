-- ===== src/Reconciler/Start/Balance.antt =====
-- The account of identities over a whole start.
use agents_orchestrator.Prelude.{
  ℕ, zero, suc, ◌+◌, String, ◌≡◌, refl, ◌∙◌, inl, inr, Bool, true, false, Option, none, some, List,
  [], ◌++◌, count, arith, if◌then◌else◌, ◌==◌,
}
use mathlib.Core.Bool.{false≢true}
use agents_orchestrator.Errors.{Result, ok, err, Result-cases}
use agents_orchestrator.Api.{meta_id}
use agents_orchestrator.Platform.{
  Event, Trace, Env, StartRequest, Assembled, ContainerSpec, IdentityReply,
}
use agents_orchestrator.Platform
use agents_orchestrator.Effect.{Eff, continue, lift, observes, ◌>>=◌}
use agents_orchestrator.Reconciler.Runner.{pause_instance, mint_pull_credential}
use agents_orchestrator.Reconciler.Placement.{
  pinned_runner_for_agent_instance, pin_loop, pin_page, get_runner_if_enrolled, got_runner,
  runner_pages, list_runners, select_runner, place, place_pinned, place_named, Placed, on,
  pin_not_enrolled,
}
use agents_orchestrator.Reconciler.Identity.{
  IdentityInfo, group_pages, agent_group_role_attributes, check_identity, create_identity,
  compensate_identity, attach_ziti_enrollment_token,
}
use agents_orchestrator.Reconciler.VolumeRecords.{VolumeRecord, build_volume_records}
use agents_orchestrator.Reconciler.Diff.{AgentInstanceTarget}
use agents_orchestrator.Reconciler.Start.{
  start_on, with_id, with_credentials, with_identity, start_workload, enroll, identify,
}
use agents_orchestrator.Reconciler.Start.Identities.{made, settled, owed, Moves, launch-Moves}

-- `k` is any identity, and `z` the one that the start is for.
module _ (k z : String) where
  -- No identity is created, given back or put to use.
  abbrev Still {ℓ} : {A : Type ℓ} → Eff A → Type 0
  Still m = (env : Env) (t : Trace) → Moves k z 0 0 t (m env t).1

  after_bind-Still {ℓ κ} :
      {A : Type ℓ} {B : Type κ} (f : A → Eff B) (env : Env) (t : Trace) (o : Result A × Trace)
      → ((a : A) → Still (f a))
      → Moves k z 0 0 t o.1
      → Moves k z 0 0 t (continue o.0 f env o.1).1
  after_bind-Still f env t (ok a, u) h l = ground (arith, h a env u)
  after_bind-Still f env t (err e, u) h l = l

  bind-Still {ℓ κ} :
      {A : Type ℓ} {B : Type κ} (m : Eff A) (f : A → Eff B)
      → Still m
      → ((a : A) → Still (f a))
      → Still (m >>= f)
  bind-Still m f h l env t = after_bind-Still f env t (m env t) l (h env t)

  if-Still {ℓ} :
      {A : Type ℓ} (b : Bool) (m n : Eff A) → Still m → Still n → Still (if b then m else n)
  if-Still true m n h l = h
  if-Still false m n h l = l

  pin_loop-Still : (fuel : ℕ) (id token runner : String) → Still (pin_loop fuel id token runner)
  unfolding pin_loop Platform.list_instance_volumes
  pin_loop-Still zero id token runner = λ env t. ground arith
  pin_loop-Still (suc fuel) id token runner =
      bind-Still (Platform.list_instance_volumes id token) _ (λ env t. ground arith)
        (λ page.
          bind-Still (lift (pin_page runner page.items)) _ (λ env t. ground arith)
            (λ pinned.
              if-Still (page.next == "") _ _ (λ env t. ground arith)
                (pin_loop-Still fuel id page.next pinned)))

  pinned-Still : (fuel : ℕ) (id : String) → Still (pinned_runner_for_agent_instance fuel id)
  unfolding pinned_runner_for_agent_instance
  pinned-Still fuel id env t = ground (arith, pin_loop-Still fuel id "" "" env t)

  runner_pages-Still :
      (fuel : ℕ) (o token : String) (acc : List (Option _)) → Still (runner_pages fuel o token acc)
  unfolding runner_pages Platform.list_runners
  runner_pages-Still zero o token acc = λ env t. ground arith
  runner_pages-Still (suc fuel) o token acc =
      bind-Still (Platform.list_runners o token) _ (λ env t. ground arith)
        (λ page.
          if-Still (page.next == "") _ _ (λ env t. ground arith)
            (runner_pages-Still fuel o page.next (acc ++ page.items)))

  get_runner-Still : (id : String) → Still (get_runner_if_enrolled id)
  unfolding get_runner_if_enrolled got_runner Platform.get_runner
  get_runner-Still id env t = ground arith

  list_runners-Still : (fuel : ℕ) (o : String) → Still (list_runners fuel o)
  unfolding list_runners
  list_runners-Still fuel o env t = ground (arith, runner_pages-Still fuel o "" [] env t)

  place-Still : (fuel : ℕ) (pinned : String) (a : Assembled) → Still (place fuel pinned a)
  unfolding place select_runner place_pinned place_named
  place-Still fuel pinned a env t = ground (
    arith,
    list_runners-Still fuel a.organization_id env t,
    get_runner-Still pinned env t,
    get_runner-Still a.runner_id env t,
  )

  mint-Still :
      (id : String) (images : List String) (o : String) → Still (mint_pull_credential id images o)
  unfolding mint_pull_credential Platform.mint_credential
  mint-Still id images o env t = ground arith

  group_pages-Still :
      (fuel : ℕ) (a o token : String) (acc : List String) → Still (group_pages fuel a o token acc)
  unfolding group_pages Platform.list_groups
  group_pages-Still zero a o token acc = λ env t. ground arith
  group_pages-Still (suc fuel) a o token acc =
      bind-Still (Platform.list_groups a o token) _ (λ env t. ground arith)
        (λ page.
          if-Still (page.next == "") _ _ (λ env t. ground arith)
            (group_pages-Still fuel a o page.next (acc ++ page.items)))

  groups-Still : (fuel : ℕ) (a o : String) → Still (agent_group_role_attributes fuel a o)
  unfolding agent_group_role_attributes
  groups-Still fuel a o env t = ground (arith, group_pages-Still fuel a o "" [] env t)

  -- An identity is owed once it is there, if the request for it succeeds.
  created : Result (Option IdentityInfo) → ℕ
  created (ok (some i)) = if i.id == k then 1 else 0
  created _ = 0

  create_identity-Moves :
      (fuel : ℕ) (target : AgentInstanceTarget) (workload_id o e : String) (llm : List String)
      (env : Env) (t : Trace)
      → let (r, u) = create_identity fuel target workload_id o e llm env t in
        Moves k z 0 (created r) t u
  unfolding create_identity check_identity created compensate_identity Platform.create_identity
      Platform.delete_identity
  create_identity-Moves fuel target workload_id o e llm env t =
      ground (arith, groups-Still fuel target.agent_id o env t)

  attach-workload_id :
      (jwt : String) (request r : StartRequest)
      → attach_ziti_enrollment_token jwt request ≡ ok r
      → r.workload_id ≡ request.workload_id
  unfolding attach_ziti_enrollment_token
  attach-workload_id jwt request r h = ground arith

  -- Where identities are managed, a request for one does not come back without one.
  is_there : Result (Option IdentityInfo) → Bool
  is_there (ok none) = false
  is_there _ = true

  create_identity-is_there :
      (fuel : ℕ) (target : AgentInstanceTarget) (workload_id o e : String) (llm : List String)
      (env : Env) (t : Trace)
      → env.settings.has_ziti ≡ true
      → is_there (create_identity fuel target workload_id o e llm env t).0 ≡ true
  unfolding create_identity check_identity is_there compensate_identity
  create_identity-is_there fuel target workload_id o e llm env t h = ground arith

  with_identity-Moves :
      (target : AgentInstanceTarget) (assembled : Assembled) (workload_id runner_id : String)
      (request : StartRequest) (records : List VolumeRecord) (i : IdentityInfo) (env : Env)
      (t : Trace)
      → i.id ≡ z
      → request.workload_id ≡ workload_id
      → Moves k z
          (owed k z)
          0
          t
          (with_identity target assembled workload_id runner_id request records (some i) env t).1
  unfolding with_identity enroll compensate_identity Platform.delete_identity
  with_identity-Moves target assembled workload_id runner_id request records i env t same l =
      elim (Result-cases (attach_ziti_enrollment_token i.enrollment_jwt request)) [
        | inl (r, h) ↦
            rw (h, with_identity, enroll, same)
              (launch-Moves k z target assembled workload_id runner_id r records env t
                (attach-workload_id i.enrollment_jwt request r h ∙ l))
        | inr (e, h) ↦ rw (h, with_identity, enroll, same) (ground arith)
      ]

  pause-Still : (id reason : String) → Still (pause_instance id reason)
  unfolding pause_instance Platform.pause_instance
  pause-Still id reason env t = ground arith

-- An effect by which each identity is accounted for, as far as identities are managed, and `z` is
-- the one that a workload may have been started with.
abbrev Settles : Trace → Trace → Type 0
Settles t u = (z : String) × ((k : String) → Moves k z 0 0 t u)

from_identity-Settles :
    (target : AgentInstanceTarget) (assembled : Assembled) (workload_id runner_id : String)
    (request : StartRequest) (records : List VolumeRecord) (env : Env) (t : Trace)
    (o : Result (Option IdentityInfo) × Trace)
    → request.workload_id ≡ workload_id
    → is_there "" "" o.0 ≡ true
    → ((k z : String) → Moves k z 0 (created k z o.0) t o.1)
    → Settles t
        (continue o.0
          (with_identity target assembled workload_id runner_id request records)
          env
          o.1).1
unfolding is_there created
from_identity-Settles target assembled workload_id runner_id request records env t (ok none, u) l m
      h =
    absurd (false≢true m)
from_identity-Settles target assembled workload_id runner_id request records env t (ok (some i), u)
      l m h =
    (
      i.id,
      λ k.
          let moved =
            with_identity-Moves k i.id target assembled workload_id runner_id request records i env
              u refl l in
          ground (arith, moved, h k i.id),
    )
from_identity-Settles target assembled workload_id runner_id request records env t (err e, u) l m
      h =
    ("", λ k. h k "")

abbrev Fair {ℓ} : {A : Type ℓ} → Eff A → Type 0
Fair m = (env : Env) (t : Trace) → env.settings.has_ziti ≡ true → Settles t (m env t).1

abbrev Quiet {ℓ} : {A : Type ℓ} → Eff A → Type 0
Quiet m = (k z : String) → Still k z m

after_bind-Fair {ℓ κ} :
    {A : Type ℓ} {B : Type κ} (f : A → Eff B) (env : Env) (t : Trace) (o : Result A × Trace)
    → env.settings.has_ziti ≡ true
    → ((a : A) → Fair (f a))
    → ((k z : String) → Moves k z 0 0 t o.1)
    → Settles t (continue o.0 f env o.1).1
after_bind-Fair f env t (ok a, u) ziti h l =
    let (z, rest) = h a env u ziti in (z, λ k. omega (arith, rest k, l k z))
after_bind-Fair f env t (err e, u) ziti h l = ("", λ k. l k "")

bind-Fair {ℓ κ} :
    {A : Type ℓ} {B : Type κ} (m : Eff A) (f : A → Eff B)
    → Quiet m
    → ((a : A) → Fair (f a))
    → Fair (m >>= f)
bind-Fair m f h l env t ziti = after_bind-Fair f env t (m env t) ziti l (λ k z. h k z env t)

if-Fair {ℓ} : {A : Type ℓ} (b : Bool) (m n : Eff A) → Fair m → Fair n → Fair (if b then m else n)
if-Fair true m n h k = h
if-Fair false m n h k = k

with_credentials-Fair :
    (fuel : ℕ) (target : AgentInstanceTarget) (a : Assembled) (workload_id runner_id : String)
    (records : List VolumeRecord) (credentials : List (String × String × String))
    → Fair (with_credentials fuel target a workload_id runner_id records credentials)
unfolding with_credentials identify
with_credentials-Fair fuel target a workload_id runner_id records credentials env t z =
    from_identity-Settles target a workload_id runner_id
      (identify a.request workload_id credentials) records env t
      (create_identity fuel target workload_id a.organization_id a.environment_id
        a.llm_role_attributes env t)
      refl
      (create_identity-is_there "" "" fuel target workload_id a.organization_id a.environment_id
        a.llm_role_attributes env t z)
      (λ k z.
        create_identity-Moves k z fuel target workload_id a.organization_id a.environment_id
          a.llm_role_attributes env t)

with_id-Fair :
    (fuel : ℕ) (target : AgentInstanceTarget) (a : Assembled) (runner_id workload_id : String)
    → Fair (with_id fuel target a runner_id workload_id)
unfolding with_id
with_id-Fair fuel target a runner_id workload_id env t z =
    elim (Result-cases (build_volume_records env.quantity_gb a.persistent_volumes)) [
      | inl (records, h) ↦
          rw (h, with_id)
            (bind-Fair (mint_pull_credential workload_id a.granted_image_ids a.organization_id)
              (with_credentials fuel target a workload_id runner_id records)
              (λ k z. mint-Still k z workload_id a.granted_image_ids a.organization_id)
              (with_credentials-Fair fuel target a workload_id runner_id records) env t z)
      | inr (e, h) ↦ rw (h, with_id) ("", λ k. omega arith)
    ]

start_on-Fair :
    (fuel : ℕ) (target : AgentInstanceTarget) (a : Assembled) (p : Placed)
    → Fair (start_on fuel target a p)
unfolding start_on identify Platform.dial
start_on-Fair fuel target a pin_not_enrolled =
    λ env t ziti. ("", λ k. pause-Still k "" target.agent_instance_id "runner_deprovisioned" env t)
start_on-Fair fuel target a (on runner) =
    let runner_id = meta_id runner.meta in
    if-Fair (runner_id == "") _ _ (λ env t ziti. ("", λ k. ground arith))
      (bind-Fair (Platform.dial runner_id)
        (λ _. observes (λ env tr. env.new_uuid tr) >>= with_id fuel target a runner_id)
        (λ k z env t. ground arith)
        (λ _.
          bind-Fair (observes (λ env tr. env.new_uuid tr)) (with_id fuel target a runner_id)
            (λ k z env t. ground arith) (with_id-Fair fuel target a runner_id)))

-- Where identities are managed, over the whole of startWorkload, whatever the services answer,
-- there is an identity z, that of the start, such that every identity is created as often as its
-- deletion is requested, plus, for z alone, as often as a runner accepts the start: an identity
-- with which no runner starts is asked to be given back by its own id, once, and no other is.
pub start_balances_identities :
    (fuel : ℕ) (target : AgentInstanceTarget) (env : Env) (t : Trace)
    → env.settings.has_ziti ≡ true
    → let u = (start_workload fuel target env t).1 in
      (z : String) × ((k : String)
        → count (made k) u + count (settled k z) t ≡ count (made k) t + count (settled k z) u)
unfolding start_workload Platform.assemble
start_balances_identities fuel target env t ziti =
    let after_pin = λ (assembled : Assembled).
      λ (pinned : String). place fuel pinned assembled >>= start_on fuel target assembled in
    let after_assemble = λ (assembled : Assembled).
      pinned_runner_for_agent_instance fuel target.agent_instance_id >>= after_pin assembled in
    let fair =
      bind-Fair (Platform.assemble target.agent_id target.agent_instance_id target.thread_id)
        after_assemble (λ k z env t. ground arith)
        λ assembled.
          bind-Fair (pinned_runner_for_agent_instance fuel target.agent_instance_id)
            (after_pin assembled) (λ k z. pinned-Still k z fuel target.agent_instance_id)
            λ pinned.
              bind-Fair (place fuel pinned assembled) (start_on fuel target assembled)
                (λ k z. place-Still k z fuel pinned assembled)
                (start_on-Fair fuel target assembled) in
    let (z, moved) = fair env t ziti in (z, λ k. omega (arith, moved k))
