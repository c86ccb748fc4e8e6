-- ===== src/Reconciler/Start/Identities.antt =====
-- What becomes of the OpenZiti identity that a start creates.
use agents_orchestrator.Prelude.{
  ℕ, ◌+◌, String, ◌≡◌, refl, Bool, true, false, not, ◌&&◌, Option, none, some, Time, List, [], ◌∷◌,
  count, arith, if◌then◌else◌, ◌==◌, Bool-cases, inl, inr,
}
use agents_orchestrator.Errors.{Error, Result, ok, err}
use agents_orchestrator.Api.{FailureReason, Container}
use agents_orchestrator.Platform.{
  Assembled, Event, Trace, Env, IdentityReply, StartReply, StartRequest,
}
use agents_orchestrator.Platform
use agents_orchestrator.Effect.{Eff, ignore, each, continue, ◌>>=◌, ◌>>◌}
use agents_orchestrator.Reconciler.Runner.{
  stop_runner_workload, stop_runner_workload_with_prefix, after_stop, after_prefixed_stop,
  mark_workload_failed,
}
use agents_orchestrator.Reconciler.Records.{normalize_runner_workload_id}
use agents_orchestrator.Reconciler.Identity.{compensate_identity}
use agents_orchestrator.Reconciler.VolumeRecords.{
  VolumeRecord, Reserved, ours, existing, refused, reserve, after_create, check_existing,
  prepare_existing_volume_record, create_volume_records, after_reserve, mark_volume_failed,
  mark_volume_records_failed,
}
use agents_orchestrator.Reconciler.Diff.{AgentInstanceTarget}
use agents_orchestrator.Reconciler.Start.{
  Attempt, is_failed, undo, after_reply, after_start, reported_failure, missing_id, mismatched_id,
  record_start, after_record, after_volumes, launch, create_workload_record,
}

abbrev pub accepts : StartRequest → Result StartReply → Bool
accepts request (err e) = false
accepts request (ok reply) =
    not (is_failed reply.status) && (not (reply.id == "") && reply.id == request.workload_id)

abbrev is_ok {ℓ} : {A : Type ℓ} → Result A → Bool
is_ok (ok a) = true
is_ok (err e) = false

-- The identity `k` comes to be.
abbrev pub made : String → Event → Bool
made k (Event.create_identity a (ok reply)) =
    not (reply.ziti_identity_id == "") && reply.ziti_identity_id == k
made k _ = false

-- `k` is any identity, and `z` the one that the start is for.
module _ (k z : String) where
  -- The deletion of `k` is requested, or `k` is `z` and a runner takes the workload.
  abbrev pub settled : Event → Bool
  settled (Event.delete_identity id r) = id == k
  settled (Event.start runner request r) = accepts request r && z == k
  settled _ = false

  -- From a trace on which `k` is owed `n` times to one on which it is owed `m` times.
  abbrev pub Moves : ℕ → ℕ → Trace → Trace → Type 0
  Moves n m before now =
      count (made k) now + count settled before + n ≡ count (made k) before + count settled now + m

  abbrev pub owed : ℕ
  owed = if z == k then 1 else 0

  stop-Moves :
      (runner id : String) (env : Env) (t : Trace)
      → Moves 0 0 t (stop_runner_workload runner id env t).1
  unfolding stop_runner_workload after_stop stop_runner_workload_with_prefix after_prefixed_stop
      Platform.stop
  stop-Moves runner id env t = ground arith

  mark-Moves :
      (id : String) (i : Option String) (reason : FailureReason) (m : String) (cs : List Container)
      (env : Env) (t : Trace)
      → Moves 0 0 t (mark_workload_failed id i reason m cs env t).1
  unfolding mark_workload_failed Platform.update_workload
  mark-Moves id i reason m cs env t = ground arith

  marks-Moves :
      (at : Time) (vs : List VolumeRecord) (env : Env) (t : Trace)
      → (each (mark_volume_failed at) vs env t).0 ≡ ok tt
        × Moves 0 0 t (each (mark_volume_failed at) vs env t).1
  unfolding each mark_volume_failed Platform.update_volume
  marks-Moves at [] env t = (refl, refl)
  marks-Moves at (v ∷ vs) env t =
      ground (arith, marks-Moves at vs env (mark_volume_failed at v env t).1)

  undo-Moves :
      (created : List VolumeRecord) (env : Env) (t : Trace)
      → Moves owed 0 t (undo created (some z) env t).1
  unfolding undo compensate_identity mark_volume_records_failed Platform.delete_identity
  undo-Moves [] env t = ground arith
  undo-Moves (v ∷ vs) env t = ground (arith, marks-Moves (env.now t) (v ∷ vs) env t)

  then_undo-Moves :
      (m : Eff (Unit {0})) (created : List VolumeRecord) (env : Env) (t : Trace)
      → (m env t).0 ≡ ok tt
      → Moves 0 0 t (m env t).1
      → Moves owed 0 t ((m >> undo created (some z)) env t).1
  then_undo-Moves m created env t h l = ground (arith, undo-Moves created env (m env t).1)

  failed_then_undo-Moves :
      (id : String) (i : Option String) (reason : FailureReason) (m : String) (cs : List Container)
      (created : List VolumeRecord) (env : Env) (t : Trace)
      → Moves owed 0 t ((mark_workload_failed id i reason m cs >> undo created (some z)) env t).1
  unfolding mark_workload_failed
  failed_then_undo-Moves id i reason m cs created env t =
      then_undo-Moves (mark_workload_failed id i reason m cs) created env t refl
        (mark-Moves id i reason m cs env t)

  stopped_then-Moves :
      (runner j : String) (id : String) (i : Option String) (reason : FailureReason) (m : String)
      (cs : List Container) (created : List VolumeRecord) (env : Env) (t : Trace)
      → Moves owed 0 t
          ((ignore (stop_runner_workload runner j)
              >> (mark_workload_failed id i reason m cs >> undo created (some z)))
            env t).1
  stopped_then-Moves runner j id i reason m cs created env t =
      let u = (stop_runner_workload runner j env t).1 in
      ground
        (arith, failed_then_undo-Moves id i reason m cs created env u, stop-Moves runner j env t)

  reported_failure-Moves :
      (a : Attempt) (i : String) (reply : StartReply) (env : Env) (t : Trace)
      → a.ziti ≡ some z
      → Moves owed 0 t (reported_failure a i reply env t).1
  unfolding reported_failure
  reported_failure-Moves a i reply env t h = elim (Bool-cases (i == "")) [
    | inl absent ↦ rw (absent, h) (failed_then_undo-Moves _ _ _ _ _ a.created env t)
    | inr there ↦ rw (there, h) (stopped_then-Moves a.runner_id i _ _ _ _ _ a.created env t)
  ]

  missing_id-Moves :
      (a : Attempt) (reply : StartReply) (env : Env) (t : Trace)
      → a.ziti ≡ some z
      → Moves owed 0 t (missing_id a reply env t).1
  unfolding missing_id
  missing_id-Moves a reply env t h = rw h (failed_then_undo-Moves _ _ _ _ _ a.created env t)

  mismatched_id-Moves :
      (a : Attempt) (reply : StartReply) (env : Env) (t : Trace)
      → a.ziti ≡ some z
      → Moves owed 0 t (mismatched_id a reply env t).1
  unfolding mismatched_id
  mismatched_id-Moves a reply env t h =
      rw h (stopped_then-Moves a.runner_id reply.id _ _ _ _ _ a.created env t)

  record_start-Moves :
      (a : Attempt) (i : String) (reply : StartReply) (env : Env) (t : Trace)
      → Moves 0 0 t (record_start a i reply env t).1
  unfolding record_start Platform.update_workload
  record_start-Moves a i reply env t = ground arith

  after_start-Moves :
      (a : Attempt) (r : Result StartReply) (env : Env) (t : Trace)
      → a.ziti ≡ some z
      → a.request.workload_id ≡ a.workload_id
      → Moves (if accepts a.request r then 0 else owed) 0 t (after_start a r env t).1
  unfolding after_start after_reply
  after_start-Moves a (err e) env t h l = rw h (
      failed_then_undo-Moves a.workload_id none FailureReason.start_failed e.text [] a.created env
        t)
  after_start-Moves a (ok reply) env t h l =
      let i = normalize_runner_workload_id env.parse_uuid reply.id in
      rw l (
        ground (
          arith,
          reported_failure-Moves a i reply env t h,
          missing_id-Moves a reply env t h,
          mismatched_id-Moves a reply env t h,
          record_start-Moves a i reply env t,
        ))

  after_record-Moves :
      (a : Attempt) (r : Result (Unit {0})) (env : Env) (t : Trace)
      → a.ziti ≡ some z
      → a.request.workload_id ≡ a.workload_id
      → Moves owed 0 t (after_record a r env t).1
  unfolding after_record Platform.start
  after_record-Moves a (err e) env t h l = rw h (undo-Moves a.created env t)
  after_record-Moves a (ok _) env t h l =
      let r = env.start t a.runner_id a.request in
      let u : Trace = Event.start a.runner_id a.request r ∷ t in
      ground (arith, after_start-Moves a r env u h l)

  after_volumes-Moves :
      (target : AgentInstanceTarget) (assembled : Assembled) (a : Attempt) (o : Option Error)
      (env : Env) (t : Trace)
      → a.ziti ≡ some z
      → a.request.workload_id ≡ a.workload_id
      → Moves owed 0 t (after_volumes target assembled a o env t).1
  unfolding after_volumes create_workload_record Platform.create_workload
  after_volumes-Moves target assembled a (some e) env t h l = rw h (undo-Moves a.created env t)
  after_volumes-Moves target assembled a none env t h l =
      let m = create_workload_record a.workload_id a.runner_id target assembled a.ziti in
      ground (arith, after_record-Moves a (m env t).0 env (m env t).1 h l)

  reserve-Moves :
      (r : VolumeRecord) (runner_id : String) (target : AgentInstanceTarget)
      (organization_id : String) (env : Env) (t : Trace)
      → let (x, u) = reserve r runner_id target organization_id env t in
        (is_ok x ≡ true) × Moves 0 0 t u
  unfolding reserve after_create prepare_existing_volume_record check_existing
      Platform.create_volume Platform.get_volume_record
  reserve-Moves r runner_id target organization_id env t = ground arith

  -- An effect that returns no error and moves no identity.
  abbrev Calm {ℓ} : {A : Type ℓ} → Eff A → Type 0
  Calm m = (env : Env) (t : Trace) → (is_ok (m env t).0 ≡ true) × Moves 0 0 t (m env t).1

  after_bind-Calm {ℓ κ} :
      {A : Type ℓ} {B : Type κ} (f : A → Eff B) (env : Env) (t : Trace) (o : Result A × Trace)
      → ((a : A) → Calm (f a))
      → (is_ok o.0 ≡ true) × Moves 0 0 t o.1
      → (is_ok (continue o.0 f env o.1).0 ≡ true) × Moves 0 0 t (continue o.0 f env o.1).1
  after_bind-Calm f env t (ok a, u) h l = ground (arith, h a env u)
  after_bind-Calm f env t (err e, u) h l = ground arith

  bind-Calm {ℓ κ} :
      {A : Type ℓ} {B : Type κ} (m : Eff A) (f : A → Eff B)
      → Calm m
      → ((a : A) → Calm (f a))
      → Calm (m >>= f)
  bind-Calm m f h l env t = after_bind-Calm f env t (m env t) l (h env t)

  after_reserve-Calm :
      (r : VolumeRecord) (x : Reserved) (rest : Eff (List VolumeRecord × Option Error))
      → Calm rest
      → Calm (after_reserve r x rest)
  unfolding after_reserve
  after_reserve-Calm r (refused e) rest h env t = (refl, refl)
  after_reserve-Calm r existing rest h env t = h env t
  after_reserve-Calm r ours rest h env t = ground (arith, h env t)

  create_volume_records-Calm :
      (rs : List VolumeRecord) (runner_id : String) (target : AgentInstanceTarget)
      (organization_id : String)
      → Calm (create_volume_records rs runner_id target organization_id)
  unfolding create_volume_records
  create_volume_records-Calm [] runner_id target organization_id = λ env t. (refl, refl)
  create_volume_records-Calm (r ∷ rs) runner_id target organization_id =
      bind-Calm (reserve r runner_id target organization_id) _
        (reserve-Moves r runner_id target organization_id)
        (λ x.
          after_reserve-Calm r x _ (create_volume_records-Calm rs runner_id target organization_id))

  pub launch-Moves :
      (target : AgentInstanceTarget) (assembled : Assembled) (workload_id runner_id : String)
      (request : StartRequest) (rs : List VolumeRecord) (env : Env) (t : Trace)
      → request.workload_id ≡ workload_id
      → Moves owed 0 t (launch target assembled workload_id runner_id request rs (some z) env t).1
  unfolding launch
  launch-Moves target assembled workload_id runner_id request rs env t l =
      after (create_volume_records rs runner_id target assembled.organization_id env t)
        (create_volume_records-Calm rs runner_id target assembled.organization_id env t)
    where
      after :
          (o : Result (List VolumeRecord × Option Error) × Trace)
          → (is_ok o.0 ≡ true) × Moves 0 0 t o.1
          → Moves owed 0 t
              (continue o.0
                (λ got.
                  after_volumes target assembled
                    (record {
                      workload_id = workload_id;
                      runner_id = runner_id;
                      request = request;
                      created = got.0;
                      ziti = some z;
                    })
                    got.1)
                env
                o.1).1
      after (ok (got, e), u) h = ground (
        arith,
        after_volumes-Moves target assembled
            (record {
              workload_id = workload_id;
              runner_id = runner_id;
              request = request;
              created = got;
              ziti = some z;
            })
            e env u refl l,
      )
      after (err e, u) h = ground arith
