-- ===== src/Reconciler/Cycles/WorkloadLoop/Spared.antt =====
-- What the workload loop leaves alone.
use agents_orchestrator.Prelude.{
  String, ◌≡◌, refl, ◌∙◌, ap, inl, inr, ◌⊎◌, Bool, true, false, not, Option, none, List, [], ◌∷◌,
  arith, count, Map, lookup, member, ◌||◌, Bool-cases, eq_iff, if◌then◌else◌, ◌==◌,
}
use agents_orchestrator.Errors.{Error, Result, ok, err}
use agents_orchestrator.Api.{Workload}
use agents_orchestrator.Platform.{Event, Env, Trace, RunnerItem}
use agents_orchestrator.Platform
use agents_orchestrator.Reconciler.Stop.{is_no_terminators}
use agents_orchestrator.Reconciler.Cycles.Group.{Visited, keys, inner, reported_items}
use agents_orchestrator.Reconciler.Cycles.Settle.{settle}
use agents_orchestrator.Reconciler.Cycles.Settle.Left.{
  first_item, Succeeds, settle-left, reported_items-lookup, reported_items-unnamed,
}
use agents_orchestrator.Reconciler.Cycles.WorkloadLoop.{
  unreached, missing_workload, present_workload, after_list, after_dial, reconcile_runner,
}

missing-Succeeds : (s : Unit {0}) (w : Workload) → Succeeds (missing_workload s w)
unfolding missing_workload
missing-Succeeds s w env t = (tt, refl)

present-Succeeds :
    (runner_id : String) (s : Unit {0}) (w : Workload) (i : RunnerItem)
    → Succeeds (present_workload runner_id s w i)
unfolding present_workload
present-Succeeds runner_id s w i env t = (tt, refl)

-- If the runtime visits the tracked workloads' ids and no others, then, whatever the services
-- answer, what is left of a runner's report after the loop over them, to be stopped as orphans,
-- has for each key that is not empty and that no tracked workload has the first item reported with
-- it, and nothing for the empty key or for one that a tracked workload has.
pub orphans_are_untracked :
    (runner_id : String) (tracked : Map Workload) (items : List (Option RunnerItem)) (env : Env)
    (t : Trace)
    → ((j : String) → member j (env.visit t (keys tracked)) ≡ member j (keys tracked))
    → (left : Map RunnerItem) × ((settle
          (present_workload runner_id)
          missing_workload
          tracked
          (reported_items items [])
          tt
          env
          t).0
        ≡ ok (left, tt))
      × ((k : String)
          → lookup k left
            ≡ (if k == "" || member k (keys tracked) then none else first_item k items))
orphans_are_untracked runner_id tracked items env t visits =
    let (left, s, e, h) =
      settle-left (present_workload runner_id) missing_workload (present-Succeeds runner_id)
        missing-Succeeds tracked (reported_items items []) tt env t visits in
    let unnamed = reported_items-unnamed items [] refl in
    (
      left,
      e,
      λ k. elim (Bool-cases (k == "")) [
        | inl b ↦ ground (arith, h k, b, eq_iff k "", unnamed)
        | inr b ↦ ground (arith, h k, b, reported_items-lookup k items [] b)
      ],
    )

-- A request other than to reach the runner and to ask for its workloads.
abbrev pub acts : Event → Bool
acts (Event.dial _ _) = false
acts (Event.list_runner_workloads _ _) = false
acts _ = true

-- An error that does not tell that no terminator reaches the runner.
abbrev pub unclear {ℓ} : {A : Type ℓ} → Result A → Bool
unclear (ok a) = false
unclear (err e) = not (is_no_terminators e)

unreached-spares :
    (tracked : Map Workload) (e : Error) (env : Env) (t : Trace)
    → is_no_terminators e ≡ false
    → (unreached tracked e env t).1 ≡ t
unfolding unreached
unreached-spares tracked e env t h = rw (h, unreached) refl

after_list-spares :
    (runner_id : String) (tracked : Map Workload) (r : Result (List (Option RunnerItem)))
    (env : Env) (t : Trace)
    → unclear r ≡ true
    → (after_list runner_id tracked r env t).1 ≡ t
unfolding after_list
after_list-spares runner_id tracked (ok items) env t h = absurd (ground arith)
after_list-spares runner_id tracked (err e) env t h =
    unreached-spares tracked e env t (ground (arith, h))

-- If an enrolled runner cannot be dialled, or can be dialled but does not list its workloads, and
-- the error is not that it has no terminators, then its visit does nothing else: no workload of it
-- is stopped, failed or recorded as lost.
pub silence_spares_workloads :
    (visited : Visited) (tracked : Map (Map Workload)) (runner_id : String) (env : Env) (t : Trace)
    → member runner_id visited.enrolled ≡ true
    → (unclear (env.dial t runner_id) ≡ true)
      ⊎ (env.dial t runner_id ≡ ok tt)
        × ((u : Trace) → unclear (env.list_runner_workloads u runner_id) ≡ true)
    → count acts (reconcile_runner visited tracked runner_id env t).1 ≡ count acts t
unfolding reconcile_runner after_dial Platform.dial Platform.list_runner_workloads
silence_spares_workloads visited tracked runner_id env t enrolled h =
    rw (enrolled, reconcile_runner) (from (env.dial t runner_id) h)
  where
    here : Map Workload
    here = inner (lookup runner_id tracked)

    from :
        (r : Result (Unit {0}))
        → (unclear r ≡ true)
          ⊎ (r ≡ ok tt) × ((u : Trace) → unclear (env.list_runner_workloads u runner_id) ≡ true)
        → count acts (after_dial runner_id here r env (Event.dial runner_id r ∷ t)).1 ≡ count acts t
    from (err e) (inl g) =
        ap (count acts)
          (unreached-spares here e env (Event.dial runner_id (err e) ∷ t) (ground (arith, g)))
        ∙ omega arith
    from (err e) (inr g) = absurd (cc)
    from (ok done) (inl g) = absurd (ground (arith, g))
    from (ok done) (inr g) =
        let dialled = Event.dial runner_id (ok done) ∷ t in
        let r = env.list_runner_workloads dialled runner_id in
        ap (count acts) (
          after_list-spares runner_id here r env (Event.list_runner_workloads runner_id r ∷ dialled)
            (g.1 dialled))
        ∙ omega arith
