-- ===== src/Reconciler/Diff/Choice.antt =====
-- The result of ComputeActions, described by the workloads alone.
use agents_orchestrator.Prelude.{
  ℕ, ◌+◌, String, ◌≡◌, refl, subst, ◌∙◌, Bool, true, ◌&&◌, not, Option, none, some, List, [], ◌∷◌,
  ◌++◌, arith, Time, Duration, Map, lookup, count, count-append, any, keep,
}
use agents_orchestrator.Errors.{ok, >>=-eq-ok, ok-injective}
use agents_orchestrator.Api.{Workload}
use agents_orchestrator.Reconciler.Diff.{
  AgentInstanceTarget, Actions, WorkloadEntry, Collected, collect, desired_set_of, stop_test, stops,
  compute_actions,
}
use agents_orchestrator.Reconciler.Diff.Collect.{
  is_of, chosen, IsIndexed, oldest, present, collect-Gathers,
}
use agents_orchestrator.Reconciler.Diff.Counts.{
  for_entry, count_entry, missing-keep, names_target, must_stop, holds, oldest-any, stop_test-holds,
  stops-count,
}

abbrev empty : Collected
empty = record { actual_set = []; duplicates = [] }

empty-IsIndexed : (parse : String → Option String) → IsIndexed parse empty
empty-IsIndexed parse = record { keyed = tt; distinct = tt }

-- Ranging over a map visits each entry once, in whatever order.
abbrev pub Visits : (Map WorkloadEntry → Map WorkloadEntry) → Type 0
Visits iterate =
    (p : String × WorkloadEntry → Bool) (m : Map WorkloadEntry) → count p (iterate m) ≡ count p m

keep-cong {ℓ} :
    {A : Type ℓ} (p q : A → Bool) (xs : List A) → ((x : A) → p x ≡ q x) → keep p xs ≡ keep q xs
keep-cong p q [] h = refl
keep-cong p q (x ∷ xs) h = rw (h x, keep-cong p q xs h)

count-cong {ℓ} :
    {A : Type ℓ} (p q : A → Bool) (xs : List A) → ((x : A) → p x ≡ q x) → count p xs ≡ count q xs
count-cong p q [] h = refl
count-cong p q (x ∷ xs) h = rw (h x, count-cong p q xs h)

module _ (parse : String → Option String) (iterate : Map WorkloadEntry → Map WorkloadEntry)
    (desired : List AgentInstanceTarget) (actual : List Workload) (idle_timeouts : Map Duration)
    (fallback : Duration) (now : Time) where
  -- 1 if the oldest workload of the instance is to live on and passes the test, else 0.
  abbrev pub survivors : (Workload → Bool) → String → ℕ
  survivors q i =
      for_entry
        (λ e.
          q e.workload
          && not (must_stop parse idle_timeouts fallback now (any (names_target i) desired) e))
        (oldest parse i actual none)

  -- If ComputeActions succeeds, it starts, in their order, those desired instances that no tracked
  -- workload belongs to, and no other.
  pub starts_unserved :
      (a : Actions)
      → compute_actions parse iterate desired actual idle_timeouts fallback now ≡ ok a
      → a.to_start ≡ keep (λ t. not (any (is_of parse t.agent_instance_id) actual)) desired
  unfolding compute_actions
  starts_unserved a h =
      let (c, collected, h₁) = >>=-eq-ok (collect parse actual empty) _ h in
      let (idle, stopped, h₂) =
        >>=-eq-ok
          (stops parse (desired_set_of desired []) idle_timeouts fallback now
            (iterate c.actual_set))
          _ h₁ in
      subst
        (λ (x : Actions).
          x.to_start ≡ keep (λ t. not (any (is_of parse t.agent_instance_id) actual)) desired)
        (ok-injective h₂)
        (missing-keep c.actual_set desired
          ∙ keep-cong _ _ desired λ t.
            let g =
              collect-Gathers parse (λ w. true) t.agent_instance_id actual empty c
                (empty-IsIndexed parse) collected in
            ground (arith, g.survivor, oldest-any parse t.agent_instance_id actual none))

  stopped_of :
      (q : Workload → Bool) (i : String) (c : Collected) (idle : List Workload)
      → Visits iterate
      → collect parse actual empty ≡ ok c
      → stops parse (desired_set_of desired []) idle_timeouts fallback now (iterate c.actual_set)
        ≡ ok idle
      → count (chosen parse q i) (c.duplicates ++ idle) + survivors q i
        ≡ count (chosen parse q i) actual
  stopped_of q i c idle visits collected stopped =
      let set = desired_set_of desired [] in
      let g = collect-Gathers parse q i actual empty c (empty-IsIndexed parse) collected in
      let test = λ (kv : String × WorkloadEntry).
        holds (stop_test parse set idle_timeouts fallback now kv) in
      let visited =
        stops-count parse idle_timeouts fallback now set q i (iterate c.actual_set) idle stopped
        ∙ visits _ c.actual_set
        ∙ count_entry parse i (λ kv. q kv.1.workload && test kv) c.actual_set g.indexed.keyed
            g.indexed.distinct in
      rw (count-append (chosen parse q i) c.duplicates idle, visited, ← g.survivor)
        (splits (lookup i c.actual_set) (count (chosen parse q i) c.duplicates) g.counts)
    where
      splits :
          (o : Option WorkloadEntry) (n : ℕ)
          → n + present q o ≡ count (chosen parse q i) actual + (0 + 0)
          → n
              + for_entry
                  (λ e.
                    q e.workload
                    && holds (
                        stop_test parse
                          (desired_set_of desired [])
                          idle_timeouts
                          fallback
                          now
                          (i, e)))
                  o
              + for_entry
                  (λ e.
                    q e.workload
                    && not (
                        must_stop parse idle_timeouts fallback now
                          (any (names_target i) desired)
                          e))
                  o
            ≡ count (chosen parse q i) actual
      splits none n k = omega arith
      splits (some e) n k =
          rw (stop_test-holds parse idle_timeouts fallback now desired i e) (ground arith)

  -- If ComputeActions succeeds, then, for any test, the workloads of an instance that pass it are as
  -- many among the tracked ones as among those to stop, plus one if the survivor passes it. The
  -- survivor is the one active first (of two as old, the one listed first), unless the instance is
  -- not desired and that workload is stopping already or has outlived its idle timeout, when there
  -- is none. So the others are stopped, each once, and the survivor is not. The runtime may visit
  -- the map in any order, if it visits each entry once.
  pub stops_all_but_oldest :
      (q : Workload → Bool) (i : String) (a : Actions)
      → Visits iterate
      → compute_actions parse iterate desired actual idle_timeouts fallback now ≡ ok a
      → count (chosen parse q i) a.to_stop + survivors q i ≡ count (chosen parse q i) actual
  unfolding compute_actions
  stops_all_but_oldest q i a visits h =
      let (c, collected, h₁) = >>=-eq-ok (collect parse actual empty) _ h in
      let (idle, stopped, h₂) =
        >>=-eq-ok
          (stops parse (desired_set_of desired []) idle_timeouts fallback now
            (iterate c.actual_set))
          _ h₁ in
      subst
        (λ (x : Actions).
          count (chosen parse q i) x.to_stop + survivors q i ≡ count (chosen parse q i) actual)
        (ok-injective h₂) (stopped_of q i c idle visits collected stopped)
