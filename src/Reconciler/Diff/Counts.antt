-- ===== src/Reconciler/Diff/Counts.antt =====
-- What the second and third loop of ComputeActions make of the entries, counted by instance.
use agents_orchestrator.Prelude.{
  ℕ, String, ◌≡◌, refl, ◌∙◌, inl, inr, Bool, false, ◌&&◌, ◌||◌, Option, none, some, List, [], ◌∷◌,
  arith, Map, lookup, insert, lookup-insert, All, count, any, keep, is_some, not, if◌then◌else◌,
  Bool-cases, ◌==◌, eq_iff, Duration, Time, ltb_ℤ, time_sub,
}
use agents_orchestrator.Errors.{Result, ok, err, Result-cases, >>=-eq-ok, ok-injective}
use agents_orchestrator.Api.{Workload, is_stopping}
use agents_orchestrator.Uuid.{parse_uuid}
use agents_orchestrator.Reconciler.Diff.{
  AgentInstanceTarget, WorkloadEntry, missing, desired_set_of, stop_test, stops, or_duration,
}
use agents_orchestrator.Reconciler.Diff.Collect.{is_of, chosen, KeyedBy, Distinct, oldest}

abbrev pub holds : Result Bool → Bool
holds (ok b) = b
holds (err e) = false

abbrev pub for_entry : (WorkloadEntry → Bool) → Option WorkloadEntry → ℕ
for_entry p none = 0
for_entry p (some e) = if p e then 1 else 0

module _ (parse : String → Option String) where
  count_absent :
      (i : String) (p : String × WorkloadEntry → Bool) (m : Map WorkloadEntry)
      → All (KeyedBy parse) m
      → lookup i m ≡ none
      → count (λ kv. is_of parse i kv.1.workload && p kv) m ≡ 0
  count_absent i p [] a h = refl
  count_absent i p ((k, e) ∷ m) a h = rw a.0 (ground (arith, count_absent i p m a.1))

  -- In a map of distinct keys an instance has the one entry that `lookup` finds.
  pub count_entry :
      (i : String) (p : String × WorkloadEntry → Bool) (m : Map WorkloadEntry)
      → All (KeyedBy parse) m
      → Distinct m
      → count (λ kv. is_of parse i kv.1.workload && p kv) m ≡ for_entry (λ e. p (i, e)) (lookup i m)
  count_entry i p [] a d = refl
  count_entry i p ((k, e) ∷ m) a d = rw a.0 (elim (Bool-cases (k == i)) [
    | inl same ↦
        let e' : k ≡ i = (eq_iff k i).0 same in
        rw (same, e') (ground (arith, count_absent i p m a.1 (rw e' at d.0)))
    | inr differ ↦ rw differ (omega (arith, count_entry i p m a.1 d.1))
  ])

pub missing-keep :
    (m : Map WorkloadEntry) (ts : List AgentInstanceTarget)
    → missing m ts ≡ keep (λ t. not (is_some (lookup t.agent_instance_id m))) ts
unfolding missing
missing-keep m [] = refl
missing-keep m (t ∷ ts) = ground (arith, missing-keep m ts)

abbrev pub names_target : String → AgentInstanceTarget → Bool
names_target i t = t.agent_instance_id == i

pub desired_set-lookup :
    (i : String) (ts : List AgentInstanceTarget) (m : Map AgentInstanceTarget)
    → is_some (lookup i (desired_set_of ts m)) ≡ (any (names_target i) ts || is_some (lookup i m))
unfolding desired_set_of
desired_set-lookup i [] m = refl
desired_set-lookup i (t ∷ ts) m =
    desired_set-lookup i ts (insert t.agent_instance_id t m)
    ∙ ground (arith, lookup-insert t.agent_instance_id i t m)

pub oldest-any :
    (parse : String → Option String) (i : String) (ws : List Workload)
    (found : Option WorkloadEntry)
    → is_some (oldest parse i ws found) ≡ (any (is_of parse i) ws || is_some found)
oldest-any parse i [] found = refl
oldest-any parse i (w ∷ ws) found = oldest-any parse i ws _ ∙ ground arith

module _ (parse : String → Option String) (idle_timeouts : Map Duration) (fallback : Duration)
    (now : Time) where
  -- The workload has outlived the idle timeout of its agent class. One whose class cannot be read
  -- fails the cycle, and is not stopped.
  abbrev pub elapsed_for : WorkloadEntry → Result String → Bool
  elapsed_for e (err x) = false
  elapsed_for e (ok class) =
      ltb_ℤ (or_duration (lookup class idle_timeouts) fallback) (time_sub now e.activity_at)

  abbrev pub must_stop : Bool → WorkloadEntry → Bool
  must_stop desired e =
      not desired
      && (is_stopping e.workload.status
          || elapsed_for e (parse_uuid parse e.workload.agent_class_id))

  pub stop_test-holds :
      (ts : List AgentInstanceTarget) (i : String) (e : WorkloadEntry)
      → holds (stop_test parse (desired_set_of ts []) idle_timeouts fallback now (i, e))
        ≡ must_stop (any (names_target i) ts) e
  unfolding stop_test
  stop_test-holds ts i e =
      ground (
        arith,
        desired_set-lookup i ts [],
        Result-cases (parse_uuid parse e.workload.agent_class_id),
      )

  pub stops-count :
      (set : Map AgentInstanceTarget) (q : Workload → Bool) (i : String) (m : Map WorkloadEntry)
      (ws : List Workload)
      → stops parse set idle_timeouts fallback now m ≡ ok ws
      → count (chosen parse q i) ws
        ≡ count
            (λ kv.
              is_of parse i kv.1.workload
              && (q kv.1.workload && holds (stop_test parse set idle_timeouts fallback now kv)))
            m
  unfolding stops
  stops-count set q i [] ws h = rw (← ok-injective h)
  stops-count set q i ((k, e) ∷ m) ws h =
      let (b, tested, h₁) = >>=-eq-ok (stop_test parse set idle_timeouts fallback now (k, e)) _ h in
      let (rest, later, h₂) = >>=-eq-ok (stops parse set idle_timeouts fallback now m) _ h₁ in
      rw (← ok-injective h₂, tested) (ground (arith, stops-count set q i m rest later))
