-- ===== src/Reconciler/StartDecision/Backoff.antt =====
-- What a listing with a limit takes.
use agents_orchestrator.Prelude.{
  ℕ, zero, suc, ◌≤◌, ◌<◌, String, ◌≡◌, inl, inr, false, ◌||◌, Option, none, some, List, [], ◌∷◌,
  ◌++◌, arith, length, length-append, nat_eq, if◌then◌else◌, ◌==◌, Bool-cases,
}
use agents_orchestrator.Errors.{Result, ok, err, Result-cases}
use agents_orchestrator.Api.{Workload, WorkloadStatus}
use agents_orchestrator.Platform.{Event, Trace, Env, Page, WorkloadQuery}
use agents_orchestrator.Platform
use agents_orchestrator.Effect.{Eff, continue, lift, pure, ◌>>=◌}
use agents_orchestrator.Reconciler.StartDecision.{
  take_page, list_loop, list_workloads_by_agent_instance, full, page_size_for,
}

take_page-length :
    (limit : ℕ) (acc : List Workload) (os : List (Option Workload)) (ws : List Workload)
    → length acc < limit
    → take_page limit acc os ≡ ok ws
    → length ws ≤ limit
unfolding take_page
take_page-length limit acc [] ws k e = ground arith
take_page-length limit acc (none ∷ os) ws k e = ground arith
take_page-length limit acc (some w ∷ os) ws k e =
    ground (arith, take_page-length limit (acc ++ w ∷ []) os ws, length-append acc (w ∷ []))

unfoldable pub next_page :
    ℕ
    → String
    → List WorkloadStatus
    → ℕ
    → List Workload
    → Page (Option Workload)
    → Eff (List Workload)
next_page fuel id statuses limit acc page = do
  acc' ← lift (take_page limit acc page.items)
  if full limit acc' || page.next == ""
      then pure acc'
      else list_loop fuel id statuses limit page.next acc'

next_page-length :
    (fuel : ℕ) (id : String) (statuses : List WorkloadStatus) (limit : ℕ) (acc ws : List Workload)
    (page : Page (Option Workload)) (env : Env) (t : Trace)
    → length acc < limit
    → ((acc' : List Workload)
        → length acc' ≤ limit
        → (list_loop fuel id statuses limit page.next acc' env t).0 ≡ ok ws
        → length ws ≤ limit)
    → (next_page fuel id statuses limit acc page env t).0 ≡ ok ws
    → length ws ≤ limit
unfolding next_page
next_page-length fuel id statuses limit acc ws page env t k rest e =
    elim (Result-cases (take_page limit acc page.items)) [
      | inl (acc', h) ↦
          let taken = take_page-length limit acc page.items acc' k h in
          ground (arith, rest acc' taken, taken)
      | inr (x, h) ↦ ground arith
    ]

list_loop-length :
    (fuel : ℕ) (id : String) (statuses : List WorkloadStatus) (limit : ℕ) (token : String)
    (acc ws : List Workload) (env : Env) (t : Trace)
    → nat_eq limit 0 ≡ false
    → length acc ≤ limit
    → (list_loop fuel id statuses limit token acc env t).0 ≡ ok ws
    → length ws ≤ limit
unfolding list_loop next_page Platform.list_workloads
list_loop-length zero id statuses limit token acc ws env t h k e = ground arith
list_loop-length (suc fuel) id statuses limit token acc ws env t h k e =
    elim (Bool-cases (full limit acc)) [
      | inl done ↦ ground arith
      | inr more ↦
          let q = WorkloadQuery.of_instance id statuses (page_size_for limit acc) in
          from (env.list_workloads t q token) (ground arith)
            (λ page u.
              next_page-length fuel id statuses limit acc ws page env u (ground arith)
                (λ acc' k'. list_loop-length fuel id statuses limit page.next acc' ws env u h k'))
            (rw (more, list_loop) at e)
    ]
  where
    from :
        (r : Result (Page (Option Workload)))
        → (length acc < limit)
        → ((page : Page (Option Workload)) (u : Trace)
            → (next_page fuel id statuses limit acc page env u).0 ≡ ok ws
            → length ws ≤ limit)
        → (continue r (next_page fuel id statuses limit acc) env (
            Event.list_workloads
              (WorkloadQuery.of_instance id statuses (page_size_for limit acc))
              token
              r
            ∷ t)).0
          ≡ ok ws
        → length ws ≤ limit
    from (ok page) l f g = f page _ g
    from (err x) l f g = ground arith

-- A listing with a limit never returns more than its limit, however the pages are cut.
pub listing_keeps_limit :
    (fuel : ℕ) (id : String) (statuses : List WorkloadStatus) (limit : ℕ) (ws : List Workload)
    (env : Env) (t : Trace)
    → nat_eq limit 0 ≡ false
    → (list_workloads_by_agent_instance fuel id statuses limit env t).0 ≡ ok ws
    → length ws ≤ limit
unfolding list_workloads_by_agent_instance
listing_keeps_limit fuel id statuses limit ws env t h e =
    ground (arith, list_loop-length fuel id statuses limit "" [] ws env t h)
