-- ===== src/Reconciler/StartDecision/Listing.antt =====
-- How many pages a listing with a limit needs.
use agents_orchestrator.Prelude.{
  ℕ, zero, suc, ◌+◌, ◌≤◌, String, ◌≡◌, refl, inl, inr, Bool, true, false, not, ◌&&◌, ◌||◌, Option,
  none, some, List, [], ◌∷◌, ◌++◌, arith, length, length-append, nat_eq, leb, if◌then◌else◌, ◌==◌,
  Bool-cases,
}
use agents_orchestrator.Errors.{Result, ok, err, fault}
use agents_orchestrator.Api.{Meta, Workload, WorkloadStatus, meta_id}
use agents_orchestrator.Platform.{Event, Trace, Env, Page, WorkloadQuery}
use agents_orchestrator.Platform
use agents_orchestrator.Reconciler.StartDecision.Backoff.{next_page}
use agents_orchestrator.Reconciler.StartDecision.{
  take_page, list_loop, list_workloads_by_agent_instance, full, check_meta, page_size_for,
}

-- A workload with an id.
abbrev pub is_named : Option Workload → Bool
is_named none = false
is_named (some w) = not (meta_id w.meta == "")

abbrev pub all_named : List (Option Workload) → Bool
all_named [] = true
all_named (w ∷ ws) = is_named w && all_named ws

-- Workloads with ids, and at least one of them unless it is the last page.
abbrev pub is_useful : Page (Option Workload) → Bool
is_useful page = all_named page.items && (page.next == "" || leb 1 (length page.items))

check_meta-named : (w : Workload) → is_named (some w) ≡ true → check_meta w ≡ ok tt
unfolding check_meta
check_meta-named w h = from w.meta h
  where
    from :
        (m : Option Meta)
        → not (meta_id m == "") ≡ true
        → ◌≡◌ {A = Result (Unit {0})}
            (elim m [
              | none ↦ err (fault "workload meta missing")
              | some m ↦ if m.id == "" then err (fault "workload meta id missing") else ok tt
            ])
            (ok tt)
    from none h = ground arith
    from (some m) h = ground arith

take_page-grows :
    (limit : ℕ) (acc : List Workload) (os : List (Option Workload))
    → all_named os ≡ true
    → (ws : List Workload) × (take_page limit acc os ≡ ok ws)
      × (length acc + (if leb 1 (length os) then 1 else 0) ≤ length ws)
unfolding take_page
take_page-grows limit acc [] h = (acc, refl, omega arith)
take_page-grows limit acc (none ∷ os) h = ground arith
take_page-grows limit acc (some w ∷ os) h =
    let (ws, e, k) = take_page-grows limit (acc ++ w ∷ []) os (ground arith) in
    let named = check_meta-named w (ground arith) in
    elim (Bool-cases (full limit (acc ++ w ∷ []))) [
      | inl done ↦ (
        acc ++ w ∷ [],
        rw (named, done, take_page) refl,
        ground (arith, length-append acc (w ∷ [])),
      )
      | inr more ↦
          (ws, rw (named, more, take_page) e, ground (arith, k, length-append acc (w ∷ [])))
    ]

list_loop-ends :
    (fuel : ℕ) (id : String) (statuses : List WorkloadStatus) (limit : ℕ) (token : String)
    (acc : List Workload) (env : Env) (t : Trace)
    → nat_eq limit 0 ≡ false
    → limit ≤ length acc + fuel
    → ((u : Trace) (q : WorkloadQuery) (next : String)
        → (page : Page (Option Workload)) × (env.list_workloads u q next ≡ ok page)
          × (is_useful page ≡ true))
    → (ws : List Workload) × ((list_loop (suc fuel) id statuses limit token acc env t).0 ≡ ok ws)
unfolding list_loop next_page Platform.list_workloads
list_loop-ends zero id statuses limit token acc env t h k useful = (acc, ground arith)
list_loop-ends (suc fuel) id statuses limit token acc env t h k useful =
    let q = WorkloadQuery.of_instance id statuses (page_size_for limit acc) in
    let (page, e, good) = useful t q token in
    let (taken, g, longer) = take_page-grows limit acc page.items (ground arith) in
    elim (Bool-cases (full limit acc)) [
      | inl done ↦ (acc, rw (done, list_loop) refl)
      | inr more ↦ elim (Bool-cases (full limit taken || page.next == "")) [
        | inl last ↦ (taken, rw (more, list_loop, e, g, last) refl)
        | inr further ↦
            let (ws, found) =
              list_loop-ends fuel id statuses limit page.next taken env
                (Event.list_workloads q token (ok page) ∷ t) h (ground arith) useful in
            (ws, rw (more, list_loop, e, g, further) found)
      ]
    ]

-- If each page has only workloads with an id, and at least one unless it is the last page, then a
-- listing of an instance's workloads with a limit above 0 succeeds within one page more than its
-- limit.
pub listing_ends :
    (limit : ℕ) (id : String) (statuses : List WorkloadStatus) (env : Env) (t : Trace)
    → nat_eq limit 0 ≡ false
    → id == "" ≡ false
    → ((u : Trace) (q : WorkloadQuery) (next : String)
        → (page : Page (Option Workload)) × (env.list_workloads u q next ≡ ok page)
          × (is_useful page ≡ true))
    → (ws : List Workload) × ((list_workloads_by_agent_instance
          (suc limit)
          id
          statuses
          limit
          env
          t).0
        ≡ ok ws)
unfolding list_workloads_by_agent_instance
listing_ends limit id statuses env t h k useful =
    let (ws, found) = list_loop-ends limit id statuses limit "" [] env t h (omega arith) useful in
    (ws, rw (k, list_workloads_by_agent_instance) found)
