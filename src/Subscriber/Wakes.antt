-- ===== src/Subscriber/Wakes.antt =====
-- The signals of internal/subscriber/subscriber.go against what has happened.
use agents_orchestrator.Prelude.{
  String, Bool, false, ◌||◌, Option, none, some, List, [], ◌∷◌, ◌≡◌, refl, arith, Bool-cases,
  eq_iff, inl, inr, ◌==◌,
}
use agents_orchestrator.Subscriber.{Subscriber, new, signal, receive}

-- A response comes, the agents' loop takes its signal, or the sandboxes' loop takes its own.
pub data Step : Type 0 where
  response : Option String → Step
  taken sandbox_taken : Step

-- The state after these steps, of which the first is the latest.
unfoldable pub after : List Step → Subscriber
unfolding receive new
after [] = new
after (Step.response e ∷ earlier) = receive e (after earlier)
after (Step.taken ∷ earlier) = record (after earlier) { wake = false }
after (Step.sandbox_taken ∷ earlier) = record (after earlier) { sandbox_wake = false }

unfoldable pub wakes_agents : Option String → Bool
wakes_agents none = false
wakes_agents (some e) =
    e == "message.created" || (e == "instance.updated" || e == "workload.status_changed")

unfoldable pub wakes_sandboxes : Option String → Bool
wakes_sandboxes none = false
wakes_sandboxes (some e) = e == "sandbox.updated" || e == "workload.status_changed"

-- An event for the loop has come since the loop last took its signal.
unfoldable pub agents_due : List Step → Bool
unfolding wakes_agents
agents_due [] = false
agents_due (Step.response e ∷ earlier) = wakes_agents e || agents_due earlier
agents_due (Step.taken ∷ earlier) = false
agents_due (Step.sandbox_taken ∷ earlier) = agents_due earlier

unfoldable pub sandboxes_due : List Step → Bool
unfolding wakes_sandboxes
sandboxes_due [] = false
sandboxes_due (Step.response e ∷ earlier) = wakes_sandboxes e || sandboxes_due earlier
sandboxes_due (Step.taken ∷ earlier) = sandboxes_due earlier
sandboxes_due (Step.sandbox_taken ∷ earlier) = false

receive-wake :
    (e : Option String) (s : Subscriber) → (receive e s).wake ≡ (wakes_agents e || s.wake)
unfolding receive signal wakes_agents
receive-wake none s = refl
receive-wake (some e) s = elim (Bool-cases (e == "workload.status_changed")) [
  | inl h ↦ rw ((eq_iff e "workload.status_changed").0 h) refl
  | inr h ↦ elim (Bool-cases (e == "sandbox.updated")) [
    | inl k ↦ rw ((eq_iff e "sandbox.updated").0 k) refl
    | inr k ↦ ground arith
  ]
]

receive-sandbox_wake :
    (e : Option String) (s : Subscriber)
    → (receive e s).sandbox_wake ≡ (wakes_sandboxes e || s.sandbox_wake)
unfolding receive signal wakes_sandboxes
receive-sandbox_wake none s = refl
receive-sandbox_wake (some e) s = elim (Bool-cases (e == "workload.status_changed")) [
  | inl h ↦ rw ((eq_iff e "workload.status_changed").0 h) refl
  | inr h ↦ elim (Bool-cases (e == "sandbox.updated")) [
    | inl k ↦ rw ((eq_iff e "sandbox.updated").0 k) refl
    | inr k ↦ ground arith
  ]
]

wake-due : (steps : List Step) → (after steps).wake ≡ agents_due steps
unfolding after agents_due new
wake-due [] = refl
wake-due (Step.response e ∷ earlier) = rw (receive-wake e (after earlier), wake-due earlier) refl
wake-due (Step.taken ∷ earlier) = refl
wake-due (Step.sandbox_taken ∷ earlier) = wake-due earlier

sandbox_wake-due : (steps : List Step) → (after steps).sandbox_wake ≡ sandboxes_due steps
unfolding after sandboxes_due new
sandbox_wake-due [] = refl
sandbox_wake-due (Step.response e ∷ earlier) =
    rw (receive-sandbox_wake e (after earlier), sandbox_wake-due earlier) refl
sandbox_wake-due (Step.taken ∷ earlier) = sandbox_wake-due earlier
sandbox_wake-due (Step.sandbox_taken ∷ earlier) = refl

-- In whatever order events come and the two loops take their signals: the signal of a loop is set
-- exactly when an event for it has come since the loop last took the signal, so that no event is
-- missed and no loop is woken without one.
pub signals_exactly_when_due :
    (steps : List Step)
    → ((after steps).wake ≡ agents_due steps) × ((after steps).sandbox_wake ≡ sandboxes_due steps)
signals_exactly_when_due steps = (wake-due steps, sandbox_wake-due steps)
