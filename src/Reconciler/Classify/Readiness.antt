-- ===== src/Reconciler/Classify/Readiness.antt =====
-- When the classifying loops call a workload ready, or failed.
use agents_orchestrator.Prelude.{
  ◌≡◌, refl, ◌∙◌, inl, inr, Bool, true, false, Bool-cases, not, ◌&&◌, ◌||◌, List, [], ◌∷◌, arith,
  any, Time, ltb_ℤ, time_sub,
}
use agents_orchestrator.Errors.{Result, ok}
use agents_orchestrator.Api.{Workload, Container, ContainerRole, ContainerStatus}
use agents_orchestrator.Reconciler.Records.{workload_created_at}
use agents_orchestrator.Reconciler.Classify.{
  Seen, Round, failed, go_on, Verdict, fails, ready, is_main, is_zero, exit_code_of,
  is_config_invalid_failure, is_image_pull_failure, classify_init, classify_main, classify_role,
  classify_loop, verdict_of, classify_starting_containers, start_grace_period, main_status,
  init_status,
}

-- An init container that does not hold the workload back.
abbrev pub init_done : Bool → Container → ContainerStatus → Bool
init_done past_grace c ContainerStatus.running =
    not (is_config_invalid_failure c) && not (is_image_pull_failure c && past_grace)
init_done past_grace c ContainerStatus.terminated =
    not (is_config_invalid_failure c)
    && (not (is_image_pull_failure c && past_grace) && is_zero (exit_code_of c.exit_code))
init_done past_grace c _ = false

abbrev pub is_running : ContainerStatus → Bool
is_running ContainerStatus.running = true
is_running _ = false

abbrev pub settled_as : ContainerRole → Bool → Container → Bool
settled_as ContainerRole.main past_grace c = is_running c.status
settled_as ContainerRole.init past_grace c = init_done past_grace c c.status
settled_as _ past_grace c = true

-- A main container runs, an init container runs or has exited with 0; others do not matter.
abbrev pub settled : Bool → Container → Bool
settled past_grace c = settled_as c.role past_grace c

abbrev pub all {ℓ} : {A : Type ℓ} → (A → Bool) → List A → Bool
all p [] = true
all p (x ∷ xs) = p x && all p xs

abbrev pub plays_main : Container → Bool
plays_main c = is_main c.role

-- What one round leaves: a failure only for a container that is not settled, else the locals.
abbrev Steps : Bool → Bool → Seen → Round → Type 0
Steps main done seen (failed f) = done ≡ false
Steps main done seen (go_on seen') =
    (seen'.found_main ≡ (main || seen.found_main))
    × ((not seen'.init_blocked && seen'.main_running)
        ≡ (done && (not seen.init_blocked && seen.main_running)))

init_status-Steps :
    (s : ContainerStatus) (past_grace : Bool) (c : Container) (seen : Seen)
    → is_config_invalid_failure c ≡ false
    → (is_image_pull_failure c && past_grace) ≡ false
    → Steps false (init_done past_grace c s) seen (init_status s c seen)
unfolding init_status
init_status-Steps ContainerStatus.waiting p c seen h k = ground arith
init_status-Steps ContainerStatus.terminated p c seen h k = ground arith
init_status-Steps ContainerStatus.running p c seen h k = ground arith
init_status-Steps _ p c seen h k = ground arith

main_status-Steps :
    (s : ContainerStatus) (past_grace : Bool) (c : Container) (seen : Seen)
    → Steps true
        (is_running s)
        seen
        (main_status s past_grace c (record seen { found_main = true }))
unfolding main_status
main_status-Steps ContainerStatus.waiting p c seen = ground arith
main_status-Steps ContainerStatus.terminated p c seen = ground arith
main_status-Steps ContainerStatus.running p c seen = ground arith
main_status-Steps _ p c seen = ground arith

classify_init-Steps :
    (past_grace : Bool) (c : Container) (seen : Seen)
    → Steps false (init_done past_grace c c.status) seen (classify_init past_grace c seen)
unfolding classify_init
classify_init-Steps p c seen = elim (Bool-cases (is_config_invalid_failure c)) [
  | inl bad ↦ rw (bad, classify_init) (undone p c bad c.status)
  | inr fine ↦ elim (Bool-cases (is_image_pull_failure c && p)) [
    | inl stuck ↦ rw (fine, classify_init, stuck) (unpulled p c stuck c.status)
    | inr pulled ↦
        rw (fine, classify_init, pulled) (init_status-Steps c.status p c seen fine pulled)
  ]
]
  where
    undone :
        (p : Bool) (c : Container)
        → is_config_invalid_failure c ≡ true
        → (s : ContainerStatus) → init_done p c s ≡ false
    undone p c h ContainerStatus.running = ground arith
    undone p c h ContainerStatus.terminated = ground arith
    undone p c h _ = refl

    unpulled :
        (p : Bool) (c : Container)
        → (is_image_pull_failure c && p) ≡ true
        → (s : ContainerStatus) → init_done p c s ≡ false
    unpulled p c h ContainerStatus.running = ground arith
    unpulled p c h ContainerStatus.terminated = ground arith
    unpulled p c h _ = refl

classify_role-Steps :
    (r : ContainerRole) (past_grace : Bool) (c : Container) (seen : Seen)
    → Steps (is_main r) (settled_as r past_grace c) seen (classify_role r past_grace c seen)
unfolding classify_role classify_main
classify_role-Steps ContainerRole.init p c seen = classify_init-Steps p c seen
classify_role-Steps ContainerRole.main p c seen = main_status-Steps c.status p c seen
classify_role-Steps _ p c seen = (refl, refl)

abbrev pub is_ready : Result Verdict → Bool
is_ready (ok ready) = true
is_ready _ = false

loop-is_ready :
    (past_grace : Bool) (cs : List Container) (seen : Seen)
    → is_ready (classify_loop past_grace cs seen) ≡ (
        (any plays_main cs || seen.found_main)
        && (all (settled past_grace) cs && (not seen.init_blocked && seen.main_running)))
unfolding classify_loop
loop-is_ready p [] seen = unfold verdict_of in ground arith
loop-is_ready p (c ∷ cs) seen =
    round (classify_role c.role p c seen) (classify_role-Steps c.role p c seen)
      (λ s. loop-is_ready p cs s)
  where
    round :
        (r : Round)
        → Steps (is_main c.role) (settled p c) seen r
        → ((s : Seen)
            → is_ready (classify_loop p cs s) ≡ (
                (any plays_main cs || s.found_main)
                && (all (settled p) cs && (not s.init_blocked && s.main_running))))
        → is_ready (elim r [ failed f ↦ ok (fails f) | go_on s ↦ classify_loop p cs s ]) ≡ (
            (any plays_main (c ∷ cs) || seen.found_main)
            && (all (settled p) (c ∷ cs) && (not seen.init_blocked && seen.main_running)))
    round (failed f) step rest = ground arith
    round (go_on s) step rest = ground (arith, rest s)

abbrev pub past_grace_at : Time → Time → Bool
past_grace_at now created_at = ltb_ℤ start_grace_period (time_sub now created_at)

-- A starting workload with a creation time is called ready exactly when it has a main container,
-- all its main containers run, and each of its init containers runs or has exited with 0 and shows
-- no configuration error and, past the grace period, no failure to pull its image.
pub ready_exactly_when_settled :
    (cs : List Container) (w : Workload) (now t : Time)
    → workload_created_at w ≡ ok t
    → is_ready (classify_starting_containers cs w now)
      ≡ (any plays_main cs && all (settled (past_grace_at now t)) cs)
unfolding classify_starting_containers
ready_exactly_when_settled cs w now t h = rw h (
    loop-is_ready (past_grace_at now t) cs
      (record { main_running = true; found_main = false; init_blocked = false })
    ∙ ground arith)
