-- ===== src/Reconciler/Classify/Grace.antt =====
-- What does not count against a starting workload while its grace period lasts.
use agents_orchestrator.Prelude.{
  ◌≡◌, refl, Bool, true, false, List, [], ◌∷◌, arith, Time, ltb_ℤ, time_sub,
}
use agents_orchestrator.Errors.{Result, ok}
use agents_orchestrator.Api.{Workload, Container, ContainerRole, ContainerStatus, FailureReason}
use agents_orchestrator.Reconciler.Records.{workload_created_at}
use agents_orchestrator.Reconciler.Classify.{
  Seen, Round, failed, go_on, Verdict, fails, classify_init, classify_main, classify_role,
  classify_loop, verdict_of, classify_starting_containers, start_grace_period, main_status,
  init_status,
}

abbrev is_pull : FailureReason → Bool
is_pull FailureReason.image_pull_failed = true
is_pull _ = false

abbrev pub blames_pull : Result Verdict → Bool
blames_pull (ok (fails f)) = is_pull f.reason
blames_pull _ = false

abbrev round_blames_pull : Round → Bool
round_blames_pull (failed f) = is_pull f.reason
round_blames_pull (go_on s) = false

init-pull :
    (s : ContainerStatus) (c : Container) (seen : Seen)
    → round_blames_pull (init_status s c seen) ≡ false
unfolding init_status
init-pull s c seen = ground arith

main-pull :
    (s : ContainerStatus) (c : Container) (seen : Seen)
    → round_blames_pull (main_status s false c seen) ≡ false
unfolding main_status
main-pull s c seen = ground arith

role-pull :
    (r : ContainerRole) (c : Container) (seen : Seen)
    → round_blames_pull (classify_role r false c seen) ≡ false
unfolding classify_role classify_init classify_main
role-pull ContainerRole.init c seen = ground (arith, init-pull c.status c seen)
role-pull ContainerRole.main c seen = main-pull c.status c (record seen { found_main = true })
role-pull _ c seen = refl

loop-pull : (cs : List Container) (seen : Seen) → blames_pull (classify_loop false cs seen) ≡ false
unfolding classify_loop
loop-pull [] seen = unfold verdict_of in ground arith
loop-pull (c ∷ cs) seen =
    round (classify_role c.role false c seen) (role-pull c.role c seen) (loop-pull cs)
  where
    round :
        (r : Round)
        → round_blames_pull r ≡ false
        → ((s : Seen) → blames_pull (classify_loop false cs s) ≡ false)
        → blames_pull (elim r [ failed f ↦ ok (fails f) | go_on s ↦ classify_loop false cs s ])
          ≡ false
    round (failed f) h rest = h
    round (go_on s) h rest = rest s

-- Within the grace period of its creation, a starting workload is not failed for an image that
-- cannot be pulled.
pub grace_spares_pulls :
    (cs : List Container) (w : Workload) (now t : Time)
    → workload_created_at w ≡ ok t
    → ltb_ℤ start_grace_period (time_sub now t) ≡ false
    → blames_pull (classify_starting_containers cs w now) ≡ false
unfolding classify_starting_containers
grace_spares_pulls cs w now t h k = rw (h, k) (loop-pull cs _)
