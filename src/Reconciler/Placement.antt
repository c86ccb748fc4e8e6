-- ===== src/Reconciler/Placement.antt =====
-- runner_pinning.go and runners.go: the runner that an instance's volumes pin it to, and the choice
-- of one. `fuel` bounds the pages of a listing.
pub mod Pin
use agents_orchestrator.Prelude.{
  ℕ, zero, suc, String, Bool, true, false, ◌||◌, Option, none, some, List, [], ◌∷◌, ◌++◌,
  if◌then◌else◌, ◌==◌,
}
use agents_orchestrator.Errors.{Error, Result, ok, err, fault, is_not_found}
use agents_orchestrator.Api.{Meta, Volume, Runner, meta_id, is_enrolled}
use agents_orchestrator.Platform
use agents_orchestrator.Platform.{Page, Assembled}
use agents_orchestrator.Effect.{
  Eff, pure, fail, lift, asks, observes, attempt, continue, ◌>>=◌, ◌>>◌,
}
use agents_orchestrator.Reconciler.Records.{is_pinned_volume_status}
use agents_orchestrator.RunnerSelect.{select}

pin_one : String → Volume → Result String
pin_one runner_id v =
    if meta_id v.meta == ""
    then err (fault "volume meta missing")
    else if is_pinned_volume_status v.status
    then (if v.runner_id == ""
        then err (fault "volume %s missing runner id")
        else if runner_id == ""
        then ok v.runner_id
        else if runner_id == v.runner_id
        then ok runner_id
        else err (fault "agent instance %s volumes span runners %s and %s"))
    else ok runner_id

-- The loop over one page.
unfoldable pub pin_page : String → List (Option Volume) → Result String
unfolding pin_one
pin_page runner_id [] = ok runner_id
pin_page runner_id (none ∷ vs) = err (fault "volume is nil")
pin_page runner_id (some v ∷ vs) = elim (pin_one runner_id v) [
  | err e ↦ err e
  | ok next ↦ pin_page next vs
]

unfoldable pub pin_loop : ℕ → String → String → String → Eff String
unfolding pin_page
pin_loop zero id token runner_id = fail (fault "context deadline exceeded")
pin_loop (suc fuel) id token runner_id = do
  page ← Platform.list_instance_volumes id token
  pinned ← lift (pin_page runner_id page.items)
  if page.next == "" then pure pinned else pin_loop fuel id page.next pinned

-- pinnedRunnerForAgentInstance
unfoldable pub pinned_runner_for_agent_instance : ℕ → String → Eff String
unfolding pin_loop
pinned_runner_for_agent_instance fuel id =
    if id == "" then fail (fault "agent instance id missing") else pin_loop fuel id "" ""

unfoldable pub got_runner : Result (Option Runner) → Eff (Option (Runner × Bool))
got_runner (err e) = if is_not_found e then pure none else fail e
got_runner (ok none) = fail (fault "runner %s missing")
got_runner (ok (some r)) =
    if meta_id r.meta == ""
    then fail (fault "runner %s missing meta")
    else pure (some (r, is_enrolled r.status))

-- getRunnerIfEnrolled: no runner is `nil, false, nil`.
unfoldable pub get_runner_if_enrolled : String → Eff (Option (Runner × Bool))
unfolding got_runner
get_runner_if_enrolled runner_id =
    if runner_id == ""
    then fail (fault "runner id missing")
    else do r ← attempt (Platform.get_runner runner_id); got_runner r

unfoldable pub runner_pages :
    ℕ → String → String → List (Option Runner) → Eff (List (Option Runner))
runner_pages zero organization_id token acc = fail (fault "context deadline exceeded")
runner_pages (suc fuel) organization_id token acc = do
  page ← Platform.list_runners organization_id token
  if page.next == ""
      then pure (acc ++ page.items)
      else runner_pages fuel organization_id page.next (acc ++ page.items)

-- listRunners
unfoldable pub list_runners : ℕ → String → Eff (List (Option Runner))
unfolding runner_pages
list_runners fuel organization_id =
    if organization_id == ""
    then fail (fault "organization id missing")
    else runner_pages fuel organization_id "" []

-- selectRunner
unfoldable pub select_runner : ℕ → String → List (String × String) → List String → Eff Runner
unfolding list_runners
select_runner fuel organization_id labels capabilities = do
  runners ← list_runners fuel organization_id
  random ← observes (λ env tr. env.random_index tr)
  lift (select random runners organization_id labels capabilities)

-- The three ways in which startWorkload finds its runner: the pin, the environment's runner, a
-- choice. `not_enrolled` says that a pinned runner is gone.
pub data Placed : Type 0 where
  on : Runner → Placed
  pin_not_enrolled : Placed

unfoldable pub place_pinned : Option (Runner × Bool) → Eff Placed
place_pinned none = pure pin_not_enrolled
place_pinned (some (r, true)) = pure (on r)
place_pinned (some (r, false)) = pure pin_not_enrolled

unfoldable pub place_named : Option (Runner × Bool) → Eff Placed
place_named none = fail (fault "environment runner %s is not enrolled")
place_named (some (r, true)) = pure (on r)
place_named (some (r, false)) = fail (fault "environment runner %s is not enrolled")

unfoldable pub place : ℕ → String → Assembled → Eff Placed
unfolding place_pinned place_named get_runner_if_enrolled select_runner
place fuel pinned a =
    if pinned == ""
    then (if a.runner_id == ""
        then (do
          r ← select_runner fuel a.organization_id a.runner_labels a.request.capabilities
          pure (on r))
        else (do found ← get_runner_if_enrolled a.runner_id; place_named found))
    else (do found ← get_runner_if_enrolled pinned; place_pinned found)
