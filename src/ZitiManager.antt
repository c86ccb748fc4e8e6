-- ===== src/ZitiManager.antt =====
-- internal/zitimanager/manager.go: the orchestrator's own OpenZiti identity, its enrollment and the
-- renewal of its lease. What the management service answers, whether the context is done, and
-- whether a wait is cut short is up to `World`, in view of what happened before.
pub mod Lease
pub mod Enrollment
use agents_orchestrator.Prelude.{
  ℕ, zero, suc, ◌*◌, String, Bool, true, false, not, Option, none, some, List, [], ◌∷◌, min, ltb,
  second, if◌then◌else◌, ◌==◌,
}
use agents_orchestrator.Errors.{Code, Error, Result, ok, err, fault, is_not_found}

-- ziti_management.v1.RequestServiceIdentityResponse
pub record ServiceIdentity : Type 0 where
  pub ziti_identity_id : String
  pub identity_json : String

-- What the manager does, newest first.
pub data Step : Type 0 where
  extended : Result (Unit {0}) → Step
  requested : Result ServiceIdentity → Step
  waited : ℕ → Step

abbrev pub History : Type 0
History = List Step

-- The errors of a gRPC client are statuses. `loaded` is json.Unmarshal, ziti.NewContext and the
-- configuration of the context.
pub record World : Type 0 where
  pub is_done : History → Bool
  pub cuts : History → ℕ → Bool
  pub extend : History → String → Result (Unit {0})
  pub request : History → Result ServiceIdentity
  pub loaded : String → Result (Unit {0})

-- ctx.Err()
abbrev pub context_error : Error
context_error = fault "context canceled"

-- isRetryableGrpcError
abbrev pub is_retryable : Error → Bool
is_retryable e = elim e.code [ Code.unavailable ↦ true | Code.unknown ↦ true | _ ↦ false ]

-- leaseRetryBackoff
abbrev pub lease_retry_backoff : List ℕ
lease_retry_backoff = 1 * second ∷ 2 * second ∷ 4 * second ∷ []

-- What one attempt of a retried call comes to: an end, or another attempt after a wait.
pub data Verdict {ℓ} (A : Type ℓ) : Type ℓ where
  done : Result A → Verdict A
  again : Error → Verdict A

abbrev pub verdict {ℓ} : {A : Type ℓ} → Result A → Verdict A
verdict (ok a) = done (ok a)
verdict (err e) = if is_retryable e then again e else done (err e)

module _ (w : World) where
  -- The loop of extendLeaseWithRetry, with the waits that are left.
  unfoldable pub extend_loop : String → List ℕ → History → Result (Unit {0}) × History
  extend_loop id [] h =
      let r = w.extend h id in
      if w.is_done h then (err context_error, h) else (r, Step.extended r ∷ h)
  extend_loop id (d ∷ ds) h =
      let r = w.extend h id in
      let called = Step.extended r ∷ h in
      let next = extend_loop id ds (Step.waited d ∷ called) in
      if w.is_done h then (err context_error, h) else elim (verdict r) [
        | Verdict.done o ↦ (o, called)
        | Verdict.again e ↦
            if w.cuts called d then (err context_error, Step.waited d ∷ called) else next
      ]

  -- extendLeaseWithRetry
  unfoldable pub extend_lease_with_retry : String → History → Result (Unit {0}) × History
  unfolding extend_loop
  extend_lease_with_retry id h =
      if id == ""
      then (err (fault "ziti identity id missing"), h)
      else extend_loop id lease_retry_backoff h

-- ZitiManager, whose lostOnce and lostCh are the error that was signalled.
pub record Manager : Type 0 where
  pub identity_id : String
  pub lost : Option Error

abbrev first_of : Option Error → Error → Option Error
first_of none e = some e
first_of (some e) _ = some e

-- signalIdentityLost
unfoldable pub signal_identity_lost : Error → Manager → Manager
signal_identity_lost e m = record m { lost = first_of m.lost e }

abbrev identity_lost : Error
identity_lost = fault "%w: identity %s no longer exists"

-- What both callers make of the lease's extension.
abbrev pub noted : Result (Unit {0}) → Manager → Manager
noted (ok _) m = m
noted (err e) m = if is_not_found e then signal_identity_lost identity_lost m else m

abbrev ends : Result (Unit {0}) → Bool
ends (ok _) = false
ends (err e) = is_not_found e

module _ (w : World) where
  -- NotifyAuthFailure
  unfoldable pub notify_auth_failure : Manager → History → Manager × History
  unfolding extend_lease_with_retry signal_identity_lost
  notify_auth_failure m h =
      let (r, h') = extend_lease_with_retry w m.identity_id h in (noted r m, h')

  -- One tick of RunLeaseRenewal, and whether the loop goes on.
  unfoldable pub renew : Manager → History → Bool × Manager × History
  unfolding extend_lease_with_retry signal_identity_lost
  renew m h =
      let (r, h') = extend_lease_with_retry w m.identity_id h in
      if w.is_done h then (false, m, h) else elim r [
        | ok _ ↦ (true, m, h')
        | err e ↦
            if w.is_done h' then (false, m, h') else (not (is_not_found e), noted (err e) m, h')
      ]

  -- RunLeaseRenewal over a number of ticks
  unfoldable pub run_lease_renewal : ℕ → Manager → History → Manager × History
  unfolding renew
  run_lease_renewal zero m h = (m, h)
  run_lease_renewal (suc ticks) m h =
      let (on, m', h') = renew m h in
      let rest = run_lease_renewal ticks m' h' in if on then rest else (m', h')

abbrev pub retry_initial_backoff : ℕ
retry_initial_backoff = 1 * second

abbrev pub retry_max_backoff : ℕ
retry_max_backoff = 15 * second

-- `backoff *= 2`, bounded
abbrev pub doubled : ℕ → ℕ
doubled backoff = min (backoff * 2) retry_max_backoff

module _ (w : World) where
  -- retryWithBackoff around the request of enroll; `fuel` bounds its attempts.
  unfoldable pub retry_with_backoff : ℕ → ℕ → History → Result ServiceIdentity × History
  retry_with_backoff zero backoff h = (err context_error, h)
  retry_with_backoff (suc fuel) backoff h =
      let r = w.request h in
      let called = Step.requested r ∷ h in
      let delay = min backoff retry_max_backoff in
      let next = retry_with_backoff fuel (doubled backoff) (Step.waited delay ∷ called) in
      elim r [
        | ok i ↦ (ok i, called)
        | err e ↦
            if w.is_done called
            then (err context_error, called)
            else if not (is_retryable e)
            then (err e, called)
            else if w.cuts called delay
            then (err context_error, Step.waited delay ∷ called)
            else next
      ]

  checked : ServiceIdentity → Result String
  checked i =
      if i.ziti_identity_id == ""
      then err (fault "request ziti service identity: missing identity id")
      else if i.identity_json == ""
      then err (fault "request ziti service identity: missing identity json")
      else elim (w.loaded i.identity_json) [ err e ↦ err e | ok _ ↦ ok i.ziti_identity_id ]

  -- enroll
  unfoldable pub enroll : ℕ → History → Result String × History
  unfolding retry_with_backoff checked
  enroll fuel h =
      let (r, h') = retry_with_backoff fuel retry_initial_backoff h in
      (elim r as (λ _. Result String) [ err e ↦ err e | ok i ↦ checked i ], h')

  opened : Result String → Result Manager
  opened (err e) = err e
  opened (ok id) = ok (record { identity_id = id; lost = none })

  -- New, with a client and positive times
  unfoldable pub new : ℕ → History → Result Manager × History
  unfolding enroll opened
  new fuel h = let (r, h') = enroll fuel h in (opened r, h')
