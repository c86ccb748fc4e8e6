-- ===== src/ZitiManager/Lease.antt =====
-- When the identity is taken to be lost, and how often its lease is asked for.
use agents_orchestrator.Prelude.{
  ℕ, zero, suc, ◌+◌, ◌≤◌, String, ◌≡◌, inl, inr, Bool, true, false, List, [], ◌∷◌, arith, count,
  length, is_some, if◌then◌else◌, Bool-cases,
}
use agents_orchestrator.Errors.{Error, is_not_found, Result-cases}
use agents_orchestrator.ZitiManager.{
  Step, History, World, Manager, is_retryable, extend_loop, extend_lease_with_retry,
  lease_retry_backoff, signal_identity_lost, renew, run_lease_renewal, ends,
}

-- A request to extend the lease, and one that was answered NOT_FOUND.
abbrev pub asks_lease : Step → Bool
asks_lease (Step.extended r) = true
asks_lease _ = false

abbrev pub is_gone : Step → Bool
is_gone (Step.extended r) = ends r
is_gone _ = false

abbrev one_if : Bool → ℕ
one_if b = if b then 1 else 0

retryable-present : (e : Error) → is_retryable e ≡ true → is_not_found e ≡ false
retryable-present e h = ground (arith, h)

module _ (w : World) (id : String) where
  extend_loop-gone :
      (ds : List ℕ) (h : History)
      → count is_gone (extend_loop w id ds h).1
        ≡ one_if (ends (extend_loop w id ds h).0) + count is_gone h
  unfolding extend_loop
  extend_loop-gone [] h = ground arith
  extend_loop-gone (d ∷ ds) h =
      let r = w.extend h id in
      let rest = extend_loop-gone ds (Step.waited d ∷ Step.extended r ∷ h) in
      elim (Result-cases r) [
        | inl (done, g) ↦ ground (arith, g)
        | inr (e, g) ↦ ground (arith, g, rest, retryable-present e)
      ]

  extend_loop-asks :
      (ds : List ℕ) (h : History)
      → count asks_lease (extend_loop w id ds h).1 ≤ suc (length ds) + count asks_lease h
  unfolding extend_loop
  extend_loop-asks [] h = ground arith
  extend_loop-asks (d ∷ ds) h =
      let r = w.extend h id in
      let rest = extend_loop-asks ds (Step.waited d ∷ Step.extended r ∷ h) in
      elim (Result-cases r) [
        | inl (done, g) ↦ ground (arith, g)
        | inr (e, g) ↦ ground (arith, g, rest)
      ]

module _ (w : World) where
  extend-gone :
      (id : String) (h : History)
      → count is_gone (extend_lease_with_retry w id h).1
        ≡ one_if (ends (extend_lease_with_retry w id h).0) + count is_gone h
  unfolding extend_lease_with_retry
  extend-gone id h = ground (arith, extend_loop-gone w id lease_retry_backoff h)

  -- An extension of the lease is asked for at most four times in a row, whatever is answered.
  pub lease_asked_at_most_four_times :
      (id : String) (h : History)
      → count asks_lease (extend_lease_with_retry w id h).1 ≤ 4 + count asks_lease h
  unfolding extend_lease_with_retry
  lease_asked_at_most_four_times id h = ground (arith, extend_loop-asks w id lease_retry_backoff h)

  -- What one tick does to a manager that has not lost its identity.
  renew-gone :
      (m : Manager) (h : History)
      → is_some m.lost ≡ false
      → let o = renew w m h in
        (one_if (is_some o.1.lost) + count is_gone h ≤ count is_gone o.2)
        × (count is_gone o.2 ≤ 1 + count is_gone h)
        × (o.0 ≡ true → (is_some o.1.lost ≡ false) × (count is_gone o.2 ≡ count is_gone h))
  unfolding renew signal_identity_lost
  renew-gone m h kept =
      let gone = extend-gone m.identity_id h in
      elim (Bool-cases (w.is_done h)) [
        | inl k ↦ ground (arith, k, kept)
        | inr k ↦ elim (Result-cases (extend_lease_with_retry w m.identity_id h).0) [
          | inl (done, g) ↦ ground (arith, k, g, gone, kept)
          | inr (e, g) ↦ ground (arith, k, g, gone, kept)
        ]
      ]

  -- A renewal loop of a manager that has not lost its identity hears at most one answer that the
  -- identity is not there, and takes it to be lost only if it has heard that one.
  pub lost_only_if_gone :
      (ticks : ℕ) (m : Manager) (h : History)
      → is_some m.lost ≡ false
      → let o = run_lease_renewal w ticks m h in
        ((if is_some o.0.lost then 1 else 0) + count is_gone h ≤ count is_gone o.1)
        × (count is_gone o.1 ≤ 1 + count is_gone h)
  unfolding run_lease_renewal
  lost_only_if_gone zero m h kept = ground (arith, kept)
  lost_only_if_gone (suc ticks) m h kept =
      let one = renew-gone m h kept in
      let o = renew w m h in
      elim (Bool-cases o.0) [
        | inr k ↦ rw (k, run_lease_renewal) (one.0, one.1)
        | inl k ↦
            let (still, same) = one.2 k in
            let rest = lost_only_if_gone ticks o.1 o.2 still in
            rw (k, run_lease_renewal) (omega (arith, rest.0, same), omega (arith, rest.1, same))
      ]
