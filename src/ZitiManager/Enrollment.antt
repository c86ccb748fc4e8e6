-- ===== src/ZitiManager/Enrollment.antt =====
-- The waits between the attempts of an enrollment.
use agents_orchestrator.Prelude.{
  ℕ, zero, suc, ◌*◌, ◌^◌, ◌≡◌, refl, ap, ◌∙◌, inl, inr, Bool, true, ◌&&◌, [], ◌∷◌, arith, nat_eq,
  min, second,
}
use native.Mathlib.Nat.{pow-suc}
use agents_orchestrator.Errors.{Result-cases}
use agents_orchestrator.ZitiManager.{
  Step, History, World, doubled, retry_with_backoff, retry_max_backoff, retry_initial_backoff,
  enroll,
}

-- How many waits there were.
abbrev pub waits : History → ℕ
waits [] = 0
waits (Step.waited d ∷ h) = suc (waits h)
waits (_ ∷ h) = waits h

-- The pause after as many others: it doubles from a second on, up to fifteen.
abbrev pub pause_after : ℕ → ℕ
pause_after n = min (2 ^ n * second) (15 * second)

-- Each wait has the length that its place among them asks for.
abbrev pub is_paced : History → Bool
is_paced [] = true
is_paced (Step.waited d ∷ h) = nat_eq d (pause_after (waits h)) && is_paced h
is_paced (_ ∷ h) = is_paced h

doubled-next : (n : ℕ) → doubled (pause_after n) ≡ pause_after (suc n)
doubled-next n = rw (pow-suc 2 n) (omega arith)

pause-bounded : (n : ℕ) → min (pause_after n) retry_max_backoff ≡ pause_after n
pause-bounded n = omega arith

nat_eq_refl : (n : ℕ) → nat_eq n n ≡ true
nat_eq_refl n = ground arith

module _ (w : World) where
  retry-paced :
      (fuel backoff : ℕ) (h : History)
      → backoff ≡ pause_after (waits h)
      → is_paced h ≡ true
      → is_paced (retry_with_backoff w fuel backoff h).1 ≡ true
  unfolding retry_with_backoff
  retry-paced zero backoff h at_pace paced = paced
  retry-paced (suc fuel) backoff h at_pace paced =
      let r = w.request h in
      let called = Step.requested r ∷ h in
      let delay = min backoff retry_max_backoff in
      let n = waits h in
      let fits : delay ≡ pause_after n =
        ap (λ b. min b retry_max_backoff) at_pace ∙ pause-bounded n in
      let waited : is_paced (Step.waited delay ∷ called) ≡ true =
        ground
          (arith, paced, ap (λ d. nat_eq d (pause_after n)) fits ∙ nat_eq_refl (pause_after n)) in
      let rest =
        retry-paced fuel (doubled backoff) (Step.waited delay ∷ called)
          (ap doubled at_pace ∙ doubled-next n) waited in
      elim (Result-cases r) [
        | inl (i, g) ↦ rw (g, retry_with_backoff) paced
        | inr (e, g) ↦ ground (arith, g, paced, waited, rest)
      ]

  -- However long an enrollment takes, its pauses start at a second, double, and stay at fifteen
  -- seconds once they would be longer.
  pub enrollment_keeps_pace : (fuel : ℕ) → is_paced (enroll w fuel []).1 ≡ true
  unfolding enroll
  enrollment_keeps_pace fuel = retry-paced fuel retry_initial_backoff [] refl refl
