-- ===== src/RunnerSelect/Eligible.antt =====
-- Which runner a selection comes to, and when there is one.
use agents_orchestrator.Prelude.{
  ℕ, zero, suc, ◌<◌, String, ◌≡◌, refl, ap, sym, subst, ◌⊎◌, inl, inr, Bool, true, false, Option,
  none, some, List, [], ◌∷◌, arith, length, Map, if◌then◌else◌, ◌==◌, Bool-cases, All,
}
use mathlib.Core.Option.{some-injective}
use agents_orchestrator.RunnerSelect.Fits.{Fits, Shows, is_eligible-Fits, Fits-is_eligible}
use agents_orchestrator.Errors.{Error, fault, Result, ok, err, Result-cases, ok-injective}
use agents_orchestrator.Api.{Runner, meta_id}
use agents_orchestrator.RunnerSelect.{is_eligible, eligible_runners, nth_runner, choose, select}

-- Membership.
abbrev pub In : Runner → List Runner → Type 0
In r [] = ⊥
In r (s ∷ ss) = (r ≡ s) ⊎ In r ss

abbrev pub Listed : Runner → List (Option Runner) → Type 0
Listed r [] = ⊥
Listed r (o ∷ os) = (some r ≡ o) ⊎ Listed r os

-- An entry is there and has an id.
abbrev pub Identified : Option Runner → Type 0
Identified none = ⊥
Identified (some r) = (meta_id r.meta == "") ≡ false

-- rand.Int returns a number below its bound, or an error.
abbrev pub Bounded : (ℕ → Result ℕ) → Type 0
Bounded random = (n i : ℕ) → random n ≡ ok i → i < n

err-ok : (x : Error) (r : Runner) → ◌≡◌ {A = Result Runner} (err x) (ok r) → ⊥
err-ok x r h = cc

nil_cons : (s : Runner) (ss : List Runner) → ◌≡◌ {A = List Runner} [] (s ∷ ss) → ⊥
nil_cons s ss h = cc

nth-total : (rs : List Runner) (n : ℕ) → n < length rs → (r : Runner) × (nth_runner rs n ≡ ok r)
unfolding nth_runner
nth-total [] n h = absurd (omega arith)
nth-total (s ∷ rs) zero h = (s, refl)
nth-total (s ∷ rs) (suc n) h = nth-total rs n (ground arith)

module _ (organization_id : String) (labels : Map String) (required : List String) where
  kept :
      (r s : Runner) (os : List (Option Runner)) (chosen : List Runner) (b : Bool)
      → is_eligible organization_id labels required s ≡ b
      → (In r chosen → Listed r os × (is_eligible organization_id labels required r ≡ true))
      → In r (if b then s ∷ chosen else chosen)
      → Listed r (some s ∷ os) × (is_eligible organization_id labels required r ≡ true)
  kept r s os chosen true e f (inl same) = (
    inl (ap some same),
    subst (λ x. is_eligible organization_id labels required x ≡ true) (sym same) e,
  )
  kept r s os chosen true e f (inr m) = let (p, q) = f m in (inr p, q)
  kept r s os chosen false e f m = let (p, q) = f m in (inr p, q)

  eligible-Listed :
      (os : List (Option Runner)) (rs : List Runner) (r : Runner)
      → eligible_runners organization_id labels required os ≡ ok rs
      → In r rs
      → Listed r os × (is_eligible organization_id labels required r ≡ true)
  unfolding eligible_runners
  eligible-Listed [] rs r h m = absurd (subst (In r) (sym (ok-injective h)) m)
  eligible-Listed (none ∷ os) rs r h m = cc
  eligible-Listed (some s ∷ os) rs r h m =
      from (eligible_runners organization_id labels required os)
        (λ chosen e. eligible-Listed os chosen r e) (Bool-cases (meta_id s.meta == "")) h
    where
      from :
          (o : Result (List Runner))
          → ((chosen : List Runner)
              → o ≡ ok chosen
              → In r chosen
              → Listed r os × (is_eligible organization_id labels required r ≡ true))
          → ((meta_id s.meta == "" ≡ true) ⊎ (meta_id s.meta == "" ≡ false))
          → (if meta_id s.meta == "" then err (fault "runner missing id") else elim o [
            | err e ↦ err e
            | ok chosen ↦
                ok (if is_eligible organization_id labels required s then s ∷ chosen else chosen)
          ])
            ≡ ok rs
          → Listed r (some s ∷ os) × (is_eligible organization_id labels required r ≡ true)
      from o f (inl bad) k = ground arith
      from (err e) f (inr fine) k = ground arith
      from (ok chosen) f (inr fine) k =
          kept r s os chosen (is_eligible organization_id labels required s) refl (f chosen refl)
            (subst (In r) (sym (ok-injective (rw fine at k))) m)

  nth-In : (rs : List Runner) (n : ℕ) (r : Runner) → nth_runner rs n ≡ ok r → In r rs
  unfolding nth_runner
  nth-In [] n r h = cc
  nth-In (s ∷ rs) zero r h = inl (sym (ok-injective h))
  nth-In (s ∷ rs) (suc n) r h = inr (nth-In rs n r h)

  choose-In :
      (random : ℕ → Result ℕ) (rs : List Runner) (r : Runner) → choose random rs ≡ ok r → In r rs
  unfolding choose
  choose-In random [] r h = cc
  choose-In random (s ∷ rs) r h = elim (Result-cases (random (length (s ∷ rs)))) [
    | inl (i, e) ↦ nth-In (s ∷ rs) i r (rw (e, choose) at h)
    | inr (x, e) ↦ let k = rw (e, choose) at h in cc
  ]

  -- A runner that is selected is one of the given ones, is enrolled, belongs to no organization or
  -- to the one that asks, has each required label with its value (one that is required to be empty
  -- may be absent) and each required capability.
  pub selects_eligible :
      (random : ℕ → Result ℕ) (os : List (Option Runner)) (r : Runner)
      → select random os organization_id labels required ≡ ok r
      → Listed r os × Fits organization_id labels required r
  unfolding select
  selects_eligible random [] r h = cc
  selects_eligible random (o ∷ os) r h =
      elim (Result-cases (eligible_runners organization_id labels required (o ∷ os))) [
        | inl (rs, e) ↦
            let (listed, passes) =
              eligible-Listed (o ∷ os) rs r e (choose-In random rs r (rw (e, select) at h)) in
            (listed, is_eligible-Fits organization_id labels required r passes)
        | inr (x, e) ↦ let k = rw (e, select) at h in absurd (err-ok x r k)
      ]

  scan-ok :
      (os : List (Option Runner))
      → All Identified os
      → (rs : List Runner) × (eligible_runners organization_id labels required os ≡ ok rs)
  unfolding eligible_runners
  scan-ok [] a = ([], refl)
  scan-ok (none ∷ os) a = absurd a.0
  scan-ok (some s ∷ os) a =
      let (rs, h) = scan-ok os a.1 in
      (
        if is_eligible organization_id labels required s then s ∷ rs else rs,
        rw (a.0, eligible_runners, h) refl,
      )

  scan-In :
      (os : List (Option Runner)) (r : Runner)
      → All Identified os
      → Listed r os
      → is_eligible organization_id labels required r ≡ true
      → (rs : List Runner) × (eligible_runners organization_id labels required os ≡ ok rs) × In r rs
  unfolding eligible_runners
  scan-In [] r a m e = absurd m
  scan-In (none ∷ os) r a m e = absurd a.0
  scan-In (some s ∷ os) r a (inl same) e =
      let (rs, h) = scan-ok os a.1 in
      let chosen =
        subst (λ x. is_eligible organization_id labels required x ≡ true) (some-injective _ _ same)
          e in
      (s ∷ rs, rw (a.0, eligible_runners, h, chosen) refl, inl (some-injective _ _ same))
  scan-In (some s ∷ os) r a (inr m) e =
      let (rs, h, there) = scan-In os r a.1 m e in
      elim (Bool-cases (is_eligible organization_id labels required s)) [
        | inl b ↦ (s ∷ rs, rw (a.0, eligible_runners, h, b) refl, inr there)
        | inr b ↦ (rs, rw (a.0, eligible_runners, h, b) refl, there)
      ]

  selects_from :
      (random : ℕ → Result ℕ) (os : List (Option Runner)) (s : Runner) (ss : List Runner)
      → ((n : ℕ) → (i : ℕ) × (random (suc n) ≡ ok i) × (i < suc n))
      → eligible_runners organization_id labels required os ≡ ok (s ∷ ss)
      → (r : Runner) × (select random os organization_id labels required ≡ ok r)
  unfolding select choose eligible_runners
  selects_from random [] s ss draws h = absurd (nil_cons s ss (ok-injective h))
  selects_from random (o ∷ os) s ss draws h =
      let (i, drawn, below) = draws (length ss) in
      let (r, found) = nth-total (s ∷ ss) i below in (r, rw (h, select, drawn, choose) found)

  -- If every given runner has an id, and one of them is enrolled, belongs to no organization or to
  -- the one that asks, shows each required label with its value and has each required capability,
  -- then, with a source of random numbers below their bound, a runner is selected.
  pub selects_when_eligible :
      (random : ℕ → Result ℕ) (os : List (Option Runner)) (r : Runner)
      → ((n : ℕ) → (i : ℕ) × (random (suc n) ≡ ok i) × (i < suc n))
      → All Identified os
      → Listed r os
      → Fits organization_id labels required r
      → All (Shows r.labels) labels
      → (s : Runner) × (select random os organization_id labels required ≡ ok s)
  selects_when_eligible random os r draws identified listed fits shown =
      let (rs, scanned, there) =
        scan-In os r identified listed
          (Fits-is_eligible organization_id labels required r fits shown) in
      from rs scanned there
    where
      from :
          (rs : List Runner)
          → (eligible_runners organization_id labels required os ≡ ok rs)
          → In r rs
          → (s : Runner) × (select random os organization_id labels required ≡ ok s)
      from [] e m = absurd m
      from (s ∷ ss) e m = selects_from random os s ss draws e
