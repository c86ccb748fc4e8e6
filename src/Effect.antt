-- ===== src/Effect.antt =====
-- Code that makes requests and may return an error. The trace goes on across an error: what was
-- requested before a failure stays requested.
pub mod Without
use agents_orchestrator.Prelude.{List, [], ◌∷◌, Bool, if◌then◌else◌}
use agents_orchestrator.Errors.{Error, Result, ok, err}
use agents_orchestrator.Platform.Messages.{Event, Trace, Env}

abbrev pub Eff {ℓ} : Type ℓ → Type ℓ
Eff A = Env → Trace → Result A × Trace

module _ {ℓ} {A : Type ℓ} where
  abbrev pub pure : A → Eff A
  pure a env tr = (ok a, tr)

  abbrev pub fail : Error → Eff A
  fail e env tr = (err e, tr)

  abbrev pub lift : Result A → Eff A
  lift r env tr = (r, tr)

  abbrev pub asks : (Env → A) → Eff A
  asks f env tr = (ok (f env), tr)

  -- What the environment has to say at this point of the run.
  abbrev pub observes : (Env → Trace → A) → Eff A
  observes f env tr = (ok (f env tr), tr)

  -- The error as a value: `if err != nil { … }`.
  abbrev pub attempt : Eff A → Eff (Result A)
  attempt m env tr = let (r, tr') = m env tr in (ok r, tr')

  -- The error is logged and dropped.
  abbrev pub ignore : Eff A → Eff (Unit {ℓ})
  ignore m env tr = let (r, tr') = m env tr in (ok tt, tr')

module _ {ℓ κ} {A : Type ℓ} {B : Type κ} where
  abbrev pub continue : Result A → (A → Eff B) → Eff B
  continue (ok a) f env tr = f a env tr
  continue (err e) f env tr = (err e, tr)

  infixl 5 ◌>>=◌ ◌>>◌
  abbrev pub ◌>>=◌ : Eff A → (A → Eff B) → Eff B
  ◌>>=◌ m f env tr = let (r, tr') = m env tr in continue r f env tr'

  abbrev pub ◌>>◌ : Eff A → Eff B → Eff B
  m >> n = m >>= λ _. n

abbrev pub when : Bool → Eff (Unit {0}) → Eff (Unit {0})
when b m = if b then m else pure tt

-- A `for range` whose body may return an error, which ends it.
unfoldable pub each {ℓ} : {A : Type ℓ} → (A → Eff (Unit {0})) → List A → Eff (Unit {0})
each f [] = pure tt
each f (x ∷ xs) = let rest = each f xs in f x >> rest
