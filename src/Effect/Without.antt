-- ===== src/Effect/Without.antt =====
-- Code that makes no request of some kind, and the combinators that keep this.
use agents_orchestrator.Prelude.{
  ℕ, ◌≡◌, refl, ◌∙◌, Bool, true, false, if◌then◌else◌, List, [], ◌∷◌, count,
}
use agents_orchestrator.Errors.{Result, ok, err}
use agents_orchestrator.Effect.{Eff, continue, ◌>>=◌, each}
use agents_orchestrator.Platform.Messages.{Event, Trace, Env}

-- None of the requests that `m` makes passes the test.
abbrev pub Without {ℓ} : (Event → Bool) → {A : Type ℓ} → Eff A → Type 0
Without p m = (env : Env) (tr : Trace) → count p (m env tr).1 ≡ count p tr

module _ {ℓ κ} {A : Type ℓ} {B : Type κ} (p : Event → Bool) where
  after_bind :
      (env : Env) (n : ℕ) (f : A → Eff B) (o : Result A × Trace)
      → ((a : A) → Without p (f a))
      → count p o.1 ≡ n
      → count p (continue o.0 f env o.1).1 ≡ n
  after_bind env n f (ok a, t) hf h = hf a env t ∙ h
  after_bind env n f (err e, t) hf h = h

  pub bind-Without :
      (m : Eff A) (f : A → Eff B) → Without p m → ((a : A) → Without p (f a)) → Without p (m >>= f)
  bind-Without m f hm hf env t = after_bind env (count p t) f (m env t) hf (hm env t)

pub if-Without {ℓ} :
    {A : Type ℓ} (p : Event → Bool) (b : Bool) (m n : Eff A)
    → Without p m
    → Without p n
    → Without p (if b then m else n)
if-Without p true m n hm hn = hm
if-Without p false m n hm hn = hn

pub each-Without {ℓ} :
    {A : Type ℓ} (p : Event → Bool) (f : A → Eff (Unit {0})) (xs : List A)
    → ((x : A) → Without p (f x))
    → Without p (each f xs)
unfolding each
each-Without p f [] h = λ env t. refl
each-Without p f (x ∷ xs) h =
    bind-Without p (f x) (λ _. each f xs) (h x) (λ _. each-Without p f xs h)
