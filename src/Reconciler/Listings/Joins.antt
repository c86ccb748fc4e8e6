-- ===== src/Reconciler/Listings/Joins.antt =====
-- A listing and the listing of everything at once: how the pages are cut makes no difference.
use agents_orchestrator.Prelude.{
  ℕ, zero, suc, ◌≤◌, String, ◌≡◌, refl, sym, inl, inr, false, Option, none, some, List, [], ◌∷◌,
  ◌++◌, arith, length, ◌==◌, ap, ◌∙◌,
}
use mathlib.Core.List.{append_assoc}
use agents_orchestrator.Errors.{Error, Result, ok, err, ◌>>=◌, Result-cases}
use agents_orchestrator.Api.{Workload}
use agents_orchestrator.Platform.{Env, Trace, Page, WorkloadQuery}
use agents_orchestrator.Platform
use agents_orchestrator.Effect.{Eff}
use agents_orchestrator.Reconciler.Listings.Scope.{take_each, scoped_agent_workload}
use agents_orchestrator.Reconciler.Listings.{paged, list_active_workloads}

-- The first page and the others, joined.
abbrev pub join {ℓ} : {A : Type ℓ} → List A → List (List A) → List A
join p [] = p
join p (q ∷ rest) = p ++ join q rest

-- The listing has these pages from the token on, whatever has happened before.
unfoldable pub Serves {ℓ} :
    {A : Type ℓ} → (String → Eff (Page A)) → Env → String → List A → List (List A) → Type ℓ
Serves request env token p [] =
    (t : Trace) → (request token env t).0 ≡ ok (record { items = p; next = "" })
Serves request env token p (q ∷ rest) =
    (next : String) × (next == "" ≡ false)
    × ((t : Trace) → (request token env t).0 ≡ ok (record { items = p; next = next }))
    × Serves request env next q rest

module _ {ℓ} {B : Type ℓ} where
  abbrev both : Result (List B) → Result (List B) → Result (List B)
  both (err e) r = err e
  both (ok xs) (err e) = err e
  both (ok xs) (ok ys) = ok (xs ++ ys)

  abbrev next_to : Result (Option B) → Result (List B) → Result (List B)
  next_to (err e) r = err e
  next_to (ok none) r = r
  next_to (ok (some y)) (err e) = err e
  next_to (ok (some y)) (ok ys) = ok (y ∷ ys)

  both-none : (r : Result (List B)) → both (ok []) r ≡ r
  both-none (err e) = refl
  both-none (ok ys) = refl

  both-next_to :
      (o : Result (Option B)) (r u : Result (List B)) → both (next_to o r) u ≡ next_to o (both r u)
  both-next_to (err e) r u = refl
  both-next_to (ok none) r u = refl
  both-next_to (ok (some y)) (err e) u = refl
  both-next_to (ok (some y)) (ok xs) (err e) = refl
  both-next_to (ok (some y)) (ok xs) (ok ys) = refl

  both-both :
      (acc xs : List B) (r : Result (List B))
      → both (ok (acc ++ xs)) r ≡ both (ok acc) (both (ok xs) r)
  both-both acc xs (err e) = refl
  both-both acc xs (ok ys) = ap ok (append_assoc acc xs ys)

  both-err :
      (acc : List B) (e : Error) (r : Result (List B)) → both (ok acc) (both (err e) r) ≡ err e
  both-err acc e r = refl

module _ {ℓ κ} {A : Type ℓ} {B : Type κ} (f : A → Result (Option B)) where
  take_each-step : (x : A) (xs : List A) → take_each f (x ∷ xs) ≡ next_to (f x) (take_each f xs)
  unfolding take_each
  take_each-step x xs = from (f x) (take_each f xs)
    where
      from :
          (o : Result (Option B)) (r : Result (List B))
          → (o >>= elim [ none ↦ r | some y ↦ r >>= λ ys. ok (y ∷ ys) ]) ≡ next_to o r
      from (err e) r = refl
      from (ok none) r = refl
      from (ok (some y)) (err e) = refl
      from (ok (some y)) (ok ys) = refl

  take_each-append :
      (xs ys : List A) → take_each f (xs ++ ys) ≡ both (take_each f xs) (take_each f ys)
  unfolding take_each
  take_each-append [] ys = sym (both-none (take_each f ys))
  take_each-append (x ∷ xs) ys =
      take_each-step x (xs ++ ys)
      ∙ ap (next_to (f x)) (take_each-append xs ys)
      ∙ sym (both-next_to (f x) (take_each f xs) (take_each f ys))
      ∙ ap (λ r. both r (take_each f ys)) (sym (take_each-step x xs))

  paged-joins :
      (request : String → Eff (Page A)) (env : Env) (fuel : ℕ) (token : String) (p : List A)
      (rest : List (List A)) (acc : List B) (t : Trace)
      → Serves request env token p rest
      → length rest ≤ fuel
      → (paged (suc fuel) request (take_each f) token acc env t).0
        ≡ both (ok acc) (take_each f (join p rest))
  unfolding paged Serves
  paged-joins request env fuel token p [] acc t h k = elim (Result-cases (take_each f p)) [
    | inl (ys, g) ↦ rw (h t, g) refl
    | inr (e, g) ↦ rw (h t, g) refl
  ]
  paged-joins request env zero token p (q ∷ rest) acc t h k = absurd (ground arith)
  paged-joins request env (suc fuel) token p (q ∷ rest) acc t (next, more, h, served) k =
      elim (Result-cases (take_each f p)) [
        | inl (ys, g) ↦
            rw (h t, g, more, take_each-append p (join q rest), g)
              (paged-joins request env fuel next q rest (acc ++ ys) (request token env t).1 served
                  (omega arith)
                ∙ both-both acc ys (take_each f (join q rest)))
        | inr (e, g) ↦ rw (h t, g, take_each-append p (join q rest), g) refl
      ]

-- If at least one agent's organization is known and the service answers, then listActiveWorkloads
-- yields what one page with all the records would: those that pass its checks, in their order, or
-- the first error of a check. Fuel for as many pages as there are is enough.
pub listing_joins_pages :
    (organizations : List String) (env : Env) (p : List (Option Workload))
    (rest : List (List (Option Workload))) (fuel : ℕ) (t : Trace)
    → 1 ≤ length organizations
    → Serves (Platform.list_workloads WorkloadQuery.active) env "" p rest
    → length rest ≤ fuel
    → (list_active_workloads (suc fuel) organizations env t).0
      ≡ take_each (scoped_agent_workload env.parse_uuid organizations) (join p rest)
unfolding list_active_workloads
listing_joins_pages [] env p rest fuel t known h k = absurd (ground arith)
listing_joins_pages (o ∷ os) env p rest fuel t known h k =
    let scoped = scoped_agent_workload env.parse_uuid (o ∷ os) in
    paged-joins scoped (Platform.list_workloads WorkloadQuery.active) env fuel "" p rest [] t h k
    ∙ both-none (take_each scoped (join p rest))
