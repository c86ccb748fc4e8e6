-- ===== src/RunnerSelect/Fits.antt =====
-- What makes a runner eligible, in terms of its record.
use agents_orchestrator.Prelude.{
  String, ◌≡◌, refl, ◌⊎◌, inl, inr, Bool, true, ◌&&◌, none, some, List, [], ◌∷◌, arith, Map, lookup,
  member, All, ◌==◌, eq_iff, eq_refl, Bool-cases, Option-cases,
}
use mathlib.Core.Bool.{false≢true}
use agents_orchestrator.Api.{Runner, RunnerStatus, is_enrolled}
use agents_orchestrator.RunnerSelect.{
  runner_in_scope, all_labels, labels_match, is_nil, missing_capabilities, is_eligible,
}

-- A label with the empty value is also one that is not there.
abbrev pub Has : Map String → String × String → Type 0
Has labels (key, value) =
    (lookup key labels ≡ some value) ⊎ (lookup key labels ≡ none) × (value ≡ "")

pub record Fits (organization_id : String) (labels : Map String) (required : List String)
    (r : Runner) : Type 0 where
  pub enrolled : r.status ≡ RunnerStatus.enrolled
  pub in_scope : (r.organization_id ≡ "") ⊎ (r.organization_id ≡ organization_id)
  pub labelled : All (Has r.labels) labels
  pub capable : All (λ c. member c r.capabilities ≡ true) required

all_labels-Has :
    (labels provided : Map String) → all_labels labels provided ≡ true → All (Has provided) labels
unfolding all_labels
all_labels-Has [] provided h = tt
all_labels-Has ((key, value) ∷ labels) provided h = (
  elim (Option-cases (lookup key provided)) [
    | inl e ↦ inr (e, ground (arith, e, h, eq_iff "" value))
    | inr (v, e) ↦ inl (ground (arith, e, h, eq_iff v value))
  ],
  all_labels-Has labels provided (ground (arith, h)),
)

labels_match-Has :
    (labels provided : Map String) → labels_match labels provided ≡ true → All (Has provided) labels
unfolding labels_match
labels_match-Has [] provided h = tt
labels_match-Has (l ∷ labels) [] h = absurd (false≢true h)
labels_match-Has (l ∷ labels) (p ∷ provided) h = all_labels-Has (l ∷ labels) (p ∷ provided) h

missing_capabilities-All :
    (required provided : List String)
    → is_nil (missing_capabilities required provided) ≡ true
    → All (λ c. member c provided ≡ true) required
unfolding missing_capabilities
missing_capabilities-All [] provided h = tt
missing_capabilities-All (c ∷ cs) provided h = elim (Bool-cases (member c provided)) [
  | inl e ↦ (e, missing_capabilities-All cs provided (rw (e, missing_capabilities) at h))
  | inr e ↦ absurd (false≢true (rw (e, missing_capabilities) at h))
]

is_enrolled-eq : (r : RunnerStatus) → is_enrolled r ≡ true → r ≡ RunnerStatus.enrolled
is_enrolled-eq RunnerStatus.enrolled h = refl
is_enrolled-eq _ h = absurd (false≢true h)

in_scope-eq :
    (r : Runner) (o : String)
    → runner_in_scope r o ≡ true
    → (r.organization_id ≡ "") ⊎ (r.organization_id ≡ o)
unfolding runner_in_scope
in_scope-eq r o h = elim (Bool-cases (r.organization_id == "")) [
  | inl e ↦ inl ((eq_iff r.organization_id "").0 e)
  | inr e ↦ inr ((eq_iff r.organization_id o).0 (rw e at h))
]

and-true : (a b : Bool) → (a && b) ≡ true → (a ≡ true) × (b ≡ true)
and-true a b h = ground arith

pub is_eligible-Fits :
    (o : String) (labels : Map String) (required : List String) (r : Runner)
    → is_eligible o labels required r ≡ true
    → Fits o labels required r
unfolding is_eligible
is_eligible-Fits o labels required r h =
    let (scoped, h₁) = and-true _ _ h in
    let (enrolled, h₂) = and-true _ _ h₁ in
    let (labelled, capable) = and-true _ _ h₂ in
    record {
      enrolled = is_enrolled-eq r.status enrolled;
      in_scope = in_scope-eq r o scoped;
      labelled = labels_match-Has labels r.labels labelled;
      capable = missing_capabilities-All required r.capabilities capable;
    }

-- A label that is required is there with its value, which an empty one need not be.
abbrev pub Shows : Map String → String × String → Type 0
Shows labels (key, value) = lookup key labels ≡ some value

all_labels-Shows :
    (labels provided : Map String) → All (Shows provided) labels → all_labels labels provided ≡ true
unfolding all_labels
all_labels-Shows [] provided h = refl
all_labels-Shows ((key, value) ∷ labels) provided h =
    let here = h.0 in ground (arith, here, eq_refl value, all_labels-Shows labels provided h.1)

labels_match-Shows :
    (labels provided : Map String)
    → All (Shows provided) labels
    → labels_match labels provided ≡ true
unfolding labels_match
labels_match-Shows [] provided h = refl
labels_match-Shows (l ∷ labels) [] h = cc
labels_match-Shows (l ∷ labels) (p ∷ provided) h = all_labels-Shows (l ∷ labels) (p ∷ provided) h

missing_capabilities-nil :
    (required provided : List String)
    → All (λ c. member c provided ≡ true) required
    → missing_capabilities required provided ≡ []
unfolding missing_capabilities
missing_capabilities-nil [] provided h = refl
missing_capabilities-nil (c ∷ cs) provided h =
    rw (h.0, missing_capabilities) (missing_capabilities-nil cs provided h.1)

scope-true :
    (r : Runner) (o : String)
    → (r.organization_id ≡ "") ⊎ (r.organization_id ≡ o)
    → runner_in_scope r o ≡ true
unfolding runner_in_scope
scope-true r o (inl e) = ground (arith, (eq_iff r.organization_id "").1 e)
scope-true r o (inr e) = ground (arith, (eq_iff r.organization_id o).1 e)

pub Fits-is_eligible :
    (o : String) (labels : Map String) (required : List String) (r : Runner)
    → Fits o labels required r
    → All (Shows r.labels) labels
    → is_eligible o labels required r ≡ true
unfolding is_eligible
Fits-is_eligible o labels required r f shown =
    rw
      (
        scope-true r o f.in_scope,
        f.enrolled,
        labels_match-Shows labels r.labels shown,
        missing_capabilities-nil required r.capabilities f.capable,
      )
      refl
