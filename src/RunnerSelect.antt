-- ===== src/RunnerSelect.antt =====
-- internal/runnerselect/select.go: the runners that a workload may be placed on, and the choice.
pub mod Fits
pub mod Eligible
use agents_orchestrator.Prelude.{
  ℕ, zero, suc, String, Bool, true, false, not, ◌&&◌, ◌||◌, Option, none, some, List, [], ◌∷◌, ◌++◌,
  length, Map, lookup, member, nat_eq, if◌then◌else◌, ◌==◌,
}
use agents_orchestrator.Errors.{Result, ok, err, fault}
use agents_orchestrator.Api.{Runner, meta_id, is_enrolled}

-- runnerInScope
unfoldable pub runner_in_scope : Runner → String → Bool
runner_in_scope r organization_id = r.organization_id == "" || r.organization_id == organization_id

-- `provided[key]`, which is "" for a missing key
abbrev pub label_of : String → Map String → String
label_of key m = elim (lookup key m) [ none ↦ "" | some v ↦ v ]

unfoldable pub all_labels : Map String → Map String → Bool
all_labels [] provided = true
all_labels ((key, value) ∷ required) provided =
    label_of key provided == value && all_labels required provided

abbrev is_nil {ℓ} : {A : Type ℓ} → List A → Bool
is_nil [] = true
is_nil (x ∷ xs) = false

-- labelsMatch
unfoldable pub labels_match : Map String → Map String → Bool
unfolding all_labels
labels_match required provided =
    if is_nil required
    then true
    else if is_nil provided
    then false
    else all_labels required provided

-- missingCapabilities
unfoldable pub missing_capabilities : List String → List String → List String
missing_capabilities [] provided = []
missing_capabilities (c ∷ cs) provided =
    if member c provided
    then missing_capabilities cs provided
    else c ∷ missing_capabilities cs provided

unfoldable pub is_eligible : String → Map String → List String → Runner → Bool
unfolding runner_in_scope labels_match missing_capabilities
is_eligible organization_id labels required r =
    runner_in_scope r organization_id
    && (is_enrolled r.status
        && (labels_match labels r.labels && is_nil (missing_capabilities required r.capabilities)))

-- The loop over the runners. The capabilities that a runner lacks only go into an error's text.
unfoldable pub eligible_runners :
    String → Map String → List String → List (Option Runner) → Result (List Runner)
unfolding is_eligible
eligible_runners organization_id labels required [] = ok []
eligible_runners organization_id labels required (none ∷ rs) = err (fault "runner entry is nil")
eligible_runners organization_id labels required (some r ∷ rs) =
    let rest = eligible_runners organization_id labels required rs in
    if meta_id r.meta == "" then err (fault "runner missing id") else elim rest [
      | err e ↦ err e
      | ok chosen ↦
          ok (if is_eligible organization_id labels required r then r ∷ chosen else chosen)
    ]

unfoldable pub nth_runner : List Runner → ℕ → Result Runner
nth_runner [] n = err (fault "index out of range")
nth_runner (r ∷ rs) zero = ok r
nth_runner (r ∷ rs) (suc n) = nth_runner rs n

choose : (ℕ → Result ℕ) → List Runner → Result Runner
unfolding nth_runner
choose random [] = err (fault "no eligible runners found")
choose random (r ∷ rs) = elim (random (length (r ∷ rs))) [
  | err e ↦ err e
  | ok index ↦ nth_runner (r ∷ rs) index
]

-- Select; `random n` is rand.Int, a number below n.
unfoldable pub select :
    (ℕ → Result ℕ) → List (Option Runner) → String → Map String → List String → Result Runner
unfolding choose eligible_runners
select random [] organization_id labels required = err (fault "no runners available")
select random (r ∷ rs) organization_id labels required =
    elim (eligible_runners organization_id labels required (r ∷ rs)) [
      | err e ↦ err e
      | ok chosen ↦ choose random chosen
    ]
