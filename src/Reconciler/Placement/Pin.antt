-- ===== src/Reconciler/Placement/Pin.antt =====
-- About the runner that the volumes of an instance pin it to (runner_pinning.go).
use agents_orchestrator.Prelude.{
  String, ◌≡◌, inl, inr, Bool, true, not, ◌&&◌, ◌||◌, Option, none, some, List, [], ◌∷◌, arith,
  ◌==◌, eq_iff,
}
use agents_orchestrator.Errors.{Error, Result, ok, err, Result-cases}
use agents_orchestrator.Api.{Volume}
use agents_orchestrator.Reconciler.Records.{is_pinned_volume_status}
use agents_orchestrator.Reconciler.Placement.{pin_one, pin_page}

-- A volume that pins its instance pins it to this runner.
abbrev pub agrees : String → Option Volume → Bool
agrees runner none = true
agrees runner (some v) = not (is_pinned_volume_status v.status) || v.runner_id == runner

abbrev pub all : (Option Volume → Bool) → List (Option Volume) → Bool
all p [] = true
all p (x ∷ xs) = p x && all p xs

pin_one-agrees :
    (r : String) (v : Volume) (next : String)
    → pin_one r v ≡ ok next
    → ((r == "" || r == next) ≡ true)
      × ((not (is_pinned_volume_status v.status) || (v.runner_id == next && not (next == "")))
          ≡ true)
      × ((is_pinned_volume_status v.status || r == next) ≡ true)
unfolding pin_one
pin_one-agrees r v next h = ground (
  arith,
  eq_iff r next,
  eq_iff v.runner_id next,
  eq_iff r v.runner_id,
  eq_iff r "",
  eq_iff v.runner_id "",
  eq_iff next "",
)

err-ok : (x : Error) (r : String) → ◌≡◌ {A = Result String} (err x) (ok r) → ⊥
err-ok x r h = cc

pin_page-agrees :
    (r : String) (os : List (Option Volume)) (pinned : String)
    → pin_page r os ≡ ok pinned
    → ((r == "" || r == pinned) && all (agrees pinned) os) ≡ true
unfolding pin_page
pin_page-agrees r [] pinned h = ground (arith, eq_iff r pinned)
pin_page-agrees r (none ∷ os) pinned h = ground arith
pin_page-agrees r (some v ∷ os) pinned h = elim (Result-cases (pin_one r v)) [
  | inl (next, e) ↦
      let step = pin_one-agrees r v next e in
      let rest = pin_page-agrees next os pinned (rw (e, pin_page) at h) in
      ground (
        arith,
        step,
        rest,
        eq_iff r next,
        eq_iff next pinned,
        eq_iff r pinned,
        eq_iff v.runner_id next,
        eq_iff v.runner_id pinned,
        eq_iff next "",
        eq_iff r "",
      )
  | inr (x, e) ↦ let k = rw (e, pin_page) at h in absurd (err-ok x pinned k)
]

-- If a page of an instance's volumes yields a runner, then each volume that pins the instance
-- (provisioning, active or deprovisioning) lies on this runner.
pub pinned_volumes_agree :
    (os : List (Option Volume)) (pinned : String)
    → pin_page "" os ≡ ok pinned
    → all (agrees pinned) os ≡ true
pinned_volumes_agree os pinned h = ground (arith, pin_page-agrees "" os pinned h)
