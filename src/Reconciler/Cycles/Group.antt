-- ===== src/Reconciler/Cycles/Group.antt =====
-- The tracked records by runner, the runners to visit, and what a runner reports.
use agents_orchestrator.Prelude.{
  String, Bool, true, false, not, ◌&&◌, Option, none, some, List, [], ◌∷◌, ◌++◌, Map, lookup,
  insert, member, trim_space, is_some, if◌then◌else◌, ◌==◌,
}
use agents_orchestrator.Errors.{Result, ok, err, fault, ◌>>=◌}
use agents_orchestrator.Api.{Runner, meta_id, is_enrolled}
use agents_orchestrator.Platform.{RunnerItem}

-- The keys of a map, and an inner map that is empty where there is none.
abbrev pub keys {ℓ} : {V : Type ℓ} → Map V → List String
keys [] = []
keys ((k, v) ∷ m) = k ∷ keys m

abbrev pub inner {ℓ} : {V : Type ℓ} → Option (Map V) → Map V
inner none = []
inner (some m) = m

-- A set as the list of its members.
abbrev pub add : String → List String → List String
add id ids = if member id ids then ids else ids ++ id ∷ []

-- What the loops read of a tracked record: its runner, its owner's identity, its id.
pub record Reads {ℓ} (V : Type ℓ) : Type ℓ where
  pub runner_id : V → String
  pub identity : V → String
  pub id : V → String

module _ {ℓ} {V : Type ℓ} (reads : Reads V) where
  -- The loop that fills workloadsByRunner or volumesByRunner, whose keys are the runners to visit.
  unfoldable pub by_runner : List V → Map (Map V) → Result (Map (Map V))
  by_runner [] acc = ok acc
  by_runner (v ∷ vs) acc =
      let runner_id = reads.runner_id v in
      let id = reads.id v in
      let skipped = by_runner vs acc in
      let kept = by_runner vs (insert runner_id (insert id v (inner (lookup runner_id acc))) acc) in
      if runner_id == ""
      then skipped
      else if reads.identity v == ""
      then err (fault "%s missing owner identity")
      else if id == ""
      then skipped
      else kept

-- The runners of a cycle: those that are enrolled, and those to visit.
pub record Visited : Type 0 where
  pub enrolled : List String
  pub to_visit : List String

module _ {ℓ} {V : Type ℓ} where
  abbrev no_entries : Map V → Bool
  no_entries [] = true
  no_entries (x ∷ m) = false

  -- runnerInScope and runnerInScopeForVolumes
  unfoldable pub runner_in_scope : String → List String → Map V → Result Bool
  runner_in_scope organization_id organizations tracked =
      let org_id = trim_space organization_id in
      if not (org_id == "")
      then ok (member org_id organizations)
      else if no_entries tracked
      then err (fault "runner %s organization id missing")
      else ok true

  scope_one : List String → Map (Map V) → Runner → Visited → Result Visited
  unfolding runner_in_scope
  scope_one organizations tracked r acc =
      let id = meta_id r.meta in
      let seen : Visited = record { enrolled = add id acc.enrolled; to_visit = acc.to_visit } in
      let here = inner (lookup id tracked) in
      if id == ""
      then ok acc
      else if not (is_enrolled r.status)
      then ok acc
      else if member id acc.to_visit
      then ok seen
      else if r.organization_id == "" && no_entries here
      then ok seen
      else runner_in_scope r.organization_id organizations here >>= λ in_scope.
          ok (if in_scope then record seen { to_visit = acc.to_visit ++ id ∷ [] } else seen)

  unfoldable pub scope_runners :
      List String → Map (Map V) → List (Option Runner) → Visited → Result Visited
  unfolding scope_one
  scope_runners organizations tracked [] acc = ok acc
  scope_runners organizations tracked (none ∷ rs) acc = scope_runners organizations tracked rs acc
  scope_runners organizations tracked (some r ∷ rs) acc =
      scope_one organizations tracked r acc >>= λ next. scope_runners organizations tracked rs next

-- The loop over a runner's report: the first item of each key.
unfoldable pub reported_items : List (Option RunnerItem) → Map RunnerItem → Map RunnerItem
reported_items [] acc = acc
reported_items (none ∷ is) acc = reported_items is acc
reported_items (some i ∷ is) acc =
    reported_items is
      (if i.key == "" then acc else if is_some (lookup i.key acc) then acc else insert i.key i acc)
