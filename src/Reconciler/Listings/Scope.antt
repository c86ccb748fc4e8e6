-- ===== src/Reconciler/Listings/Scope.antt =====
-- Which of the listed records a cycle looks at: the checks of agentOrganizationsFrom in
-- identity_metadata.go and of the listings in actual.go, metering_sample.go and volume_reconcile.go.
use agents_orchestrator.Prelude.{
  String, Bool, Option, none, some, List, [], ◌∷◌, ◌++◌, member, trim_space, if◌then◌else◌, ◌==◌,
}
use agents_orchestrator.Errors.{Result, ok, err, fault, ◌>>=◌}
use agents_orchestrator.Api.{Meta, Agent, Workload, Volume, is_sandbox_kind}
use agents_orchestrator.Uuid.{parse_uuid}

-- The loop over one page: an error of an item ends it, and an item may be left out.
unfoldable pub take_each {ℓ κ} :
    {A : Type ℓ} {B : Type κ} → (A → Result (Option B)) → List A → Result (List B)
take_each f [] = ok []
take_each f (x ∷ xs) =
    let rest = take_each f xs in f x >>= elim [ none ↦ rest | some y ↦ rest >>= λ ys. ok (y ∷ ys) ]

unfoldable pub present_workload : Option Workload → Result (Option Workload)
present_workload none = err (fault "workload is nil")
present_workload (some w) = ok (some w)

module _ (parse : String → Option String) where
  -- The organization of one agent.
  organization_of : Option Agent → Result String
  organization_of none = err (fault "agent is nil")
  organization_of (some a) = elim a.meta [
    | none ↦ err (fault "agent meta missing")
    | some m ↦
        parse_uuid parse (trim_space m.id) >>= λ _. parse_uuid parse (trim_space a.organization_id)
  ]

  -- agentOrganizationsFrom: the set as the list of its members.
  unfoldable pub agent_organizations_from : List (Option Agent) → List String → Result (List String)
  unfolding organization_of
  agent_organizations_from [] acc = ok acc
  agent_organizations_from (a ∷ rest) acc = organization_of a >>= λ id.
      agent_organizations_from rest (if member id acc then acc else acc ++ id ∷ [])

  -- The checks of a record's id and organization, and whether the organization is one of the given.
  unfoldable pub in_organizations : List String → Option Meta → String → Result Bool
  unfolding parse_uuid trim_space
  in_organizations organizations none organization_id = err (fault "workload meta missing")
  in_organizations organizations (some m) organization_id =
      let org_id = trim_space organization_id in
      if m.id == ""
      then err (fault "workload meta id missing")
      else if org_id == ""
      then err (fault "workload %s organization id missing")
      else parse_uuid parse org_id >>= λ id. ok (member id organizations)

  unfoldable pub scoped_workload : List String → Option Workload → Result (Option Workload)
  unfolding in_organizations
  scoped_workload organizations none = err (fault "workload is nil")
  scoped_workload organizations (some w) =
      in_organizations organizations w.meta w.organization_id >>= λ b.
      ok (if b then some w else none)

  unfoldable pub scoped_volume : List String → Option Volume → Result (Option Volume)
  unfolding in_organizations
  scoped_volume organizations none = err (fault "volume is nil")
  scoped_volume organizations (some v) =
      in_organizations organizations v.meta v.organization_id >>= λ b.
      ok (if b then some v else none)

  -- As `scoped_workload`, with sandboxes left out first.
  unfoldable pub scoped_agent_workload : List String → Option Workload → Result (Option Workload)
  unfolding scoped_workload
  scoped_agent_workload organizations none = scoped_workload organizations none
  scoped_agent_workload organizations (some w) =
      if is_sandbox_kind w.owner_kind then ok none else scoped_workload organizations (some w)
