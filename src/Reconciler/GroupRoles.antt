-- ===== src/Reconciler/GroupRoles.antt =====
-- group_sync.go: the role attributes of live identities follow the groups of their agent. `fuel`
-- bounds the pages of a listing.
pub mod Stale
pub mod Patches
use agents_orchestrator.Prelude.{
  ℕ, String, Bool, Option, none, some, List, [], ◌∷◌, ◌++◌, member, concat, if◌then◌else◌, ◌==◌,
}
use agents_orchestrator.Errors.{Error, Result, ok, err, fault}
use agents_orchestrator.Api.{Workload}
use agents_orchestrator.Platform
use agents_orchestrator.Platform.{RolePatch}
use agents_orchestrator.Effect.{Eff, pure, fail, lift, asks, each, ◌>>=◌, ◌>>◌}
use agents_orchestrator.Reconciler.Identity.{sort_texts, agent_group_role_attributes}
use agents_orchestrator.Reconciler.Listings.{
  agent_organizations, list_active_workloads, list_live_agent_workloads,
}

-- groups.v1.GroupMemberType
pub data MemberType : Type 0 where
  unspecified agent : MemberType
  other : ℕ → MemberType

-- groups.v1.GroupMembershipAddedEvent and GroupMembershipRemovedEvent
pub record MembershipEvent : Type 0 where
  pub member_type : MemberType
  pub member_id : String
  pub group_id : String

-- groupRoleAttribute
abbrev pub group_role_attribute : String → String
group_role_attribute group_id = concat "group-" group_id

-- The loop over the candidates; what has been seen is what has been taken.
unfoldable pub stale_loop : List String → List String → List String → List String
stale_loop desired [] remove = remove
stale_loop desired (c ∷ cs) remove =
    stale_loop desired cs
      (if member c desired then remove else if member c remove then remove else remove ++ c ∷ [])

-- staleCandidateAttributes
unfoldable pub stale_candidate_attributes : List String → List String → List String
unfolding stale_loop sort_texts
stale_candidate_attributes desired candidates = sort_texts (stale_loop desired candidates [])

abbrev parsed_agent_id : Option String → Eff String
parsed_agent_id none = fail (fault "parse workload agent id: %w")
parsed_agent_id (some id) = pure id

patch_identity : List String → String → List String → Eff (Unit {0})
unfolding stale_candidate_attributes
patch_identity candidates identity_id desired = Platform.patch_roles (record {
  ziti_identity_id = identity_id;
  add = desired;
  remove = stale_candidate_attributes desired candidates;
})

patch_workload : ℕ → List String → Workload → Option String → Eff (Unit {0})
unfolding patch_identity agent_group_role_attributes
patch_workload fuel candidates w none = fail (fault "parse workload agent id: %w")
patch_workload fuel candidates w (some agent_id) = do
  desired ← agent_group_role_attributes fuel agent_id w.organization_id
  patch_identity candidates w.ziti_identity_id desired

-- patchWorkloadToCurrentGroupRoles
unfoldable pub patch_workload_to_current_group_roles :
    ℕ → List String → Option Workload → Eff (Unit {0})
unfolding patch_workload
patch_workload_to_current_group_roles fuel candidates none = fail (fault "workload is nil")
patch_workload_to_current_group_roles fuel candidates (some w) =
    if w.ziti_identity_id == "" then pure tt else do
      agent_id ← asks (λ env. env.parse_uuid w.agent_id)
      patch_workload fuel candidates w agent_id

-- patchLiveAgentWorkloadGroupRoles
unfoldable pub patch_live_agent_workload_group_roles : ℕ → String → List String → Eff (Unit {0})
unfolding patch_workload_to_current_group_roles list_live_agent_workloads each
patch_live_agent_workload_group_roles fuel agent_id candidates = do
  ws ← list_live_agent_workloads fuel agent_id
  each (patch_workload_to_current_group_roles fuel candidates) ws

change_of_agent : ℕ → String → Option String → Eff (Unit {0})
unfolding patch_live_agent_workload_group_roles
change_of_agent fuel group_id none = fail (fault "parse group membership member id: %w")
change_of_agent fuel group_id (some agent_id) =
    patch_live_agent_workload_group_roles fuel agent_id
      (if group_id == "" then [] else group_role_attribute group_id ∷ [])

-- handleAgentMembershipChange
unfoldable pub handle_agent_membership_change : ℕ → MembershipEvent → Eff (Unit {0})
unfolding change_of_agent
handle_agent_membership_change fuel e = elim e.member_type [
  | MemberType.agent ↦ do
    agent_id ← asks (λ env. env.parse_uuid e.member_id)
    change_of_agent fuel e.group_id agent_id
  | _ ↦ pure tt
]

abbrev pub group_membership_added_subject : String
group_membership_added_subject = "agyn.groups.membership.added"

abbrev pub group_membership_removed_subject : String
group_membership_removed_subject = "agyn.groups.membership.removed"

-- HandleGroupMembershipEvent; proto.Unmarshal of the two kinds of events are parameters.
module _ (added removed : String → Option MembershipEvent) where
  decoded : ℕ → Option MembershipEvent → Eff (Unit {0})
  unfolding handle_agent_membership_change
  decoded fuel none = fail (fault "unmarshal group membership event: %w")
  decoded fuel (some e) = handle_agent_membership_change fuel e

  unfoldable pub handle_group_membership_event : ℕ → String → String → Eff (Unit {0})
  unfolding decoded
  handle_group_membership_event fuel subject bytes =
      if subject == group_membership_added_subject
      then decoded fuel (added bytes)
      else if subject == group_membership_removed_subject
      then decoded fuel (removed bytes)
      else pure tt

present : List Workload → List (Option Workload)
present [] = []
present (w ∷ ws) = some w ∷ present ws

-- ReconcileAllAgentGroupRoles
unfoldable pub reconcile_all_agent_group_roles : ℕ → Eff (Unit {0})
unfolding agent_organizations list_active_workloads patch_workload_to_current_group_roles each
    present
reconcile_all_agent_group_roles fuel = do
  organizations ← agent_organizations fuel
  ws ← list_active_workloads fuel organizations
  each (patch_workload_to_current_group_roles fuel []) (present ws)
