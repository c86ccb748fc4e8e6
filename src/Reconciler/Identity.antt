-- ===== src/Reconciler/Identity.antt =====
-- The OpenZiti identity of an agent workload: createIdentity, compensateIdentity and
-- attachZitiEnrollmentToken of reconciler.go, agentGroupRoleAttributes of group_sync.go.
use agents_orchestrator.Prelude.{
  ℕ, zero, suc, String, concat, not, Option, none, some, List, [], ◌∷◌, ◌++◌, member, text_le,
  if◌then◌else◌, ◌==◌,
}
use agents_orchestrator.Errors.{Result, ok, err, fault}
use agents_orchestrator.Platform
use agents_orchestrator.Platform.{IdentityRequest, IdentityReply, ContainerSpec, StartRequest, Page}
use agents_orchestrator.Effect.{Eff, pure, fail, lift, asks, ignore, ◌>>=◌, ◌>>◌}
use agents_orchestrator.Reconciler.Runner.{delete_identity}
use agents_orchestrator.Reconciler.Diff.{AgentInstanceTarget}

unfoldable pub insert_text : String → List String → List String
insert_text x [] = x ∷ []
insert_text x (y ∷ ys) = if text_le x y then x ∷ y ∷ ys else y ∷ insert_text x ys

-- sort.Strings
unfoldable pub sort_texts : List String → List String
unfolding insert_text
sort_texts [] = []
sort_texts (x ∷ xs) = insert_text x (sort_texts xs)

-- The loop over the groups: one attribute for each group, the first time that it is named.
unfoldable pub role_attributes : List String → List String → Result (List String)
role_attributes [] acc = ok acc
role_attributes (id ∷ ids) acc =
    if id == ""
    then err (fault "groups list returned group without id")
    else role_attributes ids
        (if member (concat "group-" id) acc then acc else acc ++ concat "group-" id ∷ [])

unfoldable pub group_pages : ℕ → String → String → String → List String → Eff (List String)
group_pages zero agent_id organization_id token acc = fail (fault "context deadline exceeded")
group_pages (suc fuel) agent_id organization_id token acc = do
  page ← Platform.list_groups agent_id organization_id token
  if page.next == ""
      then pure (acc ++ page.items)
      else group_pages fuel agent_id organization_id page.next (acc ++ page.items)

-- agentGroupRoleAttributes
unfoldable pub agent_group_role_attributes : ℕ → String → String → Eff (List String)
unfolding group_pages role_attributes sort_texts
agent_group_role_attributes fuel agent_id organization_id = do
  groups ← asks (λ env. env.settings.has_groups)
  if not groups then pure [] else do
    ids ← group_pages fuel agent_id organization_id "" []
    attributes ← lift (role_attributes ids [])
    pure (sort_texts attributes)

-- compensateIdentity
unfoldable pub compensate_identity : Option String → Eff (Unit {0})
compensate_identity none = pure tt
compensate_identity (some id) = ignore (delete_identity id)

pub record IdentityInfo : Type 0 where
  pub id : String
  pub enrollment_jwt : String

-- identityInfo.idPtr
abbrev pub id_ptr : Option IdentityInfo → Option String
id_ptr none = none
id_ptr (some i) = some i.id

-- The reply has to carry both fields; an identity without its token is deleted again.
unfoldable pub check_identity : IdentityReply → Eff (Option IdentityInfo)
unfolding compensate_identity
check_identity reply =
    if reply.ziti_identity_id == ""
    then fail (fault "ziti identity response missing fields")
    else if reply.enrollment_jwt == ""
    then compensate_identity (some reply.ziti_identity_id)
      >> fail (fault "ziti identity response missing fields")
    else pure (some (record { id = reply.ziti_identity_id; enrollment_jwt = reply.enrollment_jwt }))

-- createIdentity
unfoldable pub create_identity :
    ℕ → AgentInstanceTarget → String → String → String → List String → Eff (Option IdentityInfo)
unfolding agent_group_role_attributes check_identity
create_identity fuel target workload_id organization_id environment_id llm = do
  ziti ← asks (λ env. env.settings.has_ziti)
  if not ziti then pure none else do
    attributes ← agent_group_role_attributes fuel target.agent_id organization_id
    reply ← Platform.create_identity (
        IdentityRequest.for_agent target.agent_instance_id workload_id (attributes ++ llm)
          target.agent_id environment_id)
    check_identity reply

abbrev pub ziti_enroll_container_name : String
ziti_enroll_container_name = "ziti-enroll"

abbrev pub ziti_enrollment_token_env_var : String
ziti_enrollment_token_env_var = "ZITI_ENROLL_TOKEN"

-- attachZitiEnrollmentEnv, on the first container of the list that has the name
unfoldable pub attach_token : String → List ContainerSpec → Option (List ContainerSpec)
attach_token jwt [] = none
attach_token jwt (c ∷ cs) =
    if c.name == ziti_enroll_container_name
    then some
        (record c { variables = c.variables ++ (ziti_enrollment_token_env_var, jwt) ∷ [] } ∷ cs)
    else elim (attach_token jwt cs) [ none ↦ none | some rest ↦ some (c ∷ rest) ]

attach_sidecar : String → StartRequest → Result StartRequest
unfolding attach_token
attach_sidecar jwt r = elim (attach_token jwt r.sidecars) [
  | none ↦ err (fault "missing ziti enroll container")
  | some cs ↦ ok (record r { sidecars = cs })
]

-- attachZitiEnrollmentToken
unfoldable pub attach_ziti_enrollment_token : String → StartRequest → Result StartRequest
unfolding attach_token attach_sidecar
attach_ziti_enrollment_token jwt r = elim (attach_token jwt r.init_containers) [
  | none ↦ attach_sidecar jwt r
  | some cs ↦ ok (record r { init_containers = cs })
]
