-- ===== src/Reconciler/Metering/Labels.antt =====
-- The labels of a usage record in metering_sample.go: workloadLabels, volumeLabels and
-- applyOwnerLabels, and the sources that a cycle resolves once.
use agents_orchestrator.Prelude.{
  String, Option, none, some, List, [], ◌∷◌, Map, lookup, insert, trim_space, if◌then◌else◌, ◌==◌,
  ◌||◌,
}
use agents_orchestrator.Errors.{Result, ok, err, fault}
use agents_orchestrator.Api.{Agent, Workload, Volume, OwnerKind, meta_id}
use agents_orchestrator.Platform.{SandboxOwner}

-- labelSources; an attribution of a sandbox is its owner and its environment.
pub record LabelSources : Type 0 where
  pub agent_environments : Map String
  pub sandboxes : Map SandboxOwner

-- A map that reads as the zero value where it has no entry.
abbrev pub text_or_empty : Option String → String
text_or_empty none = ""
text_or_empty (some s) = s

abbrev pub owner_or_empty : Option SandboxOwner → SandboxOwner
owner_or_empty none = record { owner_id = ""; environment_id = "" }
owner_or_empty (some o) = o

-- `if value != "" { labels[key] = value }`
abbrev pub insert_some : String → String → Map String → Map String
insert_some key value labels = if value == "" then labels else insert key value labels

agent_environment : Agent → Map String → Map String
agent_environment a acc =
    let agent_id = trim_space (meta_id a.meta) in
    let environment_id = trim_space a.environment_id in
    if agent_id == "" || environment_id == "" then acc else insert agent_id environment_id acc

-- agentEnvironmentIDs; an absent agent reads as one without an id.
unfoldable pub agent_environment_ids : List (Option Agent) → Map String → Map String
unfolding agent_environment
agent_environment_ids [] acc = acc
agent_environment_ids (none ∷ rest) acc = agent_environment_ids rest acc
agent_environment_ids (some a ∷ rest) acc = agent_environment_ids rest (agent_environment a acc)

unfoldable pub sandbox_labels : LabelSources → String → Map String → Result (Map String)
sandbox_labels sources sandbox_id labels =
    let owner = owner_or_empty (lookup sandbox_id sources.sandboxes) in
    if sandbox_id == ""
    then err (fault "resource %s sandbox owner id missing")
    else ok (
        insert_some "environment_id" owner.environment_id (
          insert_some "sandbox_owner_id" owner.owner_id (
            insert "identity_id" sandbox_id
              (insert "sandbox_id" sandbox_id (insert "owner_kind" "sandbox" labels)))))

unfoldable pub instance_labels :
    LabelSources → String → String → String → Map String → Result (Map String)
instance_labels sources agent_id instance_id thread_id labels =
    if agent_id == ""
    then err (fault "resource %s agent id missing")
    else if thread_id == ""
    then err (fault "resource %s thread id missing")
    else ok (
        insert_some "environment_id" (text_or_empty (lookup agent_id sources.agent_environments)) (
          insert_some "agent_instance_id" instance_id (
            insert "identity_id" agent_id (
              insert "agent_id" agent_id
                (insert "thread_id" thread_id (insert "owner_kind" "agent_instance" labels))))))

-- applyOwnerLabels
unfoldable pub apply_owner_labels :
    LabelSources → OwnerKind → String → String → String → Map String → Result (Map String)
unfolding sandbox_labels instance_labels
apply_owner_labels sources OwnerKind.sandbox owner_id agent_id thread_id labels =
    sandbox_labels sources (trim_space owner_id) labels
apply_owner_labels sources OwnerKind.unspecified owner_id agent_id thread_id labels =
    instance_labels sources (trim_space agent_id) (trim_space owner_id) (trim_space thread_id)
      labels
apply_owner_labels sources OwnerKind.agent_instance owner_id agent_id thread_id labels =
    instance_labels sources (trim_space agent_id) (trim_space owner_id) (trim_space thread_id)
      labels
apply_owner_labels sources (OwnerKind.other n) owner_id agent_id thread_id labels =
    err (fault "resource %s owner kind %s unsupported")

abbrev pub base_labels : String → String → String → Map String
base_labels resource id runner_id =
    ("resource", resource) ∷ ("resource_id", id) ∷ ("runner_id", runner_id) ∷ []

-- workloadLabels
unfoldable pub workload_labels : LabelSources → Workload → String → Result (Map String)
unfolding apply_owner_labels trim_space
workload_labels sources w id =
    let runner_id = trim_space w.runner_id in
    if runner_id == ""
    then err (fault "workload %s runner id missing")
    else apply_owner_labels sources w.owner_kind w.owner_id w.agent_id w.thread_id
        (base_labels "workload" id runner_id)

-- volumeLabels
unfoldable pub volume_labels : LabelSources → Volume → String → Result (Map String)
unfolding apply_owner_labels trim_space
volume_labels sources v id =
    let runner_id = trim_space v.runner_id in
    if runner_id == ""
    then err (fault "volume %s runner id missing")
    else apply_owner_labels sources v.owner_kind v.owner_id v.agent_id v.thread_id
        (base_labels "volume" id runner_id)
