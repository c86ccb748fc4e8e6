-- ===== src/Reconciler/Desired.antt =====
-- desired.go: the instances that have work waiting, with their agents' idle timeouts and times of
-- configuration. `fuel` bounds the pages of a listing.
pub mod Targets
use agents_orchestrator.Prelude.{
  ℕ, String, Bool, true, false, not, ◌&&◌, Option, none, some, List, [], ◌∷◌, ◌++◌, Time, Duration,
  pos, ltb_ℤ, after, Map, lookup, insert, member, concat, trim_space, is_some, if◌then◌else◌, ◌==◌,
}
use agents_orchestrator.Errors.{Error, Result, ok, err, fault}
use agents_orchestrator.Api.{Meta, Agent, AgentInstance, Workload, meta_updated_at}
use agents_orchestrator.Platform
use agents_orchestrator.Effect.{Eff, pure, fail, lift, asks, observes, attempt, ◌>>=◌, ◌>>◌}
use agents_orchestrator.Uuid.{parse_uuid}
use agents_orchestrator.Reconciler.Diff.{AgentInstanceTarget}
use agents_orchestrator.Reconciler.Listings.{paged}

-- agentIdleTimeout
unfoldable pub agent_idle_timeout :
    (String → Option Duration) → Option String → Duration → Result Duration
agent_idle_timeout parse none fallback = ok fallback
agent_idle_timeout parse (some value) fallback = elim (parse value) [
  | none ↦ err (fault "parse agent %s idle_timeout: %w")
  | some d ↦
      if ltb_ℤ (pos 0) d then ok d else err (fault "agent %s idle_timeout must be greater than 0")
]

-- listActiveInstancesWithUnackedInbox
unfoldable pub list_active_instances_with_unacked_inbox : ℕ → Eff (List (Option AgentInstance))
unfolding paged
list_active_instances_with_unacked_inbox fuel = paged fuel Platform.list_instances ok "" []

instance_meta : Option AgentInstance → Eff Meta
instance_meta none = fail (fault "agent instance is nil")
instance_meta (some i) = elim i.meta [
  | none ↦ fail (fault "agent instance meta missing")
  | some m ↦ pure m
]

-- uuidutil.ParseUUID
parsed : String → Eff String
parsed s = do parse ← asks (λ env. env.parse_uuid); lift (parse_uuid parse s)

first_thread : List String → Eff String
unfolding parsed
first_thread [] = fail (fault "agent instance %s has_unacked but returned no inbox items")
first_thread (thread_id ∷ rest) = parsed thread_id

-- fetchFirstUnackedInboxThreadID
unfoldable pub fetch_first_unacked_inbox_thread_id : Option AgentInstance → Eff String
unfolding instance_meta parsed first_thread
fetch_first_unacked_inbox_thread_id instance_of = do
  m ← instance_meta instance_of
  id ← parsed m.id
  items ← Platform.get_inbox m.id
  first_thread items

target_of : AgentInstance → String → Eff AgentInstanceTarget
unfolding instance_meta parsed
target_of i thread_id = do
  m ← instance_meta (some i)
  instance_id ← parsed m.id
  agent_id ← parsed i.agent_id
  organization_id ← parsed i.organization_id
  pure (record {
    agent_instance_id = instance_id;
    agent_id = agent_id;
    organization_id = organization_id;
    thread_id = thread_id;
  })

-- agentInstanceTarget
unfoldable pub agent_instance_target : Option AgentInstance → String → Eff AgentInstanceTarget
unfolding target_of
agent_instance_target none thread_id = fail (fault "agent instance is nil")
agent_instance_target (some i) thread_id = target_of i thread_id

abbrev pub same_target : AgentInstanceTarget → AgentInstanceTarget → Bool
same_target a b =
    a.agent_instance_id == b.agent_instance_id
    && (a.agent_id == b.agent_id
        && (a.organization_id == b.organization_id && a.thread_id == b.thread_id))

-- The map `unique`, as the list of its keys.
unfoldable pub add_target :
    AgentInstanceTarget → List AgentInstanceTarget → List AgentInstanceTarget
add_target x [] = x ∷ []
add_target x (y ∷ ys) = if same_target y x then y ∷ ys else y ∷ add_target x ys

unfoldable pub gather_targets :
    List (Option AgentInstance) → List AgentInstanceTarget → Eff (List AgentInstanceTarget)
unfolding fetch_first_unacked_inbox_thread_id agent_instance_target add_target
gather_targets [] acc = pure acc
gather_targets (i ∷ is) acc = do
  thread_id ← fetch_first_unacked_inbox_thread_id i
  target ← agent_instance_target i thread_id
  gather_targets is (add_target target acc)

-- The map `agentIDs`, as the list of its keys.
agent_ids : List AgentInstanceTarget → List String → List String
agent_ids [] acc = acc
agent_ids (t ∷ ts) acc =
    agent_ids ts (if member t.agent_id acc then acc else acc ++ t.agent_id ∷ [])

check_agent : String → Option Agent → Eff Agent
unfolding parsed
check_agent agent_id none = fail (fault "agent %s missing")
check_agent agent_id (some a) = elim a.meta [
  | none ↦ fail (fault "agent %s meta missing")
  | some m ↦ do
    id ← parsed m.id
    if not (id == agent_id)
        then fail (fault "agent %s response id mismatch: %s")
        else do organization_id ← parsed a.organization_id; pure a
]

-- fetchAgent
unfoldable pub fetch_agent : String → Eff Agent
unfolding check_agent
fetch_agent agent_id = do a ← Platform.get_agent agent_id; check_agent agent_id a

-- environmentUpdatedAt; the zero time is 0.
unfoldable pub environment_updated_at : String → Eff Time
environment_updated_at environment_id = if trim_space environment_id == "" then pure 0 else do
  updated ← Platform.get_environment (trim_space environment_id)
  pure (elim updated as (λ _. Time) [ none ↦ 0 | some t ↦ t ])

agent_updated_at : Option Time → Result Time
agent_updated_at none = err (fault "agent %s updated_at missing")
agent_updated_at (some t) = ok t

-- The maps that a cycle fills for its agents.
pub record AgentTimes : Type 0 where
  pub idle_timeouts : Map Duration
  pub updated_at : Map Time

-- What one agent adds: the later of its own and its environment's times of configuration.
note : String → AgentTimes → Duration → Time → Time → Eff AgentTimes
note id acc idle updated environment = pure (record {
  idle_timeouts = insert id idle acc.idle_timeouts;
  updated_at =
      insert id (if after environment updated then environment else updated) acc.updated_at;
})

time_agent : String → AgentTimes → Agent → Eff AgentTimes
unfolding agent_idle_timeout environment_updated_at agent_updated_at note
time_agent id acc a = do
  parse ← asks (λ env. env.parse_duration)
  fallback ← asks (λ env. env.settings.idle)
  idle ← lift (agent_idle_timeout parse a.idle_timeout fallback)
  updated ← lift (agent_updated_at (meta_updated_at a.meta))
  environment ← environment_updated_at a.environment_id
  note id acc idle updated environment

-- The loop over the agents' ids.
unfoldable pub agent_times : List String → AgentTimes → Eff AgentTimes
unfolding fetch_agent time_agent
agent_times [] acc = pure acc
agent_times (id ∷ ids) acc = do a ← fetch_agent id; next ← time_agent id acc a; agent_times ids next

pub record Desired : Type 0 where
  pub targets : List AgentInstanceTarget
  pub times : AgentTimes

-- The keys of the map `unique` as texts, and its entries in the order of given keys.
abbrev target_key : AgentInstanceTarget → String
target_key t = concat t.agent_instance_id (
    concat "/" (concat t.agent_id (concat "/" (concat t.organization_id (concat "/" t.thread_id)))))

target_keys : List AgentInstanceTarget → List String
target_keys [] = []
target_keys (t ∷ ts) = target_key t ∷ target_keys ts

find_target : String → List AgentInstanceTarget → Option AgentInstanceTarget
find_target k [] = none
find_target k (t ∷ ts) = if target_key t == k then some t else find_target k ts

abbrev put_target : Option AgentInstanceTarget → List AgentInstanceTarget → List AgentInstanceTarget
put_target none ts = ts
put_target (some t) ts = t ∷ ts

in_order : List AgentInstanceTarget → List String → List AgentInstanceTarget
unfolding find_target
in_order ts [] = []
in_order ts (k ∷ ks) = put_target (find_target k ts) (in_order ts ks)

order_targets : List AgentInstanceTarget → AgentTimes → Eff Desired
unfolding target_keys in_order
order_targets targets times = do
  ks ← observes (λ env tr. env.visit tr (target_keys targets))
  pure (record { targets = in_order targets ks; times = times })

time_targets : List AgentInstanceTarget → Eff Desired
unfolding agent_ids agent_times order_targets
time_targets targets = do
  ids ← observes (λ env tr. env.visit tr (agent_ids targets []))
  times ← agent_times ids (record { idle_timeouts = []; updated_at = [] })
  order_targets targets times

-- fetchDesired, with the targets in the order in which the runtime visits them
unfoldable pub fetch_desired : ℕ → Eff Desired
unfolding list_active_instances_with_unacked_inbox gather_targets time_targets
fetch_desired fuel = do
  instances ← list_active_instances_with_unacked_inbox fuel
  targets ← gather_targets instances []
  time_targets targets

idle_of : (String → Option Duration) → Duration → Result Agent → Option Duration
unfolding agent_idle_timeout
idle_of parse fallback (err e) = none
idle_of parse fallback (ok a) = elim (agent_idle_timeout parse a.idle_timeout fallback) [
  | err e ↦ none
  | ok d ↦ some d
]

with_idle : String → Option Duration → Map Duration → Map Duration
with_idle id none acc = acc
with_idle id (some d) acc = insert id d acc

-- addIdleTimeoutsForWorkloads: an agent that cannot be read is left to the fallback.
unfoldable pub add_idle_timeouts_for_workloads : List Workload → Map Duration → Eff (Map Duration)
unfolding parsed fetch_agent idle_of with_idle
add_idle_timeouts_for_workloads [] acc = pure acc
add_idle_timeouts_for_workloads (w ∷ ws) acc = do
  id ← parsed w.agent_class_id
  if is_some (lookup id acc) then add_idle_timeouts_for_workloads ws acc else do
    r ← attempt (fetch_agent id)
    parse ← asks (λ env. env.parse_duration)
    fallback ← asks (λ env. env.settings.idle)
    add_idle_timeouts_for_workloads ws (with_idle id (idle_of parse fallback r) acc)
