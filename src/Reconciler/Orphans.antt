-- ===== src/Reconciler/Orphans.antt =====
-- orphan.go: the identities that no active workload has are deleted. `fuel` bounds the pages of a
-- listing.
pub mod Sweep
use agents_orchestrator.Prelude.{
  ℕ, zero, suc, String, Bool, true, false, Option, none, some, List, [], ◌∷◌, ◌++◌, Time, pos,
  ltb_ℤ, time_sub, minute, member, if◌then◌else◌, ◌==◌,
}
use agents_orchestrator.Errors.{Error, Result, ok, err, fault}
use agents_orchestrator.Api.{Workload}
use agents_orchestrator.Platform
use agents_orchestrator.Platform.{IdentityType, ManagedIdentity, Page}
use agents_orchestrator.Effect.{Eff, pure, fail, attempt, ◌>>=◌, ◌>>◌}
use agents_orchestrator.Reconciler.Runner.{delete_identity}
use agents_orchestrator.Reconciler.Listings.{
  agent_organizations, list_active_workloads, list_active_sandbox_workloads,
}

-- activeZitiIdentities: the set as the list of its members.
unfoldable pub active_ziti_identities : List Workload → List String → List String
active_ziti_identities [] acc = acc
active_ziti_identities (w ∷ ws) acc = active_ziti_identities ws (
    if w.ziti_identity_id == ""
    then acc
    else if member w.ziti_identity_id acc
    then acc
    else acc ++ w.ziti_identity_id ∷ [])

-- identityWithinCreateGrace, with identityCreateGracePeriod a minute
unfoldable pub identity_within_create_grace : ManagedIdentity → Time → Bool
identity_within_create_grace i now = elim i.created_at [
  | none ↦ false
  | some t ↦ ltb_ℤ (time_sub now t) (pos minute)
]

-- `if deleteErr == nil { deleteErr = … }`
unfoldable pub keep_first : Option Error → Result (Unit {0}) → Option Error
keep_first (some e) r = some e
keep_first none (ok _) = none
keep_first none (err e) = some e

module _ (active : List String) (now : Time) where
  -- One identity: the first error of a deletion so far, and with this one.
  unfoldable pub sweep_one : Option Error → ManagedIdentity → Eff (Option Error)
  unfolding identity_within_create_grace keep_first
  sweep_one first i =
      if member i.ziti_identity_id active
      then pure first
      else if identity_within_create_grace i now
      then pure first
      else do r ← attempt (delete_identity i.ziti_identity_id); pure (keep_first first r)

  unfoldable pub sweep_page : Option Error → List (Option ManagedIdentity) → Eff (Option Error)
  unfolding sweep_one
  sweep_page first [] = pure first
  sweep_page first (none ∷ is) = fail (fault "managed identity is nil")
  sweep_page first (some i ∷ is) =
      if i.ziti_identity_id == ""
      then fail (fault "managed identity missing ziti_identity_id")
      else sweep_one first i >>= λ next. sweep_page next is

  conclude_sweep : Option Error → Eff (Unit {0})
  conclude_sweep none = pure tt
  conclude_sweep (some e) = fail e

  unfoldable pub sweep_pages : ℕ → IdentityType → String → Option Error → Eff (Unit {0})
  unfolding sweep_page conclude_sweep
  sweep_pages zero kind token first = fail (fault "context deadline exceeded")
  sweep_pages (suc fuel) kind token first = do
    page ← Platform.list_identities kind token
    next ← sweep_page first page.items
    if page.next == "" then conclude_sweep next else sweep_pages fuel kind page.next next

-- sweepOrphanIdentities
unfoldable pub sweep_orphan_identities : ℕ → IdentityType → List String → Time → Eff (Unit {0})
unfolding sweep_pages
sweep_orphan_identities fuel kind active now = sweep_pages active now fuel kind "" none

-- reconcileOrphanIdentities
unfoldable pub reconcile_orphan_identities : ℕ → Eff (Unit {0})
unfolding sweep_orphan_identities active_ziti_identities agent_organizations list_active_workloads
reconcile_orphan_identities fuel = do
  organizations ← agent_organizations fuel
  tracked ← list_active_workloads fuel organizations
  now ← Platform.now
  sweep_orphan_identities fuel IdentityType.agent (active_ziti_identities tracked []) now
  sandboxes ← list_active_sandbox_workloads fuel
  sweep_orphan_identities fuel IdentityType.sandbox (active_ziti_identities sandboxes []) now
