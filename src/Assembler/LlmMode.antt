-- ===== src/Assembler/LlmMode.antt =====
-- llmmode.go: how a workload reaches a model. A request for a page of attachments, of an agent's or
-- of an environment's, is answered by `list`; `fuel` bounds the pages.
pub mod Vendors
use agents_orchestrator.Prelude.{
  ℕ, zero, suc, String, Bool, true, false, not, Option, none, some, List, [], ◌∷◌, ◌++◌, member,
  nat_eq, if◌then◌else◌, ◌==◌, ◌||◌, ◌&&◌,
}
use agents_orchestrator.Errors.{Result, ok, err, fault, ◌>>=◌}
use agents_orchestrator.Platform.Messages.{Page}

-- llm.v1.Vendor and PlaceholderKind
pub data Vendor : Type 0 where
  unspecified anthropic openai : Vendor
  other : ℕ → Vendor

pub data PlaceholderKind : Type 0 where
  unspecified env file : PlaceholderKind
  other : ℕ → PlaceholderKind

-- llm.v1.SubscriptionAttachment
pub record Attachment : Type 0 where
  pub vendor : Vendor
  pub placeholder_kind : PlaceholderKind
  pub placeholder_env : String

-- agents.v1.Environment, as this file reads it
pub record Environment : Type 0 where
  pub id : String
  pub organization_id : String
  pub native : Bool

-- LLMMode
pub record LlmMode : Type 0 where
  pub native : Bool
  pub role_attributes : List String
  pub env_vars : List (String × String)

abbrev pub placeholder_credential : String
placeholder_credential = "agyn-placeholder-not-a-credential"

-- vendorRoleAttribute
unfoldable pub vendor_role_attribute : Vendor → Option String
vendor_role_attribute Vendor.anthropic = some "llm-native-anthropic"
vendor_role_attribute Vendor.openai = some "llm-native-openai"
vendor_role_attribute _ = none

abbrev pub same_vendor : Vendor → Vendor → Bool
same_vendor Vendor.unspecified Vendor.unspecified = true
same_vendor Vendor.anthropic Vendor.anthropic = true
same_vendor Vendor.openai Vendor.openai = true
same_vendor (Vendor.other m) (Vendor.other n) = nat_eq m n
same_vendor _ _ = false

abbrev pub was_seen : Vendor → List Vendor → Bool
was_seen v [] = false
was_seen v (u ∷ us) = same_vendor u v || was_seen v us

abbrev is_env : PlaceholderKind → Bool
is_env PlaceholderKind.env = true
is_env _ = false

-- The placeholder that an attachment asks for.
abbrev pub placeholder : Attachment → List (String × String)
placeholder a =
    if is_env a.placeholder_kind && not (a.placeholder_env == "")
    then (a.placeholder_env, placeholder_credential) ∷ []
    else []

abbrev with_vendor : Attachment → Option String → LlmMode → LlmMode
with_vendor a none mode = mode
with_vendor a (some name) mode = record {
  native = mode.native;
  role_attributes = mode.role_attributes ++ name ∷ [];
  env_vars = mode.env_vars ++ placeholder a;
}

-- The loop over the attachments, with the vendors seen so far.
unfoldable pub attach : List Attachment → List Vendor → LlmMode → LlmMode
unfolding vendor_role_attribute
attach [] seen mode = mode
attach (a ∷ rest) seen mode =
    let skipped = attach rest seen mode in
    let taken =
      attach rest (a.vendor ∷ seen) (with_vendor a (vendor_role_attribute a.vendor) mode) in
    if was_seen a.vendor seen then skipped else taken

-- Whose attachments are listed.
pub data Scope : Type 0 where
  of_agent of_environment : String → Scope

module _ (list : String → Scope → String → Result (Page Attachment)) where
  -- listAttachmentsFiltered
  unfoldable pub list_attachments_filtered :
      ℕ → String → Scope → String → List Attachment → Result (List Attachment)
  list_attachments_filtered zero organization_id scope token acc =
      err (fault "context deadline exceeded")
  list_attachments_filtered (suc fuel) organization_id scope token acc =
      list organization_id scope token >>= λ page.
      (if page.next == ""
        then ok (acc ++ page.items)
        else list_attachments_filtered fuel organization_id scope page.next (acc ++ page.items))

  -- listSubscriptionAttachments
  unfoldable pub list_subscription_attachments :
      ℕ → String → String → String → Result (List Attachment)
  unfolding list_attachments_filtered
  list_subscription_attachments fuel organization_id agent_id environment_id =
      (if agent_id == ""
        then ok []
        else list_attachments_filtered fuel organization_id (Scope.of_agent agent_id) "" [])
      >>= λ scoped.
          list_attachments_filtered fuel organization_id (Scope.of_environment environment_id) "" []
          >>= λ others. ok (scoped ++ others)

  native_mode : String → List Attachment → Result LlmMode
  unfolding attach
  native_mode model_name [] =
      err (
        fault "environment %s is in native LLM mode but no subscription is attached for any vendor")
  native_mode model_name (a ∷ rest) = ok (
      attach (a ∷ rest) [] (record {
        native = true;
        role_attributes = [];
        env_vars =
            ("LLM_MODE", "native")
            ∷ (if model_name == "" then [] else ("LLM_MODEL_NAME", model_name) ∷ []);
      }))

  abbrev platform_mode : LlmMode
  platform_mode = record {
    native = false;
    role_attributes = [];
    env_vars = ("LLM_MODE", "platform") ∷ [];
  }

  -- resolveLLMMode; `configured` is whether there is an LLM client.
  unfoldable pub resolve_llm_mode : ℕ → Bool → Option Environment → String → String → Result LlmMode
  unfolding list_subscription_attachments native_mode
  resolve_llm_mode fuel configured none agent_id model_name = ok platform_mode
  resolve_llm_mode fuel configured (some e) agent_id model_name =
      if not e.native
      then ok platform_mode
      else if not configured
      then err (fault "environment %s is in native LLM mode but the LLM service is not configured")
      else list_subscription_attachments fuel e.organization_id agent_id e.id
        >>= native_mode model_name
