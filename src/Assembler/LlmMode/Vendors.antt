-- ===== src/Assembler/LlmMode/Vendors.antt =====
-- What a workload may reach.
use agents_orchestrator.Prelude.{
  ◌+◌, String, ◌≡◌, refl, ap, ◌∙◌, inl, inr, Bool, true, false, not, ◌&&◌, ◌||◌, Option, none, some,
  List, [], ◌∷◌, arith, count, count-append, if◌then◌else◌, ◌==◌, Bool-cases,
}
use agents_orchestrator.Assembler.LlmMode.{
  Vendor, Attachment, LlmMode, same_vendor, was_seen, vendor_role_attribute, with_vendor, attach,
}

abbrev pub has_text : String → String → Bool
has_text x y = y == x

-- A vendor whose traffic can be intercepted.
abbrev pub is_known : Vendor → Bool
is_known Vendor.anthropic = true
is_known Vendor.openai = true
is_known _ = false

abbrev pub attribute_of : Vendor → String
attribute_of Vendor.anthropic = "llm-native-anthropic"
attribute_of Vendor.openai = "llm-native-openai"
attribute_of _ = ""

abbrev pub named : Vendor → List Attachment → Bool
named v [] = false
named v (a ∷ rest) = same_vendor a.vendor v || named v rest

same_vendor-known : (u v : Vendor) → is_known v ≡ true → same_vendor u v ≡ true → u ≡ v
same_vendor-known u Vendor.unspecified h k = cc
same_vendor-known u (Vendor.other n) h k = cc
same_vendor-known Vendor.anthropic Vendor.anthropic h k = refl
same_vendor-known Vendor.openai Vendor.anthropic h k = cc
same_vendor-known Vendor.unspecified Vendor.anthropic h k = cc
same_vendor-known (Vendor.other n) Vendor.anthropic h k = cc
same_vendor-known Vendor.openai Vendor.openai h k = refl
same_vendor-known Vendor.anthropic Vendor.openai h k = cc
same_vendor-known Vendor.unspecified Vendor.openai h k = cc
same_vendor-known (Vendor.other n) Vendor.openai h k = cc

abbrev attributes : Option String → List String
attributes none = []
attributes (some name) = name ∷ []

attribute-count :
    (u v : Vendor)
    → is_known v ≡ true
    → count (has_text (attribute_of v)) (attributes (vendor_role_attribute u))
      ≡ (if same_vendor u v then 1 else 0)
unfolding vendor_role_attribute
attribute-count u Vendor.unspecified h = cc
attribute-count u (Vendor.other n) h = cc
attribute-count Vendor.unspecified Vendor.anthropic h = refl
attribute-count Vendor.anthropic Vendor.anthropic h = refl
attribute-count Vendor.openai Vendor.anthropic h = refl
attribute-count (Vendor.other n) Vendor.anthropic h = refl
attribute-count Vendor.unspecified Vendor.openai h = refl
attribute-count Vendor.anthropic Vendor.openai h = refl
attribute-count Vendor.openai Vendor.openai h = refl
attribute-count (Vendor.other n) Vendor.openai h = refl

with_vendor-count :
    (a : Attachment) (v : Vendor) (mode : LlmMode)
    → is_known v ≡ true
    → count
        (has_text (attribute_of v))
        (with_vendor a (vendor_role_attribute a.vendor) mode).role_attributes
      ≡ (if same_vendor a.vendor v then 1 else 0)
        + count (has_text (attribute_of v)) mode.role_attributes
with_vendor-count a v mode h =
    from (vendor_role_attribute a.vendor) ∙ omega (arith, attribute-count a.vendor v h)
  where
    from :
        (o : Option String)
        → count (has_text (attribute_of v)) (with_vendor a o mode).role_attributes
          ≡ count (has_text (attribute_of v)) (attributes o)
            + count (has_text (attribute_of v)) mode.role_attributes
    from none = omega arith
    from (some name) =
        omega (arith, count-append (has_text (attribute_of v)) mode.role_attributes (name ∷ []))

attach-attributes :
    (v : Vendor) (rest : List Attachment) (seen : List Vendor) (mode : LlmMode)
    → is_known v ≡ true
    → count (has_text (attribute_of v)) (attach rest seen mode).role_attributes
      ≡ (if named v rest && not (was_seen v seen) then 1 else 0)
        + count (has_text (attribute_of v)) mode.role_attributes
unfolding attach
attach-attributes v [] seen mode h = omega arith
attach-attributes v (a ∷ rest) seen mode h =
    let next = with_vendor a (vendor_role_attribute a.vendor) mode in
    let skipped = attach-attributes v rest seen mode h in
    let taken = attach-attributes v rest (a.vendor ∷ seen) next h in
    let one = with_vendor-count a v mode h in
    elim (Bool-cases (same_vendor a.vendor v)) [
      | inl e ↦
          let same = ap (λ u. was_seen u seen) (same_vendor-known a.vendor v h e) in
          elim (Bool-cases (was_seen a.vendor seen)) [
            | inl k ↦ rw (k, attach) (skipped ∙ ground (arith, e, k, same))
            | inr k ↦ rw (k, attach) (taken ∙ ground (arith, e, k, same, one))
          ]
      | inr e ↦ elim (Bool-cases (was_seen a.vendor seen)) [
        | inl k ↦ rw (k, attach) (skipped ∙ ground (arith, e, k))
        | inr k ↦ rw (k, attach) (taken ∙ ground (arith, e, k, one))
      ]
    ]

-- However many attachments name it, at whichever scope, a vendor whose traffic can be intercepted
-- contributes its role attribute once if some attachment names it, and else not at all.
pub vendor_opts_in_once :
    (v : Vendor) (attachments : List Attachment) (env_vars : List (String × String))
    → is_known v ≡ true
    → count
        (has_text (attribute_of v))
        (attach attachments []
          (record { native = true; role_attributes = []; env_vars = env_vars })).role_attributes
      ≡ (if named v attachments then 1 else 0)
vendor_opts_in_once v attachments env_vars h =
    attach-attributes v attachments []
      (record { native = true; role_attributes = []; env_vars = env_vars }) h
    ∙ ground arith
