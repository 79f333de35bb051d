-- ===== src/Access.antt =====
-- src/core/accesscontrol/types.ts: rules, policies and decisions, and the layering of a database's
-- policy over the tenant's.
pub mod Values
pub mod Evaluate
pub mod Verdict
pub mod Server
use mindoo_db.Base.{Bool, true, false, Option, some, none, List, JsString, or_else, if◌then◌else◌}

pub data RuleType : Type 0 where
  doc_create doc_change doc_delete doc_undelete doc_snapshot doc_read : RuleType

pub data Operator : Type 0 where
  equals not_equals contains contains_any contains_all exists not_exists gt gte lt lte : Operator

pub data WithFieldWhen : Type 0 where
  before after : WithFieldWhen

pub data RuleAction : Type 0 where
  allow deny : RuleAction

pub data AccessTier : Type 0 where
  tier1 tier2 : AccessTier

-- A literal of a clause; a placeholder is one of the strings.
pub data ClauseValue (Num : Type 0) : Type 0 where
  string : JsString → ClauseValue Num
  number : Num → ClauseValue Num
  boolean : Bool → ClauseValue Num
  strings : List JsString → ClauseValue Num

pub record WithFieldClause (Num : Type 0) : Type 0 where
  pub key : JsString
  pub op : Operator
  pub value : ClauseValue Num
  pub when : Option WithFieldWhen

-- The rule's form, description and encrypted targets take no part in a decision.
pub record AclRuleDoc (Num : Type 0) : Type 0 where
  pub type : RuleType
  pub rule_id : JsString
  pub dbid : JsString
  pub withfields : Option (List (WithFieldClause Num))
  pub users_hashes : List JsString
  pub action : RuleAction

-- The fields that `effectivePolicy` reads.
pub record DefaultAccessPolicyDoc : Type 0 where
  pub disable_all_access_checks_and_policies : Option Bool
  pub deny_doc_create : Option Bool
  pub deny_doc_change : Option Bool
  pub deny_doc_delete : Option Bool
  pub deny_doc_undelete : Option Bool
  pub deny_doc_snapshot : Option Bool
  pub deny_doc_read : Option Bool
  pub default_create_key_id : Option JsString

pub record EffectivePolicy : Type 0 where
  pub disable_all_access_checks_and_policies : Bool
  pub deny_doc_create : Bool
  pub deny_doc_change : Bool
  pub deny_doc_delete : Bool
  pub deny_doc_undelete : Bool
  pub deny_doc_snapshot : Bool
  pub deny_doc_read : Bool
  pub default_create_key_id : Option JsString

abbrev pub Policy : Type 0
Policy = Option DefaultAccessPolicyDoc

-- `policy?.field`
abbrev pub field_of {ℓ} : {A : Type ℓ} → (DefaultAccessPolicyDoc → Option A) → Policy → Option A
field_of f none = none
field_of f (some p) = f p

-- `a ?? b` on optional values.
abbrev pub first_of_two {ℓ} : {A : Type ℓ} → Option A → Option A → Option A
first_of_two none b = b
first_of_two (some a) b = some a

-- The database's policy, then the tenant's, then the default.
abbrev pub pick : (DefaultAccessPolicyDoc → Option Bool) → Bool → Policy → Policy → Bool
pick f default tenant db = or_else (first_of_two (field_of f db) (field_of f tenant)) default

-- The defaults are those of `DEFAULT_POLICY_DEFAULTS`.
unfoldable pub effective_policy : Policy → Policy → EffectivePolicy
effective_policy tenant db = record {
  disable_all_access_checks_and_policies =
      pick (λ p. p.disable_all_access_checks_and_policies) false tenant db;
  deny_doc_create = pick (λ p. p.deny_doc_create) false tenant db;
  deny_doc_change = pick (λ p. p.deny_doc_change) false tenant db;
  deny_doc_delete = pick (λ p. p.deny_doc_delete) false tenant db;
  deny_doc_undelete = pick (λ p. p.deny_doc_undelete) false tenant db;
  deny_doc_snapshot = pick (λ p. p.deny_doc_snapshot) true tenant db;
  deny_doc_read = pick (λ p. p.deny_doc_read) false tenant db;
  default_create_key_id =
      first_of_two (field_of (λ p. p.default_create_key_id) db)
        (field_of (λ p. p.default_create_key_id) tenant);
}

-- The reason text of a decision, one constructor for each text that `evaluateAccess` writes.
pub data Reason : Type 0 where
  not_enabled master_switch : Reason
  denied_by_rule allowed_by_rule : JsString → Reason
  allow_deferred deny_deferred : Reason
  denied_by_baseline allowed_by_baseline : RuleType → Reason

pub record AccessDecision : Type 0 where
  pub allowed : Bool
  pub reason : Reason
  pub matched_rule_id : Option JsString
  pub tier : AccessTier

-- The parts of a directory state that `evaluateAccess` reads.
pub record DirectoryStateNode (Num : Type 0) : Type 0 where
  pub default_policy : Policy
  pub db_policies : List (JsString × DefaultAccessPolicyDoc)
  pub rules_by_type : RuleType → List (AclRuleDoc Num)
