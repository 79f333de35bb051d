-- ===== src/Directory/Projection.antt =====
-- src/core/accesscontrol/directoryProjection.ts: a revision of a directory document as a call of the
-- builder. An object that `parseRuleDoc` takes for a clause without a check is read by a parameter.
pub mod Grants
use mindoo_db.Base.{
  ℕ, Bool, true, false, ◌&&◌, Option, some, none, List, [], ◌∷◌, ◌++◌, JsString, codes, str_dec,
  ite, or_else, is_some, map, if◌then◌else◌, ltb, length, drop, take, any,
}
use mindoo_db.JsValue.{JsValue, Fields, get_field, as_text, as_boolean, as_array, as_object}
use mindoo_db.AclId.{decode_acl_id_component}
use mindoo_db.Access.{
  RuleType, doc_create, doc_change, doc_delete, doc_undelete, doc_snapshot, doc_read, RuleAction,
  WithFieldClause, AclRuleDoc, DefaultAccessPolicyDoc,
}
use mindoo_db.GrantKeys.{
  GrantKeyPair, extract_active_key_pairs, extract_wipe_requested_signing_keys,
}
use mindoo_db.Directory.{UserGrantSnapshot, TrustedWitnessDoc}
use mindoo_db.Directory.Builder.{
  DirectoryRevisionDelta, default_policy, db_policy, rule, remove_rule, trusted_witness,
  remove_trusted_witness, grant_doc, remove_grant_doc, group_doc, remove_group_doc,
  DirectoryStateChainBuilder, apply_delta,
}

-- `v === "…"` of a value.
abbrev pub is_text : JsString → Option JsString → Bool
is_text s none = false
is_text s (some t) = ite (str_dec t s) true false

-- The members of RULE_TYPES.
abbrev pub rule_type_of : JsString → Option RuleType
rule_type_of s =
    if is_text (codes "doc_create") (some s)
    then some doc_create
    else if is_text (codes "doc_change") (some s)
    then some doc_change
    else if is_text (codes "doc_delete") (some s)
    then some doc_delete
    else if is_text (codes "doc_undelete") (some s)
    then some doc_undelete
    else if is_text (codes "doc_snapshot") (some s)
    then some doc_snapshot
    else if is_text (codes "doc_read") (some s)
    then some doc_read
    else none

abbrev pub acl_default_policy_doc_id : JsString
acl_default_policy_doc_id = codes "acl_defaultpolicy"

abbrev pub acl_db_policy_prefix : JsString
acl_db_policy_prefix = codes "acl_dbpolicy_"

-- `docId.startsWith(prefix)`, with what follows the prefix.
abbrev pub after_prefix : JsString → JsString → Option JsString
after_prefix prefix s =
    ite (str_dec (take (length prefix) s) prefix) (some (drop (length prefix) s)) none

-- The types of `accesscontrol` documents that have no projection.
abbrev pub skipped_types : List JsString
skipped_types =
    codes "keydistribution"
    ∷ codes "appdistribution"
    ∷ codes "syncsetuppolicy"
    ∷ codes "dochistorypurge"
    ∷ []

abbrev pub keep_some : {A B : Type 0} → (A → Option B) → List A → List B
keep_some f [] = []
keep_some f (x ∷ xs) = let rest = keep_some f xs in elim (f x) [ none ↦ rest | some y ↦ y ∷ rest ]

abbrev pub type_as_rule : Option JsString → Option RuleType
type_as_rule none = none
type_as_rule (some type) = rule_type_of type

pub record DirectoryRevisionInput (Num : Type 0) : Type 0 where
  pub doc_id : JsString
  pub fields : Fields Num
  pub deleted : Bool
  pub trusted_time : ℕ
  pub normalize_group_name : JsString → JsString

module _ {Num : Type 0} where
  abbrev pub text_field : JsString → Fields Num → Option JsString
  text_field key fs = as_text (get_field key fs)

  abbrev pub flag : JsString → Fields Num → Option Bool
  flag key fs = as_boolean (get_field key fs)

  unfoldable pub parse_policy_doc : Fields Num → DefaultAccessPolicyDoc
  parse_policy_doc fs = record {
    disable_all_access_checks_and_policies = flag (codes "disableAllAccessChecksAndPolicies") fs;
    deny_doc_create = flag (codes "denyDocCreate") fs;
    deny_doc_change = flag (codes "denyDocChange") fs;
    deny_doc_delete = flag (codes "denyDocDelete") fs;
    deny_doc_undelete = flag (codes "denyDocUndelete") fs;
    deny_doc_snapshot = flag (codes "denyDocSnapshot") fs;
    deny_doc_read = flag (codes "denyDocRead") fs;
    default_create_key_id = text_field (codes "defaultCreateKeyId") fs;
  }

  abbrev pub string_members : JsValue Num → List JsString
  string_members v = keep_some as_text (or_else (as_array v) [])

  abbrev pub clause_fields : JsValue Num → Option (Fields Num)
  clause_fields v = elim (as_object v) [
    | none ↦ none
    | some fs ↦ if is_some (text_field (codes "key") fs) then some fs else none
  ]

  abbrev pub grant_of : JsString → Fields Num → UserGrantSnapshot
  grant_of hash fs =
      let pairs = extract_active_key_pairs fs in
      record {
        username_hash = hash;
        signing_keys = map (λ p. p.signing_public_key) pairs;
        encryption_keys = map (λ p. p.encryption_public_key) pairs;
        wipe_requested_signing_keys = extract_wipe_requested_signing_keys fs;
        active = ltb 0 (length (map (λ p. p.signing_public_key) pairs));
      }

  abbrev pub project_grant_doc : DirectoryRevisionInput Num → Option (DirectoryRevisionDelta Num)
  project_grant_doc r =
      if r.deleted
      then some (remove_grant_doc r.trusted_time r.doc_id)
      else elim (text_field (codes "username_hash") r.fields) [
        | none ↦ none
        | some hash ↦ some (grant_doc r.trusted_time r.doc_id (grant_of hash r.fields))
      ]

  abbrev pub project_group_doc : DirectoryRevisionInput Num → Option (DirectoryRevisionDelta Num)
  project_group_doc r = elim (text_field (codes "groupName") r.fields) [
    | none ↦ none
    | some name ↦ some (
        if r.deleted
        then remove_group_doc r.trusted_time r.doc_id
        else group_doc r.trusted_time r.doc_id (r.normalize_group_name name)
            (string_members (get_field (codes "members_hashes") r.fields)))
  ]

  abbrev pub witness_delta : ℕ → Bool → JsString → Fields Num → DirectoryRevisionDelta Num
  witness_delta t deleted key fs =
      if deleted
      then remove_trusted_witness t key
      else trusted_witness t
          (record { witness_public_key = key; server_url = text_field (codes "serverUrl") fs })

  module _ (clause_of : Fields Num → WithFieldClause Num) where
    abbrev pub clauses_of : Option (List (JsValue Num)) → Option (List (WithFieldClause Num))
    clauses_of none = none
    clauses_of (some vs) = some (map clause_of (keep_some clause_fields vs))

    unfoldable pub parse_rule_doc : Fields Num → RuleType → JsString → AclRuleDoc Num
    parse_rule_doc fs type rule_id = record {
      type = type;
      rule_id = rule_id;
      dbid = or_else (text_field (codes "dbid") fs) (codes "*");
      withfields = clauses_of (as_array (get_field (codes "withfields") fs));
      users_hashes = string_members (get_field (codes "users_hashes") fs);
      action =
          if is_text (codes "deny") (text_field (codes "action") fs)
          then RuleAction.deny
          else RuleAction.allow;
    }

    module _ (text_decode : List ℕ → JsString) where
      -- The delta of the builder's call for an `accesscontrol` document, if it makes one.
      abbrev pub policy_delta : ℕ → JsString → Fields Num → Option (DirectoryRevisionDelta Num)
      policy_delta t doc_id fs =
          ite (str_dec doc_id acl_default_policy_doc_id)
            (some (default_policy t (parse_policy_doc fs)))
            (elim (after_prefix acl_db_policy_prefix doc_id) [
              | none ↦ none
              | some encoded ↦
                  some (
                    db_policy t (decode_acl_id_component text_decode encoded) (parse_policy_doc fs))
            ])

      abbrev pub rule_delta :
          ℕ
          → Bool
          → Option RuleType
          → Option JsString
          → Fields Num
          → Option (DirectoryRevisionDelta Num)
      rule_delta t deleted none id fs = none
      rule_delta t deleted (some type) none fs = none
      rule_delta t deleted (some type) (some id) fs =
          some (if deleted then remove_rule t id type else rule t (parse_rule_doc fs type id))

      -- Behind the tests of the other types: a witness, or else a rule.
      abbrev pub witness_or_rule : ℕ → Bool → Fields Num → Option (DirectoryRevisionDelta Num)
      witness_or_rule t deleted fs =
          let type = text_field (codes "type") fs in
          let as_rule =
            rule_delta t deleted (type_as_rule type) (text_field (codes "ruleId") fs) fs in
          elim (text_field (codes "witnessPublicKey") fs) [
            | none ↦ as_rule
            | some key ↦
                if is_text (codes "trustedwitness") type
                then some (witness_delta t deleted key fs)
                else as_rule
          ]

      unfoldable pub project_access_control_doc :
          JsString → Fields Num → Bool → ℕ → Option (DirectoryRevisionDelta Num)
      unfolding parse_policy_doc parse_rule_doc decode_acl_id_component
      project_access_control_doc doc_id fs deleted t =
          let type = text_field (codes "type") fs in
          if is_text (codes "defaultpolicy") type
          then (if deleted then none else policy_delta t doc_id fs)
          else if any (λ s. is_text s type) skipped_types
          then none
          else witness_or_rule t deleted fs

      -- The call that a revision makes, as its delta.
      unfoldable pub revision_delta :
          DirectoryRevisionInput Num → Option (DirectoryRevisionDelta Num)
      unfolding project_access_control_doc
      revision_delta r =
          let form = text_field (codes "form") r.fields in
          let type = text_field (codes "type") r.fields in
          if is_text (codes "useroperation") form && is_text (codes "grantaccess") type
          then project_grant_doc r
          else if is_text (codes "accesscontrol") form
          then project_access_control_doc r.doc_id r.fields r.deleted r.trusted_time
          else if is_text (codes "group") form && is_text (codes "group") type
          then project_group_doc r
          else none

      unfoldable pub project_directory_revision :
          DirectoryStateChainBuilder Num
          → DirectoryRevisionInput Num
          → DirectoryStateChainBuilder Num
      unfolding revision_delta
      project_directory_revision b r = elim (revision_delta r) [
        | none ↦ b
        | some d ↦ apply_delta b d
      ]
