-- ===== src/Access/Evaluate.antt =====
-- `evaluateAccess` of src/core/accesscontrol/evaluate.ts.
use mindoo_db.Base.{
  Bool, true, false, not, ◌&&◌, Option, some, none, List, [], ◌∷◌, foldl, JsString, str_dec, ite,
  has, any, all, is_some, or_else, lookup, filterb, if◌then◌else◌,
}
use mindoo_db.Access.{
  RuleType, doc_create, doc_change, doc_delete, doc_undelete, doc_snapshot, doc_read, WithFieldWhen,
  before, after, allow, deny, AccessTier, tier1, tier2, WithFieldClause, AclRuleDoc,
  EffectivePolicy, effective_policy, not_enabled, master_switch, denied_by_rule, allowed_by_rule,
  allow_deferred, deny_deferred, denied_by_baseline, allowed_by_baseline, AccessDecision,
  DirectoryStateNode,
}
use mindoo_db.Access.Values.{Values, IdentitySet, default_when_for_op, evaluate_clause}

-- The rule list's `*`.
abbrev pub any_database : JsString
any_database = b'*' ∷ []

unfoldable pub intersects : List JsString → List JsString → Bool
intersects hashes set = any (λ h. has str_dec h set) hashes

abbrev pub deny_field : EffectivePolicy → RuleType → Bool
deny_field e doc_create = e.deny_doc_create
deny_field e doc_change = e.deny_doc_change
deny_field e doc_delete = e.deny_doc_delete
deny_field e doc_undelete = e.deny_doc_undelete
deny_field e doc_snapshot = e.deny_doc_snapshot
deny_field e doc_read = e.deny_doc_read

module _ (V : Values) where
  open V use {Num, Value}

  pub record EvaluateAccessInput : Type 0 where
    pub op : RuleType
    pub dbid : JsString
    pub identity : IdentitySet
    pub node : DirectoryStateNode Num
    pub before_doc : Option Value
    pub after_doc : Option Value
    pub is_server : Bool

  abbrev pub clauses : AclRuleDoc Num → List (WithFieldClause Num)
  clauses r = or_else r.withfields []

  -- `(rule.withfields?.length ?? 0) > 0`
  abbrev pub is_tier2 : AclRuleDoc Num → Bool
  is_tier2 r = elim (clauses r) [ [] ↦ false | _ ∷ _ ↦ true ]

  abbrev pub doc_at : EvaluateAccessInput → WithFieldWhen → Option Value
  doc_at input before = input.before_doc
  doc_at input after = input.after_doc

  unfoldable pub with_fields_pass : AclRuleDoc Num → EvaluateAccessInput → Bool
  with_fields_pass r input =
      all
        (λ c.
          evaluate_clause V c (doc_at input (or_else c.when (default_when_for_op input.op)))
            input.identity)
        (clauses r)

  -- The variables of the loop over the rules.
  pub record Matched : Type 0 where
    pub deny_matched : Option (AclRuleDoc Num × AccessTier)
    pub allow_matched : Option (AclRuleDoc Num × AccessTier)
    pub tier2_allow_deferred : Bool
    pub tier2_deny_deferred : Bool

  abbrev pub nothing_matched : Matched
  nothing_matched = record {
    deny_matched = none;
    allow_matched = none;
    tier2_allow_deferred = false;
    tier2_deny_deferred = false;
  }

  -- A Tier 2 rule on the server: its action is only remembered.
  unfoldable pub defer : Matched → AclRuleDoc Num → Matched
  defer s r = elim r.action [
    | allow ↦ record s { tier2_allow_deferred = true }
    | deny ↦ record s { tier2_deny_deferred = true }
  ]

  -- A rule that applies: the first of its action is kept.
  unfoldable pub record_match : Matched → AclRuleDoc Num → AccessTier → Matched
  record_match s r tier = elim r.action [
    | deny ↦ if is_some s.deny_matched then s else record s { deny_matched = some (r, tier) }
    | allow ↦ if is_some s.allow_matched then s else record s { allow_matched = some (r, tier) }
  ]

  -- The body of the loop.
  unfoldable pub match_rule : EvaluateAccessInput → Matched → AclRuleDoc Num → Matched
  unfolding defer record_match with_fields_pass
  match_rule input s r =
      if is_tier2 r && input.is_server
      then defer s r
      else if is_tier2 r
      then (if with_fields_pass r input then record_match s r tier2 else s)
      else record_match s r tier1

  unfoldable pub candidate_rules : EvaluateAccessInput → List (AclRuleDoc Num)
  unfolding intersects
  candidate_rules input =
      filterb
        (λ r.
          (ite (str_dec r.dbid input.dbid) true (ite (str_dec r.dbid any_database) true false))
          && intersects r.users_hashes input.identity.hashes)
        (input.node.rules_by_type input.op)

  -- Step 5 and what follows it.
  unfoldable pub decide_matched : EvaluateAccessInput → Bool → Matched → AccessDecision
  decide_matched input baseline_denied s = elim s.deny_matched [
    | some (r, tier) ↦ record {
      allowed = false;
      reason = denied_by_rule r.rule_id;
      matched_rule_id = some r.rule_id;
      tier = tier;
    }
    | none ↦ elim s.allow_matched [
      | some (r, tier) ↦ record {
        allowed = true;
        reason = allowed_by_rule r.rule_id;
        matched_rule_id = some r.rule_id;
        tier = tier;
      }
      | none ↦
          if input.is_server && baseline_denied && s.tier2_allow_deferred
          then record {
            allowed = true;
            reason = allow_deferred;
            matched_rule_id = none;
            tier = tier1;
          }
          else if input.is_server && not baseline_denied && s.tier2_deny_deferred
          then record {
            allowed = true;
            reason = deny_deferred;
            matched_rule_id = none;
            tier = tier1;
          }
          else if baseline_denied
          then record {
            allowed = false;
            reason = denied_by_baseline input.op;
            matched_rule_id = none;
            tier = tier1;
          }
          else record {
            allowed = true;
            reason = allowed_by_baseline input.op;
            matched_rule_id = none;
            tier = tier1;
          }
    ]
  ]

  abbrev pub effective : EvaluateAccessInput → EffectivePolicy
  effective input =
      effective_policy input.node.default_policy (lookup str_dec input.dbid input.node.db_policies)

  -- Steps 2 to 5, where access control is on.
  unfoldable pub enforce : EvaluateAccessInput → AccessDecision
  enforce input =
      decide_matched input (deny_field (effective input) input.op)
        (foldl (match_rule input) nothing_matched (candidate_rules input))

  unfoldable pub evaluate_access : EvaluateAccessInput → AccessDecision
  evaluate_access input = elim input.node.default_policy [
    | none ↦ record { allowed = true; reason = not_enabled; matched_rule_id = none; tier = tier1 }
    | some _ ↦
        if (effective input).disable_all_access_checks_and_policies
        then record { allowed = true; reason = master_switch; matched_rule_id = none; tier = tier1 }
        else enforce input
  ]
