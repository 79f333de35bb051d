-- ===== src/Access/Verdict.antt =====
-- What an access decision depends on: deny rules override allow rules, which override the baseline,
-- in whatever order the rules stand.
use mindoo_db.Base.{
  ◌≡◌, Bool, true, false, not, ◌&&◌, ◌||◌, List, [], ◌∷◌, foldl, any, is_some, arith, if◌then◌else◌,
}
use mindoo_db.Access.{RuleAction, allow, deny, AclRuleDoc}
use mindoo_db.Access.Values.{Values}
use mindoo_db.Access.Evaluate.{
  EvaluateAccessInput, is_tier2, with_fields_pass, Matched, nothing_matched, defer, record_match,
  match_rule, candidate_rules, decide_matched, effective, enforce, evaluate_access, deny_field,
}

abbrev pub is_deny : RuleAction → Bool
is_deny deny = true
is_deny allow = false

module _ (V : Values) where
  open V use {Num}

  -- The rule is evaluated here and its clauses, if any, hold.
  abbrev pub applies : EvaluateAccessInput V → AclRuleDoc Num → Bool
  applies input r = if is_tier2 V r then not input.is_server && with_fields_pass V r input else true

  abbrev pub denies : EvaluateAccessInput V → AclRuleDoc Num → Bool
  denies input r = is_deny r.action && applies input r

  abbrev pub allows : EvaluateAccessInput V → AclRuleDoc Num → Bool
  allows input r = not (is_deny r.action) && applies input r

  -- A Tier 2 allow rule that the server leaves to the client.
  abbrev pub allow_left : EvaluateAccessInput V → AclRuleDoc Num → Bool
  allow_left input r = not (is_deny r.action) && (is_tier2 V r && input.is_server)

  record Summary (input : EvaluateAccessInput V) (s : Matched V) (rs : List (AclRuleDoc Num))
      (t : Matched V) : Type 0 where
    denied : is_some t.deny_matched ≡ (is_some s.deny_matched || any (denies input) rs)
    allowed : is_some t.allow_matched ≡ (is_some s.allow_matched || any (allows input) rs)
    left : t.tier2_allow_deferred ≡ (s.tier2_allow_deferred || any (allow_left input) rs)

  match_rule-Summary :
      (input : EvaluateAccessInput V) (s : Matched V) (r : AclRuleDoc Num)
      → Summary input s (r ∷ []) (match_rule V input s r)
  unfolding match_rule defer record_match
  match_rule-Summary input s r = ground arith

  match_loop-Summary :
      (input : EvaluateAccessInput V) (rs : List (AclRuleDoc Num)) (s : Matched V)
      → Summary input s rs (foldl (match_rule V input) s rs)
  match_loop-Summary input [] s = ground arith
  match_loop-Summary input (r ∷ rs) s =
      ground
        (arith, match_rule-Summary input s r, match_loop-Summary input rs (match_rule V input s r))

  -- Only the server leaves a rule to the client.
  allow_left-server :
      (input : EvaluateAccessInput V) (rs : List (AclRuleDoc Num))
      → (input.is_server && any (allow_left input) rs) ≡ any (allow_left input) rs
  allow_left-server input [] = ground arith
  allow_left-server input (r ∷ rs) = ground (arith, allow_left-server input rs)

  decide_matched-allowed :
      (input : EvaluateAccessInput V) (baseline_denied : Bool) (s : Matched V)
      → (decide_matched V input baseline_denied s).allowed ≡ (
          not (is_some s.deny_matched)
          && (is_some s.allow_matched
              || (not baseline_denied || (input.is_server && s.tier2_allow_deferred))))
  unfolding decide_matched
  decide_matched-allowed input baseline_denied s = ground arith

  -- The verdict by the sets of rules alone.
  abbrev pub verdict : EvaluateAccessInput V → Bool
  verdict input =
      let rules = candidate_rules V input in
      not (any (denies input) rules)
      && (any (allows input) rules
          || (not (deny_field (effective V input) input.op) || any (allow_left input) rules))

  pub enforce-verdict : (input : EvaluateAccessInput V) → (enforce V input).allowed ≡ verdict input
  unfolding enforce
  enforce-verdict input = ground (
    arith,
    decide_matched-allowed input (deny_field (effective V input) input.op)
        (foldl (match_rule V input) (nothing_matched V) (candidate_rules V input)),
    match_loop-Summary input (candidate_rules V input) (nothing_matched V),
    allow_left-server input (candidate_rules V input),
  )

  -- The decision is to allow exactly in three cases: access control was never enabled; the master
  -- switch is on; or no candidate rule denies, and either one allows, or the baseline does, or the
  -- server leaves a Tier 2 allow rule to the client. The order of the rules has no part in it.
  pub evaluate_access-verdict :
      (input : EvaluateAccessInput V)
      → (evaluate_access V input).allowed ≡ (
          not (is_some input.node.default_policy)
          || ((effective V input).disable_all_access_checks_and_policies || verdict input))
  unfolding evaluate_access
  evaluate_access-verdict input = ground (arith, enforce-verdict input)
