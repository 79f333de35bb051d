-- ===== src/Tests/AccessTests.antt =====
-- Access control at a sample policy: documents are leaves or flat maps of texts.
use mathlib.Core.Option
use mindoo_db.Base.{
  ℕ, ◌≡◌, ◌↔◌, ◌||◌, not, refl, true, false, Option, some, none, List, [], ◌∷◌, JsString, str_dec,
  lookup, is_some, has, Distinct, ltb, leb, ◌==◌,
}
use mindoo_db.Access.{
  RuleType, doc_change, deny, allow, equals, string, AclRuleDoc, DefaultAccessPolicyDoc,
  effective_policy,
}
use mindoo_db.Access.Values.{Values, View, text, object}
use mindoo_db.Access.Evaluate.{
  EvaluateAccessInput, candidate_rules, intersects, evaluate_access, enforce, match_rule, defer,
  record_match, with_fields_pass, decide_matched, effective,
}
use mindoo_db.Access.Verdict.{verdict, evaluate_access-verdict}
use mindoo_db.Access.Server.{on_client, server_denial}
use mindoo_db.Guard.{snapshot_heads_match}
use mindoo_db.Guard.Heads.{snapshot_heads_match-Distinct}
use mindoo_db.Tests.{text_a, text_b, text_c, doc_one}

data Sample : Type 0 where
  leaf : JsString → Sample
  flat : List (JsString × JsString) → Sample

abbrev sample_view : Sample → View ℕ Sample
sample_view (leaf s) = text s
sample_view (flat fields) = object

abbrev sample_property : Sample → JsString → Option Sample
sample_property (leaf s) key = none
sample_property (flat fields) key = Option.map leaf (lookup str_dec key fields)

abbrev sample_values : Values
sample_values = record {
  Num = ℕ;
  num_eq = ◌==◌;
  num_same = ◌==◌;
  num_lt = ltb;
  num_le = leb;
  Value = Sample;
  view = sample_view;
  property = sample_property;
}

abbrev open_policy : DefaultAccessPolicyDoc
open_policy = record {
  disable_all_access_checks_and_policies = none;
  deny_doc_create = none;
  deny_doc_change = some false;
  deny_doc_delete = none;
  deny_doc_undelete = none;
  deny_doc_snapshot = none;
  deny_doc_read = none;
  default_create_key_id = none;
}

-- Changes are denied to one user, whatever the document.
abbrev locked_out : AclRuleDoc ℕ
locked_out = record {
  type = doc_change;
  rule_id = text_a;
  dbid = b'*' ∷ [];
  withfields = none;
  users_hashes = text_b ∷ [];
  action = deny;
}

-- Changes are allowed where the field `a` is `c`.
abbrev if_open : AclRuleDoc ℕ
if_open = record {
  type = doc_change;
  rule_id = text_b;
  dbid = doc_one;
  withfields = some (record { key = text_a; op = equals; value = string text_c; when = none } ∷ []);
  users_hashes = text_b ∷ [];
  action = allow;
}

abbrev rules_of : List (AclRuleDoc ℕ) → RuleType → List (AclRuleDoc ℕ)
rules_of rules doc_change = rules
rules_of rules _ = []

abbrev sample_input : List (AclRuleDoc ℕ) → EvaluateAccessInput sample_values
sample_input rules = record {
  op = doc_change;
  dbid = doc_one;
  identity = record {
    username = text_a;
    usernames = text_a ∷ [];
    groups = [];
    hashes = text_b ∷ [];
  };
  node = record {
    default_policy = some open_policy;
    db_policies = [];
    rules_by_type = rules_of rules;
  };
  before_doc = some (flat ((text_a, text_c) ∷ []));
  after_doc = none;
  is_server = false;
}

abbrev both_rules : EvaluateAccessInput sample_values
both_rules = sample_input (if_open ∷ locked_out ∷ [])

evaluate_access-verdict_example : (evaluate_access sample_values both_rules).allowed ≡ (
    not (is_some both_rules.node.default_policy)
    || ((effective sample_values both_rules).disable_all_access_checks_and_policies
        || verdict sample_values both_rules))
evaluate_access-verdict_example = evaluate_access-verdict sample_values both_rules

server_denial_example :
    (evaluate_access sample_values (on_client sample_values both_rules)).allowed ≡ false
unfolding evaluate_access enforce candidate_rules intersects match_rule defer record_match
    with_fields_pass decide_matched effective_policy str_dec lookup
server_denial_example = server_denial sample_values both_rules refl

snapshot_heads_match-Distinct_example :
    (snapshot_heads_match (text_a ∷ text_b ∷ []) (some (text_b ∷ text_a ∷ [])) ≡ true) ↔ (
      Distinct str_dec (text_b ∷ text_a ∷ [])
      × ((a : JsString)
          → has str_dec a (text_a ∷ text_b ∷ []) ≡ has str_dec a (text_b ∷ text_a ∷ [])))
unfolding str_dec
snapshot_heads_match-Distinct_example =
    snapshot_heads_match-Distinct (text_a ∷ text_b ∷ []) (some (text_b ∷ text_a ∷ []))
      (refl, (refl, tt))

-- Decoded heads that repeat: two lists of different sets pass the test.
repeated_heads : snapshot_heads_match (text_a ∷ text_a ∷ []) (some (text_a ∷ text_b ∷ [])) ≡ true
unfolding snapshot_heads_match str_dec
repeated_heads = refl
