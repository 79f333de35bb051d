-- ===== src/Directory/Builder.antt =====
-- `DirectoryStateChainBuilder` of src/core/accesscontrol/DirectoryStateNode.ts: the calls that extend
-- the chain, the log that they keep, and the replay of a log. A call is written as the delta that
-- stands for it; `setGroups` is called with a map from the names of the groups.
pub mod Replay
pub mod TimeTravel
pub mod Index
pub mod Steps
pub mod Grants
pub mod Groups
pub mod Union
use mindoo_db.Base.{
  ℕ, Bool, true, false, not, Option, some, none, List, [], ◌∷◌, ◌++◌, JsString, str_dec, ite,
  is_some, or_else, lookup, set, delete, keys, values, map, foldl, filterb, add, if◌then◌else◌, ltb,
  length,
}
use mindoo_db.Access.{RuleType, AclRuleDoc, DefaultAccessPolicyDoc}
use mindoo_db.Directory.{
  UserGrantSnapshot, GroupSnapshot, TrustedWitnessDoc, DirectoryNode, Chain, first, linked,
  create_genesis_node, node_of, build_by_signing_key, grant_for_signing_key, node_covering,
}
use mindoo_db.Directory.Contributions.{union_group, group_map, user_union, united_grant}

unfoldable pub RuleType-discrete : Discrete RuleType
RuleType-discrete = hlevel

pub data DirectoryRevisionDelta (Num : Type 0) : Type 0 where
  default_policy : ℕ → DefaultAccessPolicyDoc → DirectoryRevisionDelta Num
  db_policy : ℕ → JsString → DefaultAccessPolicyDoc → DirectoryRevisionDelta Num
  rule : ℕ → AclRuleDoc Num → DirectoryRevisionDelta Num
  remove_rule : ℕ → JsString → RuleType → DirectoryRevisionDelta Num
  trusted_witness : ℕ → TrustedWitnessDoc → DirectoryRevisionDelta Num
  remove_trusted_witness : ℕ → JsString → DirectoryRevisionDelta Num
  grant : ℕ → UserGrantSnapshot → DirectoryRevisionDelta Num
  grant_doc : ℕ → JsString → UserGrantSnapshot → DirectoryRevisionDelta Num
  remove_grant_doc : ℕ → JsString → DirectoryRevisionDelta Num
  revoke_by_signing_key : ℕ → JsString → DirectoryRevisionDelta Num
  group_doc : ℕ → JsString → JsString → List JsString → DirectoryRevisionDelta Num
  remove_group_doc : ℕ → JsString → DirectoryRevisionDelta Num
  set_groups : ℕ → List GroupSnapshot → DirectoryRevisionDelta Num

pub record DirectoryStateChainBuilder (Num : Type 0) : Type 0 where
  pub head : Chain Num
  pub delta_log : List (DirectoryRevisionDelta Num)
  pub group_contributions : List (JsString × GroupSnapshot)
  pub grant_contributions : List (JsString × UserGrantSnapshot)

-- The code units of "grant:".
abbrev pub grant_prefix : JsString
grant_prefix = b'g' ∷ b'r' ∷ b'a' ∷ b'n' ∷ b't' ∷ b':' ∷ []

-- `Math.max` with a bound.
abbrev pub max_bound : ℕ → Option ℕ → Option ℕ
max_bound t none = some t
max_bound t (some bound) = some (if ltb t bound then bound else t)

module _ {Num : Type 0} where
  -- A new builder, and `reset`.
  abbrev pub new_builder : DirectoryStateChainBuilder Num
  new_builder = record {
    head = first create_genesis_node;
    delta_log = [];
    group_contributions = [];
    grant_contributions = [];
  }

  abbrev pub next_node : ℕ → DirectoryNode Num → DirectoryNode Num
  next_node t n = record n { trusted_time_upper_bound = max_bound t n.trusted_time_upper_bound }

  unfoldable pub push :
      ℕ
      → (DirectoryNode Num → DirectoryNode Num)
      → DirectoryStateChainBuilder Num
      → DirectoryStateChainBuilder Num
  push t mutate b = record b { head = linked (mutate (next_node t (node_of b.head))) b.head }

  abbrev pub logged :
      DirectoryRevisionDelta Num → DirectoryStateChainBuilder Num → DirectoryStateChainBuilder Num
  logged d b = record b { delta_log = b.delta_log ++ (d ∷ []) }

  abbrev set_rules : RuleType → List (AclRuleDoc Num) → DirectoryNode Num → DirectoryNode Num
  set_rules type rules n = record n {
    rules_by_type = λ u. ite (RuleType-discrete u type) rules (n.rules_by_type u);
  }

  abbrev other_rules : JsString → List (AclRuleDoc Num) → List (AclRuleDoc Num)
  other_rules id rules = filterb (λ r. ite (str_dec r.rule_id id) false true) rules

  abbrev pub with_users :
      List (JsString × UserGrantSnapshot) → DirectoryNode Num → DirectoryNode Num
  with_users users n = record n {
    users_by_hash = users;
    by_signing_key = build_by_signing_key users;
  }

  unfoldable pub recompute_user :
      JsString → ℕ → DirectoryStateChainBuilder Num → DirectoryStateChainBuilder Num
  unfolding push
  recompute_user hash t b =
      let u = user_union hash b.grant_contributions in
      push t
        (λ n.
          with_users
            (if u.has_contribution
              then set str_dec hash (united_grant hash u) n.users_by_hash
              else delete str_dec hash n.users_by_hash)
            n)
        b

  unfoldable pub recompute_group :
      JsString → ℕ → DirectoryStateChainBuilder Num → DirectoryStateChainBuilder Num
  unfolding push
  recompute_group name t b =
      let u = foldl (union_group name) ([], false) (values b.group_contributions) in
      push t
        (λ n. record n {
          groups_by_name =
              if u.1
              then set str_dec name (record { name = name; member_hashes = u.0 }) n.groups_by_name
              else delete str_dec name n.groups_by_name;
        })
        b

  -- A document that was another user's leaves that user.
  unfoldable pub recompute_previous :
      Option UserGrantSnapshot
      → JsString
      → ℕ
      → DirectoryStateChainBuilder Num
      → DirectoryStateChainBuilder Num
  unfolding recompute_user
  recompute_previous none hash t b = b
  recompute_previous (some previous) hash t b =
      ite (str_dec previous.username_hash hash) b (recompute_user previous.username_hash t b)

  -- The contribution is noted in the log and in its map.
  abbrev pub granted :
      ℕ
      → JsString
      → UserGrantSnapshot
      → DirectoryStateChainBuilder Num
      → DirectoryStateChainBuilder Num
  granted t doc_id g b = record (logged (grant_doc t doc_id g) b) {
    grant_contributions = set str_dec doc_id g b.grant_contributions;
  }

  abbrev pub ungranted :
      ℕ → JsString → DirectoryStateChainBuilder Num → DirectoryStateChainBuilder Num
  ungranted t doc_id b = record (logged (remove_grant_doc t doc_id) b) {
    grant_contributions = delete str_dec doc_id b.grant_contributions;
  }

  unfoldable pub apply_grant_doc :
      ℕ
      → JsString
      → UserGrantSnapshot
      → DirectoryStateChainBuilder Num
      → DirectoryStateChainBuilder Num
  unfolding recompute_previous recompute_user
  apply_grant_doc t doc_id g b = recompute_user g.username_hash t (
      recompute_previous (lookup str_dec doc_id b.grant_contributions) g.username_hash t
        (granted t doc_id g b))

  unfoldable pub apply_remove_grant_doc :
      ℕ → JsString → DirectoryStateChainBuilder Num → DirectoryStateChainBuilder Num
  unfolding recompute_user
  apply_remove_grant_doc t doc_id b = elim (lookup str_dec doc_id b.grant_contributions) [
    | none ↦ b
    | some existing ↦ recompute_user existing.username_hash t (ungranted t doc_id b)
  ]

  unfoldable pub apply_revoke :
      ℕ → JsString → DirectoryStateChainBuilder Num → DirectoryStateChainBuilder Num
  unfolding push
  apply_revoke t key b = elim (grant_for_signing_key (node_of b.head) key) [
    | none ↦ b
    | some g ↦
        push t
          (λ n.
            with_users (set str_dec g.username_hash (record g { active = false }) n.users_by_hash)
              n)
          (logged (revoke_by_signing_key t key) b)
  ]

  unfoldable pub apply_group_doc :
      ℕ
      → JsString
      → JsString
      → List JsString
      → DirectoryStateChainBuilder Num
      → DirectoryStateChainBuilder Num
  unfolding recompute_group
  apply_group_doc t doc_id name members b =
      recompute_group name t (record (logged (group_doc t doc_id name members) b) {
        group_contributions =
            set str_dec doc_id (record { name = name; member_hashes = members })
              b.group_contributions;
      })

  unfoldable pub apply_remove_group_doc :
      ℕ → JsString → DirectoryStateChainBuilder Num → DirectoryStateChainBuilder Num
  unfolding recompute_group
  apply_remove_group_doc t doc_id b = elim (lookup str_dec doc_id b.group_contributions) [
    | none ↦ b
    | some existing ↦
        recompute_group existing.name t (record (logged (remove_group_doc t doc_id) b) {
          group_contributions = delete str_dec doc_id b.group_contributions;
        })
  ]

  -- `setGroups`, with the map of the groups.
  unfoldable pub apply_groups :
      ℕ
      → List (JsString × GroupSnapshot)
      → DirectoryStateChainBuilder Num
      → DirectoryStateChainBuilder Num
  unfolding push
  apply_groups t groups b =
      push t (λ n. record n { groups_by_name = groups }) (logged (set_groups t (values groups)) b)

  -- The `switch` of `importDeltaLog`, by which every call can be written.
  unfoldable pub apply_delta :
      DirectoryStateChainBuilder Num → DirectoryRevisionDelta Num → DirectoryStateChainBuilder Num
  unfolding push apply_grant_doc apply_remove_grant_doc apply_revoke apply_group_doc
      apply_remove_group_doc apply_groups
  apply_delta b (default_policy t policy) =
      push t (λ n. record n { default_policy = some policy }) (logged (default_policy t policy) b)
  apply_delta b (db_policy t dbid policy) =
      push t (λ n. record n { db_policies = set str_dec dbid policy n.db_policies })
        (logged (db_policy t dbid policy) b)
  apply_delta b (rule t r) =
      push t (λ n. set_rules r.type (other_rules r.rule_id (n.rules_by_type r.type) ++ (r ∷ [])) n)
        (logged (rule t r) b)
  apply_delta b (remove_rule t id type) =
      push t (λ n. set_rules type (other_rules id (n.rules_by_type type)) n)
        (logged (remove_rule t id type) b)
  apply_delta b (trusted_witness t w) =
      push t
        (λ n. record n {
          trusted_witness_keys = set str_dec w.witness_public_key w n.trusted_witness_keys;
        })
        (logged (trusted_witness t w) b)
  apply_delta b (remove_trusted_witness t key) =
      push t (λ n. record n { trusted_witness_keys = delete str_dec key n.trusted_witness_keys })
        (logged (remove_trusted_witness t key) b)
  apply_delta b (grant t g) = apply_grant_doc t (grant_prefix ++ g.username_hash) g b
  apply_delta b (grant_doc t doc_id g) = apply_grant_doc t doc_id g b
  apply_delta b (remove_grant_doc t doc_id) = apply_remove_grant_doc t doc_id b
  apply_delta b (revoke_by_signing_key t key) = apply_revoke t key b
  apply_delta b (group_doc t doc_id name members) = apply_group_doc t doc_id name members b
  apply_delta b (remove_group_doc t doc_id) = apply_remove_group_doc t doc_id b
  apply_delta b (set_groups t groups) = apply_groups t (group_map groups) b

  unfoldable pub import_delta_log :
      List (DirectoryRevisionDelta Num) → DirectoryStateChainBuilder Num
  unfolding apply_delta
  import_delta_log deltas = foldl apply_delta new_builder deltas

  -- `getStateAt`
  abbrev pub get_state_at : DirectoryStateChainBuilder Num → ℕ → Chain Num
  get_state_at b t = node_covering b.head t

  abbrev pub time_of : DirectoryRevisionDelta Num → ℕ
  time_of (default_policy t _) = t
  time_of (db_policy t _ _) = t
  time_of (rule t _) = t
  time_of (remove_rule t _ _) = t
  time_of (trusted_witness t _) = t
  time_of (remove_trusted_witness t _) = t
  time_of (grant t _) = t
  time_of (grant_doc t _ _) = t
  time_of (remove_grant_doc t _) = t
  time_of (revoke_by_signing_key t _) = t
  time_of (group_doc t _ _ _) = t
  time_of (remove_group_doc t _) = t
  time_of (set_groups t _) = t
