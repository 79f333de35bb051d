-- ===== src/Directory.antt =====
-- src/core/accesscontrol/DirectoryStateNode.ts: the directory's state over time, a chain of nodes
-- that each cover the changes up to a trusted time, and the lookups on it. Sharing of unchanged maps
-- between nodes cannot be observed, since no map is changed in place.
pub mod Contributions
pub mod Builder
pub mod Projection
use mindoo_db.Base.{
  ℕ, ◌==◌, Bool, true, false, not, ◌&&◌, ◌||◌, Option, some, none, List, [], ◌∷◌, JsString, str_dec,
  ite, lookup, set, values, foldl, filterb, if◌then◌else◌, ltb, leb, length,
}
use mindoo_db.Access.{RuleType, AclRuleDoc, DefaultAccessPolicyDoc}
use mindoo_db.Access

pub record UserGrantSnapshot : Type 0 where
  pub username_hash : JsString
  pub signing_keys : List JsString
  pub encryption_keys : List JsString
  pub wipe_requested_signing_keys : List JsString
  pub active : Bool

pub record GroupSnapshot : Type 0 where
  pub name : JsString
  pub member_hashes : List JsString

pub record TrustedWitnessDoc : Type 0 where
  pub witness_public_key : JsString
  pub server_url : Option JsString

-- A node without its link; `none` as the bound is negative infinity. A type without rules in
-- `rulesByType` has the empty list here, as every reader takes it.
pub record DirectoryNode (Num : Type 0) : Type 0 where
  pub trusted_time_upper_bound : Option ℕ
  pub default_policy : Option DefaultAccessPolicyDoc
  pub db_policies : List (JsString × DefaultAccessPolicyDoc)
  pub rules_by_type : RuleType → List (AclRuleDoc Num)
  pub groups_by_name : List (JsString × GroupSnapshot)
  pub users_by_hash : List (JsString × UserGrantSnapshot)
  pub by_signing_key : List (JsString × UserGrantSnapshot)
  pub trusted_witness_keys : List (JsString × TrustedWitnessDoc)

-- A node with its `prev`: none for a first node.
pub data Chain (Num : Type 0) : Type 0 where
  first : DirectoryNode Num → Chain Num
  linked : DirectoryNode Num → Chain Num → Chain Num

-- The regular expression `\s` on a code unit.
unfoldable pub is_space : ℕ → Bool
is_space c =
    (leb 9 c && leb c 13)
    || (c == 32)
    || (c == 0xa0)
    || (c == 0x1680)
    || (leb 0x2000 c && leb c 0x200a)
    || (c == 0x2028)
    || (c == 0x2029)
    || (c == 0x202f)
    || (c == 0x205f)
    || (c == 0x3000)
    || (c == 0xfeff)

-- `replace(/\s+/g, "")`
abbrev pub without_space : JsString → JsString
without_space s = filterb (λ c. not (is_space c)) s

unfoldable pub signing_keys_equal : JsString → JsString → Bool
signing_keys_equal a b = ite (str_dec a b) true (
    ltb 0 (length (without_space a))
    && ite (str_dec (without_space a) (without_space b)) true false)

-- The loop of `grantForSigningKey` over the entries of the index.
unfoldable pub first_equal_key :
    JsString → List (JsString × UserGrantSnapshot) → Option UserGrantSnapshot
first_equal_key key [] = none
first_equal_key key (e ∷ es) =
    if signing_keys_equal e.0 key then some e.1 else first_equal_key key es

-- The loops of `buildBySigningKey`.
abbrev pub index_grant :
    List (JsString × UserGrantSnapshot) → UserGrantSnapshot → List (JsString × UserGrantSnapshot)
index_grant index g =
    if g.active then foldl (λ i key. set str_dec key g i) index g.signing_keys else index

unfoldable pub build_by_signing_key :
    List (JsString × UserGrantSnapshot) → List (JsString × UserGrantSnapshot)
build_by_signing_key users = foldl index_grant [] (values users)

module _ {Num : Type 0} where
  abbrev pub create_genesis_node : DirectoryNode Num
  create_genesis_node = record {
    trusted_time_upper_bound = none;
    default_policy = none;
    db_policies = [];
    rules_by_type = λ _. [];
    groups_by_name = [];
    users_by_hash = [];
    by_signing_key = [];
    trusted_witness_keys = [];
  }

  abbrev pub node_of : Chain Num → DirectoryNode Num
  node_of (first n) = n
  node_of (linked n c) = n

  -- `node.trustedTimeUpperBound > T`
  abbrev pub beyond : DirectoryNode Num → ℕ → Bool
  beyond n t = elim n.trusted_time_upper_bound [ none ↦ false | some bound ↦ ltb t bound ]

  unfoldable pub node_covering : Chain Num → ℕ → Chain Num
  node_covering (first n) t = if beyond n t then first create_genesis_node else first n
  node_covering (linked n c) t = if beyond n t then node_covering c t else linked n c

  unfoldable pub grant_for_signing_key : DirectoryNode Num → JsString → Option UserGrantSnapshot
  unfolding first_equal_key
  grant_for_signing_key n key = elim (lookup str_dec key n.by_signing_key) [
    | some g ↦ some g
    | none ↦ first_equal_key key n.by_signing_key
  ]

  unfoldable pub grant_at_or_before : Chain Num → JsString → Option UserGrantSnapshot
  grant_at_or_before (first n) key = grant_for_signing_key n key
  grant_at_or_before (linked n c) key =
      let earlier = grant_at_or_before c key in
      elim (grant_for_signing_key n key) [ some g ↦ some g | none ↦ earlier ]

  unfoldable pub is_same_person : Chain Num → Chain Num → JsString → JsString → Bool
  is_same_person creator_node signer_node creator_key signer_key =
      elim (grant_at_or_before creator_node creator_key) [
        | some c ↦ elim (grant_for_signing_key (node_of signer_node) signer_key) [
          | some s ↦ ite (str_dec c.username_hash s.username_hash) true false
          | none ↦ false
        ]
        | none ↦ elim (grant_for_signing_key (node_of signer_node) signer_key) [
          | some s ↦ false
          | none ↦ ite (str_dec creator_key signer_key) true false
        ]
      ]

  -- What an access decision reads of a node.
  abbrev pub state_of : Chain Num → Access.DirectoryStateNode Num
  state_of c = record {
    default_policy = (node_of c).default_policy;
    db_policies = (node_of c).db_policies;
    rules_by_type = (node_of c).rules_by_type;
  }
