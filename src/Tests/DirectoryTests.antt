-- ===== src/Tests/DirectoryTests.antt =====
-- The directory's state at a sample history: two users, one with two grant documents, and a group.
use mindoo_db.Base.{
  ℕ, ◌≡◌, ◌≢◌, refl, true, some, none, List, [], ◌∷◌, ◌++◌, JsString, str_dec, lookup, set, values,
  has, any, arith,
}
use mindoo_db.Directory.{
  build_by_signing_key, node_covering, UserGrantSnapshot, GroupSnapshot, node_of,
  signing_keys_equal, grant_for_signing_key,
}
use mindoo_db.Directory.Builder.{
  DirectoryRevisionDelta, grant_doc, remove_grant_doc, revoke_by_signing_key, group_doc, set_groups,
  DirectoryStateChainBuilder, recompute_user, apply_grant_doc, apply_group_doc, import_delta_log,
  get_state_at,
}
use mindoo_db.Directory.Contributions.{user_union, union_user, key_pairs}
use mindoo_db.Directory.Builder.Replay.{import_delta_log-delta_log}
use mindoo_db.Directory.Builder.TimeTravel.{get_state_at-import_delta_log}
use mindoo_db.Directory.Builder.Grants.{grant_for_signing_key-get_state_at}
use mindoo_db.Directory.Builder.Union.{contributes, apply_grant_doc_keys}
use mindoo_db.Directory.Builder.Groups.{gives, apply_group_doc_members}
use mindoo_db.Tests.{text_a, text_b, text_c, doc_one, doc_two}

-- A grant of one device to a user.
abbrev device : JsString → JsString → UserGrantSnapshot
device hash key = record {
  username_hash = hash;
  signing_keys = key ∷ [];
  encryption_keys = text_c ∷ [];
  wipe_requested_signing_keys = [];
  active = true;
}

abbrev early_calls : List (DirectoryRevisionDelta ℕ)
early_calls =
    DirectoryRevisionDelta.grant 10 (device text_a text_b)
    ∷ grant_doc 20 doc_one (device text_a text_c)
    ∷ set_groups 20 (record { name = text_a; member_hashes = text_a ∷ [] } ∷ [])
    ∷ []

abbrev late_calls : List (DirectoryRevisionDelta ℕ)
late_calls =
    remove_grant_doc 30 doc_two
    ∷ revoke_by_signing_key 30 text_b
    ∷ group_doc 40 doc_one text_b (text_a ∷ [])
    ∷ []

abbrev sample_builder : DirectoryStateChainBuilder ℕ
sample_builder = import_delta_log (early_calls ++ late_calls)

import_delta_log-delta_log_example : import_delta_log sample_builder.delta_log ≡ sample_builder
import_delta_log-delta_log_example = import_delta_log-delta_log (early_calls ++ late_calls)

get_state_at-import_delta_log_example :
    get_state_at sample_builder 25 ≡ (import_delta_log early_calls).head
get_state_at-import_delta_log_example =
    get_state_at-import_delta_log early_calls late_calls 25 (omega arith) (omega arith)

-- Before the revocation both keys are of one grant; afterwards none is found.
abbrev both : UserGrantSnapshot
both = record {
  username_hash = text_a;
  signing_keys = text_b ∷ text_c ∷ [];
  encryption_keys = text_c ∷ text_c ∷ [];
  wipe_requested_signing_keys = [];
  active = true;
}

both_found : grant_for_signing_key (node_of (get_state_at sample_builder 25)) text_c ≡ some both
unfolding import_delta_log str_dec grant_for_signing_key build_by_signing_key user_union union_user
    key_pairs lookup set node_covering recompute_user
both_found = refl

none_found : grant_for_signing_key (node_of (get_state_at sample_builder 30)) text_b ≡ none
unfolding import_delta_log str_dec grant_for_signing_key build_by_signing_key user_union union_user
    key_pairs lookup set node_covering recompute_user
none_found = refl

-- A key that is revoked is found again once another grant document of its user is applied.
revoked_found_again :
    grant_for_signing_key
      (node_of
        (import_delta_log {Num = ℕ} (
          grant_doc 10 doc_one (device text_a text_b)
          ∷ revoke_by_signing_key 20 text_b
          ∷ grant_doc 30 doc_two (device text_a text_c)
          ∷ [])).head)
      text_b
    ≡ some both
unfolding import_delta_log str_dec grant_for_signing_key build_by_signing_key user_union union_user
    key_pairs lookup set node_covering recompute_user
revoked_found_again = refl

grant_for_signing_key-get_state_at_example :
    (both.active ≡ true)
    × (any (λ k. signing_keys_equal k text_c) both.signing_keys ≡ true)
    × (lookup str_dec text_a (node_of (get_state_at sample_builder 25)).users_by_hash ≡ some both)
grant_for_signing_key-get_state_at_example =
    grant_for_signing_key-get_state_at (early_calls ++ late_calls) 25 text_c both both_found

apply_grant_doc_keys_example :
    (u : UserGrantSnapshot) × (lookup str_dec text_a
        (node_of
          (apply_grant_doc 50 doc_two (device text_a text_b) sample_builder).head).users_by_hash
      ≡ some u)
    × ((k : JsString)
        → has str_dec k u.signing_keys
          ≡ any (contributes text_a k) (
              values
                (set str_dec doc_two (device text_a text_b) sample_builder.grant_contributions)))
apply_grant_doc_keys_example = apply_grant_doc_keys 50 doc_two (device text_a text_b) sample_builder

apply_group_doc_members_example :
    (g : GroupSnapshot) × (lookup str_dec text_c
        (node_of
          (apply_group_doc 50 doc_one text_c (text_a ∷ []) sample_builder).head).groups_by_name
      ≡ some g)
    × ((h : JsString)
        → has str_dec h g.member_hashes
          ≡ any (gives text_c h) (
              values (
                set str_dec doc_one
                  (record { name = text_c; member_hashes = text_a ∷ [] })
                  sample_builder.group_contributions)))
    × ((other : JsString)
        → other ≢ text_c
        → lookup str_dec other
            (node_of
              (apply_group_doc 50 doc_one text_c (text_a ∷ []) sample_builder).head).groups_by_name
          ≡ lookup str_dec other (node_of sample_builder.head).groups_by_name)
apply_group_doc_members_example =
    apply_group_doc_members 50 doc_one text_c (text_a ∷ []) sample_builder
