-- ===== src/Tests/KeyTests.antt =====
-- Grant documents of one active and one revoked device, and component encoding of an ASCII text.
use mindoo_db.Base.{
  ℕ, ◌≡◌, ◌||◌, refl, ap, true, false, some, none, List, [], ◌∷◌, ◌++◌, JsString, codes, str_dec,
  lookup, delete, values, map, any, all, has, arith, Distinct, ◌↔◌,
}
use mindoo_db.JsValue.{text, Fields, end, field, get_field}
use mindoo_db.Access.{WithFieldClause, exists, ClauseValue}
use mindoo_db.AclId.{encode_acl_id_component, decode_acl_id_component}
use mindoo_db.AclId.RoundTrip.{is_id_character, decode_acl_id_component-encode_acl_id_component}
use mindoo_db.GrantKeys.{
  GrantKeyPair, extract_key_pairs, extract_active_key_pairs, legacy_signing_keys,
  extract_signing_public_keys,
}
use mindoo_db.GrantKeys.Write.{active_pairs, revoked_pairs, apply_key_pair_fields}
use mindoo_db.GrantKeys.Entries.{normal, signing_of}
use mindoo_db.GrantKeys.RoundTrip.{extract_key_pairs-apply_key_pair_fields}
use mindoo_db.GrantKeys.Legacy.{legacy_signing_keys-apply_key_pair_fields}
use mindoo_db.Directory.{UserGrantSnapshot, node_of}
use mindoo_db.Directory.Builder.{new_builder}
use mindoo_db.Directory.Builder.Union.{contributes}
use mindoo_db.Directory.Projection.{project_directory_revision}
use mindoo_db.Directory.Projection.Grants.{revision, project_directory_revision-keys}
use mindoo_db.Tests.{text_a, text_b, text_c, doc_one}

abbrev phone : GrantKeyPair ℕ
phone = record {
  signing_public_key = text_a;
  encryption_public_key = text_c;
  label = some (codes "phone");
  added_at = none;
  join_response_wrapped = none;
  revoked = false;
  revoked_at = none;
}

abbrev lost : GrantKeyPair ℕ
lost = record {
  signing_public_key = text_b;
  encryption_public_key = [];
  label = some [];
  added_at = some 3;
  join_response_wrapped = none;
  revoked = true;
  revoked_at = some 8;
}

abbrev devices : List (GrantKeyPair ℕ)
devices = lost ∷ phone ∷ []

abbrev grant_fields : Fields ℕ
grant_fields = field (codes "form") (text (codes "useroperation")) (
    field (codes "type") (text (codes "grantaccess"))
      (field (codes "username_hash") (text text_c) end))

extract_key_pairs-apply_key_pair_fields_example :
    (extract_active_key_pairs (apply_key_pair_fields 9 grant_fields devices)
      ≡ map (normal 9 false) (active_pairs devices))
    × (extract_key_pairs (apply_key_pair_fields 9 grant_fields devices)
        ≡ map (normal 9 false) (active_pairs devices)
          ++ map (normal 9 true) (revoked_pairs devices))
    × (Distinct str_dec
          (signing_of (extract_key_pairs (apply_key_pair_fields 9 grant_fields devices)))
        ↔ ((k : JsString)
            → has str_dec k (signing_of (active_pairs devices)) ≡ true
            → has str_dec k (signing_of (revoked_pairs devices)) ≡ false))
extract_key_pairs-apply_key_pair_fields_example =
    extract_key_pairs-apply_key_pair_fields 9 grant_fields devices ((refl, tt), (refl, tt))
      ((refl, tt), (refl, tt))

-- A device in both lists is read back twice, and is granted.
abbrev twofold : List (GrantKeyPair ℕ)
twofold = record phone { revoked = true } ∷ phone ∷ []

twofold_back :
    (signing_of (extract_key_pairs (apply_key_pair_fields 9 grant_fields twofold))
      ≡ text_a ∷ text_a ∷ [])
    × (extract_signing_public_keys (apply_key_pair_fields 9 grant_fields twofold) ≡ text_a ∷ [])
twofold_back = (
  ap signing_of
      (extract_key_pairs-apply_key_pair_fields 9 grant_fields twofold ((refl, tt), (refl, tt))
        ((refl, tt), (refl, tt))).1,
  (legacy_signing_keys-apply_key_pair_fields 9 grant_fields twofold ((refl, tt), (refl, tt))
      ((refl, tt), (refl, tt))).1,
)

legacy_signing_keys-apply_key_pair_fields_example :
    (legacy_signing_keys (apply_key_pair_fields 9 grant_fields devices)
      ≡ signing_of (active_pairs devices))
    × (extract_signing_public_keys (apply_key_pair_fields 9 grant_fields devices)
        ≡ signing_of (active_pairs devices))
legacy_signing_keys-apply_key_pair_fields_example =
    legacy_signing_keys-apply_key_pair_fields 9 grant_fields devices ((refl, tt), (refl, tt))
      ((refl, tt), (refl, tt))

-- No clause stands in the sample.
abbrev sample_clause : Fields ℕ → WithFieldClause ℕ
sample_clause fs = record { key = []; op = exists; value = ClauseValue.string []; when = none }

abbrev ascii : List ℕ → List ℕ
ascii s = s

project_directory_revision-keys_example :
    (u : UserGrantSnapshot) × (lookup str_dec text_c
        (node_of
          (project_directory_revision sample_clause ascii new_builder (
            revision doc_one
              (apply_key_pair_fields 9 grant_fields devices)
              10
              ascii)).head).users_by_hash
      ≡ some u)
    × ((k : JsString)
        → has str_dec k u.signing_keys ≡ (
            has str_dec k (signing_of (active_pairs devices))
            || any (contributes text_c k) (values (delete str_dec doc_one []))))
unfolding get_field str_dec
project_directory_revision-keys_example =
    project_directory_revision-keys sample_clause ascii ascii new_builder doc_one text_c
      grant_fields 10 9 devices (refl, refl, refl) ((refl, tt), (refl, tt)) ((refl, tt), (refl, tt))
      tt

decode_acl_id_component-encode_acl_id_component_example :
    (decode_acl_id_component ascii (encode_acl_id_component ascii (codes "Sales_1"))
      ≡ codes "Sales_1")
    × (all is_id_character (encode_acl_id_component ascii (codes "Sales_1")) ≡ true)
decode_acl_id_component-encode_acl_id_component_example =
    decode_acl_id_component-encode_acl_id_component ascii ascii (codes "Sales_1") (omega arith) refl

sales_encoded : encode_acl_id_component ascii (codes "Sales") ≡ codes "_53ales"
unfolding encode_acl_id_component
sales_encoded = refl
