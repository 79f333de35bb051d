-- ===== src/GrantKeys.antt =====
-- src/core/accesscontrol/grantKeys.ts: the device keys in the fields of a grant document. A pair
-- without `revoked` has it false here.
pub mod Write
pub mod Entries
pub mod RoundTrip
pub mod Legacy
use mindoo_db.Base.{
  ◌≡◌, Bool, true, false, not, Option, some, none, List, [], ◌∷◌, ◌++◌, JsString, codes, str_dec,
  or_else, is_some, map, foldl, filterb, if◌then◌else◌, ◌||◌, has, add, lookup, set, values, ltb,
  length,
}
use mindoo_db.JsValue.{
  JsValue, text, number, array, object, Fields, field, end, items, get_field, set_field, nonempty,
  as_scalar_string, as_number, as_array, as_object,
}

pub record GrantKeyPair (Num : Type 0) : Type 0 where
  pub signing_public_key : JsString
  pub encryption_public_key : JsString
  pub label : Option JsString
  pub added_at : Option Num
  pub join_response_wrapped : Option JsString
  pub revoked : Bool
  pub revoked_at : Option Num

abbrev pub unique : List JsString → List JsString
unique xs = foldl (λ seen x. add str_dec x seen) [] xs

-- The keys of the fields.
abbrev pub user_key_pairs : JsString
user_key_pairs = codes "userKeyPairs"

abbrev pub revoked_user_key_pairs : JsString
revoked_user_key_pairs = codes "revokedUserKeyPairs"

abbrev pub user_signing_public_keys : JsString
user_signing_public_keys = codes "userSigningPublicKeys"

abbrev pub user_encryption_public_keys : JsString
user_encryption_public_keys = codes "userEncryptionPublicKeys"

abbrev pub user_signing_public_key : JsString
user_signing_public_key = codes "userSigningPublicKey"

abbrev pub user_encryption_public_key : JsString
user_encryption_public_key = codes "userEncryptionPublicKey"

abbrev pub wipe_requested_for_signing_keys : JsString
wipe_requested_for_signing_keys = codes "wipeRequestedForSigningKeys"

abbrev pub optional : {A : Type 0} → Option A → List A
optional none = []
optional (some a) = a ∷ []

module _ {Num : Type 0} where
  unfoldable pub texts_of : List (JsValue Num) → List JsString
  texts_of [] = []
  texts_of (v ∷ vs) = optional (as_scalar_string v) ++ texts_of vs

  abbrev pub as_string_array : JsValue Num → List JsString
  unfolding texts_of
  as_string_array v = texts_of (or_else (as_array v) [])

  -- The array if there is one, else the scalar.
  abbrev pub array_or_scalar : JsValue Num → JsValue Num → List JsString
  unfolding texts_of
  array_or_scalar many one =
      if is_some (as_array many)
      then unique (as_string_array many)
      else optional (as_scalar_string one)

  unfoldable pub legacy_signing_keys : Fields Num → List JsString
  unfolding texts_of
  legacy_signing_keys data_of =
      array_or_scalar (get_field user_signing_public_keys data_of)
        (get_field user_signing_public_key data_of)

  unfoldable pub legacy_encryption_keys : Fields Num → List JsString
  unfolding texts_of
  legacy_encryption_keys data_of =
      array_or_scalar (get_field user_encryption_public_keys data_of)
        (get_field user_encryption_public_key data_of)

  abbrev pub parsed_pair : Bool → JsString → Fields Num → GrantKeyPair Num
  parsed_pair mark_revoked key rec = record {
    signing_public_key = key;
    encryption_public_key =
        or_else (as_scalar_string (get_field (codes "encryptionPublicKey") rec)) [];
    label = as_scalar_string (get_field (codes "label") rec);
    added_at = as_number (get_field (codes "addedAt") rec);
    join_response_wrapped = as_scalar_string (get_field (codes "joinResponseWrapped") rec);
    revoked = mark_revoked;
    revoked_at = if mark_revoked then as_number (get_field (codes "revokedAt") rec) else none;
  }

  -- The loop of `parsePairEntries`.
  unfoldable pub parse_entries : Bool → List JsString → List (JsValue Num) → List (GrantKeyPair Num)
  parse_entries mark_revoked seen [] = []
  parse_entries mark_revoked seen (entry ∷ rest) =
      let skipped = parse_entries mark_revoked seen rest in
      elim (as_object entry) [
        | none ↦ skipped
        | some rec ↦ elim (as_scalar_string (get_field (codes "signingPublicKey") rec)) [
          | none ↦ skipped
          | some key ↦
              let kept =
                parsed_pair mark_revoked key rec
                ∷ parse_entries mark_revoked (add str_dec key seen) rest in
              if has str_dec key seen then skipped else kept
        ]
      ]

  unfoldable pub parse_pair_entries : JsValue Num → Bool → List (GrantKeyPair Num)
  unfolding parse_entries
  parse_pair_entries v mark_revoked = parse_entries mark_revoked [] (or_else (as_array v) [])

  unfoldable pub has_canonical_key_lists : Fields Num → Bool
  has_canonical_key_lists data_of =
      is_some (as_array (get_field user_key_pairs data_of))
      || is_some (as_array (get_field revoked_user_key_pairs data_of))

  unfoldable pub canonical_active_pairs : Fields Num → List (GrantKeyPair Num)
  unfolding parse_pair_entries
  canonical_active_pairs data_of = parse_pair_entries (get_field user_key_pairs data_of) false

  unfoldable pub canonical_revoked_pairs : Fields Num → List (GrantKeyPair Num)
  unfolding parse_pair_entries
  canonical_revoked_pairs data_of =
      parse_pair_entries (get_field revoked_user_key_pairs data_of) true

  abbrev pub plain_pair : JsString → JsString → GrantKeyPair Num
  plain_pair signing encryption = record {
    signing_public_key = signing;
    encryption_public_key = encryption;
    label = none;
    added_at = none;
    join_response_wrapped = none;
    revoked = false;
    revoked_at = none;
  }

  -- The loop of `legacyKeyPairs`, with the encryption keys from the current index on.
  unfoldable pub legacy_pairs :
      List JsString → List JsString → List JsString → List (GrantKeyPair Num)
  legacy_pairs seen [] encryption = []
  legacy_pairs seen (key ∷ keys) [] =
      let later = legacy_pairs seen keys [] in
      let kept = plain_pair key [] ∷ legacy_pairs (add str_dec key seen) keys [] in
      if has str_dec key seen then later else kept
  legacy_pairs seen (key ∷ keys) (e ∷ es) =
      let later = legacy_pairs seen keys es in
      let kept = plain_pair key e ∷ legacy_pairs (add str_dec key seen) keys es in
      if has str_dec key seen then later else kept

  unfoldable pub legacy_key_pairs : Fields Num → List (GrantKeyPair Num)
  unfolding legacy_pairs legacy_signing_keys legacy_encryption_keys
  legacy_key_pairs data_of =
      legacy_pairs [] (legacy_signing_keys data_of) (legacy_encryption_keys data_of)

  unfoldable pub extract_key_pairs : Fields Num → List (GrantKeyPair Num)
  unfolding has_canonical_key_lists canonical_active_pairs canonical_revoked_pairs legacy_key_pairs
  extract_key_pairs data_of =
      if has_canonical_key_lists data_of
      then canonical_active_pairs data_of ++ canonical_revoked_pairs data_of
      else legacy_key_pairs data_of

  unfoldable pub extract_active_key_pairs : Fields Num → List (GrantKeyPair Num)
  unfolding has_canonical_key_lists canonical_active_pairs legacy_key_pairs
  extract_active_key_pairs data_of =
      if has_canonical_key_lists data_of
      then canonical_active_pairs data_of
      else legacy_key_pairs data_of

  unfoldable pub extract_signing_public_keys : Fields Num → List JsString
  unfolding has_canonical_key_lists extract_active_key_pairs legacy_signing_keys
  extract_signing_public_keys data_of =
      if has_canonical_key_lists data_of
      then unique (map (λ p. p.signing_public_key) (extract_active_key_pairs data_of))
      else legacy_signing_keys data_of

  unfoldable pub extract_encryption_public_keys : Fields Num → List JsString
  unfolding has_canonical_key_lists extract_active_key_pairs legacy_encryption_keys
  extract_encryption_public_keys data_of =
      if has_canonical_key_lists data_of
      then unique (
          filterb (λ k. ltb 0 (length k))
            (map (λ p. p.encryption_public_key) (extract_active_key_pairs data_of)))
      else legacy_encryption_keys data_of

  unfoldable pub extract_wipe_requested_signing_keys : Fields Num → List JsString
  unfolding texts_of
  extract_wipe_requested_signing_keys data_of =
      unique (as_string_array (get_field wipe_requested_for_signing_keys data_of))
