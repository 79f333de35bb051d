-- ===== src/GrantKeys/Write.antt =====
-- The writers of src/core/accesscontrol/grantKeys.ts: `applyKeyPairFields` and `mergeKeyPairs`. The
-- time that `Date.now` gives is an argument.
use mindoo_db.Base.{
  not, Option, some, none, List, [], ◌∷◌, JsString, codes, str_dec, or_else, map, foldl, filterb,
  if◌then◌else◌, lookup, set, values, ltb, length, is_some,
}
use mindoo_db.JsValue.{JsValue, text, number, array, Fields, field, end, items, set_field, nonempty}
use mindoo_db.GrantKeys.{
  GrantKeyPair, user_key_pairs, revoked_user_key_pairs, user_signing_public_keys,
  user_encryption_public_keys, user_signing_public_key, user_encryption_public_key,
}

-- `s !== undefined && s.length > 0`
abbrev pub kept_text : Option JsString → Option JsString
kept_text none = none
kept_text (some s) = nonempty s

-- `!pair.joinResponseWrapped && previous.joinResponseWrapped`, by the truth of the strings.
abbrev pub join_of : Option JsString → Option JsString → Option JsString
join_of mine previous =
    if is_some (kept_text mine)
    then mine
    else if is_some (kept_text previous)
    then previous
    else mine

module _ {Num : Type 0} where
  -- A field that is written only if there is a value.
  abbrev pub opt_text : JsString → Option JsString → Fields Num → Fields Num
  opt_text key none rest = rest
  opt_text key (some s) rest = field key (text s) rest

  abbrev pub opt_number : JsString → Option Num → Fields Num → Fields Num
  opt_number key none rest = rest
  opt_number key (some n) rest = field key (number n) rest

  -- The object of a pair, with the fields that follow those of both lists.
  abbrev pub pair_entry : Num → GrantKeyPair Num → Fields Num → Fields Num
  pair_entry now p rest = field (codes "signingPublicKey") (text p.signing_public_key) (
      field (codes "encryptionPublicKey") (text p.encryption_public_key) (
        opt_text (codes "label") (kept_text p.label) (
          field (codes "addedAt") (number (or_else p.added_at now))
            (opt_text (codes "joinResponseWrapped") (kept_text p.join_response_wrapped) rest))))

  abbrev pub active_entry : Num → GrantKeyPair Num → JsValue Num
  active_entry now p = JsValue.object (pair_entry now p end)

  abbrev pub revoked_entry : Num → GrantKeyPair Num → JsValue Num
  revoked_entry now p =
      JsValue.object (pair_entry now p (opt_number (codes "revokedAt") p.revoked_at end))

  abbrev pub active_pairs : List (GrantKeyPair Num) → List (GrantKeyPair Num)
  active_pairs pairs = filterb (λ p. not p.revoked) pairs

  abbrev pub revoked_pairs : List (GrantKeyPair Num) → List (GrantKeyPair Num)
  revoked_pairs pairs = filterb (λ p. p.revoked) pairs

  -- The legacy scalars, by the active pairs.
  abbrev pub with_scalars : List (GrantKeyPair Num) → Fields Num → Fields Num
  with_scalars [] fs = fs
  with_scalars (p ∷ ps) fs =
      set_field user_encryption_public_key (text p.encryption_public_key)
        (set_field user_signing_public_key (text p.signing_public_key) fs)

  abbrev pub text_array : List JsString → JsValue Num
  unfolding items
  text_array ss = array (items (map text ss))

  unfoldable pub apply_key_pair_fields : Num → Fields Num → List (GrantKeyPair Num) → Fields Num
  unfolding items
  apply_key_pair_fields now data_of pairs =
      let active = active_pairs pairs in
      with_scalars active (
        set_field user_encryption_public_keys
          (text_array (filterb (λ k. ltb 0 (length k)) (map (λ p. p.encryption_public_key) active)))
          (set_field user_signing_public_keys (text_array (map (λ p. p.signing_public_key) active))
            (set_field revoked_user_key_pairs
              (array (items (map (revoked_entry now) (revoked_pairs pairs))))
              (set_field user_key_pairs (array (items (map (active_entry now) active))) data_of))))

  abbrev pub added_of : Option Num → Option Num → Option Num
  added_of none previous = previous
  added_of (some n) previous = some n

  abbrev pub merge_pair :
      List (JsString × GrantKeyPair Num) → GrantKeyPair Num → List (JsString × GrantKeyPair Num)
  merge_pair merged p = elim (lookup str_dec p.signing_public_key merged) [
    | none ↦ set str_dec p.signing_public_key p merged
    | some previous ↦
        set str_dec p.signing_public_key
          (record p {
            added_at = added_of p.added_at previous.added_at;
            join_response_wrapped = join_of p.join_response_wrapped previous.join_response_wrapped;
          })
          merged
  ]

  abbrev pub own_pair :
      List (JsString × GrantKeyPair Num) → GrantKeyPair Num → List (JsString × GrantKeyPair Num)
  own_pair merged p = set str_dec p.signing_public_key p merged

  unfoldable pub merge_key_pairs :
      List (GrantKeyPair Num) → List (GrantKeyPair Num) → List (GrantKeyPair Num)
  merge_key_pairs existing additional =
      values (foldl merge_pair (foldl own_pair [] existing) additional)
