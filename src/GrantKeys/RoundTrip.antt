-- ===== src/GrantKeys/RoundTrip.antt =====
-- Reading the key pairs back that a grant document was written with.
use mindoo_db.Base.{
  any, JsString, ◌≡◌, refl, ◌∙◌, true, false, List, [], ◌∷◌, ◌++◌, JsString, str_dec, map, filterb,
  ltb, length, arith, ite, ap, sym, subst, has, Distinct, Distinct-apart, apart-Distinct, ◌↔◌,
}
use mindoo_db.JsValue.{
  JsValue, text, array, Fields, items, elements, elements-items, get_field, set_field,
  get_field-set_field,
}
use mindoo_db.GrantKeys.{
  GrantKeyPair, user_key_pairs, revoked_user_key_pairs, user_signing_public_keys,
  user_encryption_public_keys, user_signing_public_key, user_encryption_public_key,
  has_canonical_key_lists, canonical_active_pairs, canonical_revoked_pairs, extract_key_pairs,
  extract_active_key_pairs,
}
use mindoo_db.GrantKeys.Write.{
  active_entry, revoked_entry, active_pairs, revoked_pairs, with_scalars, text_array,
  apply_key_pair_fields,
}
use mindoo_db.GrantKeys.Entries.{
  normal, signing_of, signing_of-normal, Named, parse_entries-entry_of, Named-Fresh, Apart-nil,
}

abbrev pub written_fields : List JsString
written_fields =
    user_encryption_public_key ∷ user_signing_public_key ∷ user_encryption_public_keys
    ∷ user_signing_public_keys ∷ revoked_user_key_pairs ∷ user_key_pairs ∷ []

module _ {Num : Type 0} where
  -- The scalars leave the lists alone.
  get_field-with_scalars :
      (q : JsString) (ps : List (GrantKeyPair Num)) (fs : Fields Num)
      → ite (str_dec q user_encryption_public_key) true false ≡ false
      → ite (str_dec q user_signing_public_key) true false ≡ false
      → get_field q (with_scalars ps fs) ≡ get_field q fs
  get_field-with_scalars q [] fs e s = refl
  get_field-with_scalars q (p ∷ ps) fs e s = ground (
    arith,
    get_field-set_field q user_encryption_public_key (text p.encryption_public_key)
        (set_field user_signing_public_key (text p.signing_public_key) fs),
    get_field-set_field q user_signing_public_key (text p.signing_public_key) fs,
  )

  module _ (now : Num) (data_of : Fields Num) (pairs : List (GrantKeyPair Num)) where
    abbrev encryption_keys : JsValue Num
    unfolding items
    encryption_keys =
        text_array (
          filterb (λ k. ltb 0 (length k)) (map (λ p. p.encryption_public_key) (active_pairs pairs)))

    abbrev with_active : Fields Num
    unfolding items
    with_active =
        set_field user_key_pairs (array (items (map (active_entry now) (active_pairs pairs))))
          data_of

    abbrev with_revoked : Fields Num
    unfolding items
    with_revoked =
        set_field revoked_user_key_pairs
          (array (items (map (revoked_entry now) (revoked_pairs pairs)))) with_active

    abbrev with_signing : Fields Num
    unfolding items
    with_signing =
        set_field user_signing_public_keys (text_array (signing_of (active_pairs pairs)))
          with_revoked

    pub active_written :
        get_field user_key_pairs (apply_key_pair_fields now data_of pairs)
        ≡ array (items (map (active_entry now) (active_pairs pairs)))
    unfolding apply_key_pair_fields str_dec
    active_written =
        get_field-with_scalars user_key_pairs (active_pairs pairs)
          (set_field user_encryption_public_keys encryption_keys with_signing) refl refl
        ∙ get_field-set_field user_key_pairs user_encryption_public_keys encryption_keys
            with_signing
        ∙ get_field-set_field user_key_pairs user_signing_public_keys
            (text_array (signing_of (active_pairs pairs))) with_revoked
        ∙ get_field-set_field user_key_pairs revoked_user_key_pairs
            (array (items (map (revoked_entry now) (revoked_pairs pairs)))) with_active
        ∙ get_field-set_field user_key_pairs user_key_pairs
            (array (items (map (active_entry now) (active_pairs pairs)))) data_of

    pub revoked_written :
        get_field revoked_user_key_pairs (apply_key_pair_fields now data_of pairs)
        ≡ array (items (map (revoked_entry now) (revoked_pairs pairs)))
    unfolding apply_key_pair_fields str_dec
    revoked_written =
        get_field-with_scalars revoked_user_key_pairs (active_pairs pairs)
          (set_field user_encryption_public_keys encryption_keys with_signing) refl refl
        ∙ get_field-set_field revoked_user_key_pairs user_encryption_public_keys encryption_keys
            with_signing
        ∙ get_field-set_field revoked_user_key_pairs user_signing_public_keys
            (text_array (signing_of (active_pairs pairs))) with_revoked
        ∙ get_field-set_field revoked_user_key_pairs revoked_user_key_pairs
            (array (items (map (revoked_entry now) (revoked_pairs pairs)))) with_active

    pub signing_written :
        get_field user_signing_public_keys (apply_key_pair_fields now data_of pairs)
        ≡ text_array (signing_of (active_pairs pairs))
    unfolding apply_key_pair_fields str_dec
    signing_written =
        get_field-with_scalars user_signing_public_keys (active_pairs pairs)
          (set_field user_encryption_public_keys encryption_keys with_signing) refl refl
        ∙ get_field-set_field user_signing_public_keys user_encryption_public_keys encryption_keys
            with_signing
        ∙ get_field-set_field user_signing_public_keys user_signing_public_keys
            (text_array (signing_of (active_pairs pairs))) with_revoked

    -- Any other field is as it was.
    pub untouched :
        (q : JsString)
        → any (λ k. ite (str_dec q k) true false) written_fields ≡ false
        → get_field q (apply_key_pair_fields now data_of pairs) ≡ get_field q data_of
    unfolding apply_key_pair_fields
    untouched q other = ground (
      arith,
      get_field-with_scalars q (active_pairs pairs)
          (set_field user_encryption_public_keys encryption_keys with_signing),
      get_field-set_field q user_encryption_public_keys encryption_keys with_signing,
      get_field-set_field q user_signing_public_keys (text_array (signing_of (active_pairs pairs)))
          with_revoked,
      get_field-set_field q revoked_user_key_pairs
          (array (items (map (revoked_entry now) (revoked_pairs pairs)))) with_active,
      get_field-set_field q user_key_pairs
          (array (items (map (active_entry now) (active_pairs pairs)))) data_of,
    )

    pub canonical : has_canonical_key_lists (apply_key_pair_fields now data_of pairs) ≡ true
    unfolding has_canonical_key_lists elements
    canonical = rw active_written

    pub active_back :
        Named (active_pairs pairs)
        → canonical_active_pairs (apply_key_pair_fields now data_of pairs)
          ≡ map (normal now false) (active_pairs pairs)
    unfolding canonical_active_pairs elements
    active_back n =
        rw (active_written, elements-items (map (active_entry now) (active_pairs pairs)))
          (parse_entries-entry_of false now (active_pairs pairs) []
            (Named-Fresh (active_pairs pairs) [] n (Apart-nil (active_pairs pairs))))

    signing_of_both :
        (ps qs : List (GrantKeyPair Num))
        → signing_of (map (normal now false) ps ++ map (normal now true) qs)
          ≡ signing_of ps ++ signing_of qs
    signing_of_both [] qs = signing_of-normal true now qs
    signing_of_both (p ∷ ps) qs = ap (◌∷◌ p.signing_public_key) (signing_of_both ps qs)

    revoked_back :
        Named (revoked_pairs pairs)
        → canonical_revoked_pairs (apply_key_pair_fields now data_of pairs)
          ≡ map (normal now true) (revoked_pairs pairs)
    unfolding canonical_revoked_pairs elements
    revoked_back n =
        rw (revoked_written, elements-items (map (revoked_entry now) (revoked_pairs pairs)))
          (parse_entries-entry_of true now (revoked_pairs pairs) []
            (Named-Fresh (revoked_pairs pairs) [] n (Apart-nil (revoked_pairs pairs))))

    -- For pairs whose signing keys are not empty and, within the active and within the revoked ones,
    -- distinct: of the document that `applyKeyPairFields` writes the active keys read back are exactly
    -- the active pairs and all keys are these and then the revoked ones, whatever the document held;
    -- a missing time is the current one, and empty labels and wrapped responses are dropped. The
    -- signing keys of all that is read back are distinct exactly if no active pair has the signing key
    -- of a revoked one.
    pub extract_key_pairs-apply_key_pair_fields :
        Named (active_pairs pairs)
        → Named (revoked_pairs pairs)
        → (extract_active_key_pairs (apply_key_pair_fields now data_of pairs)
            ≡ map (normal now false) (active_pairs pairs))
          × (extract_key_pairs (apply_key_pair_fields now data_of pairs)
              ≡ map (normal now false) (active_pairs pairs)
                ++ map (normal now true) (revoked_pairs pairs))
          × (Distinct str_dec
                (signing_of (extract_key_pairs (apply_key_pair_fields now data_of pairs)))
              ↔ ((k : JsString)
                  → has str_dec k (signing_of (active_pairs pairs)) ≡ true
                  → has str_dec k (signing_of (revoked_pairs pairs)) ≡ false))
    unfolding extract_active_key_pairs extract_key_pairs
    extract_key_pairs-apply_key_pair_fields a r =
        let all_back : extract_key_pairs (apply_key_pair_fields now data_of pairs)
            ≡ map (normal now false) (active_pairs pairs)
              ++ map (normal now true) (revoked_pairs pairs) =
          rw (canonical, active_back a, revoked_back r) in
        let keys_back : signing_of (extract_key_pairs (apply_key_pair_fields now data_of pairs))
            ≡ signing_of (active_pairs pairs) ++ signing_of (revoked_pairs pairs) =
          ap signing_of all_back ∙ signing_of_both (active_pairs pairs) (revoked_pairs pairs) in
        (
          rw canonical (active_back a),
          all_back,
          (
            λ d.
                Distinct-apart str_dec (signing_of (active_pairs pairs))
                  (signing_of (revoked_pairs pairs)) (subst (Distinct str_dec) keys_back d),
            λ apart. subst (Distinct str_dec) (sym keys_back) (
                apart-Distinct str_dec (signing_of (active_pairs pairs))
                  (signing_of (revoked_pairs pairs)) a.1 r.1 apart),
          ),
        )
