-- ===== src/GrantKeys/Legacy.antt =====
-- What readers of the older forms see of a written grant document.
use mindoo_db.Base.{
  has-middle, ◌≡◌, refl, ap, ◌∙◌, sym, false, some, List, [], ◌∷◌, ◌++◌, JsString, str_dec, map,
  has, add, Distinct, All, arith, foldl, append_nil, append_assoc,
}
use mindoo_db.JsValue.{text, Fields, items, elements, elements-items, nonempty, as_array}
use mindoo_db.GrantKeys.{GrantKeyPair, texts_of, legacy_signing_keys, extract_signing_public_keys}
use mindoo_db.GrantKeys.Write.{text_array, active_pairs, revoked_pairs, apply_key_pair_fields}
use mindoo_db.GrantKeys.RoundTrip.{signing_written, canonical, active_back}
use mindoo_db.GrantKeys.Entries.{signing_of, signing_of-normal, Named}

-- A list without repetition is its own set.
unique_loop :
    (xs seen : List JsString)
    → Distinct str_dec (seen ++ xs)
    → foldl (λ s x. add str_dec x s) seen xs ≡ seen ++ xs
unique_loop [] seen d = sym (append_nil seen)
unique_loop (x ∷ xs) seen d =
    let apart : has str_dec x seen ≡ false = has-middle str_dec x seen xs d in
    ap (λ s. foldl (λ s x. add str_dec x s) s xs) (ground (arith, apart))
    ∙ unique_loop xs (seen ++ (x ∷ [])) (rw (append_assoc seen (x ∷ []) xs) d)
    ∙ append_assoc seen (x ∷ []) xs

module _ {Num : Type 0} where
  texts_of-text :
      (ps : List (GrantKeyPair Num))
      → All (λ (p : GrantKeyPair Num). nonempty p.signing_public_key ≡ some p.signing_public_key) ps
      → texts_of {Num = Num} (map text (signing_of ps)) ≡ signing_of ps
  unfolding texts_of
  texts_of-text [] h = refl
  texts_of-text (p ∷ ps) h = ground (arith, h.0, texts_of-text ps h.1)

  as_array-text_array :
      (ss : List JsString) → as_array (text_array {Num = Num} ss) ≡ some (map text ss)
  unfolding elements items
  as_array-text_array ss = ap some (elements-items (map text ss))

  -- For pairs whose signing keys are not empty and, within the active and within the revoked ones,
  -- distinct: of the document that `applyKeyPairFields` writes the readers of the canonical lists and
  -- the readers that know only the array of signing keys get the same signing keys: those of the
  -- active pairs, in their order.
  pub legacy_signing_keys-apply_key_pair_fields :
      (now : Num) (data_of : Fields Num) (pairs : List (GrantKeyPair Num))
      → Named (active_pairs pairs)
      → Named (revoked_pairs pairs)
      → (legacy_signing_keys (apply_key_pair_fields now data_of pairs)
          ≡ signing_of (active_pairs pairs))
        × (extract_signing_public_keys (apply_key_pair_fields now data_of pairs)
            ≡ signing_of (active_pairs pairs))
  unfolding legacy_signing_keys extract_signing_public_keys
  legacy_signing_keys-apply_key_pair_fields now data_of pairs a r = (
    rw
        (
          signing_written now data_of pairs,
          as_array-text_array (signing_of (active_pairs pairs)),
          texts_of-text (active_pairs pairs) a.0,
        )
        (unique_loop (signing_of (active_pairs pairs)) [] a.1),
    rw
        (
          canonical now data_of pairs,
          active_back now data_of pairs a,
          signing_of-normal false now (active_pairs pairs),
        )
        (unique_loop (signing_of (active_pairs pairs)) [] a.1),
  )
