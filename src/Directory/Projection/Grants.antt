-- ===== src/Directory/Projection/Grants.antt =====
-- From the written fields of a grant document to the keys of its user.
use mindoo_db.Base.{
  ℕ, ◌≡◌, refl, ap, ◌∙◌, ◌||◌, Bool, false, some, List, [], ◌∷◌, JsString, codes, str_dec, lookup,
  set, delete, keys, values, any, has, has-keys, delete_missing, Distinct, arith,
}
use mindoo_db.JsValue.{Fields, as_text}
use mindoo_db.Access.{WithFieldClause}
use mindoo_db.GrantKeys.{GrantKeyPair}
use mindoo_db.GrantKeys.Write.{active_pairs, revoked_pairs, apply_key_pair_fields}
use mindoo_db.GrantKeys.Entries.{signing_of, signing_of-normal, Named}
use mindoo_db.GrantKeys.RoundTrip.{untouched, extract_key_pairs-apply_key_pair_fields}
use mindoo_db.Directory.{UserGrantSnapshot, node_of}
use mindoo_db.Directory.Builder.{DirectoryStateChainBuilder, grant_doc, apply_delta}
use mindoo_db.Directory.Builder.Union.{contributes, apply_grant_doc_keys}
use mindoo_db.Directory.Projection.{
  text_field, DirectoryRevisionInput, grant_of, revision_delta, project_directory_revision,
}

any-values-set_split :
    (p : UserGrantSnapshot → Bool) (k : JsString) (g : UserGrantSnapshot)
    (m : List (JsString × UserGrantSnapshot))
    → Distinct str_dec (keys m)
    → any p (values (set str_dec k g m)) ≡ (p g || any p (values (delete str_dec k m)))
unfolding set delete
any-values-set_split p k g [] d = refl
any-values-set_split p k g (e ∷ m) d =
    ground
      (arith, any-values-set_split p k g m d.1, has-keys str_dec k m, delete_missing str_dec k m)

module _ {Num : Type 0} where
  abbrev pub revision :
      JsString → Fields Num → ℕ → (JsString → JsString) → DirectoryRevisionInput Num
  revision doc_id fs t normalize = record {
    doc_id = doc_id;
    fields = fs;
    deleted = false;
    trusted_time = t;
    normalize_group_name = normalize;
  }

  -- A document of a user with the written keys.
  abbrev pub IsGrantOf : JsString → Fields Num → Type 0
  IsGrantOf user fs =
      (text_field (codes "form") fs ≡ some (codes "useroperation"))
      × (text_field (codes "type") fs ≡ some (codes "grantaccess"))
      × (text_field (codes "username_hash") fs ≡ some user)

  written-IsGrantOf :
      (now : Num) (fs : Fields Num) (pairs : List (GrantKeyPair Num)) (user : JsString)
      → IsGrantOf user fs
      → IsGrantOf user (apply_key_pair_fields now fs pairs)
  unfolding str_dec
  written-IsGrantOf now fs pairs user h = (
    ap as_text (untouched now fs pairs (codes "form") refl) ∙ h.0,
    ap as_text (untouched now fs pairs (codes "type") refl) ∙ h.1,
    ap as_text (untouched now fs pairs (codes "username_hash") refl) ∙ h.2,
  )

  revision_delta-IsGrantOf :
      (clause_of : Fields Num → WithFieldClause Num) (text_decode : List ℕ → JsString)
      (doc_id : JsString) (fs : Fields Num) (t : ℕ) (normalize : JsString → JsString)
      (user : JsString)
      → IsGrantOf user fs
      → revision_delta clause_of text_decode (revision doc_id fs t normalize)
        ≡ some (grant_doc t doc_id (grant_of user fs))
  unfolding revision_delta str_dec
  revision_delta-IsGrantOf clause_of text_decode doc_id fs t normalize user h = rw (h.0, h.1, h.2)

  -- When a live revision of a grant document is projected whose key fields `applyKeyPairFields` has
  -- written, of pairs whose signing keys are not empty and, within the active and within the revoked
  -- ones, distinct, into a builder that has each grant document once, its user has at the head exactly
  -- the keys of the active pairs and those that another grant document in force gives to the user.
  pub project_directory_revision-keys :
      (clause_of : Fields Num → WithFieldClause Num) (text_decode : List ℕ → JsString)
      (normalize : JsString → JsString) (b : DirectoryStateChainBuilder Num)
      (doc_id user : JsString) (fs : Fields Num) (t : ℕ) (now : Num)
      (pairs : List (GrantKeyPair Num))
      → IsGrantOf user fs
      → Named (active_pairs pairs)
      → Named (revoked_pairs pairs)
      → Distinct str_dec (keys b.grant_contributions)
      → (u : UserGrantSnapshot) × (lookup str_dec user
            (node_of
              (project_directory_revision clause_of text_decode b (
                revision doc_id
                  (apply_key_pair_fields now fs pairs)
                  t
                  normalize)).head).users_by_hash
          ≡ some u)
        × ((k : JsString)
            → has str_dec k u.signing_keys ≡ (
                has str_dec k (signing_of (active_pairs pairs))
                || any (contributes user k) (values (delete str_dec doc_id b.grant_contributions))))
  unfolding project_directory_revision apply_delta
  project_directory_revision-keys clause_of text_decode normalize b doc_id user fs t now pairs h a r
        d =
      let written = apply_key_pair_fields now fs pairs in
      let g = grant_of user written in
      let is_call =
        revision_delta-IsGrantOf clause_of text_decode doc_id written t normalize user
          (written-IsGrantOf now fs pairs user h) in
      let signing : g.signing_keys ≡ signing_of (active_pairs pairs) =
        ap signing_of (extract_key_pairs-apply_key_pair_fields now fs pairs a r).0
        ∙ signing_of-normal false now (active_pairs pairs) in
      let (u, found, has_keys) = apply_grant_doc_keys t doc_id g b in
      (
        u,
        rw (is_call, project_directory_revision) found,
        λ k.
            has_keys k
            ∙ any-values-set_split (contributes user k) doc_id g b.grant_contributions d
            ∙ ground (arith, ap (has str_dec k) signing),
      )
