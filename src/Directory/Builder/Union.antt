-- ===== src/Directory/Builder/Union.antt =====
-- The signing keys of a user: the union over the grant documents that name the user.
use mindoo_db.Base.{
  any-values-set, ℕ, ◌≡◌, refl, ap, ◌∙◌, ◌||◌, Bool, Option, some, none, List, [], ◌∷◌, JsString,
  str_dec, ite, lookup, set, keys, values, foldl, arith, has, add, any, has-keys, keys-set, has-add,
  true, false, lookup-set,
}
use mindoo_db.Directory.{UserGrantSnapshot, node_of}
use mindoo_db.Directory.Builder.{
  DirectoryStateChainBuilder, push, granted, recompute_user, recompute_previous, apply_grant_doc,
}
use mindoo_db.Directory.Contributions.{
  key_pairs, add_pair, UserUnion, union_user, user_union, united_grant,
}

keys-add_pair :
    (enc : List (JsString × JsString)) (p : JsString × JsString)
    → keys (add_pair enc p) ≡ add str_dec p.0 (keys enc)
keys-add_pair enc p = ground (arith, has-keys str_dec p.0 enc, keys-set str_dec p.0 p.1 enc)

has-add_pairs :
    (k : JsString) (ps enc : List (JsString × JsString))
    → has str_dec k (keys (foldl add_pair enc ps))
      ≡ (has str_dec k (keys enc) || has str_dec k (keys ps))
has-add_pairs k [] enc = ground arith
has-add_pairs k (p ∷ ps) enc =
    has-add_pairs k ps (add_pair enc p)
    ∙ ground (arith, ap (has str_dec k) (keys-add_pair enc p), has-add str_dec p.0 k (keys enc))

keys-key_pairs : (ks es : List JsString) → keys (key_pairs ks es) ≡ ks
unfolding key_pairs
keys-key_pairs [] es = refl
keys-key_pairs (k ∷ ks) [] = ap (◌∷◌ k) (keys-key_pairs ks [])
keys-key_pairs (k ∷ ks) (e ∷ es) = ap (◌∷◌ k) (keys-key_pairs ks es)

-- A grant document gives the user the key.
abbrev pub contributes : JsString → JsString → UserGrantSnapshot → Bool
contributes hash k g = ite (str_dec g.username_hash hash) (has str_dec k g.signing_keys) false

has-union_user :
    (hash k : JsString) (u : UserUnion) (g : UserGrantSnapshot)
    → has str_dec k (keys (union_user hash u g).enc_by_signing)
      ≡ (has str_dec k (keys u.enc_by_signing) || contributes hash k g)
unfolding union_user
has-union_user hash k u g = ground (
  arith,
  has-add_pairs k (key_pairs g.signing_keys g.encryption_keys) u.enc_by_signing,
  ap (has str_dec k) (keys-key_pairs g.signing_keys g.encryption_keys),
)

has-union_users :
    (hash k : JsString) (gs : List UserGrantSnapshot) (u : UserUnion)
    → has str_dec k (keys (foldl (union_user hash) u gs).enc_by_signing)
      ≡ (has str_dec k (keys u.enc_by_signing) || any (contributes hash k) gs)
has-union_users hash k [] u = ground arith
has-union_users hash k (g ∷ gs) u =
    has-union_users hash k gs (union_user hash u g) ∙ ground (arith, has-union_user hash k u g)

names : JsString → UserGrantSnapshot → Bool
names hash g = ite (str_dec g.username_hash hash) true false

has_contribution-union_users :
    (hash : JsString) (gs : List UserGrantSnapshot) (u : UserUnion)
    → (foldl (union_user hash) u gs).has_contribution ≡ (u.has_contribution || any (names hash) gs)
unfolding union_user names
has_contribution-union_users hash [] u = ground arith
has_contribution-union_users hash (g ∷ gs) u =
    has_contribution-union_users hash gs (union_user hash u g) ∙ ground arith

module _ {Num : Type 0} where
  contributions-recompute_previous :
      (previous : Option UserGrantSnapshot) (hash : JsString) (t : ℕ)
      (b : DirectoryStateChainBuilder Num)
      → (recompute_previous previous hash t b).grant_contributions ≡ b.grant_contributions
  unfolding recompute_previous recompute_user push
  contributions-recompute_previous none hash t b = refl
  contributions-recompute_previous (some g) hash t b = ground arith

  recompute_user_keys :
      (hash : JsString) (t : ℕ) (b : DirectoryStateChainBuilder Num)
      → any (names hash) (values b.grant_contributions) ≡ true
      → lookup str_dec hash (node_of (recompute_user hash t b).head).users_by_hash
        ≡ some (united_grant hash (user_union hash b.grant_contributions))
  unfolding recompute_user push user_union
  recompute_user_keys hash t b h =
      let u = user_union hash b.grant_contributions in
      let contributed : u.has_contribution ≡ true =
        has_contribution-union_users hash (values b.grant_contributions)
          (record { enc_by_signing = []; wipe_requested = []; has_contribution = false })
        ∙ h in
      rw contributed (
        lookup-set str_dec hash hash (united_grant hash u) (node_of b.head).users_by_hash
        ∙ ground arith)

  -- After a grant document is applied, in any builder, its user has at the head exactly the signing
  -- keys that some grant document in force gives to the user, this one among them.
  pub apply_grant_doc_keys :
      (t : ℕ) (doc_id : JsString) (g : UserGrantSnapshot) (b : DirectoryStateChainBuilder Num)
      → (u : UserGrantSnapshot) × (lookup str_dec g.username_hash
            (node_of (apply_grant_doc t doc_id g b).head).users_by_hash
          ≡ some u)
        × ((k : JsString)
            → has str_dec k u.signing_keys
              ≡ any
                  (contributes g.username_hash k)
                  (values (set str_dec doc_id g b.grant_contributions)))
  unfolding apply_grant_doc user_union names
  apply_grant_doc_keys t doc_id g b =
      let c =
        recompute_previous (lookup str_dec doc_id b.grant_contributions) g.username_hash t
          (granted t doc_id g b) in
      let same : c.grant_contributions ≡ set str_dec doc_id g b.grant_contributions =
        contributions-recompute_previous (lookup str_dec doc_id b.grant_contributions)
          g.username_hash t (granted t doc_id g b) in
      let named : any (names g.username_hash) (values c.grant_contributions) ≡ true = rw same (
        any-values-set str_dec (names g.username_hash) doc_id g b.grant_contributions
          (ground arith)) in
      (
        united_grant g.username_hash (user_union g.username_hash c.grant_contributions),
        recompute_user_keys g.username_hash t c named,
        λ k.
            has-union_users g.username_hash k (values c.grant_contributions)
              (record { enc_by_signing = []; wipe_requested = []; has_contribution = false })
            ∙ ap (λ m. any (contributes g.username_hash k) (values m)) same,
      )
