-- ===== src/Directory/Contributions.antt =====
-- The unions over the documents of a user or a group: the loops of `recomputeUser` and
-- `recomputeGroup` of src/core/accesscontrol/DirectoryStateNode.ts.
use mindoo_db.Base.{
  Bool, true, false, List, [], ◌∷◌, JsString, str_dec, ite, is_some, or_else, lookup, set, keys,
  values, map, foldl, add, if◌then◌else◌, ltb, length,
}
use mindoo_db.Directory.{UserGrantSnapshot, GroupSnapshot}

-- The signing keys with the encryption keys at their indices, an empty one where there is none.
unfoldable pub key_pairs : List JsString → List JsString → List (JsString × JsString)
key_pairs [] es = []
key_pairs (k ∷ ks) [] = (k, []) ∷ key_pairs ks []
key_pairs (k ∷ ks) (e ∷ es) = (k, e) ∷ key_pairs ks es

abbrev pub add_pair : List (JsString × JsString) → JsString × JsString → List (JsString × JsString)
add_pair enc p = if is_some (lookup str_dec p.0 enc) then enc else set str_dec p.0 p.1 enc

-- The variables of the loop of `recomputeUser`.
pub record UserUnion : Type 0 where
  pub enc_by_signing : List (JsString × JsString)
  pub wipe_requested : List JsString
  pub has_contribution : Bool

unfoldable pub union_user : JsString → UserUnion → UserGrantSnapshot → UserUnion
unfolding key_pairs
union_user hash u g =
    ite (str_dec g.username_hash hash)
      (record {
        enc_by_signing =
            foldl add_pair u.enc_by_signing (key_pairs g.signing_keys g.encryption_keys);
        wipe_requested =
            foldl (λ w k. add str_dec k w) u.wipe_requested g.wipe_requested_signing_keys;
        has_contribution = true;
      })
      u

unfoldable pub user_union : JsString → List (JsString × UserGrantSnapshot) → UserUnion
unfolding union_user
user_union hash contributions =
    foldl (union_user hash)
      (record { enc_by_signing = []; wipe_requested = []; has_contribution = false })
      (values contributions)

abbrev pub united_grant : JsString → UserUnion → UserGrantSnapshot
united_grant hash u = record {
  username_hash = hash;
  signing_keys = keys u.enc_by_signing;
  encryption_keys =
      map (λ k. or_else (lookup str_dec k u.enc_by_signing) []) (keys u.enc_by_signing);
  wipe_requested_signing_keys = u.wipe_requested;
  active = ltb 0 (length (keys u.enc_by_signing));
}

-- The variables of the loop of `recomputeGroup`.
unfoldable pub union_group : JsString → List JsString × Bool → GroupSnapshot → List JsString × Bool
union_group name u g =
    ite (str_dec g.name name) (foldl (λ hs h. add str_dec h hs) u.0 g.member_hashes, true) u

-- `new Map(groups.map((g) => [g.name, g]))`
unfoldable pub group_map : List GroupSnapshot → List (JsString × GroupSnapshot)
group_map groups = foldl (λ m (g : GroupSnapshot). set str_dec g.name g m) [] groups
