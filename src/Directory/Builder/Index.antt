-- ===== src/Directory/Builder/Index.antt =====
-- The index of signing keys: what a lookup in it says of the users.
use mindoo_db.Base.{
  ◌≡◌, ◌⊎◌, inl, inr, refl, some, List, [], ◌∷◌, JsString, str_dec, lookup, set, delete, keys,
  values, foldl, Option-cases, Bool-cases, arith, set-Distinct, delete-Distinct, lookup-set, has,
  any, Distinct, All, true, false, if◌then◌else◌, lookup_tail, ap, sym, ◌∙◌, subst,
}
use mindoo_db.Directory.{
  UserGrantSnapshot, DirectoryNode, signing_keys_equal, first_equal_key, index_grant,
  build_by_signing_key, grant_for_signing_key,
}
use mindoo_db.Directory.Builder.{with_users}

-- A map of users by their own hashes, each once.
abbrev pub Keyed : List (JsString × UserGrantSnapshot) → Type 0
Keyed m =
    All (λ (e : JsString × UserGrantSnapshot). e.1.username_hash ≡ e.0) m
    × Distinct str_dec (keys m)

set-All :
    (k : JsString) (g : UserGrantSnapshot) (m : List (JsString × UserGrantSnapshot))
    → g.username_hash ≡ k
    → All (λ (e : JsString × UserGrantSnapshot). e.1.username_hash ≡ e.0) m
    → All (λ (e : JsString × UserGrantSnapshot). e.1.username_hash ≡ e.0) (set str_dec k g m)
unfolding set
set-All k g [] own h = (own, tt)
set-All k g (e ∷ m) own h = ground (arith, set-All k g m own h.1)

delete-All :
    (k : JsString) (m : List (JsString × UserGrantSnapshot))
    → All (λ (e : JsString × UserGrantSnapshot). e.1.username_hash ≡ e.0) m
    → All (λ (e : JsString × UserGrantSnapshot). e.1.username_hash ≡ e.0) (delete str_dec k m)
unfolding delete
delete-All k [] h = tt
delete-All k (e ∷ m) h = ground (arith, delete-All k m h.1)

pub set-Keyed :
    (k : JsString) (g : UserGrantSnapshot) (m : List (JsString × UserGrantSnapshot))
    → g.username_hash ≡ k
    → Keyed m
    → Keyed (set str_dec k g m)
set-Keyed k g m own h = (set-All k g m own h.0, set-Distinct str_dec k g m h.1)

pub delete-Keyed :
    (k : JsString) (m : List (JsString × UserGrantSnapshot)) → Keyed m → Keyed (delete str_dec k m)
delete-Keyed k m h = (delete-All k m h.0, delete-Distinct str_dec k m h.1)

-- A grant of the index is an active user's, and has the key.
abbrev Current : List (JsString × UserGrantSnapshot) → JsString → UserGrantSnapshot → Type 0
Current users key g =
    (g.active ≡ true)
    × (has str_dec key g.signing_keys ≡ true)
    × (lookup str_dec g.username_hash users ≡ some g)

index_keys :
    (q : JsString) (g g' : UserGrantSnapshot) (ks : List JsString)
    (index : List (JsString × UserGrantSnapshot))
    → lookup str_dec q (foldl (λ i key. set str_dec key g i) index ks) ≡ some g'
    → (lookup str_dec q index ≡ some g') ⊎ ((g ≡ g') × (has str_dec q ks ≡ true))
index_keys q g g' [] index h = inl h
index_keys q g g' (k ∷ ks) index h = elim (index_keys q g g' ks (set str_dec k g index) h) [
  | inl old ↦ ground (arith, lookup-set str_dec q k g index)
  | inr (same, member) ↦ inr (same, ground arith)
]

index_grant_source :
    (q : JsString) (g g' : UserGrantSnapshot) (index : List (JsString × UserGrantSnapshot))
    → lookup str_dec q (index_grant index g) ≡ some g'
    → (lookup str_dec q index ≡ some g')
      ⊎ ((g ≡ g') × (g.active ≡ true) × (has str_dec q g.signing_keys ≡ true))
index_grant_source q g g' index h = elim (Bool-cases g.active) [
  | inl on ↦ elim (index_keys q g g' g.signing_keys index (ground arith)) [
    | inl old ↦ inl old
    | inr (same, member) ↦ inr (same, on, member)
  ]
  | inr off ↦ inl (ground arith)
]

-- Every active entry of the index is one of the values.
IsValue : UserGrantSnapshot → List (JsString × UserGrantSnapshot) → Type 0
IsValue g [] = ⊥
IsValue g (e ∷ m) = (e.1 ≡ g) ⊎ IsValue g m

index_values :
    (q : JsString) (g : UserGrantSnapshot) (users index : List (JsString × UserGrantSnapshot))
    → lookup str_dec q (foldl index_grant index (values users)) ≡ some g
    → (lookup str_dec q index ≡ some g)
      ⊎ (IsValue g users × (g.active ≡ true) × (has str_dec q g.signing_keys ≡ true))
unfolding IsValue
index_values q g [] index h = inl h
index_values q g (e ∷ users) index h = elim (index_values q g users (index_grant index e.1) h) [
  | inr (member, on, key) ↦ inr (inr member, on, key)
  | inl earlier ↦ elim (index_grant_source q e.1 g index earlier) [
    | inl old ↦ inl old
    | inr (same, on, key) ↦ inr (
      inl same,
      subst (λ (x : UserGrantSnapshot). x.active ≡ true) same on,
      subst (λ (x : UserGrantSnapshot). has str_dec q x.signing_keys ≡ true) same key,
    )
  ]
]

-- A value of a map by own hashes is found by its hash.
lookup-IsValue :
    (g : UserGrantSnapshot) (users : List (JsString × UserGrantSnapshot))
    → Keyed users
    → IsValue g users
    → lookup str_dec g.username_hash users ≡ some g
unfolding IsValue lookup
lookup-IsValue g [] k v = elim v [ ]
lookup-IsValue g (e ∷ users) k (inl same) =
    let own : g.username_hash ≡ e.0 =
      ap (λ (x : UserGrantSnapshot). x.username_hash) (sym same) ∙ k.0.0 in
    ground (arith, own, same)
lookup-IsValue g (e ∷ users) k (inr v) =
    lookup_tail str_dec g.username_hash g e users k.1 (lookup-IsValue g users (k.0.1, k.1.1) v)

pub build_by_signing_key-Current :
    (q : JsString) (g : UserGrantSnapshot) (users : List (JsString × UserGrantSnapshot))
    → Keyed users
    → lookup str_dec q (build_by_signing_key users) ≡ some g
    → Current users q g
unfolding build_by_signing_key lookup
build_by_signing_key-Current q g users k h = elim (index_values q g users [] h) [
  | inl empty ↦ absurd (ground arith)
  | inr (v, on, key) ↦ (on, key, lookup-IsValue g users k v)
]

signing_keys_equal_self : (a : JsString) → signing_keys_equal a a ≡ true
unfolding signing_keys_equal
signing_keys_equal_self a = ground arith

any_equal :
    (q q' : JsString) (ks : List JsString)
    → has str_dec q' ks ≡ true
    → signing_keys_equal q' q ≡ true
    → any (λ k. signing_keys_equal k q) ks ≡ true
any_equal q q' [] h e = cc
any_equal q q' (k ∷ ks) h e = elim (str_dec q' k) [
  | yes same ↦ rw⁻¹ same (rw e)
  | no other ↦ ground (arith, any_equal q q' ks)
]

keys-Distinct_index :
    (g : UserGrantSnapshot) (ks : List JsString) (index : List (JsString × UserGrantSnapshot))
    → Distinct str_dec (keys index)
    → Distinct str_dec (keys (foldl (λ i key. set str_dec key g i) index ks))
keys-Distinct_index g [] index d = d
keys-Distinct_index g (k ∷ ks) index d =
    keys-Distinct_index g ks (set str_dec k g index) (set-Distinct str_dec k g index d)

index-Distinct :
    (gs : List UserGrantSnapshot) (index : List (JsString × UserGrantSnapshot))
    → Distinct str_dec (keys index)
    → Distinct str_dec (keys (foldl index_grant index gs))
index-Distinct [] index d = d
index-Distinct (g ∷ gs) index d =
    index-Distinct gs (index_grant index g)
      (elim g.active
        as (λ a.
          Distinct str_dec (
            keys
              (if a then foldl (λ i key. set str_dec key g i) index g.signing_keys else index))) [
                | true ↦ keys-Distinct_index g g.signing_keys index d
                | false ↦ d
              ])

-- What the loop finds is an entry whose key is equal.
first_equal_key_entry :
    (q : JsString) (g : UserGrantSnapshot) (index : List (JsString × UserGrantSnapshot))
    → Distinct str_dec (keys index)
    → first_equal_key q index ≡ some g
    → (q' : JsString) × (signing_keys_equal q' q ≡ true) × (lookup str_dec q' index ≡ some g)
unfolding first_equal_key lookup
first_equal_key_entry q g [] d h = absurd (ground arith)
first_equal_key_entry q g (e ∷ index) d h = elim (Bool-cases (signing_keys_equal e.0 q)) [
  | inl equal ↦ (e.0, equal, ground arith)
  | inr other ↦
      let (q', equal, found) = first_equal_key_entry q g index d.1 (ground arith) in
      (q', equal, lookup_tail str_dec q' g e index d found)
]

module _ {Num : Type 0} where
  -- The users stand under their own hashes, and the index is theirs.
  abbrev pub IsIndexed : DirectoryNode Num → Type 0
  IsIndexed n = Keyed n.users_by_hash × (n.by_signing_key ≡ build_by_signing_key n.users_by_hash)

  pub with_users-IsIndexed :
      (users : List (JsString × UserGrantSnapshot)) (n : DirectoryNode Num)
      → Keyed users
      → IsIndexed (with_users users n)
  with_users-IsIndexed users n k = (k, refl)

  pub grant_for_signing_key-IsIndexed :
      (n : DirectoryNode Num) (q : JsString) (g : UserGrantSnapshot)
      → IsIndexed n
      → grant_for_signing_key n q ≡ some g
      → (g.active ≡ true)
        × (any (λ k. signing_keys_equal k q) g.signing_keys ≡ true)
        × (lookup str_dec g.username_hash n.users_by_hash ≡ some g)
  unfolding grant_for_signing_key build_by_signing_key
  grant_for_signing_key-IsIndexed n q g i h =
      elim (Option-cases (lookup str_dec q n.by_signing_key)) [
        | inr (g', direct) ↦
            let same : lookup str_dec q n.by_signing_key ≡ some g =
              direct ∙ (rw (direct, grant_for_signing_key) at h) in
            let (on, key, found) =
              build_by_signing_key-Current q g n.users_by_hash i.0
                (ap (lookup str_dec q) (sym i.1) ∙ same) in
            (on, any_equal q q g.signing_keys key (signing_keys_equal_self q), found)
        | inl nothing ↦
            let distinct : Distinct str_dec (keys n.by_signing_key) =
              subst (λ index. Distinct str_dec (keys index)) (sym i.1)
                (index-Distinct (values n.users_by_hash) [] tt) in
            let (q', equal, entry) =
              first_equal_key_entry q g n.by_signing_key distinct
                (rw (nothing, grant_for_signing_key) at h) in
            let (on, key, found) =
              build_by_signing_key-Current q' g n.users_by_hash i.0
                (ap (lookup str_dec q') (sym i.1) ∙ entry) in
            (on, any_equal q q' g.signing_keys key equal, found)
      ]
