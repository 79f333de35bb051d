-- ===== src/Directory/Builder/Grants.antt =====
-- Who a signing key belongs to, at every state of the chain.
use mindoo_db.Base.{
  any, ℕ, ◌≡◌, refl, some, List, [], ◌∷◌, true, if◌then◌else◌, JsString, str_dec, lookup, All,
  false,
}
use mindoo_db.Directory.{
  create_genesis_node, build_by_signing_key, signing_keys_equal, Chain, first, linked,
  UserGrantSnapshot, beyond, node_of, node_covering, grant_for_signing_key,
}
use mindoo_db.Directory.Builder.Index.{IsIndexed}
use mindoo_db.Directory.Builder.{
  DirectoryRevisionDelta, new_builder, import_delta_log, get_state_at,
}
use mindoo_db.Directory.Builder.Steps.{apply_deltas-keeps}
use mindoo_db.Directory.Builder.Index.{grant_for_signing_key-IsIndexed}

module _ {Num : Type 0} where
  All-true : (ds : List (DirectoryRevisionDelta Num)) → All (λ d. Unit {0}) ds
  All-true [] = tt
  All-true (d ∷ ds) = (tt, All-true ds)

  -- Every node of the chain is indexed.
  abbrev Indexed : Chain Num → Type 0
  Indexed (first n) = IsIndexed n
  Indexed (linked n c) = IsIndexed n × Indexed c

  Indexed-head : (c : Chain Num) → Indexed c → IsIndexed (node_of c)
  Indexed-head (first n) i = i
  Indexed-head (linked n c) i = i.0

  import_delta_log-Indexed :
      (calls : List (DirectoryRevisionDelta Num)) → Indexed (import_delta_log calls).head
  unfolding import_delta_log build_by_signing_key
  import_delta_log-Indexed calls =
      apply_deltas-keeps Indexed (λ t. Unit {0}) (λ t u n c e i h. (i (Indexed-head c h), h)) calls
        new_builder (All-true calls) ((tt, tt), refl)

  node_covering-IsIndexed :
      (c : Chain Num) (T : ℕ) → Indexed c → IsIndexed (node_of (node_covering c T))
  unfolding node_covering build_by_signing_key
  node_covering-IsIndexed (first n) T i =
      elim (beyond n T)
        as (λ b. IsIndexed (node_of (if b then first create_genesis_node else first n))) [
          | true ↦ ((tt, tt), refl)
          | false ↦ i
        ]
  node_covering-IsIndexed (linked n c) T i =
      elim (beyond n T)
        as (λ b. IsIndexed (node_of (if b then node_covering c T else linked n c))) [
          | true ↦ node_covering-IsIndexed c T i.1
          | false ↦ i.0
        ]

  -- At every trusted time of every history of calls, the grant that a signing key is resolved to is
  -- active, has a key that is equal to it, possibly after white space is dropped, and is the one that
  -- its user has in that state.
  pub grant_for_signing_key-get_state_at :
      (calls : List (DirectoryRevisionDelta Num)) (T : ℕ) (key : JsString) (g : UserGrantSnapshot)
      → grant_for_signing_key (node_of (get_state_at (import_delta_log calls) T)) key ≡ some g
      → (g.active ≡ true)
        × (any (λ k. signing_keys_equal k key) g.signing_keys ≡ true)
        × (lookup str_dec g.username_hash
              (node_of (get_state_at (import_delta_log calls) T)).users_by_hash
            ≡ some g)
  grant_for_signing_key-get_state_at calls T key g h =
      grant_for_signing_key-IsIndexed (node_of (get_state_at (import_delta_log calls) T)) key g
        (node_covering-IsIndexed (import_delta_log calls).head T (import_delta_log-Indexed calls)) h
