-- ===== src/Directory/Builder/Steps.antt =====
-- What every call keeps of the chain: each node that it links on is bounded by the later of its
-- time and the last bound, and its index is that of its users.
use mindoo_db.Base.{
  ℕ, ◌≡◌, inl, inr, refl, Option, some, none, List, [], ◌∷◌, ◌++◌, set, delete, true, if◌then◌else◌,
  JsString, str_dec, lookup, foldl, Option-cases, All, false, ite,
}
use mindoo_db.Directory.{
  DirectoryNode, Chain, linked, UserGrantSnapshot, node_of, grant_for_signing_key,
}
use mindoo_db.Directory.Builder.Index.{IsIndexed, Keyed, set-Keyed, delete-Keyed}
use mindoo_db.Directory.Builder.{
  with_users, next_node, DirectoryRevisionDelta, default_policy, db_policy, rule, remove_rule,
  trusted_witness, remove_trusted_witness, grant, grant_doc, remove_grant_doc,
  revoke_by_signing_key, group_doc, remove_group_doc, set_groups, DirectoryStateChainBuilder,
  grant_prefix, max_bound, push, granted, ungranted, recompute_user, recompute_previous,
  recompute_group, apply_grant_doc, apply_remove_grant_doc, apply_revoke, apply_group_doc,
  apply_remove_group_doc, apply_groups, apply_delta, time_of,
}
use mindoo_db.Directory.Contributions.{united_grant, UserUnion, user_union}

module _ {Num : Type 0} where
  recomputed-IsIndexed :
      (hash : JsString) (u : UserUnion) (n : DirectoryNode Num)
      → IsIndexed n
      → IsIndexed (
          with_users
            (if u.has_contribution
              then set str_dec hash (united_grant hash u) n.users_by_hash
              else delete str_dec hash n.users_by_hash)
            n)
  recomputed-IsIndexed hash u n i =
      let k : Keyed (
          if u.has_contribution
          then set str_dec hash (united_grant hash u) n.users_by_hash
          else delete str_dec hash n.users_by_hash) =
        elim u.has_contribution
          as (λ a. Keyed (
            if a
            then set str_dec hash (united_grant hash u) n.users_by_hash
            else delete str_dec hash n.users_by_hash)) [
              | true ↦ set-Keyed hash (united_grant hash u) n.users_by_hash refl i.0
              | false ↦ delete-Keyed hash n.users_by_hash i.0
            ] in
      (k, refl)

  abbrev pub bound_of : Chain Num → Option ℕ
  bound_of c = (node_of c).trusted_time_upper_bound

  -- A predicate on chains that a link made at a time keeps, at that time.
  module _ (P : Chain Num → Type 0) (t : ℕ)
      (link : (n : DirectoryNode Num) (c : Chain Num)
        → n.trusted_time_upper_bound ≡ max_bound t (bound_of c)
        → (IsIndexed (node_of c) → IsIndexed n)
        → P c
        → P (linked n c)) where
    recompute_user-keeps :
        (hash : JsString) (b : DirectoryStateChainBuilder Num)
        → P b.head
        → P (recompute_user hash t b).head
    unfolding recompute_user push
    recompute_user-keeps hash b h =
        link _ b.head refl
          (recomputed-IsIndexed hash (user_union hash b.grant_contributions)
            (next_node t (node_of b.head)))
          h

    recompute_previous-keeps :
        (previous : Option UserGrantSnapshot) (hash : JsString) (b : DirectoryStateChainBuilder Num)
        → P b.head
        → P (recompute_previous previous hash t b).head
    unfolding recompute_previous
    recompute_previous-keeps none hash b h = h
    recompute_previous-keeps (some g) hash b h =
        elim (str_dec g.username_hash hash)
          as (λ d. P (ite d b (recompute_user g.username_hash t b)).head) [
            | yes e ↦ h
            | no e ↦ recompute_user-keeps g.username_hash b h
          ]

    grant_doc-keeps :
        (doc_id : JsString) (g : UserGrantSnapshot) (b : DirectoryStateChainBuilder Num)
        → P b.head
        → P (apply_grant_doc t doc_id g b).head
    unfolding apply_grant_doc
    grant_doc-keeps doc_id g b h =
        let previous = lookup str_dec doc_id b.grant_contributions in
        recompute_user-keeps g.username_hash
          (recompute_previous previous g.username_hash t (granted t doc_id g b))
          (recompute_previous-keeps previous g.username_hash (granted t doc_id g b) h)

    remove_grant_doc-keeps :
        (doc_id : JsString) (b : DirectoryStateChainBuilder Num)
        → P b.head
        → P (apply_remove_grant_doc t doc_id b).head
    unfolding apply_remove_grant_doc
    remove_grant_doc-keeps doc_id b h =
        elim (Option-cases (lookup str_dec doc_id b.grant_contributions)) [
          | inl nothing ↦ rw (nothing, apply_remove_grant_doc) h
          | inr (g, found) ↦
              rw (found, apply_remove_grant_doc)
                (recompute_user-keeps g.username_hash (ungranted t doc_id b) h)
        ]

    revoke-keeps :
        (key : JsString) (b : DirectoryStateChainBuilder Num)
        → P b.head
        → P (apply_revoke t key b).head
    unfolding apply_revoke push
    revoke-keeps key b h = elim (Option-cases (grant_for_signing_key (node_of b.head) key)) [
      | inl nothing ↦ rw (nothing, apply_revoke) h
      | inr (g, found) ↦
          rw (found, apply_revoke)
            (link _ b.head refl
              (λ i. (
                set-Keyed g.username_hash (record g { active = false })
                    (node_of b.head).users_by_hash refl i.0,
                refl,
              ))
              h)
    ]

    remove_group_doc-keeps :
        (doc_id : JsString) (b : DirectoryStateChainBuilder Num)
        → P b.head
        → P (apply_remove_group_doc t doc_id b).head
    unfolding apply_remove_group_doc recompute_group push
    remove_group_doc-keeps doc_id b h =
        elim (Option-cases (lookup str_dec doc_id b.group_contributions)) [
          | inl nothing ↦ rw (nothing, apply_remove_group_doc) h
          | inr (g, found) ↦ rw (found, apply_remove_group_doc) (link _ b.head refl (λ i. i) h)
        ]

  -- For a call at any time.
  module _ (P : Chain Num → Type 0) where
    abbrev pub KeepsLink : ℕ → Type 0
    KeepsLink t =
        (n : DirectoryNode Num) (c : Chain Num)
        → n.trusted_time_upper_bound ≡ max_bound t (bound_of c)
        → (IsIndexed (node_of c) → IsIndexed n)
        → P c
        → P (linked n c)

    apply_delta-keeps :
        (b : DirectoryStateChainBuilder Num) (d : DirectoryRevisionDelta Num)
        → KeepsLink (time_of d)
        → P b.head
        → P (apply_delta b d).head
    unfolding apply_delta push apply_group_doc recompute_group apply_groups
    apply_delta-keeps b (default_policy t policy) link h = link _ b.head refl (λ i. i) h
    apply_delta-keeps b (db_policy t dbid policy) link h = link _ b.head refl (λ i. i) h
    apply_delta-keeps b (rule t r) link h = link _ b.head refl (λ i. i) h
    apply_delta-keeps b (remove_rule t id type) link h = link _ b.head refl (λ i. i) h
    apply_delta-keeps b (trusted_witness t w) link h = link _ b.head refl (λ i. i) h
    apply_delta-keeps b (remove_trusted_witness t key) link h = link _ b.head refl (λ i. i) h
    apply_delta-keeps b (grant t g) link h =
        grant_doc-keeps P t link (grant_prefix ++ g.username_hash) g b h
    apply_delta-keeps b (grant_doc t doc_id g) link h = grant_doc-keeps P t link doc_id g b h
    apply_delta-keeps b (remove_grant_doc t doc_id) link h =
        remove_grant_doc-keeps P t link doc_id b h
    apply_delta-keeps b (revoke_by_signing_key t key) link h = revoke-keeps P t link key b h
    apply_delta-keeps b (group_doc t doc_id name members) link h = link _ b.head refl (λ i. i) h
    apply_delta-keeps b (remove_group_doc t doc_id) link h =
        remove_group_doc-keeps P t link doc_id b h
    apply_delta-keeps b (set_groups t gs) link h = link _ b.head refl (λ i. i) h

    pub apply_deltas-keeps :
        (Time : ℕ → Type 0)
        → ((t : ℕ) → Time t → KeepsLink t)
        → (ds : List (DirectoryRevisionDelta Num)) (b : DirectoryStateChainBuilder Num)
        → All (λ d. Time (time_of d)) ds
        → P b.head
        → P (foldl apply_delta b ds).head
    apply_deltas-keeps Time link [] b a h = h
    apply_deltas-keeps Time link (d ∷ ds) b a h =
        apply_deltas-keeps Time link ds (apply_delta b d) a.1
          (apply_delta-keeps b d (link (time_of d) a.0) h)
