-- ===== src/Directory/Builder/Replay.antt =====
-- Replaying the log that a builder exports gives the builder back.
use mindoo_db.Base.{
  has-middle, ℕ, ◌≡◌, ◌⊎◌, inl, inr, refl, ap, ◌∙◌, sym, Option, some, none, List, [], ◌∷◌, ◌++◌,
  JsString, str_dec, lookup, set, values, keys, foldl, Option-cases, arith, set_new, set-Distinct,
  has-keys, Distinct, All, append_nil, append_assoc,
}
use mindoo_db.Directory.{UserGrantSnapshot, GroupSnapshot, grant_for_signing_key, node_of}
use mindoo_db.Directory.Builder.{
  DirectoryRevisionDelta, default_policy, db_policy, rule, remove_rule, trusted_witness,
  remove_trusted_witness, grant, grant_doc, remove_grant_doc, revoke_by_signing_key, group_doc,
  remove_group_doc, set_groups, DirectoryStateChainBuilder, grant_prefix, new_builder, push,
  granted, ungranted, recompute_user, recompute_previous, recompute_group, apply_grant_doc,
  apply_remove_grant_doc, apply_revoke, apply_group_doc, apply_remove_group_doc, apply_groups,
  apply_delta, import_delta_log,
}
use mindoo_db.Directory.Contributions.{group_map}

foldl-snoc {ℓ κ} :
    {A : Type ℓ} {B : Type κ} (f : B → A → B) (b : B) (xs : List A) (x : A)
    → foldl f b (xs ++ (x ∷ [])) ≡ f (foldl f b xs) x
foldl-snoc f b [] x = refl
foldl-snoc f b (y ∷ ys) x = foldl-snoc f (f b y) ys x

-- A map of groups by their own names, each once.
abbrev Named : List (JsString × GroupSnapshot) → Type 0
Named m = All (λ (e : JsString × GroupSnapshot). e.1.name ≡ e.0) m × Distinct str_dec (keys m)

abbrev by_name : List (JsString × GroupSnapshot) → GroupSnapshot → List (JsString × GroupSnapshot)
by_name m g = set str_dec g.name g m

set-All :
    (g : GroupSnapshot) (m : List (JsString × GroupSnapshot))
    → All (λ (e : JsString × GroupSnapshot). e.1.name ≡ e.0) m
    → All (λ (e : JsString × GroupSnapshot). e.1.name ≡ e.0) (by_name m g)
unfolding set
set-All g [] h = (refl, tt)
set-All g (e ∷ m) h = ground (arith, h, set-All g m)

group_map_loop-Named :
    (gs : List GroupSnapshot) (m : List (JsString × GroupSnapshot))
    → Named m
    → Named (foldl by_name m gs)
group_map_loop-Named [] m h = h
group_map_loop-Named (g ∷ gs) m h =
    group_map_loop-Named gs (by_name m g) (set-All g m h.0, set-Distinct str_dec g.name g m h.1)

keys-append : (m n : List (JsString × GroupSnapshot)) → keys (m ++ n) ≡ keys m ++ keys n
keys-append [] n = refl
keys-append (e ∷ m) n = ap (◌∷◌ e.0) (keys-append m n)

-- The values of such a map, mapped by name again, give it back.
values_loop-by_name :
    (m before : List (JsString × GroupSnapshot))
    → All (λ (e : JsString × GroupSnapshot). e.1.name ≡ e.0) m
    → Distinct str_dec (keys before ++ keys m)
    → foldl by_name before (values m) ≡ before ++ m
values_loop-by_name [] before h d = sym (append_nil before)
values_loop-by_name ((k, g) ∷ m) before h d =
    let absent : lookup str_dec k before ≡ none =
      ground (arith, has-keys str_dec k before, has-middle str_dec k (keys before) (keys m) d) in
    let new : by_name before g ≡ before ++ ((k, g) ∷ []) =
      ap (λ n. set str_dec n g before) h.0 ∙ set_new str_dec k g before absent in
    let shifted : Distinct str_dec (keys (before ++ ((k, g) ∷ [])) ++ keys m) =
      rw (keys-append before ((k, g) ∷ []), append_assoc (keys before) (k ∷ []) (keys m)) d in
    ap (λ b. foldl by_name b (values m)) new
    ∙ values_loop-by_name m (before ++ ((k, g) ∷ [])) h.1 shifted
    ∙ append_assoc before ((k, g) ∷ []) m

group_map-values : (gs : List GroupSnapshot) → group_map (values (group_map gs)) ≡ group_map gs
unfolding group_map
group_map-values gs =
    let (named, distinct) = group_map_loop-Named gs [] (tt, tt) in
    values_loop-by_name (foldl by_name [] gs) [] named distinct

module _ {Num : Type 0} where
  recompute_user-log :
      (hash : JsString) (t : ℕ) (b : DirectoryStateChainBuilder Num)
      → (recompute_user hash t b).delta_log ≡ b.delta_log
  unfolding recompute_user push
  recompute_user-log hash t b = refl

  recompute_previous-log :
      (previous : Option UserGrantSnapshot) (hash : JsString) (t : ℕ)
      (b : DirectoryStateChainBuilder Num)
      → (recompute_previous previous hash t b).delta_log ≡ b.delta_log
  unfolding recompute_previous
  recompute_previous-log none hash t b = refl
  recompute_previous-log (some g) hash t b = ground (arith, recompute_user-log g.username_hash t b)

  grant_doc-log :
      (t : ℕ) (doc_id : JsString) (g : UserGrantSnapshot) (b : DirectoryStateChainBuilder Num)
      → (apply_grant_doc t doc_id g b).delta_log ≡ b.delta_log ++ (grant_doc t doc_id g ∷ [])
  unfolding apply_grant_doc
  grant_doc-log t doc_id g b =
      let previous = lookup str_dec doc_id b.grant_contributions in
      recompute_user-log g.username_hash t
        (recompute_previous previous g.username_hash t (granted t doc_id g b))
      ∙ recompute_previous-log previous g.username_hash t (granted t doc_id g b)

  -- A call leaves the builder as it was, or logs a delta that has the same effect.
  IsLogged : DirectoryStateChainBuilder Num → DirectoryRevisionDelta Num → Type 0
  IsLogged b d =
      (apply_delta b d ≡ b)
      ⊎ ((d' : DirectoryRevisionDelta Num) × ((apply_delta b d).delta_log
            ≡ b.delta_log ++ (d' ∷ []))
          × (apply_delta b d' ≡ apply_delta b d))

  remove_grant_doc-IsLogged :
      (t : ℕ) (doc_id : JsString) (b : DirectoryStateChainBuilder Num)
      → IsLogged b (remove_grant_doc t doc_id)
  unfolding IsLogged apply_delta apply_remove_grant_doc
  remove_grant_doc-IsLogged t doc_id b =
      elim (Option-cases (lookup str_dec doc_id b.grant_contributions)) [
        | inl nothing ↦ inl (rw (nothing, apply_remove_grant_doc))
        | inr (g, found) ↦ inr (
          remove_grant_doc t doc_id,
          rw (found, apply_remove_grant_doc)
              (recompute_user-log g.username_hash t (ungranted t doc_id b)),
          refl,
        )
      ]

  revoke-IsLogged :
      (t : ℕ) (key : JsString) (b : DirectoryStateChainBuilder Num)
      → IsLogged b (revoke_by_signing_key t key)
  unfolding IsLogged apply_delta apply_revoke push
  revoke-IsLogged t key b = elim (Option-cases (grant_for_signing_key (node_of b.head) key)) [
    | inl nothing ↦ inl (rw (nothing, apply_revoke))
    | inr (g, found) ↦ inr (revoke_by_signing_key t key, rw (found, apply_revoke), refl)
  ]

  remove_group_doc-IsLogged :
      (t : ℕ) (doc_id : JsString) (b : DirectoryStateChainBuilder Num)
      → IsLogged b (remove_group_doc t doc_id)
  unfolding IsLogged apply_delta apply_remove_group_doc recompute_group push
  remove_group_doc-IsLogged t doc_id b =
      elim (Option-cases (lookup str_dec doc_id b.group_contributions)) [
        | inl nothing ↦ inl (rw (nothing, apply_remove_group_doc))
        | inr (g, found) ↦ inr (remove_group_doc t doc_id, rw (found, apply_remove_group_doc), refl)
      ]

  apply_delta-IsLogged :
      (b : DirectoryStateChainBuilder Num) (d : DirectoryRevisionDelta Num) → IsLogged b d
  unfolding IsLogged apply_delta push apply_group_doc recompute_group apply_groups
  apply_delta-IsLogged b (default_policy t policy) = inr (default_policy t policy, refl, refl)
  apply_delta-IsLogged b (db_policy t dbid policy) = inr (db_policy t dbid policy, refl, refl)
  apply_delta-IsLogged b (rule t r) = inr (rule t r, refl, refl)
  apply_delta-IsLogged b (remove_rule t id type) = inr (remove_rule t id type, refl, refl)
  apply_delta-IsLogged b (trusted_witness t w) = inr (trusted_witness t w, refl, refl)
  apply_delta-IsLogged b (remove_trusted_witness t key) =
      inr (remove_trusted_witness t key, refl, refl)
  apply_delta-IsLogged b (grant t g) = inr (
    grant_doc t (grant_prefix ++ g.username_hash) g,
    grant_doc-log t (grant_prefix ++ g.username_hash) g b,
    refl,
  )
  apply_delta-IsLogged b (grant_doc t doc_id g) =
      inr (grant_doc t doc_id g, grant_doc-log t doc_id g b, refl)
  apply_delta-IsLogged b (remove_grant_doc t doc_id) = remove_grant_doc-IsLogged t doc_id b
  apply_delta-IsLogged b (revoke_by_signing_key t key) = revoke-IsLogged t key b
  apply_delta-IsLogged b (group_doc t doc_id name members) =
      inr (group_doc t doc_id name members, refl, refl)
  apply_delta-IsLogged b (remove_group_doc t doc_id) = remove_group_doc-IsLogged t doc_id b
  apply_delta-IsLogged b (set_groups t gs) = inr (
    set_groups t (values (group_map gs)),
    refl,
    ap (λ m. apply_groups t m b) (group_map-values gs),
  )

  apply_delta-replay :
      (b : DirectoryStateChainBuilder Num) (d : DirectoryRevisionDelta Num)
      → import_delta_log b.delta_log ≡ b
      → import_delta_log (apply_delta b d).delta_log ≡ apply_delta b d
  unfolding IsLogged import_delta_log
  apply_delta-replay b d h = elim (apply_delta-IsLogged b d) [
    | inl same ↦ rw (same) h
    | inr (d', log, effect) ↦
        ap import_delta_log log
        ∙ foldl-snoc apply_delta new_builder b.delta_log d'
        ∙ ap (λ c. apply_delta c d') h
        ∙ effect
  ]

  replay_from :
      (ds : List (DirectoryRevisionDelta Num)) (b : DirectoryStateChainBuilder Num)
      → import_delta_log b.delta_log ≡ b
      → import_delta_log (foldl apply_delta b ds).delta_log ≡ foldl apply_delta b ds
  replay_from [] b h = h
  replay_from (d ∷ ds) b h = replay_from ds (apply_delta b d) (apply_delta-replay b d h)

  -- Whatever calls a new builder has been through, `setGroups` with maps from the names of the groups,
  -- importing the log that it exports gives the same builder: the same chain, contributions and log,
  -- although the log has no entry for a call without effect and another entry for a grant that is keyed
  -- by its user.
  pub import_delta_log-delta_log :
      (calls : List (DirectoryRevisionDelta Num))
      → import_delta_log (import_delta_log calls).delta_log ≡ import_delta_log calls
  unfolding import_delta_log
  import_delta_log-delta_log calls = replay_from calls new_builder refl
