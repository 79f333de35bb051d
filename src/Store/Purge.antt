-- ===== src/Store/Purge.antt =====
-- `purgeDocHistory`: it removes the entries of one document and nothing else, and leaves the store
-- well-formed, orphaned payloads and counts removed.
use mindoo_db.Base.{
  ◌∙◌, ◌<◌, ◌≡◌, ◌≢◌, ◌↔◌, refl, sym, true, false, some, none, List, [], ◌∷◌, foldl, JsString,
  str_dec, ite, inl, inr, if_pos, List-cases, lookup, delete, keys, has-keys, Distinct, arith,
  lookup-set, lookup-delete, delete-Distinct, delete_missing, ℕ_discrete, lookup_tail,
}
use mindoo_db.Entry.{StoreEntryMetadata}
use mindoo_db.Store.{
  Store, doc_ids, ref_count, decremented, purge_entry, forget_doc, purge_doc_history,
}
use mindoo_db.Store.Counts.{Entries, ids_of, refs, refs-delete, ids_of-delete_other, has-ids_of}
use mindoo_db.Store.WellFormed.{IsOrdered, IsCounted, IsWellFormed}

-- The first id that a document lists is an entry of it, and deleting it leaves the others.
ids_of-head :
    (d : JsString) (es : Entries) (id : JsString) (ids : List JsString)
    → Distinct str_dec (keys es)
    → ids_of d es ≡ id ∷ ids
    → (m : StoreEntryMetadata) × (lookup str_dec id es ≡ some m)
      × (m.doc_id ≡ d)
      × (ids_of d (delete str_dec id es) ≡ ids)
unfolding ids_of lookup delete
ids_of-head d [] id ids u h = cc
ids_of-head d (x ∷ es) id ids u h = elim (str_dec d x.1.doc_id) [
  | yes p ↦ (
    x.1,
    ground arith,
    sym p,
    ground (arith, delete_missing str_dec id es, has-keys str_dec id es),
  )
  | no p ↦
      let (m, found, doc, left) = ids_of-head d es id ids u.1 (ground arith) in
      (m, lookup_tail str_dec id m x es u found, doc, ground (arith, has-keys str_dec id es))
]

-- The store in the loop: `ids` are still to be removed, and `start` is the store before the loop.
record IsPurging (d : JsString) (start : Store) (ids : List JsString) (s : Store) : Type 0 where
  ordered : IsOrdered s.entries s.next_receipt_order
  counted : IsCounted s
  remaining : ids_of d s.entries ≡ ids
  others : (q : JsString) → q ≢ d → doc_ids q s ≡ ids_of q s.entries
  below :
      (q : JsString) (m : StoreEntryMetadata)
      → lookup str_dec q s.entries ≡ some m
      → lookup str_dec q start.entries ≡ some m
  above :
      (q : JsString) (m : StoreEntryMetadata)
      → lookup str_dec q start.entries ≡ some m
      → m.doc_id ≢ d
      → lookup str_dec q s.entries ≡ some m
  payloads :
      (h : JsString)
      → 0 < refs h s.entries
      → lookup str_dec h s.content_store ≡ lookup str_dec h start.content_store

module _ (s : Store) (id : JsString) (m : StoreEntryMetadata)
    (found : lookup str_dec id s.entries ≡ some m) where
  entries-purge_entry : (purge_entry s id).entries ≡ delete str_dec id s.entries
  unfolding purge_entry
  entries-purge_entry = ground arith

  doc_index-purge_entry : (purge_entry s id).doc_index ≡ s.doc_index
  unfolding purge_entry
  doc_index-purge_entry = ground arith

  next-purge_entry : (purge_entry s id).next_receipt_order ≡ s.next_receipt_order
  unfolding purge_entry
  next-purge_entry = ground arith

  ref_count-purge_entry :
      IsCounted s
      → Distinct str_dec (keys s.entries)
      → (h : JsString) → ref_count h (purge_entry s id) ≡ refs h (delete str_dec id s.entries)
  unfolding purge_entry
  ref_count-purge_entry c u h = ground (
    arith,
    c.counts h,
    c.counts m.content_hash,
    refs-delete h s.entries id m u found,
    refs-delete m.content_hash s.entries id m u found,
    lookup-delete str_dec h m.content_hash s.content_ref_count,
    lookup-set str_dec h m.content_hash (decremented m.content_hash s) s.content_ref_count,
  )

  -- A payload leaves the store exactly when its last entry does.
  content-purge_entry :
      IsCounted s
      → Distinct str_dec (keys s.entries)
      → (h : JsString)
      → lookup str_dec h (purge_entry s id).content_store
        ≡ ite
            (ℕ_discrete (refs h (delete str_dec id s.entries)) 0)
            none
            (lookup str_dec h s.content_store)
  unfolding purge_entry
  content-purge_entry c u h = ground (
    arith,
    c.counts h,
    c.counts m.content_hash,
    c.content h,
    refs-delete h s.entries id m u found,
    refs-delete m.content_hash s.entries id m u found,
    lookup-delete str_dec h m.content_hash s.content_store,
  )

-- One round of the loop.
module _ (d : JsString) (start : Store) (id : JsString) (ids : List JsString) (s : Store)
    (inv : IsPurging d start (id ∷ ids) s) where
  open inv use {ordered, counted}

  purge_entry-IsPurging : IsPurging d start ids (purge_entry s id)
  purge_entry-IsPurging =
      let (m, found, doc, left) = ids_of-head d s.entries id ids ordered.distinct inv.remaining in
      let es = entries-purge_entry s id m found in
      let index = doc_index-purge_entry s id m found in
      record {
        ordered =
            rw (es, next-purge_entry s id m found)
              (record {
                distinct = delete-Distinct str_dec id s.entries ordered.distinct;
                keyed = λ q n h.
                    ground (arith, lookup-delete str_dec q id s.entries, ordered.keyed q n);
                ordered = λ q n h.
                    ground (arith, lookup-delete str_dec q id s.entries, ordered.ordered q n);
                injective = λ q q' n n' h h' e. ground (
                  arith,
                  lookup-delete str_dec q id s.entries,
                  lookup-delete str_dec q' id s.entries,
                  ordered.injective q q' n n',
                );
              });
        counted = record {
          counts = λ h. rw es (ref_count-purge_entry s id m found counted ordered.distinct h);
          content = λ h. rw es (
              ground (
                arith,
                content-purge_entry s id m found counted ordered.distinct h,
                counted.content h,
                refs-delete h s.entries id m ordered.distinct found,
              ));
        };
        remaining = rw es left;
        others = λ q ne.
            rw (index, es)
              (ground (
                arith,
                inv.others q ne,
                ids_of-delete_other q s.entries id m ordered.distinct found,
              ));
        below = λ q n h.
            ground (arith, rw es at h, lookup-delete str_dec q id s.entries, inv.below q n);
        above =
            λ q n h ne. rw es (ground (arith, lookup-delete str_dec q id s.entries, inv.above q n));
        payloads = λ h pos. ground (
          arith,
          rw es at pos,
          content-purge_entry s id m found counted ordered.distinct h,
          inv.payloads h,
          refs-delete h s.entries id m ordered.distinct found,
        );
      }

purge_loop-IsPurging :
    (d : JsString) (start : Store) (ids : List JsString) (s : Store)
    → IsPurging d start ids s
    → IsPurging d start [] (foldl purge_entry s ids)
purge_loop-IsPurging d start [] s inv = inv
purge_loop-IsPurging d start (id ∷ ids) s inv =
    purge_loop-IsPurging d start ids (purge_entry s id) (purge_entry-IsPurging d start id ids s inv)

-- What `purgeDocHistory` promises, against the store before it.
pub record Purged (d : JsString) (start s : Store) : Type 0 where
  pub valid : IsWellFormed s
  -- The entries left are those of the other documents, unchanged.
  pub entries :
      (q : JsString) (m : StoreEntryMetadata)
      → (lookup str_dec q s.entries ≡ some m)
        ↔ ((lookup str_dec q start.entries ≡ some m) × (m.doc_id ≢ d))
  -- Nothing is listed for the document.
  pub no_ids : doc_ids d s ≡ []
  -- A payload that an entry still uses is as it was, and any other is gone.
  pub payloads :
      (h : JsString)
      → lookup str_dec h s.content_store
        ≡ ite (ℕ_discrete (refs h s.entries) 0) none (lookup str_dec h start.content_store)

Purged-forget_doc :
    (d : JsString) (start s : Store) → IsPurging d start [] s → Purged d start (forget_doc d s)
unfolding forget_doc
Purged-forget_doc d start s inv = record {
  valid = record {
    ordered = inv.ordered;
    counted = record { counts = inv.counted.counts; content = inv.counted.content };
    indexed =
        λ q. ground (arith, lookup-delete str_dec q d s.doc_index, inv.others q, inv.remaining);
  };
  entries = λ q m. (
    λ h. (
      inv.below q m h,
      λ e. cc (
        has-ids_of d s.entries q m inv.ordered.distinct h,
        inv.remaining,
        if_pos (str_dec d m.doc_id) (sym e) true false,
      ),
    ),
    λ (h, ne). inv.above q m h ne,
  );
  no_ids = ground (arith, lookup-delete str_dec d d s.doc_index);
  payloads = λ h. ground (arith, inv.payloads h, inv.counted.content h);
}

-- `purgeDocHistory` on a well-formed store: the store stays well-formed, the entries left are
-- exactly those of other documents, nothing is listed for the document, and of the payloads exactly
-- those that an entry still uses are left, unchanged.
pub purge_doc_history-Purged :
    (s : Store) (d : JsString) → IsWellFormed s → Purged d s (purge_doc_history s d)
unfolding purge_doc_history
purge_doc_history-Purged s d inv = elim (List-cases (doc_ids d s)) [
  | inl nothing ↦
      rw (nothing, purge_doc_history)
        (record {
          valid = inv;
          entries = λ q m. (
            λ h. (
              h,
              λ e. cc (
                has-ids_of d s.entries q m inv.ordered.distinct h,
                inv.indexed d,
                nothing,
                if_pos (str_dec d m.doc_id) (sym e) true false,
              ),
            ),
            λ (h, _). h,
          );
          no_ids = nothing;
          payloads = λ h. ground (arith, inv.counted.content h);
        })
  | inr (id, ids, some_ids) ↦
      rw (some_ids, purge_doc_history)
        (Purged-forget_doc d s (foldl purge_entry s (id ∷ ids)) (
          purge_loop-IsPurging d s (id ∷ ids) s (record {
            ordered = inv.ordered;
            counted = inv.counted;
            remaining = sym (inv.indexed d) ∙ some_ids;
            others = λ q _. inv.indexed q;
            below = λ q m h. h;
            above = λ q m h _. h;
            payloads = λ h _. refl;
          })))
]
