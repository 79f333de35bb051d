-- ===== src/Store/Counts.antt =====
-- What the two secondary indexes of the store must hold: the ids of each document, and the number
-- of entries for each content hash, computed from the entries alone.
use mindoo_db.Base.{
  ℕ, suc, ◌<◌, ◌+◌, ◌≡◌, refl, some, List, [], ◌∷◌, ◌++◌, JsString, str_dec, ite, lookup, set,
  delete, keys, has, delete_missing, has-keys, Distinct, arith, true, false, ◌≢◌,
}
use mindoo_db.Entry.{StoreEntryMetadata}

abbrev pub Entries : Type 0
Entries = List (JsString × StoreEntryMetadata)

-- The ids of a document's entries, in insertion order.
unfoldable pub ids_of : JsString → Entries → List JsString
ids_of d [] = []
ids_of d (e ∷ es) = ite (str_dec d e.1.doc_id) (e.0 ∷ ids_of d es) (ids_of d es)

-- The number of entries whose payload has the hash.
unfoldable pub refs : JsString → Entries → ℕ
refs h [] = 0
refs h (e ∷ es) = ite (str_dec h e.1.content_hash) (suc (refs h es)) (refs h es)

module _ (d : JsString) where
  pub ids_of-append :
      (es : Entries) (k : JsString) (m : StoreEntryMetadata)
      → ids_of d (es ++ ((k, m) ∷ []))
        ≡ ite (str_dec d m.doc_id) (ids_of d es ++ (k ∷ [])) (ids_of d es)
  unfolding ids_of
  ids_of-append [] k m = refl
  ids_of-append (e ∷ es) k m = ground (arith, ids_of-append es k m)

  -- Replacing an entry by one of the same document leaves the ids as they are.
  pub ids_of-set :
      (es : Entries) (k : JsString) (m m' : StoreEntryMetadata)
      → lookup str_dec k es ≡ some m
      → m'.doc_id ≡ m.doc_id
      → ids_of d (set str_dec k m' es) ≡ ids_of d es
  unfolding ids_of lookup set
  ids_of-set [] k m m' h e = cc
  ids_of-set (x ∷ es) k m m' h e = ground (arith, ids_of-set es k m m')

  pub ids_of-has_not :
      (es : Entries) (k : JsString)
      → has str_dec k (keys es) ≡ false
      → has str_dec k (ids_of d es) ≡ false
  unfolding ids_of
  ids_of-has_not [] k h = refl
  ids_of-has_not (x ∷ es) k h = ground (arith, ids_of-has_not es k)

  -- A document lists an id exactly if the store has it and it belongs to the document.
  pub has-ids_of :
      (es : Entries) (k : JsString) (m : StoreEntryMetadata)
      → Distinct str_dec (keys es)
      → lookup str_dec k es ≡ some m
      → has str_dec k (ids_of d es) ≡ ite (str_dec d m.doc_id) true false
  unfolding ids_of lookup
  has-ids_of [] k m u h = cc
  has-ids_of (x ∷ es) k m u h =
      ground (arith, has-ids_of es k m, ids_of-has_not es x.0, has-keys str_dec k es)

  pub ids_of-delete_other :
      (es : Entries) (k : JsString) (m : StoreEntryMetadata)
      → Distinct str_dec (keys es)
      → lookup str_dec k es ≡ some m
      → m.doc_id ≢ d
      → ids_of d (delete str_dec k es) ≡ ids_of d es
  unfolding ids_of lookup delete
  ids_of-delete_other [] k m u h ne = cc
  ids_of-delete_other (x ∷ es) k m u h ne =
      ground (arith, ids_of-delete_other es k m, delete_missing str_dec k es, has-keys str_dec k es)

module _ (h : JsString) where
  pub refs-append :
      (es : Entries) (k : JsString) (m : StoreEntryMetadata)
      → refs h (es ++ ((k, m) ∷ [])) ≡ ite (str_dec h m.content_hash) (refs h es + 1) (refs h es)
  unfolding refs
  refs-append [] k m = ground arith
  refs-append (e ∷ es) k m = ground (arith, refs-append es k m)

  pub refs-set :
      (es : Entries) (k : JsString) (m m' : StoreEntryMetadata)
      → lookup str_dec k es ≡ some m
      → m'.content_hash ≡ m.content_hash
      → refs h (set str_dec k m' es) ≡ refs h es
  unfolding refs lookup set
  refs-set [] k m m' e c = cc
  refs-set (x ∷ es) k m m' e c = ground (arith, refs-set es k m m')

  -- Deleting an entry takes one reference from its own hash and none from another.
  pub refs-delete :
      (es : Entries) (k : JsString) (m : StoreEntryMetadata)
      → Distinct str_dec (keys es)
      → lookup str_dec k es ≡ some m
      → refs h es ≡ refs h (delete str_dec k es) + ite (str_dec h m.content_hash) 1 0
  unfolding refs lookup delete
  refs-delete [] k m u e = cc
  refs-delete (x ∷ es) k m u e =
      ground (arith, refs-delete es k m, delete_missing str_dec k es, has-keys str_dec k es)

-- The hash of a stored entry is referenced.
pub refs-pos :
    (h : JsString) (es : Entries) (k : JsString) (m : StoreEntryMetadata)
    → lookup str_dec k es ≡ some m
    → m.content_hash ≡ h
    → 0 < refs h es
unfolding refs lookup
refs-pos h [] k m e c = cc
refs-pos h (x ∷ es) k m e c = ground (arith, refs-pos h es k m)
