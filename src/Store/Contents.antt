-- ===== src/Store/Contents.antt =====
-- What can be read back: the store only grows under `putEntries`, an entry that was put is
-- returned, and a second put of the same entries changes nothing.
use mathlib.Core.Option
use mindoo_db.Base.{
  ap, ◌≡◌, refl, true, false, some, none, List, [], ◌∷◌, foldl, JsString, map, str_dec, ite,
  is_some, or_else, Option-cases, inl, inr, lookup, has, arith, lookup-set, ◌||◌, ◌&&◌,
}
use mindoo_db.Entry.{Bytes, StoreEntryMetadata, StoreEntry}
use mindoo_db.Store.{Store, stamped, store_entry, put_entry, put_entries}
use mindoo_db.Store.Counts.{Entries, refs-pos}
use mindoo_db.Store.WellFormed.{IsWellFormed}
use mindoo_db.Store.Queries.{get_entry, get_entries, has_entries}

-- An entry that is there stays, with its metadata as it is.
put_entry-keeps :
    (s : Store) (e : StoreEntry) (id : JsString) (m : StoreEntryMetadata)
    → lookup str_dec id s.entries ≡ some m
    → lookup str_dec id (put_entry s e).entries ≡ some m
unfolding put_entry store_entry
put_entry-keeps s e id m h =
    ground (
      arith,
      lookup-set str_dec id e.metadata.id (stamped s.next_receipt_order e.metadata) s.entries,
    )

put_loop-keeps :
    (es : List StoreEntry) (s : Store) (id : JsString) (m : StoreEntryMetadata)
    → lookup str_dec id s.entries ≡ some m
    → lookup str_dec id (foldl put_entry s es).entries ≡ some m
put_loop-keeps [] s id m h = h
put_loop-keeps (e ∷ es) s id m h =
    put_loop-keeps es (put_entry s e) id m (put_entry-keeps s e id m h)

-- A payload that is there stays.
put_entry-keeps_bytes :
    (s : Store) (e : StoreEntry) (h : JsString) (b : Bytes)
    → lookup str_dec h s.content_store ≡ some b
    → lookup str_dec h (put_entry s e).content_store ≡ some b
unfolding put_entry store_entry
put_entry-keeps_bytes s e h b p =
    ground (arith, lookup-set str_dec h e.metadata.content_hash e.encrypted_data s.content_store)

put_loop-keeps_bytes :
    (es : List StoreEntry) (s : Store) (h : JsString) (b : Bytes)
    → lookup str_dec h s.content_store ≡ some b
    → lookup str_dec h (foldl put_entry s es).content_store ≡ some b
put_loop-keeps_bytes [] s h b p = p
put_loop-keeps_bytes (e ∷ es) s h b p =
    put_loop-keeps_bytes es (put_entry s e) h b (put_entry-keeps_bytes s e h b p)

-- The payload under which an entry is kept: the one that its hash already has, if there is one.
abbrev pub kept_bytes : Store → StoreEntry → Bytes
kept_bytes s e = or_else (lookup str_dec e.metadata.content_hash s.content_store) e.encrypted_data

module _ (s : Store) (e : StoreEntry) (fresh : lookup str_dec e.metadata.id s.entries ≡ none) where
  put_fresh-entry :
      lookup str_dec e.metadata.id (put_entry s e).entries
      ≡ some (stamped s.next_receipt_order e.metadata)
  unfolding put_entry store_entry
  put_fresh-entry = ground (
    arith,
    lookup-set str_dec e.metadata.id e.metadata.id (stamped s.next_receipt_order e.metadata)
        s.entries,
  )

  put_fresh-bytes :
      lookup str_dec e.metadata.content_hash (put_entry s e).content_store ≡ some (kept_bytes s e)
  unfolding put_entry store_entry
  put_fresh-bytes = ground (
    arith,
    lookup-set str_dec e.metadata.content_hash e.metadata.content_hash e.encrypted_data
        s.content_store,
  )

  -- An entry whose id is new to the store is returned by `getEntries` after the batch that starts
  -- with it: its own metadata with the receipt order that was next, and as payload the bytes that
  -- the store already had for its content hash, or else its own.
  pub get_entry-put_entries :
      (es : List StoreEntry)
      → get_entry (put_entries s (e ∷ es)) e.metadata.id
        ≡ some (record {
          metadata = stamped s.next_receipt_order e.metadata;
          encrypted_data = kept_bytes s e;
        })
  unfolding put_entries get_entry
  get_entry-put_entries es = ground (
    arith,
    put_loop-keeps es (put_entry s e) e.metadata.id (stamped s.next_receipt_order e.metadata)
        put_fresh-entry,
    put_loop-keeps_bytes es (put_entry s e) e.metadata.content_hash (kept_bytes s e)
        put_fresh-bytes,
  )

-- `putEntries` never changes an entry that the store has, nor the payload that it returns.
pub get_entry-put_entries_old :
    (s : Store) (es : List StoreEntry) (id : JsString) (e : StoreEntry)
    → get_entry s id ≡ some e
    → get_entry (put_entries s es) id ≡ some e
unfolding get_entry put_entries
get_entry-put_entries_old s es id e h = ground (
  arith,
  put_loop-keeps es s id e.metadata,
  put_loop-keeps_bytes es s e.metadata.content_hash e.encrypted_data,
)

-- Every entry of the batch has its id among the entries.
abbrev AllStored : List StoreEntry → Entries → Type 0
AllStored [] es = Unit {0}
AllStored (x ∷ xs) es = (is_some (lookup str_dec x.metadata.id es) ≡ true) × AllStored xs es

put_stored : (es : List StoreEntry) (s : Store) → AllStored es s.entries → foldl put_entry s es ≡ s
unfolding put_entry
put_stored [] s h = refl
put_stored (e ∷ es) s h = rw h.0 (put_stored es s h.1)

-- Whatever comes after it, the id of a put entry stays in the store.
stored_after :
    (e : StoreEntry) (es : List StoreEntry) (s : Store)
    → is_some (lookup str_dec e.metadata.id (foldl put_entry (put_entry s e) es).entries) ≡ true
stored_after e es s = elim (Option-cases (lookup str_dec e.metadata.id s.entries)) [
  | inl fresh ↦
      rw (put_loop-keeps es (put_entry s e) e.metadata.id _ (put_fresh-entry s e fresh)) refl
  | inr (m, there) ↦
      rw
        (put_loop-keeps es (put_entry s e) e.metadata.id m
          (put_entry-keeps s e e.metadata.id m there))
        refl
]

put_loop-AllStored :
    (es : List StoreEntry) (s : Store) → AllStored es (foldl put_entry s es).entries
put_loop-AllStored [] s = tt
put_loop-AllStored (e ∷ es) s = (stored_after e es s, put_loop-AllStored es (put_entry s e))

-- Putting the same batch again changes nothing: the second call is a no-op.
pub put_entries_idempotent :
    (s : Store) (es : List StoreEntry) → put_entries (put_entries s es) es ≡ put_entries s es
unfolding put_entries
put_entries_idempotent s es =
    ap (λ (t : Store). record t { sorted_entries_cache = none })
      (put_stored es (record (foldl put_entry s es) { sorted_entries_cache = none })
        (put_loop-AllStored es s))

-- In a well-formed store an id with metadata has its payload.
pub metadata-get_entry :
    (s : Store) (id : JsString)
    → IsWellFormed s
    → Option.map (λ e. e.metadata) (get_entry s id) ≡ lookup str_dec id s.entries
unfolding get_entry
metadata-get_entry s id inv = elim (Option-cases (lookup str_dec id s.entries)) [
  | inl missing ↦ rw (missing, get_entry)
  | inr (m, there) ↦
      ground
        (arith, inv.counted.content m.content_hash, refs-pos m.content_hash s.entries id m there)
]

-- In a well-formed store no payload is missing: `getEntries` returns the stored metadata of exactly
-- the ids that `hasEntries` confirms, in the order of the request.
pub get_entries-has_entries :
    (s : Store) (ids : List JsString)
    → IsWellFormed s
    → map (λ e. some e.metadata) (get_entries s ids)
      ≡ map (λ id. lookup str_dec id s.entries) (has_entries s ids)
unfolding get_entries has_entries
get_entries-has_entries s [] inv = refl
get_entries-has_entries s (id ∷ ids) inv = elim (Option-cases (get_entry s id)) [
  | inl nothing ↦ ground (arith, get_entries-has_entries s ids inv, metadata-get_entry s id inv)
  | inr (e, got) ↦ ground (arith, get_entries-has_entries s ids inv, metadata-get_entry s id inv)
]

-- The ids after a batch: those before, and those of the batch.
has-put_entry :
    (s : Store) (e : StoreEntry) (k : JsString)
    → is_some (lookup str_dec k (put_entry s e).entries)
      ≡ (is_some (lookup str_dec k s.entries) || ite (str_dec k e.metadata.id) true false)
unfolding put_entry store_entry
has-put_entry s e k =
    ground (
      arith,
      lookup-set str_dec k e.metadata.id (stamped s.next_receipt_order e.metadata) s.entries,
    )

abbrev pub ids_in : List StoreEntry → List JsString
ids_in [] = []
ids_in (e ∷ es) = e.metadata.id ∷ ids_in es

has-put_loop :
    (es : List StoreEntry) (s : Store) (k : JsString)
    → is_some (lookup str_dec k (foldl put_entry s es).entries)
      ≡ (is_some (lookup str_dec k s.entries) || has str_dec k (ids_in es))
has-put_loop [] s k = ground arith
has-put_loop (e ∷ es) s k = ground (arith, has-put_loop es (put_entry s e) k, has-put_entry s e k)

-- After `putEntries` the store has the ids that it had and those of the batch, and no other.
pub has-put_entries :
    (s : Store) (es : List StoreEntry) (k : JsString)
    → is_some (lookup str_dec k (put_entries s es).entries)
      ≡ (is_some (lookup str_dec k s.entries) || has str_dec k (ids_in es))
unfolding put_entries
has-put_entries s es k = has-put_loop es s k

-- The ids of what `getEntries` returns: those of the request that the store has.
pub has-get_entries :
    (s : Store) (ids : List JsString) (k : JsString)
    → IsWellFormed s
    → has str_dec k (ids_in (get_entries s ids))
      ≡ (has str_dec k ids && is_some (lookup str_dec k s.entries))
unfolding get_entries
has-get_entries s [] k inv = refl
has-get_entries s (id ∷ ids) k inv = elim (Option-cases (get_entry s id)) [
  | inl nothing ↦ ground (arith, has-get_entries s ids k inv, metadata-get_entry s id inv)
  | inr (e, got) ↦ ground (
    arith,
    has-get_entries s ids k inv,
    metadata-get_entry s id inv,
    inv.ordered.keyed id e.metadata,
  )
]
