-- ===== src/Store/WellFormed.antt =====
-- The invariant that ties the maps of the in-memory store together, and its preservation by
-- `putEntries` and `applyWitnessReceipts`.
use mindoo_db.Base.{
  ℕ, ◌+◌, ◌<◌, ◌≡◌, refl, Bool, true, false, Option, some, none, List, [], ◌∷◌, ◌++◌, foldl,
  JsString, str_dec, is_some, add, ltb, Option-cases, Bool-cases, inl, inr, lookup, set, keys,
  has-keys, Distinct, arith, set-Distinct, lookup-set, set_new,
}
use mindoo_db.Entry.{StoreEntryMetadata, StoreEntry, order_of}
use mindoo_db.Store.{
  Store, same_receipt, doc_ids, ref_count, stamped, store_entry, put_entry, put_entries, witnessed,
  apply_witness_receipt, apply_witness_receipts, invalidate_if,
}
use mindoo_db.Store.Counts.{
  Entries, ids_of, refs, ids_of-append, ids_of-set, refs-append, refs-set, ids_of-has_not,
}

-- What holds of the entries and of the receipt orders.
pub record IsOrdered (es : Entries) (next : ℕ) : Type 0 where
  pub distinct : Distinct str_dec (keys es)
  -- Every entry stands under its own id.
  pub keyed : (k : JsString) (m : StoreEntryMetadata) → lookup str_dec k es ≡ some m → m.id ≡ k
  -- Every entry has a receipt order, one that was handed out.
  pub ordered :
      (k : JsString) (m : StoreEntryMetadata)
      → lookup str_dec k es ≡ some m
      → (is_some m.receipt_order ≡ true) × (order_of m < next)
  -- No two entries have the same.
  pub injective :
      (k k' : JsString) (m m' : StoreEntryMetadata)
      → lookup str_dec k es ≡ some m
      → lookup str_dec k' es ≡ some m'
      → order_of m ≡ order_of m'
      → k ≡ k'

-- Reference counts and payloads are those of the hashes that entries use.
pub record IsCounted (s : Store) : Type 0 where
  pub counts : (h : JsString) → ref_count h s ≡ refs h s.entries
  pub content :
      (h : JsString) → is_some (lookup str_dec h s.content_store) ≡ ltb 0 (refs h s.entries)

pub record IsWellFormed (s : Store) : Type 0 where
  pub ordered : IsOrdered s.entries s.next_receipt_order
  pub counted : IsCounted s
  -- The document index lists the ids of each document, in the order of the entries.
  pub indexed : (d : JsString) → doc_ids d s ≡ ids_of d s.entries

module _ (es : Entries) (next : ℕ) (inv : IsOrdered es next) (k : JsString)
    (m : StoreEntryMetadata) where
  open inv use {distinct, keyed, ordered, injective}

  -- An entry with the next receipt order is added, or replaces the one with its id.
  pub set-IsOrdered :
      m.id ≡ k → m.receipt_order ≡ some next → IsOrdered (set str_dec k m es) (next + 1)
  set-IsOrdered own order = record {
    distinct = set-Distinct str_dec k m es distinct;
    keyed = λ q n h. ground (arith, lookup-set str_dec q k m es, keyed q n);
    ordered = λ q n h. ground (arith, lookup-set str_dec q k m es, ordered q n);
    injective = λ q q' n n' h h' e. ground (
      arith,
      lookup-set str_dec q k m es,
      lookup-set str_dec q' k m es,
      injective q q' n n',
      ordered q n,
      ordered q' n',
    );
  }

-- A new entry keeps the counts, the payloads and the index.
module _ (s : Store) (e : StoreEntry) (fresh : lookup str_dec e.metadata.id s.entries ≡ none) where
  abbrev kept : StoreEntryMetadata
  kept = stamped s.next_receipt_order e.metadata

  entries-store_entry : (store_entry s e).entries ≡ s.entries ++ ((e.metadata.id, kept) ∷ [])
  unfolding store_entry
  entries-store_entry = set_new str_dec e.metadata.id kept s.entries fresh

  store_entry-IsCounted : IsCounted s → IsCounted (store_entry s e)
  store_entry-IsCounted inv = record {
    counts = λ h. rw entries-store_entry (
        unfold store_entry in
        ground (
          arith,
          lookup-set str_dec h hash (ref_count hash s + 1) s.content_ref_count,
          refs-append h s.entries e.metadata.id kept,
          inv.counts h,
        ));
    content = λ h. rw entries-store_entry (
        unfold store_entry in
        ground (
          arith,
          lookup-set str_dec h hash e.encrypted_data s.content_store,
          refs-append h s.entries e.metadata.id kept,
          inv.content h,
        ));
  }
    where
      hash : JsString
      hash = e.metadata.content_hash

  store_entry-indexed :
      (d : JsString)
      → doc_ids d s ≡ ids_of d s.entries
      → doc_ids e.metadata.doc_id s ≡ ids_of e.metadata.doc_id s.entries
      → doc_ids d (store_entry s e) ≡ ids_of d (store_entry s e).entries
  store_entry-indexed d same own = rw entries-store_entry (
      unfold store_entry in
      ground (
        arith,
        lookup-set str_dec d doc (add str_dec e.metadata.id (doc_ids doc s)) s.doc_index,
        ids_of-append d s.entries e.metadata.id kept,
        ids_of-has_not doc s.entries e.metadata.id,
        has-keys str_dec e.metadata.id s.entries,
      ))
    where
      doc : JsString
      doc = e.metadata.doc_id

  store_entry-IsWellFormed : IsWellFormed s → IsWellFormed (store_entry s e)
  store_entry-IsWellFormed inv = record {
    ordered =
        unfold store_entry in
        set-IsOrdered s.entries s.next_receipt_order inv.ordered e.metadata.id kept refl refl;
    counted = store_entry-IsCounted inv.counted;
    indexed = λ d. store_entry-indexed d (inv.indexed d) (inv.indexed e.metadata.doc_id);
  }

put_entry-IsWellFormed :
    (s : Store) (e : StoreEntry) → IsWellFormed s → IsWellFormed (put_entry s e)
unfolding put_entry
put_entry-IsWellFormed s e inv = elim (Option-cases (lookup str_dec e.metadata.id s.entries)) [
  | inl fresh ↦ rw (fresh, put_entry) (store_entry-IsWellFormed s e fresh inv)
  | inr (_, there) ↦ rw (there, put_entry) inv
]

-- The invariant does not speak of the cache.
pub recached-IsWellFormed :
    (s : Store) (cache : Option (List StoreEntryMetadata))
    → IsWellFormed s
    → IsWellFormed (record s { sorted_entries_cache = cache })
recached-IsWellFormed s cache inv = record {
  ordered = inv.ordered;
  counted = record { counts = inv.counted.counts; content = inv.counted.content };
  indexed = inv.indexed;
}

put_loop-IsWellFormed :
    (es : List StoreEntry) (s : Store) → IsWellFormed s → IsWellFormed (foldl put_entry s es)
put_loop-IsWellFormed [] s inv = inv
put_loop-IsWellFormed (e ∷ es) s inv =
    put_loop-IsWellFormed es (put_entry s e) (put_entry-IsWellFormed s e inv)

-- `putEntries` keeps the store well-formed.
pub put_entries-IsWellFormed :
    (s : Store) (es : List StoreEntry) → IsWellFormed s → IsWellFormed (put_entries s es)
unfolding put_entries
put_entries-IsWellFormed s es inv =
    recached-IsWellFormed (foldl put_entry s es) none (put_loop-IsWellFormed es s inv)

-- Rewriting the witness fields of a stored entry.
module _ (s : Store) (existing receipt : StoreEntryMetadata)
    (found : lookup str_dec receipt.id s.entries ≡ some existing) where
  abbrev restamped : Store
  restamped = record s {
    entries = set str_dec receipt.id (witnessed s.next_receipt_order existing receipt) s.entries;
    next_receipt_order = s.next_receipt_order + 1;
  }

  restamped-IsWellFormed : IsWellFormed s → IsWellFormed restamped
  unfolding witnessed
  restamped-IsWellFormed inv = record {
    ordered =
        set-IsOrdered s.entries s.next_receipt_order inv.ordered receipt.id
          (witnessed s.next_receipt_order existing receipt)
          (inv.ordered.keyed receipt.id existing found) refl;
    counted = record {
      counts = λ h.
          rw
            (refs-set h s.entries receipt.id existing
              (witnessed s.next_receipt_order existing receipt) found refl)
            (inv.counted.counts h);
      content = λ h.
          rw
            (refs-set h s.entries receipt.id existing
              (witnessed s.next_receipt_order existing receipt) found refl)
            (inv.counted.content h);
    };
    indexed = λ d.
        rw
          (ids_of-set d s.entries receipt.id existing
            (witnessed s.next_receipt_order existing receipt) found refl)
          (inv.indexed d);
  }

apply_witness_receipt-IsWellFormed :
    (p : Store × Bool) (receipt : StoreEntryMetadata)
    → IsWellFormed p.0
    → IsWellFormed (apply_witness_receipt p receipt).0
unfolding apply_witness_receipt
apply_witness_receipt-IsWellFormed (s, mutated) receipt inv =
    elim (Option-cases receipt.received_at) [
      | inl e ↦ rw (e, apply_witness_receipt) inv
      | inr (t, e) ↦ elim (Option-cases (lookup str_dec receipt.id s.entries)) [
        | inl missing ↦ rw (e, missing, apply_witness_receipt) inv
        | inr (existing, found) ↦ elim (Bool-cases (same_receipt existing receipt)) [
          | inl same ↦ rw (e, found, same, apply_witness_receipt) inv
          | inr new ↦
              rw (e, found, new, apply_witness_receipt)
                (restamped-IsWellFormed s existing receipt found inv)
        ]
      ]
    ]

witness_loop-IsWellFormed :
    (rs : List StoreEntryMetadata) (p : Store × Bool)
    → IsWellFormed p.0
    → IsWellFormed (foldl apply_witness_receipt p rs).0
witness_loop-IsWellFormed [] p inv = inv
witness_loop-IsWellFormed (r ∷ rs) p inv =
    witness_loop-IsWellFormed rs (apply_witness_receipt p r)
      (apply_witness_receipt-IsWellFormed p r inv)

invalidate_if-IsWellFormed : (p : Store × Bool) → IsWellFormed p.0 → IsWellFormed (invalidate_if p)
unfolding invalidate_if
invalidate_if-IsWellFormed (s, true) inv = recached-IsWellFormed s none inv
invalidate_if-IsWellFormed (s, false) inv = inv

-- `applyWitnessReceipts` keeps the store well-formed.
pub apply_witness_receipts-IsWellFormed :
    (s : Store) (rs : List StoreEntryMetadata)
    → IsWellFormed s
    → IsWellFormed (apply_witness_receipts s rs)
unfolding apply_witness_receipts
apply_witness_receipts-IsWellFormed s rs inv =
    invalidate_if-IsWellFormed (foldl apply_witness_receipt (s, false) rs)
      (witness_loop-IsWellFormed rs (s, false) inv)
