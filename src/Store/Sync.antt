-- ===== src/Store/Sync.antt =====
-- What two stores exchange: the index-based query agrees with the one over all entries, and a pull
-- leaves nothing behind.
use mindoo_db.Base.{
  ◌≡◌, refl, ap, ◌∙◌, not, ◌&&◌, ◌||◌, some, List, [], ◌∷◌, JsString, str_dec, is_some, values,
  keys, lookup, lookup_tail, has, has-keys, filterb, Distinct, arith, All, if_pos,
}
use mindoo_db.Entry.{StoreEntryMetadata}
use mindoo_db.Store.{Store, put_entries}
use mindoo_db.Store.Counts.{Entries, ids_of}
use mindoo_db.Store.WellFormed.{IsWellFormed}
use mindoo_db.Store.Queries.{
  get_entries, get_all_ids, find_new_entries, new_among, find_new_entries_for_doc,
}
use mindoo_db.Store.Contents.{has-put_entries, has-get_entries}
use mindoo_db.Store.Feed.Order.{of_doc, keyed-All}

new_among-ids_of :
    (s : Store) (known : List JsString) (d : JsString) (es : Entries)
    → All (λ (e : JsString × StoreEntryMetadata). lookup str_dec e.0 s.entries ≡ some e.1) es
    → new_among s known (ids_of d es)
      ≡ filterb (of_doc d) (values (filterb (λ e. not (has str_dec e.0 known)) es))
unfolding new_among ids_of
new_among-ids_of s known d [] h = refl
new_among-ids_of s known d (e ∷ es) h = ground (arith, new_among-ids_of s known d es h.1)

-- `findNewEntriesForDoc`, which goes through the document index, returns exactly the entries of
-- the document among those that `findNewEntries` returns, in the same order.
pub find_new_entries_for_doc-find_new_entries :
    (s : Store) (known : List JsString) (d : JsString)
    → IsWellFormed s
    → find_new_entries_for_doc s known d ≡ filterb (of_doc d) (find_new_entries s known)
unfolding find_new_entries_for_doc find_new_entries
find_new_entries_for_doc-find_new_entries s known d inv =
    ap (new_among s known) (inv.indexed d)
    ∙ new_among-ids_of s known d s.entries (keyed-All s s.entries inv.ordered.distinct (λ k m h. h))

-- A pull: the target names the ids that it has, fetches what the source has beyond them, and
-- stores it.
abbrev pub metadata_ids : List StoreEntryMetadata → List JsString
metadata_ids [] = []
metadata_ids (m ∷ ms) = m.id ∷ metadata_ids ms

abbrev pub missing_ids : Store → Store → List JsString
missing_ids target source = metadata_ids (find_new_entries source (get_all_ids target))

abbrev pub pulled : Store → Store → Store
pulled target source = put_entries target (get_entries source (missing_ids target source))

-- The ids of what `findNewEntries` returns: those of the store that are not known.
new-has :
    (known : List JsString) (es : Entries) (k : JsString)
    → All (λ (e : JsString × StoreEntryMetadata). e.1.id ≡ e.0) es
    → has str_dec k (metadata_ids (values (filterb (λ e. not (has str_dec e.0 known)) es)))
      ≡ (not (has str_dec k known) && has str_dec k (keys es))
new-has known [] k h = ground arith
new-has known (x ∷ es) k h = ground (arith, new-has known es k h.1)

own_ids :
    (s : Store) (es : Entries)
    → Distinct str_dec (keys es)
    → ((k : JsString) (m : StoreEntryMetadata) → lookup str_dec k es ≡ some m → m.id ≡ k)
    → All (λ (e : JsString × StoreEntryMetadata). e.1.id ≡ e.0) es
unfolding lookup
own_ids s [] d h = tt
own_ids s (e ∷ es) d h = (
  h e.0 e.1 (if_pos (str_dec e.0 e.0) refl _ _),
  own_ids s es d.1 (λ k m g. h k m (lookup_tail str_dec k m e es d g)),
)

missing_ids-has :
    (target source : Store) (k : JsString)
    → IsWellFormed source
    → has str_dec k (missing_ids target source) ≡ (
        not (is_some (lookup str_dec k target.entries))
        && is_some (lookup str_dec k source.entries))
unfolding find_new_entries get_all_ids
missing_ids-has target source k inv = ground (
  arith,
  new-has (keys target.entries) source.entries k
      (own_ids source source.entries inv.ordered.distinct inv.ordered.keyed),
  has-keys str_dec k target.entries,
  has-keys str_dec k source.entries,
)

-- After a pull from a well-formed source the target has exactly the ids that it had and those of
-- the source: nothing is missed, and nothing is made up.
pub pulled-has :
    (target source : Store) (k : JsString)
    → IsWellFormed source
    → is_some (lookup str_dec k (pulled target source).entries)
      ≡ (is_some (lookup str_dec k target.entries) || is_some (lookup str_dec k source.entries))
pulled-has target source k inv = ground (
  arith,
  has-put_entries target (get_entries source (missing_ids target source)) k,
  has-get_entries source (missing_ids target source) k inv,
  missing_ids-has target source k inv,
)
