-- ===== src/WireCodec/RoundTrip.antt =====
-- What survives the wire.
use mindoo_db.Base.{◌≡◌, refl, Option, some, none, [], ◌∷◌, JsString, arith, List-cases, inl, inr}
use mindoo_db.Entry.{Bytes, StoreEntryMetadata, StoreEntry}
use mindoo_db.WireCodec.{
  encoded_if_present, decoded_if_truthy, serialize_store_entry, deserialize_store_entry,
}

-- An empty signature counts as none after the transfer.
abbrev pub non_empty : Option Bytes → Option Bytes
non_empty none = none
non_empty (some []) = none
non_empty (some (b ∷ bs)) = some (b ∷ bs)

-- What is left of the metadata behind the wire: the fields that are local to a store or name the
-- receipt scheme are gone, and an empty optional signature is.
abbrev pub transferred : StoreEntryMetadata → StoreEntryMetadata
transferred m = record m {
  attachment_id = none;
  attachment_ids = none;
  upload_started_at = none;
  receipt_scheme = none;
  metadata_signature = non_empty m.metadata_signature;
  received_date_signature = non_empty m.received_date_signature;
}

module _ (bytes_to_base64 : Bytes → JsString) (base64_to_bytes : JsString → Bytes)
    (inverse : (b : Bytes) → base64_to_bytes (bytes_to_base64 b) ≡ b)
    (empty : bytes_to_base64 [] ≡ []) where
  decoded-encoded :
      (o : Option Bytes)
      → decoded_if_truthy base64_to_bytes (encoded_if_present bytes_to_base64 o) ≡ non_empty o
  decoded-encoded none = refl
  decoded-encoded (some []) = rw empty
  decoded-encoded (some (b ∷ bs)) = elim (List-cases (bytes_to_base64 (b ∷ bs))) [
    | inl nothing ↦ absurd (ground (arith, inverse (b ∷ bs), inverse [], empty))
    | inr (c, cs, there) ↦ ground (arith, inverse (b ∷ bs))
  ]

  -- Metadata that is serialised and deserialised again comes back with every field, the signed
  -- trailing blocks included, but for the attachment ids of local recovery, the upload time and the
  -- receipt scheme, which are dropped, and for an empty optional signature, which is dropped too.
  pub deserialize-serialize :
      (e : StoreEntry)
      → deserialize_store_entry base64_to_bytes (serialize_store_entry bytes_to_base64 e)
        ≡ record e { metadata = transferred e.metadata }
  unfolding deserialize_store_entry serialize_store_entry
  deserialize-serialize e = ground (
    arith,
    inverse e.encrypted_data,
    inverse e.metadata.signature,
    decoded-encoded e.metadata.metadata_signature,
    decoded-encoded e.metadata.received_date_signature,
  )
