-- ===== src/EntryTime.antt =====
-- src/core/storeEntryTime.ts: the trusted time of an entry and the witness state of a document.
use mindoo_db.Base.{
  ℕ, ◌≡◌, Bool, not, ◌&&◌, some, none, List, any, is_some, arith, or_else, if◌then◌else◌,
}
use mindoo_db.Entry.{StoreEntryMetadata}

unfoldable pub is_provisional : StoreEntryMetadata → Bool
is_provisional m = not (is_some m.received_at) && is_some m.entry_version

unfoldable pub is_versioned : StoreEntryMetadata → Bool
is_versioned m = is_some m.entry_version

pub record WitnessState : Type 0 where
  pub awaiting_witness : Bool
  pub witnessed : Bool

unfoldable pub metadata_witness_state : List StoreEntryMetadata → WitnessState
unfolding is_provisional is_versioned
metadata_witness_state metas =
    let awaiting = any is_provisional metas in
    record { awaiting_witness = awaiting; witnessed = not awaiting && any is_versioned metas }

unfoldable pub entry_trusted_time : StoreEntryMetadata → ℕ → ℕ
entry_trusted_time m now = elim m.received_at [
  | some t ↦ t
  | none ↦ elim m.entry_version [ some _ ↦ now | none ↦ m.created_at ]
]

-- The trusted time of a provisional entry is the current time, whatever the entry claims; that of
-- any other entry is its receipt time, or the claimed creation time where it was never received.
pub entry_trusted_time-is_provisional :
    (m : StoreEntryMetadata) (now : ℕ)
    → entry_trusted_time m now
      ≡ (if is_provisional m then now else or_else m.received_at m.created_at)
unfolding entry_trusted_time is_provisional
entry_trusted_time-is_provisional m now = ground arith
