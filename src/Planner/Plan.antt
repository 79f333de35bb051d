-- ===== src/Planner/Plan.antt =====
-- The choice of a snapshot and the plans of src/core/appendonlystores/MaterializationPlanner.ts. A
-- result of `none` means that one of the loops ran out of fuel.
pub mod Complete
use mindoo_db.Base.{
  ℕ, Bool, true, false, not, ◌&&◌, ◌||◌, ◌==◌, Option, some, none, List, [], ◌∷◌, ◌++◌, foldl,
  JsString, str_dec, ite, is_some, or_else, lookup, set, has, filterb, length, ltb, if◌then◌else◌,
}
use mindoo_db.Entry.{StoreEntryType-discrete, doc_snapshot, StoreEntryMetadata}
use mindoo_db.Planner.{
  Replay, is_replay_entry, by_id, build_latest_state_reachability, covered_by_snapshot,
}
use mindoo_db.Planner.Topological.{topological_by_dependencies}

infixl 5 ◌>>=◌
abbrev pub ◌>>=◌ {ℓ κ} : {A : Type ℓ} {B : Type κ} → Option A → (A → Option B) → Option B
none >>= f = none
some a >>= f = f a

pub record MaterializationPlanDiagnostics : Type 0 where
  pub head_entry_ids : List JsString
  pub covered_latest_entry_count : ℕ
  pub uncovered_latest_entry_count : ℕ

pub record DocumentMaterializationPlan : Type 0 where
  pub doc_id : JsString
  pub snapshot_entry_id : Option JsString
  pub entry_ids_to_apply : List JsString
  pub diagnostics : Option MaterializationPlanDiagnostics

-- `snapshots.reduce((a, b) => (b.createdAt > a.createdAt ? b : a))`
unfoldable pub newest : List StoreEntryMetadata → Option StoreEntryMetadata
newest [] = none
newest (s ∷ ss) =
    some (foldl (λ (a b : StoreEntryMetadata). if ltb a.created_at b.created_at then b else a) s ss)

abbrev pub id_of : Option StoreEntryMetadata → Option JsString
id_of none = none
id_of (some s) = some s.id

abbrev pub without_members : List JsString → List JsString → List JsString
without_members covered ids = filterb (λ id. not (has str_dec id covered)) ids

-- The best snapshot and its count; no snapshot goes with the count of -1, below every other, so that
-- the first one is always taken.
unfoldable pub better :
    Option (StoreEntryMetadata × ℕ) → StoreEntryMetadata → ℕ → Option (StoreEntryMetadata × ℕ)
better none snapshot count = some (snapshot, count)
better (some (best, most)) snapshot count =
    if ltb most count || (count == most && ltb best.created_at snapshot.created_at)
    then some (snapshot, count)
    else some (best, most)

-- The loop that scores each snapshot by the latest entries that it covers.
unfoldable pub best_snapshot :
    Replay
    → List JsString
    → Option (StoreEntryMetadata × ℕ)
    → List StoreEntryMetadata
    → Option (Option (StoreEntryMetadata × ℕ))
best_snapshot replay reachable best [] = some best
best_snapshot replay reachable best (s ∷ ss) = covered_by_snapshot (some s) replay >>= (λ covered.
    best_snapshot replay reachable
      (better best s (length (filterb (λ id. has str_dec id covered) reachable))) ss)

abbrev pub snapshot_of : Option (StoreEntryMetadata × ℕ) → Option StoreEntryMetadata
snapshot_of none = none
snapshot_of (some (s, count)) = some s

abbrev pub covered_count : Option (StoreEntryMetadata × ℕ) → ℕ
covered_count none = 0
covered_count (some (s, count)) = count

-- Steps 5 and 6: what the snapshot does not cover, in the order of replay.
unfoldable pub plan_on_snapshot :
    JsString
    → Replay
    → List JsString
    → List JsString
    → Bool
    → Option (StoreEntryMetadata × ℕ)
    → Option DocumentMaterializationPlan
plan_on_snapshot doc_id replay heads reachable include_diagnostics best =
    covered_by_snapshot (snapshot_of best) replay >>= (λ covered.
      let uncovered = without_members covered reachable in
      topological_by_dependencies uncovered replay >>= (λ ordered. some (record {
        doc_id = doc_id;
        snapshot_entry_id = id_of (snapshot_of best);
        entry_ids_to_apply = ordered;
        diagnostics =
            if include_diagnostics
            then some (record {
              head_entry_ids = heads;
              covered_latest_entry_count = covered_count best;
              uncovered_latest_entry_count = length uncovered;
            })
            else none;
      })))

abbrev pub is_snapshot : StoreEntryMetadata → Bool
is_snapshot e = ite (StoreEntryType-discrete e.entry_type doc_snapshot) true false

-- Step 2, for a document without replay entries.
unfoldable pub plan_without_replay :
    JsString → List StoreEntryMetadata → Bool → DocumentMaterializationPlan
unfolding newest
plan_without_replay doc_id snapshots include_diagnostics = record {
  doc_id = doc_id;
  snapshot_entry_id = id_of (newest snapshots);
  entry_ids_to_apply = [];
  diagnostics =
      if include_diagnostics
      then some (record {
        head_entry_ids = [];
        covered_latest_entry_count = 0;
        uncovered_latest_entry_count = 0;
      })
      else none;
}

-- Steps 3 to 6.
unfoldable pub plan_replay :
    JsString
    → List StoreEntryMetadata
    → List StoreEntryMetadata
    → Bool
    → Option DocumentMaterializationPlan
unfolding plan_on_snapshot best_snapshot
plan_replay doc_id replay_entries snapshots include_diagnostics =
    let latest = build_latest_state_reachability replay_entries in
    let replay = by_id replay_entries in
    latest.1 >>= (λ reachable.
      best_snapshot replay reachable none snapshots
      >>= (λ best. plan_on_snapshot doc_id replay latest.0 reachable include_diagnostics best))

unfoldable pub compute_document_materialization_plan :
    JsString → List StoreEntryMetadata → Bool → Option DocumentMaterializationPlan
unfolding plan_replay plan_without_replay
compute_document_materialization_plan doc_id entries include_diagnostics =
    let snapshots = filterb is_snapshot entries in
    elim (filterb is_replay_entry entries) [
      | [] ↦ some (plan_without_replay doc_id snapshots include_diagnostics)
      | e ∷ es ↦ plan_replay doc_id (e ∷ es) snapshots include_diagnostics
    ]
