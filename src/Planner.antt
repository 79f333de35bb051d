-- ===== src/Planner.antt =====
-- src/core/appendonlystores/MaterializationPlanner.ts: which entries lead to the latest state of a
-- document, and which of them a snapshot covers. A set is the list of its members in the order in
-- which they were added. A stack has its top at the head of the list, so an array that is spread into
-- a stack is reversed.
pub mod Walk
pub mod Reachable
pub mod Topological
pub mod Plan
pub mod Batch
use mindoo_db.Base.{
  ℕ, zero, suc, ◌+◌, Bool, true, false, not, ◌&&◌, Option, some, none, List, [], ◌∷◌, ◌++◌, map,
  foldl, reverse, JsString, str_dec, is_some, lookup, set, has, add, filterb, length, if◌then◌else◌,
}
use mindoo_db.Entry.{
  StoreEntryType-discrete, doc_create, doc_change, doc_delete, doc_undelete, StoreEntryMetadata,
}

-- The map from ids to replay entries.
abbrev pub Replay : Type 0
Replay = List (JsString × StoreEntryMetadata)

unfoldable pub is_replay_entry : StoreEntryMetadata → Bool
is_replay_entry m =
    has StoreEntryType-discrete m.entry_type
      (doc_create ∷ doc_change ∷ doc_delete ∷ doc_undelete ∷ [])

unfoldable pub by_id : List StoreEntryMetadata → Replay
by_id entries = foldl (λ replay e. set str_dec e.id e replay) [] entries

-- The loop over the dependencies of one entry that collects those of replay entries.
unfoldable pub add_referenced : Replay → List JsString → List JsString → List JsString
add_referenced replay seen deps =
    foldl (λ s d. if is_some (lookup str_dec d replay) then add str_dec d s else s) seen deps

unfoldable pub referenced : Replay → List StoreEntryMetadata → List JsString
unfolding add_referenced
referenced replay entries = foldl (λ s e. add_referenced replay s e.dependency_ids) [] entries

unfoldable pub latest_heads : List StoreEntryMetadata → List JsString
unfolding referenced by_id
latest_heads entries =
    map (λ e. e.id)
      (filterb (λ e. not (has str_dec e.id (referenced (by_id entries) entries))) entries)

-- The dependencies that pass a test are pushed, one after the other.
unfoldable pub push_if : (JsString → Bool) → List JsString → List JsString → List JsString
push_if p [] stack = stack
push_if p (d ∷ ds) stack = push_if p ds (if p d then d ∷ stack else stack)

-- All dependencies of all replay entries, which bound the number of pushes.
abbrev pub total_dependencies : Replay → ℕ
total_dependencies [] = 0
total_dependencies (e ∷ es) = length e.1.dependency_ids + total_dependencies es

module _ (replay : Replay) where
  -- The `while` loop of `buildLatestStateReachability`, on fuel; `none` means that it ran out.
  unfoldable pub reach : ℕ → List JsString → List JsString → Option (List JsString)
  reach zero stack reachable = none
  reach (suc fuel) [] reachable = some reachable
  reach (suc fuel) (id ∷ stack) reachable = elim (has str_dec id reachable) [
    | true ↦ reach fuel stack reachable
    | false ↦ elim (lookup str_dec id replay) [
      | none ↦ reach fuel stack (reachable ++ (id ∷ []))
      | some e ↦
          reach fuel
            (push_if
              (λ d.
                is_some (lookup str_dec d replay) && not (has str_dec d (reachable ++ (id ∷ []))))
              e.dependency_ids stack)
            (reachable ++ (id ∷ []))
    ]
  ]

  -- The `while` loop of `coveredBySnapshot`, on fuel.
  unfoldable pub cover : ℕ → List JsString → List JsString → Option (List JsString)
  cover zero stack covered = none
  cover (suc fuel) [] covered = some covered
  cover (suc fuel) (id ∷ stack) covered = elim (has str_dec id covered) [
    | true ↦ cover fuel stack covered
    | false ↦ elim (lookup str_dec id replay) [
      | none ↦ cover fuel stack covered
      | some e ↦
          cover fuel
            (push_if (λ d. not (has str_dec d (covered ++ (id ∷ [])))) e.dependency_ids stack)
            (covered ++ (id ∷ []))
    ]
  ]

-- Each round takes one id from the stack, and the dependencies of an entry are pushed once, so the
-- roots and all dependencies bound the rounds.
unfoldable pub build_latest_state_reachability :
    List StoreEntryMetadata → List JsString × Option (List JsString)
unfolding reach
build_latest_state_reachability entries =
    let heads = latest_heads entries in
    (
      heads,
      reach (by_id entries) (suc (length heads + total_dependencies (by_id entries)))
          (reverse heads) [],
    )

-- Where the coverage of a snapshot starts.
abbrev pub coverage_roots : StoreEntryMetadata → List JsString
coverage_roots snapshot = elim snapshot.snapshot_head_entry_ids [
  | none ↦ snapshot.dependency_ids
  | some [] ↦ snapshot.dependency_ids
  | some (h ∷ hs) ↦ h ∷ hs
]

unfoldable pub covered_by_snapshot : Option StoreEntryMetadata → Replay → Option (List JsString)
unfolding cover
covered_by_snapshot none replay = some []
covered_by_snapshot (some snapshot) replay =
    let roots = coverage_roots snapshot in
    cover replay (suc (length roots + total_dependencies replay)) (reverse roots) []
