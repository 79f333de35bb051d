-- ===== src/Planner/Plan/Complete.antt =====
-- A plan is always found, and what it replays is exactly what its snapshot leaves out of the latest
-- state.
use mindoo_db.Base.{
  ℕ, ◌≡◌, ◌↔◌, refl, Bool, true, false, not, ◌&&◌, ◌||◌, ◌==◌, Option, some, none, List, [], ◌∷◌,
  foldl, get_elem?, ◌⊎◌, suc, sym, ap, JsString, str_dec, lookup, has, Distinct, filterb, length,
  ltb, if◌then◌else◌, arith, Bool-cases, List-cases, inl, inr,
}
use mindoo_db.Entry.{StoreEntryMetadata}
use mindoo_db.Planner.{
  Replay, is_replay_entry, by_id, latest_heads, build_latest_state_reachability,
  covered_by_snapshot,
}
use mindoo_db.Planner.Walk.{Reaches}
use mindoo_db.Planner.Reachable.{covered_by_snapshot-Visits, build_latest_state_reachability-Visits}
use mindoo_db.Planner.Topological.Waiting.{has-filterb, filterb-Distinct}
use mindoo_db.Planner.Topological.Order.{has-topological_by_dependencies}
use mindoo_db.Planner.Plan.{
  ◌>>=◌, DocumentMaterializationPlan, newest, id_of, without_members, better, best_snapshot,
  snapshot_of, plan_on_snapshot, is_snapshot, plan_without_replay, plan_replay,
  compute_document_materialization_plan,
}

abbrev pub OneOf : List StoreEntryMetadata → StoreEntryMetadata → Type 0
OneOf ss s = (i : ℕ) × (get_elem? ss i ≡ some s)

-- The choice is one of the snapshots, and none only if there is none.
abbrev pub ChosenFrom : List StoreEntryMetadata → Option StoreEntryMetadata → Type 0
ChosenFrom ss none = ss ≡ []
ChosenFrom ss (some s) = OneOf ss s

covered-total :
    (best : Option StoreEntryMetadata) (replay : Replay)
    → (covered : List JsString) × (covered_by_snapshot best replay ≡ some covered)
unfolding covered_by_snapshot
covered-total none replay = ([], refl)
covered-total (some s) replay =
    let (covered, found, distinct, visits) = covered_by_snapshot-Visits s replay in (covered, found)

-- What a plan promises of the replay entries and the snapshots of a document.
pub record IsComplete (entries snapshots : List StoreEntryMetadata)
    (plan : DocumentMaterializationPlan) : Type 0 where
  pub chosen : Option StoreEntryMetadata
  pub covered : List JsString
  pub snapshot : plan.snapshot_entry_id ≡ id_of chosen
  pub among : ChosenFrom snapshots chosen
  pub covers : covered_by_snapshot chosen (by_id entries) ≡ some covered
  pub once : Distinct str_dec plan.entry_ids_to_apply
  pub applies :
      (id : JsString)
      → (has str_dec id plan.entry_ids_to_apply ≡ true)
        ↔ (Reaches (by_id entries) (latest_heads entries) id × (has str_dec id covered ≡ false))

-- `reduce` returns its start or a later element.
abbrev newer : StoreEntryMetadata → StoreEntryMetadata → StoreEntryMetadata
newer a b = if ltb a.created_at b.created_at then b else a

newest_loop-OneOf :
    (a : StoreEntryMetadata) (ss : List StoreEntryMetadata)
    → (foldl newer a ss ≡ a) ⊎ OneOf ss (foldl newer a ss)
newest_loop-OneOf a [] = inl refl
newest_loop-OneOf a (b ∷ bs) = elim (Bool-cases (ltb a.created_at b.created_at)) [
  | inl later ↦ rw later (elim (newest_loop-OneOf b bs) [
    | inl e ↦ inr (0, ap some (sym e))
    | inr (i, h) ↦ inr (suc i, h)
  ])
  | inr earlier ↦
      rw earlier (elim (newest_loop-OneOf a bs) [ inl e ↦ inl e | inr (i, h) ↦ inr (suc i, h) ])
]

newest-ChosenFrom : (ss : List StoreEntryMetadata) → ChosenFrom ss (newest ss)
unfolding newest
newest-ChosenFrom [] = refl
newest-ChosenFrom (s ∷ ss) = elim (newest_loop-OneOf s ss) [
  | inl e ↦ (0, ap some (sym e))
  | inr (i, h) ↦ (suc i, h)
]

-- Once a snapshot is chosen, one is at the end.
best_snapshot-OneOf :
    (replay : Replay) (reachable : List JsString) (best : StoreEntryMetadata) (most : ℕ)
    (ss all : List StoreEntryMetadata)
    → OneOf all best
    → ((s : StoreEntryMetadata) → OneOf ss s → OneOf all s)
    → (s : StoreEntryMetadata) × (n : ℕ) × (best_snapshot replay reachable (some (best, most)) ss
        ≡ some (some (s, n)))
      × OneOf all s
unfolding best_snapshot better
best_snapshot-OneOf replay reachable best most [] all here others = (best, most, refl, here)
best_snapshot-OneOf replay reachable best most (s ∷ ss) all here others =
    let (covered, found) = covered-total (some s) replay in
    let n = length (filterb (λ id. has str_dec id covered) reachable) in
    let rest : (t : StoreEntryMetadata) → OneOf ss t → OneOf all t =
      λ t (i, h). others t (suc i, h) in
    elim (Bool-cases (ltb most n || (n == most && ltb best.created_at s.created_at))) [
      | inl more ↦
          rw (found, ◌>>=◌, more, better)
            (best_snapshot-OneOf replay reachable s n ss all (others s (0, refl)) rest)
      | inr less ↦
          rw (found, ◌>>=◌, less, better)
            (best_snapshot-OneOf replay reachable best most ss all here rest)
    ]

best_snapshot-ChosenFrom :
    (replay : Replay) (reachable : List JsString) (ss : List StoreEntryMetadata)
    → (best : Option (StoreEntryMetadata × ℕ)) × (best_snapshot replay reachable none ss
        ≡ some best)
      × ChosenFrom ss (snapshot_of best)
unfolding best_snapshot better
best_snapshot-ChosenFrom replay reachable [] = (none, refl, refl)
best_snapshot-ChosenFrom replay reachable (s ∷ ss) =
    let (covered, found) = covered-total (some s) replay in
    let (t, n, run, among) =
      best_snapshot-OneOf replay reachable s
        (length (filterb (λ id. has str_dec id covered) reachable)) ss (s ∷ ss) (0, refl)
        (λ t (i, h). (suc i, h)) in
    (some (t, n), rw (found, ◌>>=◌) run, among)

no_entries-Reaches : (roots : List JsString) (id : JsString) → ¬ Reaches [] roots id
unfolding lookup
no_entries-Reaches roots _ (Reaches.root id h there) = cc
no_entries-Reaches roots _ (Reaches.step id dep m r found d there) = cc

plan_without_replay-IsComplete :
    (doc_id : JsString) (snapshots : List StoreEntryMetadata) (include_diagnostics : Bool)
    → IsComplete [] snapshots (plan_without_replay doc_id snapshots include_diagnostics)
unfolding plan_without_replay by_id
plan_without_replay-IsComplete doc_id snapshots include_diagnostics =
    let (covered, found) = covered-total (newest snapshots) [] in
    record {
      chosen = newest snapshots;
      covered = covered;
      snapshot = refl;
      among = newest-ChosenFrom snapshots;
      covers = found;
      once = tt;
      applies = λ id. (λ h. cc, λ r. absurd (no_entries-Reaches (latest_heads []) id r.0));
    }

plan_on_snapshot-IsComplete :
    (doc_id : JsString) (entries snapshots : List StoreEntryMetadata)
    (heads reachable : List JsString) (include_diagnostics : Bool)
    (best : Option (StoreEntryMetadata × ℕ))
    → ChosenFrom snapshots (snapshot_of best)
    → Distinct str_dec reachable
    → ((id : JsString)
        → (has str_dec id reachable ≡ true) ↔ Reaches (by_id entries) (latest_heads entries) id)
    → (plan : DocumentMaterializationPlan) × (plan_on_snapshot doc_id
          (by_id entries)
          heads
          reachable
          include_diagnostics
          best
        ≡ some plan)
      × IsComplete entries snapshots plan
unfolding plan_on_snapshot
plan_on_snapshot-IsComplete doc_id entries snapshots heads reachable include_diagnostics best among
      distinct visits =
    let (covered, found) = covered-total (snapshot_of best) (by_id entries) in
    let open_ones : JsString → Bool = λ id. not (has str_dec id covered) in
    let (ordered, run, once, same) =
      has-topological_by_dependencies (without_members covered reachable) (by_id entries)
        (filterb-Distinct open_ones reachable distinct) in
    rw (found, ◌>>=◌, run, plan_on_snapshot)
      (
        _,
        refl,
        record {
          chosen = snapshot_of best;
          covered = covered;
          snapshot = refl;
          among = among;
          covers = found;
          once = once;
          applies = λ id. (
            λ h. (
              (visits id).0 (ground (arith, h, same id, has-filterb open_ones id reachable)),
              ground (arith, h, same id, has-filterb open_ones id reachable),
            ),
            λ r.
                ground (arith, same id, has-filterb open_ones id reachable, (visits id).1 r.0, r.1),
          );
        },
      )

-- A plan is always found. Its snapshot is one of the document's, and there is none only if the
-- document has none; and the entries to apply are, each once, exactly those replay entries of the
-- latest state that the snapshot does not cover.
pub compute_document_materialization_plan-IsComplete :
    (doc_id : JsString) (entries : List StoreEntryMetadata) (include_diagnostics : Bool)
    → (plan : DocumentMaterializationPlan) × (compute_document_materialization_plan doc_id entries
          include_diagnostics
        ≡ some plan)
      × IsComplete (filterb is_replay_entry entries) (filterb is_snapshot entries) plan
unfolding compute_document_materialization_plan plan_replay
compute_document_materialization_plan-IsComplete doc_id entries include_diagnostics =
    let snapshots = filterb is_snapshot entries in
    elim (List-cases (filterb is_replay_entry entries)) [
      | inl nothing ↦
          rw (nothing, compute_document_materialization_plan)
            (_, refl, plan_without_replay-IsComplete doc_id snapshots include_diagnostics)
      | inr (e, es, replays) ↦
          let (reachable, found, distinct, visits) =
            build_latest_state_reachability-Visits (e ∷ es) in
          let (best, run, among) = best_snapshot-ChosenFrom (by_id (e ∷ es)) reachable snapshots in
          rw (replays, compute_document_materialization_plan, found, ◌>>=◌, run)
            (plan_on_snapshot-IsComplete doc_id (e ∷ es) snapshots
              (build_latest_state_reachability (e ∷ es)).0 reachable include_diagnostics best among
              distinct visits)
    ]
