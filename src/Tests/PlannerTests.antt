-- ===== src/Tests/PlannerTests.antt =====
-- The materialization planner at a chain of two changes with a snapshot of the first.
use mindoo_db.Base.{
  filterb, refl, ℕ, ◌<◌, true, lookup, set, ite, Distinct, JsString, arith, ◌≡◌, some, List, [],
  ◌∷◌, str_dec, has,
}
use mindoo_db.Entry.{StoreEntryMetadata, doc_snapshot}
use mindoo_db.Planner.{
  by_id, latest_heads, build_latest_state_reachability, covered_by_snapshot, coverage_roots,
}
use mindoo_db.Planner.Reachable.{
  Visits, build_latest_state_reachability-Visits, covered_by_snapshot-Visits,
}
use mindoo_db.Planner.Topological.{topological_by_dependencies}
use mindoo_db.Planner.Topological.Maps.{needs}
use mindoo_db.Planner.Topological.Order.{
  DependenciesFirst, has-topological_by_dependencies, topological_by_dependencies-DependenciesFirst,
}
use mindoo_db.Planner.{is_replay_entry}
use mindoo_db.Planner.Plan.{
  DocumentMaterializationPlan, is_snapshot, compute_document_materialization_plan,
}
use mindoo_db.Planner.Plan.Complete.{IsComplete, compute_document_materialization_plan-IsComplete}
use mindoo_db.Planner.Batch.{
  plan_each, in_doc, compute_batch_materialization_plan,
  compute_batch_materialization_plan-plan_each,
}
use mindoo_db.Tests.{doc_one, doc_two, text_a, text_b, meta_a, meta_b, meta_c}

abbrev chain : List StoreEntryMetadata
chain = meta_a ∷ record meta_b { dependency_ids = text_a ∷ [] } ∷ []

abbrev snapshot_a : StoreEntryMetadata
snapshot_a = record meta_c { entry_type = doc_snapshot; dependency_ids = text_a ∷ [] }

build_latest_state_reachability-Visits_example :
    Visits (by_id chain) (latest_heads chain) (build_latest_state_reachability chain).1
build_latest_state_reachability-Visits_example = build_latest_state_reachability-Visits chain

covered_by_snapshot-Visits_example :
    Visits
      (by_id chain)
      (coverage_roots snapshot_a)
      (covered_by_snapshot (some snapshot_a) (by_id chain))
covered_by_snapshot-Visits_example = covered_by_snapshot-Visits snapshot_a (by_id chain)

-- The second entry waits for the first.
abbrev chain_ids : List JsString
chain_ids = text_b ∷ text_a ∷ []

abbrev chain_rank : JsString → ℕ
chain_rank id = ite (str_dec id text_a) 0 1

chain-acyclic :
    (x d : JsString)
    → has str_dec x chain_ids ≡ true
    → has str_dec d (needs chain_ids (by_id chain) x) ≡ true
    → chain_rank d < chain_rank x
unfolding by_id lookup set str_dec
chain-acyclic x d h g = ground arith

has-topological_by_dependencies_example :
    (out : List JsString) × (topological_by_dependencies chain_ids (by_id chain) ≡ some out)
    × Distinct str_dec out
    × ((y : JsString) → has str_dec y out ≡ has str_dec y chain_ids)
unfolding str_dec
has-topological_by_dependencies_example =
    has-topological_by_dependencies chain_ids (by_id chain) (refl, (refl, tt))

topological_by_dependencies-DependenciesFirst_example :
    (out : List JsString) × (topological_by_dependencies chain_ids (by_id chain) ≡ some out)
    × DependenciesFirst chain_ids (by_id chain) [] out
unfolding str_dec
topological_by_dependencies-DependenciesFirst_example =
    topological_by_dependencies-DependenciesFirst chain_ids (by_id chain) chain_rank
      (refl, (refl, tt)) chain-acyclic

abbrev chain_document : List StoreEntryMetadata
chain_document = snapshot_a ∷ chain

compute_document_materialization_plan-IsComplete_example :
    (plan : DocumentMaterializationPlan) × (compute_document_materialization_plan doc_two
        chain_document true
      ≡ some plan)
    × IsComplete (filterb is_replay_entry chain_document) (filterb is_snapshot chain_document) plan
compute_document_materialization_plan-IsComplete_example =
    compute_document_materialization_plan-IsComplete doc_two chain_document true

compute_batch_materialization_plan-plan_each_example :
    compute_batch_materialization_plan chain_document (doc_one ∷ doc_two ∷ []) true
    ≡ plan_each
        (λ d. compute_document_materialization_plan d (filterb (in_doc d) chain_document) true)
        (doc_one ∷ doc_two ∷ [])
compute_batch_materialization_plan-plan_each_example =
    compute_batch_materialization_plan-plan_each chain_document (doc_one ∷ doc_two ∷ []) true
