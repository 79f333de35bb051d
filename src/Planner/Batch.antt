-- ===== src/Planner/Batch.antt =====
-- `computeBatchMaterializationPlan` of src/core/appendonlystores/MaterializationPlanner.ts.
use mindoo_db.Base.{
  ◌≡◌, refl, ap, sym, Bool, true, false, Option, some, List, [], ◌∷◌, ◌++◌, foldl, JsString,
  str_dec, ite, or_else, lookup, lookup-set, set, filterb, append_nil, append_assoc, arith,
}
use mindoo_db.Entry.{StoreEntryMetadata}
use mindoo_db.Planner.Plan.{
  ◌>>=◌, DocumentMaterializationPlan, compute_document_materialization_plan,
}

abbrev pub ByDoc : Type 0
ByDoc = List (JsString × List StoreEntryMetadata)

-- `byDoc.get(docId) || []`
abbrev pub entries_of : JsString → ByDoc → List StoreEntryMetadata
entries_of d grouped = or_else (lookup str_dec d grouped) []

abbrev pub group_entry : ByDoc → StoreEntryMetadata → ByDoc
group_entry grouped e = set str_dec e.doc_id (entries_of e.doc_id grouped ++ (e ∷ [])) grouped

unfoldable pub group_by_doc : List StoreEntryMetadata → ByDoc
group_by_doc entries = foldl group_entry [] entries

-- The plans of the documents one after the other.
unfoldable pub plan_each :
    (JsString → Option DocumentMaterializationPlan)
    → List JsString
    → Option (List DocumentMaterializationPlan)
plan_each plan [] = some []
plan_each plan (d ∷ ds) = plan d >>= (λ p. plan_each plan ds >>= (λ ps. some (p ∷ ps)))

unfoldable pub compute_batch_materialization_plan :
    List StoreEntryMetadata → List JsString → Bool → Option (List DocumentMaterializationPlan)
unfolding plan_each
compute_batch_materialization_plan entries doc_ids include_diagnostics =
    let grouped = group_by_doc entries in
    plan_each
      (λ d. compute_document_materialization_plan d (entries_of d grouped) include_diagnostics)
      doc_ids

abbrev pub in_doc : JsString → StoreEntryMetadata → Bool
in_doc d e = ite (str_dec d e.doc_id) true false

entries_of-group :
    (d : JsString) (es : List StoreEntryMetadata) (grouped : ByDoc)
    → entries_of d (foldl group_entry grouped es) ≡ entries_of d grouped ++ filterb (in_doc d) es
entries_of-group d [] grouped = sym (append_nil (entries_of d grouped))
entries_of-group d (e ∷ es) grouped = elim (str_dec d e.doc_id) [
  | yes same ↦ ground (
    arith,
    entries_of-group d es (group_entry grouped e),
    lookup-set str_dec d e.doc_id (entries_of e.doc_id grouped ++ (e ∷ [])) grouped,
    append_assoc (entries_of d grouped) (e ∷ []) (filterb (in_doc d) es),
    same,
  )
  | no apart ↦ ground (
    arith,
    entries_of-group d es (group_entry grouped e),
    lookup-set str_dec d e.doc_id (entries_of e.doc_id grouped ++ (e ∷ [])) grouped,
    apart,
  )
]

plan_each-cong :
    (f g : JsString → Option DocumentMaterializationPlan) (ds : List JsString)
    → ((d : JsString) → f d ≡ g d)
    → plan_each f ds ≡ plan_each g ds
unfolding plan_each
plan_each-cong f g [] same = refl
plan_each-cong f g (d ∷ ds) same = rw (same d, plan_each-cong f g ds same)

-- A batch plan is the plan of each document on its own, made from exactly the entries of that
-- document in their order.
pub compute_batch_materialization_plan-plan_each :
    (entries : List StoreEntryMetadata) (doc_ids : List JsString) (include_diagnostics : Bool)
    → compute_batch_materialization_plan entries doc_ids include_diagnostics
      ≡ plan_each
          (λ d.
            compute_document_materialization_plan d
              (filterb (in_doc d) entries)
              include_diagnostics)
          doc_ids
unfolding compute_batch_materialization_plan group_by_doc lookup
compute_batch_materialization_plan-plan_each entries doc_ids include_diagnostics =
    plan_each-cong _ _ doc_ids (λ d.
      ap (λ es. compute_document_materialization_plan d es include_diagnostics)
        (entries_of-group d entries []))
