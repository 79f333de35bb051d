-- ===== src/Planner/Topological.antt =====
-- `topologicalByDependencies` of src/core/appendonlystores/MaterializationPlanner.ts: Kahn's algorithm
-- on the entries to replay, with the sorted order as its fallback.
pub mod Maps
pub mod Waiting
pub mod Order
use mathlib.Core.Option
use mindoo_db.Base.{
  ℕ, zero, suc, ◌+◌, ◌-◌, ◌==◌, Bool, Option, some, none, List, [], ◌∷◌, ◌++◌, foldl, JsString,
  str_dec, str_ltb, or_else, lookup, set, has, filterb, length, if◌then◌else◌,
}
use mindoo_db.Base.Sort.{sort}
use mindoo_db.Planner.{Replay}

pub record Edges : Type 0 where
  pub indegree : List (JsString × ℕ)
  pub dependents : List (JsString × List JsString)

-- `indegree.get(id) || 0`, and `dependents.get(id) || []`.
abbrev pub count_of : JsString → List (JsString × ℕ) → ℕ
count_of id m = or_else (lookup str_dec id m) 0

abbrev pub dependents_of : JsString → List (JsString × List JsString) → List JsString
dependents_of id m = or_else (lookup str_dec id m) []

abbrev pub no_edge : Edges → JsString → Edges
no_edge g id = record {
  indegree = set str_dec id 0 g.indegree;
  dependents = set str_dec id [] g.dependents;
}

-- The loop over the dependencies of one entry.
unfoldable pub add_edge : List JsString → JsString → Edges → JsString → Edges
add_edge ids id g dep =
    if has str_dec dep ids
    then record {
      indegree = set str_dec id (count_of id g.indegree + 1) g.indegree;
      dependents = set str_dec dep (dependents_of dep g.dependents ++ (id ∷ [])) g.dependents;
    }
    else g

unfoldable pub add_edges : List JsString → Replay → Edges → JsString → Edges
unfolding add_edge
add_edges ids replay g id = elim (lookup str_dec id replay) [
  | none ↦ g
  | some e ↦ foldl (add_edge ids id) g e.dependency_ids
]

-- Both maps, after the two loops over the ids.
unfoldable pub edges : List JsString → Replay → Edges
unfolding add_edges
edges ids replay =
    foldl (add_edges ids replay) (foldl no_edge (record { indegree = []; dependents = [] }) ids) ids

-- One dependent of the entry that was taken: it is pushed if its count was one, so that it is zero
-- now. A count of zero, which the source would take below zero, stays at zero; neither is ever pushed.
unfoldable pub relax :
    List (JsString × ℕ) × List JsString → JsString → List (JsString × ℕ) × List JsString
relax (indegree, queue) dep = (
  set str_dec dep (count_of dep indegree - 1) indegree,
  if count_of dep indegree == 1 then queue ++ (dep ∷ []) else queue,
)

-- The `while` loop, on fuel; `none` means that it ran out.
unfoldable pub kahn :
    ℕ
    → List (JsString × List JsString)
    → List (JsString × ℕ)
    → List JsString
    → List JsString
    → Option (List JsString)
unfolding relax
kahn zero dependents indegree queue ordered = none
kahn (suc fuel) dependents indegree [] ordered = some ordered
kahn (suc fuel) dependents indegree (id ∷ queue) ordered =
    let after = foldl relax (indegree, queue) (dependents_of id dependents) in
    kahn fuel dependents after.0 (sort str_ltb after.1) (ordered ++ (id ∷ []))

unfoldable pub topological_by_dependencies : List JsString → Replay → Option (List JsString)
unfolding edges kahn
topological_by_dependencies ids replay =
    let g = edges ids replay in
    Option.map (λ ordered. if length ordered == length ids then ordered else sort str_ltb ids)
      (kahn (suc (length ids)) g.dependents g.indegree
        (sort str_ltb (filterb (λ id. count_of id g.indegree == 0) ids)) [])
