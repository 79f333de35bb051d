-- ===== src/Store/Resolve.antt =====
-- `resolveDependencies` of src/core/appendonlystores/InMemoryContentAddressedStore.ts.
pub mod Exact
use mindoo_db.Base.{
  ℕ, zero, suc, ◌+◌, Bool, true, false, not, ◌&&◌, ◌||◌, Option, some, none, List, [], ◌∷◌, ◌++◌,
  reverse, JsString, str_dec, ite, lookup, has, ltb, if◌then◌else◌,
}
use mindoo_db.Entry.{StoreEntryType, StoreEntryType-discrete, StoreEntryMetadata}
use mindoo_db.Planner.{Replay, total_dependencies}
use mindoo_db.Store.{Store}

-- An empty type stands for none in the source, and a text that names no type stops nothing either.
pub record ResolveOptions : Type 0 where
  pub stop_at_entry_type : Option StoreEntryType
  pub max_depth : Option ℕ
  pub include_start : Bool

abbrev pub too_deep : Option ℕ → ℕ → Bool
too_deep none depth = false
too_deep (some max) depth = ltb max depth

abbrev pub stops : Option StoreEntryType → StoreEntryMetadata → JsString → JsString → Bool
stops none m id start_id = false
stops (some type) m id start_id =
    ite (StoreEntryType-discrete m.entry_type type) (ite (str_dec id start_id) false true) false

-- The dependencies that are not visited, at a depth.
unfoldable pub queued : List JsString → ℕ → List JsString → List (JsString × ℕ)
queued visited depth [] = []
queued visited depth (dep ∷ deps) =
    if has str_dec dep visited
    then queued visited depth deps
    else (dep, depth) ∷ queued visited depth deps

module _ (entries : Replay) (start_id : JsString) (options : ResolveOptions) where
  abbrev pub with_id : JsString → List JsString → List JsString
  with_id id result =
      if ite (str_dec id start_id) false true || options.include_start
      then result ++ (id ∷ [])
      else result

  -- The `while` loop, on fuel, with the queue from the current index on.
  unfoldable pub resolve_loop :
      ℕ → List (JsString × ℕ) → List JsString → List JsString → Option (List JsString)
  unfolding queued
  resolve_loop zero queue visited result = none
  resolve_loop (suc fuel) [] visited result = some (reverse result)
  resolve_loop (suc fuel) ((id, depth) ∷ queue) visited result = elim (has str_dec id visited) [
    | true ↦ resolve_loop fuel queue visited result
    | false ↦ elim (too_deep options.max_depth depth) [
      | true ↦ resolve_loop fuel queue (visited ++ (id ∷ [])) result
      | false ↦ elim (lookup str_dec id entries) [
        | none ↦ resolve_loop fuel queue (visited ++ (id ∷ [])) result
        | some m ↦ elim (stops options.stop_at_entry_type m id start_id) [
          | true ↦ resolve_loop fuel queue (visited ++ (id ∷ [])) (result ++ (id ∷ []))
          | false ↦
              resolve_loop fuel
                (queue ++ queued (visited ++ (id ∷ [])) (depth + 1) m.dependency_ids)
                (visited ++ (id ∷ [])) (with_id id result)
        ]
      ]
    ]
  ]

unfoldable pub resolve_dependencies : Store → JsString → ResolveOptions → Option (List JsString)
unfolding resolve_loop
resolve_dependencies s start_id options =
    resolve_loop s.entries start_id options (suc (suc (total_dependencies s.entries)))
      ((start_id, 0) ∷ []) [] []
