-- ===== src/Planner/Reachable.antt =====
-- The two walks end, and visit exactly the entries that their roots lead to; which entries are heads.
use mathlib.Core.List.{reverse_aux}
use mindoo_db.Base.{
  ℕ, zero, suc, ◌+◌, ◌<◌, ◌≡◌, ◌↔◌, inl, inr, refl, Bool, true, not, ◌&&◌, ◌||◌, Option, some, List,
  [], ◌∷◌, ◌++◌, map, foldl, reverse, any, JsString, str_dec, is_some, lookup, set, lookup-set, add,
  has, Distinct, has-add, filterb, length, if◌then◌else◌, arith, Bool-cases, Option-cases,
}
use mindoo_db.Entry.{StoreEntryMetadata}
use mindoo_db.Planner.{
  Replay, by_id, add_referenced, referenced, latest_heads, push_if, total_dependencies, reach,
  cover, build_latest_state_reachability, coverage_roots, covered_by_snapshot,
}
use mindoo_db.Planner.Walk.{
  has-push_if, length-push_if, unvisited, unvisited_total, unvisited-visit, Reaches, IsWalk,
  start-IsWalk, skip-IsWalk, visit-IsWalk, visited-Reaches,
}

has-reverse_aux :
    (x : JsString) (xs ys : List JsString)
    → has str_dec x (reverse_aux xs ys) ≡ (has str_dec x xs || has str_dec x ys)
has-reverse_aux x [] ys = refl
has-reverse_aux x (y ∷ xs) ys = ground (arith, has-reverse_aux x xs (y ∷ ys))

pub has-reverse :
    (x : JsString) (xs : List JsString) → has str_dec x (reverse xs) ≡ has str_dec x xs
has-reverse x xs = ground (arith, has-reverse_aux x xs [])

length-reverse_aux : (xs ys : List JsString) → length (reverse_aux xs ys) ≡ length xs + length ys
length-reverse_aux [] ys = omega arith
length-reverse_aux (x ∷ xs) ys = omega (arith, length-reverse_aux xs (x ∷ ys))

module _ (replay : Replay) (roots : List JsString) where
  -- What a walk returns: a set with exactly the entries that the roots lead to.
  abbrev pub Visits : Option (List JsString) → Type 0
  Visits result =
      (seen : List JsString) × (result ≡ some seen)
      × Distinct str_dec seen
      × ((id : JsString) → (has str_dec id seen ≡ true) ↔ Reaches replay roots id)

  cover-Visits :
      (fuel : ℕ) (stack seen : List JsString)
      → length stack + unvisited replay seen replay < fuel
      → IsWalk replay roots stack seen
      → Visits (cover replay fuel stack seen)
  unfolding cover
  cover-Visits zero stack seen enough inv = absurd (omega arith)
  cover-Visits (suc fuel) [] seen enough inv =
      (seen, refl, inv.distinct, visited-Reaches replay roots seen inv)
  cover-Visits (suc fuel) (id ∷ stack) seen enough inv = elim (Bool-cases (has str_dec id seen)) [
    | inl known ↦
        rw (known, cover)
          (cover-Visits fuel stack seen (omega arith)
            (skip-IsWalk replay roots id stack seen (ground (arith, known)) inv))
    | inr new ↦ elim (Option-cases (lookup str_dec id replay)) [
      | inl missing ↦
          rw (new, missing, cover)
            (cover-Visits fuel stack seen (omega arith)
              (skip-IsWalk replay roots id stack seen (ground (arith, missing)) inv))
      | inr (m, found) ↦
          let p : JsString → Bool = λ d. not (has str_dec d (seen ++ (id ∷ []))) in
          rw (new, found, cover)
            (cover-Visits fuel (push_if p m.dependency_ids stack) (seen ++ (id ∷ []))
              (omega (
                arith,
                length-push_if p m.dependency_ids stack,
                unvisited-visit replay id seen m replay new found,
              ))
              (visit-IsWalk replay roots p id m stack seen new found (λ d there. ground arith) inv))
    ]
  ]

  reach-Visits :
      (fuel : ℕ) (stack seen : List JsString)
      → length stack + unvisited replay seen replay < fuel
      → ((id : JsString) → has str_dec id stack ≡ true → is_some (lookup str_dec id replay) ≡ true)
      → IsWalk replay roots stack seen
      → Visits (reach replay fuel stack seen)
  unfolding reach
  reach-Visits zero stack seen enough there inv = absurd (omega arith)
  reach-Visits (suc fuel) [] seen enough there inv =
      (seen, refl, inv.distinct, visited-Reaches replay roots seen inv)
  reach-Visits (suc fuel) (id ∷ stack) seen enough there inv =
      elim (Bool-cases (has str_dec id seen)) [
        | inl known ↦
            rw (known, reach)
              (reach-Visits fuel stack seen (omega arith) (λ x h. there x (ground (arith, h)))
                (skip-IsWalk replay roots id stack seen (ground (arith, known)) inv))
        | inr new ↦ elim (Option-cases (lookup str_dec id replay)) [
          | inl missing ↦ absurd (ground (arith, there id, missing))
          | inr (m, found) ↦
              let p : JsString → Bool =
                λ d. is_some (lookup str_dec d replay) && not (has str_dec d (seen ++ (id ∷ []))) in
              rw (new, found, reach)
                (reach-Visits fuel (push_if p m.dependency_ids stack) (seen ++ (id ∷ []))
                  (omega (
                    arith,
                    length-push_if p m.dependency_ids stack,
                    unvisited-visit replay id seen m replay new found,
                  ))
                  (λ x h. ground (arith, h, there x, has-push_if p x m.dependency_ids stack))
                  (visit-IsWalk replay roots p id m stack seen new found (λ d h. ground arith) inv))
        ]
      ]

-- `coveredBySnapshot` ends, and a snapshot covers exactly the replay entries that chains of
-- dependencies lead to from its roots: its head entries, or its dependencies where it names none.
pub covered_by_snapshot-Visits :
    (snapshot : StoreEntryMetadata) (replay : Replay)
    → Visits replay (coverage_roots snapshot) (covered_by_snapshot (some snapshot) replay)
unfolding covered_by_snapshot
covered_by_snapshot-Visits snapshot replay =
    let roots = coverage_roots snapshot in
    cover-Visits replay roots (suc (length roots + total_dependencies replay)) (reverse roots) []
      (omega (arith, length-reverse_aux roots [], unvisited_total replay replay))
      (start-IsWalk replay roots (reverse roots) (λ id. has-reverse id roots))

abbrev pub entry_ids : List StoreEntryMetadata → List JsString
entry_ids es = map (λ (e : StoreEntryMetadata). e.id) es

is_some-by_id_loop :
    (k : JsString) (es : List StoreEntryMetadata) (replay : Replay)
    → is_some (lookup str_dec k (foldl (λ (r : Replay) e. set str_dec e.id e r) replay es))
      ≡ (is_some (lookup str_dec k replay) || has str_dec k (entry_ids es))
is_some-by_id_loop k [] replay = ground arith
is_some-by_id_loop k (e ∷ es) replay =
    ground (
      arith,
      is_some-by_id_loop k es (set str_dec e.id e replay),
      lookup-set str_dec k e.id e replay,
    )

has-add_referenced :
    (k : JsString) (replay : Replay) (deps seen : List JsString)
    → has str_dec k (add_referenced replay seen deps)
      ≡ (has str_dec k seen || (is_some (lookup str_dec k replay) && has str_dec k deps))
unfolding add_referenced
has-add_referenced k replay [] seen = ground arith
has-add_referenced k replay (d ∷ ds) seen = elim (str_dec k d) [
  | yes e ↦ ground (
    arith,
    has-add_referenced k replay ds
        (if is_some (lookup str_dec d replay) then add str_dec d seen else seen),
    has-add str_dec d k seen,
    e,
  )
  | no n ↦ ground (
    arith,
    has-add_referenced k replay ds
        (if is_some (lookup str_dec d replay) then add str_dec d seen else seen),
    has-add str_dec d k seen,
    n,
  )
]

has-referenced_loop :
    (k : JsString) (replay : Replay) (es : List StoreEntryMetadata) (seen : List JsString)
    → has str_dec k
        (foldl (λ s (e : StoreEntryMetadata). add_referenced replay s e.dependency_ids) seen es)
      ≡ (has str_dec k seen
          || (is_some (lookup str_dec k replay)
              && any (λ (e : StoreEntryMetadata). has str_dec k e.dependency_ids) es))
has-referenced_loop k replay [] seen = ground arith
has-referenced_loop k replay (e ∷ es) seen = ground (
  arith,
  has-referenced_loop k replay es (add_referenced replay seen e.dependency_ids),
  has-add_referenced k replay e.dependency_ids seen,
)

has-entry_ids-filterb :
    (k : JsString) (marked : List JsString) (es : List StoreEntryMetadata)
    → has str_dec k (entry_ids (filterb (λ e. not (has str_dec e.id marked)) es))
      ≡ (has str_dec k (entry_ids es) && not (has str_dec k marked))
has-entry_ids-filterb k marked [] = refl
has-entry_ids-filterb k marked (e ∷ es) = elim (str_dec k e.id) [
  | yes same ↦ ground (arith, has-entry_ids-filterb k marked es, same)
  | no apart ↦ ground (arith, has-entry_ids-filterb k marked es, apart)
]

-- The heads are the ids of replay entries that no replay entry depends on.
pub has-latest_heads :
    (k : JsString) (es : List StoreEntryMetadata)
    → has str_dec k (latest_heads es)
      ≡ (has str_dec k (entry_ids es) && not (any (λ e. has str_dec k e.dependency_ids) es))
unfolding latest_heads referenced by_id
has-latest_heads k es = ground (
  arith,
  has-entry_ids-filterb k (referenced (by_id es) es) es,
  has-referenced_loop k (by_id es) es [],
  is_some-by_id_loop k es [],
)

-- `buildLatestStateReachability` ends, and the latest state takes exactly the replay entries that
-- chains of dependencies lead to from the heads.
pub build_latest_state_reachability-Visits :
    (es : List StoreEntryMetadata)
    → Visits (by_id es) (latest_heads es) (build_latest_state_reachability es).1
unfolding build_latest_state_reachability by_id
build_latest_state_reachability-Visits es =
    let replay = by_id es in
    let heads = latest_heads es in
    reach-Visits replay heads (suc (length heads + total_dependencies replay)) (reverse heads) []
      (omega (arith, length-reverse_aux heads [], unvisited_total replay replay))
      (λ id h.
        ground
          (arith, h, has-reverse id heads, has-latest_heads id es, is_some-by_id_loop id es []))
      (start-IsWalk replay heads (reverse heads) (λ id. has-reverse id heads))
