-- ===== src/Store/Resolve/Exact.antt =====
-- When `resolveDependencies` ends, and what it finds without bounds.
use mindoo_db.Base.{
  ℕ, zero, suc, ◌+◌, ◌<◌, ◌≤◌, ◌≡◌, ◌↔◌, ◌∙◌, ap, sym, inl, inr, refl, Bool, true, false, not, ◌&&◌,
  some, none, List, [], ◌∷◌, ◌++◌, reverse, JsString, str_dec, is_some, lookup, has, has-append,
  length, length-append, arith, Bool-cases, Option-cases, keys,
}
use mindoo_db.Planner.{Replay, total_dependencies, push_if}
use mindoo_db.Planner.Walk.{
  unvisited, unvisited_total, unvisited-visit, unvisited-shrinks, Reaches, IsWalk, start-IsWalk,
  skip-IsWalk, visit-IsWalk, visited-Reaches, has-push_if,
}
use mindoo_db.Planner.Reachable.{has-reverse}
use mindoo_db.Store.{Store}
use mindoo_db.Store.Resolve.{
  ResolveOptions, too_deep, stops, queued, with_id, resolve_loop, resolve_dependencies,
}

length-queued :
    (visited : List JsString) (depth : ℕ) (deps : List JsString)
    → length (queued visited depth deps) ≤ length deps
unfolding queued
length-queued visited depth [] = omega arith
length-queued visited depth (d ∷ deps) = ground (arith, length-queued visited depth deps)

has-queued :
    (x : JsString) (visited : List JsString) (depth : ℕ) (deps : List JsString)
    → has str_dec x (keys (queued visited depth deps))
      ≡ (not (has str_dec x visited) && has str_dec x deps)
unfolding queued
has-queued x visited depth [] = ground arith
has-queued x visited depth (d ∷ deps) = elim (str_dec x d) [
  | yes e ↦ ground (arith, has-queued x visited depth deps, e)
  | no n ↦ ground (arith, has-queued x visited depth deps, n)
]

keys-append : (q r : List (JsString × ℕ)) → keys (q ++ r) ≡ keys q ++ keys r
keys-append [] r = refl
keys-append (e ∷ q) r = ap (◌∷◌ e.0) (keys-append q r)

module _ (entries : Replay) (start_id : JsString) (options : ResolveOptions) where
  resolve_loop_ends :
      (fuel : ℕ) (queue : List (JsString × ℕ)) (visited result : List JsString)
      → length queue + unvisited entries visited entries < fuel
      → (ids : List JsString) × (resolve_loop entries start_id options fuel queue visited result
          ≡ some ids)
  unfolding resolve_loop
  resolve_loop_ends zero queue visited result enough = absurd (omega arith)
  resolve_loop_ends (suc fuel) [] visited result enough = (reverse result, refl)
  resolve_loop_ends (suc fuel) ((id, depth) ∷ queue) visited result enough =
      let fewer = unvisited-shrinks entries id visited entries in
      elim (Bool-cases (has str_dec id visited)) [
        | inl known ↦
            rw (known, resolve_loop) (resolve_loop_ends fuel queue visited result (omega arith))
        | inr new ↦ elim (Bool-cases (too_deep options.max_depth depth)) [
          | inl deep ↦
              rw (new, deep, resolve_loop)
                (resolve_loop_ends fuel queue (visited ++ (id ∷ [])) result (omega arith))
          | inr near ↦ elim (Option-cases (lookup str_dec id entries)) [
            | inl missing ↦
                rw (new, near, missing, resolve_loop)
                  (resolve_loop_ends fuel queue (visited ++ (id ∷ [])) result (omega arith))
            | inr (m, found) ↦ elim (Bool-cases (stops options.stop_at_entry_type m id start_id)) [
              | inl stop ↦
                  rw (new, near, found, stop, resolve_loop)
                    (resolve_loop_ends fuel queue (visited ++ (id ∷ [])) (result ++ (id ∷ []))
                      (omega arith))
              | inr go ↦
                  let more = queued (visited ++ (id ∷ [])) (depth + 1) m.dependency_ids in
                  rw (new, near, found, go, resolve_loop)
                    (resolve_loop_ends fuel (queue ++ more) (visited ++ (id ∷ []))
                      (with_id entries start_id options id result)
                      (omega (
                        arith,
                        length-append queue more,
                        length-queued (visited ++ (id ∷ [])) (depth + 1) m.dependency_ids,
                        unvisited-visit entries id visited m entries new found,
                      )))
            ]
          ]
        ]
      ]

-- No bounds, and the start is included.
abbrev pub everything : ResolveOptions
everything = record { stop_at_entry_type = none; max_depth = none; include_start = true }

module _ (entries : Replay) (start_id : JsString) where
  abbrev roots : List JsString
  roots = start_id ∷ []

  IsWalk-same :
      (stack stack' seen : List JsString)
      → ((x : JsString) → has str_dec x stack' ≡ has str_dec x stack)
      → IsWalk entries roots stack seen
      → IsWalk entries roots stack' seen
  IsWalk-same stack stack' seen same w = record {
    distinct = w.distinct;
    sound = w.sound;
    pending = λ x h there. w.pending x (sym (same x) ∙ h) there;
    rooted = λ x h there. ground (arith, w.rooted x h there, same x);
    closed = λ x dep m h at d there. ground (arith, w.closed x dep m h at d there, same dep);
  }

  with_id-everything :
      (entries : Replay) (id : JsString) (result : List JsString)
      → with_id entries start_id everything id result ≡ result ++ (id ∷ [])
  with_id-everything entries id result = elim (str_dec id start_id) [
    | yes e ↦ ground (arith, e)
    | no n ↦ ground (arith, n)
  ]

  waits-same :
      (x : JsString) (visited : List JsString) (depth : ℕ) (deps : List JsString)
      (queue : List (JsString × ℕ))
      → has str_dec x (keys (queue ++ queued visited depth deps))
        ≡ has str_dec x (push_if (λ d. not (has str_dec d visited)) deps (keys queue))
  waits-same x visited depth deps queue =
      ap (has str_dec x) (keys-append queue (queued visited depth deps))
      ∙ ground (
        arith,
        has-append str_dec x (keys queue) (keys (queued visited depth deps)),
        has-queued x visited depth deps,
        has-push_if (λ d. not (has str_dec d visited)) x deps (keys queue),
      )

  -- What was visited is in the result or has no entry, and the result was visited.
  abbrev Agrees : List JsString → List JsString → Type 0
  Agrees visited result =
      (x : JsString)
      → has str_dec x result ≡ (has str_dec x visited && is_some (lookup str_dec x entries))

  resolve_loop_walks :
      (fuel : ℕ) (queue : List (JsString × ℕ)) (visited result ids : List JsString)
      → Agrees visited result
      → IsWalk entries roots (keys queue) result
      → resolve_loop entries start_id everything fuel queue visited result ≡ some ids
      → (x : JsString) → (has str_dec x ids ≡ true) ↔ Reaches entries roots x
  unfolding resolve_loop
  resolve_loop_walks zero queue visited result ids a w h = absurd (ground arith)
  resolve_loop_walks (suc fuel) [] visited result ids a w h = λ x.
      let is_ids : reverse result ≡ ids = ground (arith, h) in
      let same : has str_dec x ids ≡ has str_dec x result =
        ap (has str_dec x) (sym is_ids) ∙ has-reverse x result in
      let (into, back) = visited-Reaches entries roots result w x in
      (λ m. into (sym same ∙ m), λ r. same ∙ back r)
  resolve_loop_walks (suc fuel) ((id, depth) ∷ queue) visited result ids a w h =
      elim (Bool-cases (has str_dec id visited)) [
        | inl known ↦
            resolve_loop_walks fuel queue visited result ids a
              (skip-IsWalk entries roots id (keys queue) result (ground (arith, a id, known)) w)
              (rw (known, resolve_loop) at h)
        | inr new ↦ elim (Option-cases (lookup str_dec id entries)) [
          | inl missing ↦
              resolve_loop_walks fuel queue (visited ++ (id ∷ [])) result ids
                (λ x. ground (arith, a x, has-append str_dec x visited (id ∷ []), missing))
                (skip-IsWalk entries roots id (keys queue) result (ground (arith, missing)) w)
                (rw (new, missing, resolve_loop) at h)
          | inr (m, found) ↦
              let visited' = visited ++ (id ∷ []) in
              let more = queued visited' (depth + 1) m.dependency_ids in
              let p : JsString → Bool = λ d. not (has str_dec d (visited ++ (id ∷ []))) in
              let listed = with_id-everything entries id result in
              let fresh : has str_dec id result ≡ false = ground (arith, a id, new) in
              resolve_loop_walks fuel (queue ++ more) visited' (result ++ (id ∷ [])) ids
                (λ x. elim (str_dec x id) [
                  | yes e ↦ ground (
                    arith,
                    a x,
                    has-append str_dec x visited (id ∷ []),
                    has-append str_dec x result (id ∷ []),
                    found,
                    e,
                  )
                  | no n ↦ ground (
                    arith,
                    a x,
                    has-append str_dec x visited (id ∷ []),
                    has-append str_dec x result (id ∷ []),
                    n,
                  )
                ])
                (IsWalk-same (push_if p m.dependency_ids (keys queue)) (keys (queue ++ more))
                  (result ++ (id ∷ []))
                  (λ x. waits-same x visited' (depth + 1) m.dependency_ids queue)
                  (visit-IsWalk entries roots p id m (keys queue) result fresh found
                    (λ d there. ground (
                      arith,
                      a d,
                      there,
                      has-append str_dec d visited (id ∷ []),
                      has-append str_dec d result (id ∷ []),
                    ))
                    w))
                (rw (new, found, resolve_loop, listed) at h)
        ]
      ]

-- `resolveDependencies` ends, whatever its bounds are.
pub resolve_dependencies_ends :
    (s : Store) (start_id : JsString) (options : ResolveOptions)
    → (ids : List JsString) × (resolve_dependencies s start_id options ≡ some ids)
unfolding resolve_dependencies
resolve_dependencies_ends s start_id options =
    resolve_loop_ends s.entries start_id options (suc (suc (total_dependencies s.entries)))
      ((start_id, 0) ∷ []) [] [] (omega (arith, unvisited_total s.entries s.entries))

-- Without a stop type and a depth, and with the start, `resolveDependencies` returns exactly the ids
-- of the stored entries that chains of dependencies lead to from the start.
pub resolve_dependencies-Reaches :
    (s : Store) (start_id : JsString)
    → (ids : List JsString) × (resolve_dependencies s start_id everything ≡ some ids)
      × ((x : JsString) → (has str_dec x ids ≡ true) ↔ Reaches s.entries (start_id ∷ []) x)
unfolding resolve_dependencies
resolve_dependencies-Reaches s start_id =
    let (ids, ends) = resolve_dependencies_ends s start_id everything in
    (
      ids,
      ends,
      resolve_loop_walks s.entries start_id (suc (suc (total_dependencies s.entries)))
          ((start_id, 0) ∷ []) [] [] ids (λ x. refl)
          (start-IsWalk s.entries (start_id ∷ []) (start_id ∷ []) (λ x. refl)) ends,
    )
