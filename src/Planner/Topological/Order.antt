-- ===== src/Planner/Topological/Order.antt =====
-- The order that Kahn's algorithm gives: complete, without repetition, dependencies first.
use mindoo_db.Base.{
  ℕ, zero, suc, ◌+◌, ◌≤◌, ◌<◌, ◌≡◌, ◌==◌, refl, ◌∙◌, Bool, true, false, ◌||◌, some, List, [], ◌∷◌,
  ◌++◌, foldl, JsString, str_dec, str_ltb, has, has-append, All, Distinct, append-Distinct, filterb,
  length, length-append, append_nil, append_assoc, if◌then◌else◌, arith, Bool-cases, inl, inr,
}
use mindoo_db.Base.Sort.{sort}
use mindoo_db.Base.Subset.{Within, length-Within, Within-flip}
use mindoo_db.Planner.{Replay}
use mindoo_db.Planner.Topological.{
  count_of, dependents_of, edges, relax, kahn, topological_by_dependencies,
}
use mindoo_db.Planner.Topological.Maps.{
  times, dependencies_of, needs, edges-indegree, edges-dependents, relax_loop-count, relax_loop-has,
  relax_loop-Distinct,
}
use mindoo_db.Planner.Topological.Waiting.{
  has-sort, sort-Distinct, has-filterb, filterb-Distinct, open_among, open_among-none,
  open_among-step, times-filterb, open_among-All, open_among-taken,
}

module _ (ids : List JsString) (replay : Replay) where
  -- Every id stands behind the dependencies that it has in the set, and behind `done` nothing else
  -- is taken for granted.
  abbrev pub DependenciesFirst : List JsString → List JsString → Type 0
  DependenciesFirst done [] = Unit {0}
  DependenciesFirst done (x ∷ xs) =
      All (λ d. has str_dec d done ≡ true) (needs ids replay x)
      × DependenciesFirst (done ++ (x ∷ [])) xs

  append-DependenciesFirst :
      (done xs : List JsString) (x : JsString)
      → DependenciesFirst done xs
      → All (λ d. has str_dec d (done ++ xs) ≡ true) (needs ids replay x)
      → DependenciesFirst done (xs ++ (x ∷ []))
  append-DependenciesFirst done [] x h a = (rw (append_nil done) at a, tt)
  append-DependenciesFirst done (y ∷ ys) x h a = (
    h.0,
    append-DependenciesFirst (done ++ (y ∷ [])) ys x h.1
        (rw (← append_assoc done (y ∷ []) ys) at a),
  )

  -- The state of the loop.
  record IsKahn (indegree : List (JsString × ℕ)) (queue ordered : List JsString) : Type 0 where
    counts :
        (y : JsString)
        → has str_dec y ids ≡ true
        → count_of y indegree ≡ open_among ordered (needs ids replay y)
    queued :
        (y : JsString)
        → has str_dec y queue ≡ true
        → (has str_dec y ids ≡ true) × (has str_dec y ordered ≡ false) × (count_of y indegree ≡ 0)
    taken :
        (y : JsString)
        → has str_dec y ordered ≡ true
        → (has str_dec y ids ≡ true) × (count_of y indegree ≡ 0)
    queue_distinct : Distinct str_dec queue
    ordered_distinct : Distinct str_dec ordered
    ready :
        (y : JsString)
        → has str_dec y ids ≡ true
        → count_of y indegree ≡ 0
        → (has str_dec y queue || has str_dec y ordered) ≡ true
    first : DependenciesFirst [] ordered

  module _ (distinct : Distinct str_dec ids) where
    start-IsKahn :
        IsKahn
          (edges ids replay).indegree
          (sort str_ltb (filterb (λ id. count_of id (edges ids replay).indegree == 0) ids))
          []
    start-IsKahn =
        let m = (edges ids replay).indegree in
        let zero_count : JsString → Bool = λ id. count_of id m == 0 in
        record {
          counts = λ y h. ground (
            arith,
            edges-indegree ids replay y distinct,
            open_among-none (needs ids replay y),
            h,
          );
          queued = λ y h.
              ground (arith, h, has-sort y (filterb zero_count ids), has-filterb zero_count y ids);
          taken = λ y h. cc;
          queue_distinct =
              sort-Distinct (filterb zero_count ids) (filterb-Distinct zero_count ids distinct);
          ordered_distinct = tt;
          ready = λ y h z.
              ground
                (arith, h, z, has-sort y (filterb zero_count ids), has-filterb zero_count y ids);
          first = tt;
        }

    -- Taking one id from the queue.
    module _ (indegree : List (JsString × ℕ)) (id : JsString) (queue ordered : List JsString)
        (inv : IsKahn indegree (id ∷ queue) ordered) where
      abbrev ds : List JsString
      ds = dependents_of id (edges ids replay).dependents

      abbrev after : List (JsString × ℕ) × List JsString
      after = foldl relax (indegree, queue) ds

      here :
          (has str_dec id ids ≡ true)
          × (has str_dec id ordered ≡ false)
          × (count_of id indegree ≡ 0)
      here = inv.queued id (ground arith)

      -- An id waits for `id` as often as it names it.
      times-ds :
          (y : JsString)
          → times y ds ≡ (if has str_dec y ids then times id (needs ids replay y) else 0)
      times-ds y = ground (
        arith,
        here,
        edges-dependents ids replay y id distinct,
        times-filterb (λ d. has str_dec d ids) id (dependencies_of replay y) here.0,
      )

      times-in :
          (y : JsString) → has str_dec y ids ≡ true → times y ds ≡ times id (needs ids replay y)
      times-in y h = ground (arith, times-ds y, h)

      take-IsKahn : IsKahn after.0 (sort str_ltb after.1) (ordered ++ (id ∷ []))
      take-IsKahn = record {
        counts = λ y h. omega (
          arith,
          relax_loop-count y ds (indegree, queue),
          inv.counts y h,
          open_among-step id ordered (needs ids replay y) here.1,
          times-in y h,
        );
        queued = λ y h. elim (Bool-cases (has str_dec y queue)) [
          | inl waits ↦ ground (
            arith,
            inv.queued y (ground (arith, waits)),
            inv.queue_distinct.0,
            has-append str_dec y ordered (id ∷ []),
            relax_loop-count y ds (indegree, queue),
            waits,
          )
          | inr new ↦ ground (
            arith,
            h,
            new,
            here.2,
            has-sort y after.1,
            relax_loop-has y ds (indegree, queue),
            relax_loop-count y ds (indegree, queue),
            times-ds y,
            inv.taken y,
            has-append str_dec y ordered (id ∷ []),
          )
        ];
        taken = λ y h. elim (str_dec y id) [
          | yes e ↦ ground (arith, here, relax_loop-count y ds (indegree, queue), e)
          | no n ↦ ground (
            arith,
            inv.taken y (ground (arith, h, n, has-append str_dec y ordered (id ∷ []))),
            relax_loop-count y ds (indegree, queue),
          )
        ];
        queue_distinct = sort-Distinct after.1 (
            relax_loop-Distinct ds (indegree, queue) inv.queue_distinct.1
              (λ y h. (inv.queued y (ground (arith, h))).2));
        ordered_distinct = append-Distinct str_dec ordered id inv.ordered_distinct here.1;
        ready = λ y h z. ground (
          arith,
          h,
          z,
          inv.ready y h,
          has-sort y after.1,
          relax_loop-has y ds (indegree, queue),
          relax_loop-count y ds (indegree, queue),
          has-append str_dec y ordered (id ∷ []),
        );
        first = append-DependenciesFirst [] ordered id inv.first (
            open_among-All ordered (needs ids replay id)
              (omega (arith, here.2, inv.counts id here.0)));
      }

    kahn_ends :
        (fuel : ℕ) (indegree : List (JsString × ℕ)) (queue ordered : List JsString)
        → suc (length ids) ≤ fuel + length ordered
        → IsKahn indegree queue ordered
        → (out : List JsString) × (last : List (JsString × ℕ)) × (kahn fuel
              (edges ids replay).dependents
              indegree
              queue
              ordered
            ≡ some out)
          × IsKahn last [] out
    unfolding kahn
    kahn_ends zero indegree queue ordered enough inv =
        absurd
          (omega (arith, length-Within ordered ids inv.ordered_distinct (λ y h. (inv.taken y h).0)))
    kahn_ends (suc fuel) indegree [] ordered enough inv = (ordered, indegree, refl, inv)
    kahn_ends (suc fuel) indegree (id ∷ queue) ordered enough inv =
        kahn_ends fuel _ _ (ordered ++ (id ∷ [])) (omega (arith, length-append ordered (id ∷ [])))
          (take-IsKahn indegree id queue ordered inv)

    ended :
        (out : List JsString) × (last : List (JsString × ℕ)) × (kahn
            (suc (length ids))
            (edges ids replay).dependents
            (edges ids replay).indegree
            (sort str_ltb (filterb (λ id. count_of id (edges ids replay).indegree == 0) ids))
            []
          ≡ some out)
        × IsKahn last [] out
    ended = kahn_ends (suc (length ids)) _ _ [] (omega arith) start-IsKahn

    -- Where the loop ends before an id, one of its dependencies was not taken either.
    ranked-taken :
        (rank : JsString → ℕ) (last : List (JsString × ℕ)) (out : List JsString)
        → ((x d : JsString)
            → has str_dec x ids ≡ true
            → has str_dec d (needs ids replay x) ≡ true
            → rank d < rank x)
        → IsKahn last [] out
        → (n : ℕ) (x : JsString) → rank x < n
        → has str_dec x ids ≡ true
        → has str_dec x out ≡ true
    ranked-taken rank last out acyclic inv zero x low h = absurd (omega arith)
    ranked-taken rank last out acyclic inv (suc n) x low h =
        let all : (d : JsString)
            → has str_dec d (needs ids replay x) ≡ true
            → has str_dec d out ≡ true =
          λ d g. ranked-taken rank last out acyclic inv n d (omega (arith, acyclic x d h g)) (
            ground (arith, g, has-filterb (λ e. has str_dec e ids) d (dependencies_of replay x))) in
        ground
          (arith, inv.ready x h (inv.counts x h ∙ open_among-taken out (needs ids replay x) all))

  -- `topologicalByDependencies` of a set of ids ends and returns exactly these ids, none of them
  -- twice, whatever their dependencies are: nothing to replay is lost, a cycle included.
  pub has-topological_by_dependencies :
      Distinct str_dec ids
      → (out : List JsString) × (topological_by_dependencies ids replay ≡ some out)
        × Distinct str_dec out
        × ((y : JsString) → has str_dec y out ≡ has str_dec y ids)
  unfolding topological_by_dependencies
  has-topological_by_dependencies distinct =
      let (out, last, run, inv) = ended distinct in
      let within : Within out ids = λ y h. (inv.taken y h).0 in
      elim (Bool-cases (length out == length ids)) [
        | inl full ↦ (
          out,
          rw (run, full),
          inv.ordered_distinct,
          λ y. ground (
            arith,
            within y,
            Within-flip out ids y inv.ordered_distinct within (ground (arith, full)),
          ),
        )
        | inr cycle ↦
            (sort str_ltb ids, rw (run, cycle), sort-Distinct ids distinct, λ y. has-sort y ids)
      ]

  -- If the dependencies within a set of ids have no cycle, so that some rank decreases along each of
  -- them, `topologicalByDependencies` returns an order in which every id stands behind all its
  -- dependencies in the set.
  pub topological_by_dependencies-DependenciesFirst :
      (rank : JsString → ℕ)
      → Distinct str_dec ids
      → ((x d : JsString)
          → has str_dec x ids ≡ true
          → has str_dec d (needs ids replay x) ≡ true
          → rank d < rank x)
      → (out : List JsString) × (topological_by_dependencies ids replay ≡ some out)
        × DependenciesFirst [] out
  unfolding topological_by_dependencies
  topological_by_dependencies-DependenciesFirst rank distinct acyclic =
      let (out, last, run, inv) = ended distinct in
      let within : Within out ids = λ y h. (inv.taken y h).0 in
      let back : Within ids out =
        λ y h. ranked-taken distinct rank last out acyclic inv (suc (rank y)) y (omega arith) h in
      let full : (length out == length ids) ≡ true = ground (
        arith,
        length-Within out ids inv.ordered_distinct within,
        length-Within ids out distinct back,
      ) in
      (out, rw (run, full), inv.first)
