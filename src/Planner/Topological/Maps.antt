-- ===== src/Planner/Topological/Maps.antt =====
-- The two maps that Kahn's algorithm starts from count the dependencies within the set.
use mindoo_db.Base.{
  ℕ, suc, ◌+◌, ◌-◌, ◌≡◌, refl, true, ◌&&◌, ◌||◌, some, none, List, [], ◌∷◌, ◌++◌, foldl, JsString,
  str_dec, ite, lookup, lookup-set, has, has-append, Distinct, append-Distinct, filterb, length,
  if◌then◌else◌, arith, Option-cases, inl, inr, ap, leb, ltb,
}
use mindoo_db.Planner.{Replay}
use mindoo_db.Planner.Topological.{
  Edges, count_of, dependents_of, no_edge, add_edge, add_edges, edges, relax,
}

-- How often an id occurs.
abbrev pub times : JsString → List JsString → ℕ
times a [] = 0
times a (x ∷ xs) = ite (str_dec a x) (suc (times a xs)) (times a xs)

times-append : (a : JsString) (xs ys : List JsString) → times a (xs ++ ys) ≡ times a xs + times a ys
times-append a [] ys = omega arith
times-append a (x ∷ xs) ys = ground (arith, times-append a xs ys)

abbrev pub dependencies_of : Replay → JsString → List JsString
dependencies_of replay id = elim (lookup str_dec id replay) [
  | none ↦ []
  | some e ↦ e.dependency_ids
]

module _ (ids : List JsString) where
  add_edges_loop-indegree :
      (id y : JsString) (deps : List JsString) (g : Edges)
      → count_of y (foldl (add_edge ids id) g deps).indegree
        ≡ count_of y g.indegree
          + ite (str_dec y id) (length (filterb (λ d. has str_dec d ids) deps)) 0
  unfolding add_edge
  add_edges_loop-indegree id y [] g = ground arith
  add_edges_loop-indegree id y (d ∷ ds) g = ground (
    arith,
    add_edges_loop-indegree id y ds (add_edge ids id g d),
    lookup-set str_dec y id (count_of id g.indegree + 1) g.indegree,
  )

  add_edges_loop-dependents :
      (id x y : JsString) (deps : List JsString) (g : Edges)
      → times x (dependents_of y (foldl (add_edge ids id) g deps).dependents)
        ≡ times x (dependents_of y g.dependents)
          + ite (str_dec x id) (if has str_dec y ids then times y deps else 0) 0
  unfolding add_edge
  add_edges_loop-dependents id x y [] g = ground arith
  add_edges_loop-dependents id x y (d ∷ ds) g = elim (str_dec y d) [
    | yes e ↦ ground (
      arith,
      add_edges_loop-dependents id x y ds (add_edge ids id g d),
      lookup-set str_dec y d (dependents_of d g.dependents ++ (id ∷ [])) g.dependents,
      times-append x (dependents_of d g.dependents) (id ∷ []),
      e,
    )
    | no n ↦ ground (
      arith,
      add_edges_loop-dependents id x y ds (add_edge ids id g d),
      lookup-set str_dec y d (dependents_of d g.dependents ++ (id ∷ [])) g.dependents,
      n,
    )
  ]

  module _ (replay : Replay) where
    -- The dependencies within the set, as often as they are named.
    abbrev pub needs : JsString → List JsString
    needs id = filterb (λ d. has str_dec d ids) (dependencies_of replay id)

    add_edges-indegree :
        (id y : JsString) (g : Edges)
        → count_of y (add_edges ids replay g id).indegree
          ≡ count_of y g.indegree + ite (str_dec y id) (length (needs id)) 0
    unfolding add_edges
    add_edges-indegree id y g = elim (Option-cases (lookup str_dec id replay)) [
      | inl missing ↦ rw (missing, add_edges) (ground arith)
      | inr (e, found) ↦ ground (arith, found, add_edges_loop-indegree id y e.dependency_ids g)
    ]

    add_edges-dependents :
        (id x y : JsString) (g : Edges)
        → times x (dependents_of y (add_edges ids replay g id).dependents)
          ≡ times x (dependents_of y g.dependents)
            + ite
                (str_dec x id)
                (if has str_dec y ids then times y (dependencies_of replay id) else 0)
                0
    unfolding add_edges
    add_edges-dependents id x y g = elim (Option-cases (lookup str_dec id replay)) [
      | inl missing ↦ rw (missing, add_edges) (ground arith)
      | inr (e, found) ↦ ground (arith, found, add_edges_loop-dependents id x y e.dependency_ids g)
    ]

    all_edges-indegree :
        (y : JsString) (xs : List JsString) (g : Edges)
        → Distinct str_dec xs
        → count_of y (foldl (add_edges ids replay) g xs).indegree
          ≡ count_of y g.indegree + (if has str_dec y xs then length (needs y) else 0)
    all_edges-indegree y [] g d = ground arith
    all_edges-indegree y (x ∷ xs) g d = elim (str_dec y x) [
      | yes e ↦ ground (
        arith,
        all_edges-indegree y xs (add_edges ids replay g x) d.1,
        add_edges-indegree x y g,
        d.0,
        e,
      )
      | no n ↦ ground (
        arith,
        all_edges-indegree y xs (add_edges ids replay g x) d.1,
        add_edges-indegree x y g,
        n,
      )
    ]

    all_edges-dependents :
        (x y : JsString) (xs : List JsString) (g : Edges)
        → Distinct str_dec xs
        → times x (dependents_of y (foldl (add_edges ids replay) g xs).dependents)
          ≡ times x (dependents_of y g.dependents)
            + (if has str_dec x xs
                then (if has str_dec y ids then times y (dependencies_of replay x) else 0)
                else 0)
    all_edges-dependents x y [] g d = ground arith
    all_edges-dependents x y (z ∷ zs) g d = elim (str_dec x z) [
      | yes e ↦ ground (
        arith,
        all_edges-dependents x y zs (add_edges ids replay g z) d.1,
        add_edges-dependents z x y g,
        d.0,
        e,
      )
      | no n ↦ ground (
        arith,
        all_edges-dependents x y zs (add_edges ids replay g z) d.1,
        add_edges-dependents z x y g,
        n,
      )
    ]

  no_edges-indegree :
      (y : JsString) (xs : List JsString) (g : Edges)
      → count_of y g.indegree ≡ 0
      → count_of y (foldl no_edge g xs).indegree ≡ 0
  no_edges-indegree y [] g h = h
  no_edges-indegree y (x ∷ xs) g h =
      no_edges-indegree y xs (no_edge g x) (ground (arith, lookup-set str_dec y x 0 g.indegree))

  no_edges-dependents :
      (y : JsString) (xs : List JsString) (g : Edges)
      → dependents_of y g.dependents ≡ []
      → dependents_of y (foldl no_edge g xs).dependents ≡ []
  no_edges-dependents y [] g h = h
  no_edges-dependents y (x ∷ xs) g h =
      no_edges-dependents y xs (no_edge g x)
        (ground (arith, lookup-set str_dec y x [] g.dependents))

  pub edges-indegree :
      (replay : Replay) (y : JsString)
      → Distinct str_dec ids
      → count_of y (edges ids replay).indegree
        ≡ (if has str_dec y ids then length (needs replay y) else 0)
  unfolding edges lookup
  edges-indegree replay y d =
      let start : Edges = foldl no_edge (record { indegree = []; dependents = [] }) ids in
      omega (
        arith,
        all_edges-indegree replay y ids start d,
        no_edges-indegree y ids (record { indegree = []; dependents = [] }) refl,
      )

  pub edges-dependents :
      (replay : Replay) (x y : JsString)
      → Distinct str_dec ids
      → times x (dependents_of y (edges ids replay).dependents) ≡ (
          if has str_dec x ids
          then (if has str_dec y ids then times y (dependencies_of replay x) else 0)
          else 0)
  unfolding edges lookup
  edges-dependents replay x y d =
      let start : Edges = foldl no_edge (record { indegree = []; dependents = [] }) ids in
      omega (
        arith,
        all_edges-dependents replay x y ids start d,
        ap (times x) (no_edges-dependents y ids (record { indegree = []; dependents = [] }) refl),
      )

-- The loop over the dependents of one entry.
pub relax_loop-count :
    (y : JsString) (ds : List JsString) (s : List (JsString × ℕ) × List JsString)
    → count_of y (foldl relax s ds).0 ≡ count_of y s.0 - times y ds
unfolding relax
relax_loop-count y [] s = omega arith
relax_loop-count y (d ∷ ds) s = elim (str_dec y d) [
  | yes e ↦
      ground (
        arith,
        relax_loop-count y ds (relax s d),
        lookup-set str_dec y d (count_of d s.0 - 1) s.0,
        e,
      )
  | no n ↦
      ground (
        arith,
        relax_loop-count y ds (relax s d),
        lookup-set str_dec y d (count_of d s.0 - 1) s.0,
        n,
      )
]

pub relax_loop-has :
    (y : JsString) (ds : List JsString) (s : List (JsString × ℕ) × List JsString)
    → has str_dec y (foldl relax s ds).1
      ≡ (has str_dec y s.1 || (ltb 0 (count_of y s.0) && leb (count_of y s.0) (times y ds)))
unfolding relax
relax_loop-has y [] s = ground arith
relax_loop-has y (d ∷ ds) s = elim (str_dec y d) [
  | yes e ↦ ground (
    arith,
    relax_loop-has y ds (relax s d),
    lookup-set str_dec y d (count_of d s.0 - 1) s.0,
    has-append str_dec y s.1 (d ∷ []),
    e,
  )
  | no n ↦ ground (
    arith,
    relax_loop-has y ds (relax s d),
    lookup-set str_dec y d (count_of d s.0 - 1) s.0,
    has-append str_dec y s.1 (d ∷ []),
    n,
  )
]

pub relax_loop-Distinct :
    (ds : List JsString) (s : List (JsString × ℕ) × List JsString)
    → Distinct str_dec s.1
    → ((y : JsString) → has str_dec y s.1 ≡ true → count_of y s.0 ≡ 0)
    → Distinct str_dec (foldl relax s ds).1
unfolding relax
relax_loop-Distinct [] s distinct zeros = distinct
relax_loop-Distinct (d ∷ ds) s distinct zeros =
    relax_loop-Distinct ds (relax s d)
      (ground (arith, zeros d, append-Distinct str_dec s.1 d distinct))
      (λ y h. elim (str_dec y d) [
        | yes e ↦ ground (
          arith,
          h,
          zeros d,
          zeros y,
          lookup-set str_dec y d (count_of d s.0 - 1) s.0,
          has-append str_dec y s.1 (d ∷ []),
          e,
        )
        | no n ↦ ground (
          arith,
          h,
          zeros y,
          lookup-set str_dec y d (count_of d s.0 - 1) s.0,
          has-append str_dec y s.1 (d ∷ []),
          n,
        )
      ])
