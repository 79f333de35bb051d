-- ===== src/Planner/Walk.antt =====
-- What the two graph walks of the planner share: reachability, the invariant of a walk with a stack,
-- and the measure that bounds its rounds.
use mindoo_db.Base.{
  ℕ, ◌+◌, ◌≤◌, ◌≡◌, ◌↔◌, inl, inr, refl, sym, subst, Bool, true, false, not, ◌&&◌, ◌||◌, some, List,
  [], ◌∷◌, ◌++◌, JsString, str_dec, is_some, lookup, has, has-append, Distinct, append-Distinct,
  length, if◌then◌else◌, arith, Bool-cases,
}
use mindoo_db.Entry.{StoreEntryMetadata}
use mindoo_db.Planner.{Replay, push_if, total_dependencies}

pub has-push_if :
    (p : JsString → Bool) (x : JsString) (ds stack : List JsString)
    → has str_dec x (push_if p ds stack) ≡ (has str_dec x stack || (p x && has str_dec x ds))
unfolding push_if
has-push_if p x [] stack = ground arith
has-push_if p x (d ∷ ds) stack = elim (str_dec x d) [
  | yes e ↦ ground (arith, has-push_if p x ds (if p d then d ∷ stack else stack), e)
  | no n ↦ ground (arith, has-push_if p x ds (if p d then d ∷ stack else stack), n)
]

pub length-push_if :
    (p : JsString → Bool) (ds stack : List JsString)
    → length (push_if p ds stack) ≤ length stack + length ds
unfolding push_if
length-push_if p [] stack = omega arith
length-push_if p (d ∷ ds) stack =
    ground (arith, length-push_if p ds (if p d then d ∷ stack else stack))

module _ (replay : Replay) where
  -- The dependencies of the entries that were not visited.
  abbrev pub unvisited : List JsString → Replay → ℕ
  unvisited seen [] = 0
  unvisited seen (e ∷ es) =
      (if has str_dec e.0 seen then 0 else length e.1.dependency_ids) + unvisited seen es

  pub unvisited_total : (es : Replay) → unvisited [] es ≡ total_dependencies es
  unvisited_total [] = refl
  unvisited_total (e ∷ es) = omega (arith, unvisited_total es)

  pub unvisited-shrinks :
      (id : JsString) (seen : List JsString) (es : Replay)
      → unvisited (seen ++ (id ∷ [])) es ≤ unvisited seen es
  unvisited-shrinks id seen [] = omega arith
  unvisited-shrinks id seen (e ∷ es) =
      ground (arith, unvisited-shrinks id seen es, has-append str_dec e.0 seen (id ∷ []))

  pub unvisited-visit :
      (id : JsString) (seen : List JsString) (m : StoreEntryMetadata) (es : Replay)
      → has str_dec id seen ≡ false
      → lookup str_dec id es ≡ some m
      → unvisited (seen ++ (id ∷ [])) es + length m.dependency_ids ≤ unvisited seen es
  unfolding lookup
  unvisited-visit id seen m [] new found = cc
  unvisited-visit id seen m (e ∷ es) new found = elim (str_dec id e.0) [
    | yes same ↦
        ground (arith, unvisited-shrinks id seen es, has-append str_dec e.0 seen (id ∷ []), same)
    | no apart ↦
        ground
          (arith, unvisited-visit id seen m es new, has-append str_dec e.0 seen (id ∷ []), apart)
  ]

  module _ (roots : List JsString) where
    -- The replay entries that a chain of dependencies leads to from a root.
    pub data Reaches : JsString → Type 0 where
      root :
          (id : JsString)
          → has str_dec id roots ≡ true
          → is_some (lookup str_dec id replay) ≡ true
          → Reaches id
      step :
          (id dep : JsString) (m : StoreEntryMetadata)
          → Reaches id
          → lookup str_dec id replay ≡ some m
          → has str_dec dep m.dependency_ids ≡ true
          → is_some (lookup str_dec dep replay) ≡ true
          → Reaches dep

    -- The state of a walk: what was visited is reached, what waits is reached if it is an entry, and
    -- every root and every dependency of a visited entry was visited or waits.
    pub record IsWalk (stack seen : List JsString) : Type 0 where
      pub distinct : Distinct str_dec seen
      pub sound : (id : JsString) → has str_dec id seen ≡ true → Reaches id
      pub pending :
          (id : JsString)
          → has str_dec id stack ≡ true
          → is_some (lookup str_dec id replay) ≡ true
          → Reaches id
      pub rooted :
          (id : JsString)
          → has str_dec id roots ≡ true
          → is_some (lookup str_dec id replay) ≡ true
          → (has str_dec id seen || has str_dec id stack) ≡ true
      pub closed :
          (id dep : JsString) (m : StoreEntryMetadata)
          → has str_dec id seen ≡ true
          → lookup str_dec id replay ≡ some m
          → has str_dec dep m.dependency_ids ≡ true
          → is_some (lookup str_dec dep replay) ≡ true
          → (has str_dec dep seen || has str_dec dep stack) ≡ true

    pub start-IsWalk :
        (stack : List JsString)
        → ((id : JsString) → has str_dec id stack ≡ has str_dec id roots)
        → IsWalk stack []
    start-IsWalk stack same = record {
      distinct = tt;
      sound = λ id h. cc;
      pending = λ id h there. root id (ground (arith, h, same id)) there;
      rooted = λ id h there. ground (arith, h, same id);
      closed = λ id dep m h. cc;
    }

    -- An id that was visited, or that has no entry, is taken from the stack.
    pub skip-IsWalk :
        (id : JsString) (stack seen : List JsString)
        → (has str_dec id seen || not (is_some (lookup str_dec id replay))) ≡ true
        → IsWalk (id ∷ stack) seen
        → IsWalk stack seen
    skip-IsWalk id stack seen known inv = record {
      distinct = inv.distinct;
      sound = inv.sound;
      pending = λ x h there. inv.pending x (ground (arith, h)) there;
      rooted = λ x h there. elim (str_dec x id) [
        | yes e ↦ ground (arith, known, there, e)
        | no n ↦ ground (arith, inv.rooted x h there, n)
      ];
      closed = λ x dep m h at d there. elim (str_dec dep id) [
        | yes e ↦ ground (arith, known, there, e)
        | no n ↦ ground (arith, inv.closed x dep m h at d there, n)
      ];
    }

    pub visit-IsWalk :
        (p : JsString → Bool) (id : JsString) (m : StoreEntryMetadata) (stack seen : List JsString)
        → has str_dec id seen ≡ false
        → lookup str_dec id replay ≡ some m
        → ((d : JsString)
            → is_some (lookup str_dec d replay) ≡ true
            → (has str_dec d (seen ++ (id ∷ [])) || p d) ≡ true)
        → IsWalk (id ∷ stack) seen
        → IsWalk (push_if p m.dependency_ids stack) (seen ++ (id ∷ []))
    visit-IsWalk p id m stack seen new found all inv =
        let here : Reaches id = inv.pending id (ground arith) (ground (arith, found)) in
        record {
          distinct = append-Distinct str_dec seen id inv.distinct new;
          sound = λ x h. elim (str_dec x id) [
            | yes e ↦ subst Reaches (sym e) here
            | no n ↦ inv.sound x (ground (arith, h, n, has-append str_dec x seen (id ∷ [])))
          ];
          pending = λ x h there. elim (Bool-cases (has str_dec x stack)) [
            | inl waits ↦ inv.pending x (ground (arith, waits)) there
            | inr new ↦
                step id x m here found
                  (ground (arith, h, new, has-push_if p x m.dependency_ids stack)) there
          ];
          rooted = λ x h there. ground (
            arith,
            inv.rooted x h there,
            has-append str_dec x seen (id ∷ []),
            has-push_if p x m.dependency_ids stack,
          );
          closed = λ x dep k h at d there. elim (str_dec x id) [
            | yes e ↦
                let same : k ≡ m = ground (arith, at, found, e) in
                ground
                  (arith, all dep there, rw (same) at d, has-push_if p dep m.dependency_ids stack)
            | no n ↦ ground (
              arith,
              inv.closed x dep k (ground (arith, h, n, has-append str_dec x seen (id ∷ []))) at d
                  there,
              has-append str_dec dep seen (id ∷ []),
              has-push_if p dep m.dependency_ids stack,
            )
          ];
        }

    -- A walk whose stack is empty has visited exactly what is reached.
    Reaches-visited :
        (seen : List JsString) (id : JsString)
        → IsWalk [] seen
        → Reaches id
        → has str_dec id seen ≡ true
    Reaches-visited seen _ inv (root id h there) = ground (arith, inv.rooted id h there)
    Reaches-visited seen _ inv (step id dep m r found d there) =
        ground (arith, inv.closed id dep m (Reaches-visited seen id inv r) found d there)

    pub visited-Reaches :
        (seen : List JsString)
        → IsWalk [] seen
        → (id : JsString) → (has str_dec id seen ≡ true) ↔ Reaches id
    visited-Reaches seen inv id = (inv.sound id, Reaches-visited seen id inv)
