-- ===== src/Quarantine/Causes.antt =====
-- The rounds of the loop: the split of the ids, and the causes in the records.
use mindoo_db.Base.{
  ℕ, ◌≡◌, inl, inr, refl, sym, not, true, false, some, List, [], ◌∷◌, ◌++◌, JsString, str_dec,
  Bool-cases, Option-cases, arith, has, add, has-add, has-append, Distinct, All, subst, lookup, set,
  lookup-set,
}
use mindoo_db.Quarantine.{
  QuarantineCandidate, QuarantineRecord, EntryVerdict, Evaluation, tainting_dep, evaluate_entry,
}
use mindoo_db.Quarantine.Cascade.{ids, Among, tainting_dep-some, step, loop}

module _ (verdict_for : QuarantineCandidate → EntryVerdict) (now : ℕ) where
  -- Ids of other entries are not touched.
  pub step_other :
      (s : Evaluation) (e : QuarantineCandidate) (x : JsString)
      → has str_dec x (e.id ∷ []) ≡ false
      → (has str_dec x (step verdict_for now s e).result.accepted_ids
          ≡ has str_dec x s.result.accepted_ids)
        × (has str_dec x (step verdict_for now s e).quarantined ≡ has str_dec x s.quarantined)
  unfolding evaluate_entry
  step_other s e x h = ground (
    arith,
    has-append str_dec x s.result.accepted_ids (e.id ∷ []),
    has-add str_dec e.id x s.quarantined,
  )

  step_own :
      (s : Evaluation) (e : QuarantineCandidate)
      → has str_dec e.id s.result.accepted_ids ≡ false
      → has str_dec e.id s.quarantined ≡ false
      → has str_dec e.id (step verdict_for now s e).result.accepted_ids
        ≡ not (has str_dec e.id (step verdict_for now s e).quarantined)
  unfolding evaluate_entry
  step_own s e a q = ground (
    arith,
    has-append str_dec e.id s.result.accepted_ids (e.id ∷ []),
    has-add str_dec e.id e.id s.quarantined,
  )

  loop_other :
      (es : List QuarantineCandidate) (s : Evaluation) (x : JsString)
      → has str_dec x (ids es) ≡ false
      → has str_dec x s.result.accepted_ids ≡ not (has str_dec x s.quarantined)
      → has str_dec x (loop verdict_for now s es).result.accepted_ids
        ≡ not (has str_dec x (loop verdict_for now s es).quarantined)
  loop_other [] s x n h = h
  loop_other (e ∷ es) s x n h =
      loop_other es (step verdict_for now s e) x (ground arith) (ground (arith, step_other s e x))

  pub loop_splits :
      (es : List QuarantineCandidate) (s : Evaluation) (x : JsString)
      → Distinct str_dec (ids es)
      → has str_dec x (ids es) ≡ true
      → has str_dec x s.result.accepted_ids ≡ false
      → has str_dec x s.quarantined ≡ false
      → has str_dec x (loop verdict_for now s es).result.accepted_ids
        ≡ not (has str_dec x (loop verdict_for now s es).quarantined)
  loop_splits [] s x d m a q = cc
  loop_splits (e ∷ es) s x d m a q = elim (str_dec x e.id) [
    | yes is_e ↦ loop_other es (step verdict_for now s e) x (ground (arith, d.0)) (
        subst
          (λ y.
            has str_dec y (step verdict_for now s e).result.accepted_ids
            ≡ not (has str_dec y (step verdict_for now s e).quarantined))
          (sym is_e) (step_own s e (ground arith) (ground arith)))
    | no other ↦
        loop_splits es (step verdict_for now s e) x d.1 (ground arith)
          (ground (arith, step_other s e x)) (ground (arith, step_other s e x))
  ]

  -- The cause of a quarantined id is a rejected entry.
  abbrev pub Rejected : List QuarantineCandidate → JsString → Type 0
  Rejected all c =
      (e : QuarantineCandidate) × Among e all × (e.id ≡ c) × ((verdict_for e).accepted ≡ false)

  abbrev pub Caused : List QuarantineCandidate → QuarantineRecord → Type 0
  Caused all r = (c : JsString) → r.caused_by_entry_id ≡ some c → Rejected all c

  abbrev pub Traced : List QuarantineCandidate → Evaluation → Type 0
  Traced all s =
      ((x : JsString)
        → has str_dec x s.quarantined ≡ true
        → (c : JsString) × (lookup str_dec x s.tainted_by ≡ some c) × Rejected all c)
      × All (Caused all) s.result.records

  All-append :
      (all : List QuarantineCandidate) (rs : List QuarantineRecord) (r : QuarantineRecord)
      → All (Caused all) rs
      → Caused all r
      → All (Caused all) (rs ++ (r ∷ []))
  All-append all [] r a h = (h, tt)
  All-append all (x ∷ rs) r a h = (a.0, All-append all rs r a.1 h)

  -- An id that is added with a rejected cause.
  Traced-set :
      (all : List QuarantineCandidate) (s : Evaluation) (id c : JsString)
      → Traced all s
      → Rejected all c
      → (x : JsString) → has str_dec x (add str_dec id s.quarantined) ≡ true
      → (c' : JsString) × (lookup str_dec x (set str_dec id c s.tainted_by) ≡ some c')
        × Rejected all c'
  Traced-set all s id c t r x h = elim (str_dec x id) [
    | yes same ↦ (c, ground (arith, lookup-set str_dec x id c s.tainted_by), r)
    | no other ↦
        let (c', found, r') = t.0 x (ground (arith, has-add str_dec id x s.quarantined)) in
        (c', ground (arith, lookup-set str_dec x id c s.tainted_by), r')
  ]

  step-Traced :
      (all : List QuarantineCandidate) (s : Evaluation) (e : QuarantineCandidate)
      → Among e all
      → Traced all s
      → Traced all (step verdict_for now s e)
  unfolding evaluate_entry
  step-Traced all s e m t = elim (Option-cases (tainting_dep s.quarantined e.dependency_ids)) [
    | inr (d, found) ↦
        let (c, is_c, r) = t.0 d (tainting_dep-some s.quarantined e.dependency_ids d found).1 in
        rw (found, evaluate_entry, is_c)
          (
            Traced-set all s e.id c t r,
            All-append all s.result.records _ t.1 (λ c' same. subst (Rejected all) (cc) r),
          )
    | inl nothing ↦ elim (Bool-cases (verdict_for e).accepted) [
      | inl ok ↦ rw (nothing, evaluate_entry, ok) t
      | inr bad ↦
          let r : Rejected all e.id = (e, m, refl, bad) in
          rw (nothing, evaluate_entry, bad)
            (Traced-set all s e.id e.id t r, All-append all s.result.records _ t.1 (λ c' same. cc))
    ]
  ]

  pub loop-Traced :
      (all es : List QuarantineCandidate) (s : Evaluation)
      → All (λ e. Among e all) es
      → Traced all s
      → Traced all (loop verdict_for now s es)
  loop-Traced all [] s m t = t
  loop-Traced all (e ∷ es) s m t =
      loop-Traced all es (step verdict_for now s e) m.1 (step-Traced all s e m.0 t)
