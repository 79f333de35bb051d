-- ===== src/Quarantine/Tainted.antt =====
-- The quarantined entries, described without the loop.
use mindoo_db.Base.{
  ℕ, ◌≡◌, ◌↔◌, ◌⊎◌, inl, inr, refl, sym, ap, ◌∙◌, true, false, List, [], ◌∷◌, JsString, str_dec,
  Bool-cases, Option-cases, arith, has, has-add, has-append, any, Distinct, subst,
}
use mindoo_db.Quarantine.{
  QuarantineCandidate, EntryVerdict, Evaluation, tainting_dep, evaluate_entry, nothing_evaluated,
}
use mindoo_db.Quarantine.Cascade.{
  ids, Among, DependenciesFirst, any-has, tainting_dep-some, step, loop, loop_grows, step_new,
  loop_new, step_blocks, loop_blocks_rejected,
}

-- An entry of the list that is rejected, or depends on the id of one that is tainted.
pub data Tainted (verdict_for : QuarantineCandidate → EntryVerdict) (es : List QuarantineCandidate)
    : QuarantineCandidate → Type 0 where
  rejected : (e : QuarantineCandidate) → (verdict_for e).accepted ≡ false → Tainted verdict_for es e
  cascade :
      (e d : QuarantineCandidate)
      → has str_dec d.id e.dependency_ids ≡ true
      → Among d es
      → Tainted verdict_for es d
      → Tainted verdict_for es e

module _ (verdict_for : QuarantineCandidate → EntryVerdict) (now : ℕ) where
  -- With dependencies first, what is quarantined in the end was so when a dependent's round came.
  loop_blocks_dependent :
      (es : List QuarantineCandidate) (s : Evaluation) (e : QuarantineCandidate) (d : JsString)
      → DependenciesFirst es
      → has str_dec [] s.quarantined ≡ false
      → has str_dec [] (ids es) ≡ false
      → Among e es
      → has str_dec d e.dependency_ids ≡ true
      → has str_dec d (loop verdict_for now s es).quarantined ≡ true
      → has str_dec e.id (loop verdict_for now s es).quarantined ≡ true
  loop_blocks_dependent [] s e d f n ns m dep h = elim m [ ]
  loop_blocks_dependent (x ∷ es) s e d f n ns (inl same) dep h =
      let dep_x : has str_dec d x.dependency_ids ≡ true =
        subst (λ (y : QuarantineCandidate). has str_dec d y.dependency_ids ≡ true) (sym same) dep in
      let old : has str_dec d s.quarantined ≡ true =
        elim (Bool-cases (has str_dec d (ids (x ∷ es)))) [
          | inl later ↦ absurd (
              ground (
                arith,
                f.0,
                any-has d (λ y. has str_dec y (ids (x ∷ es))) x.dependency_ids dep_x later,
              ))
          | inr apart ↦ ground (arith, loop_new verdict_for now (x ∷ es) s d h)
        ] in
      let blocked : any (λ y. has str_dec y s.quarantined) x.dependency_ids ≡ true =
        any-has d (λ y. has str_dec y s.quarantined) x.dependency_ids dep_x old in
      loop_grows verdict_for now es (step verdict_for now s x) e.id (
        rw (ap (λ (y : QuarantineCandidate). y.id) (sym same))
          (step_blocks verdict_for now s x n (ground arith)))
  loop_blocks_dependent (x ∷ es) s e d f n ns (inr m) dep h =
      loop_blocks_dependent es (step verdict_for now s x) e d f.1
        (ground (arith, step_new verdict_for now s x [])) (ground arith) m dep h

  -- A quarantined id is that of a tainted entry.
  abbrev Sound : List QuarantineCandidate → Evaluation → Type 0
  Sound all s =
      (x : JsString)
      → has str_dec x s.quarantined ≡ true
      → (e : QuarantineCandidate) × Among e all × (e.id ≡ x) × Tainted verdict_for all e

  step-Tainted :
      (all : List QuarantineCandidate) (s : Evaluation) (e : QuarantineCandidate) (x : JsString)
      → Sound all s
      → has str_dec x (step verdict_for now s e).quarantined ≡ true
      → (has str_dec x s.quarantined ≡ true) ⊎ ((e.id ≡ x) × Tainted verdict_for all e)
  unfolding evaluate_entry
  step-Tainted all s e x sound h =
      elim (Option-cases (tainting_dep s.quarantined e.dependency_ids)) [
        | inr (d, found) ↦
            let (dep, member) = tainting_dep-some s.quarantined e.dependency_ids d found in
            let (cause, among, is_d, tainted) = sound d member in
            elim (str_dec e.id x) [
              | yes is_e ↦ inr (
                is_e,
                Tainted.cascade e cause
                    (subst (λ y. has str_dec y e.dependency_ids ≡ true) (sym is_d) dep) among
                    tainted,
              )
              | no other ↦ inl (ground (arith, has-add str_dec e.id x s.quarantined))
            ]
        | inl nothing ↦ elim (Bool-cases (verdict_for e).accepted) [
          | inl ok ↦ inl (ground arith)
          | inr bad ↦ elim (str_dec e.id x) [
            | yes is_e ↦ inr (is_e, Tainted.rejected e bad)
            | no other ↦ inl (ground (arith, has-add str_dec e.id x s.quarantined))
          ]
        ]
      ]

  loop-Sound :
      (all es : List QuarantineCandidate) (s : Evaluation)
      → ((e : QuarantineCandidate) → Among e es → Among e all)
      → Sound all s
      → Sound all (loop verdict_for now s es)
  loop-Sound all [] s within sound = sound
  loop-Sound all (e ∷ es) s within sound =
      loop-Sound all es (step verdict_for now s e) (λ y m. within y (inr m))
        (λ x h. elim (step-Tainted all s e x sound h) [
          | inl old ↦ sound x old
          | inr (is_e, taint) ↦ (e, within e (inl refl), is_e, taint)
        ])

  -- Two entries of a list with distinct ids agree when their ids do.
  has-Among :
      (e : QuarantineCandidate) (es : List QuarantineCandidate)
      → Among e es
      → has str_dec e.id (ids es) ≡ true
  has-Among e [] m = elim m [ ]
  has-Among e (x ∷ es) (inl same) = ground (arith, ap (λ (y : QuarantineCandidate). y.id) same)
  has-Among e (x ∷ es) (inr m) = ground (arith, has-Among e es m)

  Among-Distinct :
      (a b : QuarantineCandidate) (es : List QuarantineCandidate)
      → Distinct str_dec (ids es)
      → Among a es
      → Among b es
      → a.id ≡ b.id
      → a ≡ b
  Among-Distinct a b [] d m n e = elim m [ ]
  Among-Distinct a b (x ∷ es) d (inl p) (inl q) e = sym p ∙ q
  Among-Distinct a b (x ∷ es) d (inl p) (inr n) e =
      absurd (ground (arith, has-Among b es n, ap (λ (y : QuarantineCandidate). y.id) p))
  Among-Distinct a b (x ∷ es) d (inr m) (inl q) e =
      absurd (ground (arith, has-Among a es m, ap (λ (y : QuarantineCandidate). y.id) q))
  Among-Distinct a b (x ∷ es) d (inr m) (inr n) e = Among-Distinct a b es d.1 m n e

  Tainted-blocked :
      (all : List QuarantineCandidate) {e : QuarantineCandidate}
      → DependenciesFirst all
      → has str_dec [] (ids all) ≡ false
      → Tainted verdict_for all e
      → Among e all
      → has str_dec e.id (loop verdict_for now nothing_evaluated all).quarantined ≡ true
  Tainted-blocked all f n (Tainted.rejected e bad) m =
      loop_blocks_rejected verdict_for now all nothing_evaluated e refl n m bad
  Tainted-blocked all f n (Tainted.cascade e d dep among t) m =
      loop_blocks_dependent all nothing_evaluated e d.id f refl n m dep
        (Tainted-blocked all f n t among)

  quarantined_step :
      (s : Evaluation) (e : QuarantineCandidate) (x : JsString)
      → has str_dec x s.result.quarantined_ids ≡ has str_dec x s.quarantined
      → has str_dec x (step verdict_for now s e).result.quarantined_ids
        ≡ has str_dec x (step verdict_for now s e).quarantined
  unfolding evaluate_entry
  quarantined_step s e x h = ground (
    arith,
    has-add str_dec e.id x s.quarantined,
    has-append str_dec x s.result.quarantined_ids (e.id ∷ []),
  )

  -- The set and the list of the quarantined have the same elements.
  pub quarantined_ids_loop :
      (es : List QuarantineCandidate) (s : Evaluation)
      → ((x : JsString) → has str_dec x s.result.quarantined_ids ≡ has str_dec x s.quarantined)
      → (x : JsString)
      → has str_dec x (loop verdict_for now s es).result.quarantined_ids
        ≡ has str_dec x (loop verdict_for now s es).quarantined
  quarantined_ids_loop [] s h x = h x
  quarantined_ids_loop (e ∷ es) s h x =
      quarantined_ids_loop es (step verdict_for now s e) (λ y. quarantined_step s e y (h y)) x

  pub sorted_quarantined :
      (all : List QuarantineCandidate)
      → DependenciesFirst all
      → has str_dec [] (ids all) ≡ false
      → Distinct str_dec (ids all)
      → (e : QuarantineCandidate) → Among e all
      → (has str_dec e.id (loop verdict_for now nothing_evaluated all).result.quarantined_ids
          ≡ true)
        ↔ Tainted verdict_for all e
  sorted_quarantined all f n d e m =
      let same = quarantined_ids_loop all nothing_evaluated (λ x. refl) e.id in
      (
        λ h.
            let (cause, among, is_e, taint) =
              loop-Sound all all nothing_evaluated (λ y a. a) (λ x empty. absurd (ground arith))
                e.id (sym same ∙ h) in
            subst (λ y. Tainted verdict_for all y) (Among-Distinct cause e all d among m is_e)
              taint,
        λ t. same ∙ Tainted-blocked all f n t m,
      )
