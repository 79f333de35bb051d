-- ===== src/Quarantine/Local.antt =====
-- What the outcome of one entry depends on, in whatever order the entries are evaluated.
use mindoo_db.Base.{
  ℕ, ◌≡◌, refl, sym, ap, ◌∙◌, ◌||◌, ◌&&◌, not, Bool, true, false, inl, inr, List, [], ◌∷◌, ◌++◌,
  subst, JsString, str_dec, arith, any, has, has-append, Distinct, Distinct-apart, Distinct-behind,
  Option-cases,
}
use mindoo_db.Base.Sort.{sort}
use mindoo_db.Base.Sort.Members.{has-sort, Distinct-sort}
use mindoo_db.Quarantine.{
  QuarantineCandidate, EntryVerdict, Evaluation, evaluated_before, sort_for_evaluation,
  evaluate_entry, tainting_dep, nothing_evaluated, compute_accepted_set,
}
use mindoo_db.Quarantine.Cascade.{
  ids, any-has, tainting_dep-some, step, loop, loop_new, step_blocks,
}
use mindoo_db.Quarantine.Tainted.{quarantined_ids_loop}
use mindoo_db.Quarantine.Causes.{step_other}

ids-append : (es fs : List QuarantineCandidate) → ids (es ++ fs) ≡ ids es ++ ids fs
ids-append [] fs = refl
ids-append (e ∷ es) fs = ap (◌∷◌ e.id) (ids-append es fs)

any-same :
    (p q : JsString → Bool) (ds : List JsString)
    → ((d : JsString) → p d ≡ q d)
    → any p ds ≡ any q ds
any-same p q [] h = refl
any-same p q (d ∷ ds) h = ground (arith, h d, any-same p q ds h)

module _ (verdict_for : QuarantineCandidate → EntryVerdict) (now : ℕ) where
  loop-append :
      (before after : List QuarantineCandidate) (s : Evaluation)
      → loop verdict_for now s (before ++ after)
        ≡ loop verdict_for now (loop verdict_for now s before) after
  loop-append [] after s = refl
  loop-append (e ∷ before) after s = loop-append before after (step verdict_for now s e)

  -- Rounds of other entries do not change whether an id is quarantined.
  loop_others :
      (es : List QuarantineCandidate) (s : Evaluation) (x : JsString)
      → has str_dec x (ids es) ≡ false
      → has str_dec x (loop verdict_for now s es).quarantined ≡ has str_dec x s.quarantined
  loop_others [] s x n = refl
  loop_others (e ∷ es) s x n =
      loop_others es (step verdict_for now s e) x (ground arith)
      ∙ (step_other verdict_for now s e x (ground arith)).1

  -- An entry that is accepted and has no quarantined dependency is not quarantined in its round.
  step_passes :
      (s : Evaluation) (e : QuarantineCandidate)
      → has str_dec e.id s.quarantined ≡ false
      → any (λ d. has str_dec d s.quarantined) e.dependency_ids ≡ false
      → (verdict_for e).accepted ≡ true
      → has str_dec e.id (step verdict_for now s e).quarantined ≡ false
  unfolding evaluate_entry
  step_passes s e new free ok = elim (Option-cases (tainting_dep s.quarantined e.dependency_ids)) [
    | inl nothing ↦ ground arith
    | inr (d, found) ↦
        let (dep, member) = tainting_dep-some s.quarantined e.dependency_ids d found in
        absurd
          (ground (arith, any-has d (λ y. has str_dec y s.quarantined) e.dependency_ids dep member))
  ]

  step_decides :
      (s : Evaluation) (e : QuarantineCandidate)
      → has str_dec [] s.quarantined ≡ false
      → has str_dec e.id s.quarantined ≡ false
      → has str_dec e.id (step verdict_for now s e).quarantined
        ≡ (any (λ d. has str_dec d s.quarantined) e.dependency_ids || not (verdict_for e).accepted)
  step_decides s e named new =
      ground (arith, step_blocks verdict_for now s e named, step_passes s e new)

  -- In a loop over distinct ids, by the entries before.
  loop_decides :
      (before after : List QuarantineCandidate) (e : QuarantineCandidate)
      → Distinct str_dec (ids before ++ ids (e ∷ after))
      → has str_dec [] (ids before) ≡ false
      → has str_dec e.id
          (loop verdict_for now nothing_evaluated (before ++ (e ∷ after))).quarantined
        ≡ (not (verdict_for e).accepted
            || any
                (λ d.
                  has str_dec d (ids before)
                  && has str_dec d
                      (loop verdict_for now nothing_evaluated (before ++ (e ∷ after))).quarantined)
                e.dependency_ids)
  loop_decides before after e distinct named =
      let s = loop verdict_for now nothing_evaluated before in
      let split = loop-append before (e ∷ after) nothing_evaluated in
      let apart = Distinct-apart str_dec (ids before) (ids (e ∷ after)) distinct in
      let new : has str_dec e.id s.quarantined ≡ false =
        ground (arith, apart e.id, loop_new verdict_for now before nothing_evaluated e.id) in
      let unnamed : has str_dec [] s.quarantined ≡ false =
        ground (arith, named, loop_new verdict_for now before nothing_evaluated []) in
      let last : has str_dec e.id (ids after) ≡ false =
        (Distinct-behind str_dec (ids before) (ids (e ∷ after)) distinct).0 in
      let earlier : (d : JsString)
          → (has str_dec d (ids before)
              && has str_dec d (loop verdict_for now s (e ∷ after)).quarantined)
            ≡ has str_dec d s.quarantined =
        λ d. ground (
          arith,
          apart d,
          loop_others (e ∷ after) s d,
          loop_new verdict_for now before nothing_evaluated d,
        ) in
      rw
        (
          split,
          loop_others after (step verdict_for now s e) e.id last,
          step_decides s e unnamed new,
        )
        (ground (arith, any-same _ (λ d. has str_dec d s.quarantined) e.dependency_ids earlier))

module _ (locale_before : JsString → JsString → Bool)
    (verdict_for : QuarantineCandidate → EntryVerdict) (now : ℕ)
    (entries : List QuarantineCandidate) where
  -- Of entries with distinct ids that are not empty, one is quarantined exactly if the verdict rejects
  -- it or one of its dependencies is evaluated before it and is quarantined. A dependency that is
  -- evaluated later does not count, whatever becomes of it.
  pub compute_accepted_set_local :
      (before after : List QuarantineCandidate) (e : QuarantineCandidate)
      → sort_for_evaluation locale_before entries ≡ before ++ (e ∷ after)
      → has str_dec [] (ids entries) ≡ false
      → Distinct str_dec (ids entries)
      → has str_dec e.id
          (compute_accepted_set locale_before entries verdict_for now).quarantined_ids
        ≡ (not (verdict_for e).accepted
            || any
                (λ d.
                  has str_dec d (ids before)
                  && has str_dec d
                      (compute_accepted_set locale_before entries verdict_for now).quarantined_ids)
                e.dependency_ids)
  unfolding compute_accepted_set sort_for_evaluation
  compute_accepted_set_local before after e order named distinct =
      let lt = evaluated_before locale_before in
      let sorted = sort lt entries in
      let d : Distinct str_dec (ids before ++ ids (e ∷ after)) =
        subst (Distinct str_dec) (ap ids order ∙ ids-append before (e ∷ after))
          (Distinct-sort lt str_dec (λ x. x.id) entries distinct) in
      let n : has str_dec [] (ids before) ≡ false = ground (
        arith,
        has-sort lt str_dec (λ x. x.id) [] entries ∙ named,
        ap (λ xs. has str_dec [] (ids xs)) order,
        ap (has str_dec []) (ids-append before (e ∷ after)),
        has-append str_dec [] (ids before) (ids (e ∷ after)),
      ) in
      let same : (x : JsString)
          → has str_dec x (loop verdict_for now nothing_evaluated sorted).result.quarantined_ids
            ≡ has str_dec x
                (loop verdict_for now nothing_evaluated (before ++ (e ∷ after))).quarantined =
        λ x.
          quarantined_ids_loop verdict_for now sorted nothing_evaluated (λ y. refl) x
          ∙ ap (λ xs. has str_dec x (loop verdict_for now nothing_evaluated xs).quarantined)
              order in
      same e.id
      ∙ loop_decides verdict_for now before after e d n
      ∙ ap (◌||◌ (not (verdict_for e).accepted)) (
          any-same _ _ e.dependency_ids
            (λ y. ap (◌&&◌ (has str_dec y (ids before))) (sym (same y))))
