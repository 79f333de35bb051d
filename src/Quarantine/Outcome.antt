-- ===== src/Quarantine/Outcome.antt =====
-- What `computeAcceptedSet` returns.
use mindoo_db.Base.{
  ℕ, ◌≡◌, ◌↔◌, inl, inr, refl, sym, ap, ◌∙◌, not, Bool, true, false, some, List, [], ◌∷◌, JsString,
  str_dec, has, Distinct, All, subst,
}
use mindoo_db.Base.Sort.{All-sort, sort}
use mindoo_db.Base.Sort.Members.{All-sort_back, has-sort, Distinct-sort}
use mindoo_db.Quarantine.{
  QuarantineCandidate, EntryVerdict, evaluated_before, sort_for_evaluation, nothing_evaluated,
  compute_accepted_set,
}
use mindoo_db.Quarantine.Cascade.{ids, Among, DependenciesFirst}
use mindoo_db.Quarantine.Tainted.{Tainted, sorted_quarantined, quarantined_ids_loop}
use mindoo_db.Quarantine.Causes.{loop_splits, loop-Traced}

All-Among_of :
    (es all : List QuarantineCandidate)
    → ((e : QuarantineCandidate) → Among e es → Among e all)
    → All (λ e. Among e all) es
All-Among_of [] all within = tt
All-Among_of (e ∷ es) all within =
    (within e (inl refl), All-Among_of es all (λ y m. within y (inr m)))

All-Among :
    (P : QuarantineCandidate → Type 0) (e : QuarantineCandidate) (es : List QuarantineCandidate)
    → All P es
    → Among e es
    → P e
All-Among P e [] a m = elim m [ ]
All-Among P e (x ∷ es) a (inl same) = subst P same a.0
All-Among P e (x ∷ es) a (inr m) = All-Among P e es a.1 m

Tainted-within :
    {verdict_for : QuarantineCandidate → EntryVerdict} (es all : List QuarantineCandidate)
    {e : QuarantineCandidate}
    → ((d : QuarantineCandidate) → Among d es → Among d all)
    → Tainted verdict_for es e
    → Tainted verdict_for all e
Tainted-within es all within (Tainted.rejected e bad) = Tainted.rejected e bad
Tainted-within es all within (Tainted.cascade e d dep m t) =
    Tainted.cascade e d dep (within d m) (Tainted-within es all within t)

module _ (locale_before : JsString → JsString → Bool) where
  Among-sort :
      (e : QuarantineCandidate) (es : List QuarantineCandidate)
      → Among e es ↔ Among e (sort_for_evaluation locale_before es)
  unfolding sort_for_evaluation
  Among-sort e es =
      let lt = evaluated_before locale_before in
      (
        All-Among (λ x. Among x (sort lt es)) e es
            (All-sort_back lt (λ x. Among x (sort lt es)) es
              (All-Among_of (sort lt es) (sort lt es) (λ y m. m))),
        All-Among (λ x. Among x es) e (sort lt es)
            (All-sort (λ x. Among x es) lt es (All-Among_of es es (λ y m. m))),
      )

module _ (locale_before : JsString → JsString → Bool)
    (verdict_for : QuarantineCandidate → EntryVerdict) (now : ℕ)
    (entries : List QuarantineCandidate) where
  -- Of entries with distinct ids that are not empty, whose order of evaluation puts every dependency
  -- among them before its dependents, exactly those are quarantined that the verdict rejects or that
  -- depend, at any remove, on one that it rejects.
  pub compute_accepted_set-Tainted :
      DependenciesFirst (sort_for_evaluation locale_before entries)
      → has str_dec [] (ids entries) ≡ false
      → Distinct str_dec (ids entries)
      → (e : QuarantineCandidate) → Among e entries
      → (has str_dec e.id
            (compute_accepted_set locale_before entries verdict_for now).quarantined_ids
          ≡ true)
        ↔ Tainted verdict_for entries e
  unfolding compute_accepted_set sort_for_evaluation
  compute_accepted_set-Tainted first named distinct e m =
      let lt = evaluated_before locale_before in
      let sorted = sort lt entries in
      let (into, back) =
        sorted_quarantined verdict_for now sorted first
          (has-sort lt str_dec (λ x. x.id) [] entries ∙ named)
          (Distinct-sort lt str_dec (λ x. x.id) entries distinct) e
          ((Among-sort locale_before e entries).0 m) in
      (
        λ h. Tainted-within sorted entries (λ d. (Among-sort locale_before d entries).1) (into h),
        λ t. back (Tainted-within entries sorted (λ d. (Among-sort locale_before d entries).0) t),
      )

  -- Of entries with distinct ids, every id is either accepted or quarantined, and never both.
  pub compute_accepted_set_splits :
      Distinct str_dec (ids entries)
      → (x : JsString) → has str_dec x (ids entries) ≡ true
      → has str_dec x (compute_accepted_set locale_before entries verdict_for now).accepted_ids
        ≡ not (
            has str_dec x
              (compute_accepted_set locale_before entries verdict_for now).quarantined_ids)
  unfolding compute_accepted_set sort_for_evaluation
  compute_accepted_set_splits distinct x m =
      let lt = evaluated_before locale_before in
      let sorted = sort lt entries in
      loop_splits verdict_for now sorted nothing_evaluated x
        (Distinct-sort lt str_dec (λ y. y.id) entries distinct)
        (has-sort lt str_dec (λ y. y.id) x entries ∙ m) refl refl
      ∙ ap not (sym (quarantined_ids_loop verdict_for now sorted nothing_evaluated (λ y. refl) x))

  -- Whatever the order and the ids are, an ancestor that a record names as the cause is an entry that
  -- the verdict itself rejects.
  pub compute_accepted_set_causes :
      All
        (λ r.
          (c : JsString)
          → r.caused_by_entry_id ≡ some c
          → (e : QuarantineCandidate) × Among e entries
            × (e.id ≡ c)
            × ((verdict_for e).accepted ≡ false))
        (compute_accepted_set locale_before entries verdict_for now).records
  unfolding compute_accepted_set sort_for_evaluation
  compute_accepted_set_causes =
      let sorted = sort (evaluated_before locale_before) entries in
      (loop-Traced verdict_for now entries sorted nothing_evaluated
        (All-Among_of sorted entries (λ e. (Among-sort locale_before e entries).1))
        (λ x empty. cc, tt)).1
