-- ===== src/Quarantine/Cascade.antt =====
-- Which entries are quarantined: those that are rejected, and those that depend on a quarantined one.
use mindoo_db.Base.{
  ℕ, ◌≡◌, ◌⊎◌, inl, inr, refl, sym, ap, ◌||◌, not, Bool, true, false, Option, some, none, List, [],
  ◌∷◌, map, JsString, str_dec, foldl, Bool-cases, arith, has, has-add, any, subst,
}
use mindoo_db.Quarantine.{
  QuarantineCandidate, EntryVerdict, Evaluation, first_member, truthy_dep, tainting_dep,
  evaluate_entry,
}

abbrev pub ids : List QuarantineCandidate → List JsString
ids es = map (λ e. e.id) es

abbrev pub Among : QuarantineCandidate → List QuarantineCandidate → Type 0
Among e [] = ⊥
Among e (x ∷ xs) = (x ≡ e) ⊎ Among e xs

-- No entry stands before, or is, one that it depends on.
abbrev pub DependenciesFirst : List QuarantineCandidate → Type 0
DependenciesFirst [] = Unit {0}
DependenciesFirst (e ∷ es) =
    (any (λ d. has str_dec d (ids (e ∷ es))) e.dependency_ids ≡ false) × DependenciesFirst es

pub any-has :
    (d : JsString) (p : JsString → Bool) (ds : List JsString)
    → has str_dec d ds ≡ true
    → p d ≡ true
    → any p ds ≡ true
any-has d p [] h t = cc
any-has d p (x ∷ ds) h t = elim (str_dec d x) [
  | yes e ↦ let px : p x ≡ true = subst (λ y. p y ≡ true) e t in ground arith
  | no e ↦ ground (arith, any-has d p ds)
]

pub any-member :
    (p : JsString → Bool) (ds : List JsString)
    → any p ds ≡ true
    → (d : JsString) × (has str_dec d ds ≡ true) × (p d ≡ true)
any-member p [] h = absurd (ground arith)
any-member p (x ∷ ds) h = elim (Bool-cases (p x)) [
  | inl e ↦ (x, ground arith, e)
  | inr e ↦ let (d, member, holds) = any-member p ds (ground arith) in (d, ground arith, holds)
]

first_member-some :
    (q deps : List JsString) (d : JsString)
    → first_member q deps ≡ some d
    → (has str_dec d deps ≡ true) × (has str_dec d q ≡ true)
unfolding first_member
first_member-some q [] d h = absurd (ground arith)
first_member-some q (x ∷ deps) d h = ground (arith, first_member-some q deps d)

first_member-none :
    (q deps : List JsString) → first_member q deps ≡ none → any (λ d. has str_dec d q) deps ≡ false
unfolding first_member
first_member-none q [] h = refl
first_member-none q (x ∷ deps) h = ground (arith, first_member-none q deps)

truthy_dep-some : (o : Option JsString) (d : JsString) → truthy_dep o ≡ some d → o ≡ some d
unfolding truthy_dep
truthy_dep-some none d h = h
truthy_dep-some (some []) d h = cc
truthy_dep-some (some (c ∷ cs)) d h = h

truthy_dep-none : (o : Option JsString) → truthy_dep o ≡ none → (o ≡ none) ⊎ (o ≡ some [])
unfolding truthy_dep
truthy_dep-none none h = inl refl
truthy_dep-none (some []) h = inr refl
truthy_dep-none (some (c ∷ cs)) h = cc

pub tainting_dep-some :
    (q deps : List JsString) (d : JsString)
    → tainting_dep q deps ≡ some d
    → (has str_dec d deps ≡ true) × (has str_dec d q ≡ true)
unfolding tainting_dep
tainting_dep-some q deps d h =
    first_member-some q deps d (truthy_dep-some (first_member q deps) d h)

-- The empty string is not quarantined, so a quarantined dependency is found.
pub tainting_dep-none :
    (q deps : List JsString)
    → has str_dec [] q ≡ false
    → tainting_dep q deps ≡ none
    → any (λ d. has str_dec d q) deps ≡ false
unfolding tainting_dep
tainting_dep-none q deps e h = elim (truthy_dep-none (first_member q deps) h) [
  | inl nothing ↦ first_member-none q deps nothing
  | inr empty ↦ absurd (ground (arith, first_member-some q deps [] empty))
]

module _ (verdict_for : QuarantineCandidate → EntryVerdict) (now : ℕ) where
  abbrev pub step : Evaluation → QuarantineCandidate → Evaluation
  step s e = evaluate_entry verdict_for now s e

  abbrev pub loop : Evaluation → List QuarantineCandidate → Evaluation
  loop s es = foldl (evaluate_entry verdict_for now) s es

  pub step_grows :
      (s : Evaluation) (e : QuarantineCandidate) (x : JsString)
      → has str_dec x s.quarantined ≡ true
      → has str_dec x (step s e).quarantined ≡ true
  unfolding evaluate_entry
  step_grows s e x h = ground (arith, has-add str_dec e.id x s.quarantined)

  pub loop_grows :
      (es : List QuarantineCandidate) (s : Evaluation) (x : JsString)
      → has str_dec x s.quarantined ≡ true
      → has str_dec x (loop s es).quarantined ≡ true
  loop_grows [] s x h = h
  loop_grows (e ∷ es) s x h = loop_grows es (step s e) x (step_grows s e x h)

  -- What a round adds is its entry.
  pub step_new :
      (s : Evaluation) (e : QuarantineCandidate) (x : JsString)
      → has str_dec x (step s e).quarantined ≡ true
      → (has str_dec x s.quarantined || has str_dec x (e.id ∷ [])) ≡ true
  unfolding evaluate_entry
  step_new s e x h = ground (arith, has-add str_dec e.id x s.quarantined)

  pub loop_new :
      (es : List QuarantineCandidate) (s : Evaluation) (x : JsString)
      → has str_dec x (loop s es).quarantined ≡ true
      → (has str_dec x s.quarantined || has str_dec x (ids es)) ≡ true
  loop_new [] s x h = ground arith
  loop_new (e ∷ es) s x h = ground (arith, loop_new es (step s e) x, step_new s e x)

  -- An entry that is rejected, or has a quarantined dependency, is quarantined in its round.
  pub step_blocks :
      (s : Evaluation) (e : QuarantineCandidate)
      → has str_dec [] s.quarantined ≡ false
      → (any (λ d. has str_dec d s.quarantined) e.dependency_ids || not (verdict_for e).accepted)
        ≡ true
      → has str_dec e.id (step s e).quarantined ≡ true
  unfolding evaluate_entry
  step_blocks s e n h = ground (
    arith,
    has-add str_dec e.id e.id s.quarantined,
    tainting_dep-none s.quarantined e.dependency_ids n,
  )

  pub loop_blocks_rejected :
      (es : List QuarantineCandidate) (s : Evaluation) (e : QuarantineCandidate)
      → has str_dec [] s.quarantined ≡ false
      → has str_dec [] (ids es) ≡ false
      → Among e es
      → (verdict_for e).accepted ≡ false
      → has str_dec e.id (loop s es).quarantined ≡ true
  loop_blocks_rejected [] s e n ns m r = elim m [ ]
  loop_blocks_rejected (x ∷ es) s e n ns (inl same) r = loop_grows es (step s x) e.id (
      rw (ap (λ (y : QuarantineCandidate). y.id) (sym same))
        (step_blocks s x n (ground (arith, ap (λ y. (verdict_for y).accepted) same))))
  loop_blocks_rejected (x ∷ es) s e n ns (inr m) r =
      loop_blocks_rejected es (step s x) e (ground (arith, step_new s x [])) (ground arith) m r
