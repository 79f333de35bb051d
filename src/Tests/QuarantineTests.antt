-- ===== src/Tests/QuarantineTests.antt =====
-- The quarantine at three entries: the second is rejected, and the third depends on it.
use mindoo_db.Base.{
  ℕ, ◌≡◌, ◌↔◌, refl, not, true, false, some, none, List, [], ◌∷◌, JsString, str_dec, str_ltb,
  lookup, set, inl, has, any, ◌||◌, ◌&&◌, All, ◌==◌, codes,
}
use mindoo_db.Base.Sort.{sort, insert}
use mindoo_db.Quarantine.{
  QuarantineCandidate, EntryVerdict, direct_record, sort_for_evaluation, compute_accepted_set,
}
use mindoo_db.Quarantine.Cascade.{Among, DependenciesFirst}
use mindoo_db.Quarantine.Tainted.{Tainted}
use mindoo_db.Quarantine.Outcome.{
  compute_accepted_set-Tainted, compute_accepted_set_splits, compute_accepted_set_causes,
}
use mindoo_db.Quarantine.Local.{compute_accepted_set_local}
use mindoo_db.Tests.{text_a, text_b, text_c, doc_one}

abbrev candidate : JsString → List JsString → ℕ → QuarantineCandidate
candidate id deps time = record {
  id = id;
  doc_id = doc_one;
  dependency_ids = deps;
  entry_type = codes "doc_change";
  trusted_time = time;
}

-- Entries of the trusted time 20 are rejected.
abbrev not_at_twenty : QuarantineCandidate → EntryVerdict
not_at_twenty e = record { accepted = not (e.trusted_time == 20); record_of = none }

abbrev three : List QuarantineCandidate
three =
    candidate text_c (text_b ∷ []) 30
    ∷ candidate text_a [] 10
    ∷ candidate text_b (text_a ∷ []) 20
    ∷ []

three_sorted : DependenciesFirst (sort_for_evaluation str_ltb three)
unfolding sort_for_evaluation sort insert str_dec
three_sorted = (refl, (refl, (refl, tt)))

three_evaluated : (compute_accepted_set str_ltb three not_at_twenty 99).accepted_ids ≡ text_a ∷ []
unfolding compute_accepted_set sort insert str_dec lookup set
three_evaluated = refl

compute_accepted_set-Tainted_example :
    (has str_dec text_c (compute_accepted_set str_ltb three not_at_twenty 99).quarantined_ids
      ≡ true)
    ↔ Tainted not_at_twenty three (candidate text_c (text_b ∷ []) 30)
unfolding str_dec
compute_accepted_set-Tainted_example =
    compute_accepted_set-Tainted str_ltb not_at_twenty 99 three three_sorted refl
      (refl, (refl, (refl, tt))) (candidate text_c (text_b ∷ []) 30) (inl refl)

compute_accepted_set_splits_example :
    has str_dec text_a (compute_accepted_set str_ltb three not_at_twenty 99).accepted_ids
    ≡ not (has str_dec text_a (compute_accepted_set str_ltb three not_at_twenty 99).quarantined_ids)
unfolding str_dec
compute_accepted_set_splits_example =
    compute_accepted_set_splits str_ltb not_at_twenty 99 three (refl, (refl, (refl, tt))) text_a
      refl

compute_accepted_set_causes_example :
    All
      (λ r.
        (c : JsString)
        → r.caused_by_entry_id ≡ some c
        → (e : QuarantineCandidate) × Among e three
          × (e.id ≡ c)
          × ((not_at_twenty e).accepted ≡ false))
      (compute_accepted_set str_ltb three not_at_twenty 99).records
compute_accepted_set_causes_example = compute_accepted_set_causes str_ltb not_at_twenty 99 three

-- The first entry is evaluated before the second, which it depends on and which is rejected.
abbrev late : QuarantineCandidate
late = candidate text_b [] 20

abbrev early : QuarantineCandidate
early = candidate text_a (text_b ∷ []) 10

-- So it is accepted.
early_accepted : compute_accepted_set str_ltb (late ∷ early ∷ []) not_at_twenty 99 ≡ record {
  accepted_ids = text_a ∷ [];
  quarantined_ids = text_b ∷ [];
  records = direct_record late none 99 ∷ [];
}
unfolding compute_accepted_set sort insert str_dec lookup set
early_accepted = refl

compute_accepted_set_local_example :
    has str_dec text_a
      (compute_accepted_set str_ltb (late ∷ early ∷ []) not_at_twenty 99).quarantined_ids
    ≡ (not (not_at_twenty early).accepted
        || any
            (λ d.
              has str_dec d []
              && has str_dec d
                  (compute_accepted_set str_ltb
                    (late ∷ early ∷ [])
                    not_at_twenty
                    99).quarantined_ids)
            (text_b ∷ []))
unfolding sort_for_evaluation sort insert str_dec
compute_accepted_set_local_example =
    compute_accepted_set_local str_ltb not_at_twenty 99 (late ∷ early ∷ []) [] (late ∷ []) early
      refl refl (refl, (refl, tt))
