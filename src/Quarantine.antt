-- ===== src/Quarantine.antt =====
-- src/core/accesscontrol/quarantine.ts: which entries are accepted, and the records of the rest. The
-- order of strings by `localeCompare` and the verdict on an entry are parameters.
pub mod Cascade
pub mod Causes
pub mod Tainted
pub mod Outcome
pub mod Local
use mindoo_db.Base.{
  ℕ, ◌==◌, Bool, true, false, Option, some, none, List, [], ◌∷◌, ◌++◌, JsString, codes, str_dec,
  or_else, lookup, set, foldl, if◌then◌else◌, ltb, has, add,
}
use mindoo_db.Base.Sort.{sort}

pub data QuarantineReason : Type 0 where
  tier2_denied tier1_recheck_denied snapshot_head_mismatch snapshot_untrusted_head
        op_type_mismatch :
      QuarantineReason
  cascade_dependent invalid_signature invalid_witness_receipt directory_unavailable :
      QuarantineReason

pub record QuarantineRecord : Type 0 where
  pub entry_id : JsString
  pub doc_id : JsString
  pub dbid : JsString
  pub entry_type : JsString
  pub reason : QuarantineReason
  pub detail : JsString
  pub trusted_time : ℕ
  pub recorded_at : ℕ
  pub caused_by_entry_id : Option JsString

pub record QuarantineCandidate : Type 0 where
  pub id : JsString
  pub doc_id : JsString
  pub dependency_ids : List JsString
  pub entry_type : JsString
  pub trusted_time : ℕ

-- The record of a verdict, without the members that the engine adds.
pub record VerdictRecord : Type 0 where
  pub entry_id : JsString
  pub doc_id : JsString
  pub dbid : JsString
  pub entry_type : JsString
  pub reason : QuarantineReason
  pub detail : JsString
  pub trusted_time : ℕ

pub record EntryVerdict : Type 0 where
  pub accepted : Bool
  pub record_of : Option VerdictRecord

pub record AcceptedSetResult : Type 0 where
  pub accepted_ids : List JsString
  pub quarantined_ids : List JsString
  pub records : List QuarantineRecord

-- The result so far with the other variables of the loop.
pub record Evaluation : Type 0 where
  pub result : AcceptedSetResult
  pub tainted_by : List (JsString × JsString)
  pub quarantined : List JsString

-- `entry.dependencyIds.find((dep) => quarantined.has(dep))`, tested for truth: the empty string fails.
unfoldable pub first_member : List JsString → List JsString → Option JsString
first_member quarantined [] = none
first_member quarantined (dep ∷ deps) =
    if has str_dec dep quarantined then some dep else first_member quarantined deps

unfoldable pub truthy_dep : Option JsString → Option JsString
truthy_dep none = none
truthy_dep (some []) = none
truthy_dep (some (c ∷ cs)) = some (c ∷ cs)

unfoldable pub tainting_dep : List JsString → List JsString → Option JsString
unfolding first_member truthy_dep
tainting_dep quarantined deps = truthy_dep (first_member quarantined deps)

abbrev pub quarantine : JsString → JsString → QuarantineRecord → Evaluation → Evaluation
quarantine id root_cause audit e = record {
  result = record e.result {
    quarantined_ids = e.result.quarantined_ids ++ (id ∷ []);
    records = e.result.records ++ (audit ∷ []);
  };
  tainted_by = set str_dec id root_cause e.tainted_by;
  quarantined = add str_dec id e.quarantined;
}

abbrev pub cascade_record : QuarantineCandidate → JsString → JsString → ℕ → QuarantineRecord
cascade_record entry dep root_cause now = record {
  entry_id = entry.id;
  doc_id = entry.doc_id;
  dbid = [];
  entry_type = entry.entry_type;
  reason = cascade_dependent;
  detail = codes "causally depends on quarantined entry " ++ dep;
  trusted_time = entry.trusted_time;
  recorded_at = now;
  caused_by_entry_id = some root_cause;
}

abbrev pub default_record : QuarantineCandidate → VerdictRecord
default_record entry = record {
  entry_id = entry.id;
  doc_id = entry.doc_id;
  dbid = [];
  entry_type = entry.entry_type;
  reason = tier2_denied;
  detail = codes "rejected by access policy";
  trusted_time = entry.trusted_time;
}

abbrev pub direct_record : QuarantineCandidate → Option VerdictRecord → ℕ → QuarantineRecord
direct_record entry given now =
    let r : VerdictRecord = or_else given (default_record entry) in
    record {
      entry_id = r.entry_id;
      doc_id = r.doc_id;
      dbid = r.dbid;
      entry_type = r.entry_type;
      reason = r.reason;
      detail = r.detail;
      trusted_time = r.trusted_time;
      recorded_at = now;
      caused_by_entry_id = none;
    }

abbrev pub accept : JsString → Evaluation → Evaluation
accept id e = record e {
  result = record e.result { accepted_ids = e.result.accepted_ids ++ (id ∷ []) };
}

abbrev pub nothing_evaluated : Evaluation
nothing_evaluated = record {
  result = record { accepted_ids = []; quarantined_ids = []; records = [] };
  tainted_by = [];
  quarantined = [];
}

module _ (locale_before : JsString → JsString → Bool) where
  abbrev pub evaluated_before : QuarantineCandidate → QuarantineCandidate → Bool
  evaluated_before a b =
      if a.trusted_time == b.trusted_time
      then locale_before a.id b.id
      else ltb a.trusted_time b.trusted_time

  unfoldable pub sort_for_evaluation : List QuarantineCandidate → List QuarantineCandidate
  sort_for_evaluation entries = sort evaluated_before entries

module _ (verdict_for : QuarantineCandidate → EntryVerdict) (now : ℕ) where
  abbrev pub evaluate_verdict : Evaluation → QuarantineCandidate → Evaluation
  evaluate_verdict e entry =
      if (verdict_for entry).accepted
      then accept entry.id e
      else quarantine entry.id entry.id (direct_record entry (verdict_for entry).record_of now) e

  -- A round of the loop.
  unfoldable pub evaluate_entry : Evaluation → QuarantineCandidate → Evaluation
  unfolding tainting_dep
  evaluate_entry e entry = elim (tainting_dep e.quarantined entry.dependency_ids) [
    | some dep ↦
        let root_cause : JsString = or_else (lookup str_dec dep e.tainted_by) dep in
        quarantine entry.id root_cause (cascade_record entry dep root_cause now) e
    | none ↦ evaluate_verdict e entry
  ]

unfoldable pub compute_accepted_set :
    (JsString → JsString → Bool)
    → List QuarantineCandidate
    → (QuarantineCandidate → EntryVerdict)
    → ℕ
    → AcceptedSetResult
unfolding sort_for_evaluation evaluate_entry
compute_accepted_set locale_before entries verdict_for now =
    (foldl (evaluate_entry verdict_for now) nothing_evaluated
      (sort_for_evaluation locale_before entries)).result
