-- ===== src/Guard/OpType.antt =====
-- What `opTypeMatches` accepts for the type that `deriveDataOpType` derives.
use mindoo_db.Base.{true, some, ◌≡◌, refl, ◌∙◌, ap, JsString, str_dec, arith}
use mindoo_db.Access.{
  RuleType, doc_create, doc_change, doc_delete, doc_undelete, doc_snapshot, doc_read,
}
use mindoo_db.Guard.{rule_type_text, op_type_matches}
use mindoo_db.Directory.Projection.{rule_type_of}

rule_type_of-rule_type_text : (type : RuleType) → rule_type_of (rule_type_text type) ≡ some type
unfolding str_dec
rule_type_of-rule_type_text doc_create = refl
rule_type_of-rule_type_text doc_change = refl
rule_type_of-rule_type_text doc_delete = refl
rule_type_of-rule_type_text doc_undelete = refl
rule_type_of-rule_type_text doc_snapshot = refl
rule_type_of-rule_type_text doc_read = refl

op_type_matches-rule_type_text :
    (label : JsString) (type : RuleType)
    → op_type_matches label type ≡ true
    → label ≡ rule_type_text type
unfolding op_type_matches
op_type_matches-rule_type_text label type passed = elim (str_dec label (rule_type_text type)) [
  | yes e ↦ e
  | no n ↦ absurd (ground (arith, n, passed))
]

-- A signed label that is accepted for a derived type is one that the rules read as that type.
pub op_type_matches-rule_type_of :
    (label : JsString) (type : RuleType)
    → op_type_matches label type ≡ true
    → rule_type_of label ≡ some type
op_type_matches-rule_type_of label type passed =
    ap rule_type_of (op_type_matches-rule_type_text label type passed)
    ∙ rule_type_of-rule_type_text type
