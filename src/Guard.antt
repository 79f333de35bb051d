-- ===== src/Guard.antt =====
-- src/core/accesscontrol/materializationGuard.ts: the pure checks before an entry is applied to a
-- document. Automerge heads are strings.
pub mod Heads
pub mod OpType
use mindoo_db.Base.{
  Bool, true, false, ◌&&◌, not, Option, List, [], foldl, JsString, str_dec, or_else, ◌==◌,
  if◌then◌else◌, length, has, add, all, ite, codes,
}
use mindoo_db.Access.{
  RuleType, doc_create, doc_change, doc_delete, doc_undelete, doc_snapshot, doc_read,
}

-- `new Set(xs)`
abbrev pub set_of : List JsString → List JsString
set_of xs = foldl (λ seen x. add str_dec x seen) [] xs

unfoldable pub snapshot_heads_match : List JsString → Option (List JsString) → Bool
snapshot_heads_match decoded_heads declared_heads =
    let declared = or_else declared_heads [] in
    let declared_set = set_of declared in
    if not (length decoded_heads == length declared)
    then false
    else if not (length declared_set == length declared)
    then false
    else all (λ head. has str_dec head declared_set) decoded_heads

pub record OpTypeDerivationInput : Type 0 where
  pub is_genesis : Bool
  pub before_deleted : Bool
  pub after_deleted : Bool

unfoldable pub derive_data_op_type : OpTypeDerivationInput → RuleType
derive_data_op_type input =
    if input.is_genesis
    then doc_create
    else if not input.before_deleted && input.after_deleted
    then doc_delete
    else if input.before_deleted && not input.after_deleted
    then doc_undelete
    else doc_change

-- A rule type is its text in the source.
abbrev pub rule_type_text : RuleType → JsString
rule_type_text doc_create = codes "doc_create"
rule_type_text doc_change = codes "doc_change"
rule_type_text doc_delete = codes "doc_delete"
rule_type_text doc_undelete = codes "doc_undelete"
rule_type_text doc_snapshot = codes "doc_snapshot"
rule_type_text doc_read = codes "doc_read"

unfoldable pub op_type_matches : JsString → RuleType → Bool
op_type_matches signed_entry_type derived =
    ite (str_dec signed_entry_type (rule_type_text derived)) true false
