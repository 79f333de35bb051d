-- ===== src/Access/Values.antt =====
-- The clause tests of src/core/accesscontrol/evaluate.ts. Document values are JavaScript values
-- that the Automerge library hands out, so they enter by an interface: what `typeof` and
-- `Array.isArray` tell of a value, property access, and the comparisons of numbers.
use mindoo_db.Base.{
  Bool, true, false, not, ◌&&◌, ◌||◌, Option, some, none, List, [], ◌∷◌, JsString, str_dec, ite,
  any, all, is_some, if◌then◌else◌, map, ◌++◌, ◌==◌,
}
use mindoo_db.Access.{
  RuleType, doc_create, Operator, equals, not_equals, contains, contains_any, contains_all, exists,
  not_exists, gt, gte, lt, lte, WithFieldWhen, before, after, ClauseValue, string, number, boolean,
  strings, WithFieldClause,
}

-- The shape of a value, as `typeof`, `=== null` and `Array.isArray` tell it.
pub data View (Num V : Type 0) : Type 0 where
  null : View Num V
  bool : Bool → View Num V
  num : Num → View Num V
  text : JsString → View Num V
  array : List V → View Num V
  object : View Num V

pub record Values : Type 1 where
  pub Num : Type 0
  -- `===`, and the equality of `includes`, which differ at NaN.
  pub num_eq : Num → Num → Bool
  pub num_same : Num → Num → Bool
  pub num_lt : Num → Num → Bool
  pub num_le : Num → Num → Bool
  pub Value : Type 0
  pub view : Value → View Num Value
  -- `value[key]` of an object or array, `none` for `undefined`.
  pub property : Value → JsString → Option Value

pub record IdentitySet : Type 0 where
  pub username : JsString
  pub usernames : List JsString
  pub groups : List JsString
  pub hashes : List JsString

-- The code units of the three placeholders, `${user.username}` and so on.
abbrev pub placeholder_username : JsString
placeholder_username =
    b'$' ∷ b'{' ∷ b'u' ∷ b's' ∷ b'e' ∷ b'r' ∷ b'.' ∷ b'u' ∷ b's' ∷ b'e' ∷ b'r' ∷ b'n' ∷ b'a' ∷ b'm'
    ∷ b'e' ∷ b'}' ∷ []

abbrev pub placeholder_usernames : JsString
placeholder_usernames =
    b'$' ∷ b'{' ∷ b'u' ∷ b's' ∷ b'e' ∷ b'r' ∷ b'.' ∷ b'u' ∷ b's' ∷ b'e' ∷ b'r' ∷ b'n' ∷ b'a' ∷ b'm'
    ∷ b'e' ∷ b's' ∷ b'}' ∷ []

abbrev pub placeholder_groups : JsString
placeholder_groups =
    b'$' ∷ b'{' ∷ b'u' ∷ b's' ∷ b'e' ∷ b'r' ∷ b'.' ∷ b'g' ∷ b'r' ∷ b'o' ∷ b'u' ∷ b'p' ∷ b's' ∷ b'}'
    ∷ []

-- `key.split(".")`, with the part that is being read.
unfoldable pub split_dots : JsString → JsString → List JsString
split_dots part [] = part ∷ []
split_dots part (c ∷ cs) =
    if c == b'.' then part ∷ split_dots [] cs else split_dots (part ++ (c ∷ [])) cs

-- `text.startsWith(prefix)` and `text.includes(part)`.
unfoldable pub starts_with : JsString → JsString → Bool
starts_with [] cs = true
starts_with (x ∷ xs) [] = false
starts_with (x ∷ xs) (c ∷ cs) = x == c && starts_with xs cs

unfoldable pub includes : JsString → JsString → Bool
unfolding starts_with
includes part [] = starts_with part []
includes part (c ∷ cs) = starts_with part (c ∷ cs) || includes part cs

unfoldable pub default_when_for_op : RuleType → WithFieldWhen
default_when_for_op doc_create = after
default_when_for_op _ = before

module _ (V : Values) where
  open V use {Num, num_eq, num_same, num_lt, num_le, Value, view, property}

  pub record Resolved : Type 0 where
    pub scalar : Option (ClauseValue Num)
    pub list : Option (List JsString)

  unfoldable pub resolve_value : ClauseValue Num → IdentitySet → Resolved
  resolve_value (string s) i =
      ite (str_dec s placeholder_username)
        (record { scalar = some (string i.username); list = some (i.username ∷ []) })
        (ite (str_dec s placeholder_usernames) (record { scalar = none; list = some i.usernames })
          (ite (str_dec s placeholder_groups) (record { scalar = none; list = some i.groups })
            (record { scalar = some (string s); list = none })))
  resolve_value (strings l) i = record { scalar = none; list = some l }
  resolve_value v i = record { scalar = some v; list = none }

  -- The rest of a dot-path below a value; only objects and arrays have properties.
  unfoldable pub read_parts : Option Value → List JsString → Option Value
  read_parts cur [] = cur
  read_parts none (p ∷ ps) = none
  read_parts (some v) (p ∷ ps) = elim (view v) [
    | array _ ↦ read_parts (property v p) ps
    | object ↦ read_parts (property v p) ps
    | _ ↦ none
  ]

  unfoldable pub read_path : Option Value → JsString → Option Value
  unfolding read_parts split_dots
  read_path none key = none
  read_path (some doc) key = read_parts (some doc) (split_dots [] key)

  -- `docValue === scalar`, and the test of `includes`, by the equality of numbers.
  abbrev pub equal_by : (Num → Num → Bool) → Value → ClauseValue Num → Bool
  equal_by eq v (string s) = elim (view v) [ text t ↦ ite (str_dec t s) true false | _ ↦ false ]
  equal_by eq v (number n) = elim (view v) [ num k ↦ eq k n | _ ↦ false ]
  equal_by eq v (boolean b) = elim (view v) [ bool c ↦ if b then c else not c | _ ↦ false ]
  equal_by eq v (strings l) = false

  abbrev pub doc_value_equals : Option Value → ClauseValue Num → Bool
  doc_value_equals none s = false
  doc_value_equals (some v) s = equal_by num_eq v s

  unfoldable pub contains_value : Option Value → ClauseValue Num → Bool
  contains_value none s = false
  contains_value (some v) s = elim (view v) [
    | array vs ↦ any (λ w. equal_by num_same w s) vs
    | text t ↦ elim s [ string n ↦ includes n t | _ ↦ false ]
    | _ ↦ false
  ]

  -- The needles of `containsAny` and `containsAll`.
  abbrev pub needles : Resolved → List (ClauseValue Num)
  needles r = elim r.list [
    | some l ↦ map string l
    | none ↦ elim r.scalar [ some s ↦ s ∷ [] | none ↦ [] ]
  ]

  abbrev pub array_of : Option Value → Option (List Value)
  array_of none = none
  array_of (some v) = elim (view v) [ array vs ↦ some vs | _ ↦ none ]

  abbrev pub number_of : Option Value → Option Num
  number_of none = none
  number_of (some v) = elim (view v) [ num n ↦ some n | _ ↦ none ]

  abbrev pub scalar_number : Option (ClauseValue Num) → Option Num
  scalar_number none = none
  scalar_number (some (number n)) = some n
  scalar_number (some _) = none

  abbrev pub compare_numbers : (Num → Num → Bool) → Option Num → Option Num → Bool
  compare_numbers test none b = false
  compare_numbers test (some a) none = false
  compare_numbers test (some a) (some b) = test a b

  -- `evaluateClause`
  unfoldable pub evaluate_operator : Operator → Option Value → Resolved → Bool
  evaluate_operator exists v r = is_some v
  evaluate_operator not_exists v r = not (is_some v)
  evaluate_operator equals v r = elim r.scalar [ none ↦ false | some s ↦ doc_value_equals v s ]
  evaluate_operator not_equals v r = elim r.scalar [
    | none ↦ true
    | some s ↦ not (doc_value_equals v s)
  ]
  evaluate_operator contains v r = elim r.scalar [ none ↦ false | some s ↦ contains_value v s ]
  evaluate_operator contains_any v r = elim (array_of v) [
    | none ↦ false
    | some vs ↦ any (λ s. any (λ w. equal_by num_same w s) vs) (needles r)
  ]
  evaluate_operator contains_all v r = elim (array_of v) [
    | none ↦ false
    | some vs ↦ all (λ s. any (λ w. equal_by num_same w s) vs) (needles r)
  ]
  evaluate_operator gt v r =
      compare_numbers (λ a b. num_lt b a) (number_of v) (scalar_number r.scalar)
  evaluate_operator gte v r =
      compare_numbers (λ a b. num_le b a) (number_of v) (scalar_number r.scalar)
  evaluate_operator lt v r = compare_numbers num_lt (number_of v) (scalar_number r.scalar)
  evaluate_operator lte v r = compare_numbers num_le (number_of v) (scalar_number r.scalar)

  unfoldable pub evaluate_clause : WithFieldClause Num → Option Value → IdentitySet → Bool
  unfolding evaluate_operator read_path resolve_value
  evaluate_clause c doc i = evaluate_operator c.op (read_path doc c.key) (resolve_value c.value i)
