-- ===== src/JsValue.antt =====
-- The values of documents: what `Record<string, unknown>` holds, with the tests that the source makes
-- on them. Numbers are a parameter. A field that is missing reads as `undefined`.
use mindoo_db.Base.{
  ◌≡◌, refl, Bool, Option, some, none, List, [], ◌∷◌, JsString, str_dec, ite, arith,
}

mutual
  pub data JsValue (Num : Type 0) : Type 0 where
    undefined null : JsValue Num
    boolean : Bool → JsValue Num
    number : Num → JsValue Num
    text : JsString → JsValue Num
    array : Items Num → JsValue Num
    object : Fields Num → JsValue Num

  pub data Items (Num : Type 0) : Type 0 where
    nil : Items Num
    cons : JsValue Num → Items Num → Items Num

  pub data Fields (Num : Type 0) : Type 0 where
    end : Fields Num
    field : JsString → JsValue Num → Fields Num → Fields Num

-- `typeof v === "string" && v.length > 0`, of a string.
abbrev pub nonempty : JsString → Option JsString
nonempty [] = none
nonempty (c ∷ cs) = some (c ∷ cs)

module _ {Num : Type 0} where
  unfoldable pub items : List (JsValue Num) → Items Num
  items [] = nil
  items (v ∷ vs) = cons v (items vs)

  unfoldable pub elements : Items Num → List (JsValue Num)
  elements nil = []
  elements (cons v vs) = v ∷ elements vs

  pub elements-items : (vs : List (JsValue Num)) → elements (items vs) ≡ vs
  unfolding elements items
  elements-items [] = refl
  elements-items (v ∷ vs) = ground (arith, elements-items vs)

  -- `fields[key]`
  unfoldable pub get_field : JsString → Fields Num → JsValue Num
  get_field key end = undefined
  get_field key (field k v fs) = ite (str_dec key k) v (get_field key fs)

  -- `fields[key] = v`
  unfoldable pub set_field : JsString → JsValue Num → Fields Num → Fields Num
  set_field key v end = field key v end
  set_field key v (field k w fs) =
      ite (str_dec key k) (field key v fs) (field k w (set_field key v fs))

  pub get_field-set_field :
      (q k : JsString) (v : JsValue Num) (fs : Fields Num)
      → get_field q (set_field k v fs) ≡ ite (str_dec q k) v (get_field q fs)
  unfolding get_field set_field
  get_field-set_field q k v end = refl
  get_field-set_field q k v (field j w fs) = ground (arith, get_field-set_field q k v fs)

  abbrev pub as_scalar_string : JsValue Num → Option JsString
  as_scalar_string (text s) = nonempty s
  as_scalar_string undefined = none
  as_scalar_string null = none
  as_scalar_string (boolean b) = none
  as_scalar_string (number n) = none
  as_scalar_string (array vs) = none
  as_scalar_string (object fs) = none

  -- `typeof v === "string"`
  abbrev pub as_text : JsValue Num → Option JsString
  as_text (text s) = some s
  as_text undefined = none
  as_text null = none
  as_text (boolean b) = none
  as_text (number n) = none
  as_text (array vs) = none
  as_text (object fs) = none

  -- `typeof v === "number"`
  abbrev pub as_number : JsValue Num → Option Num
  as_number (number n) = some n
  as_number undefined = none
  as_number null = none
  as_number (boolean b) = none
  as_number (text s) = none
  as_number (array vs) = none
  as_number (object fs) = none

  -- `typeof v === "boolean"`
  abbrev pub as_boolean : JsValue Num → Option Bool
  as_boolean (boolean b) = some b
  as_boolean undefined = none
  as_boolean null = none
  as_boolean (number n) = none
  as_boolean (text s) = none
  as_boolean (array vs) = none
  as_boolean (object fs) = none

  -- `Array.isArray(v)`
  abbrev pub as_array : JsValue Num → Option (List (JsValue Num))
  unfolding elements
  as_array (array vs) = some (elements vs)
  as_array undefined = none
  as_array null = none
  as_array (boolean b) = none
  as_array (number n) = none
  as_array (text s) = none
  as_array (object fs) = none

  -- `v && typeof v === "object"`: an array too, of which the named fields read as undefined.
  abbrev pub as_object : JsValue Num → Option (Fields Num)
  as_object (object fs) = some fs
  as_object (array vs) = some end
  as_object undefined = none
  as_object null = none
  as_object (boolean b) = none
  as_object (number n) = none
  as_object (text s) = none
