-- ===== src/Base/Subset.antt =====
-- Lists of strings as sets: inclusion, and what the lengths say of it.
use Prim.Native.Nat.{suc, ◌≤◌}
use mathlib.Core.Path.{◌≡◌}
use mathlib.Core.Logic.{inl, inr, ite}
use mathlib.Core.Bool.{true, false}
use mathlib.Core.List.{List, [], ◌∷◌}
use native.Mathlib.Omega.{arith}
use mindoo_db.Base.Tests.{Bool-cases}
use mindoo_db.Base.Lists.{length, has, Distinct}
use mindoo_db.Base.Text.{JsString, str_dec}

-- The list without the first occurrence.
abbrev without : JsString → List JsString → List JsString
without a [] = []
without a (x ∷ xs) = ite (str_dec a x) xs (x ∷ without a xs)

length-without :
    (a : JsString) (xs : List JsString)
    → has str_dec a xs ≡ true
    → suc (length (without a xs)) ≡ length xs
length-without a [] h = cc
length-without a (x ∷ xs) h = ground (arith, length-without a xs)

has-without :
    (a b : JsString) (xs : List JsString)
    → has str_dec b xs ≡ true
    → ite (str_dec a b) true false ≡ false
    → has str_dec b (without a xs) ≡ true
has-without a b [] h ne = cc
has-without a b (x ∷ xs) h ne = ground (arith, has-without a b xs)

abbrev pub Within : List JsString → List JsString → Type 0
Within xs ys = (a : JsString) → has str_dec a xs ≡ true → has str_dec a ys ≡ true

-- A list without repetition is no longer than one that has all its elements.
pub length-Within :
    (xs ys : List JsString) → Distinct str_dec xs → Within xs ys → length xs ≤ length ys
length-Within [] ys d w = omega arith
length-Within (x ∷ xs) ys d w =
    let member : has str_dec x ys ≡ true = ground (arith, w x) in
    let rest : Within xs (without x ys) =
      λ b h. has-without x b ys (ground (arith, w b)) (ground (arith, d.0)) in
    omega (arith, length-Within xs (without x ys) d.1 rest, length-without x ys member)

-- Of the same length, it has no element less.
pub Within-flip :
    (xs ys : List JsString) (a : JsString)
    → Distinct str_dec xs
    → Within xs ys
    → length xs ≡ length ys
    → has str_dec a ys ≡ true
    → has str_dec a xs ≡ true
Within-flip xs ys a d w len h = elim (Bool-cases (has str_dec a xs)) [
  | inl member ↦ member
  | inr apart ↦
      let more : Within (a ∷ xs) ys = λ b g. ground (arith, w b, h) in
      absurd (omega (arith, length-Within (a ∷ xs) ys (apart, d) more))
]
