-- ===== src/Base/Text.antt =====
-- Strings of the source: sequences of UTF-16 code units, compared as `===` and `<` do.
use Prim.Native.Char.{code}
use Prim.Native.String.{String}
use Prim.Native.Nat.{ℕ, compare, Ordering}
use mathlib.Core.Path.{◌≡◌, refl, ap}
use mathlib.Core.Bool.{Bool, true, false}
use mathlib.Core.List.{List, [], ◌∷◌}
use mathlib.Core.Option.{Option, none, some}
use mathlib.Core.Logic.{ite}
use native.Mathlib.Omega.{arith}
use native.Mathlib.Decide.{ℕ_discrete}

abbrev pub JsString : Type 0
JsString = List ℕ

-- The code units of a literal of ASCII characters.
abbrev pub codes : String → JsString
codes String.[] = []
codes (String.◌∷◌ c s) = code c ∷ codes s

-- `===` on two optional values.
unfoldable pub option_dec {ℓ} : {A : Type ℓ} → Discrete A → Discrete (Option A)
option_dec dec none none = yes refl
option_dec dec none (some b) = no (λ p. cc)
option_dec dec (some a) none = no (λ p. cc)
option_dec dec (some a) (some b) = elim (dec a b) [
  | yes p ↦ yes (ap some p)
  | no h ↦ no (λ p. h (cc))
]

-- Two strings of one unit more, by a decision for each part.
abbrev str_dec_step :
    {x y : ℕ} {xs ys : JsString} → Dec (x ≡ y) → Dec (xs ≡ ys) → Dec (x ∷ xs ≡ y ∷ ys)
str_dec_step (yes p) (yes q) = yes (λ i. p i ∷ q i)
str_dec_step (yes p) (no h) = no (λ e. h (cc))
str_dec_step (no h) d = no (λ e. h (cc))

-- `===` on two strings.
unfoldable pub str_dec : Discrete JsString
unfolding ℕ_discrete
str_dec [] [] = yes refl
str_dec [] (y ∷ ys) = no (λ p. cc)
str_dec (x ∷ xs) [] = no (λ p. cc)
str_dec (x ∷ xs) (y ∷ ys) = str_dec_step (ℕ_discrete x y) (str_dec xs ys)

-- `a < b` on strings: by the first code unit that differs, a proper prefix first.
unfoldable pub str_ltb : JsString → JsString → Bool
str_ltb [] [] = false
str_ltb [] (y ∷ ys) = true
str_ltb (x ∷ xs) [] = false
str_ltb (x ∷ xs) (y ∷ ys) =
    let rest = str_ltb xs ys in
    elim (compare x y) [ Ordering.lt ↦ true | Ordering.gt ↦ false | Ordering.eq ↦ rest ]

pub str_ltb_irrefl : (a : JsString) → str_ltb a a ≡ false
unfolding str_ltb
str_ltb_irrefl [] = refl
str_ltb_irrefl (x ∷ xs) = ground (arith, str_ltb_irrefl xs)

pub str_ltb_asymm : (a b : JsString) → str_ltb a b ≡ true → str_ltb b a ≡ false
unfolding str_ltb
str_ltb_asymm [] [] h = refl
str_ltb_asymm [] (y ∷ ys) h = refl
str_ltb_asymm (x ∷ xs) [] h = cc
str_ltb_asymm (x ∷ xs) (y ∷ ys) h = ground (arith, str_ltb_asymm xs ys)

pub str_ltb_trans :
    (a b c : JsString) → str_ltb a b ≡ true → str_ltb b c ≡ true → str_ltb a c ≡ true
unfolding str_ltb
str_ltb_trans [] [] c h k = cc
str_ltb_trans [] (y ∷ ys) [] h k = cc
str_ltb_trans [] (y ∷ ys) (z ∷ zs) h k = refl
str_ltb_trans (x ∷ xs) [] c h k = cc
str_ltb_trans (x ∷ xs) (y ∷ ys) [] h k = cc
str_ltb_trans (x ∷ xs) (y ∷ ys) (z ∷ zs) h k = ground (arith, str_ltb_trans xs ys zs)

-- Two strings of which neither is less are equal.
pub str_ltb_total : (a b : JsString) → str_ltb a b ≡ false → str_ltb b a ≡ false → a ≡ b
unfolding str_ltb
str_ltb_total [] [] h k = refl
str_ltb_total [] (y ∷ ys) h k = cc
str_ltb_total (x ∷ xs) [] h k = cc
str_ltb_total (x ∷ xs) (y ∷ ys) h k = ground (arith, str_ltb_total xs ys)

str_ltb_test : str_ltb (1 ∷ 2 ∷ []) (1 ∷ 3 ∷ []) ≡ true
unfolding str_ltb
str_ltb_test = refl

str_dec_test : ite (str_dec (1 ∷ 2 ∷ []) (1 ∷ 2 ∷ [])) true false ≡ true
unfolding str_dec
str_dec_test = refl
