-- ===== src/Planner/Topological/Waiting.antt =====
-- Sorting keeps the members of a list, and what is left of a list of dependencies while they are taken
-- one by one.
use mindoo_db.Base.{
  ℕ, suc, ◌+◌, ◌≡◌, refl, Bool, true, false, not, ◌&&◌, List, [], ◌∷◌, ◌++◌, JsString, str_dec,
  str_ltb, has, has-append, All, Distinct, filterb, length, arith, Bool-cases, inl, inr, ap,
}
use mindoo_db.Base.Sort.{insert, sort}
use mindoo_db.Planner.Topological.Maps.{times}

pub has-insert :
    (y x : JsString) (xs : List JsString)
    → has str_dec y (insert str_ltb x xs) ≡ has str_dec y (x ∷ xs)
unfolding insert
has-insert y x [] = refl
has-insert y x (z ∷ zs) = ground (arith, has-insert y x zs)

pub has-sort :
    (y : JsString) (xs : List JsString) → has str_dec y (sort str_ltb xs) ≡ has str_dec y xs
unfolding sort
has-sort y [] = refl
has-sort y (x ∷ xs) = ground (arith, has-sort y xs, has-insert y x (sort str_ltb xs))

pub insert-Distinct :
    (x : JsString) (xs : List JsString)
    → has str_dec x xs ≡ false
    → Distinct str_dec xs
    → Distinct str_dec (insert str_ltb x xs)
unfolding insert
insert-Distinct x [] h d = (refl, tt)
insert-Distinct x (z ∷ zs) h d = elim (Bool-cases (str_ltb z x)) [
  | inl before ↦
      rw (before, insert)
        (ground (arith, h, d.0, has-insert z x zs), insert-Distinct x zs (ground (arith, h)) d.1)
  | inr after ↦ rw (after, insert) (h, d)
]

pub sort-Distinct : (xs : List JsString) → Distinct str_dec xs → Distinct str_dec (sort str_ltb xs)
unfolding sort
sort-Distinct [] d = tt
sort-Distinct (x ∷ xs) d =
    insert-Distinct x (sort str_ltb xs) (ground (arith, d.0, has-sort x xs)) (sort-Distinct xs d.1)

pub has-filterb :
    (p : JsString → Bool) (y : JsString) (xs : List JsString)
    → has str_dec y (filterb p xs) ≡ (p y && has str_dec y xs)
has-filterb p y [] = ground arith
has-filterb p y (x ∷ xs) = elim (str_dec y x) [
  | yes e ↦ ground (arith, has-filterb p y xs, e)
  | no n ↦ ground (arith, has-filterb p y xs, n)
]

pub filterb-Distinct :
    (p : JsString → Bool) (xs : List JsString)
    → Distinct str_dec xs
    → Distinct str_dec (filterb p xs)
filterb-Distinct p [] d = tt
filterb-Distinct p (x ∷ xs) d = ground (arith, filterb-Distinct p xs d.1, has-filterb p x xs, d.0)

-- The dependencies among `xs` that were not taken yet.
abbrev pub open_among : List JsString → List JsString → ℕ
open_among done xs = length (filterb (λ d. not (has str_dec d done)) xs)

pub open_among-none : (xs : List JsString) → open_among [] xs ≡ length xs
open_among-none [] = refl
open_among-none (x ∷ xs) = ap suc (open_among-none xs)

pub open_among-step :
    (id : JsString) (done xs : List JsString)
    → has str_dec id done ≡ false
    → open_among (done ++ (id ∷ [])) xs + times id xs ≡ open_among done xs
open_among-step id done [] h = omega arith
open_among-step id done (x ∷ xs) h = elim (str_dec id x) [
  | yes e ↦ ground (arith, open_among-step id done xs h, has-append str_dec x done (id ∷ []), e, h)
  | no n ↦ ground (arith, open_among-step id done xs h, has-append str_dec x done (id ∷ []), n)
]

pub times-filterb :
    (p : JsString → Bool) (id : JsString) (xs : List JsString)
    → p id ≡ true
    → times id (filterb p xs) ≡ times id xs
times-filterb p id [] h = refl
times-filterb p id (x ∷ xs) h = elim (str_dec id x) [
  | yes e ↦ ground (arith, times-filterb p id xs h, e, h)
  | no n ↦ ground (arith, times-filterb p id xs h, n)
]

pub open_among-All :
    (done xs : List JsString) → open_among done xs ≡ 0 → All (λ d. has str_dec d done ≡ true) xs
open_among-All done [] h = tt
open_among-All done (x ∷ xs) h = ground (arith, open_among-All done xs, h)

pub open_among-taken :
    (done xs : List JsString)
    → ((d : JsString) → has str_dec d xs ≡ true → has str_dec d done ≡ true)
    → open_among done xs ≡ 0
open_among-taken done [] h = refl
open_among-taken done (x ∷ xs) h =
    ground (arith, h x, open_among-taken done xs (λ d g. h d (ground (arith, g))))
