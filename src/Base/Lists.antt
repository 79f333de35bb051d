-- ===== src/Base/Lists.antt =====
-- Lists measured by native numbers, and membership and filtering by Boolean tests.
use Prim.Native.Nat.{ℕ, zero, suc, ◌+◌}
use mathlib.Core.Path.{◌≡◌, refl, ap}
use mathlib.Core.Logic.{ite}
use mathlib.Core.Bool.{Bool, true, false, ◌||◌, ◌&&◌}
use mathlib.Core.List.{List, [], ◌∷◌, ◌++◌}
use mathlib.Core.Option.{Option, none, some}
use native.Mathlib.Omega.{arith}
use mindoo_db.Base.Tests.{if◌then◌else◌}

module _ {ℓ} {A : Type ℓ} where
  abbrev pub length : List A → ℕ
  length [] = 0
  length (x ∷ xs) = suc (length xs)

  abbrev pub get_elem? : List A → ℕ → Option A
  get_elem? [] i = none
  get_elem? (x ∷ xs) zero = some x
  get_elem? (x ∷ xs) (suc i) = get_elem? xs i

  abbrev pub take : ℕ → List A → List A
  take zero xs = []
  take (suc n) [] = []
  take (suc n) (x ∷ xs) = x ∷ take n xs

  abbrev pub drop : ℕ → List A → List A
  drop zero xs = xs
  drop (suc n) [] = []
  drop (suc n) (x ∷ xs) = drop n xs

  pub length-append : (xs ys : List A) → length (xs ++ ys) ≡ length xs + length ys
  length-append [] ys = omega arith
  length-append (x ∷ xs) ys = omega (arith, length-append xs ys)

  pub take-nil : (n : ℕ) → take n [] ≡ []
  take-nil zero = refl
  take-nil (suc n) = refl

  pub drop-nil : (n : ℕ) → drop n [] ≡ []
  drop-nil zero = refl
  drop-nil (suc n) = refl

  pub append_nil : (xs : List A) → xs ++ [] ≡ xs
  append_nil [] = refl
  append_nil (x ∷ xs) = ap (◌∷◌ x) (append_nil xs)

  pub append_assoc : (xs ys zs : List A) → (xs ++ ys) ++ zs ≡ xs ++ (ys ++ zs)
  append_assoc [] ys zs = refl
  append_assoc (x ∷ xs) ys zs = ap (◌∷◌ x) (append_assoc xs ys zs)

  -- `Array.prototype.filter` with a Boolean test.
  abbrev pub filterb : (A → Bool) → List A → List A
  filterb p [] = []
  filterb p (x ∷ xs) = if p x then x ∷ filterb p xs else filterb p xs

  -- `Array.prototype.some` and `every`.
  abbrev pub any : (A → Bool) → List A → Bool
  any p [] = false
  any p (x ∷ xs) = p x || any p xs

  abbrev pub all : (A → Bool) → List A → Bool
  all p [] = true
  all p (x ∷ xs) = p x && all p xs

  -- A predicate at every element.
  abbrev pub All {κ} : (A → Type κ) → List A → Type κ
  All P [] = Unit
  All P (x ∷ xs) = P x × All P xs

  -- The last element, `a[a.length - 1]`.
  abbrev pub last? : List A → Option A
  last? [] = none
  last? (x ∷ []) = some x
  last? (x ∷ y ∷ ys) = last? (y ∷ ys)

  pub filterb-append :
      (p : A → Bool) (xs ys : List A) → filterb p (xs ++ ys) ≡ filterb p xs ++ filterb p ys
  filterb-append p [] ys = refl
  filterb-append p (x ∷ xs) ys = ground (arith, filterb-append p xs ys)

  pub any-append : (p : A → Bool) (xs ys : List A) → any p (xs ++ ys) ≡ (any p xs || any p ys)
  any-append p [] ys = refl
  any-append p (x ∷ xs) ys = ground (arith, any-append p xs ys)

-- `includes` of an array and `has` of a set: membership by a decision on the elements.
module _ {ℓ} {A : Type ℓ} (dec : Discrete A) where
  abbrev pub has : A → List A → Bool
  has a [] = false
  has a (x ∷ xs) = ite (dec a x) true (has a xs)

  -- `Set.add`: a member is not added again, and a new one comes last in iteration order.
  abbrev pub add : A → List A → List A
  add a xs = if has a xs then xs else xs ++ (a ∷ [])

  -- The list has no repeated element.
  abbrev pub Distinct : List A → Type 0
  Distinct [] = Unit {0}
  Distinct (x ∷ xs) = (has x xs ≡ false) × Distinct xs

  pub has-append : (a : A) (xs ys : List A) → has a (xs ++ ys) ≡ (has a xs || has a ys)
  has-append a [] ys = refl
  has-append a (x ∷ xs) ys = ground (arith, has-append a xs ys)

  pub has-add : (a b : A) (xs : List A) → has b (add a xs) ≡ (ite (dec b a) true (has b xs))
  has-add a b xs = ground (arith, has-append b xs (a ∷ []))

  pub append-Distinct :
      (xs : List A) (a : A) → Distinct xs → has a xs ≡ false → Distinct (xs ++ (a ∷ []))
  append-Distinct [] a d h = (refl, tt)
  append-Distinct (x ∷ xs) a d h =
      ground (arith, append-Distinct xs a d.1, has-append x xs (a ∷ []))

  -- A list joined of two repeats nothing exactly if neither does and they share nothing.
  pub Distinct-apart :
      (xs ys : List A) → Distinct (xs ++ ys) → (k : A) → has k xs ≡ true → has k ys ≡ false
  Distinct-apart [] ys d k h = absurd (ground arith)
  Distinct-apart (x ∷ xs) ys d k h = elim (dec k x) [
    | yes e ↦ ground (arith, d.0, has-append x xs ys, e)
    | no n ↦ ground (arith, Distinct-apart xs ys d.1 k, h, n)
  ]

  pub apart-Distinct :
      (xs ys : List A)
      → Distinct xs
      → Distinct ys
      → ((k : A) → has k xs ≡ true → has k ys ≡ false)
      → Distinct (xs ++ ys)
  apart-Distinct [] ys d e apart = e
  apart-Distinct (x ∷ xs) ys d e apart = (
    ground (arith, d.0, has-append x xs ys, apart x),
    apart-Distinct xs ys d.1 e (λ k h. apart k (ground (arith, h))),
  )

  pub Distinct-behind : (xs ys : List A) → Distinct (xs ++ ys) → Distinct ys
  Distinct-behind [] ys d = d
  Distinct-behind (x ∷ xs) ys d = Distinct-behind xs ys d.1

  -- What stands behind in a list without repetition does not stand before.
  pub has-middle : (k : A) (xs ys : List A) → Distinct (xs ++ (k ∷ ys)) → has k xs ≡ false
  has-middle k [] ys d = refl
  has-middle k (x ∷ xs) ys d = ground (arith, d, has-append x xs (k ∷ ys), has-middle k xs ys)
