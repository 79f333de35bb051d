-- ===== src/Base/Sort.antt =====
-- `Array.prototype.sort`: any stable sort by a consistent comparison gives the same list, so an
-- insertion sort stands for it. `lt a b` says that the comparison of `a` and `b` is negative.
pub mod Members
use Prim.Native.Nat.{ℕ, zero, suc, ◌<◌}
use mathlib.Core.Path.{◌≡◌, refl, ap, ◌∙◌}
use mathlib.Core.Logic.{inl, inr}
use mathlib.Core.Bool.{Bool, true, false}
use mathlib.Core.List.{List, [], ◌∷◌}
use mathlib.Core.Option.{some}
use native.Mathlib.Omega.{arith}
use mindoo_db.Base.Tests.{if◌then◌else◌, ltb, Bool-cases}
use mindoo_db.Base.Lists.{filterb, All, length, get_elem?}

module _ {A : Type 0} where
  unfoldable pub insert : (A → A → Bool) → A → List A → List A
  insert lt x [] = x ∷ []
  insert lt x (y ∷ ys) = if lt y x then y ∷ insert lt x ys else x ∷ y ∷ ys

  unfoldable pub sort : (A → A → Bool) → List A → List A
  sort lt [] = []
  sort lt (x ∷ xs) = insert lt x (sort lt xs)

  pub All-insert :
      (P : A → Type 0) (lt : A → A → Bool) (x : A) (xs : List A)
      → P x
      → All P xs
      → All P (insert lt x xs)
  unfolding insert
  All-insert P lt x [] h hs = (h, tt)
  All-insert P lt x (y ∷ ys) h hs = ground (arith, All-insert P lt x ys)

  pub All-sort : (P : A → Type 0) (lt : A → A → Bool) (xs : List A) → All P xs → All P (sort lt xs)
  unfolding sort
  All-sort P lt [] h = tt
  All-sort P lt (x ∷ xs) h = All-insert P lt x (sort lt xs) h.0 (All-sort P lt xs h.1)

  pub length-insert :
      (lt : A → A → Bool) (x : A) (xs : List A) → length (insert lt x xs) ≡ suc (length xs)
  unfolding insert
  length-insert lt x [] = refl
  length-insert lt x (y ∷ ys) = ground (arith, length-insert lt x ys)

  pub length-sort : (lt : A → A → Bool) (xs : List A) → length (sort lt xs) ≡ length xs
  unfolding sort
  length-sort lt [] = refl
  length-sort lt (x ∷ xs) = omega (arith, length-sort lt xs, length-insert lt x (sort lt xs))

  -- Keys by which no two elements agree.
  module _ (key : A → ℕ) where
    abbrev pub AllDiffer : List A → Type 0
    AllDiffer [] = Unit {0}
    AllDiffer (x ∷ xs) = All (λ y. ¬ (key x ≡ key y)) xs × AllDiffer xs

    abbrev pub Increasing : List A → Type 0
    Increasing [] = Unit {0}
    Increasing (x ∷ xs) = All (λ y. key x < key y) xs × Increasing xs

    abbrev pub by_key : A → A → Bool
    by_key a b = ltb (key a) (key b)

    -- A comparison that agrees with the keys wherever they differ.
    abbrev pub Refines : (A → A → Bool) → Type 0
    Refines lt = (a b : A) → ¬ (key a ≡ key b) → lt a b ≡ by_key a b

    insert-by_key :
        (lt : A → A → Bool) (x : A) (xs : List A)
        → Refines lt
        → All (λ y. ¬ (key x ≡ key y)) xs
        → insert lt x xs ≡ insert by_key x xs
    unfolding insert
    insert-by_key lt x [] r h = refl
    insert-by_key lt x (y ∷ ys) r h = ground (arith, r y x, insert-by_key lt x ys r)

    -- Where no two keys agree, every such comparison sorts alike.
    pub sort-by_key :
        (lt : A → A → Bool) (xs : List A) → Refines lt → AllDiffer xs → sort lt xs ≡ sort by_key xs
    unfolding sort
    sort-by_key lt [] r d = refl
    sort-by_key lt (x ∷ xs) r d =
        ap (insert lt x) (sort-by_key lt xs r d.1)
        ∙ insert-by_key lt x (sort by_key xs) r (All-sort _ by_key xs d.0)

    All-below :
        (n : ℕ) (x : A) (xs : List A)
        → n < key x
        → All (λ y. key x < key y) xs
        → All (λ y. n < key y) xs
    All-below n x [] h hs = tt
    All-below n x (y ∷ ys) h hs = (omega arith, All-below n x ys h hs.1)

    insert-Increasing :
        (x : A) (xs : List A)
        → All (λ y. ¬ (key x ≡ key y)) xs
        → Increasing xs
        → Increasing (insert by_key x xs)
    unfolding insert
    insert-Increasing x [] d h = (tt, tt)
    insert-Increasing x (y ∷ ys) d h = ground (
      arith,
      insert-Increasing x ys d.1 h.1,
      All-insert (λ z. key y < key z) by_key x ys,
      All-below (key x) y ys,
    )

    pub sort-Increasing : (xs : List A) → AllDiffer xs → Increasing (sort by_key xs)
    unfolding sort
    sort-Increasing [] d = tt
    sort-Increasing (x ∷ xs) d =
        insert-Increasing x (sort by_key xs) (All-sort _ by_key xs d.0) (sort-Increasing xs d.1)

    -- Of two elements of an increasing list the earlier has the smaller key.
    pub Increasing-All :
        (n : ℕ) (xs : List A) (j : ℕ) (b : A)
        → All (λ y. n < key y) xs
        → get_elem? xs j ≡ some b
        → n < key b
    Increasing-All n [] j b h g = cc
    Increasing-All n (x ∷ xs) zero b h g = ground arith
    Increasing-All n (x ∷ xs) (suc j) b h g = Increasing-All n xs j b h.1 g

    pub Increasing-lt :
        (xs : List A) (i j : ℕ) (a b : A)
        → Increasing xs
        → i < j
        → get_elem? xs i ≡ some a
        → get_elem? xs j ≡ some b
        → key a < key b
    Increasing-lt [] i j a b h l g g' = cc
    Increasing-lt (x ∷ xs) i zero a b h l g g' = absurd (omega arith)
    Increasing-lt (x ∷ xs) zero (suc j) a b h l g g' =
        ground (arith, Increasing-All (key x) xs j b h.0 g')
    Increasing-lt (x ∷ xs) (suc i) (suc j) a b h l g g' =
        Increasing-lt xs i j a b h.1 (omega arith) g g'

    filterb-insert_out :
        (p : A → Bool) (x : A) (xs : List A)
        → p x ≡ false
        → filterb p (insert by_key x xs) ≡ filterb p xs
    unfolding insert
    filterb-insert_out p x [] h = ground arith
    filterb-insert_out p x (y ∷ ys) h = ground (arith, filterb-insert_out p x ys h)

    insert-least : (x : A) (xs : List A) → All (λ y. key x < key y) xs → insert by_key x xs ≡ x ∷ xs
    unfolding insert
    insert-least x [] h = refl
    insert-least x (y ∷ ys) h = ground arith

    pub All-filterb :
        (P : A → Type 0) (p : A → Bool) (xs : List A) → All P xs → All P (filterb p xs)
    All-filterb P p [] h = tt
    All-filterb P p (x ∷ xs) h = ground (arith, All-filterb P p xs)

    insert-filterb_below :
        (p : A → Bool) (x y : A) (ys : List A)
        → key x < key y
        → All (λ z. key y < key z) ys
        → insert by_key x (filterb p ys) ≡ x ∷ filterb p ys
    insert-filterb_below p x y ys h hs =
        insert-least x (filterb p ys)
          (All-filterb (λ z. key x < key z) p ys (All-below (key x) y ys h hs))

    filterb-insert_in :
        (p : A → Bool) (x : A) (xs : List A)
        → p x ≡ true
        → All (λ y. ¬ (key x ≡ key y)) xs
        → Increasing xs
        → filterb p (insert by_key x xs) ≡ insert by_key x (filterb p xs)
    unfolding insert
    filterb-insert_in p x [] h d inc = ground arith
    filterb-insert_in p x (y ∷ ys) h d inc =
        ground (arith, filterb-insert_in p x ys h d.1 inc.1, insert-filterb_below p x y ys)

    pub AllDiffer-filterb : (p : A → Bool) (xs : List A) → AllDiffer xs → AllDiffer (filterb p xs)
    AllDiffer-filterb p [] d = tt
    AllDiffer-filterb p (x ∷ xs) d = elim (Bool-cases (p x)) [
      | inl e ↦ rw e (All-filterb _ p xs d.0, AllDiffer-filterb p xs d.1)
      | inr e ↦ rw e (AllDiffer-filterb p xs d.1)
    ]

    filterb-sort_step :
        (p : A → Bool) (x : A) (xs : List A)
        → All (λ y. ¬ (key x ≡ key y)) xs
        → Increasing xs
        → filterb p (insert by_key x xs)
          ≡ (if p x then insert by_key x (filterb p xs) else filterb p xs)
    filterb-sort_step p x xs d inc = elim (Bool-cases (p x)) [
      | inl e ↦ rw e (filterb-insert_in p x xs e d inc)
      | inr e ↦ rw e (filterb-insert_out p x xs e)
    ]

    -- Filtering and sorting commute.
    pub filterb-sort :
        (p : A → Bool) (xs : List A)
        → AllDiffer xs
        → filterb p (sort by_key xs) ≡ sort by_key (filterb p xs)
    unfolding sort
    filterb-sort p [] d = refl
    filterb-sort p (x ∷ xs) d = ground (
      arith,
      filterb-sort p xs d.1,
      filterb-sort_step p x (sort by_key xs) (All-sort _ by_key xs d.0) (sort-Increasing xs d.1),
    )
