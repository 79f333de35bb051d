-- ===== src/Base/Sort/Members.antt =====
-- What a sort keeps of the elements.
use mathlib.Core.Path.{◌≡◌, refl, ◌∙◌}
use mathlib.Core.Bool.{Bool}
use mathlib.Core.List.{List, [], ◌∷◌, map}
use native.Mathlib.Omega.{arith}
use mindoo_db.Base.Lists.{All, has, Distinct}
use mindoo_db.Base.Sort.{insert, sort}

module _ {A : Type 0} (lt : A → A → Bool) where
  All-insert_back : (P : A → Type 0) (x : A) (xs : List A) → All P (insert lt x xs) → P x × All P xs
  unfolding insert
  All-insert_back P x [] h = h
  All-insert_back P x (y ∷ ys) h = ground (arith, All-insert_back P x ys)

  pub All-sort_back : (P : A → Type 0) (xs : List A) → All P (sort lt xs) → All P xs
  unfolding sort
  All-sort_back P [] h = tt
  All-sort_back P (x ∷ xs) h =
      let (head, rest) = All-insert_back P x (sort lt xs) h in (head, All-sort_back P xs rest)

  -- The names of the elements.
  module _ {K : Type 0} (dec : Discrete K) (name : A → K) where
    has-insert :
        (a : K) (x : A) (xs : List A)
        → has dec a (map name (insert lt x xs)) ≡ has dec a (name x ∷ map name xs)
    unfolding insert
    has-insert a x [] = refl
    has-insert a x (y ∷ ys) = ground (arith, has-insert a x ys)

    pub has-sort :
        (a : K) (xs : List A) → has dec a (map name (sort lt xs)) ≡ has dec a (map name xs)
    unfolding sort
    has-sort a [] = refl
    has-sort a (x ∷ xs) = has-insert a x (sort lt xs) ∙ ground (arith, has-sort a xs)

    Distinct-insert :
        (x : A) (xs : List A)
        → Distinct dec (name x ∷ map name xs)
        → Distinct dec (map name (insert lt x xs))
    unfolding insert
    Distinct-insert x [] d = d
    Distinct-insert x (y ∷ ys) d = ground (arith, Distinct-insert x ys, has-insert (name y) x ys)

    pub Distinct-sort :
        (xs : List A) → Distinct dec (map name xs) → Distinct dec (map name (sort lt xs))
    unfolding sort
    Distinct-sort [] d = tt
    Distinct-sort (x ∷ xs) d =
        Distinct-insert x (sort lt xs) (rw (has-sort (name x) xs) d.0, Distinct-sort xs d.1)
