-- ===== src/Store/Feed/Search.antt =====
-- The binary search of the cursor scan ends, at the first entry after the cursor.
use mindoo_db.Base.{
  ℕ, zero, suc, ◌+◌, ◌*◌, ◌^◌, ◌≤◌, ◌<◌, ◌≡◌, refl, sym, ap, Bool, true, false, not, some, List, [],
  ◌∷◌, ltb, length, get_elem?, drop, filterb, arith, Bool-cases, inl, inr, ℕ_discrete,
}
use mindoo_db.Base.Sort.{Increasing, Increasing-lt}
use mindoo_db.Entry.{StoreEntryMetadata, StoreScanCursor, order_of}
use mindoo_db.Scan.{is_after_scan_cursor}
use mindoo_db.Store.Feed.{not_after, middle, search_loop, binary_search_after_cursor}

-- The test of the search is the negation of the scan's cursor test.
not_after_lem :
    (m : StoreEntryMetadata) (c : StoreScanCursor) → is_after_scan_cursor m c ≡ not (not_after m c)
unfolding not_after is_after_scan_cursor
not_after_lem m c = ground arith

get_elem?-in_range {ℓ} :
    {A : Type ℓ} (xs : List A) (i : ℕ) → i < length xs → (a : A) × (get_elem? xs i ≡ some a)
get_elem?-in_range [] i h = absurd (omega arith)
get_elem?-in_range (x ∷ xs) zero h = (x, refl)
get_elem?-in_range (x ∷ xs) (suc i) h = get_elem?-in_range xs i (omega arith)

get_elem?-out_of_range {ℓ} :
    {A : Type ℓ} (xs : List A) (i : ℕ) (a : A) → length xs ≤ i → ¬ (get_elem? xs i ≡ some a)
get_elem?-out_of_range [] i a h = λ g. cc
get_elem?-out_of_range (x ∷ xs) zero a h = absurd (omega arith)
get_elem?-out_of_range (x ∷ xs) (suc i) a h = get_elem?-out_of_range xs i a (omega arith)

module _ (sorted : List StoreEntryMetadata) (c : StoreScanCursor) where
  -- Where the entries after the cursor begin.
  record IsBound (n : ℕ) : Type 0 where
    below :
        (i : ℕ) (m : StoreEntryMetadata)
        → i < n
        → get_elem? sorted i ≡ some m
        → not_after m c ≡ true
    above :
        (i : ℕ) (m : StoreEntryMetadata)
        → n ≤ i
        → get_elem? sorted i ≡ some m
        → not_after m c ≡ false

  -- An entry with a smaller receipt order than one not after the cursor is not after it either.
  not_after_mono :
      (a b : StoreEntryMetadata)
      → order_of a < order_of b
      → not_after b c ≡ true
      → not_after a c ≡ true
  unfolding not_after
  not_after_mono a b h n = ground arith

  search_loop_finds :
      (fuel lo hi : ℕ)
      → Increasing order_of sorted
      → 2 * length sorted < 2 ^ 32
      → lo ≤ hi
      → hi ≤ length sorted
      → hi < fuel + lo
      → ((i : ℕ) (m : StoreEntryMetadata)
          → i < lo
          → get_elem? sorted i ≡ some m
          → not_after m c ≡ true)
      → ((i : ℕ) (m : StoreEntryMetadata)
          → hi ≤ i
          → get_elem? sorted i ≡ some m
          → not_after m c ≡ false)
      → (n : ℕ) × (search_loop fuel sorted c lo hi ≡ some n) × IsBound n
  unfolding search_loop
  search_loop_finds zero lo hi inc small le top f below above = absurd (omega arith)
  search_loop_finds (suc fuel) lo hi inc small le top f below above =
      elim (Bool-cases (ltb lo hi)) [
        | inr done ↦ (
          lo,
          rw (done, search_loop),
          record { below = below; above = λ i m h g. above i m (ground arith) g },
        )
        | inl more ↦
            let mid = middle lo hi in
            let lo_le : lo ≤ mid = ground arith in
            let lt_hi : mid < hi = ground arith in
            let (m, at) = get_elem?-in_range sorted mid (omega arith) in
            elim (Bool-cases (not_after m c)) [
              | inl early ↦
                  rw (more, at, early, search_loop)
                    (search_loop_finds fuel (mid + 1) hi inc small (omega arith) top (omega arith)
                      (λ i a h g. left mid m at early i a h g) above)
              | inr late ↦
                  rw (more, at, late, search_loop)
                    (search_loop_finds fuel lo mid inc small lo_le (omega arith) (omega arith) below
                      (λ i a h g. right mid m at late i a h g))
            ]
      ]
    where
      left :
          (mid : ℕ) (m : StoreEntryMetadata)
          → get_elem? sorted mid ≡ some m
          → not_after m c ≡ true
          → (i : ℕ) (a : StoreEntryMetadata) → i < mid + 1
          → get_elem? sorted i ≡ some a
          → not_after a c ≡ true
      left mid m at early i a h g = elim (ℕ_discrete i mid) [
        | yes e ↦ ground arith
        | no ne ↦
            not_after_mono a m (Increasing-lt order_of sorted i mid a m inc (omega arith) g at)
              early
      ]

      right :
          (mid : ℕ) (m : StoreEntryMetadata)
          → get_elem? sorted mid ≡ some m
          → not_after m c ≡ false
          → (i : ℕ) (a : StoreEntryMetadata) → mid ≤ i
          → get_elem? sorted i ≡ some a
          → not_after a c ≡ false
      right mid m at late i a h g = elim (ℕ_discrete i mid) [
        | yes e ↦ ground arith
        | no ne ↦ ground (
          arith,
          not_after_mono m a (Increasing-lt order_of sorted mid i m a inc (omega arith) at g),
        )
      ]

-- Where a test is false on a prefix of `n` and true after it, it keeps what is after the prefix.
filterb-drop {ℓ} :
    {A : Type ℓ} (p : A → Bool) (xs : List A) (n : ℕ)
    → ((i : ℕ) (a : A) → i < n → get_elem? xs i ≡ some a → p a ≡ false)
    → ((i : ℕ) (a : A) → n ≤ i → get_elem? xs i ≡ some a → p a ≡ true)
    → filterb p xs ≡ drop n xs
filterb-drop p [] zero below above = refl
filterb-drop p [] (suc n) below above = refl
filterb-drop p (x ∷ xs) zero below above = rw (above 0 x (omega arith) refl) (
    ap (◌∷◌ x) (
      filterb-drop p xs zero (λ i a h. absurd (omega arith))
        (λ i a h. above (suc i) a (omega arith))))
filterb-drop p (x ∷ xs) (suc n) below above = rw (below 0 x (omega arith) refl) (
    filterb-drop p xs n (λ i a h. below (suc i) a (omega arith))
      (λ i a h. above (suc i) a (omega arith)))

-- On entries of increasing receipt order, fewer than 2^31, the search ends; what lies from its
-- index on is what comes after the cursor.
pub binary_search-drop :
    (sorted : List StoreEntryMetadata) (c : StoreScanCursor)
    → Increasing order_of sorted
    → 2 * length sorted < 2 ^ 32
    → (n : ℕ) × (binary_search_after_cursor sorted c ≡ some n)
      × (drop n sorted ≡ filterb (λ m. is_after_scan_cursor m c) sorted)
unfolding binary_search_after_cursor
binary_search-drop sorted c inc small =
    let (n, found, bound) =
      search_loop_finds sorted c (suc (length sorted)) 0 (length sorted) inc small (omega arith)
        (omega arith) (omega arith) (λ i m h. absurd (omega arith))
        (λ i m h g. absurd (past i m h g)) in
    (
      n,
      found,
      sym (
          filterb-drop (λ m. is_after_scan_cursor m c) sorted n
            (λ i a h g. rw (not_after_lem a c, bound.below i a h g))
            (λ i a h g. rw (not_after_lem a c, bound.above i a h g))),
    )
  where
    past : (i : ℕ) (m : StoreEntryMetadata) → length sorted ≤ i → get_elem? sorted i ≡ some m → ⊥
    past i m h g = get_elem?-out_of_range sorted i m h g
