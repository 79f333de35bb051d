-- ===== src/Guard/Heads.antt =====
-- What `snapshotHeadsMatch` decides: equality as sets, of decoded heads that do not repeat.
use mindoo_db.Base.{
  suc, ◌+◌, ◌≤◌, ◌≡◌, ◌↔◌, refl, sym, ◌∙◌, true, false, ◌||◌, Option, List, [], ◌∷◌, ◌++◌, JsString,
  str_dec, foldl, or_else, arith, Bool-cases, inl, inr, length, length-append, has, add, all,
  has-add, has-append, Distinct,
}
use mindoo_db.Guard.{set_of, snapshot_heads_match}
use mindoo_db.Base.Subset.{Within, length-Within, Within-flip}

all-Within : (xs ys : List JsString) → all (λ a. has str_dec a ys) xs ≡ true → Within xs ys
all-Within [] ys h a g = cc
all-Within (x ∷ xs) ys h a g =
    let rest : Within xs ys = all-Within xs ys (ground (arith, h)) in ground (arith, h, g, rest a)

Within-all : (xs ys : List JsString) → Within xs ys → all (λ a. has str_dec a ys) xs ≡ true
Within-all [] ys w = refl
Within-all (x ∷ xs) ys w = ground (arith, w x, Within-all xs ys (λ a h. w a (ground (arith, h))))

length-add : (x : JsString) (seen : List JsString) → length (add str_dec x seen) ≤ suc (length seen)
length-add x seen = ground (arith, length-append seen (x ∷ []))

length-foldl-add :
    (xs seen : List JsString)
    → length (foldl (λ s x. add str_dec x s) seen xs) ≤ length seen + length xs
length-foldl-add [] seen = omega arith
length-foldl-add (x ∷ xs) seen =
    omega (arith, length-foldl-add xs (add str_dec x seen), length-add x seen)

has-foldl-add :
    (b : JsString) (xs seen : List JsString)
    → has str_dec b (foldl (λ s x. add str_dec x s) seen xs)
      ≡ (has str_dec b seen || has str_dec b xs)
has-foldl-add b [] seen = ground arith
has-foldl-add b (x ∷ xs) seen =
    ground (arith, has-foldl-add b xs (add str_dec x seen), has-add str_dec x b seen)

abbrev Apart : List JsString → List JsString → Type 0
Apart seen xs = (a : JsString) → has str_dec a xs ≡ true → has str_dec a seen ≡ false

full-Distinct :
    (xs seen : List JsString)
    → length (foldl (λ s x. add str_dec x s) seen xs) ≡ length seen + length xs
    → Distinct str_dec xs × Apart seen xs
full-Distinct [] seen h = (tt, λ a g. cc)
full-Distinct (x ∷ xs) seen h = elim (Bool-cases (has str_dec x seen)) [
  | inl member ↦
      let same : add str_dec x seen ≡ seen = ground (arith, member) in
      absurd (omega (arith, length-foldl-add xs seen, rw (same) at h))
  | inr fresh ↦
      let longer : add str_dec x seen ≡ seen ++ (x ∷ []) = ground (arith, fresh) in
      let (d, apart) =
        full-Distinct xs (seen ++ (x ∷ []))
          (omega (arith, rw (longer) at h, length-append seen (x ∷ []))) in
      let new : has str_dec x xs ≡ false =
        ground (arith, apart x, has-append str_dec x seen (x ∷ [])) in
      ((new, d), λ a g. ground (arith, g, fresh, apart a, has-append str_dec a seen (x ∷ [])))
]

Distinct-full :
    (xs seen : List JsString)
    → Distinct str_dec xs
    → Apart seen xs
    → length (foldl (λ s x. add str_dec x s) seen xs) ≡ length seen + length xs
Distinct-full [] seen d apart = omega arith
Distinct-full (x ∷ xs) seen d apart =
    let fresh : has str_dec x seen ≡ false = ground (arith, apart x) in
    let longer : add str_dec x seen ≡ seen ++ (x ∷ []) = ground (arith, fresh) in
    let rest : Apart (seen ++ (x ∷ [])) xs =
      λ a g. ground (arith, g, d.0, apart a, has-append str_dec a seen (x ∷ [])) in
    rw (longer)
      (omega (arith, Distinct-full xs (seen ++ (x ∷ [])) d.1 rest, length-append seen (x ∷ [])))

-- A snapshot whose decoded heads do not repeat passes exactly when the declared heads do not
-- repeat either and are the same set.
pub snapshot_heads_match-Distinct :
    (decoded : List JsString) (declared_heads : Option (List JsString))
    → Distinct str_dec decoded
    → (snapshot_heads_match decoded declared_heads ≡ true) ↔ (
        Distinct str_dec (or_else declared_heads [])
        × ((a : JsString) → has str_dec a decoded ≡ has str_dec a (or_else declared_heads [])))
unfolding snapshot_heads_match
snapshot_heads_match-Distinct decoded declared_heads d =
    let declared = or_else declared_heads [] in
    let declared_set = set_of declared in
    let same_has : (a : JsString) → has str_dec a declared_set ≡ has str_dec a declared =
      λ a. has-foldl-add a declared [] in
    (
      λ passed.
          let short : length decoded ≡ length declared = ground (arith, passed) in
          let full : length declared_set ≡ length declared = ground (arith, passed) in
          let covered : all (λ head. has str_dec head declared_set) decoded ≡ true =
            ground (arith, passed) in
          let within : Within decoded declared =
            λ a g. sym (same_has a) ∙ all-Within decoded declared_set covered a g in
          let back : Within declared decoded =
            λ a g. Within-flip decoded declared a d within short g in
          (
            (full-Distinct declared [] (full ∙ (omega arith))).0,
            λ a. ground (arith, within a, back a),
          ),
      λ equal.
          let there : Within decoded declared = λ a g. sym (equal.1 a) ∙ g in
          let back : Within declared decoded = λ a g. equal.1 a ∙ g in
          let short : length decoded ≡ length declared = omega (
            arith,
            length-Within decoded declared d there,
            length-Within declared decoded equal.0 back,
          ) in
          let full : length declared_set ≡ length declared =
            Distinct-full declared [] equal.0 (λ a g. refl) ∙ (omega arith) in
          let covered : all (λ head. has str_dec head declared_set) decoded ≡ true =
            Within-all decoded declared_set (λ a g. same_has a ∙ there a g) in
          ground (arith, short, full, covered),
    )
