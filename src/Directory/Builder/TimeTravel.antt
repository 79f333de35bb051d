-- ===== src/Directory/Builder/TimeTravel.antt =====
-- The chain at a trusted time, before deltas that are later than it.
use mindoo_db.Base.{
  ℕ, ◌≡◌, ◌≤◌, ◌<◌, inl, inr, refl, ap, ◌∙◌, Option, some, none, List, [], ◌∷◌, ◌++◌, foldl, arith,
  All, false, Bool-cases, ltb,
}
use mindoo_db.Directory.{DirectoryNode, Chain, first, linked, beyond, node_of, node_covering}
use mindoo_db.Directory.Builder.Steps.{bound_of, apply_deltas-keeps}
use mindoo_db.Directory.Builder.{
  DirectoryRevisionDelta, DirectoryStateChainBuilder, max_bound, new_builder, apply_delta,
  import_delta_log, get_state_at, time_of,
}

foldl-append {ℓ κ} :
    {A : Type ℓ} {B : Type κ} (f : B → A → B) (b : B) (xs ys : List A)
    → foldl f b (xs ++ ys) ≡ foldl f (foldl f b xs) ys
foldl-append f b [] ys = refl
foldl-append f b (x ∷ xs) ys = foldl-append f (f b x) xs ys

max_bound_later : (t t' : ℕ) (o : Option ℕ) → t < t' → (m : ℕ) × (max_bound t' o ≡ some m) × (t < m)
max_bound_later t t' none l = (t', refl, l)
max_bound_later t t' (some b) l = elim (Bool-cases (ltb t' b)) [
  | inl lt ↦ (b, rw lt, ground arith)
  | inr le ↦ (t', rw le, l)
]

module _ {Num : Type 0} where
  -- A link later than the time is not covered at it.
  node_covering-linked :
      (T t : ℕ) (n : DirectoryNode Num) (c : Chain Num)
      → T < t
      → n.trusted_time_upper_bound ≡ max_bound t (bound_of c)
      → node_covering (linked n c) T ≡ node_covering c T
  unfolding node_covering
  node_covering-linked T t n c later e =
      let (m, is_m, beyond_T) = max_bound_later T t (bound_of c) later in ground (arith, e ∙ is_m)

  -- A link at a time that is not beyond keeps the bound from being beyond.
  beyond-linked :
      (T t : ℕ) (n : DirectoryNode Num) (c : Chain Num)
      → t ≤ T
      → n.trusted_time_upper_bound ≡ max_bound t (bound_of c)
      → beyond (node_of c) T ≡ false
      → beyond n T ≡ false
  beyond-linked T t n c le e h = ground arith

  node_covering_head :
      (c : Chain Num) (T : ℕ) → beyond (node_of c) T ≡ false → node_covering c T ≡ c
  unfolding node_covering
  node_covering_head (first n) T h = ground arith
  node_covering_head (linked n c) T h = ground arith

  -- Of a log whose deltas up to a trusted time come before all later ones, the state at that time is
  -- what those deltas alone make, whatever the later ones are.
  pub get_state_at-import_delta_log :
      (before after : List (DirectoryRevisionDelta Num)) (T : ℕ)
      → All (λ d. time_of d ≤ T) before
      → All (λ d. T < time_of d) after
      → get_state_at (import_delta_log (before ++ after)) T ≡ (import_delta_log before).head
  unfolding import_delta_log
  get_state_at-import_delta_log before after T early late =
      let b = foldl apply_delta new_builder before in
      let covered : beyond (node_of b.head) T ≡ false =
        apply_deltas-keeps (λ c. beyond (node_of c) T ≡ false) (λ t. t ≤ T)
          (λ t le n c e i. beyond-linked T t n c le e) before new_builder early refl in
      ap (λ (x : DirectoryStateChainBuilder Num). node_covering x.head T)
        (foldl-append apply_delta new_builder before after)
      ∙ apply_deltas-keeps (λ c. node_covering c T ≡ node_covering b.head T) (λ t. T < t)
          (λ t lt n c e i h. node_covering-linked T t n c lt e ∙ h) after b late refl
      ∙ node_covering_head b.head T covered
