-- ===== src/Base/Map.antt =====
-- JavaScript's `Map`: an association list in insertion order. `set` of a key that is present
-- keeps its place, and a new key comes last.

use mathlib.Core.Path.{◌≡◌, refl}
use mathlib.Core.Logic.{ite}
use mathlib.Core.Bool.{Bool, true, false}
use mathlib.Core.List.{List, [], ◌∷◌, ◌++◌}
use mathlib.Core.Option.{Option, none, some}
use native.Mathlib.Omega.{arith}
use mindoo_db.Base.Lists.{any, has, add, Distinct, append-Distinct}

abbrev pub is_some {ℓ} : {A : Type ℓ} → Option A → Bool
is_some none = false
is_some (some a) = true

-- `o ?? d`
abbrev pub or_else {ℓ} : {A : Type ℓ} → Option A → A → A
or_else none d = d
or_else (some a) d = a

module _ {ℓ} {K V : Type ℓ} where
  abbrev pub keys : List (K × V) → List K
  keys [] = []
  keys (e ∷ m) = e.0 ∷ keys m

  abbrev pub values : List (K × V) → List V
  values [] = []
  values (e ∷ m) = e.1 ∷ values m

module _ {ℓ} {K V : Type ℓ} (dec : Discrete K) where
  -- `Map.get`
  unfoldable pub lookup : K → List (K × V) → Option V
  lookup k [] = none
  lookup k (e ∷ m) = ite (dec k e.0) (some e.1) (lookup k m)

  -- `Map.set`
  unfoldable pub set : K → V → List (K × V) → List (K × V)
  set k v [] = (k, v) ∷ []
  set k v (e ∷ m) = ite (dec k e.0) ((k, v) ∷ m) (e ∷ set k v m)

  -- `Map.delete`
  unfoldable pub delete : K → List (K × V) → List (K × V)
  delete k [] = []
  delete k (e ∷ m) = ite (dec k e.0) (delete k m) (e ∷ delete k m)

  pub lookup-set :
      (q k : K) (v : V) (m : List (K × V))
      → lookup q (set k v m) ≡ ite (dec q k) (some v) (lookup q m)
  unfolding lookup set
  lookup-set q k v [] = refl
  lookup-set q k v (e ∷ m) = ground (arith, lookup-set q k v m)

  pub lookup-delete :
      (q k : K) (m : List (K × V)) → lookup q (delete k m) ≡ ite (dec q k) none (lookup q m)
  unfolding lookup delete
  lookup-delete q k [] = ground arith
  lookup-delete q k (e ∷ m) = ground (arith, lookup-delete q k m)

module _ {K V : Type 0} (dec : Discrete K) where
  pub has-keys : (k : K) (m : List (K × V)) → has dec k (keys m) ≡ is_some (lookup dec k m)
  unfolding lookup
  has-keys k [] = refl
  has-keys k (e ∷ m) = ground (arith, has-keys k m)

  pub keys-set : (k : K) (v : V) (m : List (K × V)) → keys (set dec k v m) ≡ add dec k (keys m)
  unfolding set
  keys-set k v [] = refl
  keys-set k v (e ∷ m) = ground (arith, keys-set k v m)

  -- A new key is written at the end.
  pub set_new :
      (k : K) (v : V) (m : List (K × V))
      → lookup dec k m ≡ none
      → set dec k v m ≡ m ++ ((k, v) ∷ [])
  unfolding lookup set
  set_new k v [] h = refl
  set_new k v (e ∷ m) h = ground (arith, set_new k v m)

  pub set-Distinct :
      (k : K) (v : V) (m : List (K × V))
      → Distinct dec (keys m)
      → Distinct dec (keys (set dec k v m))
  set-Distinct k v m d = rw (keys-set k v m) (ground (arith, append-Distinct dec (keys m) k))

  has-keys-delete :
      (q k : K) (m : List (K × V))
      → has dec q (keys m) ≡ false
      → has dec q (keys (delete dec k m)) ≡ false
  unfolding delete
  has-keys-delete q k [] h = refl
  has-keys-delete q k (e ∷ m) h = ground (arith, has-keys-delete q k m)

  pub delete-Distinct :
      (k : K) (m : List (K × V)) → Distinct dec (keys m) → Distinct dec (keys (delete dec k m))
  unfolding delete
  delete-Distinct k [] d = tt
  delete-Distinct k (e ∷ m) d = ground (arith, delete-Distinct k m, has-keys-delete e.0 k m)

  pub delete_missing : (k : K) (m : List (K × V)) → lookup dec k m ≡ none → delete dec k m ≡ m
  unfolding lookup delete
  delete_missing k [] h = refl
  delete_missing k (e ∷ m) h = ground (arith, delete_missing k m)

  -- What holds of every lookup holds of every item of a map with distinct keys.
  pub lookup_tail :
      (k : K) (v : V) (e : K × V) (m : List (K × V))
      → Distinct dec (keys (e ∷ m))
      → lookup dec k m ≡ some v
      → lookup dec k (e ∷ m) ≡ some v
  unfolding lookup
  lookup_tail k v e m d h = ground (arith, has-keys k m)

  pub any-values-set :
      (p : V → Bool) (k : K) (v : V) (m : List (K × V))
      → p v ≡ true
      → any p (values (set dec k v m)) ≡ true
  unfolding set
  any-values-set p k v [] h = ground arith
  any-values-set p k v (e ∷ m) h = ground (arith, any-values-set p k v m h)
