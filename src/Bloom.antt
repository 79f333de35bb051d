-- ===== src/Bloom.antt =====
-- src/core/appendonlystores/bloom.ts: the summary of a store's ids that a peer tests its own ids
-- against. The logarithms of the filter's shape and base64 are parameters. A 32-bit value is a number
-- below 2 ^ 32; the sums of `bloomIndexes` are exact in the source below 2 ^ 53.
pub mod Bits
pub mod Membership
use mindoo_db.Base.{
  ℕ, zero, suc, ◌+◌, ◌*◌, ◌/◌, ◌%◌, ◌^◌, Bool, true, false, not, Option, some, none, List, [], ◌∷◌,
  ◌++◌, JsString, codes, str_dec, ite, foldl, all, length, get_elem?, if◌then◌else◌, ltb, ◌==◌,
}
use Prim.Native.Nat.{bit_and, bit_or, bit_xor}

abbrev pub Bytes : Type 0
Bytes = List ℕ

unfoldable pub fnv1a32 : JsString → ℕ
fnv1a32 input = foldl (λ hash c. (bit_xor hash c * 0x01000193) % 2 ^ 32) 0x811c9dc5 input

unfoldable pub djb2_32 : JsString → ℕ
djb2_32 input = foldl (λ hash c. (hash * 32 + hash + c) % 2 ^ 32) 5381 input

-- `Math.ceil(-n * ln(p) / ln(2) ^ 2)` by the number of items, and `Math.round(bits / n * ln(2))`.
pub record Logarithms : Type 0 where
  pub ceil_bits : ℕ → ℕ
  pub round_hashes : ℕ → ℕ → ℕ

pub record Shape : Type 0 where
  pub bit_count : ℕ
  pub hash_count : ℕ

abbrev pub at_least : ℕ → ℕ → ℕ
at_least a b = if ltb b a then a else b

unfoldable pub compute_bloom_shape : Logarithms → ℕ → Shape
compute_bloom_shape logs zero = record { bit_count = 64; hash_count = 2 }
compute_bloom_shape logs (suc n) =
    let bits : ℕ = at_least 64 (logs.ceil_bits (suc n)) in
    record { bit_count = bits; hash_count = at_least 1 (logs.round_hashes bits (suc n)) }

-- `bitset[i] = f(bitset[i])`; a write out of bounds changes nothing.
unfoldable pub update_at : Bytes → ℕ → (ℕ → ℕ) → Bytes
update_at [] i f = []
update_at (b ∷ bs) zero f = f b ∷ bs
update_at (b ∷ bs) (suc i) f = b ∷ update_at bs i f

unfoldable pub set_bit : Bytes → ℕ → Bytes
unfolding update_at
set_bit bitset i = update_at bitset (i / 8) (λ b. bit_or b (2 ^ (i % 8)))

-- A byte's bit; a byte that is not there reads as 0.
abbrev pub bit_of : ℕ → Option ℕ → Bool
bit_of offset none = false
bit_of offset (some b) = not (bit_and b (2 ^ offset) == 0)

unfoldable pub get_bit : Bytes → ℕ → Bool
get_bit bitset i = bit_of (i % 8) (get_elem? bitset (i / 8))

-- The indexes from the one numbered i on.
unfoldable pub indexes_from : ℕ → ℕ → ℕ → ℕ → ℕ → List ℕ
indexes_from h1 h2 bit_count i zero = []
indexes_from h1 h2 bit_count i (suc n) =
    ((h1 + i * h2) % bit_count) ∷ indexes_from h1 h2 bit_count (i + 1) n

abbrev pub or_one : ℕ → ℕ
or_one h = if h == 0 then 1 else h

unfoldable pub bloom_indexes : JsString → ℕ → ℕ → JsString → List ℕ
unfolding fnv1a32 djb2_32 indexes_from
bloom_indexes id bit_count hash_count salt =
    indexes_from (fnv1a32 (salt ++ b':' ∷ id)) (or_one (djb2_32 (id ++ b':' ∷ salt))) bit_count 0
      hash_count

pub record StoreIdBloomSummary : Type 0 where
  pub version : JsString
  pub total_ids : ℕ
  pub bit_count : ℕ
  pub hash_count : ℕ
  pub salt : JsString
  pub bitset_base64 : JsString

abbrev pub bloom_v1 : JsString
bloom_v1 = codes "bloom-v1"

abbrev pub default_salt : JsString
default_salt = codes "mindoodb-bloom-v1"

unfoldable pub zeros : ℕ → Bytes
zeros zero = []
zeros (suc n) = 0 ∷ zeros n

abbrev pub set_bits : Bytes → List ℕ → Bytes
set_bits bitset indexes = foldl set_bit bitset indexes

-- The loop over the ids.
abbrev pub add_ids : Shape → Bytes → List JsString → Bytes
add_ids shape bitset ids =
    foldl
      (λ bits id. set_bits bits (bloom_indexes id shape.bit_count shape.hash_count default_salt))
      bitset ids

unfoldable pub create_id_bloom_summary :
    Logarithms → (Bytes → JsString) → List JsString → StoreIdBloomSummary
unfolding compute_bloom_shape set_bit bloom_indexes zeros
create_id_bloom_summary logs to_base64 ids =
    let shape : Shape = compute_bloom_shape logs (length ids) in
    record {
      version = bloom_v1;
      total_ids = length ids;
      bit_count = shape.bit_count;
      hash_count = shape.hash_count;
      salt = default_salt;
      bitset_base64 = to_base64 (add_ids shape (zeros ((shape.bit_count + 7) / 8)) ids);
    }

unfoldable pub bloom_might_contain_id : (JsString → Bytes) → StoreIdBloomSummary → JsString → Bool
unfolding get_bit bloom_indexes
bloom_might_contain_id from_base64 summary id =
    ite (str_dec summary.version bloom_v1)
      (all (get_bit (from_base64 summary.bitset_base64))
        (bloom_indexes id summary.bit_count summary.hash_count summary.salt))
      true
