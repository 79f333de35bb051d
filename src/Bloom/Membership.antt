-- ===== src/Bloom/Membership.antt =====
-- A summary never denies an id that it was built from.
use mindoo_db.Base.{
  ℕ, zero, suc, ◌≡◌, ◌<◌, ◌≤◌, ◌/◌, ◌+◌, ◌*◌, refl, ap, ◌∙◌, sym, subst, true, List, [], ◌∷◌, ◌++◌,
  all, length, JsString, str_dec, has, All, arith,
}
use mindoo_db.Bloom.{
  Bytes, Logarithms, Shape, compute_bloom_shape, set_bit, get_bit, indexes_from, bloom_indexes,
  fnv1a32, djb2_32, or_one, default_salt, zeros, set_bits, add_ids, create_id_bloom_summary,
  bloom_might_contain_id,
}
use mindoo_db.Bloom.Bits.{
  AreBytes, set_bit-AreBytes, length-set_bit, get_bit-set_bit, get_bit-set_bit_keeps,
}

-- After indexes are set: the bitset is still one of as many bytes, and has the bits that it had.
set_bits-AreBytes : (is : List ℕ) (bs : Bytes) → AreBytes bs → AreBytes (set_bits bs is)
set_bits-AreBytes [] bs h = h
set_bits-AreBytes (i ∷ is) bs h = set_bits-AreBytes is (set_bit bs i) (set_bit-AreBytes bs i h)

length-set_bits : (is : List ℕ) (bs : Bytes) → length (set_bits bs is) ≡ length bs
length-set_bits [] bs = refl
length-set_bits (i ∷ is) bs = length-set_bits is (set_bit bs i) ∙ length-set_bit bs i

get_bit-set_bits_keeps :
    (is : List ℕ) (bs : Bytes) (j : ℕ)
    → AreBytes bs
    → get_bit bs j ≡ true
    → get_bit (set_bits bs is) j ≡ true
get_bit-set_bits_keeps [] bs j h g = g
get_bit-set_bits_keeps (i ∷ is) bs j h g =
    get_bit-set_bits_keeps is (set_bit bs i) j (set_bit-AreBytes bs i h)
      (get_bit-set_bit_keeps bs i j h g)

all-set_bits :
    (is : List ℕ) (bs : Bytes)
    → AreBytes bs
    → All (λ i. i < 8 * length bs) is
    → all (get_bit (set_bits bs is)) is ≡ true
all-set_bits [] bs h lt = refl
all-set_bits (i ∷ is) bs h lt =
    let own =
      get_bit-set_bits_keeps is (set_bit bs i) i (set_bit-AreBytes bs i h)
        (get_bit-set_bit bs i h lt.0) in
    let rest =
      all-set_bits is (set_bit bs i) (set_bit-AreBytes bs i h)
        (subst (λ n. All (λ j. j < 8 * n) is) (sym (length-set_bit bs i)) lt.1) in
    ground (arith, own, rest)

indexes_from-lt : (h1 h2 m i n : ℕ) → 0 < m → All (λ j. j < m) (indexes_from h1 h2 m i n)
unfolding indexes_from
indexes_from-lt h1 h2 m i zero pos = tt
indexes_from-lt h1 h2 m i (suc n) pos = (grind arith, indexes_from-lt h1 h2 m (i + 1) n pos)

All-weaken : (m n : ℕ) (is : List ℕ) → m ≤ n → All (λ j. j < m) is → All (λ j. j < n) is
All-weaken m n [] le h = tt
All-weaken m n (i ∷ is) le h = (omega arith, All-weaken m n is le h.1)

abbrev indexes : Shape → JsString → List ℕ
indexes shape id = bloom_indexes id shape.bit_count shape.hash_count default_salt

bloom_indexes-lt :
    (shape : Shape) (id : JsString) (bs : Bytes)
    → 0 < shape.bit_count
    → shape.bit_count ≤ 8 * length bs
    → All (λ i. i < 8 * length bs) (indexes shape id)
unfolding bloom_indexes
bloom_indexes-lt shape id bs pos le =
    All-weaken shape.bit_count (8 * length bs) (indexes shape id) le (
      indexes_from-lt (fnv1a32 (default_salt ++ b':' ∷ id))
        (or_one (djb2_32 (id ++ b':' ∷ default_salt))) shape.bit_count 0 shape.hash_count pos)

add_ids_keeps :
    (shape : Shape) (ids : List JsString) (bs : Bytes) (js : List ℕ)
    → AreBytes bs
    → all (get_bit bs) js ≡ true
    → all (get_bit (add_ids shape bs ids)) js ≡ true
add_ids_keeps shape [] bs js h g = g
add_ids_keeps shape (id ∷ ids) bs js h g =
    add_ids_keeps shape ids (set_bits bs (indexes shape id)) js
      (set_bits-AreBytes (indexes shape id) bs h) (all_kept js g)
  where
    all_kept :
        (ks : List ℕ)
        → all (get_bit bs) ks ≡ true
        → all (get_bit (set_bits bs (indexes shape id))) ks ≡ true
    all_kept [] g = refl
    all_kept (k ∷ ks) g =
        ground (arith, get_bit-set_bits_keeps (indexes shape id) bs k h, all_kept ks)

all-add_ids :
    (shape : Shape) (ids : List JsString) (bs : Bytes) (id : JsString)
    → 0 < shape.bit_count
    → shape.bit_count ≤ 8 * length bs
    → AreBytes bs
    → has str_dec id ids ≡ true
    → all (get_bit (add_ids shape bs ids)) (indexes shape id) ≡ true
all-add_ids shape [] bs id pos le h m = cc
all-add_ids shape (x ∷ ids) bs id pos le h m = elim (str_dec id x) [
  | yes same ↦
      subst (λ y. all (get_bit (add_ids shape bs (x ∷ ids))) (indexes shape y) ≡ true) (sym same)
        (add_ids_keeps shape ids (set_bits bs (indexes shape x)) (indexes shape x)
          (set_bits-AreBytes (indexes shape x) bs h)
          (all-set_bits (indexes shape x) bs h (bloom_indexes-lt shape x bs pos le)))
  | no other ↦
      all-add_ids shape ids (set_bits bs (indexes shape x)) id pos
        (omega (arith, length-set_bits (indexes shape x) bs))
        (set_bits-AreBytes (indexes shape x) bs h) (ground arith)
]

add_ids-AreBytes :
    (shape : Shape) (ids : List JsString) (bs : Bytes)
    → AreBytes bs
    → AreBytes (add_ids shape bs ids)
add_ids-AreBytes shape [] bs h = h
add_ids-AreBytes shape (id ∷ ids) bs h =
    add_ids-AreBytes shape ids (set_bits bs (indexes shape id))
      (set_bits-AreBytes (indexes shape id) bs h)

zeros-AreBytes : (n : ℕ) → AreBytes (zeros n)
unfolding zeros
zeros-AreBytes zero = tt
zeros-AreBytes (suc n) = (omega arith, zeros-AreBytes n)

length-zeros : (n : ℕ) → length (zeros n) ≡ n
unfolding zeros
length-zeros zero = refl
length-zeros (suc n) = ap suc (length-zeros n)

compute_bloom_shape_pos : (logs : Logarithms) (n : ℕ) → 64 ≤ (compute_bloom_shape logs n).bit_count
unfolding compute_bloom_shape
compute_bloom_shape_pos logs zero = omega arith
compute_bloom_shape_pos logs (suc n) = ground arith

-- Whatever the logarithms are, if base64 gives bytes back, a summary that is built from ids says of
-- each of them that it may be contained: there are no false negatives.
pub bloom_might_contain_id-create_id_bloom_summary :
    (logs : Logarithms) (to_base64 : Bytes → JsString) (from_base64 : JsString → Bytes)
    (ids : List JsString) (id : JsString)
    → ((bytes : Bytes) → AreBytes bytes → from_base64 (to_base64 bytes) ≡ bytes)
    → has str_dec id ids ≡ true
    → bloom_might_contain_id from_base64 (create_id_bloom_summary logs to_base64 ids) id ≡ true
unfolding bloom_might_contain_id create_id_bloom_summary
bloom_might_contain_id-create_id_bloom_summary logs to_base64 from_base64 ids id back m =
    let shape = compute_bloom_shape logs (length ids) in
    let blank = zeros ((shape.bit_count + 7) / 8) in
    let large = compute_bloom_shape_pos logs (length ids) in
    let bits : all (get_bit (add_ids shape blank ids)) (indexes shape id) ≡ true =
      all-add_ids shape ids blank id (omega arith)
        (omega (arith, length-zeros ((shape.bit_count + 7) / 8)))
        (zeros-AreBytes ((shape.bit_count + 7) / 8)) m in
    rw
      (back (add_ids shape blank ids)
        (add_ids-AreBytes shape ids blank (zeros-AreBytes ((shape.bit_count + 7) / 8))))
      (ground (arith, bits))
