-- ===== src/Tests/BloomTests.antt =====
-- A summary of two ids, with a shape of 64 bits and 2 hashes, and base64 left out.
use mindoo_db.Base.{◌≡◌, ◌*◌, refl, true, false, List, [], ◌∷◌, JsString, codes, str_dec}
use mindoo_db.Bloom.{
  Bytes, Logarithms, fnv1a32, djb2_32, create_id_bloom_summary, bloom_might_contain_id,
}
use mindoo_db.Bloom.Membership.{bloom_might_contain_id-create_id_bloom_summary}

abbrev small : Logarithms
small = record { ceil_bits = λ n. 20 * n; round_hashes = λ bits n. 2 }

abbrev plain : Bytes → JsString
plain bytes = bytes

abbrev two_ids : List JsString
two_ids = codes "doc1_d_a" ∷ codes "doc2_d_b" ∷ []

bloom_might_contain_id-create_id_bloom_summary_example :
    bloom_might_contain_id plain (create_id_bloom_summary small plain two_ids) (codes "doc2_d_b")
    ≡ true
unfolding str_dec
bloom_might_contain_id-create_id_bloom_summary_example =
    bloom_might_contain_id-create_id_bloom_summary small plain plain two_ids (codes "doc2_d_b")
      (λ bytes h. refl) refl

absent :
    bloom_might_contain_id plain (create_id_bloom_summary small plain two_ids) (codes "doc3")
    ≡ false
unfolding bloom_might_contain_id create_id_bloom_summary str_dec
absent = refl

fnv1a32_test : fnv1a32 (codes "a") ≡ 0xe40c292c
unfolding fnv1a32
fnv1a32_test = refl

djb2_32_test : djb2_32 (codes "a") ≡ 177670
unfolding djb2_32
djb2_32_test = refl
