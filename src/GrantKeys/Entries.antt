-- ===== src/GrantKeys/Entries.antt =====
-- Reading the pairs back from the objects that they were written as.
use mindoo_db.Base.{
  ◌≡◌, refl, ap, ◌∙◌, Bool, true, false, Option, some, none, List, [], ◌∷◌, JsString, codes,
  str_dec, or_else, map, if◌then◌else◌, has, add, has-add, Distinct, All, arith,
}
use mindoo_db.JsValue.{JsValue, text, number, object, field, end, get_field, nonempty}
use mindoo_db.GrantKeys.{GrantKeyPair, parsed_pair, parse_entries}
use mindoo_db.GrantKeys.Write.{kept_text, opt_text, opt_number, pair_entry}

nonempty_or : (s : JsString) → or_else (nonempty s) [] ≡ s
nonempty_or [] = refl
nonempty_or (c ∷ cs) = refl

module _ {Num : Type 0} where
  -- A pair as it is read back: with a time, and without empty texts.
  abbrev pub normal : Num → Bool → GrantKeyPair Num → GrantKeyPair Num
  normal now mark p = record {
    signing_public_key = p.signing_public_key;
    encryption_public_key = p.encryption_public_key;
    label = kept_text p.label;
    added_at = some (or_else p.added_at now);
    join_response_wrapped = kept_text p.join_response_wrapped;
    revoked = mark;
    revoked_at = if mark then p.revoked_at else none;
  }

  -- By the texts that are written, each empty or not.
  parsed_fields :
      (mark : Bool) (key e : JsString) (l j : Option JsString) (a : Num) (t : Option Num)
      → parsed_pair mark key (
          field (codes "signingPublicKey") (text key) (
            field (codes "encryptionPublicKey") (text e) (
              opt_text (codes "label") (kept_text l) (
                field (codes "addedAt") (number a) (
                  opt_text
                    (codes "joinResponseWrapped")
                    (kept_text j)
                    (opt_number (codes "revokedAt") t end))))))
        ≡ record {
          signing_public_key = key;
          encryption_public_key = or_else (nonempty e) [];
          label = kept_text l;
          added_at = some a;
          join_response_wrapped = kept_text j;
          revoked = mark;
          revoked_at = if mark then t else none;
        }
  unfolding get_field str_dec
  parsed_fields mark key e none none a none = refl
  parsed_fields mark key e none none a (some n) = refl
  parsed_fields mark key e none (some []) a none = refl
  parsed_fields mark key e none (some []) a (some n) = refl
  parsed_fields mark key e none (some (d ∷ ds)) a none = refl
  parsed_fields mark key e none (some (d ∷ ds)) a (some n) = refl
  parsed_fields mark key e (some []) none a none = refl
  parsed_fields mark key e (some []) none a (some n) = refl
  parsed_fields mark key e (some []) (some []) a none = refl
  parsed_fields mark key e (some []) (some []) a (some n) = refl
  parsed_fields mark key e (some []) (some (d ∷ ds)) a none = refl
  parsed_fields mark key e (some []) (some (d ∷ ds)) a (some n) = refl
  parsed_fields mark key e (some (c ∷ cs)) none a none = refl
  parsed_fields mark key e (some (c ∷ cs)) none a (some n) = refl
  parsed_fields mark key e (some (c ∷ cs)) (some []) a none = refl
  parsed_fields mark key e (some (c ∷ cs)) (some []) a (some n) = refl
  parsed_fields mark key e (some (c ∷ cs)) (some (d ∷ ds)) a none = refl
  parsed_fields mark key e (some (c ∷ cs)) (some (d ∷ ds)) a (some n) = refl

  abbrev pub entry_of : Bool → Num → GrantKeyPair Num → JsValue Num
  entry_of mark now p =
      object (
        pair_entry now p (opt_number (codes "revokedAt") (if mark then p.revoked_at else none) end))

  abbrev pub signing_of : List (GrantKeyPair Num) → List JsString
  signing_of ps = map (λ p. p.signing_public_key) ps

  pub signing_of-normal :
      (mark : Bool) (now : Num) (ps : List (GrantKeyPair Num))
      → signing_of (map (normal now mark) ps) ≡ signing_of ps
  signing_of-normal mark now [] = refl
  signing_of-normal mark now (p ∷ ps) =
      ap (◌∷◌ p.signing_public_key) (signing_of-normal mark now ps)

  -- Distinct keys that are not empty, and not among some others.
  abbrev pub Fresh : List JsString → List (GrantKeyPair Num) → Type 0
  Fresh seen [] = Unit {0}
  Fresh seen (p ∷ ps) =
      (nonempty p.signing_public_key ≡ some p.signing_public_key)
      × (has str_dec p.signing_public_key seen ≡ false)
      × Fresh (add str_dec p.signing_public_key seen) ps

  signing_back :
      (mark : Bool) (now : Num) (p : GrantKeyPair Num)
      → nonempty p.signing_public_key ≡ some p.signing_public_key
      → parsed_pair mark p.signing_public_key (
          pair_entry now p
            (opt_number (codes "revokedAt") (if mark then p.revoked_at else none) end))
        ≡ normal now mark p
  signing_back true now p h =
      parsed_fields true p.signing_public_key p.encryption_public_key p.label
        p.join_response_wrapped (or_else p.added_at now) p.revoked_at
      ∙ (λ i. record (normal now true p) {
        encryption_public_key = nonempty_or p.encryption_public_key i;
      })
  signing_back false now p h =
      parsed_fields false p.signing_public_key p.encryption_public_key p.label
        p.join_response_wrapped (or_else p.added_at now) none
      ∙ (λ i. record (normal now false p) {
        encryption_public_key = nonempty_or p.encryption_public_key i;
      })

  pub parse_entries-entry_of :
      (mark : Bool) (now : Num) (ps : List (GrantKeyPair Num)) (seen : List JsString)
      → Fresh seen ps
      → parse_entries mark seen (map (entry_of mark now) ps) ≡ map (normal now mark) ps
  unfolding parse_entries get_field str_dec
  parse_entries-entry_of mark now [] seen f = refl
  parse_entries-entry_of mark now (p ∷ ps) seen f = ground (
    arith,
    f.0,
    f.1,
    signing_back mark now p f.0,
    parse_entries-entry_of mark now ps (add str_dec p.signing_public_key seen) f.2,
  )

  -- What the writer may be given: keys that are not empty, each once in its list.
  abbrev pub Named : List (GrantKeyPair Num) → Type 0
  Named ps =
      All (λ (p : GrantKeyPair Num). nonempty p.signing_public_key ≡ some p.signing_public_key) ps
      × Distinct str_dec (signing_of ps)

  pub Apart : List JsString → List (GrantKeyPair Num) → Type 0
  Apart seen ps = All (λ (p : GrantKeyPair Num). has str_dec p.signing_public_key seen ≡ false) ps

  Apart-add :
      (k : JsString) (seen : List JsString) (ps : List (GrantKeyPair Num))
      → has str_dec k (signing_of ps) ≡ false
      → Apart seen ps
      → Apart (add str_dec k seen) ps
  unfolding Apart
  Apart-add k seen [] h a = tt
  Apart-add k seen (p ∷ ps) h a = (
    ground (arith, has-add str_dec k p.signing_public_key seen, a.0),
    Apart-add k seen ps (ground arith) a.1,
  )

  pub Named-Fresh :
      (ps : List (GrantKeyPair Num)) (seen : List JsString)
      → Named ps
      → Apart seen ps
      → Fresh seen ps
  unfolding Apart
  Named-Fresh [] seen n a = tt
  Named-Fresh (p ∷ ps) seen n a = (
    n.0.0,
    a.0,
    Named-Fresh ps (add str_dec p.signing_public_key seen) (n.0.1, n.1.1)
        (Apart-add p.signing_public_key seen ps n.1.0 a.1),
  )

  pub Apart-nil : (ps : List (GrantKeyPair Num)) → Apart [] ps
  unfolding Apart
  Apart-nil [] = tt
  Apart-nil (p ∷ ps) = (refl, Apart-nil ps)
