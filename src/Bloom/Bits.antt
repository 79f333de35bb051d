-- ===== src/Bloom/Bits.antt =====
-- Setting and testing single bits.
use mindoo_db.Base.Tables.{passes_up_to, passes_up_to_at}
use mindoo_db.Base.{
  Bool, ◌&&◌, ℕ, zero, suc, ◌≡◌, ◌<◌, ◌/◌, ◌%◌, ◌^◌, refl, ap, true, some, [], ◌∷◌, All, length,
  get_elem?, ◌==◌, ==_iff, ◌*◌, arith, if◌then◌else◌,
}
use Prim.Native.Nat.{bit_or}
use mindoo_db.Bloom.{Bytes, update_at, set_bit, bit_of, get_bit}

-- Setting the bit i of a byte b: the bit j stays set, the bit i is set, and it is still a byte.
abbrev stays : ℕ → ℕ → ℕ → Bool
stays b i j = if bit_of j (some b) then bit_of j (some (bit_or b (2 ^ i))) else true

abbrev fine : ℕ → ℕ → Bool
fine b i =
    passes_up_to (stays b i) 8
    && bit_of i (some (bit_or b (2 ^ i)))
    && (bit_or b (2 ^ i) / 256 == 0)

abbrev all_fine : ℕ → Bool
all_fine b = passes_up_to (fine b) 8

every_byte_fine : passes_up_to all_fine 256 ≡ true
unfolding passes_up_to
every_byte_fine = refl

byte_fine : (b i : ℕ) → b < 256 → i < 8 → fine b i ≡ true
byte_fine b i hb hi =
    passes_up_to_at (fine b) 8 i hi (passes_up_to_at all_fine 256 b hb every_byte_fine)

kept_bit :
    (b i j : ℕ)
    → b < 256
    → i < 8
    → j < 8
    → bit_of j (some b) ≡ true
    → bit_of j (some (bit_or b (2 ^ i))) ≡ true
kept_bit b i j hb hi hj h =
    let row : passes_up_to (stays b i) 8 ≡ true = ground (arith, byte_fine b i hb hi) in
    let cell = passes_up_to_at (stays b i) 8 j hj row in rw h at cell

set_self : (b i : ℕ) → b < 256 → i < 8 → bit_of i (some (bit_or b (2 ^ i))) ≡ true
set_self b i hb hi = ground (arith, byte_fine b i hb hi)

still_byte : (b i : ℕ) → b < 256 → i < 8 → bit_or b (2 ^ i) < 256
still_byte b i hb hi =
    let small : (bit_or b (2 ^ i) / 256 == 0) ≡ true = ground (arith, byte_fine b i hb hi) in
    omega (arith, (==_iff (bit_or b (2 ^ i) / 256) 0).0 small)

abbrev pub AreBytes : Bytes → Type 0
AreBytes bs = All (λ b. b < 256) bs

update_at-AreBytes :
    (bs : Bytes) (k i : ℕ) → i < 8 → AreBytes bs → AreBytes (update_at bs k (λ b. bit_or b (2 ^ i)))
unfolding update_at
update_at-AreBytes [] k i hi h = tt
update_at-AreBytes (b ∷ bs) zero i hi h = (still_byte b i h.0 hi, h.1)
update_at-AreBytes (b ∷ bs) (suc k) i hi h = (h.0, update_at-AreBytes bs k i hi h.1)

length-update_at : (bs : Bytes) (k : ℕ) (f : ℕ → ℕ) → length (update_at bs k f) ≡ length bs
unfolding update_at
length-update_at [] k f = refl
length-update_at (b ∷ bs) zero f = refl
length-update_at (b ∷ bs) (suc k) f = ap suc (length-update_at bs k f)

get-update_at_keeps :
    (bs : Bytes) (k i m j : ℕ)
    → i < 8
    → j < 8
    → AreBytes bs
    → bit_of j (get_elem? bs m) ≡ true
    → bit_of j (get_elem? (update_at bs k (λ b. bit_or b (2 ^ i))) m) ≡ true
unfolding update_at
get-update_at_keeps [] k i m j hi hj bytes h = h
get-update_at_keeps (b ∷ bs) zero i zero j hi hj bytes h = kept_bit b i j bytes.0 hi hj h
get-update_at_keeps (b ∷ bs) zero i (suc m) j hi hj bytes h = h
get-update_at_keeps (b ∷ bs) (suc k) i zero j hi hj bytes h = h
get-update_at_keeps (b ∷ bs) (suc k) i (suc m) j hi hj bytes h =
    get-update_at_keeps bs k i m j hi hj bytes.1 h

get-update_at_self :
    (bs : Bytes) (k i : ℕ)
    → i < 8
    → k < length bs
    → AreBytes bs
    → bit_of i (get_elem? (update_at bs k (λ b. bit_or b (2 ^ i))) k) ≡ true
unfolding update_at
get-update_at_self [] k i hi hk bytes = absurd (omega arith)
get-update_at_self (b ∷ bs) zero i hi hk bytes = set_self b i bytes.0 hi
get-update_at_self (b ∷ bs) (suc k) i hi hk bytes =
    get-update_at_self bs k i hi (omega arith) bytes.1

pub set_bit-AreBytes : (bs : Bytes) (i : ℕ) → AreBytes bs → AreBytes (set_bit bs i)
unfolding set_bit
set_bit-AreBytes bs i h = update_at-AreBytes bs (i / 8) (i % 8) (omega arith) h

pub length-set_bit : (bs : Bytes) (i : ℕ) → length (set_bit bs i) ≡ length bs
unfolding set_bit
length-set_bit bs i = length-update_at bs (i / 8) (λ b. bit_or b (2 ^ (i % 8)))

pub get_bit-set_bit :
    (bs : Bytes) (i : ℕ) → AreBytes bs → i < 8 * length bs → get_bit (set_bit bs i) i ≡ true
unfolding set_bit get_bit
get_bit-set_bit bs i h lt = get-update_at_self bs (i / 8) (i % 8) (omega arith) (omega arith) h

pub get_bit-set_bit_keeps :
    (bs : Bytes) (i j : ℕ) → AreBytes bs → get_bit bs j ≡ true → get_bit (set_bit bs i) j ≡ true
unfolding set_bit get_bit
get_bit-set_bit_keeps bs i j h g =
    get-update_at_keeps bs (i / 8) (i % 8) (j / 8) (j % 8) (omega arith) (omega arith) h g
