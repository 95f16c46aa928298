-- ===== src/Crypto/Hash.antt =====
-- The hash in Python, which stands in for the C library where that is missing, and the checksums.
use gtools.Prelude.{
  ℕ, suc, ◌+◌, ◌*◌, ◌/◌, ◌%◌, ◌<◌, ◌≡◌, ◌≢◌, refl, sym, ◌∙◌, [], ◌∷◌, ◌++◌, All, arith, ℤ,
}
use gtools.Python.Struct.{Bytes}
use gtools.Python.Struct.Words.{of_word, IsByte}

-- A number modulo this is the number `& 0xFFFFFFFF`.
abbrev pub word : ℕ
word = 4294967296

-- The body of the loop of `proton_hash`: `h >> 27` and `h << 5` are written out.
unfoldable pub hash_step : ℕ → ℕ → ℕ
hash_step h b = (b + h % word / 134217728 + h * 32 % word) % word

unfoldable pub hash_loop : ℕ → Bytes → ℕ
hash_loop h [] = h
hash_loop h (b ∷ bs) = hash_loop (hash_step h b) bs

unfoldable pub proton_hash : Bytes → ℤ
unfolding of_word
proton_hash b = of_word word (hash_loop 1431655765 b)

-- The loops from position i on, at the checksum so far.
unfoldable pub rolling_chksum_loop : ℕ → ℕ → ℕ → Bytes → ℕ
rolling_chksum_loop shift i chksum [] = chksum
rolling_chksum_loop shift i chksum (b ∷ bs) =
    rolling_chksum_loop shift (suc i) ((chksum + shift + i + (b + shift + i + 2) % 256) % word) bs

unfoldable pub rolling_chksum : Bytes → ℕ → ℕ
rolling_chksum b shift = rolling_chksum_loop shift 0 0 b

unfoldable pub rolling_chksum2_loop : ℕ → ℕ → ℕ → Bytes → ℕ
rolling_chksum2_loop shift i chksum [] = chksum
rolling_chksum2_loop shift i chksum (b ∷ bs) =
    rolling_chksum2_loop shift (suc i) ((chksum + shift + i + b) % word) bs

unfoldable pub rolling_chksum2 : Bytes → ℕ → ℕ
rolling_chksum2 b shift = rolling_chksum2_loop shift 0 0 b

unfoldable pub rolling_shift_from : ℕ → ℕ → Bytes → Bytes
rolling_shift_from shift i [] = []
rolling_shift_from shift i (b ∷ bs) = (b + shift + i) % 256 ∷ rolling_shift_from shift (suc i) bs

unfoldable pub rolling_shift : Bytes → ℕ → Bytes
rolling_shift b shift = rolling_shift_from shift 0 b

hash_step-lt : (h b : ℕ) → hash_step h b < word
unfolding hash_step
hash_step-lt h b = omega arith

-- The step turns the word by five bits and adds the byte.
hash_step_left : (g h b : ℕ) → g < word → h < word → hash_step g b ≡ hash_step h b → g ≡ h
unfolding hash_step
hash_step_left g h b p q e = omega arith

hash_step_right : (h b c : ℕ) → b < 256 → c < 256 → hash_step h b ≡ hash_step h c → b ≡ c
unfolding hash_step
hash_step_right h b c p q e = omega arith

hash_loop_left : (g h : ℕ) (b : Bytes) → g < word → h < word → hash_loop g b ≡ hash_loop h b → g ≡ h
unfolding hash_loop
hash_loop_left g h [] p q e = e
hash_loop_left g h (x ∷ b) p q e =
    hash_step_left g h x p q
      (hash_loop_left (hash_step g x) (hash_step h x) b (hash_step-lt g x) (hash_step-lt h x) e)

hash_loop-append : (h : ℕ) (a b : Bytes) → hash_loop h (a ++ b) ≡ hash_loop (hash_loop h a) b
unfolding hash_loop
hash_loop-append h [] b = refl
hash_loop-append h (x ∷ a) b = hash_loop-append (hash_step h x) a b

hash_loop-lt : (h : ℕ) (b : Bytes) → h < word → hash_loop h b < word
unfolding hash_loop
hash_loop-lt h [] p = p
hash_loop-lt h (x ∷ b) p = hash_loop-lt (hash_step h x) b (hash_step-lt h x)

of_word_injective : (g h : ℕ) → g < word → h < word → of_word word g ≡ of_word word h → g ≡ h
unfolding of_word
of_word_injective g h p q e = ground arith

-- Texts that differ in one byte have different hashes.
pub proton_hash_one_byte :
    (front back : Bytes) (b c : ℕ)
    → IsByte b
    → IsByte c
    → b ≢ c
    → proton_hash (front ++ b ∷ back) ≢ proton_hash (front ++ c ∷ back)
unfolding proton_hash hash_loop
proton_hash_one_byte front back b c p q n e =
    let h = hash_loop 1431655765 front in
    n (
      hash_step_right h b c p q (
        hash_loop_left (hash_step h b) (hash_step h c) back (hash_step-lt h b) (hash_step-lt h c) (
          sym (hash_loop-append 1431655765 front (b ∷ back))
          ∙ of_word_injective _ _ (hash_loop-lt 1431655765 (front ++ b ∷ back) (omega arith))
              (hash_loop-lt 1431655765 (front ++ c ∷ back) (omega arith)) e
          ∙ hash_loop-append 1431655765 front (c ∷ back))))

byte_shift : (x y n : ℕ) → x < 256 → y < 256 → (x + n) % 256 ≡ (y + n) % 256 → x ≡ y
byte_shift x y n p q e = omega arith

rolling_shift_from_injective :
    (shift i : ℕ) (b c : Bytes)
    → All IsByte b
    → All IsByte c
    → rolling_shift_from shift i b ≡ rolling_shift_from shift i c
    → b ≡ c
unfolding rolling_shift_from
rolling_shift_from_injective shift i [] [] h k e = refl
rolling_shift_from_injective shift i [] (y ∷ c) h k e = absurd (cc e)
rolling_shift_from_injective shift i (x ∷ b) [] h k e = absurd (cc e)
rolling_shift_from_injective shift i (x ∷ b) (y ∷ c) h k e =
    cons (byte_shift x y (shift + i) h.0 k.0 (heads e))
      (rolling_shift_from_injective shift (suc i) b c h.1 k.1 (cc e))
  where
    cons : x ≡ y → b ≡ c → x ∷ b ≡ y ∷ c
    cons p q = cc (p, q)

    first :
        (x + shift + i) % 256 ≡ (y + shift + i) % 256
        → (x + (shift + i)) % 256 ≡ (y + (shift + i)) % 256
    first e = omega arith

    heads :
        {us vs : Bytes}
        → (x + shift + i) % 256 ∷ us ≡ (y + shift + i) % 256 ∷ vs
        → (x + (shift + i)) % 256 ≡ (y + (shift + i)) % 256
    heads e = first (cc e)

-- Different texts have different shifts by the same amount.
pub rolling_shift_injective :
    (b c : Bytes) (shift : ℕ)
    → All IsByte b
    → All IsByte c
    → b ≢ c
    → rolling_shift b shift ≢ rolling_shift c shift
unfolding rolling_shift
rolling_shift_injective b c shift h k n e = n (rolling_shift_from_injective shift 0 b c h k e)

-- The sum that the second checksum masks, each byte with its place and its shift.
unfoldable pub plain_sum : ℕ → ℕ → Bytes → ℕ
plain_sum shift i [] = 0
plain_sum shift i (b ∷ bs) = shift + i + b + plain_sum shift (suc i) bs

rolling_chksum2_loop_lem :
    (shift i c : ℕ) (b : Bytes)
    → c < word
    → rolling_chksum2_loop shift i c b ≡ (c + plain_sum shift i b) % word
unfolding rolling_chksum2_loop plain_sum
rolling_chksum2_loop_lem shift i c [] h = omega arith
rolling_chksum2_loop_lem shift i c (x ∷ b) h =
    omega
      (arith, rolling_chksum2_loop_lem shift (suc i) ((c + shift + i + x) % word) b (omega arith))

-- The checksum that is masked in each round is the whole sum, masked once.
pub rolling_chksum2-plain_sum :
    (b : Bytes) (shift : ℕ) → rolling_chksum2 b shift ≡ plain_sum shift 0 b % word
unfolding rolling_chksum2
rolling_chksum2-plain_sum b shift =
    omega (arith, rolling_chksum2_loop_lem shift 0 0 b (omega arith))
