-- ===== src/Python/Struct/Words.antt =====
-- Numbers as little-endian bytes, and signed integers in two's complement.
use gtools.Prelude.{
  ℕ, zero, suc, ◌+◌, ◌-◌, ◌*◌, ◌/◌, ◌%◌, ◌^◌, ◌<◌, ◌≡◌, refl, ap, List, [], ◌∷◌, All, length, ltb,
  arith, if◌then◌else◌, ℤ, pos, negsuc,
}
use native.Mathlib.Nat.{pow-suc}

unfoldable pub le_bytes : ℕ → ℕ → List ℕ
le_bytes zero v = []
le_bytes (suc n) v = v % 256 ∷ le_bytes n (v / 256)

unfoldable pub le_value : List ℕ → ℕ
le_value [] = 0
le_value (b ∷ bs) = b + 256 * le_value bs

-- m is the modulus, 256 ^ size
unfoldable pub to_word : ℕ → ℤ → ℕ
to_word m (pos v) = v
to_word m (negsuc v) = m - v - 1

unfoldable pub of_word : ℕ → ℕ → ℤ
of_word m w = if ltb w (m / 2) then pos w else negsuc (m - w - 1)

abbrev pub IsByte : ℕ → Type 0
IsByte b = b < 256

pub length-le_bytes : (n v : ℕ) → length (le_bytes n v) ≡ n
unfolding le_bytes
length-le_bytes zero v = refl
length-le_bytes (suc n) v = ap suc (length-le_bytes n (v / 256))

pub le_bytes-IsByte : (n v : ℕ) → All IsByte (le_bytes n v)
unfolding le_bytes
le_bytes-IsByte zero v = tt
le_bytes-IsByte (suc n) v = (omega arith, le_bytes-IsByte n (v / 256))

-- The bytes of a number that fits give the number back.
pub le_value-le_bytes : (n v : ℕ) → v < 256 ^ n → le_value (le_bytes n v) ≡ v
unfolding le_bytes le_value
le_value-le_bytes zero v h = omega arith
le_value-le_bytes (suc n) v h =
    omega (arith, pow-suc 256 n, le_value-le_bytes n (v / 256) (omega (arith, pow-suc 256 n)))

pub le_bytes-le_value : (bs : List ℕ) → All IsByte bs → le_bytes (length bs) (le_value bs) ≡ bs
unfolding le_bytes le_value
le_bytes-le_value [] h = refl
le_bytes-le_value (b ∷ bs) h =
    ground
      (arith, quotient b (le_value bs) h.0, remainder b (le_value bs) h.0, le_bytes-le_value bs h.1)
  where
    quotient : (b r : ℕ) → b < 256 → (b + 256 * r) / 256 ≡ r
    quotient b r h = omega arith

    remainder : (b r : ℕ) → b < 256 → (b + 256 * r) % 256 ≡ b
    remainder b r h = omega arith

pub le_value-lt : (bs : List ℕ) → All IsByte bs → le_value bs < 256 ^ length bs
unfolding le_value
le_value-lt [] h = omega arith
le_value-lt (b ∷ bs) h = omega (arith, pow-suc 256 (length bs), le_value-lt bs h.1)
