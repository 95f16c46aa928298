-- ===== src/Python/Struct/Laws.antt =====
-- What a client needs of a format at a value: it packs, to as many bytes as the format's size, and
-- unpacks to itself. `Buffer` is proved correct over this, for every format.
use gtools.Prelude.{
  ℕ, ◌/◌, ◌^◌, ◌<◌, ◌≡◌, refl, sym, ap, subst, ◌∙◌, Bool, true, false, [], ◌∷◌, length,
  length-append, All, All-append, lt→ltb, arith, ℤ, pos, negsuc,
}
use mathlib.Core.List.{reverse, reverse-reverse, reverse-append}
use gtools.Python.Exec.{ok}
use gtools.Python.Struct.Words.{
  le_bytes, le_value, to_word, of_word, IsByte, length-le_bytes, le_bytes-IsByte, le_value-le_bytes,
}
use gtools.Python.Struct.{
  Bytes, Endian, little, big, arrange, Format, pack_unsigned, unsigned, pack_signed, signed,
  in_signed_range, boolean, Floats, pack_bits, floating,
}

pub record Packs {ℓ} {A : Type ℓ} (f : Format A) (e : Endian) (v : A) : Type ℓ where
  pub bytes : Bytes
  pub packed : f.pack e v ≡ ok bytes
  pub sized : length bytes ≡ f.size
  pub are_bytes : All IsByte bytes
  pub unpacked : f.unpack e bytes ≡ v

pub length-reverse : (b : Bytes) → length (reverse b) ≡ length b
length-reverse [] = refl
length-reverse (x ∷ b) =
    ap length (reverse-append (x ∷ []) b)
    ∙ omega (arith, length-append (reverse b) (x ∷ []), length-reverse b)

reverse-IsByte : (b : Bytes) → All IsByte b → All IsByte (reverse b)
reverse-IsByte [] h = tt
reverse-IsByte (x ∷ b) h =
    subst (All IsByte) (sym (reverse-append (x ∷ []) b))
      (All-append IsByte (reverse b) (x ∷ []) (reverse-IsByte b h.1) (h.0, tt))

arrange-arrange : (e : Endian) (b : Bytes) → arrange e (arrange e b) ≡ b
unfolding arrange
arrange-arrange little b = refl
arrange-arrange big b = reverse-reverse b

length-arrange : (e : Endian) (b : Bytes) → length (arrange e b) ≡ length b
unfolding arrange
length-arrange little b = refl
length-arrange big b = length-reverse b

arrange-IsByte : (e : Endian) (b : Bytes) → All IsByte b → All IsByte (arrange e b)
unfolding arrange
arrange-IsByte little b h = h
arrange-IsByte big b h = reverse-IsByte b h

-- An unsigned integer below 256 ^ n packs.
pub unsigned-Packs : (n : ℕ) (e : Endian) (v : ℕ) → v < 256 ^ n → Packs (unsigned n) e v
unfolding pack_unsigned
unsigned-Packs n e v h = record {
  bytes = arrange e (le_bytes n v);
  packed = rw (lt→ltb v (256 ^ n) h);
  sized = length-arrange e (le_bytes n v) ∙ length-le_bytes n v;
  are_bytes = arrange-IsByte e _ (le_bytes-IsByte n v);
  unpacked = rw (arrange-arrange e (le_bytes n v)) (le_value-le_bytes n v h);
}

of_word-to_word : (m : ℕ) (v : ℤ) → in_signed_range (m / 2) v ≡ true → of_word m (to_word m v) ≡ v
unfolding of_word to_word
of_word-to_word m (pos v) h = ground arith
of_word-to_word m (negsuc v) h = ground arith

to_word-lt : (m : ℕ) (v : ℤ) → in_signed_range (m / 2) v ≡ true → to_word m v < m
unfolding to_word
to_word-lt m (pos v) h = ground arith
to_word-lt m (negsuc v) h = ground arith

-- A signed integer in the two's complement range of n bytes packs.
pub signed-Packs :
    (n : ℕ) (e : Endian) (v : ℤ) → in_signed_range (256 ^ n / 2) v ≡ true → Packs (signed n) e v
unfolding pack_signed
signed-Packs n e v h = record {
  bytes = arrange e (le_bytes n (to_word (256 ^ n) v));
  packed = rw h;
  sized =
      length-arrange e (le_bytes n (to_word (256 ^ n) v)) ∙ length-le_bytes n (to_word (256 ^ n) v);
  are_bytes = arrange-IsByte e _ (le_bytes-IsByte n (to_word (256 ^ n) v));
  unpacked =
      rw
        (
          arrange-arrange e (le_bytes n (to_word (256 ^ n) v)),
          le_value-le_bytes n (to_word (256 ^ n) v) (to_word-lt (256 ^ n) v h),
        )
        (of_word-to_word (256 ^ n) v h);
}

pub boolean-Packs : (e : Endian) (v : Bool) → Packs boolean e v
unfolding arrange le_value
boolean-Packs little true = record {
  bytes = 1 ∷ [];
  packed = refl;
  sized = refl;
  are_bytes = (omega arith, tt);
  unpacked = refl;
}
boolean-Packs little false = record {
  bytes = 0 ∷ [];
  packed = refl;
  sized = refl;
  are_bytes = (omega arith, tt);
  unpacked = refl;
}
boolean-Packs big true = record {
  bytes = 1 ∷ [];
  packed = refl;
  sized = refl;
  are_bytes = (omega arith, tt);
  unpacked = refl;
}
boolean-Packs big false = record {
  bytes = 0 ∷ [];
  packed = refl;
  sized = refl;
  are_bytes = (omega arith, tt);
  unpacked = refl;
}

-- A float that the format of n bytes can hold: rounding gives a pattern that reads back as it.
pub record IsExact {F : Type 0} ⦃fl : Floats F⦄ (n : ℕ) (v : F) : Type 0 where
  pub bits : ℕ
  pub rounded : fl.to_bits n v ≡ ok bits
  pub fits : bits < 256 ^ n
  pub exact : fl.of_bits n bits ≡ v

pub floating-Packs :
    {F : Type 0} ⦃fl : Floats F⦄ (n : ℕ) (e : Endian) (v : F) → IsExact n v → Packs (floating n) e v
unfolding pack_bits
floating-Packs ⦃fl⦄ n e v h =
    let p = unsigned-Packs n e h.bits h.fits in
    record {
      bytes = p.bytes;
      packed = rw h.rounded p.packed;
      sized = p.sized;
      are_bytes = p.are_bytes;
      unpacked = ap (fl.of_bits n) p.unpacked ∙ h.exact;
    }
