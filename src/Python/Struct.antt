-- ===== src/Python/Struct.antt =====
-- The `struct` formats that the code uses: fixed-size integers in either byte order, `?`, and `f`
-- over a float type that the program does not implement.
pub mod Words
pub mod Laws
pub mod Fields
use Words.{le_bytes, le_value, to_word, of_word}
use mathlib.Core.List.{reverse}
use gtools.Prelude.{
  ℕ, zero, suc, ◌+◌, ◌-◌, ◌*◌, ◌/◌, ◌^◌, Bool, true, false, List, [], ◌∷◌, ltb, leb, not, ◌==◌,
  ◌&&◌, if◌then◌else◌, length, ℤ, pos, negsuc,
}
use gtools.Python.Exec.{Result, ok, err, struct_error}

abbrev pub Bytes : Type 0
Bytes = List ℕ

-- The `endian` field of `Buffer`; "=" is the byte order of the host, which is little here.
pub data Endian : Type 0 where
  little big : Endian

unfoldable pub arrange : Endian → Bytes → Bytes
arrange little b = b
arrange big b = reverse b

-- One format character: `struct.calcsize`, `struct.pack` and `struct.unpack` of it.
pub record Format {ℓ} (A : Type ℓ) : Type ℓ where
  pub size : ℕ
  pub pack : Endian → A → Result Bytes
  pub unpack : Endian → Bytes → A

-- `struct.unpack`, which wants exactly the size of the format
unfoldable pub unpack_from {ℓ} : {A : Type ℓ} → Format A → Endian → Bytes → Result A
unpack_from f e raw = if length raw == f.size then ok (f.unpack e raw) else err struct_error

unfoldable pub pack_unsigned : ℕ → Endian → ℕ → Result Bytes
pack_unsigned n e v = if ltb v (256 ^ n) then ok (arrange e (le_bytes n v)) else err struct_error

-- "B", "H", "I", "Q" at n = 1, 2, 4, 8
abbrev pub unsigned : ℕ → Format ℕ
unsigned n = record { size = n; pack = pack_unsigned n; unpack = λ e b. le_value (arrange e b) }

abbrev pub in_signed_range : ℕ → ℤ → Bool
in_signed_range half (pos v) = ltb v half
in_signed_range half (negsuc v) = ltb v half

unfoldable pub pack_signed : ℕ → Endian → ℤ → Result Bytes
pack_signed n e v =
    if in_signed_range (256 ^ n / 2) v
    then ok (arrange e (le_bytes n (to_word (256 ^ n) v)))
    else err struct_error

-- "b", "h", "i", "q"
abbrev pub signed : ℕ → Format ℤ
signed n = record {
  size = n;
  pack = pack_signed n;
  unpack = λ e b. of_word (256 ^ n) (le_value (arrange e b));
}

-- "?"
abbrev pub boolean : Format Bool
boolean = record {
  size = 1;
  pack = λ e v. ok (arrange e ((if v then 1 else 0) ∷ []));
  unpack = λ e b. not (le_value (arrange e b) == 0);
}

-- Floats are not code of the program: `to_bits` is the rounding of a Python float to a format of
-- n bytes, `struct.pack`, which raises on overflow, and `of_bits` reads a bit pattern back.
pub record Floats (F : Type 0) : Type 0 where
  pub to_bits : ℕ → F → Result ℕ
  pub of_bits : ℕ → ℕ → F

unfoldable pub pack_bits : ℕ → Endian → Result ℕ → Result Bytes
pack_bits n e (ok p) = pack_unsigned n e p
pack_bits n e (err x) = err x

-- "f" and "d" at n = 4, 8
abbrev pub floating : {F : Type 0} ⦃fl : Floats F⦄ → ℕ → Format F
floating ⦃fl⦄ n = record {
  size = n;
  pack = λ e v. pack_bits n e (fl.to_bits n v);
  unpack = λ e b. fl.of_bits n (le_value (arrange e b));
}
