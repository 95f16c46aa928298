-- ===== src/Tests/VariantTests.antt =====
-- Variants, with floats that are their own bit patterns.
use gtools.Prelude.{ℕ, ◌++◌, List, [], ◌∷◌, ◌≡◌, refl, arith, pos, negsuc}
use gtools.Python.Exec.{ok, err, value_error}
use gtools.Python.Struct.{Bytes, Floats, pack_unsigned, pack_signed, pack_bits, arrange}
use gtools.Python.Struct.Words.{le_bytes, le_value, to_word, of_word}
use gtools.Buffer.Raw.{read_raw, write_raw}
use gtools.Buffer.Values.{
  read_fmt, write_fmt, read_bytes, peek, read_pascal_bytes, write_pascal_bytes,
}
use gtools.Variant.Value.{Value, vstr, vint, parse_kind}
use gtools.Variant.Wire.{
  serialize, write_elements, write_element, deserialize, read_elements, read_element, read_payload,
  get,
}
use gtools.Variant.RoundTrip.{deserialize-serialize}
use gtools.Variant.Indexing.{get-deserialize}
use gtools.Variant.Truncation.{deserialize_cut}

instance abbrev pub patterns : Floats ℕ
patterns = record { to_bits = λ n v. ok v; of_bits = λ n v. v }

abbrev pub greeting : List (Value ℕ)
greeting = vstr (72 ∷ 105 ∷ []) ∷ vint (negsuc 1) ∷ []

abbrev pub greeting_bytes : Bytes
greeting_bytes = 2 ∷ 0 ∷ 2 ∷ 2 ∷ 0 ∷ 0 ∷ 0 ∷ 72 ∷ 105 ∷ 1 ∷ 9 ∷ 254 ∷ 255 ∷ 255 ∷ 255 ∷ []

pub greeting_written : serialize greeting ≡ ok greeting_bytes
unfolding serialize write_elements write_element write_fmt write_pascal_bytes write_raw
    pack_unsigned pack_signed pack_bits arrange le_bytes to_word
greeting_written = refl

greeting_read : deserialize greeting_bytes ≡ ok greeting
unfolding deserialize read_elements read_element read_payload parse_kind read_fmt read_raw
    read_bytes peek read_pascal_bytes arrange le_value of_word
greeting_read = refl

cut_short : deserialize {F = ℕ} (2 ∷ 0 ∷ 2 ∷ 2 ∷ 0 ∷ 0 ∷ 0 ∷ 72 ∷ []) ≡ ok []
unfolding deserialize read_elements read_element read_payload parse_kind read_fmt read_raw
    read_bytes peek read_pascal_bytes arrange le_value of_word
cut_short = refl

deserialize-serialize_example :
    (b : Bytes) × (serialize greeting ≡ ok b) × (deserialize b ≡ ok greeting)
deserialize-serialize_example =
    deserialize-serialize greeting (omega arith) (omega arith, (refl, tt))

get-deserialize_example : get {F = ℕ} greeting_bytes (pos 1) ≡ ok (vint (negsuc 1))
get-deserialize_example =
    get-deserialize greeting_bytes greeting 1 (λ e. absurd (cc e)) greeting_read

get_past_end : get {F = ℕ} greeting_bytes (pos 2) ≡ err value_error
get_past_end = get-deserialize greeting_bytes greeting 2 (λ e. absurd (cc e)) greeting_read

abbrev first : List (Value ℕ)
first = vstr (72 ∷ 105 ∷ []) ∷ []

first_written : serialize first ≡ ok (1 ∷ 0 ∷ 2 ∷ 2 ∷ 0 ∷ 0 ∷ 0 ∷ 72 ∷ 105 ∷ [])
unfolding serialize write_elements write_element write_fmt write_pascal_bytes write_raw
    pack_unsigned pack_signed pack_bits arrange le_bytes to_word
first_written = refl

deserialize_cut_example :
    deserialize (2 ∷ ((0 ∷ 2 ∷ 2 ∷ 0 ∷ 0 ∷ 0 ∷ 72 ∷ 105 ∷ []) ++ (1 ∷ 9 ∷ 254 ∷ []))) ≡ ok first
deserialize_cut_example =
    deserialize_cut first (vint (negsuc 1)) 2 1 2 255 (0 ∷ 2 ∷ 2 ∷ 0 ∷ 0 ∷ 0 ∷ 72 ∷ 105 ∷ [])
      (1 ∷ 9 ∷ 254 ∷ []) (255 ∷ 255 ∷ []) (omega arith, tt) refl (omega arith) (omega arith)
      first_written greeting_written
