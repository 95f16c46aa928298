-- ===== src/Variant/RoundTrip.antt =====
-- `deserialize` reads back what `serialize` wrote.
use gtools.Prelude.{
  ℕ, suc, ◌%◌, ◌^◌, ◌<◌, ◌++◌, List, [], ◌∷◌, ◌≡◌, ◌≢◌, refl, ap, ◌∙◌, some, length, length-append,
  append_assoc, append-nil, arith, All,
}
use gtools.Python.Exec.{ok, ◌>>=◌}
use gtools.Python.Struct.{Bytes, little, Floats, unsigned as u}
use gtools.Python.Struct.Laws.{Packs, unsigned-Packs}
use gtools.Buffer.Raw.{make}
use gtools.Buffer.Values.{read_u8}
use gtools.Buffer.RoundTrip.{reading, read_fmt-reading}
use gtools.Buffer.Strings.{write_fmt-make}
use gtools.Variant.Value.{
  Kind, float, string, vec2, vec3, unsigned, signed, kind_code, parse_kind, Value, kind,
}
use gtools.Variant.Wire.{
  write_element, write_elements, serialize, read_payload, read_element, read_elements, deserialize,
}
use gtools.Variant.Remaining.{enough}
use gtools.Variant.Encoding.{Encodes, IsWritable, encode}

kind_code-lt : (k : Kind) → kind_code k < 256 ^ 1
kind_code-lt float = omega arith
kind_code-lt string = omega arith
kind_code-lt vec2 = omega arith
kind_code-lt vec3 = omega arith
kind_code-lt unsigned = omega arith
kind_code-lt signed = omega arith

pub parse_kind-kind_code : (k : Kind) → parse_kind (kind_code k) ≡ ok k
unfolding parse_kind
parse_kind-kind_code float = refl
parse_kind-kind_code string = refl
parse_kind-kind_code vec2 = refl
parse_kind-kind_code vec3 = refl
parse_kind-kind_code unsigned = refl
parse_kind-kind_code signed = refl

pub byte : (v : ℕ) → v < 256 ^ 1 → Packs (u 1) little v
byte v h = unsigned-Packs 1 little v h

index_byte : (i : ℕ) → Packs (u 1) little (i % 256)
index_byte i = byte (i % 256) (omega arith)

kind_byte : (k : Kind) → Packs (u 1) little (kind_code k)
kind_byte k = byte (kind_code k) (kind_code-lt k)

-- The two bytes in front of the payload.
pub header : ℕ → Kind → Bytes
header i k = (index_byte i).bytes ++ (kind_byte k).bytes

pub length-header : (i : ℕ) (k : Kind) → length (header i k) ≡ 2
unfolding header
length-header i k = omega (
  arith,
  length-append (index_byte i).bytes (kind_byte k).bytes,
  (index_byte i).sized,
  (kind_byte k).sized,
)

module _ {F : Type 0} ⦃fl : Floats F⦄ where
  -- Behind a header that is whole, what `read_element` does is up to the payload.
  pub read_element-header :
      (i w : ℕ) (k : Kind) (done rest : Bytes)
      → read_element {F = F} (reading little w done (header i k ++ rest))
        ≡ read_payload k (reading little w (done ++ header i k) rest)
  unfolding read_element header
  read_element-header i w k done rest = rw (
    enough 2 w done (header i k) rest (omega (arith, length-header i k)),
    append_assoc (index_byte i).bytes (kind_byte k).bytes rest,
    read_fmt-reading (index_byte i) w done ((kind_byte k).bytes ++ rest),
    read_fmt-reading (kind_byte k) w (done ++ (index_byte i).bytes) rest,
    parse_kind-kind_code k,
    append_assoc done (index_byte i).bytes (kind_byte k).bytes,
  )

  module _ {v : Value F} (e : Encodes v) where
    unfoldable pub element_bytes : ℕ → Bytes
    element_bytes i = header i (kind v) ++ e.payload

    write_element-make :
        (i : ℕ) (done : Bytes)
        → write_element i v (make done little) ≡ (ok tt, make (done ++ element_bytes i) little)
    unfolding write_element element_bytes header
    write_element-make i done = rw (
      write_fmt-make (index_byte i) done,
      write_fmt-make (kind_byte (kind v)) (done ++ (index_byte i).bytes),
      e.writes (done ++ (index_byte i).bytes ++ (kind_byte (kind v)).bytes),
      append_assoc done (index_byte i).bytes (kind_byte (kind v)).bytes,
      append_assoc done (header i (kind v)) e.payload,
    )

    pub read_element-reading :
        (i w : ℕ) (done rest : Bytes)
        → read_element (reading little w done (element_bytes i ++ rest))
          ≡ (ok (some v), reading little w (done ++ element_bytes i) rest)
    unfolding element_bytes
    read_element-reading i w done rest = rw (
      append_assoc (header i (kind v)) e.payload rest,
      read_element-header i w (kind v) done (e.payload ++ rest),
      e.reads w (done ++ header i (kind v)) rest,
      append_assoc done (header i (kind v)) e.payload,
    )

  unfoldable pub elements_bytes : ℕ → (vs : List (Value F)) → All IsWritable vs → Bytes
  elements_bytes i [] h = []
  elements_bytes i (v ∷ vs) h = element_bytes (encode v h.0) i ++ elements_bytes (suc i) vs h.1

  write_elements-make :
      (vs : List (Value F)) (h : All IsWritable vs) (i : ℕ) (done : Bytes)
      → write_elements i vs (make done little)
        ≡ (ok tt, make (done ++ elements_bytes i vs h) little)
  unfolding write_elements elements_bytes
  write_elements-make [] h i done = rw append-nil
  write_elements-make (v ∷ vs) h i done = rw (
    write_element-make (encode v h.0) i done,
    write_elements-make vs h.1 (suc i) (done ++ element_bytes (encode v h.0) i),
    append_assoc done (element_bytes (encode v h.0) i) (elements_bytes (suc i) vs h.1),
  )

  pub read_elements-reading :
      (vs : List (Value F)) (h : All IsWritable vs) (i w : ℕ) (done rest : Bytes)
      (out : List (Value F))
      → read_elements (length vs) out (reading little w done (elements_bytes i vs h ++ rest))
        ≡ (ok (out ++ vs), reading little w (done ++ elements_bytes i vs h) rest)
  unfolding read_elements elements_bytes
  read_elements-reading [] h i w done rest out = rw (append-nil out, append-nil done)
  read_elements-reading (v ∷ vs) h i w done rest out = rw (
    append_assoc (element_bytes (encode v h.0) i) (elements_bytes (suc i) vs h.1) rest,
    read_element-reading (encode v h.0) i w done (elements_bytes (suc i) vs h.1 ++ rest),
    read_elements-reading vs h.1 (suc i) w (done ++ element_bytes (encode v h.0) i) rest
        (out ++ v ∷ []),
    append_assoc out (v ∷ []) vs,
    append_assoc done (element_bytes (encode v h.0) i) (elements_bytes (suc i) vs h.1),
  )

  -- All that `serialize` writes.
  unfoldable pub wire : (vs : List (Value F)) → length vs < 256 → All IsWritable vs → Bytes
  wire vs few h = (byte (length vs) few).bytes ++ elements_bytes 0 vs h

  pub serialize_lem :
      (vs : List (Value F)) (few : length vs < 256) (h : All IsWritable vs)
      → serialize vs ≡ ok (wire vs few h)
  unfolding serialize wire
  serialize_lem vs few h = rw (
    write_fmt-make (byte (length vs) few) [],
    write_elements-make vs h 0 (byte (length vs) few).bytes,
  )

  pub deserialize_lem :
      (b : Bytes)
      → b ≢ []
      → deserialize {F = F} b ≡ ((do n ← read_u8; read_elements n []) (make b little)).0
  unfolding deserialize
  deserialize_lem [] h = absurd (h refl)
  deserialize_lem (x ∷ b) h = refl

  pub wire-ne-nil :
      (vs : List (Value F)) (few : length vs < 256) (h : All IsWritable vs) → wire vs few h ≢ []
  unfolding wire
  wire-ne-nil vs few h e = absurd (
      omega (
        arith,
        ap length e,
        length-append (byte (length vs) few).bytes (elements_bytes 0 vs h),
        (byte (length vs) few).sized,
      ))

  read_count :
      (vs : List (Value F)) (few : length vs < 256) (h : All IsWritable vs)
      → read_u8 (make (wire vs few h) little) ≡ (
        ok (length vs),
        reading little
            (length (wire vs few h))
            (byte (length vs) few).bytes
            (elements_bytes 0 vs h),
      )
  unfolding wire
  read_count vs few h =
      read_fmt-reading (byte (length vs) few) (length (wire vs few h)) [] (elements_bytes 0 vs h)

  read_wire :
      (vs : List (Value F)) (few : length vs < 256) (h : All IsWritable vs)
      → ((do n ← read_u8; read_elements {F = F} n []) (make (wire vs few h) little)).0 ≡ ok vs
  read_wire vs few h = rw (
    read_count vs few h,
    ← append-nil (elements_bytes 0 vs h),
    read_elements-reading vs h 0 (length (wire vs few h)) (byte (length vs) few).bytes [] [],
  )

  -- Of at most 255 values, each of which its format can hold, `serialize` makes bytes, and
  -- `deserialize` makes the same values of these bytes, in the same order.
  pub deserialize-serialize :
      (vs : List (Value F))
      → length vs < 256
      → All IsWritable vs
      → (b : Bytes) × (serialize vs ≡ ok b) × (deserialize b ≡ ok vs)
  deserialize-serialize vs few h = (
    wire vs few h,
    serialize_lem vs few h,
    deserialize_lem (wire vs few h) (wire-ne-nil vs few h) ∙ read_wire vs few h,
  )
