-- ===== src/Variant/Truncation.antt =====
-- A message that was cut short: `deserialize` returns the values that are whole, and no error.
use gtools.Prelude.{
  ℕ, zero, suc, ◌+◌, ◌≤◌, ◌<◌, ◌++◌, List, [], ◌∷◌, ◌≡◌, refl, sym, ap, ◌∙◌, none, length,
  length-append, append_assoc, append-nil, arith, All,
}
use native.Mathlib.Decide.{dec_lt}
use gtools.Python.Exec.{ok, ok_injective}
use gtools.Python.Struct.{Bytes, little, arrange, pack_unsigned, Floats, unsigned as u}
use gtools.Python.Struct.Words.{le_bytes, le_value}
use gtools.Python.Struct.Laws.{Packs}
use gtools.Buffer.Raw.{Buffer, make}
use gtools.Buffer.Values.{read_u8}
use gtools.Buffer.RoundTrip.{reading, read_fmt-reading}
use gtools.Variant.Value.{Value, kind}
use gtools.Variant.Wire.{read_element, read_elements, serialize, deserialize}
use gtools.Variant.Remaining.{short}
use gtools.Variant.Encoding.{Encodes, IsWritable, encode}
use gtools.Variant.RoundTrip.{
  header, length-header, read_element-header, element_bytes, elements_bytes, read_element-reading,
  byte, wire, serialize_lem, deserialize_lem,
}

-- A list that is equal to an append splits there, where its front is long enough.
split_front :
    (a b front back : Bytes)
    → a ++ b ≡ front ++ back
    → length a ≤ length front
    → (mid : Bytes) × (front ≡ a ++ mid) × (b ≡ mid ++ back)
split_front [] b front back e h = (front, refl, e)
split_front (x ∷ a) b [] back e h = absurd (omega arith)
split_front (x ∷ a) b (y ∷ front) back e h =
    let (mid, p, q) = split_front a b front back (cc e) (omega arith) in (mid, cc (e, p), q)

module _ {F : Type 0} ⦃fl : Floats F⦄ {v : Value F} (e : Encodes v) where
  -- A proper front of an element's bytes reads as the end of what is there.
  pub read_element_cut :
      (i w : ℕ) (done front back : Bytes) (x : ℕ)
      → element_bytes e i ≡ front ++ x ∷ back
      → (s : Buffer) × (read_element {F = F} (reading little w done front) ≡ (ok none, s))
  unfolding element_bytes
  read_element_cut i w done front back x h = elim (dec_lt (length front) 2) [
    | yes few ↦ (reading little w done front, unfold read_element in rw (short 2 w done front few))
    | no whole ↦
        let (mid, p, q) =
          split_front (header i (kind v)) e.payload front (x ∷ back) h
            (omega (arith, length-header i (kind v))) in
        (
          reading little w (done ++ header i (kind v)) mid,
          rw (p, read_element-header i w (kind v) done mid)
              (e.cut w (done ++ header i (kind v)) mid back x q),
        )
  ]

suc_left : (i n : ℕ) → suc i + n ≡ i + suc n
suc_left i n = omega arith

append_injective : (a b c d : Bytes) → a ++ b ≡ c ++ d → length a ≡ length c → (a ≡ c) × (b ≡ d)
append_injective [] b [] d e h = (refl, e)
append_injective [] b (y ∷ c) d e h = absurd (omega arith)
append_injective (x ∷ a) b [] d e h = absurd (omega arith)
append_injective (x ∷ a) b (y ∷ c) d e h =
    let (p, q) = append_injective a b c d (cc e) (omega arith) in (cc (e, p), q)

one_byte : (n : ℕ) → n < 256 → Packs (u 1) little n
unfolding pack_unsigned arrange le_bytes le_value
one_byte n few = record {
  bytes = n ∷ [];
  packed = ground arith;
  sized = refl;
  are_bytes = (few, tt);
  unpacked = omega arith;
}

read_one_byte :
    (n : ℕ) (few : n < 256) (bs : Bytes)
    → read_u8 (make (n ∷ bs) little) ≡ (ok n, reading little (suc (length bs)) (n ∷ []) bs)
unfolding one_byte
read_one_byte n few bs = read_fmt-reading (one_byte n few) (suc (length bs)) [] bs

module _ {F : Type 0} ⦃fl : Floats F⦄ where
  abbrev extend :
      (ws : List (Value F)) (v : Value F)
      → All IsWritable ws
      → IsWritable v
      → All IsWritable (ws ++ v ∷ [])
  extend [] v h k = (k, tt)
  extend (w ∷ ws) v h k = (h.0, extend ws v h.1 k)

  elements_bytes-append :
      (ws : List (Value F)) (h : All IsWritable ws) (v : Value F) (k : IsWritable v) (i : ℕ)
      → elements_bytes i (ws ++ v ∷ []) (extend ws v h k)
        ≡ elements_bytes i ws h ++ element_bytes (encode v k) (i + length ws)
  unfolding elements_bytes
  elements_bytes-append [] h v k i = rw append-nil (ap (element_bytes (encode v k)) (omega arith))
  elements_bytes-append (w ∷ ws) h v k i =
      ap (λ t. element_bytes (encode w h.0) i ++ t)
        (elements_bytes-append ws h.1 v k (suc i)
          ∙ ap (λ n. elements_bytes (suc i) ws h.1 ++ element_bytes (encode v k) n)
              (suc_left i (length ws)))
      ∙ sym (
          append_assoc (element_bytes (encode w h.0) i) (elements_bytes (suc i) ws h.1)
            (element_bytes (encode v k) (i + suc (length ws))))

  -- The body of a message is what stands behind its count byte.
  body :
      (vs : List (Value F)) (few : length vs < 256) (h : All IsWritable vs) (c : ℕ) (b : Bytes)
      → serialize vs ≡ ok (c ∷ b)
      → b ≡ elements_bytes 0 vs h
  unfolding wire
  body vs few h c b e =
      (append_injective (c ∷ []) b (byte (length vs) few).bytes (elements_bytes 0 vs h)
        (ok_injective (sym e ∙ serialize_lem vs few h)) (sym (byte (length vs) few).sized)).1

  read_elements_cut :
      (ws : List (Value F)) (h : All IsWritable ws) (v : Value F) (k : IsWritable v) (n i w : ℕ)
      (done front back : Bytes) (x : ℕ) (read : List (Value F))
      → element_bytes (encode v k) (i + length ws) ≡ front ++ x ∷ back
      → length ws < n
      → (read_elements n read (reading little w done (elements_bytes i ws h ++ front))).0
        ≡ ok (read ++ ws)
  unfolding read_elements elements_bytes
  read_elements_cut ws h v k zero i w done front back x read e lt = absurd (omega arith)
  read_elements_cut [] h v k (suc n) i w done front back x read e lt =
      let (s, r) = read_element_cut (encode v k) (i + 0) w done front back x e in
      rw (r, append-nil read)
  read_elements_cut (u ∷ ws) h v k (suc n) i w done front back x read e lt =
      rw
        (
          append_assoc (element_bytes (encode u h.0) i) (elements_bytes (suc i) ws h.1) front,
          read_element-reading (encode u h.0) i w done (elements_bytes (suc i) ws h.1 ++ front),
          ← append_assoc read (u ∷ []) ws,
        )
        (read_elements_cut ws h.1 v k n (suc i) w (done ++ element_bytes (encode u h.0) i) front
          back x (read ++ u ∷ []) (rw (suc_left i (length ws)) e) (omega arith))

  deserialize_count :
      (n : ℕ) (few : n < 256) (bs : Bytes)
      → deserialize {F = F} (n ∷ bs)
        ≡ (read_elements n [] (reading little (suc (length bs)) (n ∷ []) bs)).0
  deserialize_count n few bs =
      deserialize_lem (n ∷ bs) (λ e. absurd (cc e)) ∙ rw (read_one_byte n few bs)

  -- Let the message of the values ws and that of ws with one more value v be given, and let `front`
  -- be what is left of the bytes of v after a cut, none of them or all but one. Then a message that
  -- declares more values than ws has, with the body of ws and then `front`, is read as ws.
  pub deserialize_cut :
      (ws : List (Value F)) (v : Value F) (n c d x : ℕ) (b front back : Bytes)
      → All IsWritable ws
      → IsWritable v
      → length ws < n
      → n < 256
      → serialize ws ≡ ok (c ∷ b)
      → serialize (ws ++ v ∷ []) ≡ ok (d ∷ (b ++ (front ++ x ∷ back)))
      → deserialize (n ∷ (b ++ front)) ≡ ok ws
  deserialize_cut ws v n c d x b front back h k lt few whole longer =
      let this = body ws (omega arith) h c b whole in
      let next =
        body (ws ++ v ∷ []) (omega (arith, length-append ws (v ∷ []))) (extend ws v h k) d
          (b ++ (front ++ x ∷ back)) longer in
      let tail : element_bytes (encode v k) (0 + length ws) ≡ front ++ x ∷ back =
        (append_injective (elements_bytes 0 ws h) (element_bytes (encode v k) (0 + length ws)) b
          (front ++ x ∷ back) (sym (elements_bytes-append ws h v k 0) ∙ sym next)
          (ap length (sym this))).1 in
      deserialize_count n few (b ++ front)
      ∙ rw this (
          read_elements_cut ws h v k n 0 (suc (length (elements_bytes 0 ws h ++ front))) (n ∷ [])
            front back x [] tail lt)
