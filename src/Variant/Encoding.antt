-- ===== src/Variant/Encoding.antt =====
-- The bytes of one element, on the growing buffer and on the one that is read.
use gtools.Prelude.{
  ℕ, ◌+◌, ◌/◌, ◌^◌, ◌<◌, ◌++◌, ◌∷◌, ◌≡◌, ap, true, none, some, length, length-append, append_assoc,
  arith, ℤ,
}
use native.Mathlib.Decide.{dec_lt}
use gtools.Python.Exec.{ok}
use gtools.Python.Struct.{
  Bytes, little, Floats, unsigned as u, signed as i, floating, in_signed_range,
}
use gtools.Python.Struct.Laws.{Packs, IsExact, unsigned-Packs, signed-Packs, floating-Packs}
use gtools.Buffer.Raw.{make}
use gtools.Buffer.RoundTrip.{reading, read_fmt-reading}
use gtools.Buffer.Strings.{write_fmt-make, write_pascal_bytes-make, read_pascal_bytes-reading}
use gtools.Variant.Value.{string, Value, vfloat, vstr, vvec2, vvec3, vuint, vint, kind}
use gtools.Variant.Wire.{write_payload, read_payload}
use gtools.Variant.Remaining.{
  short, long, enough, peek_prefix, peek_front, whole_prefix, prefix_value,
}

module _ {F : Type 0} ⦃fl : Floats F⦄ where
  -- What `struct` can pack: floats that binary32 holds, lengths and numbers of 32 bits.
  abbrev pub IsWritable : Value F → Type 0
  IsWritable (vfloat x) = IsExact 4 x
  IsWritable (vstr b) = length b < 256 ^ 4
  IsWritable (vvec2 x y) = IsExact 4 x × IsExact 4 y
  IsWritable (vvec3 x y z) = IsExact 4 x × IsExact 4 y × IsExact 4 z
  IsWritable (vuint v) = v < 256 ^ 4
  IsWritable (vint v) = in_signed_range (256 ^ 4 / 2) v ≡ true

  pub record Encodes (v : Value F) : Type 0 where
    pub payload : Bytes
    pub writes :
        (done : Bytes) → write_payload v (make done little) ≡ (ok tt, make (done ++ payload) little)
    pub reads :
        (w : ℕ) (done rest : Bytes)
        → read_payload (kind v) (reading little w done (payload ++ rest))
          ≡ (ok (some v), reading little w (done ++ payload) rest)
    pub cut :
        (w : ℕ) (done front back : Bytes) (x : ℕ)
        → payload ≡ front ++ x ∷ back
        → read_payload {F = F} (kind v) (reading little w done front)
          ≡ (ok none, reading little w done front)

  Encodes-vfloat : (x : F) → Packs (floating 4) little x → Encodes (vfloat x)
  unfolding write_payload read_payload
  Encodes-vfloat x p = record {
    payload = p.bytes;
    writes = write_fmt-make p;
    reads = λ w done rest.
        rw (enough 4 w done p.bytes rest (omega (arith, p.sized)), read_fmt-reading p w done rest);
    cut = λ w done front back x e. rw (
        short 4 w done front (omega (arith, ap length e, length-append front (x ∷ back), p.sized)));
  }

  Encodes-vuint : (v : ℕ) → Packs (u 4) little v → Encodes (vuint v)
  unfolding write_payload read_payload
  Encodes-vuint v p = record {
    payload = p.bytes;
    writes = write_fmt-make p;
    reads = λ w done rest.
        rw (enough 4 w done p.bytes rest (omega (arith, p.sized)), read_fmt-reading p w done rest);
    cut = λ w done front back x e. rw (
        short 4 w done front (omega (arith, ap length e, length-append front (x ∷ back), p.sized)));
  }

  Encodes-vint : (v : ℤ) → Packs (i 4) little v → Encodes (vint v)
  unfolding write_payload read_payload
  Encodes-vint v p = record {
    payload = p.bytes;
    writes = write_fmt-make p;
    reads = λ w done rest.
        rw (enough 4 w done p.bytes rest (omega (arith, p.sized)), read_fmt-reading p w done rest);
    cut = λ w done front back x e. rw (
        short 4 w done front (omega (arith, ap length e, length-append front (x ∷ back), p.sized)));
  }

  Encodes-vvec2 :
      (x y : F) → Packs (floating 4) little x → Packs (floating 4) little y → Encodes (vvec2 x y)
  unfolding write_payload read_payload
  Encodes-vvec2 x y p q = record {
    payload = p.bytes ++ q.bytes;
    writes = λ done. rw (
      write_fmt-make p done,
      write_fmt-make q (done ++ p.bytes),
      append_assoc done p.bytes q.bytes,
    );
    reads = λ w done rest. rw (
      enough 8 w done (p.bytes ++ q.bytes) rest
          (omega (arith, length-append p.bytes q.bytes, p.sized, q.sized)),
      append_assoc p.bytes q.bytes rest,
      read_fmt-reading p w done (q.bytes ++ rest),
      read_fmt-reading q w (done ++ p.bytes) rest,
      append_assoc done p.bytes q.bytes,
    );
    cut = λ w done front back x e. rw (
        short 8 w done front (
          omega (
            arith,
            ap length e,
            length-append front (x ∷ back),
            length-append p.bytes q.bytes,
            p.sized,
            q.sized,
          )));
  }

  Encodes-vvec3 :
      (x y z : F)
      → Packs (floating 4) little x
      → Packs (floating 4) little y
      → Packs (floating 4) little z
      → Encodes (vvec3 x y z)
  unfolding write_payload read_payload
  Encodes-vvec3 x y z p q r = record {
    payload = p.bytes ++ (q.bytes ++ r.bytes);
    writes = λ done. rw (
      write_fmt-make p done,
      write_fmt-make q (done ++ p.bytes),
      write_fmt-make r (done ++ p.bytes ++ q.bytes),
      append_assoc (done ++ p.bytes) q.bytes r.bytes,
      append_assoc done p.bytes (q.bytes ++ r.bytes),
    );
    reads = λ w done rest. rw (
      enough 12 w done (p.bytes ++ (q.bytes ++ r.bytes)) rest (
          omega (
            arith,
            length-append p.bytes (q.bytes ++ r.bytes),
            length-append q.bytes r.bytes,
            p.sized,
            q.sized,
            r.sized,
          )),
      append_assoc p.bytes (q.bytes ++ r.bytes) rest,
      append_assoc q.bytes r.bytes rest,
      read_fmt-reading p w done (q.bytes ++ (r.bytes ++ rest)),
      read_fmt-reading q w (done ++ p.bytes) (r.bytes ++ rest),
      read_fmt-reading r w (done ++ p.bytes ++ q.bytes) rest,
      append_assoc (done ++ p.bytes) q.bytes r.bytes,
      append_assoc done p.bytes (q.bytes ++ r.bytes),
    );
    cut = λ w done front back x e. rw (
        short 12 w done front (
          omega (
            arith,
            ap length e,
            length-append front (x ∷ back),
            length-append p.bytes (q.bytes ++ r.bytes),
            length-append q.bytes r.bytes,
            p.sized,
            q.sized,
            r.sized,
          )));
  }

  string_cut :
      (b : Bytes) (p : Packs (u 4) little (length b)) (w : ℕ) (done front back : Bytes) (x : ℕ)
      → p.bytes ++ b ≡ front ++ x ∷ back
      → read_payload {F = F} string (reading little w done front)
        ≡ (ok none, reading little w done front)
  unfolding read_payload
  string_cut b p w done front back x e = elim (dec_lt (length front) 4) [
    | yes few ↦ rw (short 4 w done front few)
    | no whole ↦
        let prefix = whole_prefix b p front back x e (omega arith) in
        let missing : length front < 4 + length b =
          omega (
            arith,
            ap length e,
            length-append front (x ∷ back),
            length-append p.bytes b,
            p.sized,
          ) in
        rw (
          long 4 w done front (omega arith),
          peek_front front w done,
          prefix,
          prefix_value b p,
          short (4 + length b) w done front missing,
        )
  ]

  Encodes-vstr : (b : Bytes) → Packs (u 4) little (length b) → Encodes (vstr b)
  unfolding write_payload read_payload
  Encodes-vstr b p = record {
    payload = p.bytes ++ b;
    writes = write_pascal_bytes-make b p;
    reads = λ w done rest. rw (
      enough 4 w done (p.bytes ++ b) rest (omega (arith, length-append p.bytes b, p.sized)),
      append_assoc p.bytes b rest,
      peek_prefix b p w done (b ++ rest),
      prefix_value b p,
      ← append_assoc p.bytes b rest,
      enough (4 + length b) w done (p.bytes ++ b) rest
          (omega (arith, length-append p.bytes b, p.sized)),
      append_assoc p.bytes b rest,
      read_pascal_bytes-reading b p w done rest,
    );
    cut = λ w done front back x e. string_cut b p w done front back x e;
  }

  -- Every writable value has an encoding.
  pub encode : (v : Value F) → IsWritable v → Encodes v
  encode (vfloat x) h = Encodes-vfloat x (floating-Packs 4 little x h)
  encode (vstr b) h = Encodes-vstr b (unsigned-Packs 4 little (length b) h)
  encode (vvec2 x y) h =
      Encodes-vvec2 x y (floating-Packs 4 little x h.0) (floating-Packs 4 little y h.1)
  encode (vvec3 x y z) h =
      Encodes-vvec3 x y z (floating-Packs 4 little x h.0) (floating-Packs 4 little y h.1)
        (floating-Packs 4 little z h.2)
  encode (vuint v) h = Encodes-vuint v (unsigned-Packs 4 little v h)
  encode (vint v) h = Encodes-vint v (signed-Packs 4 little v h)
