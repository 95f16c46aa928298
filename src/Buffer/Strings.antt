-- ===== src/Buffer/Strings.antt =====
-- C strings and length-prefixed byte strings, and the two views of a buffer that codecs work with:
-- one that only grows (`make`) and one that is read from the front (`reading`).
use gtools.Prelude.{
  ℕ, ◌+◌, ◌-◌, ◌++◌, ◌≤◌, [], ◌∷◌, ◌≡◌, ◌≢◌, refl, sym, ap, ◌∙◌, false, arith, length, drop, All,
  slice, slice_middle, length-append, drop-append_length, append_assoc, append-nil, ==_ne, drop_all,
  take_all, length-drop, take-append_length, replicate,
}
use gtools.Python.Exec.{ok, err, eof_error}
use gtools.Python.Struct.{Bytes, Endian, Format, unsigned}
use gtools.Python.Struct.Laws.{Packs}
use gtools.Buffer.Raw.{Buffer, make, ensure_capacity, write_raw}
use gtools.Buffer.Values.{
  write_fmt, cstring_loop, read_cstring, write_cstring, read_pascal_bytes, write_pascal_bytes,
}
use gtools.Buffer.Frame.{front, back, length-front, write_raw_lem, padded, length-padded}
use gtools.Buffer.RoundTrip.{reading, read_raw-reading, read_fmt-reading, write_fmt_lem}

abbrev NonZero : ℕ → Type 0
NonZero b = b ≢ 0

cstring_loop-append :
    (b rest : Bytes) (start : ℕ) (s : Buffer)
    → All NonZero b
    → cstring_loop (b ++ 0 ∷ rest) start s
      ≡ (ok (slice s.buffer start (s.rpos + length b)), record s { rpos = s.rpos + length b + 1 })
unfolding cstring_loop
cstring_loop-append [] rest start s h = ground (arith)
cstring_loop-append (x ∷ b) rest start s h =
    rw (==_ne x 0 h.0)
      (cstring_loop-append b rest start (record s { rpos = s.rpos + 1 }) h.1 ∙ ground arith)

cstring_loop_unterminated :
    (b : Bytes) (start : ℕ) (s : Buffer)
    → All NonZero b
    → cstring_loop b start s ≡ (err eof_error, record s { rpos = s.rpos + length b })
unfolding cstring_loop
cstring_loop_unterminated [] start s h = ground arith
cstring_loop_unterminated (x ∷ b) start s h =
    rw (==_ne x 0 h.0)
      (cstring_loop_unterminated b start (record s { rpos = s.rpos + 1 }) h.1 ∙ ground arith)

-- A C string that was written, at any write cursor, is read back, and the read cursor stops behind
-- its NUL. The string holds no NUL itself.
pub read_cstring-write_cstring :
    (s : Buffer) (b : Bytes)
    → All NonZero b
    → read_cstring (record (write_cstring b s).1 { rpos = s.wpos; reverse_read = false })
      ≡ (ok b, record (write_cstring b s).1 { rpos = s.wpos + length b + 1; reverse_read = false })
unfolding read_cstring
read_cstring-write_cstring s b h = rw (write_raw_lem s (b ++ 0 ∷ [])) (
    rw (
      drop-append_length f (b ++ 0 ∷ [] ++ k) s.wpos (sym (length-front s (b ++ 0 ∷ []))),
      append_assoc b (0 ∷ []) k,
      cstring_loop-append b k s.wpos _ h,
      slice_middle f b (0 ∷ k) s.wpos (s.wpos + length b) (sym (length-front s (b ++ 0 ∷ [])))
          (omega (arith, length-front s (b ++ 0 ∷ []))),
    ))
  where
    f : Bytes
    f = front s (b ++ 0 ∷ [])

    k : Bytes
    k = back s (b ++ 0 ∷ [])

-- With no NUL behind the read cursor the read fails, and leaves the cursor at the end.
pub read_cstring_unterminated :
    (s : Buffer)
    → s.reverse_read ≡ false
    → s.rpos ≤ length s.buffer
    → All NonZero (drop s.rpos s.buffer)
    → read_cstring s ≡ (err eof_error, record s { rpos = length s.buffer })
unfolding read_cstring
read_cstring_unterminated s r h n = ground (
  arith,
  cstring_loop_unterminated (drop s.rpos s.buffer) s.rpos s n,
  length-drop s.rpos s.buffer,
)

front-make : (b done : Bytes) (e : Endian) → front (make done e) b ≡ done
unfolding ensure_capacity
front-make b done e = ground (
  arith,
  take_all (length done) done,
  take-append_length done (replicate (length done + length b - length done) 0) (length done),
)

back-make : (b done : Bytes) (e : Endian) → back (make done e) b ≡ []
back-make b done e =
    drop_all (length done + length b) (padded (make done e) b)
      (omega (arith, length-padded (make done e) b))

-- A raw write at the end of a growing buffer appends.
pub write_raw-make :
    (b done : Bytes) (e : Endian) → write_raw b (make done e) ≡ (ok tt, make (done ++ b) e)
write_raw-make b done e =
    write_raw_lem (make done e) b
    ∙ rw (front-make b done e, back-make b done e, append-nil b)
        (ground (arith, length-append done b))

module _ {A : Type 0} {f : Format A} {e : Endian} {v : A} (p : Packs f e v) where
  pub write_fmt-make :
      (done : Bytes) → write_fmt f v (make done e) ≡ (ok tt, make (done ++ p.bytes) e)
  write_fmt-make done = write_fmt_lem p (make done e) refl ∙ write_raw-make p.bytes done e

module _ {n : ℕ} {e : Endian} (b : Bytes) (p : Packs (unsigned n) e (length b)) where
  pub write_pascal_bytes-make :
      (done : Bytes)
      → write_pascal_bytes n b (make done e) ≡ (ok tt, make (done ++ (p.bytes ++ b)) e)
  unfolding write_pascal_bytes
  write_pascal_bytes-make done =
      rw (write_fmt-make p done, write_raw-make b (done ++ p.bytes) e)
        (ap (λ x. (ok tt, make x e)) (append_assoc done p.bytes b))

  pub read_pascal_bytes-reading :
      (w : ℕ) (done rest : Bytes)
      → read_pascal_bytes n (reading e w done (p.bytes ++ (b ++ rest)))
        ≡ (ok b, reading e w (done ++ (p.bytes ++ b)) rest)
  unfolding read_pascal_bytes
  read_pascal_bytes-reading w done rest =
      rw
        (
          read_fmt-reading p w done (b ++ rest),
          read_raw-reading e w (length b) (done ++ p.bytes) b rest refl,
        )
        (ap (λ x. (ok b, reading e w x rest)) (append_assoc done p.bytes b))
