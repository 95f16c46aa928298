-- ===== src/Buffer/RoundTrip.antt =====
-- What was written can be read back: for every format and every state of the buffer, forwards from
-- where the write began and backwards from where it ended.
use gtools.Prelude.{
  ℕ, ◌+◌, ◌-◌, ◌++◌, ◌≤◌, ◌≡◌, refl, sym, Bool, false, true, arith, length, slice_middle,
  length-append, append_assoc, not_lt→ltb,
}
use gtools.Python.Exec.{ok}
use gtools.Python.Struct.{Bytes, Endian, Format}
use gtools.Python.Struct.Laws.{Packs}
use gtools.Buffer.Raw.{Buffer, read_raw, read_raw_back, write_raw}
use gtools.Buffer.Values.{read_fmt, write_fmt}
use gtools.Buffer.Frame.{front, back, length-front, write_raw_lem}

-- A buffer that is read forwards: the bytes before the cursor, and those behind it.
abbrev pub reading : Endian → ℕ → Bytes → Bytes → Buffer
reading e w done rest = record {
  buffer = done ++ rest;
  rpos = length done;
  wpos = w;
  endian = e;
  reverse_read = false;
}

pub read_raw-reading :
    (e : Endian) (w n : ℕ) (done b rest : Bytes)
    → n ≡ length b
    → read_raw n (reading e w done (b ++ rest)) ≡ (ok b, reading e w (done ++ b) rest)
unfolding read_raw
read_raw-reading e w n done b rest h =
    rw
      (
        not_lt→ltb (length (done ++ (b ++ rest))) (length done + n) fits,
        slice_middle done b rest (length done) (length done + n) refl (omega arith),
      )
      (ground (arith, append_assoc done b rest, length-append done b))
  where
    fits : length done + n ≤ length (done ++ (b ++ rest))
    fits = omega (arith, length-append done (b ++ rest), length-append b rest)

module _ {A : Type 0} {f : Format A} {e : Endian} {v : A} (p : Packs f e v) where
  pub read_fmt-reading :
      (w : ℕ) (done rest : Bytes)
      → read_fmt f (reading e w done (p.bytes ++ rest)) ≡ (ok v, reading e w (done ++ p.bytes) rest)
  unfolding read_fmt
  read_fmt-reading w done rest =
      rw (read_raw-reading e w f.size done p.bytes rest (sym p.sized))
        (ground (arith, p.sized, p.unpacked))

  pub write_fmt_lem : (s : Buffer) → s.endian ≡ e → write_fmt f v s ≡ write_raw p.bytes s
  unfolding write_fmt
  write_fmt_lem s h = ground (arith, p.packed)

-- What a raw write wrote, a raw read of as many bytes at the start of the write returns, in either
-- mode of reading (a raw read does not look at it).
pub read_raw-write_raw :
    (s : Buffer) (b : Bytes) (r : Bool) (n : ℕ)
    → length b ≡ n
    → read_raw n (record (write_raw b s).1 { rpos = s.wpos; reverse_read = r })
      ≡ (ok b, record (write_raw b s).1 { rpos = s.wpos + n; reverse_read = r })
unfolding read_raw
read_raw-write_raw s b r n h =
    rw (← h, write_raw_lem s b)
      (rw (
        not_lt→ltb (length (front s b ++ (b ++ back s b))) (s.wpos + length b) fits,
        slice_middle (front s b) b (back s b) s.wpos (s.wpos + length b) (sym (length-front s b))
            (omega (arith, length-front s b)),
      ))
  where
    fits : s.wpos + length b ≤ length (front s b ++ (b ++ back s b))
    fits = omega (
      arith,
      length-append (front s b) (b ++ back s b),
      length-append b (back s b),
      length-front s b,
    )

-- And a raw read backwards from the end of the write.
pub read_raw_back-write_raw :
    (s : Buffer) (b : Bytes) (r : Bool) (n : ℕ)
    → length b ≡ n
    → read_raw_back n (record (write_raw b s).1 { rpos = s.wpos + n; reverse_read = r })
      ≡ (ok b, record (write_raw b s).1 { rpos = s.wpos; reverse_read = r })
unfolding read_raw_back
read_raw_back-write_raw s b r n h =
    rw (← h, write_raw_lem s b)
      (rw (
        not_lt→ltb (s.wpos + length b) (length b) (omega arith),
        back_to s.wpos (length b),
        slice_middle (front s b) b (back s b) s.wpos (s.wpos + length b) (sym (length-front s b))
            (omega (arith, length-front s b)),
      ))
  where
    back_to : (w n : ℕ) → w + n - n ≡ w
    back_to w n = omega arith

module _ {A : Type 0} {f : Format A} {e : Endian} {v : A} (p : Packs f e v) where
  read_fmt-forwards :
      (s t : Buffer)
      → read_raw f.size s ≡ (ok p.bytes, t)
      → s.reverse_read ≡ false
      → t.endian ≡ e
      → read_fmt f s ≡ (ok v, t)
  unfolding read_fmt
  read_fmt-forwards s t h r q = ground (arith, p.sized, p.unpacked)

  read_fmt-backwards :
      (s t : Buffer)
      → read_raw_back f.size s ≡ (ok p.bytes, t)
      → s.reverse_read ≡ true
      → t.endian ≡ e
      → read_fmt f s ≡ (ok v, t)
  unfolding read_fmt
  read_fmt-backwards s t h r q = ground (arith, p.sized, p.unpacked)

pub endian-write_raw : (s : Buffer) (b : Bytes) → (write_raw b s).1.endian ≡ s.endian
endian-write_raw s b = rw (write_raw_lem s b)

-- A value that its format can hold is written without an error, at any write cursor, and is read
-- back by the same format: forwards from where the write began, which leaves the read cursor
-- where the write ended, and backwards from there, which leaves it where the write began.
pub read_fmt-write_fmt :
    {A : Type 0} {f : Format A} {v : A} (s : Buffer)
    → Packs f s.endian v
    → ((write_fmt f v s).0 ≡ ok tt)
      × (read_fmt f (record (write_fmt f v s).1 { rpos = s.wpos; reverse_read = false })
          ≡ (ok v, record (write_fmt f v s).1 { rpos = s.wpos + f.size; reverse_read = false }))
      × (read_fmt f (record (write_fmt f v s).1 { rpos = s.wpos + f.size; reverse_read = true })
          ≡ (ok v, record (write_fmt f v s).1 { rpos = s.wpos; reverse_read = true }))
read_fmt-write_fmt {f} {v} s p = rw (write_fmt_lem p s refl) (
  rw (write_raw_lem s p.bytes),
  read_fmt-forwards p _ _ (read_raw-write_raw s p.bytes false f.size p.sized) refl
      (endian-write_raw s p.bytes),
  read_fmt-backwards p _ _ (read_raw_back-write_raw s p.bytes true f.size p.sized) refl
      (endian-write_raw s p.bytes),
)
