-- ===== src/Buffer/Invariant.antt =====
-- The invariant of `Buffer`: no cursor stands behind both the end of the bytes and the furthest place
-- that was sought, and the bytes are bytes.
use gtools.Prelude.{
  ℕ, max, ◌+◌, ◌-◌, ◌≤◌, [], ◌∷◌, refl, Bool, arith, length, drop, Option, some, none, All,
  All-take, length-drop, length-take, ℤ, pos, negsuc, Bool-cases, inl, inr,
}
use gtools.Python.Exec.{Result, ok, err, continue}
use gtools.Python.Struct.{Bytes, Format, unsigned}
use gtools.Python.Struct.Words.{IsByte}
use gtools.Python.Struct.Laws.{Packs}
use gtools.Buffer.Raw.{Buffer, read_raw, read_raw_back, write_raw}
use gtools.Buffer.Values.{
  read_fmt, write_fmt, read_bytes, peek, cstring_loop, read_cstring, read_pascal_bytes,
}
use gtools.Buffer.Seek.{
  seek_target, to_position, at_read, at_write, seek_read, seek_write, truncate, clear,
}
use gtools.Buffer.Frame.{write_raw_bytes, write_raw-IsByte}
use gtools.Buffer.RoundTrip.{write_fmt_lem}

-- No cursor stands behind both the end of the bytes and the place m.
pub record IsValid (m : ℕ) (s : Buffer) : Type 0 where
  pub read_within : s.rpos ≤ max (length s.buffer) m
  pub write_within : s.wpos ≤ max (length s.buffer) m
  pub bytes : All IsByte s.buffer

-- The place that a seek returns, or 0 where it raises.
abbrev pub sought : Result ℕ → ℕ
sought (ok n) = n
sought (err e) = 0

-- One call of a method, whatever it returns or raises. A write is given what it writes in packed
-- form; a seek may go anywhere, and the number is the place it went to; a context manager sets the
-- direction of reading.
pub data Step : ℕ → Buffer → Buffer → Type 1 where
  reads : {A : Type 0} (f : Format A) (s : Buffer) → Step 0 s (read_fmt f s).1
  writes :
      {A : Type 0} {f : Format A} {v : A} (s : Buffer)
      → Packs f s.endian v
      → Step 0 s (write_fmt f v s).1
  reads_bytes : (n : Option ℕ) (s : Buffer) → Step 0 s (read_bytes n s).1
  writes_bytes : (b : Bytes) (s : Buffer) → All IsByte b → Step 0 s (write_raw b s).1
  peeks : (n : Option ℕ) (s : Buffer) → Step 0 s (peek n s).1
  reads_cstring : (s : Buffer) → Step 0 s (read_cstring s).1
  reads_pascal : (n : ℕ) (s : Buffer) → Step 0 s (read_pascal_bytes n s).1
  seeks_read :
      (o : ℤ) (whence : ℕ) (s : Buffer)
      → Step (sought (seek_read o whence s).0) s (seek_read o whence s).1
  seeks_write :
      (o : ℤ) (whence : ℕ) (s : Buffer)
      → Step (sought (seek_write o whence s).0) s (seek_write o whence s).1
  truncates : (n : Option ℤ) (s : Buffer) → Step 0 s (truncate n s).1
  clears : (s : Buffer) → Step 0 s (clear s)
  turns : (r : Bool) (s : Buffer) → Step 0 s (record s { reverse_read = r })

-- Calls one after another, with the furthest place that a seek went to.
pub data Reach (s : Buffer) : ℕ → Buffer → Type 1 where
  here : Reach s 0 s
  next : {m n : ℕ} {t u : Buffer} → Reach s m t → Step n t u → Reach s (max m n) u

further : {m : ℕ} (n : ℕ) (s : Buffer) → IsValid m s → IsValid (max m n) s
further n s v = record {
  read_within = omega (arith, v.read_within);
  write_within = omega (arith, v.write_within);
  bytes = v.bytes;
}

read_raw-IsValid : {m : ℕ} → (n : ℕ) (s : Buffer) → IsValid m s → IsValid m (read_raw n s).1
unfolding read_raw
read_raw-IsValid n s v = ground arith

read_raw_back-IsValid :
    {m : ℕ} → (n : ℕ) (s : Buffer) → IsValid m s → IsValid m (read_raw_back n s).1
unfolding read_raw_back
read_raw_back-IsValid n s v = ground arith

read_fmt-IsValid :
    {m : ℕ} → {A : Type 0} (f : Format A) (s : Buffer) → IsValid m s → IsValid m (read_fmt f s).1
unfolding read_fmt
read_fmt-IsValid f s v =
    ground (arith, read_raw-IsValid f.size s v, read_raw_back-IsValid f.size s v)

read_bytes-IsValid :
    {m : ℕ} → (n : Option ℕ) (s : Buffer) → IsValid m s → IsValid m (read_bytes n s).1
unfolding read_bytes
read_bytes-IsValid none s v = ground (arith, read_raw-IsValid (length s.buffer - s.rpos) s v)
read_bytes-IsValid (some n) s v =
    ground (arith, read_raw-IsValid n s v, read_raw_back-IsValid n s v)

write_raw-IsValid :
    {m : ℕ} → (b : Bytes) (s : Buffer) → All IsByte b → IsValid m s → IsValid m (write_raw b s).1
write_raw-IsValid b s k v =
    let (w, sizes, wpos, rpos) = write_raw_bytes s b in
    record {
      read_within = omega (arith, v.read_within);
      write_within = omega arith;
      bytes = write_raw-IsByte s b v.bytes k;
    }

cstring_loop-IsValid :
    {m : ℕ}
    → (b : Bytes) (start : ℕ) (s : Buffer) → length b + s.rpos ≤ max (length s.buffer) m
    → IsValid m s
    → IsValid m (cstring_loop b start s).1
unfolding cstring_loop
cstring_loop-IsValid [] start s h v = v
cstring_loop-IsValid (x ∷ b) start s h v = ground (
  arith,
  cstring_loop-IsValid b start (record s { rpos = s.rpos + 1 }) (omega arith)
      (record { read_within = omega arith; write_within = v.write_within; bytes = v.bytes }),
)

read_cstring-IsValid : {m : ℕ} → (s : Buffer) → IsValid m s → IsValid m (read_cstring s).1
unfolding read_cstring
read_cstring-IsValid s v = ground (
  arith,
  cstring_loop-IsValid (drop s.rpos s.buffer) s.rpos s
      (omega (arith, length-drop s.rpos s.buffer, v.read_within)) v,
)

read_pascal-IsValid :
    {m : ℕ} → (n : ℕ) (s : Buffer) → IsValid m s → IsValid m (read_pascal_bytes n s).1
unfolding read_pascal_bytes
read_pascal-IsValid {m = m} n s v = elim (Bool-cases s.reverse_read) [
  | inl r ↦ ground (arith, r)
  | inr r ↦ simp r (rest (read_fmt (unsigned n) s) (read_fmt-IsValid (unsigned n) s v))
]
  where
    rest :
        (p : Result ℕ × Buffer)
        → IsValid m p.1
        → IsValid m (continue p (λ count. read_bytes (some count))).1
    rest (ok count, t) w = read_bytes-IsValid (some count) t w
    rest (err e, t) w = w

peek-IsValid : {m : ℕ} → (n : Option ℕ) (s : Buffer) → IsValid m s → IsValid m (peek n s).1
unfolding peek
peek-IsValid none s v = ground arith
peek-IsValid (some n) s v = ground arith

truncate-IsValid : {m : ℕ} → (n : Option ℤ) (s : Buffer) → IsValid m s → IsValid m (truncate n s).1
unfolding truncate
truncate-IsValid none s v =
    ground (arith, All-take IsByte s.wpos s.buffer v.bytes, length-take s.wpos s.buffer)
truncate-IsValid (some (pos n)) s v =
    ground (arith, All-take IsByte n s.buffer v.bytes, length-take n s.buffer)
truncate-IsValid (some (negsuc n)) s v = v

seek_read-IsValid :
    {m : ℕ} (o : ℤ) (whence : ℕ) (s : Buffer)
    → IsValid m s
    → IsValid (max m (sought (seek_read o whence s).0)) (seek_read o whence s).1
unfolding seek_read
seek_read-IsValid {m = m} o whence s v =
    go (to_position (seek_target o whence s.rpos (length s.buffer)))
  where
    go : (r : Result ℕ) → IsValid (max m (sought (at_read s r).0)) (at_read s r).1
    go (ok n) = record {
      read_within = omega arith;
      write_within = omega (arith, v.write_within);
      bytes = v.bytes;
    }
    go (err e) = further 0 s v

seek_write-IsValid :
    {m : ℕ} (o : ℤ) (whence : ℕ) (s : Buffer)
    → IsValid m s
    → IsValid (max m (sought (seek_write o whence s).0)) (seek_write o whence s).1
unfolding seek_write
seek_write-IsValid {m = m} o whence s v =
    go (to_position (seek_target o whence s.wpos (length s.buffer)))
  where
    go : (r : Result ℕ) → IsValid (max m (sought (at_write s r).0)) (at_write s r).1
    go (ok n) = record {
      read_within = omega (arith, v.read_within);
      write_within = omega arith;
      bytes = v.bytes;
    }
    go (err e) = further 0 s v

write_fmt-IsValid :
    {m : ℕ}
    → {A : Type 0} {f : Format A} {v : A} (s : Buffer) → Packs f s.endian v
    → IsValid m s
    → IsValid m (write_fmt f v s).1
write_fmt-IsValid s p v = rw (write_fmt_lem p s refl) (write_raw-IsValid p.bytes s p.are_bytes v)

pub Step-IsValid : {m n : ℕ} {s t : Buffer} → Step n s t → IsValid m s → IsValid (max m n) t
Step-IsValid (reads f s) v = further 0 _ (read_fmt-IsValid f s v)
Step-IsValid (writes s p) v = further 0 _ (write_fmt-IsValid s p v)
Step-IsValid (reads_bytes n s) v = further 0 _ (read_bytes-IsValid n s v)
Step-IsValid (writes_bytes b s k) v = further 0 _ (write_raw-IsValid b s k v)
Step-IsValid (peeks n s) v = further 0 _ (peek-IsValid n s v)
Step-IsValid (reads_cstring s) v = further 0 _ (read_cstring-IsValid s v)
Step-IsValid (reads_pascal n s) v = further 0 _ (read_pascal-IsValid n s v)
Step-IsValid (seeks_read o w s) v = seek_read-IsValid o w s v
Step-IsValid (seeks_write o w s) v = seek_write-IsValid o w s v
Step-IsValid (truncates n s) v = further 0 _ (truncate-IsValid n s v)
Step-IsValid (clears s) v =
    unfold clear in record { read_within = omega arith; write_within = omega arith; bytes = tt }
Step-IsValid (turns r s) v = record {
  read_within = omega (arith, v.read_within);
  write_within = omega (arith, v.write_within);
  bytes = v.bytes;
}

-- From a buffer whose cursors lie within its bytes, whatever methods are called and whether they
-- return or raise, no cursor ends behind both the end of the bytes and the furthest place that a seek
-- went to, and the bytes stay bytes: typed, raw, peeking, C-string and length-prefixed reads, writes,
-- seeks to any place, truncation and clearing, in either direction of reading.
pub Reach-IsValid :
    {s : Buffer} {m : ℕ} {t : Buffer}
    → Reach s m t
    → s.rpos ≤ length s.buffer
    → s.wpos ≤ length s.buffer
    → All IsByte s.buffer
    → IsValid m t
Reach-IsValid here r w b = record {
  read_within = omega (arith, r);
  write_within = omega (arith, w);
  bytes = b;
}
Reach-IsValid (next q st) r w b = Step-IsValid st (Reach-IsValid q r w b)
