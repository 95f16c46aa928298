-- ===== src/Buffer/Values.antt =====
-- Typed reads and writes: one format character at a time, byte runs, C strings and length-prefixed
-- byte strings.
use gtools.Prelude.{
  ℕ, ◌+◌, ◌-◌, ◌++◌, Bool, [], ◌∷◌, Option, none, some, min, ltb, if◌then◌else◌, ◌==◌, length,
  slice, drop, ℤ,
}
use gtools.Python.Exec.{Exec, ok, err, eof_error, not_implemented, raise, lift, gets, ◌>>=◌, ◌>>◌}
use gtools.Python.Struct.{Bytes, Format, unsigned, signed, boolean, Floats, floating, unpack_from}
use gtools.Buffer.Raw.{Buffer, read_raw, read_raw_back, write_raw}

-- `_read_raw(size) if not self.reverse_read else _read_raw_back(size)`
pub read_directed : ℕ → Exec Buffer Bytes
read_directed n s = if s.reverse_read then read_raw_back n s else read_raw n s

module _ {A : Type 0} (f : Format A) where
  unfoldable pub read_fmt : Exec Buffer A
  unfolding read_directed unpack_from
  read_fmt = do raw ← read_directed f.size; e ← gets (λ s. s.endian); lift (unpack_from f e raw)

  unfoldable pub write_fmt : A → Exec Buffer Unit
  write_fmt v = do e ← gets (λ s. s.endian); packed ← lift (f.pack e v); write_raw packed

abbrev pub read_u8 : Exec Buffer ℕ
read_u8 = read_fmt (unsigned 1)

abbrev pub read_u16 : Exec Buffer ℕ
read_u16 = read_fmt (unsigned 2)

abbrev pub read_u32 : Exec Buffer ℕ
read_u32 = read_fmt (unsigned 4)

abbrev pub read_u64 : Exec Buffer ℕ
read_u64 = read_fmt (unsigned 8)

abbrev pub read_i8 : Exec Buffer ℤ
read_i8 = read_fmt (signed 1)

abbrev pub read_i16 : Exec Buffer ℤ
read_i16 = read_fmt (signed 2)

abbrev pub read_i32 : Exec Buffer ℤ
read_i32 = read_fmt (signed 4)

abbrev pub read_i64 : Exec Buffer ℤ
read_i64 = read_fmt (signed 8)

abbrev pub read_bool : Exec Buffer Bool
read_bool = read_fmt boolean

abbrev pub write_u8 : ℕ → Exec Buffer Unit
write_u8 = write_fmt (unsigned 1)

abbrev pub write_u16 : ℕ → Exec Buffer Unit
write_u16 = write_fmt (unsigned 2)

abbrev pub write_u32 : ℕ → Exec Buffer Unit
write_u32 = write_fmt (unsigned 4)

abbrev pub write_u64 : ℕ → Exec Buffer Unit
write_u64 = write_fmt (unsigned 8)

abbrev pub write_i8 : ℤ → Exec Buffer Unit
write_i8 = write_fmt (signed 1)

abbrev pub write_i16 : ℤ → Exec Buffer Unit
write_i16 = write_fmt (signed 2)

abbrev pub write_i32 : ℤ → Exec Buffer Unit
write_i32 = write_fmt (signed 4)

abbrev pub write_i64 : ℤ → Exec Buffer Unit
write_i64 = write_fmt (signed 8)

abbrev pub write_bool : Bool → Exec Buffer Unit
write_bool = write_fmt boolean

module _ {F : Type 0} ⦃fl : Floats F⦄ where
  abbrev pub read_f32 : Exec Buffer F
  read_f32 = read_fmt (floating 4)

  abbrev pub write_f32 : F → Exec Buffer Unit
  write_f32 = write_fmt (floating 4)

  abbrev pub read_f64 : Exec Buffer F
  read_f64 = read_fmt (floating 8)

  abbrev pub write_f64 : F → Exec Buffer Unit
  write_f64 = write_fmt (floating 8)

-- The count `none` is -1, all that is left. Where the cursor stands past the end, that is a negative
-- count: `_read_raw` returns no bytes, and moves the cursor back to the end.
unfoldable pub read_bytes : Option ℕ → Exec Buffer Bytes
read_bytes none s =
    if s.reverse_read
    then (err not_implemented, s)
    else if ltb (length s.buffer) s.rpos
    then (ok [], record s { rpos = length s.buffer })
    else read_raw (length s.buffer - s.rpos) s
read_bytes (some n) s = if s.reverse_read then read_raw_back n s else read_raw n s

abbrev pub write_bytes : Bytes → Exec Buffer Unit
write_bytes = write_raw

unfoldable pub peek : Option ℕ → Exec Buffer Bytes
peek none s =
    if s.reverse_read
    then (err not_implemented, s)
    else (ok (slice s.buffer s.rpos (length s.buffer)), s)
peek (some n) s =
    if s.reverse_read
    then (ok (slice s.buffer (s.rpos - n) s.rpos), s)
    else (ok (slice s.buffer s.rpos (min (s.rpos + n) (length s.buffer))), s)

-- The loop of `read_cstring`; its first argument is what stands behind the read cursor.
unfoldable pub cstring_loop : Bytes → ℕ → Exec Buffer Bytes
cstring_loop [] start s = (err eof_error, s)
cstring_loop (b ∷ unread) start s =
    let next = record s { rpos = s.rpos + 1 } in
    let later = cstring_loop unread start next in
    if b == 0 then (ok (slice s.buffer start s.rpos), next) else later

unfoldable pub read_cstring : Exec Buffer Bytes
unfolding cstring_loop
read_cstring s =
    if s.reverse_read
    then (err not_implemented, s)
    else cstring_loop (drop s.rpos s.buffer) s.rpos s

abbrev pub write_cstring : Bytes → Exec Buffer Unit
write_cstring b = write_raw (b ++ 0 ∷ [])

-- The prefix is an unsigned format of n bytes.
unfoldable pub read_pascal_bytes : ℕ → Exec Buffer Bytes
unfolding read_bytes
read_pascal_bytes n = do
  reversed ← gets (λ s. s.reverse_read)
  if reversed
      then raise not_implemented
      else do count ← read_fmt (unsigned n); read_bytes (some count)

unfoldable pub write_pascal_bytes : ℕ → Bytes → Exec Buffer Unit
write_pascal_bytes n b = do write_fmt (unsigned n) (length b); write_bytes b
