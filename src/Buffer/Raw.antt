-- ===== src/Buffer/Raw.antt =====
-- The state of `Buffer`, and the raw reads and writes that move its cursors.
use gtools.Prelude.{
  ℕ, ◌+◌, ◌-◌, ◌++◌, Bool, false, if◌then◌else◌, leb, ltb, ◌==◌, length, replicate, slice, splice,
}
use gtools.Python.Exec.{Exec, Result, ok, err, value_error, eof_error}
use gtools.Python.Struct.{Bytes, Endian, little, big}

pub record Buffer : Type 0 where
  pub buffer : Bytes
  pub rpos : ℕ
  pub wpos : ℕ
  pub endian : Endian
  pub reverse_read : Bool

-- Of the three accepted characters "=" is the byte order of the host.
pub parse_endian : ℕ → Result Endian
parse_endian c =
    if c == b'<'
    then ok little
    else if c == b'>'
    then ok big
    else if c == b'='
    then ok little
    else err value_error

abbrev pub make : Bytes → Endian → Buffer
make b e = record { buffer = b; rpos = 0; wpos = length b; endian = e; reverse_read = false }

with_endian : Bytes → Result Endian → Result Buffer
with_endian b (ok e) = ok (make b e)
with_endian b (err x) = err x

-- `Buffer(data, endian)`; `None` for the data is the empty list.
unfoldable pub init : Bytes → ℕ → Result Buffer
unfolding with_endian parse_endian
init b c = with_endian b (parse_endian c)

unfoldable pub eof : Buffer → Bool
eof s = leb (length s.buffer) s.rpos

unfoldable pub ensure_capacity : ℕ → Buffer → Buffer
ensure_capacity size s =
    if leb size (length s.buffer)
    then s
    else record s { buffer = s.buffer ++ replicate (size - length s.buffer) 0 }

unfoldable pub read_raw : ℕ → Exec Buffer Bytes
read_raw n s =
    if ltb (length s.buffer) (s.rpos + n)
    then (err eof_error, s)
    else (ok (slice s.buffer s.rpos (s.rpos + n)), record s { rpos = s.rpos + n })

unfoldable pub read_raw_back : ℕ → Exec Buffer Bytes
read_raw_back n s =
    if ltb s.rpos n
    then (err eof_error, s)
    else (ok (slice s.buffer (s.rpos - n) s.rpos), record s { rpos = s.rpos - n })

unfoldable pub write_raw : Bytes → Exec Buffer Unit
unfolding ensure_capacity
write_raw b s =
    let end = s.wpos + length b in
    let t = ensure_capacity end s in
    (ok tt, record t { buffer = splice t.buffer t.wpos end b; wpos = end })
