-- ===== src/Buffer/Seek.antt =====
-- The cursors: seeking, telling, truncation and clearing.
use gtools.Prelude.{
  ℕ, ◌-◌, if◌then◌else◌, ltb, ◌==◌, length, take, [], Option, none, some, ℤ, pos, negsuc, ◌+ℤ◌,
}
use gtools.Python.Exec.{Exec, Result, ok, err, value_error}
use gtools.Buffer.Raw.{Buffer}

-- `new` of the three branches on `whence`, from the cursor and the length.
unfoldable pub seek_target : ℤ → ℕ → ℕ → ℕ → Result ℤ
seek_target offset whence cursor size =
    if whence == 0
    then ok offset
    else if whence == 1
    then ok (pos cursor +ℤ offset)
    else if whence == 2
    then ok (pos size +ℤ offset)
    else err value_error

-- `if new < 0: raise ValueError`
abbrev pub to_position : Result ℤ → Result ℕ
to_position (ok (pos n)) = ok n
to_position (ok (negsuc n)) = err value_error
to_position (err e) = err e

abbrev pub at_read : Buffer → Result ℕ → Result ℕ × Buffer
at_read s (ok n) = (ok n, record s { rpos = n })
at_read s (err e) = (err e, s)

abbrev pub at_write : Buffer → Result ℕ → Result ℕ × Buffer
at_write s (ok n) = (ok n, record s { wpos = n })
at_write s (err e) = (err e, s)

-- `with_seek_read` moves the cursor in the same way, and returns the buffer.
unfoldable pub seek_read : ℤ → ℕ → Exec Buffer ℕ
unfolding seek_target
seek_read offset whence s =
    at_read s (to_position (seek_target offset whence s.rpos (length s.buffer)))

unfoldable pub seek_write : ℤ → ℕ → Exec Buffer ℕ
unfolding seek_target
seek_write offset whence s =
    at_write s (to_position (seek_target offset whence s.wpos (length s.buffer)))

-- max(0, len - rpos)
abbrev pub remaining : Buffer → ℕ
remaining s = length s.buffer - s.rpos

abbrev cut : ℕ → Buffer → Buffer
cut n s = record s {
  buffer = take n s.buffer;
  rpos = if ltb n s.rpos then n else s.rpos;
  wpos = if ltb n s.wpos then n else s.wpos;
}

unfoldable pub truncate : Option ℤ → Exec Buffer Unit
truncate none s = (ok tt, cut s.wpos s)
truncate (some (pos n)) s = (ok tt, cut n s)
truncate (some (negsuc n)) s = (err value_error, s)

unfoldable pub clear : Buffer → Buffer
clear s = record s { buffer = []; rpos = 0; wpos = 0 }
