-- ===== src/Buffer/Modes.antt =====
-- The context managers, on the body that they wrap, and the search that runs in one of them. The
-- part behind `finally` runs whether the body returns or raises.
use gtools.Prelude.{
  ℕ, zero, suc, ◌+◌, ◌-◌, Bool, true, if◌then◌else◌, length, equal, Option, none, some, ℤ, pos,
  negsuc,
}
use mathlib.Core.Option
use gtools.Python.Exec.{Exec, Exception, Result, ok, err, eof_error}
use gtools.Python.Struct.{Bytes}
use gtools.Buffer.Raw.{Buffer}
use gtools.Buffer.Values.{peek}

module _ {A : Type 0} where
  abbrev restore : Buffer → Bool → Result A × Buffer → Result A × Buffer
  restore s keep (r, t) =
      (r, record t { reverse_read = s.reverse_read; rpos = if keep then t.rpos else s.rpos })

  unfoldable pub backward : Bool → Exec Buffer A → Exec Buffer A
  backward keep body s = restore s keep (body (record s { reverse_read = true }))

  unfoldable pub reversed : Bool → Exec Buffer A → Exec Buffer A
  reversed keep body s =
      restore s keep (body (record s { rpos = length s.buffer; reverse_read = true }))

  unfoldable pub temp : Exec Buffer A → Exec Buffer A
  temp body s = let (r, t) = body s in (r, record t { rpos = s.rpos })

-- `except EOFError: return -1` around the loop
on_error : Exception → Result ℤ
on_error eof_error = ok (negsuc 0)
on_error e = err e

-- `while True` takes fuel: `none` means that the loop is still running. `peek` moves nothing.
unfoldable pub offset_loop : ℕ → Bytes → ℕ → Buffer → Option (Result ℤ × Buffer)
unfolding on_error peek
offset_loop zero seq start s = none
offset_loop (suc fuel) seq start s =
    let again = offset_loop fuel seq start (record s { rpos = s.rpos + 1 }) in
    elim (peek (some (length seq)) s).0 [
      | ok b ↦ if equal b seq then some (ok (pos (s.rpos - start)), s) else again
      | err e ↦ some (on_error e, s)
    ]

-- The search runs inside `temp`, which puts the read cursor back.
unfoldable pub offset_to : ℕ → Bytes → Buffer → Option (Result ℤ × Buffer)
unfolding offset_loop
offset_to fuel seq s =
    Option.map (λ (r, t). (r, record t { rpos = s.rpos })) (offset_loop fuel seq s.rpos s)
