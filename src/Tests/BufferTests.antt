-- ===== src/Tests/BufferTests.antt =====
-- The buffer.
use gtools.Prelude.{
  ℕ, zero, suc, ◌+◌, ◌<◌, [], ◌∷◌, ◌≡◌, refl, true, false, some, none, arith, length, max, pos,
  get_or, drop,
}
use gtools.Python.Exec.{ok, err, eof_error}
use gtools.Python.Struct.{Bytes, little, big, unsigned, pack_unsigned, arrange}
use gtools.Python.Struct.Words.{le_bytes, le_value}
use gtools.Python.Struct.Laws.{unsigned-Packs}
use gtools.Buffer.Raw.{Buffer, make, read_raw, write_raw}
use gtools.Buffer.Seek.{seek_read, seek_target}
use gtools.Buffer.Values.{
  read_fmt, write_fmt, read_bytes, read_u16, write_u16, read_cstring, write_cstring,
}
use gtools.Buffer.Frame.{written_byte, write_raw_bytes}
use gtools.Buffer.RoundTrip.{read_fmt-write_fmt}
use gtools.Buffer.Strings.{read_cstring-write_cstring, read_cstring_unterminated}
use gtools.Buffer.Modes.{offset_to}
use gtools.Buffer.Search.{StartsWith, offset_to_first, offset_to_diverges}
use gtools.Buffer.Invariant.{IsValid, here, next, reads_bytes, writes, seeks_read, Reach-IsValid}

abbrev three : Buffer
three = make (7 ∷ 8 ∷ 9 ∷ []) big

abbrev past_end : Buffer
past_end = record three { wpos = 5 }

write_past_end : (write_u16 513 past_end).1.buffer ≡ 7 ∷ 8 ∷ 9 ∷ 0 ∷ 0 ∷ 2 ∷ 1 ∷ []
unfolding write_fmt pack_unsigned arrange le_bytes write_raw
write_past_end = refl

read_little :
    read_u16 (make (1 ∷ 2 ∷ []) little) ≡ (ok 513, record (make (1 ∷ 2 ∷ []) little) { rpos = 2 })
unfolding read_fmt read_raw arrange le_value
read_little = refl

read_too_far : (read_u16 (record three { rpos = 2 })).0 ≡ err eof_error
unfolding read_fmt read_raw
read_too_far = refl

write_raw_bytes_example :
    ((i : ℕ)
      → get_or (write_raw (1 ∷ 2 ∷ []) past_end).1.buffer i 0
        ≡ written_byte past_end (1 ∷ 2 ∷ []) i)
    × (length (write_raw (1 ∷ 2 ∷ []) past_end).1.buffer ≡ max 3 7)
    × ((write_raw (1 ∷ 2 ∷ []) past_end).1.wpos ≡ 5 + 2)
    × ((write_raw (1 ∷ 2 ∷ []) past_end).1.rpos ≡ 0)
write_raw_bytes_example = write_raw_bytes past_end (1 ∷ 2 ∷ [])

abbrev after_513 : Buffer
after_513 = (write_fmt (unsigned 2) 513 past_end).1

read_fmt-write_fmt_example :
    ((write_fmt (unsigned 2) 513 past_end).0 ≡ ok tt)
    × (read_fmt (unsigned 2) (record after_513 { rpos = 5; reverse_read = false })
        ≡ (ok 513, record after_513 { rpos = 5 + 2; reverse_read = false }))
    × (read_fmt (unsigned 2) (record after_513 { rpos = 5 + 2; reverse_read = true })
        ≡ (ok 513, record after_513 { rpos = 5; reverse_read = true }))
read_fmt-write_fmt_example = read_fmt-write_fmt past_end (unsigned-Packs 2 big 513 (omega arith))

-- A seek behind the end, a read of all that is left, and a write: no cursor is behind place 5.
Reach-IsValid_example :
    IsValid 5 (write_fmt (unsigned 2) 513 (read_bytes none (seek_read (pos 5) 0 three).1).1).1
unfolding seek_read seek_target read_bytes
Reach-IsValid_example =
    Reach-IsValid
      (next (next (next here (seeks_read (pos 5) 0 three)) (reads_bytes none _))
        (writes _ (unsigned-Packs 2 big 513 (omega arith))))
      (omega arith) (omega arith) (omega arith)

read_cstring-write_cstring_run :
    read_cstring (record (write_cstring (65 ∷ 66 ∷ []) three).1 { rpos = 3; reverse_read = false })
    ≡ (
      ok (65 ∷ 66 ∷ []),
      record (write_cstring (65 ∷ 66 ∷ []) three).1 { rpos = 3 + 2 + 1; reverse_read = false },
    )
read_cstring-write_cstring_run = read_cstring-write_cstring three (65 ∷ 66 ∷ []) (omega arith)

no_nul_raises :
    read_cstring (record three { rpos = 1 }) ≡ (err eof_error, record three { rpos = 3 })
no_nul_raises =
    read_cstring_unterminated (record three { rpos = 1 }) refl (omega arith) (omega arith)

abbrev nines : Bytes
nines = 9 ∷ []

not_before : (j : ℕ) → j < 2 → ¬ StartsWith nines (drop (0 + j) (7 ∷ 8 ∷ 9 ∷ []))
not_before zero h (r, e) = ground arith
not_before (suc zero) h (r, e) = ground arith
not_before (suc (suc j)) h w = absurd (omega arith)

offset_to_first_run : offset_to 3 nines three ≡ some (ok (pos 2), three)
offset_to_first_run = offset_to_first nines 2 3 three refl (omega arith) ([], refl) not_before

never_five : (j : ℕ) → 0 + j < 3 → ¬ StartsWith (5 ∷ []) (drop (0 + j) (7 ∷ 8 ∷ 9 ∷ []))
never_five zero h (r, e) = ground arith
never_five (suc zero) h (r, e) = ground arith
never_five (suc (suc zero)) h (r, e) = ground arith
never_five (suc (suc (suc j))) h w = absurd (omega arith)

offset_to_diverges_example : offset_to 1000 (5 ∷ []) three ≡ none
offset_to_diverges_example =
    offset_to_diverges (5 ∷ []) 1000 three refl (λ e. absurd (cc e)) never_five
