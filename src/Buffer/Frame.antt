-- ===== src/Buffer/Frame.antt =====
-- What a raw write does to the bytes, for every position of the write cursor: the size, the cursors,
-- and the bytes before and behind the window.
use gtools.Prelude.{
  ℕ, ◌+◌, ◌-◌, ◌++◌, ◌≡◌, refl, arith, length, take, drop, replicate, max, ltb, if◌then◌else◌, All,
  All-append, All-take, All-drop, All-replicate, length-append, length-take, length-drop,
  length-replicate, get_or, get_or-append, get_or-take, get_or-drop, get_or-replicate, get_or_past,
}
use gtools.Python.Exec.{ok}
use gtools.Python.Struct.{Bytes}
use gtools.Python.Struct.Words.{IsByte}
use gtools.Buffer.Raw.{Buffer, ensure_capacity, write_raw}

-- The buffer after `_ensure_capacity`, before the bytes are written.
abbrev pub padded : Buffer → Bytes → Bytes
padded s b = (ensure_capacity (s.wpos + length b) s).buffer

pub length-padded :
    (s : Buffer) (b : Bytes) → length (padded s b) ≡ max (length s.buffer) (s.wpos + length b)
unfolding ensure_capacity
length-padded s b = ground (
  arith,
  length-append s.buffer (replicate (s.wpos + length b - length s.buffer) 0),
  length-replicate {A = ℕ} (s.wpos + length b - length s.buffer) 0,
)

abbrev pub front : Buffer → Bytes → Bytes
front s b = take s.wpos (padded s b)

abbrev pub back : Buffer → Bytes → Bytes
back s b = drop (s.wpos + length b) (padded s b)

pub write_raw_lem :
    (s : Buffer) (b : Bytes)
    → write_raw b s
      ≡ (ok tt, record s { buffer = front s b ++ (b ++ back s b); wpos = s.wpos + length b })
unfolding write_raw
write_raw_lem s b = ground arith

pub length-front : (s : Buffer) (b : Bytes) → length (front s b) ≡ s.wpos
length-front s b = omega (arith, length-take s.wpos (padded s b), length-padded s b)

byte-padded : (s : Buffer) (b : Bytes) (i : ℕ) → get_or (padded s b) i 0 ≡ get_or s.buffer i 0
unfolding ensure_capacity
byte-padded s b i = ground (
  arith,
  get_or-append s.buffer (replicate (s.wpos + length b - length s.buffer) 0) i 0,
  get_or-replicate {A = ℕ} (s.wpos + length b - length s.buffer) (i - length s.buffer) 0,
  get_or_past s.buffer i 0,
)

-- The byte at i after a write, where a byte past the end of a buffer counts as 0.
abbrev pub written_byte : Buffer → Bytes → ℕ → ℕ
written_byte s b i =
    if ltb i s.wpos
    then get_or s.buffer i 0
    else if ltb i (s.wpos + length b)
    then get_or b (i - s.wpos) 0
    else get_or s.buffer i 0

-- A raw write puts its bytes at the write cursor, wherever that is, also past the end: each byte of
-- the result is the written one inside the window and the old one, or the 0 of the padding, outside.
-- The size grows to the end of the window if that is behind the old end, the write cursor moves to
-- the end of the window, and the read cursor stays.
pub write_raw_bytes :
    (s : Buffer) (b : Bytes)
    → ((i : ℕ) → get_or (write_raw b s).1.buffer i 0 ≡ written_byte s b i)
      × (length (write_raw b s).1.buffer ≡ max (length s.buffer) (s.wpos + length b))
      × ((write_raw b s).1.wpos ≡ s.wpos + length b)
      × ((write_raw b s).1.rpos ≡ s.rpos)
write_raw_bytes s b = rw (write_raw_lem s b) (λ i. bytes i, sizes, refl, refl)
  where
    bytes : (i : ℕ) → get_or (front s b ++ (b ++ back s b)) i 0 ≡ written_byte s b i
    bytes i = ground (
      arith,
      get_or-append (front s b) (b ++ back s b) i 0,
      get_or-append b (back s b) (i - length (front s b)) 0,
      get_or-take s.wpos (padded s b) i 0,
      get_or-drop (s.wpos + length b) (padded s b) (i - length (front s b) - length b) 0,
      length-front s b,
      byte-padded s b i,
    )

    sizes : length (front s b ++ (b ++ back s b)) ≡ max (length s.buffer) (s.wpos + length b)
    sizes = omega (
      arith,
      length-append (front s b) (b ++ back s b),
      length-append b (back s b),
      length-front s b,
      length-drop (s.wpos + length b) (padded s b),
      length-padded s b,
    )

padded-IsByte : (s : Buffer) (b : Bytes) → All IsByte s.buffer → All IsByte (padded s b)
unfolding ensure_capacity
padded-IsByte s b h = ground (
  arith,
  All-append IsByte s.buffer (replicate (s.wpos + length b - length s.buffer) 0) h
      (All-replicate IsByte (s.wpos + length b - length s.buffer) 0 (omega arith)),
)

-- A write of bytes leaves a buffer of bytes.
pub write_raw-IsByte :
    (s : Buffer) (b : Bytes)
    → All IsByte s.buffer
    → All IsByte b
    → All IsByte (write_raw b s).1.buffer
write_raw-IsByte s b h k =
    let p = padded-IsByte s b h in
    rw (write_raw_lem s b) (
      All-append IsByte (front s b) (b ++ back s b) (All-take IsByte s.wpos (padded s b) p)
        (All-append IsByte b (back s b) k (All-drop IsByte (s.wpos + length b) (padded s b) p)))
