-- ===== src/World/Backwards.antt =====
-- Reading backwards what stands before the cursor, and a dropped item so.
use gtools.Prelude.{
  ℕ, ◌-◌, ◌++◌, ◌<◌, ◌^◌, lt→ltb, ◌≡◌, sym, ◌∙◌, arith, true, [], length, length-append,
  append_assoc, append-nil, slice_middle, not_lt→ltb,
}
use gtools.Python.Exec.{ok, ok_injective}
use gtools.Python.Struct.Words.{le_bytes}
use gtools.Python.Struct.{Bytes, pack_unsigned, arrange, little, Format, unsigned, Floats, floating}
use gtools.Python.Struct.Laws.{Packs, unsigned-Packs, floating-Packs}
use gtools.Buffer.Raw.{Buffer, make, read_raw_back}
use gtools.Buffer.Values.{read_fmt}
use gtools.Buffer.Strings.{write_fmt-make}
use gtools.World.Dropped.{DroppedItem}
use gtools.World.Wire.{write_dropped}
use gtools.World.Loaded.{DroppedFits}
use gtools.World.Recover.{read_item_back}

-- A buffer that is read backwards: the bytes before the cursor, and those that were read.
abbrev pub behind : ℕ → Bytes → Bytes → Buffer
behind c front rest = record {
  buffer = front ++ rest;
  rpos = length front;
  wpos = c;
  endian = little;
  reverse_read = true;
}

pub read_raw_back-behind :
    (c n : ℕ) (front b rest : Bytes)
    → n ≡ length b
    → read_raw_back n (behind c (front ++ b) rest) ≡ (ok b, behind c front (b ++ rest))
unfolding read_raw_back
read_raw_back-behind c n front b rest h = rw (
  append_assoc front b rest,
  not_lt→ltb (length (front ++ b)) n (omega (arith, h, length-append front b)),
  slice_middle front b rest (length (front ++ b) - n) (length (front ++ b)) low
      (length-append front b),
  low,
)
  where
    low : length (front ++ b) - n ≡ length front
    low = omega (arith, h, length-append front b)

-- The recovery starts at the end of the bytes.
pub start_back :
    (b : Bytes)
    → record (make b little) { rpos = length b; reverse_read = true } ≡ behind (length b) b []
start_back b = rw (append-nil b)

pub bytes_lem : (v : ℕ) (p : Packs (unsigned 4) little v) → v < 256 ^ 4 → p.bytes ≡ le_bytes 4 v
unfolding pack_unsigned arrange
bytes_lem v p h = ok_injective (sym p.packed ∙ rw (lt→ltb v (256 ^ 4) h))

module _ {A : Type 0} {f : Format A} {v : A} (p : Packs f little v) where
  pub read_fmt-behind :
      (c : ℕ) (front rest : Bytes)
      → read_fmt f (behind c (front ++ p.bytes) rest) ≡ (ok v, behind c front (p.bytes ++ rest))
  unfolding read_fmt
  read_fmt-behind c front rest =
      rw (read_raw_back-behind c f.size front p.bytes rest (sym p.sized))
        (ground (arith, p.sized, p.unpacked))

module _ {F : Type 0} ⦃fl : Floats F⦄ where
  -- The item that the recovery makes of x.
  abbrev pub exchanged : DroppedItem F → DroppedItem F
  exchanged x = record x { pos_x = x.pos_y; pos_y = x.pos_x }

  module _ (x : DroppedItem F) (h : DroppedFits x) where
    pub id_packs : Packs (unsigned 2) little x.id
    id_packs = unsigned-Packs 2 little x.id h.id

    pub x_packs : Packs (floating 4) little x.pos_x
    x_packs = floating-Packs 4 little x.pos_x h.pos_x

    pub y_packs : Packs (floating 4) little x.pos_y
    y_packs = floating-Packs 4 little x.pos_y h.pos_y

    pub amount_packs : Packs (unsigned 1) little x.amount
    amount_packs = unsigned-Packs 1 little x.amount h.amount

    pub flags_packs : Packs (unsigned 1) little x.flags
    flags_packs = unsigned-Packs 1 little x.flags h.flags

    pub uid_packs : Packs (unsigned 4) little x.uid
    uid_packs = unsigned-Packs 4 little x.uid h.uid

    abbrev pub with_dropped : Bytes → Bytes
    with_dropped front =
        front ++ id_packs.bytes ++ x_packs.bytes ++ y_packs.bytes ++ amount_packs.bytes
        ++ flags_packs.bytes ++ uid_packs.bytes

    pub write_dropped-make :
        (front : Bytes)
        → write_dropped x (make front little) ≡ (ok tt, make (with_dropped front) little)
    unfolding write_dropped
    write_dropped-make front = rw (
      write_fmt-make id_packs,
      write_fmt-make x_packs,
      write_fmt-make y_packs,
      write_fmt-make amount_packs,
      write_fmt-make flags_packs,
      write_fmt-make uid_packs,
    )

    abbrev pub before_dropped : Bytes → Bytes
    before_dropped rest =
        id_packs.bytes
        ++ (x_packs.bytes
            ++ (y_packs.bytes
                ++ (amount_packs.bytes ++ (flags_packs.bytes ++ (uid_packs.bytes ++ rest)))))

    pub read_item_back-behind :
        (c : ℕ) (front rest : Bytes)
        → read_item_back (behind c (with_dropped front) rest)
          ≡ (ok (exchanged x), behind c front (before_dropped rest))
    unfolding read_item_back
    read_item_back-behind c front rest = rw (
      read_fmt-behind uid_packs,
      read_fmt-behind flags_packs,
      read_fmt-behind amount_packs,
      read_fmt-behind y_packs,
      read_fmt-behind x_packs,
      read_fmt-behind id_packs,
    )
