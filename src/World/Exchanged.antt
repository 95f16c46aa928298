-- ===== src/World/Exchanged.antt =====
-- What the recovery of `World.deserialize` makes of a world's last bytes, where they hold one item.
use gtools.Prelude.{
  ℕ, suc, ◌++◌, ◌≡◌, sym, ap, ◌∙◌, arith, Bool, true, [], ◌∷◌, length, take, drop, some,
  length-append, length-drop, take-append-drop, append_assoc, pos,
}
use gtools.Python.Exec.{ok}
use gtools.Python.Struct.Words.{le_bytes}
use gtools.Python.Struct.{Bytes, little, unsigned, Floats}
use gtools.Python.Struct.Laws.{Packs, unsigned-Packs}
use gtools.Buffer.Raw.{make}
use gtools.Buffer.Values.{read_bytes}
use gtools.Buffer.Strings.{write_fmt-make, write_raw-make}
use gtools.World.Dropped.{DroppedItem}
use gtools.World.Extra.Loops.{IsU16, IsU32, IsRun, write_each}
use gtools.World.Wire.{WorldData, write_count, write_rest}
use gtools.World.Loaded.{DroppedFits}
use gtools.World.Recover.{stopped, read_counts, plausible, items_loop, recover, after_items}
use gtools.World.Backwards.{
  behind, read_raw_back-behind, read_fmt-behind, start_back, bytes_lem, exchanged, with_dropped,
  before_dropped, write_dropped-make, read_item_back-behind,
}

-- The last bytes of v fit, and hold the one item x.
pub record OneItem {J F : Type 0} ⦃fl : Floats F⦄ (v : WorldData J F) (x : DroppedItem F)
    : Type 0 where
  pub unk4 : IsRun 12 v.unk4
  pub nb_items : v.dropped.nb_items ≡ pos 1
  pub last_uid : IsU32 v.dropped.last_uid
  pub items : v.dropped.items ≡ x ∷ []
  pub item : DroppedFits x
  pub default_weather : IsU16 v.default_weather
  pub terraform : IsU16 v.terraform
  pub active_weather : IsU16 v.active_weather
  pub unk8 : IsU16 v.unk8
  pub unk9 : IsU32 v.unk9

module _ {J F : Type 0} ⦃fl : Floats F⦄ (v : WorldData J F) (x : DroppedItem F)
    (h : OneItem v x) where
  short : {n : ℕ} → IsU16 n → Packs (unsigned 2) little n
  short {n} b = unsigned-Packs 2 little n b

  count_packs : Packs (unsigned 4) little 1
  count_packs = unsigned-Packs 4 little 1 (omega arith)

  last_packs : Packs (unsigned 4) little v.dropped.last_uid
  last_packs = unsigned-Packs 4 little _ h.last_uid

  unk9_packs : Packs (unsigned 4) little v.unk9
  unk9_packs = unsigned-Packs 4 little _ h.unk9

  abbrev counted : Bytes → Bytes
  counted front = front ++ count_packs.bytes ++ last_packs.bytes

  abbrev ended : Bytes → Bytes
  ended front =
      front
      ++ (short h.default_weather).bytes
      ++ (short h.terraform).bytes
      ++ (short h.active_weather).bytes
      ++ (short h.unk8).bytes
      ++ unk9_packs.bytes

  abbrev all_bytes : Bytes → Bytes
  all_bytes pre = ended (with_dropped x h.item (counted (pre ++ v.unk4)))

  write_rest-make :
      (pre : Bytes) → write_rest v (make pre little) ≡ (ok tt, make (all_bytes pre) little)
  unfolding write_rest write_count write_each
  write_rest-make pre = rw (
    write_raw-make v.unk4 pre little,
    h.nb_items,
    write_fmt-make count_packs,
    write_fmt-make last_packs,
    h.items,
    write_dropped-make x h.item,
    write_fmt-make (short h.default_weather),
    write_fmt-make (short h.terraform),
    write_fmt-make (short h.active_weather),
    write_fmt-make (short h.unk8),
    write_fmt-make unk9_packs,
  )

  read_counts-behind :
      (c : ℕ) (front rest : Bytes)
      → read_counts (behind c (counted front) rest) ≡ (
        ok (v.dropped.last_uid, 1),
        behind c front (count_packs.bytes ++ (last_packs.bytes ++ rest)),
      )
  unfolding read_counts
  read_counts-behind c front rest = rw (read_fmt-behind last_packs, read_fmt-behind count_packs)

  -- `with s.temp()`
  restored :
      (c : ℕ) (front rest : Bytes)
      → record (behind c front (count_packs.bytes ++ (last_packs.bytes ++ rest))) {
        rpos = length (counted front);
      }
        ≡ behind c (counted front) rest
  restored c front rest = rw (
    append_assoc (front ++ count_packs.bytes) last_packs.bytes rest,
    append_assoc front count_packs.bytes (last_packs.bytes ++ rest),
  )

  abbrev shifted : Bytes
  shifted = drop 8 v.unk4 ++ count_packs.bytes ++ last_packs.bytes

  regroup : (a t d c l : Bytes) → a ++ (t ++ d) ++ c ++ l ≡ (a ++ t) ++ (d ++ c ++ l)
  regroup a t d c l = simp append_assoc

  counted_lem : (pre : Bytes) → counted (pre ++ v.unk4) ≡ (pre ++ take 8 v.unk4) ++ shifted
  counted_lem pre =
      ap (λ b. counted (pre ++ b)) (sym (take-append-drop 8 v.unk4))
      ∙ regroup pre (take 8 v.unk4) (drop 8 v.unk4) count_packs.bytes last_packs.bytes

  read_unk4-behind :
      (c : ℕ) (pre rest : Bytes)
      → read_bytes (some 12) (behind c (counted (pre ++ v.unk4)) rest)
        ≡ (ok shifted, behind c (pre ++ take 8 v.unk4) (shifted ++ rest))
  unfolding read_bytes
  read_unk4-behind c pre rest =
      rw (counted_lem pre) (read_raw_back-behind c 12 (pre ++ take 8 v.unk4) shifted rest twelve)
    where
      twelve : 12 ≡ length shifted
      twelve = omega (
        arith,
        h.unk4,
        length-drop 8 v.unk4,
        length-append (drop 8 v.unk4 ++ count_packs.bytes) last_packs.bytes,
        length-append (drop 8 v.unk4) count_packs.bytes,
        count_packs.sized,
        last_packs.sized,
      )

  module _ (known : ℕ → Bool) (within : ℕ → F → Bool) where
    one_round :
        (n c : ℕ) (w : WorldData J F) (front rest : Bytes)
        → plausible known within w (exchanged x) ≡ true
        → w.dropped ≡ record { nb_items = pos 0; last_uid = 0; items = [] }
        → items_loop known within (suc n) w (behind c (with_dropped x h.item (counted front)) rest)
          ≡ stopped
              (record w {
                dropped = record {
                  nb_items = pos 1;
                  last_uid = v.dropped.last_uid;
                  items = exchanged x ∷ [];
                };
              })
              (behind c (counted front) (before_dropped x h.item rest))
    unfolding items_loop
    one_round n c w front rest p e = rw (
      read_item_back-behind x h.item c (counted front) rest,
      p,
      read_counts-behind c front (before_dropped x h.item rest),
      restored c front (before_dropped x h.item rest),
      e,
    )

    abbrev trailer : Bytes
    trailer =
        (short h.default_weather).bytes
        ++ ((short h.terraform).bytes
            ++ ((short h.active_weather).bytes
                ++ ((short h.unk8).bytes ++ (unk9_packs.bytes ++ []))))

    abbrev with_end : WorldData J F → WorldData J F
    with_end w = record w {
      default_weather = v.default_weather;
      terraform = v.terraform;
      active_weather = v.active_weather;
      unk8 = v.unk8;
      unk9 = v.unk9;
    }

    read_end :
        (n : ℕ) (w : WorldData J F) (front : Bytes)
        → recover known within n w (make (ended front) little)
          ≡ after_items known within
              (items_loop known within n (with_end w) (behind (length (ended front)) front trailer))
    unfolding recover
    read_end n w front = rw (
      start_back (ended front),
      read_fmt-behind unk9_packs,
      read_fmt-behind (short h.unk8),
      read_fmt-behind (short h.active_weather),
      read_fmt-behind (short h.terraform),
      read_fmt-behind (short h.default_weather),
    )

    -- Where the fields of v behind its tiles fit and it has one dropped item x, which passes the tests
    -- with x and y exchanged, the recovery, started without items behind what is written for v, finds
    -- exactly this item, with x and y exchanged, and the fields behind it. For `unk4` it takes the last
    -- 4 bytes of it, the count and the last uid.
    pub recover-write_rest :
        (n : ℕ) (w : WorldData J F) (pre : Bytes)
        → plausible known within w (exchanged x) ≡ true
        → w.dropped ≡ record { nb_items = pos 0; last_uid = 0; items = [] }
        → (b : Bytes) × (write_rest v (make pre little) ≡ (ok tt, make b little))
          × (recover known within (suc n) w (make b little)
              ≡ some (record w {
                unk4 = drop 8 v.unk4 ++ le_bytes 4 1 ++ le_bytes 4 v.dropped.last_uid;
                dropped = record {
                  nb_items = pos 1;
                  last_uid = v.dropped.last_uid;
                  items = exchanged x ∷ [];
                };
                default_weather = v.default_weather;
                terraform = v.terraform;
                active_weather = v.active_weather;
                unk8 = v.unk8;
                unk9 = v.unk9;
              }))
    recover-write_rest n w pre p e = (
      all_bytes pre,
      write_rest-make pre,
      read_end (suc n) w (with_dropped x h.item (counted (pre ++ v.unk4)))
          ∙ rw (
            one_round n (length (all_bytes pre)) (with_end w) (pre ++ v.unk4) trailer p e,
            read_unk4-behind (length (all_bytes pre)) pre (before_dropped x h.item trailer),
            bytes_lem 1 count_packs (omega arith),
            bytes_lem v.dropped.last_uid last_packs h.last_uid,
          ),
    )
