-- ===== src/World/Extra/Portraits.antt =====
-- gtools/core/growtopia/world.py: portraits.
use gtools.Prelude.{ℕ, Bool, ◌&&◌, ◌||◌, leb, ◌==◌, []}
use gtools.Python.Exec.{Exec, pure, ◌>>=◌, ◌>>◌}
use gtools.Python.Struct.{Bytes}
use gtools.Buffer.Raw.{Buffer}
use gtools.Buffer.Values.{read_u16, read_u32, write_u16, write_u32}
use gtools.World.Extra.Items.{will_of_the_wild, golem_s_gift, infinity_crown}
use gtools.World.Extra.Loops.{read_text, write_text, read_if, write_if, IsU16, IsU32, IsText, Kept}
use gtools.World.Extra.Carried.{AllCarry, next, last, u16, u32, text, when}

-- `any(x in (WILL_OF_THE_WILD, GOLEM_S_GIFT) for x in (face, hat, hair))`
unfoldable pub wears_gift : ℕ → ℕ → ℕ → Bool
wears_gift face hat hair = is_gift face || is_gift hat || is_gift hair
  where
    is_gift : ℕ → Bool
    is_gift x = x == will_of_the_wild || x == golem_s_gift

pub record PortraitTile : Type 0 where
  pub label : Bytes
  pub unk1 : ℕ
  pub unk2 : ℕ
  pub unk3 : ℕ
  pub unk4 : ℕ
  pub face : ℕ
  pub hat : ℕ
  pub hair : ℕ
  pub unk8 : ℕ
  pub unk9 : ℕ
  pub unk10 : ℕ
  pub unk11 : Bytes

unfoldable pub deserialize_portrait_tile : ℕ → Exec Buffer PortraitTile
deserialize_portrait_tile version = do
  label ← read_text
  unk1 ← read_u32
  unk2 ← read_u32
  unk3 ← read_u32
  unk4 ← read_u32
  face ← read_u16
  hat ← read_u16
  hair ← read_u16
  unk8 ← read_if (leb 4 version && wears_gift face hat hair) read_u32 0
  unk9 ← read_if (leb 4 version && wears_gift face hat hair) read_u32 0
  unk10 ← read_if (leb 9 version) read_u32 0
  unk11 ← read_if (leb 23 version && hat == infinity_crown) read_text []
  pure (record {
    label = label;
    unk1 = unk1;
    unk2 = unk2;
    unk3 = unk3;
    unk4 = unk4;
    face = face;
    hat = hat;
    hair = hair;
    unk8 = unk8;
    unk9 = unk9;
    unk10 = unk10;
    unk11 = unk11;
  })

unfoldable pub serialize_portrait_tile : ℕ → PortraitTile → Exec Buffer Unit
serialize_portrait_tile version x = do
  write_text x.label
  write_u32 x.unk1
  write_u32 x.unk2
  write_u32 x.unk3
  write_u32 x.unk4
  write_u16 x.face
  write_u16 x.hat
  write_u16 x.hair
  write_if (leb 4 version && wears_gift x.face x.hat x.hair) (write_u32 x.unk8)
  write_if (leb 4 version && wears_gift x.face x.hat x.hair) (write_u32 x.unk9)
  write_if (leb 9 version) (write_u32 x.unk10)
  write_if (leb 23 version && x.hat == infinity_crown) (write_text x.unk11)

abbrev pub PortraitTileFits : ℕ → PortraitTile → Type 0
PortraitTileFits version x =
    IsText x.label
    × IsU32 x.unk1
    × IsU32 x.unk2
    × IsU32 x.unk3
    × IsU32 x.unk4
    × IsU16 x.face
    × IsU16 x.hat
    × IsU16 x.hair
    × Kept (leb 4 version && wears_gift x.face x.hat x.hair) (IsU32 x.unk8) x.unk8 0
    × Kept (leb 4 version && wears_gift x.face x.hat x.hair) (IsU32 x.unk9) x.unk9 0
    × Kept (leb 9 version) (IsU32 x.unk10) x.unk10 0
    × Kept (leb 23 version && x.hat == infinity_crown) (IsText x.unk11) x.unk11 []

pub portrait_tile-Carries :
    (version : ℕ)
    → AllCarry
        (PortraitTileFits version)
        (serialize_portrait_tile version)
        (deserialize_portrait_tile version)
unfolding serialize_portrait_tile deserialize_portrait_tile
portrait_tile-Carries version x h = next _ (text h.0) (
    next _ (u32 h.1) (
      next _ (u32 h.2) (
        next _ (u32 h.3) (
          next _ (u32 h.4) (
            next _ (u16 h.5) (
              next _ (u16 h.6) (
                next _ (u16 h.7) (
                  next _ (when _ _ _ u32 h.8) (
                    next _ (when _ _ _ u32 h.9)
                      (next _ (when _ _ _ u32 h.10) (last _ (when _ _ _ text h.11))))))))))))
