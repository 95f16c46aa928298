-- ===== src/World/Extra/Clothes.antt =====
-- gtools/core/growtopia/world.py: mannequins and phone booths.
use gtools.Prelude.{ℕ}
use gtools.Python.Exec.{Exec, pure, ◌>>=◌, ◌>>◌}
use gtools.Python.Struct.{Bytes}
use gtools.Buffer.Raw.{Buffer}
use gtools.Buffer.Values.{read_u8, read_u16, read_u32, write_u8, write_u16, write_u32}
use gtools.World.Extra.Loops.{read_text, write_text, IsU8, IsU16, IsU32, IsText}
use gtools.World.Extra.Carried.{AllCarry, next, last, u8, u16, u32, text}

pub record MannequinTile : Type 0 where
  pub text : Bytes
  pub unk1 : ℕ
  pub unk2 : ℕ
  pub hair : ℕ
  pub shirt : ℕ
  pub pants : ℕ
  pub shoes : ℕ
  pub face : ℕ
  pub hand : ℕ
  pub back : ℕ
  pub hat : ℕ
  pub neck : ℕ

unfoldable pub deserialize_mannequin_tile : Exec Buffer MannequinTile
deserialize_mannequin_tile = do
  text ← read_text
  unk1 ← read_u8
  unk2 ← read_u32
  hair ← read_u16
  shirt ← read_u16
  pants ← read_u16
  shoes ← read_u16
  face ← read_u16
  hand ← read_u16
  back ← read_u16
  hat ← read_u16
  neck ← read_u16
  pure (record {
    text = text;
    unk1 = unk1;
    unk2 = unk2;
    hair = hair;
    shirt = shirt;
    pants = pants;
    shoes = shoes;
    face = face;
    hand = hand;
    back = back;
    hat = hat;
    neck = neck;
  })

unfoldable pub serialize_mannequin_tile : MannequinTile → Exec Buffer Unit
serialize_mannequin_tile x = do
  write_text x.text
  write_u8 x.unk1
  write_u32 x.unk2
  write_u16 x.hair
  write_u16 x.shirt
  write_u16 x.pants
  write_u16 x.shoes
  write_u16 x.face
  write_u16 x.hand
  write_u16 x.back
  write_u16 x.hat
  write_u16 x.neck

abbrev pub MannequinTileFits : MannequinTile → Type 0
MannequinTileFits x =
    IsText x.text
    × IsU8 x.unk1
    × IsU32 x.unk2
    × IsU16 x.hair
    × IsU16 x.shirt
    × IsU16 x.pants
    × IsU16 x.shoes
    × IsU16 x.face
    × IsU16 x.hand
    × IsU16 x.back
    × IsU16 x.hat
    × IsU16 x.neck

pub mannequin_tile-Carries :
    AllCarry MannequinTileFits serialize_mannequin_tile deserialize_mannequin_tile
unfolding serialize_mannequin_tile deserialize_mannequin_tile
mannequin_tile-Carries x h = next _ (text h.0) (
    next _ (u8 h.1) (
      next _ (u32 h.2) (
        next _ (u16 h.3) (
          next _ (u16 h.4) (
            next _ (u16 h.5) (
              next _ (u16 h.6) (
                next _ (u16 h.7) (
                  next _ (u16 h.8)
                    (next _ (u16 h.9) (next _ (u16 h.10) (last _ (u16 h.11))))))))))))

pub record PhoneBoothTile : Type 0 where
  pub hair : ℕ
  pub shirt : ℕ
  pub pants : ℕ
  pub shoes : ℕ
  pub face : ℕ
  pub hand : ℕ
  pub back : ℕ
  pub hat : ℕ
  pub neck : ℕ

unfoldable pub deserialize_phone_booth_tile : Exec Buffer PhoneBoothTile
deserialize_phone_booth_tile = do
  hair ← read_u16
  shirt ← read_u16
  pants ← read_u16
  shoes ← read_u16
  face ← read_u16
  hand ← read_u16
  back ← read_u16
  hat ← read_u16
  neck ← read_u16
  pure (record {
    hair = hair;
    shirt = shirt;
    pants = pants;
    shoes = shoes;
    face = face;
    hand = hand;
    back = back;
    hat = hat;
    neck = neck;
  })

unfoldable pub serialize_phone_booth_tile : PhoneBoothTile → Exec Buffer Unit
serialize_phone_booth_tile x = do
  write_u16 x.hair
  write_u16 x.shirt
  write_u16 x.pants
  write_u16 x.shoes
  write_u16 x.face
  write_u16 x.hand
  write_u16 x.back
  write_u16 x.hat
  write_u16 x.neck

abbrev pub PhoneBoothTileFits : PhoneBoothTile → Type 0
PhoneBoothTileFits x =
    IsU16 x.hair
    × IsU16 x.shirt
    × IsU16 x.pants
    × IsU16 x.shoes
    × IsU16 x.face
    × IsU16 x.hand
    × IsU16 x.back
    × IsU16 x.hat
    × IsU16 x.neck

pub phone_booth_tile-Carries :
    AllCarry PhoneBoothTileFits serialize_phone_booth_tile deserialize_phone_booth_tile
unfolding serialize_phone_booth_tile deserialize_phone_booth_tile
phone_booth_tile-Carries x h = next _ (u16 h.0) (
    next _ (u16 h.1) (
      next _ (u16 h.2) (
        next _ (u16 h.3) (
          next _ (u16 h.4)
            (next _ (u16 h.5) (next _ (u16 h.6) (next _ (u16 h.7) (last _ (u16 h.8)))))))))
