-- ===== src/World/Extra/Engines.antt =====
-- gtools/core/growtopia/world.py: the engines that act on their own.
use gtools.Prelude.{ℕ, Bool, false, ltb, leb}
use gtools.Python.Exec.{Exec, pure, ◌>>=◌, ◌>>◌}
use gtools.Buffer.Raw.{Buffer}
use gtools.Buffer.Values.{read_u8, read_u32, write_u8, write_u32}
use gtools.World.Extra.Loops.{read_flag, write_flag, read_if, write_if, IsU8, IsU32, Kept}
use gtools.World.Extra.Carried.{AllCarry, next, last, u8, u32, flag, when}

pub record TesseractManipulatorTile : Type 0 where
  pub gems : ℕ
  pub next_update_ms : ℕ
  pub item_id : ℕ
  pub enabled : Bool

unfoldable pub deserialize_tesseract_manipulator_tile : ℕ → Exec Buffer TesseractManipulatorTile
deserialize_tesseract_manipulator_tile version = do
  gems ← read_u32
  next_update_ms ← read_u32
  item_id ← read_u32
  enabled ← read_if (leb 8 version) read_flag false
  pure (record {
    gems = gems;
    next_update_ms = next_update_ms;
    item_id = item_id;
    enabled = enabled;
  })

unfoldable pub serialize_tesseract_manipulator_tile :
    ℕ → TesseractManipulatorTile → Exec Buffer Unit
serialize_tesseract_manipulator_tile version x = do
  write_u32 x.gems
  write_u32 x.next_update_ms
  write_u32 x.item_id
  write_if (leb 8 version) (write_flag x.enabled)

abbrev pub TesseractManipulatorTileFits : ℕ → TesseractManipulatorTile → Type 0
TesseractManipulatorTileFits version x =
    IsU32 x.gems
    × IsU32 x.next_update_ms
    × IsU32 x.item_id
    × Kept (leb 8 version) (Unit) x.enabled false

pub tesseract_manipulator_tile-Carries :
    (version : ℕ)
    → AllCarry
        (TesseractManipulatorTileFits version)
        (serialize_tesseract_manipulator_tile version)
        (deserialize_tesseract_manipulator_tile version)
unfolding serialize_tesseract_manipulator_tile deserialize_tesseract_manipulator_tile
tesseract_manipulator_tile-Carries version x h =
    next _ (u32 h.0) (next _ (u32 h.1) (next _ (u32 h.2) (last _ (when _ _ _ (λ _. flag) h.3))))

pub record HeartOfGaiaTile : Type 0 where
  pub gems : ℕ
  pub next_update_ms : ℕ
  pub item_id : ℕ
  pub enabled : Bool

unfoldable pub deserialize_heart_of_gaia_tile : ℕ → Exec Buffer HeartOfGaiaTile
deserialize_heart_of_gaia_tile version = do
  gems ← read_u32
  next_update_ms ← read_u32
  item_id ← read_u32
  enabled ← read_if (leb 8 version) read_flag false
  pure (record {
    gems = gems;
    next_update_ms = next_update_ms;
    item_id = item_id;
    enabled = enabled;
  })

unfoldable pub serialize_heart_of_gaia_tile : ℕ → HeartOfGaiaTile → Exec Buffer Unit
serialize_heart_of_gaia_tile version x = do
  write_u32 x.gems
  write_u32 x.next_update_ms
  write_u32 x.item_id
  write_if (leb 8 version) (write_flag x.enabled)

abbrev pub HeartOfGaiaTileFits : ℕ → HeartOfGaiaTile → Type 0
HeartOfGaiaTileFits version x =
    IsU32 x.gems
    × IsU32 x.next_update_ms
    × IsU32 x.item_id
    × Kept (leb 8 version) (Unit) x.enabled false

pub heart_of_gaia_tile-Carries :
    (version : ℕ)
    → AllCarry
        (HeartOfGaiaTileFits version)
        (serialize_heart_of_gaia_tile version)
        (deserialize_heart_of_gaia_tile version)
unfolding serialize_heart_of_gaia_tile deserialize_heart_of_gaia_tile
heart_of_gaia_tile-Carries version x h =
    next _ (u32 h.0) (next _ (u32 h.1) (next _ (u32 h.2) (last _ (when _ _ _ (λ _. flag) h.3))))

pub record TechnoOrganicEngineTile : Type 0 where
  pub unk1 : ℕ
  pub unk2 : ℕ
  pub item_id : ℕ
  pub unk4 : ℕ
  pub unk5 : ℕ
  pub unk6 : ℕ
  pub unk7 : ℕ
  pub unk8 : ℕ
  pub unk9 : ℕ
  pub unk10 : ℕ

unfoldable pub deserialize_techno_organic_engine_tile : ℕ → Exec Buffer TechnoOrganicEngineTile
deserialize_techno_organic_engine_tile version = do
  unk1 ← read_u32
  unk2 ← read_u32
  item_id ← read_u32
  unk4 ← read_if (ltb 8 version) read_u32 0
  unk5 ← read_u32
  unk6 ← read_u32
  unk7 ← read_u8
  unk8 ← read_u8
  unk9 ← read_u32
  unk10 ← read_u32
  pure (record {
    unk1 = unk1;
    unk2 = unk2;
    item_id = item_id;
    unk4 = unk4;
    unk5 = unk5;
    unk6 = unk6;
    unk7 = unk7;
    unk8 = unk8;
    unk9 = unk9;
    unk10 = unk10;
  })

unfoldable pub serialize_techno_organic_engine_tile : ℕ → TechnoOrganicEngineTile → Exec Buffer Unit
serialize_techno_organic_engine_tile version x = do
  write_u32 x.unk1
  write_u32 x.unk2
  write_u32 x.item_id
  write_if (ltb 8 version) (write_u32 x.unk4)
  write_u32 x.unk5
  write_u32 x.unk6
  write_u8 x.unk7
  write_u8 x.unk8
  write_u32 x.unk9
  write_u32 x.unk10

abbrev pub TechnoOrganicEngineTileFits : ℕ → TechnoOrganicEngineTile → Type 0
TechnoOrganicEngineTileFits version x =
    IsU32 x.unk1
    × IsU32 x.unk2
    × IsU32 x.item_id
    × Kept (ltb 8 version) (IsU32 x.unk4) x.unk4 0
    × IsU32 x.unk5
    × IsU32 x.unk6
    × IsU8 x.unk7
    × IsU8 x.unk8
    × IsU32 x.unk9
    × IsU32 x.unk10

pub techno_organic_engine_tile-Carries :
    (version : ℕ)
    → AllCarry
        (TechnoOrganicEngineTileFits version)
        (serialize_techno_organic_engine_tile version)
        (deserialize_techno_organic_engine_tile version)
unfolding serialize_techno_organic_engine_tile deserialize_techno_organic_engine_tile
techno_organic_engine_tile-Carries version x h = next _ (u32 h.0) (
    next _ (u32 h.1) (
      next _ (u32 h.2) (
        next _ (when _ _ _ u32 h.3) (
          next _ (u32 h.4) (
            next _ (u32 h.5)
              (next _ (u8 h.6) (next _ (u8 h.7) (next _ (u32 h.8) (last _ (u32 h.9))))))))))
