-- ===== src/World/Extra/Fish.antt =====
-- gtools/core/growtopia/world.py: fish tanks, mounted fish and training ports.
use gtools.Prelude.{ℕ, ◌*◌, ◌/◌, List, length, some, All, arith}
use gtools.Python.Exec.{Exec, pure, ◌>>=◌, ◌>>◌}
use gtools.Python.Struct.{Bytes}
use gtools.Buffer.Raw.{Buffer}
use gtools.Buffer.Values.{
  read_u8, read_u16, read_u32, read_bytes, write_u8, write_u16, write_u32, write_bytes,
}
use gtools.World.Extra.Loops.{
  read_text, write_text, read_many, write_each, IsU8, IsU16, IsU32, IsText, IsRun,
}
use gtools.World.Extra.Carried.{AllCarry, next, last, u8, u16, u32, text, run, each}

pub record FishInfo : Type 0 where
  pub fish_item_id : ℕ
  pub lbs : ℕ

unfoldable pub deserialize_fish_info : Exec Buffer FishInfo
deserialize_fish_info = do
  fish_item_id ← read_u32
  lbs ← read_u32
  pure (record { fish_item_id = fish_item_id; lbs = lbs })

unfoldable pub serialize_fish_info : FishInfo → Exec Buffer Unit
serialize_fish_info x = do write_u32 x.fish_item_id; write_u32 x.lbs

abbrev pub FishInfoFits : FishInfo → Type 0
FishInfoFits x = IsU32 x.fish_item_id × IsU32 x.lbs

pub fish_info-Carries : AllCarry FishInfoFits serialize_fish_info deserialize_fish_info
unfolding serialize_fish_info deserialize_fish_info
fish_info-Carries x h = next _ (u32 h.0) (last _ (u32 h.1))

pub record FishTankPortTile : Type 0 where
  pub flags : ℕ
  pub fishes : List FishInfo

unfoldable pub deserialize_fish_tank_port_tile : Exec Buffer FishTankPortTile
deserialize_fish_tank_port_tile = do
  flags ← read_u8
  count ← read_u32
  fishes ← read_many (count / 2) deserialize_fish_info
  pure (record { flags = flags; fishes = fishes })

unfoldable pub serialize_fish_tank_port_tile : FishTankPortTile → Exec Buffer Unit
serialize_fish_tank_port_tile x = do
  write_u8 x.flags
  write_u32 (length x.fishes * 2)
  write_each serialize_fish_info x.fishes

abbrev pub FishTankPortTileFits : FishTankPortTile → Type 0
FishTankPortTileFits x = IsU8 x.flags × IsU32 (length x.fishes * 2) × All FishInfoFits x.fishes

pub fish_tank_port_tile-Carries :
    AllCarry FishTankPortTileFits serialize_fish_tank_port_tile deserialize_fish_tank_port_tile
unfolding serialize_fish_tank_port_tile deserialize_fish_tank_port_tile
fish_tank_port_tile-Carries x h =
    next _ (u8 h.0) (next _ (u32 h.1) (last _ (each _ fish_info-Carries (omega arith) h.2)))

pub record FishWallMountTile : Type 0 where
  pub label : Bytes
  pub item_id : ℕ
  pub lb : ℕ

unfoldable pub deserialize_fish_wall_mount_tile : Exec Buffer FishWallMountTile
deserialize_fish_wall_mount_tile = do
  label ← read_text
  item_id ← read_u32
  lb ← read_u8
  pure (record { label = label; item_id = item_id; lb = lb })

unfoldable pub serialize_fish_wall_mount_tile : FishWallMountTile → Exec Buffer Unit
serialize_fish_wall_mount_tile x = do write_text x.label; write_u32 x.item_id; write_u8 x.lb

abbrev pub FishWallMountTileFits : FishWallMountTile → Type 0
FishWallMountTileFits x = IsText x.label × IsU32 x.item_id × IsU8 x.lb

pub fish_wall_mount_tile-Carries :
    AllCarry FishWallMountTileFits serialize_fish_wall_mount_tile deserialize_fish_wall_mount_tile
unfolding serialize_fish_wall_mount_tile deserialize_fish_wall_mount_tile
fish_wall_mount_tile-Carries x h = next _ (text h.0) (next _ (u32 h.1) (last _ (u8 h.2)))

pub record TrainingPortTile : Type 0 where
  pub fish_lb : ℕ
  pub fish_status : ℕ
  pub fish_id : ℕ
  pub fish_total_exp : ℕ
  pub fish_level : ℕ
  pub unk2 : ℕ
  pub unk3 : Bytes

unfoldable pub deserialize_training_port_tile : Exec Buffer TrainingPortTile
deserialize_training_port_tile = do
  fish_lb ← read_u32
  fish_status ← read_u16
  fish_id ← read_u32
  fish_total_exp ← read_u32
  fish_level ← read_u32
  unk2 ← read_u32
  unk3 ← read_bytes (some 13)
  pure (record {
    fish_lb = fish_lb;
    fish_status = fish_status;
    fish_id = fish_id;
    fish_total_exp = fish_total_exp;
    fish_level = fish_level;
    unk2 = unk2;
    unk3 = unk3;
  })

unfoldable pub serialize_training_port_tile : TrainingPortTile → Exec Buffer Unit
serialize_training_port_tile x = do
  write_u32 x.fish_lb
  write_u16 x.fish_status
  write_u32 x.fish_id
  write_u32 x.fish_total_exp
  write_u32 x.fish_level
  write_u32 x.unk2
  write_bytes x.unk3

abbrev pub TrainingPortTileFits : TrainingPortTile → Type 0
TrainingPortTileFits x =
    IsU32 x.fish_lb
    × IsU16 x.fish_status
    × IsU32 x.fish_id
    × IsU32 x.fish_total_exp
    × IsU32 x.fish_level
    × IsU32 x.unk2
    × IsRun 13 x.unk3

pub training_port_tile-Carries :
    AllCarry TrainingPortTileFits serialize_training_port_tile deserialize_training_port_tile
unfolding serialize_training_port_tile deserialize_training_port_tile
training_port_tile-Carries x h = next _ (u32 h.0) (
    next _ (u16 h.1) (
      next _ (u32 h.2)
        (next _ (u32 h.3) (next _ (u32 h.4) (next _ (u32 h.5) (last _ (run 13 h.6)))))))
