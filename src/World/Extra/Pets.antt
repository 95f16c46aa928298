-- ===== src/World/Extra/Pets.antt =====
-- gtools/core/growtopia/world.py: silkworms and pets.
use gtools.Prelude.{ℕ, ◌+◌, ◌*◌, ◌/◌, ◌%◌, ◌^◌, ◌≡◌, sym, subst, List, length, some, All, arith}
use gtools.Python.Exec.{Exec, pure, lift, ◌>>=◌, ◌>>◌}
use gtools.Python.Struct.{Bytes, big, unsigned}
use gtools.Python.Struct.Laws.{unsigned-Packs}
use gtools.Buffer.Raw.{Buffer}
use gtools.Buffer.Values.{read_u8, read_u32, read_bytes, write_u8, write_u32, write_bytes}
use gtools.World.Extra.Loops.{
  read_text, write_text, read_many, write_each, IsU8, IsU32, IsText, IsRun,
}
use gtools.World.Extra.Carried.{Carries, AllCarry, next, last, u8, u32, text, run, each}

pub record SilkwormColor : Type 0 where
  pub a : ℕ
  pub r : ℕ
  pub g : ℕ
  pub b : ℕ

-- `int.from_bytes` and `int.to_bytes(4)`, most significant byte first; the four shifted bytes have
-- no bit in common, so that their `|` is their sum.
unfoldable pub deserialize_silkworm_color : Exec Buffer SilkwormColor
deserialize_silkworm_color = do
  bytes ← read_bytes (some 4)
  let color = (unsigned 4).unpack big bytes
  pure (record {
    a = color / 2 ^ 24 % 256;
    r = color / 2 ^ 16 % 256;
    g = color / 2 ^ 8 % 256;
    b = color / 2 ^ 0 % 256;
  })

abbrev silkworm_value : SilkwormColor → ℕ
silkworm_value x = x.a % 256 * 2 ^ 24 + x.r % 256 * 2 ^ 16 + x.g % 256 * 2 ^ 8 + x.b % 256 * 2 ^ 0

unfoldable pub serialize_silkworm_color : SilkwormColor → Exec Buffer Unit
serialize_silkworm_color x = (do
  bytes ← lift ((unsigned 4).pack big (silkworm_value x))
  write_bytes bytes)

abbrev pub SilkwormColorFits : SilkwormColor → Type 0
SilkwormColorFits x = IsU8 x.a × IsU8 x.r × IsU8 x.g × IsU8 x.b

color_back :
    (x : SilkwormColor)
    → SilkwormColorFits x
    → record {
      a = silkworm_value x / 2 ^ 24 % 256;
      r = silkworm_value x / 2 ^ 16 % 256;
      g = silkworm_value x / 2 ^ 8 % 256;
      b = silkworm_value x / 2 ^ 0 % 256;
    }
      ≡ x
color_back x h = ground arith

pub silkworm_color-Carries :
    (x : SilkwormColor)
    → SilkwormColorFits x
    → Carries (serialize_silkworm_color x) deserialize_silkworm_color x
unfolding serialize_silkworm_color deserialize_silkworm_color
silkworm_color-Carries x h =
    let p = unsigned-Packs 4 big (silkworm_value x) (omega arith) in
    rw p.packed (
      subst (Carries (write_bytes p.bytes) deserialize_silkworm_color)
        (rw p.unpacked (color_back x h)) (last _ (run 4 (sym p.sized))))

pub record SilkwormTile : Type 0 where
  pub flags : ℕ
  pub name : Bytes
  pub age : ℕ
  pub unk1 : ℕ
  pub unk2 : ℕ
  pub can_be_fed : ℕ
  pub food_saturation : ℕ
  pub water_saturation : ℕ
  pub color : SilkwormColor
  pub sick_duration : ℕ

unfoldable pub deserialize_silkworm_tile : Exec Buffer SilkwormTile
deserialize_silkworm_tile = do
  flags ← read_u8
  name ← read_text
  age ← read_u32
  unk1 ← read_u32
  unk2 ← read_u32
  can_be_fed ← read_u8
  food_saturation ← read_u32
  water_saturation ← read_u32
  color ← deserialize_silkworm_color
  sick_duration ← read_u32
  pure (record {
    flags = flags;
    name = name;
    age = age;
    unk1 = unk1;
    unk2 = unk2;
    can_be_fed = can_be_fed;
    food_saturation = food_saturation;
    water_saturation = water_saturation;
    color = color;
    sick_duration = sick_duration;
  })

unfoldable pub serialize_silkworm_tile : SilkwormTile → Exec Buffer Unit
serialize_silkworm_tile x = do
  write_u8 x.flags
  write_text x.name
  write_u32 x.age
  write_u32 x.unk1
  write_u32 x.unk2
  write_u8 x.can_be_fed
  write_u32 x.food_saturation
  write_u32 x.water_saturation
  serialize_silkworm_color x.color
  write_u32 x.sick_duration

abbrev pub SilkwormTileFits : SilkwormTile → Type 0
SilkwormTileFits x =
    IsU8 x.flags
    × IsText x.name
    × IsU32 x.age
    × IsU32 x.unk1
    × IsU32 x.unk2
    × IsU8 x.can_be_fed
    × IsU32 x.food_saturation
    × IsU32 x.water_saturation
    × SilkwormColorFits x.color
    × IsU32 x.sick_duration

pub silkworm_tile-Carries :
    AllCarry SilkwormTileFits serialize_silkworm_tile deserialize_silkworm_tile
unfolding serialize_silkworm_tile deserialize_silkworm_tile
silkworm_tile-Carries x h = next _ (u8 h.0) (
    next _ (text h.1) (
      next _ (u32 h.2) (
        next _ (u32 h.3) (
          next _ (u32 h.4) (
            next _ (u8 h.5) (
              next _ (u32 h.6) (
                next _ (u32 h.7)
                  (next _ (silkworm_color-Carries x.color h.8) (last _ (u32 h.9))))))))))

pub record PetBattleCageTile : Type 0 where
  pub name : Bytes
  pub unk1 : Bytes

unfoldable pub deserialize_pet_battle_cage_tile : Exec Buffer PetBattleCageTile
deserialize_pet_battle_cage_tile = do
  name ← read_text
  unk1 ← read_bytes (some 12)
  pure (record { name = name; unk1 = unk1 })

unfoldable pub serialize_pet_battle_cage_tile : PetBattleCageTile → Exec Buffer Unit
serialize_pet_battle_cage_tile x = do write_text x.name; write_bytes x.unk1

abbrev pub PetBattleCageTileFits : PetBattleCageTile → Type 0
PetBattleCageTileFits x = IsText x.name × IsRun 12 x.unk1

pub pet_battle_cage_tile-Carries :
    AllCarry PetBattleCageTileFits serialize_pet_battle_cage_tile deserialize_pet_battle_cage_tile
unfolding serialize_pet_battle_cage_tile deserialize_pet_battle_cage_tile
pet_battle_cage_tile-Carries x h = next _ (text h.0) (last _ (run 12 h.1))

pub record PetTrainerTile : Type 0 where
  pub name : Bytes
  pub pet_count : ℕ
  pub unk1 : ℕ
  pub pets_id : List ℕ

unfoldable pub deserialize_pet_trainer_tile : Exec Buffer PetTrainerTile
deserialize_pet_trainer_tile = do
  name ← read_text
  pet_count ← read_u32
  unk1 ← read_u32
  pets_id ← read_many pet_count read_u32
  pure (record { name = name; pet_count = pet_count; unk1 = unk1; pets_id = pets_id })

unfoldable pub serialize_pet_trainer_tile : PetTrainerTile → Exec Buffer Unit
serialize_pet_trainer_tile x = do
  write_text x.name
  write_u32 x.pet_count
  write_u32 x.unk1
  write_each write_u32 x.pets_id

abbrev pub PetTrainerTileFits : PetTrainerTile → Type 0
PetTrainerTileFits x =
    IsText x.name
    × IsU32 x.pet_count
    × IsU32 x.unk1
    × (x.pet_count ≡ length x.pets_id)
    × All IsU32 x.pets_id

pub pet_trainer_tile-Carries :
    AllCarry PetTrainerTileFits serialize_pet_trainer_tile deserialize_pet_trainer_tile
unfolding serialize_pet_trainer_tile deserialize_pet_trainer_tile
pet_trainer_tile-Carries x h =
    next _ (text h.0) (next _ (u32 h.1) (next _ (u32 h.2) (last _ (each _ (λ _. u32) h.3 h.4))))
