-- ===== src/World/Extra/Labels.antt =====
-- gtools/core/growtopia/world.py: extras that carry a text beside a few numbers.
use gtools.Prelude.{ℕ}
use gtools.Python.Exec.{Exec, pure, ◌>>=◌, ◌>>◌}
use gtools.Python.Struct.{Bytes}
use gtools.Buffer.Raw.{Buffer}
use gtools.Buffer.Values.{read_u8, read_u32, write_u8, write_u32}
use gtools.World.Extra.Loops.{read_text, write_text, IsU8, IsU32, IsText}
use gtools.World.Extra.Carried.{AllCarry, next, last, u8, u32, text}

pub record CrystalTile : Type 0 where
  pub unk1 : Bytes

unfoldable pub deserialize_crystal_tile : Exec Buffer CrystalTile
deserialize_crystal_tile = do unk1 ← read_text; pure (record { unk1 = unk1 })

unfoldable pub serialize_crystal_tile : CrystalTile → Exec Buffer Unit
serialize_crystal_tile x = write_text x.unk1

abbrev pub CrystalTileFits : CrystalTile → Type 0
CrystalTileFits x = IsText x.unk1

pub crystal_tile-Carries : AllCarry CrystalTileFits serialize_crystal_tile deserialize_crystal_tile
unfolding serialize_crystal_tile deserialize_crystal_tile
crystal_tile-Carries x h = last _ (text h)

pub record CrimeInProgressTile : Type 0 where
  pub unk1 : Bytes
  pub unk2 : ℕ
  pub unk3 : ℕ

unfoldable pub deserialize_crime_in_progress_tile : Exec Buffer CrimeInProgressTile
deserialize_crime_in_progress_tile = do
  unk1 ← read_text
  unk2 ← read_u32
  unk3 ← read_u8
  pure (record { unk1 = unk1; unk2 = unk2; unk3 = unk3 })

unfoldable pub serialize_crime_in_progress_tile : CrimeInProgressTile → Exec Buffer Unit
serialize_crime_in_progress_tile x = do write_text x.unk1; write_u32 x.unk2; write_u8 x.unk3

abbrev pub CrimeInProgressTileFits : CrimeInProgressTile → Type 0
CrimeInProgressTileFits x = IsText x.unk1 × IsU32 x.unk2 × IsU8 x.unk3

pub crime_in_progress_tile-Carries :
    AllCarry CrimeInProgressTileFits serialize_crime_in_progress_tile
      deserialize_crime_in_progress_tile
unfolding serialize_crime_in_progress_tile deserialize_crime_in_progress_tile
crime_in_progress_tile-Carries x h = next _ (text h.0) (next _ (u32 h.1) (last _ (u8 h.2)))

pub record HeartMonitorTile : Type 0 where
  pub unk1 : ℕ
  pub player_name : Bytes

unfoldable pub deserialize_heart_monitor_tile : Exec Buffer HeartMonitorTile
deserialize_heart_monitor_tile = do
  unk1 ← read_u32
  player_name ← read_text
  pure (record { unk1 = unk1; player_name = player_name })

unfoldable pub serialize_heart_monitor_tile : HeartMonitorTile → Exec Buffer Unit
serialize_heart_monitor_tile x = do write_u32 x.unk1; write_text x.player_name

abbrev pub HeartMonitorTileFits : HeartMonitorTile → Type 0
HeartMonitorTileFits x = IsU32 x.unk1 × IsText x.player_name

pub heart_monitor_tile-Carries :
    AllCarry HeartMonitorTileFits serialize_heart_monitor_tile deserialize_heart_monitor_tile
unfolding serialize_heart_monitor_tile deserialize_heart_monitor_tile
heart_monitor_tile-Carries x h = next _ (u32 h.0) (last _ (text h.1))

pub record CountryFlagTile : Type 0 where
  pub country : Bytes

unfoldable pub deserialize_country_flag_tile : Exec Buffer CountryFlagTile
deserialize_country_flag_tile = do country ← read_text; pure (record { country = country })

unfoldable pub serialize_country_flag_tile : CountryFlagTile → Exec Buffer Unit
serialize_country_flag_tile x = write_text x.country

abbrev pub CountryFlagTileFits : CountryFlagTile → Type 0
CountryFlagTileFits x = IsText x.country

pub country_flag_tile-Carries :
    AllCarry CountryFlagTileFits serialize_country_flag_tile deserialize_country_flag_tile
unfolding serialize_country_flag_tile deserialize_country_flag_tile
country_flag_tile-Carries x h = last _ (text h)

pub record AngelicCountingCloudTile : Type 0 where
  pub is_raffling : ℕ
  pub ascii : Bytes

unfoldable pub deserialize_angelic_counting_cloud_tile : Exec Buffer AngelicCountingCloudTile
deserialize_angelic_counting_cloud_tile = do
  is_raffling ← read_u32
  ascii ← read_text
  pure (record { is_raffling = is_raffling; ascii = ascii })

unfoldable pub serialize_angelic_counting_cloud_tile : AngelicCountingCloudTile → Exec Buffer Unit
serialize_angelic_counting_cloud_tile x = do write_u32 x.is_raffling; write_text x.ascii

abbrev pub AngelicCountingCloudTileFits : AngelicCountingCloudTile → Type 0
AngelicCountingCloudTileFits x = IsU32 x.is_raffling × IsText x.ascii

pub angelic_counting_cloud_tile-Carries :
    AllCarry AngelicCountingCloudTileFits serialize_angelic_counting_cloud_tile
      deserialize_angelic_counting_cloud_tile
unfolding serialize_angelic_counting_cloud_tile deserialize_angelic_counting_cloud_tile
angelic_counting_cloud_tile-Carries x h = next _ (u32 h.0) (last _ (text h.1))

pub record AudioRackTile : Type 0 where
  pub note : Bytes
  pub volume : ℕ

unfoldable pub deserialize_audio_rack_tile : Exec Buffer AudioRackTile
deserialize_audio_rack_tile = do
  note ← read_text
  volume ← read_u32
  pure (record { note = note; volume = volume })

unfoldable pub serialize_audio_rack_tile : AudioRackTile → Exec Buffer Unit
serialize_audio_rack_tile x = do write_text x.note; write_u32 x.volume

abbrev pub AudioRackTileFits : AudioRackTile → Type 0
AudioRackTileFits x = IsText x.note × IsU32 x.volume

pub audio_rack_tile-Carries :
    AllCarry AudioRackTileFits serialize_audio_rack_tile deserialize_audio_rack_tile
unfolding serialize_audio_rack_tile deserialize_audio_rack_tile
audio_rack_tile-Carries x h = next _ (text h.0) (last _ (u32 h.1))

pub record PaintingEaselTile : Type 0 where
  pub item_id : ℕ
  pub label : Bytes

unfoldable pub deserialize_painting_easel_tile : Exec Buffer PaintingEaselTile
deserialize_painting_easel_tile = do
  item_id ← read_u32
  label ← read_text
  pure (record { item_id = item_id; label = label })

unfoldable pub serialize_painting_easel_tile : PaintingEaselTile → Exec Buffer Unit
serialize_painting_easel_tile x = do write_u32 x.item_id; write_text x.label

abbrev pub PaintingEaselTileFits : PaintingEaselTile → Type 0
PaintingEaselTileFits x = IsU32 x.item_id × IsText x.label

pub painting_easel_tile-Carries :
    AllCarry PaintingEaselTileFits serialize_painting_easel_tile deserialize_painting_easel_tile
unfolding serialize_painting_easel_tile deserialize_painting_easel_tile
painting_easel_tile-Carries x h = next _ (u32 h.0) (last _ (text h.1))
