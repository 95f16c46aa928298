-- ===== src/World/Extra/Npcs.antt =====
-- gtools/core/growtopia/world.py: the enemies of an adventure.
use gtools.Prelude.{ℕ, ◌≡◌, refl, Bool, List, length, All}
use gtools.Python.Exec.{Exec, pure, ◌>>=◌, ◌>>◌}
use gtools.Buffer.Raw.{Buffer}
use gtools.Buffer.Values.{read_u32, write_u32}
use gtools.World.Extra.Loops.{read_flag, write_flag, read_many, write_each, IsU32}
use gtools.World.Extra.Carried.{Carries, AllCarry, next, last, u32, flag, each}

unfoldable pub read_pair : Exec Buffer (ℕ × ℕ)
read_pair = do x ← read_u32; y ← read_u32; pure (x, y)

unfoldable pub write_pair : ℕ × ℕ → Exec Buffer Unit
write_pair (x, y) = do write_u32 x; write_u32 y

abbrev pub IsPair : ℕ × ℕ → Type 0
IsPair p = IsU32 p.0 × IsU32 p.1

pair : (p : ℕ × ℕ) → IsPair p → Carries (write_pair p) read_pair p
unfolding read_pair write_pair
pair p h = next _ (u32 h.0) (last _ (u32 h.1))

pub record PveNpcData : Type 0 where
  pub field_1 : ℕ
  pub field_2 : ℕ
  pub field_3 : ℕ
  pub field_4 : ℕ
  pub field_5 : ℕ
  pub field_b6 : Bool
  pub field_b7 : Bool
  pub field_8 : ℕ
  pub field_9 : ℕ
  pub field_10 : ℕ
  pub field_b11 : Bool
  pub field_12 : ℕ
  pub field_13 : ℕ
  pub field_14 : ℕ
  pub field_b15 : Bool
  pub field_16 : ℕ
  pub field_17 : ℕ
  pub field_18 : ℕ
  pub field_19 : ℕ
  pub field_b20 : Bool
  pub field_21 : ℕ
  pub field_22 : ℕ
  pub field_23 : ℕ
  pub field_25 : ℕ
  pub field_b26 : Bool
  pub pos : List (ℕ × ℕ)

unfoldable pub deserialize_pve_npc_data : Exec Buffer PveNpcData
deserialize_pve_npc_data = do
  field_1 ← read_u32
  field_2 ← read_u32
  field_3 ← read_u32
  field_4 ← read_u32
  field_5 ← read_u32
  field_b6 ← read_flag
  field_b7 ← read_flag
  field_8 ← read_u32
  field_9 ← read_u32
  field_10 ← read_u32
  field_b11 ← read_flag
  field_12 ← read_u32
  field_13 ← read_u32
  field_14 ← read_u32
  field_b15 ← read_flag
  field_16 ← read_u32
  field_17 ← read_u32
  field_18 ← read_u32
  field_19 ← read_u32
  field_b20 ← read_flag
  field_21 ← read_u32
  field_22 ← read_u32
  field_23 ← read_u32
  field_25 ← read_u32
  field_b26 ← read_flag
  count ← read_u32
  pos ← read_many count read_pair
  pure (record {
    field_1 = field_1;
    field_2 = field_2;
    field_3 = field_3;
    field_4 = field_4;
    field_5 = field_5;
    field_b6 = field_b6;
    field_b7 = field_b7;
    field_8 = field_8;
    field_9 = field_9;
    field_10 = field_10;
    field_b11 = field_b11;
    field_12 = field_12;
    field_13 = field_13;
    field_14 = field_14;
    field_b15 = field_b15;
    field_16 = field_16;
    field_17 = field_17;
    field_18 = field_18;
    field_19 = field_19;
    field_b20 = field_b20;
    field_21 = field_21;
    field_22 = field_22;
    field_23 = field_23;
    field_25 = field_25;
    field_b26 = field_b26;
    pos = pos;
  })

unfoldable pub serialize_pve_npc_data : PveNpcData → Exec Buffer Unit
serialize_pve_npc_data x = do
  write_u32 x.field_1
  write_u32 x.field_2
  write_u32 x.field_3
  write_u32 x.field_4
  write_u32 x.field_5
  write_flag x.field_b6
  write_flag x.field_b7
  write_u32 x.field_8
  write_u32 x.field_9
  write_u32 x.field_10
  write_flag x.field_b11
  write_u32 x.field_12
  write_u32 x.field_13
  write_u32 x.field_14
  write_flag x.field_b15
  write_u32 x.field_16
  write_u32 x.field_17
  write_u32 x.field_18
  write_u32 x.field_19
  write_flag x.field_b20
  write_u32 x.field_21
  write_u32 x.field_22
  write_u32 x.field_23
  write_u32 x.field_25
  write_flag x.field_b26
  write_u32 (length x.pos)
  write_each write_pair x.pos

abbrev pub PveNpcDataFits : PveNpcData → Type 0
PveNpcDataFits x =
    IsU32 x.field_1
    × IsU32 x.field_2
    × IsU32 x.field_3
    × IsU32 x.field_4
    × IsU32 x.field_5
    × IsU32 x.field_8
    × IsU32 x.field_9
    × IsU32 x.field_10
    × IsU32 x.field_12
    × IsU32 x.field_13
    × IsU32 x.field_14
    × IsU32 x.field_16
    × IsU32 x.field_17
    × IsU32 x.field_18
    × IsU32 x.field_19
    × IsU32 x.field_21
    × IsU32 x.field_22
    × IsU32 x.field_23
    × IsU32 x.field_25
    × IsU32 (length x.pos)
    × All IsPair x.pos

pub pve_npc_data-Carries : AllCarry PveNpcDataFits serialize_pve_npc_data deserialize_pve_npc_data
unfolding serialize_pve_npc_data deserialize_pve_npc_data
pve_npc_data-Carries x h = next _ (u32 h.0) (
    next _ (u32 h.1) (
      next _ (u32 h.2) (
        next _ (u32 h.3) (
          next _ (u32 h.4) (
            next _ flag (
              next _ flag (
                next _ (u32 h.5) (
                  next _ (u32 h.6) (
                    next _ (u32 h.7) (
                      next _ flag (
                        next _ (u32 h.8) (
                          next _ (u32 h.9) (
                            next _ (u32 h.10) (
                              next _ flag (
                                next _ (u32 h.11) (
                                  next _ (u32 h.12) (
                                    next _ (u32 h.13) (
                                      next _ (u32 h.14) (
                                        next _ flag (
                                          next _ (u32 h.15) (
                                            next _ (u32 h.16) (
                                              next _ (u32 h.17) (
                                                next _ (u32 h.18) (
                                                  next _ flag (
                                                    next _ (u32 h.19) (
                                                      last _ (
                                                        each _ pair refl
                                                          h.20)))))))))))))))))))))))))))

pub record PveNpcTile : Type 0 where
  pub arr : List PveNpcData

unfoldable pub deserialize_pve_npc_tile : Exec Buffer PveNpcTile
deserialize_pve_npc_tile = do
  arr ← read_many 3 deserialize_pve_npc_data
  pure (record { arr = arr })

unfoldable pub serialize_pve_npc_tile : PveNpcTile → Exec Buffer Unit
serialize_pve_npc_tile x = write_each serialize_pve_npc_data x.arr

abbrev pub PveNpcTileFits : PveNpcTile → Type 0
PveNpcTileFits x = (3 ≡ length x.arr) × All PveNpcDataFits x.arr

pub pve_npc_tile-Carries : AllCarry PveNpcTileFits serialize_pve_npc_tile deserialize_pve_npc_tile
unfolding serialize_pve_npc_tile deserialize_pve_npc_tile
pve_npc_tile-Carries x h = last _ (each _ pve_npc_data-Carries h.0 h.1)
