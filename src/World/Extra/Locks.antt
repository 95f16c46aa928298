-- ===== src/World/Extra/Locks.antt =====
-- gtools/core/growtopia/world.py: locks and entrances.
use gtools.Prelude.{
  ℕ, zero, suc, ◌++◌, ◌≡◌, refl, sym, ap, subst, leb, List, [], ◌∷◌, length, Option, none, some,
  All, ℤ, pos, negsuc,
}
use gtools.Python.Exec.{Exec, Result, ok, err, index_error, pure, map_ok, ◌>>=◌, ◌>>◌}
use gtools.Buffer.Raw.{Buffer}
use gtools.Buffer.Values.{
  read_u8, read_u16, read_u32, read_i32, write_u8, write_u16, write_u32, write_i32,
}
use gtools.World.Extra.Loops.{
  read_many, write_each, read_if, write_if, IsU8, IsU16, IsU32, IsI32, Kept,
}
use gtools.World.Extra.Carried.{Carries, AllCarry, next, last, u8, u16, u32, i32, when, each}

pub record LockTile : Type 0 where
  pub flags : ℕ
  pub owner_uid : ℕ
  pub access_count : ℕ
  pub access_uids : List ℤ
  pub minimum_level : ℕ
  pub unk1 : ℕ
  pub bpm : ℕ

-- The beats per minute that the uids leave behind: the absolute value of the last negative one.
unfoldable pub bpm_of : List ℤ → ℕ → ℕ
bpm_of [] bpm = bpm
bpm_of (pos v ∷ vs) bpm = bpm_of vs bpm
bpm_of (negsuc v ∷ vs) bpm = bpm_of vs (suc v)

unfoldable pub deserialize_lock_tile : ℕ → Exec Buffer LockTile
deserialize_lock_tile version = do
  flags ← read_u8
  owner_uid ← read_u32
  access_count ← read_u32
  access_uids ← read_many access_count read_i32
  minimum_level ← read_if (leb 12 version) read_u32 0
  unk1 ← read_if (leb 13 version) read_u32 0
  pure (record {
    flags = flags;
    owner_uid = owner_uid;
    access_count = access_count;
    access_uids = access_uids;
    minimum_level = minimum_level;
    unk1 = unk1;
    bpm = bpm_of access_uids 100;
  })

unfoldable pub serialize_lock_tile : ℕ → LockTile → Exec Buffer Unit
serialize_lock_tile version x = do
  write_u8 x.flags
  write_u32 x.owner_uid
  write_u32 x.access_count
  write_each write_i32 x.access_uids
  write_if (leb 12 version) (write_u32 x.minimum_level)
  write_if (leb 13 version) (write_u32 x.unk1)

abbrev pub LockTileFits : ℕ → LockTile → Type 0
LockTileFits version x =
    IsU8 x.flags
    × IsU32 x.owner_uid
    × IsU32 x.access_count
    × (x.access_count ≡ length x.access_uids)
    × All IsI32 x.access_uids
    × Kept (leb 12 version) (IsU32 x.minimum_level) x.minimum_level 0
    × Kept (leb 13 version) (IsU32 x.unk1) x.unk1 0
    × (x.bpm ≡ bpm_of x.access_uids 100)

pub lock_tile-Carries :
    (version : ℕ)
    → AllCarry (LockTileFits version) (serialize_lock_tile version) (deserialize_lock_tile version)
unfolding serialize_lock_tile deserialize_lock_tile
lock_tile-Carries version x h =
    subst (Carries (serialize_lock_tile version x) (deserialize_lock_tile version))
      (ap (λ b. record x { bpm = b }) (sym h.7))
      (next _ (u8 h.0) (
        next _ (u32 h.1) (
          next _ (u32 h.2) (
            next _ (each _ (λ _. i32) h.3 h.4)
              (next _ (when _ _ _ u32 h.5) (last _ (when _ _ _ u32 h.6)))))))

abbrev pub kept_uid : ℕ → Option (List ℤ) → Option (List ℤ)
kept_uid v none = none
kept_uid v (some uids) = some (pos v ∷ uids)

-- The loop of `set_bpm`, to its `break`: the first negative uid of the first n is replaced. `none`
-- means that there is none.
unfoldable pub replaced_uids : ℕ → ℕ → List ℤ → Result (Option (List ℤ))
replaced_uids zero bpm uids = ok none
replaced_uids (suc n) bpm [] = err index_error
replaced_uids (suc n) bpm (negsuc v ∷ uids) = ok (some (pos bpm ∷ uids))
replaced_uids (suc n) bpm (pos v ∷ uids) = map_ok (kept_uid v) (replaced_uids n bpm uids)

abbrev pub negated : ℕ → ℤ
negated zero = pos 0
negated (suc n) = negsuc n

abbrev pub with_uids : ℕ → LockTile → Option (List ℤ) → LockTile
with_uids bpm x (some uids) = record x { access_uids = uids; bpm = bpm }
with_uids bpm x none = record x { access_uids = x.access_uids ++ negated bpm ∷ []; bpm = bpm }

unfoldable pub set_bpm : ℕ → LockTile → Result LockTile
set_bpm bpm x = map_ok (with_uids bpm x) (replaced_uids x.access_count bpm x.access_uids)

pub record VipEntranceTile : Type 0 where
  pub unk1 : ℕ
  pub owner_uid : ℕ
  pub access_uids : List ℕ

unfoldable pub deserialize_vip_entrance_tile : Exec Buffer VipEntranceTile
deserialize_vip_entrance_tile = do
  unk1 ← read_u8
  owner_uid ← read_u32
  count ← read_u32
  access_uids ← read_many count read_u32
  pure (record { unk1 = unk1; owner_uid = owner_uid; access_uids = access_uids })

unfoldable pub serialize_vip_entrance_tile : VipEntranceTile → Exec Buffer Unit
serialize_vip_entrance_tile x = do
  write_u8 x.unk1
  write_u32 x.owner_uid
  write_u32 (length x.access_uids)
  write_each write_u32 x.access_uids

abbrev pub VipEntranceTileFits : VipEntranceTile → Type 0
VipEntranceTileFits x =
    IsU8 x.unk1 × IsU32 x.owner_uid × IsU32 (length x.access_uids) × All IsU32 x.access_uids

pub vip_entrance_tile-Carries :
    AllCarry VipEntranceTileFits serialize_vip_entrance_tile deserialize_vip_entrance_tile
unfolding serialize_vip_entrance_tile deserialize_vip_entrance_tile
vip_entrance_tile-Carries x h =
    next _ (u8 h.0) (next _ (u32 h.1) (next _ (u32 h.2) (last _ (each _ (λ _. u32) refl h.3))))

pub record FriendsEntranceTile : Type 0 where
  pub owner_uid : ℕ
  pub unk1 : ℕ
  pub unk2 : ℕ

unfoldable pub deserialize_friends_entrance_tile : Exec Buffer FriendsEntranceTile
deserialize_friends_entrance_tile = do
  owner_uid ← read_u32
  unk1 ← read_u16
  unk2 ← read_u16
  pure (record { owner_uid = owner_uid; unk1 = unk1; unk2 = unk2 })

unfoldable pub serialize_friends_entrance_tile : FriendsEntranceTile → Exec Buffer Unit
serialize_friends_entrance_tile x = do write_u32 x.owner_uid; write_u16 x.unk1; write_u16 x.unk2

abbrev pub FriendsEntranceTileFits : FriendsEntranceTile → Type 0
FriendsEntranceTileFits x = IsU32 x.owner_uid × IsU16 x.unk1 × IsU16 x.unk2

pub friends_entrance_tile-Carries :
    AllCarry FriendsEntranceTileFits serialize_friends_entrance_tile
      deserialize_friends_entrance_tile
unfolding serialize_friends_entrance_tile deserialize_friends_entrance_tile
friends_entrance_tile-Carries x h = next _ (u32 h.0) (next _ (u16 h.1) (last _ (u16 h.2)))
