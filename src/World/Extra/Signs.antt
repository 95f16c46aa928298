-- ===== src/World/Extra/Signs.antt =====
-- gtools/core/growtopia/world.py: doors, signs, and what holds messages.
use gtools.Prelude.{ℕ, ℤ}
use gtools.Python.Exec.{Exec, pure, ◌>>=◌, ◌>>◌}
use gtools.Python.Struct.{Bytes}
use gtools.Buffer.Raw.{Buffer}
use gtools.Buffer.Values.{read_u8, read_i32, write_u8, write_i32}
use gtools.World.Extra.Loops.{read_text, write_text, IsU8, IsI32, IsText}
use gtools.World.Extra.Carried.{AllCarry, next, last, u8, i32, text}

pub record DoorTile : Type 0 where
  pub text : Bytes
  pub unk1 : ℕ

unfoldable pub deserialize_door_tile : Exec Buffer DoorTile
deserialize_door_tile = do
  text ← read_text
  unk1 ← read_u8
  pure (record { text = text; unk1 = unk1 })

unfoldable pub serialize_door_tile : DoorTile → Exec Buffer Unit
serialize_door_tile x = do write_text x.text; write_u8 x.unk1

abbrev pub DoorTileFits : DoorTile → Type 0
DoorTileFits x = IsText x.text × IsU8 x.unk1

pub door_tile-Carries : AllCarry DoorTileFits serialize_door_tile deserialize_door_tile
unfolding serialize_door_tile deserialize_door_tile
door_tile-Carries x h = next _ (text h.0) (last _ (u8 h.1))

pub record SignTile : Type 0 where
  pub text : Bytes
  pub unk1 : ℤ

unfoldable pub deserialize_sign_tile : Exec Buffer SignTile
deserialize_sign_tile = do
  text ← read_text
  unk1 ← read_i32
  pure (record { text = text; unk1 = unk1 })

unfoldable pub serialize_sign_tile : SignTile → Exec Buffer Unit
serialize_sign_tile x = do write_text x.text; write_i32 x.unk1

abbrev pub SignTileFits : SignTile → Type 0
SignTileFits x = IsText x.text × IsI32 x.unk1

pub sign_tile-Carries : AllCarry SignTileFits serialize_sign_tile deserialize_sign_tile
unfolding serialize_sign_tile deserialize_sign_tile
sign_tile-Carries x h = next _ (text h.0) (last _ (i32 h.1))

pub record MailboxTile : Type 0 where
  pub unk1 : Bytes
  pub unk2 : Bytes
  pub unk3 : Bytes
  pub unk4 : ℕ

unfoldable pub deserialize_mailbox_tile : Exec Buffer MailboxTile
deserialize_mailbox_tile = do
  unk1 ← read_text
  unk2 ← read_text
  unk3 ← read_text
  unk4 ← read_u8
  pure (record { unk1 = unk1; unk2 = unk2; unk3 = unk3; unk4 = unk4 })

unfoldable pub serialize_mailbox_tile : MailboxTile → Exec Buffer Unit
serialize_mailbox_tile x = do
  write_text x.unk1
  write_text x.unk2
  write_text x.unk3
  write_u8 x.unk4

abbrev pub MailboxTileFits : MailboxTile → Type 0
MailboxTileFits x = IsText x.unk1 × IsText x.unk2 × IsText x.unk3 × IsU8 x.unk4

pub mailbox_tile-Carries : AllCarry MailboxTileFits serialize_mailbox_tile deserialize_mailbox_tile
unfolding serialize_mailbox_tile deserialize_mailbox_tile
mailbox_tile-Carries x h =
    next _ (text h.0) (next _ (text h.1) (next _ (text h.2) (last _ (u8 h.3))))

pub record BulletinTile : Type 0 where
  pub unk1 : Bytes
  pub unk2 : Bytes
  pub unk3 : Bytes
  pub unk4 : ℕ

unfoldable pub deserialize_bulletin_tile : Exec Buffer BulletinTile
deserialize_bulletin_tile = do
  unk1 ← read_text
  unk2 ← read_text
  unk3 ← read_text
  unk4 ← read_u8
  pure (record { unk1 = unk1; unk2 = unk2; unk3 = unk3; unk4 = unk4 })

unfoldable pub serialize_bulletin_tile : BulletinTile → Exec Buffer Unit
serialize_bulletin_tile x = do
  write_text x.unk1
  write_text x.unk2
  write_text x.unk3
  write_u8 x.unk4

abbrev pub BulletinTileFits : BulletinTile → Type 0
BulletinTileFits x = IsText x.unk1 × IsText x.unk2 × IsText x.unk3 × IsU8 x.unk4

pub bulletin_tile-Carries :
    AllCarry BulletinTileFits serialize_bulletin_tile deserialize_bulletin_tile
unfolding serialize_bulletin_tile deserialize_bulletin_tile
bulletin_tile-Carries x h =
    next _ (text h.0) (next _ (text h.1) (next _ (text h.2) (last _ (u8 h.3))))

pub record DonationBoxTile : Type 0 where
  pub unk1 : Bytes
  pub unk2 : Bytes
  pub unk3 : Bytes
  pub unk4 : ℕ

unfoldable pub deserialize_donation_box_tile : Exec Buffer DonationBoxTile
deserialize_donation_box_tile = do
  unk1 ← read_text
  unk2 ← read_text
  unk3 ← read_text
  unk4 ← read_u8
  pure (record { unk1 = unk1; unk2 = unk2; unk3 = unk3; unk4 = unk4 })

unfoldable pub serialize_donation_box_tile : DonationBoxTile → Exec Buffer Unit
serialize_donation_box_tile x = do
  write_text x.unk1
  write_text x.unk2
  write_text x.unk3
  write_u8 x.unk4

abbrev pub DonationBoxTileFits : DonationBoxTile → Type 0
DonationBoxTileFits x = IsText x.unk1 × IsText x.unk2 × IsText x.unk3 × IsU8 x.unk4

pub donation_box_tile-Carries :
    AllCarry DonationBoxTileFits serialize_donation_box_tile deserialize_donation_box_tile
unfolding serialize_donation_box_tile deserialize_donation_box_tile
donation_box_tile-Carries x h =
    next _ (text h.0) (next _ (text h.1) (next _ (text h.2) (last _ (u8 h.3))))

pub record StuffForToysTile : Type 0 where
  pub unk1 : Bytes
  pub unk2 : Bytes
  pub unk3 : Bytes
  pub unk4 : ℕ

unfoldable pub deserialize_stuff_for_toys_tile : Exec Buffer StuffForToysTile
deserialize_stuff_for_toys_tile = do
  unk1 ← read_text
  unk2 ← read_text
  unk3 ← read_text
  unk4 ← read_u8
  pure (record { unk1 = unk1; unk2 = unk2; unk3 = unk3; unk4 = unk4 })

unfoldable pub serialize_stuff_for_toys_tile : StuffForToysTile → Exec Buffer Unit
serialize_stuff_for_toys_tile x = do
  write_text x.unk1
  write_text x.unk2
  write_text x.unk3
  write_u8 x.unk4

abbrev pub StuffForToysTileFits : StuffForToysTile → Type 0
StuffForToysTileFits x = IsText x.unk1 × IsText x.unk2 × IsText x.unk3 × IsU8 x.unk4

pub stuff_for_toys_tile-Carries :
    AllCarry StuffForToysTileFits serialize_stuff_for_toys_tile deserialize_stuff_for_toys_tile
unfolding serialize_stuff_for_toys_tile deserialize_stuff_for_toys_tile
stuff_for_toys_tile-Carries x h =
    next _ (text h.0) (next _ (text h.1) (next _ (text h.2) (last _ (u8 h.3))))
