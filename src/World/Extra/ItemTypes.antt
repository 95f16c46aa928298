-- ===== src/World/Extra/ItemTypes.antt =====
-- gtools/core/growtopia/world.py: `TileExtraType.from_item_type` and `_ITEMINFO_TO_TILEEXTRA`, from
-- the numbers of `ItemInfoType` (gtools/core/growtopia/items_dat.py) to those of `TileExtraType`.
use gtools.Prelude.{ℕ, Option, none, some, [], ◌∷◌, Bool, true, false, ◌&&◌, ◌≡◌, refl, arith}
use gtools.Python.Exec.{Exec, Result, ok, err, key_error}
use gtools.Python.Dict
use gtools.Python.Dict.{Dict, nat_eq}
use gtools.Buffer.Raw.{Buffer}
use gtools.World.Extra.Bodies.{TileExtraBody}
use gtools.World.Extra.Registry.{registry}

unfoldable pub iteminfo_to_tileextra : Dict ℕ ℕ
iteminfo_to_tileextra =
    (2, 0x1)
    ∷ (3, 0x3)
    ∷ (10, 0x2)
    ∷ (13, 0x1)
    ∷ (19, 0x4)
    ∷ (26, 0x1)
    ∷ (33, 0x6)
    ∷ (34, 0x7)
    ∷ (36, 0x8)
    ∷ (38, 0x9)
    ∷ (40, 0xa)
    ∷ (43, 0x1)
    ∷ (46, 0xb)
    ∷ (47, 0xc)
    ∷ (48, 0xd)
    ∷ (49, 0xe)
    ∷ (51, 0xf)
    ∷ (52, 0x10)
    ∷ (53, 0x11)
    ∷ (54, 0x12)
    ∷ (55, 0x13)
    ∷ (56, 0x14)
    ∷ (57, 0x15)
    ∷ (59, 0x16)
    ∷ (61, 0x17)
    ∷ (62, 0x18)
    ∷ (63, 0x19)
    ∷ (65, 0x1a)
    ∷ (66, 0x1b)
    ∷ (67, 0x1c)
    ∷ (68, 0x1c)
    ∷ (71, 0x1e)
    ∷ (72, 0x1f)
    ∷ (73, 0x20)
    ∷ (74, 0x21)
    ∷ (75, 0x22)
    ∷ (76, 0x23)
    ∷ (77, 0x24)
    ∷ (78, 0x25)
    ∷ (79, 0x26)
    ∷ (80, 0x27)
    ∷ (81, 0x28)
    ∷ (82, 0x29)
    ∷ (83, 0x2b)
    ∷ (84, 0x2c)
    ∷ (85, 0x2d)
    ∷ (86, 0x2d)
    ∷ (87, 0x2f)
    ∷ (88, 0x30)
    ∷ (89, 0x31)
    ∷ (91, 0x32)
    ∷ (92, 0x33)
    ∷ (93, 0x34)
    ∷ (96, 0x35)
    ∷ (97, 0x36)
    ∷ (98, 0x37)
    ∷ (99, 0x38)
    ∷ (100, 0x39)
    ∷ (101, 0x3a)
    ∷ (102, 0x3b)
    ∷ (103, 0x3c)
    ∷ (109, 0x3d)
    ∷ (111, 0x3e)
    ∷ (113, 0x3f)
    ∷ (115, 0x4b)
    ∷ (116, 0x42)
    ∷ (117, 0x43)
    ∷ (118, 0x44)
    ∷ (123, 0x45)
    ∷ (124, 0x46)
    ∷ (125, 0x47)
    ∷ (126, 0x48)
    ∷ (127, 0x49)
    ∷ (130, 0x4a)
    ∷ (131, 0x4b)
    ∷ (133, 0x4c)
    ∷ (134, 0x4d)
    ∷ (137, 0x4e)
    ∷ (140, 0x4f)
    ∷ (141, 0x50)
    ∷ (142, 0x51)
    ∷ []

abbrev or_key_error : Option ℕ → Result ℕ
or_key_error none = err key_error
or_key_error (some t) = ok t

unfoldable pub from_item_type : ℕ → Result ℕ
from_item_type t = or_key_error (Dict.lookup t iteminfo_to_tileextra)

unfoldable is_some : {A : Type 0} → Option A → Bool
is_some none = false
is_some (some x) = true

unfoldable all_read : ℕ → ℕ → Dict ℕ ℕ → Bool
all_read fg version [] = true
all_read fg version ((k, t) ∷ d) =
    is_some (Dict.lookup t (registry fg version)) && all_read fg version d

is_some_lem : {A : Type 0} (o : Option A) → is_some o ≡ true → (x : A) × (o ≡ some x)
unfolding is_some
is_some_lem none h = cc h
is_some_lem (some x) h = (x, refl)

-- The rows are checked one by one.
all_read_here : (fg version : ℕ) → all_read fg version iteminfo_to_tileextra ≡ true
unfolding all_read is_some iteminfo_to_tileextra registry Dict.lookup
all_read_here fg version = refl

read_row :
    (fg version k t : ℕ) (d : Dict ℕ ℕ)
    → all_read fg version d ≡ true
    → or_key_error (Dict.lookup k d) ≡ ok t
    → is_some (Dict.lookup t (registry fg version)) ≡ true
unfolding all_read Dict.lookup
read_row fg version k t [] a e = cc e
read_row fg version k t ((j, u) ∷ d) a e = ground (arith, read_row fg version k t d)

-- The extra type of every item type that has one names a class in the registry, whatever the item
-- and the format: its tile extra is never refused as one of unknown type.
pub registry-from_item_type :
    (fg version k t : ℕ)
    → from_item_type k ≡ ok t
    → (r : Exec Buffer TileExtraBody) × (Dict.lookup t (registry fg version) ≡ some r)
unfolding from_item_type
registry-from_item_type fg version k t e =
    is_some_lem (Dict.lookup t (registry fg version))
      (read_row fg version k t iteminfo_to_tileextra (all_read_here fg version) e)
