-- ===== src/Inventory/Items.antt =====
-- `Item` and the operations of `Inventory` on its dictionary.
use gtools.Prelude.{
  ℕ, List, [], ◌∷◌, Bool, Option, none, some, ◌==◌, ◌||◌, if◌then◌else◌, min, ℤ, pos, ◌+ℤ◌,
  pos_part,
}
use gtools.Python.Exec.{Exec, Result, ok, err, key_error}
use gtools.Python.Dict
use gtools.Python.Dict.{Dict, nat_eq}

pub record Item : Type 0 where
  pub id : ℕ
  pub amount : ℕ
  pub flags : ℕ

-- `min(max(amount + add, 0), 200)`
abbrev pub clamp : ℕ → ℤ → ℕ
clamp amount add = min (pos_part (pos amount +ℤ add)) 200

-- `Item.add`: the new amount, and the item with it.
unfoldable pub add_amount : ℤ → Item → ℕ × Item
add_amount add item = let n = clamp item.amount add in (n, record item { amount = n })

pub record Inventory : Type 0 where
  pub max_slot : ℕ
  pub items_map : Dict ℕ Item

-- The dictionary comprehension of `from_iter`, from what it has so far.
unfoldable pub collect : List Item → Dict ℕ Item → Dict ℕ Item
collect [] d = d
collect (x ∷ xs) d = collect xs (Dict.insert x.id x d)

unfoldable pub from_iter : ℕ → List Item → Inventory
unfolding collect
from_iter max_slot items = record { max_slot = max_slot; items_map = collect items [] }

unfoldable pub contains : ℕ → Inventory → Bool
contains id s = Dict.contains id s.items_map

-- `get`, and `self[id]` where there is an item
unfoldable pub get : ℕ → Inventory → Option Item
get id s = Dict.lookup id s.items_map

abbrev removed : ℕ → Inventory → Option Item → Result Item × Inventory
removed id s none = (err key_error, s)
removed id s (some item) = (ok item, record s { items_map = Dict.remove id s.items_map })

unfoldable pub remove : ℕ → Exec Inventory Item
remove id s = removed id s (Dict.lookup id s.items_map)

unfoldable pub set_item : Item → Inventory → Inventory
set_item item s = record s { items_map = Dict.insert item.id item s.items_map }

-- `Item(id=id)` for an id that the inventory lacks
abbrev pub item_or_new : ℕ → Option Item → Item
item_or_new id none = record { id = id; amount = 0; flags = 0 }
item_or_new id (some item) = item

-- `add`: the item that is in the dictionary is changed, and goes when its amount comes to 0.
unfoldable pub add : ℕ → ℤ → Inventory → Item × Inventory
unfolding add_amount
add id to_add s =
    let (n, item) = add_amount to_add (item_or_new id (Dict.lookup id s.items_map)) in
    let d = Dict.insert id item s.items_map in
    (item, record s { items_map = if n == 0 then Dict.remove id d else d })

-- WORLD_KEY and MAGPLANT_5000_REMOTE
unfoldable pub is_ghost_item : ℕ → Bool
is_ghost_item id = (id == 1424) || (id == 5640)

-- The dictionary comprehension of `clear_ghost_item`
unfoldable pub keep_real : Dict ℕ Item → Dict ℕ Item
unfolding is_ghost_item
keep_real [] = []
keep_real ((k, v) ∷ d) =
    let rest = keep_real d in if is_ghost_item v.id then rest else (k, v) ∷ rest

unfoldable pub clear_ghost_item : Inventory → Inventory
unfolding keep_real
clear_ghost_item s = record s { items_map = keep_real s.items_map }
