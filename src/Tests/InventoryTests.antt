-- ===== src/Tests/InventoryTests.antt =====
-- Inventories of two items, one of them a ghost.
use gtools.Prelude.{◌++◌, [], ◌∷◌, none, some, ◌≡◌, refl, arith, pos, negsuc}
use gtools.Python.Exec.{ok, err, eof_error, key_error}
use gtools.Python.Struct.{Bytes, little, unsigned, pack_unsigned, arrange}
use gtools.Python.Struct.Words.{le_bytes}
use gtools.Python.Struct.Laws.{Packs, unsigned-Packs}
use gtools.Python.Dict
use gtools.Python.Dict.{IsDict}
use gtools.Buffer.Raw.{read_raw, write_raw}
use gtools.Buffer.Values.{read_fmt, write_fmt}
use gtools.Inventory.Items.{Item, Inventory, get, add, remove, clear_ghost_item, is_ghost_item}
use gtools.Inventory.Wire.{serialize, deserialize, read_items, write_items}
use gtools.Inventory.Amounts.{
  get-add, get-clear_ghost_item, adds, removes, start, next, Reach-IsValid_amounts, IsValid,
}
use gtools.Inventory.RoundTrip.{IsWritable, deserialize-serialize_behind_slots}

abbrev dirt : Item
dirt = record { id = 2; amount = 199; flags = 0 }

abbrev key : Item
key = record { id = 1424; amount = 1; flags = 1 }

abbrev bag : Inventory
bag = record { max_slot = 16; items_map = (2, dirt) ∷ (1424, key) ∷ [] }

bag-IsValid : IsValid bag
bag-IsValid = ((refl, (omega arith), omega arith), ((refl, (omega arith), omega arith), tt))

bag_written : serialize bag ≡ ok (2 ∷ 0 ∷ 2 ∷ 0 ∷ 199 ∷ 0 ∷ 144 ∷ 5 ∷ 1 ∷ 1 ∷ [])
unfolding serialize write_items write_fmt write_raw pack_unsigned arrange le_bytes
bag_written = refl

empty_not_read_back : deserialize (0 ∷ 0 ∷ []) ≡ err eof_error
unfolding deserialize read_items read_fmt read_raw
empty_not_read_back = refl

missing_removed : remove 7 bag ≡ (err key_error, bag)
unfolding remove Dict.lookup
missing_removed = refl

get-add_example : get 2 (add 2 (pos 5) bag).1 ≡ some (record dirt { amount = 200 })
unfolding get Dict.lookup
get-add_example = get-add 2 (pos 5) bag 2

get_added_away : get 1424 (add 1424 (negsuc 0) bag).1 ≡ none
unfolding get Dict.lookup
get_added_away = get-add 1424 (negsuc 0) bag 1424

ghosts_cleared : get 1424 (clear_ghost_item bag) ≡ none
unfolding is_ghost_item
ghosts_cleared = get-clear_ghost_item bag bag-IsValid 1424

Reach-IsValid_amounts_example : IsValid (remove 2 (add 7 (pos 300) bag).1).1
Reach-IsValid_amounts_example =
    Reach-IsValid_amounts
      (next (next start (adds 7 (pos 300) bag)) (removes 2 (add 7 (pos 300) bag).1)) bag-IsValid

bag-IsWritable : IsWritable (2, dirt) × IsWritable (1424, key)
bag-IsWritable = (
  record { keyed = refl; id = omega arith; amount = omega arith; flags = omega arith },
  record { keyed = refl; id = omega arith; amount = omega arith; flags = omega arith },
)

sixteen : Packs (unsigned 4) little 16
sixteen = unsigned-Packs 4 little 16 (omega arith)

deserialize-serialize_behind_slots_example :
    (b : Bytes) × (serialize bag ≡ ok b) × (deserialize (1 ∷ sixteen.bytes ++ b) ≡ ok bag)
deserialize-serialize_behind_slots_example =
    deserialize-serialize_behind_slots bag 1 sixteen (omega arith)
      (unfold IsDict Dict.lookup in (refl, (refl, tt))) (bag-IsWritable.0, (bag-IsWritable.1, tt))
