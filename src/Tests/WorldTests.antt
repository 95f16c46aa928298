-- ===== src/Tests/WorldTests.antt =====
-- Items that are dropped and taken; positions are plain numbers.
use gtools.Prelude.{ℕ, pos, ◌+◌, [], ◌∷◌, some, if◌then◌else◌, ◌==◌, min, ◌≡◌, refl}
use gtools.Inventory.Items.{Inventory, get}
use gtools.World.Dropped.{
  DroppedItem, World, ModifyItem, no_dropped, get_total, create_dropped, take_uid, remove_dropped,
  modify_item,
}
use gtools.World.Taken.{worth, amount_or_zero, modify_item-take}
use gtools.World.Counted.{IsCounted, start, created, taken_away, Reach-IsCounted}

abbrev coins : DroppedItem ℕ
coins = record { id = 112; pos_x = 3; pos_y = 4; amount = 5; flags = 0; uid = 1 }

abbrev ground_world : World ℕ
ground_world = record {
  dropped = record { nb_items = pos 1; last_uid = 1; items = coins ∷ [] };
  updates = 1;
}

abbrev take_coins : ModifyItem ℕ
take_coins = record { op = 4; item_id = 0; uid = 1; x = 0; y = 0; amount = 0; flags = 0 }

abbrev rich : Inventory
rich = record {
  max_slot = 16;
  items_map = (112, record { id = 112; amount = 198; flags = 0 }) ∷ [];
}

modify_item-take_example :
    let s = modify_item take_coins (record { world = some ground_world; inventory = rich }) in
    (v : World ℕ) × (s.world ≡ some v)
    × (get_total 112 v + worth coins 112 ≡ get_total 112 ground_world)
    × (amount_or_zero (get 112 s.inventory) ≡ (
        if 112 == 112
        then min (amount_or_zero (get 112 rich) + 5) 200
        else amount_or_zero (get 112 rich)))
unfolding take_uid
modify_item-take_example = modify_item-take take_coins ground_world rich coins [] 112 refl refl

Reach-IsCounted_example :
    IsCounted ((remove_dropped 1 (create_dropped 112 3 4 5 0 (no_dropped {F = ℕ}))).1)
Reach-IsCounted_example =
    Reach-IsCounted ((remove_dropped 1 (create_dropped 112 3 4 5 0 no_dropped)).1)
      (taken_away 1 (created 112 3 4 5 0 start))
