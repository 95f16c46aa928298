-- ===== src/World/Dropped.antt =====
-- The dropped items of a world, and the update STATE_MODIFY_ITEM of the proxy's state.
use gtools.Prelude.{
  ℕ, suc, ◌+◌, ◌++◌, List, [], ◌∷◌, Bool, true, false, ◌==◌, if◌then◌else◌, Option, none, some, ℤ,
  pos, negsuc, ◌+ℤ◌,
}
use gtools.Inventory.Items.{Inventory, add}

pub record DroppedItem (F : Type 0) : Type 0 where
  pub id : ℕ
  pub pos_x : F
  pub pos_y : F
  pub amount : ℕ
  pub flags : ℕ
  pub uid : ℕ

pub record Dropped (F : Type 0) : Type 0 where
  pub nb_items : ℤ
  pub last_uid : ℕ
  pub items : List (DroppedItem F)

-- The part of a `World` that these methods touch; `updates` counts the broadcasts of DROPPED_UPDATE.
pub record World (F : Type 0) : Type 0 where
  pub dropped : Dropped F
  pub updates : ℕ

-- `ModifyItem` of gtools/proto/state.proto
pub record ModifyItem (F : Type 0) : Type 0 where
  pub op : ℕ
  pub item_id : ℕ
  pub uid : ℕ
  pub x : F
  pub y : F
  pub amount : ℕ
  pub flags : ℕ

-- The part of a `State` that the update touches.
pub record State (F : Type 0) : Type 0 where
  pub world : Option (World F)
  pub inventory : Inventory

module _ {F : Type 0} where
  abbrev pub no_dropped : World F
  no_dropped = record {
    dropped = record { nb_items = pos 0; last_uid = 0; items = [] };
    updates = 0;
  }

  unfoldable pub total : ℕ → List (DroppedItem F) → ℕ
  total id [] = 0
  total id (x ∷ xs) = let rest = total id xs in if x.id == id then x.amount + rest else rest

  abbrev pub get_total : ℕ → World F → ℕ
  get_total id w = total id w.dropped.items

  unfoldable pub create_dropped : ℕ → F → F → ℕ → ℕ → World F → World F
  create_dropped id x y amount flags w = record w {
    dropped = record {
      nb_items = w.dropped.nb_items +ℤ pos 1;
      last_uid = suc w.dropped.last_uid;
      items =
          w.dropped.items
          ++ record {
            id = id;
            pos_x = x;
            pos_y = y;
            amount = amount;
            flags = flags;
            uid = suc w.dropped.last_uid;
          }
            ∷ [];
    };
    updates = suc w.updates;
  }

  abbrev pub skip :
      DroppedItem F
      → Option (DroppedItem F × List (DroppedItem F))
      → Option (DroppedItem F × List (DroppedItem F))
  skip x none = none
  skip x (some (y, ys)) = some (y, x ∷ ys)

  abbrev pub taken_first :
      DroppedItem F → List (DroppedItem F) → Option (DroppedItem F × List (DroppedItem F))
  taken_first x xs = some (x, xs)

  -- The first item with the uid, and the list without it.
  unfoldable pub take_uid : ℕ → List (DroppedItem F) → Option (DroppedItem F × List (DroppedItem F))
  take_uid uid [] = none
  take_uid uid (x ∷ xs) =
      let rest = take_uid uid xs in if x.uid == uid then taken_first x xs else skip x rest

  abbrev pub without :
      World F → Option (DroppedItem F × List (DroppedItem F)) → Option (DroppedItem F) × World F
  without w none = (none, w)
  without w (some (x, xs)) = (
    some x,
    record w {
      dropped = record w.dropped { nb_items = w.dropped.nb_items +ℤ negsuc 0; items = xs };
      updates = suc w.updates;
    },
  )

  unfoldable pub remove_dropped : ℕ → World F → Option (DroppedItem F) × World F
  unfolding take_uid
  remove_dropped uid w = without w (take_uid uid w.dropped.items)

  abbrev pub changed :
      ℕ → DroppedItem F → Bool → List (DroppedItem F) × ℕ → List (DroppedItem F) × ℕ
  changed amount x true (ys, n) = (record x { amount = amount } ∷ ys, suc n)
  changed amount x false (ys, n) = (x ∷ ys, n)

  -- The items with the amounts that are set, and how many were set.
  unfoldable pub set_amounts : ℕ → ℕ → List (DroppedItem F) → List (DroppedItem F) × ℕ
  set_amounts uid amount [] = ([], 0)
  set_amounts uid amount (x ∷ xs) = changed amount x (x.uid == uid) (set_amounts uid amount xs)

  unfoldable pub set_dropped : ℕ → ℕ → World F → World F
  unfolding set_amounts
  set_dropped uid amount w =
      let (ys, n) = set_amounts uid amount w.dropped.items in
      record w { dropped = record w.dropped { items = ys }; updates = w.updates + n }

  -- OP_TAKE: what was removed goes to the inventory.
  abbrev pub after_take : Inventory → Option (DroppedItem F) × World F → State F
  after_take inv (none, w) = record { world = some w; inventory = inv }
  after_take inv (some x, w) = record {
    world = some w;
    inventory = (add x.id (pos x.amount) inv).1;
  }

  abbrev pub modify_world_item : ModifyItem F → State F → World F → State F
  modify_world_item m s w =
      if m.op == 1
      then record s { world = some (create_dropped m.item_id m.x m.y m.amount m.flags w) }
      else if m.op == 3
      then record s { world = some (set_dropped m.uid m.flags w) }
      else if m.op == 4
      then after_take s.inventory (remove_dropped m.uid w)
      else s

  abbrev modify_in : ModifyItem F → State F → Option (World F) → State F
  modify_in m s none = s
  modify_in m s (some w) = modify_world_item m s w

  -- STATE_MODIFY_ITEM of `State.update`
  unfoldable pub modify_item : ModifyItem F → State F → State F
  unfolding create_dropped set_dropped remove_dropped add
  modify_item m s = modify_in m s s.world
