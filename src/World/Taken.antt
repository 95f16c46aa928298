-- ===== src/World/Taken.antt =====
-- Items that are taken from the ground into the inventory.
use gtools.Prelude.{
  ℕ, zero, suc, ◌+◌, List, [], ◌∷◌, Bool, true, false, ◌==◌, if◌then◌else◌, Option, none, some, pos,
  min, ◌≡◌, refl, ap, subst, ◌∙◌, arith,
}
use gtools.Inventory.Items.{Item, Inventory, add, get, clamp, item_or_new}
use gtools.Inventory.Amounts.{get-add_clamped}
use gtools.World.Dropped.{
  DroppedItem, World, ModifyItem, total, get_total, take_uid, without, skip, taken_first,
  remove_dropped, modify_item,
}

-- How many of an id the inventory holds.
abbrev pub amount_or_zero : Option Item → ℕ
amount_or_zero none = 0
amount_or_zero (some x) = x.amount

amount-item_or_new : (id : ℕ) (o : Option Item) → (item_or_new id o).amount ≡ amount_or_zero o
amount-item_or_new id none = refl
amount-item_or_new id (some x) = refl

clamp-pos : (a n : ℕ) → clamp a (pos n) ≡ min (a + n) 200
clamp-pos a n = ground arith

amount-add :
    (id n j : ℕ) (inv : Inventory)
    → amount_or_zero (get j (add id (pos n) inv).1)
      ≡ (if id == j then min (amount_or_zero (get id inv) + n) 200 else amount_or_zero (get j inv))
amount-add id n j inv = ap amount_or_zero (get-add_clamped id (pos n) inv j) ∙ go (id == j)
  where
    x : Item
    x = item_or_new id (get id inv)

    kept : (m : ℕ) → amount_or_zero (if m == 0 then none else some (record x { amount = m })) ≡ m
    kept zero = refl
    kept (suc m) = ground arith

    go :
        (b : Bool)
        → amount_or_zero (
            if b
            then (if clamp x.amount (pos n) == 0
                then none
                else some (record x { amount = clamp x.amount (pos n) }))
            else get j inv)
          ≡ (if b then min (amount_or_zero (get id inv) + n) 200 else amount_or_zero (get j inv))
    go true =
        kept (clamp x.amount (pos n))
        ∙ clamp-pos x.amount n
        ∙ ap (λ a. min (a + n) 200) (amount-item_or_new id (get id inv))
    go false = refl

module _ {F : Type 0} where
  -- What an item counts for an id.
  abbrev pub worth : DroppedItem F → ℕ → ℕ
  worth x j = if x.id == j then x.amount else 0

  pair_injective :
      {a b : DroppedItem F × List (DroppedItem F)}
      → ◌≡◌ {A = Option (DroppedItem F × List (DroppedItem F))} (some a) (some b)
      → a ≡ b
  pair_injective e = cc e

  total-take_uid :
      (uid j : ℕ) (xs ys : List (DroppedItem F)) (x : DroppedItem F)
      → take_uid uid xs ≡ some (x, ys)
      → total j ys + worth x j ≡ total j xs
  unfolding total take_uid
  total-take_uid uid j [] ys x e = absurd (cc e)
  total-take_uid uid j (y ∷ xs) ys x e =
      go (y.uid == uid) (take_uid uid xs) e (λ zs e. total-take_uid uid j xs zs x e)
    where
      moved : (b : Bool) (n : ℕ) → n + (if b then y.amount else 0) ≡ (if b then y.amount + n else n)
      moved true n = omega arith
      moved false n = omega arith

      go :
          (b : Bool) (r : Option (DroppedItem F × List (DroppedItem F)))
          → (if b then taken_first y xs else skip y r) ≡ some (x, ys)
          → ((zs : List (DroppedItem F)) → r ≡ some (x, zs) → total j zs + worth x j ≡ total j xs)
          → total j ys + worth x j ≡ total j (y ∷ xs)
      go true r e later =
          subst (λ q. total j q.1 + worth q.0 j ≡ total j (y ∷ xs)) (pair_injective e)
            (moved (y.id == j) (total j xs))
      go false none e later = absurd (cc e)
      go false (some (z, zs)) e later =
          subst (λ q. total j q.1 + worth q.0 j ≡ total j (y ∷ xs)) (pair_injective e)
            (kept (y.id == j) (later zs (ap (λ q. some (q.0, zs)) (pair_injective e))))
        where
          kept :
              (b : Bool)
              → total j zs + worth x j ≡ total j xs
              → (if b then y.amount + total j zs else total j zs) + worth z j
                ≡ (if b then y.amount + total j xs else total j xs)
          kept true h = omega (arith, h, ap (λ q. worth q.0 j) (pair_injective e))
          kept false h = omega (arith, h, ap (λ q. worth q.0 j) (pair_injective e))

  -- What a take message for an item with the uid does: for every id, what lies in the world less the
  -- item, and what the inventory holds with the item, of which it keeps 200 at most.
  pub modify_item-take :
      (m : ModifyItem F) (w : World F) (inv : Inventory) (x : DroppedItem F)
      (rest : List (DroppedItem F)) (j : ℕ)
      → m.op ≡ 4
      → take_uid m.uid w.dropped.items ≡ some (x, rest)
      → let s = modify_item m (record { world = some w; inventory = inv }) in
        (v : World F) × (s.world ≡ some v)
        × (get_total j v + worth x j ≡ get_total j w)
        × (amount_or_zero (get j s.inventory) ≡ (
            if x.id == j
            then min (amount_or_zero (get x.id inv) + x.amount) 200
            else amount_or_zero (get j inv)))
  unfolding modify_item remove_dropped
  modify_item-take m w inv x rest j op found =
      rw (op, found)
        (
          (without w (some (x, rest))).1,
          refl,
          total-take_uid m.uid j w.dropped.items rest x found,
          amount-add x.id x.amount j inv,
        )
