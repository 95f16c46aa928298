-- ===== src/Inventory/Amounts.antt =====
-- What the operations do to the amounts, and that amounts stay between 1 and 200.
use gtools.Prelude.{
  zero, suc, ◌⊎◌, choose, ℕ, ◌<◌, ◌≤◌, ◌≡◌, refl, [], ◌∷◌, Bool, true, false, inl, inr, none, some,
  Option-cases, ◌==◌, if◌then◌else◌, ltb, min, ℤ, pos, negsuc, ◌+ℤ◌, pos_part, Option, ap, ◌∙◌, All,
  arith,
}
use gtools.Python.Dict
use gtools.Python.Dict.{
  Dict, nat_eq, lookup-insert, lookup-remove, All-insert, All-remove, All-lookup, remove-insert,
}
use gtools.Inventory.Items.{
  Item, Inventory, clamp, item_or_new, get, add, remove, set_item, is_ghost_item, keep_real,
  clear_ghost_item,
}

-- An entry stands under its item's id, with an amount between 1 and 200.
abbrev pub IsStocked : ℕ × Item → Type 0
IsStocked (k, x) = (x.id ≡ k) × (0 < x.amount) × (x.amount ≤ 200)

abbrev pub IsValid : Inventory → Type 0
IsValid s = All IsStocked s.items_map

-- Adding to an id leaves the other items alone, and gives the id the clamped amount; an item whose
-- amount comes to 0 is gone.
pub get-add_clamped :
    (id : ℕ) (n : ℤ) (s : Inventory) (j : ℕ)
    → get j (add id n s).1 ≡ (
        if id == j
        then (let x = item_or_new id (get id s) in
            if clamp x.amount n == 0 then none else some (record x { amount = clamp x.amount n }))
        else get j s)
unfolding get add
get-add_clamped id n s j =
    let x = item_or_new id (Dict.lookup id s.items_map) in
    let y : Item = record x { amount = clamp x.amount n } in
    ground
      (arith, lookup-insert id j y s.items_map, lookup-remove id j (Dict.insert id y s.items_map))

-- The amount of what is held, and n.
abbrev pub sum_of : Option Item → ℤ → ℤ
sum_of none n = pos 0 +ℤ n
sum_of (some x) n = pos x.amount +ℤ n

abbrev pub with_amount : ℕ → Option Item → ℕ → Item
with_amount id none n = record { id = id; amount = n; flags = 0 }
with_amount id (some x) n = record { id = x.id; amount = n; flags = x.flags }

-- What is held where the amounts come to this sum: nothing, or an item of 1 to 200.
abbrev pub held : ℕ → Option Item → ℤ → Option Item
held id o (negsuc k) = none
held id o (pos zero) = none
held id o (pos (suc k)) = some (with_amount id o (if ltb 200 (suc k) then 200 else suc k))

abbrev clamped : ℕ → Option Item → ℕ → Option Item
clamped id o n = if n == 0 then none else some (record (item_or_new id o) { amount = n })

clamped-held :
    (id : ℕ) (o : Option Item) (z : ℤ) → clamped id o (min (pos_part z) 200) ≡ held id o z
clamped-held id o (negsuc k) = ground arith
clamped-held id o (pos zero) = ground arith
clamped-held id none (pos (suc k)) = ground arith
clamped-held id (some x) (pos (suc k)) = ground arith

held-sum_of :
    (id : ℕ) (o : Option Item) (n : ℤ)
    → clamped id o (clamp (item_or_new id o).amount n) ≡ held id o (sum_of o n)
held-sum_of id none n = clamped-held id none (pos 0 +ℤ n)
held-sum_of id (some x) n = clamped-held id (some x) (pos x.amount +ℤ n)

-- After n was added to an id, the id holds nothing where its amount, 0 if it had none, and n come to
-- 0 or less; otherwise the item it held, or a new one without flags, with that sum for its amount, and
-- with 200 if the sum is larger. The other ids hold what they held.
pub get-add :
    (id : ℕ) (n : ℤ) (s : Inventory) (j : ℕ)
    → get j (add id n s).1 ≡ (if id == j then held id (get id s) (sum_of (get id s) n) else get j s)
get-add id n s j =
    get-add_clamped id n s j
    ∙ ap (λ o. if id == j then o else get j s) (held-sum_of id (get id s) n)

get-IsStocked :
    (id : ℕ) (s : Inventory) → IsValid s → (x : Item) → get id s ≡ some x → IsStocked (id, x)
unfolding get
get-IsStocked id s h x e = All-lookup IsStocked id x s.items_map h e

item_or_new-id : (id : ℕ) (s : Inventory) → IsValid s → (item_or_new id (get id s)).id ≡ id
item_or_new-id id s h = elim (Option-cases (get id s)) [
  | inl e ↦ rw e
  | inr (x, e) ↦ rw e (get-IsStocked id s h x e).0
]

zero_or_more : (n : ℕ) → ((n == 0) ≡ true) ⊎ ((0 < n) × ((n == 0) ≡ false))
zero_or_more zero = inl refl
zero_or_more (suc n) = inr (omega arith, ground arith)

clamp-le : (a : ℕ) (n : ℤ) → clamp a n ≤ 200
clamp-le a n = omega arith

add-IsValid : (id : ℕ) (n : ℤ) (s : Inventory) → IsValid s → IsValid (add id n s).1
unfolding add get
add-IsValid id n s h =
    let x = item_or_new id (Dict.lookup id s.items_map) in
    let y : Item = record x { amount = clamp x.amount n } in
    elim (zero_or_more (clamp x.amount n)) [
      | inl e ↦ rw (e, remove-insert id y s.items_map) (All-remove IsStocked id s.items_map h)
      | inr p ↦ rw p.1 (
          All-insert IsStocked id y s.items_map (item_or_new-id id s h, p.0, clamp-le x.amount n) h)
    ]

remove-IsValid : (id : ℕ) (s : Inventory) → IsValid s → IsValid (remove id s).1
unfolding remove
remove-IsValid id s h = elim (Option-cases (Dict.lookup id s.items_map)) [
  | inl e ↦ rw e h
  | inr (x, e) ↦ rw e (All-remove IsStocked id s.items_map h)
]

keep_real-IsValid : (d : Dict ℕ Item) → All IsStocked d → All IsStocked (keep_real d)
unfolding keep_real
keep_real-IsValid [] h = tt
keep_real-IsValid ((k, x) ∷ d) h =
    choose (All IsStocked) (is_ghost_item x.id) (keep_real-IsValid d h.1)
      (h.0, keep_real-IsValid d h.1)

lookup-keep_real :
    (j : ℕ) (d : Dict ℕ Item)
    → All IsStocked d
    → Dict.lookup j (keep_real d) ≡ (if is_ghost_item j then none else Dict.lookup j d)
unfolding keep_real Dict.lookup
lookup-keep_real j [] h = ground arith
lookup-keep_real j ((k, x) ∷ d) h =
    go (is_ghost_item j) refl (is_ghost_item x.id) refl (lookup-keep_real j d h.1)
  where
    go :
        (b : Bool)
        → is_ghost_item j ≡ b
        → (c : Bool) → is_ghost_item x.id ≡ c
        → Dict.lookup j (keep_real d) ≡ (if b then none else Dict.lookup j d)
        → Dict.lookup j (if c then keep_real d else (k, x) ∷ keep_real d)
          ≡ (if b then none else if k == j then some x else Dict.lookup j d)
    go b p c q r = ground (arith, h.0.0)

-- Clearing takes away the ghost items and no other.
pub get-clear_ghost_item :
    (s : Inventory)
    → IsValid s
    → (j : ℕ) → get j (clear_ghost_item s) ≡ (if is_ghost_item j then none else get j s)
unfolding get clear_ghost_item
get-clear_ghost_item s h j = lookup-keep_real j s.items_map h

-- One call of a method that changes the inventory.
pub data Step : Inventory → Inventory → Type 0 where
  adds : (id : ℕ) (n : ℤ) (s : Inventory) → Step s (add id n s).1
  removes : (id : ℕ) (s : Inventory) → Step s (remove id s).1
  clears : (s : Inventory) → Step s (clear_ghost_item s)
  sets : (x : Item) (s : Inventory) → 0 < x.amount → x.amount ≤ 200 → Step s (set_item x s)

pub data Reach (s : Inventory) : Inventory → Type 0 where
  start : Reach s s
  next : {t u : Inventory} → Reach s t → Step t u → Reach s u

Step-IsValid : {s t : Inventory} → Step s t → IsValid s → IsValid t
Step-IsValid (adds id n s) h = add-IsValid id n s h
Step-IsValid (removes id s) h = remove-IsValid id s h
Step-IsValid (clears s) h = unfold clear_ghost_item in keep_real-IsValid s.items_map h
Step-IsValid (sets x s p q) h =
    unfold set_item in All-insert IsStocked x.id x s.items_map (refl, p, q) h

-- From an inventory whose items stand under their ids with amounts between 1 and 200, any calls of
-- add, remove, clear_ghost_item, and set_item with such an amount, keep it so.
pub Reach-IsValid_amounts : {s t : Inventory} → Reach s t → IsValid s → IsValid t
Reach-IsValid_amounts start h = h
Reach-IsValid_amounts (next r x) h = Step-IsValid x (Reach-IsValid_amounts r h)
