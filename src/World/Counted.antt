-- ===== src/World/Counted.antt =====
-- The count and the uids of the dropped items.
use gtools.Prelude.{
  ℕ, suc, ◌≤◌, ◌<◌, ◌++◌, List, [], ◌∷◌, Bool, true, false, ◌==◌, if◌then◌else◌, Option, none, some,
  pos, negsuc, ◌+ℤ◌, length, All, All-append, length-append, ◌≡◌, refl, sym, ap, subst, ◌∙◌, arith,
}
use gtools.World.Dropped.{
  DroppedItem, World, no_dropped, create_dropped, take_uid, skip, taken_first, without,
  remove_dropped, changed, set_amounts, set_dropped,
}

module _ {F : Type 0} where
  pair_injective :
      {a b : DroppedItem F × List (DroppedItem F)}
      → ◌≡◌ {A = Option (DroppedItem F × List (DroppedItem F))} (some a) (some b)
      → a ≡ b
  pair_injective e = cc e

  -- The uids rise, and none is above n.
  unfoldable pub IsNumbered : ℕ → List (DroppedItem F) → Type 0
  IsNumbered n [] = Unit
  IsNumbered n (x ∷ xs) = (x.uid ≤ n) × All (λ y. x.uid < y.uid) xs × IsNumbered n xs

  -- The count is that of the items, and each uid stands once.
  abbrev pub IsCounted : World F → Type 0
  IsCounted w =
      (w.dropped.nb_items ≡ pos (length w.dropped.items))
      × IsNumbered w.dropped.last_uid w.dropped.items

  pub data Reach : World F → Type 0 where
    start : Reach no_dropped
    created :
        {w : World F} (id : ℕ) (x y : F) (amount flags : ℕ)
        → Reach w
        → Reach (create_dropped id x y amount flags w)
    taken_away : {w : World F} (uid : ℕ) → Reach w → Reach ((remove_dropped uid w).1)
    set_to : {w : World F} (uid amount : ℕ) → Reach w → Reach (set_dropped uid amount w)

  below : (n : ℕ) (xs : List (DroppedItem F)) → IsNumbered n xs → All (λ x. x.uid < suc n) xs
  unfolding IsNumbered
  below n [] h = tt
  below n (x ∷ xs) h = (omega (arith, h.0), below n xs h.2)

  IsNumbered-append :
      (n : ℕ) (xs : List (DroppedItem F)) (y : DroppedItem F)
      → y.uid ≡ suc n
      → IsNumbered n xs
      → IsNumbered (suc n) (xs ++ y ∷ [])
  unfolding IsNumbered
  IsNumbered-append n [] y e h = (omega (arith, e), tt, tt)
  IsNumbered-append n (x ∷ xs) y e h = (
    omega (arith, h.0),
    All-append (λ z. x.uid < z.uid) xs (y ∷ []) h.1 (omega (arith, h.0, e), tt),
    IsNumbered-append n xs y e h.2,
  )

  -- What is taken stands between what is in front of it and what is behind it.
  abbrev Split : List (DroppedItem F) → DroppedItem F → List (DroppedItem F) → Type 0
  Split xs x ys =
      (front : List (DroppedItem F)) × (back : List (DroppedItem F)) × (xs ≡ front ++ x ∷ back)
      × (ys ≡ front ++ back)

  take_uid-Split :
      (uid : ℕ) (xs ys : List (DroppedItem F)) (x : DroppedItem F)
      → take_uid uid xs ≡ some (x, ys)
      → Split xs x ys
  unfolding take_uid
  take_uid-Split uid [] ys x e = absurd (cc e)
  take_uid-Split uid (y ∷ xs) ys x e =
      go (y.uid == uid) (take_uid uid xs) e (λ zs e. take_uid-Split uid xs zs x e)
    where
      go :
          (b : Bool) (r : Option (DroppedItem F × List (DroppedItem F)))
          → (if b then taken_first y xs else skip y r) ≡ some (x, ys)
          → ((zs : List (DroppedItem F)) → r ≡ some (x, zs) → Split xs x zs)
          → Split (y ∷ xs) x ys
      go true r e later =
          subst (λ q. Split (y ∷ xs) q.0 q.1) (pair_injective e) ([], xs, refl, refl)
      go false none e later = absurd (cc e)
      go false (some (z, zs)) e later =
          let q = pair_injective e in
          let (front, back, here, there) = later zs (ap (λ p. some (p.0, zs)) q) in
          (y ∷ front, back, ap (λ l. y ∷ l) here, sym (ap (λ p. p.1) q) ∙ ap (λ l. y ∷ l) there)

  IsNumbered-middle :
      (n : ℕ) (front back : List (DroppedItem F)) (x : DroppedItem F)
      → IsNumbered n (front ++ x ∷ back)
      → IsNumbered n (front ++ back)
  unfolding IsNumbered
  IsNumbered-middle n [] back x h = h.2
  IsNumbered-middle n (y ∷ front) back x h =
      (h.0, All-middle (λ z. y.uid < z.uid) front h.1, IsNumbered-middle n front back x h.2)
    where
      All-middle :
          (P : DroppedItem F → Type 0) (front : List (DroppedItem F))
          → All P (front ++ x ∷ back)
          → All P (front ++ back)
      All-middle P [] h = h.1
      All-middle P (z ∷ front) h = (h.0, All-middle P front h.1)

  length-middle :
      (front back : List (DroppedItem F)) (x : DroppedItem F)
      → length (front ++ x ∷ back) ≡ suc (length (front ++ back))
  length-middle [] back x = refl
  length-middle (y ∷ front) back x = ap suc (length-middle front back x)

  remove_dropped-IsCounted :
      (uid : ℕ) (w : World F) → IsCounted w → IsCounted ((remove_dropped uid w).1)
  unfolding remove_dropped
  remove_dropped-IsCounted uid w h = go (take_uid uid w.dropped.items) refl
    where
      go :
          (r : Option (DroppedItem F × List (DroppedItem F)))
          → take_uid uid w.dropped.items ≡ r
          → IsCounted ((without w r).1)
      go none e = h
      go (some (x, ys)) e =
          let (front, back, here, there) = take_uid-Split uid w.dropped.items ys x e in
          (
            less (length ys) (
                h.0
                ∙ ap pos (
                    ap length here
                    ∙ length-middle front back x
                    ∙ ap (λ l. suc (length l)) (sym there))),
            subst (IsNumbered w.dropped.last_uid) (sym there) (
                IsNumbered-middle w.dropped.last_uid front back x
                  (subst (IsNumbered w.dropped.last_uid) here h.1)),
          )
        where
          less : (n : ℕ) → w.dropped.nb_items ≡ pos (suc n) → w.dropped.nb_items +ℤ negsuc 0 ≡ pos n
          less n e = rw e (ground arith)

  set_amounts-length :
      (uid amount : ℕ) (xs : List (DroppedItem F))
      → length (set_amounts uid amount xs).0 ≡ length xs
  unfolding set_amounts
  set_amounts-length uid amount [] = refl
  set_amounts-length uid amount (x ∷ xs) = ground (arith, set_amounts-length uid amount xs)

  set_amounts-All :
      (P : ℕ → Type 0) (uid amount : ℕ) (xs : List (DroppedItem F))
      → All (λ x. P x.uid) xs
      → All (λ x. P x.uid) (set_amounts uid amount xs).0
  unfolding set_amounts
  set_amounts-All P uid amount [] h = tt
  set_amounts-All P uid amount (x ∷ xs) h = go (x.uid == uid) (set_amounts-All P uid amount xs h.1)
    where
      go :
          (b : Bool)
          → All (λ x. P x.uid) (set_amounts uid amount xs).0
          → All (λ x. P x.uid) (changed amount x b (set_amounts uid amount xs)).0
      go true k = (h.0, k)
      go false k = (h.0, k)

  set_amounts-IsNumbered :
      (n uid amount : ℕ) (xs : List (DroppedItem F))
      → IsNumbered n xs
      → IsNumbered n (set_amounts uid amount xs).0
  unfolding set_amounts IsNumbered
  set_amounts-IsNumbered n uid amount [] h = tt
  set_amounts-IsNumbered n uid amount (x ∷ xs) h =
      go (x.uid == uid) (set_amounts-All (λ u. x.uid < u) uid amount xs h.1)
        (set_amounts-IsNumbered n uid amount xs h.2)
    where
      go :
          (b : Bool)
          → All (λ y. x.uid < y.uid) (set_amounts uid amount xs).0
          → IsNumbered n (set_amounts uid amount xs).0
          → IsNumbered n (changed amount x b (set_amounts uid amount xs)).0
      go true k l = (h.0, k, l)
      go false k l = (h.0, k, l)

  create_dropped-IsCounted :
      (id : ℕ) (x y : F) (amount flags : ℕ) (w : World F)
      → IsCounted w
      → IsCounted (create_dropped id x y amount flags w)
  unfolding create_dropped
  create_dropped-IsCounted id x y amount flags w h =
      let new : DroppedItem F = record {
        id = id;
        pos_x = x;
        pos_y = y;
        amount = amount;
        flags = flags;
        uid = suc w.dropped.last_uid;
      } in
      (
        rw (h.0, length-append w.dropped.items (new ∷ [])) (ground arith),
        IsNumbered-append w.dropped.last_uid w.dropped.items new refl h.1,
      )

  -- Whatever items are dropped, taken and changed in a world that starts without any: the count is that
  -- of the items, their uids rise, and none is above the last one.
  pub Reach-IsCounted : (w : World F) → Reach w → IsCounted w
  unfolding set_dropped IsNumbered
  Reach-IsCounted w start = (refl, tt)
  Reach-IsCounted w (created {w = v} id x y amount flags r) =
      create_dropped-IsCounted id x y amount flags v (Reach-IsCounted v r)
  Reach-IsCounted w (taken_away {w = v} uid r) =
      remove_dropped-IsCounted uid v (Reach-IsCounted v r)
  Reach-IsCounted w (set_to {w = v} uid amount r) =
      let h = Reach-IsCounted v r in
      (
        h.0 ∙ ap pos (sym (set_amounts-length uid amount v.dropped.items)),
        set_amounts-IsNumbered v.dropped.last_uid uid amount v.dropped.items h.1,
      )
