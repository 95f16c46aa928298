-- ===== src/Broker/Overwritten.antt =====
-- What is left of an extension whose id is taken by another one.
use gtools.Prelude.{
  ℕ, List, [], ◌∷◌, Bool, true, false, ◌&&◌, ◌==◌, ==_iff, ==_refl, if◌then◌else◌, some, choose,
  ◌≡◌, ◌≢◌, refl, sym, ap, subst, ◌∙◌,
}
use mathlib.Core.List.{Memᴰ}
use gtools.Python.Exec.{Result, ok, err, map_ok, ok_injective}
use gtools.Python.Dict
use gtools.Python.Dict.{Dict, nat_eq, bytes_eq, lookup-insert, beq_refl}
use gtools.Broker.Operands.{int_le}
use gtools.Broker.Handler.{Interest, Extension, ExtensionHandler}
use gtools.Broker.Manager.{
  ExtensionManager, handlers, handler, insort, add_interests, add_extension, equal_handlers,
  remove_handler, remove_extension, set_handlers,
}
use gtools.Broker.Changes.{
  Keeps, Holds, add_interests-Holds, add_extension-Holds, remove_extension-Holds,
}

module _ {F : Type 0} where
  insort-Mem_self : (h : ExtensionHandler F) (hs : List (ExtensionHandler F)) → Memᴰ h (insort h hs)
  unfolding insort
  insort-Mem_self h [] = Memᴰ.head refl
  insort-Mem_self h (k ∷ ks) =
      choose (Memᴰ h) (int_le h.interest.priority k.interest.priority)
        (Memᴰ.tail (insort-Mem_self h ks)) (Memᴰ.head refl)

  insort-Mem :
      (x h : ExtensionHandler F) (hs : List (ExtensionHandler F)) → Memᴰ x hs → Memᴰ x (insort h hs)
  unfolding insort
  insort-Mem x h [] m = Memᴰ.tail m
  insort-Mem x h (k ∷ ks) (Memᴰ.head e) =
      choose (Memᴰ x) (int_le h.interest.priority k.interest.priority) (Memᴰ.head e)
        (Memᴰ.tail (Memᴰ.head e))
  insort-Mem x h (k ∷ ks) (Memᴰ.tail m) =
      choose (Memᴰ x) (int_le h.interest.priority k.interest.priority)
        (Memᴰ.tail (insort-Mem x h ks m)) (Memᴰ.tail (Memᴰ.tail m))

  module _ (same : Interest F → Interest F → Bool) where
    some_injective : {x y : Extension F} → some x ≡ some y → x ≡ y
    some_injective e = cc e

    both_left : (a b : Bool) → (a && b) ≡ true → a ≡ true
    both_left true b e = refl
    both_left false b e = e

    -- Removing a handler of another object leaves a handler where it is.
    remove_handler-Mem :
        (x h : ExtensionHandler F) (hs ks : List (ExtensionHandler F))
        → h.ext.number ≢ x.ext.number
        → remove_handler same h hs ≡ ok ks
        → Memᴰ x hs
        → Memᴰ x ks
    unfolding remove_handler equal_handlers
    remove_handler-Mem x h [] ks d e m = elim m [ ]
    remove_handler-Mem x h (k ∷ hs) ks d e m =
        go (equal_handlers same k h) refl (remove_handler same h hs) e
          (λ js e later. remove_handler-Mem x h hs js d e later) m
      where
        numbers : equal_handlers same k h ≡ true → k.ext.number ≡ h.ext.number
        numbers e =
            (==_iff k.ext.number h.ext.number).0
              (both_left (k.ext.number == h.ext.number) (same k.interest h.interest) e)

        go :
            (b : Bool)
            → equal_handlers same k h ≡ b
            → (r : Result (List (ExtensionHandler F)))
            → (if b then ok hs else map_ok (λ js. k ∷ js) r) ≡ ok ks
            → ((js : List (ExtensionHandler F)) → r ≡ ok js → Memᴰ x hs → Memᴰ x js)
            → Memᴰ x (k ∷ hs)
            → Memᴰ x ks
        go true q r e later (Memᴰ.head p) =
            absurd (d (sym (numbers q) ∙ ap (λ y. y.ext.number) (sym p)))
        go true q r e later (Memᴰ.tail m) = subst (Memᴰ x) (ok_injective e) m
        go false q (ok js) e later (Memᴰ.head p) = subst (Memᴰ x) (ok_injective e) (Memᴰ.head p)
        go false q (ok js) e later (Memᴰ.tail m) =
            subst (Memᴰ x) (ok_injective e) (Memᴰ.tail (later js refl m))
        go false q (err z) e later m = absurd (cc e)

    -- One handler stays in the list of its type.
    abbrev stays :
        (x : ExtensionHandler F) (j : ℕ)
        → Keeps same (λ i hs. i ≡ j → Memᴰ x hs) (λ ext. ext.number ≢ x.ext.number)
    stays x j = record {
      on_insert = λ i h hs there e. insort-Mem x h hs (there e);
      on_remove = λ i h hs ks d e there f. remove_handler-Mem x h hs ks d e (there f);
    }

    stays_now :
        (x : ExtensionHandler F) (j : ℕ) (s : ExtensionManager F)
        → Memᴰ x (handlers j s)
        → Holds (stays x j) s
    stays_now x j s m i e = subst (λ k. Memᴰ x (handlers k s)) (sym e) m

    handlers-set_handlers :
        (j : ℕ) (hs : List (ExtensionHandler F)) (s : ExtensionManager F)
        → handlers j (set_handlers j hs s) ≡ hs
    unfolding handlers
    handlers-set_handlers j hs s = rw (lookup-insert j j hs s.interest_map, ==_refl j) refl

    add_interests-extensions :
        (ext : Extension F) (is : List (Interest F)) (s : ExtensionManager F)
        → (add_interests ext is s).extensions ≡ s.extensions
    unfolding add_interests
    add_interests-extensions ext [] s = refl
    add_interests-extensions ext (i ∷ is) s =
        add_interests-extensions ext is
          (set_handlers i.interest (insort (handler ext i) (handlers i.interest s)) s)

    -- An id stands for the object that was added last.
    lookup-add_extension :
        (ext : Extension F) (s : ExtensionManager F)
        → Dict.lookup ext.id ((add_extension ext s).extensions) ≡ some ext
    unfolding add_extension
    lookup-add_extension ext s =
        ap (Dict.lookup ext.id) (
          add_interests-extensions ext ext.interests
            (record s { extensions = Dict.insert ext.id ext s.extensions }))
        ∙ lookup-insert ext.id ext.id ext s.extensions
        ∙ ap (λ b. if b then some ext else Dict.lookup ext.id s.extensions) (beq_refl ext.id)

    add_interests-Mem :
        (ext : Extension F) (is : List (Interest F)) (s : ExtensionManager F) (i : Interest F)
        → Memᴰ i is
        → Memᴰ (handler ext i) (handlers i.interest (add_interests ext is s))
    unfolding add_interests
    add_interests-Mem ext [] s i m = elim m [ ]
    add_interests-Mem ext (j ∷ is) s i (Memᴰ.head e) =
        let t : ExtensionManager F =
          set_handlers j.interest (insort (handler ext j) (handlers j.interest s)) s in
        subst (λ i. Memᴰ (handler ext i) (handlers i.interest (add_interests ext is t))) (sym e)
          (add_interests-Holds (stays (handler ext j) j.interest) ext is t
            (stays_now (handler ext j) j.interest t (
              subst (Memᴰ (handler ext j))
                (sym (
                  handlers-set_handlers j.interest (insort (handler ext j) (handlers j.interest s))
                    s))
                (insort-Mem_self (handler ext j) (handlers j.interest s))))
            j.interest refl)
    add_interests-Mem ext (j ∷ is) s i (Memᴰ.tail m) =
        add_interests-Mem ext is
          (set_handlers j.interest (insort (handler ext j) (handlers j.interest s)) s) i m

    add_extension-Mem :
        (ext : Extension F) (s : ExtensionManager F) (i : Interest F)
        → Memᴰ i ext.interests
        → Memᴰ (handler ext i) (handlers i.interest (add_extension ext s))
    unfolding add_extension
    add_extension-Mem ext s i m =
        add_interests-Mem ext ext.interests
          (record s { extensions = Dict.insert ext.id ext s.extensions }) i m

    -- The handlers of an extension stay in the lists when another object of the same id was added before
    -- the id is removed.
    pub overwritten_stays :
        (old new : Extension F) (s : ExtensionManager F) (i : Interest F)
        → old.id ≡ new.id
        → old.number ≢ new.number
        → Memᴰ i old.interests
        → Memᴰ (handler old i) (
            handlers i.interest
              ((remove_extension same old.id (add_extension new (add_extension old s))).1))
    overwritten_stays old new s i one differ m =
        remove_extension-Holds (stays (handler old i) i.interest) old.id
          (add_extension new (add_extension old s))
          (λ ext found e. differ (
            sym e
            ∙ ap (λ x. x.number)
                (some_injective (
                  sym found
                  ∙ ap (λ j. Dict.lookup j ((add_extension new (add_extension old s)).extensions))
                      one
                  ∙ lookup-add_extension new (add_extension old s)))))
          (add_extension-Holds (stays (handler old i) i.interest) new (add_extension old s) (
            stays_now (handler old i) i.interest (add_extension old s)
              (add_extension-Mem old s i m)))
          i.interest refl
