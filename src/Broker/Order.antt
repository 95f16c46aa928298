-- ===== src/Broker/Order.antt =====
-- The order of the handlers of a type.
use gtools.Prelude.{
  choose, ℕ, List, [], ◌∷◌, Bool, true, false, if◌then◌else◌, ℤ, pos, negsuc, All, ◌≡◌, refl, subst,
  arith,
}
use gtools.Python.Exec.{Result, ok, err, map_ok, ok_injective}
use gtools.Python.Struct.{Bytes}
use gtools.Python.Dict
use gtools.Python.Dict.{Dict, nat_eq, bytes_eq, All-insert, All-lookup}
use gtools.Broker.Operands.{int_le}
use gtools.Broker.Handler.{Interest, Extension, ExtensionHandler}
use gtools.Broker.Manager.{
  ExtensionManager, no_extensions, handlers, beat, insort, add_extension, equal_handlers,
  remove_handler, remove_extension, sweep, flatlined,
}
use gtools.Broker.Changes.{
  Keeps, beat-Holds, add_extension-Holds, remove_extension-Holds, remove_all-Holds,
}

int_le_trans : (a b c : ℤ) → int_le a b ≡ true → int_le b c ≡ true → int_le a c ≡ true
int_le_trans (pos a) (pos b) (pos c) h k = ground arith
int_le_trans (pos a) (pos b) (negsuc c) h k = k
int_le_trans (pos a) (negsuc b) c h k = absurd (cc h)
int_le_trans (negsuc a) b (pos c) h k = refl
int_le_trans (negsuc a) (pos b) (negsuc c) h k = absurd (cc k)
int_le_trans (negsuc a) (negsuc b) (negsuc c) h k = ground arith

int_le_total : (a b : ℤ) → int_le a b ≡ false → int_le b a ≡ true
int_le_total (pos a) (pos b) h = ground arith
int_le_total (pos a) (negsuc b) h = refl
int_le_total (negsuc a) (pos b) h = absurd (cc h)
int_le_total (negsuc a) (negsuc b) h = ground arith

module _ {F : Type 0} where
  -- Of at most this priority.
  abbrev Below : ℤ → ExtensionHandler F → Type 0
  Below p k = int_le k.interest.priority p ≡ true

  unfoldable pub IsOrdered : List (ExtensionHandler F) → Type 0
  IsOrdered [] = Unit
  IsOrdered (h ∷ hs) = All (Below h.interest.priority) hs × IsOrdered hs

  Below-All :
      (p q : ℤ) (hs : List (ExtensionHandler F))
      → int_le p q ≡ true
      → All (Below p) hs
      → All (Below q) hs
  Below-All p q [] le all = tt
  Below-All p q (h ∷ hs) le all =
      (int_le_trans h.interest.priority p q all.0 le, Below-All p q hs le all.1)

  insort-All :
      (P : ExtensionHandler F → Type 0) (h : ExtensionHandler F) (hs : List (ExtensionHandler F))
      → P h
      → All P hs
      → All P (insort h hs)
  unfolding insort
  insort-All P h [] p all = (p, tt)
  insort-All P h (k ∷ ks) p all =
      choose (All P) (int_le h.interest.priority k.interest.priority)
        (all.0, insort-All P h ks p all.1) (p, all)

  insort-IsOrdered :
      (h : ExtensionHandler F) (hs : List (ExtensionHandler F))
      → IsOrdered hs
      → IsOrdered (insort h hs)
  unfolding insort IsOrdered
  insort-IsOrdered h [] o = (tt, tt)
  insort-IsOrdered h (k ∷ ks) o =
      go (int_le h.interest.priority k.interest.priority) refl (insort-IsOrdered h ks o.1)
    where
      go :
          (b : Bool)
          → int_le h.interest.priority k.interest.priority ≡ b
          → IsOrdered (insort h ks)
          → IsOrdered (if b then k ∷ insort h ks else h ∷ k ∷ ks)
      go true le later = (insort-All (Below k.interest.priority) h ks le o.0, later)
      go false gt later =
          let le = int_le_total h.interest.priority k.interest.priority gt in
          ((le, Below-All k.interest.priority h.interest.priority ks le o.0), o)

  module _ (same : Interest F → Interest F → Bool) where
    remove_handler-All :
        (P : ExtensionHandler F → Type 0) (h : ExtensionHandler F)
        (hs ks : List (ExtensionHandler F))
        → remove_handler same h hs ≡ ok ks
        → All P hs
        → All P ks
    unfolding remove_handler
    remove_handler-All P h [] ks e all = absurd (cc e)
    remove_handler-All P h (k ∷ hs) ks e all =
        go (equal_handlers same k h) (remove_handler same h hs) e
          (λ js e. remove_handler-All P h hs js e all.1)
      where
        go :
            (b : Bool) (r : Result (List (ExtensionHandler F)))
            → (if b then ok hs else map_ok (λ js. k ∷ js) r) ≡ ok ks
            → ((js : List (ExtensionHandler F)) → r ≡ ok js → All P js)
            → All P ks
        go true r e later = subst (All P) (ok_injective e) all.1
        go false (ok js) e later = subst (All P) (ok_injective e) (all.0, later js refl)
        go false (err x) e later = absurd (cc e)

    remove_handler-IsOrdered :
        (h : ExtensionHandler F) (hs ks : List (ExtensionHandler F))
        → remove_handler same h hs ≡ ok ks
        → IsOrdered hs
        → IsOrdered ks
    unfolding remove_handler IsOrdered
    remove_handler-IsOrdered h [] ks e o = absurd (cc e)
    remove_handler-IsOrdered h (k ∷ hs) ks e o =
        go (equal_handlers same k h) (remove_handler same h hs) e (λ js e. (
          remove_handler-All (Below k.interest.priority) h hs js e o.0,
          remove_handler-IsOrdered h hs js e o.1,
        ))
      where
        go :
            (b : Bool) (r : Result (List (ExtensionHandler F)))
            → (if b then ok hs else map_ok (λ js. k ∷ js) r) ≡ ok ks
            → ((js : List (ExtensionHandler F)) → r ≡ ok js → IsOrdered (k ∷ js))
            → IsOrdered ks
        go true r e later = subst IsOrdered (ok_injective e) o.1
        go false (ok js) e later = subst IsOrdered (ok_injective e) (later js refl)
        go false (err x) e later = absurd (cc e)

    abbrev order_kept : Keeps same (λ i. IsOrdered) (λ ext. Unit)
    order_kept = record {
      on_insert = λ i h hs. insort-IsOrdered h hs;
      on_remove = λ i h hs ks a. remove_handler-IsOrdered h hs ks;
    }

    -- What the manager goes through: extensions come, beat, leave and are swept.
    pub data Reach : ExtensionManager F → Type 0 where
      start : Reach no_extensions
      beaten : {s : ExtensionManager F} (id : Bytes) (now : ℕ) → Reach s → Reach (beat id now s)
      added : {s : ExtensionManager F} (ext : Extension F) → Reach s → Reach (add_extension ext s)
      left :
          {s : ExtensionManager F} (id : Bytes) → Reach s → Reach ((remove_extension same id s).1)
      swept :
          {s : ExtensionManager F} (now threshold : ℕ)
          → Reach s
          → Reach ((sweep same now threshold s).1)

    -- Whatever extensions come and go, the handlers of each interest type are asked in order of priority,
    -- the highest first.
    pub Reach-IsOrdered : (s : ExtensionManager F) → Reach s → (i : ℕ) → IsOrdered (handlers i s)
    unfolding sweep handlers IsOrdered Dict.lookup
    Reach-IsOrdered s start i = tt
    Reach-IsOrdered s (beaten {s = t} id now r) i =
        beat-Holds order_kept id now t (Reach-IsOrdered t r) i
    Reach-IsOrdered s (added {s = t} ext r) i =
        add_extension-Holds order_kept ext t (Reach-IsOrdered t r) i
    Reach-IsOrdered s (left {s = t} id r) i =
        remove_extension-Holds order_kept id t (λ ext e. tt) (Reach-IsOrdered t r) i
    Reach-IsOrdered s (swept {s = t} now threshold r) i =
        remove_all-Holds order_kept (flatlined same now threshold t.extensions) t (λ ext. tt)
          (Reach-IsOrdered t r) i
