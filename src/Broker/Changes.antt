-- ===== src/Broker/Changes.antt =====
-- What the operations of the extension manager do to its lists of handlers: they insert and remove
-- handlers, one at a time.
use gtools.Prelude.{
  ℕ, List, [], ◌∷◌, Bool, true, false, ◌==◌, ==_iff, if◌then◌else◌, Option, none, some, ◌≡◌, refl,
  subst,
}
use gtools.Python.Exec.{Result, ok, err, continue}
use gtools.Python.Struct.{Bytes}
use gtools.Python.Dict
use gtools.Python.Dict.{Dict, nat_eq, bytes_eq, lookup-insert}
use gtools.Broker.Handler.{Interest, Extension, ExtensionHandler}
use gtools.Broker.Manager.{
  ExtensionManager, handlers, handlers_or_empty, handler, beat, insort, add_interests,
  add_extension, remove_handler, remove_interests, remove_extension, remove_found, forget,
  remove_all, set_handlers,
}

-- A property of the lists of handlers that inserting a handler keeps, and removing one of some
-- extensions.
pub record Keeps {F : Type 0} (same : Interest F → Interest F → Bool)
    (P : ℕ → List (ExtensionHandler F) → Type 0) (A : Extension F → Type 0) : Type 0 where
  pub on_insert :
      (i : ℕ) (h : ExtensionHandler F) (hs : List (ExtensionHandler F)) → P i hs → P i (insort h hs)
  pub on_remove :
      (i : ℕ) (h : ExtensionHandler F) (hs ks : List (ExtensionHandler F))
      → A h.ext
      → remove_handler same h hs ≡ ok ks
      → P i hs
      → P i ks

module _ {F : Type 0} {same : Interest F → Interest F → Bool}
    {P : ℕ → List (ExtensionHandler F) → Type 0} {A : Extension F → Type 0}
    (keeps : Keeps same P A) where
  -- Every list of the manager has the property.
  abbrev pub Holds : ExtensionManager F → Type 0
  Holds s = (i : ℕ) → P i (handlers i s)

  pub set_handlers-Holds :
      (i : ℕ) (hs : List (ExtensionHandler F)) (s : ExtensionManager F)
      → P i hs
      → Holds s
      → Holds (set_handlers i hs s)
  unfolding handlers
  set_handlers-Holds i hs s p holds j =
      rw (lookup-insert i j hs s.interest_map) (go (i == j) ((==_iff i j).0))
    where
      go :
          (b : Bool)
          → (b ≡ true → i ≡ j)
          → P j (handlers_or_empty (if b then some hs else Dict.lookup j s.interest_map))
      go true e = subst (λ k. P k hs) (e refl) p
      go false e = holds j

  pub add_interests-Holds :
      (ext : Extension F) (is : List (Interest F)) (s : ExtensionManager F)
      → Holds s
      → Holds (add_interests ext is s)
  unfolding add_interests
  add_interests-Holds ext [] s holds = holds
  add_interests-Holds ext (i ∷ is) s holds =
      let hs : List (ExtensionHandler F) = insort (handler ext i) (handlers i.interest s) in
      add_interests-Holds ext is (set_handlers i.interest hs s) (
        set_handlers-Holds i.interest hs s
          (keeps.on_insert i.interest (handler ext i) (handlers i.interest s) (holds i.interest))
          holds)

  pub add_extension-Holds :
      (ext : Extension F) (s : ExtensionManager F) → Holds s → Holds (add_extension ext s)
  unfolding add_extension handlers
  add_extension-Holds ext s holds =
      add_interests-Holds ext ext.interests
        (record s { extensions = Dict.insert ext.id ext s.extensions }) holds

  remove_interests-Holds :
      (ext : Extension F) (is : List (Interest F)) (s : ExtensionManager F)
      → A ext
      → Holds s
      → Holds ((remove_interests same ext is s).1)
  unfolding remove_interests
  remove_interests-Holds ext [] s a holds = holds
  remove_interests-Holds ext (i ∷ is) s a holds =
      go (remove_handler same (handler ext i) (handlers i.interest s)) refl (λ hs p.
        remove_interests-Holds ext is (set_handlers i.interest hs s) a
          (set_handlers-Holds i.interest hs s p holds))
    where
      go :
          (r : Result (List (ExtensionHandler F)))
          → remove_handler same (handler ext i) (handlers i.interest s) ≡ r
          → ((hs : List (ExtensionHandler F))
              → P i.interest hs
              → Holds ((remove_interests same ext is (set_handlers i.interest hs s)).1))
          → Holds (
              (elim r as (λ _. Result (Unit {0}) × ExtensionManager F) [
                | ok hs ↦ remove_interests same ext is (set_handlers i.interest hs s)
                | err e ↦ (err e, s)
              ]).1)
      go (ok hs) e later = later hs (
          keeps.on_remove i.interest (handler ext i) (handlers i.interest s) hs a e
            (holds i.interest))
      go (err x) e later = holds

  pub remove_extension-Holds :
      (id : Bytes) (s : ExtensionManager F)
      → ((ext : Extension F) → Dict.lookup id s.extensions ≡ some ext → A ext)
      → Holds s
      → Holds ((remove_extension same id s).1)
  unfolding remove_extension handlers
  remove_extension-Holds id s a holds = go (Dict.lookup id s.extensions) refl
    where
      forgotten :
          (r : Result (Unit {0}) × ExtensionManager F)
          → Holds (r.1)
          → Holds ((continue r (λ _. forget same id)).1)
      forgotten (ok x, t) h = h
      forgotten (err e, t) h = h

      go :
          (o : Option (Extension F))
          → Dict.lookup id s.extensions ≡ o
          → Holds ((remove_found same id o s).1)
      go none e = holds
      go (some ext) e =
          forgotten (remove_interests same ext ext.interests s)
            (remove_interests-Holds ext ext.interests s (a ext e) holds)

  pub remove_all-Holds :
      (ids : List Bytes) (s : ExtensionManager F)
      → ((ext : Extension F) → A ext)
      → Holds s
      → Holds ((remove_all same ids s).1)
  unfolding remove_all
  remove_all-Holds [] s a holds = holds
  remove_all-Holds (id ∷ ids) s a holds =
      go (remove_extension same id s) (remove_extension-Holds id s (λ ext e. a ext) holds)
        (λ t. remove_all-Holds ids t a)
    where
      go :
          (r : Result (Unit {0}) × ExtensionManager F)
          → Holds (r.1)
          → ((t : ExtensionManager F) → Holds t → Holds ((remove_all same ids t).1))
          → Holds ((continue r (λ _. remove_all same ids)).1)
      go (ok x, t) h later = later t h
      go (err e, t) h later = h

  pub beat-Holds : (id : Bytes) (now : ℕ) (s : ExtensionManager F) → Holds s → Holds (beat id now s)
  unfolding beat handlers
  beat-Holds id now s holds = go (Dict.lookup id s.extensions)
    where
      go :
          (o : Option (Extension F))
          → Holds (elim o as (λ _. ExtensionManager F) [
            | none ↦ s
            | some ext ↦ record s {
              extensions = Dict.insert id (record ext { last_heartbeat = now }) s.extensions;
            }
          ])
      go none = holds
      go (some ext) = holds
