-- ===== src/Broker/Chosen.antt =====
-- The handlers that a chain is built from, and the count behind the first of them.
use gtools.Prelude.{
  ℕ, ◌<◌, List, [], ◌∷◌, Bool, true, false, if◌then◌else◌, All, ◌≡◌, refl, sym, subst,
}
use mathlib.Core.List.{Memᴰ}
use gtools.Python.Exec.{Result, ok, err, and_then}
use gtools.Python.Struct.{Bytes, Floats}
use gtools.Python.Dict.{Dict, nat_eq, bytes_eq}
use gtools.Packet.Prepared.{PreparedPacket}
use gtools.Broker.Operands.{Library}
use gtools.Broker.Handler.{ExtensionHandler}
use gtools.Broker.Hashing.{Hashing}
use gtools.Broker.Manager.{ExtensionManager}
use gtools.Broker.Pending.{
  PendingPacket, unprocessed, interested_extensions, from_pending, build_chain,
}
use gtools.Broker.Selected.{all_handlers, AllOk, interested_extensions-All}
use gtools.Broker.Waiting.{
  left_over, unprocessed-left_over, counts, waiting, IsAlone, processed_now, waiting-insert-lt,
}

module _ {F : Type 0} (hash : Hashing F) where
  -- What processing a handler does to the count, if the handler counts.
  abbrev Drops : Dict Bytes ℕ → List (ExtensionHandler F) → ExtensionHandler F → Type 0
  Drops d hs h =
      counts hash d h ≡ true → waiting hash (processed_now hash d h) hs < waiting hash d hs

  -- No two handlers of one extension differ in the hash of their interests.
  abbrev pub OneEach : List (ExtensionHandler F) → Type 0
  OneEach hs = All (λ h. All (IsAlone hash h) hs) hs

  Drops-part :
      (d : Dict Bytes ℕ) (hs ks : List (ExtensionHandler F))
      → ((h : ExtensionHandler F) → Memᴰ h ks → Memᴰ h hs)
      → All (λ h. All (IsAlone hash h) hs) ks
      → All (Drops d hs) ks
  Drops-part d hs [] sub one = tt
  Drops-part d hs (h ∷ ks) sub one = (
    λ c. waiting-insert-lt hash d h hs (sub h (Memᴰ.head refl)) c one.0,
    Drops-part d hs ks (λ k m. sub k (Memᴰ.tail m)) one.1,
  )

  left_over-head :
      (P : ExtensionHandler F → Type 0) (d : Dict Bytes ℕ) (hs : List (ExtensionHandler F))
      → All P hs
      → (h : ExtensionHandler F) (rest : List (ExtensionHandler F)) → left_over hash d hs ≡ h ∷ rest
      → P h × (counts hash d h ≡ true)
  left_over-head P d [] all h rest e = absurd (cc e)
  left_over-head P d (k ∷ hs) all h rest e =
      go (counts hash d k) refl e (left_over-head P d hs all.1 h rest)
    where
      go :
          (b : Bool)
          → counts hash d k ≡ b
          → (if b then k ∷ left_over hash d hs else left_over hash d hs) ≡ h ∷ rest
          → (left_over hash d hs ≡ h ∷ rest → P h × (counts hash d h ≡ true))
          → P h × (counts hash d h ≡ true)
      go true c e later =
          let same : k ≡ h = cc e in
          (subst P same all.0, subst (λ x. counts hash d x ≡ true) same c)
      go false c e later = later e

module _ {F : Type 0} ⦃fl : Floats F⦄ ⦃lib : Library F⦄ (compensate : Bool) (hash : Hashing F) where
  pub build_chain-drops :
      (d : Dict Bytes ℕ) (new : PendingPacket) (s : ExtensionManager F)
      → OneEach hash (all_handlers s.interest_map)
      → (h : ExtensionHandler F) (rest : List (ExtensionHandler F))
      → build_chain compensate hash d new s ≡ ok (h ∷ rest)
      → waiting hash (processed_now hash d h) (all_handlers s.interest_map)
        < waiting hash d (all_handlers s.interest_map)
  unfolding build_chain
  build_chain-drops d new s one h rest e = built (from_pending compensate new) e
    where
      H : List (ExtensionHandler F)
      H = all_handlers s.interest_map

      chosen :
          (r : Result (List (ExtensionHandler F)))
          → AllOk (Drops hash d H) r
          → and_then r (unprocessed hash d) ≡ ok (h ∷ rest)
          → waiting hash (processed_now hash d h) H < waiting hash d H
      chosen (err x) all e = absurd (cc e)
      chosen (ok hs) all e =
          let (drop, c) =
            left_over-head hash (Drops hash d H) d hs all h rest
              (sym (unprocessed-left_over hash d hs (h ∷ rest) e)) in
          drop c

      built :
          (r : Result (PreparedPacket F))
          → and_then r (λ p. and_then (interested_extensions p s) (unprocessed hash d))
            ≡ ok (h ∷ rest)
          → waiting hash (processed_now hash d h) H < waiting hash d H
      built (err x) e = absurd (cc e)
      built (ok p) e =
          chosen (interested_extensions p s)
            (interested_extensions-All (Drops hash d H) p s (Drops-part hash d H H (λ k m. m) one))
            e
