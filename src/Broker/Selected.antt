-- ===== src/Broker/Selected.antt =====
-- The handlers that are found for a packet, among those of the manager.
use gtools.Prelude.{
  ℕ, List, [], ◌∷◌, ◌++◌, Bool, true, false, ◌==◌, if◌then◌else◌, some, All, All-append,
}
use gtools.Python.Exec.{Result, ok, err, and_then, map_ok}
use gtools.Python.Struct.{Floats}
use gtools.Python.Dict
use gtools.Python.Dict.{Dict, nat_eq, bytes_eq, lookup-insert, beq_refl}
use gtools.Packet.Types.{
  NetType, tank_packet, unknown, server_hello, generic_text, game_message, error, track,
  client_log_request, client_log_response, sync_client_position, write_to_ring_buffer,
}
use gtools.Packet.Tank.{TankPacket}
use gtools.Packet.Net.{get_tank}
use gtools.Packet.Prepared.{PreparedPacket}
use gtools.Broker.Interests.{net_interest, tank_interest}
use gtools.Broker.Operands.{Library}
use gtools.Broker.Handler.{ExtensionHandler, interested}
use gtools.Broker.Manager.{
  handlers_or_empty, ExtensionManager, handlers, interested_among, get_interested_extension,
}
use gtools.Broker.Pending.{interested_extensions, specific_for, tank_specific}

module _ {F : Type 0} where
  -- The handlers of all interest types.
  unfoldable pub all_handlers : Dict ℕ (List (ExtensionHandler F)) → List (ExtensionHandler F)
  all_handlers [] = []
  all_handlers ((i, hs) ∷ d) = hs ++ all_handlers d

  pub All-append_left :
      (P : ExtensionHandler F → Type 0) (hs ks : List (ExtensionHandler F))
      → All P (hs ++ ks)
      → All P hs × All P ks
  All-append_left P [] ks h = (tt, h)
  All-append_left P (x ∷ hs) ks h = let (a, b) = All-append_left P hs ks h.1 in ((h.0, a), b)

  module _ (P : ExtensionHandler F → Type 0) where
    pub lookup-All :
        (i : ℕ) (d : Dict ℕ (List (ExtensionHandler F)))
        → All P (all_handlers d)
        → All P (handlers_or_empty (Dict.lookup i d))
    unfolding all_handlers Dict.lookup
    lookup-All i [] h = tt
    lookup-All i ((j, hs) ∷ d) h =
        let (here, later) = All-append_left P hs (all_handlers d) h in
        go (j == i) here (lookup-All i d later)
      where
        go :
            (b : Bool)
            → All P hs
            → All P (handlers_or_empty (Dict.lookup i d))
            → All P (handlers_or_empty (if b then some hs else Dict.lookup i d))
        go true p q = p
        go false p q = q

    module _ ⦃fl : Floats F⦄ ⦃lib : Library F⦄ where
      -- Each list of handlers that an operation returns comes from the manager's.
      abbrev pub AllOk : Result (List (ExtensionHandler F)) → Type 0
      AllOk (ok hs) = All P hs
      AllOk (err e) = Unit

      pub interested_among-All :
          (p : PreparedPacket F) (hs : List (ExtensionHandler F))
          → All P hs
          → AllOk (interested_among p hs)
      unfolding interested_among
      interested_among-All p [] h = tt
      interested_among-All p (x ∷ hs) h =
          go (interested x p) (interested_among p hs) (interested_among-All p hs h.1)
        where
          go :
              (r : Result Bool) (s : Result (List (ExtensionHandler F)))
              → AllOk s
              → AllOk (and_then r (λ b. map_ok (λ rest. if b then x ∷ rest else rest) s))
          go (ok true) (ok ks) k = (h.0, k)
          go (ok false) (ok ks) k = k
          go (ok b) (err e) k = tt
          go (err e) s k = tt

module _ {F : Type 0} ⦃fl : Floats F⦄ ⦃lib : Library F⦄ (P : ExtensionHandler F → Type 0) where
  got-All :
      (i : ℕ) (p : PreparedPacket F) (s : ExtensionManager F)
      → All P (all_handlers s.interest_map)
      → AllOk P (get_interested_extension i p s)
  unfolding get_interested_extension handlers
  got-All i p s all = interested_among-All P p (handlers i s) (lookup-All P i s.interest_map all)

  tank_specific-All :
      (p : PreparedPacket F) (s : ExtensionManager F)
      → All P (all_handlers s.interest_map)
      → AllOk P (tank_specific p s)
  unfolding tank_specific
  tank_specific-All p s all = go p.packet.type
    where
      found :
          (r : Result (TankPacket F))
          → AllOk P (and_then r (λ t. get_interested_extension (tank_interest t.type) p s))
      found (ok t) = got-All (tank_interest t.type) p s all
      found (err e) = tt

      go : (t : NetType) → AllOk P (specific_for p s t)
      go tank_packet = found (get_tank p.packet)
      go unknown = tt
      go server_hello = tt
      go generic_text = tt
      go game_message = tt
      go error = tt
      go track = tt
      go client_log_request = tt
      go client_log_response = tt
      go sync_client_position = tt
      go write_to_ring_buffer = tt

  pub interested_extensions-All :
      (p : PreparedPacket F) (s : ExtensionManager F)
      → All P (all_handlers s.interest_map)
      → AllOk P (interested_extensions p s)
  unfolding interested_extensions
  interested_extensions-All p s all =
      go (net_interest p.packet.type) (tank_specific p s) (tank_specific-All p s all)
    where
      go :
          (r : Result ℕ) (t : Result (List (ExtensionHandler F)))
          → AllOk P t
          → AllOk P (
              and_then r (λ i. and_then t (λ specific.
                map_ok (λ generic. generic ++ specific) (get_interested_extension i p s))))
      go (err e) t q = tt
      go (ok i) (err e) q = tt
      go (ok i) (ok hs) q = appended (get_interested_extension i p s) (got-All i p s all)
        where
          appended :
              (g : Result (List (ExtensionHandler F)))
              → AllOk P g
              → AllOk P (map_ok (λ generic. generic ++ hs) g)
          appended (ok ks) k = All-append P ks hs k q
          appended (err e) k = tt
