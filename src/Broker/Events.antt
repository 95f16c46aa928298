-- ===== src/Broker/Events.antt =====
-- `process_event`, up to where it waits and from there on.
use gtools.Prelude.{
  ℕ, List, [], ◌∷◌, ◌++◌, Bool, false, ◌==◌, if◌then◌else◌, Option, none, some, ◌-◌, leb,
}
use gtools.Python.Exec.{
  Exec, Result, ok, err, key_error, value_error, map_ok, pure, lift, modify, ◌>>=◌, ◌>>◌,
}
use gtools.Python.Struct.{Bytes, Floats}
use gtools.Python.Dict
use gtools.Python.Dict.{Dict, nat_eq, bytes_eq}
use gtools.Packet.Prepared.{PreparedPacket}
use gtools.Broker.Interests.{net_interest}
use gtools.Broker.Operands.{Library}
use gtools.Broker.Handler.{ExtensionHandler, interested}
use gtools.Broker.Hashing.{Hashing, hash_interest}
use gtools.Broker.Manager.{handlers}
use gtools.Broker.Pending.{
  PendingPacket, PacketCallback, PendingChain, Broker, send, set_chain, randbytes, tank_specific,
}

-- `PendingPacket()`
abbrev pub no_packet : PendingPacket
no_packet = record {
  op = 0;
  packet_id = [];
  buf = [];
  packet_flags = 0;
  interest_id = 0;
  direction = 0;
  hit_count = 0;
  rtt_ns = 0;
}

-- What the loop over the handlers comes to: the chain so far, or the early `return`.
pub data Progress (F : Type 0) : Type 0 where
  going : List (ExtensionHandler F) → Progress F
  cancelled : Progress F

-- What `process_event` does before it waits: it returns `None`, or a cancelled packet, or it waits for
-- the chain of this id.
pub data Outcome : Type 0 where
  nothing cancels : Outcome
  waits : Bytes → Outcome

-- Behind the wait: the packet, with the time that passed, and whether it is cancelled. A protobuf
-- field that is unsigned takes no negative number.
abbrev pub passed : ℕ → PendingPacket → Result PendingPacket
passed now p =
    if leb p.rtt_ns now then ok (record p { rtt_ns = now - p.rtt_ns }) else err value_error

module _ {F : Type 0} where
  -- The packet that is sent: forwarded, under an id or none.
  abbrev pub forwarded : PreparedPacket F → Bytes → ℕ → ℕ → PendingPacket
  forwarded p id now interest_id = record {
    op = 3;
    packet_id = id;
    buf = p.packet_raw;
    packet_flags = p.flags;
    interest_id = interest_id;
    direction = p.direction;
    hit_count = 0;
    rtt_ns = now;
  }

  module _ (draw : ℕ → Bytes) (now : ℕ) where
    -- BLOCKING_MODE_SEND_AND_FORGET and BLOCKING_MODE_SEND_AND_CANCEL send in this way.
    abbrev pub send_pending :
        ExtensionHandler F → PreparedPacket F → Option PacketCallback → Exec (Broker F) Unit
    send_pending h p callback = do
      id ← randbytes draw
      send h.ext.id (forwarded p id now h.interest.id)
      modify (λ s. record s { pending_packet = Dict.insert id callback s.pending_packet })

    -- The body of the loop of `process_event`.
    unfoldable pub visit :
        PreparedPacket F
        → Option PacketCallback
        → ExtensionHandler F
        → List (ExtensionHandler F)
        → Exec (Broker F) (Progress F)
    visit p callback h chain =
        if h.interest.blocking_mode == 1
        then pure (going (chain ++ h ∷ []))
        else if h.interest.blocking_mode == 2
        then (do send_pending h p callback; pure (going chain))
        else if h.interest.blocking_mode == 4
        then (do send_pending h p callback; pure cancelled)
        else if h.interest.blocking_mode == 3
        then (do send h.ext.id (forwarded p [] 0 h.interest.id); pure (going chain))
        else if h.interest.blocking_mode == 5
        then (do send h.ext.id (forwarded p [] 0 h.interest.id); pure cancelled)
        else pure (going chain)

    unfoldable pub visit_all :
        PreparedPacket F
        → Option PacketCallback
        → List (ExtensionHandler F)
        → List (ExtensionHandler F)
        → Exec (Broker F) (Progress F)
    unfolding visit
    visit_all p callback [] chain = pure (going chain)
    visit_all p callback (h ∷ hs) chain = do
      r ← visit p callback h chain
      elim r [ going chain ↦ visit_all p callback hs chain | cancelled ↦ pure cancelled ]

    module _ ⦃fl : Floats F⦄ ⦃lib : Library F⦄ where
      -- The handlers of the general type are asked one by one, between the sends.
      unfoldable pub visit_interested :
          PreparedPacket F
          → Option PacketCallback
          → List (ExtensionHandler F)
          → List (ExtensionHandler F)
          → Exec (Broker F) (Progress F)
      unfolding visit interested
      visit_interested p callback [] chain = pure (going chain)
      visit_interested p callback (h ∷ hs) chain = do
        b ← lift (interested h p)
        r ← if b then visit p callback h chain else pure (going chain)
        elim r [ going chain ↦ visit_interested p callback hs chain | cancelled ↦ pure cancelled ]

      abbrev pub visit_both :
          PreparedPacket F
          → Option PacketCallback
          → List (ExtensionHandler F)
          → List (ExtensionHandler F)
          → Exec (Broker F) (Progress F)
      visit_both p callback generic specific = do
        r ← visit_interested p callback generic []
        elim r [ going chain ↦ visit_all p callback specific chain | cancelled ↦ pure cancelled ]

      module _ (hash : Hashing F) where
        -- The part behind the loop: the first blocking handler is sent the packet, the others wait.
        unfoldable pub start_chain : PreparedPacket F → Progress F → Exec (Broker F) Outcome
        unfolding hash_interest
        start_chain p cancelled = pure cancels
        start_chain p (going []) = pure nothing
        start_chain p (going (h ∷ chain)) = do
          id ← randbytes draw
          n ← lift (hash_interest hash h.interest)
          let new = forwarded p id now h.interest.id
          set_chain id (record {
            chain = h ∷ chain;
            processed_chain = (h.ext.id, n) ∷ [];
            finished = false;
            current = new;
            cancelled = false;
          })
          send h.ext.id new
          pure (waits id)

        unfoldable pub start_event :
            PreparedPacket F → Option PacketCallback → Exec (Broker F) Outcome
        unfolding visit_interested visit_all start_chain tank_specific net_interest handlers
        start_event p callback = do
          i ← lift (net_interest p.packet.type)
          specific ← (λ s. (tank_specific p s.extension_mgr, s))
          generic ← (λ s. (ok (handlers i s.extension_mgr), s))
          r ← visit_both p callback generic specific
          start_chain p r

  -- `finished_event.wait()` does not return while the chain is not finished: there is no result then.
  abbrev pub finished_event :
      ℕ
      → Bytes
      → Option (PendingChain F)
      → Broker F
      → Option (Result (PendingPacket × Bool) × Broker F)
  finished_event now id none s = some (err key_error, s)
  finished_event now id (some c) s =
      if c.finished
      then some (
        map_ok (λ p. (p, c.cancelled)) (passed now c.current),
        record s { pending_chain = Dict.remove id s.pending_chain },
      )
      else none

  unfoldable pub finish_event :
      ℕ → Bytes → Broker F → Option (Result (PendingPacket × Bool) × Broker F)
  finish_event now id s = finished_event now id (Dict.lookup id s.pending_chain) s
