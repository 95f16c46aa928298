-- ===== src/Broker/Replies.antt =====
-- `_handle_packet`, which takes the answers of the extensions.
use gtools.Prelude.{ℕ, [], ◌∷◌, ◌++◌, Bool, true, ◌&&◌, ◌==◌, if◌then◌else◌, Option, none, some}
use gtools.Python.Exec.{
  Exec, err, value_error, assertion_error, pure, raise, lift, modify, ◌>>=◌, ◌>>◌,
}
use gtools.Python.Struct.{Bytes, Floats}
use gtools.Python.Dict
use gtools.Python.Dict.{Dict, nat_eq, bytes_eq}
use gtools.Packet.Prepared.{PreparedPacket}
use gtools.Broker.Operands.{Library}
use gtools.Broker.Hashing.{Hashing}
use gtools.Broker.Pending.{
  PendingPacket, PacketCallback, Called, to_server, to_client, to_any, PendingChain, Broker,
  set_chain, from_pending, forward,
}

module _ {F : Type 0} where
  -- The current packet of a chain, with the hit count of an answer.
  abbrev pub hit : PendingPacket → PendingChain F → PendingPacket
  hit p c = record c.current { hit_count = p.hit_count }

  module _ ⦃fl : Floats F⦄ ⦃lib : Library F⦄ (compensate : Bool) (hash : Hashing F) where
    abbrev pub call_with : (PreparedPacket F → Called F) → PendingPacket → Exec (Broker F) Unit
    call_with to p = do
      q ← lift (from_pending compensate p)
      modify (λ s. record s { called = s.called ++ to q ∷ [] })

    -- `_finish`: the function of the packet's direction, and then `any`.
    unfoldable pub finish : Option PacketCallback → PendingPacket → Exec (Broker F) Unit
    unfolding from_pending
    finish none p = pure tt
    finish (some c) p = do
      (if (p.direction == 1) && c.send_to_server
          then call_with to_server p
          else if (p.direction == 2) && c.send_to_client
          then call_with to_client p
          else pure tt)
      (if c.any then call_with to_any p else pure tt)

    -- The match on the `op` of an answer for a chain.
    abbrev pub chain_op : ℕ → PendingPacket → PendingChain F → Exec (Broker F) Unit
    chain_op op p c =
        if op == 1
        then set_chain p.packet_id (record c { current = p; finished = true })
        else if op == 2
        then set_chain p.packet_id
            (record c { current = hit p c; cancelled = true; finished = true })
        else if op == 3
        then forward compensate hash p.packet_id c p
        else if op == 4
        then forward compensate hash p.packet_id (record c { current = hit p c }) (hit p c)
        else raise value_error

    unfoldable pub handle_chain : PendingPacket → PendingChain F → Exec (Broker F) Unit
    unfolding forward
    handle_chain p c = chain_op p.op p c

    unfoldable pub handle_pending : PendingPacket → Option PacketCallback → Exec (Broker F) Unit
    unfolding finish
    handle_pending p callback =
        if (p.op == 1)
        then finish callback p
        else if p.op == 2
        then pure tt
        else if p.op == 3
        then finish callback p
        else if p.op == 4
        then pure tt
        else raise value_error

    -- A packet for no chain: of an extension that was sent it alone, or unknown.
    abbrev pub take_single : PendingPacket → Option (Option PacketCallback) → Exec (Broker F) Unit
    take_single p none s = (err value_error, s)
    take_single p (some callback) s =
        handle_pending p callback
          (record s { pending_packet = Dict.remove p.packet_id s.pending_packet })

    abbrev pub take_answer : PendingPacket → Option (PendingChain F) → Exec (Broker F) Unit
    take_answer p none s = take_single p (Dict.lookup p.packet_id s.pending_packet) s
    take_answer p (some c) s = handle_chain p c s

    abbrev pub take_packet : PendingPacket → Bytes → Exec (Broker F) Unit
    take_packet p [] s = (err assertion_error, s)
    take_packet p (b ∷ id) s = take_answer p (Dict.lookup p.packet_id s.pending_chain) s

    unfoldable pub handle_packet : PendingPacket → Exec (Broker F) Unit
    unfolding handle_chain handle_pending
    handle_packet p s = take_packet p p.packet_id s
