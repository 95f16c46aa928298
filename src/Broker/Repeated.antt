-- ===== src/Broker/Repeated.antt =====
-- Repeated answers to a packet that was sent without waiting.
use gtools.Prelude.{
  ℕ, [], ◌∷◌, ◌++◌, Bool, ◌&&◌, ◌==◌, if◌then◌else◌, Option, none, some, choose, ◌≡◌, refl, sym, ap,
  subst, ◌∙◌,
}
use gtools.Python.Exec.{Exec, Result, ok, err, value_error, continue, pure, ◌>>◌, modify}
use gtools.Python.Struct.{Bytes, Floats}
use gtools.Python.Dict
use gtools.Python.Dict.{Dict, bytes_eq, lookup-remove, beq_refl}
use gtools.Packet.Prepared.{PreparedPacket}
use gtools.Broker.Operands.{Library}
use gtools.Broker.Hashing.{Hashing}
use gtools.Broker.Pending.{
  PendingPacket, PacketCallback, Called, to_server, to_client, to_any, Broker, from_pending,
}
use gtools.Broker.Replies.{
  call_with, finish, handle_pending, take_single, take_answer, take_packet, handle_packet,
}

module _ {F : Type 0} where
  -- What is pending is left as it was.
  abbrev IsKept : Broker F → Result (Unit {0}) × Broker F → Type 0
  IsKept s r = (r.1.pending_chain ≡ s.pending_chain) × (r.1.pending_packet ≡ s.pending_packet)

  -- An action that keeps what is pending, from whatever state.
  abbrev Keeps : Exec (Broker F) (Unit {0}) → Type 0
  Keeps m = (s : Broker F) → IsKept s (m s)

  Keeps-then : (m n : Exec (Broker F) (Unit {0})) → Keeps m → Keeps n → Keeps (m >> n)
  Keeps-then m n k l s = go (m s) (k s)
    where
      go : (r : Result (Unit {0}) × Broker F) → IsKept s r → IsKept s (continue r (λ _. n))
      go (ok x, t) h = ((l t).0 ∙ h.0, (l t).1 ∙ h.1)
      go (err e, t) h = h

  Keeps-pure : Keeps (pure tt)
  Keeps-pure s = (refl, refl)

module _ {F : Type 0} ⦃fl : Floats F⦄ ⦃lib : Library F⦄ (compensate : Bool) (hash : Hashing F) where
  call_with-Keeps :
      (to : PreparedPacket F → Called F) (p : PendingPacket)
      → Keeps (call_with compensate hash to p)
  call_with-Keeps to p s = go (from_pending compensate p)
    where
      go :
          (r : Result (PreparedPacket F))
          → IsKept s
              (continue (r, s) (λ q. modify (λ s. record s { called = s.called ++ to q ∷ [] })))
      go (ok q) = (refl, refl)
      go (err e) = (refl, refl)

  finish-Keeps :
      (o : Option PacketCallback) (p : PendingPacket) → Keeps (finish compensate hash o p)
  unfolding finish
  finish-Keeps none p = Keeps-pure
  finish-Keeps (some c) p =
      Keeps-then
        (if (p.direction == 1) && c.send_to_server
          then call_with compensate hash to_server p
          else if (p.direction == 2) && c.send_to_client
          then call_with compensate hash to_client p
          else pure tt)
        (if c.any then call_with compensate hash to_any p else pure tt)
        (choose Keeps ((p.direction == 1) && c.send_to_server) (call_with-Keeps to_server p) (
          choose Keeps ((p.direction == 2) && c.send_to_client) (call_with-Keeps to_client p)
            Keeps-pure))
        (choose Keeps c.any (call_with-Keeps to_any p) Keeps-pure)

  handle_pending-Keeps :
      (p : PendingPacket) (o : Option PacketCallback) → Keeps (handle_pending compensate hash p o)
  unfolding handle_pending
  handle_pending-Keeps p o = choose Keeps (p.op == 1) (finish-Keeps o p) (
      choose Keeps (p.op == 2) Keeps-pure (
        choose Keeps (p.op == 3) (finish-Keeps o p)
          (choose Keeps (p.op == 4) Keeps-pure (λ s. (refl, refl)))))

  unknown_id :
      (q : PendingPacket) (b : ℕ) (i : Bytes) (s : Broker F)
      → q.packet_id ≡ b ∷ i
      → Dict.lookup q.packet_id s.pending_chain ≡ none
      → Dict.lookup q.packet_id s.pending_packet ≡ none
      → handle_packet compensate hash q s ≡ (err value_error, s)
  unfolding handle_packet
  unknown_id q b i s named no_chain no_packet =
      ap (λ j. take_packet compensate hash q j s) named
      ∙ ap (λ o. take_answer compensate hash q o s) no_chain
      ∙ ap (λ o. take_single compensate hash q o s) no_packet

  -- Behind a first answer to a packet that no chain waits for, whatever the answer and whether it raises,
  -- each further answer under its id raises ValueError and changes nothing.
  pub handle_packet_repeated :
      (p q : PendingPacket) (b : ℕ) (i : Bytes) (callback : Option PacketCallback) (s : Broker F)
      → p.packet_id ≡ b ∷ i
      → q.packet_id ≡ b ∷ i
      → Dict.lookup p.packet_id s.pending_chain ≡ none
      → Dict.lookup p.packet_id s.pending_packet ≡ some callback
      → let t = (handle_packet compensate hash p s).1 in
        handle_packet compensate hash q t ≡ (err value_error, t)
  unfolding handle_packet
  handle_packet_repeated p q b i callback s named again no_chain waits =
      subst (λ t. handle_packet compensate hash q t ≡ (err value_error, t)) (sym taken)
        (unknown_id q b i (handle_pending compensate hash p callback popped).1 again
          (ap (Dict.lookup q.packet_id) kept.0
            ∙ ap (λ j. Dict.lookup j s.pending_chain) same
            ∙ no_chain)
          (ap (Dict.lookup q.packet_id) kept.1
            ∙ ap (λ j. Dict.lookup j popped.pending_packet) same
            ∙ lookup-remove p.packet_id p.packet_id s.pending_packet
            ∙ ap (λ c. if c then none else Dict.lookup p.packet_id s.pending_packet)
                (beq_refl p.packet_id)))
    where
      same : q.packet_id ≡ p.packet_id
      same = again ∙ sym named

      popped : Broker F
      popped = record s { pending_packet = Dict.remove p.packet_id s.pending_packet }

      kept : IsKept popped (handle_pending compensate hash p callback popped)
      kept = handle_pending-Keeps p callback popped

      taken :
          (handle_packet compensate hash p s).1
          ≡ (handle_pending compensate hash p callback popped).1
      taken =
          ap (λ j. (take_packet compensate hash p j s).1) named
          ∙ ap (λ o. (take_answer compensate hash p o s).1) no_chain
          ∙ ap (λ o. (take_single compensate hash p o s).1) waits
