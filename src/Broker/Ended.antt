-- ===== src/Broker/Ended.antt =====
-- How an answer that ends a chain comes back to `process_event`.
use gtools.Prelude.{
  ◌⊎◌, inl, inr, subst, ℕ, ◌-◌, ◌≤◌, leb, ◌∷◌, Bool, true, ◌==◌, if◌then◌else◌, some, ◌≡◌, refl,
  sym, ap, ◌∙◌, arith,
}
use gtools.Python.Exec.{ok}
use gtools.Python.Struct.{Bytes, Floats}
use gtools.Python.Dict
use gtools.Python.Dict.{
  Dict, nat_eq, bytes_eq, lookup-insert, lookup-remove, remove-insert, beq_refl,
}
use gtools.Broker.Operands.{Library}
use gtools.Broker.Hashing.{Hashing}
use gtools.Broker.Pending.{PendingPacket, PendingChain, Broker}
use gtools.Broker.Events.{finish_event}
use gtools.Broker.Replies.{hit, chain_op, handle_chain, take_answer, take_packet, handle_packet}

leb-true : (a b : ℕ) → a ≤ b → leb a b ≡ true
leb-true a b h = ground (arith, h)

module _ {F : Type 0} where
  -- The packet and the mark that an answer with this `op` leaves.
  abbrev pub outcome : ℕ → PendingPacket → PendingChain F → PendingPacket × Bool
  outcome op p c = if op == 1 then (p, c.cancelled) else (hit p c, true)

module _ {F : Type 0} ⦃fl : Floats F⦄ ⦃lib : Library F⦄ (compensate : Bool) (hash : Hashing F) where
  -- What `process_event` returns after an answer, and what is left in the dictionary of chains.
  abbrev pub Returns : ℕ → PendingPacket × Bool → PendingPacket → Broker F → Type 0
  Returns now out answer s =
      (t : Broker F) × (u : Broker F) × (handle_packet compensate hash answer s ≡ (ok tt, t))
      × (finish_event now answer.packet_id t
          ≡ some (ok (record out.0 { rtt_ns = now - out.0.rtt_ns }, out.1), u))
      × (u.pending_chain ≡ Dict.remove answer.packet_id s.pending_chain)

  finish_event-stored :
      (id : Bytes) (k : PendingChain F) (s : Broker F) (now : ℕ)
      → k.finished ≡ true
      → k.current.rtt_ns ≤ now
      → finish_event now id (record s { pending_chain = Dict.insert id k s.pending_chain })
        ≡ some (
          ok (record k.current { rtt_ns = now - k.current.rtt_ns }, k.cancelled),
          record s { pending_chain = Dict.remove id s.pending_chain },
        )
  unfolding finish_event
  finish_event-stored id k s now woken early =
      rw
        (
          lookup-insert id id k s.pending_chain,
          beq_refl id,
          leb-true k.current.rtt_ns now early,
          remove-insert id k s.pending_chain,
          woken,
        )
        refl

  ended :
      (n : ℕ) (p : PendingPacket) (b : ℕ) (i : Bytes) (c k : PendingChain F) (s : Broker F)
      (now : ℕ)
      → p.packet_id ≡ b ∷ i
      → Dict.lookup p.packet_id s.pending_chain ≡ some c
      → p.op ≡ n
      → chain_op compensate hash n p c s
        ≡ (ok tt, record s { pending_chain = Dict.insert p.packet_id k s.pending_chain })
      → k.finished ≡ true
      → k.current.rtt_ns ≤ now
      → Returns now (k.current, k.cancelled) p s
  unfolding handle_packet handle_chain
  ended n p b i c k s now named found op stored woken early = (
    record s { pending_chain = Dict.insert p.packet_id k s.pending_chain },
    record s { pending_chain = Dict.remove p.packet_id s.pending_chain },
    ap (λ j. take_packet compensate hash p j s) named
        ∙ ap (λ o. take_answer compensate hash p o s) found
        ∙ ap (λ o. chain_op compensate hash o p c s) op
        ∙ stored,
    finish_event-stored p.packet_id k s now woken early,
    refl,
  )

  -- An answer that finishes a waiting chain, or cancels it, is taken without an error. Behind it the
  -- wait of `process_event` ends: at a time not before that of the packet, it returns the answered packet
  -- with the mark of the chain, or the current packet as cancelled, with the time that passed, and the
  -- chain is gone.
  pub finish_event-handle_packet :
      (p : PendingPacket) (b : ℕ) (i : Bytes) (c : PendingChain F) (s : Broker F) (now : ℕ)
      → p.packet_id ≡ b ∷ i
      → Dict.lookup p.packet_id s.pending_chain ≡ some c
      → (p.op ≡ 1) ⊎ (p.op ≡ 2)
      → (outcome p.op p c).0.rtt_ns ≤ now
      → Returns now (outcome p.op p c) p s
  finish_event-handle_packet p b i c s now named found (inl one) early =
      subst (λ n. Returns now (outcome n p c) p s) (sym one)
        (ended 1 p b i c (record c { current = p; finished = true }) s now named found one refl refl
          (subst (λ n. (outcome n p c).0.rtt_ns ≤ now) one early))
  finish_event-handle_packet p b i c s now named found (inr two) early =
      subst (λ n. Returns now (outcome n p c) p s) (sym two)
        (ended 2 p b i c (record c { current = hit p c; cancelled = true; finished = true }) s now
          named found two refl refl (subst (λ n. (outcome n p c).0.rtt_ns ≤ now) two early))
