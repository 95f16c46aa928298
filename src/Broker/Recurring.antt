-- ===== src/Broker/Recurring.antt =====
-- Chains over two blocking interests of one extension, of which the broker remembers the last.
use gtools.Prelude.{
  ℕ, zero, suc, List, [], ◌∷◌, ◌++◌, Bool, true, false, ◌==◌, ==_refl, if◌then◌else◌, some, ◌⊎◌,
  inl, inr, ◌≡◌, ◌≢◌, refl, sym, ap, subst, ◌∙◌, arith,
}
use gtools.Python.Exec.{ok, continue, and_then, ◌>>◌}
use gtools.Python.Struct.{Bytes, Floats}
use gtools.Python.Dict
use gtools.Python.Dict.{Dict, nat_eq, bytes_eq, lookup-insert, beq_refl}
use gtools.Packet.Prepared.{PreparedPacket}
use gtools.Broker.Operands.{Library}
use gtools.Broker.Handler.{ExtensionHandler}
use gtools.Broker.Hashing.{Hashing, hash_interest}
use gtools.Broker.Pending.{
  PendingPacket, PendingChain, Broker, is_blocking, is_processed, unprocessed,
  interested_extensions, from_pending, build_chain, forward_to, forward, set_chain, send,
}
use gtools.Broker.Replies.{chain_op, handle_chain, take_answer, take_packet, handle_packet}
use gtools.Broker.Termination.{Answers, done, answer}

module _ {F : Type 0} ⦃fl : Floats F⦄ ⦃lib : Library F⦄ (compensate : Bool) (hash : Hashing F) where
  -- The chain and the state behind a packet that was forwarded to one handler more.
  abbrev next_chain : PendingChain F → PendingPacket → ExtensionHandler F → ℕ → PendingChain F
  next_chain c p h w = record c {
    chain = [];
    current = record p { interest_id = h.interest.id };
    processed_chain = Dict.insert h.ext.id w c.processed_chain;
  }

  abbrev set_twice :
      Broker F → PendingChain F → PendingPacket → ExtensionHandler F → Dict Bytes (PendingChain F)
  set_twice s c p h =
      Dict.insert p.packet_id
        (record c { chain = []; current = record p { interest_id = h.interest.id } })
        (Dict.insert p.packet_id (record c { chain = []; current = p }) s.pending_chain)

  abbrev next_state : Broker F → PendingChain F → PendingPacket → ExtensionHandler F → ℕ → Broker F
  next_state s c p h w = record s {
    pending_chain = Dict.insert p.packet_id (next_chain c p h w) (set_twice s c p h);
    sent = s.sent ++ (h.ext.id, record p { interest_id = h.interest.id }) ∷ [];
  }

  forward_one :
      (p : PendingPacket) (c : PendingChain F) (s : Broker F) (h : ExtensionHandler F) (w : ℕ)
      → build_chain compensate hash c.processed_chain p s.extension_mgr ≡ ok (h ∷ [])
      → hash_interest hash h.interest ≡ ok w
      → forward compensate hash p.packet_id c p s ≡ (ok tt, next_state s c p h w)
  unfolding forward forward_to
  forward_one p c s h w built hashed =
      ap
        (λ r.
          continue
            (
              r,
              record s {
                pending_chain =
                    Dict.insert p.packet_id (record c { chain = []; current = p }) s.pending_chain;
              },
            )
            (forward_to compensate hash p.packet_id (record c { current = p })))
        built
      ∙ ap
          (λ r.
            continue (r, record s { pending_chain = set_twice s c p h })
              (λ n. do
                set_chain p.packet_id (next_chain c p h n)
                send h.ext.id (record p { interest_id = h.interest.id })))
          hashed

  handle_one :
      (p : PendingPacket) (b : ℕ) (i : Bytes) (c : PendingChain F) (s : Broker F)
      (h : ExtensionHandler F) (w : ℕ)
      → p.packet_id ≡ b ∷ i
      → p.op ≡ 3
      → Dict.lookup p.packet_id s.pending_chain ≡ some c
      → build_chain compensate hash c.processed_chain p s.extension_mgr ≡ ok (h ∷ [])
      → hash_interest hash h.interest ≡ ok w
      → handle_packet compensate hash p s ≡ (ok tt, next_state s c p h w)
  unfolding handle_packet handle_chain
  handle_one p b i c s h w named op found built hashed =
      ap (λ j. take_packet compensate hash p j s) named
      ∙ ap (λ o. take_answer compensate hash p o s) found
      ∙ ap (λ o. chain_op compensate hash o p c s) op
      ∙ forward_one p c s h w built hashed

  other : (m n : ℕ) → m ≢ n → (m == n) ≡ false
  other m n d = ground (arith, d)

  build_chain-unprocessed :
      (p : PendingPacket) (q : PreparedPacket F) (s : Broker F) (d : Dict Bytes ℕ)
      (hs : List (ExtensionHandler F))
      → from_pending compensate p ≡ ok q
      → interested_extensions q s.extension_mgr ≡ ok hs
      → build_chain compensate hash d p s.extension_mgr ≡ unprocessed hash d hs
  unfolding build_chain
  build_chain-unprocessed p q s d hs read shown =
      ap
        (λ r.
          and_then r (λ q. and_then (interested_extensions q s.extension_mgr) (unprocessed hash d)))
        read
      ∙ ap (λ r. and_then r (unprocessed hash d)) shown

  stored :
      {V : Type 0} (k : Bytes) (v : V) (d : Dict Bytes V)
      → Dict.lookup k (Dict.insert k v d) ≡ some v
  stored k v d =
      lookup-insert k k v d ∙ ap (λ b. if b then some v else Dict.lookup k d) (beq_refl k)

  -- Of two blocking handlers of one extension, the one that is not the last is left.
  module _ (a z : ExtensionHandler F) (m n : ℕ) (one : a.ext.id ≡ z.ext.id)
      (blocking : (is_blocking a ≡ true) × (is_blocking z ≡ true))
      (hash_a : hash_interest hash a.interest ≡ ok m)
      (hash_z : hash_interest hash z.interest ≡ ok n) (differ : m ≢ n) where
    after_a :
        (d : Dict Bytes ℕ)
        → Dict.lookup a.ext.id d ≡ some m
        → unprocessed hash d (a ∷ z ∷ []) ≡ ok (z ∷ [])
    unfolding unprocessed is_processed
    after_a d last =
        rw (blocking.0, blocking.1, ← one, last, hash_a, hash_z, ==_refl m, other m n differ) refl

    after_z :
        (d : Dict Bytes ℕ)
        → Dict.lookup a.ext.id d ≡ some n
        → unprocessed hash d (a ∷ z ∷ []) ≡ ok (a ∷ [])
    unfolding unprocessed is_processed
    after_z d last =
        rw
          (
            blocking.0,
            blocking.1,
            ← one,
            last,
            hash_a,
            hash_z,
            ==_refl n,
            other n m (λ e. differ (sym e)),
          )
          refl

    -- Two blocking handlers of one extension, whose interests have different hashes, are those that are
    -- interested in a packet, and one of them was sent it last: for every number there is a run of as
    -- many answers that forward the packet, each taken while the chain is not finished.
    pub Answers-unbounded :
        (p : PendingPacket) (b : ℕ) (i : Bytes) (q : PreparedPacket F)
        → p.packet_id ≡ b ∷ i
        → p.op ≡ 3
        → from_pending compensate p ≡ ok q
        → (k : ℕ) (c : PendingChain F) (s : Broker F)
        → interested_extensions q s.extension_mgr ≡ ok (a ∷ z ∷ [])
        → Dict.lookup p.packet_id s.pending_chain ≡ some c
        → c.finished ≡ false
        → (Dict.lookup a.ext.id c.processed_chain ≡ some m)
          ⊎ (Dict.lookup a.ext.id c.processed_chain ≡ some n)
        → (t : Broker F) × Answers compensate hash p.packet_id k s t
    Answers-unbounded p b i q named op read zero c s shown found unfinished last = (s, done s)
    Answers-unbounded p b i q named op read (suc k) c s shown found unfinished last = elim last [
      | inl first ↦
          let (t, run) =
            Answers-unbounded p b i q named op read k (next_chain c p z n) (next_state s c p z n)
              shown (stored p.packet_id (next_chain c p z n) (set_twice s c p z)) unfinished
              (inr (
                subst (λ j. Dict.lookup a.ext.id (Dict.insert j n c.processed_chain) ≡ some n) one
                  (stored a.ext.id n c.processed_chain))) in
          (
            t,
            answer p refl (inl op) found unfinished
                (handle_one p b i c s z n named op found
                  (build_chain-unprocessed p q s c.processed_chain (a ∷ z ∷ []) read shown
                    ∙ after_a c.processed_chain first)
                  hash_z)
                run,
          )
      | inr second ↦
          let (t, run) =
            Answers-unbounded p b i q named op read k (next_chain c p a m) (next_state s c p a m)
              shown (stored p.packet_id (next_chain c p a m) (set_twice s c p a)) unfinished
              (inl (stored a.ext.id m c.processed_chain)) in
          (
            t,
            answer p refl (inl op) found unfinished
                (handle_one p b i c s a m named op found
                  (build_chain-unprocessed p q s c.processed_chain (a ∷ z ∷ []) read shown
                    ∙ after_z c.processed_chain second)
                  hash_a)
                run,
          )
    ]
