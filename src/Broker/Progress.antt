-- ===== src/Broker/Progress.antt =====
-- What an answer that passes a chain on does to the chain and to the count.
use gtools.Prelude.{
  ℕ, ◌<◌, List, [], ◌∷◌, ◌++◌, Bool, true, if◌then◌else◌, some, ◌⊎◌, inl, inr, ◌≡◌, refl, ap, subst,
  ◌∙◌,
}
use gtools.Python.Exec.{◌>>◌, Result, ok, err, continue}
use gtools.Python.Struct.{Bytes, Floats}
use gtools.Python.Dict
use gtools.Python.Dict.{Dict, nat_eq, bytes_eq, lookup-insert, beq_refl}
use gtools.Broker.Operands.{Library}
use gtools.Broker.Handler.{ExtensionHandler}
use gtools.Broker.Hashing.{Hashing, hash_interest}
use gtools.Broker.Pending.{
  PendingPacket, PendingChain, Broker, build_chain, forward_to, forward, set_chain, send,
}
use gtools.Broker.Selected.{all_handlers}
use gtools.Broker.Waiting.{digest_ok, waiting, processed_now}
use gtools.Broker.Replies.{hit, chain_op, handle_chain, take_answer, take_packet, handle_packet}
use gtools.Broker.Chosen.{OneEach, build_chain-drops}

-- An answer of an extension that passes a chain on.
abbrev pub IsPassed : PendingPacket → Type 0
IsPassed p = (p.op ≡ 3) ⊎ (p.op ≡ 4)

module _ {F : Type 0} (hash : Hashing F) where
  -- An answer either ends the chain or takes a handler out of the count.
  abbrev pub Progressed : Bytes → PendingChain F → Broker F → Broker F → Type 0
  Progressed id c s t =
      (t.extension_mgr ≡ s.extension_mgr)
      × ((k : PendingChain F) × (Dict.lookup id t.pending_chain ≡ some k)
          × ((k.finished ≡ true)
              ⊎ (waiting hash k.processed_chain (all_handlers s.extension_mgr.interest_map)
                  < waiting hash c.processed_chain (all_handlers s.extension_mgr.interest_map))))

module _ {F : Type 0} ⦃fl : Floats F⦄ ⦃lib : Library F⦄ (compensate : Bool) (hash : Hashing F) where
  lookup-set :
      (id : Bytes) (k : PendingChain F) (d : Dict Bytes (PendingChain F))
      → Dict.lookup id (Dict.insert id k d) ≡ some k
  lookup-set id k d =
      lookup-insert id id k d ∙ ap (λ b. if b then some k else Dict.lookup id d) (beq_refl id)

  forward-Progressed :
      (id : Bytes) (c : PendingChain F) (new : PendingPacket) (s t : Broker F)
      → OneEach hash (all_handlers s.extension_mgr.interest_map)
      → forward compensate hash id c new s ≡ (ok tt, t)
      → Progressed hash id c s t
  unfolding forward forward_to
  forward-Progressed id c new s t one e =
      go (build_chain compensate hash c.processed_chain new s.extension_mgr)
        (build_chain-drops compensate hash c.processed_chain new s.extension_mgr one) e
    where
      start : Broker F
      start = record s {
        pending_chain = Dict.insert id (record c { current = new; chain = [] }) s.pending_chain;
      }

      reached :
          (k : PendingChain F) (d : Dict Bytes (PendingChain F))
          (sent : List (Bytes × PendingPacket))
          → record start { pending_chain = Dict.insert id k d; sent = sent } ≡ t
          → (k.finished ≡ true)
            ⊎ (waiting hash k.processed_chain (all_handlers s.extension_mgr.interest_map)
                < waiting hash c.processed_chain (all_handlers s.extension_mgr.interest_map))
          → Progressed hash id c s t
      reached k d sent same less =
          subst (Progressed hash id c s) same (refl, (k, lookup-set id k d, less))

      go :
          (r : Result (List (ExtensionHandler F)))
          → ((h : ExtensionHandler F) (rest : List (ExtensionHandler F))
              → r ≡ ok (h ∷ rest)
              → waiting hash
                  (processed_now hash c.processed_chain h)
                  (all_handlers s.extension_mgr.interest_map)
                < waiting hash c.processed_chain (all_handlers s.extension_mgr.interest_map))
          → continue (r, start) (forward_to compensate hash id (record c { current = new }))
            ≡ (ok tt, t)
          → Progressed hash id c s t
      go (err x) drop e = absurd (cc e)
      go (ok []) drop e =
          reached (record c { current = new; chain = []; finished = true }) start.pending_chain
            s.sent (cc e) (inl refl)
      go (ok (h ∷ rest)) drop e = hashed (hash_interest hash h.interest) refl e
        where
          new_id : PendingPacket
          new_id = record new { interest_id = h.interest.id }

          taken : PendingChain F
          taken = record c { chain = rest; current = new_id }

          hashed :
              (r : Result ℕ)
              → hash_interest hash h.interest ≡ r
              → continue
                  (r, record start { pending_chain = Dict.insert id taken start.pending_chain })
                  (λ n. do
                    set_chain id (record taken {
                      processed_chain = Dict.insert h.ext.id n c.processed_chain;
                    })
                    send h.ext.id new_id)
                ≡ (ok tt, t)
              → Progressed hash id c s t
          hashed (err x) q e = absurd (cc e)
          hashed (ok n) q e =
              reached (record taken { processed_chain = Dict.insert h.ext.id n c.processed_chain })
                (Dict.insert id taken start.pending_chain) (s.sent ++ (h.ext.id, new_id) ∷ [])
                (cc e)
                (inr (
                  subst
                    (λ m.
                      waiting hash (Dict.insert h.ext.id m c.processed_chain)
                        (all_handlers s.extension_mgr.interest_map)
                      < waiting hash c.processed_chain (all_handlers s.extension_mgr.interest_map))
                    (digest_ok hash h.interest n q) (drop h rest refl)))

  pub handle_packet-Progressed :
      (p : PendingPacket) (c : PendingChain F) (s t : Broker F)
      → OneEach hash (all_handlers s.extension_mgr.interest_map)
      → IsPassed p
      → Dict.lookup p.packet_id s.pending_chain ≡ some c
      → handle_packet compensate hash p s ≡ (ok tt, t)
      → Progressed hash p.packet_id c s t
  unfolding handle_packet handle_chain
  handle_packet-Progressed p c s t one passed found e = named p.packet_id e
    where
      op :
          {n : ℕ}
          → p.op ≡ n
          → handle_chain compensate hash p c s ≡ (ok tt, t)
          → chain_op compensate hash n p c s ≡ (ok tt, t)
      op n e = subst (λ n. chain_op compensate hash n p c s ≡ (ok tt, t)) n e

      chain : handle_chain compensate hash p c s ≡ (ok tt, t) → Progressed hash p.packet_id c s t
      chain e = elim passed [
        | inl three ↦ forward-Progressed p.packet_id c p s t one (op three e)
        | inr four ↦
            forward-Progressed p.packet_id (record c { current = hit p c }) (hit p c) s t one
              (op four e)
      ]

      named :
          (id : Bytes)
          → take_packet compensate hash p id s ≡ (ok tt, t)
          → Progressed hash p.packet_id c s t
      named [] e = absurd (cc e)
      named (b ∷ id) e = chain (subst (λ o. take_answer compensate hash p o s ≡ (ok tt, t)) found e)
