-- ===== src/Broker/Termination.antt =====
-- How many answers a chain takes.
use gtools.Prelude.{
  ℕ, zero, suc, ◌≤◌, Bool, true, false, some, inl, inr, ◌≡◌, refl, sym, ap, subst, ◌∙◌, arith,
}
use gtools.Python.Exec.{ok}
use gtools.Python.Struct.{Bytes, Floats}
use gtools.Python.Dict
use gtools.Python.Dict.{Dict, nat_eq, bytes_eq, lookup-insert, beq_refl}
use gtools.Broker.Operands.{Library}
use gtools.Broker.Hashing.{Hashing}
use gtools.Broker.Pending.{PendingPacket, PendingChain, Broker}
use gtools.Broker.Selected.{all_handlers}
use gtools.Broker.Waiting.{waiting}
use gtools.Broker.Replies.{handle_packet}
use gtools.Broker.Chosen.{OneEach}
use gtools.Broker.Progress.{Progressed, IsPassed, handle_packet-Progressed}

module _ {F : Type 0} ⦃fl : Floats F⦄ ⦃lib : Library F⦄ (compensate : Bool) (hash : Hashing F) where
  -- Answers to one chain, each of which the broker took while the chain was not finished.
  pub data Answers (id : Bytes) : ℕ → Broker F → Broker F → Type 0 where
    done : (s : Broker F) → Answers id 0 s s
    answer :
        {n : ℕ} {c : PendingChain F} {s t u : Broker F} (p : PendingPacket)
        → p.packet_id ≡ id
        → IsPassed p
        → Dict.lookup id s.pending_chain ≡ some c
        → c.finished ≡ false
        → handle_packet compensate hash p s ≡ (ok tt, t)
        → Answers id n t u
        → Answers id (suc n) s u

  none_left :
      (id : Bytes) (n : ℕ) (c : PendingChain F) (s t : Broker F)
      → c.finished ≡ true
      → Dict.lookup id s.pending_chain ≡ some c
      → Answers id n s t
      → n ≡ 0
  none_left id zero c s t end found (done _) = refl
  none_left id (suc n) c s t end found (answer p same passed there unfinished took rest) =
      absurd (cc (found, there, end, unfinished))

  -- Where no extension has two blocking handlers whose interests differ in their hash, a chain takes at
  -- most one answer more that passes it on, while it is not finished, than there are blocking handlers
  -- that it has not processed.
  pub Answers-le :
      (id : Bytes) (n : ℕ) (c : PendingChain F) (s t : Broker F)
      → OneEach hash (all_handlers s.extension_mgr.interest_map)
      → Dict.lookup id s.pending_chain ≡ some c
      → Answers id n s t
      → n ≤ suc (waiting hash c.processed_chain (all_handlers s.extension_mgr.interest_map))
  Answers-le id zero c s t one found (done _) = omega arith
  Answers-le id (suc n) c s t one found (answer {t = u} p same passed there unfinished took rest) =
      let (mgr, (k, here, less)) =
        subst (λ i. Progressed hash i c s u) same
          (handle_packet-Progressed compensate hash p c s u one passed
            (ap (λ i. Dict.lookup i s.pending_chain) same ∙ found) took) in
      elim less [
        | inl end ↦ omega (arith, none_left id n k u t end here rest)
        | inr drop ↦ omega (
          arith,
          drop,
          subst (λ m. n ≤ suc (waiting hash k.processed_chain (all_handlers m.interest_map))) mgr
              (Answers-le id n k u t
                (subst (λ m. OneEach hash (all_handlers m.interest_map)) (sym mgr) one) here rest),
        )
      ]
