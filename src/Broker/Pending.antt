-- ===== src/Broker/Pending.antt =====
-- The state of the broker: the packets that extensions have in hand, and what was sent.
use gtools.Prelude.{
  ℕ, suc, List, [], ◌∷◌, ◌++◌, Bool, true, false, ◌==◌, if◌then◌else◌, Option, none, some,
}
use gtools.Python.Exec.{Exec, Result, ok, lift, modify, and_then, map_ok, ◌>>=◌, ◌>>◌}
use gtools.Python.Struct.{Bytes, Floats}
use gtools.Python.Dict
use gtools.Python.Dict.{Dict, nat_eq, bytes_eq}
use gtools.Packet.Types.{NetType, tank_packet}
use gtools.Packet.Net.{get_tank}
use gtools.Packet.Prepared.{PreparedPacket, of_bytes}
use gtools.Broker.Interests.{net_interest, tank_interest}
use gtools.Broker.Operands.{Library}
use gtools.Broker.Handler.{ExtensionHandler}
use gtools.Broker.Hashing.{Hashing, hash_interest}
use gtools.Broker.Manager.{ExtensionManager, get_interested_extension}

-- `PendingPacket` of gtools/proto/extension.proto
pub record PendingPacket : Type 0 where
  pub op : ℕ
  pub packet_id : Bytes
  pub buf : Bytes
  pub packet_flags : ℕ
  pub interest_id : ℕ
  pub direction : ℕ
  pub hit_count : ℕ
  pub rtt_ns : ℕ

-- Which functions a `PacketCallback` has.
pub record PacketCallback : Type 0 where
  pub send_to_server : Bool
  pub send_to_client : Bool
  pub any : Bool

-- The calls of these functions.
pub data Called (F : Type 0) : Type 0 where
  to_server to_client to_any : PreparedPacket F → Called F

-- The hash that is stored, if any, against the one that is computed.
abbrev pub matches_hash : Option ℕ → Result ℕ → Result Bool
matches_hash none r = ok false
matches_hash (some n) r = map_ok (λ m. n == m) r

pub record PendingChain (F : Type 0) : Type 0 where
  pub chain : List (ExtensionHandler F)
  pub processed_chain : Dict Bytes ℕ
  pub finished : Bool
  pub current : PendingPacket
  pub cancelled : Bool

-- `sent` and `called` are what `_send` and the callbacks were given, in order; `next` counts the ids
-- that were drawn.
pub record Broker (F : Type 0) : Type 0 where
  pub extension_mgr : ExtensionManager F
  pub pending_chain : Dict Bytes (PendingChain F)
  pub pending_packet : Dict Bytes (Option PacketCallback)
  pub sent : List (Bytes × PendingPacket)
  pub called : List (Called F)
  pub next : ℕ

module _ {F : Type 0} where
  abbrev pub send : Bytes → PendingPacket → Exec (Broker F) Unit
  send id p = modify (λ s. record s { sent = s.sent ++ (id, p) ∷ [] })

  abbrev pub set_chain : Bytes → PendingChain F → Exec (Broker F) Unit
  set_chain id c = modify (λ s. record s { pending_chain = Dict.insert id c s.pending_chain })

  -- `random.randbytes(16)`, whose n-th value is `draw n`
  abbrev pub randbytes : (ℕ → Bytes) → Exec (Broker F) Bytes
  randbytes draw s = (ok (draw s.next), record s { next = suc s.next })

  abbrev pub is_blocking : ExtensionHandler F → Bool
  is_blocking h = h.interest.blocking_mode == 1

  module _ (hash : Hashing F) where
    -- `ext.id in processed_chain and processed_chain[ext.id] == hash_interest(interest)`
    unfoldable pub is_processed : Dict Bytes ℕ → ExtensionHandler F → Result Bool
    unfolding hash_interest
    is_processed d h = matches_hash (Dict.lookup h.ext.id d) (hash_interest hash h.interest)

    -- The blocking handlers that were not processed.
    unfoldable pub unprocessed :
        Dict Bytes ℕ → List (ExtensionHandler F) → Result (List (ExtensionHandler F))
    unfolding is_processed
    unprocessed d [] = ok []
    unprocessed d (h ∷ hs) =
        let rest = unprocessed d hs in
        if is_blocking h
        then and_then (is_processed d h) (λ b. map_ok (λ ks. if b then ks else h ∷ ks) rest)
        else rest

  module _ ⦃fl : Floats F⦄ ⦃lib : Library F⦄ where
    abbrev pub specific_for :
        PreparedPacket F → ExtensionManager F → NetType → Result (List (ExtensionHandler F))
    specific_for p s type = elim type [
      | tank_packet ↦
          and_then (get_tank p.packet) (λ t. get_interested_extension (tank_interest t.type) p s)
      | _ ↦ ok []
    ]

    -- The handlers of the specific type of a tank packet, which are found before all others.
    unfoldable pub tank_specific :
        PreparedPacket F → ExtensionManager F → Result (List (ExtensionHandler F))
    unfolding get_interested_extension tank_interest
    tank_specific p s = specific_for p s p.packet.type

    -- `_get_interested_extension` run to its end
    unfoldable pub interested_extensions :
        PreparedPacket F → ExtensionManager F → Result (List (ExtensionHandler F))
    unfolding net_interest tank_specific get_interested_extension
    interested_extensions p s = and_then (net_interest p.packet.type) (λ i.
        and_then (tank_specific p s)
          (λ specific. map_ok (λ generic. generic ++ specific) (get_interested_extension i p s)))

    module _ (compensate : Bool) where
      -- `PreparedPacket.from_pending`
      unfoldable pub from_pending : PendingPacket → Result (PreparedPacket F)
      from_pending p = of_bytes compensate p.buf p.direction p.packet_flags

      module _ (hash : Hashing F) where
        -- `_build_chain` of `_forward`. Where several handlers raise, it is not modelled which of them
        -- is asked first; the handlers found before a raise are not read again.
        unfoldable pub build_chain :
            Dict Bytes ℕ → PendingPacket → ExtensionManager F → Result (List (ExtensionHandler F))
        unfolding from_pending interested_extensions unprocessed
        build_chain d new s =
            and_then (from_pending new)
              (λ p. and_then (interested_extensions p s) (unprocessed hash d))

        -- The end of `_forward`, with the chain that was built.
        unfoldable pub forward_to :
            Bytes → PendingChain F → List (ExtensionHandler F) → Exec (Broker F) Unit
        unfolding hash_interest
        forward_to id c [] = set_chain id (record c { chain = []; finished = true })
        forward_to id c (h ∷ rest) =
            let new = record c.current { interest_id = h.interest.id } in
            do
              set_chain id (record c { chain = rest; current = new })
              n ← lift (hash_interest hash h.interest)
              set_chain id (record c {
                chain = rest;
                current = new;
                processed_chain = Dict.insert h.ext.id n c.processed_chain;
              })
              send h.ext.id new

        unfoldable pub forward : Bytes → PendingChain F → PendingPacket → Exec (Broker F) Unit
        unfolding build_chain forward_to
        forward id c new = do
          set_chain id (record c { current = new; chain = [] })
          hs ← (λ s. (build_chain c.processed_chain new s.extension_mgr, s))
          forward_to id (record c { current = new }) hs
