-- ===== src/Broker/Scheduler.antt =====
-- `PacketScheduler` of broker.py: packets that extensions push are played with the spacing of their
-- time stamps.
use gtools.Prelude.{
  ℕ, suc, ◌+◌, List, [], ◌∷◌, ◌++◌, Bool, true, false, ◌&&◌, ◌||◌, ◌==◌, ltb, if◌then◌else◌, Option,
  none, some,
}
use gtools.Python.Exec.{Exec, lift, modify, ◌>>=◌}
use gtools.Python.Struct.{Floats}
use gtools.Packet.Prepared.{PreparedPacket}
use gtools.Broker.Operands.{Library}
use gtools.Broker.Pending.{PendingPacket, from_pending}

-- An entry of the heap: the time stamp, the number of the push, the packet.
pub record Entry : Type 0 where
  pub stamp : ℕ
  pub seq : ℕ
  pub packet : PendingPacket

-- `heap` is what the standard library's `heapq` keeps. The arrangement of its list is not modelled, as the
-- class reads only `_heap[0]` and `heappop`, which are the smallest entry: the entries stand here in the
-- order in which they are given back. `out` is what the out queue was given.
pub record PacketScheduler (F : Type 0) : Type 0 where
  pub heap : List Entry
  pub seq : ℕ
  pub first_src_ts_ns : Option ℕ
  pub playback_start_wall_ns : ℕ
  pub stopped : Bool
  pub out : List (PreparedPacket F)

-- The order of tuples, by which `heapq` compares; no two entries have one number.
abbrev pub before : Entry → Entry → Bool
before a b = ltb a.stamp b.stamp || ((a.stamp == b.stamp) && ltb a.seq b.seq)

-- `heapq.heappush`
unfoldable pub heappush : Entry → List Entry → List Entry
heappush e [] = e ∷ []
heappush e (f ∷ fs) = let rest = heappush e fs in if before e f then e ∷ f ∷ fs else f ∷ rest

module _ {F : Type 0} where
  abbrev pub new_scheduler : PacketScheduler F
  new_scheduler = record {
    heap = [];
    seq = 0;
    first_src_ts_ns = none;
    playback_start_wall_ns = 0;
    stopped = false;
    out = [];
  }

  -- The sign to stop; the thread leaves its loop when it sees it.
  abbrev pub stop_playing : PacketScheduler F → PacketScheduler F
  stop_playing s = record s { stopped = true }

  -- `heapq.heappop`, with the entries that are left.
  abbrev pub pop_first : List Entry → PacketScheduler F → PacketScheduler F
  pop_first rest s = record s { heap = rest }

  module _ ⦃fl : Floats F⦄ ⦃lib : Library F⦄ (compensate : Bool) where
    unfoldable pub put_pending : PendingPacket → Exec (PacketScheduler F) Unit
    unfolding from_pending
    put_pending p = do
      q ← lift (from_pending compensate p)
      modify (λ s. record s { out = s.out ++ q ∷ [] })

    unfoldable pub push : PendingPacket → Exec (PacketScheduler F) Unit
    unfolding put_pending heappush
    push p =
        if p.rtt_ns == 0
        then put_pending p
        else modify (λ s. record s {
          seq = suc s.seq;
          heap = heappush (record { stamp = p.rtt_ns; seq = s.seq; packet = p }) s.heap;
        })

    -- `_put`, with whatever it raises thrown away.
    abbrev pub put_caught : PendingPacket → PacketScheduler F → PacketScheduler F
    put_caught p s = (put_pending p s).1

    -- One round of the loop at a time of the clock, if something is in the heap: the first packet starts
    -- the playback, the others wait for their offset from it.
    abbrev pub play : ℕ → Entry → List Entry → Option ℕ → PacketScheduler F → PacketScheduler F
    play now e rest none s =
        put_caught e.packet (record (pop_first rest s) {
          first_src_ts_ns = some e.stamp;
          playback_start_wall_ns = now;
        })
    play now e rest (some first) s =
        if ltb (now + first) (s.playback_start_wall_ns + e.stamp)
        then s
        else put_caught e.packet (pop_first rest s)

    abbrev pub play_heap : ℕ → List Entry → PacketScheduler F → PacketScheduler F
    play_heap now [] s = s
    play_heap now (e ∷ rest) s = play now e rest s.first_src_ts_ns s

    -- A round of `_run`, which ends when the scheduler is stopped.
    unfoldable pub run_round : ℕ → PacketScheduler F → PacketScheduler F
    unfolding put_pending
    run_round now s = if s.stopped then s else play_heap now s.heap s
