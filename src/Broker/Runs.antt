-- ===== src/Broker/Runs.antt =====
-- The runs of the scheduler, and what they keep.
use gtools.Prelude.{
  ℕ, suc, ◌+◌, drop, length, drop-append_length, append-nil, subst, sym, ap, List, [], ◌∷◌, ◌++◌,
  Bool, true, false, ◌==◌, ltb, if◌then◌else◌, Option, none, some, ◌≡◌, refl,
}
use gtools.Python.Exec.{Result, ok, err, continue, modify}
use gtools.Python.Struct.{Floats}
use gtools.Packet.Prepared.{PreparedPacket}
use gtools.Broker.Operands.{Library}
use gtools.Broker.Pending.{PendingPacket, from_pending}
use gtools.Broker.Scheduler.{
  Entry, PacketScheduler, heappush, new_scheduler, stop_playing, pop_first, put_pending, push, play,
  play_heap, run_round,
}

drop-length : {A : Type 0} (xs : List A) → drop (length xs) xs ≡ []
drop-length [] = refl
drop-length (x ∷ xs) = drop-length xs

module _ {F : Type 0} where
  abbrev pub stamped : PendingPacket → PacketScheduler F → Entry
  stamped p s = record { stamp = p.rtt_ns; seq = s.seq; packet = p }

  abbrev pub queued : PendingPacket → PacketScheduler F → PacketScheduler F
  queued p s = record s { seq = suc s.seq; heap = heappush (stamped p s) s.heap }

  -- A playback that starts with e.
  abbrev pub started : ℕ → Entry → List Entry → PacketScheduler F → PacketScheduler F
  started now e rest s = record (pop_first rest s) {
    first_src_ts_ns = some e.stamp;
    playback_start_wall_ns = now;
  }

  -- What is sent for a packet: nothing where it is no packet.
  abbrev pub delivered : Result (PreparedPacket F) → List (PreparedPacket F)
  delivered (ok q) = q ∷ []
  delivered (err e) = []

  -- The packets in the out queue behind the first n, with the time at which they were seen.
  abbrev pub seen_at : ℕ → List (PreparedPacket F) → List (ℕ × PreparedPacket F)
  seen_at now [] = []
  seen_at now (q ∷ qs) = (now, q) ∷ seen_at now qs

  module _ ⦃fl : Floats F⦄ ⦃lib : Library F⦄ (compensate : Bool) where
    -- What the callers and the thread of a scheduler do, one after another: the pushed packets, the last
    -- first, and what an observer of the out queue sees to come of the rounds, with the time of each.
    pub data Run
        : List PendingPacket → List (ℕ × PreparedPacket F) → PacketScheduler F → Type 0 where
      start : Run [] [] new_scheduler
      pushed :
          {ps : List PendingPacket} {seen : List (ℕ × PreparedPacket F)} {s : PacketScheduler F}
          (p : PendingPacket)
          → Run ps seen s
          → Run (p ∷ ps) seen ((push compensate p s).1)
      round :
          {ps : List PendingPacket} {seen : List (ℕ × PreparedPacket F)} {s : PacketScheduler F}
          (now : ℕ)
          → Run ps seen s
          → Run ps
              (seen_at now (drop (length s.out) (run_round compensate now s).out) ++ seen)
              (run_round compensate now s)
      halted :
          {ps : List PendingPacket} {seen : List (ℕ × PreparedPacket F)} {s : PacketScheduler F}
          → Run ps seen s
          → Run ps seen (stop_playing s)

    -- What is sent for a pending packet.
    abbrev pub sent_for : PendingPacket → List (PreparedPacket F)
    sent_for p = delivered (from_pending compensate p)

    abbrev pub with_sent : PendingPacket → PacketScheduler F → PacketScheduler F
    with_sent p s = record s { out = s.out ++ sent_for p }

    put_pending_lem :
        (p : PendingPacket) (s : PacketScheduler F) → (put_pending compensate p s).1 ≡ with_sent p s
    unfolding put_pending
    put_pending_lem p s = go (from_pending compensate p)
      where
        go :
            (r : Result (PreparedPacket F))
            → (continue (r, s) (λ q. modify (λ s. record s { out = s.out ++ q ∷ [] }))).1
              ≡ record s { out = s.out ++ delivered r }
        go (ok q) = refl
        go (err e) = ap (λ o. record s { out = o }) (sym (append-nil s.out))

    -- A property of the pushed packets, of what was seen and of the state, that each change keeps.
    pub record Keeps
        (J : List PendingPacket → List (ℕ × PreparedPacket F) → PacketScheduler F → Type 0)
        : Type 0 where
      pub on_stop :
          (ps : List PendingPacket) (seen : List (ℕ × PreparedPacket F)) (s : PacketScheduler F)
          → J ps seen s
          → J ps seen (stop_playing s)
      pub on_unstamped :
          (ps : List PendingPacket) (seen : List (ℕ × PreparedPacket F)) (s : PacketScheduler F)
          (p : PendingPacket)
          → (p.rtt_ns == 0) ≡ true
          → J ps seen s
          → J (p ∷ ps) seen (with_sent p s)
      pub on_queued :
          (ps : List PendingPacket) (seen : List (ℕ × PreparedPacket F)) (s : PacketScheduler F)
          (p : PendingPacket)
          → (p.rtt_ns == 0) ≡ false
          → J ps seen s
          → J (p ∷ ps) seen (queued p s)
      pub on_started :
          (ps : List PendingPacket) (seen : List (ℕ × PreparedPacket F)) (s : PacketScheduler F)
          (now : ℕ) (e : Entry) (rest : List Entry)
          → s.heap ≡ e ∷ rest
          → s.first_src_ts_ns ≡ none
          → J ps seen s
          → J ps
              (seen_at now (sent_for e.packet) ++ seen)
              (with_sent e.packet (started now e rest s))
      pub on_played :
          (ps : List PendingPacket) (seen : List (ℕ × PreparedPacket F)) (s : PacketScheduler F)
          (now first : ℕ) (e : Entry) (rest : List Entry)
          → s.heap ≡ e ∷ rest
          → s.first_src_ts_ns ≡ some first
          → ltb (now + first) (s.playback_start_wall_ns + e.stamp) ≡ false
          → J ps seen s
          → J ps (seen_at now (sent_for e.packet) ++ seen) (with_sent e.packet (pop_first rest s))

    module _ {J : List PendingPacket → List (ℕ × PreparedPacket F) → PacketScheduler F → Type 0}
        (keeps : Keeps J) where
      push-kept :
          (ps : List PendingPacket) (seen : List (ℕ × PreparedPacket F)) (p : PendingPacket)
          (s : PacketScheduler F)
          → J ps seen s
          → J (p ∷ ps) seen ((push compensate p s).1)
      unfolding push
      push-kept ps seen p s j = go (p.rtt_ns == 0) refl
        where
          go :
              (b : Bool)
              → (p.rtt_ns == 0) ≡ b
              → J (p ∷ ps) seen (((if b then put_pending compensate p else modify (queued p)) s).1)
          go true e =
              subst (J (p ∷ ps) seen) (sym (put_pending_lem p s))
                (keeps.on_unstamped ps seen s p e j)
          go false e = keeps.on_queued ps seen s p e j

      -- What is kept when the state after a round is t.
      After :
          List PendingPacket
          → List (ℕ × PreparedPacket F)
          → ℕ
          → PacketScheduler F
          → PacketScheduler F
          → Type 0
      After ps seen now s t = J ps (seen_at now (drop (length s.out) t.out) ++ seen) t

      unchanged :
          (ps : List PendingPacket) (seen : List (ℕ × PreparedPacket F)) (now : ℕ)
          (s : PacketScheduler F)
          → J ps seen s
          → After ps seen now s s
      unfolding After
      unchanged ps seen now s j =
          subst (λ qs. J ps (seen_at now qs ++ seen) s) (sym (drop-length s.out)) j

      sent :
          (ps : List PendingPacket) (seen : List (ℕ × PreparedPacket F)) (now : ℕ)
          (s t : PacketScheduler F) (p : PendingPacket)
          → t.out ≡ s.out
          → J ps (seen_at now (sent_for p) ++ seen) (with_sent p t)
          → After ps seen now s (put_pending compensate p t).1
      unfolding After
      sent ps seen now s t p same j =
          subst (λ u. J ps (seen_at now (drop (length s.out) u.out) ++ seen) u)
            (sym (put_pending_lem p t))
            (subst (λ qs. J ps (seen_at now qs ++ seen) (with_sent p t))
              (sym (drop-append_length t.out (sent_for p) (length s.out) (ap length (sym same)))) j)

      play-kept :
          (ps : List PendingPacket) (seen : List (ℕ × PreparedPacket F)) (now : ℕ) (e : Entry)
          (rest : List Entry) (s : PacketScheduler F)
          → s.heap ≡ e ∷ rest
          → J ps seen s
          → After ps seen now s (play compensate now e rest s.first_src_ts_ns s)
      play-kept ps seen now e rest s front j = go s.first_src_ts_ns refl
        where
          due :
              (first : ℕ) (b : Bool)
              → s.first_src_ts_ns ≡ some first
              → ltb (now + first) (s.playback_start_wall_ns + e.stamp) ≡ b
              → After ps seen now s
                  (if b then s else (put_pending compensate e.packet (pop_first rest s)).1)
          due first true q w = unchanged ps seen now s j
          due first false q w =
              sent ps seen now s (pop_first rest s) e.packet refl
                (keeps.on_played ps seen s now first e rest front q w j)

          go :
              (o : Option ℕ)
              → s.first_src_ts_ns ≡ o
              → After ps seen now s (play compensate now e rest o s)
          go none q =
              sent ps seen now s (started now e rest s) e.packet refl
                (keeps.on_started ps seen s now e rest front q j)
          go (some first) q =
              due first (ltb (now + first) (s.playback_start_wall_ns + e.stamp)) q refl

      run_round-kept :
          (ps : List PendingPacket) (seen : List (ℕ × PreparedPacket F)) (now : ℕ)
          (s : PacketScheduler F)
          → J ps seen s
          → After ps seen now s (run_round compensate now s)
      unfolding run_round
      run_round-kept ps seen now s j = go s.stopped (heap s.heap refl)
        where
          heap :
              (es : List Entry) → s.heap ≡ es → After ps seen now s (play_heap compensate now es s)
          heap [] q = unchanged ps seen now s j
          heap (e ∷ rest) q = play-kept ps seen now e rest s q j

          go :
              (b : Bool)
              → After ps seen now s (play_heap compensate now s.heap s)
              → After ps seen now s (if b then s else play_heap compensate now s.heap s)
          go true h = unchanged ps seen now s j
          go false h = h

      pub Run-kept :
          {ps : List PendingPacket} {seen : List (ℕ × PreparedPacket F)} {s : PacketScheduler F}
          → J [] [] new_scheduler
          → Run ps seen s
          → J ps seen s
      unfolding After
      Run-kept j start = j
      Run-kept j (pushed {ps = ps} {seen = seen} {s = s} p r) = push-kept ps seen p s (Run-kept j r)
      Run-kept j (round {ps = ps} {seen = seen} {s = s} now r) =
          run_round-kept ps seen now s (Run-kept j r)
      Run-kept j (halted {ps = ps} {seen = seen} {s = s} r) = keeps.on_stop ps seen s (Run-kept j r)
