-- ===== src/Broker/Spacing.antt =====
-- When the scheduler sends what it was given.
use gtools.Prelude.{
  ℕ, ◌+◌, ◌≤◌, List, [], ◌∷◌, ◌++◌, Bool, Option, none, some, All, ◌≡◌, refl, sym, subst, ap, ◌∙◌,
  arith,
}
use mathlib.Core.List.{Memᴰ}
use gtools.Python.Exec.{Result, ok, err}
use gtools.Python.Struct.{Floats}
use gtools.Packet.Prepared.{PreparedPacket}
use gtools.Broker.Operands.{Library}
use gtools.Broker.Pending.{PendingPacket, from_pending}
use gtools.Broker.Scheduler.{Entry, PacketScheduler}
use gtools.Broker.Playback.{heappush-All, sum_over, sum_over-heappush}
use gtools.Broker.Runs.{stamped, delivered, seen_at, sent_for, Keeps, Run, Run-kept}
use gtools.Broker.Played.{timed, count, count-append, arrived, waiting}

-- The packets of the heap are pushed ones, with their time stamps.
abbrev Held : List PendingPacket → Entry → Type 0
Held ps e = Memᴰ e.packet ps × (e.stamp ≡ e.packet.rtt_ns)

Held-later :
    (p : PendingPacket) (ps : List PendingPacket) (es : List Entry)
    → All (Held ps) es
    → All (Held (p ∷ ps)) es
Held-later p ps [] h = tt
Held-later p ps (e ∷ es) h = ((Memᴰ.tail h.0.0, h.0.1), Held-later p ps es h.1)

module _ {F : Type 0} where
  -- The packets that were seen, without their times.
  abbrev pub packets : List (ℕ × PreparedPacket F) → List (PreparedPacket F)
  packets [] = []
  packets ((t, q) ∷ seen) = q ∷ packets seen

  seen_more :
      {x : ℕ × PreparedPacket F} (xs : List (ℕ × PreparedPacket F))
      {seen : List (ℕ × PreparedPacket F)}
      → Memᴰ x seen
      → Memᴰ x (xs ++ seen)
  seen_more [] m = m
  seen_more (y ∷ xs) m = Memᴰ.tail (seen_more xs m)

  all_seen_more :
      (w : ℕ) (qs : List (PreparedPacket F)) (xs seen : List (ℕ × PreparedPacket F))
      → All (λ q. Memᴰ (w, q) seen) qs
      → All (λ q. Memᴰ (w, q) (xs ++ seen)) qs
  all_seen_more w [] xs seen h = tt
  all_seen_more w (q ∷ qs) xs seen h = (seen_more xs h.0, all_seen_more w qs xs seen h.1)

  delivered_seen :
      (now : ℕ) (r : Result (PreparedPacket F)) (seen : List (ℕ × PreparedPacket F))
      → All (λ q. Memᴰ (now, q) (seen_at now (delivered r) ++ seen)) (delivered r)
  delivered_seen now (ok q) seen = (Memᴰ.head refl, tt)
  delivered_seen now (err e) seen = tt

  packets-seen_at :
      (now : ℕ) (qs : List (PreparedPacket F)) (seen : List (ℕ × PreparedPacket F))
      → packets (seen_at now qs ++ seen) ≡ qs ++ packets seen
  packets-seen_at now [] seen = refl
  packets-seen_at now (q ∷ qs) seen = ap (λ rest. q ∷ rest) (packets-seen_at now qs seen)

module _ {F : Type 0} ⦃fl : Floats F⦄ ⦃lib : Library F⦄ (compensate : Bool) where
  -- What was seen at a time is what is sent for a pushed packet, and is no earlier behind the start w than
  -- the packet is behind the first.
  abbrev pub IsDue : List PendingPacket → ℕ → ℕ → ℕ × PreparedPacket F → Type 0
  IsDue ps first w (t, q) =
      (p : PendingPacket) × Memᴰ p ps
      × (from_pending compensate p ≡ ok q)
      × (w + p.rtt_ns ≤ t + first)

  -- The packet that started the playback was pushed with this time stamp, and what is sent for it was seen
  -- at the start.
  abbrev pub Begun : List PendingPacket → ℕ → ℕ → List (ℕ × PreparedPacket F) → Type 0
  Begun ps first w seen =
      (p : PendingPacket) × Memᴰ p ps
      × (p.rtt_ns ≡ first)
      × All (λ q. Memᴰ (w, q) seen) (sent_for compensate p)

  -- Nothing is seen before the playback has started.
  abbrev pub Spaced : List PendingPacket → Option ℕ → ℕ → List (ℕ × PreparedPacket F) → Type 0
  Spaced ps none w seen = seen ≡ []
  Spaced ps (some first) w seen = All (IsDue ps first w) seen × Begun ps first w seen

  IsDue-later :
      (p : PendingPacket) (ps : List PendingPacket) (first w : ℕ)
      (seen : List (ℕ × PreparedPacket F))
      → All (IsDue ps first w) seen
      → All (IsDue (p ∷ ps) first w) seen
  IsDue-later p ps first w [] h = tt
  IsDue-later p ps first w ((t, q) ∷ seen) h =
      let (r, m, e, d) = h.0 in ((r, Memᴰ.tail m, e, d), IsDue-later p ps first w seen h.1)

  Spaced-later :
      (p : PendingPacket) (ps : List PendingPacket) (o : Option ℕ) (w : ℕ)
      (seen : List (ℕ × PreparedPacket F))
      → Spaced ps o w seen
      → Spaced (p ∷ ps) o w seen
  Spaced-later p ps none w seen h = h
  Spaced-later p ps (some first) w seen h =
      let (r, m, e, all) = h.1 in (IsDue-later p ps first w seen h.0, (r, Memᴰ.tail m, e, all))

  seen-IsDue :
      (ps : List PendingPacket) (now first w : ℕ) (e : Entry) (seen : List (ℕ × PreparedPacket F))
      → Held ps e
      → w + e.stamp ≤ now + first
      → All (IsDue ps first w) seen
      → All (IsDue ps first w) (seen_at now (sent_for compensate e.packet) ++ seen)
  seen-IsDue ps now first w e seen held d h = go (from_pending compensate e.packet) refl
    where
      go :
          (r : Result (PreparedPacket F))
          → from_pending compensate e.packet ≡ r
          → All (IsDue ps first w) (seen_at now (delivered r) ++ seen)
      go (ok q) x = ((e.packet, held.0, x, omega (arith, d, held.1)), h)
      go (err z) x = h

  Spaced-next :
      (ps : List PendingPacket) (now first w : ℕ) (e : Entry) (seen : List (ℕ × PreparedPacket F))
      (o : Option ℕ)
      → o ≡ some first
      → Held ps e
      → w + e.stamp ≤ now + first
      → Spaced ps o w seen
      → Spaced ps o w (seen_at now (sent_for compensate e.packet) ++ seen)
  Spaced-next ps now first w e seen o q held d h =
      let (due, begun) = subst (λ o. Spaced ps o w seen) q h in
      let (p, m, stamp, all) = begun in
      let new = seen_at now (sent_for compensate e.packet) in
      subst (λ o. Spaced ps o w (new ++ seen)) (sym q)
        (
          seen-IsDue ps now first w e seen held d due,
          (p, m, stamp, all_seen_more w (sent_for compensate p) new seen all),
        )

  abbrev Timed : List PendingPacket → List (ℕ × PreparedPacket F) → PacketScheduler F → Type 0
  Timed ps seen s = All (Held ps) s.heap × Spaced ps s.first_src_ts_ns s.playback_start_wall_ns seen

  Held-front :
      (ps : List PendingPacket) (s : PacketScheduler F) (e : Entry) (rest : List Entry)
      → s.heap ≡ e ∷ rest
      → All (Held ps) s.heap
      → All (Held ps) (e ∷ rest)
  Held-front ps s e rest front h = subst (All (Held ps)) front h

  Timed-kept : Keeps compensate Timed
  Timed-kept = record {
    on_stop = λ ps seen s j. j;
    on_unstamped = λ ps seen s p z j. (
      Held-later p ps s.heap j.0,
      Spaced-later p ps s.first_src_ts_ns s.playback_start_wall_ns seen j.1,
    );
    on_queued = λ ps seen s p z j. (
      heappush-All (Held (p ∷ ps)) (stamped p s) s.heap (Memᴰ.head refl, refl)
          (Held-later p ps s.heap j.0),
      Spaced-later p ps s.first_src_ts_ns s.playback_start_wall_ns seen j.1,
    );
    on_started = λ ps seen s now e rest front q j.
        let h = Held-front ps s e rest front j.0 in
        (
          h.1,
          (
            seen-IsDue ps now e.stamp now e seen h.0 (omega arith) (
                subst (All (IsDue ps e.stamp now))
                  (sym (subst (λ o. Spaced ps o s.playback_start_wall_ns seen) q j.1)) tt),
            (
              e.packet,
              h.0.0,
              sym h.0.1,
              delivered_seen now (from_pending compensate e.packet) seen,
            ),
          ),
        );
    on_played = λ ps seen s now first e rest front q w j.
        let h = Held-front ps s e rest front j.0 in
        (
          h.1,
          Spaced-next ps now first s.playback_start_wall_ns e seen s.first_src_ts_ns q h.0
              (ground (arith, w)) j.1,
        );
  }

  abbrev Tallied :
      (PreparedPacket F → Bool)
      → List PendingPacket
      → List (ℕ × PreparedPacket F)
      → PacketScheduler F
      → Type 0
  Tallied Q ps seen s =
      count Q (packets seen) + sum_over (waiting compensate Q) s.heap
      ≡ arrived compensate Q (timed ps)

  Tallied-popped :
      (Q : PreparedPacket F → Bool) (n now : ℕ) (seen : List (ℕ × PreparedPacket F))
      (s : PacketScheduler F) (e : Entry) (rest : List Entry)
      → s.heap ≡ e ∷ rest
      → count Q (packets seen) + sum_over (waiting compensate Q) s.heap ≡ n
      → count Q (packets (seen_at now (sent_for compensate e.packet) ++ seen))
          + sum_over (waiting compensate Q) rest
        ≡ n
  unfolding sum_over
  Tallied-popped Q n now seen s e rest front j =
      let h : count Q (packets seen) + sum_over (waiting compensate Q) (e ∷ rest) ≡ n =
        subst (λ es. count Q (packets seen) + sum_over (waiting compensate Q) es ≡ n) front j in
      let k =
        ap (count Q) (packets-seen_at now (sent_for compensate e.packet) seen)
        ∙ count-append Q (sent_for compensate e.packet) (packets seen) in
      omega (arith, h, k)

  Tallied-kept : (Q : PreparedPacket F → Bool) → Keeps compensate (Tallied Q)
  unfolding arrived timed
  Tallied-kept Q = record {
    on_stop = λ ps seen s j. j;
    on_unstamped = λ ps seen s p z j. rw z j;
    on_queued = λ ps seen s p z j.
        rw z (omega (arith, j, sum_over-heappush (waiting compensate Q) (stamped p s) s.heap));
    on_started = λ ps seen s now e rest front q j.
        Tallied-popped Q (arrived compensate Q (timed ps)) now seen s e rest front j;
    on_played = λ ps seen s now first e rest front q w j.
        Tallied-popped Q (arrived compensate Q (timed ps)) now seen s e rest front j;
  }

  -- Whatever is pushed and whenever the thread runs, what an observer sees in the out queue to come of its
  -- rounds is what is sent for pushed packets, and none of it is earlier behind the start of the playback
  -- than the time stamp of its packet is behind that of the packet that started it; what is sent for that
  -- one is seen at the start, and before it nothing is seen. And none of it is lost or doubled: of what is sent for the packets pushed with a time
  -- stamp other than 0, as much of each kind was seen or will be sent for the packets in the heap.
  pub Run-Spaced :
      (ps : List PendingPacket) (seen : List (ℕ × PreparedPacket F)) (s : PacketScheduler F)
      → Run compensate ps seen s
      → Spaced ps s.first_src_ts_ns s.playback_start_wall_ns seen
        × ((Q : PreparedPacket F → Bool)
            → count Q (packets seen) + sum_over (waiting compensate Q) s.heap
              ≡ arrived compensate Q (timed ps))
  unfolding count sum_over arrived timed
  Run-Spaced ps seen s r = (
    (Run-kept compensate Timed-kept (tt, refl) r).1,
    λ Q. Run-kept compensate (Tallied-kept Q) (omega arith) r,
  )
