-- ===== src/Broker/Played.antt =====
-- What waits in the scheduler, and what it has sent.
use gtools.Prelude.{
  ℕ, suc, ◌+◌, ◌<◌, List, [], ◌∷◌, ◌++◌, Bool, false, ◌==◌, if◌then◌else◌, Option, none, some, All,
  Bool-cases, inl, inr, length, ◌≡◌, refl, subst, ap, ◌∙◌, arith,
}
use gtools.Python.Struct.{Floats}
use gtools.Packet.Prepared.{PreparedPacket}
use gtools.Broker.Operands.{Library}
use gtools.Broker.Pending.{PendingPacket}
use gtools.Broker.Scheduler.{Entry, PacketScheduler}
use gtools.Broker.Playback.{
  IsHeap, IsSorted, Numbered, heappush-All, heappush-IsHeap, IsSorted-heap, sum_over,
  sum_over-heappush,
}
use gtools.Broker.Runs.{stamped, queued, sent_for, Keeps, Run, Run-kept}

-- The packets with a time stamp other than 0.
unfoldable pub timed : List PendingPacket → List PendingPacket
timed [] = []
timed (p ∷ ps) = let qs = timed ps in if p.rtt_ns == 0 then qs else p ∷ qs

-- The packet at a place of a list that has the last one first.
unfoldable pub nth_pushed : ℕ → List PendingPacket → Option PendingPacket
nth_pushed i [] = none
nth_pushed i (p ∷ ps) = let earlier = nth_pushed i ps in if i == length ps then some p else earlier

-- An entry of the heap has the time stamp of its packet, and the number of its push.
abbrev pub IsPushed : List PendingPacket → Entry → Type 0
IsPushed ps e =
    (e.seq < length (timed ps))
    × (nth_pushed e.seq (timed ps) ≡ some e.packet)
    × (e.stamp ≡ e.packet.rtt_ns)

IsPushed-before :
    (p : PendingPacket) (ps : List PendingPacket) (e : Entry) → IsPushed ps e → IsPushed (p ∷ ps) e
unfolding timed nth_pushed
IsPushed-before p ps e h = elim (Bool-cases (p.rtt_ns == 0)) [
  | inl z ↦ rw z h
  | inr z ↦ rw z (omega (arith, h.0), number ∙ h.1, h.2)
]
  where
    number :
        (if e.seq == length (timed ps) then some p else nth_pushed e.seq (timed ps))
        ≡ nth_pushed e.seq (timed ps)
    number = ground (arith, h.0)

All-IsPushed_before :
    (p : PendingPacket) (ps : List PendingPacket) (es : List Entry)
    → All (IsPushed ps) es
    → All (IsPushed (p ∷ ps)) es
All-IsPushed_before p ps [] h = tt
All-IsPushed_before p ps (e ∷ es) h = (IsPushed-before p ps e h.0, All-IsPushed_before p ps es h.1)

numbered :
    (ps : List PendingPacket) (n : ℕ) (es : List Entry)
    → n ≡ length (timed ps)
    → All (IsPushed ps) es
    → Numbered n es
numbered ps n [] q h = tt
numbered ps n (e ∷ es) q h = (omega (arith, q, h.0.0), numbered ps n es q h.1)

-- How many packets there are of a kind.
unfoldable pub count : {A : Type 0} → (A → Bool) → List A → ℕ
count Q [] = 0
count Q (x ∷ xs) = let n = count Q xs in if Q x then suc n else n

pub count-append :
    {A : Type 0} (Q : A → Bool) (xs ys : List A) → count Q (xs ++ ys) ≡ count Q xs + count Q ys
unfolding count
count-append Q [] ys = omega arith
count-append Q (x ∷ xs) ys = ground (arith, count-append Q xs ys)

module _ {F : Type 0} where
  record Queued (ps : List PendingPacket) (seen : List (ℕ × PreparedPacket F))
      (s : PacketScheduler F) : Type 0 where
    sorted : IsHeap s.heap
    counted : s.seq ≡ length (timed ps)
    pushed : All (IsPushed ps) s.heap

  Queued-front :
      {ps : List PendingPacket} {seen : List (ℕ × PreparedPacket F)} {s : PacketScheduler F}
      {e : Entry} {rest : List Entry}
      → s.heap ≡ e ∷ rest
      → Queued ps seen s
      → IsHeap rest × All (IsPushed ps) rest
  unfolding IsHeap
  Queued-front {ps = ps} {e = e} {rest = rest} front j =
      let h : IsHeap (e ∷ rest) × All (IsPushed ps) (e ∷ rest) =
        (subst IsHeap front j.sorted, subst (All (IsPushed ps)) front j.pushed) in
      (h.0.1, h.1.1)

  Queued-queued :
      (ps : List PendingPacket) (seen : List (ℕ × PreparedPacket F)) (s : PacketScheduler F)
      (p : PendingPacket)
      → (p.rtt_ns == 0) ≡ false
      → Queued ps seen s
      → Queued (p ∷ ps) seen (queued p s)
  unfolding timed nth_pushed
  Queued-queued ps seen s p z j = record {
    sorted =
        heappush-IsHeap (stamped p s) s.heap (numbered ps s.seq s.heap j.counted j.pushed) j.sorted;
    counted = rw z (ap suc j.counted);
    pushed =
        heappush-All (IsPushed (p ∷ ps)) (stamped p s) s.heap
          (rw z (omega (arith, j.counted), ground (arith, j.counted), refl))
          (All-IsPushed_before p ps s.heap j.pushed);
  }

module _ {F : Type 0} ⦃fl : Floats F⦄ ⦃lib : Library F⦄ (compensate : Bool) where
  Queued-kept : Keeps compensate (Queued {F = F})
  unfolding timed
  Queued-kept = record {
    on_stop = λ ps seen s j. record { sorted = j.sorted; counted = j.counted; pushed = j.pushed };
    on_unstamped = λ ps seen s p z j. record {
      sorted = j.sorted;
      counted = rw z j.counted;
      pushed = All-IsPushed_before p ps s.heap j.pushed;
    };
    on_queued = Queued-queued;
    on_started = λ ps seen s now e rest front q j.
        let h = Queued-front front j in record { sorted = h.0; counted = j.counted; pushed = h.1 };
    on_played = λ ps seen s now first e rest front q w j.
        let h = Queued-front front j in record { sorted = h.0; counted = j.counted; pushed = h.1 };
  }

  -- How many packets of a kind are sent for the packets of a list.
  unfoldable pub arrived : (PreparedPacket F → Bool) → List PendingPacket → ℕ
  arrived Q [] = 0
  arrived Q (p ∷ ps) = count Q (sent_for compensate p) + arrived Q ps

  -- How many of a kind will be sent for an entry of the heap.
  abbrev pub waiting : (PreparedPacket F → Bool) → Entry → ℕ
  waiting Q e = count Q (sent_for compensate e.packet)

  abbrev Conserved :
      (PreparedPacket F → Bool)
      → List PendingPacket
      → List (ℕ × PreparedPacket F)
      → PacketScheduler F
      → Type 0
  Conserved Q ps seen s = count Q s.out + sum_over (waiting Q) s.heap ≡ arrived Q ps

  Conserved-popped :
      (Q : PreparedPacket F → Bool) (n : ℕ) (s : PacketScheduler F) (e : Entry) (rest : List Entry)
      → s.heap ≡ e ∷ rest
      → count Q s.out + sum_over (waiting Q) s.heap ≡ n
      → count Q (s.out ++ sent_for compensate e.packet) + sum_over (waiting Q) rest ≡ n
  unfolding sum_over
  Conserved-popped Q n s e rest front j =
      let h : count Q s.out + sum_over (waiting Q) (e ∷ rest) ≡ n =
        subst (λ es. count Q s.out + sum_over (waiting Q) es ≡ n) front j in
      omega (arith, h, count-append Q s.out (sent_for compensate e.packet))

  Conserved-kept : (Q : PreparedPacket F → Bool) → Keeps compensate (Conserved Q)
  unfolding arrived
  Conserved-kept Q = record {
    on_stop = λ ps seen s j. j;
    on_unstamped =
        λ ps seen s p z j. omega (arith, j, count-append Q s.out (sent_for compensate p));
    on_queued =
        λ ps seen s p z j. omega (arith, j, sum_over-heappush (waiting Q) (stamped p s) s.heap);
    on_started =
        λ ps seen s now e rest front q j. Conserved-popped Q (arrived Q ps) s e rest front j;
    on_played = λ ps seen s now first e rest front q w j.
        Conserved-popped Q (arrived Q ps) s e rest front j;
  }

  -- Whatever is pushed, whenever the thread runs, and whether or not it is stopped, the heap is in order:
  -- by the time stamps, equal ones by the number of the push. Each entry has the time stamp of its
  -- packet, and the packet is the one that was pushed under its number, counting those with a time
  -- stamp other than 0. Of what is sent for the pushed packets, as much of each kind is in the out queue
  -- or will be sent for the packets in the heap.
  pub Run-queue :
      (ps : List PendingPacket) (seen : List (ℕ × PreparedPacket F)) (s : PacketScheduler F)
      → Run compensate ps seen s
      → IsSorted s.heap
        × All (IsPushed ps) s.heap
        × ((Q : PreparedPacket F → Bool)
            → count Q s.out + sum_over (waiting Q) s.heap ≡ arrived Q ps)
  unfolding IsHeap count sum_over arrived timed
  Run-queue ps seen s r =
      let q =
        Run-kept compensate Queued-kept (record { sorted = tt; counted = refl; pushed = tt }) r in
      (
        IsSorted-heap s.heap q.sorted,
        q.pushed,
        λ Q. Run-kept compensate (Conserved-kept Q) (omega arith) r,
      )
