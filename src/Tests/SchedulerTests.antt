-- ===== src/Tests/SchedulerTests.antt =====
-- The packet scheduler, with two greetings.
use gtools.Prelude.{ℕ, ◌+◌, [], ◌∷◌, Bool, All, false, ◌≡◌}
use gtools.Python.Struct.{arrange}
use gtools.Python.Struct.Words.{le_value}
use gtools.Packet.Net.{deserialize}
use gtools.Packet.Prepared.{of_bytes}
use gtools.Broker.Pending.{PendingPacket}
use gtools.Broker.Scheduler.{PacketScheduler, new_scheduler, heappush, put_pending, push, run_round}
use gtools.Broker.Playback.{IsSorted, sum_over}
use gtools.Broker.Runs.{Run, start, pushed, round}
use gtools.Broker.Played.{timed, count, waiting, arrived, IsPushed, Run-queue}
use gtools.Broker.Spacing.{Spaced, Run-Spaced}
use gtools.Packet.Prepared.{PreparedPacket}
use gtools.Tests.VariantTests.{patterns}
use gtools.Tests.BrokerData.{plain, greeting, greeting_answer}

abbrev late : PendingPacket
late = record (greeting_answer 3) { rtt_ns = 8 }

-- Two packets are pushed, the later one first, and the thread runs three times.
abbrev after_two : PacketScheduler ℕ
after_two = run_round false 103 (
    run_round false 102 (
      run_round false 100 ((push false (greeting_answer 3) ((push false late new_scheduler).1)).1)))

played_two :
    Run false (greeting_answer 3 ∷ late ∷ []) ((103, greeting) ∷ (100, greeting) ∷ []) after_two
unfolding run_round push put_pending heappush of_bytes deserialize le_value arrange
played_two = round 103 (round 102 (round 100 (pushed (greeting_answer 3) (pushed late start))))

Run-queue_example :
    IsSorted after_two.heap
    × All (IsPushed (greeting_answer 3 ∷ late ∷ [])) after_two.heap
    × ((Q : PreparedPacket ℕ → Bool)
        → count Q after_two.out + sum_over (waiting false Q) after_two.heap
          ≡ arrived false Q (greeting_answer 3 ∷ late ∷ []))
Run-queue_example =
    Run-queue false (greeting_answer 3 ∷ late ∷ []) ((103, greeting) ∷ (100, greeting) ∷ [])
      after_two played_two

Run-Spaced_example :
    Spaced false
      (greeting_answer 3 ∷ late ∷ [])
      after_two.first_src_ts_ns
      after_two.playback_start_wall_ns
      ((103, greeting) ∷ (100, greeting) ∷ [])
    × ((Q : PreparedPacket ℕ → Bool)
        → count Q (greeting ∷ greeting ∷ []) + sum_over (waiting false Q) after_two.heap
          ≡ arrived false Q (timed (greeting_answer 3 ∷ late ∷ [])))
Run-Spaced_example =
    Run-Spaced false (greeting_answer 3 ∷ late ∷ []) ((103, greeting) ∷ (100, greeting) ∷ [])
      after_two played_two
