-- ===== src/Tests/AckQueueTests.antt =====
-- Two items put, the first one given out and acknowledged, the second one given out.
use gtools.Prelude.{ℕ, [], ◌∷◌, ◌++◌, none, some, ◌==◌, ==_refl, ◌≡◌, refl}
use gtools.Python.Exec.{ok, err, empty}
use gtools.AckQueue.Methods.{AckQueue, init, put, try_get, get_nowait, ack}
use gtools.AckQueue.Delivery.{
  put_event, got_event, ack_event, acked_items, Run, stop, step, puts, gets, acks, acked-put,
  ack-Run,
}

abbrev second_out : AckQueue ℕ
second_out = record { queue = 8 ∷ []; current = some 8 }

nothing_put : get_nowait {T = ℕ} init ≡ (err empty, init)
unfolding get_nowait
nothing_put = refl

delivery :
    Run ◌==◌ init
      (put_event 7 ∷ put_event 8 ∷ got_event 7 ∷ ack_event ∷ got_event 8 ∷ [])
      second_out
unfolding put try_get ack
delivery = step (puts 7 init) (
    step (puts 8 _)
      (step (gets 7 _ _ refl) (step (acks _ _ refl) (step (gets 8 _ _ refl) (stop _)))))

acked-put_example :
    acked_items none (put_event 7 ∷ put_event 8 ∷ got_event 7 ∷ ack_event ∷ got_event 8 ∷ [])
      ++ second_out.queue
    ≡ 7 ∷ 8 ∷ []
acked-put_example = acked-put ◌==◌ delivery

ack-Run_example : (ack ◌==◌ second_out).0 ≡ ok tt
ack-Run_example = ack-Run ◌==◌ ==_refl delivery
