-- ===== src/Tests/BrokerTests.antt =====
-- The broker, with the extension and the packets of BrokerData.
use gtools.Prelude.{equal, ℕ, ◌≤◌, suc, [], ◌∷◌, true, false, none, inl, inr, ◌⊎◌, ◌≡◌, refl, arith}
use mathlib.Core.List.{Memᴰ}
use gtools.Python.Exec.{ok, err, value_error}
use gtools.Python.Struct.{unpack_from, arrange}
use gtools.Python.Struct.Words.{le_value}
use gtools.Python.Dict
use gtools.Packet.Types.{ping_request, parse_net_type}
use gtools.Packet.Tank.{TankPacket}
use gtools.Packet.Net.{get_tank, deserialize, read_message}
use gtools.Packet.Prepared.{of_bytes}
use gtools.Broker.Interests.{tank_interest, net_interest, is_tank_interest}
use gtools.Broker.TankInterests.{tank_interest_injective}
use gtools.Broker.Operands.{evaluate, op_eq}
use gtools.Broker.Matching.{eval_tank, tank_clause, tank_field, all_ok}
use gtools.Broker.Handler.{interested, tank_interested, payload_interested, call_interested}
use gtools.Broker.Interested.{interested_type}
use gtools.Broker.Hashing.{hash_interest}
use gtools.Broker.Manager.{
  no_extensions, handlers, add_extension, remove_extension, get_interested_extension,
  interested_among,
}
use gtools.Broker.Pending.{
  PendingPacket, Broker, interested_extensions, tank_specific, from_pending, build_chain,
  unprocessed, is_processed, forward, forward_to,
}
use gtools.Broker.Replies.{handle_packet, handle_chain}
use gtools.Broker.Selected.{all_handlers}
use gtools.Broker.Waiting.{waiting}
use gtools.Broker.Chosen.{OneEach}
use gtools.Broker.Termination.{Answers, done, answer, Answers-le}
use gtools.Broker.Recurring.{Answers-unbounded}
use gtools.Broker.Ended.{Returns, outcome, finish_event-handle_packet}
use gtools.Broker.Repeated.{handle_packet_repeated}
use gtools.Broker.Order.{IsOrdered, start, added, Reach-IsOrdered}
use gtools.Broker.Overwritten.{overwritten_stays}
use gtools.Tests.VariantTests.{patterns}
use gtools.Tests.BrokerData.{
  plain, hashing, greeting_interest, extension, greeter, first, second, manager, greeting_answer,
  greeting, sent_first, waiting_broker, ping, one_jump, ping_handler, ping_packet,
}

one_type : ping_request ≡ ping_request
unfolding tank_interest
one_type = tank_interest_injective ping_request ping_request refl

greeting_read : from_pending false (greeting_answer 3) ≡ ok greeting
unfolding from_pending of_bytes deserialize unpack_from parse_net_type read_message arrange le_value
greeting_read = refl

both_shown :
    interested_extensions greeting (manager (first ∷ second ∷ [])) ≡ ok (first ∷ second ∷ [])
unfolding interested_extensions tank_specific get_interested_extension handlers interested_among
    interested net_interest Dict.lookup
both_shown = refl

Answers-unbounded_example :
    (t : Broker ℕ) × Answers false hashing (7 ∷ []) 100 (waiting_broker (first ∷ second ∷ [])) t
unfolding hash_interest Dict.lookup equal
Answers-unbounded_example =
    Answers-unbounded false hashing first second 65795 131331 refl (refl, refl) refl refl
      (λ e. absurd (omega (arith, e))) (greeting_answer 3) 7 [] greeting refl refl greeting_read 100
      (sent_first (first ∷ second ∷ [])) (waiting_broker (first ∷ second ∷ [])) both_shown refl refl
      (inl refl)

ping_matched : tank_clause ping one_jump ≡ ok true
unfolding tank_clause tank_field evaluate op_eq
ping_matched = refl

ping_shown : interested ping_handler ping_packet ≡ ok true
unfolding interested is_tank_interest get_tank tank_interested payload_interested call_interested
    tank_interest eval_tank all_ok tank_clause tank_field evaluate op_eq
ping_shown = refl

interested_type_run :
    ((t : TankPacket ℕ) × (get_tank ping_packet.packet ≡ ok t) × (tank_interest t.type ≡ 33))
    × ((◌≡◌ {A = ℕ} 2 0) ⊎ (◌≡◌ {A = ℕ} 2 2))
unfolding is_tank_interest
interested_type_run = interested_type ping_handler ping_packet refl ping_shown

Reach-IsOrdered_example : IsOrdered (handlers 3 (add_extension greeter no_extensions))
Reach-IsOrdered_example =
    Reach-IsOrdered (λ i j. true) (add_extension greeter no_extensions) (added greeter start) 3

overwritten_stays_example : Memᴰ first (
    handlers 3 (
      (remove_extension
        (λ i j. true)
        (65 ∷ [])
        (add_extension (extension 2 []) (add_extension greeter no_extensions))).1))
overwritten_stays_example =
    overwritten_stays (λ i j. true) greeter (extension 2 []) no_extensions (greeting_interest 1)
      refl (λ e. absurd (omega (arith, e))) (Memᴰ.head refl)

finish_event-handle_packet_example :
    Returns false hashing 9
      (outcome 1 (greeting_answer 1) (sent_first (first ∷ [])))
      (greeting_answer 1)
      (waiting_broker (first ∷ []))
unfolding Dict.lookup equal
finish_event-handle_packet_example =
    finish_event-handle_packet false hashing (greeting_answer 1) 7 [] (sent_first (first ∷ []))
      (waiting_broker (first ∷ [])) 9 refl refl (inl refl) (omega arith)

abbrev sent_alone : ℕ → PendingPacket
sent_alone op = record (greeting_answer op) { packet_id = 8 ∷ [] }

handle_packet_repeated_example :
    let t = (handle_packet false hashing (sent_alone 1) (waiting_broker (first ∷ []))).1 in
    handle_packet false hashing (sent_alone 2) t ≡ (err value_error, t)
unfolding Dict.lookup equal
handle_packet_repeated_example =
    handle_packet_repeated false hashing (sent_alone 1) (sent_alone 2) 8 [] none
      (waiting_broker (first ∷ [])) refl refl refl refl

-- The extension passes the packet on, and no handler is left.
passed_on :
    Answers false hashing
      (7 ∷ [])
      1
      (waiting_broker (first ∷ []))
      ((handle_packet false hashing (greeting_answer 4) (waiting_broker (first ∷ []))).1)
unfolding Dict.lookup equal handle_packet handle_chain forward build_chain from_pending of_bytes
    deserialize unpack_from parse_net_type read_message arrange le_value interested_extensions
    tank_specific get_interested_extension handlers interested_among interested net_interest
    unprocessed is_processed hash_interest forward_to Dict.insert
passed_on = answer (greeting_answer 4) refl (inr refl) refl refl refl (done _)

first_alone : OneEach hashing (all_handlers ((3, first ∷ []) ∷ []))
unfolding all_handlers
first_alone = ((λ a b e. refl, tt), tt)

Answers-le_example :
    1 ≤ suc (waiting hashing ((65 ∷ [], 65795) ∷ []) (all_handlers ((3, first ∷ []) ∷ [])))
unfolding Dict.lookup equal
Answers-le_example =
    Answers-le false hashing (7 ∷ []) 1 (sent_first (first ∷ [])) (waiting_broker (first ∷ []))
      ((handle_packet false hashing (greeting_answer 4) (waiting_broker (first ∷ []))).1)
      first_alone refl passed_on
