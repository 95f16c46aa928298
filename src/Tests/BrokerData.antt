-- ===== src/Tests/BrokerData.antt =====
-- An extension with two blocking interests, and the packets that it answers.
use gtools.Prelude.{ℕ, ◌+◌, ◌*◌, List, [], ◌∷◌, false, none, some, pos}
use gtools.Python.Exec.{ok}
use gtools.Python.Struct.{Bytes}
use gtools.Packet.Types.{server_hello, tank_packet, ping_request}
use gtools.Packet.Tank.{TankPacket}
use gtools.Packet.Net.{tank, empty}
use gtools.Packet.Prepared.{PreparedPacket}
use gtools.Broker.Operands.{Library, starts_with, int}
use gtools.Broker.Matching.{Clause, field}
use gtools.Broker.Handler.{Interest, absent, given, Extension, ExtensionHandler}
use gtools.Broker.Hashing.{Hashing}
use gtools.Broker.Manager.{ExtensionManager}
use gtools.Broker.Pending.{PendingPacket, PendingChain, Broker}
use gtools.Tests.VariantTests.{patterns}

-- Comparisons of numbers that are floats do not occur here; a pattern is plain text.
instance abbrev pub plain : Library ℕ
plain = record {
  num_eq = λ a b. false;
  num_lt = λ a b. false;
  num_le = λ a b. false;
  num_near = λ a b. false;
  re_match = λ p s. ok (starts_with p s);
}

abbrev mix : Bytes → ℕ
mix [] = 0
mix (b ∷ bs) = b + 256 * mix bs

abbrev pub hashing : Hashing ℕ
hashing = record { xxh3_64 = mix; payload_bytes = λ p. [] }

-- A blocking interest in the greeting of the server.
abbrev pub greeting_interest : ℕ → Interest ℕ
greeting_interest n = record {
  interest = 3;
  priority = pos 0;
  blocking_mode = 1;
  direction = 0;
  id = n;
  payload = absent;
}

abbrev pub extension : ℕ → List (Interest ℕ) → Extension ℕ
extension n is = record { number = n; id = 65 ∷ []; interests = is; last_heartbeat = 0 }

abbrev pub greeter : Extension ℕ
greeter = extension 1 (greeting_interest 1 ∷ greeting_interest 2 ∷ [])

abbrev pub first : ExtensionHandler ℕ
first = record { ext = greeter; interest = greeting_interest 1 }

abbrev pub second : ExtensionHandler ℕ
second = record { ext = greeter; interest = greeting_interest 2 }

abbrev pub manager : List (ExtensionHandler ℕ) → ExtensionManager ℕ
manager hs = record { extensions = (65 ∷ [], greeter) ∷ []; interest_map = (3, hs) ∷ [] }

-- A greeting, in an answer with this `op`.
abbrev pub greeting_answer : ℕ → PendingPacket
greeting_answer op = record {
  op = op;
  packet_id = 7 ∷ [];
  buf = 1 ∷ 0 ∷ 0 ∷ 0 ∷ [];
  packet_flags = 0;
  interest_id = 1;
  direction = 2;
  hit_count = 1;
  rtt_ns = 5;
}

abbrev pub greeting : PreparedPacket ℕ
greeting = record {
  packet = record { type = server_hello; message = empty };
  packet_raw = 1 ∷ 0 ∷ 0 ∷ 0 ∷ [];
  direction = 2;
  flags = 0;
}

-- The chain that `first` was sent.
abbrev pub sent_first : List (ExtensionHandler ℕ) → PendingChain ℕ
sent_first hs = record {
  chain = hs;
  processed_chain = (65 ∷ [], mix (3 ∷ 1 ∷ 1 ∷ [])) ∷ [];
  finished = false;
  current = greeting_answer 3;
  cancelled = false;
}

abbrev pub waiting_broker : List (ExtensionHandler ℕ) → Broker ℕ
waiting_broker hs = record {
  extension_mgr = manager hs;
  pending_chain = (7 ∷ [], sent_first hs) ∷ [];
  pending_packet = (8 ∷ [], none) ∷ [];
  sent = [];
  called = [];
  next = 0;
}

-- A ping, and an interest in pings whose jump count is 1.
abbrev pub ping : TankPacket ℕ
ping = record {
  type = ping_request;
  object_type = 0;
  jump_count = 1;
  animation_type = 0;
  net_id = pos 0;
  target_net_id = pos 0;
  flags = 0;
  float_var = 0;
  value = 0;
  vector_x = 0;
  vector_y = 0;
  vector_x2 = 0;
  vector_y2 = 0;
  particle_rotation = 0;
  int_x = pos 0;
  int_y = pos 0;
  extended_len = 0;
  extended_data = [];
}

abbrev pub one_jump : Clause ℕ
one_jump = record { lvalue = field 3; op = 1; rvalue = some (int (pos 1)) }

abbrev pub ping_handler : ExtensionHandler ℕ
ping_handler = record {
  ext = greeter;
  interest = record (greeting_interest 3) {
    interest = 33;
    direction = 2;
    payload = given 43 (some (one_jump ∷ [])) [];
  };
}

abbrev pub ping_packet : PreparedPacket ℕ
ping_packet = record {
  packet = record { type = tank_packet; message = tank ping };
  packet_raw = [];
  direction = 2;
  flags = 0;
}
