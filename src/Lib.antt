-- ===== src/Lib.antt =====
-- A model of the core of gtools, a toolkit and proxy for a game's network protocol, with the
-- theorems that make it correct.
--
-- The program. Packets, inventories, variants and tables of text pass between a client, a proxy
-- and a server as bytes. All binary codecs go through the byte buffer of gtools/core/buffer.py;
-- the values of a remote call are the variants of gtools/core/growtopia/variant.py; text messages
-- and dialogs are the tables of gtools/core/growtopia/strkv.py. Packets of
-- gtools/core/growtopia/packet.py carry variants and tables, and an inventory arrives in one as
-- its extended data. The broker of gtools/proxy/extension/server/broker.py shows packets to
-- extensions, in their order of priority, and waits for those that block: a chain goes from one
-- blocking handler to the next until an answer finishes or cancels it, or no handler is left. The
-- state of the proxy follows the game: items that lie in a world are dropped, changed and taken
-- into the inventory. A world is a sequence of tiles and the items dropped in it; a tile may carry
-- a tile extra, whose class its type selects in a registry.
--
-- The files.
-- - Prelude: shared names, Boolean tests, lists over native numbers, slices, signed integers.
-- - Python: exceptions and methods that change an object (Exec), list subscripts (Lists), `dict`
--   (Dict), and the `struct` formats (Struct), each format a record of its size, packing and
--   unpacking.
-- - Buffer: gtools/core/buffer.py. Raw has the state and `_ensure_capacity`, `_read_raw`,
--   `_read_raw_back`, `_write_raw`; Values the typed reads and writes; Seek the cursors; Modes the
--   context managers and `offset_to`. Frame, RoundTrip, Strings, Search and Invariant hold proofs.
-- - Variant: gtools/core/growtopia/variant.py. Value has the kinds and the tagged values; Wire has
--   `serialize`, `deserialize` and `get`; View the list operations and the typed views. Remaining,
--   Encoding, RoundTrip, Indexing and Truncation hold proofs.
-- - StrKv: gtools/core/growtopia/strkv.py. Text has the text format; Table the state, the key map
--   and `_ensure_row`; Methods the subscripts and the row and cell views; Proxies `find` and
--   `relative`. RoundTrip, Keys, Subscripts and Stale hold proofs.
-- - Packet: gtools/core/growtopia/packet.py. Types has the type numbers; Tank the tank packet; Net
--   the net packet. Numbers, TankRoundTrip, NetRoundTrip and Calls hold proofs.
-- - Inventory: gtools/core/growtopia/inventory.py. Items has the state and its operations; Wire
--   the messages. Amounts and RoundTrip hold proofs.
-- - AckQueue: gtools/core/ack_queue.py. Methods has the state and the methods; Delivery the steps,
--   the runs, and proofs.
-- - Crypto: gtools/core/growtopia/crypto.py. Hash has the hash and the checksums, Rid the time in
--   a request id, each with its proofs.
-- - EventBus: gtools/core/eventbus.py, the handlers and the calls of an event, with proofs.
-- - Broker: gtools/proxy/extension/server. Interests has the tables of handler.py, Operands and
--   Matching binop_eval.py, Handler and Hashing the rest of handler.py; Manager, Pending, Events
--   and Replies have broker.py: the extensions, the state of the broker, `process_event` and
--   `_handle_packet`; Scheduler has `PacketScheduler`. Packet/Prepared has the packets that it
--   shows. TankInterests, Interested, Selected, Waiting, Chosen, Progress, Termination, Recurring,
--   Ended, Repeated, Changes, Order, Overwritten, Playback, Runs, Played and Spacing hold proofs.
-- - World: gtools/core/growtopia/world.py. Extra has the tile extras: Loops the statements that
--   readers and writers are made of, Items the ids of gtools/baked/items.py; Signs, Labels,
--   Counters, Shops, Clothes, Portraits, Machines, Weather, Fish, Pets, Stores, Locks, Guilds,
--   Engines, Blocks and Npcs the classes, each with `int__deserialize` as deserialize_ and
--   `int__serialize_into` as serialize_ and the class's name; Bodies and Registry
--   `_TILE_EXTRA_REGISTRY`, Codec `deserialize_extra` and `serialize_into`, ItemTypes
--   `from_item_type`. Carried has the rule for each statement that the proofs of the classes
--   apply; Registered, RoundTrip and Tempo hold proofs. Tile has the bytes of a tile, Tiles their
--   proofs. Wire has `World.serialize`, Load `World.deserialize` and Recover its end where a tile
--   failed; Loaded, Recovered, Ended, Backwards and Exchanged hold proofs. Dropped has the dropped
--   items and the update of gtools/proxy/state.py that takes them; Taken and Counted hold proofs.
-- - Tests: runs on concrete inputs, and the theorems at inputs that meet their hypotheses.
--
-- How state and operations correspond. A method is a function from the state of its object to a
-- result, `ok` or the exception, and the new state; what was written before a raise stays written.
-- Python's integers are native natural numbers where the code keeps them from being negative, and
-- pairs of sign and number elsewhere; a byte string is a list of numbers.
--
-- Bounds and fuel. Loops over data are structural. Fuel is taken by the search `offset_to`, since
-- the loop of the code need not end: with an occurrence k places on, fuel above k is enough, and
-- without one no fuel is; and the loop that recovers dropped items, where fuel for one round more
-- than there are bytes is enough. The chains of the broker take no fuel: their steps are the
-- answers of the extensions.
--
-- Parameters. Floats are a type with rounding to a bit pattern and reading of a pattern back; a
-- float round trip asks that the format holds the float. Of the broker, xxh3_64 and the bytes that
-- protobuf writes for a payload are `Hashing`, comparisons with floats and regular expressions
-- `Library`, the equality of two interests `same`, and `random.randbytes` and the time arguments.
-- The packets, interests and clauses of protobuf are records with their fields. Of the tiles,
-- cbor2 is `Cbor`, its loading and dumping, and the item database `ItemDatabase`, a lookup of an
-- item's id and flags and the number of items.
--
-- Not modelled. Text decoding of byte strings, counts below -1, slices with a step, log output and
-- `__repr__`; of the worlds, textures and the connections of tiles (`update_all_connection`), the
-- position and index of a tile, players and NPCs; locks, since each modelled method holds its
-- object's lock from start to end; the sockets and threads of the broker; the parts of the
-- repository that drive sockets, windows, OpenGL and the file system, generated code and vendored
-- code.
pub mod Prelude
pub mod Python
pub mod Buffer
pub mod Variant
pub mod StrKv
pub mod Packet
pub mod Inventory
pub mod AckQueue
pub mod Crypto
pub mod EventBus
pub mod Broker
pub mod World
pub mod Tests
