-- ===== src/Lib.antt =====
-- The exchange engine: a matching engine for the markets of an exchange.
--
-- Commands come in as messages (src/protocol, src/runtime), are mapped to the commands of the core
-- (src/adapter), and the core (src/core, include/core) answers each with a list of events. What the
-- runtime makes of them is printed and published as records. This library models the messages, the
-- readers and writers of the runtime, the adapter and the core.
--
-- How the parts interact: `EngineCore::process` drops a command whose id it has seen, validates it
-- against the settings of its symbol, and hands it to the book of that symbol. `OrderBook` checks a
-- place command again, matches the order against the other side, and rests what may rest. A side of
-- the book (`SideBook`) holds its price levels in a ring of slots near a base tick
-- (`RingPriceLadder`) and otherwise in a sorted map (`FarPriceMap`), and caches its best level. All
-- events take their ids from one `SequenceGenerator`.
--
-- Files and the code that each models:
--   Core/FixedPoint     include/core/FixedPoint.hpp, src/core/FixedPoint.cpp
--   Core/Types          include/core/Types.hpp, Command.hpp, Event.hpp, Order.hpp, SymbolConfig.hpp
--   Core/Sequence       SequenceGenerator.hpp and .cpp, and make_rejection
--   Core/Level          PriceLevel.hpp and .cpp
--   Core/Ladder         RingPriceLadder.hpp and .cpp
--   Core/FarMap         FarPriceMap.hpp and .cpp
--   Core/SideBook       SideBook.hpp and .cpp; its Queues says which orders lie at a place
--   Core/OrderBook      OrderBook.hpp and .cpp: State (data, lookup, resting), Log (events),
--                       Liquidity (available_crossing_lots), Matching (match_incoming_order),
--                       Place (process_place), Cancel (process_cancel)
--   Core/Idempotency    IdempotencyIndex.hpp and .cpp
--   Core/Validation     src/core/Validation.hpp and .cpp
--   Core/Engine         EngineCore.hpp and .cpp, Snapshot.hpp: State, Process, Snapshots
--   Adapter             include/adapter/EngineAdapter.hpp and src/adapter/EngineAdapter.cpp: the inputs
--                       and their checks, Commands (map_place_order_to_core and
--                       map_cancel_order_to_core), Stores (OrderMetadataStore and
--                       MarketSequenceGenerator)
--   Protocol/Json       include/protocol/Json.hpp, and JsonValue of src/protocol/Json.cpp
--   Protocol/Parser     the class Parser of src/protocol/Json.cpp and parse_json: Lexer (single bytes),
--                       Numbers (parse_number), Strings (parse_string, parse_literal)
--   Protocol/Message    include/protocol/Message.hpp, src/protocol/Message.cpp
--   Runtime/Records     include/runtime/EnginePayloadValue.hpp, EngineRuntimeConfig.hpp
--   Runtime/Serializer  src/runtime/EngineOutputSerializer.cpp; its Image says which JSON value a
--                       payload value is, its Distinct where there is one
--   Runtime/Outbox      EngineOutbox.hpp and .cpp; its Delivery is the abstract view
--   Runtime/InputParser EngineInputParser.hpp and .cpp: Fields (the readers of single fields)
--   Runtime/Requests    the remembered requests of src/runtime/EngineRuntime.cpp
--   Runtime/Events      the market events that it makes itself; its Fields lists what it states of one
--   Runtime/Risk        its positions, risk states, reduce-only check, liquidation and deleveraging,
--                       on the states of include/runtime/EngineEventTranslator.hpp
--   Runtime/Text        the template text of src/runtime/EngineRuntime.cpp
-- The modules below these prove theorems about them; the Tests of each part hold concrete
-- instances.
--
-- State: a C++ method that changes its object is a function from the state to the state, with its
-- result beside it. A Price is an integer and a Quantity a natural number; where an unsigned word of
-- the source can wrap, the model writes the remainder by its range. Hash maps are association lists.
-- An order lies in the list of its level, oldest first, which stands for the chain of nextOrder; a
-- PriceLevel* is the place of the level (a slot of the ring or a key of the map), and an Order* is
-- such a place with the order's id. A 64-bit word of the bitmap is the list of its bits. An exception
-- of the price parser is a value of ParseError, one of the adapter a value of AdapterError, one of the
-- parsers of messages and inputs a value of JsonError, ProtocolError or InputError. A text is the list
-- of its bytes. An object of JSON is the list of its members by rising key, and a payload, an
-- unordered map, the list of its entries in the order of iteration. The publisher of the outbox is a
-- parameter: a state, and for each record the next state and perhaps an error. The int64_t of positions
-- and risk is an integer: where the source's arithmetic would overflow it has no meaning.
--
-- Fuel: the matching loop runs on fuel, one round for each order resting on the other side and two
-- more. A round either fills the maker, which leaves the book, or the incoming order, which ends the
-- loop. The parser of messages runs on four calls for each byte of its text and four more: a value is
-- at most three calls away from the byte that it takes. The loop of a string takes a byte in each
-- round.
--
-- Not modelled: the chain's pointers themselves, and the memory that they own; the loop of the runtime
-- and the rest of its events, the translation of events, checkpoints, recovery, broker and application.
pub mod Base
pub mod Core
pub mod Adapter
pub mod Runtime
pub mod Protocol
