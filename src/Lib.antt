-- ===== src/Lib.antt =====
-- Models of openfix, a FIX engine: the session layer and the storage and text layers under it.
--
-- The program. A session (src/Session.cpp) is driven by two calls: the network gives it the text of
-- a message (`onNetworkMessage`), and a timer calls `onNetworkUpdate`. It validates messages
-- against its settings and its state, orders them by sequence number, answers the session
-- protocol, and gives application messages to the client's delegate. Its sequence numbers, its
-- sent messages and its early messages are in a cache (src/FIXCache.cpp), which writes through a
-- store handle (src/FIXStore.cpp) to a writer that a thread flushes to disk (lib/FileUtils.cpp).
-- Messages are maps of fields in order (src/Message.cpp, lib/LinkedHashMap.h) that are rendered
-- to wire texts with a body length and a checksum (src/Checksum.h). Packets leave through the
-- network handler of the session (src/Network.cpp).
--
-- The files.
--   Prelude           shared names; Tests: Boolean tests, Lists: lists and bytes, Word: integers.
--                     An `int` n is the code n + 2^31 and a `long` n the code n + 2^63, so that
--                     the native natural numbers order them; the sums of them wrap. Int: integers.
--   LinkedHashMap     lib/LinkedHashMap.h: a list of entries by key; Laws: its lookups.
--   Fields            src/Fields.h and src/Messages.h: the tags and the message types.
--   Message           src/Message.h and src/Message.cpp: the field map with its groups and spec,
--                     its lookups, `insertFieldView`; Order: ordered insertion; Serialize:
--                     `serializeTo` with `appendGroup`; External: the external text; Spec:
--                     GroupSpec with its lookup arrays; Parsing: what the parser calls (the bitset
--                     of seen tags, `addGroup`, `sortFields`); Sorted: the laws of those.
--   Checksum          src/Checksum.h; Simd: the SSE2 and AVX2 paths.
--   Writer            lib/FileUtils.cpp: `write`, `writeRaw`, `writeMessage`, `reset` and the body
--                     of `flushInstances`; Content: what reaches the file.
--   Store             src/FIXStore.cpp: the records of a data file and its loading; RoundTrip.
--   Cache             src/FIXCache.cpp: every operation of MemoryCache; Durable, Mirror and
--                     Changes: its data file; Replay: `getMessages`.
--   Network.Framing   src/Network.cpp: ReadBuffer, with getTagValueView of lib/Utils.h; Search, Grows
--                     and Chunks: bytes that arrive behind; Whole: texts of the serializer.
--   Network.Handler   src/Network.cpp: NetworkHandler; Sound: sequences of its critical
--                     sections, and of the two stores of `invalidate`, which takes no lock.
--   Network.Reader    src/Network.cpp: the tables of ReaderThread and `processRead`; Linked: which
--                     handler a descriptor has.
--   Network.Writes    src/Network.cpp: trySend, queueWrite and flushWrite without TLS; Drain and
--                     Stream: the bytes in their order.
--   Dictionary        src/Dictionary.h and src/Dictionary.cpp: the dictionary and fastParseTag; State:
--                     the locals of `parse`, where a pointer to a map is a path into the message;
--                     Groups: validateGroup, overwriteStack, setField, handleRepeatingTag and
--                     trySetField; Parse: dispatchField, the loop and the verification. Accept,
--                     Ends, Noted, Digits and RoundTrip are about `parse`: what it accepts, that it
--                     ends, where it notes the start of the body,
--                     tags and lengths, and texts of the serializer. RoundTrip.Run, Part and
--                     Transitions follow the loop within a part and from one to the next.
--   Dictionary.Load   src/Dictionary.cpp: DictionaryRegistry::load. Load: documents and errors; Graph: the
--                     fields, the components' graph and its sorting; Build: `buildGroup`; Registry:
--                     the whole of it. Consistent, Lookups, Toposort and Sorted are about them.
--   Utils             lib/Utils.h: `parseUTCTimestamp` and `writeUTCTimestamp`; Calendar: days counted
--                     by the lengths of years and months; Timestamps.
--   Config            src/Config.h: settings, their loading (Typed, Written) and declarations (Declared).
--   CpuOrchestrator   lib/CpuOrchestrator.cpp; Lists: lists of CPUs; Nodes: NUMA nodes; Binding:
--                     threads and cores.
--   Dispatcher        lib/Dispatcher.cpp: the timer; Rounds: a round of its thread.
--   Session           src/Session.cpp, in State (members, environment, monad), Send, Recovery
--                     (`runMessageRecovery`), Validate (`validateMessage`, `validateSeqNum`),
--                     Handlers (`handleLogon` and its like), Receive (`processMessage`,
--                     `onNetworkMessage`) and Update (`internal_update`, `onNetworkUpdate`).
--                     Rules, Frame and Quiet are rules on what actions leave alone; Accept, Sent,
--                     Resets, Silence, GapFill and Quiet.InOrder are about single operations.
--   Tests             concrete sessions and messages, and the theorems applied to them.
--
-- How state is modelled. Each component's state is a record and each operation a function on it.
-- An action of a session is a function to an outcome and a session: an exception (`threw`) leaves
-- the session that it was thrown in. What a session does outside (packets, log lines, calls of the
-- delegate) is its list of events, newest first.
--
-- Fuel. `Store.load_loop` has as fuel one more than the length of the file: each round takes a byte at
-- least. `Session.Receive.drain` has one more than the number of queued messages: each round takes
-- one away, and a message with the target sequence number is not queued again. `Checksum.Simd` and
-- `Network.Framing.extract_loop` have one more than the length of the text. `Dictionary.Parse.parse_loop` has the length of the text: each
-- round takes a byte at least. An outcome of its own says that the fuel ran out, but for
-- `extract_loop`, of which Framing.Chunks shows that more fuel gives nothing else.
-- `Dictionary.Load.Graph.sort_loop` has one more than the nodes that wait and the degrees that are not 0, and
-- `Dispatcher.run_due` one more than the events: each round takes one of them away.
--
-- What is taken as given. `Dictionary.Load` takes a document as what pugixml answers for it, and the
-- order in which hash maps give their entries; Config a type of doubles with its reader; Utils what
-- gmtime_r with strftime writes; CpuOrchestrator what is under /sys and how binding ends. The record `Session.State.Env` holds what a session takes from code that
-- is not modelled, or is modelled on its own: the clock, the dictionary's parser and specs (which
-- Dictionary models), the timestamp functions of lib/Utils.h, the product with the test request threshold (a double), and the outcomes of socket
-- calls. A string view is the bytes that it shows.
--
-- Not modelled: the sockets, epoll, TLS and threads of src/Network.cpp, the workers of lib/Dispatcher.cpp,
-- the logger and the admin website.
pub mod Prelude
pub mod LinkedHashMap
pub mod Fields
pub mod Message
pub mod Checksum
pub mod Writer
pub mod Store
pub mod Cache
pub mod Dictionary
pub mod Network
pub mod Session
pub mod Utils
pub mod Config
pub mod CpuOrchestrator
pub mod Dispatcher
pub mod Tests
