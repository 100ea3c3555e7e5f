-- ===== src/Lib.antt =====
-- The core of ObjectLink in C++: a protocol of JSON messages that links objects of a service
-- (sources) with their counterparts on clients (sinks), as a model with theorems.
--
-- The program (src/olink in the repository). A network layer hands each text that arrives to
-- `BaseNode::handleMessage`, which decodes it (`MessageConverter`), checks it and calls one of nine
-- handlers (`Protocol::handleMessage`); it sends what `BaseNode::emitWrite` writes. `ClientNode` and
-- `RemoteNode` are the two ends. A client node sends link, unlink, invoke and set property, keeps the
-- reply functions of its calls by request id, and hands init, property change and signal to the sink
-- that `ClientRegistry` has for the object. A remote node hands what clients send to the source that
-- `RemoteRegistry` has for the object, and answers. Both registries give node ids by
-- `UniqueIdObjectStorage`.
--
-- The files, with the code they model (a class per file; a method is the function of its name in
-- snake_case, a member the field of its name without m_):
--   Types, Name, Converter, Logger: src/olink/core/types.h and types.cpp, the enums, `Name`,
--     `MessageConverter` and `LoggerBase`.
--   Protocol: src/olink/core/protocol.h and protocol.cpp. `xMessage` is `x_message`, each case of the
--     switch in `handleMessage` is an `x_case`. Protocol/Message says what a value that carries a
--     message is; Protocol/RoundTrip, /Cases and /Dispatch are about composing and dispatching.
--     Protocol/Noexcept and BaseNode/Noexcept: the build without exceptions.
--   BaseNode: src/olink/core/basenode.h and basenode.cpp; BaseNode/Incoming and /Outgoing.
--   Storage: src/olink/core/uniqueidobjectstorage.h; Storage/Search, /Invariant, /Ids, /Contract,
--     /Guarantees, /Repeats and /Rounds (the ids of a run of calls); Storage/Deadlock: the search of
--     `add`, while other threads let objects go.
--   ClientRegistry, RemoteRegistry: src/olink/clientregistry.h and .cpp, remoteregistry.h and .cpp. In
--     each, Calls says what a method leaves and Entries is the abstract specification by entry;
--     Linking, Invariant and LiveNodes are what follows from it, and Runs what it says of runs of
--     calls. ClientRegistry/Threads and RemoteRegistry/Threads: several threads, while nodes are
--     created and destroyed; Lifetimes is what the two have in common.
--   ClientNode, RemoteNode: src/olink/clientnode.h and .cpp, remotenode.h and .cpp; ClientNode/Invokes,
--     /Sinks, /Threads (several threads that share the pending calls) and /Shutdown (the destructor),
--     RemoteNode/Sources. The fields of `ClientUser` and `RemoteUser` are the methods of
--     src/olink/iobjectsink.h and iobjectsource.h; ClientNode/Interface is src/olink/iclientnode.h.
--   Session: a client node and a remote node that hand each other what they write: a call, and in
--     Session/Linking a link, in Session/Unlinking an unlink, in Session/Properties a property that
--     is set, in Session/Signals a signal. Session/Pipeline: any number of calls at once over a
--     transport that keeps the order, against calls one after the other (/Serial); /Numbering,
--     /Moves, /Invariant and /Splits lead to /Answers.
--   ConsoleLogger: src/olink/consolelogger.cpp.
--   Examples: the service and the client of a calculator and the queue of the Qt transport.
--     CalcSource: examples/server/calcsource.h and .cpp; CalcSink: examples/app/calcsink.h and .cpp;
--     Requests, Follows and Mirror: both together; SinkNode: the sink with a client node; Transport
--     and SourceLink: examples/qtolink/olinkclient.h and .cpp, olinkremote.cpp. Outcome: code that
--     may also be undefined. Int: sums of `int`.
--   Prelude, Map, Exec, World, Json: texts and numbers, ordered maps (std::map and
--     std::unordered_map), code that throws, the state that methods work on, and the JSON library.
--   Tests: a small JSON library and the theorems at concrete inputs.
--
-- How it is modelled. A method is a function from the state to a result or an exception and the next
-- state (`Exec`). The state (`World`) holds the node, the registry, which objects have an owner, and
-- the trace of calls of the log and write functions. A weak pointer is the number of its object or
-- nothing; `live` says whether that has an owner. Sinks, sources and reply functions are user code:
-- parameters that may change the whole world and throw. The log and write functions are taken to
-- return. What carries the texts between two nodes is not part of the program: Session/Pipeline takes
-- one that hands over each text once and in order. A text is the list of its bytes. `unsigned long`
-- has 64 bits and `unsigned int` 32, with the wrap written out. The JSON library (nlohmann::json),
-- which the build fetches, is the parameter `JsonLib`; ValueLaws, ObjectLaws, GetLaws and BsonLaws are its documented behaviour. The program
-- is the one built with exceptions (OLINK_HAS_EXCEPTIONS), but in the files named Noexcept, and user
-- code throws standard exceptions only.
--
-- Fuel. The search for an unused id (`search_unused`) has the maximum count as fuel: it visits each id
-- once at most before it is back where it started. `decimal` has the number plus one, which is more
-- than its digits.
--
-- Threads. Each method is one step under its mutex, but in ClientNode/Threads, ClientRegistry/Threads
-- and RemoteRegistry/Threads: there a step is a locked section of a method, or what a thread does
-- outside of one, in any order. In the registries a node dies when no thread holds it, its destructor
-- unregisters it in two locked sections, which is the only call of `unregisterNode` that is a step (a
-- public call of it for a node that is still in use is not modelled there), and nodes are created while the storage has room: a full one
-- drops the ids of nodes whose destructors have not run yet. The owners that the storage itself has for
-- a moment, when it compares pointers, are left out there; they are what Storage/Deadlock is about.
--
-- The examples. A method is a function from the members to an outcome (`Run`), which may be undefined.
-- The calls of a node and the Qt signals are recorded in order; what is printed is left out. The
-- texts of Qt are a parameter, and its socket is whether it is connected and what it was asked to send.
--
-- Not modelled: the interleaving of threads within the methods of the logger; the main programs of the
-- examples, and `OLinkHost` and the set-up of sockets, which are calls of Qt.
pub mod Prelude
pub mod Map
pub mod Storage
pub mod Exec
pub mod Types
pub mod Name
pub mod Json
pub mod Converter
pub mod World
pub mod Logger
pub mod Protocol
pub mod BaseNode
pub mod ClientRegistry
pub mod Lifetimes
pub mod RemoteRegistry
pub mod ClientNode
pub mod RemoteNode
pub mod Tests
pub mod Session
pub mod Int
pub mod ConsoleLogger
pub mod Examples
