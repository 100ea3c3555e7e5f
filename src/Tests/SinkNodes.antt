-- ===== src/Tests/SinkNodes.antt =====
-- Two methods of a sink of the calculator, by a client node.
use objectlink_core_cpp.Prelude.{true, some, List, [], ◌∷◌}
use objectlink_core_cpp.Types.{pos}
use objectlink_core_cpp.Examples.CalcSink.{CalcSink}
use objectlink_core_cpp.Examples.Requests.{Request, adds, sets}
use objectlink_core_cpp.Tests.Toy.{lib}

abbrev requests : List Request
requests = adds (pos 2) ∷ sets (pos 7) ∷ []

abbrev linked_sink : CalcSink lib
linked_sink = record { total = pos 0; ready = true; name = []; node = some 3; outputs = [] }
