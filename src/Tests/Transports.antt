-- ===== src/Tests/Transports.antt =====
-- A client of the Qt transport on concrete values.
use objectlink_core_cpp.Prelude.{◌≡◌, refl, true, false, List, [], ◌∷◌, ◌++◌, map, Str, text}
use objectlink_core_cpp.Map.{str_key}
use objectlink_core_cpp.Examples.Transport.{
  OLinkClient, Input, writes, connects, disconnects, processes, happen_all, all_sent,
}

abbrev qstring : Str → List Str
qstring s = s ∷ []

abbrev fresh : OLinkClient (List Str)
fresh = record { connected = false; queue = []; sent = [] }

-- two messages before the connection, one while it is there, one after it is lost
abbrev inputs : List Input
inputs =
    writes (text "a")
    ∷ processes
    ∷ writes (text "b")
    ∷ connects
    ∷ writes (text "c")
    ∷ disconnects
    ∷ writes (text "d")
    ∷ []

all_sent_example :
    let c = happen_all qstring inputs fresh in
    (c.sent ++ map qstring c.queue ≡ map qstring (text "a" ∷ text "b" ∷ text "c" ∷ text "d" ∷ []))
    × (c.connected ≡ true → c.sent ≡ map qstring (text "a" ∷ text "b" ∷ text "c" ∷ text "d" ∷ []))
all_sent_example = all_sent qstring inputs fresh refl refl
