-- ===== src/Tests/Clients.antt =====
-- A client node on concrete values.
use objectlink_core_cpp.Prelude.{ℕ, ◌≡◌, refl, Bool, true, false, [], ◌∷◌, some, Str, text, arith}
use objectlink_core_cpp.Exec.{ok}
use objectlink_core_cpp.Types.{LogLevel, pos, MessageFormat}
use objectlink_core_cpp.Map.{str_key, nat_key, find}
use objectlink_core_cpp.Logger
use objectlink_core_cpp.Logger.{log_target}
use objectlink_core_cpp.World.{marked, emit}
use objectlink_core_cpp.Storage.{Storage}
use objectlink_core_cpp.Protocol.{invoke_message, link_message}
use objectlink_core_cpp.BaseNode.Outgoing.{IsQuiet}
use objectlink_core_cpp.ClientNode.{ClientWorld, ClientUser}
use objectlink_core_cpp.ClientNode.Invokes.{HasIds}
use objectlink_core_cpp.ClientNode.Sinks as Sinks
use objectlink_core_cpp.Tests.Toy.{lib, null, print}
use objectlink_core_cpp.Tests.Messages.{base_with}

abbrev pub all_live : ℕ → Bool
all_live o = true

abbrev pub nodes : Storage
nodes = record { max_count = 9; objects = (3, some 30) ∷ []; counter = 4; overflowed = false }

-- a client with the call 5 pending, whose registry has the sink 7 for an object of another node
abbrev pub client : ClientWorld
client = record {
  node = record {
    base = base_with MessageFormat.json;
    derived = record { node_id = 3; next_request_id = 5; invokes_pending = (5, some 50) ∷ [] };
  };
  registry = record {
    logger = Logger.init;
    entries = (text "demo", record { sink = some 7; node_id = 2 }) ∷ [];
    nodes_by_id = nodes;
  };
  live = all_live;
  trace = [];
}

-- A user whose functions mark each call.
abbrev pub client_user : ClientUser lib
client_user = record {
  on_init = λ s o v. emit (marked s o);
  on_property_changed = λ s p v. emit (marked s p);
  on_signal = λ s g v. emit (marked s g);
  on_release = λ s. emit (marked s []);
  on_reply = λ f m v. emit (marked f m);
}

pub client-IsQuiet : IsQuiet LogLevel.info client
unfolding log_target
client-IsQuiet = refl

pub client-IsQuiet_debug : IsQuiet LogLevel.debug client
unfolding log_target
client-IsQuiet_debug = refl

pub client-IsSilent : Sinks.IsSilent client
unfolding log_target
client-IsSilent = record { node = refl; registry = refl }

pub client_ids : HasIds client.node.derived
unfolding find
client_ids = (λ id func e. ground (arith, e), omega arith)

abbrev pub call_text : Str
call_text =
    print (
      lib.array (lib.of_int (pos 30) ∷ lib.of_uint 6 ∷ lib.of_string (text "demo/inc") ∷ null ∷ []))

pub call_encoded :
    lib.encode MessageFormat.json (invoke_message lib 6 (text "demo/inc") null) ≡ ok call_text
unfolding invoke_message
call_encoded = refl

abbrev pub link_text : Str
link_text = print (lib.array (lib.of_int (pos 10) ∷ lib.of_string (text "demo") ∷ []))

pub link_encoded : lib.encode MessageFormat.json (link_message lib (text "demo")) ≡ ok link_text
unfolding link_message
link_encoded = refl
