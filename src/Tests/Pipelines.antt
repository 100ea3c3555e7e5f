-- ===== src/Tests/Pipelines.antt =====
-- A client and a remote node with a source that counts its calls, and two calls whose texts arrive.
use objectlink_core_cpp.Prelude.{ℕ, refl, List, [], ◌∷◌, ◌++◌, Str, text, arith, length}
use objectlink_core_cpp.Exec.{ok}
use objectlink_core_cpp.Types.{pos}
use objectlink_core_cpp.Map.{str_key}
use objectlink_core_cpp.Logger.{log_target}
use objectlink_core_cpp.World.{marked, emit}
use objectlink_core_cpp.Converter.{MessageConverter}
use objectlink_core_cpp.Protocol.{invoke_message, invoke_reply_message}
use objectlink_core_cpp.ClientNode.{ClientWorld, ClientUser}
use objectlink_core_cpp.RemoteNode.{RemoteUser}
use objectlink_core_cpp.Session.Pipeline.{Call, Pipe, marks}
use objectlink_core_cpp.Session.Pipeline.Serial.{Service, IsService, Travels}
use objectlink_core_cpp.Session.Pipeline.Moves.{IsReady}
use objectlink_core_cpp.Session.Pipeline.Invariant.{Holds}
use objectlink_core_cpp.Tests.Toy.{Value, number, null, lib, values, print}
use objectlink_core_cpp.Tests.Clients as Clients
use objectlink_core_cpp.Tests.Remotes as Remotes
use objectlink_core_cpp.Tests.Remotes.{remote, remote-IsSilent, has_member_source}

-- A source that counts its calls.
abbrev pub counter : Service lib
counter = record {
  owner = λ m. 7;
  heard = λ m args. m;
  answer = λ h m args. number (pos (length h));
  told = λ m value. m ++ print value;
}

abbrev pub client_user : ClientUser lib
client_user = record Clients.client_user { on_reply = λ f m v. emit (marked f (m ++ print v)) }

abbrev pub remote_user : RemoteUser lib
remote_user = record Remotes.remote_user {
  on_invoke = λ s m v r.
      (ok (number (pos (length (marks r.trace)))), record r { trace = r.trace ++ marked s m ∷ [] });
}

pub counter-IsService : IsService lib counter client_user remote_user
counter-IsService = record { invoked = λ m args r. refl; replied = λ f m v c. refl }

abbrev pub client : ClientWorld
client = record Clients.client {
  node = record Clients.client.node {
    derived = record { node_id = 3; next_request_id = 0; invokes_pending = [] };
  };
}

abbrev pub converter : MessageConverter
converter = client.node.base.converter

pub nodes-IsReady : IsReady converter 4 4 client remote
unfolding log_target
nodes-IsReady = record {
  client_info = refl;
  client_debug = refl;
  client_writes = refl;
  client_conv = refl;
  remote_silent = remote-IsSilent;
  remote_debug = refl;
  remote_writes = refl;
  remote_conv = refl;
}

abbrev pub first_call : Call lib
first_call = record { method = text "demo/inc"; args = null; func = 60 }

abbrev pub second_call : Call lib
second_call = record { method = text "demo/inc"; args = number (pos 2); func = 61 }

abbrev pub marked_calls : List (ℕ × Str)
marked_calls = (7, text "demo/inc") ∷ []

pub first-Travels : Travels lib counter converter remote 0 [] first_call
unfolding invoke_message invoke_reply_message
first-Travels = record {
  numbered = omega arith;
  owned = has_member_source;
  asked = record {
    encoded = refl;
    arrives = record { decoded = refl; kept = refl; short = omega arith };
  };
  answered = record {
    encoded = refl;
    arrives = record { decoded = refl; kept = refl; short = omega arith };
  };
}

pub second-Travels : Travels lib counter converter remote 1 marked_calls second_call
unfolding invoke_message invoke_reply_message
second-Travels = record {
  numbered = omega arith;
  owned = has_member_source;
  asked = record {
    encoded = refl;
    arrives = record { decoded = refl; kept = refl; short = omega arith };
  };
  answered = record {
    encoded = refl;
    arrives = record { decoded = refl; kept = refl; short = omega arith };
  };
}

abbrev pub Between : List (Call lib) → List (Call lib) → List (Call lib) → Pipe → Type 0
Between =
    Holds lib values client_user remote_user counter counter-IsService converter 4 4 client remote
      nodes-IsReady

abbrev pub request_of : ℕ → Value → Str
request_of id args =
    print
      (lib.array (number (pos 30) ∷ number (pos id) ∷ lib.of_string (text "demo/inc") ∷ args ∷ []))

abbrev pub reply_of : ℕ → Value → Str
reply_of id value =
    print
      (lib.array (number (pos 31) ∷ number (pos id) ∷ lib.of_string (text "demo/inc") ∷ value ∷ []))
