-- ===== src/Tests/Messages.antt =====
-- Messages on concrete values.
use objectlink_core_cpp.Prelude.{ℕ, ◌≡◌, refl, ◌⊎◌, true, false, [], ◌∷◌, some, Str, text, arith}
use objectlink_core_cpp.Exec.{Exec, ok, throw, json_error}
use objectlink_core_cpp.Types.{LogLevel, ℤ, MsgType, MessageFormat}
use objectlink_core_cpp.World.{World, marked, emit}
use objectlink_core_cpp.Protocol
use objectlink_core_cpp.Protocol.{Listener, link_message}
use objectlink_core_cpp.Protocol.Message.{Message, link, invoke, compose, received, Carries}
use objectlink_core_cpp.Protocol.RoundTrip.{delivered, handle_message-compose}
use objectlink_core_cpp.Protocol.Dispatch.{handle_message-cases}
use objectlink_core_cpp.Logger
use objectlink_core_cpp.Logger.{Logger, log_target}
use objectlink_core_cpp.BaseNode.{BaseNode, Node, set_error, emit_write, handle_message}
use objectlink_core_cpp.BaseNode.Incoming.{handle_message-ok}
use objectlink_core_cpp.BaseNode.Outgoing.{IsQuiet, emit_write_bson}
use objectlink_core_cpp.Tests.Toy.{lib, values, gets, bsons, null}

abbrev pub TestWorld : Type 0
TestWorld = World (Node Unit) Unit

abbrev pub mark : ℕ → Str → Exec TestWorld Unit
mark n s = emit (marked n s)

-- A listener that marks each call.
abbrev pub marks : Listener lib TestWorld
marks = record {
  handle_link = λ o. mark 0 o;
  handle_unlink = λ o. mark 1 o;
  handle_init = λ o v. mark 2 o;
  handle_set_property = λ p v. mark 3 p;
  handle_property_change = λ p v. mark 4 p;
  handle_invoke = λ n m v. mark 5 (n ∷ m);
  handle_invoke_reply = λ n m v. mark 6 (n ∷ m);
  handle_signal = λ g v. mark 7 g;
  handle_error = λ t n e. mark 8 e;
}

abbrev pub base_with : MessageFormat → BaseNode
base_with f = record {
  logger = Logger.init;
  write_func = some 4;
  converter = record { format = f; max_message_size = 100 };
  last_error = [];
}

abbrev pub world : MessageFormat → TestWorld
world f = record {
  node = record { base = base_with f; derived = tt };
  registry = tt;
  live = λ o. true;
  trace = [];
}

abbrev a_call : Message lib MsgType
a_call = invoke 3 (text "demo.Counter/inc") null

handle_message-compose_example :
    Protocol.handle_message lib set_error marks (compose lib a_call) (world MessageFormat.json)
    ≡ delivered lib set_error marks (received lib a_call) (world MessageFormat.json)
handle_message-compose_example =
    handle_message-compose lib set_error marks values a_call (world MessageFormat.json)
      (omega arith)

handle_message-cases_example :
    ((why : Str) × (Protocol.handle_message lib set_error marks null (world MessageFormat.json)
        ≡ (ok false, set_error why (set_error [] (world MessageFormat.json)))))
    ⊎ ((m : Message lib ℤ) × Carries lib null m
        × (Protocol.handle_message lib set_error marks null (world MessageFormat.json)
            ≡ delivered lib set_error marks m (world MessageFormat.json)))
handle_message-cases_example =
    handle_message-cases lib set_error marks gets null (world MessageFormat.json)

handle_message-ok_example :
    (handle_message lib marks (text "garbage") (world MessageFormat.json)).0 ≡ ok tt
handle_message-ok_example = handle_message-ok lib marks (text "garbage") (world MessageFormat.json)

abbrev small : TestWorld
small = record (world MessageFormat.json) {
  node = record {
    base = record (base_with MessageFormat.json) {
      converter = record { format = MessageFormat.json; max_message_size = 3 };
    };
    derived = tt;
  };
}

abbrev a_link : Message lib MsgType
a_link = link (text "o")

abbrev pub link_text : Str
link_text = 0 ∷ 2 ∷ 10 ∷ 0 ∷ 1 ∷ 1 ∷ b'o' ∷ 4 ∷ []

pub link_encoded : lib.encode MessageFormat.json (compose lib a_link) ≡ ok link_text
unfolding link_message
link_encoded = refl

link_decoded : lib.decode MessageFormat.json link_text ≡ ok (compose lib a_link)
unfolding link_message
link_decoded = refl

link_kept : lib.is_discarded (compose lib a_link) ≡ false
unfolding link_message
link_kept = refl

world-IsQuiet : (f : MessageFormat) → IsQuiet LogLevel.debug (world f)
unfolding log_target
world-IsQuiet f = refl

emit_write_bson_example :
    (e : Str) × (emit_write lib (compose lib a_call) (world MessageFormat.bson)
      ≡ (throw (json_error e), world MessageFormat.bson))
emit_write_bson_example =
    emit_write_bson lib bsons a_call 4 (world MessageFormat.bson) refl
      (world-IsQuiet MessageFormat.bson) refl
