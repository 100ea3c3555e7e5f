-- ===== src/Tests/Remotes.antt =====
-- A remote node on concrete values.
use objectlink_core_cpp.Prelude.{ℕ, ◌≡◌, refl, Bool, true, false, [], ◌∷◌, some, Str, text, str_beq}
use objectlink_core_cpp.Exec.{ok, pure, ◌>>◌}
use objectlink_core_cpp.Types.{LogLevel, pos, MessageFormat}
use objectlink_core_cpp.Map.{str_key, nat_key, find}
use objectlink_core_cpp.Logger
use objectlink_core_cpp.Logger.{log_target}
use objectlink_core_cpp.World.{marked, emit}
use objectlink_core_cpp.Storage
use objectlink_core_cpp.Storage.{Storage, lock}
use objectlink_core_cpp.Name
use objectlink_core_cpp.Protocol.{invoke_reply_message}
use objectlink_core_cpp.BaseNode.Outgoing.{IsQuiet}
use objectlink_core_cpp.RemoteRegistry.{SourceToNodesEntry, source_of}
use objectlink_core_cpp.RemoteNode.{RemoteWorld, RemoteUser}
use objectlink_core_cpp.RemoteNode.Sources as Sources
use objectlink_core_cpp.RemoteNode.Sources.{
  HasSource, handle_link_links, handle_invoke_replies, handle_invoke_throws, handle_invoke_unknown,
}
use objectlink_core_cpp.Tests.Toy.{lib, null, print}
use objectlink_core_cpp.Tests.Messages.{base_with}

abbrev all_live : ℕ → Bool
all_live o = true

abbrev nodes : Storage
nodes = record { max_count = 9; objects = (3, some 30) ∷ []; counter = 4; overflowed = false }

-- a remote node whose registry has the source 7 for an object
abbrev pub remote : RemoteWorld
remote = record {
  node = record { base = base_with MessageFormat.json; derived = record { node_id = 3 } };
  registry = record {
    logger = Logger.init;
    entries = (text "demo", record { source = some 7; nodes = [] }) ∷ [];
    nodes_by_id = nodes;
  };
  live = all_live;
  trace = [];
}

-- A source that marks each call and answers null.
abbrev pub remote_user : RemoteUser lib
remote_user = record {
  on_invoke = λ s m v. emit (marked s m) >> pure null;
  on_set_property = λ s p v. emit (marked s p);
  on_linked = λ s o. emit (marked s o);
  on_unlinked = λ s o. emit (marked s o);
  collect_properties = λ s. pure null;
}

pub remote-IsSilent : Sources.IsSilent remote
unfolding log_target
remote-IsSilent = record { node = refl; registry = refl }

pub has_source : HasSource (text "demo") 7 remote
unfolding lock source_of find str_beq
has_source = refl

pub has_member_source : HasSource (Name.get_object_id (text "demo/inc")) 7 remote
unfolding lock source_of find str_beq Name.get_object_id
has_member_source = refl

abbrev pub entry : SourceToNodesEntry
entry = record { source = some 7; nodes = [] }

pub entry_there : find (text "demo") remote.registry.entries ≡ some entry
unfolding find str_beq
entry_there = refl

pub node_there : lock all_live (Storage.get 3 nodes) ≡ some 30
unfolding lock Storage.get find
node_there = refl

abbrev pub reply_text : Str
reply_text =
    print (
      lib.array (lib.of_int (pos 31) ∷ lib.of_uint 6 ∷ lib.of_string (text "demo/inc") ∷ null ∷ []))

pub reply_encoded :
    lib.encode MessageFormat.json (invoke_reply_message lib 6 (text "demo/inc") null)
    ≡ ok reply_text
unfolding invoke_reply_message
reply_encoded = refl

abbrev pub called : RemoteWorld
called = record remote { trace = marked 7 (text "demo/inc") ∷ [] }

pub called-IsQuiet : IsQuiet LogLevel.debug called
unfolding log_target
called-IsQuiet = refl
