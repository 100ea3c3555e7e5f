-- ===== src/Tests/Shutdowns.antt =====
-- The destructor of a client node that has two objects linked.
use objectlink_core_cpp.Prelude.{
  ◌≡◌, refl, false, List, [], ◌∷◌, ◌++◌, map, none, some, Str, text, arith, ◌==◌,
}
use objectlink_core_cpp.Exec.{ok}
use objectlink_core_cpp.Map.{str_key, find}
use objectlink_core_cpp.Map.Sorted.{matches}
use objectlink_core_cpp.Logger.{log_target}
use objectlink_core_cpp.Storage
use objectlink_core_cpp.World.{marked}
use objectlink_core_cpp.World.Writes.{texts, trace-Writes}
use objectlink_core_cpp.Protocol.{unlink_message}
use objectlink_core_cpp.ClientRegistry
use objectlink_core_cpp.ClientRegistry.{SinkToClientEntry}
use objectlink_core_cpp.ClientNode.{ClientWorld, destroy}
use objectlink_core_cpp.ClientNode.Shutdown.{CanUnlink, destroy_unlinks}
use objectlink_core_cpp.Tests.Toy.{lib, print}
use objectlink_core_cpp.Tests.Clients.{client, client_user}

-- Node 3 is the node of `demo` and of `heat`, not of `light`.
abbrev linked_client : ClientWorld
linked_client = record client {
  registry = record client.registry {
    entries =
        (text "demo", record { sink = some 7; node_id = 3 })
        ∷ (text "heat", record { sink = none; node_id = 3 })
        ∷ (text "light", record { sink = some 8; node_id = 2 })
        ∷ [];
  };
}

abbrev unlink_text : Str → Str
unlink_text o = print (unlink_message lib o)

linked_client-CanUnlink : CanUnlink lib client_user 4 unlink_text linked_client.node
unfolding log_target texts unlink_message
linked_client-CanUnlink = record {
  quiet = refl;
  write_func = refl;
  encoded = λ o. refl;
  releases =
      λ sink w n. trace-Writes 4 (client_user.on_release sink) w (marked sink [] ∷ []) [] refl refl;
}

destroy_unlinks_example :
    (ids : List Str) × (w' : ClientWorld) × (ClientRegistry.get_object_ids 3 linked_client
      ≡ (ok ids, linked_client))
    × (destroy lib client_user linked_client ≡ (ok tt, w'))
    × (texts 4 w'.trace ≡ texts 4 [] ++ map unlink_text ids)
    × ((o : Str)
        → matches (λ (e : SinkToClientEntry). e.node_id == 3) (find o w'.registry.entries) ≡ false)
    × (Storage.get 3 w'.registry.nodes_by_id ≡ none)
destroy_unlinks_example =
    destroy_unlinks lib client_user 4 unlink_text linked_client linked_client-CanUnlink
      (ground arith)
