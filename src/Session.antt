-- ===== src/Session.antt =====
-- A client node and a remote node that hand each other what they write: src/olink/clientnode.cpp,
-- remotenode.cpp and core/basenode.cpp together.
use objectlink_core_cpp.Prelude.{
  ℕ, ◌+◌, ◌^◌, ◌<◌, ◌≤◌, ◌≡◌, ap, ◌∙◌, true, false, [], ◌∷◌, Option, ◌++◌, some, Str, length, arith,
}
use objectlink_core_cpp.Exec.{ok, pure, continue, catch_json}
use objectlink_core_cpp.Types.{LogLevel, ℤ}
use objectlink_core_cpp.Name
use objectlink_core_cpp.Map.{nat_key, Map, find, insert}
use objectlink_core_cpp.Map.Laws.{find-insert}
use objectlink_core_cpp.Json.{JsonLib, ValueLaws}
use objectlink_core_cpp.World.{World, wrote}
use objectlink_core_cpp.Converter.{MessageConverter}
use objectlink_core_cpp.Protocol.{Listener, parse_error, invoke_message, invoke_reply_message}
use objectlink_core_cpp.Protocol.Message.{Message, deliver, invoke, invoke_reply}
use objectlink_core_cpp.BaseNode.{Node, set_error}
use objectlink_core_cpp.Protocol.RoundTrip.{delivered}
use objectlink_core_cpp.BaseNode.Incoming.{finish, handle_message_receives}
use objectlink_core_cpp.BaseNode.Outgoing.{IsQuiet}
use objectlink_core_cpp.ClientNode
use objectlink_core_cpp.ClientNode.{ClientWorld, ClientUser, invoke_remote}
use objectlink_core_cpp.ClientNode.Invokes.{
  HasIds, entered, forget, invoke_remote_sends, handle_invoke_reply_calls,
}
use objectlink_core_cpp.RemoteNode
use objectlink_core_cpp.RemoteNode.{RemoteWorld, RemoteUser}
use objectlink_core_cpp.RemoteNode.Sources.{IsSilent, HasSource, handle_invoke_replies}
pub mod Linking
pub mod Pipeline
pub mod Properties
pub mod Signals
pub mod Unlinking

-- A receiver reads the text, which is within its limit, as the value.
pub record Arrives (J : JsonLib) (c : MessageConverter) (j : J.Json) (s : Str) : Type 0 where
  pub decoded : J.decode c.format s ≡ ok j
  pub kept : J.is_discarded j ≡ false
  pub short : length s ≤ c.max_message_size

-- A handler that returns leaves its state.
pub finish-delivered :
    {D R : Type 0} (J : JsonLib) (listener : Listener J (World (Node D) R)) (m : Message J ℤ)
    (w w' : World (Node D) R)
    → deliver J listener m (set_error [] w) ≡ (ok tt, w')
    → finish J listener (delivered J set_error listener m w) ≡ (ok tt, w')
unfolding finish
finish-delivered J listener m w w' e =
    ap
      (λ r. finish J listener (
        catch_json (λ _. continue r.0 (λ _. pure true) r.1) (parse_error J set_error listener)
          (set_error [] w)))
      e

module _ (J : JsonLib) (L : ValueLaws J) (client_user : ClientUser J)
    (remote_user : RemoteUser J) where
  -- The client after a call whose text is written.
  abbrev pub after_call : ℕ → ℕ → Str → ClientWorld → ClientWorld
  after_call reply func s c = record c {
    node = record c.node { derived = entered (some reply) c.node.derived };
    trace = c.trace ++ wrote func s ∷ [];
  }

  -- A remote node that gets the text of a call of a live source answers with the text of the reply.
  pub remote_answers :
      (id : ℕ) (m : Str) (args value : J.Json) (source func : ℕ) (q a : Str) (r r' : RemoteWorld)
      → id < 2 ^ 32
      → IsSilent r
      → HasSource (Name.get_object_id m) source r
      → Arrives J r.node.base.converter (invoke_message J id m args) q
      → remote_user.on_invoke source m args (set_error [] r) ≡ (ok value, r')
      → IsQuiet LogLevel.debug r'
      → r'.node.base.write_func ≡ some func
      → J.encode r'.node.base.converter.format (invoke_reply_message J id m value) ≡ ok a
      → RemoteNode.handle_message J remote_user q r
        ≡ (ok tt, record r' { trace = r'.trace ++ wrote func a ∷ [] })
  unfolding RemoteNode.handle_message set_error
  remote_answers id m args value source func q a r r' h silent has t i qd wf e =
      handle_message_receives J (RemoteNode.listener J remote_user) L q (invoke id m args) r h
        t.short t.decoded t.kept
      ∙ finish-delivered J (RemoteNode.listener J remote_user) (invoke id m args) r _ (
          handle_invoke_replies J remote_user id m args value source func a (set_error [] r) r'
            (record { node = silent.node; registry = silent.registry }) has i qd wf e)

  -- A client that gets the text of a reply to a pending call calls its reply function.
  pub client_receives :
      (id : ℕ) (m : Str) (value : J.Json) (reply : ℕ) (a : Str) (c c' : ClientWorld)
      → id < 2 ^ 32
      → IsQuiet LogLevel.info c
      → find id c.node.derived.invokes_pending ≡ some (some reply)
      → Arrives J c.node.base.converter (invoke_reply_message J id m value) a
      → client_user.on_reply reply m value (forget id (set_error [] c)) ≡ (ok tt, c')
      → ClientNode.handle_message J client_user a c ≡ (ok tt, c')
  unfolding ClientNode.handle_message set_error
  client_receives id m value reply a c c' h quiet f t e =
      handle_message_receives J (ClientNode.listener J client_user) L a (invoke_reply id m value) c
        h t.short t.decoded t.kept
      ∙ finish-delivered J (ClientNode.listener J client_user) (invoke_reply id m value) c _
          (handle_invoke_reply_calls J client_user id m value reply (set_error [] c) quiet f ∙ e)

  -- A call there and back: when the texts of the call and of the reply arrive as they were written,
  -- and nothing is logged, `invokeRemote` writes one text; the remote node that gets it calls the
  -- live source of the object and writes one text; and the client, when it gets that next, calls
  -- the reply function of the call with the value that the source returned, the call being no
  -- longer pending.
  pub call_returns :
      (m : Str) (args value : J.Json) (reply source cf rf : ℕ) (q a : Str) (c c' : ClientWorld)
      (r r' : RemoteWorld)
      → HasIds c.node.derived
      → IsQuiet LogLevel.info c
      → IsQuiet LogLevel.debug c
      → c.node.base.write_func ≡ some cf
      → J.encode c.node.base.converter.format
          (invoke_message J (c.node.derived.next_request_id + 1) m args)
        ≡ ok q
      → Arrives J r.node.base.converter
          (invoke_message J (c.node.derived.next_request_id + 1) m args)
          q
      → IsSilent r
      → HasSource (Name.get_object_id m) source r
      → remote_user.on_invoke source m args (set_error [] r) ≡ (ok value, r')
      → IsQuiet LogLevel.debug r'
      → r'.node.base.write_func ≡ some rf
      → J.encode r'.node.base.converter.format
          (invoke_reply_message J (c.node.derived.next_request_id + 1) m value)
        ≡ ok a
      → Arrives J c.node.base.converter
          (invoke_reply_message J (c.node.derived.next_request_id + 1) m value)
          a
      → client_user.on_reply reply m value
          (forget (c.node.derived.next_request_id + 1) (set_error [] (after_call reply cf q c)))
        ≡ (ok tt, c')
      → (invoke_remote J client_user m args (some reply) c ≡ (ok tt, after_call reply cf q c))
        × (RemoteNode.handle_message J remote_user q r
            ≡ (ok tt, record r' { trace = r'.trace ++ wrote rf a ∷ [] }))
        × (ClientNode.handle_message J client_user a (after_call reply cf q c) ≡ (ok tt, c'))
  call_returns m args value reply source cf rf q a c c' r r' ids qi qd wc ec arrives silent has i qr
        wr er back e =
      (
        invoke_remote_sends J client_user m args (some reply) cf q c ids qi qd wc ec,
        remote_answers (c.node.derived.next_request_id + 1) m args value source rf q a r r' ids.1
            silent has arrives i qr wr er,
        client_receives (c.node.derived.next_request_id + 1) m value reply a
            (after_call reply cf q c) c' ids.1 qi
            (pending (c.node.derived.next_request_id + 1) (some reply)
              c.node.derived.invokes_pending)
            back e,
      )
    where
      pending :
          (id : ℕ) (func : Option ℕ) (calls : Map ℕ (Option ℕ))
          → find id (insert id func calls) ≡ some func
      pending id func calls = ground (arith, find-insert id id func calls)
