-- ===== src/Tests/Sessions.antt =====
-- A call there and back on concrete values.
use objectlink_core_cpp.Prelude.{◌≡◌, refl, ◌++◌, [], ◌∷◌, some, text, arith}
use objectlink_core_cpp.Exec.{ok}
use objectlink_core_cpp.World.{wrote, marked}
use objectlink_core_cpp.Protocol.{invoke_message, invoke_reply_message}
use objectlink_core_cpp.BaseNode.{set_error}
use objectlink_core_cpp.ClientNode
use objectlink_core_cpp.ClientNode.{ClientWorld, invoke_remote}
use objectlink_core_cpp.ClientNode.Invokes.{forget}
use objectlink_core_cpp.RemoteNode
use objectlink_core_cpp.Session.{Arrives, after_call, call_returns}
use objectlink_core_cpp.Tests.Toy.{lib, null, values}
use objectlink_core_cpp.Tests.Clients.{
  client, client_user, client-IsQuiet, client-IsQuiet_debug, client_ids, call_text, call_encoded,
}
use objectlink_core_cpp.Tests.Remotes.{
  remote, remote_user, remote-IsSilent, has_member_source, reply_text, reply_encoded, called,
  called-IsQuiet,
}

call-Arrives :
    Arrives lib remote.node.base.converter (invoke_message lib 6 (text "demo/inc") null) call_text
unfolding invoke_message
call-Arrives = record { decoded = refl; kept = refl; short = omega arith }

reply-Arrives :
    Arrives lib client.node.base.converter
      (invoke_reply_message lib 6 (text "demo/inc") null)
      reply_text
unfolding invoke_reply_message
reply-Arrives = record { decoded = refl; kept = refl; short = omega arith }

-- the client when the reply function has been called
abbrev answered : ClientWorld
answered =
    let w =
      forget 6
        (set_error [] (after_call lib values client_user remote_user 60 4 call_text client)) in
    record w { trace = w.trace ++ marked 60 (text "demo/inc") ∷ [] }

source_called :
    remote_user.on_invoke 7 (text "demo/inc") null (set_error [] remote) ≡ (ok null, called)
unfolding set_error
source_called = refl

call_returns_example :
    (invoke_remote lib client_user (text "demo/inc") null (some 60) client
      ≡ (ok tt, after_call lib values client_user remote_user 60 4 call_text client))
    × (RemoteNode.handle_message lib remote_user call_text remote
        ≡ (ok tt, record called { trace = called.trace ++ wrote 4 reply_text ∷ [] }))
    × (ClientNode.handle_message lib client_user reply_text
          (after_call lib values client_user remote_user 60 4 call_text client)
        ≡ (ok tt, answered))
call_returns_example =
    call_returns lib values client_user remote_user (text "demo/inc") null null 60 7 4 4 call_text
      reply_text client answered remote called client_ids client-IsQuiet client-IsQuiet_debug refl
      call_encoded call-Arrives remote-IsSilent has_member_source source_called called-IsQuiet refl
      reply_encoded reply-Arrives refl
