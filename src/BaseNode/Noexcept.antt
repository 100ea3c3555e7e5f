-- ===== src/BaseNode/Noexcept.antt =====
-- src/olink/core/basenode.cpp in a build without exceptions: `BaseNode::handleMessage` without its try
-- blocks (Protocol/Noexcept).
use objectlink_core_cpp.Prelude.{◌≡◌, ap, sym, ◌∙◌, Str}
use objectlink_core_cpp.Exec.{Exec, ok, pure, gets, lift, continue, ◌>>=◌, ◌>>◌}
use objectlink_core_cpp.Json.{JsonLib, GetLaws}
use objectlink_core_cpp.World.{World}
use objectlink_core_cpp.Converter.{from_string}
use objectlink_core_cpp.Protocol.{Listener}
use objectlink_core_cpp.Protocol.Noexcept as Noexcept
use objectlink_core_cpp.Protocol.Noexcept.Total.{HandlersReturn, handle_message_noexcept-IsTotal}
use objectlink_core_cpp.BaseNode.{Node, set_error, handle_message}
use objectlink_core_cpp.BaseNode.Incoming.{finish, dispatch-finish}

module _ {D R : Type 0} (J : JsonLib) (listener : Listener J (World (Node D) R)) where
  unfoldable pub handle_message_noexcept : Str → Exec (World (Node D) R) Unit
  handle_message_noexcept message = do
    converter ← gets (λ (w : World (Node D) R). w.node.base.converter)
    parsed ← lift (from_string J converter message)
    Noexcept.handle_message_noexcept J set_error listener parsed
    pure tt

  -- A build without exceptions handles a text to the end, and as one with exceptions does, if the
  -- text is read as a value that can be dumped and every handler returns.
  pub handle_message_noexcept-same :
      GetLaws J
      → HandlersReturn J listener
      → (message : Str) (w : World (Node D) R) (j : J.Json) (s : Str)
      → from_string J w.node.base.converter message ≡ ok j
      → J.dump j ≡ ok s
      → (handle_message_noexcept message w ≡ handle_message J listener message w)
        × ((handle_message_noexcept message w).0 ≡ ok tt)
  unfolding handle_message_noexcept handle_message finish
  handle_message_noexcept-same G H message w j s read dumped =
      let (b, w', e) =
        (handle_message_noexcept-IsTotal J G set_error listener H j (s, dumped)).returns w in
      let returns = ap (λ r. continue r.0 (λ _. pure tt) r.1) e in
      let same = Noexcept.handle_message-same J set_error listener j w w' b e in
      rw read (
        returns ∙ sym (dispatch-finish J listener j w ∙ ap (finish J listener) same),
        ap (λ r. r.0) returns,
      )
