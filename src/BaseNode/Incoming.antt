-- ===== src/BaseNode/Incoming.antt =====
-- What `BaseNode` does with a message from the network, whatever it holds.
use objectlink_core_cpp.Prelude.{
  ◌<◌, ◌≤◌, ◌≡◌, refl, Bool, false, List, [], ◌++◌, ◌⊎◌, inl, inr, Str, text, arith, length, lt→ltb,
  ap, ◌∙◌,
}
use objectlink_core_cpp.Exec.{
  Result, ok, throw, Exception, json_error, std_error, pure, continue, catch_all,
}
use objectlink_core_cpp.Types.{ℤ, LogLevel, MsgType}
use objectlink_core_cpp.Json.{JsonLib, ValueLaws}
use objectlink_core_cpp.Converter.{MessageConverter, from_string, unless_discarded}
use objectlink_core_cpp.Logger.Levels.{log_events, emit_log_lem}
use objectlink_core_cpp.World.{World}
use objectlink_core_cpp.Protocol
use objectlink_core_cpp.Protocol.{Listener}
use objectlink_core_cpp.Protocol.Message.{Message, Carries, InRange, compose, received}
use objectlink_core_cpp.Protocol.RoundTrip.{
  delivered, Carries-delivered, compose-Carries, not_array,
}
use objectlink_core_cpp.BaseNode.{
  Node, log, set_error, converted_message, log_exception, dispatch, handle_message,
}

module _ {D R : Type 0} where
  pub log_lem :
      (level : LogLevel) (params : List Str) (w : World (Node D) R)
      → log level params w
        ≡ (ok tt, record w { trace = w.trace ++ log_events w.node.base.logger level params })
  unfolding log
  log_lem level params w = emit_log_lem level params w w.node.base.logger

module _ {D R : Type 0} (J : JsonLib) (listener : Listener J (World (Node D) R)) where
  logged-ok : (e : Exception) (w : World (Node D) R) → (log_exception J listener e w).0 ≡ ok tt
  unfolding log_exception
  logged-ok (json_error e) w = simp log_lem
  logged-ok (std_error e) w = simp log_lem

  -- No JSON or standard exception leaves `BaseNode::handleMessage`, whatever the message is and
  -- whatever the handlers do.
  pub handle_message-ok :
      (message : Str) (w : World (Node D) R) → (handle_message J listener message w).0 ≡ ok tt
  unfolding handle_message
  handle_message-ok message w =
      dispatched (converted_message J (from_string J w.node.base.converter message))
    where
      finished :
          (r : Result Bool × World (Node D) R)
          → (catch_all
              (λ _. let (b, w') = r in (continue b (λ _. pure tt) w'))
              (log_exception J listener)
              w).0
            ≡ ok tt
      finished (ok b, w') = refl
      finished (throw e, w') = logged-ok e w'

      dispatched : (m : J.Json ⊎ Str) → (dispatch J listener m w).0 ≡ ok tt
      dispatched (inr e) = unfold dispatch in simp log_lem
      dispatched (inl j) =
          unfold dispatch in finished (Protocol.handle_message J set_error listener j w)

  -- What becomes of the outcome of the dispatch.
  unfoldable pub finish : Result Bool × World (Node D) R → Result (Unit {0}) × World (Node D) R
  finish (ok b, w) = (ok tt, w)
  finish (throw e, w) = log_exception J listener e w

  pub dispatch-finish :
      (j : J.Json) (w : World (Node D) R)
      → dispatch J listener (inl j) w ≡ finish (Protocol.handle_message J set_error listener j w)
  unfolding dispatch
  dispatch-finish j w = settled (Protocol.handle_message J set_error listener j w)
    where
      settled :
          (r : Result Bool × World (Node D) R)
          → catch_all (λ _. continue r.0 (λ _. pure tt) r.1) (log_exception J listener) w ≡ finish r
      settled (ok b, w') = unfold finish in refl
      settled (throw e, w') = unfold finish in refl

  -- A text beyond the size limit is not parsed, null being no array: no handler is called and only
  -- the last error is written.
  pub handle_message_oversized :
      J.is_array J.null ≡ false
      → (message : Str) (w : World (Node D) R)
      → w.node.base.converter.max_message_size < length message
      → handle_message J listener message w
        ≡ (ok tt, set_error (text "message must be array") (set_error [] w))
  unfolding handle_message from_string finish
  handle_message_oversized n message w h =
      rw (lt→ltb _ _ h) (dispatch-finish J.null w ∙ ap finish refused)
    where
      refused :
          Protocol.handle_message J set_error listener J.null w
          ≡ (ok false, set_error (text "message must be array") (set_error [] w))
      refused = not_array J set_error listener J.null w n

  -- A text that is read as a value that carries a message, extra values included, calls the one
  -- handler of the message.
  pub handle_message_delivers :
      (message : Str) (j : J.Json) (m : Message J ℤ) (w : World (Node D) R)
      → from_string J w.node.base.converter message ≡ ok j
      → Carries J j m
      → handle_message J listener message w ≡ finish (delivered J set_error listener m w)
  unfolding handle_message
  handle_message_delivers message j m w e c =
      rw e (dispatch-finish j w ∙ ap finish (Carries-delivered J set_error listener j m w c))

  from_string-ok :
      (c : MessageConverter) (message : Str) (j : J.Json)
      → length message ≤ c.max_message_size
      → J.decode c.format message ≡ ok j
      → J.is_discarded j ≡ false
      → from_string J c message ≡ ok j
  unfolding from_string unless_discarded
  from_string-ok c message j short d k = ground (arith, d, k)

  -- A text within the limit that decodes to a value composed for a message calls the one handler of
  -- that message with what was composed.
  pub handle_message_receives :
      ValueLaws J
      → (message : Str) (m : Message J MsgType) (w : World (Node D) R) → InRange J m
      → length message ≤ w.node.base.converter.max_message_size
      → J.decode w.node.base.converter.format message ≡ ok (compose J m)
      → J.is_discarded (compose J m) ≡ false
      → handle_message J listener message w
        ≡ finish (delivered J set_error listener (received J m) w)
  handle_message_receives L message m w r short d k =
      handle_message_delivers message (compose J m) (received J m) w
        (from_string-ok w.node.base.converter message (compose J m) short d k)
        (compose-Carries J L m r)
