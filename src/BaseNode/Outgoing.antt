-- ===== src/BaseNode/Outgoing.antt =====
-- What `BaseNode::emitWrite` sends.
use objectlink_core_cpp.Prelude.{ℕ, ◌≡◌, refl, List, [], ◌∷◌, ◌++◌, none, some, Str, text, ap, ◌∙◌}
use objectlink_core_cpp.Exec.{Result, ok, throw, Exception, json_error, lift, ◌>>=◌}
use objectlink_core_cpp.Types.{LogLevel, MessageFormat, MsgType}
use objectlink_core_cpp.Json.{JsonLib, BsonLaws}
use objectlink_core_cpp.Logger.{log_target, emit_log, emit_to, emit_log_with_payload}
use objectlink_core_cpp.World.{World, emit, wrote}
use objectlink_core_cpp.Converter.{to_string}
use objectlink_core_cpp.Protocol.{
  link_message, unlink_message, init_message, set_property_message, property_change_message,
  invoke_message, invoke_reply_message, signal_message, error_message,
}
use objectlink_core_cpp.Protocol.Message.{
  Message, link, unlink, init, set_property, property_change, signal, invoke, invoke_reply, error,
  compose,
}
use objectlink_core_cpp.BaseNode.{Node, log, log_payload, write_with, emit_write}

-- Messages of a level are not logged by the node.
abbrev pub IsQuiet : {D R : Type 0} → LogLevel → World (Node D) R → Type 0
IsQuiet level w = log_target w.node.base.logger level ≡ none

pub log_quiet :
    {D R : Type 0} (level : LogLevel) (params : List Str) (w : World (Node D) R)
    → IsQuiet level w
    → log level params w ≡ (ok tt, w)
unfolding log emit_log emit_to
log_quiet level params w q = rw q

module _ {D R : Type 0} (J : JsonLib) where
  pub log_payload_quiet :
      (level : LogLevel) (payload : J.Json) (params : List Str) (w : World (Node D) R)
      → IsQuiet level w
      → log_payload J level payload params w ≡ (ok tt, w)
  unfolding log_payload emit_log_with_payload
  log_payload_quiet level payload params w q = rw q

  -- What a call of the write function leaves.
  sent : ℕ → Result Str → World (Node D) R → Result (Unit {0}) × World (Node D) R
  sent func (ok s) w = (ok tt, record w { trace = w.trace ++ wrote func s ∷ [] })
  sent func (throw e) w = (throw e, w)

  write_with_lem :
      (msg : J.Json) (func : ℕ) (w : World (Node D) R)
      → write_with J (some func) msg w ≡ sent func (J.encode w.node.base.converter.format msg) w
  unfolding write_with to_string sent
  write_with_lem msg func w = converted (J.encode w.node.base.converter.format msg)
    where
      converted : (r : Result Str) → (lift r >>= λ s. emit (wrote func s)) w ≡ sent func r w
      converted (ok s) = refl
      converted (throw e) = refl

  emit_write-sent :
      (msg : J.Json) (func : ℕ) (w : World (Node D) R)
      → IsQuiet LogLevel.debug w
      → w.node.base.write_func ≡ some func
      → emit_write J msg w ≡ sent func (J.encode w.node.base.converter.format msg) w
  unfolding emit_write
  emit_write-sent msg func w q f =
      simp (log_payload_quiet LogLevel.debug msg (text "writeMessage: " ∷ []) w q)
        (ap (λ o. write_with J o msg w) f ∙ write_with_lem msg func w)

  -- With a write function and no debug log, a message that has a text in the format of the node is
  -- written, and nothing else changes.
  pub emit_write_writes :
      (msg : J.Json) (func : ℕ) (s : Str) (w : World (Node D) R)
      → IsQuiet LogLevel.debug w
      → w.node.base.write_func ≡ some func
      → J.encode w.node.base.converter.format msg ≡ ok s
      → emit_write J msg w ≡ (ok tt, record w { trace = w.trace ++ wrote func s ∷ [] })
  unfolding sent
  emit_write_writes msg func s w q f e = emit_write-sent msg func w q f ∙ ap (λ r. sent func r w) e

  -- A message that has no text in the node's format goes nowhere: the exception is the caller's.
  pub emit_write_throws :
      (msg : J.Json) (func : ℕ) (w : World (Node D) R)
      → IsQuiet LogLevel.debug w
      → w.node.base.write_func ≡ some func
      → (e : Exception) → J.encode w.node.base.converter.format msg ≡ throw e
      → emit_write J msg w ≡ (throw e, w)
  unfolding sent
  emit_write_throws msg func w q f x e = emit_write-sent msg func w q f ∙ ap (λ r. sent func r w) e

  -- In BSON no message of the protocol is ever sent: with a write function and no debug log,
  -- `emitWrite` throws a JSON error for each of them and changes nothing.
  pub emit_write_bson :
      BsonLaws J
      → (m : Message J MsgType) (func : ℕ) (w : World (Node D) R)
      → w.node.base.converter.format ≡ MessageFormat.bson
      → IsQuiet LogLevel.debug w
      → w.node.base.write_func ≡ some func
      → (e : Str) × (emit_write J (compose J m) w ≡ (throw (json_error e), w))
  emit_write_bson B m func w b q f =
      let (e, h) = refused m in
      (
        e,
        emit_write_throws (compose J m) func w q f (json_error e)
            (ap (λ k. J.encode k (compose J m)) b ∙ h),
      )
    where
      refused :
          (m : Message J MsgType)
          → (e : Str) × (J.encode MessageFormat.bson (compose J m) ≡ throw (json_error e))
      refused (link o) = unfold link_message in B.encode_bson-array _
      refused (unlink o) = unfold unlink_message in B.encode_bson-array _
      refused (init o v) = unfold init_message in B.encode_bson-array _
      refused (set_property p v) = unfold set_property_message in B.encode_bson-array _
      refused (property_change p v) = unfold property_change_message in B.encode_bson-array _
      refused (signal g v) = unfold signal_message in B.encode_bson-array _
      refused (invoke n g v) = unfold invoke_message in B.encode_bson-array _
      refused (invoke_reply n g v) = unfold invoke_reply_message in B.encode_bson-array _
      refused (error t n v) = unfold error_message in B.encode_bson-array _
