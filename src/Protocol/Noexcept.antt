-- ===== src/Protocol/Noexcept.antt =====
-- src/olink/core/protocol.cpp in a build without exceptions (OLINK_HAS_EXCEPTIONS is 0):
-- `Protocol::handleMessage` without its try block. Where the JSON library would throw it ends the
-- program, which `throw` stands for.
use objectlink_core_cpp.Prelude.{
  ℕ, ◌≡◌, refl, sym, ap, ◌∙◌, subst, Bool, true, false, not, [], ◌∷◌, ◌++◌, Str, text, ltb,
  if◌then◌else◌, Bool-cases, inl, inr, arith,
}
use objectlink_core_cpp.Exec.{
  Exec, ok, pure, lift, modify, IsTotal, bind-IsTotal, lift-IsTotal, catch_json-ok, ◌>>=◌, ◌>>◌,
}
use objectlink_core_cpp.Types.{ℤ, MsgType, is_code}
use objectlink_core_cpp.Json.{JsonLib, GetLaws}
use objectlink_core_cpp.Protocol.{
  Listener, refuse, link_case, init_case, unlink_case, set_property_case, property_change_case,
  invoke_case, invoke_reply_case, signal_case, error_case, unsupported_case, switch, typed, headed,
  sized, checked, handle_message, parse_error,
}
use objectlink_core_cpp.Protocol.Cases.{yes_of_not}
pub mod Total

module _ (J : JsonLib) {S : Type 0} (set_error : Str → S → S) (listener : Listener J S) where
  open J use {Json, is_array, is_number_integer, size, at, get_int}

  typed_noexcept : Json → Exec S Bool
  unfolding switch
  typed_noexcept msg = do
    msg_type ← lift (get_int (at msg 0))
    switch J set_error listener msg_type msg

  abbrev headed_noexcept : Json → Exec S Bool
  headed_noexcept msg =
      if not (is_number_integer (at msg 0))
      then refuse J set_error listener (text "message type must be integer")
      else typed_noexcept msg

  sized_noexcept : Json → Exec S Bool
  unfolding typed_noexcept
  sized_noexcept msg =
      if ltb (size msg) 1
      then refuse J set_error listener (text "message array is empty")
      else headed_noexcept msg

  checked_noexcept : Json → Exec S Bool
  unfolding sized_noexcept
  checked_noexcept msg =
      if not (is_array msg)
      then refuse J set_error listener (text "message must be array")
      else sized_noexcept msg

  unfoldable pub handle_message_noexcept : Json → Exec S Bool
  unfolding checked_noexcept
  handle_message_noexcept msg = do modify (set_error []); checked_noexcept msg

  -- What returns without the try block returns the same with it.
  typed-same :
      (j : Json) (s s' : S) (b : Bool)
      → typed_noexcept j s ≡ (ok b, s')
      → typed J set_error listener j s ≡ (ok b, s')
  unfolding typed typed_noexcept
  typed-same j s s' b e =
      catch_json-ok (typed_noexcept j) (parse_error J set_error listener) s s' b e

  if-same :
      (c : Bool) (x y z : Exec S Bool) (s s' : S) (b : Bool)
      → (y s ≡ (ok b, s') → z s ≡ (ok b, s'))
      → (if c then x else y) s ≡ (ok b, s')
      → (if c then x else z) s ≡ (ok b, s')
  if-same true x y z s s' b h e = e
  if-same false x y z s s' b h e = h e

  pub handle_message-same :
      (j : Json) (s s' : S) (b : Bool)
      → handle_message_noexcept j s ≡ (ok b, s')
      → handle_message J set_error listener j s ≡ (ok b, s')
  unfolding handle_message_noexcept checked_noexcept sized_noexcept handle_message checked sized
  handle_message-same j s s' b e =
      let s1 = set_error [] s in
      if-same (not (is_array j)) _ (sized_noexcept j) (sized J set_error listener j) s1 s' b
        (if-same (ltb (size j) 1) _ (headed_noexcept j) (headed J set_error listener j) s1 s' b (
          if-same (not (is_number_integer (at j 0))) _ (typed_noexcept j)
            (typed J set_error listener j) s1 s' b (typed-same j s1 s' b)))
        e
