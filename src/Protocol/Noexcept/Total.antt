-- ===== src/Protocol/Noexcept/Total.antt =====
-- A message that a build without exceptions gets is handled to the end.
use objectlink_core_cpp.Prelude.{
  ℕ, ◌≡◌, refl, Bool, true, false, not, [], ◌++◌, Str, text, ltb, if◌then◌else◌,
}
use objectlink_core_cpp.Exec.{
  Exec, ok, pure, lift, modify, IsTotal, bind-IsTotal, lift-IsTotal, ◌>>=◌, ◌>>◌,
}
use objectlink_core_cpp.Types.{ℤ, MsgType, is_code}
use objectlink_core_cpp.Json.{JsonLib, GetLaws}
use objectlink_core_cpp.Protocol.{
  Listener, refuse, link_case, init_case, unlink_case, set_property_case, property_change_case,
  invoke_case, invoke_reply_case, signal_case, error_case, unsupported_case, switch,
}
use objectlink_core_cpp.Protocol.Cases.{yes_of_not}
use objectlink_core_cpp.Protocol.Noexcept.{
  typed_noexcept, sized_noexcept, checked_noexcept, handle_message_noexcept,
}

-- Every handler returns.
pub record HandlersReturn (J : JsonLib) {S : Type 0} (l : Listener J S) : Type 0 where
  pub link : (o : Str) → IsTotal (l.handle_link o)
  pub unlink : (o : Str) → IsTotal (l.handle_unlink o)
  pub init : (o : Str) (v : J.Json) → IsTotal (l.handle_init o v)
  pub set_property : (o : Str) (v : J.Json) → IsTotal (l.handle_set_property o v)
  pub property_change : (o : Str) (v : J.Json) → IsTotal (l.handle_property_change o v)
  pub invoke : (id : ℕ) (o : Str) (v : J.Json) → IsTotal (l.handle_invoke id o v)
  pub invoke_reply : (id : ℕ) (o : Str) (v : J.Json) → IsTotal (l.handle_invoke_reply id o v)
  pub signal : (o : Str) (v : J.Json) → IsTotal (l.handle_signal o v)
  pub error : (t id : ℤ) (e : Str) → IsTotal (l.handle_error t id e)

module _ (J : JsonLib) (G : GetLaws J) {S : Type 0} (set_error : Str → S → S)
    (listener : Listener J S) (H : HandlersReturn J listener) (j : J.Json) where
  refuse_if :
      (b : Bool) (why : Str) (k : Exec S Bool)
      → (b ≡ false → IsTotal k)
      → IsTotal (if b then refuse J set_error listener why else k)
  refuse_if true why k h = record { returns = λ s. (false, set_error why s, refl) }
  refuse_if false why k h = h refl

  handled-IsTotal : (m : Exec S Unit) → IsTotal m → IsTotal (m >> pure true)
  handled-IsTotal m h =
      bind-IsTotal m (λ _. pure true) h (λ a. record { returns = λ s. (true, s, refl) })

  -- A case that reads a text.
  string_case :
      (n : ℕ) (short why : Str) (k : Str → Exec S Unit)
      → ((o : Str) → IsTotal (k o))
      → IsTotal (
          if ltb (J.size j) n
          then refuse J set_error listener short
          else if not (J.is_string (J.at j 1))
          then refuse J set_error listener why
          else (do o ← lift (J.get_string (J.at j 1)); k o; pure true))
  string_case n short why k h = refuse_if (ltb (J.size j) n) short _ λ _.
      refuse_if (not (J.is_string (J.at j 1))) why _ λ str.
        bind-IsTotal (lift (J.get_string (J.at j 1))) _
          (lift-IsTotal _ (G.get_string-ok (J.at j 1) (yes_of_not str)))
          (λ o. handled-IsTotal (k o) (h o))

  link-IsTotal : IsTotal (link_case J set_error listener j)
  unfolding link_case
  link-IsTotal =
      string_case 2 (text "truncated Link message") (text "Link: objectId must be string")
        listener.handle_link H.link

  unlink-IsTotal : IsTotal (unlink_case J set_error listener j)
  unfolding unlink_case
  unlink-IsTotal =
      string_case 2 (text "truncated Unlink message") (text "Unlink: objectId must be string")
        listener.handle_unlink H.unlink

  init-IsTotal : IsTotal (init_case J set_error listener j)
  unfolding init_case
  init-IsTotal =
      string_case 3 (text "truncated Init message") (text "Init: objectId must be string")
        (λ o. listener.handle_init o (J.at j 2)) (λ o. H.init o (J.at j 2))

  set_property-IsTotal : IsTotal (set_property_case J set_error listener j)
  unfolding set_property_case
  set_property-IsTotal =
      string_case 3 (text "truncated SetProperty message")
        (text "SetProperty: propertyId must be string")
        (λ o. listener.handle_set_property o (J.at j 2)) (λ o. H.set_property o (J.at j 2))

  property_change-IsTotal : IsTotal (property_change_case J set_error listener j)
  unfolding property_change_case
  property_change-IsTotal =
      string_case 3 (text "truncated PropertyChange message")
        (text "PropertyChange: propertyId must be string")
        (λ o. listener.handle_property_change o (J.at j 2)) (λ o. H.property_change o (J.at j 2))

  signal-IsTotal : IsTotal (signal_case J set_error listener j)
  unfolding signal_case
  signal-IsTotal =
      string_case 3 (text "truncated Signal message") (text "Signal: signalId must be string")
        (λ o. listener.handle_signal o (J.at j 2)) (λ o. H.signal o (J.at j 2))

  -- A case that reads a request id and a method id.
  request_case :
      (short number why : Str) (k : ℕ → Str → Exec S Unit)
      → ((id : ℕ) (o : Str) → IsTotal (k id o))
      → IsTotal (
          if ltb (J.size j) 4
          then refuse J set_error listener short
          else if not (J.is_number (J.at j 1))
          then refuse J set_error listener number
          else if not (J.is_string (J.at j 2))
          then refuse J set_error listener why
          else (do
            id ← lift (J.get_uint (J.at j 1))
            o ← lift (J.get_string (J.at j 2))
            k id o
            pure true))
  request_case short number why k h = refuse_if (ltb (J.size j) 4) short _ λ _.
      refuse_if (not (J.is_number (J.at j 1))) number _ λ num.
        refuse_if (not (J.is_string (J.at j 2))) why _ λ str.
          bind-IsTotal (lift (J.get_uint (J.at j 1))) _
            (lift-IsTotal _ (G.get_uint-ok (J.at j 1) (yes_of_not num)))
            (λ id.
              bind-IsTotal (lift (J.get_string (J.at j 2))) _
                (lift-IsTotal _ (G.get_string-ok (J.at j 2) (yes_of_not str)))
                (λ o. handled-IsTotal (k id o) (h id o)))

  invoke-IsTotal : IsTotal (invoke_case J set_error listener j)
  unfolding invoke_case
  invoke-IsTotal =
      request_case (text "truncated Invoke message") (text "Invoke: requestId must be number")
        (text "Invoke: methodId must be string") (λ id o. listener.handle_invoke id o (J.at j 3))
        (λ id o. H.invoke id o (J.at j 3))

  invoke_reply-IsTotal : IsTotal (invoke_reply_case J set_error listener j)
  unfolding invoke_reply_case
  invoke_reply-IsTotal =
      request_case (text "truncated InvokeReply message")
        (text "InvokeReply: requestId must be number") (text "InvokeReply: methodId must be string")
        (λ id o. listener.handle_invoke_reply id o (J.at j 3))
        (λ id o. H.invoke_reply id o (J.at j 3))

  int_then :
      (v : J.Json) (k : ℤ → Exec S Bool)
      → J.is_number_integer v ≡ true
      → ((z : ℤ) → IsTotal (k z))
      → IsTotal (do z ← lift (J.get_int v); k z)
  int_then v k h f = bind-IsTotal (lift (J.get_int v)) k (lift-IsTotal _ (G.get_int-ok v h)) f

  error-IsTotal : IsTotal (error_case J set_error listener j)
  unfolding error_case
  error-IsTotal = refuse_if (ltb (J.size j) 4) (text "truncated Error message") _ λ _.
      refuse_if (not (J.is_number_integer (J.at j 1))) (text "Error: msgType must be integer") _
        λ t.
          refuse_if (not (J.is_number_integer (J.at j 2))) (text "Error: requestId must be integer")
            _
            λ n.
              refuse_if (not (J.is_string (J.at j 3))) (text "Error: error must be string") _ λ str.
                int_then (J.at j 1) _ (yes_of_not t) λ z. int_then (J.at j 2) _ (yes_of_not n) λ i.
                  bind-IsTotal (lift (J.get_string (J.at j 3))) _
                    (lift-IsTotal _ (G.get_string-ok (J.at j 3) (yes_of_not str)))
                    (λ e. handled-IsTotal (listener.handle_error z i e) (H.error z i e))

  module _ (d : (t : Str) × (J.dump j ≡ ok t)) where
    unsupported-IsTotal : IsTotal (unsupported_case J set_error listener j)
    unfolding unsupported_case
    unsupported-IsTotal = bind-IsTotal (lift (J.dump j)) _ (lift-IsTotal _ d) (λ t. record {
      returns = λ s. (false, set_error (text "message not supported: " ++ t) s, refl);
    })

    either :
        (z : ℤ) (t : MsgType) (m n : Exec S Bool)
        → IsTotal m
        → IsTotal n
        → IsTotal (if is_code z t then m else n)
    either z t m n h k = elim (is_code z t) as (λ b. IsTotal (if b then m else n)) [
      | true ↦ h
      | false ↦ k
    ]

    switch-IsTotal : (z : ℤ) → IsTotal (switch J set_error listener z j)
    unfolding switch
    switch-IsTotal z = either z MsgType.link _ _ link-IsTotal (
        either z MsgType.init _ _ init-IsTotal (
          either z MsgType.unlink _ _ unlink-IsTotal (
            either z MsgType.set_property _ _ set_property-IsTotal (
              either z MsgType.property_change _ _ property_change-IsTotal (
                either z MsgType.invoke _ _ invoke-IsTotal (
                  either z MsgType.invoke_reply _ _ invoke_reply-IsTotal (
                    either z MsgType.signal _ _ signal-IsTotal
                      (either z MsgType.error _ _ error-IsTotal unsupported-IsTotal))))))))

    typed-IsTotal :
        J.is_number_integer (J.at j 0) ≡ true → IsTotal (typed_noexcept J set_error listener j)
    unfolding typed_noexcept
    typed-IsTotal int = int_then (J.at j 0) _ int switch-IsTotal

    sized-IsTotal : IsTotal (sized_noexcept J set_error listener j)
    unfolding sized_noexcept
    sized-IsTotal = refuse_if (ltb (J.size j) 1) (text "message array is empty") _ λ _.
        refuse_if (not (J.is_number_integer (J.at j 0))) (text "message type must be integer") _
          λ int. typed-IsTotal (yes_of_not int)

    -- A message whose text can be dumped is handled to the end if the handlers return.
    pub handle_message_noexcept-IsTotal : IsTotal (handle_message_noexcept J set_error listener j)
    unfolding handle_message_noexcept checked_noexcept
    handle_message_noexcept-IsTotal =
        bind-IsTotal (modify (set_error [])) _
          (record { returns = λ s. (tt, set_error [] s, refl) })
          λ _. refuse_if (not (J.is_array j)) (text "message must be array") _ λ _. sized-IsTotal
