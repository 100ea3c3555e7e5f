-- ===== src/Protocol/RoundTrip.antt =====
-- A composed message carries itself, and a value that carries a message is delivered.
use objectlink_core_cpp.Prelude.{
  text, ℕ, ◌^◌, ◌≤◌, ◌<◌, ◌≡◌, refl, Bool, true, false, [], Str, arith, List, length, get_elem?,
  some,
}
use objectlink_core_cpp.Exec.{Exec, ok, pure, catch_json, ◌>>◌}
use objectlink_core_cpp.Types.{ℤ, pos, MsgType, code}
use objectlink_core_cpp.Json.{JsonLib, ValueLaws, IsInt}
use objectlink_core_cpp.Protocol.{
  Listener, type_code, link_message, unlink_message, init_message, set_property_message,
  property_change_message, invoke_message, invoke_reply_message, signal_message, error_message,
  link_case, init_case, unlink_case, set_property_case, property_change_case, invoke_case,
  invoke_reply_case, signal_case, error_case, handle_message, parse_error,
}
use objectlink_core_cpp.Protocol.Message.{
  Message, link, unlink, init, set_property, property_change, signal, invoke, invoke_reply, error,
  HasHead, HasText, HasUint, HasInt, compose, InRange, received, Carries, deliver,
}

-- The numbers of the protocol fit in `int`.
code-IsInt : (t : MsgType) → IsInt (pos (code t))
code-IsInt MsgType.link = omega arith
code-IsInt _ = omega arith

module _ (J : JsonLib) (L : ValueLaws J) where
  module _ (xs : List J.Json) where
    integer :
        (i : ℕ) (z : ℤ) → IsInt z → get_elem? xs i ≡ some (J.of_int z) → HasInt J (J.array xs) i z
    integer i z h e =
        rw (L.at-array xs i (J.of_int z) e) (L.is_integer-of_int z, L.get_int-of_int z h)

    head :
        (t : MsgType) (n : ℕ)
        → n ≤ length xs
        → get_elem? xs 0 ≡ some (type_code J t)
        → HasHead J (J.array xs) n t
    head t n h e = (
      L.is_array-array xs,
      omega (arith, L.size-array xs),
      integer 0 (pos (code t)) (code-IsInt t) e,
    )

    number :
        (i n : ℕ) → n < 2 ^ 32 → get_elem? xs i ≡ some (J.of_uint n) → HasUint J (J.array xs) i n
    number i n h e =
        rw (L.at-array xs i (J.of_uint n) e) (L.is_number-of_uint n, L.get_uint-of_uint n h)

    string : (i : ℕ) (s : Str) → get_elem? xs i ≡ some (J.of_string s) → HasText J (J.array xs) i s
    string i s e =
        rw (L.at-array xs i (J.of_string s) e) (L.is_string-of_string s, L.get_string-of_string s)

  -- A composed message carries what it was composed from.
  pub compose-Carries :
      (m : Message J MsgType) → InRange J m → Carries J (compose J m) (received J m)
  unfolding link_message unlink_message init_message set_property_message property_change_message
      invoke_message invoke_reply_message signal_message error_message
  compose-Carries (link o) r = (head _ MsgType.link 2 (omega arith) refl, string _ 1 o refl)
  compose-Carries (unlink o) r = (head _ MsgType.unlink 2 (omega arith) refl, string _ 1 o refl)
  compose-Carries (init o v) r =
      (head _ MsgType.init 3 (omega arith) refl, string _ 1 o refl, L.at-array _ 2 v refl)
  compose-Carries (set_property p v) r =
      (head _ MsgType.set_property 3 (omega arith) refl, string _ 1 p refl, L.at-array _ 2 v refl)
  compose-Carries (property_change p v) r = (
    head _ MsgType.property_change 3 (omega arith) refl,
    string _ 1 p refl,
    L.at-array _ 2 v refl,
  )
  compose-Carries (signal g v) r =
      (head _ MsgType.signal 3 (omega arith) refl, string _ 1 g refl, L.at-array _ 2 v refl)
  compose-Carries (invoke n m v) r = (
    head _ MsgType.invoke 4 (omega arith) refl,
    number _ 1 n r refl,
    string _ 2 m refl,
    L.at-array _ 3 v refl,
  )
  compose-Carries (invoke_reply n m v) r = (
    head _ MsgType.invoke_reply 4 (omega arith) refl,
    number _ 1 n r refl,
    string _ 2 m refl,
    L.at-array _ 3 v refl,
  )
  compose-Carries (error t n e) r = (
    head _ MsgType.error 4 (omega arith) refl,
    integer _ 1 (pos (code t)) (code-IsInt t) refl,
    integer _ 2 n r refl,
    string _ 3 e refl,
  )

module _ (J : JsonLib) {S : Type 0} (set_error : Str → S → S) (listener : Listener J S) where
  -- The handler is called with `m_lastError` cleared; what it throws as a JSON error is recorded.
  abbrev pub delivered : Message J ℤ → Exec S Bool
  delivered m s =
      catch_json (do deliver J listener m; pure true) (parse_error J set_error listener)
        (set_error [] s)

  -- A value that carries a message is handled by the one handler that the message is for.
  pub Carries-delivered :
      (j : J.Json) (m : Message J ℤ) (s : S)
      → Carries J j m
      → handle_message J set_error listener j s ≡ delivered m s
  unfolding handle_message link_case init_case unlink_case set_property_case property_change_case
      invoke_case invoke_reply_case signal_case error_case
  Carries-delivered j (link o) s c = ground arith
  Carries-delivered j _ s c = ground arith

  -- Composed and handled: when request ids fit in their C++ types, `handleMessage` calls the one
  -- handler of the message with exactly what was composed.
  pub handle_message-compose :
      ValueLaws J
      → (m : Message J MsgType) (s : S) → InRange J m
      → handle_message J set_error listener (compose J m) s ≡ delivered (received J m) s
  handle_message-compose L m s r =
      Carries-delivered (compose J m) (received J m) s (compose-Carries J L m r)

  pub not_array :
      (j : J.Json) (s : S)
      → J.is_array j ≡ false
      → handle_message J set_error listener j s
        ≡ (ok false, set_error (text "message must be array") (set_error [] s))
  unfolding handle_message
  not_array j s h = ground (arith, h)
