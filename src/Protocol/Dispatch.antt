-- ===== src/Protocol/Dispatch.antt =====
-- Every value that comes in is refused, with an error text, or carries a message.
use objectlink_core_cpp.Prelude.{
  ◌≡◌, refl, ◌⊎◌, inl, inr, Bool, true, false, not, [], ◌++◌, Str, text, arith, ltb, Bool-cases, ap,
  subst, sym, ◌∙◌, if◌then◌else◌,
}
use objectlink_core_cpp.Exec.{
  Exec, Result, ok, throw, json_error, std_error, lift, ◌>>=◌, catch_json,
}
use objectlink_core_cpp.Types.{ℤ, pos, negsuc, MsgType, code, is_code}
use objectlink_core_cpp.Json.{JsonLib, GetLaws}
use objectlink_core_cpp.Protocol.{
  Listener, unsupported_case, switch, handle_message, typed, headed, sized, checked, parse_error,
}
use objectlink_core_cpp.Protocol.Message.{Message, Carries}
use objectlink_core_cpp.Protocol.RoundTrip.{delivered, Carries-delivered}
use objectlink_core_cpp.Protocol.Cases.{
  yes_of_not, Judged, Judged-if, link-Judged, init-Judged, unlink-Judged, set_property-Judged,
  property_change-Judged, invoke-Judged, invoke_reply-Judged, signal-Judged, error-Judged,
}

module _ (J : JsonLib) (G : GetLaws J) {S : Type 0} (set_error : Str → S → S)
    (listener : Listener J S) (j : J.Json) (s : S) where
  caught :
      (m : Exec S Bool)
      → Judged J G set_error listener j s (m s)
      → Judged J G set_error listener j s (catch_json m (parse_error J set_error listener) s)
  caught m (inl (why, e)) = inl (why, rw e)
  caught m (inr carried) = inr carried

  unsupported-Judged :
      Judged J G set_error listener j s
        (catch_json (unsupported_case J set_error listener j) (parse_error J set_error listener) s)
  unfolding unsupported_case
  unsupported-Judged = go (J.dump j) refl
    where
      go :
          (r : Result Str)
          → J.dump j ≡ r
          → Judged J G set_error listener j s (
              catch_json
                (unsupported_case J set_error listener j)
                (parse_error J set_error listener)
                s)
      go (ok d) e = inl (text "message not supported: " ++ d, rw e)
      go (throw (json_error w)) e = inl (text "message parse error: " ++ w, rw e)
      go (throw (std_error w)) e = absurd (G.dump-throws j w e)

  is_code-eq : (z : ℤ) (t : MsgType) → is_code z t ≡ true → z ≡ pos (code t)
  is_code-eq (pos n) t h = ground arith
  is_code-eq (negsuc n) t h = cc

  choose :
      (z : ℤ) (t : MsgType) (yes_case no_case : Exec S Bool)
      → (z ≡ pos (code t) → Judged J G set_error listener j s (yes_case s))
      → Judged J G set_error listener j s (catch_json no_case (parse_error J set_error listener) s)
      → Judged J G set_error listener j s (
          catch_json
            (if is_code z t then yes_case else no_case)
            (parse_error J set_error listener)
            s)
  choose z t a b ja jb = elim (Bool-cases (is_code z t)) [
    | inl e ↦ rw e (caught a (ja (is_code-eq z t e)))
    | inr e ↦ rw e jb
  ]

  switch-Judged :
      J.is_array j ≡ true
      → J.is_number_integer (J.at j 0) ≡ true
      → (z : ℤ) → J.get_int (J.at j 0) ≡ ok z
      → Judged J G set_error listener j s
          (catch_json (switch J set_error listener z j) (parse_error J set_error listener) s)
  unfolding switch
  switch-Judged arr int z e =
      choose z MsgType.link _ _ (λ c. link-Judged J G set_error listener j s arr int (e ∙ ap ok c))
        (choose z MsgType.init _ _
          (λ c. init-Judged J G set_error listener j s arr int (e ∙ ap ok c))
          (choose z MsgType.unlink _ _
            (λ c. unlink-Judged J G set_error listener j s arr int (e ∙ ap ok c))
            (choose z MsgType.set_property _ _
              (λ c. set_property-Judged J G set_error listener j s arr int (e ∙ ap ok c))
              (choose z MsgType.property_change _ _
                (λ c. property_change-Judged J G set_error listener j s arr int (e ∙ ap ok c))
                (choose z MsgType.invoke _ _
                  (λ c. invoke-Judged J G set_error listener j s arr int (e ∙ ap ok c))
                  (choose z MsgType.invoke_reply _ _
                    (λ c. invoke_reply-Judged J G set_error listener j s arr int (e ∙ ap ok c))
                    (choose z MsgType.signal _ _
                      (λ c. signal-Judged J G set_error listener j s arr int (e ∙ ap ok c))
                      (choose z MsgType.error _ _
                        (λ c. error-Judged J G set_error listener j s arr int (e ∙ ap ok c))
                        unsupported-Judged))))))))

  typed-Judged :
      J.is_array j ≡ true
      → J.is_number_integer (J.at j 0) ≡ true
      → Judged J G set_error listener j s (typed J set_error listener j s)
  unfolding typed
  typed-Judged arr int =
      let (z, e) = G.get_int-ok (J.at j 0) int in
      subst
        (λ r. Judged J G set_error listener j s (
          catch_json (lift r >>= λ t. switch J set_error listener t j)
            (parse_error J set_error listener) s))
        (sym e) (switch-Judged arr int z e)

  sized-Judged :
      J.is_array j ≡ true → Judged J G set_error listener j s (sized J set_error listener j s)
  unfolding sized
  sized-Judged arr =
      Judged-if J G set_error listener j s (ltb (J.size j) 1) (text "message array is empty")
        (headed J set_error listener j)
        λ _.
          Judged-if J G set_error listener j s (not (J.is_number_integer (J.at j 0)))
            (text "message type must be integer") (typed J set_error listener j)
            λ int. typed-Judged arr (yes_of_not int)

  checked-Judged : Judged J G set_error listener j s (checked J set_error listener j s)
  unfolding checked
  checked-Judged =
      Judged-if J G set_error listener j s (not (J.is_array j)) (text "message must be array")
        (sized J set_error listener j) λ arr. sized-Judged (yes_of_not arr)

-- Every value is refused, with `false`, an error text and no handler called, or it carries a
-- message of the protocol, and then the one handler of that message is called.
pub handle_message-cases :
    (J : JsonLib) {S : Type 0} (set_error : Str → S → S) (listener : Listener J S)
    → GetLaws J
    → (j : J.Json) (s : S)
    → ((why : Str) × (handle_message J set_error listener j s
          ≡ (ok false, set_error why (set_error [] s))))
      ⊎ ((m : Message J ℤ) × Carries J j m
          × (handle_message J set_error listener j s ≡ delivered J set_error listener m s))
unfolding handle_message
handle_message-cases J set_error listener G j s =
    elim (checked-Judged J G set_error listener j (set_error [] s)) [
      | inl (why, e) ↦ inl (why, e)
      | inr (m, c) ↦ inr (m, c, Carries-delivered J set_error listener j m s c)
    ]
