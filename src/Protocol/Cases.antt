-- ===== src/Protocol/Cases.antt =====
-- Each case of the dispatch refuses a value, with an error text, or the value carries a message.
use objectlink_core_cpp.Prelude.{
  ℕ, ◌≤◌, ◌≡◌, refl, ◌⊎◌, inl, inr, Bool, true, false, not, Str, arith, ltb, if◌then◌else◌,
}
use objectlink_core_cpp.Exec.{Exec, Result, ok}
use objectlink_core_cpp.Types.{ℤ, pos, MsgType, code}
use objectlink_core_cpp.Json.{JsonLib, GetLaws}
use objectlink_core_cpp.Protocol.{
  Listener, refuse, link_case, init_case, unlink_case, set_property_case, property_change_case,
  invoke_case, invoke_reply_case, signal_case, error_case,
}
use objectlink_core_cpp.Protocol.Message.{
  Message, link, unlink, init, set_property, property_change, signal, invoke, invoke_reply, error,
  HasHead, Carries,
}

pub yes_of_not : {b : Bool} → not b ≡ false → b ≡ true
yes_of_not h = ground arith

module _ (J : JsonLib) (G : GetLaws J) {S : Type 0} (set_error : Str → S → S)
    (listener : Listener J S) (j : J.Json) (s : S) where
  -- `r` left only an error text, or the value carries a message.
  abbrev pub Judged : Result Bool × S → Type 0
  Judged r = ((why : Str) × (r ≡ (ok false, set_error why s))) ⊎ ((m : Message J ℤ) × Carries J j m)

  pub Judged-if :
      (b : Bool) (why : Str) (k : Exec S Bool)
      → (b ≡ false → Judged (k s))
      → Judged ((if b then refuse J set_error listener why else k) s)
  Judged-if true why k h = inl (why, refl)
  Judged-if false why k h = h refl

  long_enough : (n : ℕ) → ltb (J.size j) n ≡ false → n ≤ J.size j
  long_enough n h = ground arith

  module _ (arr : J.is_array j ≡ true) (int : J.is_number_integer (J.at j 0) ≡ true) where
    head :
        (n : ℕ) (t : MsgType)
        → J.get_int (J.at j 0) ≡ ok (pos (code t))
        → ltb (J.size j) n ≡ false
        → HasHead J j n t
    head n t e h = (arr, long_enough n h, (int, e))

    pub link-Judged :
        J.get_int (J.at j 0) ≡ ok (pos (code MsgType.link))
        → Judged (link_case J set_error listener j s)
    unfolding link_case
    link-Judged e = Judged-if _ _ _ λ long. Judged-if _ _ _ λ str.
        let (id, eid) = G.get_string-ok (J.at j 1) (yes_of_not str) in
        inr (link id, (head 2 MsgType.link e long, (yes_of_not str, eid)))

    pub unlink-Judged :
        J.get_int (J.at j 0) ≡ ok (pos (code MsgType.unlink))
        → Judged (unlink_case J set_error listener j s)
    unfolding unlink_case
    unlink-Judged e = Judged-if _ _ _ λ long. Judged-if _ _ _ λ str.
        let (id, eid) = G.get_string-ok (J.at j 1) (yes_of_not str) in
        inr (unlink id, (head 2 MsgType.unlink e long, (yes_of_not str, eid)))

    pub init-Judged :
        J.get_int (J.at j 0) ≡ ok (pos (code MsgType.init))
        → Judged (init_case J set_error listener j s)
    unfolding init_case
    init-Judged e = Judged-if _ _ _ λ long. Judged-if _ _ _ λ str.
        let (id, eid) = G.get_string-ok (J.at j 1) (yes_of_not str) in
        inr (init id (J.at j 2), (head 3 MsgType.init e long, (yes_of_not str, eid), refl))

    pub set_property-Judged :
        J.get_int (J.at j 0) ≡ ok (pos (code MsgType.set_property))
        → Judged (set_property_case J set_error listener j s)
    unfolding set_property_case
    set_property-Judged e = Judged-if _ _ _ λ long. Judged-if _ _ _ λ str.
        let (id, eid) = G.get_string-ok (J.at j 1) (yes_of_not str) in
        inr (
          set_property id (J.at j 2),
          (head 3 MsgType.set_property e long, (yes_of_not str, eid), refl),
        )

    pub property_change-Judged :
        J.get_int (J.at j 0) ≡ ok (pos (code MsgType.property_change))
        → Judged (property_change_case J set_error listener j s)
    unfolding property_change_case
    property_change-Judged e = Judged-if _ _ _ λ long. Judged-if _ _ _ λ str.
        let (id, eid) = G.get_string-ok (J.at j 1) (yes_of_not str) in
        inr (
          property_change id (J.at j 2),
          (head 3 MsgType.property_change e long, (yes_of_not str, eid), refl),
        )

    pub signal-Judged :
        J.get_int (J.at j 0) ≡ ok (pos (code MsgType.signal))
        → Judged (signal_case J set_error listener j s)
    unfolding signal_case
    signal-Judged e = Judged-if _ _ _ λ long. Judged-if _ _ _ λ str.
        let (id, eid) = G.get_string-ok (J.at j 1) (yes_of_not str) in
        inr (signal id (J.at j 2), (head 3 MsgType.signal e long, (yes_of_not str, eid), refl))

    pub invoke-Judged :
        J.get_int (J.at j 0) ≡ ok (pos (code MsgType.invoke))
        → Judged (invoke_case J set_error listener j s)
    unfolding invoke_case
    invoke-Judged e = Judged-if _ _ _ λ long. Judged-if _ _ _ λ num. Judged-if _ _ _ λ str.
        let (n, en) = G.get_uint-ok (J.at j 1) (yes_of_not num) in
        let (id, eid) = G.get_string-ok (J.at j 2) (yes_of_not str) in
        inr (
          invoke n id (J.at j 3),
          (head 4 MsgType.invoke e long, (yes_of_not num, en), (yes_of_not str, eid), refl),
        )

    pub invoke_reply-Judged :
        J.get_int (J.at j 0) ≡ ok (pos (code MsgType.invoke_reply))
        → Judged (invoke_reply_case J set_error listener j s)
    unfolding invoke_reply_case
    invoke_reply-Judged e = Judged-if _ _ _ λ long. Judged-if _ _ _ λ num. Judged-if _ _ _ λ str.
        let (n, en) = G.get_uint-ok (J.at j 1) (yes_of_not num) in
        let (id, eid) = G.get_string-ok (J.at j 2) (yes_of_not str) in
        inr (
          invoke_reply n id (J.at j 3),
          (head 4 MsgType.invoke_reply e long, (yes_of_not num, en), (yes_of_not str, eid), refl),
        )

    pub error-Judged :
        J.get_int (J.at j 0) ≡ ok (pos (code MsgType.error))
        → Judged (error_case J set_error listener j s)
    unfolding error_case
    error-Judged e = Judged-if _ _ _ λ long. Judged-if _ _ _ λ i1. Judged-if _ _ _ λ i2.
        Judged-if _ _ _ λ str.
          let (t, et) = G.get_int-ok (J.at j 1) (yes_of_not i1) in
          let (n, en) = G.get_int-ok (J.at j 2) (yes_of_not i2) in
          let (why, ew) = G.get_string-ok (J.at j 3) (yes_of_not str) in
          inr (
            error t n why,
            (
              head 4 MsgType.error e long,
              (yes_of_not i1, et),
              (yes_of_not i2, en),
              (yes_of_not str, ew),
            ),
          )
