-- ===== src/Examples/Requests.antt =====
-- What a calculator's client asks for, what the service does about it, and what the client does about
-- that. The nodes between the two (Session) hand over calls and notices as they are.
use objectlink_core_cpp.Prelude.{
  ℕ, ◌≡◌, ◌≢◌, ◌↔◌, sym, ◌∙◌, refl, true, false, List, [], ◌∷◌, ◌++◌, some, Str, text, arith,
  str_beq, if◌then◌else◌, Bool-cases, inl, inr,
}
use mathlib.Core.List.{append-nil, append_assoc}
use objectlink_core_cpp.Exec.{ok}
use objectlink_core_cpp.Types.{ℤ, pos}
use objectlink_core_cpp.Int.{◌+ℤ◌, ◌-ℤ◌, eq_ℤ, eq_ℤ_iff, leb_ℤ, in_int, IsInt-in_int}
use objectlink_core_cpp.Json.{JsonLib, ValueLaws, ObjectLaws, IsInt}
use objectlink_core_cpp.Name
use objectlink_core_cpp.Examples.Outcome.{Run, done, undefined, pure, ◌>>◌}
use objectlink_core_cpp.Examples.CalcSource
use objectlink_core_cpp.Examples.CalcSource.{CalcSource, Notice, property_change, signal}
use objectlink_core_cpp.Examples.CalcSink
use objectlink_core_cpp.Examples.CalcSink.{
  CalcSink, Output, total_changed, max_reached, min_reached, invoke_remote, set_remote_property,
}

-- A method of the client.
pub data Request : Type 0 where
  adds subs sets : ℤ → Request
  clears : Request

-- The argument is an `int`.
abbrev pub HasInt : Request → Type 0
HasInt (adds a) = IsInt a
HasInt (subs a) = IsInt a
HasInt (sets t) = IsInt t
HasInt clears = Unit

-- The total that a request asks for.
abbrev pub asked_total : Request → ℤ → ℤ
asked_total (adds a) t = t +ℤ a
asked_total (subs a) t = t -ℤ a
asked_total (sets v) t = v
asked_total clears t = pos 0

-- A value of an integer, of an array of one, or null, has a text.
pub record NumberTexts (J : JsonLib) : Type 0 where
  pub dump-of_int : (z : ℤ) → (s : Str) × (J.dump (J.of_int z) ≡ ok s)
  pub dump-array : (z : ℤ) → (s : Str) × (J.dump (J.array (J.of_int z ∷ [])) ≡ ok s)
  pub dump-null : (s : Str) × (J.dump J.null ≡ ok s)

done_defined : {S : Type 0} (s : S) → done tt s ≢ undefined
done_defined s h = absurd cc

module _ (J : JsonLib) where
  -- The method of `CalcSink`.
  abbrev pub ask : Request → Run (CalcSink J) Unit
  ask (adds a) = CalcSink.add J a
  ask (subs a) = CalcSink.sub J a
  ask (sets t) = CalcSink.set_total J t
  ask clears = CalcSink.clear J

  -- The call of a client node, or of a source that it reaches.
  abbrev pub output : ℕ → Request → Output J
  output n (adds a) = invoke_remote n (text "demo.Calc/add") (J.array (J.of_int a ∷ []))
  output n (subs a) = invoke_remote n (text "demo.Calc/sub") (J.array (J.of_int a ∷ []))
  output n (sets t) = set_remote_property n (text "demo.Calc/total") (J.of_int t)
  output n clears = invoke_remote n (text "demo.Calc/clear") J.null

  abbrev pub serve : Output J → Run (CalcSource J) Unit
  serve (invoke_remote n m args) = CalcSource.olink_invoke J m args >> pure tt
  serve (set_remote_property n p v) = CalcSource.olink_set_property J p v
  serve _ = pure tt

  abbrev pub deliver : Notice J → Run (CalcSink J) Unit
  deliver (property_change p v) = CalcSink.olink_on_property_changed J p v
  deliver (signal g v) = CalcSink.olink_on_signal J g v

  -- A method of a linked sink makes exactly its call.
  pub ask-output :
      (r : Request) (n : ℕ) (k : CalcSink J)
      → k.node ≡ some n
      → ask r k ≡ done tt (record k { outputs = k.outputs ++ output n r ∷ [] })
  unfolding CalcSink.add CalcSink.sub CalcSink.set_total CalcSink.clear
  ask-output (adds a) n k h = simp h
  ask-output (subs a) n k h = simp h
  ask-output (sets t) n k h = simp h
  ask-output clears n k h = simp h

  -- The notices of a request that a source with a node serves.
  abbrev pub changed : ℕ → ℤ → ℕ × Notice J
  changed n t = (n, property_change (text "demo.Calc/total") (J.of_int t))

  abbrev pub hit : ℕ → Str → ℤ → ℕ × Notice J
  hit n g v = (n, signal g (J.array (J.of_int v ∷ [])))

  abbrev pub notices : ℕ → Request → ℤ → List (ℕ × Notice J)
  notices n (adds a) t =
      changed n (t +ℤ a)
      ∷ (if leb_ℤ (pos 10) (t +ℤ a) then hit n (text "demo.Calc/hitUpper") (pos 10) ∷ [] else [])
  notices n (subs a) t =
      changed n (t -ℤ a)
      ∷ (if leb_ℤ (t -ℤ a) (pos 0) then hit n (text "demo.Calc/hitLower") (pos 0) ∷ [] else [])
  notices n (sets v) t = if eq_ℤ t v then [] else changed n v ∷ []
  notices n clears t = changed n (pos 0) ∷ []

  abbrev pub served : ℕ → Request → CalcSource J → CalcSource J
  served n r s = record s { total = asked_total r s.total; sent = s.sent ++ notices n r s.total }

  module _ (L : ValueLaws J) (O : ObjectLaws J) (D : NumberTexts J) (n : ℕ) (s : CalcSource J)
      (linked : s.node ≡ some n) where
    -- A source with a node serves a request whose total fits in an `int`: it takes the total and
    -- sends the notices.
    pub serve-output :
        (m : ℕ) (r : Request)
        → HasInt r
        → in_int (asked_total r s.total) ≡ true
        → serve (output m r) s ≡ done tt (served n r s)
    unfolding CalcSource.olink_invoke CalcSource.olink_set_property CalcSource.add CalcSource.sub
        CalcSource.clear CalcSource.notify Name.get_member_name str_beq
    serve-output m (adds a) h fits = elim (Bool-cases (leb_ℤ (pos 10) (s.total +ℤ a))) [
      | inl e ↦ simp (
        (D.dump-array a).1,
        O.index-array (J.of_int a ∷ []) 0 (J.of_int a) refl,
        L.get_int-of_int a h,
        fits,
        linked,
        e,
        append_assoc,
      )
      | inr e ↦ simp (
        (D.dump-array a).1,
        O.index-array (J.of_int a ∷ []) 0 (J.of_int a) refl,
        L.get_int-of_int a h,
        fits,
        linked,
        e,
      )
    ]
    serve-output m (subs a) h fits = elim (Bool-cases (leb_ℤ (s.total -ℤ a) (pos 0))) [
      | inl e ↦ simp (
        (D.dump-array a).1,
        O.index-array (J.of_int a ∷ []) 0 (J.of_int a) refl,
        L.get_int-of_int a h,
        fits,
        linked,
        e,
        append_assoc,
      )
      | inr e ↦ simp (
        (D.dump-array a).1,
        O.index-array (J.of_int a ∷ []) 0 (J.of_int a) refl,
        L.get_int-of_int a h,
        fits,
        linked,
        e,
      )
    ]
    serve-output m (sets v) h fits = elim (Bool-cases (eq_ℤ s.total v)) [
      | inl e ↦
          simp ((D.dump-of_int v).1, L.get_int-of_int v h, linked, e)
            (ground (arith, eq_ℤ_iff s.total v, append-nil s.sent, linked, e))
      | inr e ↦ simp ((D.dump-of_int v).1, L.get_int-of_int v h, linked, e) refl
    ]
    serve-output m clears h fits = simp (D.dump-null.1, linked)

    -- A total that does not fit in an `int` is undefined.
    over_undefined :
        (m : ℕ) (r : Request)
        → HasInt r
        → in_int (asked_total r s.total) ≡ false
        → serve (output m r) s ≡ undefined
    unfolding CalcSource.olink_invoke CalcSource.add CalcSource.sub Name.get_member_name str_beq
    over_undefined m (adds a) h over = simp (
      (D.dump-array a).1,
      O.index-array (J.of_int a ∷ []) 0 (J.of_int a) refl,
      L.get_int-of_int a h,
      over,
    )
    over_undefined m (subs a) h over = simp (
      (D.dump-array a).1,
      O.index-array (J.of_int a ∷ []) 0 (J.of_int a) refl,
      L.get_int-of_int a h,
      over,
    )
    over_undefined m (sets v) h over = absurd (ground (arith, IsInt-in_int v h, over))
    over_undefined m clears h over = absurd cc

    -- A source of the calculator with a node runs into what C++ leaves undefined, when it serves a
    -- call with an `int`, exactly if the total that is asked for is out of the range of `int`.
    pub serve-undefined :
        (m : ℕ) (r : Request)
        → HasInt r
        → (serve (output m r) s ≡ undefined) ↔ (in_int (asked_total r s.total) ≡ false)
    serve-undefined m r h = (
      λ u. elim (Bool-cases (in_int (asked_total r s.total))) [
        | inl fits ↦ absurd (done_defined _ (sym (serve-output m r h fits) ∙ u))
        | inr over ↦ over
      ],
      over_undefined m r h,
    )
