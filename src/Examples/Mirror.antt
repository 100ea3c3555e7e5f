-- ===== src/Examples/Mirror.antt =====
-- The client of the calculator follows the service: examples/server/calcsource.cpp and
-- examples/app/calcsink.cpp together.
use objectlink_core_cpp.Prelude.{
  ℕ, ◌≡◌, refl, sym, ap, ◌∙◌, true, List, [], ◌∷◌, ◌++◌, some, Str, text,
}
use mathlib.Core.List.{append-nil, append_assoc}
use objectlink_core_cpp.Types.{ℤ}
use objectlink_core_cpp.Int.{in_int}
use objectlink_core_cpp.Json.{JsonLib, ValueLaws, ObjectLaws, IsInt}
use objectlink_core_cpp.Examples.Outcome.{Run, done, pure, after, ◌>>◌}
use objectlink_core_cpp.Examples.CalcSource
use objectlink_core_cpp.Examples.CalcSource.{CalcSource, Notice, property_change, signal}
use objectlink_core_cpp.Examples.CalcSink
use objectlink_core_cpp.Examples.CalcSink.{CalcSink, Output, total_changed}
use objectlink_core_cpp.Examples.Requests.{
  Request, HasInt, asked_total, NumberTexts, output, serve, notices, served, serve-output, ask,
  ask-output,
}
use objectlink_core_cpp.Examples.Follows.{
  deliver_all, Follows, deliver_all-append, Follows-trans, receive_total-Follows, deliver_notices,
}

-- The total after requests, and whether each sum on the way fits in an `int`.
abbrev pub total_after : List Request → ℤ → ℤ
total_after [] t = t
total_after (r ∷ rs) t = total_after rs (asked_total r t)

abbrev pub IsServable : List Request → ℤ → Type 0
IsServable [] t = Unit
IsServable (r ∷ rs) t =
    HasInt r × (in_int (asked_total r t) ≡ true) × IsServable rs (asked_total r t)

module _ (J : JsonLib) where
  abbrev pub serve_all : ℕ → List Request → Run (CalcSource J) Unit
  serve_all m [] = pure tt
  serve_all m (r ∷ rs) = serve J (output J m r) >> serve_all m rs

  module _ (L : ValueLaws J) where
    -- Whatever a client asks for, one request after the other, as long as each sum fits in an `int`:
    -- the service has the total that was asked for, and a client that showed the total before and gets
    -- every notice of the service shows it afterwards, and puts out changes of the total only.
    pub serve_all-Follows :
        ObjectLaws J
        → NumberTexts J
        → (m n : ℕ) (rs : List Request) (s : CalcSource J) (k : CalcSink J) → s.node ≡ some n
        → k.total ≡ s.total
        → IsServable rs s.total
        → (ns : List (ℕ × Notice J)) × (k' : CalcSink J) × (serve_all m rs s
            ≡ done tt (record s { total = total_after rs s.total; sent = s.sent ++ ns }))
          × (deliver_all J ns k ≡ done tt k')
          × Follows J (total_after rs s.total) k k'
    serve_all-Follows O D m n [] s k linked same servable = (
      [],
      k,
      ap (λ l. done tt (record s { sent = l })) (sym (append-nil s.sent)),
      refl,
      record { total = same; outputs = []; added = sym (append-nil k.outputs); totals = tt },
    )
    serve_all-Follows O D m n (r ∷ rs) s k linked same (i, fits, rest) =
        let (k', d, f) = deliver_notices J L n r s.total k same i fits in
        let (ns, k'', e, d', f') =
          serve_all-Follows O D m n rs (served J n r s) k' linked f.total rest in
        (
          notices J n r s.total ++ ns,
          k'',
          ap (λ o. after o (λ _. serve_all m rs)) (serve-output J L O D n s linked m r i fits)
              ∙ e
              ∙ ap (λ l. done tt (record s { total = total_after (r ∷ rs) s.total; sent = l }))
                  (append_assoc s.sent (notices J n r s.total) ns),
          deliver_all-append J (notices J n r s.total) ns k k' d ∙ d',
          Follows-trans J (asked_total r s.total) (total_after (r ∷ rs) s.total) k k' k'' f f',
        )

    -- The initial properties of the service make a sink follow it.
    olink_on_init-Follows :
        ObjectLaws J
        → (o : Str) (node : ℕ) (t : ℤ) (k : CalcSink J) → IsInt t
        → (k' : CalcSink J) × (CalcSink.olink_on_init J o
              (J.object ((text "total", J.of_int t) ∷ []))
              node
              k
            ≡ done tt k')
          × Follows J t k k'
          × (k'.node ≡ some node)
    unfolding CalcSink.olink_on_init
    olink_on_init-Follows O o node t k h =
        let linked = record k { name = o; ready = true; node = some node } in
        let (k', e, f, at) = receive_total-Follows J t linked in
        (
          k',
          simp
              (
                O.contains-object (text "total") (J.of_int t),
                O.field-object (text "total") (J.of_int t),
                L.get_int-of_int t h,
              )
              e,
          record { total = f.total; outputs = f.outputs; added = f.added; totals = f.totals },
          at,
        )

    -- The calculator: a sink that gets the properties of a source with a node, whatever the sink
    -- showed before, is linked so that each of its methods makes its call of the node; and when the
    -- source serves such calls, the arguments and each total being in the range of `int`, the
    -- source has the total that was asked for, and the sink, once it got every notice in order,
    -- shows that total and has put out changes of the total only.
    pub linked_client-Follows :
        ObjectLaws J
        → NumberTexts J
        → (n node : ℕ) (o : Str) (rs : List Request) (s : CalcSource J) (k : CalcSink J)
        → s.node ≡ some n
        → IsInt s.total
        → IsServable rs s.total
        → (props : J.Json) × (first last : CalcSink J) × (ns : List (ℕ × Notice J))
          × (CalcSource.olink_collect_properties J s ≡ done props s)
          × (CalcSink.olink_on_init J o props node k ≡ done tt first)
          × ((r : Request)
              → ask J r first
                ≡ done tt (record first { outputs = first.outputs ++ output J node r ∷ [] }))
          × (serve_all node rs s
              ≡ done tt (record s { total = total_after rs s.total; sent = s.sent ++ ns }))
          × (deliver_all J ns first ≡ done tt last)
          × Follows J (total_after rs s.total) k last
    unfolding CalcSource.olink_collect_properties
    linked_client-Follows O D n node o rs s k linked h servable =
        let (first, e, f, at) = olink_on_init-Follows O o node s.total k h in
        let (ns, last, served, d, g) =
          serve_all-Follows O D node n rs s first linked f.total servable in
        (
          J.object ((text "total", J.of_int s.total) ∷ []),
          first,
          last,
          ns,
          refl,
          e,
          λ r. ask-output J r node first at,
          served,
          d,
          Follows-trans J s.total (total_after rs s.total) k first last f g,
        )
