-- ===== src/Tests/Noexcept.antt =====
-- A build without exceptions on a concrete message.
use objectlink_core_cpp.Prelude.{ℕ, ◌≡◌, refl, ◌++◌, [], ◌∷◌, Str}
use objectlink_core_cpp.Exec.{ok, IsTotal}
use objectlink_core_cpp.World.{marked}
use objectlink_core_cpp.Types.{MessageFormat}
use objectlink_core_cpp.Converter.{from_string}
use objectlink_core_cpp.Protocol.Noexcept.Total.{HandlersReturn}
use objectlink_core_cpp.BaseNode.{handle_message}
use objectlink_core_cpp.BaseNode.Noexcept.{handle_message_noexcept, handle_message_noexcept-same}
use objectlink_core_cpp.Tests.Toy.{lib, gets, print, parse}
use objectlink_core_cpp.Tests.Messages.{marks, mark, world, link_text}

mark-IsTotal : (n : ℕ) (s : Str) → IsTotal (mark n s)
mark-IsTotal n s = record {
  returns = λ w. (tt, record w { trace = w.trace ++ marked n s ∷ [] }, refl);
}

marks-HandlersReturn : HandlersReturn lib marks
marks-HandlersReturn = record {
  link = λ o. mark-IsTotal 0 o;
  unlink = λ o. mark-IsTotal 1 o;
  init = λ o v. mark-IsTotal 2 o;
  set_property = λ p v. mark-IsTotal 3 p;
  property_change = λ p v. mark-IsTotal 4 p;
  invoke = λ n m v. mark-IsTotal 5 (n ∷ m);
  invoke_reply = λ n m v. mark-IsTotal 6 (n ∷ m);
  signal = λ g v. mark-IsTotal 7 g;
  error = λ t n e. mark-IsTotal 8 e;
}

link_read :
    from_string lib (world MessageFormat.json).node.base.converter link_text
    ≡ ok (parse 8 link_text).0
unfolding from_string
link_read = refl

handle_message_noexcept-same_example :
    (handle_message_noexcept lib marks link_text (world MessageFormat.json)
      ≡ handle_message lib marks link_text (world MessageFormat.json))
    × ((handle_message_noexcept lib marks link_text (world MessageFormat.json)).0 ≡ ok tt)
handle_message_noexcept-same_example =
    handle_message_noexcept-same lib marks gets marks-HandlersReturn link_text
      (world MessageFormat.json) (parse 8 link_text).0 (print (parse 8 link_text).0) link_read refl
