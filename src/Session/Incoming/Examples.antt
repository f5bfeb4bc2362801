-- ===== src/Session/Incoming/Examples.antt =====
-- The composition at a concrete input.
use lightstreamer_rs.Base.{◌≡◌, refl, [], ◌∷◌, ◌++◌, codes, arith, map, List}
use lightstreamer_rs.Text.{Bytes}
use lightstreamer_rs.Text.Utf8.{as_bytes, encode_char}
use lightstreamer_rs.Text.Numbers.{decimal}
use lightstreamer_rs.Protocol.Notifications.{Notification, update, probe}
use lightstreamer_rs.Protocol.Response.Printer.{print}
use lightstreamer_rs.Transport.Framing.{clear}
use lightstreamer_rs.Transport.Framing.Wire.{push_all, pop_all}
use lightstreamer_rs.Session.Incoming.{incoming, parsed, incoming-push_all}

abbrev sent : List Notification
sent = probe ∷ update 3 1 (codes "a|") ∷ []

-- The bytes of two lines, cut within the second tag.
abbrev reads : List Bytes
reads = (codes "PROBE" ++ 13 ∷ 10 ∷ codes "U") ∷ (codes ",3,1,a|" ++ 13 ∷ 10 ∷ []) ∷ []

incoming-push_all_example : map incoming (pop_all 3 (push_all clear reads).0) ≡ map parsed sent
unfolding print as_bytes encode_char decimal
incoming-push_all_example = incoming-push_all sent reads (omega arith) refl (omega arith)
