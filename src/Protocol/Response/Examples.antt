-- ===== src/Protocol/Response/Examples.antt =====
-- Runs of the parser, and the theorems about it at concrete inputs.
use lightstreamer_rs.Base.{◌≡◌, ◌++◌, refl, ok, err, codes, arith}
use lightstreamer_rs.Text.{split_once}
use lightstreamer_rs.Text.Utf8.{as_bytes, encode_char}
use lightstreamer_rs.Text.Numbers.{negsuc, decimal, parse_unsigned}
use lightstreamer_rs.Protocol.Errors.{argument_count, not_numeric}
use lightstreamer_rs.Protocol.Escaping.{encode_form_value}
use lightstreamer_rs.Protocol.Notifications.{Notification, update, message_failed, named}
use lightstreamer_rs.Protocol.Arguments.{
  split_fixed, split_arguments, split_none, count_commas, strip_terminator,
}
use lightstreamer_rs.Protocol.Response.Printer.{print, crlf}
use lightstreamer_rs.Protocol.Response.RoundTrip.{parse_line-print}
use lightstreamer_rs.Protocol.Response.{
  parse_line, parse_tag, parse_update, parse_probe, parse_overflow,
}

-- The last argument keeps its commas.
parse_run : parse_line (codes "U,3,1,a,b|c") ≡ ok (update 3 1 (codes "a,b|c"))
unfolding parse_line strip_terminator split_once parse_tag parse_update split_fixed split_arguments
    parse_unsigned
parse_run = refl

short_run : parse_line (codes "U,3,1") ≡ err (argument_count (codes "U") 3 2)
unfolding parse_line strip_terminator split_once parse_tag parse_update split_fixed split_arguments
    parse_unsigned
short_run = refl

wide_run :
    parse_line (codes "OV,3,4294967296,1")
    ≡ err (not_numeric (codes "OV") (codes "item") (codes "4294967296"))
unfolding parse_line strip_terminator split_once parse_tag parse_overflow split_fixed
    split_arguments parse_unsigned
wide_run = refl

probe_run : parse_line (codes "PROBE,x,y") ≡ err (argument_count (codes "PROBE") 0 2)
unfolding parse_line strip_terminator split_once parse_tag parse_probe split_none count_commas
probe_run = refl

abbrev failed : Notification
failed = message_failed (named (codes "chat")) 7 (negsuc 4) (codes "no, thanks")

print_run : print failed ≡ codes "MSGFAIL,chat,7,-5,no%2C%20thanks"
unfolding print encode_form_value as_bytes encode_char decimal
print_run = refl

parse_line-print_example : parse_line (print failed ++ crlf) ≡ ok failed
parse_line-print_example =
    parse_line-print failed ((omega arith, λ h. cc), omega arith, omega arith, omega arith)
