-- ===== src/Protocol/Response.antt =====
-- src/protocol/response.rs: `parse_line`, from a line to a notification, with one function for each
-- arm of its `match`.
pub mod Printer
pub mod Pieces
pub mod Values
pub mod Arms
pub mod RoundTrip
pub mod Lines
pub mod Refusals
pub mod Examples
use lightstreamer_rs.Base.{Option, none, some, Result, ok, err, ◌>>=◌, map_ok, codes, if◌then◌else◌}
use lightstreamer_rs.Text.{Text, same_text, split_once}
use lightstreamer_rs.Protocol.Errors.{ProtocolError, unknown_tag}
use lightstreamer_rs.Protocol.Arguments.{
  strip_terminator, split_fixed, split_none, decode, u32, u64, i64, parse_max_frequency,
  parse_bandwidth, parse_filtering, parse_sequence, control_link_of,
}
use lightstreamer_rs.Protocol.Notifications.{
  Notification, update, subscription_ok, subscription_command_ok, unsubscribed, end_of_snapshot,
  clear_snapshot, overflow, subscription_reconfigured, message_done, message_failed,
  constraints_changed, sync, client_ip, server_name, progressive, no_op, probe, loop, end,
  connection_ok, connection_error, request_ok, request_error, error, ws_ok,
}

abbrev pub Parsed : Type 0
Parsed = Result ProtocolError Notification

unfoldable pub parse_update : Text → Option Text → Parsed
parse_update tag rest = do
  (id, (item, raw_values)) ← split_fixed 2 tag rest
  id' ← u32 tag (codes "subscription-ID") id
  item' ← u32 tag (codes "item") item
  ok (update id' item' raw_values)

unfoldable pub parse_subscription_ok : Text → Option Text → Parsed
parse_subscription_ok tag rest = do
  (id, (items, fields)) ← split_fixed 2 tag rest
  id' ← u32 tag (codes "subscription-ID") id
  items' ← u32 tag (codes "num-items") items
  fields' ← u32 tag (codes "num-fields") fields
  ok (subscription_ok id' items' fields')

unfoldable pub parse_subscription_command_ok : Text → Option Text → Parsed
parse_subscription_command_ok tag rest = do
  (id, (items, (fields, (key, command)))) ← split_fixed 4 tag rest
  id' ← u32 tag (codes "subscription-ID") id
  items' ← u32 tag (codes "num-items") items
  fields' ← u32 tag (codes "num-fields") fields
  key' ← u32 tag (codes "key-field") key
  command' ← u32 tag (codes "command-field") command
  ok (subscription_command_ok id' items' fields' key' command')

unfoldable pub parse_unsubscribed : Text → Option Text → Parsed
parse_unsubscribed tag rest = do
  id ← split_fixed 0 tag rest
  id' ← u32 tag (codes "subscription-ID") id
  ok (unsubscribed id')

unfoldable pub parse_end_of_snapshot : Text → Option Text → Parsed
parse_end_of_snapshot tag rest = do
  (id, item) ← split_fixed 1 tag rest
  id' ← u32 tag (codes "subscription-ID") id
  item' ← u32 tag (codes "item") item
  ok (end_of_snapshot id' item')

unfoldable pub parse_clear_snapshot : Text → Option Text → Parsed
parse_clear_snapshot tag rest = do
  (id, item) ← split_fixed 1 tag rest
  id' ← u32 tag (codes "subscription-ID") id
  item' ← u32 tag (codes "item") item
  ok (clear_snapshot id' item')

unfoldable pub parse_overflow : Text → Option Text → Parsed
parse_overflow tag rest = do
  (id, (item, size)) ← split_fixed 2 tag rest
  id' ← u32 tag (codes "subscription-ID") id
  item' ← u32 tag (codes "item") item
  size' ← u64 tag (codes "overflow-size") size
  ok (overflow id' item' size')

unfoldable pub parse_subscription_reconfigured : Text → Option Text → Parsed
parse_subscription_reconfigured tag rest = do
  (id, (max_frequency, filtering)) ← split_fixed 2 tag rest
  id' ← u32 tag (codes "subscription-ID") id
  max_frequency' ← decode max_frequency
  filtering' ← decode filtering
  ok (
      subscription_reconfigured id' (parse_max_frequency max_frequency')
        (parse_filtering filtering'))

unfoldable pub parse_message_done : Text → Option Text → Parsed
parse_message_done tag rest = do
  (sequence, (prog, response)) ← split_fixed 2 tag rest
  sequence' ← decode sequence
  prog' ← u64 tag (codes "prog") prog
  response' ← decode response
  ok (message_done (parse_sequence sequence') prog' response')

unfoldable pub parse_message_failed : Text → Option Text → Parsed
parse_message_failed tag rest = do
  (sequence, (prog, (code, message))) ← split_fixed 3 tag rest
  sequence' ← decode sequence
  prog' ← u64 tag (codes "prog") prog
  code' ← i64 tag (codes "error-code") code
  message' ← decode message
  ok (message_failed (parse_sequence sequence') prog' code' message')

unfoldable pub parse_constraints_changed : Text → Option Text → Parsed
parse_constraints_changed tag rest = do
  bandwidth ← split_fixed 0 tag rest
  bandwidth' ← decode bandwidth
  ok (constraints_changed (parse_bandwidth bandwidth'))

unfoldable pub parse_sync : Text → Option Text → Parsed
parse_sync tag rest = do
  seconds ← split_fixed 0 tag rest
  seconds' ← u64 tag (codes "seconds-since-initial-header") seconds
  ok (sync seconds')

unfoldable pub parse_client_ip : Text → Option Text → Parsed
parse_client_ip tag rest = do
  address ← split_fixed 0 tag rest
  address' ← decode address
  ok (client_ip address')

unfoldable pub parse_server_name : Text → Option Text → Parsed
parse_server_name tag rest = do
  name ← split_fixed 0 tag rest
  name' ← decode name
  ok (server_name name')

unfoldable pub parse_progressive : Text → Option Text → Parsed
parse_progressive tag rest = do
  count ← split_fixed 0 tag rest
  count' ← u64 tag (codes "progressive") count
  ok (progressive count')

unfoldable pub parse_no_op : Text → Option Text → Parsed
parse_no_op tag rest = do
  preamble ← split_fixed 0 tag rest
  preamble' ← decode preamble
  ok (no_op preamble')

unfoldable pub parse_loop : Text → Option Text → Parsed
parse_loop tag rest = do
  delay ← split_fixed 0 tag rest
  delay' ← u64 tag (codes "expected-delay") delay
  ok (loop delay')

unfoldable pub parse_end : Text → Option Text → Parsed
parse_end tag rest = do
  (code, message) ← split_fixed 1 tag rest
  code' ← i64 tag (codes "cause-code") code
  message' ← decode message
  ok (end code' message')

unfoldable pub parse_connection_error : Text → Option Text → Parsed
parse_connection_error tag rest = do
  (code, message) ← split_fixed 1 tag rest
  code' ← i64 tag (codes "error-code") code
  message' ← decode message
  ok (connection_error code' message')

unfoldable pub parse_request_error : Text → Option Text → Parsed
parse_request_error tag rest = do
  (request_id, (code, message)) ← split_fixed 2 tag rest
  request_id' ← decode request_id
  code' ← i64 tag (codes "error-code") code
  message' ← decode message
  ok (request_error request_id' code' message')

unfoldable pub parse_error : Text → Option Text → Parsed
parse_error tag rest = do
  (code, message) ← split_fixed 1 tag rest
  code' ← i64 tag (codes "error-code") code
  message' ← decode message
  ok (error code' message')

unfoldable pub parse_probe : Text → Option Text → Parsed
parse_probe tag rest = map_ok (λ _. probe) (split_none tag rest)

unfoldable pub parse_ws_ok : Text → Option Text → Parsed
parse_ws_ok tag rest = map_ok (λ _. ws_ok) (split_none tag rest)

unfoldable pub parse_connection_ok : Text → Option Text → Parsed
parse_connection_ok tag rest = do
  (session_id, (request_limit, (keep_alive, control_link))) ← split_fixed 3 tag rest
  control_link' ← decode control_link
  session_id' ← decode session_id
  request_limit' ← u64 tag (codes "request-limit") request_limit
  keep_alive' ← u64 tag (codes "keep-alive") keep_alive
  ok (connection_ok session_id' request_limit' keep_alive' (control_link_of control_link'))

unfoldable pub parse_request_ok : Text → Option Text → Parsed
parse_request_ok tag none = ok (request_ok none)
parse_request_ok tag (some rest) = do
  request_id ← split_fixed 0 tag (some rest)
  request_id' ← decode request_id
  ok (request_ok (some request_id'))

-- The `match` of `parse_line` on the tag.
unfoldable pub parse_tag : Text → Text → Option Text → Parsed
parse_tag line tag rest =
    if same_text tag (codes "U")
    then parse_update tag rest
    else if same_text tag (codes "SUBOK")
    then parse_subscription_ok tag rest
    else if same_text tag (codes "SUBCMD")
    then parse_subscription_command_ok tag rest
    else if same_text tag (codes "UNSUB")
    then parse_unsubscribed tag rest
    else if same_text tag (codes "EOS")
    then parse_end_of_snapshot tag rest
    else if same_text tag (codes "CS")
    then parse_clear_snapshot tag rest
    else if same_text tag (codes "OV")
    then parse_overflow tag rest
    else if same_text tag (codes "CONF")
    then parse_subscription_reconfigured tag rest
    else if same_text tag (codes "MSGDONE")
    then parse_message_done tag rest
    else if same_text tag (codes "MSGFAIL")
    then parse_message_failed tag rest
    else if same_text tag (codes "CONS")
    then parse_constraints_changed tag rest
    else if same_text tag (codes "SYNC")
    then parse_sync tag rest
    else if same_text tag (codes "CLIENTIP")
    then parse_client_ip tag rest
    else if same_text tag (codes "SERVNAME")
    then parse_server_name tag rest
    else if same_text tag (codes "PROG")
    then parse_progressive tag rest
    else if same_text tag (codes "NOOP")
    then parse_no_op tag rest
    else if same_text tag (codes "PROBE")
    then parse_probe tag rest
    else if same_text tag (codes "LOOP")
    then parse_loop tag rest
    else if same_text tag (codes "END")
    then parse_end tag rest
    else if same_text tag (codes "CONOK")
    then parse_connection_ok tag rest
    else if same_text tag (codes "CONERR")
    then parse_connection_error tag rest
    else if same_text tag (codes "REQOK")
    then parse_request_ok tag rest
    else if same_text tag (codes "REQERR")
    then parse_request_error tag rest
    else if same_text tag (codes "ERROR")
    then parse_error tag rest
    else if same_text tag (codes "WSOK")
    then parse_ws_ok tag rest
    else err (unknown_tag tag line)

-- The line, with its tag parted from its arguments where it has any.
abbrev pub parse_split : Text → Option (Text × Text) → Parsed
parse_split line none = parse_tag line line none
parse_split line (some (tag, rest)) = parse_tag line tag (some rest)

unfoldable pub parse_line : Text → Parsed
parse_line text = let line = strip_terminator text in parse_split line (split_once b',' line)
