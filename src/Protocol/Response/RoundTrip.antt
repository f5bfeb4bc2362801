-- ===== src/Protocol/Response/RoundTrip.antt =====
-- `parse_line` reads every printed notification back.
use lightstreamer_rs.Base.{◌≡◌, refl, ◌∙◌, arith, none, some, ◌++◌, ok, codes}
use lightstreamer_rs.Text.{split_once}
use lightstreamer_rs.Text.Numbers.{decimal, signed_decimal}
use lightstreamer_rs.Protocol.Arguments.{split_none}
use lightstreamer_rs.Protocol.Notifications.{
  Notification, update, subscription_ok, subscription_command_ok, unsubscribed, end_of_snapshot,
  clear_snapshot, overflow, subscription_reconfigured, message_done, message_failed,
  constraints_changed, sync, client_ip, server_name, progressive, no_op, probe, loop, end,
  connection_ok, connection_error, request_error, error, ws_ok, request_ok,
}
use lightstreamer_rs.Protocol.Response.Printer.{
  argument, crlf, encoded, max_frequency_text, filtering_text, bandwidth_text, sequence_text,
  link_text, print, IsSent,
}
use lightstreamer_rs.Protocol.Response.Arms.{
  parse_update_lem, parse_subscription_ok_lem, parse_subscription_command_ok_lem,
  parse_unsubscribed_lem, parse_end_of_snapshot_lem, parse_clear_snapshot_lem, parse_overflow_lem,
  parse_subscription_reconfigured_lem, parse_message_done_lem, parse_message_failed_lem,
  parse_constraints_changed_lem, parse_sync_lem, parse_client_ip_lem, parse_server_name_lem,
  parse_progressive_lem, parse_no_op_lem, parse_loop_lem, parse_end_lem, parse_connection_ok_lem,
  parse_connection_error_lem, parse_request_error_lem, parse_error_lem, parse_request_ok_lem,
}
use lightstreamer_rs.Protocol.Response.Pieces.{parse_line-argument, parse_line_bare}
use lightstreamer_rs.Protocol.Response.{
  parse_line, parse_tag, parse_probe, parse_ws_ok, parse_request_ok,
}

-- A line that a server may send, with its CR-LF, is parsed to the notification that it was printed
-- from.
pub parse_line-print : (n : Notification) → IsSent n → parse_line (print n ++ crlf) ≡ ok n
unfolding print
parse_line-print (update id item raw_values) h =
    parse_line-argument (codes "U") (argument (decimal id) (argument (decimal item) raw_values))
      (omega arith)
    ∙ (unfold parse_tag in parse_update_lem id item raw_values h)
parse_line-print (subscription_ok id items fields) h =
    parse_line-argument (codes "SUBOK")
      (argument (decimal id) (argument (decimal items) (decimal fields))) (omega arith)
    ∙ (unfold parse_tag in parse_subscription_ok_lem id items fields h)
parse_line-print (subscription_command_ok id items fields key command) h =
    parse_line-argument (codes "SUBCMD")
      (argument (decimal id) (
        argument (decimal items)
          (argument (decimal fields) (argument (decimal key) (decimal command)))))
      (omega arith)
    ∙ (unfold parse_tag in parse_subscription_command_ok_lem id items fields key command h)
parse_line-print (unsubscribed id) h =
    parse_line-argument (codes "UNSUB") (decimal id) (omega arith)
    ∙ (unfold parse_tag in parse_unsubscribed_lem id h)
parse_line-print (end_of_snapshot id item) h =
    parse_line-argument (codes "EOS") (argument (decimal id) (decimal item)) (omega arith)
    ∙ (unfold parse_tag in parse_end_of_snapshot_lem id item h)
parse_line-print (clear_snapshot id item) h =
    parse_line-argument (codes "CS") (argument (decimal id) (decimal item)) (omega arith)
    ∙ (unfold parse_tag in parse_clear_snapshot_lem id item h)
parse_line-print (overflow id item size) h =
    parse_line-argument (codes "OV")
      (argument (decimal id) (argument (decimal item) (decimal size))) (omega arith)
    ∙ (unfold parse_tag in parse_overflow_lem id item size h)
parse_line-print (subscription_reconfigured id max_frequency filtering) h =
    parse_line-argument (codes "CONF")
      (argument (decimal id) (
        argument (encoded (max_frequency_text max_frequency)) (encoded (filtering_text filtering))))
      (omega arith)
    ∙ (unfold parse_tag in parse_subscription_reconfigured_lem id max_frequency filtering h)
parse_line-print (message_done sequence prog response) h =
    parse_line-argument (codes "MSGDONE")
      (argument (encoded (sequence_text sequence)) (argument (decimal prog) (encoded response)))
      (omega arith)
    ∙ (unfold parse_tag in parse_message_done_lem sequence prog response h)
parse_line-print (message_failed sequence prog code message) h =
    parse_line-argument (codes "MSGFAIL")
      (argument (encoded (sequence_text sequence))
        (argument (decimal prog) (argument (signed_decimal code) (encoded message))))
      (omega arith)
    ∙ (unfold parse_tag in parse_message_failed_lem sequence prog code message h)
parse_line-print (constraints_changed bandwidth) h =
    parse_line-argument (codes "CONS") (encoded (bandwidth_text bandwidth)) (omega arith)
    ∙ (unfold parse_tag in parse_constraints_changed_lem bandwidth h)
parse_line-print (sync seconds) h =
    parse_line-argument (codes "SYNC") (decimal seconds) (omega arith)
    ∙ (unfold parse_tag in parse_sync_lem seconds h)
parse_line-print (client_ip address) h =
    parse_line-argument (codes "CLIENTIP") (encoded address) (omega arith)
    ∙ (unfold parse_tag in parse_client_ip_lem address h)
parse_line-print (server_name name) h =
    parse_line-argument (codes "SERVNAME") (encoded name) (omega arith)
    ∙ (unfold parse_tag in parse_server_name_lem name h)
parse_line-print (progressive count) h =
    parse_line-argument (codes "PROG") (decimal count) (omega arith)
    ∙ (unfold parse_tag in parse_progressive_lem count h)
parse_line-print (no_op preamble) h =
    parse_line-argument (codes "NOOP") (encoded preamble) (omega arith)
    ∙ (unfold parse_tag in parse_no_op_lem preamble h)
parse_line-print probe h =
    parse_line_bare (codes "PROBE") (unfold split_once in refl)
    ∙ (unfold parse_tag parse_probe split_none in refl)
parse_line-print (loop delay) h =
    parse_line-argument (codes "LOOP") (decimal delay) (omega arith)
    ∙ (unfold parse_tag in parse_loop_lem delay h)
parse_line-print (end code message) h =
    parse_line-argument (codes "END") (argument (signed_decimal code) (encoded message))
      (omega arith)
    ∙ (unfold parse_tag in parse_end_lem code message h)
parse_line-print (connection_ok session_id request_limit keep_alive link) h =
    parse_line-argument (codes "CONOK")
      (argument (encoded session_id) (
        argument (decimal request_limit)
          (argument (decimal keep_alive) (encoded (link_text link)))))
      (omega arith)
    ∙ (unfold parse_tag in parse_connection_ok_lem session_id request_limit keep_alive link h)
parse_line-print (connection_error code message) h =
    parse_line-argument (codes "CONERR") (argument (signed_decimal code) (encoded message))
      (omega arith)
    ∙ (unfold parse_tag in parse_connection_error_lem code message h)
parse_line-print (request_error request_id code message) h =
    parse_line-argument (codes "REQERR")
      (argument (encoded request_id) (argument (signed_decimal code) (encoded message)))
      (omega arith)
    ∙ (unfold parse_tag in parse_request_error_lem request_id code message h)
parse_line-print (error code message) h =
    parse_line-argument (codes "ERROR") (argument (signed_decimal code) (encoded message))
      (omega arith)
    ∙ (unfold parse_tag in parse_error_lem code message h)
parse_line-print ws_ok h =
    parse_line_bare (codes "WSOK") (unfold split_once in refl)
    ∙ (unfold parse_tag parse_ws_ok split_none in refl)
parse_line-print (request_ok none) h =
    parse_line_bare (codes "REQOK") (unfold split_once in refl)
    ∙ (unfold parse_tag parse_request_ok in refl)
parse_line-print (request_ok (some request_id)) h =
    parse_line-argument (codes "REQOK") (encoded request_id) (omega arith)
    ∙ (unfold parse_tag in parse_request_ok_lem request_id h)
