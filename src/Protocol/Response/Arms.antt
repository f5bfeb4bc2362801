-- ===== src/Protocol/Response/Arms.antt =====
-- Each arm of the parser on the arguments of a printed line.
use lightstreamer_rs.Base.{ℕ, ◌≡◌, arith, Option, some, ok, codes, u32_mod, usize_mod}
use lightstreamer_rs.Text.{Text, IsText}
use lightstreamer_rs.Text.Numbers.{
  ℤ, decimal, signed_decimal, parse_unsigned-decimal, parse_signed-decimal, Lacks-decimal,
  Lacks-signed_decimal,
}
use lightstreamer_rs.Protocol.Notifications.{
  MaxFrequency, FilteringMode, Bandwidth, MessageSequence, update, subscription_ok,
  subscription_command_ok, unsubscribed, end_of_snapshot, clear_snapshot, overflow,
  subscription_reconfigured, message_done, message_failed, constraints_changed, sync, client_ip,
  server_name, progressive, no_op, loop, end, connection_ok, connection_error, request_error, error,
  request_ok,
}
use lightstreamer_rs.Protocol.Response.Printer.{
  argument, encoded, max_frequency_text, filtering_text, bandwidth_text, sequence_text, link_text,
  IsSent,
}
use lightstreamer_rs.Protocol.Response.Values.{
  max_frequency_lem, filtering_lem, bandwidth_lem, sequence_lem, link_lem,
}
use lightstreamer_rs.Protocol.Response.Pieces.{
  split_one, split_two, split_three, split_four, split_five, decode-encoded, Lacks-encoded,
}
use lightstreamer_rs.Protocol.Response.{
  parse_update, parse_subscription_ok, parse_subscription_command_ok, parse_unsubscribed,
  parse_end_of_snapshot, parse_clear_snapshot, parse_overflow, parse_subscription_reconfigured,
  parse_message_done, parse_message_failed, parse_constraints_changed, parse_sync, parse_client_ip,
  parse_server_name, parse_progressive, parse_no_op, parse_loop, parse_end, parse_connection_ok,
  parse_connection_error, parse_request_error, parse_error, parse_request_ok,
}

pub parse_update_lem :
    (id : ℕ) (item : ℕ) (raw_values : Text)
    → IsSent (update id item raw_values)
    → parse_update (codes "U") (some (argument (decimal id) (argument (decimal item) raw_values)))
      ≡ ok (update id item raw_values)
unfolding parse_update
parse_update_lem id item raw_values (h0, h1) = rw (
  split_three (codes "U") (decimal id) (decimal item) raw_values
      (Lacks-decimal b',' id (omega arith)) (Lacks-decimal b',' item (omega arith)),
  parse_unsigned-decimal u32_mod id h0,
  parse_unsigned-decimal u32_mod item h1,
)

pub parse_subscription_ok_lem :
    (id : ℕ) (items : ℕ) (fields : ℕ)
    → IsSent (subscription_ok id items fields)
    → parse_subscription_ok
        (codes "SUBOK")
        (some (argument (decimal id) (argument (decimal items) (decimal fields))))
      ≡ ok (subscription_ok id items fields)
unfolding parse_subscription_ok
parse_subscription_ok_lem id items fields (h0, h1, h2) = rw (
  split_three (codes "SUBOK") (decimal id) (decimal items) (decimal fields)
      (Lacks-decimal b',' id (omega arith)) (Lacks-decimal b',' items (omega arith)),
  parse_unsigned-decimal u32_mod id h0,
  parse_unsigned-decimal u32_mod items h1,
  parse_unsigned-decimal u32_mod fields h2,
)

pub parse_subscription_command_ok_lem :
    (id : ℕ) (items : ℕ) (fields : ℕ) (key : ℕ) (command : ℕ)
    → IsSent (subscription_command_ok id items fields key command)
    → parse_subscription_command_ok (codes "SUBCMD") (
        some (
          argument (decimal id) (
            argument
              (decimal items)
              (argument (decimal fields) (argument (decimal key) (decimal command))))))
      ≡ ok (subscription_command_ok id items fields key command)
unfolding parse_subscription_command_ok
parse_subscription_command_ok_lem id items fields key command (h0, h1, h2, h3, h4) = rw (
  split_five (codes "SUBCMD") (decimal id) (decimal items) (decimal fields) (decimal key)
      (Lacks-decimal b',' id (omega arith)) (Lacks-decimal b',' items (omega arith))
      (Lacks-decimal b',' fields (omega arith)) (decimal command)
      (Lacks-decimal b',' key (omega arith)),
  parse_unsigned-decimal u32_mod id h0,
  parse_unsigned-decimal u32_mod items h1,
  parse_unsigned-decimal u32_mod fields h2,
  parse_unsigned-decimal u32_mod key h3,
  parse_unsigned-decimal u32_mod command h4,
)

pub parse_unsubscribed_lem :
    (id : ℕ)
    → IsSent (unsubscribed id)
    → parse_unsubscribed (codes "UNSUB") (some (decimal id)) ≡ ok (unsubscribed id)
unfolding parse_unsubscribed
parse_unsubscribed_lem id h0 =
    rw (split_one (codes "UNSUB") (decimal id), parse_unsigned-decimal u32_mod id h0)

pub parse_end_of_snapshot_lem :
    (id : ℕ) (item : ℕ)
    → IsSent (end_of_snapshot id item)
    → parse_end_of_snapshot (codes "EOS") (some (argument (decimal id) (decimal item)))
      ≡ ok (end_of_snapshot id item)
unfolding parse_end_of_snapshot
parse_end_of_snapshot_lem id item (h0, h1) = rw (
  split_two (codes "EOS") (decimal id) (decimal item) (Lacks-decimal b',' id (omega arith)),
  parse_unsigned-decimal u32_mod id h0,
  parse_unsigned-decimal u32_mod item h1,
)

pub parse_clear_snapshot_lem :
    (id : ℕ) (item : ℕ)
    → IsSent (clear_snapshot id item)
    → parse_clear_snapshot (codes "CS") (some (argument (decimal id) (decimal item)))
      ≡ ok (clear_snapshot id item)
unfolding parse_clear_snapshot
parse_clear_snapshot_lem id item (h0, h1) = rw (
  split_two (codes "CS") (decimal id) (decimal item) (Lacks-decimal b',' id (omega arith)),
  parse_unsigned-decimal u32_mod id h0,
  parse_unsigned-decimal u32_mod item h1,
)

pub parse_overflow_lem :
    (id : ℕ) (item : ℕ) (size : ℕ)
    → IsSent (overflow id item size)
    → parse_overflow
        (codes "OV")
        (some (argument (decimal id) (argument (decimal item) (decimal size))))
      ≡ ok (overflow id item size)
unfolding parse_overflow
parse_overflow_lem id item size (h0, h1, h2) = rw (
  split_three (codes "OV") (decimal id) (decimal item) (decimal size)
      (Lacks-decimal b',' id (omega arith)) (Lacks-decimal b',' item (omega arith)),
  parse_unsigned-decimal u32_mod id h0,
  parse_unsigned-decimal u32_mod item h1,
  parse_unsigned-decimal usize_mod size h2,
)

pub parse_subscription_reconfigured_lem :
    (id : ℕ) (max_frequency : MaxFrequency) (filtering : FilteringMode)
    → IsSent (subscription_reconfigured id max_frequency filtering)
    → parse_subscription_reconfigured (codes "CONF") (
        some (
          argument (decimal id) (
            argument
              (encoded (max_frequency_text max_frequency))
              (encoded (filtering_text filtering)))))
      ≡ ok (subscription_reconfigured id max_frequency filtering)
unfolding parse_subscription_reconfigured
parse_subscription_reconfigured_lem id max_frequency filtering (h0, h1, h2) =
    let t_max_frequency = max_frequency_lem max_frequency h1 in
    let t_filtering = filtering_lem filtering h2 in
    rw (
      split_three (codes "CONF") (decimal id) (encoded (max_frequency_text max_frequency))
          (encoded (filtering_text filtering)) (Lacks-decimal b',' id (omega arith))
          (Lacks-encoded (max_frequency_text max_frequency) t_max_frequency.0),
      parse_unsigned-decimal u32_mod id h0,
      decode-encoded (max_frequency_text max_frequency) t_max_frequency.0,
      decode-encoded (filtering_text filtering) t_filtering.0,
      t_max_frequency.1,
      t_filtering.1,
    )

pub parse_message_done_lem :
    (sequence : MessageSequence) (prog : ℕ) (response : Text)
    → IsSent (message_done sequence prog response)
    → parse_message_done (codes "MSGDONE") (
        some (
          argument (encoded (sequence_text sequence)) (argument (decimal prog) (encoded response))))
      ≡ ok (message_done sequence prog response)
unfolding parse_message_done
parse_message_done_lem sequence prog response (h0, h1, h2) =
    let t_sequence = sequence_lem sequence h0 in
    rw (
      split_three (codes "MSGDONE") (encoded (sequence_text sequence)) (decimal prog)
          (encoded response) (Lacks-encoded (sequence_text sequence) t_sequence.0)
          (Lacks-decimal b',' prog (omega arith)),
      decode-encoded (sequence_text sequence) t_sequence.0,
      parse_unsigned-decimal usize_mod prog h1,
      decode-encoded response h2,
      t_sequence.1,
    )

pub parse_message_failed_lem :
    (sequence : MessageSequence) (prog : ℕ) (code : ℤ) (message : Text)
    → IsSent (message_failed sequence prog code message)
    → parse_message_failed (codes "MSGFAIL") (
        some (
          argument
            (encoded (sequence_text sequence))
            (argument (decimal prog) (argument (signed_decimal code) (encoded message)))))
      ≡ ok (message_failed sequence prog code message)
unfolding parse_message_failed
parse_message_failed_lem sequence prog code message (h0, h1, h2, h3) =
    let t_sequence = sequence_lem sequence h0 in
    rw (
      split_four (codes "MSGFAIL") (encoded (sequence_text sequence)) (decimal prog)
          (signed_decimal code) (encoded message)
          (Lacks-encoded (sequence_text sequence) t_sequence.0)
          (Lacks-decimal b',' prog (omega arith)) (Lacks-signed_decimal b',' code (omega arith)),
      decode-encoded (sequence_text sequence) t_sequence.0,
      parse_unsigned-decimal usize_mod prog h1,
      parse_signed-decimal code h2,
      decode-encoded message h3,
      t_sequence.1,
    )

pub parse_constraints_changed_lem :
    (bandwidth : Bandwidth)
    → IsSent (constraints_changed bandwidth)
    → parse_constraints_changed (codes "CONS") (some (encoded (bandwidth_text bandwidth)))
      ≡ ok (constraints_changed bandwidth)
unfolding parse_constraints_changed
parse_constraints_changed_lem bandwidth h0 =
    let t_bandwidth = bandwidth_lem bandwidth h0 in
    rw (
      split_one (codes "CONS") (encoded (bandwidth_text bandwidth)),
      decode-encoded (bandwidth_text bandwidth) t_bandwidth.0,
      t_bandwidth.1,
    )

pub parse_sync_lem :
    (seconds : ℕ)
    → IsSent (sync seconds)
    → parse_sync (codes "SYNC") (some (decimal seconds)) ≡ ok (sync seconds)
unfolding parse_sync
parse_sync_lem seconds h0 =
    rw (split_one (codes "SYNC") (decimal seconds), parse_unsigned-decimal usize_mod seconds h0)

pub parse_client_ip_lem :
    (address : Text)
    → IsSent (client_ip address)
    → parse_client_ip (codes "CLIENTIP") (some (encoded address)) ≡ ok (client_ip address)
unfolding parse_client_ip
parse_client_ip_lem address h0 =
    rw (split_one (codes "CLIENTIP") (encoded address), decode-encoded address h0)

pub parse_server_name_lem :
    (name : Text)
    → IsSent (server_name name)
    → parse_server_name (codes "SERVNAME") (some (encoded name)) ≡ ok (server_name name)
unfolding parse_server_name
parse_server_name_lem name h0 =
    rw (split_one (codes "SERVNAME") (encoded name), decode-encoded name h0)

pub parse_progressive_lem :
    (count : ℕ)
    → IsSent (progressive count)
    → parse_progressive (codes "PROG") (some (decimal count)) ≡ ok (progressive count)
unfolding parse_progressive
parse_progressive_lem count h0 =
    rw (split_one (codes "PROG") (decimal count), parse_unsigned-decimal usize_mod count h0)

pub parse_no_op_lem :
    (preamble : Text)
    → IsSent (no_op preamble)
    → parse_no_op (codes "NOOP") (some (encoded preamble)) ≡ ok (no_op preamble)
unfolding parse_no_op
parse_no_op_lem preamble h0 =
    rw (split_one (codes "NOOP") (encoded preamble), decode-encoded preamble h0)

pub parse_loop_lem :
    (delay : ℕ)
    → IsSent (loop delay)
    → parse_loop (codes "LOOP") (some (decimal delay)) ≡ ok (loop delay)
unfolding parse_loop
parse_loop_lem delay h0 =
    rw (split_one (codes "LOOP") (decimal delay), parse_unsigned-decimal usize_mod delay h0)

pub parse_end_lem :
    (code : ℤ) (message : Text)
    → IsSent (end code message)
    → parse_end (codes "END") (some (argument (signed_decimal code) (encoded message)))
      ≡ ok (end code message)
unfolding parse_end
parse_end_lem code message (h0, h1) = rw (
  split_two (codes "END") (signed_decimal code) (encoded message)
      (Lacks-signed_decimal b',' code (omega arith)),
  parse_signed-decimal code h0,
  decode-encoded message h1,
)

pub parse_connection_ok_lem :
    (session_id : Text) (request_limit : ℕ) (keep_alive : ℕ) (link : Option Text)
    → IsSent (connection_ok session_id request_limit keep_alive link)
    → parse_connection_ok (codes "CONOK") (
        some (
          argument (encoded session_id) (
            argument
              (decimal request_limit)
              (argument (decimal keep_alive) (encoded (link_text link))))))
      ≡ ok (connection_ok session_id request_limit keep_alive link)
unfolding parse_connection_ok
parse_connection_ok_lem session_id request_limit keep_alive link (h0, h1, h2, h3) =
    let t_link = link_lem link h3 in
    rw (
      split_four (codes "CONOK") (encoded session_id) (decimal request_limit) (decimal keep_alive)
          (encoded (link_text link)) (Lacks-encoded session_id h0)
          (Lacks-decimal b',' request_limit (omega arith))
          (Lacks-decimal b',' keep_alive (omega arith)),
      decode-encoded (link_text link) t_link.0,
      decode-encoded session_id h0,
      parse_unsigned-decimal usize_mod request_limit h1,
      parse_unsigned-decimal usize_mod keep_alive h2,
      t_link.1,
    )

pub parse_connection_error_lem :
    (code : ℤ) (message : Text)
    → IsSent (connection_error code message)
    → parse_connection_error
        (codes "CONERR")
        (some (argument (signed_decimal code) (encoded message)))
      ≡ ok (connection_error code message)
unfolding parse_connection_error
parse_connection_error_lem code message (h0, h1) = rw (
  split_two (codes "CONERR") (signed_decimal code) (encoded message)
      (Lacks-signed_decimal b',' code (omega arith)),
  parse_signed-decimal code h0,
  decode-encoded message h1,
)

pub parse_request_error_lem :
    (request_id : Text) (code : ℤ) (message : Text)
    → IsSent (request_error request_id code message)
    → parse_request_error
        (codes "REQERR")
        (some (argument (encoded request_id) (argument (signed_decimal code) (encoded message))))
      ≡ ok (request_error request_id code message)
unfolding parse_request_error
parse_request_error_lem request_id code message (h0, h1, h2) = rw (
  split_three (codes "REQERR") (encoded request_id) (signed_decimal code) (encoded message)
      (Lacks-encoded request_id h0) (Lacks-signed_decimal b',' code (omega arith)),
  decode-encoded request_id h0,
  parse_signed-decimal code h1,
  decode-encoded message h2,
)

pub parse_error_lem :
    (code : ℤ) (message : Text)
    → IsSent (error code message)
    → parse_error (codes "ERROR") (some (argument (signed_decimal code) (encoded message)))
      ≡ ok (error code message)
unfolding parse_error
parse_error_lem code message (h0, h1) = rw (
  split_two (codes "ERROR") (signed_decimal code) (encoded message)
      (Lacks-signed_decimal b',' code (omega arith)),
  parse_signed-decimal code h0,
  decode-encoded message h1,
)

pub parse_request_ok_lem :
    (request_id : Text)
    → IsText request_id
    → parse_request_ok (codes "REQOK") (some (encoded request_id))
      ≡ ok (request_ok (some request_id))
unfolding parse_request_ok
parse_request_ok_lem request_id h =
    rw (split_one (codes "REQOK") (encoded request_id), decode-encoded request_id h)
