-- ===== src/Protocol/Response/Lines.antt =====
-- Printed lines hold no CR and no LF, so that the line buffer hands them on whole.
use lightstreamer_rs.Base.{
  ℕ, suc, ◌≡◌, ◌≢◌, refl, ap, ◌∙◌, arith, none, some, [], ◌∷◌, ◌++◌, ok, codes, All, All-append,
}
use lightstreamer_rs.Text.{Text, IsText, IsScalar}
use lightstreamer_rs.Text.Numbers.{
  ℤ, pos, negsuc, decimal, signed_decimal, IsDigit, decimal-IsDigit,
}
use lightstreamer_rs.Protocol.Escaping.RoundTrip.{IsSafe, encode_form_value-IsSafe}
use lightstreamer_rs.Protocol.Arguments.{strip_terminator}
use lightstreamer_rs.Protocol.Notifications.{
  Notification, update, subscription_ok, subscription_command_ok, unsubscribed, end_of_snapshot,
  clear_snapshot, overflow, subscription_reconfigured, message_done, message_failed,
  constraints_changed, sync, client_ip, server_name, progressive, no_op, probe, loop, end,
  connection_ok, connection_error, request_error, error, ws_ok, request_ok,
}
use lightstreamer_rs.Protocol.Response.Printer.{
  argument, crlf, encoded, max_frequency_text, filtering_text, bandwidth_text, sequence_text,
  link_text, print, IsSent,
}
use lightstreamer_rs.Protocol.Response.Values.{
  max_frequency_lem, filtering_lem, bandwidth_lem, sequence_lem, link_lem,
}
use lightstreamer_rs.Protocol.Response.Pieces.{strip_terminator-append}
use lightstreamer_rs.Protocol.Response.RoundTrip.{parse_line-print}
use lightstreamer_rs.Protocol.Response.{parse_line}

-- A character of a line: no CR and no LF.
abbrev pub IsLineChar : ℕ → Type 0
IsLineChar c = IsScalar c × (c ≢ b'\n') × (c ≢ b'\r')

-- A value list goes into the line as it is, and must bring no terminator.
abbrev pub IsClean : Notification → Type 0
IsClean (update id item raw_values) = All IsLineChar raw_values
IsClean other = Unit

All-imp : (P Q : ℕ → Type 0) (t : Text) → ((c : ℕ) → P c → Q c) → All P t → All Q t
All-imp P Q [] f h = tt
All-imp P Q (c ∷ t) f (hc, h) = (f c hc, All-imp P Q t f h)

digit_lem : (c : ℕ) → IsDigit c → IsLineChar c
digit_lem c h = omega arith

safe_lem : (c : ℕ) → IsSafe c → IsLineChar c
safe_lem c h = ground arith

decimal-IsLineChar : (n : ℕ) → All IsLineChar (decimal n)
decimal-IsLineChar n = All-imp IsDigit IsLineChar (decimal n) digit_lem (decimal-IsDigit n)

signed_decimal-IsLineChar : (z : ℤ) → All IsLineChar (signed_decimal z)
signed_decimal-IsLineChar (pos n) = decimal-IsLineChar n
signed_decimal-IsLineChar (negsuc n) = (omega arith, decimal-IsLineChar (suc n))

encoded-IsLineChar : (t : Text) → IsText t → All IsLineChar (encoded t)
encoded-IsLineChar t h =
    All-imp IsSafe IsLineChar (encoded t) safe_lem (encode_form_value-IsSafe t h)

argument-IsLineChar :
    (a rest : Text) → All IsLineChar a → All IsLineChar rest → All IsLineChar (argument a rest)
argument-IsLineChar a rest ha hr = All-append IsLineChar a (b',' ∷ rest) ha (omega arith, hr)

print-IsLineChar : (n : Notification) → IsSent n → IsClean n → All IsLineChar (print n)
unfolding print
print-IsLineChar (update id item raw_values) (h_id, h_item) clean =
    argument-IsLineChar (codes "U") (argument (decimal id) (argument (decimal item) raw_values))
      (omega arith)
      (argument-IsLineChar (decimal id) (argument (decimal item) raw_values) (decimal-IsLineChar id)
        (argument-IsLineChar (decimal item) raw_values (decimal-IsLineChar item) (clean)))
print-IsLineChar (subscription_ok id items fields) (h_id, h_items, h_fields) clean =
    argument-IsLineChar (codes "SUBOK")
      (argument (decimal id) (argument (decimal items) (decimal fields))) (omega arith)
      (argument-IsLineChar (decimal id) (argument (decimal items) (decimal fields))
        (decimal-IsLineChar id)
        (argument-IsLineChar (decimal items) (decimal fields) (decimal-IsLineChar items)
          (decimal-IsLineChar fields)))
print-IsLineChar (subscription_command_ok id items fields key command)
      (h_id, h_items, h_fields, h_key, h_command) clean =
    argument-IsLineChar (codes "SUBCMD")
      (argument (decimal id) (
        argument (decimal items)
          (argument (decimal fields) (argument (decimal key) (decimal command)))))
      (omega arith)
      (argument-IsLineChar (decimal id)
        (argument (decimal items)
          (argument (decimal fields) (argument (decimal key) (decimal command))))
        (decimal-IsLineChar id)
        (argument-IsLineChar (decimal items)
          (argument (decimal fields) (argument (decimal key) (decimal command)))
          (decimal-IsLineChar items)
          (argument-IsLineChar (decimal fields) (argument (decimal key) (decimal command))
            (decimal-IsLineChar fields)
            (argument-IsLineChar (decimal key) (decimal command) (decimal-IsLineChar key)
              (decimal-IsLineChar command)))))
print-IsLineChar (unsubscribed id) h_id clean =
    argument-IsLineChar (codes "UNSUB") (decimal id) (omega arith) (decimal-IsLineChar id)
print-IsLineChar (end_of_snapshot id item) (h_id, h_item) clean =
    argument-IsLineChar (codes "EOS") (argument (decimal id) (decimal item)) (omega arith) (
      argument-IsLineChar (decimal id) (decimal item) (decimal-IsLineChar id)
        (decimal-IsLineChar item))
print-IsLineChar (clear_snapshot id item) (h_id, h_item) clean =
    argument-IsLineChar (codes "CS") (argument (decimal id) (decimal item)) (omega arith) (
      argument-IsLineChar (decimal id) (decimal item) (decimal-IsLineChar id)
        (decimal-IsLineChar item))
print-IsLineChar (overflow id item size) (h_id, h_item, h_size) clean =
    argument-IsLineChar (codes "OV")
      (argument (decimal id) (argument (decimal item) (decimal size))) (omega arith)
      (argument-IsLineChar (decimal id) (argument (decimal item) (decimal size))
        (decimal-IsLineChar id)
        (argument-IsLineChar (decimal item) (decimal size) (decimal-IsLineChar item)
          (decimal-IsLineChar size)))
print-IsLineChar (subscription_reconfigured id max_frequency filtering)
      (h_id, h_max_frequency, h_filtering) clean =
    argument-IsLineChar (codes "CONF")
      (argument (decimal id) (
        argument (encoded (max_frequency_text max_frequency)) (encoded (filtering_text filtering))))
      (omega arith)
      (argument-IsLineChar (decimal id)
        (argument (encoded (max_frequency_text max_frequency)) (encoded (filtering_text filtering)))
        (decimal-IsLineChar id)
        (argument-IsLineChar (encoded (max_frequency_text max_frequency))
          (encoded (filtering_text filtering))
          (encoded-IsLineChar (max_frequency_text max_frequency)
            (max_frequency_lem max_frequency h_max_frequency).0)
          (encoded-IsLineChar (filtering_text filtering) (filtering_lem filtering h_filtering).0)))
print-IsLineChar (message_done sequence prog response) (h_sequence, h_prog, h_response) clean =
    argument-IsLineChar (codes "MSGDONE")
      (argument (encoded (sequence_text sequence)) (argument (decimal prog) (encoded response)))
      (omega arith)
      (argument-IsLineChar (encoded (sequence_text sequence))
        (argument (decimal prog) (encoded response))
        (encoded-IsLineChar (sequence_text sequence) (sequence_lem sequence h_sequence).0)
        (argument-IsLineChar (decimal prog) (encoded response) (decimal-IsLineChar prog)
          (encoded-IsLineChar response h_response)))
print-IsLineChar (message_failed sequence prog code message) (h_sequence, h_prog, h_code, h_message)
      clean =
    argument-IsLineChar (codes "MSGFAIL")
      (argument (encoded (sequence_text sequence))
        (argument (decimal prog) (argument (signed_decimal code) (encoded message))))
      (omega arith)
      (argument-IsLineChar (encoded (sequence_text sequence))
        (argument (decimal prog) (argument (signed_decimal code) (encoded message)))
        (encoded-IsLineChar (sequence_text sequence) (sequence_lem sequence h_sequence).0)
        (argument-IsLineChar (decimal prog) (argument (signed_decimal code) (encoded message))
          (decimal-IsLineChar prog)
          (argument-IsLineChar (signed_decimal code) (encoded message)
            (signed_decimal-IsLineChar code) (encoded-IsLineChar message h_message))))
print-IsLineChar (constraints_changed bandwidth) h_bandwidth clean =
    argument-IsLineChar (codes "CONS") (encoded (bandwidth_text bandwidth)) (omega arith)
      (encoded-IsLineChar (bandwidth_text bandwidth) (bandwidth_lem bandwidth h_bandwidth).0)
print-IsLineChar (sync seconds) h_seconds clean =
    argument-IsLineChar (codes "SYNC") (decimal seconds) (omega arith) (decimal-IsLineChar seconds)
print-IsLineChar (client_ip address) h_address clean =
    argument-IsLineChar (codes "CLIENTIP") (encoded address) (omega arith)
      (encoded-IsLineChar address h_address)
print-IsLineChar (server_name name) h_name clean =
    argument-IsLineChar (codes "SERVNAME") (encoded name) (omega arith)
      (encoded-IsLineChar name h_name)
print-IsLineChar (progressive count) h_count clean =
    argument-IsLineChar (codes "PROG") (decimal count) (omega arith) (decimal-IsLineChar count)
print-IsLineChar (no_op preamble) h_preamble clean =
    argument-IsLineChar (codes "NOOP") (encoded preamble) (omega arith)
      (encoded-IsLineChar preamble h_preamble)
print-IsLineChar probe h clean = omega arith
print-IsLineChar (loop delay) h_delay clean =
    argument-IsLineChar (codes "LOOP") (decimal delay) (omega arith) (decimal-IsLineChar delay)
print-IsLineChar (end code message) (h_code, h_message) clean =
    argument-IsLineChar (codes "END") (argument (signed_decimal code) (encoded message))
      (omega arith)
      (argument-IsLineChar (signed_decimal code) (encoded message) (signed_decimal-IsLineChar code)
        (encoded-IsLineChar message h_message))
print-IsLineChar (connection_ok session_id request_limit keep_alive link)
      (h_session_id, h_request_limit, h_keep_alive, h_link) clean =
    argument-IsLineChar (codes "CONOK")
      (argument (encoded session_id) (
        argument (decimal request_limit)
          (argument (decimal keep_alive) (encoded (link_text link)))))
      (omega arith)
      (argument-IsLineChar (encoded session_id)
        (argument (decimal request_limit)
          (argument (decimal keep_alive) (encoded (link_text link))))
        (encoded-IsLineChar session_id h_session_id)
        (argument-IsLineChar (decimal request_limit)
          (argument (decimal keep_alive) (encoded (link_text link)))
          (decimal-IsLineChar request_limit)
          (argument-IsLineChar (decimal keep_alive) (encoded (link_text link))
            (decimal-IsLineChar keep_alive)
            (encoded-IsLineChar (link_text link) (link_lem link h_link).0))))
print-IsLineChar (connection_error code message) (h_code, h_message) clean =
    argument-IsLineChar (codes "CONERR") (argument (signed_decimal code) (encoded message))
      (omega arith)
      (argument-IsLineChar (signed_decimal code) (encoded message) (signed_decimal-IsLineChar code)
        (encoded-IsLineChar message h_message))
print-IsLineChar (request_error request_id code message) (h_request_id, h_code, h_message) clean =
    argument-IsLineChar (codes "REQERR")
      (argument (encoded request_id) (argument (signed_decimal code) (encoded message)))
      (omega arith)
      (argument-IsLineChar (encoded request_id) (argument (signed_decimal code) (encoded message))
        (encoded-IsLineChar request_id h_request_id)
        (argument-IsLineChar (signed_decimal code) (encoded message)
          (signed_decimal-IsLineChar code) (encoded-IsLineChar message h_message)))
print-IsLineChar (error code message) (h_code, h_message) clean =
    argument-IsLineChar (codes "ERROR") (argument (signed_decimal code) (encoded message))
      (omega arith)
      (argument-IsLineChar (signed_decimal code) (encoded message) (signed_decimal-IsLineChar code)
        (encoded-IsLineChar message h_message))
print-IsLineChar ws_ok h clean = omega arith
print-IsLineChar (request_ok none) h clean = omega arith
print-IsLineChar (request_ok (some request_id)) h clean =
    argument-IsLineChar (codes "REQOK") (encoded request_id) (omega arith)
      (encoded-IsLineChar request_id h)

print-ne-nil : (n : Notification) → print n ≢ []
unfolding print
print-ne-nil (update id item raw_values) h = cc
print-ne-nil (subscription_ok id items fields) h = cc
print-ne-nil (subscription_command_ok id items fields key command) h = cc
print-ne-nil (unsubscribed id) h = cc
print-ne-nil (end_of_snapshot id item) h = cc
print-ne-nil (clear_snapshot id item) h = cc
print-ne-nil (overflow id item size) h = cc
print-ne-nil (subscription_reconfigured id max_frequency filtering) h = cc
print-ne-nil (message_done sequence prog response) h = cc
print-ne-nil (message_failed sequence prog code message) h = cc
print-ne-nil (constraints_changed bandwidth) h = cc
print-ne-nil (sync seconds) h = cc
print-ne-nil (client_ip address) h = cc
print-ne-nil (server_name name) h = cc
print-ne-nil (progressive count) h = cc
print-ne-nil (no_op preamble) h = cc
print-ne-nil probe h = cc
print-ne-nil (loop delay) h = cc
print-ne-nil (end code message) h = cc
print-ne-nil (connection_ok session_id request_limit keep_alive link) h = cc
print-ne-nil (connection_error code message) h = cc
print-ne-nil (request_error request_id code message) h = cc
print-ne-nil (error code message) h = cc
print-ne-nil ws_ok h = cc
print-ne-nil (request_ok none) h = cc
print-ne-nil (request_ok (some request_id)) h = cc

strip_terminator-none : (t : Text) → All IsLineChar t → strip_terminator t ≡ t
unfolding strip_terminator
strip_terminator-none [] h = refl
strip_terminator-none (c ∷ []) h = ground arith
strip_terminator-none (c ∷ d ∷ []) h = ground arith
strip_terminator-none (c ∷ d ∷ e ∷ t) (hc, h) =
    ap (λ r. c ∷ r) (strip_terminator-none (d ∷ e ∷ t) h)

parse_line_stripped : (t : Text) → strip_terminator t ≡ t → parse_line t ≡ parse_line (t ++ crlf)
unfolding parse_line
parse_line_stripped t h = rw (strip_terminator-append t, h)

-- The parser reads a printed line back without its terminator too, as the line buffer hands it out.
pub parse_line-print_bare : (n : Notification) → IsSent n → IsClean n → parse_line (print n) ≡ ok n
parse_line-print_bare n h clean =
    parse_line_stripped (print n) (strip_terminator-none (print n) (print-IsLineChar n h clean))
    ∙ parse_line-print n h

-- A printed line is a line to the line buffer.
pub print_line :
    (n : Notification)
    → IsSent n
    → IsClean n
    → (print n ≢ []) × IsText (print n) × All (λ c. c ≢ b'\n') (print n)
print_line n h clean =
    let all = print-IsLineChar n h clean in
    (
      print-ne-nil n,
      All-imp IsLineChar IsScalar (print n) (λ c p. p.0) all,
      All-imp IsLineChar (λ c. c ≢ b'\n') (print n) (λ c p. p.1) all,
    )
