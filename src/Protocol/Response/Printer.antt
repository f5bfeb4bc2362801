-- ===== src/Protocol/Response/Printer.antt =====
-- Lines as a server prints them: an independent description of what `parse_line` reads.
use lightstreamer_rs.Base.{
  ◌^◌, ◌<◌, ◌≡◌, ◌≢◌, true, false, Option, none, some, [], ◌∷◌, ◌++◌, u32_mod, codes,
}
use lightstreamer_rs.Text.{Text, IsText}
use lightstreamer_rs.Text.Numbers.{decimal, signed_decimal, IsI64}
use lightstreamer_rs.Protocol.Escaping.{encode_form_value, into_owned}
use lightstreamer_rs.Protocol.Arguments.{is_decimal_number}
use lightstreamer_rs.Protocol.Notifications.{
  MaxFrequency, FilteringMode, Bandwidth, MessageSequence, Notification, filtered, unfiltered,
  unmanaged, unspecified, named, update, subscription_ok, subscription_command_ok, unsubscribed,
  end_of_snapshot, clear_snapshot, overflow, subscription_reconfigured, message_done,
  message_failed, constraints_changed, sync, client_ip, server_name, progressive, no_op, probe,
  loop, end, connection_ok, connection_error, request_error, error, ws_ok, request_ok,
}

-- An argument with others behind it.
abbrev pub argument : Text → Text → Text
argument a rest = a ++ b',' ∷ rest

abbrev pub crlf : Text
crlf = b'\r' ∷ b'\n' ∷ []

abbrev pub encoded : Text → Text
encoded t = into_owned (encode_form_value t)

abbrev pub max_frequency_text : MaxFrequency → Text
max_frequency_text (MaxFrequency.limited number) = number
max_frequency_text MaxFrequency.unlimited = codes "unlimited"
max_frequency_text (MaxFrequency.unrecognized literal) = literal

abbrev pub filtering_text : FilteringMode → Text
filtering_text filtered = codes "filtered"
filtering_text unfiltered = codes "unfiltered"
filtering_text (FilteringMode.unrecognized literal) = literal

abbrev pub bandwidth_text : Bandwidth → Text
bandwidth_text (Bandwidth.limited kbps) = kbps
bandwidth_text Bandwidth.unlimited = codes "unlimited"
bandwidth_text unmanaged = codes "unmanaged"
bandwidth_text (Bandwidth.unrecognized literal) = literal

abbrev pub sequence_text : MessageSequence → Text
sequence_text unspecified = codes "*"
sequence_text (named sequence) = sequence

abbrev pub link_text : Option Text → Text
link_text none = codes "*"
link_text (some link) = link

-- The line of a notification, without its terminator.
unfoldable pub print : Notification → Text
print (update id item raw_values) =
    argument (codes "U") (argument (decimal id) (argument (decimal item) raw_values))
print (subscription_ok id items fields) =
    argument (codes "SUBOK") (argument (decimal id) (argument (decimal items) (decimal fields)))
print (subscription_command_ok id items fields key command) = argument (codes "SUBCMD") (
    argument (decimal id) (
      argument (decimal items)
        (argument (decimal fields) (argument (decimal key) (decimal command)))))
print (unsubscribed id) = argument (codes "UNSUB") (decimal id)
print (end_of_snapshot id item) = argument (codes "EOS") (argument (decimal id) (decimal item))
print (clear_snapshot id item) = argument (codes "CS") (argument (decimal id) (decimal item))
print (overflow id item size) =
    argument (codes "OV") (argument (decimal id) (argument (decimal item) (decimal size)))
print (subscription_reconfigured id max_frequency filtering) = argument (codes "CONF") (
    argument (decimal id)
      (argument (encoded (max_frequency_text max_frequency)) (encoded (filtering_text filtering))))
print (message_done sequence prog response) =
    argument (codes "MSGDONE")
      (argument (encoded (sequence_text sequence)) (argument (decimal prog) (encoded response)))
print (message_failed sequence prog code message) = argument (codes "MSGFAIL") (
    argument (encoded (sequence_text sequence))
      (argument (decimal prog) (argument (signed_decimal code) (encoded message))))
print (constraints_changed bandwidth) = argument (codes "CONS") (encoded (bandwidth_text bandwidth))
print (sync seconds) = argument (codes "SYNC") (decimal seconds)
print (client_ip address) = argument (codes "CLIENTIP") (encoded address)
print (server_name name) = argument (codes "SERVNAME") (encoded name)
print (progressive count) = argument (codes "PROG") (decimal count)
print (no_op preamble) = argument (codes "NOOP") (encoded preamble)
print probe = codes "PROBE"
print (loop delay) = argument (codes "LOOP") (decimal delay)
print (end code message) = argument (codes "END") (argument (signed_decimal code) (encoded message))
print (connection_ok session_id request_limit keep_alive link) = argument (codes "CONOK") (
    argument (encoded session_id)
      (argument (decimal request_limit) (argument (decimal keep_alive) (encoded (link_text link)))))
print (connection_error code message) =
    argument (codes "CONERR") (argument (signed_decimal code) (encoded message))
print (request_error request_id code message) =
    argument (codes "REQERR")
      (argument (encoded request_id) (argument (signed_decimal code) (encoded message)))
print (error code message) =
    argument (codes "ERROR") (argument (signed_decimal code) (encoded message))
print ws_ok = codes "WSOK"
print (request_ok none) = codes "REQOK"
print (request_ok (some request_id)) = argument (codes "REQOK") (encoded request_id)

abbrev pub IsMaxFrequency : MaxFrequency → Type 0
IsMaxFrequency (MaxFrequency.limited number) = IsText number × (is_decimal_number number ≡ true)
IsMaxFrequency MaxFrequency.unlimited = Unit
IsMaxFrequency (MaxFrequency.unrecognized literal) =
    IsText literal × (literal ≢ codes "unlimited") × (is_decimal_number literal ≡ false)

abbrev pub IsFiltering : FilteringMode → Type 0
IsFiltering filtered = Unit
IsFiltering unfiltered = Unit
IsFiltering (FilteringMode.unrecognized literal) =
    IsText literal × (literal ≢ codes "filtered") × (literal ≢ codes "unfiltered")

abbrev pub IsBandwidth : Bandwidth → Type 0
IsBandwidth (Bandwidth.limited kbps) = IsText kbps × (is_decimal_number kbps ≡ true)
IsBandwidth Bandwidth.unlimited = Unit
IsBandwidth unmanaged = Unit
IsBandwidth (Bandwidth.unrecognized literal) =
    IsText literal
    × (literal ≢ codes "unlimited")
    × (literal ≢ codes "unmanaged")
    × (is_decimal_number literal ≡ false)

abbrev pub IsSequence : MessageSequence → Type 0
IsSequence unspecified = Unit
IsSequence (named sequence) = IsText sequence × (sequence ≢ codes "*")

abbrev pub IsLink : Option Text → Type 0
IsLink none = Unit
IsLink (some link) = IsText link × (link ≢ codes "*")

-- A notification that a line can carry: its numbers have the widths of the source's types, its texts
-- are texts, and a literal is none of the words that have a constructor of their own.
abbrev pub IsSent : Notification → Type 0
IsSent (update id item raw_values) = (id < u32_mod) × (item < u32_mod)
IsSent (subscription_ok id items fields) = (id < u32_mod) × (items < u32_mod) × (fields < u32_mod)
IsSent (subscription_command_ok id items fields key command) =
    (id < u32_mod) × (items < u32_mod) × (fields < u32_mod) × (key < u32_mod) × (command < u32_mod)
IsSent (unsubscribed id) = (id < u32_mod)
IsSent (end_of_snapshot id item) = (id < u32_mod) × (item < u32_mod)
IsSent (clear_snapshot id item) = (id < u32_mod) × (item < u32_mod)
IsSent (overflow id item size) = (id < u32_mod) × (item < u32_mod) × (size < 2 ^ 64)
IsSent (subscription_reconfigured id max_frequency filtering) =
    (id < u32_mod) × IsMaxFrequency max_frequency × IsFiltering filtering
IsSent (message_done sequence prog response) =
    IsSequence sequence × (prog < 2 ^ 64) × IsText response
IsSent (message_failed sequence prog code message) =
    IsSequence sequence × (prog < 2 ^ 64) × IsI64 code × IsText message
IsSent (constraints_changed bandwidth) = IsBandwidth bandwidth
IsSent (sync seconds) = (seconds < 2 ^ 64)
IsSent (client_ip address) = IsText address
IsSent (server_name name) = IsText name
IsSent (progressive count) = (count < 2 ^ 64)
IsSent (no_op preamble) = IsText preamble
IsSent probe = Unit
IsSent (loop delay) = (delay < 2 ^ 64)
IsSent (end code message) = IsI64 code × IsText message
IsSent (connection_ok session_id request_limit keep_alive link) =
    IsText session_id × (request_limit < 2 ^ 64) × (keep_alive < 2 ^ 64) × IsLink link
IsSent (connection_error code message) = IsI64 code × IsText message
IsSent (request_error request_id code message) = IsText request_id × IsI64 code × IsText message
IsSent (error code message) = IsI64 code × IsText message
IsSent ws_ok = Unit
IsSent (request_ok none) = Unit
IsSent (request_ok (some request_id)) = IsText request_id
