-- ===== src/Protocol/TlcpRequest/Reads.antt =====
-- The lines of encoded requests, as a server reads them.
use lightstreamer_rs.Base.{
  suc, ◌≡◌, refl, ap, subst, ◌∙◌, arith, true, Option, none, some, [], ◌∷◌, ◌++◌, Result, ok, err,
  ◌>>=◌, map_ok, codes, All,
}
use lightstreamer_rs.Text.{Text, IsText, Lacks, split_once, split_once-append}
use lightstreamer_rs.Text.Numbers.{ℤ, signed_decimal, pos, negsuc}
use lightstreamer_rs.Protocol.Errors.{ProtocolError}
use lightstreamer_rs.Protocol.Diff.{JsonPatch, supported_diffs}
use lightstreamer_rs.Protocol.Escaping.RoundTrip.{encode_form_value_space}
use lightstreamer_rs.Protocol.Requests.{
  TransportKind, web_socket, control_name, message_name, all_word, DestroyCause, mode_text,
  ControlOperation, add, delete, reconf, constrain, force_rebind, destroy, requested_frequency_text,
  limit_text, buffer_size_text, snapshot_text, ttl_text,
}
use lightstreamer_rs.Protocol.Request.{Encoded, encode_session}
use lightstreamer_rs.Protocol.Request.Form.{
  Pairs, read_form, Spells, Spells-text, IsBare, IsBare-decimal,
}
use lightstreamer_rs.Protocol.Request.Reads.{
  Writes, ◌then◌, OnSome, Writes-if_some, Writes-text, Writes-text?, Writes-number, Writes-number?,
  Writes-boolean?, Writes-word, Writes-word?, Writes-plain?, Writes-verbatim,
}
use lightstreamer_rs.Protocol.TlcpRequest.Contents.{
  diffs_of, require_session, IsDecimalNumber, IsRequestedMaxFrequency, IsLimit,
}
use lightstreamer_rs.Protocol.Request.{
  CreateSession, BindSession, Heartbeat, encode_create_session, encode_bind_session,
  encode_heartbeat, encode_diffs, client_identifier,
}
use lightstreamer_rs.Protocol.Control.{
  Subscribe, Unsubscribe, ReconfigureSubscription, ConstrainSession, ForceRebind, DestroySession,
  MessageSend, encode_subscribe, encode_unsubscribe, encode_reconfigure, encode_constrain,
  encode_force_rebind, encode_destroy, encode_message, encode_cause, validate_subscribe,
  validate_message,
}
use lightstreamer_rs.Protocol.TlcpRequest.{
  TlcpRequest, create_session, bind_session, subscribe, unsubscribe, reconfigure_subscription,
  constrain_session, force_rebind, destroy_session, message_send, heartbeat, encode_parameters,
  ws_message, request_name,
}
use lightstreamer_rs.Protocol.TlcpRequest.Contents.{
  one, parameters, check, IsProper, cause_parameters,
}
use lightstreamer_rs.Protocol.TlcpRequest.Words.{
  decimal_number-IsBare, mode_text-IsBare, frequency-IsBare, limit-IsBare, buffer_size-IsBare,
  snapshot-IsBare, ttl-IsBare, all_word-IsBare, all_alphanumeric-IsBare, Writes-ack,
  Writes-connection,
}
use lightstreamer_rs.Protocol.TlcpRequest.Headers.{
  ok_read, read-encode_session, read-encode_control_header, read-bind_session_id, Writes-control,
  read_after,
}

-- The encoding of a request is refused as `check` says, and else a server reads its parameters.
abbrev IsRead : JsonPatch → TlcpRequest → TransportKind → Type 0
IsRead json r t =
    map_ok read_form (encode_parameters json r t)
    ≡ (check r t >>= λ _. ok (some (parameters json r t)))

Spells-client_identifier : Spells client_identifier (codes "mgQkwtwdysogQz2BJ4Ji kOj2Bg")
Spells-client_identifier =
    subst (λ written. Spells written (codes "mgQkwtwdysogQz2BJ4Ji kOj2Bg")) encode_form_value_space
      (Spells-text (codes "mgQkwtwdysogQz2BJ4Ji kOj2Bg") (omega arith))

Writes-diffs :
    (json : JsonPatch)
    → Writes
        (λ line. encode_diffs line (supported_diffs json))
        (one (codes "LS_supported_diffs") (diffs_of json))
unfolding supported_diffs
Writes-diffs none = Writes-word (codes "LS_supported_diffs") (codes "T") (omega arith) (omega arith)
Writes-diffs (some apply) =
    Writes-word (codes "LS_supported_diffs") (codes "T,P") (omega arith) (omega arith)

IsRead-create_session :
    (json : JsonPatch) (r : CreateSession) (t : TransportKind)
    → IsProper (create_session r)
    → IsRead json (create_session r) t
unfolding encode_parameters encode_create_session
IsRead-create_session json r t (hu, hp, ha, hb) = ok_read _ _ (
    Writes-text? (codes "LS_user") r.user (omega arith) hu
    then Writes-text? (codes "LS_password") r.password (omega arith) hp
    then Writes-text? (codes "LS_adapter_set") r.adapter_set (omega arith) ha
    then Writes-verbatim (codes "LS_cid") client_identifier _ (omega arith) Spells-client_identifier
    then Writes-word? IsDecimalNumber (λ n. n.text) (codes "LS_requested_max_bandwidth")
        r.requested_max_bandwidth (omega arith) hb (λ n h. decimal_number-IsBare n.text h)
    then Writes-number? (codes "LS_content_length") r.content_length (omega arith)
    then Writes-diffs json
    then Writes-connection r.connection
    then Writes-boolean? (codes "LS_reduce_head") r.reduce_head (omega arith)
    then Writes-plain? ttl_text (codes "LS_ttl_millis") r.ttl (omega arith) ttl-IsBare)

IsRead-unsubscribe :
    (json : JsonPatch) (r : Unsubscribe) (t : TransportKind)
    → IsProper (unsubscribe r)
    → IsRead json (unsubscribe r) t
unfolding encode_parameters encode_unsubscribe
IsRead-unsubscribe json r t hc = read-encode_control_header r.session r.request_id delete t _ _ (
    Writes-control r.session r.request_id delete hc
    then Writes-number (codes "LS_subId") r.subscription_id (omega arith)
    then Writes-ack t r.ack)

signed_decimal-IsBare : (z : ℤ) → All IsBare (signed_decimal z)
signed_decimal-IsBare (pos n) = IsBare-decimal n
signed_decimal-IsBare (negsuc n) = (omega arith, IsBare-decimal (suc n))

Writes-cause :
    (c : DestroyCause)
    → OnSome (λ m. IsText m.text) c.message
    → Writes (λ line. encode_cause line c) (cause_parameters c)
Writes-cause c h =
    Writes-word (codes "LS_cause_code") (signed_decimal c.code.code) (omega arith)
      (signed_decimal-IsBare c.code.code)
    then Writes-if_some (λ m. IsText m.text) _ _ c.message h
        (λ m hm. Writes-text (codes "LS_cause_message") m.text (omega arith) hm)

IsRead-bind_session :
    (json : JsonPatch) (r : BindSession) (t : TransportKind)
    → IsProper (bind_session r)
    → IsRead json (bind_session r) t
unfolding encode_parameters encode_bind_session
IsRead-bind_session json r t hs = read-bind_session_id r.session t _ _ (
    Writes-text? (codes "LS_session") r.session (omega arith) hs
    then Writes-number? (codes "LS_recovery_from") r.recovery_from (omega arith)
    then Writes-number? (codes "LS_content_length") r.content_length (omega arith)
    then Writes-connection r.connection
    then Writes-boolean? (codes "LS_reduce_head") r.reduce_head (omega arith))

IsRead-subscribe :
    (json : JsonPatch) (r : Subscribe) (t : TransportKind)
    → IsProper (subscribe r)
    → IsRead json (subscribe r) t
unfolding encode_parameters encode_subscribe
IsRead-subscribe json r t (hc, hg, hs, ha, hsel, hf) =
    read_after (validate_subscribe r) (require_session control_name r.session t) _ _ (
      read-encode_control_header r.session r.request_id add t _ _ (
        Writes-control r.session r.request_id add hc
        then Writes-number (codes "LS_subId") r.subscription_id (omega arith)
        then Writes-text (codes "LS_group") r.group (omega arith) hg
        then Writes-text (codes "LS_schema") r.schema (omega arith) hs
        then Writes-text? (codes "LS_data_adapter") r.data_adapter (omega arith) ha
        then Writes-word (codes "LS_mode") (mode_text r.mode) (omega arith)
            (mode_text-IsBare r.mode)
        then Writes-text? (codes "LS_selector") r.selector (omega arith) hsel
        then Writes-plain? buffer_size_text (codes "LS_requested_buffer_size")
            r.requested_buffer_size (omega arith) buffer_size-IsBare
        then Writes-word? IsRequestedMaxFrequency requested_frequency_text
            (codes "LS_requested_max_frequency") r.requested_max_frequency (omega arith) hf
            frequency-IsBare
        then Writes-plain? snapshot_text (codes "LS_snapshot") r.snapshot (omega arith)
            snapshot-IsBare
        then Writes-ack t r.ack))

IsRead-reconfigure :
    (json : JsonPatch) (r : ReconfigureSubscription) (t : TransportKind)
    → IsProper (reconfigure_subscription r)
    → IsRead json (reconfigure_subscription r) t
unfolding encode_parameters encode_reconfigure
IsRead-reconfigure json r t (hc, hf) =
    read-encode_control_header r.session r.request_id reconf t _ _ (
      Writes-control r.session r.request_id reconf hc
      then Writes-number (codes "LS_subId") r.subscription_id (omega arith)
      then Writes-word? IsLimit limit_text (codes "LS_requested_max_frequency")
          r.requested_max_frequency (omega arith) hf limit-IsBare)

IsRead-constrain :
    (json : JsonPatch) (r : ConstrainSession) (t : TransportKind)
    → IsProper (constrain_session r)
    → IsRead json (constrain_session r) t
unfolding encode_parameters encode_constrain
IsRead-constrain json r t (hc, hb) =
    read-encode_control_header r.session r.request_id constrain t _ _ (
      Writes-control r.session r.request_id constrain hc
      then Writes-word? IsLimit limit_text (codes "LS_requested_max_bandwidth")
          r.requested_max_bandwidth (omega arith) hb limit-IsBare)

IsRead-force_rebind :
    (json : JsonPatch) (r : ForceRebind) (t : TransportKind)
    → IsProper (force_rebind r)
    → IsRead json (force_rebind r) t
unfolding encode_parameters encode_force_rebind
IsRead-force_rebind json r t hc =
    read-encode_control_header r.session r.request_id ControlOperation.force_rebind t _ _ (
      Writes-control r.session r.request_id ControlOperation.force_rebind hc
      then Writes-number? (codes "LS_polling_millis") r.polling_millis (omega arith)
      then Writes-boolean? (codes "LS_close_socket") r.close_socket (omega arith))

IsRead-destroy :
    (json : JsonPatch) (r : DestroySession) (t : TransportKind)
    → IsProper (destroy_session r)
    → IsRead json (destroy_session r) t
unfolding encode_parameters encode_destroy
IsRead-destroy json r t (hc, hm) = read-encode_control_header r.session r.request_id destroy t _ _ (
    Writes-control r.session r.request_id destroy hc
    then Writes-if_some (λ c. OnSome (λ m. IsText m.text) c.message) encode_cause cause_parameters
        r.cause hm Writes-cause
    then Writes-boolean? (codes "LS_close_socket") r.close_socket (omega arith))

IsRead-message :
    (json : JsonPatch) (r : MessageSend) (t : TransportKind)
    → IsProper (message_send r)
    → IsRead json (message_send r) t
unfolding encode_parameters encode_message
IsRead-message json r t ((hs, hid), hm, hseq) =
    read_after (validate_message r) (require_session message_name r.session t) _ _ (
      read-encode_session message_name r.session t _ _ (
        Writes-text? (codes "LS_session") r.session (omega arith) hs
        then Writes-word (codes "LS_reqId") r.request_id.text (omega arith)
            (all_alphanumeric-IsBare r.request_id.text hid)
        then Writes-word? (λ s. all_word s.text ≡ true) (λ s. s.text) (codes "LS_sequence")
            r.sequence (omega arith) hseq (λ s h. all_word-IsBare s.text h)
        then Writes-number? (codes "LS_msg_prog") r.msg_prog (omega arith)
        then Writes-number? (codes "LS_max_wait") r.max_wait_millis (omega arith)
        then Writes-ack t r.ack
        then Writes-boolean? (codes "LS_outcome") r.outcome (omega arith)
        then Writes-text (codes "LS_message") r.message (omega arith) hm))

>>=-ok-eta : (e : Encoded) → e ≡ (e >>= λ line. ok line)
>>=-ok-eta (ok line) = refl
>>=-ok-eta (err x) = refl

IsRead-heartbeat :
    (json : JsonPatch) (r : Heartbeat) (t : TransportKind)
    → IsProper (heartbeat r)
    → IsRead json (heartbeat r) t
unfolding encode_parameters encode_heartbeat
IsRead-heartbeat json r t hs =
    ap (map_ok read_form) (>>=-ok-eta (encode_session (codes "heartbeat") r.session t))
    ∙ read-encode_session (codes "heartbeat") r.session t (λ line. line) _
        (Writes-text? (codes "LS_session") r.session (omega arith) hs)

abbrev pub read_parted : Option (Text × Text) → Option (Text × Option Pairs)
read_parted none = none
read_parted (some (name, [])) = none
read_parted (some (name, c ∷ line)) = some (name, read_form line)

-- A server's reading of a message: the name up to the carriage return, and behind the line feed the
-- parameters.
abbrev pub read_message : Text → Option (Text × Option Pairs)
read_message message = read_parted (split_once b'\r' message)

-- A request whose strings are texts of Rust and whose values come from their constructors is encoded
-- or refused as `check` says, on every transport; and if it is encoded, a server that splits the
-- line at `&` and `=` and decodes the values reads exactly the parameters of the request, in order.
pub read_form-encode_parameters :
    (json : JsonPatch) (r : TlcpRequest) (t : TransportKind)
    → IsProper r
    → map_ok read_form (encode_parameters json r t)
      ≡ (check r t >>= λ _. ok (some (parameters json r t)))
read_form-encode_parameters json (create_session r) t h = IsRead-create_session json r t h
read_form-encode_parameters json (bind_session r) t h = IsRead-bind_session json r t h
read_form-encode_parameters json (subscribe r) t h = IsRead-subscribe json r t h
read_form-encode_parameters json (unsubscribe r) t h = IsRead-unsubscribe json r t h
read_form-encode_parameters json (reconfigure_subscription r) t h = IsRead-reconfigure json r t h
read_form-encode_parameters json (constrain_session r) t h = IsRead-constrain json r t h
read_form-encode_parameters json (force_rebind r) t h = IsRead-force_rebind json r t h
read_form-encode_parameters json (destroy_session r) t h = IsRead-destroy json r t h
read_form-encode_parameters json (message_send r) t h = IsRead-message json r t h
read_form-encode_parameters json (heartbeat r) t h = IsRead-heartbeat json r t h

Lacks-request_name : (r : TlcpRequest) → Lacks b'\r' (request_name r)
Lacks-request_name (create_session r) = omega arith
Lacks-request_name (bind_session r) = omega arith
Lacks-request_name (subscribe r) = omega arith
Lacks-request_name (unsubscribe r) = omega arith
Lacks-request_name (reconfigure_subscription r) = omega arith
Lacks-request_name (constrain_session r) = omega arith
Lacks-request_name (force_rebind r) = omega arith
Lacks-request_name (destroy_session r) = omega arith
Lacks-request_name (message_send r) = omega arith
Lacks-request_name (heartbeat r) = omega arith

read_message-named :
    (name line : Text)
    → Lacks b'\r' name
    → read_message (name ++ (b'\r' ∷ b'\n' ∷ line)) ≡ some (name, read_form line)
read_message-named name line h = rw (split_once-append b'\r' name (b'\n' ∷ line) h)

map_read_message :
    (name : Text) (e : Encoded) (checked : Result ProtocolError (Unit {0})) (pairs : Pairs)
    → Lacks b'\r' name
    → map_ok read_form e ≡ (checked >>= λ _. ok (some pairs))
    → map_ok read_message (map_ok (λ line. name ++ (b'\r' ∷ b'\n' ∷ line)) e)
      ≡ (checked >>= λ _. ok (some (name, some pairs)))
map_read_message name (ok line) (ok u) pairs hn h =
    let e : read_form line ≡ some pairs = cc in
    let read : read_message (name ++ (b'\r' ∷ b'\n' ∷ line)) ≡ some (name, read_form line) =
      read_message-named name line hn in
    ap (λ m. ok m) (read ∙ ap (λ p. some (name, p)) e)
map_read_message name (ok line) (err x) pairs hn h = cc
map_read_message name (err x) (ok u) pairs hn h = cc
map_read_message name (err x) (err y) pairs hn h = let e : x ≡ y = cc in ap (λ reason. err reason) e

-- The message of such a request on a WebSocket is refused as `check` says, and else it is read as
-- the request's name and its parameters.
pub read_message-ws_message :
    (json : JsonPatch) (r : TlcpRequest)
    → IsProper r
    → map_ok read_message (ws_message json r) ≡ (
        check r web_socket >>= λ _. ok (some (request_name r, some (parameters json r web_socket))))
unfolding ws_message
read_message-ws_message json r h =
    map_read_message (request_name r) (encode_parameters json r web_socket) (check r web_socket)
      (parameters json r web_socket) (Lacks-request_name r)
      (read_form-encode_parameters json r web_socket h)
