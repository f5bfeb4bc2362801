-- ===== src/Protocol/TlcpRequest/Words.antt =====
-- The words of a request stand for themselves on its line, and what its shared parts write.
use lightstreamer_rs.Base.{
  ◌≡◌, subst, inl, inr, arith, Bool, true, Option, [], ◌∷◌, codes, All, All-append, Option-cases,
}
use lightstreamer_rs.Text.{Text, split_once, split_once-parts}
use lightstreamer_rs.Protocol.Arguments.{is_decimal_number, is_digits, all_digits}
use lightstreamer_rs.Protocol.Requests.{
  TransportKind, http, http_batched, web_socket, all_alphanumeric, all_word, SubscriptionMode, raw,
  merge, distinct, command, mode_text, ControlOperation, add, delete, reconf, constrain,
  force_rebind, destroy, operation_text, RequestedMaxFrequency, unfiltered,
  requested_frequency_text, Limit, limit_text, RequestedBufferSize, events, buffer_size_text,
  Snapshot, off, on, of_length, snapshot_text, TimeToLive, unknown, millis, ttl_text,
  ConnectionMode, streaming, polling,
}
use lightstreamer_rs.Protocol.Request.{encode_ack, encode_connection}
use lightstreamer_rs.Protocol.Request.Form.{IsBare, IsBare-decimal}
use lightstreamer_rs.Protocol.Request.Reads.{
  Writes, Writes-nothing, ◌then◌, Writes-number, Writes-number?, Writes-boolean, Writes-boolean?,
}
use lightstreamer_rs.Protocol.TlcpRequest.Contents.{
  ack_of, connection_parameters, IsRequestedMaxFrequency, IsLimit,
}

pub all_alphanumeric-IsBare : (t : Text) → all_alphanumeric t ≡ true → All IsBare t
unfolding all_alphanumeric
all_alphanumeric-IsBare [] h = tt
all_alphanumeric-IsBare (c ∷ t) h = ground (arith, all_alphanumeric-IsBare t)

pub all_word-IsBare : (t : Text) → all_word t ≡ true → All IsBare t
unfolding all_word
all_word-IsBare [] h = tt
all_word-IsBare (c ∷ t) h = ground (arith, all_word-IsBare t)

pub all_digits-IsBare : (t : Text) → all_digits t ≡ true → All IsBare t
unfolding all_digits
all_digits-IsBare [] h = tt
all_digits-IsBare (c ∷ t) h = ground (arith, all_digits-IsBare t)

pub is_digits-IsBare : (t : Text) → is_digits t ≡ true → All IsBare t
is_digits-IsBare [] h = tt
is_digits-IsBare (c ∷ t) h = all_digits-IsBare (c ∷ t) h

-- A dot may stand between digits.
pub decimal_number-IsBare : (t : Text) → is_decimal_number t ≡ true → All IsBare t
unfolding is_decimal_number
decimal_number-IsBare t h = elim (Option-cases (split_once b'.' t)) [
  | inl e ↦ is_digits-IsBare t (ground arith)
  | inr ((a, b), e) ↦
      let ha : is_digits a ≡ true = ground arith in
      let hb : is_digits b ≡ true = ground arith in
      subst (All IsBare) (split_once-parts b'.' t a b e).0 (
        All-append IsBare a (b'.' ∷ b) (is_digits-IsBare a ha) (omega arith, is_digits-IsBare b hb))
]

pub mode_text-IsBare : (m : SubscriptionMode) → All IsBare (mode_text m)
mode_text-IsBare raw = omega arith
mode_text-IsBare merge = omega arith
mode_text-IsBare distinct = omega arith
mode_text-IsBare command = omega arith

pub operation_text-IsBare : (o : ControlOperation) → All IsBare (operation_text o)
operation_text-IsBare add = omega arith
operation_text-IsBare delete = omega arith
operation_text-IsBare reconf = omega arith
operation_text-IsBare constrain = omega arith
operation_text-IsBare force_rebind = omega arith
operation_text-IsBare destroy = omega arith

pub frequency-IsBare :
    (f : RequestedMaxFrequency)
    → IsRequestedMaxFrequency f
    → All IsBare (requested_frequency_text f)
frequency-IsBare RequestedMaxFrequency.unlimited h = omega arith
frequency-IsBare unfiltered h = omega arith
frequency-IsBare (RequestedMaxFrequency.limited n) h = decimal_number-IsBare n.text h

pub limit-IsBare : (l : Limit) → IsLimit l → All IsBare (limit_text l)
limit-IsBare Limit.unlimited h = omega arith
limit-IsBare (Limit.limited n) h = decimal_number-IsBare n.text h

pub buffer_size-IsBare : (b : RequestedBufferSize) → All IsBare (buffer_size_text b)
buffer_size-IsBare RequestedBufferSize.unlimited = omega arith
buffer_size-IsBare (events n) = IsBare-decimal n

pub snapshot-IsBare : (s : Snapshot) → All IsBare (snapshot_text s)
snapshot-IsBare off = omega arith
snapshot-IsBare on = omega arith
snapshot-IsBare (of_length n) = IsBare-decimal n

pub ttl-IsBare : (t : TimeToLive) → All IsBare (ttl_text t)
ttl-IsBare unknown = omega arith
ttl-IsBare TimeToLive.unlimited = omega arith
ttl-IsBare (millis ms) = IsBare-decimal ms

pub Writes-ack :
    (t : TransportKind) (ack : Option Bool) → Writes (λ line. encode_ack line ack t) (ack_of t ack)
unfolding encode_ack
Writes-ack http ack = Writes-nothing
Writes-ack http_batched ack = Writes-nothing
Writes-ack web_socket ack = Writes-boolean? (codes "LS_ack") ack (omega arith)

pub Writes-connection :
    (c : ConnectionMode) → Writes (λ line. encode_connection line c) (connection_parameters c)
unfolding encode_connection
Writes-connection (streaming inactivity keepalive send_sync) =
    Writes-number? (codes "LS_inactivity_millis") inactivity (omega arith)
    then Writes-number? (codes "LS_keepalive_millis") keepalive (omega arith)
    then Writes-boolean? (codes "LS_send_sync") send_sync (omega arith)
Writes-connection (polling every idle) =
    Writes-boolean (codes "LS_polling") true (omega arith)
    then Writes-number (codes "LS_polling_millis") every (omega arith)
    then Writes-number? (codes "LS_idle_millis") idle (omega arith)
