-- ===== src/Protocol/TlcpRequest/Examples.antt =====
-- Requests at concrete values.
use lightstreamer_rs.Base.{
  ◌≡◌, refl, arith, false, none, some, [], ◌∷◌, ok, map_ok, codes, inl, inr,
}
use lightstreamer_rs.Text.{split_once}
use lightstreamer_rs.Text.Numbers.{decimal, digits}
use lightstreamer_rs.Protocol.Requests.{
  web_socket, distinct, of_length, RequestedMaxFrequency, events, all_alphanumeric,
}
use lightstreamer_rs.Protocol.Control.{Subscribe, MessageSend, validate_subscribe, validate_message}
use lightstreamer_rs.Protocol.Arguments.{is_decimal_number}
use lightstreamer_rs.Protocol.Request.Form.{read_form}
use lightstreamer_rs.Protocol.TlcpRequest.{subscribe, encode_parameters}
use lightstreamer_rs.Protocol.TlcpRequest.Reads.{read_form-encode_parameters}
use lightstreamer_rs.Protocol.TlcpRequest.Checks.{validate_subscribe_iff, validate_message_iff}
use lightstreamer_rs.Protocol.TlcpRequest.Contents.{IsProper}

abbrev sample : Subscribe
sample = record {
  session = some (codes "S1");
  request_id = record { text = codes "7" };
  subscription_id = 3;
  group = codes "a&b";
  schema = codes "x y";
  mode = distinct;
  data_adapter = none;
  selector = none;
  requested_buffer_size = some (events 5);
  requested_max_frequency = some (RequestedMaxFrequency.limited (record { text = codes "1.5" }));
  snapshot = some (of_length 10);
  ack = some false;
}

sample-IsProper : IsProper (subscribe sample)
unfolding all_alphanumeric is_decimal_number split_once
sample-IsProper = ((omega arith, refl), omega arith, omega arith, tt, tt, refl)

read_form-encode_parameters_example :
    map_ok read_form (encode_parameters none (subscribe sample) web_socket)
    ≡ ok (
        some (
          (codes "LS_session", codes "S1")
          ∷ (codes "LS_reqId", codes "7")
          ∷ (codes "LS_op", codes "add")
          ∷ (codes "LS_subId", codes "3")
          ∷ (codes "LS_group", codes "a&b")
          ∷ (codes "LS_schema", codes "x y")
          ∷ (codes "LS_mode", codes "DISTINCT")
          ∷ (codes "LS_requested_buffer_size", codes "5")
          ∷ (codes "LS_requested_max_frequency", codes "1.5")
          ∷ (codes "LS_snapshot", codes "10")
          ∷ (codes "LS_ack", codes "false")
          ∷ []))
unfolding validate_subscribe decimal digits
read_form-encode_parameters_example =
    read_form-encode_parameters none (subscribe sample) web_socket sample-IsProper

validate_subscribe_iff_example : validate_subscribe sample ≡ ok tt
validate_subscribe_iff_example =
    (validate_subscribe_iff sample).1 (refl, (λ e. cc), (inr refl, λ e. cc))

abbrev unnumbered : MessageSend
unnumbered = record {
  session = none;
  request_id = record { text = codes "8" };
  message = codes "hello";
  sequence = none;
  msg_prog = none;
  max_wait_millis = none;
  ack = none;
  outcome = some false;
}

validate_message_iff_example : validate_message unnumbered ≡ ok tt
validate_message_iff_example = (validate_message_iff unnumbered).1 (inr (refl, refl), inl refl)
