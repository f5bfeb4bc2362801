-- ===== src/Protocol/TlcpRequest.antt =====
-- src/protocol/request.rs: the trait `TlcpRequest`, as the sum of the types that implement it.
pub mod Contents
pub mod Words
pub mod Values
pub mod Headers
pub mod Reads
pub mod Checks
pub mod Examples
use lightstreamer_rs.Base.{◌∷◌, ◌++◌, Result, ok, map_ok, codes}
use lightstreamer_rs.Text.{Text}
use lightstreamer_rs.Protocol.Errors.{ProtocolError}
use lightstreamer_rs.Protocol.Diff.{JsonPatch}
use lightstreamer_rs.Protocol.Requests.{TransportKind, web_socket, control_name, message_name}
use lightstreamer_rs.Protocol.Request.{
  Encoded, CreateSession, BindSession, Heartbeat, encode_create_session, encode_bind_session,
  encode_heartbeat,
}
use lightstreamer_rs.Protocol.Control.{
  Subscribe, Unsubscribe, ReconfigureSubscription, ConstrainSession, ForceRebind, DestroySession,
  MessageSend, encode_subscribe, encode_unsubscribe, encode_reconfigure, encode_constrain,
  encode_force_rebind, encode_destroy, encode_message,
}

pub data TlcpRequest : Type 0 where
  create_session : CreateSession → TlcpRequest
  bind_session : BindSession → TlcpRequest
  subscribe : Subscribe → TlcpRequest
  unsubscribe : Unsubscribe → TlcpRequest
  reconfigure_subscription : ReconfigureSubscription → TlcpRequest
  constrain_session : ConstrainSession → TlcpRequest
  force_rebind : ForceRebind → TlcpRequest
  destroy_session : DestroySession → TlcpRequest
  message_send : MessageSend → TlcpRequest
  heartbeat : Heartbeat → TlcpRequest

-- `TlcpRequest::NAME`.
abbrev pub request_name : TlcpRequest → Text
request_name (create_session r) = codes "create_session"
request_name (bind_session r) = codes "bind_session"
request_name (subscribe r) = control_name
request_name (unsubscribe r) = control_name
request_name (reconfigure_subscription r) = control_name
request_name (constrain_session r) = control_name
request_name (force_rebind r) = control_name
request_name (destroy_session r) = control_name
request_name (message_send r) = message_name
request_name (heartbeat r) = codes "heartbeat"

unfoldable pub encode_parameters : JsonPatch → TlcpRequest → TransportKind → Encoded
encode_parameters json (create_session r) transport = ok (encode_create_session json r)
encode_parameters json (bind_session r) transport = encode_bind_session r transport
encode_parameters json (subscribe r) transport = encode_subscribe r transport
encode_parameters json (unsubscribe r) transport = encode_unsubscribe r transport
encode_parameters json (reconfigure_subscription r) transport = encode_reconfigure r transport
encode_parameters json (constrain_session r) transport = encode_constrain r transport
encode_parameters json (force_rebind r) transport = encode_force_rebind r transport
encode_parameters json (destroy_session r) transport = encode_destroy r transport
encode_parameters json (message_send r) transport = encode_message r transport
encode_parameters json (heartbeat r) transport = encode_heartbeat r transport

-- The name of the request on a line of its own, and its parameters.
unfoldable pub ws_message : JsonPatch → TlcpRequest → Result ProtocolError Text
unfolding encode_parameters
ws_message json r =
    map_ok (λ parameters. request_name r ++ (b'\r' ∷ b'\n' ∷ parameters))
      (encode_parameters json r web_socket)
