-- ===== src/Protocol/Notifications.antt =====
-- src/protocol/response.rs: the notifications of a stream, as they are handed on.
use lightstreamer_rs.Base.{ℕ, Option}
use lightstreamer_rs.Text.{Text}
use lightstreamer_rs.Text.Numbers.{ℤ}

pub data MaxFrequency : Type 0 where
  limited : (updates_per_second : Text) → MaxFrequency
  unlimited : MaxFrequency
  unrecognized : (literal : Text) → MaxFrequency

pub data FilteringMode : Type 0 where
  filtered : FilteringMode
  unfiltered : FilteringMode
  unrecognized : (literal : Text) → FilteringMode

pub data Bandwidth : Type 0 where
  limited : (kbps : Text) → Bandwidth
  unlimited : Bandwidth
  unmanaged : Bandwidth
  unrecognized : (literal : Text) → Bandwidth

pub data MessageSequence : Type 0 where
  unspecified : MessageSequence
  named : Text → MessageSequence

pub data Notification : Type 0 where
  update : (subscription_id item_index : ℕ) (raw_values : Text) → Notification
  subscription_ok : (subscription_id item_count field_count : ℕ) → Notification
  subscription_command_ok :
      (subscription_id item_count field_count key_field_index command_field_index : ℕ)
      → Notification
  unsubscribed : (subscription_id : ℕ) → Notification
  end_of_snapshot : (subscription_id item_index : ℕ) → Notification
  clear_snapshot : (subscription_id item_index : ℕ) → Notification
  overflow : (subscription_id item_index dropped_count : ℕ) → Notification
  subscription_reconfigured : (subscription_id : ℕ) → MaxFrequency → FilteringMode → Notification
  message_done : MessageSequence → (prog : ℕ) (response : Text) → Notification
  message_failed : MessageSequence → (prog : ℕ) (code : ℤ) (message : Text) → Notification
  constraints_changed : Bandwidth → Notification
  sync : (elapsed_seconds : ℕ) → Notification
  client_ip : (address : Text) → Notification
  server_name : (name : Text) → Notification
  progressive : ℕ → Notification
  no_op : (preamble : Text) → Notification
  probe : Notification
  loop : (expected_delay_millis : ℕ) → Notification
  end : (cause_code : ℤ) (cause_message : Text) → Notification
  connection_ok :
      (session_id : Text) (request_limit_bytes keep_alive_millis : ℕ) (control_link : Option Text)
      → Notification
  connection_error : (code : ℤ) (message : Text) → Notification
  request_ok : (request_id : Option Text) → Notification
  request_error : (request_id : Text) (code : ℤ) (message : Text) → Notification
  error : (code : ℤ) (message : Text) → Notification
  ws_ok : Notification
