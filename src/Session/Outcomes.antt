-- ===== src/Session/Outcomes.antt =====
-- src/session/mod.rs: why a session stops, how it resumes, and the classification of the server's
-- codes.
use lightstreamer_rs.Base.{
  ℕ, Bool, true, false, ◌&&◌, ◌||◌, ◌==◌, leb, if◌then◌else◌, Option, none, some,
}
use lightstreamer_rs.Text.{Text}
use lightstreamer_rs.Text.Numbers.{ℤ, pos, negsuc}
use lightstreamer_rs.Protocol.Errors.{ProtocolError}
use lightstreamer_rs.Session.Time.{Duration}

pub record ServerCause : Type 0 where
  pub code : ℤ
  pub message : Text

pub data Recovery : Type 0 where
  recreate_session : Recovery
  retry_later : Recovery
  fatal : Recovery

unfoldable pub classify : ℤ → Recovery
classify (negsuc n) = fatal
classify (pos n) =
    if n == 4 || n == 20 || n == 48
    then recreate_session
    else if n == 5 || n == 6 || n == 10
    then retry_later
    else if leb 7 n && leb n 9
    then retry_later
    else if n == 33 || n == 34
    then retry_later
    else fatal

-- What the transport reported of a failed connection is left out.
pub data UnbindReason : Type 0 where
  forced_by_client : (expected_delay : Duration) → UnbindReason
  content_length_reached : (expected_delay : Duration) → UnbindReason
  poll_cycle_expired : (expected_delay : Duration) → UnbindReason
  looped : (expected_delay : Duration) → UnbindReason
  connection_failed : UnbindReason
  keepalive_expired : (budget : Duration) → UnbindReason
  rejected : ServerCause → UnbindReason
  server_refresh : ServerCause → UnbindReason

abbrev pub is_clean_loop : UnbindReason → Bool
is_clean_loop (forced_by_client delay) = true
is_clean_loop (content_length_reached delay) = true
is_clean_loop (poll_cycle_expired delay) = true
is_clean_loop (looped delay) = true
is_clean_loop connection_failed = false
is_clean_loop (keepalive_expired budget) = false
is_clean_loop (rejected cause) = false
is_clean_loop (server_refresh cause) = false

abbrev pub expected_delay : UnbindReason → Option Duration
expected_delay (forced_by_client delay) = some delay
expected_delay (content_length_reached delay) = some delay
expected_delay (poll_cycle_expired delay) = some delay
expected_delay (looped delay) = some delay
expected_delay connection_failed = none
expected_delay (keepalive_expired budget) = none
expected_delay (rejected cause) = none
expected_delay (server_refresh cause) = none

-- Why the client ends a session on its own: a request that cannot be written, or no number for one.
pub data InternalReason : Type 0 where
  unwritable : ProtocolError → InternalReason
  no_request_id : InternalReason

pub data SessionClosed : Type 0 where
  by_client : (destroy_confirmed : Bool) → Option ServerCause → SessionClosed
  by_server : ServerCause → SessionClosed
  retries_exhausted : (attempts : ℕ) → Option UnbindReason → SessionClosed
  internal : InternalReason → SessionClosed

pub data RecoveryKind : Type 0 where
  exact : RecoveryKind
  duplicated : (count : ℕ) → RecoveryKind
  gap : (missing : ℕ) → RecoveryKind

pub record RecoveryOutcome : Type 0 where
  pub requested : ℕ
  pub resumed_at : ℕ
  pub kind : RecoveryKind
