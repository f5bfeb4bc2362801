-- ===== src/Session/Options.antt =====
-- src/session/options.rs: what configures a session. The capacities of the channels are left out.
use lightstreamer_rs.Base.{ℕ, ◌*◌, ◌/◌, Option, none, some}
use lightstreamer_rs.Text.{Text}
use lightstreamer_rs.Protocol.Requests.{ConnectionMode, streaming, polling}
use lightstreamer_rs.Session.Time.{Duration}
use lightstreamer_rs.Session.Backoff.{BackoffPolicy}

pub record Credentials : Type 0 where
  pub user : Option Text
  pub password : Option Text
  pub adapter_set : Option Text

pub record SessionOptions : Type 0 where
  pub credentials : Credentials
  pub connection : ConnectionMode
  pub content_length : Option ℕ
  pub keepalive_slack : Duration
  pub open_timeout : Duration
  pub backoff : BackoffPolicy

-- `Duration::from_millis`.
abbrev pub from_millis : ℕ → Duration
from_millis millis = millis * 1000000

-- Half of the commitment of the client, on a stream.
abbrev pub half_commitment : Option ℕ → Option Duration
half_commitment none = none
half_commitment (some millis) = some (from_millis millis / 2)

abbrev pub heartbeat_interval : ConnectionMode → Option Duration
heartbeat_interval (streaming inactivity_millis keepalive_millis send_sync) =
    half_commitment inactivity_millis
heartbeat_interval (polling polling_millis idle_millis) = none
