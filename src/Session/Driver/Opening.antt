-- ===== src/Session/Driver/Opening.antt =====
-- src/session/mod.rs: a new driver, and the requests by which it opens its streams.
use lightstreamer_rs.Base.{ℕ, ◌-◌, Bool, max, Option, none, some, []}
use lightstreamer_rs.Text.{Text}
use lightstreamer_rs.Protocol.Requests.{ConnectionMode, streaming, polling}
use lightstreamer_rs.Session.Time.{Duration, duration_add, duration_mod}
use lightstreamer_rs.Session.Backoff.{with_seed}
use lightstreamer_rs.Session.Liveness.{Instant, new}
use lightstreamer_rs.Session.Options.{SessionOptions, from_millis, heartbeat_interval}
use lightstreamer_rs.Session.Driver.{
  SessionDriver, StreamState, OpenIntent, rebind, recover, StreamOpen, bind,
}

-- The properties that a transport declares of itself.
pub record TransportProperties : Type 0 where
  pub is_polling : Bool
  pub ends_on_content_length : Bool
  pub control_shares_stream : Bool

unfoldable pub new_driver :
    TransportProperties → SessionOptions → (seed : ℕ) → Instant → SessionDriver
unfolding new
new_driver properties options seed now = record {
  transport = record { control_link = none; opens = []; taken = [] };
  is_polling = properties.is_polling;
  ends_on_content_length = properties.ends_on_content_length;
  control_shares_stream = properties.control_shares_stream;
  options = options;
  stream_state = StreamState.establishing;
  policy = options.backoff;
  intent = OpenIntent.create;
  session = none;
  previous_session = none;
  progressive = 0;
  skip_remaining = 0;
  prog_honoured = Bool.false;
  registry = record { entries = []; by_sub_id = []; next_sub_id = 1 };
  pending = [];
  generation = 1;
  next_request_id = 1;
  force_rebind_outstanding = Bool.false;
  destroy_requested = Bool.false;
  refresh_streak = 0;
  heartbeat_failures = 0;
  negotiated_keep_alive = none;
  liveness = new options.keepalive_slack (heartbeat_interval options.connection) now;
  backoff = with_seed options.backoff seed;
}

-- The request of the client where there is one, and else nothing.
abbrev pub or_zero : Option ℕ → ℕ
or_zero none = 0
or_zero (some n) = n

abbrev pub or_default : Option Duration → Duration → Duration
or_default none default = default
or_default (some duration) default = duration

-- The open timeout and the time that a poll is held, or the longest duration.
abbrev pub with_idle : Duration → Duration → Duration
with_idle open_timeout idle = or_default (duration_add open_timeout idle) (duration_mod - 1)

abbrev pub budget_of : Duration → Option Duration → ConnectionMode → Duration
budget_of open_timeout negotiated (streaming inactivity_millis keepalive_millis send_sync) =
    open_timeout
budget_of open_timeout negotiated (polling polling_millis idle_millis) =
    let requested = from_millis (or_zero idle_millis) in
    with_idle open_timeout (max (or_default negotiated requested) requested)

unfoldable pub establishment_budget : SessionDriver → Duration
establishment_budget d =
    budget_of d.options.open_timeout d.negotiated_keep_alive d.options.connection

abbrev pub bind_request : SessionDriver → Text → (recovery_from : Option ℕ) → StreamOpen
bind_request d session recovery_from = bind (record {
  session = some session;
  recovery_from = recovery_from;
  content_length = d.options.content_length;
  connection = d.options.connection;
  reduce_head = none;
})

abbrev pub create_request : SessionDriver → StreamOpen
create_request d = StreamOpen.create (record {
  user = d.options.credentials.user;
  password = d.options.credentials.password;
  adapter_set = d.options.credentials.adapter_set;
  requested_max_bandwidth = none;
  content_length = d.options.content_length;
  connection = d.options.connection;
  reduce_head = none;
  ttl = none;
})

abbrev pub open_for : SessionDriver → OpenIntent → Option Text → StreamOpen
open_for d (recover requested) (some session) = bind_request d session (some requested)
open_for d rebind (some session) = bind_request d session none
open_for d OpenIntent.create (some session) = create_request d
open_for d intent none = create_request d

unfoldable pub build_open : SessionDriver → OpenIntent → StreamOpen
build_open d intent = open_for d intent d.session
