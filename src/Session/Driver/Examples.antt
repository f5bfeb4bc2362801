-- ===== src/Session/Driver/Examples.antt =====
-- The driver at concrete states.
use lightstreamer_rs.Base.{
  ◌≡◌, refl, ap, sym, arith, inl, inr, true, false, none, some, List, [], ◌∷◌, codes,
}
use lightstreamer_rs.Text.Numbers.{pos}
use lightstreamer_rs.Protocol.Notifications.{Notification, message_done, unspecified}
use lightstreamer_rs.Session.Backoff.{default, with_seed, next_delay, below, from_seed}
use lightstreamer_rs.Session.Outcomes.{ServerCause, connection_failed, server_refresh}
use lightstreamer_rs.Session.Events.{message, done}
use lightstreamer_rs.Session.Options.{SessionOptions}
use lightstreamer_rs.Session.Registry.{RegistryEntry, SubscriptionSpec, pending, spec_manager, get}
use lightstreamer_rs.Protocol.Requests.{merge, streaming}
use lightstreamer_rs.Session.Driver.{
  SessionDriver, StreamState, create, recover, Reopen, plan_after, begin_opening, on_prog, on_data,
  deliver, counted,
}
use lightstreamer_rs.Session.Driver.Continuity.{
  Connection, serve_all, serve_all-follow, follow, view,
}
use lightstreamer_rs.Session.Driver.Opening.{build_open}
use lightstreamer_rs.Session.Driver.Links.{IsLinked}
use lightstreamer_rs.Session.Registry.Entries.{decide-eq}
use lightstreamer_rs.Session.Driver.Plans.{
  plan_after-refreshes, refreshes, IsPlan, IsPlan-plan_after,
}

abbrev pub options : SessionOptions
options = record {
  credentials = record { user = none; password = none; adapter_set = none };
  connection = streaming none none none;
  content_length = none;
  keepalive_slack = 3000000000;
  open_timeout = 10000000000;
  backoff = default;
}

abbrev pub fresh : SessionDriver
fresh = record {
  transport = record { control_link = none; opens = []; taken = [] };
  control_shares_stream = true;
  options = options;
  stream_state = StreamState.establishing;
  pending = [];
  generation = 1;
  next_request_id = 1;
  heartbeat_failures = 0;
  negotiated_keep_alive = none;
  liveness = record {
    slack = 3000000000;
    inbound_budget = none;
    last_inbound = 0;
    heartbeat_every = none;
    last_outbound = 0;
  };
  is_polling = false;
  ends_on_content_length = false;
  policy = default;
  intent = create;
  session = some (codes "S1");
  previous_session = none;
  progressive = 0;
  skip_remaining = 0;
  prog_honoured = false;
  registry = record { entries = []; by_sub_id = []; next_sub_id = 1 };
  force_rebind_outstanding = false;
  destroy_requested = false;
  refresh_streak = 0;
  backoff = with_seed default 7;
}

abbrev messages : List Notification
messages =
    message_done unspecified 1 (codes "a")
    ∷ message_done unspecified 2 (codes "b")
    ∷ message_done unspecified 3 (codes "c")
    ∷ []

-- Two notifications arrive, and after the reconnection the server repeats the second one.
abbrev cuts : List Connection
cuts = record { resumed_at = 0; received = 2 } ∷ record { resumed_at = 1; received = 2 } ∷ []

serve_all-follow_example :
    view (serve_all none messages fresh cuts)
    ≡ follow none 0 (record { entries = []; by_sub_id = []; next_sub_id = 1 }) messages
serve_all-follow_example =
    serve_all-follow none messages fresh cuts (omega arith) (omega arith)
      (omega arith, (omega arith, tt))

messages_once :
    (serve_all none messages fresh cuts).1
    ≡ message (some 1) unspecified (some 1) (done (codes "a"))
      ∷ message (some 2) unspecified (some 2) (done (codes "b"))
      ∷ message (some 3) unspecified (some 3) (done (codes "c"))
      ∷ []
unfolding on_data on_prog begin_opening deliver counted
messages_once = refl

abbrev refresh : ServerCause
refresh = record { code = pos 48; message = codes "refresh" }

plan_after-refreshes_example :
    (plan_after (refreshes refresh 8 fresh) (server_refresh refresh)).1 ≡ none
plan_after-refreshes_example =
    plan_after-refreshes refresh 8 8 fresh refl refl (omega arith) (omega arith) (omega arith)

-- The reconnection after a failure, at the first delay of the schedule.
abbrev reconnection : Reopen
reconnection = record { intent = recover 0; delay = (below (from_seed 7) default.initial).1 }

IsPlan-plan_after_example :
    IsPlan fresh connection_failed (build_open (plan_after fresh connection_failed).0 (recover 0))
unfolding plan_after next_delay
IsPlan-plan_after_example = IsPlan-plan_after fresh connection_failed reconnection refl

abbrev pub quotes : SubscriptionSpec
quotes = record {
  group = codes "g";
  schema = codes "s";
  mode = merge;
  data_adapter = none;
  selector = none;
  requested_buffer_size = none;
  requested_max_frequency = none;
  snapshot = none;
  declared_items = [];
  declared_fields = [];
}

abbrev pub issued : RegistryEntry
issued = record {
  spec = quotes;
  wire = some 1;
  state = pending;
  was_active = false;
  manager = spec_manager quotes;
}

-- A session in which one subscription has been asked for.
abbrev pub subscribed : SessionDriver
subscribed = record fresh {
  registry = record { entries = (5, issued) ∷ []; by_sub_id = (1, 5) ∷ []; next_sub_id = 2 };
}

pub IsLinked-subscribed : IsLinked subscribed.registry
unfolding get
IsLinked-subscribed sub_id key found = elim (decide-eq sub_id 1) [
  | inl e ↦
      let same : key ≡ 5 = ground arith in
      (issued, ground arith, ap (λ n. some n) (sym e), omega arith)
  | inr ne ↦ ground arith
]
