-- ===== src/Lib.antt =====
-- A verification library of lightstreamer-rs, a client of the Lightstreamer server that speaks TLCP.
--
-- The program. A transport (src/transport) delivers runs of bytes. The line buffer of
-- src/transport/framing.rs cuts them into lines. The driver of a session (src/session/mod.rs) parses
-- each line into a notification (src/protocol/response.rs), writes requests (src/protocol/request.rs), keeps the liveness clocks
-- (src/session/liveness.rs), reconnects after the delays of a schedule (src/session/backoff.rs) and
-- hands the notifications of a subscription to its manager (src/subscription/manager.rs). The manager
-- keeps one tracker for each item, whose fields a value list changes (src/subscription/update.rs);
-- the values of a list are unescaped (src/protocol/escaping.rs) or patched (src/protocol/diff.rs).
--
-- Which file models what.
--   Base, Text: lists, options, results and Boolean tests over the native numbers; Rust's texts as
--     lists of Unicode scalar values, UTF-8 as the standard library has it (Text/Utf8), and the
--     printing and parsing of integers (Text/Numbers).
--   Protocol/Escaping: `percent_decode`, `encode_form_value` and their helpers of
--     src/protocol/escaping.rs. Loop, Decode and RoundTrip hold what is proved of them, and
--     Decode/Offsets where in the input a decoded byte comes from.
--   Protocol/Diff: the registry (`DIFF_DECODERS`, `supported_diffs`, `decoder_for`) and TLCP-diff
--     (`parse_tlcp_diff`, `decode_encoded_integer`, `apply_tlcp_instructions`, `apply_tlcp_diff`) of
--     src/protocol/diff.rs.
--   Protocol/Errors, Protocol/Notifications: the error and notification types of src/protocol/mod.rs
--     and src/protocol/response.rs.
--   Protocol/Arguments, Protocol/Response: `parse_line` of src/protocol/response.rs, with one function
--     for each arm of its match, and the splitting and reading of arguments. Response/Printer is a
--     server's side of it: the line of each notification. Session/Incoming puts the line buffer in
--     front of the parser, as a transport and the driver do.
--   Protocol/Requests, Protocol/Parameters: the values of requests with their constructors, and
--     `ParameterLine`, of src/protocol/request.rs. Protocol/Request and Protocol/Control: the requests,
--     their checks and `encode_parameters` of each. Protocol/TlcpRequest: the trait, as a sum of the
--     types that implement it. Request/Form is a server's side: how a line of parameters is read.
--     TlcpRequest/Contents says what each request tells the server.
--   Transport/Framing: `LineBuffer` of src/transport/framing.rs. A method that changes the buffer
--     returns the new buffer with its result.
--   Session/Backoff: `Jitter`, `BackoffPolicy` and `Backoff` of src/session/backoff.rs. A duration is
--     its nanoseconds (Session/Time).
--   Session/Liveness: `Liveness` of src/session/liveness.rs.
--   Session/Options: `Credentials` and `SessionOptions` of src/session/options.rs.
--   Session/Outcomes, Session/Events, Session/Pending, Session/Registry: of src/session/mod.rs,
--     `classify` and the reasons of an end, the events, the requests that wait for an answer, and the
--     registry of subscriptions. Registry/Entries has the laws of its tables.
--   Session/Driver: `SessionDriver` of src/session/mod.rs. A method takes the state that it changes and
--     returns it with the events that it emits. The file itself has `plan_after`, `on_prog`, `on_data`,
--     `interpret_for_subscription`, `on_end`, `on_stream_end`, `loop_reason` and the arm for CONERR;
--     Driver/Dispatch has `next_request_id`, `dispatch` and `send_heartbeat`; Driver/Issue
--     `issue_subscription` and `issue_unbound_subscriptions`; Driver/Binding `on_conok` and
--     `retire_stale_pending`; Driver/Answers `take_pending`, `on_request_ok` and `on_request_error`;
--     Driver/Commands `on_command` with `unsubscribe`, `reconfigure`, `send_message` and `destroy`;
--     Driver/Turns `on_notification`, `on_line`, `on_timer` and the arms of `pump`; Driver/Opening `new`,
--     `establishment_budget` and `build_open`; Driver/Drive the loops of `run`, `drive`,
--     `wait_before_reopen` and `pump`, as a function that takes one step, and the states that a driver
--     comes to. The other modules are about them: Driver/Continuity has the reconnections of a session
--     as a list, Driver/Plans what is opened next, Driver/Links and Driver/Sound the numbers of
--     subscriptions and requests, Driver/Messages the messages that are sent, Driver/Late the answers
--     that come after their session, Driver/Restore the subscriptions of a new session.
--   Subscription/Update: `ItemState` of src/subscription/update.rs; the loop of `apply` is
--     `apply_tokens`, whose state is the record `Staging` of the source's local variables.
--     Update/Tokens says what a token means, without the loop.
--   Subscription/ItemUpdate: the data and accessors of src/subscription/item_update.rs, and
--     `SubscriptionSchema::new`. ItemUpdate/Views has the command and the key of an update, what
--     changed, and the iterators as the lists of what they yield.
--   Subscription/Events, Subscription/Manager: the events, the errors and `SubscriptionManager` of
--     src/subscription/manager.rs. `handle` takes every notification of the stream.
--   The modules named Examples hold runs at concrete inputs.
--
-- Numbers and bounds. A `usize` has 64 bits. Checked additions and multiplications are taken at the
-- width that the source uses, and `u64` arithmetic of the jitter wraps at 2 ^ 64. The positions,
-- counts and lengths of texts and lists in memory are natural numbers. The keys of a registry ascend,
-- as in a `BTreeMap`; the requests that wait are an association list, in which a number stands once.
--
-- Loops over an index take a bound on their rounds. `parse_sections` has as many rounds as the payload
-- has characters, since each round reads a character at least; when it runs out it returns the error
-- `out_of_rounds`, which the source does not have. `offset_loop` has as
-- many rounds as there are bytes. `split_lines` has one round more than the buffer has bytes, since each
-- round moves behind another terminator. `decimal` (Text/Numbers) has one round more than its number.
-- The loop of the driver has no bound: the states that it comes to are an inductive family.
--
-- Parameters. The application of a JSON Patch is an argument, since it is the work of the crates
-- serde_json and json-patch: an optional function, absent where the feature is off. The addition of a
-- duration to an instant is an argument, since the range of a clock is the platform's. Whether the
-- transport takes a control request, and how the opening of a stream ends, is given anew for each turn
-- of the driver, with the time (`Turn`, `Opened`). What wakes the driver is an input of its step, in any
-- order; so the order in which `pump` looks at its sources, and the limit on lines in a row, are left
-- open.
--
-- Not modelled. The sockets of src/transport/ws.rs and src/transport/http.rs are input and output. Of
-- src/session/mod.rs, the handle, the channels, what the driver does while the channel of events is
-- full, and the closing of the transport are left out; and so are src/client, which holds the other ends
-- of the channels, the target of an HTTP request, the redaction of URLs
-- and the configuration of src/config. The messages of errors are constructors with the numbers that a
-- message reports; a message that only wraps the error of another library is left out.
mod Base
pub mod Text
pub mod Transport
pub mod Protocol
pub mod Session
pub mod Subscription
