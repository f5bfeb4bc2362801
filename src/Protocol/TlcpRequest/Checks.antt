-- ===== src/Protocol/TlcpRequest/Checks.antt =====
-- When requests are refused, in terms of the request.
use lightstreamer_rs.Base.{◌≡◌, ◌≢◌, ◌↔◌, ◌⊎◌, arith, false, Option, none, some, ok}
use lightstreamer_rs.Protocol.Requests.{
  SubscriptionMode, raw, merge, distinct, RequestedMaxFrequency, unfiltered, RequestedBufferSize,
  Snapshot, off, on, of_length,
}
use lightstreamer_rs.Protocol.Control.{Subscribe, MessageSend, validate_subscribe, validate_message}

-- A snapshot of a given length is for DISTINCT items, and a snapshot for filtered ones.
abbrev pub IsSnapshotFor : SubscriptionMode → Option Snapshot → Type 0
IsSnapshotFor mode (some (of_length n)) = mode ≡ distinct
IsSnapshotFor mode (some on) = mode ≢ raw
IsSnapshotFor mode (some off) = Unit
IsSnapshotFor mode none = Unit

-- Neither a limit on the frequency nor unfiltered items are for the mode RAW.
abbrev pub IsFrequencyFor : SubscriptionMode → Option RequestedMaxFrequency → Type 0
IsFrequencyFor mode (some RequestedMaxFrequency.unlimited) = Unit
IsFrequencyFor mode (some unfiltered) = mode ≢ raw
IsFrequencyFor mode (some (RequestedMaxFrequency.limited n)) = mode ≢ raw
IsFrequencyFor mode none = Unit

-- A size of a buffer is for the modes that have one, unless items are unfiltered.
abbrev pub IsBufferFor :
    SubscriptionMode → Option RequestedMaxFrequency → Option RequestedBufferSize → Type 0
IsBufferFor mode frequency (some size) =
    ((mode ≡ merge) ⊎ (mode ≡ distinct)) × (frequency ≢ some unfiltered)
IsBufferFor mode frequency none = Unit

-- The checks of a subscription accept it exactly if its snapshot and its frequency suit its mode,
-- and its buffer size suits its mode and its frequency.
pub validate_subscribe_iff :
    (r : Subscribe)
    → (validate_subscribe r ≡ ok tt)
      ↔ IsSnapshotFor r.mode r.snapshot
        × IsFrequencyFor r.mode r.requested_max_frequency
        × IsBufferFor r.mode r.requested_max_frequency r.requested_buffer_size
unfolding validate_subscribe
validate_subscribe_iff r = ground arith

-- The checks of a message accept it exactly if it has a number, or needs none because neither a
-- sequence nor an outcome is asked for, and if it waits at most so long only within a sequence.
pub validate_message_iff :
    (r : MessageSend)
    → (validate_message r ≡ ok tt)
      ↔ ((r.msg_prog ≢ none) ⊎ ((r.sequence ≡ none) × (r.outcome ≡ some false)))
        × ((r.max_wait_millis ≡ none) ⊎ (r.sequence ≢ none))
unfolding validate_message
validate_message_iff r = ground arith
