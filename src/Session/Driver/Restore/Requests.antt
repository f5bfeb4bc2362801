-- ===== src/Session/Driver/Restore/Requests.antt =====
-- Requests to subscribe that the transport takes.
use lightstreamer_rs.Base.{
  ℕ, suc, ◌+◌, ◌<◌, ◌≡◌, refl, ap, ◌∙◌, arith, Bool, true, false, none, some, [], Result, ok,
  usize_mod, u32_mod, ◌>>=◌, checked_add, if◌then◌else◌, List, ◌∷◌, ◌++◌, ◌⊎◌, inl, inr, Option,
}
use lightstreamer_rs.Text.{Text}
use lightstreamer_rs.Protocol.Parameters.{ParameterLine}
use lightstreamer_rs.Protocol.Requests.{RequestId, from_progressive, TransportKind}
use lightstreamer_rs.Protocol.Control.{Subscribe, validate_subscribe, encode_subscribe}
use lightstreamer_rs.Protocol.TlcpRequest.{TlcpRequest, encode_parameters}
use lightstreamer_rs.Session.Pending.{PendingKind}
use lightstreamer_rs.Session.Registry.{Registry, SubscriptionSpec, allocate}
use lightstreamer_rs.Session.Driver.{SessionDriver}
use lightstreamer_rs.Session.Driver.Dispatch.{
  Turn, next_request_id, drawn_as, dispatch, dispatch_encoded, control_kind, taken_by, registered,
}
use lightstreamer_rs.Session.Driver.Issue.{subscribe_request}

-- A request for a subscription, in some session and with some numbers.
abbrev pub sample : SubscriptionSpec → Subscribe
sample spec = record {
  session = none;
  request_id = from_progressive 0;
  subscription_id = 0;
  group = spec.group;
  schema = spec.schema;
  mode = spec.mode;
  data_adapter = spec.data_adapter;
  selector = spec.selector;
  requested_buffer_size = spec.requested_buffer_size;
  requested_max_frequency = spec.requested_max_frequency;
  snapshot = spec.snapshot;
  ack = none;
}

-- The checks of a request accept the subscription.
abbrev pub IsValidSpec : SubscriptionSpec → Type 0
IsValidSpec spec = validate_subscribe (sample spec) ≡ ok tt

after_check :
    {A B : Type 0} {E : Type 0} (checked : Result E A) (rest : A → Result E B) {a : A} {b : B}
    → checked ≡ ok a
    → rest a ≡ ok b
    → (checked >>= rest) ≡ ok b
after_check checked rest {a} {b} e f = ap (λ c. c >>= rest) e ∙ f

pub encode-subscribe_ok :
    (t : Turn) (session : Text) (id : RequestId) (sub_id : ℕ) (spec : SubscriptionSpec)
    (kind : TransportKind)
    → IsValidSpec spec
    → (line : ParameterLine) × (encode_parameters t.json
          (subscribe_request session id sub_id spec)
          kind
        ≡ ok line)
unfolding encode_parameters encode_subscribe
encode-subscribe_ok t session id sub_id spec kind valid = (_, after_check _ _ valid refl)

if-true : {A : Type 0} (b : Bool) (x y : A) → b ≡ true → (if b then x else y) ≡ x
if-true true x y h = refl
if-true false x y h = cc

pub dispatch_ok :
    (t : Turn) (request : TlcpRequest) (id : RequestId) (kind : PendingKind) (d : SessionDriver)
    (line : ParameterLine)
    → encode_parameters t.json request (control_kind d) ≡ ok line
    → t.takes request ≡ true
    → dispatch t request id kind d ≡ (taken_by (registered d id kind) request t.now, [], true)
unfolding dispatch
dispatch_ok t request id kind d line e taken =
    ap (dispatch_encoded t request id kind d) e ∙ if-true (t.takes request) _ _ taken

pub allocate_ok :
    (r : Registry)
    → 0 < r.next_sub_id
    → r.next_sub_id + 1 < u32_mod
    → allocate r ≡ (record r { next_sub_id = suc r.next_sub_id }, some r.next_sub_id)
unfolding allocate
allocate_ok r positive fits = ground arith

pub next_request_id_ok :
    (d : SessionDriver)
    → d.next_request_id + 1 < usize_mod
    → next_request_id d ≡ (
      record d { next_request_id = suc d.next_request_id },
      some (from_progressive d.next_request_id),
    )
unfolding next_request_id
next_request_id_ok d fits =
    let sum : checked_add usize_mod d.next_request_id 1 ≡ some (suc d.next_request_id) =
      ground arith in
    ap (drawn_as d) sum

-- The transport takes whatever it is handed.
abbrev pub TakesAll : Turn → Type 0
TakesAll t = (r : TlcpRequest) → t.takes r ≡ true

-- There are so many numbers left for subscriptions and for requests.
abbrev pub Room : SessionDriver → ℕ → Type 0
Room d n =
    (0 < d.registry.next_sub_id)
    × (d.registry.next_sub_id + n < u32_mod)
    × (d.next_request_id + n < usize_mod)

-- A request in a session, under a number, for all that a subscription specifies.
abbrev pub AsksFor : Option Text → ℕ → SubscriptionSpec → Subscribe → Type 0
AsksFor session sub_id spec request =
    (request.session ≡ session)
    × (request.subscription_id ≡ sub_id)
    × (request.group ≡ spec.group)
    × (request.schema ≡ spec.schema)
    × (request.mode ≡ spec.mode)
    × (request.data_adapter ≡ spec.data_adapter)
    × (request.selector ≡ spec.selector)
    × (request.requested_buffer_size ≡ spec.requested_buffer_size)
    × (request.requested_max_frequency ≡ spec.requested_max_frequency)
    × (request.snapshot ≡ spec.snapshot)

abbrev pub Among : TlcpRequest → List TlcpRequest → Type 0
Among r [] = ⊥
Among r (q ∷ qs) = (r ≡ q) ⊎ Among r qs

pub Among-append_left :
    (r : TlcpRequest) (xs ys : List TlcpRequest) → Among r xs → Among r (xs ++ ys)
Among-append_left r [] ys i = absurd i
Among-append_left r (x ∷ xs) ys (inl e) = inl e
Among-append_left r (x ∷ xs) ys (inr i) = inr (Among-append_left r xs ys i)

pub Among-append_last : (r : TlcpRequest) (xs : List TlcpRequest) → Among r (xs ++ r ∷ [])
Among-append_last r [] = inl refl
Among-append_last r (x ∷ xs) = inr (Among-append_last r xs)
