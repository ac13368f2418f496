-- ===== src/Rpc/Client.antt =====
-- rpc_client.py and rpc_telemetry.py: `TcpInferenceTransport`. Each function is a section under the
-- client's state lock, or the local code between two sections. Sockets are numbers.
pub mod Requests
pub mod Resets
pub mod Threads
use action_stream.Prelude.{
  ℕ, ℤ, pos, suc, ◌+◌, ◌-◌, ◌*◌, Float, finite, not_finite, is_positive, leb_ℤ, ◌+ℤ◌, String, Bool,
  true, false, not, ◌&&◌, ◌||◌, Option, none, some, List, [], ◌∷◌, map, is_some, is_empty, leb, ltb,
  ◌==◌, str_eq, if◌then◌else◌, Result, ok, err, raise_if, ◌>>◌,
}
use mathlib.Core.Option

-- the exceptions by the handlers that tell them apart
pub data RpcError : Type 0 where
  timed_out cancelled transport_failed reset_required io_failed other_failure : RpcError

pub data SettingError : Type 0 where
  no_host bad_port bad_timeout unpaired_budgets bad_budget : SettingError

-- a value of a response's field
pub data Field : Type 0 where
  number : ℕ → Field
  text : String → Field

pub record Response (A : Type 0) : Type 0 where
  pub version : Option ℕ
  pub request_id : Option ℕ
  pub kind : Option String
  -- a tensor, if the field holds one
  pub actions : Option A
  pub fields : List (String × Field)

pub record Client : Type 0 where
  pub connect_timeout_s : Float
  pub control_timeout_s : Float
  pub reset_timeout_s : Float
  pub startup_timeout_s : Option Float
  pub steady_timeout_s : Option Float
  pub socket : Option ℕ
  pub connection_requests : ℕ
  pub startup_deadlines : ℕ
  pub steady_deadlines : ℕ
  pub invalidated_requests : ℕ
  pub latest_response_telemetry : List (String × Field)
  pub generation : ℕ
  pub reset_required : Bool
  pub reset_requests : ℕ
  pub reset_successes : ℕ
  pub reset_failures : ℕ
  pub reset_timeouts : ℕ
  pub inflight : Bool
  pub requests_started : ℕ
  pub requests_completed : ℕ
  pub reconnects : ℕ
  pub cancellations : ℕ
  pub deadlines : ℕ
  pub transport_errors : ℕ
  pub server_errors : ℕ
  pub bytes_sent : ℕ
  pub bytes_received : ℕ
  pub latest_connect_latency_s : Option ℕ
  pub latest_roundtrip_latency_s : Option ℕ
  pub latest_server_inference_s : Option ℕ

-- `value is None or (math.isfinite(value) and value > 0)`
abbrev pub is_budget : Option Float → Bool
is_budget none = true
is_budget (some value) = is_positive value

-- the checks of `__init__`
pub check_settings :
    String
    → ℤ
    → Float
    → Float
    → Float
    → Option Float
    → Option Float
    → Result SettingError (Unit {0})
check_settings host port connect control reset startup steady =
    raise_if (str_eq host "") no_host
    >> raise_if (not (leb_ℤ (pos 1) port && leb_ℤ port (pos 65535))) bad_port
    >> raise_if (not (is_positive connect && is_positive control && is_positive reset)) bad_timeout
    >> raise_if (not (if is_some startup then is_some steady else not (is_some steady)))
        unpaired_budgets
    >> raise_if (not (is_budget startup && is_budget steady)) bad_budget

-- the state that `__init__` leaves
unfoldable pub new_client : Float → Float → Float → Option Float → Option Float → Client
new_client connect control reset startup steady = record {
  connect_timeout_s = connect;
  control_timeout_s = control;
  reset_timeout_s = reset;
  startup_timeout_s = startup;
  steady_timeout_s = steady;
  socket = none;
  connection_requests = 0;
  startup_deadlines = 0;
  steady_deadlines = 0;
  invalidated_requests = 0;
  latest_response_telemetry = [];
  generation = 0;
  reset_required = true;
  reset_requests = 0;
  reset_successes = 0;
  reset_failures = 0;
  reset_timeouts = 0;
  inflight = false;
  requests_started = 0;
  requests_completed = 0;
  reconnects = 0;
  cancellations = 0;
  deadlines = 0;
  transport_errors = 0;
  server_errors = 0;
  bytes_sent = 0;
  bytes_received = 0;
  latest_connect_latency_s = none;
  latest_roundtrip_latency_s = none;
  latest_server_inference_s = none;
}

-- `time.monotonic() + timeout_s`
abbrev pub deadline_at : ℕ → Float → Float
deadline_at now (finite timeout) = finite (pos now +ℤ timeout)
deadline_at now not_finite = not_finite

-- whether `_remaining` raises
abbrev pub is_past : Float → ℕ → Bool
is_past (finite deadline) now = leb_ℤ deadline (pos now)
is_past not_finite now = false

-- `_close_socket_locked`
abbrev pub close_socket : Client → Client
close_socket c = record c { socket = none }

-- the first section of `_ensure_socket`: the socket, if one is open
unfoldable pub lookup_socket : ℕ → Client → Result RpcError (Option ℕ)
lookup_socket generation c = if not (generation == c.generation) then err cancelled else ok c.socket

keep_socket : ℕ → ℕ → Option ℕ → Client → Client × Result RpcError ℕ
keep_socket connection elapsed (some socket) c = (c, ok socket)
keep_socket connection elapsed none c = (
  record c {
    socket = some connection;
    connection_requests = 0;
    reconnects = suc c.reconnects;
    latest_connect_latency_s = some elapsed;
  },
  ok connection,
)

-- the second section of `_ensure_socket`, with the connection that `_connect` made
unfoldable pub publish_socket : ℕ → ℕ → ℕ → Client → Client × Result RpcError ℕ
unfolding keep_socket
publish_socket generation connection elapsed c =
    if not (generation == c.generation)
    then (c, err cancelled)
    else keep_socket connection elapsed c.socket c

-- `cancel`
pub cancel : Client → Client × Bool
cancel c = (
  record c {
    generation = suc c.generation;
    cancellations = if c.inflight then suc c.cancellations else c.cancellations;
    socket = none;
  },
  c.inflight,
)

-- `close`
pub close : Client → Client
close c = record c { generation = suc c.generation; socket = none }

-- the first section of `reset`
pub begin_reset : Client → Client
begin_reset c = record c {
  reset_required = true;
  reset_requests = suc c.reset_requests;
  generation = suc c.generation;
  cancellations = if c.inflight then suc c.cancellations else c.cancellations;
  socket = none;
}

-- the section of `reset` after an acknowledgement
unfoldable pub acknowledge_reset : ℕ → Client → Client × Option RpcError
acknowledge_reset generation c =
    if not (generation == c.generation)
    then (c, some cancelled)
    else (record c { reset_required = false; reset_successes = suc c.reset_successes }, none)

is_timeout : RpcError → Bool
is_timeout timed_out = true
is_timeout error = false

-- the section of `reset` after an exception
unfoldable pub fail_reset : ℕ → RpcError → Client → Client
unfolding is_timeout
fail_reset generation error c =
    let counted = record c {
      reset_failures = suc c.reset_failures;
      reset_timeouts = if is_timeout error then suc c.reset_timeouts else c.reset_timeouts;
    } in
    if generation == c.generation
    then record counted { reset_required = true; generation = suc c.generation; socket = none }
    else counted

abbrev pub is_startup : Client → Bool
is_startup c = not (is_some c.socket) || c.connection_requests == 0

abbrev pub budget_of : Client → Option Float
budget_of c = if is_startup c then c.startup_timeout_s else c.steady_timeout_s

abbrev pub get_or : Float → Option Float → Float
get_or fallback none = fallback
get_or fallback (some budget) = budget

-- `next_inference_timeout_s`
pub next_inference_timeout_s : Float → Client → Float
next_inference_timeout_s fallback c = get_or fallback (budget_of c)

abbrev pub milliseconds : Option ℕ → Option ℕ
milliseconds none = none
milliseconds (some s) = some (1000 * s)

-- `RpcTransportTelemetry`
pub record RpcTransportTelemetry : Type 0 where
  pub requests_started : ℕ
  pub requests_completed : ℕ
  pub reconnects : ℕ
  pub cancellations : ℕ
  pub deadlines : ℕ
  pub transport_errors : ℕ
  pub server_errors : ℕ
  pub bytes_sent : ℕ
  pub bytes_received : ℕ
  pub latest_connect_latency_ms : Option ℕ
  pub latest_roundtrip_latency_ms : Option ℕ
  pub latest_server_inference_ms : Option ℕ
  pub startup_deadlines : ℕ
  pub steady_deadlines : ℕ
  pub cancelled_invalidated_requests : ℕ
  pub connections_established : ℕ
  pub reconnections : ℕ
  pub latest_response_telemetry : List (String × Field)
  pub reset_requests : ℕ
  pub reset_successes : ℕ
  pub reset_failures : ℕ
  pub reset_timeouts : ℕ
  pub reset_required : Bool

-- `telemetry`
pub telemetry : Client → RpcTransportTelemetry
telemetry c = record {
  requests_started = c.requests_started;
  requests_completed = c.requests_completed;
  reconnects = c.reconnects;
  cancellations = c.cancellations;
  deadlines = c.deadlines;
  transport_errors = c.transport_errors;
  server_errors = c.server_errors;
  bytes_sent = c.bytes_sent;
  bytes_received = c.bytes_received;
  latest_connect_latency_ms = milliseconds c.latest_connect_latency_s;
  latest_roundtrip_latency_ms = milliseconds c.latest_roundtrip_latency_s;
  latest_server_inference_ms = milliseconds c.latest_server_inference_s;
  startup_deadlines = c.startup_deadlines;
  steady_deadlines = c.steady_deadlines;
  cancelled_invalidated_requests = c.invalidated_requests;
  connections_established = c.reconnects;
  reconnections = c.reconnects - 1;
  latest_response_telemetry = c.latest_response_telemetry;
  reset_requests = c.reset_requests;
  reset_successes = c.reset_successes;
  reset_failures = c.reset_failures;
  reset_timeouts = c.reset_timeouts;
  reset_required = c.reset_required;
}
