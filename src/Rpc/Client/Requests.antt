-- ===== src/Rpc/Client/Requests.antt =====
-- rpc_client.py: the requests of `TcpInferenceTransport`, section by section: `_infer_request` from
-- its entry to its `finally`, and `_control` for a reset.
use action_stream.Prelude.{
  ℕ, suc, ◌+◌, ◌-◌, Float, is_positive, String, Bool, true, false, not, Option, none, some, List,
  [], ◌∷◌, ◌==◌, str_eq, if◌then◌else◌, Result, ok, err,
}
use action_stream.Rpc.Client.{
  Client, Response, RpcError, timed_out, cancelled, transport_failed, reset_required, io_failed,
  other_failure, Field, number, text, lookup_socket, publish_socket, close_socket, deadline_at,
  is_past, is_startup, next_inference_timeout_s,
}

-- `_PROTOCOL_VERSION`
abbrev pub protocol_version : ℕ
protocol_version = 1

-- what the calls between two sections return, and the time and the cancellation event there
pub record World (A : Type 0) : Type 0 where
  pub now : ℕ
  pub is_set : Bool
  -- a new socket, and how long it took
  pub connected : Result RpcError (ℕ × ℕ)
  pub sent : Result RpcError ℕ
  pub received : Result RpcError (Response A × ℕ)

pub record Request : Type 0 where
  pub generation : ℕ
  pub request_id : ℕ
  pub startup : Bool
  pub started : ℕ
  pub deadline : Float

pub data Outcome : Type 0 where
  success deadline_passed was_cancelled server_error transport_error : Outcome

-- where the thread of an admitted request is
pub data Phase (A : Type 0) : Type 0 where
  starts connects has_socket sends receives : Phase A
  replies : Response A → Phase A
  -- an exception on its way to the handlers, and the flag `remote_error`
  raises : RpcError → Bool → Phase A
  -- before `finally`
  finishes : Outcome → Result RpcError A → Phase A
  ended : Result RpcError A → Phase A

-- the first section of `_infer_request`: the generation
unfoldable pub enter_request : Float → Client → Result RpcError ℕ
enter_request timeout c =
    if not (is_positive timeout)
    then err io_failed
    else if c.reset_required
    then err reset_required
    else ok c.generation

-- the section under the request lock that admits it
unfoldable pub admit_request : ℕ → ℕ → ℕ → Float → Client → Client × Result RpcError Request
unfolding next_inference_timeout_s
admit_request generation request_id now timeout c =
    if c.reset_required
    then (c, err reset_required)
    else if not (generation == c.generation)
    then (c, err cancelled)
    else (
      record c { inflight = true; requests_started = suc c.requests_started },
      ok (record {
        generation = generation;
        request_id = request_id;
        startup = is_startup c;
        started = now;
        deadline = deadline_at now (next_inference_timeout_s timeout c);
      }),
    )

-- the keys of `response_telemetry`
abbrev telemetry_keys : List String
telemetry_keys =
    "server_inference_s" ∷ "server_queue_wait_s" ∷ "server_compute_s" ∷ "server_service_s"
    ∷ "connection_id" ∷ "connection_request_ordinal" ∷ "global_request_ordinal" ∷ []

abbrev pub get_field : String → List (String × Field) → Option Field
get_field key [] = none
get_field key ((name, value) ∷ fields) =
    let later = get_field key fields in if str_eq name key then some value else later

abbrev add_field : String → Option Field → List (String × Field) → List (String × Field)
add_field key none fields = fields
add_field key (some value) fields = (key, value) ∷ fields

unfoldable pub select_fields : List String → List (String × Field) → List (String × Field)
select_fields [] fields = []
select_fields (key ∷ keys) fields = add_field key (get_field key fields) (select_fields keys fields)

abbrev pub is_number : Option ℕ → ℕ → Bool
is_number none n = false
is_number (some m) n = m == n

abbrev pub is_text : Option String → String → Bool
is_text none s = false
is_text (some t) s = str_eq t s

tensor_of : {A : Type 0} → Option A → Result RpcError A
tensor_of none = err transport_failed
tensor_of (some actions) = ok actions

-- what the checks of a response say: an answer, an error of the server's, or a bad response
pub data Verdict (A : Type 0) : Type 0 where
  answers : A → Verdict A
  remote_failure bad_response : Verdict A

verdict_of : {A : Type 0} → Option A → Verdict A
verdict_of none = bad_response
verdict_of (some actions) = answers actions

-- `float(server_s) if server_s is not None else None`
unfoldable pub server_time : Option Field → Result RpcError (Option ℕ)
server_time none = ok none
server_time (some (number s)) = ok (some s)
server_time (some (text t)) = err io_failed

abbrev pub is_invalidated : Outcome → Bool
is_invalidated was_cancelled = true
is_invalidated deadline_passed = true
is_invalidated outcome = false

-- the section of `finally`
finish : Outcome → Client → Client
finish outcome c = record c {
  inflight = false;
  invalidated_requests =
      if is_invalidated outcome then suc c.invalidated_requests else c.invalidated_requests;
}

module _ {A : Type 0} where
  unfoldable pub check_response : ℕ → Response A → Verdict A
  unfolding verdict_of
  check_response request_id response =
      if not (is_number response.version protocol_version)
      then bad_response
      else if not (is_number response.request_id request_id)
      then bad_response
      else if is_text response.kind "error"
      then remote_failure
      else if not (is_text response.kind "ok")
      then bad_response
      else verdict_of response.actions

  record_time : A → Result RpcError (Option ℕ) → Client → Client × Phase A
  record_time actions (err error) c = (c, raises error false)
  record_time actions (ok time) c =
      (record c { latest_server_inference_s = time }, finishes success (ok actions))

  -- the section that accepts the answer; its last statement can raise
  unfoldable pub commit : World A → Request → Response A → A → Client → Client × Phase A
  unfolding record_time
  commit w r response actions c =
      if not (r.generation == c.generation)
      then (c, raises cancelled false)
      else if w.is_set
      then (c, raises cancelled false)
      else record_time actions (server_time (get_field "server_inference_s" response.fields))
          (record c {
            requests_completed = suc c.requests_completed;
            latest_response_telemetry = select_fields telemetry_keys response.fields;
            latest_roundtrip_latency_s = some (w.now - r.started);
          })

  accept : World A → Request → Response A → Verdict A → Client → Client × Phase A
  unfolding commit
  accept w r response (answers actions) c = commit w r response actions c
  accept w r response remote_failure c =
      (record c { server_errors = suc c.server_errors }, raises transport_failed true)
  accept w r response bad_response c = (c, raises transport_failed false)

  -- the section after `_recv_frame`
  take_reply : World A → Request → Result RpcError (Response A × ℕ) → Client → Client × Phase A
  take_reply w r (err error) c = (c, raises error false)
  take_reply w r (ok (response, size)) c =
      if is_past r.deadline w.now then (c, raises timed_out false) else (
        record c { bytes_received = c.bytes_received + size },
        if not (r.generation == c.generation) then raises cancelled false else replies response,
      )

  take_sent : World A → Request → Result RpcError ℕ → Client → Client × Phase A
  take_sent w r (err error) c = (c, raises error false)
  take_sent w r (ok size) c = (
    record c { bytes_sent = c.bytes_sent + size },
    if w.is_set
        then raises cancelled false
        else if is_past r.deadline w.now
        then raises timed_out false
        else receives,
  )

  take_lookup : Result RpcError (Option ℕ) → Client → Client × Phase A
  take_lookup (err error) c = (c, raises error false)
  take_lookup (ok none) c = (c, connects)
  take_lookup (ok (some socket)) c = (c, has_socket)

  take_published : Client × Result RpcError ℕ → Client × Phase A
  take_published (c, err error) = (c, raises error false)
  take_published (c, ok socket) = (c, has_socket)

  take_connection : Request → Result RpcError (ℕ × ℕ) → Client → Client × Phase A
  unfolding take_published
  take_connection r (err error) c = (c, raises error false)
  take_connection r (ok (socket, elapsed)) c =
      take_published (publish_socket r.generation socket elapsed c)

  -- the handlers of `_infer_request`, in their order
  unfoldable pub handle : Request → RpcError → Bool → Client → Client × Phase A
  handle r timed_out remote c =
      if not (r.generation == c.generation) then (c, finishes was_cancelled (err cancelled)) else (
        record c {
          deadlines = suc c.deadlines;
          startup_deadlines = if r.startup then suc c.startup_deadlines else c.startup_deadlines;
          steady_deadlines = if r.startup then c.steady_deadlines else suc c.steady_deadlines;
          generation = suc c.generation;
          socket = none;
        },
        finishes deadline_passed (err timed_out),
      )
  handle r cancelled remote c = (close_socket c, finishes was_cancelled (err cancelled))
  handle r io_failed remote c =
      if not (r.generation == c.generation)
      then (close_socket c, finishes was_cancelled (err cancelled))
      else (
        record c {
          socket = none;
          transport_errors = suc c.transport_errors;
          generation = suc c.generation;
        },
        finishes transport_error (err transport_failed),
      )
  handle r other_failure remote c = (c, finishes was_cancelled (err other_failure))
  handle r error true c = (c, finishes server_error (err error))
  handle r error false c = (
    record c {
      transport_errors = suc c.transport_errors;
      generation = suc c.generation;
      socket = none;
    },
    finishes transport_error (err error),
  )

  -- the next step of the thread of an admitted request
  unfoldable pub infer_step : World A → Request → Phase A → Client → Client × Phase A
  unfolding take_lookup take_connection take_sent take_reply accept handle finish
  infer_step w r starts c =
      if w.is_set
      then (c, raises cancelled false)
      else if is_past r.deadline w.now
      then (c, raises timed_out false)
      else take_lookup (lookup_socket r.generation c) c
  infer_step w r connects c = take_connection r w.connected c
  infer_step w r has_socket c = (
    record c { connection_requests = suc c.connection_requests },
    if is_past r.deadline w.now then raises timed_out false else sends,
  )
  infer_step w r sends c = take_sent w r w.sent c
  infer_step w r receives c = take_reply w r w.received c
  infer_step w r (replies response) c = accept w r response (check_response r.request_id response) c
  infer_step w r (raises error remote) c = handle r error remote c
  infer_step w r (finishes outcome result) c = (finish outcome c, ended result)
  infer_step w r (ended result) c = (c, ended result)
