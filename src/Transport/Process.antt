-- ===== src/Transport/Process.antt =====
-- inference_transport.py: `ProcessInferenceTransport`. A child and its connection have one number. A
-- step is one section of the thread that has the request lock, the local code between two sections, or
-- a part of a call of `cancel`, `reset` or `close`: each sets the event before it takes the state lock.
pub mod Examples
pub mod Freshness
use action_stream.Prelude.{
  ℕ, suc, ◌+◌, ◌-◌, Bool, true, false, not, ◌&&◌, ◌||◌, Option, none, some, List, [], ◌∷◌, is_some,
  leb, ◌==◌, if◌then◌else◌, Result, ok, err,
}
use action_stream.Rpc.Client.{
  RpcError, timed_out, cancelled, transport_failed, io_failed, other_failure,
}

pub record Process : Type 0 where
  pub cancel_event : Bool
  pub process : Option ℕ
  pub connection : Option ℕ
  pub inflight : Bool
  pub process_restarts : ℕ
  pub cancellations : ℕ
  pub latest_startup_latency_s : Option ℕ
  pub latest_request_latency_s : Option ℕ
  pub generation : ℕ

-- what the child's first message is
pub data FirstMessage : Type 0 where
  late prepared not_prepared broken : FirstMessage

-- what `connection.poll` and `recv` give: nothing, or a status and the identifier of a request
pub data Polled (A : Type 0) : Type 0 where
  nothing broken_pipe : Polled A
  message_ok : ℕ → A → Polled A
  message_other : ℕ → Polled A

pub record World (A : Type 0) : Type 0 where
  pub now : ℕ
  -- the caller's cancellation event
  pub is_set : Bool
  -- the child is alive
  pub is_alive : Bool
  -- the number of a child that is started here
  pub child : ℕ
  pub first_message : FirstMessage
  pub is_sent : Bool
  pub polled : Polled A

pub record Request : Type 0 where
  pub request_id : ℕ
  pub generation : ℕ
  pub timeout_s : ℕ
  pub startup_started : ℕ
  -- once it is sent
  pub request_started : Option ℕ

-- where the thread is that has the request lock
pub data Phase (A : Type 0) : Type 0 where
  enters starts : Phase A
  awaits_ready has_child checks_child sends polls : ℕ → Phase A
  finishes : Result RpcError A → Phase A
  ended : Result RpcError A → Phase A

-- `__init__`
unfoldable pub new_process : Process
new_process = record {
  cancel_event = false;
  process = none;
  connection = none;
  inflight = false;
  process_restarts = 0;
  cancellations = 0;
  latest_startup_latency_s = none;
  latest_request_latency_s = none;
  generation = 0;
}

-- `_terminate_locked`: whatever the operating system does, the child is forgotten
abbrev pub terminate_locked : Process → Process
terminate_locked p = record p { process = none; connection = none; inflight = false }

-- `_cancel_event.set()`, the first statement of `cancel`, `reset` and `close`
pub set_event : Process → Process
set_event p = record p { cancel_event = true }

-- the locked section of `cancel`
pub cancel_locked : Process → Process × Bool
cancel_locked p = if not p.inflight then (p, false) else (
  terminate_locked
      (record p { generation = suc p.generation; cancellations = suc p.cancellations }),
  true,
)

-- the locked section of `reset`
pub reset_locked : Process → Process × Bool
reset_locked p = (
  terminate_locked (record p {
    generation = suc p.generation;
    latest_startup_latency_s = none;
    latest_request_latency_s = none;
    cancellations = if p.inflight then suc p.cancellations else p.cancellations;
  }),
  p.inflight,
)

-- the locked section of `close`
pub close_locked : Process → Process
close_locked p = terminate_locked (record p { generation = suc p.generation })

is_child : Option ℕ → ℕ → Bool
is_child none child = false
is_child (some current) child = current == child

terminate_own : ℕ → Process → Process
unfolding is_child
terminate_own child p = if is_child p.process child then terminate_locked p else p

deadline_of : Request → Option ℕ → ℕ
deadline_of r none = r.timeout_s
deadline_of r (some started) = started + r.timeout_s

-- the head of `_infer_request`, under the request lock: it clears the event
pub clear_event : Process → Process
clear_event p = record p { cancel_event = false }

module _ {A : Type 0} where
  -- `cancelled()` of `_infer_request`
  abbrev pub is_cancelled : World A → Process → Bool
  is_cancelled w p = p.cancel_event || w.is_set

  -- a child that is alive is used again
  reuse : World A → Option ℕ → Option ℕ → Process → Process × Phase A
  reuse w (some process) none p = (p, finishes (err transport_failed))
  reuse w (some process) (some connection) p = (p, has_child connection)
  reuse w none connection p = (p, finishes (err other_failure))

  -- the first section of `_start`
  start_child : World A → Process → Process × Phase A
  unfolding reuse
  start_child w p =
      if is_cancelled w p
      then (p, finishes (err cancelled))
      else if is_some p.process && w.is_alive
      then reuse w p.process p.connection p
      else (
        record p {
          process = some w.child;
          connection = some w.child;
          process_restarts = suc p.process_restarts;
        },
        awaits_ready w.child,
      )

  -- the end of `_start`
  await_ready : FirstMessage → ℕ → Process → Process × Phase A
  unfolding terminate_own
  await_ready late child p = (terminate_own child p, finishes (err transport_failed))
  await_ready not_prepared child p = (terminate_own child p, finishes (err transport_failed))
  await_ready broken child p =
      (p, finishes (err (if p.cancel_event then cancelled else transport_failed)))
  await_ready prepared child p =
      (p, if p.cancel_event then finishes (err cancelled) else has_child child)

  -- one round of the loop of `_infer_request` after its two checks
  take_polled : World A → Request → Polled A → ℕ → Process → Phase A
  take_polled w r nothing child p =
      if not w.is_alive then finishes (err transport_failed) else polls child
  take_polled w r broken_pipe child p =
      finishes (err (if is_cancelled w p then cancelled else transport_failed))
  take_polled w r (message_ok id actions) child p =
      finishes (if id == r.request_id then ok actions else err transport_failed)
  take_polled w r (message_other id) child p = finishes (err transport_failed)

  poll : World A → Request → ℕ → Process → Process × Phase A
  unfolding take_polled deadline_of
  poll w r child p =
      if is_cancelled w p
      then (p, finishes (err cancelled))
      else if leb (deadline_of r r.request_started) w.now
      then (terminate_locked p, finishes (err timed_out))
      else (p, take_polled w r w.polled child p)

  note_request : World A → Request → Option ℕ → Process → Process
  note_request w r none p = p
  note_request w r (some started) p =
      if r.generation == p.generation && not (is_cancelled w p)
      then record p { latest_request_latency_s = some (w.now - started) }
      else p

  -- the next step of the thread that has the request lock
  unfoldable pub request_step :
      World A → Request → Phase A → Process → (Process × Request) × Phase A
  unfolding start_child await_ready poll note_request is_child
  request_step w r enters p =
      ((record p { inflight = true }, record r { generation = p.generation }), starts)
  request_step w r starts p = let (p', phase) = start_child w p in ((p', r), phase)
  request_step w r (awaits_ready child) p =
      let (p', phase) = await_ready w.first_message child p in ((p', r), phase)
  request_step w r (has_child child) p = (
    (
      if r.generation == p.generation && not (is_cancelled w p)
          then record p { latest_startup_latency_s = some (w.now - r.startup_started) }
          else p,
      r,
    ),
    if is_cancelled w p then finishes (err cancelled) else checks_child child,
  )
  request_step w r (checks_child child) p = (
    (p, r),
    if is_child p.connection child && is_child p.process child
        then sends child
        else finishes (err cancelled),
  )
  request_step w r (sends child) p =
      if w.is_sent
      then ((p, record r { request_started = some w.now }), polls child)
      else ((p, r), finishes (err (if is_cancelled w p then cancelled else transport_failed)))
  request_step w r (polls child) p = let (p', phase) = poll w r child p in ((p', r), phase)
  request_step w r (finishes result) p =
      ((record (note_request w r r.request_started p) { inflight = false }, r), ended result)
  request_step w r (ended result) p = ((p, r), ended result)
