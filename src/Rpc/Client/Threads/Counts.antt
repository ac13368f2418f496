-- ===== src/Rpc/Client/Threads/Counts.antt =====
-- rpc_client.py: what one step of one caller does to the client's counters.
use action_stream.Prelude.{
  ℕ, zero, suc, ◌+◌, ◌≡◌, refl, Bool, true, false, not, ◌&&◌, Option, none, some, List, [], ◌∷◌,
  if◌then◌else◌, Result, ok, err, arith,
}
use action_stream.Rpc.Client.{
  Client, Response, RpcError, transport_failed, reset_required, publish_socket, acknowledge_reset,
  fail_reset,
}
use action_stream.Rpc.Client.Requests.{
  World, Request, Phase, Outcome, ended, raises, finishes, replies, infer_step, handle, commit,
  get_field, is_invalidated, server_time,
}
use action_stream.Rpc.Client.Resets.{Reset, ResetPhase, reset_step, settle}
use action_stream.Rpc.Client.Threads.{Event, infers, try_step, step_resets, is_ended}
use action_stream.Rpc.Client.Threads.Steps.{is_done}

abbrev pub is_remote : RpcError → Bool
is_remote transport_failed = true
is_remote reset_required = true
is_remote error = false

abbrev pub uncounted_outcome : Outcome → ℕ
uncounted_outcome outcome = if is_invalidated outcome then 1 else 0

abbrev pub counted_requests : Client → ℕ
counted_requests c =
    c.requests_completed + c.server_errors + c.transport_errors + c.invalidated_requests

abbrev pub is_ok : {E B : Type 0} → Result E B → Bool
is_ok (ok b) = true
is_ok (err e) = false

-- what no step of a reset changes
pub record KeepsRequests (c c' : Client) : Type 0 where
  pub kept_started : c'.requests_started ≡ c.requests_started
  pub kept_counted : counted_requests c' ≡ counted_requests c
  pub kept_deadlines : c'.deadlines ≡ c.deadlines
  pub kept_startup : c'.startup_deadlines ≡ c.startup_deadlines
  pub kept_steady : c'.steady_deadlines ≡ c.steady_deadlines
  pub kept_requests : c'.reset_requests ≡ c.reset_requests
  pub kept_inflight : c'.inflight ≡ c.inflight

pub keeps_same : (c : Client) → KeepsRequests c c
keeps_same c = record {
  kept_started = refl;
  kept_counted = refl;
  kept_deadlines = refl;
  kept_startup = refl;
  kept_steady = refl;
  kept_requests = refl;
  kept_inflight = refl;
}

abbrev pub settled_resets : Client → ℕ
settled_resets c = c.reset_successes + c.reset_failures

module _ {A : Type 0} where
  -- the request is started, and none of the counters of ended requests has it yet
  abbrev pub uncounted : Phase A → ℕ
  uncounted (raises error remote) = if remote && is_remote error then 0 else 1
  uncounted (finishes outcome result) = uncounted_outcome outcome
  uncounted (ended result) = 0
  uncounted phase = 1

  abbrev pub uncounted_requests : Option (Request × Phase A) → ℕ
  uncounted_requests none = 0
  uncounted_requests (some (r, phase)) = uncounted phase

  -- the server's time is a number, if the response has it
  abbrev pub is_timed : Response A → Bool
  is_timed response = is_ok (server_time (get_field "server_inference_s" response.fields))

  abbrev pub IsTimedReceived : Result RpcError (Response A × ℕ) → Type 0
  IsTimedReceived (err error) = Unit {0}
  IsTimedReceived (ok (response, size)) = is_timed response ≡ true

  abbrev pub IsTimedEvent : Event A → Type 0
  IsTimedEvent (infers w) = IsTimedReceived w.received
  IsTimedEvent event = Unit {0}

  abbrev pub IsTimedPhase : Phase A → Type 0
  IsTimedPhase (replies response) = is_timed response ≡ true
  IsTimedPhase phase = Unit {0}

  pub infer_step-IsTimedPhase :
      (w : World A) (r : Request) (phase : Phase A) (c : Client)
      → IsTimedReceived w.received
      → IsTimedPhase (infer_step w r phase c).1
  unfolding infer_step handle commit publish_socket
  infer_step-IsTimedPhase w r phase c timed = ground arith

  pub infer_step-counted :
      (w : World A) (r : Request) (phase : Phase A) (c : Client)
      → IsTimedPhase phase
      → ((infer_step w r phase c).0.requests_started ≡ c.requests_started)
        × (counted_requests c + uncounted phase
            ≡ counted_requests (infer_step w r phase c).0 + uncounted (infer_step w r phase c).1)
  unfolding infer_step handle commit publish_socket
  infer_step-counted w r phase c timed = ground arith

  pub infer_step-deadlines :
      (w : World A) (r : Request) (phase : Phase A) (c : Client)
      → c.deadlines ≡ c.startup_deadlines + c.steady_deadlines
      → let c' = (infer_step w r phase c).0 in
        c'.deadlines ≡ c'.startup_deadlines + c'.steady_deadlines
  unfolding infer_step handle commit publish_socket
  infer_step-deadlines w r phase c even = ground arith

  abbrev pub unsettled : ResetPhase A → ℕ
  unsettled phase = if is_done phase then 0 else 1

  abbrev pub unsettled_resets : List (Reset × ResetPhase A) → ℕ
  unsettled_resets [] = 0
  unsettled_resets ((r, phase) ∷ resets) = unsettled phase + unsettled_resets resets

  pub try_step-KeepsRequests :
      (w : World A) (locked : Bool) (r : Reset) (phase : ResetPhase A) (c : Client)
      → KeepsRequests c (try_step w locked r phase c).0
  unfolding try_step reset_step settle acknowledge_reset fail_reset publish_socket
  try_step-KeepsRequests w locked r phase c = record {
    kept_started = ground arith;
    kept_counted = ground arith;
    kept_deadlines = ground arith;
    kept_startup = ground arith;
    kept_steady = ground arith;
    kept_requests = ground arith;
    kept_inflight = ground arith;
  }

  pub try_step-settled :
      (w : World A) (locked : Bool) (r : Reset) (phase : ResetPhase A) (c : Client)
      → settled_resets c + unsettled phase
        ≡ settled_resets (try_step w locked r phase c).0 + unsettled (try_step w locked r phase c).1
  unfolding try_step reset_step settle acknowledge_reset fail_reset publish_socket
  try_step-settled w locked r phase c = ground arith

  pub step_resets-KeepsRequests :
      (w : World A) (locked : Bool) (i : ℕ) (c : Client) (resets : List (Reset × ResetPhase A))
      → KeepsRequests c (step_resets w locked i c resets).0
  unfolding step_resets
  step_resets-KeepsRequests w locked i c [] = keeps_same c
  step_resets-KeepsRequests w locked zero c ((r, phase) ∷ resets) =
      try_step-KeepsRequests w locked r phase c
  step_resets-KeepsRequests w locked (suc i) c (reset ∷ resets) =
      step_resets-KeepsRequests w locked i c resets

  pub step_resets-settled :
      (w : World A) (locked : Bool) (i : ℕ) (c : Client) (resets : List (Reset × ResetPhase A))
      → settled_resets c + unsettled_resets resets
        ≡ settled_resets (step_resets w locked i c resets).0
          + unsettled_resets (step_resets w locked i c resets).1
  unfolding step_resets
  step_resets-settled w locked i c [] = refl
  step_resets-settled w locked zero c ((r, phase) ∷ resets) =
      let head = try_step-settled w locked r phase c in omega arith
  step_resets-settled w locked (suc i) c (reset ∷ resets) =
      let rest = step_resets-settled w locked i c resets in omega arith

  abbrev pub is_serving : Option (Request × Phase A) → Bool
  is_serving none = false
  is_serving (some (r, phase)) = not (is_ended phase)

  abbrev pub IsTimedRequest : Option (Request × Phase A) → Type 0
  IsTimedRequest none = Unit {0}
  IsTimedRequest (some (r, phase)) = IsTimedPhase phase
