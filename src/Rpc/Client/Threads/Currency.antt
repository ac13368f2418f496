-- ===== src/Rpc/Client/Threads/Currency.antt =====
-- rpc_client.py: `_generation`, which keeps an answer or an acknowledgement from being used after a
-- cancellation, a reset, a close, a deadline or a failure of the connection.
use action_stream.Prelude.{
  ℕ, zero, suc, ◌+◌, ◌≤◌, ◌<◌, ◌≡◌, refl, ◌⊎◌, inl, inr, Bool, Option, some, List, [], ◌∷◌, Result,
  arith, Float, get_elem?,
}
use action_stream.Rpc.Client.{
  Client, RpcError, publish_socket, acknowledge_reset, fail_reset, begin_reset, cancel, close,
}
use action_stream.Rpc.Client.Requests.{
  World, Request, Phase, enter_request, admit_request, infer_step, handle, commit,
}
use action_stream.Rpc.Client.Resets.{Reset, ResetPhase, reset_step, settle}
use action_stream.Rpc.Client.Threads.{
  Threads, Event, enters, admits, infers, begins, resets_on, cancels, closes, try_step, step_resets,
  pick, admitted, admit_picked, infer_on, is_locked, enter_checked, step, run,
}

module _ {A : Type 0} where
  abbrev invalidation : Event A → ℕ
  invalidation cancels = 1
  invalidation closes = 1
  invalidation (begins id now) = 1
  invalidation event = 0

  -- the calls of `cancel`, `close` and `reset`
  abbrev pub invalidations : List (Event A) → ℕ
  invalidations [] = 0
  invalidations (e ∷ es) = invalidation e + invalidations es

  try_step-current :
      (w : World A) (locked : Bool) (r : Reset) (phase : ResetPhase A) (c : Client)
      → c.generation ≤ (try_step w locked r phase c).0.generation
        × (((try_step w locked r phase c).0.reset_successes ≡ c.reset_successes)
            ⊎ (r.generation ≡ c.generation))
  unfolding try_step reset_step settle acknowledge_reset fail_reset publish_socket
  try_step-current w locked r phase c = ground arith

  infer_on-generation :
      (w : World A) (request : Option (Request × Phase A)) (c : Client)
      → c.generation ≤ (infer_on w request c).0.generation
  unfolding infer_on infer_step handle commit publish_socket
  infer_on-generation w request c = ground arith

  -- a request is completed only in its own generation
  infer_on-current :
      (w : World A) (r : Request) (phase : Phase A) (c : Client)
      → ((infer_on w (some (r, phase)) c).0.requests_completed ≡ c.requests_completed)
        ⊎ (r.generation ≡ c.generation)
  unfolding infer_on infer_step handle commit publish_socket
  infer_on-current w r phase c = ground arith

  admit_picked-generation :
      (id now : ℕ) (found : Option ((ℕ × Float) × List (ℕ × Float))) (s : Threads A)
      → (admit_picked id now found s).client.generation ≡ s.client.generation
  unfolding admit_picked admitted admit_request
  admit_picked-generation id now found s = ground arith

  enter_checked-generation :
      (timeout : Float) (entry : Result RpcError ℕ) (s : Threads A)
      → (enter_checked timeout entry s).client.generation ≡ s.client.generation
  unfolding enter_checked
  enter_checked-generation timeout entry s = ground arith

  step_resets-generation :
      (w : World A) (locked : Bool) (i : ℕ) (c : Client) (resets : List (Reset × ResetPhase A))
      → c.generation ≤ (step_resets w locked i c resets).0.generation
  unfolding step_resets
  step_resets-generation w locked i c [] = omega arith
  step_resets-generation w locked zero c ((r, phase) ∷ resets) =
      (try_step-current w locked r phase c).0
  step_resets-generation w locked (suc i) c (reset ∷ resets) =
      step_resets-generation w locked i c resets

  step_resets-current :
      (w : World A) (locked : Bool) (i : ℕ) (c : Client) (resets : List (Reset × ResetPhase A))
      (r : Reset) (phase : ResetPhase A)
      → get_elem? resets i ≡ some (r, phase)
      → ((step_resets w locked i c resets).0.reset_successes ≡ c.reset_successes)
        ⊎ (r.generation ≡ c.generation)
  unfolding step_resets
  step_resets-current w locked i c [] r phase at = inl refl
  step_resets-current w locked zero c ((q, waiting) ∷ resets) r phase at =
      ground (arith, (try_step-current w locked q waiting c).1)
  step_resets-current w locked (suc i) c (reset ∷ resets) r phase at =
      step_resets-current w locked i c resets r phase at

  step-generation :
      (s : Threads A) (e : Event A)
      → s.client.generation + invalidation e ≤ (step s e).client.generation
  unfolding step cancel close begin_reset
  step-generation s (enters timeout) =
      omega (arith, enter_checked-generation timeout (enter_request timeout s.client) s)
  step-generation s (admits i id now) =
      ground (arith, admit_picked-generation id now (pick i s.entered) s)
  step-generation s (infers w) = omega (arith, infer_on-generation w s.request s.client)
  step-generation s (begins id now) = omega arith
  step-generation s (resets_on i w) =
      omega (arith, step_resets-generation w (is_locked s) i s.client s.resets)
  step-generation s cancels = omega arith
  step-generation s closes = omega arith

  run-generation :
      (s : Threads A) (es : List (Event A))
      → s.client.generation + invalidations es ≤ (run s es).client.generation
  unfolding run
  run-generation s [] = omega arith
  run-generation s (e ∷ es) = omega (arith, step-generation s e, run-generation (step s e) es)

  -- If the generation of an admitted request is no later than that of a state from which the callers
  -- have taken steps, and its next step completes it, then among those steps is no call of `cancel`,
  -- `close` or `reset`, and none has changed the generation: no deadline has passed and no connection
  -- has failed since.
  pub completed_current :
      (s : Threads A) (es : List (Event A)) (w : World A) (r : Request) (phase : Phase A)
      → (run s es).request ≡ some (r, phase)
      → r.generation ≤ s.client.generation
      → (run s es).client.requests_completed
        < (step (run s es) (infers w)).client.requests_completed
      → (invalidations es ≡ 0)
        × ((run s es).client.generation ≡ s.client.generation)
        × (r.generation ≡ s.client.generation)
  unfolding step
  completed_current s es w r phase at early completes =
      let later = run-generation s es in
      elim (infer_on-current w r phase (run s es).client) [
        | inl same ↦ ground arith
        | inr current ↦ (omega arith, omega arith, omega arith)
      ]

  -- The same of a reset that a step acknowledges: no call of `cancel`, `close` or `reset` is among the
  -- steps since a state of its generation, and the generation is the same.
  pub acknowledged_current :
      (s : Threads A) (es : List (Event A)) (i : ℕ) (w : World A) (r : Reset) (phase : ResetPhase A)
      → get_elem? (run s es).resets i ≡ some (r, phase)
      → r.generation ≤ s.client.generation
      → (run s es).client.reset_successes < (step (run s es) (resets_on i w)).client.reset_successes
      → (invalidations es ≡ 0)
        × ((run s es).client.generation ≡ s.client.generation)
        × (r.generation ≡ s.client.generation)
  unfolding step
  acknowledged_current s es i w r phase at early succeeds =
      let later = run-generation s es in
      let t = run s es in
      elim (step_resets-current w (is_locked t) i t.client t.resets r phase at) [
        | inl same ↦ omega arith
        | inr current ↦ (omega arith, omega arith, omega arith)
      ]
