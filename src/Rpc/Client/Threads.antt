-- ===== src/Rpc/Client/Threads.antt =====
-- rpc_client.py: the client with all its callers. A step is one section of one thread: a caller of
-- `infer` or `reset`, or a call of `cancel` or `close`.
pub mod Counting
pub mod Counts
pub mod Order
pub mod Currency
pub mod Examples
pub mod Exclusion
pub mod Readiness
pub mod Steps
use action_stream.Prelude.{
  ℕ, zero, suc, ◌+◌, Float, Bool, true, false, not, ◌&&◌, ◌||◌, Option, none, some, List, [], ◌∷◌,
  ◌++◌, is_some, if◌then◌else◌, Result, ok, err,
}
use action_stream.Rpc.Client.{
  Client, RpcError, cancel, close, begin_reset, deadline_at, is_past, timed_out,
}
use action_stream.Rpc.Client.Requests.{
  World, Request, Phase, starts, ended, enter_request, admit_request, infer_step,
}
use action_stream.Rpc.Client.Resets.{
  Reset, ResetPhase, waits, settles, done, holds_lock, reset_step,
}

pub record Threads (A : Type 0) : Type 0 where
  pub client : Client
  -- the callers of `infer` that wait for the request lock: the generation and the timeout
  pub entered : List (ℕ × Float)
  -- the one that has it
  pub request : Option (Request × Phase A)
  -- the calls of `reset`, the latest first
  pub resets : List (Reset × ResetPhase A)

pub data Event (A : Type 0) : Type 0 where
  enters : Float → Event A
  admits : ℕ → ℕ → ℕ → Event A
  infers : World A → Event A
  begins : ℕ → ℕ → Event A
  resets_on : ℕ → World A → Event A
  cancels closes : Event A

module _ {ℓ} {X : Type ℓ} where
  -- the element at a position, and the others
  pub pick : ℕ → List X → Option (X × List X)
  pick i [] = none
  pick zero (x ∷ xs) = some (x, xs)
  pick (suc i) (x ∷ xs) = elim (pick i xs) [
    | none ↦ none
    | some found ↦ some (found.0, x ∷ found.1)
  ]

module _ {A : Type 0} where
  abbrev pub is_locking : List (Reset × ResetPhase A) → Bool
  is_locking [] = false
  is_locking ((r, phase) ∷ resets) = holds_lock phase || is_locking resets

  -- a thread has the request lock
  abbrev pub is_locked : Threads A → Bool
  is_locked s = is_some s.request || is_locking s.resets

  -- a step of a reset, while another thread has the request lock or not
  pub try_step : World A → Bool → Reset → ResetPhase A → Client → Client × ResetPhase A
  try_step w true r waits c =
      (c, if is_past r.deadline w.now then settles (some timed_out) else waits)
  try_step w locked r phase c = reset_step w r phase c

  -- a step of the reset at a position
  pub step_resets :
      World A
      → Bool
      → ℕ
      → Client
      → List (Reset × ResetPhase A)
      → Client × List (Reset × ResetPhase A)
  step_resets w locked i c [] = (c, [])
  step_resets w locked zero c ((r, phase) ∷ resets) =
      let (c', phase') = try_step w locked r phase c in (c', (r, phase') ∷ resets)
  step_resets w locked (suc i) c (reset ∷ resets) =
      let (c', resets') = step_resets w locked i c resets in (c', reset ∷ resets')

  admitted : Client × Result RpcError Request → Client × Option (Request × Phase A)
  admitted (c, err error) = (c, none)
  admitted (c, ok r) = (c, some (r, starts))

  admit_picked : ℕ → ℕ → Option ((ℕ × Float) × List (ℕ × Float)) → Threads A → Threads A
  unfolding admitted
  admit_picked id now none s = s
  admit_picked id now (some ((generation, timeout), entered)) s =
      let (c, request) = admitted (admit_request generation id now timeout s.client) in
      record s { client = c; entered = entered; request = request }

  abbrev pub is_ended : Phase A → Bool
  is_ended (ended result) = true
  is_ended phase = false

  -- a request that has ended releases the lock
  infer_on : World A → Option (Request × Phase A) → Client → Client × Option (Request × Phase A)
  infer_on w none c = (c, none)
  infer_on w (some (r, phase)) c =
      let (c', phase') = infer_step w r phase c in
      if is_ended phase then (c, none) else (c', some (r, phase'))

  enter_checked : Float → Result RpcError ℕ → Threads A → Threads A
  enter_checked timeout (err error) s = s
  enter_checked timeout (ok generation) s = record s { entered = (generation, timeout) ∷ s.entered }

  start_reset : ℕ → ℕ → Client → Reset × ResetPhase A
  start_reset id now c = (
    record {
      generation = suc c.generation;
      request_id = id;
      deadline = deadline_at now c.reset_timeout_s;
    },
    waits,
  )

  pub step : Threads A → Event A → Threads A
  unfolding enter_checked admit_picked infer_on start_reset
  step s (enters timeout) = enter_checked timeout (enter_request timeout s.client) s
  step s (admits i id now) = if is_locked s then s else admit_picked id now (pick i s.entered) s
  step s (infers w) =
      let (c, request) = infer_on w s.request s.client in record s { client = c; request = request }
  step s (begins id now) = record s {
    client = begin_reset s.client;
    resets = start_reset id now s.client ∷ s.resets;
  }
  step s (resets_on i w) =
      let (c, resets) = step_resets w (is_locked s) i s.client s.resets in
      record s { client = c; resets = resets }
  step s cancels = record s { client = (cancel s.client).0 }
  step s closes = record s { client = close s.client }

  pub run : Threads A → List (Event A) → Threads A
  run s [] = s
  run s (e ∷ es) = run (step s e) es

  abbrev pub initial : Client → Threads A
  initial c = record { client = c; entered = []; request = none; resets = [] }
