-- ===== src/Rpc/Client/Threads/Exclusion.antt =====
-- rpc_client.py: `_request_lock`. The callers of `infer` and `reset` use the connection one at a time.
use action_stream.Prelude.{
  ℕ, zero, suc, ◌+◌, ◌≤◌, ◌≡◌, refl, ◌⊎◌, inl, inr, Bool, true, false, Option, none, some, List, [],
  ◌∷◌, is_some, if◌then◌else◌, arith, Bool-cases, Float,
}
use action_stream.Rpc.Client.{Client, publish_socket, acknowledge_reset, fail_reset}
use action_stream.Rpc.Client.Requests.{
  World, Request, Phase, connects, has_socket, sends, receives, infer_step, commit,
}
use action_stream.Rpc.Client.Resets
use action_stream.Rpc.Client.Resets.{
  waits, settles, done, Reset, ResetPhase, holds_lock, reset_step, settle,
}
use action_stream.Rpc.Client.Threads.{
  Threads, Event, enters, admits, infers, begins, resets_on, cancels, closes, try_step, step_resets,
  pick, admit_picked, infer_on, is_locked, is_locking, enter_checked, start_reset, step, run,
  initial,
}

module _ {A : Type 0} where
  abbrev owner : ResetPhase A → ℕ
  owner phase = if holds_lock phase then 1 else 0

  -- the calls of `reset` that have the lock
  abbrev reset_owners : List (Reset × ResetPhase A) → ℕ
  reset_owners [] = 0
  reset_owners ((r, phase) ∷ resets) = owner phase + reset_owners resets

  -- the threads that have the lock
  abbrev owners : Threads A → ℕ
  owners s = (if is_some s.request then 1 else 0) + reset_owners s.resets

  try_step-owner :
      (w : World A) (locked : Bool) (r : Reset) (phase : ResetPhase A) (c : Client)
      → (locked ≡ false) ⊎ (owner (try_step w locked r phase c).1 ≤ owner phase)
  unfolding try_step reset_step settle acknowledge_reset fail_reset publish_socket
  try_step-owner w locked r phase c = ground arith

  is_locking-none :
      (resets : List (Reset × ResetPhase A)) → is_locking resets ≡ false → reset_owners resets ≡ 0
  is_locking-none [] free = refl
  is_locking-none ((r, phase) ∷ resets) free =
      let rest : is_locking resets ≡ false = ground arith in
      let none_of = is_locking-none resets rest in ground arith

  step_resets-owners :
      (w : World A) (locked : Bool) (i : ℕ) (c : Client) (resets : List (Reset × ResetPhase A))
      → (locked ≡ false) ⊎ (reset_owners (step_resets w locked i c resets).1 ≤ reset_owners resets)
  unfolding step_resets
  step_resets-owners w locked i c [] = inr (omega arith)
  step_resets-owners w locked zero c ((r, phase) ∷ resets) =
      elim (try_step-owner w locked r phase c) [
        | inl free ↦ inl free
        | inr fewer ↦ inr (omega arith)
      ]
  step_resets-owners w locked (suc i) c (reset ∷ resets) =
      elim (step_resets-owners w locked i c resets) [
        | inl free ↦ inl free
        | inr fewer ↦ inr (omega arith)
      ]

  owner-bounded : (phase : ResetPhase A) → owner phase ≤ 1
  owner-bounded phase = ground arith

  -- one more thread at most gets the lock
  step_resets-bounded :
      (w : World A) (locked : Bool) (i : ℕ) (c : Client) (resets : List (Reset × ResetPhase A))
      → reset_owners (step_resets w locked i c resets).1 ≤ suc (reset_owners resets)
  unfolding step_resets
  step_resets-bounded w locked i c [] = omega arith
  step_resets-bounded w locked zero c ((r, phase) ∷ resets) =
      let bound = owner-bounded (try_step w locked r phase c).1 in omega arith
  step_resets-bounded w locked (suc i) c (reset ∷ resets) =
      let bound = step_resets-bounded w locked i c resets in omega arith

  infer_on-owner :
      (w : World A) (request : Option (Request × Phase A)) (c : Client)
      → (is_some request ≡ true) ⊎ (is_some (infer_on w request c).1 ≡ false)
  unfolding infer_on
  infer_on-owner w request c = ground arith

  admit_picked-owners :
      (id now : ℕ) (found : Option ((ℕ × Float) × List (ℕ × Float))) (s : Threads A)
      → (admit_picked id now found s).resets ≡ s.resets
  unfolding admit_picked
  admit_picked-owners id now found s = ground arith

  free-owners : (s : Threads A) → is_locked s ≡ false → owners s ≡ 0
  free-owners s free =
      let rest : is_locking s.resets ≡ false = ground arith in
      let none_of = is_locking-none s.resets rest in ground arith

  step-owners : (s : Threads A) (e : Event A) → owners s ≤ 1 → owners (step s e) ≤ 1
  unfolding step enter_checked start_reset
  step-owners s (enters timeout) h = ground arith
  step-owners s (admits i id now) h = elim (Bool-cases (is_locked s)) [
    | inl taken ↦ rw taken h
    | inr free ↦
        let same = admit_picked-owners id now (pick i s.entered) s in
        rw free (rw same (ground (arith, free-owners s free)))
  ]
  step-owners s (infers w) h = ground (arith, infer_on-owner w s.request s.client)
  step-owners s (begins id now) h = ground arith
  step-owners s (resets_on i w) h = elim (Bool-cases (is_locked s)) [
    | inl taken ↦ ground (arith, step_resets-owners w true i s.client s.resets)
    | inr free ↦ ground (arith, free-owners s free, step_resets-bounded w false i s.client s.resets)
  ]
  step-owners s cancels h = h
  step-owners s closes h = h

  run-owners : (s : Threads A) (es : List (Event A)) → owners s ≤ 1 → owners (run s es) ≤ 1
  unfolding run
  run-owners s [] h = h
  run-owners s (e ∷ es) h = run-owners (step s e) es (step-owners s e h)

  -- the request's next step depends on the connection: it opens it, sends its frame, or reads the reply;
  -- with an open connection it is about to send
  abbrev pub uses_connection : Phase A → Bool
  uses_connection connects = true
  uses_connection has_socket = true
  uses_connection sends = true
  uses_connection receives = true
  uses_connection phase = false

  abbrev pub reset_uses_connection : ResetPhase A → Bool
  reset_uses_connection Resets.connects = true
  reset_uses_connection Resets.has_socket = true
  reset_uses_connection Resets.receives = true
  reset_uses_connection phase = false

  abbrev user : Option (Request × Phase A) → ℕ
  user none = 0
  user (some (r, phase)) = if uses_connection phase then 1 else 0

  abbrev reset_users : List (Reset × ResetPhase A) → ℕ
  reset_users [] = 0
  reset_users ((r, phase) ∷ resets) =
      (if reset_uses_connection phase then 1 else 0) + reset_users resets

  -- the threads in an exchange
  abbrev pub users : Threads A → ℕ
  users s = user s.request + reset_users s.resets

  -- the worlds are alike but for what the connection does
  abbrev pub IsAlike : World A → World A → Type 0
  IsAlike w w' = (w'.now ≡ w.now) × (w'.is_set ≡ w.is_set)

  infer_step-blind :
      (w w' : World A) (r : Request) (phase : Phase A) (c : Client)
      → IsAlike w w'
      → uses_connection phase ≡ false
      → infer_step w' r phase c ≡ infer_step w r phase c
  unfolding infer_step commit
  infer_step-blind w w' r phase c alike unused = ground arith

  reset_step-blind :
      (w w' : World A) (r : Reset) (phase : ResetPhase A) (c : Client)
      → IsAlike w w'
      → reset_uses_connection phase ≡ false
      → reset_step w' r phase c ≡ reset_step w r phase c
  unfolding reset_step
  reset_step-blind w w' r phase c alike unused = ground arith

  uses-holds : (phase : ResetPhase A) → (if reset_uses_connection phase then 1 else 0) ≤ owner phase
  uses-holds phase = ground arith

  reset_users-owners :
      (resets : List (Reset × ResetPhase A)) → reset_users resets ≤ reset_owners resets
  reset_users-owners [] = omega arith
  reset_users-owners ((r, phase) ∷ resets) =
      omega (arith, uses-holds phase, reset_users-owners resets)

  user-owner :
      (request : Option (Request × Phase A)) → user request ≤ (if is_some request then 1 else 0)
  user-owner request = ground arith

  -- In every interleaving of the callers of a client, at most one thread is in an exchange on the
  -- connection, that is, opens it, is about to send, sends, or is to read a reply: no other caller of
  -- `infer` or `reset` opens, sends or reads in between. The step of a thread that is not in an exchange
  -- does not depend on anything that the connection does.
  pub io_exclusive :
      (c : Client) (es : List (Event A))
      → (users (run (initial c) es) ≤ 1)
        × ((w w' : World A) (r : Request) (phase : Phase A) (d : Client)
            → IsAlike w w'
            → uses_connection phase ≡ false
            → infer_step w' r phase d ≡ infer_step w r phase d)
        × ((w w' : World A) (r : Reset) (phase : ResetPhase A) (d : Client)
            → IsAlike w w'
            → reset_uses_connection phase ≡ false
            → reset_step w' r phase d ≡ reset_step w r phase d)
  io_exclusive c es =
      let s = run (initial c) es in
      let one = run-owners (initial c) es (omega arith) in
      (
        omega (arith, one, user-owner s.request, reset_users-owners s.resets),
        infer_step-blind,
        reset_step-blind,
      )
