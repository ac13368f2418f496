-- ===== src/Rpc/Client/Threads/Readiness.antt =====
-- rpc_client.py: `_reset_required`, the flag that keeps inference from a server whose state is not
-- known, in every interleaving of the callers.
use action_stream.Prelude.{
  ℕ, zero, suc, ◌≤◌, ◌≡◌, refl, ◌⊎◌, inl, inr, Bool, true, false, Option, List, [], ◌∷◌, All,
  All-weaken, Result, arith, Bool-cases, Float, sym, subst,
}
use action_stream.Rpc.Client.{
  Client, RpcError, new_client, lookup_socket, publish_socket, acknowledge_reset, fail_reset,
  begin_reset, cancel, close,
}
use action_stream.Rpc.Client.Requests.{
  World, Request, Phase, enter_request, admit_request, infer_step, handle, commit,
}
use action_stream.Rpc.Client.Resets.{Reset, ResetPhase, reset_step, settle}
use action_stream.Rpc.Client.Threads.{
  Threads, Event, enters, admits, infers, begins, resets_on, cancels, closes, try_step, step_resets,
  pick, admitted, admit_picked, infer_on, is_locked, enter_checked, start_reset, step, run, initial,
}
use action_stream.Rpc.Client.Threads.Order.{
  IsSameFlag, IsUntouched, Blocked, IsNewer, IsDescending, IsClear, Clear, try_step-Flag,
  step_resets-generation, step_resets-IsDescending, IsClear-later, step_resets-Clear,
}

module _ {A : Type 0} where
  record Inv (c : Client) (resets : List (Reset × ResetPhase A)) : Type 0 where
    sorted : IsDescending resets
    newer : IsNewer resets c.generation
    clear : Clear c resets

  -- a step that leaves the flag, and does not lower the generation
  keep-Inv :
      (c c' : Client) (resets : List (Reset × ResetPhase A))
      → c'.reset_required ≡ c.reset_required
      → c.generation ≤ c'.generation
      → Inv c resets
      → Inv c' resets
  keep-Inv c c' resets flag later v = record {
    sorted = v.sorted;
    newer = All-weaken (λ x h. omega arith) resets v.newer;
    clear = elim v.clear [
      | inl required ↦ inl (ground arith)
      | inr clear ↦ inr (IsClear-later c.generation c'.generation later resets clear)
    ];
  }

  infer_on-flag :
      (w : World A) (request : Option (Request × Phase A)) (c : Client)
      → ((infer_on w request c).0.reset_required ≡ c.reset_required)
        × (c.generation ≤ (infer_on w request c).0.generation)
        × ((infer_on w request c).0.reset_successes ≡ c.reset_successes)
        × ((infer_on w request c).0.requests_started ≡ c.requests_started)
  unfolding infer_on infer_step handle commit publish_socket
  infer_on-flag w request c = ground arith

  admit_picked-flag :
      (id now : ℕ) (found : Option ((ℕ × Float) × List (ℕ × Float))) (s : Threads A)
      → IsSameFlag s.client (admit_picked id now found s).client
        × ((admit_picked id now found s).resets ≡ s.resets)
        × ((s.client.reset_required ≡ false)
            ⊎ ((admit_picked id now found s).client.requests_started ≡ s.client.requests_started))
  unfolding admit_picked admitted admit_request
  admit_picked-flag id now found s = ground arith

  enter_checked-flag :
      (timeout : Float) (entry : Result RpcError ℕ) (s : Threads A)
      → IsSameFlag s.client (enter_checked timeout entry s).client
        × ((enter_checked timeout entry s).resets ≡ s.resets)
        × ((enter_checked timeout entry s).client.requests_started ≡ s.client.requests_started)
  unfolding enter_checked
  enter_checked-flag timeout entry s = ground arith

  same-Inv :
      (s s' : Threads A)
      → IsSameFlag s.client s'.client
      → s'.resets ≡ s.resets
      → Inv s.client s.resets
      → Inv s'.client s'.resets
  same-Inv s s' same resets v =
      subst (Inv s'.client) (sym resets)
        (keep-Inv s.client s'.client s.resets same.0 (omega arith) v)

  step_resets-IsNewer :
      (n : ℕ) (w : World A) (locked : Bool) (i : ℕ) (c : Client)
      (resets : List (Reset × ResetPhase A))
      → IsNewer resets n
      → IsNewer (step_resets w locked i c resets).1 n
  unfolding step_resets
  step_resets-IsNewer n w locked i c [] newer = tt
  step_resets-IsNewer n w locked zero c ((r, phase) ∷ resets) newer = newer
  step_resets-IsNewer n w locked (suc i) c (reset ∷ resets) newer =
      (newer.0, step_resets-IsNewer n w locked i c resets newer.1)

  admit-Inv :
      (s : Threads A) (i id now : ℕ)
      → Inv s.client s.resets
      → Inv (step s (admits i id now)).client (step s (admits i id now)).resets
  unfolding step
  admit-Inv s i id now v = elim (Bool-cases (is_locked s)) [
    | inl taken ↦ rw taken v
    | inr free ↦
        let (same, resets, started) = admit_picked-flag id now (pick i s.entered) s in
        rw free (same-Inv s (admit_picked id now (pick i s.entered) s) same resets v)
  ]

  step-Inv :
      (s : Threads A) (e : Event A)
      → Inv s.client s.resets
      → Inv (step s e).client (step s e).resets
  unfolding step enter_checked start_reset cancel close begin_reset
  step-Inv s (enters timeout) v =
      let (same, resets, started) = enter_checked-flag timeout (enter_request timeout s.client) s in
      same-Inv s (enter_checked timeout (enter_request timeout s.client) s) same resets v
  step-Inv s (admits i id now) v = admit-Inv s i id now v
  step-Inv s (infers w) v =
      let (flag, later, same, started) = infer_on-flag w s.request s.client in
      keep-Inv s.client _ s.resets flag later v
  step-Inv s (begins id now) v = record {
    sorted = (All-weaken (λ x h. omega arith) s.resets v.newer, v.sorted);
    newer = (omega arith, All-weaken (λ x h. omega arith) s.resets v.newer);
    clear = inl refl;
  }
  step-Inv s (resets_on i w) v =
      let later = step_resets-generation w (is_locked s) i s.client s.resets in
      record {
        sorted = step_resets-IsDescending w (is_locked s) i s.client s.resets v.sorted;
        newer =
            step_resets-IsNewer _ w (is_locked s) i s.client s.resets
              (All-weaken (λ x h. omega arith) s.resets v.newer);
        clear = step_resets-Clear w (is_locked s) i s.client s.resets v.sorted v.newer v.clear;
      }
  step-Inv s cancels v = keep-Inv s.client _ s.resets refl (omega arith) v
  step-Inv s closes v = keep-Inv s.client _ s.resets refl (omega arith) v

  run-Inv :
      (s : Threads A) (es : List (Event A))
      → Inv s.client s.resets
      → Inv (run s es).client (run s es).resets
  unfolding run
  run-Inv s [] v = v
  run-Inv s (e ∷ es) v = run-Inv (step s e) es (step-Inv s e v)

  try_step-IsUntouched :
      (w : World A) (locked : Bool) (r : Reset) (phase : ResetPhase A) (c : Client)
      → c.reset_required ≡ false
      → IsClear c.generation (r, phase)
      → IsUntouched c (try_step w locked r phase c).0
  unfolding try_step reset_step settle acknowledge_reset fail_reset publish_socket lookup_socket
  try_step-IsUntouched w locked r phase c ready clear = ground arith

  step_resets-IsUntouched :
      (w : World A) (locked : Bool) (i : ℕ) (c : Client) (resets : List (Reset × ResetPhase A))
      → c.reset_required ≡ false
      → All (IsClear c.generation) resets
      → IsUntouched c (step_resets w locked i c resets).0
  unfolding step_resets
  step_resets-IsUntouched w locked i c [] ready clear = (ready, refl, refl, refl)
  step_resets-IsUntouched w locked zero c ((r, phase) ∷ resets) ready clear =
      try_step-IsUntouched w locked r phase c ready clear.0
  step_resets-IsUntouched w locked (suc i) c (reset ∷ resets) ready clear =
      step_resets-IsUntouched w locked i c resets ready clear.1

  -- After any steps of a new client's callers that leave it ready, a further step of any call of
  -- `reset`, which may fail or be acknowledged late, leaves it ready, with the same generation, the
  -- same socket and no further success.
  pub stale_resets_harmless :
      (connect control reset : Float) (startup steady : Option Float) (es : List (Event A)) (i : ℕ)
      (w : World A)
      → (run (initial (new_client connect control reset startup steady)) es).client.reset_required
        ≡ false
      → let s = run (initial (new_client connect control reset startup steady)) es in
        IsUntouched s.client (step s (resets_on i w)).client
  unfolding step
  stale_resets_harmless connect control reset startup steady es i w ready =
      let s = run (initial (new_client connect control reset startup steady)) es in
      let v =
        run-Inv (initial (new_client connect control reset startup steady)) es
          (unfold new_client in record { sorted = tt; newer = tt; clear = inl refl }) in
      elim v.clear [
        | inl required ↦ ground arith
        | inr clear ↦ step_resets-IsUntouched w (is_locked s) i s.client s.resets ready clear
      ]

  try_step-started :
      (w : World A) (locked : Bool) (r : Reset) (phase : ResetPhase A) (c : Client)
      → (try_step w locked r phase c).0.requests_started ≡ c.requests_started
  unfolding try_step reset_step settle acknowledge_reset fail_reset publish_socket
  try_step-started w locked r phase c = ground arith

  step_resets-Blocked :
      (w : World A) (locked : Bool) (i : ℕ) (c : Client) (resets : List (Reset × ResetPhase A))
      → c.reset_required ≡ true
      → Blocked c (step_resets w locked i c resets).0
  unfolding step_resets
  step_resets-Blocked w locked i c [] required = ground arith
  step_resets-Blocked w locked zero c ((r, phase) ∷ resets) required =
      ground (arith, try_step-Flag w locked r phase c, try_step-started w locked r phase c)
  step_resets-Blocked w locked (suc i) c (reset ∷ resets) required =
      step_resets-Blocked w locked i c resets required

  step_resets-successes :
      (w : World A) (locked : Bool) (i : ℕ) (c : Client) (resets : List (Reset × ResetPhase A))
      → c.reset_successes ≤ (step_resets w locked i c resets).0.reset_successes
  unfolding step_resets
  step_resets-successes w locked i c [] = omega arith
  step_resets-successes w locked zero c ((r, phase) ∷ resets) =
      ground (arith, try_step-Flag w locked r phase c)
  step_resets-successes w locked (suc i) c (reset ∷ resets) =
      step_resets-successes w locked i c resets

  step-successes :
      (s : Threads A) (e : Event A) → s.client.reset_successes ≤ (step s e).client.reset_successes
  unfolding step cancel close begin_reset
  step-successes s (enters timeout) =
      ground (arith, enter_checked-flag timeout (enter_request timeout s.client) s)
  step-successes s (admits i id now) = ground (arith, admit_picked-flag id now (pick i s.entered) s)
  step-successes s (infers w) = ground (arith, infer_on-flag w s.request s.client)
  step-successes s (begins id now) = omega arith
  step-successes s (resets_on i w) = step_resets-successes w (is_locked s) i s.client s.resets
  step-successes s cancels = omega arith
  step-successes s closes = omega arith

  run-successes :
      (s : Threads A) (es : List (Event A))
      → s.client.reset_successes ≤ (run s es).client.reset_successes
  unfolding run
  run-successes s [] = omega arith
  run-successes s (e ∷ es) = omega (arith, step-successes s e, run-successes (step s e) es)

  step-Blocked :
      (s : Threads A) (e : Event A)
      → s.client.reset_required ≡ true
      → Blocked s.client (step s e).client
  unfolding step cancel close begin_reset
  step-Blocked s (enters timeout) required =
      ground (arith, enter_checked-flag timeout (enter_request timeout s.client) s)
  step-Blocked s (admits i id now) required =
      ground (arith, admit_picked-flag id now (pick i s.entered) s)
  step-Blocked s (infers w) required = ground (arith, infer_on-flag w s.request s.client)
  step-Blocked s (begins id now) required = ground arith
  step-Blocked s (resets_on i w) required =
      step_resets-Blocked w (is_locked s) i s.client s.resets required
  step-Blocked s cancels required = ground arith
  step-Blocked s closes required = ground arith

  -- From any state in which a reset is required, steps of the callers among which no reset succeeds
  -- admit no request, and a reset is still required after them.
  pub blocked_until_reset :
      (s : Threads A) (es : List (Event A))
      → s.client.reset_required ≡ true
      → (run s es).client.reset_successes ≡ s.client.reset_successes
      → ((run s es).client.reset_required ≡ true)
        × ((run s es).client.requests_started ≡ s.client.requests_started)
  unfolding run
  blocked_until_reset s [] required none_succeeds = (required, refl)
  blocked_until_reset s (e ∷ es) required none_succeeds =
      let later = run-successes (step s e) es in
      elim (step-Blocked s e required) [
        | inl blocked ↦
            let (still, started) = blocked_until_reset (step s e) es blocked.0 (omega arith) in
            (still, omega arith)
        | inr success ↦ ground arith
      ]
