-- ===== src/Rpc/Client/Threads/Order.antt =====
-- rpc_client.py: the calls of `reset` in the order of their generations, and what a step of one does
-- to the others.
use action_stream.Prelude.{
  ℕ, zero, suc, ◌≤◌, ◌<◌, ◌≡◌, ◌⊎◌, inl, inr, Bool, true, false, List, [], ◌∷◌, All, All-weaken,
  arith,
}
use action_stream.Rpc.Client.{Client, publish_socket, acknowledge_reset, fail_reset}
use action_stream.Rpc.Client.Requests.{World}
use action_stream.Rpc.Client.Resets.{Reset, ResetPhase, reset_step, settle}
use action_stream.Rpc.Client.Threads.{try_step, step_resets}
use action_stream.Rpc.Client.Threads.Steps.{is_done, Flag}

abbrev pub IsSameFlag : Client → Client → Type 0
IsSameFlag c c' =
    (c'.reset_required ≡ c.reset_required)
    × (c'.generation ≡ c.generation)
    × (c'.reset_successes ≡ c.reset_successes)

-- what a step of an old reset cannot change
abbrev pub IsUntouched : Client → Client → Type 0
IsUntouched c c' =
    (c'.reset_required ≡ false)
    × (c'.generation ≡ c.generation)
    × (c'.socket ≡ c.socket)
    × (c'.reset_successes ≡ c.reset_successes)

-- while a reset is required no request is admitted, until a reset succeeds
abbrev pub Blocked : Client → Client → Type 0
Blocked c c' =
    ((c'.reset_required ≡ true)
      × (c'.requests_started ≡ c.requests_started)
      × (c'.reset_successes ≡ c.reset_successes))
    ⊎ (c.reset_successes < c'.reset_successes)

module _ {A : Type 0} where
  abbrev pub IsOlder : ℕ → List (Reset × ResetPhase A) → Type 0
  IsOlder n = All (λ (x : Reset × ResetPhase A). x.0.generation < n)

  abbrev pub IsNewer : List (Reset × ResetPhase A) → ℕ → Type 0
  IsNewer resets n = All (λ (x : Reset × ResetPhase A). x.0.generation ≤ n) resets

  -- the calls of `reset` are from the latest to the first
  abbrev pub IsDescending : List (Reset × ResetPhase A) → Type 0
  IsDescending [] = Unit {0}
  IsDescending (x ∷ xs) = IsOlder x.0.generation xs × IsDescending xs

  -- the reset is over, or its generation is not the current one
  abbrev pub IsClear : ℕ → Reset × ResetPhase A → Type 0
  IsClear n (r, phase) = (is_done phase ≡ true) ⊎ (r.generation < n)

  abbrev pub Clear : Client → List (Reset × ResetPhase A) → Type 0
  Clear c resets = (c.reset_required ≡ true) ⊎ All (IsClear c.generation) resets

  pub try_step-Flag :
      (w : World A) (locked : Bool) (r : Reset) (phase : ResetPhase A) (c : Client)
      → Flag r (try_step w locked r phase c).1 c (try_step w locked r phase c).0
  unfolding try_step reset_step settle acknowledge_reset fail_reset publish_socket
  try_step-Flag w locked r phase c = ground arith

  pub try_step-generation :
      (w : World A) (locked : Bool) (r : Reset) (phase : ResetPhase A) (c : Client)
      → c.generation ≤ (try_step w locked r phase c).0.generation
  unfolding try_step reset_step settle acknowledge_reset fail_reset publish_socket
  try_step-generation w locked r phase c = ground arith

  pub try_step-done :
      (w : World A) (locked : Bool) (r : Reset) (phase : ResetPhase A) (c : Client)
      → is_done phase ≡ true
      → is_done (try_step w locked r phase c).1 ≡ true
  unfolding try_step reset_step
  try_step-done w locked r phase c h = ground arith

  pub step_resets-generation :
      (w : World A) (locked : Bool) (i : ℕ) (c : Client) (resets : List (Reset × ResetPhase A))
      → c.generation ≤ (step_resets w locked i c resets).0.generation
  unfolding step_resets
  step_resets-generation w locked i c [] = omega arith
  step_resets-generation w locked zero c ((r, phase) ∷ resets) =
      try_step-generation w locked r phase c
  step_resets-generation w locked (suc i) c (reset ∷ resets) =
      step_resets-generation w locked i c resets

  pub step_resets-IsOlder :
      (n : ℕ) (w : World A) (locked : Bool) (i : ℕ) (c : Client)
      (resets : List (Reset × ResetPhase A))
      → IsOlder n resets
      → IsOlder n (step_resets w locked i c resets).1
  unfolding step_resets
  step_resets-IsOlder n w locked i c [] older = tt
  step_resets-IsOlder n w locked zero c ((r, phase) ∷ resets) older = older
  step_resets-IsOlder n w locked (suc i) c (reset ∷ resets) older =
      (older.0, step_resets-IsOlder n w locked i c resets older.1)

  pub step_resets-IsDescending :
      (w : World A) (locked : Bool) (i : ℕ) (c : Client) (resets : List (Reset × ResetPhase A))
      → IsDescending resets
      → IsDescending (step_resets w locked i c resets).1
  unfolding step_resets
  step_resets-IsDescending w locked i c [] sorted = tt
  step_resets-IsDescending w locked zero c ((r, phase) ∷ resets) sorted = sorted
  step_resets-IsDescending w locked (suc i) c (reset ∷ resets) sorted = (
    step_resets-IsOlder reset.0.generation w locked i c resets sorted.0,
    step_resets-IsDescending w locked i c resets sorted.1,
  )

  -- a step that clears the flag is of a reset of the current generation
  pub step_resets-acknowledged :
      (n : ℕ) (w : World A) (locked : Bool) (i : ℕ) (c : Client)
      (resets : List (Reset × ResetPhase A))
      → IsOlder n resets
      → c.reset_required ≡ true
      → ((step_resets w locked i c resets).0.reset_required ≡ true) ⊎ (c.generation < n)
  unfolding step_resets
  step_resets-acknowledged n w locked i c [] older required = inl required
  step_resets-acknowledged n w locked zero c ((r, phase) ∷ resets) older required =
      ground (arith, try_step-Flag w locked r phase c, older.0)
  step_resets-acknowledged n w locked (suc i) c (reset ∷ resets) older required =
      step_resets-acknowledged n w locked i c resets older.1 required

  pub IsClear-later :
      (m n : ℕ)
      → m ≤ n
      → (resets : List (Reset × ResetPhase A)) → All (IsClear m) resets
      → All (IsClear n) resets
  IsClear-later m n h resets clear = All-weaken (λ x c. ground arith) resets clear

  pub IsOlder-IsClear :
      (n : ℕ) (resets : List (Reset × ResetPhase A)) → IsOlder n resets → All (IsClear n) resets
  IsOlder-IsClear n resets older = All-weaken (λ x h. inr h) resets older

  pub try_step-Clear :
      (w : World A) (locked : Bool) (r : Reset) (phase : ResetPhase A) (c : Client)
      (resets : List (Reset × ResetPhase A))
      → IsOlder r.generation resets
      → Clear c ((r, phase) ∷ resets)
      → Clear (try_step w locked r phase c).0 ((r, (try_step w locked r phase c).1) ∷ resets)
  try_step-Clear w locked r phase c resets older clear =
      let later = try_step-generation w locked r phase c in
      let ends = try_step-done w locked r phase c in
      let c' = (try_step w locked r phase c).0 in
      let head : IsClear c.generation (r, phase)
          → IsClear c'.generation (r, (try_step w locked r phase c).1) =
        (λ x. elim x [ inl over ↦ inl (ends over) | inr old ↦ inr (omega arith) ]) in
      elim (try_step-Flag w locked r phase c) [
        | inl same ↦ elim clear [
          | inl required ↦ inl (ground arith)
          | inr each ↦
              inr (head each.0, IsClear-later c.generation c'.generation later resets each.1)
        ]
        | inr (inl set) ↦ inl set.0
        | inr (inr acknowledged) ↦
            inr (inl (ground arith), All-weaken (λ x h. ground arith) resets older)
      ]

  pub step_resets-Clear :
      (w : World A) (locked : Bool) (i : ℕ) (c : Client) (resets : List (Reset × ResetPhase A))
      → IsDescending resets
      → IsNewer resets c.generation
      → Clear c resets
      → Clear (step_resets w locked i c resets).0 (step_resets w locked i c resets).1
  unfolding step_resets
  step_resets-Clear w locked i c [] sorted newer clear = clear
  step_resets-Clear w locked zero c ((r, phase) ∷ resets) sorted newer clear =
      try_step-Clear w locked r phase c resets sorted.0 clear
  step_resets-Clear w locked (suc i) c (reset ∷ resets) sorted newer (inl required) =
      elim (step_resets-acknowledged reset.0.generation w locked i c resets sorted.0 required) [
        | inl still ↦ inl still
        | inr late ↦ ground (arith, newer.0)
      ]
  step_resets-Clear w locked (suc i) c (reset ∷ resets) sorted newer (inr clear) =
      let later = step_resets-generation w locked i c resets in
      elim (step_resets-Clear w locked i c resets sorted.1 newer.1 (inr clear.1)) [
        | inl required ↦ inl required
        | inr rest ↦ inr ((IsClear-later c.generation _ later (reset ∷ []) (clear.0, tt)).0, rest)
      ]
