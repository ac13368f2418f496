-- ===== src/Runtime/Queue/Merging.antt =====
-- What `replace` does to the queue, on every branch.
use action_stream.Prelude.{
  ℕ, ℤ, suc, ◌+◌, ◌<◌, ◌≡◌, refl, ◌≤ℤ◌, true, false, none, some, List, [], ◌∷◌, length, drop,
  get_elem?, get_elem?-drop, age, eq_iff, Result, ok, err, arith, All,
}
use action_stream.Runtime.Requests.{InferenceResult, Commands}
use action_stream.Runtime.Queue.{
  Mode, QueueError, Displacement, MergeOutcome, ActionQueue, replace, drop_count, check_commands,
  is_unsupported,
}

module _ {C R : Type 0} (commands : Commands C) (displacement : C → C → Displacement R) where
  -- a command that may be executed
  pub record IsSafe (c : C) : Type 0 where
    pub seven : commands.has_seven c ≡ true
    pub finite : commands.is_finite c ≡ true
    pub moving : commands.is_zero c ≡ false

  -- `check_commands` finds nothing exactly when all commands are safe
  pub check_commands_iff :
      (cs : List C)
      → (check_commands commands displacement cs ≡ none → All IsSafe cs)
        × (All IsSafe cs → check_commands commands displacement cs ≡ none)
  unfolding check_commands
  check_commands_iff [] = (λ h. tt, λ h. refl)
  check_commands_iff (c ∷ cs) =
      (λ h. ground (arith, check_commands_iff cs), λ h. ground (arith, check_commands_iff cs))

  abbrev pub IsAccepted : Result QueueError (MergeOutcome R) → Type 0
  IsAccepted (ok outcome) = outcome.accepted ≡ true
  IsAccepted (err error) = ⊥

  -- how many commands of a chunk have expired at the step
  abbrev pub expired : Mode → ℤ → InferenceResult C → ℕ
  expired mode step r = drop_count mode (age step r.observation_control_step)

  -- the request that a chunk answers is of the queue's episode, and not newer than the step
  pub record Fits (r : InferenceResult C) (step : ℤ) (mode : Mode) (q : ActionQueue C)
      : Type 0 where
    pub episode : q.episode_id ≡ some r.episode_id
    pub supported : is_unsupported mode ≡ false
    pub observed : r.observation_control_step ≤ℤ step

  replace-Fits-queue :
      (r : InferenceResult C) (step : ℤ) (mode : Mode) (q : ActionQueue C)
      → Fits r step mode q
      → expired mode step r < length r.actions
      → All IsSafe (drop (expired mode step r) r.actions)
      → let (q', result) = replace commands displacement r step mode q in
        (q'.queue ≡ drop (expired mode step r) r.actions)
        × (q'.last_action ≡ q.last_action)
        × (q'.accepted_chunks ≡ suc q.accepted_chunks)
        × IsAccepted result
  unfolding replace
  replace-Fits-queue r step mode q fits late safe = ground (
    arith,
    eq_iff r.episode_id r.episode_id,
    check_commands_iff (drop (expired mode step r) r.actions),
  )

  -- A chunk that fits, is not wholly expired and has only safe commands left replaces the queue: place
  -- i holds its command n + i, where n is its age in aligned mode and 0 otherwise. The last command
  -- stays, and the chunk is reported as accepted.
  pub replace-Fits :
      (r : InferenceResult C) (step : ℤ) (mode : Mode) (q : ActionQueue C)
      → Fits r step mode q
      → expired mode step r < length r.actions
      → All IsSafe (drop (expired mode step r) r.actions)
      → let (q', result) = replace commands displacement r step mode q in
        ((i : ℕ) → get_elem? q'.queue i ≡ get_elem? r.actions (expired mode step r + i))
        × (q'.last_action ≡ q.last_action)
        × (q'.accepted_chunks ≡ suc q.accepted_chunks)
        × IsAccepted result
  replace-Fits r step mode q fits late safe =
      let (queue, last, count, accepted) = replace-Fits-queue r step mode q fits late safe in
      (λ i. rw queue (get_elem?-drop (expired mode step r) r.actions i), last, count, accepted)

  -- Unless a chunk is accepted, an error included, the queue, the last command, the episode and
  -- the count of accepted chunks stay.
  replace_refused :
      (r : InferenceResult C) (step : ℤ) (mode : Mode) (q : ActionQueue C)
      → ¬ IsAccepted (replace commands displacement r step mode q).1
      → let q' = (replace commands displacement r step mode q).0 in
        (q'.queue ≡ q.queue)
        × (q'.last_action ≡ q.last_action)
        × (q'.accepted_chunks ≡ q.accepted_chunks)
        × (q'.episode_id ≡ q.episode_id)
  unfolding replace
  replace_refused r step mode q refused = ground arith
