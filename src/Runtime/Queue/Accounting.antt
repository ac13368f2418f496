-- ===== src/Runtime/Queue/Accounting.antt =====
-- Runs of the queue: its counters, and the commands that it hands out.
use action_stream.Prelude.{
  ℕ, ℤ, ◌+◌, ◌≤◌, ◌≡◌, refl, subst, sym, ◌⊎◌, inl, inr, String, Bool, false, Option, none, some,
  List, [], ◌∷◌, ◌++◌, length, drop, min, age, OptionAll, ok, arith, All,
}
use action_stream.Runtime.Requests.{InferenceResult, Commands}
use action_stream.Runtime.Queue.{
  Mode, Displacement, ActionQueue, new_queue, reset_episode, replace, next_action, check_commands,
  drop_count,
}
use action_stream.Runtime.Queue.Merging.{IsSafe, check_commands_iff}

abbrev sum : List ℕ → ℕ
sum [] = 0
sum (n ∷ ns) = n + sum ns

sum-append : (xs ys : List ℕ) → sum (xs ++ ys) ≡ sum xs + sum ys
sum-append [] ys = omega arith
sum-append (x ∷ xs) ys = omega (arith, sum-append xs ys)

-- The counters agree with one another.
pub record Accounts {C : Type 0} (q : ActionQueue C) : Type 0 where
  pub prefixes : q.stale_actions_discarded ≡ sum q.stale_prefix_lengths
  pub bounded : q.stale_actions_discarded ≤ q.incoming_actions
  pub refused : q.rejected_chunks ≡ q.stale_chunks_discarded + q.old_episode_chunks_rejected
  pub replaced : q.accepted_chunks ≡ q.replacements

-- the calls that a control loop makes
pub data Call (C : Type 0) : Type 0 where
  resets : String → Call C
  replaces : InferenceResult C → ℤ → Mode → Call C
  nexts : Call C

module _ {C R : Type 0} (commands : Commands C) (displacement : C → C → Displacement R) where
  unfoldable pub step : ActionQueue C → Call C → ActionQueue C
  step q (resets id) = reset_episode id q
  step q (replaces r now mode) = (replace commands displacement r now mode q).0
  step q nexts = (next_action commands q).0

  unfoldable pub run : ActionQueue C → List (Call C) → ActionQueue C
  run q [] = q
  run q (c ∷ cs) = run (step q c) cs

  step-Accounts : (q : ActionQueue C) (c : Call C) → Accounts q → Accounts (step q c)
  unfolding step reset_episode replace next_action
  step-Accounts q (resets id) v = ground arith
  step-Accounts q (replaces r now mode) v = ground (
    arith,
    sum-append q.stale_prefix_lengths
        (min (drop_count mode (age now r.observation_control_step)) (length r.actions) ∷ []),
  )
  step-Accounts q nexts v = ground arith

  run-Accounts : (q : ActionQueue C) (cs : List (Call C)) → Accounts q → Accounts (run q cs)
  unfolding run
  run-Accounts q [] v = v
  run-Accounts q (c ∷ cs) v = run-Accounts (step q c) cs (step-Accounts q c v)

  -- After any calls on a new queue, failing ones included, the discarded commands are the sum of the
  -- recorded prefixes and no more than came in, every refused chunk was stale or of an old episode, and
  -- every accepted chunk replaced the queue.
  pub counters_agree : (cs : List (Call C)) → Accounts (run new_queue cs)
  counters_agree cs = run-Accounts new_queue cs (
      unfold new_queue in
      record { prefixes = refl; bounded = omega arith; refused = refl; replaced = refl })

  -- what the queue and the hold may hand out is safe
  pub record AllSafe (q : ActionQueue C) : Type 0 where
    pub queued : All (IsSafe commands displacement) q.queue
    pub last : OptionAll (IsSafe commands displacement) q.last_action

  replace-queue :
      (q : ActionQueue C) (r : InferenceResult C) (now : ℤ) (mode : Mode)
      → ((replace commands displacement r now mode q).0.last_action ≡ q.last_action)
        × (((replace commands displacement r now mode q).0.queue ≡ q.queue)
            ⊎ (let n = drop_count mode (age now r.observation_control_step) in
                (check_commands commands displacement (drop n r.actions) ≡ none)
                × ((replace commands displacement r now mode q).0.queue ≡ drop n r.actions)))
  unfolding replace
  replace-queue q r now mode = ground arith

  lists-AllSafe :
      (q : ActionQueue C) (queue : List C) (last : Option C)
      → q.queue ≡ queue
      → q.last_action ≡ last
      → All (IsSafe commands displacement) queue
      → OptionAll (IsSafe commands displacement) last
      → AllSafe q
  lists-AllSafe q queue last p l all kept = record {
    queued = subst (All (IsSafe commands displacement)) (sym p) all;
    last = subst (OptionAll (IsSafe commands displacement)) (sym l) kept;
  }

  next_action-empty :
      (q : ActionQueue C)
      → q.queue ≡ []
      → ((next_action commands q).0.queue ≡ [])
        × ((next_action commands q).0.last_action ≡ q.last_action)
        × ((c : C) (held : Bool)
            → (next_action commands q).1 ≡ ok (c, held)
            → q.last_action ≡ some c)
  unfolding next_action
  next_action-empty q p = (ground arith, ground arith, λ c held h. ground arith)

  next_action-queued :
      (q : ActionQueue C) (c : C) (cs : List C)
      → q.queue ≡ c ∷ cs
      → ((next_action commands q).0.queue ≡ cs)
        × ((next_action commands q).0.last_action ≡ some c)
        × ((next_action commands q).1 ≡ ok (c, false))
  unfolding next_action
  next_action-queued q c cs p = ground arith

  next_action-AllSafe : (q : ActionQueue C) → AllSafe q → AllSafe (next_action commands q).0
  next_action-AllSafe q v = go q.queue refl v.queued
    where
      go :
          (queue : List C)
          → q.queue ≡ queue
          → All (IsSafe commands displacement) queue
          → AllSafe (next_action commands q).0
      go [] p all =
          let (empty, last, _) = next_action-empty q p in
          lists-AllSafe _ [] q.last_action empty last tt v.last
      go (c ∷ cs) p all =
          let (rest, last, _) = next_action-queued q c cs p in
          lists-AllSafe _ cs (some c) rest last all.1 all.0

  replace-AllSafe :
      (q : ActionQueue C) (r : InferenceResult C) (now : ℤ) (mode : Mode)
      → AllSafe q
      → AllSafe (replace commands displacement r now mode q).0
  replace-AllSafe q r now mode v =
      let (last, queue) = replace-queue q r now mode in
      elim queue [
        | inl same ↦ lists-AllSafe _ q.queue q.last_action same last v.queued v.last
        | inr (checked, new) ↦
            lists-AllSafe _ _ q.last_action new last
              ((check_commands_iff commands displacement _).0 checked) v.last
      ]

  step-AllSafe : (q : ActionQueue C) (c : Call C) → AllSafe q → AllSafe (step q c)
  unfolding step reset_episode new_queue
  step-AllSafe q (resets id) v = record { queued = tt; last = tt }
  step-AllSafe q (replaces r now mode) v = replace-AllSafe q r now mode v
  step-AllSafe q nexts v = next_action-AllSafe q v

  run-AllSafe : (q : ActionQueue C) (cs : List (Call C)) → AllSafe q → AllSafe (run q cs)
  unfolding run
  run-AllSafe q [] v = v
  run-AllSafe q (c ∷ cs) v = run-AllSafe (step q c) cs (step-AllSafe q c v)

  -- After any calls on a new queue, the command that `next_action` returns has seven finite entries and
  -- is not all zero, whether it is new or held.
  pub next_action-IsSafe :
      (cs : List (Call C)) (c : C) (held : Bool)
      → (next_action commands (run new_queue cs)).1 ≡ ok (c, held)
      → IsSafe commands displacement c
  next_action-IsSafe cs c held h =
      let q = run new_queue cs in
      let v = run-AllSafe new_queue cs (unfold new_queue in record { queued = tt; last = tt }) in
      go q v q.queue refl v.queued h
    where
      go :
          (q : ActionQueue C)
          → AllSafe q
          → (queue : List C) → q.queue ≡ queue
          → All (IsSafe commands displacement) queue
          → (next_action commands q).1 ≡ ok (c, held)
          → IsSafe commands displacement c
      go q v [] p all h =
          let (_, _, from) = next_action-empty q p in
          subst (OptionAll (IsSafe commands displacement)) (from c held h) v.last
      go q v (d ∷ ds) p all h =
          let (_, _, result) = next_action-queued q d ds p in
          let same : d ≡ c = cc (result, h) in subst (IsSafe commands displacement) same all.0
