-- ===== src/Runtime/Queue.antt =====
-- runtime.py: `ActionQueue`, the queue of final commands. A method that raises keeps what it wrote
-- before, so the state comes back beside the error.
pub mod Merging
pub mod Accounting
pub mod Examples
use action_stream.Prelude.{
  ℕ, ℤ, pos, suc, ◌+◌, ◌-◌, String, Bool, true, false, not, ◌&&◌, ◌||◌, Option, none, some, List,
  [], ◌∷◌, ◌++◌, length, drop, min, leb, ltb_ℤ, age, str_eq, if◌then◌else◌, Result, ok, err,
  is_some, is_empty,
}
use action_stream.Runtime.Requests.{InferenceResult, Commands}

pub data Mode : Type 0 where
  sync_hold async_naive async_aligned : Mode
  unsupported : String → Mode

pub data QueueError : Type 0 where
  not_reset unsupported_mode newer_than_step not_final zero_command not_ready zero_hold : QueueError

-- how the first new command differs from the last one; numpy computes it
pub record Displacement (R : Type 0) : Type 0 where
  pub position_l2 : R
  pub rotation_geodesic_radians : R
  pub gripper_switch : Bool

pub data Reason : Type 0 where
  old_episode fully_stale replaced : Reason

-- `stale_fraction` is dropped / incoming
pub record MergeOutcome (R : Type 0) : Type 0 where
  pub accepted : Bool
  pub reason : Reason
  pub age_steps : ℕ
  pub dropped_prefix_steps : ℕ
  pub queue_length : ℕ
  pub incoming_chunk_steps : ℕ
  pub replacement : Option (Displacement R)

pub record ActionQueue (C : Type 0) : Type 0 where
  pub queue : List C
  pub episode_id : Option String
  pub last_action : Option C
  pub hold_steps : ℕ
  pub stale_chunks_discarded : ℕ
  pub old_episode_chunks_rejected : ℕ
  pub replacements : ℕ
  pub accepted_chunks : ℕ
  pub rejected_chunks : ℕ
  pub stale_actions_discarded : ℕ
  pub incoming_actions : ℕ
  pub stale_prefix_lengths : List ℕ

module _ {C : Type 0} where
  -- `__init__`
  pub new_queue : ActionQueue C
  new_queue = record {
    queue = [];
    episode_id = none;
    last_action = none;
    hold_steps = 0;
    stale_chunks_discarded = 0;
    old_episode_chunks_rejected = 0;
    replacements = 0;
    accepted_chunks = 0;
    rejected_chunks = 0;
    stale_actions_discarded = 0;
    incoming_actions = 0;
    stale_prefix_lengths = [];
  }

  -- `reset_episode`
  pub reset_episode : String → ActionQueue C → ActionQueue C
  unfolding new_queue
  reset_episode id q = record new_queue { episode_id = some id }

  -- the properties `queue_length` and `has_safe_action`
  pub queue_length : ActionQueue C → ℕ
  queue_length q = length q.queue

  pub has_safe_action : ActionQueue C → Bool
  has_safe_action q = not (is_empty q.queue) || is_some q.last_action

-- how many commands of the prefix have expired
abbrev drop_count : Mode → ℕ → ℕ
drop_count async_aligned steps = steps
drop_count mode steps = 0

abbrev is_unsupported : Mode → Bool
is_unsupported (unsupported name) = true
is_unsupported mode = false

module _ {C R : Type 0} (commands : Commands C) (displacement : C → C → Displacement R) where
  refuse_old_episode :
      InferenceResult C → ℤ → ActionQueue C → ActionQueue C × Result QueueError (MergeOutcome R)
  refuse_old_episode r step q = (
    record q {
      old_episode_chunks_rejected = suc q.old_episode_chunks_rejected;
      rejected_chunks = suc q.rejected_chunks;
    },
    ok (record {
      accepted = false;
      reason = old_episode;
      age_steps = age step r.observation_control_step;
      dropped_prefix_steps = 0;
      queue_length = length q.queue;
      incoming_chunk_steps = length r.actions;
      replacement = none;
    }),
  )

  -- the counters that every chunk of the episode adds to
  count_incoming : ℕ → ℕ → ActionQueue C → ActionQueue C
  count_incoming incoming dropped q = record q {
    incoming_actions = q.incoming_actions + incoming;
    stale_prefix_lengths = q.stale_prefix_lengths ++ dropped ∷ [];
    stale_actions_discarded = q.stale_actions_discarded + dropped;
  }

  refuse_stale :
      InferenceResult C → ℕ → ℕ → ActionQueue C → ActionQueue C × Result QueueError (MergeOutcome R)
  refuse_stale r steps dropped q = (
    record q {
      stale_chunks_discarded = suc q.stale_chunks_discarded;
      rejected_chunks = suc q.rejected_chunks;
    },
    ok (record {
      accepted = false;
      reason = fully_stale;
      age_steps = steps;
      dropped_prefix_steps = dropped;
      queue_length = length q.queue;
      incoming_chunk_steps = length r.actions;
      replacement = none;
    }),
  )

  -- the loop over the replacement: the first bad command raises
  pub check_commands : List C → Option QueueError
  check_commands [] = none
  check_commands (c ∷ cs) =
      let rest = check_commands cs in
      if not (commands.has_seven c && commands.is_finite c)
      then some not_final
      else if commands.is_zero c
      then some zero_command
      else rest

  displacement_of : Option C → List C → Option (Displacement R)
  displacement_of (some last) (c ∷ cs) = some (displacement last c)
  displacement_of last cs = none

  accept :
      InferenceResult C
      → ℕ
      → ℕ
      → List C
      → ActionQueue C
      → ActionQueue C × Result QueueError (MergeOutcome R)
  unfolding displacement_of
  accept r steps dropped replacement q = (
    record q {
      queue = replacement;
      replacements = suc q.replacements;
      accepted_chunks = suc q.accepted_chunks;
    },
    ok (record {
      accepted = true;
      reason = replaced;
      age_steps = steps;
      dropped_prefix_steps = dropped;
      queue_length = length replacement;
      incoming_chunk_steps = length r.actions;
      replacement = displacement_of q.last_action replacement;
    }),
  )

  accept_checked :
      InferenceResult C
      → ℕ
      → ℕ
      → List C
      → ActionQueue C
      → ActionQueue C × Result QueueError (MergeOutcome R)
  unfolding accept
  accept_checked r steps dropped replacement q = elim (check_commands replacement) [
    | some error ↦ (q, err error)
    | none ↦ accept r steps dropped replacement q
  ]

  -- a chunk of the queue's episode that is not newer than the current step
  merge_current :
      InferenceResult C
      → ℕ
      → Mode
      → ActionQueue C
      → ActionQueue C × Result QueueError (MergeOutcome R)
  unfolding count_incoming refuse_stale accept_checked
  merge_current r steps mode q =
      let n = drop_count mode steps in
      let dropped = min n (length r.actions) in
      let q' = count_incoming (length r.actions) dropped q in
      if leb (length r.actions) n
      then refuse_stale r steps dropped q'
      else accept_checked r steps dropped (drop n r.actions) q'

  merge_into :
      InferenceResult C
      → ℤ
      → Mode
      → Option String
      → ActionQueue C
      → ActionQueue C × Result QueueError (MergeOutcome R)
  unfolding refuse_old_episode merge_current
  merge_into r step mode none q = (q, err not_reset)
  merge_into r step mode (some id) q =
      if is_unsupported mode
      then (q, err unsupported_mode)
      else if not (str_eq r.episode_id id)
      then refuse_old_episode r step q
      else if ltb_ℤ step r.observation_control_step
      then (q, err newer_than_step)
      else merge_current r (age step r.observation_control_step) mode q

  -- `replace`
  pub replace :
      InferenceResult C
      → ℤ
      → Mode
      → ActionQueue C
      → ActionQueue C × Result QueueError (MergeOutcome R)
  unfolding merge_into
  replace r step mode q = merge_into r step mode q.episode_id q

module _ {C : Type 0} (commands : Commands C) where
  hold_last : Option C → ActionQueue C → ActionQueue C × Result QueueError (C × Bool)
  hold_last none q = (q, err not_ready)
  hold_last (some last) q =
      if commands.is_zero last
      then (q, err zero_hold)
      else (record q { hold_steps = suc q.hold_steps }, ok (last, true))

  pop_or_hold : List C → ActionQueue C → ActionQueue C × Result QueueError (C × Bool)
  unfolding hold_last
  pop_or_hold [] q = hold_last q.last_action q
  pop_or_hold (c ∷ cs) q = (record q { queue = cs; last_action = some c }, ok (c, false))

  -- `next_action`: the command, and whether it is a repeat
  pub next_action : ActionQueue C → ActionQueue C × Result QueueError (C × Bool)
  unfolding pop_or_hold
  next_action q = pop_or_hold q.queue q
