-- ===== src/Engine/Queue.antt =====
-- action_queue.py: validation of a chunk, the action that a control step gets, and the merge of a
-- chunk into the queue.
pub mod Chunk
pub mod Merging
pub mod Holding
pub mod Refines
pub mod Receipts
pub mod Examples
use action_stream.Prelude.{
  ℤ, pos, suc, ◌+◌, String, Bool, true, false, not, ◌&&◌, ◌||◌, Option, none, some, List, [], ◌∷◌,
  map, min, length, drop, is_empty, all, ltb, leb, leb_ℤ, ltb_ℤ, age, ◌==◌, str_eq, if◌then◌else◌,
  Result, ok, err,
}
use action_stream.Engine.Types.{Identity, QueuedAction, ActionStreamAction, Metrics}
use action_stream.Engine.State.{
  Engine, TaskMethods, ready, epoch_is_current, note_rejected_epoch, emit,
}

-- what `predict_action_chunk` may return: a tensor by its rows, or something else
pub data RawChunk (E : Type 0) : Type 0 where
  matrix : List (List E) → RawChunk E  -- two dimensions
  batch : List (List (List E)) → RawChunk E  -- three dimensions
  other_shape : RawChunk E
  not_a_tensor : RawChunk E

pub data ChunkError : Type 0 where
  not_tensor batch_size empty_chunk non_finite : ChunkError

module _ {E : Type 0} (is_finite : E → Bool) where
  -- `shape[0] == 0 or shape[1] == 0`
  abbrev has_no_entry : List (List E) → Bool
  has_no_entry [] = true
  has_no_entry (row ∷ rows) = is_empty row

  check_rows : List (List E) → Result ChunkError (List (List E))
  check_rows rows =
      if has_no_entry rows
      then err empty_chunk
      else if all (all is_finite) rows
      then ok rows
      else err non_finite

  -- `validate_chunk`
  pub validate_chunk : RawChunk E → Result ChunkError (List (List E))
  unfolding check_rows
  validate_chunk (matrix rows) = check_rows rows
  validate_chunk (batch []) = err batch_size
  validate_chunk (batch (rows ∷ [])) = check_rows rows
  validate_chunk (batch (rows ∷ more ∷ rest)) = err batch_size
  validate_chunk other_shape = err empty_chunk
  validate_chunk not_a_tensor = err not_tensor

pub data MergeStatus : Type 0 where
  delivered rejected_reset rejected_out_of_order : MergeStatus

abbrev is_delivered : MergeStatus → Bool
is_delivered delivered = true
is_delivered status = false

-- the receipt that the caller gets with its copy of an action
pub packet_of : {A : Type 0} → String → QueuedAction A → ActionStreamAction A
packet_of engine_id queued = record {
  action = queued.tensor;
  engine_id = engine_id;
  identity = queued.identity;
  task = queued.task;
}

unfoldable pub queued_of : {A : Type 0} → Identity → String → A → QueuedAction A
queued_of identity task action = record { tensor = action; identity = identity; task = task }

module _ {A O H : Type 0} where
  -- the common end of a pull that has an action
  dispatch :
      TaskMethods H → QueuedAction A → Engine A O H → Engine A O H × Option (ActionStreamAction A)
  unfolding packet_of
  dispatch methods queued e = (
    record e { task_slot = methods.set_dispatched_task queued.task e.task_slot },
    some (packet_of e.engine_id queued),
  )

  pull_queued :
      TaskMethods H
      → QueuedAction A
      → List (QueuedAction A)
      → Engine A O H
      → Engine A O H × Option (ActionStreamAction A)
  unfolding dispatch
  pull_queued methods queued rest e = dispatch methods queued (record e {
    queue = rest;
    last_action = some queued;
    hold_steps_used = 0;
    starved_pulls = 0;
    metrics = record e.metrics { actions_dequeued = suc e.metrics.actions_dequeued };
  })

  hold :
      TaskMethods H → QueuedAction A → Engine A O H → Engine A O H × Option (ActionStreamAction A)
  unfolding dispatch
  hold methods last e = dispatch methods last (record e {
    hold_steps_used = suc e.hold_steps_used;
    metrics = record e.metrics { hold_actions = suc e.metrics.hold_actions };
  })

  starve : Engine A O H → Engine A O H × Option (ActionStreamAction A)
  starve e = (
    record e {
      starved_pulls = suc e.starved_pulls;
      metrics = record e.metrics { hold_exhausted = suc e.metrics.hold_exhausted };
    },
    none,
  )

  hold_or_starve :
      TaskMethods H
      → Option (QueuedAction A)
      → Engine A O H
      → Engine A O H × Option (ActionStreamAction A)
  unfolding hold starve
  hold_or_starve methods none e = starve e
  hold_or_starve methods (some last) e =
      if ltb_ℤ (pos e.hold_steps_used) e.config.bounded_hold_steps
      then hold methods last e
      else starve e

  pull :
      TaskMethods H
      → List (QueuedAction A)
      → Engine A O H
      → Engine A O H × Option (ActionStreamAction A)
  unfolding pull_queued hold_or_starve
  pull methods [] e = hold_or_starve methods e.last_action e
  pull methods (queued ∷ rest) e = pull_queued methods queued rest e

  -- `get_action_with_revision`, under the engine's locks
  unfoldable pub get_action :
      TaskMethods H → Engine A O H → Engine A O H × Option (ActionStreamAction A)
  unfolding pull
  get_action methods e =
      if not e.started || not (epoch_is_current e e.epoch)
      then (e, none)
      else pull methods e.queue e

  -- the whole of `get_action_with_revision`: the event is written after the locks are released
  pub get_action_with_revision :
      TaskMethods H → Bool → Engine A O H → Engine A O H × Option (ActionStreamAction A)
  unfolding get_action emit
  get_action_with_revision methods write_fails e =
      let (e', packet) = get_action methods e in
      if ready e then (emit write_fails e.epoch e', packet) else (e', packet)

  -- `is_action_current`
  pub is_action_current : Engine A O H → ActionStreamAction A → Bool
  is_action_current e action =
      e.started
      && str_eq action.engine_id e.engine_id
      && epoch_is_current e action.identity.epoch
      && action.identity.task_revision == e.task_revision

  -- the queue is replaced, never extended
  install : List A → Identity → String → Metrics → Engine A O H → Engine A O H
  install replacement identity task metrics e = record e {
    queue = map (queued_of identity task) replacement;
    hold_steps_used = 0;
    starved_pulls = 0;
    metrics = record metrics { chunks_accepted = suc metrics.chunks_accepted };
  }

  -- the control loop has used up its queue and its holds, or is starving
  abbrev pub is_starving : Engine A O H → Bool
  is_starving e = ltb 0 e.starved_pulls || leb_ℤ e.config.bounded_hold_steps (pos e.hold_steps_used)

  -- the merge of a current chunk: its expired prefix is dropped
  align_chunk : List A → Identity → String → Engine A O H → Engine A O H
  unfolding install
  align_chunk actions identity task e =
      let dropped = min (age e.current_step identity.source_step) (length actions) in
      let fully_stale = leb (length actions) dropped in
      let allow_fallback =
        fully_stale && e.config.latest_only_fallback && is_empty e.queue && is_starving e in
      if fully_stale && not allow_fallback
      then record e {
        metrics = record e.metrics {
          chunks_rejected_stale = suc e.metrics.chunks_rejected_stale;
          stale_actions_discarded = e.metrics.stale_actions_discarded + dropped;
        };
      }
      else if allow_fallback
      then install actions identity task
          (record e.metrics {
            fallback_activations = suc e.metrics.fallback_activations;
            fallback_chunks_accepted = suc e.metrics.fallback_chunks_accepted;
          })
          e
      else install (drop dropped actions) identity task
          (record e.metrics {
            stale_actions_discarded = e.metrics.stale_actions_discarded + dropped;
          })
          e

  -- a scheduled response older than one that was delivered
  reject_out_of_order : List A → Engine A O H → Engine A O H
  reject_out_of_order actions e = record e {
    metrics = record e.metrics {
      responses_rejected_out_of_order = suc e.metrics.responses_rejected_out_of_order;
      chunks_rejected_stale = suc e.metrics.chunks_rejected_stale;
      stale_actions_discarded = e.metrics.stale_actions_discarded + length actions;
    };
  }

  mark_delivered : ℤ → Engine A O H → Engine A O H
  mark_delivered source_step e = record e {
    latest_delivered_source_step = source_step;
    metrics = record e.metrics { responses_delivered = suc e.metrics.responses_delivered };
  }

  -- `merge_chunk`, under the engine's locks; the result has the current step too
  unfoldable pub merge_chunk :
      List A → Identity → String → Bool → Engine A O H → Engine A O H × MergeStatus × ℤ
  unfolding align_chunk reject_out_of_order mark_delivered note_rejected_epoch
  merge_chunk actions identity task scheduled e =
      if not (epoch_is_current e identity.epoch)
      then (note_rejected_epoch identity.epoch e, rejected_reset, e.current_step)
      else if scheduled && leb_ℤ identity.source_step e.latest_delivered_source_step
      then (reject_out_of_order actions e, rejected_out_of_order, e.current_step)
      else (
        align_chunk actions identity task
            (if scheduled then mark_delivered identity.source_step e else e),
        delivered,
        e.current_step,
      )

  -- the whole of `merge_chunk`: the event is written after the locks are released
  unfoldable pub merge_chunk_reported :
      Bool → List A → Identity → String → Bool → Engine A O H → Engine A O H × MergeStatus × ℤ
  unfolding merge_chunk emit
  merge_chunk_reported write_fails actions identity task scheduled e =
      let (e', status, step) = merge_chunk actions identity task scheduled e in
      (if is_delivered status then emit write_fails identity.epoch e' else e', status, step)
