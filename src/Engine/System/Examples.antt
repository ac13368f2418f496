-- ===== src/Engine/System/Examples.antt =====
-- A short run of the engine, and the theorems on its interleavings at the states of that run.
use action_stream.Prelude.{
  ℕ, pos, ◌≡◌, refl, inl, true, false, none, some, [], ◌∷◌, ltb, ◌≢◌, ◌≤◌, ◌≤ℤ◌, All, ◌==◌, arith,
}
use action_stream.Engine.Types.{ActionStreamAction, PendingDelivery}
use action_stream.Engine.State.{new_engine}
use action_stream.Engine.Samples.{methods, slot, config, identity}
use action_stream.Engine.Queue.{get_action, is_action_current, queued_of, merge_chunk, delivered}
use action_stream.Engine.Observing.{notify_observation_locked}
use action_stream.Engine.Lifecycle.{start_locked, reset_begin}
use action_stream.Engine.Worker.{Job, worker_take, provider_reset_done, complete, job_is_cancelled}
use action_stream.Engine.Delivery.{push_delivery, delivery_turn, popped, pending_of, before}
use action_stream.Engine.Episode.{episode, Move}
use action_stream.Engine.System.{
  System, no_job, resetting, inferring, merging, no_delivery, holding, Reach, here, next, observes,
  starts, resumes, takes, resets_provider, completes, merges, schedules, pops, pulls,
}
use action_stream.Engine.System.Provenance.{SystemInv, Step-Move, Step-SystemInv, Reach-SystemInv}
use action_stream.Engine.System.Currency.{
  initial, initial-SystemInv, dispatch_current, invalidation_revokes, cancellation_exact,
}
use action_stream.Engine.System.Deliveries.{pops_earliest, no_older_after}

abbrev S : Type 0
S = System ℕ ℕ (Unit {0})

abbrev s₀ : S
s₀ = initial config "engine" false none slot

abbrev job : Job ℕ
job = record {
  envelope = record { epoch = 0; step = pos 0; observation = 7 };
  reset_provider = true;
  cancelled = 0;
  task = "pick";
  identity = identity;
}

abbrev pending : PendingDelivery ℕ
pending = pending_of identity "pick" (5 ∷ 6 ∷ []) 3 2

-- the engine is started and resumed, and sees one observation
abbrev ready_state : S
ready_state =
    let s₁ : S = record s₀ { engine = start_locked s₀.engine } in
    let s₂ : S = record s₁ { engine = record s₁.engine { active = true } } in
    record s₂ { engine = notify_observation_locked 7 s₂.engine }

-- the worker takes it and resets the provider
abbrev taken_state : S
taken_state = record ready_state {
  engine = (worker_take methods ready_state.engine).0;
  worker = resetting job;
}

abbrev inferring_state : S
inferring_state = record taken_state {
  engine = (provider_reset_done 0 taken_state.engine).0;
  worker = inferring job;
}

-- the inference returns two actions
abbrev merging_state : S
merging_state = record inferring_state {
  engine = (complete 0 4 inferring_state.engine).0;
  worker = merging job (5 ∷ 6 ∷ []);
}

-- they are merged at once, or scheduled and then popped
abbrev merged_state : S
merged_state = record merging_state {
  engine = (merge_chunk (5 ∷ 6 ∷ []) identity "pick" false merging_state.engine).0;
  worker = no_job;
}

abbrev scheduled_state : S
scheduled_state = record merging_state {
  engine = (push_delivery pending merging_state.engine).0;
  worker = no_job;
}

abbrev holding_state : S
holding_state = record scheduled_state {
  engine = (delivery_turn 5 scheduled_state.engine).0;
  delivery = holding pending;
}

abbrev packet : ActionStreamAction ℕ
packet = record { action = 5; engine_id = "engine"; identity = identity; task = "pick" }

Reach-inferring : Reach methods s₀ inferring_state
unfolding initial new_engine start_locked notify_observation_locked worker_take provider_reset_done
Reach-inferring =
    next (next (next (next (next here starts) resumes) (observes 7)) (takes job refl refl refl))
      (resets_provider job refl refl)

Reach-merging : Reach methods s₀ merging_state
unfolding initial new_engine start_locked notify_observation_locked worker_take provider_reset_done
    complete
Reach-merging = next Reach-inferring (completes job 4 (5 ∷ 6 ∷ []) refl refl)

Reach-merged : Reach methods s₀ merged_state
Reach-merged = next Reach-merging (merges job (5 ∷ 6 ∷ []) refl)

Reach-scheduled : Reach methods s₀ scheduled_state
Reach-scheduled = next Reach-merging (schedules job (5 ∷ 6 ∷ []) 3 2 refl)

pulled : (get_action methods merged_state.engine).1 ≡ some packet
unfolding initial new_engine start_locked notify_observation_locked worker_take provider_reset_done
    complete merge_chunk get_action queued_of
pulled = refl

popped_first : (delivery_turn 5 scheduled_state.engine).1 ≡ popped pending
unfolding initial new_engine start_locked notify_observation_locked worker_take provider_reset_done
    complete push_delivery delivery_turn pending_of
popped_first = refl

Reach-holding : Reach methods s₀ holding_state
unfolding initial new_engine start_locked notify_observation_locked worker_take provider_reset_done
    complete push_delivery delivery_turn pending_of
Reach-holding = next Reach-scheduled (pops pending 5 refl refl refl)

delivered_first :
    (merge_chunk pending.actions pending.identity pending.task true holding_state.engine).1
    ≡ delivered
unfolding initial new_engine start_locked notify_observation_locked worker_take provider_reset_done
    complete push_delivery delivery_turn pending_of merge_chunk
delivered_first = refl

s₀-Inv : SystemInv methods s₀
s₀-Inv = initial-SystemInv methods config "engine" false none slot

-- the system after the delivery of `pending`
abbrev delivered_state : S
delivered_state = record holding_state {
  engine = (merge_chunk pending.actions pending.identity pending.task true holding_state.engine).0;
  delivery = no_delivery;
}

delivered_epoch : delivered_state.engine.epoch ≡ holding_state.engine.epoch
unfolding initial new_engine start_locked notify_observation_locked worker_take provider_reset_done
    complete push_delivery delivery_turn pending_of merge_chunk
delivered_epoch = refl

same_step : pending.identity.source_step ≤ℤ pending.identity.source_step
unfolding pending_of
same_step = omega arith

dispatch_current_example :
    let e = (get_action methods merged_state.engine).0 in
    (0 ≡ e.epoch)
    × (pos 0 ≤ℤ pos 0)
    × (pos 0 ≤ℤ e.current_step)
    × (is_action_current e packet ≡ (0 == e.task_revision))
dispatch_current_example =
    dispatch_current methods config "engine" false none slot merged_state packet Reach-merged pulled

-- two pulls later the queue is used up
abbrev pulled_state : S
pulled_state =
    let once : S = record merged_state { engine = (get_action methods merged_state.engine).0 } in
    record once { engine = (get_action methods once.engine).0 }

invalidation_revokes_example :
    is_action_current (reset_begin methods pulled_state.engine).0 packet ≡ false
invalidation_revokes_example =
    invalidation_revokes methods merged_state pulled_state
      (record pulled_state { engine = (reset_begin methods pulled_state.engine).0 })
      (record pulled_state { engine = (reset_begin methods pulled_state.engine).0 }) packet
      (Reach-SystemInv methods s₀-Inv Reach-merged) pulled (next here pulls) (inl refl) here

Step-Move_example : Move (episode s₀.engine) (episode (notify_observation_locked 7 s₀.engine))
Step-Move_example =
    Step-Move methods {s = s₀} {t = record s₀ { engine = notify_observation_locked 7 s₀.engine }}
      (observes 7) s₀-Inv

Step-SystemInv_example : SystemInv methods (record merging_state {
  engine = (merge_chunk (5 ∷ 6 ∷ []) identity "pick" false merging_state.engine).0;
  worker = no_job;
})
Step-SystemInv_example =
    Step-SystemInv methods {s = merging_state} {t = merged_state} (merges job (5 ∷ 6 ∷ []) refl)
      (Reach-SystemInv methods s₀-Inv Reach-merging)

cancellation_exact_example :
    job_is_cancelled job inferring_state.engine ≡ ltb 0 inferring_state.engine.epoch
cancellation_exact_example =
    cancellation_exact methods config "engine" false none slot inferring_state job Reach-inferring
      refl

pops_earliest_example :
    (pending.scheduled_delivery_timestamp ≤ 5)
    × All
        (λ (q : PendingDelivery ℕ). before q pending ≡ false)
        (delivery_turn 5 scheduled_state.engine).0.pending_deliveries
pops_earliest_example =
    pops_earliest methods config "engine" false none slot scheduled_state 5 pending Reach-scheduled
      popped_first

no_older_after_example :
    let e = delivered_state.engine in
    ((merge_chunk pending.actions pending.identity pending.task true e).1 ≢ delivered)
    × ((merge_chunk pending.actions pending.identity pending.task true e).0.queue ≡ e.queue)
no_older_after_example =
    no_older_after methods holding_state delivered_state pending pending
      (Reach-SystemInv methods s₀-Inv Reach-holding) refl delivered_first here delivered_epoch
      same_step
