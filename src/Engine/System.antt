-- ===== src/Engine/System.antt =====
-- The engine with its threads: the control thread, the inference worker and the delivery thread. A
-- step is one locked section of one thread, so every interleaving of the sections is a run. What the
-- policy, the transport, the clock and the callbacks do is chosen freely by the environment.
pub mod Provenance
pub mod Currency
pub mod Deliveries
pub mod Examples
use action_stream.Prelude.{
  ℕ, ◌≡◌, ◌⊎◌, if◌then◌else◌, String, Bool, true, false, Option, none, some, List,
}
use action_stream.Engine.Types.{Identity, PendingDelivery}
use action_stream.Engine.State.{Engine, TaskMethods, emit, mark_fatal_locked}
use action_stream.Engine.Queue.{get_action, merge_chunk}
use action_stream.Engine.Delivery.{push_delivery, delivery_turn, popped, pending_of}
use action_stream.Engine.Lifecycle.{
  start_locked, stop_begin, stop_end, reset_begin, reset_end, set_task, Teardown, threads_ended,
  TransportReset,
}
use action_stream.Engine.Observing.{notify_observation_locked}
use action_stream.Engine.Worker.{
  Job, taken, worker_take, provider_reset_done, record_failure, escalate, retry_failed_observation,
  complete, is_timeout, Failure,
}

-- where the worker stands in its round
pub data WorkerState (A O : Type 0) : Type 0 where
  no_job : WorkerState A O
  resetting : Job O → WorkerState A O  -- in the provider's reset
  inferring : Job O → WorkerState A O
  failing : Job O → Option ℕ → WorkerState A O  -- the failure is recorded
  retrying : Job O → WorkerState A O
  merging : Job O → List A → WorkerState A O  -- the result is committed

-- what the delivery thread holds between the heap and the merge
pub data DeliveryState (A : Type 0) : Type 0 where
  no_delivery : DeliveryState A
  holding : PendingDelivery A → DeliveryState A

pub record System (A O H : Type 0) : Type 0 where
  pub engine : Engine A O H
  pub worker : WorkerState A O
  pub delivery : DeliveryState A

-- a round begins with the provider's reset if one is pending
abbrev pub begin : {A O : Type 0} → Bool → Job O → WorkerState A O
begin true job = resetting job
begin false job = inferring job

-- the joins of `stop` succeed only when neither thread is in a round
abbrev pub MayEnd : {A O : Type 0} → Teardown → WorkerState A O → DeliveryState A → Type 0
MayEnd threads_ended worker delivery = (worker ≡ no_job) × (delivery ≡ no_delivery)
MayEnd teardown w d = Unit {0}

module _ {A O H : Type 0} (methods : TaskMethods H) where
  pub data Step (s : System A O H) : System A O H → Type 0 where
    observes : (obs : O) → Step s (record s { engine = notify_observation_locked obs s.engine })
    pulls : Step s (record s { engine = (get_action methods s.engine).0 })
    changes_task : (task : String) → Step s (record s { engine = (set_task task s.engine).0 })
    starts : Step s (record s { engine = start_locked s.engine })
    begins_stop : Step s (record s { engine = (stop_begin methods s.engine).0 })
    ends_stop :
        (w : Bool) (t : Teardown)
        → MayEnd t s.worker s.delivery
        → Step s (record s { engine = stop_end w t s.engine })
    begins_reset : Step s (record s { engine = (reset_begin methods s.engine).0 })
    ends_reset :
        (w : Bool) (t : TransportReset) → Step s (record s { engine = reset_end w t s.engine })
    pauses : Step s (record s { engine = record s.engine { active = false } })
    resumes : Step s (record s { engine = record s.engine { active = true } })
    writes_event : (w : Bool) (epoch : ℕ) → Step s (record s { engine = emit w epoch s.engine })
    fails_fatally :
        (traceback : String) (epoch : Option ℕ) (during_reset : Bool)
        → Step s (record s { engine = mark_fatal_locked traceback epoch during_reset s.engine })
    takes :
        (job : Job O)
        → s.engine.worker ≡ true
        → s.worker ≡ no_job
        → (worker_take methods s.engine).1 ≡ taken job
        → Step s (record s {
          engine = (worker_take methods s.engine).0;
          worker = begin job.reset_provider job;
        })
    resets_provider :
        (job : Job O)
        → s.worker ≡ resetting job
        → (provider_reset_done job.identity.epoch s.engine).1 ≡ true
        → Step s (record s {
          engine = (provider_reset_done job.identity.epoch s.engine).0;
          worker = inferring job;
        })
    abandons_reset :
        (job : Job O)
        → s.worker ≡ resetting job
        → (provider_reset_done job.identity.epoch s.engine).1 ≡ false
        → Step s (record s {
          engine = (provider_reset_done job.identity.epoch s.engine).0;
          worker = no_job;
        })
    fails :
        (job : Job O) (failure : Failure) (latency : Option ℕ)
        → (s.worker ≡ resetting job) ⊎ (s.worker ≡ inferring job)
        → Step s (record s {
          engine = (record_failure job.identity.epoch (is_timeout failure) latency s.engine).0;
          worker =
              failing job
                (record_failure job.identity.epoch (is_timeout failure) latency s.engine).1;
        })
    escalates :
        (job : Job O) (failures : Option ℕ) (w : Bool)
        → s.worker ≡ failing job failures
        → Step s (record s {
          engine = escalate w job.identity.epoch failures s.engine;
          worker = retrying job;
        })
    retries :
        (job : Job O)
        → s.worker ≡ retrying job
        → Step s
            (record s { engine = retry_failed_observation job.envelope s.engine; worker = no_job })
    aborts :
        (job : Job O) (traceback : String)
        → (s.worker ≡ resetting job) ⊎ (s.worker ≡ inferring job)
        → Step s (record s {
          engine = mark_fatal_locked traceback (some job.identity.epoch) false s.engine;
          worker = no_job;
        })
    completes :
        (job : Job O) (latency : ℕ) (actions : List A)
        → s.worker ≡ inferring job
        → (complete job.identity.epoch latency s.engine).1 ≡ true
        → Step s (record s {
          engine = (complete job.identity.epoch latency s.engine).0;
          worker = merging job actions;
        })
    discards :
        (job : Job O) (latency : ℕ)
        → s.worker ≡ inferring job
        → (complete job.identity.epoch latency s.engine).1 ≡ false
        → Step s (record s {
          engine = (complete job.identity.epoch latency s.engine).0;
          worker = no_job;
        })
    merges :
        (job : Job O) (actions : List A)
        → s.worker ≡ merging job actions
        → Step s (record s {
          engine = (merge_chunk actions job.identity job.task false s.engine).0;
          worker = no_job;
        })
    schedules :
        (job : Job O) (actions : List A) (completed delay : ℕ)
        → s.worker ≡ merging job actions
        → Step s (record s {
          engine =
              (push_delivery (pending_of job.identity job.task actions completed delay) s.engine).0;
          worker = no_job;
        })
    pops :
        (p : PendingDelivery A) (now : ℕ)
        → s.engine.delivery_worker ≡ true
        → s.delivery ≡ no_delivery
        → (delivery_turn now s.engine).1 ≡ popped p
        → Step s (record s { engine = (delivery_turn now s.engine).0; delivery = holding p })
    delivers :
        (p : PendingDelivery A)
        → s.delivery ≡ holding p
        → Step s (record s {
          engine = (merge_chunk p.actions p.identity p.task true s.engine).0;
          delivery = no_delivery;
        })

  pub data Reach (s : System A O H) : System A O H → Type 0 where
    here : Reach s s
    next : {t u : System A O H} → Reach s t → Step t u → Reach s u
