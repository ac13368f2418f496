-- ===== src/Engine/System/Currency.antt =====
-- Which actions may still be executed: what is dispatched is current, and no invalidation is undone.
use action_stream.Prelude.{
  ℕ, ◌<◌, ◌≤◌, ◌≡◌, refl, subst, sym, ◌∙◌, ap, Bool-cases, ◌⊎◌, inl, inr, Bool, false, Option, some,
  String, arith, ltb, ◌==◌, pos, ◌≤ℤ◌,
}
use action_stream.Engine.Types.{Config, ActionStreamAction}
use action_stream.Engine.State.{Engine, TaskMethods, TaskSlot, new_engine}
use action_stream.Engine.Episode.{
  Episode, episode, IsOwned, Move, stutter, publish, skip, take, put_back, dequeue, replace,
  drop_late, deliver, schedule, pop, change_task, invalidate,
}
use action_stream.Engine.Queue.{get_action, is_action_current}
use action_stream.Engine.Queue.Receipts.{
  get_action-identity, get_action-current, get_action-counters, is_action_current_only,
}
use action_stream.Engine.Lifecycle.{reset_begin, stop_begin}
use action_stream.Engine.Lifecycle.Refines.{reset_begin-epoch, stop_begin-epoch}
use action_stream.Engine.Worker.{Job, job_is_cancelled}
use action_stream.Engine.System.{
  System, begins_reset, begins_stop, pulls, no_job, no_delivery, inferring, Reach, here, next,
}
use action_stream.Engine.System.Provenance.{
  SystemInv, JobKnown, WorkerKnown, Step-Move, Step-SystemInv, Reach-SystemInv,
}

-- a system in which nothing has happened yet
unfoldable pub initial :
    {A O H : Type 0} → Config → String → Bool → Option Bool → TaskSlot H → System A O H
initial config id sink shutdown slot = record {
  engine = new_engine config id sink shutdown slot;
  worker = no_job;
  delivery = no_delivery;
}

module _ {A O H : Type 0} (methods : TaskMethods H) where
  pub initial-SystemInv :
      (config : Config) (id : String) (sink : Bool) (shutdown : Option Bool) (slot : TaskSlot H)
      → SystemInv {A = A} {O = O} methods (initial config id sink shutdown slot)
  unfolding initial new_engine
  initial-SystemInv config id sink shutdown slot = record {
    inv = record {
      queued = tt;
      dispatched = tt;
      scheduled = tt;
      ordered = tt;
      published = tt;
      submitted = omega arith;
      delivered = omega arith;
      bounded = omega arith;
      event = refl;
      events = λ n. ground arith;
    };
    worker = tt;
    delivery = tt;
  }

  -- In every interleaving from a new engine, an action that is dispatched was predicted in the current
  -- episode from an observation that is not newer than the current step, and its receipt is current
  -- exactly when the task has not been changed since its request.
  pub dispatch_current :
      (config : Config) (id : String) (sink : Bool) (shutdown : Option Bool) (slot : TaskSlot H)
      (s : System A O H) (packet : ActionStreamAction A)
      → Reach methods (initial config id sink shutdown slot) s
      → (get_action methods s.engine).1 ≡ some packet
      → let e = (get_action methods s.engine).0 in
        (packet.identity.epoch ≡ e.epoch)
        × (pos 0 ≤ℤ packet.identity.source_step)
        × (packet.identity.source_step ≤ℤ e.current_step)
        × (is_action_current e packet ≡ (packet.identity.task_revision == e.task_revision))
  dispatch_current config id sink shutdown slot s packet r h =
      let v = (Reach-SystemInv methods (initial-SystemInv config id sink shutdown slot) r).inv in
      let own =
        get_action-identity methods (IsOwned (episode s.engine)) s.engine packet v.queued
          v.dispatched h in
      let (epoch, step, revision) = get_action-counters methods s.engine in
      (
        own.same_epoch ∙ sym epoch,
        own.observed,
        rw step own.not_newer,
        rw revision (get_action-current methods s.engine packet h own.same_epoch),
      )

  old-not_current :
      (e : Engine A O H) (packet : ActionStreamAction A)
      → packet.identity.epoch < e.epoch
      → is_action_current e packet ≡ false
  old-not_current e packet old = elim (Bool-cases (is_action_current e packet)) [
    | inl current ↦
        let same = (is_action_current_only methods e packet current).0 in absurd (omega arith)
    | inr expired ↦ expired
  ]

  pub Move-epoch : {c d : Episode A O} → Move c d → c.epoch ≤ d.epoch
  Move-epoch stutter = omega arith
  Move-epoch (publish obs) = omega arith
  Move-epoch skip = omega arith
  Move-epoch (take o e) = omega arith
  Move-epoch (put_back o h) = omega arith
  Move-epoch (dequeue q rest e) = omega arith
  Move-epoch (replace actions i task h) = omega arith
  Move-epoch (drop_late i h n) = omega arith
  Move-epoch (deliver actions i task h n) = omega arith
  Move-epoch (schedule p h) = omega arith
  Move-epoch (pop p rest e) = omega arith
  Move-epoch change_task = omega arith
  Move-epoch invalidate = omega arith

  pub Reach-epoch :
      {s t : System A O H}
      → SystemInv methods s
      → Reach methods s t
      → s.engine.epoch ≤ t.engine.epoch
  Reach-epoch v here = omega arith
  Reach-epoch v (next r step) =
      omega
        (arith, Reach-epoch v r, Move-epoch (Step-Move methods step (Reach-SystemInv methods v r)))

  -- From any state in which the system invariant holds, take any action that a pull gives there. Whatever
  -- the threads do then, this pull, others that use up the queue and merges included, once a reset or a
  -- stop begins the action is not current again, whatever they do afterwards.
  pub invalidation_revokes :
      (s b u t : System A O H) (packet : ActionStreamAction A)
      → SystemInv methods s
      → (get_action methods s.engine).1 ≡ some packet
      → Reach methods (record s { engine = (get_action methods s.engine).0 }) b
      → (u ≡ record b { engine = (reset_begin methods b.engine).0 })
        ⊎ (u ≡ record b { engine = (stop_begin methods b.engine).0 })
      → Reach methods u t
      → is_action_current t.engine packet ≡ false
  invalidation_revokes s b u t packet v h before began r =
      let own =
        get_action-identity methods (IsOwned (episode s.engine)) s.engine packet v.inv.queued
          v.inv.dispatched h in
      let e = own.same_epoch in
      let pulled = Step-SystemInv methods pulls v in
      let first = Move-epoch (Step-Move methods pulls v) in
      let earlier = Reach-epoch pulled before in
      let w = Reach-SystemInv methods pulled before in
      elim began [
        | inl reset ↦ old-not_current t.engine packet (
            omega (
              arith,
              reset_begin-epoch methods b.engine,
              Reach-epoch (Step-SystemInv methods begins_reset w)
                  (subst (λ (x : System A O H). Reach methods x t) reset r),
            ))
        | inr stop ↦ old-not_current t.engine packet (
            omega (
              arith,
              stop_begin-epoch methods b.engine,
              Reach-epoch (Step-SystemInv methods begins_stop w)
                  (subst (λ (x : System A O H). Reach methods x t) stop r),
            ))
      ]

  -- In every interleaving the cancellation event that a round of the worker captured is set exactly
  -- when the episode of its request has been invalidated.
  pub cancellation_exact :
      (config : Config) (id : String) (sink : Bool) (shutdown : Option Bool) (slot : TaskSlot H)
      (s : System A O H) (job : Job O)
      → Reach methods (initial config id sink shutdown slot) s
      → s.worker ≡ inferring job
      → job_is_cancelled job s.engine ≡ ltb job.identity.epoch s.engine.epoch
  unfolding job_is_cancelled
  cancellation_exact config id sink shutdown slot s job r at =
      let v = Reach-SystemInv methods (initial-SystemInv config id sink shutdown slot) r in
      let k : JobKnown (episode s.engine) job =
        subst (WorkerKnown (episode s.engine)) at v.worker in
      v.inv.events job.cancelled ∙ ap (λ (n : ℕ). ltb n s.engine.epoch) k.own_event
