-- ===== src/Engine/System/Provenance.antt =====
-- In every interleaving the engine holds and dispatches only actions of its current episode.
use action_stream.Prelude.{
  OptionAll, ℕ, ◌≡◌, refl, subst, sym, ◌∙◌, inl, inr, Bool, true, false, Option, String, arith, All,
}
use action_stream.Engine.Types.{PendingDelivery}
use action_stream.Engine.State.{Engine, TaskMethods, emit, mark_fatal_locked}
use action_stream.Engine.Episode.{
  Episode, episode, IsKnown, IsOwned, IsPublished, Move, stay, own-known,
}
use action_stream.Engine.Episode.Invariant.{Inv, Move-Inv, Move-IsKnown}
use action_stream.Engine.Delivery.{pending_of}
use action_stream.Engine.Queue.Refines.{get_action-Move, merge_chunk-Move}
use action_stream.Engine.Delivery.Refines.{
  push_delivery-Move, delivery_turn-Move, delivery_turn-popped,
}
use action_stream.Engine.Observing.Refines.{notify_observation_locked-Move}
use action_stream.Engine.Lifecycle.Refines.{
  start_locked-Move, stop_begin-Move, stop_end-Move, reset_begin-Move, reset_end-Move,
  set_task-Move,
}
use action_stream.Engine.Worker.{Job, taken, worker_take}
use action_stream.Engine.Worker.Refines.{
  worker_take-Move, worker_take-taken, provider_reset_done-episode, record_failure-episode,
  escalate-episode, complete-episode, retry_failed_observation-Move,
}
use action_stream.Engine.System.{
  System, WorkerState, DeliveryState, no_job, resetting, inferring, begin, failing, retrying,
  merging, no_delivery, holding, Step, Reach, here, next, observes, pulls, changes_task, starts,
  begins_stop, ends_stop, begins_reset, ends_reset, pauses, resumes, writes_event, fails_fatally,
  takes, resets_provider, abandons_reset, fails, escalates, retries, aborts, completes, discards,
  merges, schedules, pops, delivers,
}

module _ {A O : Type 0} where
  -- what the worker holds is of this episode or an earlier one, and its event is that of the episode
  pub record JobKnown (c : Episode A O) (job : Job O) : Type 0 where
    pub known : IsKnown c job.identity
    pub same_epoch : job.envelope.epoch ≡ job.identity.epoch
    pub same_step : job.envelope.step ≡ job.identity.source_step
    pub own_event : job.cancelled ≡ job.identity.epoch

  abbrev pub WorkerKnown : Episode A O → WorkerState A O → Type 0
  WorkerKnown c no_job = Unit {0}
  WorkerKnown c (resetting job) = JobKnown c job
  WorkerKnown c (inferring job) = JobKnown c job
  WorkerKnown c (failing job failures) = JobKnown c job
  WorkerKnown c (retrying job) = JobKnown c job
  WorkerKnown c (merging job actions) = JobKnown c job

  abbrev pub DeliveryKnown : Episode A O → DeliveryState A → Type 0
  DeliveryKnown c no_delivery = Unit {0}
  DeliveryKnown c (holding p) = IsKnown c p.identity

  Move-JobKnown : {c d : Episode A O} (job : Job O) → Move c d → JobKnown c job → JobKnown d job
  Move-JobKnown job m k = record {
    known = Move-IsKnown job.identity m k.known;
    same_epoch = k.same_epoch;
    same_step = k.same_step;
    own_event = k.own_event;
  }

  Move-WorkerKnown :
      {c d : Episode A O} (w : WorkerState A O) → Move c d → WorkerKnown c w → WorkerKnown d w
  Move-WorkerKnown no_job m k = tt
  Move-WorkerKnown (resetting job) m k = Move-JobKnown job m k
  Move-WorkerKnown (inferring job) m k = Move-JobKnown job m k
  Move-WorkerKnown (failing job failures) m k = Move-JobKnown job m k
  Move-WorkerKnown (retrying job) m k = Move-JobKnown job m k
  Move-WorkerKnown (merging job actions) m k = Move-JobKnown job m k

  Move-DeliveryKnown :
      {c d : Episode A O} (w : DeliveryState A) → Move c d → DeliveryKnown c w → DeliveryKnown d w
  Move-DeliveryKnown no_delivery m k = tt
  Move-DeliveryKnown (holding p) m k = Move-IsKnown p.identity m k

  job-IsPublished :
      (c : Episode A O) (job : Job O)
      → JobKnown c job
      → job.envelope.epoch ≡ c.epoch
      → IsPublished c job.envelope
  job-IsPublished c job k now =
      let own = own-known c job.identity k.known (sym k.same_epoch ∙ now) in
      record {
        same_epoch = now;
        observed = rw k.same_step own.observed;
        not_newer = rw k.same_step own.not_newer;
      }

module _ {A O H : Type 0} (methods : TaskMethods H) where
  pub record SystemInv (s : System A O H) : Type 0 where
    pub inv : Inv (episode s.engine)
    pub worker : WorkerKnown (episode s.engine) s.worker
    pub delivery : DeliveryKnown (episode s.engine) s.delivery

  emit-episode : (w : Bool) (n : ℕ) (e : Engine A O H) → episode (emit w n e) ≡ episode e
  unfolding emit
  emit-episode w n e = ground arith

  mark_fatal_locked-episode :
      (t : String) (n : Option ℕ) (d : Bool) (e : Engine A O H)
      → episode (mark_fatal_locked t n d e) ≡ episode e
  unfolding mark_fatal_locked
  mark_fatal_locked-episode t n d e = ground arith

  -- In a state in which the system invariant holds, every locked section of every thread is a move
  -- of the abstract episode.
  pub Step-Move :
      {s t : System A O H}
      → Step methods s t
      → SystemInv s
      → Move (episode s.engine) (episode t.engine)
  unfolding pending_of
  Step-Move {s} (observes obs) v = notify_observation_locked-Move obs s.engine
  Step-Move {s} pulls v = get_action-Move methods s.engine
  Step-Move {s} (changes_task task) v = set_task-Move task s.engine
  Step-Move {s} starts v = start_locked-Move s.engine
  Step-Move {s} begins_stop v = stop_begin-Move methods s.engine
  Step-Move {s} (ends_stop w t _) v = stop_end-Move w t s.engine
  Step-Move {s} begins_reset v = reset_begin-Move methods s.engine
  Step-Move {s} (ends_reset w t) v = reset_end-Move w t s.engine
  Step-Move pauses v = stay refl
  Step-Move resumes v = stay refl
  Step-Move {s} (writes_event w n) v = stay (emit-episode w n s.engine)
  Step-Move {s} (fails_fatally t n d) v = stay (mark_fatal_locked-episode t n d s.engine)
  Step-Move {s} (takes job _ _ _) v = worker_take-Move methods s.engine
  Step-Move {s} (resets_provider job _ _) v =
      stay (provider_reset_done-episode job.identity.epoch s.engine)
  Step-Move {s} (abandons_reset job _ _) v =
      stay (provider_reset_done-episode job.identity.epoch s.engine)
  Step-Move {s} (fails job failure latency _) v = stay (record_failure-episode _ _ latency s.engine)
  Step-Move {s} (escalates job failures w _) v = stay (escalate-episode w _ failures s.engine)
  Step-Move {s} (retries job at) v =
      retry_failed_observation-Move job.envelope s.engine (
        job-IsPublished (episode s.engine) job (subst (WorkerKnown (episode s.engine)) at v.worker))
  Step-Move {s} (aborts job t _) v = stay (mark_fatal_locked-episode t _ false s.engine)
  Step-Move {s} (completes job latency actions _ _) v = stay (complete-episode _ latency s.engine)
  Step-Move {s} (discards job latency _ _) v = stay (complete-episode _ latency s.engine)
  Step-Move {s} (merges job actions at) v =
      let k = subst (WorkerKnown (episode s.engine)) at v.worker in
      merge_chunk-Move actions job.identity job.task false s.engine k.known
  Step-Move {s} (schedules job actions completed delay at) v =
      let k = subst (WorkerKnown (episode s.engine)) at v.worker in
      push_delivery-Move (pending_of job.identity job.task actions completed delay) s.engine k.known
  Step-Move {s} (pops p now _ _ _) v = delivery_turn-Move now s.engine
  Step-Move {s} (delivers p at) v =
      merge_chunk-Move p.actions p.identity p.task true s.engine
        (subst (DeliveryKnown (episode s.engine)) at v.delivery)

  taken-JobKnown :
      (e : Engine A O H) (job : Job O)
      → Inv (episode e)
      → (worker_take methods e).1 ≡ taken job
      → JobKnown (episode (worker_take methods e).0) job
  taken-JobKnown e job v h =
      let (full, epoch, step, ordinal, revision, event, after) =
        worker_take-taken methods e job h in
      let o : IsPublished (episode e) job.envelope =
        subst (OptionAll (IsPublished (episode e))) full v.published in
      let own_event = v.event in
      subst (λ (c : Episode A O). JobKnown c job) (sym after)
        (record {
          known = inr (record {
            same_epoch = epoch ∙ o.same_epoch;
            observed = rw step o.observed;
            not_newer = rw step o.not_newer;
            issued = omega arith;
            revised = omega arith;
          });
          same_epoch = sym epoch;
          same_step = sym step;
          own_event = let h = o.same_epoch in omega arith;
        })

  begin-WorkerKnown :
      (c : Episode A O) (reset : Bool) (job : Job O)
      → JobKnown c job
      → WorkerKnown c (begin reset job)
  begin-WorkerKnown c true job k = k
  begin-WorkerKnown c false job k = k

  at-Known : (c : Episode A O) {w v : WorkerState A O} → w ≡ v → WorkerKnown c w → WorkerKnown c v
  at-Known c e k = subst (WorkerKnown c) e k

  -- the invariant of the threads after a step, where the worker's new state needs an argument
  Step-WorkerKnown :
      {s t : System A O H}
      → Step methods s t
      → SystemInv s
      → Move (episode s.engine) (episode t.engine)
      → WorkerKnown (episode t.engine) t.worker
  Step-WorkerKnown {s} (takes job _ _ h) v m =
      begin-WorkerKnown _ job.reset_provider job (taken-JobKnown s.engine job v.inv h)
  Step-WorkerKnown {s} (resets_provider job at _) v m =
      Move-JobKnown job m (at-Known (episode s.engine) at v.worker)
  Step-WorkerKnown (abandons_reset job at _) v m = tt
  Step-WorkerKnown {s} (fails job failure latency (inl at)) v m =
      Move-JobKnown job m (at-Known (episode s.engine) at v.worker)
  Step-WorkerKnown {s} (fails job failure latency (inr at)) v m =
      Move-JobKnown job m (at-Known (episode s.engine) at v.worker)
  Step-WorkerKnown {s} (escalates job failures w at) v m =
      Move-JobKnown job m (at-Known (episode s.engine) at v.worker)
  Step-WorkerKnown (retries job at) v m = tt
  Step-WorkerKnown (aborts job t at) v m = tt
  Step-WorkerKnown {s} (completes job latency actions at _) v m =
      Move-JobKnown job m (at-Known (episode s.engine) at v.worker)
  Step-WorkerKnown (discards job latency at _) v m = tt
  Step-WorkerKnown (merges job actions at) v m = tt
  Step-WorkerKnown (schedules job actions completed delay at) v m = tt
  Step-WorkerKnown {s} (observes obs) v m = Move-WorkerKnown s.worker m v.worker
  Step-WorkerKnown {s} pulls v m = Move-WorkerKnown s.worker m v.worker
  Step-WorkerKnown {s} (changes_task task) v m = Move-WorkerKnown s.worker m v.worker
  Step-WorkerKnown {s} starts v m = Move-WorkerKnown s.worker m v.worker
  Step-WorkerKnown {s} begins_stop v m = Move-WorkerKnown s.worker m v.worker
  Step-WorkerKnown {s} (ends_stop w t h) v m = Move-WorkerKnown s.worker m v.worker
  Step-WorkerKnown {s} begins_reset v m = Move-WorkerKnown s.worker m v.worker
  Step-WorkerKnown {s} (ends_reset w t) v m = Move-WorkerKnown s.worker m v.worker
  Step-WorkerKnown {s} pauses v m = Move-WorkerKnown s.worker m v.worker
  Step-WorkerKnown {s} resumes v m = Move-WorkerKnown s.worker m v.worker
  Step-WorkerKnown {s} (writes_event w n) v m = Move-WorkerKnown s.worker m v.worker
  Step-WorkerKnown {s} (fails_fatally t n d) v m = Move-WorkerKnown s.worker m v.worker
  Step-WorkerKnown {s} (pops p now _ at h) v m = Move-WorkerKnown s.worker m v.worker
  Step-WorkerKnown {s} (delivers p at) v m = Move-WorkerKnown s.worker m v.worker

  Step-DeliveryKnown :
      {s t : System A O H}
      → Step methods s t
      → SystemInv s
      → Move (episode s.engine) (episode t.engine)
      → DeliveryKnown (episode t.engine) t.delivery
  Step-DeliveryKnown {s} (pops p now _ _ h) v m =
      let (full, due, _, _, _) = delivery_turn-popped now s.engine p h in
      let all =
        subst (All (λ (q : PendingDelivery A). IsOwned (episode s.engine) q.identity)) full
          v.inv.scheduled in
      Move-IsKnown p.identity m (inr all.0)
  Step-DeliveryKnown (delivers p at) v m = tt
  Step-DeliveryKnown {s} (observes obs) v m = Move-DeliveryKnown s.delivery m v.delivery
  Step-DeliveryKnown {s} pulls v m = Move-DeliveryKnown s.delivery m v.delivery
  Step-DeliveryKnown {s} (changes_task task) v m = Move-DeliveryKnown s.delivery m v.delivery
  Step-DeliveryKnown {s} starts v m = Move-DeliveryKnown s.delivery m v.delivery
  Step-DeliveryKnown {s} begins_stop v m = Move-DeliveryKnown s.delivery m v.delivery
  Step-DeliveryKnown {s} (ends_stop w t h) v m = Move-DeliveryKnown s.delivery m v.delivery
  Step-DeliveryKnown {s} begins_reset v m = Move-DeliveryKnown s.delivery m v.delivery
  Step-DeliveryKnown {s} (ends_reset w t) v m = Move-DeliveryKnown s.delivery m v.delivery
  Step-DeliveryKnown {s} pauses v m = Move-DeliveryKnown s.delivery m v.delivery
  Step-DeliveryKnown {s} resumes v m = Move-DeliveryKnown s.delivery m v.delivery
  Step-DeliveryKnown {s} (writes_event w n) v m = Move-DeliveryKnown s.delivery m v.delivery
  Step-DeliveryKnown {s} (fails_fatally t n d) v m = Move-DeliveryKnown s.delivery m v.delivery
  Step-DeliveryKnown {s} (takes job _ at h) v m = Move-DeliveryKnown s.delivery m v.delivery
  Step-DeliveryKnown {s} (resets_provider job at h) v m = Move-DeliveryKnown s.delivery m v.delivery
  Step-DeliveryKnown {s} (abandons_reset job at h) v m = Move-DeliveryKnown s.delivery m v.delivery
  Step-DeliveryKnown {s} (fails job failure latency at) v m =
      Move-DeliveryKnown s.delivery m v.delivery
  Step-DeliveryKnown {s} (escalates job failures w at) v m =
      Move-DeliveryKnown s.delivery m v.delivery
  Step-DeliveryKnown {s} (retries job at) v m = Move-DeliveryKnown s.delivery m v.delivery
  Step-DeliveryKnown {s} (aborts job t at) v m = Move-DeliveryKnown s.delivery m v.delivery
  Step-DeliveryKnown {s} (completes job latency actions at h) v m =
      Move-DeliveryKnown s.delivery m v.delivery
  Step-DeliveryKnown {s} (discards job latency at h) v m =
      Move-DeliveryKnown s.delivery m v.delivery
  Step-DeliveryKnown {s} (merges job actions at) v m = Move-DeliveryKnown s.delivery m v.delivery
  Step-DeliveryKnown {s} (schedules job actions completed delay at) v m =
      Move-DeliveryKnown s.delivery m v.delivery

  -- Every locked section of every thread keeps the system invariant: what the engine stores is of
  -- the current episode, and what a thread holds is of the current one or, taken before an
  -- invalidation, of an earlier one.
  pub Step-SystemInv : {s t : System A O H} → Step methods s t → SystemInv s → SystemInv t
  Step-SystemInv {s} {t} step v =
      let m : Move (episode s.engine) (episode t.engine) = Step-Move step v in
      record {
        inv = Move-Inv m v.inv;
        worker = Step-WorkerKnown step v m;
        delivery = Step-DeliveryKnown step v m;
      }

  pub Reach-SystemInv : {s t : System A O H} → SystemInv s → Reach methods s t → SystemInv t
  Reach-SystemInv v here = v
  Reach-SystemInv v (next r step) = Step-SystemInv step (Reach-SystemInv v r)
