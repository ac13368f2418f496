-- ===== src/Engine/Lifecycle/Effects.antt =====
-- What a whole `reset` and a whole `stop` leave behind, whatever the observer and the sink do.
use action_stream.Prelude.{
  ℕ, suc, ◌≡◌, refl, ◌∙◌, ap, String, Bool, true, false, Option, none, if◌then◌else◌, some, List,
  [], ◌∷◌, arith,
}
use action_stream.Engine.Types.{PendingDelivery}
use action_stream.Engine.State.{Engine, TaskMethods, emit, mark_fatal}
use action_stream.Engine.Delivery.{
  Observer, DeliveryStatus, merged, cancelled_stop, notify_delivery_observer, no_observer,
  observer_returned, observer_raised, is_rejection,
}
use action_stream.Engine.Queue.{rejected_reset}
use action_stream.Engine.Episode.{episode, next_episode}
use action_stream.Engine.Lifecycle.{
  reset_done, threads_ended, notify_all, reset, stop, reset_begin, reset_end, stop_begin, stop_end,
}

-- the lifecycle flags
pub record Flags : Type 0 where
  pub started : Bool
  pub shutdown : Bool
  pub resetting : Bool
  pub active : Bool

module _ {A O H : Type 0} where
  abbrev pub flags : Engine A O H → Flags
  flags e = record {
    started = e.started;
    shutdown = e.shutdown;
    resetting = e.resetting;
    active = e.active;
  }

  -- only what the events and the fatal error write differs
  record IsSame (e e' : Engine A O H) : Type 0 where
    episodes : episode e' ≡ episode e
    flag : flags e' ≡ flags e

  emit-IsSame :
      {e e' : Engine A O H} (write_fails : Bool) (epoch : ℕ)
      → IsSame e e'
      → IsSame e (emit write_fails epoch e')
  unfolding emit
  emit-IsSame {e} {e'} write_fails epoch same =
      let p : (episode (emit write_fails epoch e') ≡ episode e')
          × (flags (emit write_fails epoch e') ≡ flags e') =
        ground arith in
      record { episodes = p.0 ∙ same.episodes; flag = p.1 ∙ same.flag }

  mark_fatal-IsSame :
      {e e' : Engine A O H} (write_fails : Bool) (traceback : String) (epoch : Option ℕ)
      (during_reset : Bool)
      → IsSame e e'
      → IsSame e (mark_fatal write_fails traceback epoch during_reset e')
  unfolding mark_fatal
  mark_fatal-IsSame {e} {e'} write_fails traceback epoch during_reset same =
      let next = mark_fatal write_fails traceback epoch during_reset e' in
      let p : (episode next ≡ episode e') × (flags next ≡ flags e') = ground arith in
      record { episodes = p.0 ∙ same.episodes; flag = p.1 ∙ same.flag }

  emit_if-IsSame :
      {e e' : Engine A O H} (test write_fails : Bool) (epoch : ℕ)
      → IsSame e e'
      → IsSame e (if test then emit write_fails epoch e' else e')
  emit_if-IsSame true write_fails epoch same = emit-IsSame write_fails epoch same
  emit_if-IsSame false write_fails epoch same = same

  notify_delivery_observer-IsSame :
      {e e' : Engine A O H} (fails : ℕ → Bool) (observer : Observer) (p : PendingDelivery A)
      (status : DeliveryStatus)
      → IsSame e e'
      → IsSame e (notify_delivery_observer fails observer p status e')
  unfolding notify_delivery_observer
  notify_delivery_observer-IsSame fails no_observer p status same =
      emit_if-IsSame (is_rejection status) (fails 1) p.identity.epoch
        (emit-IsSame (fails 0) p.identity.epoch same)
  notify_delivery_observer-IsSame fails observer_returned p status same =
      emit_if-IsSame (is_rejection status) (fails 1) p.identity.epoch
        (emit-IsSame (fails 0) p.identity.epoch same)
  notify_delivery_observer-IsSame fails (observer_raised traceback) p status same =
      mark_fatal-IsSame (fails 3) traceback (some p.identity.epoch) false (
        emit-IsSame (fails 2) p.identity.epoch (
          emit_if-IsSame (is_rejection status) (fails 1) p.identity.epoch
            (emit-IsSame (fails 0) p.identity.epoch same)))

  notify_all-IsSame :
      (fails : ℕ → Bool) (observer : Observer) (status : DeliveryStatus)
      (ps : List (PendingDelivery A)) {e e' : Engine A O H}
      → IsSame e e'
      → IsSame e (notify_all fails observer status ps e')
  unfolding notify_all
  notify_all-IsSame fails _ status [] same = same
  notify_all-IsSame fails observer status (p ∷ ps) same =
      notify_all-IsSame fails observer status ps
        (notify_delivery_observer-IsSame fails observer p status same)

  IsSame-refl : (e : Engine A O H) → IsSame e e
  IsSame-refl e = record { episodes = refl; flag = refl }

  stop_end-IsSame :
      {e e' : Engine A O H} (write_fails : Bool)
      → IsSame e e'
      → IsSame (stop_end write_fails threads_ended e) (stop_end write_fails threads_ended e')
  unfolding stop_end
  stop_end-IsSame write_fails same = record {
    episodes = same.episodes;
    flag = ap (λ (f : Flags). record f { started = false; resetting = false }) same.flag;
  }

  -- A reset from outside the callbacks whose transport reset returns raises nothing and leaves the
  -- empty next episode; of the lifecycle flags it changes only that the engine is no longer
  -- resetting.
  pub reset_lem :
      (methods : TaskMethods H) (fails : ℕ → Bool) (observer : Observer) (cancelled : Bool)
      (e : Engine A O H)
      → let (e', error) = reset methods false fails observer (reset_done cancelled) e in
        (error ≡ none)
        × (episode e' ≡ next_episode (episode e))
        × (flags e' ≡ record (flags e) { resetting = false })
  unfolding reset
  reset_lem methods fails observer cancelled e =
      let ended = reset_end (fails 10) (reset_done cancelled) (reset_begin methods e).0 in
      let same = emit-IsSame (fails 11) (suc e.epoch) (
        notify_all-IsSame fails observer (merged rejected_reset) e.pending_deliveries
          (IsSame-refl ended)) in
      (refl, same.episodes, same.flag)

  -- A stop from outside the callbacks after which both threads have ended raises nothing and
  -- leaves the empty next episode, with an engine that is shut down and is neither started,
  -- resetting nor active.
  stop_lem :
      (methods : TaskMethods H) (fails : ℕ → Bool) (observer : Observer) (cancelled : Bool)
      (e : Engine A O H)
      → let (e', error) = stop methods false fails observer cancelled threads_ended e in
        (error ≡ none)
        × (episode e' ≡ next_episode (episode e))
        × (flags e'
            ≡ record { started = false; shutdown = true; resetting = false; active = false })
  unfolding stop
  stop_lem methods fails observer cancelled e =
      let begun = (stop_begin methods e).0 in
      let before_end =
        emit_if-IsSame cancelled (fails 11) (suc e.epoch)
          (emit-IsSame (fails 10) (suc e.epoch) (IsSame-refl begun)) in
      let same = emit-IsSame (fails 13) (suc e.epoch) (
        notify_all-IsSame fails observer cancelled_stop e.pending_deliveries
          (stop_end-IsSame (fails 12) before_end)) in
      (refl, same.episodes, same.flag)
