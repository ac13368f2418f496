-- ===== src/Engine/Lifecycle/Refines.antt =====
-- The locked steps of the lifecycle methods are moves of the episode.
use action_stream.Prelude.{ℕ, Option, ◌≡◌, refl, ◌⊎◌, inl, inr, Bool, String, suc, arith}
use action_stream.Engine.State.{Engine, TaskMethods, mark_fatal}
use action_stream.Engine.Episode.{episode, Move, invalidate, change_task, move-to, stay}
use action_stream.Engine.Lifecycle.{
  Teardown, teardown_raised, threads_alive, threads_ended, TransportReset, reset_raised, reset_done,
  start_locked, stop_begin, stop_end, reset_begin, reset_end, set_task,
}

module _ {A O H : Type 0} where
  pub start_locked-Move : (e : Engine A O H) → Move (episode e) (episode (start_locked e))
  unfolding start_locked
  start_locked-Move e = stay (ground arith)

  -- A stop begins a new, empty episode.
  pub stop_begin-Move :
      (methods : TaskMethods H) (e : Engine A O H)
      → Move (episode e) (episode (stop_begin methods e).0)
  unfolding stop_begin
  stop_begin-Move methods e = invalidate

  -- So does a reset.
  pub reset_begin-Move :
      (methods : TaskMethods H) (e : Engine A O H)
      → Move (episode e) (episode (reset_begin methods e).0)
  unfolding reset_begin
  reset_begin-Move methods e = invalidate

  mark_fatal-episode :
      (w : Bool) (t : String) (d : Bool) (n : Option ℕ) (e : Engine A O H)
      → episode (mark_fatal w t n d e) ≡ episode e
  unfolding mark_fatal
  mark_fatal-episode w t d n e = ground arith

  pub stop_end-Move :
      (w : Bool) (t : Teardown) (e : Engine A O H) → Move (episode e) (episode (stop_end w t e))
  unfolding stop_end mark_fatal
  stop_end-Move w (teardown_raised t) e = stay (ground arith)
  stop_end-Move w threads_alive e = stay (ground arith)
  stop_end-Move w threads_ended e = stay refl

  pub reset_end-Move :
      (w : Bool) (t : TransportReset) (e : Engine A O H)
      → Move (episode e) (episode (reset_end w t e))
  unfolding reset_end mark_fatal
  reset_end-Move w (reset_raised t) e = stay (ground arith)
  reset_end-Move w (reset_done b) e = stay refl

  set_task-episode :
      (task : String) (e : Engine A O H)
      → (episode (set_task task e).0 ≡ episode e)
        ⊎ (episode (set_task task e).0 ≡ record (episode e) { revision = suc e.task_revision })
  unfolding set_task
  set_task-episode task e = ground arith

  pub set_task-Move :
      (task : String) (e : Engine A O H) → Move (episode e) (episode (set_task task e).0)
  set_task-Move task e = elim (set_task-episode task e) [
    | inl same ↦ stay same
    | inr changed ↦ move-to changed change_task
  ]

  pub reset_begin-epoch :
      (methods : TaskMethods H) (e : Engine A O H) → (reset_begin methods e).0.epoch ≡ suc e.epoch
  unfolding reset_begin
  reset_begin-epoch methods e = refl

  pub stop_begin-epoch :
      (methods : TaskMethods H) (e : Engine A O H) → (stop_begin methods e).0.epoch ≡ suc e.epoch
  unfolding stop_begin
  stop_begin-epoch methods e = refl
