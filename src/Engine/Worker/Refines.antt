-- ===== src/Engine/Worker/Refines.antt =====
-- The locked steps of the worker are moves of the episode.
use action_stream.Prelude.{ℕ, ◌≡◌, refl, ◌⊎◌, inl, inr, Bool, Option, none, some, suc, arith}
use action_stream.Engine.Types.{ObservationEnvelope}
use action_stream.Engine.State.{Engine, TaskMethods}
use action_stream.Engine.Episode.{episode, Move, IsPublished, take, put_back, move-to, stay}
use action_stream.Engine.Worker.{
  Job, taken, worker_take, provider_reset_done, record_failure, escalate, retry_failed_observation,
  complete,
}

module _ {A O H : Type 0} where
  worker_take-episode :
      (methods : TaskMethods H) (e : Engine A O H) (o : ObservationEnvelope O)
      → e.latest_observation ≡ some o
      → (episode (worker_take methods e).0 ≡ episode e)
        ⊎ (episode (worker_take methods e).0 ≡ record (episode e) {
          mailbox = none;
          last_submitted = o.step;
          next_ordinal = suc e.next_request_ordinal;
        })
  unfolding worker_take
  worker_take-episode methods e o h = ground arith

  worker_take-episode_none :
      (methods : TaskMethods H) (e : Engine A O H)
      → e.latest_observation ≡ none
      → episode (worker_take methods e).0 ≡ episode e
  unfolding worker_take
  worker_take-episode_none methods e h = ground arith

  -- The head of a round takes the observation out of the mailbox, or leaves the episode alone.
  pub worker_take-Move :
      (methods : TaskMethods H) (e : Engine A O H)
      → Move (episode e) (episode (worker_take methods e).0)
  worker_take-Move methods e = go e.latest_observation refl
    where
      go :
          (o : Option (ObservationEnvelope O))
          → e.latest_observation ≡ o
          → Move (episode e) (episode (worker_take methods e).0)
      go none p = stay (worker_take-episode_none methods e p)
      go (some o) p = elim (worker_take-episode methods e o p) [
        | inl same ↦ stay same
        | inr moved ↦ move-to moved (take o p)
      ]

  pub provider_reset_done-episode :
      (n : ℕ) (e : Engine A O H) → episode (provider_reset_done n e).0 ≡ episode e
  unfolding provider_reset_done
  provider_reset_done-episode n e = ground arith

  pub record_failure-episode :
      (n : ℕ) (timeout : Bool) (latency : Option ℕ) (e : Engine A O H)
      → episode (record_failure n timeout latency e).0 ≡ episode e
  unfolding record_failure
  record_failure-episode n timeout latency e = ground arith

  pub escalate-episode :
      (w : Bool) (n : ℕ) (o : Option ℕ) (e : Engine A O H) → episode (escalate w n o e) ≡ episode e
  unfolding escalate
  escalate-episode w n o e = ground arith

  pub complete-episode :
      (n latency : ℕ) (e : Engine A O H) → episode (complete n latency e).0 ≡ episode e
  unfolding complete
  complete-episode n latency e = ground arith

  retry_failed_observation-episode :
      (o : ObservationEnvelope O) (e : Engine A O H)
      → (episode (retry_failed_observation o e) ≡ episode e)
        ⊎ (o.epoch ≡ e.epoch)
          × (episode (retry_failed_observation o e) ≡ record (episode e) { mailbox = some o })
  unfolding retry_failed_observation
  retry_failed_observation-episode o e = ground arith

  -- A failed request goes back into an empty mailbox of its own episode, and nowhere else.
  pub retry_failed_observation-Move :
      (o : ObservationEnvelope O) (e : Engine A O H)
      → (o.epoch ≡ e.epoch → IsPublished (episode e) o)
      → Move (episode e) (episode (retry_failed_observation o e))
  retry_failed_observation-Move o e known = elim (retry_failed_observation-episode o e) [
    | inl same ↦ stay same
    | inr (now, put) ↦ move-to put (put_back o (known now))
  ]

  -- What a round takes is the mailbox's observation, with the counters of that moment.
  pub worker_take-taken :
      (methods : TaskMethods H) (e : Engine A O H) (job : Job O)
      → (worker_take methods e).1 ≡ taken job
      → (e.latest_observation ≡ some job.envelope)
        × (job.identity.epoch ≡ job.envelope.epoch)
        × (job.identity.source_step ≡ job.envelope.step)
        × (job.identity.request_ordinal ≡ e.next_request_ordinal)
        × (job.identity.task_revision ≡ e.task_revision)
        × (job.cancelled ≡ e.epoch_cancelled)
        × (episode (worker_take methods e).0 ≡ record (episode e) {
          mailbox = none;
          last_submitted = job.envelope.step;
          next_ordinal = suc e.next_request_ordinal;
        })
  unfolding worker_take
  worker_take-taken methods e job h = ground arith
