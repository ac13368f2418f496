-- ===== src/Engine/Observing/Refines.antt =====
-- The locked part of `notify_observation` is a move of the episode.
use action_stream.Prelude.{◌≡◌, ◌⊎◌, inl, inr, some, suc_ℤ, arith}
use action_stream.Engine.State.{Engine}
use action_stream.Engine.Episode.{episode, Move, publish, skip, move-to}
use action_stream.Engine.Observing.{notify_observation_locked}

module _ {A O H : Type 0} where
  notify_observation_locked-episode :
      (obs : O) (e : Engine A O H)
      → let c = episode e in
        let after = episode (notify_observation_locked obs e) in
        (after ≡ record c { step = suc_ℤ c.step })
        ⊎ (after ≡ record c {
          step = suc_ℤ c.step;
          mailbox = some (record { epoch = c.epoch; step = suc_ℤ c.step; observation = obs });
        })
  unfolding notify_observation_locked
  notify_observation_locked-episode obs e = ground arith

  -- An observation is published with the next step number, or skipped with it.
  pub notify_observation_locked-Move :
      (obs : O) (e : Engine A O H) → Move (episode e) (episode (notify_observation_locked obs e))
  notify_observation_locked-Move obs e = elim (notify_observation_locked-episode obs e) [
    | inl skipped ↦ move-to skipped skip
    | inr published ↦ move-to published (publish obs)
  ]
