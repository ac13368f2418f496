-- ===== src/Rpc/Client/Threads/Steps.antt =====
-- rpc_client.py: what one step of a thread does to the generation, the reset flag and the counters of
-- the client.
use action_stream.Prelude.{suc, ◌≡◌, ◌⊎◌, Bool, true, false}
use action_stream.Rpc.Client.{Client}
use action_stream.Rpc.Client.Resets.{Reset, ResetPhase, done}

module _ {A : Type 0} where
  abbrev pub is_done : ResetPhase A → Bool
  is_done done = true
  is_done phase = false

  -- what a step of a reset leaves: the flag is as it was, or it is set, or the reset is acknowledged
  -- while its generation is the current one
  abbrev pub IsAcknowledged : Reset → ResetPhase A → Client → Client → Type 0
  IsAcknowledged r phase' c c' =
      (r.generation ≡ c.generation)
      × (c'.generation ≡ c.generation)
      × (phase' ≡ done)
      × (c'.reset_successes ≡ suc c.reset_successes)

  abbrev pub Flag : Reset → ResetPhase A → Client → Client → Type 0
  Flag r phase' c c' =
      ((c'.reset_required ≡ c.reset_required) × (c'.reset_successes ≡ c.reset_successes))
      ⊎ (c'.reset_required ≡ true) × (c'.reset_successes ≡ c.reset_successes)
      ⊎ IsAcknowledged r phase' c c'
