-- ===== src/Engine/Queue/Examples.antt =====
-- Merges and pulls on small engines.
use mathlib.Core.Option
use action_stream.Prelude.{
  ℕ, pos, suc, ◌+◌, ◌≡◌, refl, inl, true, false, none, [], ◌∷◌, map, take, get_elem?, arith, ◌↔◌,
  ◌⊎◌,
}
use action_stream.Engine.Types.{Identity}
use action_stream.Engine.State.{Engine, new_engine}
use action_stream.Engine.Queue.{merge_chunk, packet_of, queued_of, rejected_reset}
use action_stream.Engine.Queue.Merging.{
  IsOverdue, passed, merge_aligned, merge_fallback, merge_expired, merge_blocked,
}
use action_stream.Engine.Queue.Holding.{packets, supply_of, packets-supply}
use action_stream.Engine.Samples.{methods, config, slot, identity}

-- a started engine at the step 1, with one queued action
abbrev engine : Engine ℕ ℕ (Unit {0})
engine = record (new_engine config "engine" false none slot) {
  started = true;
  current_step = pos 1;
  queue = queued_of identity "pick" 9 ∷ [];
}

-- the same engine, which has nothing left to dispatch
abbrev starving : Engine ℕ ℕ (Unit {0})
starving = record engine { queue = []; starved_pulls = 1 }

-- the identity of a request of the next episode
abbrev foreign : Identity
foreign = record identity { epoch = 1 }

merge_aligned_example :
    let e' = (merge_chunk (5 ∷ 6 ∷ []) identity "pick" false engine).0 in
    ((i : ℕ)
      → get_elem? e'.queue i
        ≡ Option.map (queued_of identity "pick") (get_elem? (5 ∷ 6 ∷ []) (1 + i)))
    × (e'.metrics.stale_actions_discarded ≡ engine.metrics.stale_actions_discarded + 1)
    × (e'.metrics.chunks_accepted ≡ suc engine.metrics.chunks_accepted)
    × (e'.hold_steps_used ≡ 0)
    × (e'.starved_pulls ≡ 0)
unfolding new_engine
merge_aligned_example =
    merge_aligned (5 ∷ 6 ∷ []) identity "pick" false engine refl tt (omega arith)

merge_fallback_example :
    let e' = (merge_chunk (5 ∷ []) identity "pick" false starving).0 in
    ((e'.metrics.fallback_chunks_accepted ≡ suc starving.metrics.fallback_chunks_accepted)
      ↔ IsOverdue (5 ∷ []) identity "pick" starving)
    × (IsOverdue (5 ∷ []) identity "pick" starving
        → (e'.queue ≡ queued_of identity "pick" 5 ∷ [])
          × (e'.metrics.chunks_accepted ≡ suc starving.metrics.chunks_accepted)
          × (e'.metrics.stale_actions_discarded ≡ starving.metrics.stale_actions_discarded)
          × (e'.hold_steps_used ≡ 0))
    × (¬ IsOverdue (5 ∷ []) identity "pick" starving
        → (e'.metrics.fallback_chunks_accepted ≡ starving.metrics.fallback_chunks_accepted)
          × ((e'.queue ≡ [])
              ⊎ ((e'.queue ≡ starving.queue)
                  × (e'.metrics.chunks_accepted ≡ starving.metrics.chunks_accepted))))
unfolding new_engine
merge_fallback_example = merge_fallback (5 ∷ []) identity "pick" false starving refl tt

merge_expired_example :
    let e' = (merge_chunk (5 ∷ []) identity "pick" false engine).0 in
    (e' ≡ passed (5 ∷ []) identity "pick" false e'.metrics engine)
    × (e'.metrics.chunks_rejected_stale ≡ suc engine.metrics.chunks_rejected_stale)
    × (e'.metrics.stale_actions_discarded ≡ engine.metrics.stale_actions_discarded + 1)
    × ((n : ℕ) → packets methods n e' ≡ packets methods n engine)
unfolding new_engine
merge_expired_example =
    merge_expired (5 ∷ []) identity "pick" methods false engine refl tt (omega arith) (λ may. cc)

merge_blocked_example :
    let (e', status, step) = merge_chunk (5 ∷ []) foreign "pick" false engine in
    (e' ≡ record engine { metrics = e'.metrics })
    × (e'.metrics.chunks_accepted ≡ engine.metrics.chunks_accepted)
    × (status ≡ rejected_reset)
unfolding new_engine
merge_blocked_example = merge_blocked (5 ∷ []) foreign "pick" false engine (inl refl)

packets-supply_example :
    packets methods 4 engine ≡ map (packet_of "engine") (take 4 (supply_of methods engine))
unfolding new_engine
packets-supply_example = packets-supply methods 4 engine refl (omega arith)
