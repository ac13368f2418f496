-- ===== src/Engine/Delivery/Refines.antt =====
-- The locked steps of delivery_scheduler.py are moves of the episode.
use action_stream.Prelude.{ℕ, ◌≤◌, ◌≡◌, refl, ◌⊎◌, inl, inr, false, List, [], ◌∷◌, arith}
use action_stream.Engine.Types.{PendingDelivery}
use action_stream.Engine.State.{Engine}
use action_stream.Engine.Episode.{episode, IsKnown, Move, schedule, pop, own-known, move-to, stay}
use action_stream.Engine.Delivery.{push_delivery, heap_push, delivery_turn, popped}

module _ {A O H : Type 0} where
  push_delivery-episode :
      (p : PendingDelivery A) (e : Engine A O H)
      → (episode (push_delivery p e).0 ≡ episode e)
        ⊎ (p.identity.epoch ≡ e.epoch)
          × (episode (push_delivery p e).0
              ≡ record (episode e) { pending = heap_push p e.pending_deliveries })
  unfolding push_delivery
  push_delivery-episode p e = ground arith

  -- A response of the current episode is put in the heap; any other leaves the episode alone.
  pub push_delivery-Move :
      (p : PendingDelivery A) (e : Engine A O H)
      → IsKnown (episode e) p.identity
      → Move (episode e) (episode (push_delivery p e).0)
  push_delivery-Move p e known = elim (push_delivery-episode p e) [
    | inl same ↦ stay same
    | inr (now, pushed) ↦ move-to pushed (schedule p (own-known (episode e) p.identity known now))
  ]

  delivery_turn-episode_empty :
      (now : ℕ) (e : Engine A O H)
      → e.pending_deliveries ≡ []
      → episode (delivery_turn now e).0 ≡ episode e
  unfolding delivery_turn
  delivery_turn-episode_empty now e h = ground arith

  delivery_turn-episode :
      (now : ℕ) (e : Engine A O H) (p : PendingDelivery A) (rest : List (PendingDelivery A))
      → e.pending_deliveries ≡ p ∷ rest
      → (episode (delivery_turn now e).0 ≡ episode e)
        ⊎ (episode (delivery_turn now e).0 ≡ record (episode e) { pending = rest })
  unfolding delivery_turn
  delivery_turn-episode now e p rest h = ground arith

  -- A look at the heap takes its first entry out, or leaves the episode alone.
  pub delivery_turn-Move :
      (now : ℕ) (e : Engine A O H) → Move (episode e) (episode (delivery_turn now e).0)
  delivery_turn-Move now e = go e.pending_deliveries refl
    where
      go :
          (xs : List (PendingDelivery A))
          → e.pending_deliveries ≡ xs
          → Move (episode e) (episode (delivery_turn now e).0)
      go [] h = stay (delivery_turn-episode_empty now e h)
      go (p ∷ rest) h = elim (delivery_turn-episode now e p rest h) [
        | inl same ↦ stay same
        | inr moved ↦ move-to moved (pop p rest h)
      ]

  -- What a look returns was the first entry, is due, and was taken while the engine ran.
  pub delivery_turn-popped :
      (now : ℕ) (e : Engine A O H) (p : PendingDelivery A)
      → (delivery_turn now e).1 ≡ popped p
      → (e.pending_deliveries ≡ p ∷ (delivery_turn now e).0.pending_deliveries)
        × (p.scheduled_delivery_timestamp ≤ now)
        × (e.shutdown ≡ false)
        × (e.fatal_error ≡ false)
        × (e.resetting ≡ false)
  unfolding delivery_turn
  delivery_turn-popped now e p h = ground arith
