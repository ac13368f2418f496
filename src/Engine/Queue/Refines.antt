-- ===== src/Engine/Queue/Refines.antt =====
-- The locked steps of action_queue.py are moves of the episode.
use action_stream.Prelude.{
  ◌≡◌, refl, ◌⊎◌, inl, inr, Bool, true, false, some, List, [], ◌∷◌, String, arith, map, drop, min,
  length, age, ◌<ℤ◌,
}
use action_stream.Engine.Types.{Identity, QueuedAction}
use action_stream.Engine.State.{Engine, TaskMethods}
use action_stream.Engine.Episode.{
  Episode, episode, IsOwned, IsKnown, Move, dequeue, replace, drop_late, deliver, own-known,
  move-to, stay,
}
use action_stream.Engine.Queue.{get_action, merge_chunk, queued_of}

module _ {A O H : Type 0} where
  -- what `get_action` leaves of the queue and of the last action
  get_action-episode_queued :
      (methods : TaskMethods H) (e : Engine A O H) (q : QueuedAction A)
      (rest : List (QueuedAction A))
      → e.queue ≡ q ∷ rest
      → (episode (get_action methods e).0 ≡ episode e)
        ⊎ (episode (get_action methods e).0
            ≡ record (episode e) { queue = rest; last_action = some q })
  unfolding get_action
  get_action-episode_queued methods e q rest h = ground arith

  get_action-episode_empty :
      (methods : TaskMethods H) (e : Engine A O H)
      → e.queue ≡ []
      → episode (get_action methods e).0 ≡ episode e
  unfolding get_action
  get_action-episode_empty methods e h = ground arith

  -- the five ways in which a merge ends
  abbrev MergeEnds : List A → Identity → String → Bool → Engine A O H → Episode A O → Type 0
  MergeEnds actions id task scheduled e after =
      let n = min (age e.current_step id.source_step) (length actions) in
      let c = episode e in
      (after ≡ c)
      ⊎ (id.epoch ≡ e.epoch)
        × (scheduled ≡ false)
        × ((after ≡ record c { queue = map (queued_of id task) actions })
            ⊎ (after ≡ record c { queue = map (queued_of id task) (drop n actions) }))
      ⊎ (id.epoch ≡ e.epoch)
        × (e.latest_delivered_source_step <ℤ id.source_step)
        × ((after ≡ record c { last_delivered = id.source_step })
            ⊎ (after ≡ record c {
              last_delivered = id.source_step;
              queue = map (queued_of id task) actions;
            })
            ⊎ (after ≡ record c {
              last_delivered = id.source_step;
              queue = map (queued_of id task) (drop n actions);
            }))

  merge_chunk-MergeEnds :
      (actions : List A) (id : Identity) (task : String) (scheduled : Bool) (e : Engine A O H)
      → MergeEnds actions id task scheduled e (episode (merge_chunk actions id task scheduled e).0)
  unfolding merge_chunk
  merge_chunk-MergeEnds actions id task true e = ground arith
  merge_chunk-MergeEnds actions id task false e = ground arith

  -- A pull moves the head of the queue to the last action, or leaves the episode alone.
  pub get_action-Move :
      (methods : TaskMethods H) (e : Engine A O H)
      → Move (episode e) (episode (get_action methods e).0)
  get_action-Move methods e = go e.queue refl
    where
      go :
          (queue : List (QueuedAction A))
          → e.queue ≡ queue
          → Move (episode e) (episode (get_action methods e).0)
      go [] p = stay (get_action-episode_empty methods e p)
      go (q ∷ rest) p = elim (get_action-episode_queued methods e q rest p) [
        | inl same ↦ stay same
        | inr moved ↦ move-to moved (dequeue q rest p)
      ]

  -- A merge replaces the queue, marks a response as delivered, does both, or leaves the episode alone.
  pub merge_chunk-Move :
      (actions : List A) (id : Identity) (task : String) (scheduled : Bool) (e : Engine A O H)
      → IsKnown (episode e) id
      → Move (episode e) (episode (merge_chunk actions id task scheduled e).0)
  merge_chunk-Move actions id task scheduled e known =
      let own : id.epoch ≡ e.epoch → IsOwned (episode e) id = own-known (episode e) id known in
      elim (merge_chunk-MergeEnds actions id task scheduled e) [
        | inl same ↦ stay same
        | inr (inl (now, _, inl all)) ↦ move-to all (replace actions id task (own now))
        | inr (inl (now, _, inr some_of)) ↦ move-to some_of (replace _ id task (own now))
        | inr (inr (now, newer, inl late)) ↦ move-to late (drop_late id (own now) newer)
        | inr (inr (now, newer, inr (inl all))) ↦
            move-to all (deliver actions id task (own now) newer)
        | inr (inr (now, newer, inr (inr some_of))) ↦
            move-to some_of (deliver _ id task (own now) newer)
      ]
