-- ===== src/Engine/Queue/Receipts.antt =====
-- The receipt of a dispatched action: where its provenance comes from, and when it is still current.
use action_stream.Prelude.{
  OptionAll, ◌≡◌, refl, subst, sym, true, false, Option, none, some, List, [], ◌∷◌, All, ◌==◌,
  eq_iff, arith,
}
use action_stream.Engine.Types.{Identity, QueuedAction, ActionStreamAction}
use action_stream.Engine.State.{Engine, TaskMethods}
use action_stream.Engine.Queue.{get_action, is_action_current}

module _ {A O H : Type 0} (methods : TaskMethods H) where
  get_action-identity_queued :
      (e : Engine A O H) (packet : ActionStreamAction A) (q : QueuedAction A)
      (rest : List (QueuedAction A))
      → (get_action methods e).1 ≡ some packet
      → e.queue ≡ q ∷ rest
      → packet.identity ≡ q.identity
  unfolding get_action
  get_action-identity_queued e packet q rest h p = ground arith

  get_action-identity_held :
      (e : Engine A O H) (packet : ActionStreamAction A) (q : QueuedAction A)
      → (get_action methods e).1 ≡ some packet
      → e.queue ≡ []
      → e.last_action ≡ some q
      → packet.identity ≡ q.identity
  unfolding get_action
  get_action-identity_held e packet q h p l = ground arith

  get_action-identity_none :
      (e : Engine A O H) (packet : ActionStreamAction A)
      → (get_action methods e).1 ≡ some packet
      → e.queue ≡ []
      → e.last_action ≡ none
      → ⊥
  unfolding get_action
  get_action-identity_none e packet h p l = ground arith

  -- what holds of all that is queued and of the last action holds of what is dispatched
  pub get_action-identity :
      (P : Identity → Type 0) (e : Engine A O H) (packet : ActionStreamAction A)
      → All (λ (q : QueuedAction A). P q.identity) e.queue
      → OptionAll (λ (q : QueuedAction A). P q.identity) e.last_action
      → (get_action methods e).1 ≡ some packet
      → P packet.identity
  get_action-identity P e packet queued last h = go e.queue e.last_action queued last refl refl
    where
      go :
          (queue : List (QueuedAction A)) (held : Option (QueuedAction A))
          → All (λ (q : QueuedAction A). P q.identity) queue
          → OptionAll (λ (q : QueuedAction A). P q.identity) held
          → e.queue ≡ queue
          → e.last_action ≡ held
          → P packet.identity
      go (q ∷ rest) held all kept p l =
          subst P (sym (get_action-identity_queued e packet q rest h p)) all.0
      go [] (some q) all kept p l = subst P (sym (get_action-identity_held e packet q h p l)) kept
      go [] none all kept p l = absurd (get_action-identity_none e packet h p l)

  -- Directly after its dispatch the receipt of an action is current, unless the task was changed since
  -- its request.
  pub get_action-current :
      (e : Engine A O H) (packet : ActionStreamAction A)
      → (get_action methods e).1 ≡ some packet
      → packet.identity.epoch ≡ e.epoch
      → is_action_current (get_action methods e).0 packet
        ≡ (packet.identity.task_revision == e.task_revision)
  unfolding get_action is_action_current
  get_action-current e packet h same = ground (arith, eq_iff e.engine_id e.engine_id)

  -- A receipt of another episode is not current, nor is one of another task revision.
  pub is_action_current_only :
      (e : Engine A O H) (packet : ActionStreamAction A)
      → is_action_current e packet ≡ true
      → (packet.identity.epoch ≡ e.epoch)
        × (packet.identity.task_revision ≡ e.task_revision)
        × (packet.engine_id ≡ e.engine_id)
        × (e.started ≡ true)
        × (e.shutdown ≡ false)
        × (e.resetting ≡ false)
        × (e.fatal_error ≡ false)
  unfolding is_action_current
  is_action_current_only e packet h = ground (arith, eq_iff packet.engine_id e.engine_id)

  pub get_action-counters :
      (e : Engine A O H)
      → ((get_action methods e).0.epoch ≡ e.epoch)
        × ((get_action methods e).0.current_step ≡ e.current_step)
        × ((get_action methods e).0.task_revision ≡ e.task_revision)
  unfolding get_action
  get_action-counters e = ground arith
