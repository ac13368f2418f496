-- ===== src/Engine/Episode.antt =====
-- The engine as a specification: what one episode holds, and the moves that are allowed on it.
-- Counters, connection state and the lifecycle flags are left out. The modules named Refines show
-- that each locked step of the engine is one of these moves.
pub mod Invariant
use action_stream.Prelude.{
  ℕ, ℤ, pos, negsuc, suc, suc_ℤ, ◌≤◌, ◌<◌, ◌≡◌, ◌⊎◌, ◌≤ℤ◌, ◌<ℤ◌, String, Bool, true, Option, none,
  some, List, [], ◌∷◌, map, ◌==◌, inl, inr, subst, sym, arith, if◌then◌else◌,
}
use action_stream.Engine.Types.{Identity, ObservationEnvelope, QueuedAction, PendingDelivery}
use action_stream.Engine.State.{Engine}
use action_stream.Engine.Queue.{queued_of}
use action_stream.Engine.Delivery.{heap_push}

pub record Episode (A O : Type 0) : Type 0 where
  pub epoch : ℕ
  pub step : ℤ
  pub next_ordinal : ℕ
  pub revision : ℕ
  pub mailbox : Option (ObservationEnvelope O)
  pub last_submitted : ℤ
  pub last_delivered : ℤ
  pub pending : List (PendingDelivery A)
  pub queue : List (QueuedAction A)
  pub last_action : Option (QueuedAction A)
  pub cancel_event : ℕ
  pub event_set : ℕ → Bool

abbrev pub episode : {A O H : Type 0} → Engine A O H → Episode A O
episode e = record {
  epoch = e.epoch;
  step = e.current_step;
  next_ordinal = e.next_request_ordinal;
  revision = e.task_revision;
  mailbox = e.latest_observation;
  last_submitted = e.last_submitted_source_step;
  last_delivered = e.latest_delivered_source_step;
  pending = e.pending_deliveries;
  queue = e.queue;
  last_action = e.last_action;
  cancel_event = e.epoch_cancelled;
  event_set = e.event_set;
}

-- the response belongs to this episode: its observation was published and its ordinal was issued
pub record IsResponse (epoch : ℕ) (step : ℤ) (ordinal revision : ℕ) (id : Identity) : Type 0 where
  pub same_epoch : id.epoch ≡ epoch
  pub observed : pos 0 ≤ℤ id.source_step
  pub not_newer : id.source_step ≤ℤ step
  pub issued : id.request_ordinal < ordinal
  pub revised : id.task_revision ≤ revision

abbrev pub IsOwned : {A O : Type 0} → Episode A O → Identity → Type 0
IsOwned c = IsResponse c.epoch c.step c.next_ordinal c.revision

-- the response belongs to this episode, or to an earlier one
abbrev pub IsKnown : {A O : Type 0} → Episode A O → Identity → Type 0
IsKnown c identity = (identity.epoch < c.epoch) ⊎ IsOwned c identity

-- the observation was published in this episode
pub record IsObservation {O : Type 0} (epoch : ℕ) (step : ℤ) (o : ObservationEnvelope O)
    : Type 0 where
  pub same_epoch : o.epoch ≡ epoch
  pub observed : pos 0 ≤ℤ o.step
  pub not_newer : o.step ≤ℤ step

abbrev pub IsPublished : {A O : Type 0} → Episode A O → ObservationEnvelope O → Type 0
IsPublished c = IsObservation c.epoch c.step

module _ {A O : Type 0} where
  -- an empty episode with the next number; the cancellation event of the old one is set
  abbrev pub next_episode : Episode A O → Episode A O
  next_episode c = record {
    epoch = suc c.epoch;
    step = negsuc 0;
    next_ordinal = 0;
    revision = c.revision;
    mailbox = none;
    last_submitted = negsuc 0;
    last_delivered = negsuc 0;
    pending = [];
    queue = [];
    last_action = none;
    cancel_event = suc c.cancel_event;
    event_set = λ event. if event == c.cancel_event then true else c.event_set event;
  }

  pub data Move (c : Episode A O) : Episode A O → Type 0 where
    stutter : Move c c
    publish :
        (obs : O)
        → Move c (record c {
          step = suc_ℤ c.step;
          mailbox = some (record { epoch = c.epoch; step = suc_ℤ c.step; observation = obs });
        })
    skip : Move c (record c { step = suc_ℤ c.step })
    take :
        (envelope : ObservationEnvelope O)
        → c.mailbox ≡ some envelope
        → Move c (record c {
          mailbox = none;
          last_submitted = envelope.step;
          next_ordinal = suc c.next_ordinal;
        })
    put_back :
        (envelope : ObservationEnvelope O)
        → IsPublished c envelope
        → Move c (record c { mailbox = some envelope })
    dequeue :
        (queued : QueuedAction A) (rest : List (QueuedAction A))
        → c.queue ≡ queued ∷ rest
        → Move c (record c { queue = rest; last_action = some queued })
    replace :
        (actions : List A) (identity : Identity) (task : String)
        → IsOwned c identity
        → Move c (record c { queue = map (queued_of identity task) actions })
    drop_late :
        (identity : Identity)
        → IsOwned c identity
        → c.last_delivered <ℤ identity.source_step
        → Move c (record c { last_delivered = identity.source_step })
    deliver :
        (actions : List A) (identity : Identity) (task : String)
        → IsOwned c identity
        → c.last_delivered <ℤ identity.source_step
        → Move c (record c {
          last_delivered = identity.source_step;
          queue = map (queued_of identity task) actions;
        })
    schedule :
        (pending : PendingDelivery A)
        → IsOwned c pending.identity
        → Move c (record c { pending = heap_push pending c.pending })
    pop :
        (first : PendingDelivery A) (rest : List (PendingDelivery A))
        → c.pending ≡ first ∷ rest
        → Move c (record c { pending = rest })
    change_task : Move c (record c { revision = suc c.revision })
    invalidate : Move c (next_episode c)

  pub own-known :
      (c : Episode A O) (id : Identity) → IsKnown c id → id.epoch ≡ c.epoch → IsOwned c id
  own-known c id (inl old) e = absurd (omega arith)
  own-known c id (inr own) e = own

  pub move-to : {c d d' : Episode A O} → d ≡ d' → Move c d' → Move c d
  move-to {c} e m = subst (Move c) (sym e) m

  pub stay : {c d : Episode A O} → d ≡ c → Move c d
  stay e = move-to e stutter
