-- ===== src/Engine/Episode/Invariant.antt =====
-- Every move keeps the episode's invariant, and what a thread holds of an earlier request.
use action_stream.Prelude.{
  ℕ, ℤ, pos, ◌≤◌, ◌<◌, ◌≡◌, ◌⊎◌, inl, inr, ◌≤ℤ◌, suc_ℤ, negsuc, suc, zero, Option, none, some, ◌∷◌,
  All, All-map, All-weaken, OptionAll, subst, refl, ltb, arith,
}
use action_stream.Engine.Types.{Identity, ObservationEnvelope, QueuedAction, PendingDelivery}
use action_stream.Engine.Queue.{queued_of}
use action_stream.Engine.Delivery.Order.{IsOrdered, heap_push-All, heap_push-IsOrdered}
use action_stream.Engine.Episode.{
  Episode, IsOwned, IsResponse, IsObservation, IsKnown, IsPublished, Move, stutter, publish, skip,
  take, put_back, dequeue, replace, drop_late, deliver, schedule, pop, change_task, invalidate,
}

suc-ℤ-le : (a : ℤ) → a ≤ℤ suc_ℤ a
suc-ℤ-le (pos n) = omega arith
suc-ℤ-le (negsuc zero) = omega arith
suc-ℤ-le (negsuc (suc n)) = omega arith

pos_le-suc_ℤ : (a : ℤ) → negsuc 0 ≤ℤ a → pos 0 ≤ℤ suc_ℤ a
pos_le-suc_ℤ (pos n) h = omega arith
pos_le-suc_ℤ (negsuc zero) h = omega arith
pos_le-suc_ℤ (negsuc (suc n)) h = absurd (omega arith)

module _ {A O : Type 0} where
  -- All that the episode stores is its own.
  pub record Inv (c : Episode A O) : Type 0 where
    pub queued : All (λ (q : QueuedAction A). IsOwned c q.identity) c.queue
    pub dispatched : OptionAll (λ (q : QueuedAction A). IsOwned c q.identity) c.last_action
    pub scheduled : All (λ (p : PendingDelivery A). IsOwned c p.identity) c.pending
    pub ordered : IsOrdered c.pending
    pub published : OptionAll (IsPublished c) c.mailbox
    pub submitted : c.last_submitted ≤ℤ c.step
    pub delivered : c.last_delivered ≤ℤ c.step
    pub bounded : negsuc 0 ≤ℤ c.step
    pub event : c.cancel_event ≡ c.epoch
    pub events : (n : ℕ) → c.event_set n ≡ ltb n c.epoch

  own-step :
      (c : Episode A O) (step : ℤ) (ordinal revision : ℕ)
      → c.step ≤ℤ step
      → c.next_ordinal ≤ ordinal
      → c.revision ≤ revision
      → (id : Identity) → IsOwned c id
      → IsResponse c.epoch step ordinal revision id
  own-step c step ordinal revision hs ho hr id o = record {
    same_epoch = o.same_epoch;
    observed = o.observed;
    not_newer = omega arith;
    issued = omega arith;
    revised = omega arith;
  }

  -- the stored responses stay the episode's own while its counters grow
  grow :
      (c : Episode A O) (step : ℤ) (ordinal revision : ℕ)
      → c.step ≤ℤ step
      → c.next_ordinal ≤ ordinal
      → c.revision ≤ revision
      → Inv c
      → Inv (record c { step = step; next_ordinal = ordinal; revision = revision })
  grow c step ordinal revision hs ho hr v = record {
    queued =
        All-weaken (λ q. own-step c step ordinal revision hs ho hr q.identity) c.queue v.queued;
    dispatched = own-option c.last_action v.dispatched;
    ordered = v.ordered;
    scheduled =
        All-weaken (λ p. own-step c step ordinal revision hs ho hr p.identity) c.pending
          v.scheduled;
    published = own-mailbox c.mailbox v.published;
    submitted = let h = v.submitted in omega arith;
    delivered = let h = v.delivered in omega arith;
    bounded = let h = v.bounded in omega arith;
    event = v.event;
    events = v.events;
  }
    where
      own-option :
          (o : Option (QueuedAction A))
          → OptionAll (λ (q : QueuedAction A). IsOwned c q.identity) o
          → OptionAll
              (λ (q : QueuedAction A). IsResponse c.epoch step ordinal revision q.identity)
              o
      own-option none h = tt
      own-option (some q) h = own-step c step ordinal revision hs ho hr q.identity h

      own-mailbox :
          (o : Option (ObservationEnvelope O))
          → OptionAll (IsPublished c) o
          → OptionAll (IsObservation c.epoch step) o
      own-mailbox none h = tt
      own-mailbox (some q) h = record {
        same_epoch = h.same_epoch;
        observed = h.observed;
        not_newer = omega arith;
      }

  -- Every move keeps the invariant: all that the episode stores is its own, its heap is in order, and its
  -- cancellation event is unset while those of all earlier episodes are set.
  pub Move-Inv : {c d : Episode A O} → Move c d → Inv c → Inv d
  unfolding queued_of
  Move-Inv stutter v = v
  Move-Inv {c} (publish obs) v =
      let w =
        grow c (suc_ℤ c.step) c.next_ordinal c.revision (suc-ℤ-le c.step) (omega arith)
          (omega arith) v in
      record {
        queued = w.queued;
        dispatched = w.dispatched;
        scheduled = w.scheduled;
        ordered = w.ordered;
        published = record {
          same_epoch = refl;
          observed = pos_le-suc_ℤ c.step v.bounded;
          not_newer = omega arith;
        };
        submitted = w.submitted;
        delivered = w.delivered;
        bounded = w.bounded;
        event = w.event;
        events = w.events;
      }
  Move-Inv {c} skip v =
      grow c (suc_ℤ c.step) c.next_ordinal c.revision (suc-ℤ-le c.step) (omega arith) (omega arith)
        v
  Move-Inv {c} (take o e) v =
      let published : IsPublished c o = subst (OptionAll (IsPublished c)) e v.published in
      let w =
        grow c c.step (suc c.next_ordinal) c.revision (omega arith) (omega arith) (omega arith) v in
      record {
        queued = w.queued;
        dispatched = w.dispatched;
        scheduled = w.scheduled;
        ordered = w.ordered;
        published = tt;
        submitted = published.not_newer;
        delivered = w.delivered;
        bounded = w.bounded;
        event = w.event;
        events = w.events;
      }
  Move-Inv (put_back o h) v = record {
    queued = v.queued;
    dispatched = v.dispatched;
    scheduled = v.scheduled;
    ordered = v.ordered;
    published = h;
    submitted = v.submitted;
    delivered = v.delivered;
    bounded = v.bounded;
    event = v.event;
    events = v.events;
  }
  Move-Inv {c} (dequeue q rest e) v =
      let all : All (λ (q : QueuedAction A). IsOwned c q.identity) (q ∷ rest) =
        subst (All (λ (q : QueuedAction A). IsOwned c q.identity)) e v.queued in
      record {
        queued = all.1;
        dispatched = all.0;
        scheduled = v.scheduled;
        ordered = v.ordered;
        published = v.published;
        submitted = v.submitted;
        delivered = v.delivered;
        bounded = v.bounded;
        event = v.event;
        events = v.events;
      }
  Move-Inv {c} (replace actions id task h) v = record {
    queued = All-map _ (queued_of id task) actions (λ a. h);
    dispatched = v.dispatched;
    scheduled = v.scheduled;
    ordered = v.ordered;
    published = v.published;
    submitted = v.submitted;
    delivered = v.delivered;
    bounded = v.bounded;
    event = v.event;
    events = v.events;
  }
  Move-Inv (drop_late id h n) v = record {
    queued = v.queued;
    dispatched = v.dispatched;
    scheduled = v.scheduled;
    ordered = v.ordered;
    published = v.published;
    submitted = v.submitted;
    delivered = h.not_newer;
    bounded = v.bounded;
    event = v.event;
    events = v.events;
  }
  Move-Inv {c} (deliver actions id task h n) v = record {
    queued = All-map _ (queued_of id task) actions (λ a. h);
    dispatched = v.dispatched;
    scheduled = v.scheduled;
    ordered = v.ordered;
    published = v.published;
    submitted = v.submitted;
    delivered = h.not_newer;
    bounded = v.bounded;
    event = v.event;
    events = v.events;
  }
  Move-Inv {c} (schedule p h) v = record {
    queued = v.queued;
    dispatched = v.dispatched;
    scheduled = heap_push-All _ p c.pending h v.scheduled;
    ordered = heap_push-IsOrdered p c.pending v.ordered;
    published = v.published;
    submitted = v.submitted;
    delivered = v.delivered;
    bounded = v.bounded;
    event = v.event;
    events = v.events;
  }
  Move-Inv {c} (pop p rest e) v =
      let all : All (λ (p : PendingDelivery A). IsOwned c p.identity) (p ∷ rest) =
        subst (All (λ (p : PendingDelivery A). IsOwned c p.identity)) e v.scheduled in
      record {
        queued = v.queued;
        dispatched = v.dispatched;
        scheduled = all.1;
        ordered = (subst IsOrdered e v.ordered).1;
        published = v.published;
        submitted = v.submitted;
        delivered = v.delivered;
        bounded = v.bounded;
        event = v.event;
        events = v.events;
      }
  Move-Inv {c} change_task v =
      grow c c.step c.next_ordinal (suc c.revision) (omega arith) (omega arith) (omega arith) v
  Move-Inv {c} invalidate v = record {
    queued = tt;
    dispatched = tt;
    scheduled = tt;
    ordered = tt;
    published = tt;
    submitted = omega arith;
    delivered = omega arith;
    bounded = omega arith;
    event = let h = v.event in omega arith;
    events = λ n. ground (arith, v.events n, v.event);
  }

  keep-known :
      (c : Episode A O) (step : ℤ) (ordinal revision : ℕ)
      → c.step ≤ℤ step
      → c.next_ordinal ≤ ordinal
      → c.revision ≤ revision
      → (id : Identity) → IsKnown c id
      → (id.epoch < c.epoch) ⊎ IsResponse c.epoch step ordinal revision id
  keep-known c step ordinal revision hs ho hr id (inl old) = inl old
  keep-known c step ordinal revision hs ho hr id (inr own) =
      inr (own-step c step ordinal revision hs ho hr id own)

  -- What a thread knows of a request stays true, whatever the others do.
  pub Move-IsKnown : {c d : Episode A O} (id : Identity) → Move c d → IsKnown c id → IsKnown d id
  Move-IsKnown {c} id (publish obs) k =
      keep-known c (suc_ℤ c.step) c.next_ordinal c.revision (suc-ℤ-le c.step) (omega arith)
        (omega arith) id k
  Move-IsKnown {c} id skip k =
      keep-known c (suc_ℤ c.step) c.next_ordinal c.revision (suc-ℤ-le c.step) (omega arith)
        (omega arith) id k
  Move-IsKnown {c} id (take o e) k =
      keep-known c c.step (suc c.next_ordinal) c.revision (omega arith) (omega arith) (omega arith)
        id k
  Move-IsKnown {c} id change_task k =
      keep-known c c.step c.next_ordinal (suc c.revision) (omega arith) (omega arith) (omega arith)
        id k
  Move-IsKnown id invalidate (inl old) = inl (omega arith)
  Move-IsKnown id invalidate (inr own) = inl (let e = own.same_epoch in omega arith)
  Move-IsKnown id (put_back o h) k = k
  Move-IsKnown id (dequeue q rest e) k = k
  Move-IsKnown id (replace actions i task h) k = k
  Move-IsKnown id (drop_late i h n) k = k
  Move-IsKnown id (deliver actions i task h n) k = k
  Move-IsKnown id (schedule p h) k = k
  Move-IsKnown id (pop p rest e) k = k
  Move-IsKnown id stutter k = k
