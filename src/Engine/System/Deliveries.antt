-- ===== src/Engine/System/Deliveries.antt =====
-- The order of deliveries in every interleaving.
use action_stream.Prelude.{
  ℕ, ℤ, ◌≤◌, ◌≡◌, ◌≢◌, subst, sym, ◌∙◌, Bool, true, false, Option, String, All, ◌≤ℤ◌, arith,
}
use action_stream.Engine.Types.{Config, PendingDelivery}
use action_stream.Engine.State.{TaskMethods, TaskSlot}
use action_stream.Engine.Queue.{merge_chunk, delivered}
use action_stream.Engine.Queue.Merging.{merge_delivered, merge_not_newer}
use action_stream.Engine.Delivery.{before, delivery_turn, popped}
use action_stream.Engine.Delivery.Order.{IsOrdered}
use action_stream.Engine.Delivery.Refines.{delivery_turn-popped}
use action_stream.Engine.Episode.{
  Episode, Move, stutter, publish, skip, take, put_back, dequeue, replace, drop_late, deliver,
  schedule, pop, change_task, invalidate,
}
use action_stream.Engine.System.{System, Reach, here, next, delivers, holding, no_delivery}
use action_stream.Engine.System.Provenance.{SystemInv, Step-Move, Step-SystemInv, Reach-SystemInv}
use action_stream.Engine.System.Currency.{initial, initial-SystemInv, Move-epoch, Reach-epoch}

module _ {A O H : Type 0} (methods : TaskMethods H) where
  -- In every interleaving the delivery thread takes a response that is due, and none that stays behind
  -- comes before it by delivery time and ordinal.
  pub pops_earliest :
      (config : Config) (id : String) (sink : Bool) (shutdown : Option Bool) (slot : TaskSlot H)
      (s : System A O H) (now : ℕ) (p : PendingDelivery A)
      → Reach methods (initial config id sink shutdown slot) s
      → (delivery_turn now s.engine).1 ≡ popped p
      → (p.scheduled_delivery_timestamp ≤ now)
        × All
            (λ (q : PendingDelivery A). before q p ≡ false)
            (delivery_turn now s.engine).0.pending_deliveries
  pops_earliest config id sink shutdown slot s now p r h =
      let v = Reach-SystemInv methods (initial-SystemInv methods config id sink shutdown slot) r in
      let (full, due, _, _, _) = delivery_turn-popped now s.engine p h in
      (due, (subst IsOrdered full v.inv.ordered).0)

  Move-delivered :
      {c d : Episode A O} → Move c d → d.epoch ≡ c.epoch → c.last_delivered ≤ℤ d.last_delivered
  Move-delivered (drop_late i h n) e = omega arith
  Move-delivered (deliver actions i task h n) e = omega arith
  Move-delivered invalidate e = absurd (omega arith)
  Move-delivered stutter e = omega arith
  Move-delivered (publish obs) e = omega arith
  Move-delivered skip e = omega arith
  Move-delivered (take o p) e = omega arith
  Move-delivered (put_back o h) e = omega arith
  Move-delivered (dequeue q rest p) e = omega arith
  Move-delivered (replace actions i task h) e = omega arith
  Move-delivered (schedule p h) e = omega arith
  Move-delivered (pop p rest h) e = omega arith
  Move-delivered change_task e = omega arith

  Reach-delivered :
      {s t : System A O H}
      → SystemInv methods s
      → Reach methods s t
      → t.engine.epoch ≡ s.engine.epoch
      → s.engine.latest_delivered_source_step ≤ℤ t.engine.latest_delivered_source_step
  Reach-delivered v here e = omega arith
  Reach-delivered {s} {t = u} v (next {t} r step) e =
      let move = Step-Move methods step (Reach-SystemInv methods v r) in
      let up = Move-epoch methods move in
      let low = Reach-epoch methods v r in
      let same : t.engine.epoch ≡ s.engine.epoch = omega arith in
      omega (arith, Reach-delivered v r same, Move-delivered move (e ∙ sym same))

  -- From any state in which the system invariant holds: once the response that the delivery thread
  -- holds has been delivered, no scheduled response that is not newer reaches the queue in the
  -- same episode, whatever the threads do in between.
  pub no_older_after :
      (s t : System A O H) (p q : PendingDelivery A)
      → SystemInv methods s
      → s.delivery ≡ holding p
      → (merge_chunk p.actions p.identity p.task true s.engine).1 ≡ delivered
      → Reach methods
          (record s {
            engine = (merge_chunk p.actions p.identity p.task true s.engine).0;
            delivery = no_delivery;
          })
          t
      → t.engine.epoch ≡ s.engine.epoch
      → q.identity.source_step ≤ℤ p.identity.source_step
      → ((merge_chunk q.actions q.identity q.task true t.engine).1 ≢ delivered)
        × ((merge_chunk q.actions q.identity q.task true t.engine).0.queue ≡ t.engine.queue)
  no_older_after s t p q v held first r same older =
      let (newest, epoch, _) = merge_delivered p.actions p.identity p.task s.engine first in
      let grown =
        Reach-delivered (Step-SystemInv methods (delivers p held) v) r (same ∙ sym epoch) in
      let reached = subst (λ (n : ℤ). n ≤ℤ t.engine.latest_delivered_source_step) newest grown in
      merge_not_newer q.actions q.identity q.task t.engine (omega arith)
