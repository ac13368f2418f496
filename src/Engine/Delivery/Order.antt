-- ===== src/Engine/Delivery/Order.antt =====
-- The order of the heap: by delivery time, and by ordinal where times agree.
use action_stream.Prelude.{
  ◌≡◌, inl, inr, true, false, List, [], ◌∷◌, All, All-weaken, Bool-cases, arith,
}
use action_stream.Engine.Types.{PendingDelivery}
use action_stream.Engine.Delivery.{before, heap_push}

module _ {A : Type 0} where
  -- no entry comes before one that stands above it
  abbrev pub IsOrdered : List (PendingDelivery A) → Type 0
  IsOrdered [] = Unit {0}
  IsOrdered (p ∷ rest) = All (λ (q : PendingDelivery A). before q p ≡ false) rest × IsOrdered rest

  before_asym : (p q : PendingDelivery A) → before p q ≡ true → before q p ≡ false
  before_asym p q h = ground arith

  before_trans :
      (p q r : PendingDelivery A) → before p q ≡ true → before r q ≡ false → before r p ≡ false
  before_trans p q r h k = ground arith

  pub heap_push-All :
      (P : PendingDelivery A → Type 0) (p : PendingDelivery A) (xs : List (PendingDelivery A))
      → P p
      → All P xs
      → All P (heap_push p xs)
  unfolding heap_push
  heap_push-All P p [] h all = (h, tt)
  heap_push-All P p (x ∷ xs) h all = elim (Bool-cases (before p x)) [
    | inl first ↦ rw first (h, (all.0, all.1))
    | inr later ↦ rw later (all.0, heap_push-All P p xs h all.1)
  ]

  -- A push into a heap that is in order by delivery time, and by ordinal where times agree, leaves
  -- it in order.
  pub heap_push-IsOrdered :
      (p : PendingDelivery A) (xs : List (PendingDelivery A))
      → IsOrdered xs
      → IsOrdered (heap_push p xs)
  unfolding heap_push
  heap_push-IsOrdered p [] o = (tt, tt)
  heap_push-IsOrdered p (x ∷ xs) o = elim (Bool-cases (before p x)) [
    | inl first ↦
        rw first (
          (before_asym p x first, All-weaken (λ q k. before_trans p x q first k) xs o.0),
          (o.0, o.1),
        )
    | inr later ↦
        rw later
          (heap_push-All (λ q. before q x ≡ false) p xs later o.0, heap_push-IsOrdered p xs o.1)
  ]
