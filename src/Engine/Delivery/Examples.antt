-- ===== src/Engine/Delivery/Examples.antt =====
-- A push into a heap of two responses.
use action_stream.Prelude.{refl, [], ◌∷◌}
use action_stream.Engine.Types.{PendingDelivery}
use action_stream.Engine.Delivery.{pending_of}
use action_stream.Engine.Delivery.Order.{IsOrdered}
use action_stream.Engine.Samples.{identity}

abbrev early : PendingDelivery (Unit {0})
early = pending_of identity "pick" [] 1 2

abbrev late : PendingDelivery (Unit {0})
late = pending_of identity "pick" [] 4 5

abbrev middle : PendingDelivery (Unit {0})
middle = pending_of identity "pick" [] 2 2

two : IsOrdered (early ∷ late ∷ [])
unfolding pending_of
two = ((refl, tt), (tt, tt))
