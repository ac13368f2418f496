-- ===== src/Vla/Control/Safety.antt =====
-- What the control loop keeps, round after round.
use action_stream.Prelude.{◌≤◌, ◌≡◌}
use action_stream.Vla.Execution.{Execution, Rows, complete}
use action_stream.Vla.Execution.Bounds.{IsBounded, checks}
use action_stream.Vla.Control.{Run}

module _ {R : Type 0} (rows : Rows R) where
  -- the execution is bounded, and it is complete only after a check
  record IsSound (s : Run R) : Type 0 where
    bounded : IsBounded rows s.execution
    checked : s.execution.status ≡ complete → 1 ≤ s.checks
