-- ===== src/Vla/Confirmation.antt =====
-- llm_vla/confirmation.py: `ContinuousConfirmation`.
pub mod Streak
pub mod Examples
use action_stream.Prelude.{
  ℕ, ℤ, pos, negsuc, zero, suc, ◌+◌, String, Bool, true, false, not, ◌&&◌, Option, none, some, leb,
  ◌==◌, if◌then◌else◌, Result, ok, err,
}

pub data Decision : Type 0 where
  complete incomplete unknown : Decision
  other_decision : String → Decision

pub data ConfirmationError : Type 0 where
  bad_window unknown_decision not_advancing : ConfirmationError

pub record Confirmation : Type 0 where
  pub window_controls : ℕ
  pub last_control : Option ℕ
  pub started : Option ℕ

-- `__init__`
pub new_confirmation : ℤ → Result ConfirmationError Confirmation
new_confirmation (negsuc n) = err bad_window
new_confirmation (pos zero) = err bad_window
new_confirmation (pos (suc n)) =
    ok (record { window_controls = suc n; last_control = none; started = none })

abbrev pub is_known : Decision → Bool
is_known (other_decision name) = false
is_known decision = true

abbrev pub is_complete : Decision → Bool
is_complete complete = true
is_complete decision = false

-- the control is later than the last one
abbrev pub advances : Option ℕ → ℕ → Bool
advances none control = true
advances (some last) control = not (leb control last)

-- no control is missing since the last one
abbrev pub follows : Option ℕ → ℕ → Bool
follows none control = true
follows (some last) control = control == suc last

abbrev pub start_at : Option ℕ → ℕ → ℕ
start_at none control = control
start_at (some started) control = started

-- an accepted decision at this control
record_decision : ℕ → Decision → Confirmation → Confirmation × Bool
record_decision control decision c =
    let kept = if follows c.last_control control then c.started else none in
    let start = start_at kept control in
    if is_complete decision
    then (
      record c { last_control = some control; started = some start },
      leb (start + c.window_controls) control,
    )
    else (record c { last_control = some control; started = none }, false)

-- `update`; a call that raises leaves the state as it was
pub update : ℤ → Decision → Confirmation → Confirmation × Result ConfirmationError Bool
unfolding record_decision
update (negsuc n) decision c =
    if is_known decision then (c, err not_advancing) else (c, err unknown_decision)
update (pos control) decision c =
    let (c', confirmed) = record_decision control decision c in
    if not (is_known decision)
    then (c, err unknown_decision)
    else if not (advances c.last_control control)
    then (c, err not_advancing)
    else (c', ok confirmed)
