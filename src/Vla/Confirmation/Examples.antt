-- ===== src/Vla/Confirmation/Examples.antt =====
-- A window of one control.
use action_stream.Prelude.{pos, ◌≡◌, refl, true, none, [], ◌∷◌, ok, arith}
use action_stream.Vla.Confirmation.{Confirmation, complete, unknown, update}
use action_stream.Vla.Confirmation.Streak.{History, replay, update-streak}

abbrev fresh : Confirmation
fresh = record { window_controls = 1; last_control = none; started = none }

abbrev seen : History
seen = (4, complete) ∷ (3, unknown) ∷ []

update-streak_example : (update (pos 5) complete (replay fresh seen)).1 ≡ ok true
update-streak_example =
    update-streak fresh seen 5 complete (record { last = refl; start = refl })
      ((refl, omega arith), (refl, tt)) (refl, omega arith)
