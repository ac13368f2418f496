-- ===== src/Vla/Confirmation/Streak.antt =====
-- A confirmation is a statement about the decisions seen: how long the last unbroken run of them is.
use action_stream.Prelude.{
  ℕ, pos, suc, ◌+◌, ◌<◌, ◌≡◌, refl, ap, ◌∙◌, true, Option, none, some, List, [], ◌∷◌, ltb, leb,
  ◌&&◌, inl, inr, Bool-cases, ◌==◌, if◌then◌else◌, ok, arith,
}
use action_stream.Vla.Confirmation.{
  Confirmation, Decision, is_known, is_complete, update, follows, start_at, advances,
}

-- the decisions seen so far, with the latest in front
abbrev pub History : Type 0
History = List (ℕ × Decision)

-- how many decisions, from the latest back, are complete with no control missing between them
abbrev pub streak : History → ℕ
streak [] = 0
streak ((control, decision) ∷ []) = if is_complete decision then 1 else 0
streak ((control, decision) ∷ (last, before) ∷ rest) =
    let earlier = streak ((last, before) ∷ rest) in
    if is_complete decision then (if control == suc last then suc earlier else 1) else 0

-- a known decision at a control later than the last
abbrev pub IsNext : ℕ → Decision → History → Type 0
IsNext control decision [] = is_known decision ≡ true
IsNext control decision ((last, before) ∷ rest) = (is_known decision ≡ true) × (last < control)

-- every decision was accepted when it came
abbrev pub IsAccepted : History → Type 0
IsAccepted [] = Unit {0}
IsAccepted ((control, decision) ∷ rest) = IsNext control decision rest × IsAccepted rest

-- the object after these updates
pub replay : Confirmation → History → Confirmation
replay c [] = c
replay c ((control, decision) ∷ rest) = (update (pos control) decision (replay c rest)).0

-- an object that has seen nothing
pub record IsFresh (c : Confirmation) : Type 0 where
  pub last : c.last_control ≡ none
  pub start : c.started ≡ none

abbrev latest : History → Option ℕ
latest [] = none
latest ((control, decision) ∷ rest) = some control

-- where the run began
abbrev run_start : History → Option ℕ
run_start [] = none
run_start ((control, decision) ∷ rest) =
    let before = run_start rest in
    let kept = if follows (latest rest) control then before else none in
    if is_complete decision then some (start_at kept control) else none

-- the object keeps the last control and the start of the run
record Tracks (c c₀ : Confirmation) (history : History) : Type 0 where
  window : c.window_controls ≡ c₀.window_controls
  last : c.last_control ≡ latest history
  start : c.started ≡ run_start history

run_start-none : (history : History) → run_start history ≡ none → streak history ≡ 0
run_start-none [] h = refl
run_start-none ((control, decision) ∷ []) h = ground arith
run_start-none ((control, decision) ∷ (last, before) ∷ rest) h = ground arith

-- the run is as long as it reaches back
run_start-some :
    (control : ℕ) (decision : Decision) (rest : History) (s : ℕ)
    → run_start ((control, decision) ∷ rest) ≡ some s
    → s + streak ((control, decision) ∷ rest) ≡ suc control
run_start-some control decision [] s h = ground arith
run_start-some control decision ((last, before) ∷ rest) s h =
    ground (arith, run_start-some last before rest s, run_start-none ((last, before) ∷ rest))

update-started :
    (c : Confirmation) (control : ℕ) (decision : Decision)
    → is_known decision ≡ true
    → advances c.last_control control ≡ true
    → let kept = if follows c.last_control control then c.started else none in
      ((update (pos control) decision c).0.window_controls ≡ c.window_controls)
      × ((update (pos control) decision c).0.last_control ≡ some control)
      × ((update (pos control) decision c).0.started
          ≡ (if is_complete decision then some (start_at kept control) else none))
      × ((update (pos control) decision c).1
          ≡ ok (is_complete decision && leb (start_at kept control + c.window_controls) control))
unfolding update
update-started c control decision known later = ground arith

-- the start that the object would keep
abbrev start_of : ℕ → History → ℕ
start_of control history =
    start_at (if follows (latest history) control then run_start history else none) control

confirms-streak :
    (control : ℕ) (decision : Decision) (history : History) (w : ℕ)
    → (is_complete decision && leb (start_of control history + w) control)
      ≡ ltb w (streak ((control, decision) ∷ history))
confirms-streak control decision history w = elim (Bool-cases (is_complete decision)) [
  | inl is_done ↦
      let length =
        run_start-some control decision history (start_of control history) (rw is_done refl) in
      rw is_done (ground (arith, is_done, length))
  | inr not_done ↦
      let zero_now = run_start-none ((control, decision) ∷ history) (rw not_done refl) in
      ground (arith, not_done, zero_now)
]

advances-IsNext :
    (control : ℕ) (decision : Decision) (history : History)
    → IsNext control decision history
    → (is_known decision ≡ true) × (advances (latest history) control ≡ true)
advances-IsNext control decision [] h = (h, refl)
advances-IsNext control decision ((last, before) ∷ rest) h = (h.0, ground arith)

update-Tracks :
    (c c₀ : Confirmation) (control : ℕ) (decision : Decision) (history : History)
    → Tracks c c₀ history
    → IsNext control decision history
    → Tracks (update (pos control) decision c).0 c₀ ((control, decision) ∷ history)
      × ((update (pos control) decision c).1
          ≡ ok (ltb c₀.window_controls (streak ((control, decision) ∷ history))))
update-Tracks c c₀ control decision history t h =
    let (known, later) = advances-IsNext control decision history h in
    let (window, last, start, result) = update-started c control decision known (rw t.last later) in
    (
      record {
        window = window ∙ t.window;
        last = last;
        start = start ∙ rw t.last (rw t.start refl);
      },
      result
          ∙ rw t.last (
              rw t.start (
                rw t.window (ap ok (confirms-streak control decision history c₀.window_controls)))),
    )

replay-Tracks :
    (c₀ : Confirmation) (history : History)
    → IsFresh c₀
    → IsAccepted history
    → Tracks (replay c₀ history) c₀ history
unfolding replay
replay-Tracks c₀ [] fresh accepted = record {
  window = refl;
  last = fresh.last;
  start = fresh.start;
}
replay-Tracks c₀ ((control, decision) ∷ rest) fresh accepted =
    (update-Tracks (replay c₀ rest) c₀ control decision rest
      (replay-Tracks c₀ rest fresh accepted.1) accepted.0).0

-- After any accepted updates of a new object, a further accepted update confirms exactly when the latest
-- complete decisions, with no control missing between them, are more than the window.
pub update-streak :
    (c₀ : Confirmation) (history : History) (control : ℕ) (decision : Decision)
    → IsFresh c₀
    → IsAccepted history
    → IsNext control decision history
    → (update (pos control) decision (replay c₀ history)).1
      ≡ ok (ltb c₀.window_controls (streak ((control, decision) ∷ history)))
update-streak c₀ history control decision fresh accepted next =
    (update-Tracks (replay c₀ history) c₀ control decision history
      (replay-Tracks c₀ history fresh accepted) next).1
