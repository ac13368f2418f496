-- ===== src/Vla/Control/Termination.antt =====
-- The control loop ends: each round that returns uses up one step of the budget.
use action_stream.Prelude.{
  ℕ, ℤ, pos, suc, ◌+◌, ◌≤◌, ◌≡◌, ◌≢◌, ◌≤ℤ◌, refl, sym, ap, subst, Bool, true, Option, none, some,
  List, [], ◌∷◌, length, Bool-cases, inl, inr, ok, arith,
}
use action_stream.Vla.Contracts.{TaskSpec, CheckDecision}
use action_stream.Vla.Execution.{
  Observation, Execution, Rows, new_execution, queue_chunk, take_action, interrupt, apply_check,
  decide,
}
use action_stream.Vla.Execution.Bounds.{new_execution-IsBounded}
use action_stream.Vla.Control.{
  Round, Run, out_of_rounds, may_go, fetch, act, pause_for, check, settle, round, rounds, first_run,
}

module _ {R : Type 0} where
  -- the numbers that bound the loop
  abbrev count : Run R → ℕ × ℤ
  count s = (s.execution.steps, s.execution.max_steps)

  fetch-count : (rows : Rows R) (r : Round R) (s : Run R) → count (fetch rows r s).0 ≡ count s
  unfolding fetch queue_chunk
  fetch-count rows r s = ground arith

  act-count :
      (r : Round R) (s : Run R)
      → (act r s).1 ≡ true
      → count (act r s).0 ≡ (suc s.execution.steps, s.execution.max_steps)
  unfolding act take_action
  act-count r s h = ground arith

  pause_for-count : (r : Round R) (s : Run R) → count (pause_for r s).0 ≡ count s
  unfolding pause_for interrupt
  pause_for-count r s = ground arith

  decide-count :
      (d : CheckDecision) (boundary : Bool) (e : Execution R)
      → ((decide d boundary e).0.steps ≡ e.steps)
        × ((decide d boundary e).0.max_steps ≡ e.max_steps)
  unfolding decide
  decide-count d boundary e = ground arith

  apply_check-count :
      (d : CheckDecision) (a b : Observation) (boundary : Bool) (now : ℕ) (e : Execution R)
      → ((apply_check d a b boundary now e).0.steps ≡ e.steps)
        × ((apply_check d a b boundary now e).0.max_steps ≡ e.max_steps)
  unfolding apply_check
  apply_check-count d a b boundary now e =
      ground (arith, decide-count d boundary (record e { pending = []; chunk_revision = none }))

  check-count_by :
      (r : Round R) (s : Run R) (decision : Option CheckDecision)
      → r.checked ≡ decision
      → count (check r s).0 ≡ count s
  unfolding check
  check-count_by r s none p = ground arith
  check-count_by r s (some d) p = ground (
    arith,
    apply_check-count d s.observation s.observation s.native_boundary r.applied_at s.execution,
  )

  check-count : (r : Round R) (s : Run R) → count (check r s).0 ≡ count s
  check-count r s = check-count_by r s r.checked refl

  settle-count :
      (interruption : Option ℕ) (r : Round R) (s : Run R)
      → count (settle interruption r s).0 ≡ count s
  unfolding settle
  settle-count interruption r s =
      ground (arith, pause_for-count r s, check-count r s, check-count r (pause_for r s).0)

  round-count :
      (rows : Rows R) (interruption : Option ℕ) (r : Round R) (s : Run R)
      → (round rows interruption r s).1 ≡ true
      → count (round rows interruption r s).0 ≡ (suc s.execution.steps, s.execution.max_steps)
  unfolding round
  round-count rows interruption r s returned = ground (
    arith,
    fetch-count rows r s,
    act-count r (fetch rows r s).0,
    settle-count interruption r (act r (fetch rows r s).0).0,
  )

  budget_left :
      (s' s : Run R) (n : ℕ)
      → count s' ≡ (suc s.execution.steps, s.execution.max_steps)
      → s.execution.max_steps ≤ℤ pos (s.execution.steps + suc n)
      → s'.execution.max_steps ≤ℤ pos (s'.execution.steps + n)
  budget_left s' s n c enough =
      let steps : s'.execution.steps ≡ suc s.execution.steps = ap (λ (x : ℕ × ℤ). x.0) c in
      let budget : s'.execution.max_steps ≡ s.execution.max_steps = ap (λ (x : ℕ × ℤ). x.1) c in
      subst (λ (m : ℤ). m ≤ℤ pos (s'.execution.steps + n)) (sym budget)
        (omega (arith, steps, enough))

  rounds-end :
      (rows : Rows R) (interruption : Option ℕ) (rs : List (Round R)) (s : Run R)
      → s.execution.max_steps ≤ℤ pos (s.execution.steps + length rs)
      → (rounds rows interruption rs s).1 ≢ out_of_rounds
  unfolding rounds
  rounds-end rows interruption [] s enough = λ h. ground arith
  rounds-end rows interruption (r ∷ rs) s enough = elim (Bool-cases (may_go s)) [
    | inr stops ↦ rw stops (λ h. cc)
    | inl goes ↦ rw goes (elim (Bool-cases (round rows interruption r s).1) [
      | inr threw ↦ rw threw (λ h. cc)
      | inl returned ↦ rw returned (
          rounds-end rows interruption rs (round rows interruption r s).0 (
            budget_left (round rows interruption r s).0 s (length rs)
              (round-count rows interruption r s returned) enough))
    ])
  ]

  -- However the port, the checker and the clock behave, 300 rounds are enough: the loop of a new execution
  -- has ended or raised by then.
  pub execute_ends :
      (task : TaskSpec) (max_steps : ℤ) (max_age : ℕ) (e : Execution R) (rows : Rows R)
      (interruption : Option ℕ) (observation : Observation) (rs : List (Round R))
      → new_execution task max_steps max_age ≡ ok e
      → 300 ≤ length rs
      → (rounds rows interruption rs (first_run e observation)).1 ≢ out_of_rounds
  unfolding first_run
  execute_ends task max_steps max_age e rows interruption observation rs made enough =
      let (v, steps, budget) = new_execution-IsBounded rows task max_steps max_age e made in
      let cap = v.budget in rounds-end rows interruption rs (first_run e observation) (omega arith)
