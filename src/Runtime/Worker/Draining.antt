-- ===== src/Runtime/Worker/Draining.antt =====
-- What `drain_results` returns and leaves.
use action_stream.Prelude.{
  ℕ, ◌≤◌, ◌<◌, ◌≡◌, refl, false, List, [], ◌∷◌, ◌++◌, All, All-weaken, Bool-cases, inl, inr, leb→le,
  ok, leb, arith,
}
use action_stream.Runtime.Requests.{InferenceResult}
use action_stream.Runtime.Worker.{Worker, due_prefix, drain_results}

module _ {C : Type 0} where
  abbrev pub IsDue : ℕ → InferenceResult C → Type 0
  IsDue now r = r.delivery_timestamp ≤ now

  -- the results are in the order of their delivery times
  abbrev pub IsSorted : List (InferenceResult C) → Type 0
  IsSorted [] = Unit {0}
  IsSorted (r ∷ rs) =
      All (λ (q : InferenceResult C). r.delivery_timestamp ≤ q.delivery_timestamp) rs × IsSorted rs

  due_prefix-append :
      (now : ℕ) (rs : List (InferenceResult C))
      → (due_prefix now rs).0 ++ (due_prefix now rs).1 ≡ rs
  unfolding due_prefix
  due_prefix-append now [] = refl
  due_prefix-append now (r ∷ rs) = ground (arith, due_prefix-append now rs)

  due_prefix-IsDue :
      (now : ℕ) (rs : List (InferenceResult C)) → All (IsDue now) (due_prefix now rs).0
  unfolding due_prefix
  due_prefix-IsDue now [] = tt
  due_prefix-IsDue now (r ∷ rs) = elim (Bool-cases (leb r.delivery_timestamp now)) [
    | inl due ↦ rw due (leb→le _ _ due, due_prefix-IsDue now rs)
    | inr late ↦ rw late tt
  ]

  due_prefix-late :
      (now : ℕ) (rs : List (InferenceResult C))
      → IsSorted rs
      → All (λ (q : InferenceResult C). now < q.delivery_timestamp) (due_prefix now rs).1
  unfolding due_prefix
  due_prefix-late now [] sorted = tt
  due_prefix-late now (r ∷ rs) sorted = elim (Bool-cases (leb r.delivery_timestamp now)) [
    | inl due ↦ rw due (due_prefix-late now rs sorted.1)
    | inr late ↦
        let first : now < r.delivery_timestamp = ground arith in
        rw late (first, All-weaken (λ q h. omega arith) rs sorted.0)
  ]

  -- A drain without an error, of results that are sorted by delivery time, returns a prefix of them and
  -- leaves the rest in order: all that it returns is due, and nothing that it leaves is.
  pub drain_results_lem :
      {O : Type 0} (now : ℕ) (w : Worker C O)
      → w.error ≡ false
      → IsSorted w.results
      → (due : List (InferenceResult C)) × ((drain_results now w).1 ≡ ok due)
        × (due ++ (drain_results now w).0.results ≡ w.results)
        × All (IsDue now) due
        × All
            (λ (q : InferenceResult C). now < q.delivery_timestamp)
            (drain_results now w).0.results
  unfolding drain_results
  drain_results_lem now w healthy sorted = (
    (due_prefix now w.results).0,
    rw healthy,
    rw healthy (due_prefix-append now w.results),
    due_prefix-IsDue now w.results,
    rw healthy (due_prefix-late now w.results sorted),
  )
