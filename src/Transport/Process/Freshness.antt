-- ===== src/Transport/Process/Freshness.antt =====
-- inference_transport.py: no child of `ProcessInferenceTransport` outlives a reset, so what is sent goes
-- to a child without state from before it, in every interleaving of the threads.
use action_stream.Prelude.{
  ℕ, suc, ◌≡◌, refl, sym, ap, subst, ◌∙◌, not, ◌&&◌, Option, none, some, List, [], ◌∷◌, OptionAll,
  if◌then◌else◌, arith, ◌==◌, Bool-cases, inl, inr, ◌⊎◌,
}
use action_stream.Transport.Process.{
  Process, World, Request, Phase, enters, checks_child, sends, ended, new_process, set_event,
  cancel_locked, reset_locked, close_locked, request_step, clear_event, is_child,
}

-- the transport, the request that has the lock, and the generation in which each child was started
pub record Transport (A : Type 0) : Type 0 where
  pub process : Process
  pub served : Option (Request × Phase A)
  pub born : ℕ → ℕ

pub data Event (A : Type 0) : Type 0 where
  begins : ℕ → ℕ → ℕ → Event A
  serves : World A → Event A
  sets cancels resets closes : Event A

-- the children that a step has started are of the generation of the step
births : Process → Process → ℕ → (ℕ → ℕ) → ℕ → ℕ
births p p' child born c =
    if not (p.process_restarts == p'.process_restarts) && c == child then p'.generation else born c

-- the current child was started in this generation
abbrev IsFresh : Process → (ℕ → ℕ) → Type 0
IsFresh p born = OptionAll (λ (c : ℕ). born c ≡ p.generation) p.process

births-same :
    (p p' : Process) (child : ℕ) (born : ℕ → ℕ) (c : ℕ)
    → p'.process_restarts ≡ p.process_restarts
    → births p p' child born c ≡ born c
unfolding births
births-same p p' child born c h = ground arith

births-new :
    (p p' : Process) (child : ℕ) (born : ℕ → ℕ)
    → p'.process_restarts ≡ suc p.process_restarts
    → births p p' child born child ≡ p'.generation
unfolding births
births-new p p' child born h = ground arith

OptionAll-weaken :
    {P Q : ℕ → Type 0} → ((n : ℕ) → P n → Q n) → (o : Option ℕ) → OptionAll P o → OptionAll Q o
OptionAll-weaken h none all = tt
OptionAll-weaken h (some n) all = h n all

module _ {A : Type 0} where
  begin_request : ℕ → ℕ → ℕ → Option (Request × Phase A) → Transport A → Transport A
  begin_request id timeout now (some served) s = s
  begin_request id timeout now none s = record s {
    process = clear_event s.process;
    served = some (
      record {
        request_id = id;
        generation = 0;
        timeout_s = timeout;
        startup_started = now;
        request_started = none;
      },
      enters,
    );
  }

  abbrev released : Request → Phase A → Option (Request × Phase A)
  released r (ended result) = none
  released r phase = some (r, phase)

  serve : World A → Option (Request × Phase A) → Transport A → Transport A
  unfolding births
  serve w none s = s
  serve w (some (r, phase)) s =
      let ((p, r'), phase') = request_step w r phase s.process in
      record { process = p; served = released r' phase'; born = births s.process p w.child s.born }

  unfoldable pub step : Transport A → Event A → Transport A
  unfolding begin_request serve
  step s (begins id timeout now) = begin_request id timeout now s.served s
  step s (serves w) = serve w s.served s
  step s sets = record s { process = set_event s.process }
  step s cancels = record s { process = (cancel_locked s.process).0 }
  step s resets = record s { process = (reset_locked s.process).0 }
  step s closes = record s { process = close_locked s.process }

  unfoldable pub run : Transport A → List (Event A) → Transport A
  run s [] = s
  run s (e ∷ es) = run (step s e) es

  abbrev pub initial : Transport A
  initial = record { process = new_process; served = none; born = λ c. 0 }

  record Inv (s : Transport A) : Type 0 where
    paired : s.process.connection ≡ s.process.process
    fresh : IsFresh s.process s.born

  request_step-paired :
      (w : World A) (r : Request) (phase : Phase A) (p : Process)
      → p.connection ≡ p.process
      → (request_step w r phase p).0.0.connection ≡ (request_step w r phase p).0.0.process
  unfolding request_step
  request_step-paired w r phase p h = ground arith

  request_step-process :
      (w : World A) (r : Request) (phase : Phase A) (p : Process)
      → let p' = (request_step w r phase p).0.0 in
        ((p'.process ≡ none)
          ⊎ ((p'.process ≡ p.process) × (p'.process_restarts ≡ p.process_restarts))
          ⊎ ((p'.process ≡ some w.child) × (p'.process_restarts ≡ suc p.process_restarts)))
        × (p'.generation ≡ p.generation)
  unfolding request_step
  request_step-process w r phase p = ground arith

  serve-IsFresh :
      (w : World A) (r : Request) (phase : Phase A) (p : Process) (born : ℕ → ℕ)
      → IsFresh p born
      → let p' = (request_step w r phase p).0.0 in IsFresh p' (births p p' w.child born)
  serve-IsFresh w r phase p born fresh =
      let p' = (request_step w r phase p).0.0 in
      let (change, generation) = request_step-process w r phase p in
      elim change [
        | inl gone ↦ rw gone tt
        | inr (inl same) ↦ rw same.0 (
            OptionAll-weaken (λ c h. births-same p p' w.child born c same.1 ∙ h ∙ sym generation)
              p.process fresh)
        | inr (inr new) ↦ rw new.0 (births-new p p' w.child born new.1)
      ]

  serve-Inv :
      (w : World A) (served : Option (Request × Phase A)) (s : Transport A)
      → Inv s
      → Inv (serve w served s)
  unfolding serve
  serve-Inv w none s v = v
  serve-Inv w (some (r, phase)) s v = record {
    paired = request_step-paired w r phase s.process v.paired;
    fresh = serve-IsFresh w r phase s.process s.born v.fresh;
  }

  begin_request-Inv :
      (id timeout now : ℕ) (served : Option (Request × Phase A)) (s : Transport A)
      → Inv s
      → Inv (begin_request id timeout now served s)
  unfolding begin_request clear_event
  begin_request-Inv id timeout now (some served) s v = v
  begin_request-Inv id timeout now none s v = record { paired = v.paired; fresh = v.fresh }

  cancel-Inv : (s : Transport A) → Inv s → Inv (step s cancels)
  unfolding step cancel_locked
  cancel-Inv s v = elim (Bool-cases s.process.inflight) [
    | inl busy ↦ rw busy (record { paired = refl; fresh = tt })
    | inr idle ↦ rw idle (record { paired = v.paired; fresh = v.fresh })
  ]

  step-Inv : (s : Transport A) (e : Event A) → Inv s → Inv (step s e)
  unfolding step set_event reset_locked close_locked
  step-Inv s (begins id timeout now) v = begin_request-Inv id timeout now s.served s v
  step-Inv s (serves w) v = serve-Inv w s.served s v
  step-Inv s sets v = record { paired = v.paired; fresh = v.fresh }
  step-Inv s cancels v = cancel-Inv s v
  step-Inv s resets v = record { paired = refl; fresh = tt }
  step-Inv s closes v = record { paired = refl; fresh = tt }

  run-Inv : (s : Transport A) (es : List (Event A)) → Inv s → Inv (run s es)
  unfolding run
  run-Inv s [] v = v
  run-Inv s (e ∷ es) v = run-Inv (step s e) es (step-Inv s e v)

  checked_child :
      (w : World A) (r : Request) (c d : ℕ) (p : Process)
      → (request_step w r (checks_child c) p).1 ≡ sends d
      → (p.process ≡ some c) × (c ≡ d)
  unfolding request_step is_child
  checked_child w r c d p h = ground arith

  -- In every interleaving of the requests of a new transport with its calls of `cancel`, `reset` and
  -- `close`: the child and its connection are published and forgotten together, and if the check before
  -- sending lets a request go to a child, then that child was started in the generation of the check, so
  -- after every invalidation before it.
  pub sent_to_fresh :
      (es : List (Event A)) (w : World A) (r : Request) (c d : ℕ)
      → (request_step w r (checks_child c) (run initial es).process).1 ≡ sends d
      → let s = run initial es in
        (s.process.connection ≡ s.process.process)
        × (s.process.process ≡ some d)
        × (s.born d ≡ s.process.generation)
  sent_to_fresh es w r c d h =
      let s = run initial es in
      let v = run-Inv initial es (unfold new_process in record { paired = refl; fresh = tt }) in
      let (current, same) = checked_child w r c d s.process h in
      let here = current ∙ ap some same in
      (v.paired, here, subst (OptionAll (λ (n : ℕ). s.born n ≡ s.process.generation)) here v.fresh)
