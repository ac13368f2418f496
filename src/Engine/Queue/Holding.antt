-- ===== src/Engine/Queue/Holding.antt =====
-- What a control loop gets when it pulls with no merge in between: the queue in order, and then the
-- last action as often as the configuration lets it be held.
use action_stream.Prelude.{
  Bool, false, if◌then◌else◌, Bool-cases, inl, inr, not, ◌||◌, ltb_ℤ, ℕ, ℤ, zero, suc, ◌+◌, ◌-◌,
  ◌≤◌, ◌<◌, ◌≡◌, refl, pos, pos_part, ◌≤ℤ◌, true, Option, none, some, List, [], ◌∷◌, map, length,
  take, replicate, take-nil, length-take, length-replicate, length-map, arith,
}
use action_stream.Engine.Types.{QueuedAction, ActionStreamAction, Metrics}
use action_stream.Engine.State.{Engine, TaskMethods, ready, epoch_is_current}
use action_stream.Engine.Queue.{packet_of, get_action, pull, hold_or_starve}

-- the actions that are left for a loop that pulls without a merge
abbrev pub supply :
    {A : Type 0} → ℕ → Option (QueuedAction A) → ℕ → List (QueuedAction A) → List (QueuedAction A)
supply bound none held [] = []
supply bound (some last) held [] = replicate (bound - held) last
supply bound last held (queued ∷ rest) = queued ∷ supply bound (some queued) 0 rest

length-supply :
    {A : Type 0} (bound : ℕ) (last : Option (QueuedAction A)) (held : ℕ)
    (queue : List (QueuedAction A))
    → length (supply bound last held queue) ≤ length queue + bound
length-supply bound none held [] = omega arith
length-supply bound (some last) held [] = omega (arith, length-replicate (bound - held) last)
length-supply bound last held (queued ∷ rest) =
    omega (arith, length-supply bound (some queued) 0 rest)

abbrev cons_packet :
    {A : Type 0}
    → Option (ActionStreamAction A)
    → List (ActionStreamAction A)
    → List (ActionStreamAction A)
cons_packet none packets = packets
cons_packet (some packet) packets = packet ∷ packets

replicate_left :
    {A : Type 0} (bound held : ℕ) (x : A)
    → held < bound
    → replicate (bound - held) x ≡ x ∷ replicate (bound - suc held) x
replicate_left bound held x h =
    let e : bound - held ≡ suc (bound - suc held) = omega arith in rw e refl

replicate_none :
    {A : Type 0} (bound held : ℕ) (x : A) → bound ≤ held → replicate (bound - held) x ≡ []
replicate_none bound held x h = let e : bound - held ≡ 0 = omega arith in rw e refl

module _ {A O H : Type 0} (methods : TaskMethods H) where
  -- the packets of `n` pulls in a row
  pub packets : ℕ → Engine A O H → List (ActionStreamAction A)
  packets zero e = []
  packets (suc n) e = let (e', packet) = get_action methods e in cons_packet packet (packets n e')

  abbrev counted : Metrics → ℤ → Engine A O H → Engine A O H
  counted m l e = record e { metrics = m; latest_delivered_source_step = l }

  -- the second pull ends like the first, but for the counters and the last delivered step
  abbrev IsPulled :
      ℤ
      → Engine A O H × Option (ActionStreamAction A)
      → Engine A O H × Option (ActionStreamAction A)
      → Type 0
  IsPulled l r r' = (m : Metrics) × (r'.0 ≡ counted m l r.0) × (r'.1 ≡ r.1)

  hold-IsPulled :
      (last : Option (QueuedAction A)) (e : Engine A O H) (m : Metrics) (l : ℤ)
      → IsPulled l (hold_or_starve methods last e) (hold_or_starve methods last (counted m l e))
  unfolding hold_or_starve
  hold-IsPulled none e m l = (_, refl, refl)
  hold-IsPulled (some last) e m l =
      elim (Bool-cases (ltb_ℤ (pos e.hold_steps_used) e.config.bounded_hold_steps)) [
        | inl more ↦ rw more (_, refl, refl)
        | inr no_more ↦ rw no_more (_, refl, refl)
      ]

  pull-IsPulled :
      (queue : List (QueuedAction A)) (e : Engine A O H) (m : Metrics) (l : ℤ)
      → IsPulled l (pull methods queue e) (pull methods queue (counted m l e))
  unfolding pull
  pull-IsPulled [] e m l = hold-IsPulled e.last_action e m l
  pull-IsPulled (queued ∷ rest) e m l = (_, refl, refl)

  pull_if-IsPulled :
      (off : Bool) (e : Engine A O H) (m : Metrics) (l : ℤ)
      → IsPulled l
          (if off then (e, none) else pull methods e.queue e)
          (if off then (counted m l e, none) else pull methods e.queue (counted m l e))
  pull_if-IsPulled true e m l = (m, refl, refl)
  pull_if-IsPulled false e m l = pull-IsPulled e.queue e m l

  get_action-IsPulled :
      (e : Engine A O H) (m : Metrics) (l : ℤ)
      → IsPulled l (get_action methods e) (get_action methods (counted m l e))
  unfolding get_action
  get_action-IsPulled e m l =
      pull_if-IsPulled (not e.started || not (epoch_is_current e e.epoch)) e m l

  -- the counters and the last delivered step have no part in what a pull gives
  pub packets_same :
      (n : ℕ) (e : Engine A O H) (m : Metrics) (l : ℤ) → packets n (counted m l e) ≡ packets n e
  unfolding packets
  packets_same zero e m l = refl
  packets_same (suc n) e m l =
      let (m', moved, same) = get_action-IsPulled e m l in
      rw moved (rw same (rw (packets_same n (get_action methods e).0 m' l) refl))

  abbrev pub supply_of : Engine A O H → List (QueuedAction A)
  supply_of e =
      supply (pos_part e.config.bounded_hold_steps) e.last_action e.hold_steps_used e.queue

  packets-supply_from :
      (n : ℕ) (e : Engine A O H) (last : Option (QueuedAction A)) (queue : List (QueuedAction A))
      → e.last_action ≡ last
      → e.queue ≡ queue
      → ready e ≡ true
      → pos 0 ≤ℤ e.config.bounded_hold_steps
      → packets n e
        ≡ map
            (packet_of e.engine_id)
            (take n (supply (pos_part e.config.bounded_hold_steps) last e.hold_steps_used queue))
  unfolding packets get_action
  packets-supply_from zero e last queue p q started bound = refl
  packets-supply_from (suc n) e none [] p q started bound = ground (
    arith,
    packets-supply_from n (get_action methods e).0 none [],
    take-nil {A = QueuedAction A} n,
  )
  packets-supply_from (suc n) e (some last) [] p q started bound = ground (
    arith,
    packets-supply_from n (get_action methods e).0 (some last) [],
    take-nil {A = QueuedAction A} n,
    replicate_left (pos_part e.config.bounded_hold_steps) e.hold_steps_used last,
    replicate_none (pos_part e.config.bounded_hold_steps) e.hold_steps_used last,
  )
  packets-supply_from (suc n) e last (queued ∷ rest) p q started bound =
      ground (arith, packets-supply_from n (get_action methods e).0 (some queued) rest)

  -- The packets of n pulls from an engine that is ready and has no negative hold bound are the
  -- first n of its supply: the queue in its order, and then the last action dispatched, repeated
  -- while fewer holds than the bound have been used.
  pub packets-supply :
      (n : ℕ) (e : Engine A O H)
      → ready e ≡ true
      → pos 0 ≤ℤ e.config.bounded_hold_steps
      → packets n e ≡ map (packet_of e.engine_id) (take n (supply_of e))
  packets-supply n e started bound =
      packets-supply_from n e e.last_action e.queue refl refl started bound

  -- However long a loop pulls from an engine that is ready and has no negative hold bound, it gets
  -- at most the queue and as many repeats as may be held.
  packets_bounded :
      (n : ℕ) (e : Engine A O H)
      → ready e ≡ true
      → pos 0 ≤ℤ e.config.bounded_hold_steps
      → length (packets n e) ≤ length e.queue + pos_part e.config.bounded_hold_steps
  packets_bounded n e started bound =
      let plan = supply_of e in
      rw (packets-supply n e started bound) (
        omega (
          arith,
          length-map (packet_of e.engine_id) (take n plan),
          length-take n plan,
          length-supply (pos_part e.config.bounded_hold_steps) e.last_action e.hold_steps_used
              e.queue,
        ))
