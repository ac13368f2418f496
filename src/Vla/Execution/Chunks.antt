-- ===== src/Vla/Execution/Chunks.antt =====
-- llm_vla/contracts.py: the chunk that an execution's actions come from.
use action_stream.Prelude.{ℕ, ◌≡◌, ◌++◌, true, List, [], ◌∷◌, ◌⊎◌, length, drop}
use action_stream.Vla.Execution.{Execution, Observation, Rows, is_current, is_chunk}
use action_stream.Vla.Execution.Bounds.{Call, queues, step, run, handed, issued}

module _ {R : Type 0} (rows : Rows R) where
  -- The accepted chunk of a run that is pending: where its call stands, and how much of it is left. Its
  -- observation was current when it was queued, and the revision has not changed since.
  pub record Source (e : Execution R) (cs : List (Call R)) : Type 0 where
    pub before : List (Call R)
    pub after : List (Call R)
    pub actions : List R
    pub observation : Observation
    pub now : ℕ
    pub split : cs ≡ before ++ (queues actions observation now ∷ after)
    pub fresh : is_current observation now (run rows e before) ≡ true
    pub chunk : is_chunk rows actions ≡ true
    pub same : (run rows e cs).revision ≡ (run rows e before).revision
    pub reached :
        run rows e cs
        ≡ run rows (step rows (run rows e before) (queues actions observation now)) after
    pub left :
        (run rows e cs).pending
        ≡ drop
            (length
              (issued rows (step rows (run rows e before) (queues actions observation now)) after))
            actions

  -- what a call does to the chunk: nothing is left of it, it is a new one, or its first actions are
  -- handed out
  abbrev Effect : Execution R → Call R → Type 0
  Effect f c =
      ((step rows f c).pending ≡ [])
      ⊎ (((actions : List R) × (o : Observation) × (now : ℕ) × (c ≡ queues actions o now)
            × (is_current o now f ≡ true)
            × (is_chunk rows actions ≡ true)
            × ((step rows f c).revision ≡ f.revision)
            × ((step rows f c).pending ≡ actions))
          ⊎ (((step rows f c).revision ≡ f.revision)
              × ((step rows f c).pending ≡ drop (length (handed rows f c)) f.pending)))

  -- nothing is left, or it is left of a chunk accepted before
  abbrev IsSourced : Execution R → List (Call R) → Type 0
  IsSourced e cs = ((run rows e cs).pending ≡ []) ⊎ Source e cs

  -- the place in its chunk of the action that comes next
  abbrev pub next_place : (e : Execution R) (cs : List (Call R)) → Source e cs → ℕ
  next_place e cs s =
      length (
        issued rows (step rows (run rows e s.before) (queues s.actions s.observation s.now))
          s.after)
