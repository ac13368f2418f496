-- ===== src/Vla/Grounding/Authorization.antt =====
-- llm_vla/grounding.py: a task that passes `validate_authorization` is supported by the request's text.
use action_stream.Prelude.{
  ℕ, String, ◌≡◌, refl, ap, ◌∙◌, subst, inl, inr, true, false, List, [], ◌∷◌, Result, ok, err,
  arith, Bool-cases,
}
use action_stream.Vla.Contracts.{contains}
use action_stream.Vla.Grounding.{
  GroundingError, OriginalRequest, Mention, GroundedTask, Contract, Tools, Parsed, accepts,
  declines, target_entity, destination_entity, parse_decision, single_mention, resolve_mention,
  is_guarded, ground_task, adjudicate_parsed, adjudicate, task_of, materialize, request_eq, task_eq,
  compare_task, validate_authorization,
}

value_of : {A : Type 0} → A → Result GroundingError A → A
value_of default (ok a) = a
value_of default (err e) = default

ok_injective : {A : Type 0} {a b : A} → ◌≡◌ {A = Result GroundingError A} (ok a) (ok b) → a ≡ b
unfolding value_of
ok_injective {a} h = ap (value_of a) h

module _ (T : Tools) where
  -- the quote stands once in the text, at this place, and is an alias of the entity
  pub record IsMentioned (s : String) (aliases : List String) (entity : String) (m : Mention)
      : Type 0 where
    pub once : T.find_mentions m.quote s ≡ (m.start, m.end) ∷ []
    pub is_alias : contains (T.normalize_alias m.quote) aliases ≡ true
    pub is_entity : m.entity ≡ entity

  single_mention-IsMentioned :
      (s quote : String) (aliases : List String) (entity : String) (found : List (ℕ × ℕ))
      (m : Mention)
      → T.find_mentions quote s ≡ found
      → single_mention T found quote aliases entity ≡ ok m
      → (m.quote ≡ quote) × IsMentioned s aliases entity m
  unfolding single_mention
  single_mention-IsMentioned s quote aliases entity [] m at h = ground arith
  single_mention-IsMentioned s quote aliases entity ((start, end) ∷ []) m at h =
      elim (Bool-cases (contains (T.normalize_alias quote) aliases)) [
        | inl is_alias ↦
            subst (λ (x : Mention). (x.quote ≡ quote) × IsMentioned s aliases entity x)
              (ok_injective (rw is_alias at h))
              (refl, record { once = at; is_alias = is_alias; is_entity = refl })
        | inr other ↦ ground arith
      ]
  single_mention-IsMentioned s quote aliases entity (a ∷ b ∷ rest) m at h = ground arith

  -- what an accepted task rests on: the text's mentions, no guard, and the model's decision
  pub record IsGrounded (request : OriginalRequest) (raw : String) (contract : Contract)
      (task : GroundedTask) : Type 0 where
    pub target : IsMentioned request.text contract.target_aliases target_entity task.target
    pub destination :
        IsMentioned request.text contract.destination_aliases destination_entity task.destination
    pub unguarded : is_guarded T contract.text_guards request.text ≡ false
    pub decided :
        parse_decision T contract (T.load raw)
        ≡ ok (accepts task.target.quote task.destination.quote)

  grounded :
      (request : OriginalRequest) (raw : String) (contract : Contract) (tq dq : String)
      (m n : Result GroundingError Mention) (task : GroundedTask)
      → parse_decision T contract (T.load raw) ≡ ok (accepts tq dq)
      → resolve_mention T request tq contract.target_aliases target_entity ≡ m
      → resolve_mention T request dq contract.destination_aliases destination_entity ≡ n
      → (let v = ground_task T request raw contract m n in task_of T v.decision v.task) ≡ ok task
      → IsGrounded request raw contract task
  unfolding ground_task task_of resolve_mention
  grounded request raw contract tq dq (err e) n task parsed at at' h = ground arith
  grounded request raw contract tq dq (ok a) (err e) task parsed at at' h = ground arith
  grounded request raw contract tq dq (ok a) (ok b) task parsed at at' h =
      elim (Bool-cases (is_guarded T contract.text_guards request.text)) [
        | inl guarded ↦ ground arith
        | inr free ↦
            let (quote, target) =
              single_mention-IsMentioned request.text tq contract.target_aliases target_entity _ a
                refl at in
            let (quote', destination) =
              single_mention-IsMentioned request.text dq contract.destination_aliases
                destination_entity _ b refl at' in
            subst (IsGrounded request raw contract) (ok_injective (rw free at h)) (record {
              target = target;
              destination = destination;
              unguarded = free;
              decided = parsed ∙ rw quote (rw quote' refl);
            })
      ]

  parsed-IsGrounded :
      (request : OriginalRequest) (raw : String) (contract : Contract)
      (parsed : Result GroundingError Parsed) (task : GroundedTask)
      → parse_decision T contract (T.load raw) ≡ parsed
      → (let v = adjudicate_parsed T request raw contract parsed in task_of T v.decision v.task)
        ≡ ok task
      → IsGrounded request raw contract task
  unfolding adjudicate_parsed task_of
  parsed-IsGrounded request raw contract (err e) task at h = ground arith
  parsed-IsGrounded request raw contract (ok (declines kind reason)) task at h = ground arith
  parsed-IsGrounded request raw contract (ok (accepts tq dq)) task at h =
      grounded request raw contract tq dq _ _ task at refl refl h

  materialize-IsGrounded :
      (request : OriginalRequest) (raw : String) (contract : Contract) (task : GroundedTask)
      → materialize T request raw contract ≡ ok task
      → IsGrounded request raw contract task
  unfolding materialize adjudicate
  materialize-IsGrounded request raw contract task h =
      parsed-IsGrounded request raw contract _ task refl h

  compared :
      (task : GroundedTask) (made : Result GroundingError GroundedTask)
      → compare_task T task made ≡ ok tt
      → (expected : GroundedTask) × (made ≡ ok expected) × (task_eq T expected task ≡ true)
  unfolding compare_task
  compared task (err e) h = ground arith
  compared task (ok expected) h = elim (Bool-cases (task_eq T expected task)) [
    | inl same ↦ (expected, refl, same)
    | inr other ↦ ground arith
  ]

  -- If a task passes `validate_authorization` for a request, then it is of that request, and equal field
  -- by field to a task whose target and destination are each quoted exactly once in the request's text,
  -- by an alias of the one entity that the contract allows, from a decision of the model to accept just
  -- these quotes, while no guard of the contract matches the text.
  pub authorization_sound :
      (request : OriginalRequest) (task : GroundedTask) (contract : Contract)
      → validate_authorization T request task contract ≡ ok tt
      → (request_eq T task.original request ≡ true)
        × ((expected : GroundedTask) × (task_eq T expected task ≡ true)
            × IsGrounded request task.raw_model_output contract expected)
  unfolding validate_authorization
  authorization_sound request task contract h =
      elim (Bool-cases (request_eq T task.original request)) [
        | inl own ↦
            let (expected, made, same) =
              compared task (materialize T request task.raw_model_output contract) (rw own at h) in
            (
              own,
              (
                expected,
                same,
                materialize-IsGrounded request task.raw_model_output contract expected made,
              ),
            )
        | inr foreign ↦ ground arith
      ]
