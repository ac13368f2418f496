-- ===== src/Engine/Worker/Failures.antt =====
-- What failed requests do: the count of failures in a row, the retry, and the fatal end.
use action_stream.Prelude.{
  ℕ, ℤ, pos, List, ◌||◌, is_some, suc, ◌+◌, ◌≡◌, not, subst, sym, ap, ◌∙◌, ◌&&◌, Bool, true, false,
  Option, some, leb_ℤ, arith, ◌==◌, if◌then◌else◌,
}
use action_stream.Engine.Types.{ObservationEnvelope, QueuedAction}
use action_stream.Engine.State.{Engine, epoch_is_current, emit}
use action_stream.Engine.Worker.{
  Job, Failure, deadline_exceeded, cancelled_request, request_error, base_exception, fail_request,
  record_failure, escalate, retry_failed_observation,
}

-- an exception that the worker counts and retries
abbrev pub IsTransient : Failure → Type 0
IsTransient (base_exception traceback) = ⊥
IsTransient failure = Unit {0}

-- what a failed request may change, and what its handler reads
pub record Health (A O : Type 0) : Type 0 where
  pub in_a_row : ℕ
  pub counted : ℕ
  pub fatal : Bool
  pub connected : Bool
  pub bound : ℤ
  pub epoch : ℕ
  pub shutdown : Bool
  pub resetting : Bool
  pub mailbox : Option (ObservationEnvelope O)
  pub queue : List (QueuedAction A)

module _ {A O : Type 0} where
  -- the health after each part of the handler
  abbrev failed : Health A O → Health A O
  failed h = record h { in_a_row = suc h.in_a_row; counted = suc h.counted; connected = false }

  abbrev judged : Health A O → Health A O
  judged h = record h { fatal = leb_ℤ h.bound (pos h.in_a_row) }

  abbrev retried : ObservationEnvelope O → Health A O → Health A O
  retried o h = record h { mailbox = if h.fatal || is_some h.mailbox then h.mailbox else some o }

  abbrev admits : Health A O → ℕ → Bool
  admits h n = n == h.epoch && not h.shutdown && not h.resetting && not h.fatal

module _ {A O H : Type 0} where
  abbrev pub health : Engine A O H → Health A O
  health e = record {
    in_a_row = e.metrics.consecutive_failures;
    counted = e.metrics.inference_timeouts + e.metrics.inference_errors;
    fatal = e.fatal_error;
    connected = e.connected;
    bound = e.config.max_consecutive_failures;
    epoch = e.epoch;
    shutdown = e.shutdown;
    resetting = e.resetting;
    mailbox = e.latest_observation;
    queue = e.queue;
  }

  emit-health : (w : Bool) (n : ℕ) (e : Engine A O H) → health (emit w n e) ≡ health e
  unfolding emit
  emit-health w n e = ground arith

  record_failure-health :
      (n : ℕ) (timeout : Bool) (latency : Option ℕ) (e : Engine A O H)
      → epoch_is_current e n ≡ true
      → (health (record_failure n timeout latency e).0 ≡ failed (health e))
        × ((record_failure n timeout latency e).1
            ≡ some (record_failure n timeout latency e).0.metrics.consecutive_failures)
  unfolding record_failure
  record_failure-health n timeout latency e current = ground arith

  escalate-health :
      (w : Bool) (n : ℕ) (failures : Option ℕ) (e : Engine A O H)
      → failures ≡ some e.metrics.consecutive_failures
      → epoch_is_current e n ≡ true
      → health (escalate w n failures e) ≡ judged (health e)
  unfolding escalate
  escalate-health w n failures e count current = ground arith

  retry-health :
      (o : ObservationEnvelope O) (e : Engine A O H)
      → o.epoch ≡ e.epoch
      → e.shutdown ≡ false
      → health (retry_failed_observation o e) ≡ retried o (health e)
  unfolding retry_failed_observation
  retry-health o e same running = ground arith

  handler-health :
      (w w' : Bool) (n : ℕ) (timeout : Bool) (latency : Option ℕ) (o : ObservationEnvelope O)
      (e : Engine A O H)
      → epoch_is_current e n ≡ true
      → o.epoch ≡ n
      → let (e', failures) = record_failure n timeout latency (emit w n e) in
        health (retry_failed_observation o (escalate w' n failures e'))
        ≡ retried o (judged (failed (health e)))
  handler-health w w' n timeout latency o e current own =
      let at : n ≡ e.epoch = ground arith in
      let running : e.shutdown ≡ false = ground arith in
      let p₀ = emit-health w n e in
      let current₀ = subst (λ (h : Health A O). admits h n ≡ true) (sym p₀) current in
      let (p₁, count) = record_failure-health n timeout latency (emit w n e) current₀ in
      let p₂ : health (record_failure n timeout latency (emit w n e)).0 ≡ failed (health e) =
        p₁ ∙ ap failed p₀ in
      let current₂ = subst (λ (h : Health A O). admits h n ≡ true) (sym p₂) current in
      let p₃ = escalate-health w' n _ _ count current₂ ∙ ap judged p₂ in
      let same_epoch = ap (λ (h : Health A O). h.epoch) p₃ in
      let same_shutdown = ap (λ (h : Health A O). h.shutdown) p₃ in
      retry-health o _ (own ∙ at ∙ sym same_epoch) (same_shutdown ∙ running) ∙ ap (retried o) p₃

  -- A transient failure of a request of the current episode is counted as a timeout or an error,
  -- and as one more failure in a row. The engine fails exactly if that reaches the configured
  -- bound; otherwise the observation of the request, which is of the same episode, is put back
  -- unless a newer one waits. The queue stays.
  pub fail_request_counts :
      (fails : ℕ → Bool) (job : Job O) (failure : Failure) (latency : Option ℕ) (e : Engine A O H)
      → IsTransient failure
      → epoch_is_current e job.identity.epoch ≡ true
      → job.envelope.epoch ≡ job.identity.epoch
      → let fatal =
          leb_ℤ e.config.max_consecutive_failures (pos (suc e.metrics.consecutive_failures)) in
        health (fail_request fails job failure latency e) ≡ record (health e) {
          in_a_row = suc e.metrics.consecutive_failures;
          counted = suc (e.metrics.inference_timeouts + e.metrics.inference_errors);
          fatal = fatal;
          connected = false;
          mailbox =
              if fatal || is_some e.latest_observation
              then e.latest_observation
              else some job.envelope;
        }
  unfolding fail_request
  fail_request_counts fails job deadline_exceeded latency e transient current own =
      handler-health (fails 0) (fails 1) job.identity.epoch true latency job.envelope e current own
  fail_request_counts fails job cancelled_request latency e transient current own =
      handler-health (fails 0) (fails 1) job.identity.epoch false latency job.envelope e current own
  fail_request_counts fails job (request_error traceback) latency e transient current own =
      handler-health (fails 0) (fails 1) job.identity.epoch false latency job.envelope e current own
  fail_request_counts fails job (base_exception traceback) latency e transient current own =
      absurd transient
