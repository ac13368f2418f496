-- ===== src/Rpc/Client/Threads/Counting.antt =====
-- rpc_client.py: the counters of the client, in every interleaving of its callers.
use action_stream.Prelude.{
  ℕ, ◌+◌, ◌≡◌, refl, true, false, not, Option, none, some, List, [], ◌∷◌, All, is_some, Result, ok,
  err, arith, Bool-cases, inl, inr, Float,
}
use action_stream.Rpc.Client.{
  Client, RpcError, new_client, publish_socket, begin_reset, cancel, close,
}
use action_stream.Rpc.Client.Requests.{
  World, Request, Phase, enter_request, admit_request, infer_step, handle, commit,
}
use action_stream.Rpc.Client.Threads.{
  Threads, Event, enters, admits, infers, begins, resets_on, cancels, closes, pick, admitted,
  admit_picked, infer_on, is_ended, is_locked, enter_checked, step, run, initial,
}
use action_stream.Rpc.Client.Threads.Counts.{
  counted_requests, settled_resets, uncounted, uncounted_requests, IsTimedReceived, IsTimedEvent,
  IsTimedPhase, infer_step-IsTimedPhase, infer_step-counted, infer_step-deadlines, unsettled_resets,
  step_resets-KeepsRequests, step_resets-settled, is_serving, IsTimedRequest,
}

module _ {A : Type 0} where
  record Inv (s : Threads A) : Type 0 where
    timed : IsTimedRequest s.request
    requests : s.client.requests_started ≡ counted_requests s.client + uncounted_requests s.request
    settled : s.client.reset_requests ≡ settled_resets s.client + unsettled_resets s.resets
    deadlines : s.client.deadlines ≡ s.client.startup_deadlines + s.client.steady_deadlines
    serving : s.client.inflight ≡ is_serving s.request

  infer_step-serving :
      (w : World A) (r : Request) (phase : Phase A) (c : Client)
      → c.inflight ≡ not (is_ended phase)
      → (infer_step w r phase c).0.inflight ≡ not (is_ended (infer_step w r phase c).1)
  unfolding infer_step handle commit publish_socket
  infer_step-serving w r phase c h = ground arith

  infer_step-resets :
      (w : World A) (r : Request) (phase : Phase A) (c : Client)
      → ((infer_step w r phase c).0.reset_requests ≡ c.reset_requests)
        × (settled_resets (infer_step w r phase c).0 ≡ settled_resets c)
  unfolding infer_step handle commit publish_socket
  infer_step-resets w r phase c = ground arith

  serve-Inv :
      (s : Threads A) (w : World A) (r : Request) (phase : Phase A)
      → IsTimedReceived w.received
      → s.request ≡ some (r, phase)
      → Inv s
      → Inv (record s {
        client = (infer_step w r phase s.client).0;
        request = some (r, (infer_step w r phase s.client).1);
      })
  serve-Inv s w r phase h at v =
      let timed : IsTimedPhase phase = ground (arith, v.timed) in
      let (started, counted) = infer_step-counted w r phase s.client timed in
      let (requested, settled) = infer_step-resets w r phase s.client in
      let before : s.client.inflight ≡ not (is_ended phase) = ground (arith, v.serving) in
      record {
        timed = infer_step-IsTimedPhase w r phase s.client h;
        requests = ground (arith, v.requests);
        settled = ground (arith, v.settled);
        deadlines = infer_step-deadlines w r phase s.client v.deadlines;
        serving = infer_step-serving w r phase s.client before;
      }

  ended-uncounted : (phase : Phase A) → is_ended phase ≡ true → uncounted phase ≡ 0
  ended-uncounted phase h = ground arith

  infer_on-Inv :
      (s : Threads A) (w : World A) (request : Option (Request × Phase A))
      → IsTimedReceived w.received
      → s.request ≡ request
      → Inv s
      → Inv (record s {
        client = (infer_on w request s.client).0;
        request = (infer_on w request s.client).1;
      })
  unfolding infer_on
  infer_on-Inv s w none h at v = record {
    timed = tt;
    requests = ground (arith, v.requests);
    settled = v.settled;
    deadlines = v.deadlines;
    serving = ground (arith, v.serving);
  }
  infer_on-Inv s w (some (r, phase)) h at v = elim (Bool-cases (is_ended phase)) [
    | inl over ↦ rw over (record {
      timed = tt;
      requests = ground (arith, v.requests, ended-uncounted phase over);
      settled = v.settled;
      deadlines = v.deadlines;
      serving = ground (arith, v.serving);
    })
    | inr open_phase ↦ rw open_phase (serve-Inv s w r phase h at v)
  ]

  admit_picked-Inv :
      (id now : ℕ) (found : Option ((ℕ × Float) × List (ℕ × Float))) (s : Threads A)
      → s.request ≡ none
      → Inv s
      → Inv (admit_picked id now found s)
  unfolding admit_picked admitted admit_request
  admit_picked-Inv id now none s free v = v
  admit_picked-Inv id now (some ((generation, timeout), entered)) s free v = record {
    timed = ground (arith, v.timed);
    requests = ground (arith, v.requests);
    settled = ground (arith, v.settled);
    deadlines = ground (arith, v.deadlines);
    serving = ground (arith, v.serving);
  }

  free_request : (request : Option (Request × Phase A)) → is_some request ≡ false → request ≡ none
  free_request none h = refl
  free_request (some r) h = cc

  step_resets-Inv : (s : Threads A) (i : ℕ) (w : World A) → Inv s → Inv (step s (resets_on i w))
  unfolding step
  step_resets-Inv s i w v =
      let kept = step_resets-KeepsRequests w (is_locked s) i s.client s.resets in
      let settled = step_resets-settled w (is_locked s) i s.client s.resets in
      record {
        timed = v.timed;
        requests = ground (arith, v.requests, kept.kept_started, kept.kept_counted);
        settled = ground (arith, v.settled, kept.kept_requests);
        deadlines =
            ground (arith, v.deadlines, kept.kept_deadlines, kept.kept_startup, kept.kept_steady);
        serving = ground (arith, v.serving, kept.kept_inflight);
      }

  enter_checked-Inv :
      (timeout : Float) (entry : Result RpcError ℕ) (s : Threads A)
      → Inv s
      → Inv (enter_checked timeout entry s)
  unfolding enter_checked
  enter_checked-Inv timeout (err error) s v = v
  enter_checked-Inv timeout (ok generation) s v = record {
    timed = v.timed;
    requests = v.requests;
    settled = v.settled;
    deadlines = v.deadlines;
    serving = v.serving;
  }

  step-Inv : (s : Threads A) (e : Event A) → IsTimedEvent e → Inv s → Inv (step s e)
  unfolding step enter_checked cancel close begin_reset
  step-Inv s (enters timeout) h v = enter_checked-Inv timeout (enter_request timeout s.client) s v
  step-Inv s (admits i id now) h v = elim (Bool-cases (is_locked s)) [
    | inl taken ↦ rw taken v
    | inr free ↦
        rw free
          (admit_picked-Inv id now (pick i s.entered) s (free_request s.request (ground arith)) v)
  ]
  step-Inv s (infers w) h v = infer_on-Inv s w s.request h refl v
  step-Inv s (begins id now) h v = record {
    timed = v.timed;
    requests = v.requests;
    settled = ground (arith, v.settled);
    deadlines = v.deadlines;
    serving = v.serving;
  }
  step-Inv s (resets_on i w) h v = step_resets-Inv s i w v
  step-Inv s cancels h v = record {
    timed = v.timed;
    requests = v.requests;
    settled = v.settled;
    deadlines = v.deadlines;
    serving = v.serving;
  }
  step-Inv s closes h v = record {
    timed = v.timed;
    requests = v.requests;
    settled = v.settled;
    deadlines = v.deadlines;
    serving = v.serving;
  }

  run-Inv : (s : Threads A) (es : List (Event A)) → All IsTimedEvent es → Inv s → Inv (run s es)
  unfolding run
  run-Inv s [] timed v = v
  run-Inv s (e ∷ es) timed v = run-Inv (step s e) es timed.1 (step-Inv s e timed.0 v)

  -- In every interleaving of the callers of a new client, in which a server's time is a number where a
  -- response has one: each request that was started is counted once, as completed, as an error of the
  -- server's or of the transport, as invalidated, or not yet; each reset that was requested has
  -- succeeded, has failed or is not settled; the deadlines are those of the two classes; and the client
  -- is in flight exactly while an admitted request has not ended.
  pub requests_accounted :
      (connect control reset : Float) (startup steady : Option Float) (es : List (Event A))
      → All IsTimedEvent es
      → let s = run (initial (new_client connect control reset startup steady)) es in
        (s.client.requests_started
          ≡ s.client.requests_completed
            + s.client.server_errors
            + s.client.transport_errors
            + s.client.invalidated_requests
            + uncounted_requests s.request)
        × (s.client.reset_requests
            ≡ s.client.reset_successes + s.client.reset_failures + unsettled_resets s.resets)
        × (s.client.deadlines ≡ s.client.startup_deadlines + s.client.steady_deadlines)
        × (s.client.inflight ≡ is_serving s.request)
  requests_accounted connect control reset startup steady es timed =
      let v = run-Inv (initial (new_client connect control reset startup steady)) es timed (
        unfold new_client in
        record { timed = tt; requests = refl; settled = refl; deadlines = refl; serving = refl }) in
      (v.requests, v.settled, v.deadlines, v.serving)
