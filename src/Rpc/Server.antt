-- ===== src/Rpc/Server.antt =====
-- rpc_server_runtime.py: `RpcFaultProfile`, and what `RpcInferenceServer` does with the requests of its
-- connections up to the executor, and with the executor's answers.
pub mod Examples
pub mod Ordinals
use action_stream.Prelude.{
  ℕ, ℤ, zero, suc, pos, negsuc, pos_part, ◌+◌, ◌*◌, ◌%◌, ◌+ℤ◌, Float, finite, not_finite,
  is_non_negative, leb_ℤ, String, Bool, true, false, not, ◌&&◌, ◌||◌, Option, none, some, List, [],
  ◌∷◌, is_some, ltb, ◌==◌, str_eq, if◌then◌else◌, Result, raise_if, ◌>>◌,
}
use action_stream.Rpc.Client.Requests.{protocol_version, is_number, is_text}
use action_stream.Rpc.Executor.{Answer, ack, actions, failure}

pub record RpcFaultProfile : Type 0 where
  pub response_delay_s : Float
  pub response_jitter_s : Float
  pub stall_every_n : ℤ
  pub stall_s : Float
  pub disconnect_before_infer_every_n : ℤ
  pub drop_response_every_n : ℤ
  pub server_error_every_n : ℤ
  pub seed : ℤ

pub data ProfileError : Type 0 where
  bad_time bad_period : ProfileError

-- the checks of `__post_init__`
pub check_profile : RpcFaultProfile → Result ProfileError (Unit {0})
check_profile p =
    raise_if
      (not (
        is_non_negative p.response_delay_s
        && is_non_negative p.response_jitter_s
        && is_non_negative p.stall_s))
      bad_time
    >> raise_if
        (not (
          leb_ℤ (pos 0) p.stall_every_n
          && leb_ℤ (pos 0) p.disconnect_before_infer_every_n
          && leb_ℤ (pos 0) p.drop_response_every_n
          && leb_ℤ (pos 0) p.server_error_every_n))
        bad_period

-- `_matches`
pub matches : ℕ → ℤ → Bool
matches ordinal (pos n) = ltb 0 n && ordinal % n == 0
matches ordinal (negsuc n) = false

plus_jitter : Float → ℤ → Float
plus_jitter (finite delay) jitter = finite (pos (pos_part (delay +ℤ jitter)))
plus_jitter not_finite jitter = not_finite

is_zero : Float → Bool
is_zero (finite (pos n)) = n == 0
is_zero x = false

-- `delay_for`: `uniform` draws from a generator with a seed, up to a bound on both sides
pub delay_for : (ℤ → Float → ℤ) → RpcFaultProfile → ℕ → Float
unfolding plus_jitter is_zero
delay_for uniform p ordinal = plus_jitter p.response_delay_s (
    if is_zero p.response_jitter_s
    then pos 0
    else uniform (p.seed +ℤ pos (ordinal * 1000003)) p.response_jitter_s)

-- a frame that `_recv_frame` returned: a field that is missing or of another type is absent
pub record Incoming (O : Type 0) : Type 0 where
  pub version : Option ℕ
  pub request_id : Option String
  pub kind : Option String
  pub observation : Option O
  pub task : Option String

pub record Metadata : Type 0 where
  pub connection_request_ordinal : ℕ
  pub global_request_ordinal : ℕ

-- what the thread of a connection does next
pub data Action : Type 0 where
  leaves acks_close executes_reset : Action
  injects_error executes : Metadata → Action

-- the identifier is a text, and not empty
has_id : Option String → Bool
has_id none = false
has_id (some id) = not (str_eq id "")

-- the faults before the executor; the wait of a stall may end by the server's stop
fault_action : RpcFaultProfile → Bool → Metadata → Action
unfolding matches
fault_action p stopped given =
    let ordinal = given.global_request_ordinal in
    if matches ordinal p.disconnect_before_infer_every_n
    then leaves
    else if matches ordinal p.stall_every_n && stopped
    then leaves
    else if matches ordinal p.server_error_every_n
    then injects_error given
    else executes given

-- the numbers of the next request: of the server, and of the connection so far
pub record Numbers : Type 0 where
  pub next_ordinal : ℕ
  pub connection_ordinal : ℕ

-- the numbers of an inference
pub data Numbered : Type 0 where
  unnumbered : Action → Numbered
  numbered : Metadata → Action → Numbered

module _ {O : Type 0} where
  is_infer : Incoming O → Bool
  is_infer r = is_text r.kind "infer" && is_some r.observation && is_some r.task

  -- one round of `_client_loop`, up to the executor
  pub serve_request : RpcFaultProfile → Bool → Incoming O → Numbers → Numbers × Numbered
  unfolding has_id is_infer fault_action
  serve_request p stopped r n =
      let fresh : Metadata = record {
        connection_request_ordinal = suc n.connection_ordinal;
        global_request_ordinal = n.next_ordinal;
      } in
      if not (is_number r.version protocol_version)
      then (n, unnumbered leaves)
      else if not (has_id r.request_id)
      then (n, unnumbered leaves)
      else if is_text r.kind "close"
      then (n, unnumbered acks_close)
      else if is_text r.kind "reset"
      then (n, unnumbered executes_reset)
      else if not (is_infer r)
      then (n, unnumbered leaves)
      else (
        record { next_ordinal = suc n.next_ordinal; connection_ordinal = suc n.connection_ordinal },
        numbered fresh (fault_action p stopped fresh),
      )

-- what the thread does with the executor's response: it leaves, or sends it
pub data Reaction (A : Type 0) : Type 0 where
  goes : Reaction A
  replies : Answer A → Reaction A

module _ {A : Type 0} where
  -- the end of a round for an inference: its wait may end by the server's stop
  pub after_inference : RpcFaultProfile → ℕ → Bool → Option (Answer A) → Reaction A
  unfolding matches
  after_inference p ordinal stopped none = goes
  after_inference p ordinal stopped (some (actions a)) =
      if stopped
      then goes
      else if matches ordinal p.drop_response_every_n
      then goes
      else replies (actions a)
  after_inference p ordinal stopped (some answer) = replies answer

  pub after_reset : Option (Answer A) → Reaction A
  after_reset none = goes
  after_reset (some answer) = replies answer
