-- ===== src/Transport/Direct.antt =====
-- inference_transport.py: `DirectInferenceTransport`, which calls the policy in the caller's thread.
use action_stream.Prelude.{
  ℕ, suc, Bool, not, ◌&&◌, Option, none, some, ltb, ◌==◌, if◌then◌else◌, Result, ok, err,
}
use action_stream.Rpc.Client.{RpcError, timed_out, cancelled}

pub record Direct : Type 0 where
  pub generation : ℕ
  pub latest_request_latency_s : Option ℕ

-- the section before the call: the generation
pub enter_direct : Bool → Direct → Result RpcError ℕ
enter_direct is_set d = if is_set then err cancelled else ok d.generation

-- the section after a call that took `elapsed`
pub note_latency : ℕ → ℕ → Bool → Direct → Direct
note_latency generation elapsed is_set d =
    if generation == d.generation && not is_set
    then record d { latest_request_latency_s = some elapsed }
    else d

-- what `_infer_request` does with the result
pub direct_result : {A : Type 0} → ℕ → ℕ → Bool → A → Result RpcError A
direct_result elapsed timeout is_set actions =
    if is_set then err cancelled else if ltb timeout elapsed then err timed_out else ok actions

-- `reset`, which `cancel` and `close` call
pub reset_direct : Direct → Direct
reset_direct d = record d { generation = suc d.generation; latest_request_latency_s = none }
