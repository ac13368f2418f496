-- ===== src/Rpc/Client/Resets.antt =====
-- rpc_client.py: the thread of a `reset`, from its first section: `_control` under the request lock,
-- and the section that settles the reset.
use action_stream.Prelude.{
  ℕ, ◌+◌, Float, Bool, true, false, not, ◌&&◌, Option, none, some, ◌==◌, if◌then◌else◌, Result, ok,
  err,
}
use action_stream.Rpc.Client.{
  Client, Response, RpcError, timed_out, cancelled, transport_failed, lookup_socket, publish_socket,
  is_past, acknowledge_reset, fail_reset,
}
use action_stream.Rpc.Client.Requests.{World, protocol_version, is_number, is_text}

-- where the thread is: it waits for the request lock, holds it, or has released it
pub data ResetPhase (A : Type 0) : Type 0 where
  waits starts connects has_socket receives : ResetPhase A
  replies : Response A → ResetPhase A
  settles : Option RpcError → ResetPhase A
  done : ResetPhase A

pub record Reset : Type 0 where
  pub generation : ℕ
  pub request_id : ℕ
  pub deadline : Float

module _ {A : Type 0} where
  -- the thread has the request lock
  abbrev pub holds_lock : ResetPhase A → Bool
  holds_lock waits = false
  holds_lock (settles result) = false
  holds_lock done = false
  holds_lock phase = true

  abbrev fails : RpcError → ResetPhase A
  fails error = settles (some error)

  -- the checks of the acknowledgement
  unfoldable pub check_acknowledgement : Reset → Response A → Option RpcError
  check_acknowledgement r response =
      if not
        (is_number response.version protocol_version && is_number response.request_id r.request_id)
      then some transport_failed
      else if is_text response.kind "error"
      then some transport_failed
      else if not (is_text response.kind "ack")
      then some transport_failed
      else none

  take_lookup : Result RpcError (Option ℕ) → ResetPhase A
  take_lookup (err error) = fails error
  take_lookup (ok none) = connects
  take_lookup (ok (some socket)) = has_socket

  take_published : Client × Result RpcError ℕ → Client × ResetPhase A
  take_published (c, err error) = (c, fails error)
  take_published (c, ok socket) = (c, has_socket)

  take_connection : Reset → Result RpcError (ℕ × ℕ) → Client → Client × ResetPhase A
  unfolding take_published
  take_connection r (err error) c = (c, fails error)
  take_connection r (ok (socket, elapsed)) c =
      take_published (publish_socket r.generation socket elapsed c)

  take_sent : World A → Reset → Result RpcError ℕ → Client → Client × ResetPhase A
  take_sent w r (err error) c = (c, fails error)
  take_sent w r (ok size) c = (
    record c { bytes_sent = c.bytes_sent + size },
    if is_past r.deadline w.now then fails timed_out else receives,
  )

  take_reply : World A → Reset → Result RpcError (Response A × ℕ) → Client → Client × ResetPhase A
  take_reply w r (err error) c = (c, fails error)
  take_reply w r (ok (response, size)) c =
      if is_past r.deadline w.now then (c, fails timed_out) else (
        record c { bytes_received = c.bytes_received + size },
        if not (r.generation == c.generation) then fails cancelled else replies response,
      )

  take_acknowledged : Client × Option RpcError → Client × ResetPhase A
  take_acknowledged (c, some error) = (c, fails error)
  take_acknowledged (c, none) = (c, done)

  -- the sections of `reset` after `_control`, which returned or raised
  unfoldable pub settle : Reset → Option RpcError → Client → Client × ResetPhase A
  unfolding take_acknowledged
  settle r (some error) c = (fail_reset r.generation error c, done)
  settle r none c = take_acknowledged (acknowledge_reset r.generation c)

  -- the next step of the thread, which may be to try the request lock
  unfoldable pub reset_step : World A → Reset → ResetPhase A → Client → Client × ResetPhase A
  unfolding take_lookup take_connection take_sent take_reply settle
  reset_step w r waits c = (c, if is_past r.deadline w.now then fails timed_out else starts)
  reset_step w r starts c = (
    c,
    if is_past r.deadline w.now
        then fails timed_out
        else take_lookup (lookup_socket r.generation c),
  )
  reset_step w r connects c = take_connection r w.connected c
  reset_step w r has_socket c =
      if is_past r.deadline w.now then (c, fails timed_out) else take_sent w r w.sent c
  reset_step w r receives c = take_reply w r w.received c
  reset_step w r (replies response) c = (c, settles (check_acknowledgement r response))
  reset_step w r (settles result) c = settle r result c
  reset_step w r done c = (c, done)
