-- ===== src/Rpc/Frames.antt =====
-- rpc_protocol.py: the frames of a connection. What arrives at a socket is a list of segments, as the
-- network delivers them.
pub mod Examples
pub mod RoundTrip
use Prim.Native.Nat.{◌/◌}
use action_stream.Prelude.{
  ℕ, zero, suc, ◌+◌, ◌-◌, ◌*◌, ◌%◌, Bool, true, false, ◌||◌, List, [], ◌∷◌, ◌++◌, length, take,
  drop, leb, ltb, ◌==◌, is_empty, if◌then◌else◌, Result, ok, err, ◌>>=◌,
}
use action_stream.Rpc.Values.{
  WireError, Value, mapping, Items, Wire, Libraries, encode_value, decode_value,
}

pub data FrameError : Type 0 where
  -- `EOFError`, the deadline, and an exception of the value's
  peer_closed deadline_exceeded bad_frame : FrameError
  bad_value : WireError → FrameError

-- what the next call of `recv` meets: bytes, or nothing before the deadline
pub data Segment : Type 0 where
  arrived : List ℕ → Segment
  stalled : Segment

-- `_MAX_FRAME_BYTES`
abbrev pub max_frame_bytes : ℕ
max_frame_bytes = 268435456

-- `_HEADER.pack`
unfoldable pub pack : ℕ → List ℕ
pack n = n / 16777216 % 256 ∷ n / 65536 % 256 ∷ n / 256 % 256 ∷ n % 256 ∷ []

-- `_HEADER.unpack`, on its four bytes
unfoldable pub unpack : List ℕ → ℕ
unpack (a ∷ b ∷ c ∷ d ∷ []) = 16777216 * a + 65536 * b + 256 * c + d
unpack bytes = 0

-- `connection.recv(size)`: at most `size` bytes of the first segment
pub recv : ℕ → List Segment → Result FrameError (List ℕ × List Segment)
recv size [] = ok ([], [])
recv size (stalled ∷ segments) = err deadline_exceeded
recv size (arrived bytes ∷ segments) =
    if leb (length bytes) size
    then ok (bytes, segments)
    else ok (take size bytes, arrived (drop size bytes) ∷ segments)

add_chunk : List ℕ → List ℕ × List Segment → List ℕ × List Segment
add_chunk chunk (bytes, segments) = (chunk ++ bytes, segments)

-- The loop of `_recv_exact`: `size` bytes are missing. Each round reads one byte at least, so the
-- rounds of the first argument are enough if they are as many.
pub recv_loop : ℕ → ℕ → List Segment → Result FrameError (List ℕ × List Segment)
unfolding recv add_chunk
recv_loop rounds zero segments = ok ([], segments)
recv_loop zero (suc size) segments = err peer_closed
recv_loop (suc rounds) (suc size) segments =
    recv (suc size) segments >>= λ (received : List ℕ × List Segment).
    let rest = recv_loop rounds (suc size - length received.0) received.1 in
    if is_empty received.0 then err peer_closed else rest >>= λ more. ok (add_chunk received.0 more)

-- `_recv_exact`
pub recv_exact : ℕ → List Segment → Result FrameError (List ℕ × List Segment)
recv_exact size segments = recv_loop size size segments

module _ {T N : Type 0} (L : Libraries T N) where
  lift_error : {A : Type 0} → Result WireError A → Result FrameError A
  lift_error (ok a) = ok a
  lift_error (err e) = err (bad_value e)

  frame_of : List ℕ → Result FrameError (List ℕ)
  frame_of body =
      if ltb max_frame_bytes (length body) then err bad_frame else ok (pack (length body) ++ body)

  -- `_encode_frame`
  unfoldable pub encode_frame : Items T N → Result FrameError (List ℕ)
  unfolding lift_error frame_of
  encode_frame payload = lift_error (encode_value L (mapping payload)) >>= λ wire.
      lift_error (L.dumps wire) >>= λ body. frame_of body

  -- `_send_frame`: the bytes that it sends, and their number
  pub send_frame : Bool → Items T N → Result FrameError (List ℕ × ℕ)
  send_frame is_late payload = encode_frame payload >>= λ frame.
      if is_late then err deadline_exceeded else ok (frame, length frame)

  mapping_of : Value T N → Result FrameError (Items T N)
  mapping_of (mapping items) = ok items
  mapping_of value = err bad_frame

  check_length : ℕ → Result FrameError ℕ
  check_length n = if n == 0 || ltb max_frame_bytes n then err bad_frame else ok n

  -- `_recv_frame`: the mapping, the bytes that it read, and what arrives after them
  pub recv_frame : List Segment → Result FrameError ((Items T N × ℕ) × List Segment)
  unfolding lift_error mapping_of check_length
  recv_frame segments = recv_exact 4 segments >>= λ (header : List ℕ × List Segment).
      check_length (unpack header.0) >>= λ n.
      recv_exact n header.1 >>= λ (body : List ℕ × List Segment).
      lift_error (L.loads body.0) >>= λ wire. lift_error (decode_value L wire) >>= λ value.
      mapping_of value >>= λ items. ok ((items, 4 + n), body.1)
