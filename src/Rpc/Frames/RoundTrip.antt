-- ===== src/Rpc/Frames/RoundTrip.antt =====
-- rpc_protocol.py: what `_recv_frame` reads of a frame that was sent, however the network cuts it.
use action_stream.Prelude.{
  ℕ, zero, suc, ◌+◌, ◌-◌, ◌≤◌, ◌<◌, ◌≡◌, refl, sym, ap, ◌∙◌, inl, inr, Bool-cases, true, false,
  List, [], ◌∷◌, ◌++◌, length, take, drop, leb, is_empty, Result, ok, err, ◌>>=◌, leb→le, arith,
  take-append-le, take-append-ge, drop-append-le, drop-append-ge, length-take, length-drop,
  append_nil, length-append,
}
use action_stream.Rpc.Values.{WireError, mapping, Items, Wire, Libraries, encode_value}
use action_stream.Rpc.Values.RoundTrip.{Sendable, plain, plain_items, decode_value-encode_value}
use action_stream.Rpc.Frames.{
  lift_error, mapping_of, FrameError, Segment, arrived, stalled, max_frame_bytes, pack, unpack,
  encode_frame, recv_loop, recv_exact, recv_frame, frame_of, check_length, add_chunk,
}

unpack-pack : (n : ℕ) → n < 4294967296 → unpack (pack n) ≡ n
unfolding pack unpack
unpack-pack n h = omega arith

-- what arrives before the first stall
abbrev pub bytes_of : List Segment → List ℕ
bytes_of [] = []
bytes_of (arrived bytes ∷ segments) = bytes ++ bytes_of segments
bytes_of (stalled ∷ segments) = []

-- no segment is empty, which would be the end of the stream
abbrev pub AreProper : List Segment → Type 0
AreProper [] = Unit {0}
AreProper (arrived bytes ∷ segments) = (1 ≤ length bytes) × AreProper segments
AreProper (stalled ∷ segments) = AreProper segments

record IsRead (size : ℕ) (segments : List Segment)
    (result : Result FrameError (List ℕ × List Segment)) : Type 0 where
  rest : List Segment
  reads : result ≡ ok (take size (bytes_of segments), rest)
  leaves : bytes_of rest ≡ drop size (bytes_of segments)
  proper : AreProper rest

-- the segment is longer than what is missing
IsRead-part :
    (rounds size : ℕ) (bytes : List ℕ) (segments : List Segment)
    → suc size < length bytes
    → AreProper segments
    → IsRead
        (suc size)
        (arrived bytes ∷ segments)
        (recv_loop (suc rounds) (suc size) (arrived bytes ∷ segments))
unfolding recv_loop add_chunk
IsRead-part rounds size bytes segments longer proper =
    let part : leb (length bytes) (suc size) ≡ false = ground arith in
    let fits : suc size ≤ length bytes = omega arith in
    let taken = length-take (suc size) bytes in
    let left = length-drop (suc size) bytes in
    let none_missing : suc size - length (take (suc size) bytes) ≡ 0 = omega arith in
    let some_bytes : is_empty (take (suc size) bytes) ≡ false = ground arith in
    rw part (
      rw some_bytes (
        rw none_missing (record {
          rest = arrived (drop (suc size) bytes) ∷ segments;
          reads =
              rw (append_nil (take (suc size) bytes))
                (rw (take-append-le (suc size) bytes (bytes_of segments) fits) refl);
          leaves = sym (drop-append-le (suc size) bytes (bytes_of segments) fits);
          proper = (omega arith, proper);
        })))

-- the whole segment is missing, and perhaps more
IsRead-whole :
    (rounds size : ℕ) (bytes : List ℕ) (segments : List Segment)
    → length bytes ≤ suc size
    → 1 ≤ length bytes
    → IsRead
        (suc size - length bytes)
        segments
        (recv_loop rounds (suc size - length bytes) segments)
    → IsRead
        (suc size)
        (arrived bytes ∷ segments)
        (recv_loop (suc rounds) (suc size) (arrived bytes ∷ segments))
unfolding recv_loop add_chunk
IsRead-whole rounds size bytes segments fits proper more =
    let whole : leb (length bytes) (suc size) ≡ true = ground arith in
    let missing = suc size - length bytes in
    let split : suc size ≡ length bytes + missing = omega arith in
    let some_bytes : is_empty bytes ≡ false = ground arith in
    rw whole (
      rw some_bytes (
        rw more.reads (record {
          rest = more.rest;
          reads = rw (take-append-ge (suc size) missing bytes (bytes_of segments) split) refl;
          leaves =
              more.leaves ∙ sym (drop-append-ge (suc size) missing bytes (bytes_of segments) split);
          proper = more.proper;
        })))

recv_loop-IsRead :
    (rounds size : ℕ) (segments : List Segment)
    → size ≤ rounds
    → AreProper segments
    → size ≤ length (bytes_of segments)
    → IsRead size segments (recv_loop rounds size segments)
unfolding recv_loop
recv_loop-IsRead rounds zero segments enough proper there = record {
  rest = segments;
  reads = refl;
  leaves = refl;
  proper = proper;
}
recv_loop-IsRead zero (suc size) segments enough proper there = ground arith
recv_loop-IsRead (suc rounds) (suc size) [] enough proper there = ground arith
recv_loop-IsRead (suc rounds) (suc size) (stalled ∷ segments) enough proper there = ground arith
recv_loop-IsRead (suc rounds) (suc size) (arrived bytes ∷ segments) enough proper there =
    let missing = suc size - length bytes in
    let joined = length-append bytes (bytes_of segments) in
    elim (Bool-cases (leb (length bytes) (suc size))) [
      | inl whole ↦
          let fits = leb→le (length bytes) (suc size) whole in
          IsRead-whole rounds size bytes segments fits proper.0 (
            recv_loop-IsRead rounds missing segments (omega (arith, proper.0)) proper.1
              (omega arith))
      | inr part ↦ IsRead-part rounds size bytes segments (ground arith) proper.1
    ]

recv_exact-IsRead :
    (size : ℕ) (segments : List Segment)
    → AreProper segments
    → size ≤ length (bytes_of segments)
    → IsRead size segments (recv_exact size segments)
unfolding recv_exact
recv_exact-IsRead size segments proper there =
    recv_loop-IsRead size size segments (omega arith) proper there

module _ {T N : Type 0} (L : Libraries T N) where
  record IsFramed (dumped : Result WireError (List ℕ)) (frame : List ℕ) : Type 0 where
    body : List ℕ
    dumps : dumped ≡ ok body
    bound : length body ≤ max_frame_bytes
    framed : frame ≡ pack (length body) ++ body

  frame_of-IsFramed :
      (dumped : Result WireError (List ℕ)) (frame : List ℕ)
      → lift_error L dumped >>= frame_of L ≡ ok frame
      → IsFramed dumped frame
  unfolding lift_error frame_of
  frame_of-IsFramed (err e) frame h = ground arith
  frame_of-IsFramed (ok body) frame h = record {
    body = body;
    dumps = refl;
    bound = ground arith;
    framed = ground arith;
  }

  pack-append :
      (n : ℕ) (body after : List ℕ) → (pack n ++ body) ++ after ≡ pack n ++ (body ++ after)
  unfolding pack
  pack-append n body after = refl

  length-pack : (n : ℕ) (body : List ℕ) → length (pack n ++ body) ≡ 4 + length body
  unfolding pack
  length-pack n body = omega arith

  check_length_lem : (n : ℕ) → 1 ≤ n → n ≤ max_frame_bytes → check_length L n ≡ ok n
  unfolding check_length
  check_length_lem n some_bytes bound = ground arith

  -- the four bytes of a header, in front of anything
  read_header :
      (n : ℕ) (rest : List ℕ) (segments : List Segment)
      → AreProper segments
      → bytes_of segments ≡ pack n ++ rest
      → (left : List Segment) × (recv_exact 4 segments ≡ ok (pack n, left))
        × (bytes_of left ≡ rest)
        × AreProper left
  unfolding pack
  read_header n rest segments proper there =
      let long : 4 ≤ length (bytes_of segments) = rw there (omega arith) in
      let read = recv_exact-IsRead 4 segments proper long in
      (
        read.rest,
        read.reads ∙ ap (λ (bs : List ℕ). ok (take 4 bs, read.rest)) there,
        read.leaves ∙ ap (drop 4) there,
        read.proper,
      )

  read_body :
      (body after : List ℕ) (segments : List Segment)
      → AreProper segments
      → bytes_of segments ≡ body ++ after
      → (left : List Segment) × (recv_exact (length body) segments ≡ ok (body, left))
        × (bytes_of left ≡ after)
  read_body body after segments proper there =
      let joined = length-append body after in
      let long : length body ≤ length (bytes_of segments) = rw there (omega (arith, joined)) in
      let read = recv_exact-IsRead (length body) segments proper long in
      (
        read.rest,
        read.reads
            ∙ ap (λ (bs : List ℕ). ok (take (length body) bs, read.rest)) there
            ∙ ap (λ (bs : List ℕ). ok (bs, read.rest))
                (take-append-ge (length body) 0 body after (omega arith) ∙ append_nil body),
        read.leaves
            ∙ ap (drop (length body)) there
            ∙ drop-append-ge (length body) 0 body after (omega arith),
      )

  encode_frame-IsFramed :
      (items : Items T N) (wire : Wire) (frame : List ℕ)
      → encode_value L (mapping items) ≡ ok wire
      → encode_frame L items ≡ ok frame
      → IsFramed (L.dumps wire) frame
  unfolding encode_frame lift_error
  encode_frame-IsFramed items wire frame encodes frames = frame_of-IsFramed (L.dumps wire) frame (
      sym (
        ap
          (λ (r : Result WireError Wire).
            lift_error L r >>= λ wire'. lift_error L (L.dumps wire') >>= λ body. frame_of L body)
          encodes)
      ∙ frames)

  -- Let base64 and JSON be decoded to what was encoded, and no text of JSON be empty. If a mapping that
  -- can be sent is encoded to a frame, and a socket receives the frame and then any other bytes, cut
  -- into any segments that are not empty, then `_recv_frame` returns the mapping, with Python's scalars
  -- for numpy's, and the size of the frame, and leaves exactly the other bytes.
  pub recv_frame-encode_frame :
      ((raw : List ℕ) → L.decode64 (L.encode64 raw) ≡ ok raw)
      → ((wire : Wire) (body : List ℕ) → L.dumps wire ≡ ok body → L.loads body ≡ ok wire)
      → ((wire : Wire) (body : List ℕ) → L.dumps wire ≡ ok body → 1 ≤ length body)
      → (items : Items T N) (frame after : List ℕ) (segments : List Segment)
      → Sendable L (mapping items)
      → encode_frame L items ≡ ok frame
      → AreProper segments
      → bytes_of segments ≡ frame ++ after
      → (rest : List Segment) × (recv_frame L segments
          ≡ ok ((plain_items items, length frame), rest))
        × (bytes_of rest ≡ after)
  unfolding recv_frame lift_error mapping_of plain
  recv_frame-encode_frame base64 json full items frame after segments sendable frames proper there =
      let (wire, encodes, decodes) = decode_value-encode_value L base64 (mapping items) sendable in
      let framed = encode_frame-IsFramed items wire frame encodes frames in
      let body = framed.body in
      let n = length body in
      let some_bytes = full wire body framed.dumps in
      let (left, header, leaves, proper_left) =
        read_header n (body ++ after) segments proper
          (there ∙ ap (λ (bs : List ℕ). bs ++ after) framed.framed ∙ pack-append n body after) in
      let (rest, read, remains) = read_body body after left proper_left leaves in
      let size : length frame ≡ 4 + n = ap length framed.framed ∙ length-pack n body in
      let small : n < 4294967296 = omega (arith, framed.bound) in
      (
        rest,
        rw header (
            rw (unpack-pack n small) (
              rw (check_length_lem n some_bytes framed.bound)
                (rw read (rw (json wire body framed.dumps) (rw decodes (rw size refl)))))),
        remains,
      )
