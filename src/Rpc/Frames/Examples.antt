-- ===== src/Rpc/Frames/Examples.antt =====
-- A frame of five bytes that arrives in three segments, with the front of the next one.
use action_stream.Prelude.{ℕ, pos, ◌≡◌, refl, List, [], ◌∷◌, length, ok, arith}
use action_stream.Rpc.Values.{encode_value, Items, no_items, item_then, text_key, scalar, int}
use action_stream.Rpc.Values.Examples.{libraries, libraries_base64, libraries_json, libraries_full}
use action_stream.Rpc.Values.RoundTrip.{Sendable, plain_items}
use action_stream.Rpc.Frames.{Segment, arrived, encode_frame, recv_frame, pack}
use action_stream.Rpc.Frames.RoundTrip.{recv_frame-encode_frame, bytes_of}

abbrev payload : Items (List ℕ) (List ℕ)
payload = item_then (text_key "n") (scalar (int (pos 5))) no_items

abbrev frame : List ℕ
frame = 0 ∷ 0 ∷ 0 ∷ 1 ∷ 5 ∷ []

abbrev segments : List Segment
segments = arrived (0 ∷ 0 ∷ []) ∷ arrived (0 ∷ 1 ∷ 5 ∷ 0 ∷ []) ∷ arrived (0 ∷ []) ∷ []

recv_frame-encode_frame_example :
    (rest : List Segment) × (recv_frame libraries segments
      ≡ ok ((plain_items payload, length frame), rest))
    × (bytes_of rest ≡ 0 ∷ 0 ∷ [])
unfolding Sendable libraries encode_frame encode_value pack
recv_frame-encode_frame_example =
    recv_frame-encode_frame libraries libraries_base64 libraries_json libraries_full payload frame
      (0 ∷ 0 ∷ []) segments (refl, (tt, tt, tt)) refl
      (omega arith, (omega arith, (omega arith, tt))) refl
