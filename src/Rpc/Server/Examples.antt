-- ===== src/Rpc/Server/Examples.antt =====
-- Two connections that ask a server which drops every second request.
use action_stream.Prelude.{ℕ, suc, pos, ◌≡◌, finite, String, false, some, List, [], ◌∷◌, length}
use action_stream.Rpc.Server.{RpcFaultProfile}
use action_stream.Rpc.Server.Ordinals.{
  Turn, take_turns, new_server, admitted_by, ordinals_of, count_down, global_ordinals,
  ordinals_exact,
}

abbrev profile : RpcFaultProfile
profile = record {
  response_delay_s = finite (pos 0);
  response_jitter_s = finite (pos 0);
  stall_every_n = pos 0;
  stall_s = finite (pos 0);
  disconnect_before_infer_every_n = pos 2;
  drop_response_every_n = pos 0;
  server_error_every_n = pos 0;
  seed = pos 0;
}

abbrev asks : ℕ → String → Turn ℕ
asks connection kind = record {
  connection = connection;
  request = record {
    version = some 1;
    request_id = some "a";
    kind = some kind;
    observation = some 7;
    task = some "pick";
  };
  stopped = false;
}

abbrev turns : List (Turn ℕ)
turns = asks 0 "infer" ∷ asks 0 "reset" ∷ asks 1 "infer" ∷ asks 0 "infer" ∷ []

ordinals_exact_example :
    let s = take_turns profile new_server turns in
    (global_ordinals s.admissions ≡ count_down (length s.admissions))
    × (s.next_ordinal ≡ suc (length s.admissions))
    × ((c : ℕ) → ordinals_of c s.admissions ≡ count_down (admitted_by c s.admissions))
    × ((c : ℕ) → s.connection_ordinals c ≡ admitted_by c s.admissions)
ordinals_exact_example = ordinals_exact profile turns
