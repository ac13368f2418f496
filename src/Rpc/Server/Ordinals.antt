-- ===== src/Rpc/Server/Ordinals.antt =====
-- rpc_server_runtime.py: `_next_ordinal`, which the faults count by, over the requests of all
-- connections in the order in which they take it.
use action_stream.Prelude.{
  ℕ, zero, suc, ◌+◌, ◌≡◌, refl, Bool, List, [], ◌∷◌, length, map, Bool-cases, inl, inr, ap, subst,
  ◌∙◌, ◌==◌, ==_iff, if◌then◌else◌, arith,
}
use action_stream.Rpc.Server.{
  RpcFaultProfile, Incoming, Metadata, Action, Numbers, Numbered, unnumbered, numbered,
  serve_request,
}

-- a request that got its numbers: the connection, the numbers and what was done
pub record Admission : Type 0 where
  pub connection : ℕ
  pub given : Metadata
  pub action : Action

pub record Server : Type 0 where
  pub next_ordinal : ℕ
  pub connection_ordinals : ℕ → ℕ
  -- the latest first
  pub admissions : List Admission

-- a round of a connection, and whether the server stops while it stalls
pub record Turn (O : Type 0) : Type 0 where
  pub connection : ℕ
  pub request : Incoming O
  pub stopped : Bool

abbrev admissions_of : ℕ → Numbered → List Admission → List Admission
admissions_of c (unnumbered action) rest = rest
admissions_of c (numbered given action) rest =
    record { connection = c; given = given; action = action } ∷ rest

set_ordinal : ℕ → ℕ → (ℕ → ℕ) → ℕ → ℕ
set_ordinal c n ordinals d = if d == c then n else ordinals d

-- the requests that a connection has had admitted
abbrev pub admitted_by : ℕ → List Admission → ℕ
admitted_by c [] = 0
admitted_by c (a ∷ rest) = (if a.connection == c then 1 else 0) + admitted_by c rest

-- n, n - 1, ..., 1
abbrev pub count_down : ℕ → List ℕ
count_down zero = []
count_down (suc n) = suc n ∷ count_down n

abbrev pub global_ordinals : List Admission → List ℕ
global_ordinals = map (λ (a : Admission). a.given.global_request_ordinal)

-- the numbers that a connection's requests were given, the latest first
abbrev pub ordinals_of : ℕ → List Admission → List ℕ
ordinals_of c [] = []
ordinals_of c (a ∷ rest) =
    let earlier = ordinals_of c rest in
    if a.connection == c then a.given.connection_request_ordinal ∷ earlier else earlier

abbrev pub new_server : Server
new_server = record { next_ordinal = 1; connection_ordinals = λ c. 0; admissions = [] }

count_down-suc :
    (n count : ℕ) (rest : List ℕ)
    → n ≡ suc count
    → rest ≡ count_down count
    → n ∷ rest ≡ count_down (1 + count)
count_down-suc n count rest next counted =
    let one : 1 + count ≡ suc count = omega arith in rw one (rw next (rw counted refl))

count_down_same :
    (count : ℕ) (rest : List ℕ) → rest ≡ count_down count → rest ≡ count_down (0 + count)
count_down_same count rest counted =
    let none_more : 0 + count ≡ count = omega arith in rw none_more counted

record Inv (s : Server) : Type 0 where
  next : s.next_ordinal ≡ suc (length s.admissions)
  ordinals : global_ordinals s.admissions ≡ count_down (length s.admissions)
  connections : (c : ℕ) → s.connection_ordinals c ≡ admitted_by c s.admissions
  given : (c : ℕ) → ordinals_of c s.admissions ≡ count_down (admitted_by c s.admissions)

-- the numbers after a request that took the numbers `n`, or none
abbrev IsServed : Numbers → Numbers × Numbered → Type 0
IsServed n (n', unnumbered action) =
    (n'.next_ordinal ≡ n.next_ordinal) × (n'.connection_ordinal ≡ n.connection_ordinal)
IsServed n (n', numbered given action) =
    (n'.next_ordinal ≡ suc n.next_ordinal)
    × (n'.connection_ordinal ≡ suc n.connection_ordinal)
    × (given.global_request_ordinal ≡ n.next_ordinal)
    × (given.connection_request_ordinal ≡ suc n.connection_ordinal)

numbers_of : ℕ → Server → Numbers
numbers_of c s = record {
  next_ordinal = s.next_ordinal;
  connection_ordinal = s.connection_ordinals c;
}

record_turn : ℕ → Numbers × Numbered → Server → Server
unfolding set_ordinal
record_turn c (n, result) s = record {
  next_ordinal = n.next_ordinal;
  connection_ordinals = set_ordinal c n.connection_ordinal s.connection_ordinals;
  admissions = admissions_of c result s.admissions;
}

record_turn-Inv :
    (c : ℕ) (served : Numbers × Numbered) (s : Server)
    → IsServed (numbers_of c s) served
    → Inv s
    → Inv (record_turn c served s)
unfolding record_turn set_ordinal numbers_of
record_turn-Inv c (n, unnumbered action) s h v = record {
  next = ground (arith, v.next);
  ordinals = v.ordinals;
  connections = λ d. ground (arith, v.connections d, v.connections c, ==_iff d c);
  given = v.given;
}
record_turn-Inv c (n, numbered given action) s h v = record {
  next = ground (arith, v.next);
  ordinals = rw v.ordinals (rw h.2 (rw v.next refl));
  connections = λ d. ground (arith, v.connections d, v.connections c, ==_iff d c, ==_iff c d);
  given = λ d. elim (Bool-cases (c == d)) [
    | inl own ↦
        let same : c ≡ d = (==_iff c d).0 own in
        let next =
          subst (λ (k : ℕ). given.connection_request_ordinal ≡ suc (s.connection_ordinals k)) same
            h.3 in
        rw own (
          count_down-suc given.connection_request_ordinal (admitted_by d s.admissions) _
            (next ∙ ap (λ (k : ℕ). suc k) (v.connections d)) (v.given d))
    | inr other ↦ rw other (count_down_same (admitted_by d s.admissions) _ (v.given d))
  ];
}

module _ {O : Type 0} (p : RpcFaultProfile) where
  -- one round of a connection's thread
  pub take_turn : Server → Turn O → Server
  unfolding record_turn numbers_of
  take_turn s t =
      record_turn t.connection (serve_request p t.stopped t.request (numbers_of t.connection s)) s

  pub take_turns : Server → List (Turn O) → Server
  take_turns s [] = s
  take_turns s (t ∷ ts) = take_turns (take_turn s t) ts

  serve_request-IsServed :
      (stopped : Bool) (r : Incoming O) (n : Numbers) → IsServed n (serve_request p stopped r n)
  unfolding serve_request
  serve_request-IsServed stopped r n = ground arith

  take_turns-Inv : (s : Server) (ts : List (Turn O)) → Inv s → Inv (take_turns s ts)
  unfolding take_turns take_turn
  take_turns-Inv s [] v = v
  take_turns-Inv s (t ∷ ts) v = take_turns-Inv (take_turn s t) ts (
      record_turn-Inv t.connection _ s
        (serve_request-IsServed t.stopped t.request (numbers_of t.connection s)) v)

  -- Whatever the requests of the connections are and in whatever order they come, the inferences that
  -- the server admits are given the numbers 1, 2, 3 and so on over all connections, and those of each
  -- connection are given the numbers 1, 2, 3 and so on of that connection; the server's next number and
  -- the counter of each connection continue these.
  pub ordinals_exact :
      (ts : List (Turn O))
      → let s = take_turns new_server ts in
        (global_ordinals s.admissions ≡ count_down (length s.admissions))
        × (s.next_ordinal ≡ suc (length s.admissions))
        × ((c : ℕ) → ordinals_of c s.admissions ≡ count_down (admitted_by c s.admissions))
        × ((c : ℕ) → s.connection_ordinals c ≡ admitted_by c s.admissions)
  ordinals_exact ts =
      let v =
        take_turns-Inv new_server ts
          (record { next = refl; ordinals = refl; connections = λ c. refl; given = λ c. refl }) in
      (v.ordinals, v.next, v.given, v.connections)
