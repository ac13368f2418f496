-- ===== src/Vla/Coverage.antt =====
-- llm_vla/coverage.py: whether one production of a finite grammar covers the whole text of a request.
-- The tokens, the matching of patterns and the hashes are the caller's CoverTools; the productions are a
-- list.
pub mod Permits
pub mod Termination
use action_stream.Prelude.{
  ℕ, zero, suc, ◌+◌, ◌-◌, String, Bool, true, false, not, ◌&&◌, ◌||◌, Option, none, some, List, [],
  ◌∷◌, ◌++◌, map, length, drop, leb, ◌==◌, is_some, str_eq, if◌then◌else◌,
}
use action_stream.Vla.Contracts.{contains}
use action_stream.Vla.Grounding.{OriginalRequest, Contract, Kind, accept, reject, unknown, Verdict}

pub record Token : Type 0 where
  pub word : String
  pub start : ℕ
  pub end : ℕ

pub data Role : Type 0 where
  target destination action negation quantity ordering constraint unresolved : Role

-- a row of the ledger
pub record Row : Type 0 where
  pub start : ℕ
  pub end : ℕ
  pub role : Role
  pub symbol : String

pub record Alias : Type 0 where
  pub words : List String
  pub marker : String
  pub slot : Role

pub record Coverage : Type 0 where
  pub complete : Bool
  pub production : Option ℕ
  pub normalized : String
  pub ledger : List Row
  pub decision : Kind

pub record CoverTools : Type 0 where
  pub tokens : String → List Token
  -- what the tokens leave of the text is blank
  pub is_gapless : String → List Token → Bool
  -- the text of the symbols, with its punctuation rewritten
  pub normalize : List String → String
  pub full_match : String → String → Bool
  pub proof_hash : Verdict → Coverage → String
  pub grammar_hash : List String → String

abbrev actions : List String
actions =
    "put" ∷ "place" ∷ "move" ∷ "transfer" ∷ "deposit" ∷ "relocate" ∷ "set" ∷ "get" ∷ "pick" ∷ "lift"
    ∷ "take" ∷ "lower" ∷ "leave" ∷ "carry" ∷ "placed" ∷ "moved" ∷ "deposited" ∷ "resting" ∷ "go"
    ∷ "use" ∷ "finish" ∷ "close" ∷ "open" ∷ "bring" ∷ "wash" ∷ "rotate" ∷ "pour" ∷ "shake" ∷ []

abbrev negations : List String
negations = "no" ∷ "not" ∷ "never" ∷ "don't" ∷ "cannot" ∷ "can't" ∷ "won't" ∷ "without" ∷ []

abbrev quantities : List String
quantities =
    "a" ∷ "an" ∷ "one" ∷ "single" ∷ "two" ∷ "three" ∷ "both" ∷ "all" ∷ "another" ∷ "additional" ∷ []

abbrev orders : List String
orders = "and" ∷ "then" ∷ "before" ∷ "after" ∷ "first" ∷ "finally" ∷ "while" ∷ []

abbrev constraints : List String
constraints =
    "if" ∷ "unless" ∷ "until" ∷ "carefully" ∷ "slowly" ∷ "upright" ∷ "gently" ∷ "care" ∷ "spilling"
    ∷ "only" ∷ []

role_of : String → Role
role_of word =
    if contains word actions
    then action
    else if contains word negations
    then negation
    else if contains word quantities
    then quantity
    else if contains word orders
    then ordering
    else if contains word constraints
    then constraint
    else unresolved

-- the words stand at the front of the tokens
is_front : List String → List Token → Bool
is_front [] tokens = true
is_front (word ∷ words) [] = false
is_front (word ∷ words) (t ∷ tokens) = str_eq t.word word && is_front words tokens

-- the longest alias first, and among the equally long the earlier
insert_alias : Alias → List Alias → List Alias
insert_alias a [] = a ∷ []
insert_alias a (b ∷ rest) =
    let later = insert_alias a rest in
    if leb (length b.words) (length a.words) then a ∷ b ∷ rest else b ∷ later

sort_aliases : List Alias → List Alias
unfolding insert_alias
sort_aliases [] = []
sort_aliases (a ∷ rest) = insert_alias a (sort_aliases rest)

find_alias : List Alias → List Token → Option Alias
unfolding is_front
find_alias [] tokens = none
find_alias (a ∷ aliases) tokens =
    let later = find_alias aliases tokens in if is_front a.words tokens then some a else later

-- the end of the token at an index
end_at : List Token → ℕ → ℕ
end_at [] i = 0
end_at (t ∷ tokens) zero = t.end
end_at (t ∷ tokens) (suc i) = end_at tokens i

-- the row of what stands at the front, and the number of its tokens
row_of : Option Alias → Token → List Token → Row × ℕ
unfolding role_of end_at
row_of none t tokens =
    (record { start = t.start; end = t.end; role = role_of t.word; symbol = t.word }, 1)
row_of (some a) t tokens = (
  record {
    start = t.start;
    end = end_at (t ∷ tokens) (length a.words - 1);
    role = a.slot;
    symbol = a.marker;
  },
  length a.words,
)

add_row : Row → Option (List Row) → Option (List Row)
add_row row none = none
add_row row (some rows) = some (row ∷ rows)

-- The loop of `inspect_coverage`, in at most as many rounds as the first argument. An alias without a
-- word would keep it at the same token for ever.
pub cover : ℕ → List Alias → List Token → Option (List Row)
unfolding find_alias row_of add_row
cover rounds aliases [] = some []
cover zero aliases (t ∷ tokens) = none
cover (suc rounds) aliases (t ∷ tokens) =
    let (row, size) = row_of (find_alias aliases (t ∷ tokens)) t tokens in
    add_row row (cover rounds aliases (drop size (t ∷ tokens)))

abbrev is_negation : Role → Bool
is_negation negation = true
is_negation role = false

pub has_negation : List Row → Bool
has_negation [] = false
has_negation (row ∷ rows) = is_negation row.role || has_negation rows

later_rule : Option ℕ → Option ℕ
later_rule none = none
later_rule (some i) = some (suc i)

words_of : List Token → List String
words_of tokens = map (λ (t : Token). t.word) tokens

module _ (C : CoverTools) where
  aliases_of : String → Role → List String → List Alias
  unfolding words_of
  aliases_of marker slot names =
      map
        (λ (name : String). record {
          words = words_of (C.tokens name);
          marker = marker;
          slot = slot;
        })
        names

  -- the aliases of both slots, the longest first
  pub all_aliases : Contract → List Alias
  unfolding aliases_of sort_aliases
  all_aliases contract = sort_aliases (
      aliases_of "T" target contract.target_aliases
      ++ aliases_of "B" destination contract.destination_aliases)

module _ (C : CoverTools) (grammar : List String) where
  first_match : List String → String → Option ℕ
  unfolding later_rule
  first_match [] s = none
  first_match (rule ∷ rules) s =
      let later = later_rule (first_match rules s) in if C.full_match rule s then some 0 else later

  conclude : OriginalRequest → List Token → List Row → Coverage
  unfolding first_match
  conclude request raw rows =
      let normalized = C.normalize (map (λ (row : Row). row.symbol) rows) in
      let production = first_match grammar normalized in
      let valid = is_some production && C.is_gapless request.text raw && not (has_negation rows) in
      record {
        complete = valid;
        production = production;
        normalized = normalized;
        ledger = rows;
        decision = if valid then accept else if has_negation rows then reject else unknown;
      }

  -- `inspect_coverage`, with as many rounds as there are tokens
  pub inspect_coverage : OriginalRequest → Contract → Option Coverage
  unfolding conclude
  inspect_coverage request contract =
      let raw = C.tokens request.text in
      elim (cover (length raw) (all_aliases C contract) raw) [
        | none ↦ none
        | some rows ↦ some (conclude request raw rows)
      ]
