-- ===== src/Vla/Coverage/Termination.antt =====
-- The loop over the tokens of a request ends.
use action_stream.Prelude.{
  ℕ, zero, suc, ◌≤◌, ◌≡◌, refl, Bool, true, some, List, [], ◌∷◌, ◌++◌, length, drop, length-drop,
  Bool-cases, inl, inr, String, arith, ◌&&◌, leb,
}
use action_stream.Vla.Grounding.{OriginalRequest, Contract}
use action_stream.Vla.Coverage.{
  Token, Alias, Role, target, destination, Row, Coverage, CoverTools, cover, row_of, add_row,
  find_alias, is_front, insert_alias, sort_aliases, aliases_of, all_aliases, inspect_coverage,
  words_of, conclude,
}

-- every alias of the list has a word
pub has_words : List Alias → Bool
has_words [] = true
has_words (a ∷ aliases) = leb 1 (length a.words) && has_words aliases

split_words :
    (a : Alias) (aliases : List Alias)
    → has_words (a ∷ aliases) ≡ true
    → (1 ≤ length a.words) × (has_words aliases ≡ true)
unfolding has_words
split_words a aliases h = (ground arith, ground arith)

insert_alias-has_words :
    (a : Alias) (aliases : List Alias)
    → leb 1 (length a.words) ≡ true
    → has_words aliases ≡ true
    → has_words (insert_alias a aliases) ≡ true
unfolding insert_alias has_words
insert_alias-has_words a [] first rest = ground arith
insert_alias-has_words a (b ∷ aliases) first rest =
    let later = insert_alias-has_words a aliases first in ground arith

sort_aliases-has_words :
    (aliases : List Alias) → has_words aliases ≡ true → has_words (sort_aliases aliases) ≡ true
unfolding sort_aliases has_words
sort_aliases-has_words [] h = refl
sort_aliases-has_words (a ∷ aliases) h =
    let rest = sort_aliases-has_words aliases in
    let (first, later) = split_words a aliases h in
    insert_alias-has_words a (sort_aliases aliases) (ground arith) (rest later)

append-has_words :
    (left right : List Alias)
    → has_words left ≡ true
    → has_words right ≡ true
    → has_words (left ++ right) ≡ true
unfolding has_words
append-has_words [] right l r = r
append-has_words (a ∷ left) right l r =
    let rest = append-has_words left right in
    let (first, later) = split_words a left l in let done = rest later r in ground arith

-- what is found at the front has a word
row_of-size :
    (aliases : List Alias) (t : Token) (tokens : List Token)
    → has_words aliases ≡ true
    → 1 ≤ (row_of (find_alias aliases (t ∷ tokens)) t tokens).1
unfolding row_of find_alias has_words
row_of-size [] t tokens h = omega arith
row_of-size (a ∷ aliases) t tokens h =
    let rest = row_of-size aliases t tokens in
    let (first, later) = split_words a aliases h in
    let found = rest later in
    elim (Bool-cases (is_front a.words (t ∷ tokens))) [
      | inl front ↦ rw front first
      | inr other ↦ rw other found
    ]

cover-ends :
    (rounds : ℕ) (aliases : List Alias) (tokens : List Token)
    → has_words aliases ≡ true
    → length tokens ≤ rounds
    → (rows : List Row) × (cover rounds aliases tokens ≡ some rows)
unfolding cover add_row
cover-ends rounds aliases [] h enough = ([], refl)
cover-ends zero aliases (t ∷ tokens) h enough = absurd (omega (arith, enough))
cover-ends (suc rounds) aliases (t ∷ tokens) h enough =
    let rest = cover-ends rounds aliases in
    let size = row_of-size aliases t tokens h in
    let (rows, done) =
      rest (drop (row_of (find_alias aliases (t ∷ tokens)) t tokens).1 (t ∷ tokens)) h (
        omega (
          arith,
          length-drop (row_of (find_alias aliases (t ∷ tokens)) t tokens).1 (t ∷ tokens),
        )) in
    ((row_of (find_alias aliases (t ∷ tokens)) t tokens).0 ∷ rows, rw done refl)

module _ (C : CoverTools) where
  -- every name has a token
  unfoldable pub are_wordy : List String → Bool
  are_wordy [] = true
  are_wordy (name ∷ names) = leb 1 (length (C.tokens name)) && are_wordy names

  length-words_of : (tokens : List Token) → length (words_of tokens) ≡ length tokens
  unfolding words_of
  length-words_of [] = refl
  length-words_of (t ∷ tokens) = ground (arith, length-words_of tokens)

  aliases_of-has_words :
      (marker : String) (slot : Role) (names : List String)
      → are_wordy names ≡ true
      → has_words (aliases_of C marker slot names) ≡ true
  unfolding are_wordy aliases_of has_words
  aliases_of-has_words marker slot [] h = refl
  aliases_of-has_words marker slot (name ∷ names) h =
      let rest = aliases_of-has_words marker slot names in
      let same = length-words_of (C.tokens name) in ground arith

  append-are_wordy :
      (left right : List String)
      → are_wordy (left ++ right) ≡ true
      → (are_wordy left ≡ true) × (are_wordy right ≡ true)
  unfolding are_wordy
  append-are_wordy [] right h = (refl, h)
  append-are_wordy (name ∷ left) right h =
      let rest = append-are_wordy left right in
      elim (Bool-cases (leb 1 (length (C.tokens name)))) [
        | inl wordy ↦ let (l, r) = rest (ground arith) in (ground arith, r)
        | inr empty ↦ ground arith
      ]

  all_aliases-has_words :
      (contract : Contract)
      → are_wordy (contract.target_aliases ++ contract.destination_aliases) ≡ true
      → has_words (all_aliases C contract) ≡ true
  unfolding all_aliases
  all_aliases-has_words contract h =
      let (targets, destinations) =
        append-are_wordy contract.target_aliases contract.destination_aliases h in
      sort_aliases-has_words _ (
        append-has_words _ _ (aliases_of-has_words "T" target contract.target_aliases targets)
          (aliases_of-has_words "B" destination contract.destination_aliases destinations))

module _ (C : CoverTools) (grammar : List String) where
  -- If every alias of the contract has a token, then `inspect_coverage` returns within as many rounds as
  -- the request has tokens, for every request.
  pub inspection_ends :
      (request : OriginalRequest) (contract : Contract)
      → are_wordy C (contract.target_aliases ++ contract.destination_aliases) ≡ true
      → (coverage : Coverage) × (inspect_coverage C grammar request contract ≡ some coverage)
  unfolding inspect_coverage
  inspection_ends request contract h =
      let raw = C.tokens request.text in
      let (rows, done) =
        cover-ends (length raw) (all_aliases C contract) raw (all_aliases-has_words C contract h)
          (omega arith) in
      (conclude C grammar request raw rows, rw (inspect_coverage, done) refl)
