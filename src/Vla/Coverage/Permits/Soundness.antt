-- ===== src/Vla/Coverage/Permits/Soundness.antt =====
-- What a permit of `authorize` attests.
use action_stream.Prelude.{
  ℕ, zero, suc, ◌≡◌, refl, true, false, Option, none, some, List, [], ◌∷◌, String, arith, length,
  get_elem?, Bool-cases, Option-cases, inl, inr, map, Result, ok, err,
}
use action_stream.Vla.Grounding.{
  Tools, OriginalRequest, Contract, Verdict, adjudicate, GroundedTask, GroundingError, materialize,
  request_eq,
}
use action_stream.Vla.Coverage.{
  Row, Coverage, CoverTools, cover, all_aliases, has_negation, first_match, later_rule, conclude,
  inspect_coverage,
}
use action_stream.Vla.Coverage.Permits.{
  CoverageError, CoveragePermit, merge_coverage, is_accepted, adjudicate_covered, permit_of,
  authorize, permit_eq, task_or_error, compare_permit, execute_covered,
}

later_rule-zero : (found : Option ℕ) → ¬ (later_rule found ≡ some 0)
unfolding later_rule
later_rule-zero none h = ground arith
later_rule-zero (some i) h = ground arith

later_rule-suc : (found : Option ℕ) (i : ℕ) → later_rule found ≡ some (suc i) → found ≡ some i
unfolding later_rule
later_rule-suc none i h = ground arith
later_rule-suc (some j) i h = ground arith

module _ (T : Tools) (C : CoverTools) (grammar : List String) where
  abbrev normalized_of : List Row → String
  normalized_of rows = C.normalize (map (λ (row : Row). row.symbol) rows)

  -- a production of the grammar derives the whole text, and no row of its ledger is a negation
  pub IsDerived : OriginalRequest → Contract → Type 0
  IsDerived request contract =
      (rows : List Row) × (i : ℕ) × (rule : String) × (cover (length (C.tokens request.text))
          (all_aliases C contract) (C.tokens request.text)
        ≡ some rows)
      × (get_elem? grammar i ≡ some rule)
      × (C.full_match rule (normalized_of rows) ≡ true)
      × (C.is_gapless request.text (C.tokens request.text) ≡ true)
      × (has_negation rows ≡ false)

  first_match_sound :
      (rules : List String) (s : String) (i : ℕ)
      → first_match C grammar rules s ≡ some i
      → (rule : String) × (get_elem? rules i ≡ some rule) × (C.full_match rule s ≡ true)
  unfolding first_match later_rule
  first_match_sound [] s i h = ground arith
  first_match_sound (rule ∷ rules) s zero h = elim (Bool-cases (C.full_match rule s)) [
    | inl hit ↦ (rule, refl, hit)
    | inr missed ↦ absurd (later_rule-zero (first_match C grammar rules s) (ground arith))
  ]
  first_match_sound (rule ∷ rules) s (suc i) h =
      let later = first_match_sound rules s i in
      elim (Bool-cases (C.full_match rule s)) [
        | inl hit ↦ ground arith
        | inr missed ↦ later (later_rule-suc (first_match C grammar rules s) i (ground arith))
      ]

  complete-IsDerived :
      (request : OriginalRequest) (contract : Contract) (rows : List Row)
      → cover (length (C.tokens request.text)) (all_aliases C contract) (C.tokens request.text)
        ≡ some rows
      → (conclude C grammar request (C.tokens request.text) rows).complete ≡ true
      → IsDerived request contract
  unfolding conclude IsDerived
  complete-IsDerived request contract rows covered h =
      elim (Option-cases (first_match C grammar grammar (normalized_of rows))) [
        | inl none_found ↦ ground arith
        | inr (i, found) ↦
            let (rule, member, matches) = first_match_sound grammar (normalized_of rows) i found in
            (rows, i, rule, covered, member, matches, ground arith, ground arith)
      ]

  conclude-unaccepted :
      (request : OriginalRequest) (rows : List Row)
      → (let c = conclude C grammar request (C.tokens request.text) rows in c.complete) ≡ false
      → (let c = conclude C grammar request (C.tokens request.text) rows in is_accepted c.decision)
        ≡ false
  unfolding conclude
  conclude-unaccepted request rows h = ground arith

  merged-IsAccepted :
      (old : Verdict) (coverage : Coverage)
      → (coverage.complete ≡ false → is_accepted coverage.decision ≡ false)
      → (let v = merge_coverage old coverage in is_accepted v.decision) ≡ true
      → (is_accepted old.decision ≡ true) × (coverage.complete ≡ true)
  unfolding merge_coverage
  merged-IsAccepted old coverage only h = elim (Bool-cases coverage.complete) [
    | inl whole ↦ (ground arith, whole)
    | inr partial ↦ let refused = only partial in ground arith
  ]

  permit_of_sound :
      (request : OriginalRequest) (raw : String) (contract : Contract) (verdict : Verdict)
      (coverage : Coverage) (permit : CoveragePermit)
      → permit_of T C grammar request raw contract (verdict, coverage) ≡ ok permit
      → (permit.original ≡ request) × (permit.raw ≡ raw) × (is_accepted verdict.decision ≡ true)
  unfolding permit_of
  permit_of_sound request raw contract verdict coverage permit h =
      elim (Bool-cases (is_accepted verdict.decision)) [
        | inl accepted ↦ (ground arith, ground arith, accepted)
        | inr other ↦ ground arith
      ]

  permit_sound :
      (request : OriginalRequest) (raw : String) (contract : Contract) (permit : CoveragePermit)
      → authorize T C grammar request raw contract ≡ some (ok permit)
      → (permit.original ≡ request)
        × (permit.raw ≡ raw)
        × (is_accepted (adjudicate T request raw contract).decision ≡ true)
        × IsDerived request contract
  unfolding authorize adjudicate_covered inspect_coverage
  permit_sound request raw contract permit h =
      elim (Option-cases
        (cover (length (C.tokens request.text)) (all_aliases C contract) (C.tokens request.text))) [
          | inl endless ↦ ground arith
          | inr (rows, covered) ↦
              let coverage = conclude C grammar request (C.tokens request.text) rows in
              let verdict = adjudicate T request raw contract in
              let (own, same, accepted) =
                permit_of_sound request raw contract (merge_coverage verdict coverage) coverage
                  permit (ground arith) in
              let (allowed, complete) =
                merged-IsAccepted verdict coverage (conclude-unaccepted request rows) accepted in
              (own, same, allowed, complete-IsDerived request contract rows covered complete)
        ]

  task_or_error-ok :
      (made : Result GroundingError GroundedTask) (task : GroundedTask)
      → task_or_error made ≡ ok task
      → made ≡ ok task
  unfolding task_or_error
  task_or_error-ok (err e) task h = ground arith
  task_or_error-ok (ok made) task h = ground arith

  compared-IsSame :
      (request : OriginalRequest) (permit : CoveragePermit) (contract : Contract)
      (result : Result CoverageError CoveragePermit) (task : GroundedTask)
      → compare_permit T C grammar request permit contract result ≡ ok task
      → (fresh : CoveragePermit) × (result ≡ ok fresh)
        × (permit_eq T C grammar fresh permit ≡ true)
        × (materialize T request permit.raw contract ≡ ok task)
  unfolding compare_permit
  compared-IsSame request permit contract (err e) task h = ground arith
  compared-IsSame request permit contract (ok fresh) task h =
      elim (Bool-cases (permit_eq T C grammar fresh permit)) [
        | inl same ↦
            let made = materialize T request permit.raw contract in
            (fresh, refl, same, task_or_error-ok made task (ground arith))
        | inr other ↦ ground arith
      ]

  -- If `execute_covered` comes to execute a task for a request and a permit, then the permit is of that
  -- request and equal field by field to the one that `authorize` issues for it now, the model's decision
  -- is accepted and gives the task, and a production of the grammar derives the whole text of the request
  -- without a gap and without a negation.
  pub execution_covered :
      (request : OriginalRequest) (permit : CoveragePermit) (contract : Contract)
      (task : GroundedTask)
      → execute_covered T C grammar request permit contract ≡ some (ok task)
      → (request_eq T permit.original request ≡ true)
        × ((fresh : CoveragePermit) × (authorize T C grammar request permit.raw contract
              ≡ some (ok fresh))
            × (permit_eq T C grammar fresh permit ≡ true))
        × (is_accepted (adjudicate T request permit.raw contract).decision ≡ true)
        × (materialize T request permit.raw contract ≡ ok task)
        × IsDerived request contract
  unfolding execute_covered
  execution_covered request permit contract task h =
      elim (Bool-cases (request_eq T permit.original request)) [
        | inr foreign ↦ ground arith
        | inl own ↦ elim (Option-cases (authorize T C grammar request permit.raw contract)) [
          | inl endless ↦ ground arith
          | inr (result, issued) ↦
              let (fresh, is_fresh, same, made) =
                compared-IsSame request permit contract result task (ground arith) in
              let (of_request, of_raw, allowed, derived) =
                permit_sound request permit.raw contract fresh (ground arith) in
              (own, (fresh, ground arith, same), allowed, made, derived)
        ]
      ]
