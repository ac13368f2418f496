-- ===== src/Vla/Metrics.antt =====
-- llm_vla/confirmation.py: `episode_metrics`, which scores the claims of completion of one episode.
pub mod Examples
pub mod FirstStop
use action_stream.Prelude.{
  ℕ, ℤ, zero, suc, pos, negsuc, pos_part, Bool, true, false, not, ◌&&◌, ◌||◌, Option, none, some,
  List, [], ◌∷◌, map, all, length, get_elem?, is_some, is_empty, leb_ℤ, ltb_ℤ, sub_ℕ, if◌then◌else◌,
  Result, ok, err, raise_if, ◌>>◌,
}

pub data MetricsError : Type 0 where
  no_truth not_ordered outside_truth : MetricsError

-- a control step, and whether the decision claims that the task is complete
abbrev pub Claim : Type 0
Claim = ℤ × Bool

pub record Metrics : Type 0 where
  pub first_truth_control : Option ℕ
  pub first_claim_control : Option ℕ
  pub first_correct_control : Option ℕ
  pub premature_stop : Bool
  pub missed_completed_event : Bool
  pub no_stop : Bool
  -- the delay in controls, and the controls per second
  pub confirmation_delay_s : Option (ℤ × ℤ)
  pub post_stop_stable : Option Bool

-- the controls increase
pub is_ordered : List Claim → Bool
is_ordered [] = true
is_ordered (a ∷ []) = true
is_ordered (a ∷ b ∷ decisions) = ltb_ℤ a.0 b.0 && is_ordered (b ∷ decisions)

-- the control is one of the observed ones
abbrev is_inside : ℕ → Claim → Bool
is_inside n d = leb_ℤ (pos 0) d.0 && ltb_ℤ d.0 (pos n)

-- the first index that holds
pub first_true : List Bool → Option ℕ
first_true [] = none
first_true (true ∷ rest) = some 0
first_true (false ∷ rest) = elim (first_true rest) [ none ↦ none | some i ↦ some (suc i) ]

abbrev pub holds_at : List Bool → ℕ → Bool
holds_at [] i = false
holds_at (b ∷ rest) zero = b
holds_at (b ∷ rest) (suc i) = holds_at rest i

-- the controls of the decisions that claim completion
pub claims_of : List Claim → List ℕ
claims_of [] = []
claims_of ((step, complete) ∷ decisions) =
    let rest = claims_of decisions in if complete then pos_part step ∷ rest else rest

abbrev pub first_of : List ℕ → Option ℕ
first_of [] = none
first_of (step ∷ steps) = some step

-- the first claim that is true
pub first_correct_of : List Bool → List ℕ → Option ℕ
first_correct_of truth [] = none
first_correct_of truth (step ∷ steps) =
    let later = first_correct_of truth steps in if holds_at truth step then some step else later

abbrev is_premature : List Bool → Option ℕ → Bool
is_premature truth none = false
is_premature truth (some step) = not (holds_at truth step)

delay_of : ℤ → Bool → Option ℕ → Option ℕ → Option (ℤ × ℤ)
delay_of hz false (some first) (some claim) = some (sub_ℕ claim first, hz)
delay_of hz premature first claim = none

-- `all(post_stop) if post_stop else None`
stable_of : Option (List Bool) → Option Bool
stable_of none = none
stable_of (some []) = none
stable_of (some (b ∷ rest)) = some (all (λ x. x) (b ∷ rest))

-- what is returned, once the checks have passed
pub metrics_of : List Bool → List Claim → ℤ → Option (List Bool) → Metrics
unfolding delay_of stable_of
metrics_of truth decisions hz post_stop =
    let claims = claims_of decisions in
    let premature = is_premature truth (first_of claims) in
    record {
      first_truth_control = first_true truth;
      first_claim_control = first_of claims;
      first_correct_control = first_correct_of truth claims;
      premature_stop = premature;
      missed_completed_event =
          is_some (first_true truth) && not (is_some (first_correct_of truth claims));
      no_stop = not (is_some (first_of claims));
      confirmation_delay_s = delay_of hz premature (first_true truth) (first_of claims);
      post_stop_stable = stable_of post_stop;
    }

-- `episode_metrics`
pub episode_metrics : List Bool → List Claim → ℤ → Option (List Bool) → Result MetricsError Metrics
episode_metrics truth decisions hz post_stop =
    raise_if (leb_ℤ hz (pos 0) || is_empty truth) no_truth
    >> raise_if (not (is_ordered decisions)) not_ordered
    >> raise_if (not (all (is_inside (length truth)) decisions)) outside_truth
    >> ok (metrics_of truth decisions hz post_stop)
