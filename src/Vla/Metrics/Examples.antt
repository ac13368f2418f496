-- ===== src/Vla/Metrics/Examples.antt =====
-- A claim that comes too early, and a correct one after it.
use action_stream.Prelude.{pos, ◌≡◌, refl, Bool, true, false, none, some, List, [], ◌∷◌, ◌++◌, not}
use action_stream.Vla.Metrics.{
  Claim, Metrics, holds_at, metrics_of, episode_metrics, is_ordered, first_true, claims_of,
  first_correct_of,
}
use action_stream.Vla.Metrics.FirstStop.{first_stop_final}

abbrev truth : List Bool
truth = false ∷ false ∷ true ∷ []

abbrev early : List Claim
early = (pos 0, false) ∷ (pos 1, true) ∷ []

abbrev late : List Claim
late = (pos 2, true) ∷ []

abbrev scored : Metrics
scored = metrics_of truth early (pos 20) none

abbrev rescored : Metrics
rescored = metrics_of truth (early ++ late) (pos 20) none

first_stop_final_example :
    (rescored.first_claim_control ≡ some 1)
    × (rescored.premature_stop ≡ scored.premature_stop)
    × (scored.premature_stop ≡ not (holds_at truth 1))
unfolding episode_metrics metrics_of is_ordered first_true claims_of first_correct_of
first_stop_final_example =
    first_stop_final truth early late (pos 20) none none scored rescored 1 refl refl refl
