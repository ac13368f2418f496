-- ===== src/Vla/Metrics/FirstStop.antt =====
-- llm_vla/confirmation.py: the first claim decides whether the stop was premature.
use action_stream.Prelude.{
  ℕ, ℤ, ◌≡◌, refl, ap, ◌∙◌, sym, Bool, true, false, not, Option, some, List, [], ◌∷◌, ◌++◌, ok,
  arith,
}
use action_stream.Vla.Metrics.{
  Claim, Metrics, holds_at, claims_of, first_of, metrics_of, episode_metrics,
}

first_of-append :
    (ds more : List Claim) (c : ℕ)
    → first_of (claims_of ds) ≡ some c
    → first_of (claims_of (ds ++ more)) ≡ some c
unfolding claims_of
first_of-append [] more c h = ground arith
first_of-append ((step, true) ∷ ds) more c h = h
first_of-append ((step, false) ∷ ds) more c h = first_of-append ds more c h

accepted :
    (truth : List Bool) (ds : List Claim) (hz : ℤ) (post : Option (List Bool)) (m : Metrics)
    → episode_metrics truth ds hz post ≡ ok m
    → metrics_of truth ds hz post ≡ m
unfolding episode_metrics
accepted truth ds hz post m h = ground arith

-- If the metrics of some decisions, and those of the same decisions with more after them, are both
-- accepted, and the first has a first claim, then the second has the same first claim and the same
-- verdict on whether it was premature, which is that the truth does not hold there: no later claim
-- takes an unsafe first stop away.
pub first_stop_final :
    (truth : List Bool) (ds more : List Claim) (hz : ℤ) (post post' : Option (List Bool))
    (m m' : Metrics) (c : ℕ)
    → episode_metrics truth ds hz post ≡ ok m
    → episode_metrics truth (ds ++ more) hz post' ≡ ok m'
    → m.first_claim_control ≡ some c
    → (m'.first_claim_control ≡ some c)
      × (m'.premature_stop ≡ m.premature_stop)
      × (m.premature_stop ≡ not (holds_at truth c))
unfolding metrics_of
first_stop_final truth ds more hz post post' m m' c first second claim =
    let before = accepted truth ds hz post m first in
    let after = accepted truth (ds ++ more) hz post' m' second in
    let claims : first_of (claims_of ds) ≡ some c =
      ap (λ (x : Metrics). x.first_claim_control) before ∙ claim in
    let still = first_of-append ds more c claims in
    let verdict : m.premature_stop ≡ not (holds_at truth c) =
      sym (ap (λ (x : Metrics). x.premature_stop) before) ∙ rw claims refl in
    let verdict' : m'.premature_stop ≡ not (holds_at truth c) =
      sym (ap (λ (x : Metrics). x.premature_stop) after) ∙ rw still refl in
    (
      sym (ap (λ (x : Metrics). x.first_claim_control) after) ∙ still,
      verdict' ∙ sym verdict,
      verdict,
    )
