-- ===== src/Engine/Types/Checks.antt =====
-- What `ActionStreamInferenceConfig.__post_init__` accepts.
use action_stream.Prelude.{
  pos, String, ◌≡◌, ◌≢◌, ◌↔◌, ◌≤ℤ◌, ◌<ℤ◌, Option, none, some, Float, finite, not_finite, ok, arith,
  eq_iff,
}
use action_stream.Engine.Types.{Config, check_transport, check_config}

abbrev pub Positive : Float → Type 0
Positive (finite x) = pos 0 <ℤ x
Positive not_finite = ⊥

abbrev pub NonNegative : Float → Type 0
NonNegative (finite x) = pos 0 ≤ℤ x
NonNegative not_finite = ⊥

-- the transport is direct and has no factory, or runs in a process and has a named one
abbrev pub HasTransport : String → Option String → Type 0
HasTransport mode none = mode ≡ "direct"
HasTransport mode (some name) = (mode ≡ "process") × (name ≢ "")

check_transport_iff :
    (mode : String) (factory : Option String)
    → (check_transport mode factory ≡ ok tt) ↔ HasTransport mode factory
unfolding check_transport
check_transport_iff mode none = (
  λ h. ground (arith, eq_iff mode "direct", eq_iff mode "process", eq_iff "direct" "process"),
  λ h. ground (arith, eq_iff mode "direct", eq_iff mode "process", eq_iff "direct" "process"),
)
check_transport_iff mode (some name) = (
  λ h. ground (
    arith,
    eq_iff mode "direct",
    eq_iff mode "process",
    eq_iff "direct" "process",
    eq_iff name "",
  ),
  λ h. ground (
    arith,
    eq_iff mode "direct",
    eq_iff mode "process",
    eq_iff "direct" "process",
    eq_iff name "",
  ),
)

pub record IsValid (c : Config) : Type 0 where
  pub inference_timeout : Positive c.inference_timeout_s
  pub bounded_hold : pos 0 ≤ℤ c.bounded_hold_steps
  pub retry_backoff : NonNegative c.retry_backoff_s
  pub max_failures : pos 0 <ℤ c.max_consecutive_failures
  pub join_timeout : Positive c.join_timeout_s
  pub transport : HasTransport c.transport_mode c.process_transport_factory
  pub startup_timeout : Positive c.process_transport_startup_timeout_s
  pub terminate_timeout : Positive c.process_transport_terminate_timeout_s
  pub request_interval : pos 0 <ℤ c.minimum_request_interval_steps

-- The checks accept a configuration exactly when it is valid: its timeouts are positive numbers,
-- its backoff is a number that is not negative, its counts are in range, and its factory fits its
-- transport mode.
check_config_iff : (c : Config) → (check_config c ≡ ok c) ↔ IsValid c
unfolding check_config
check_config_iff c = (
  λ h. ground (arith, check_transport_iff c.transport_mode c.process_transport_factory),
  λ v. ground (arith, check_transport_iff c.transport_mode c.process_transport_factory),
)
