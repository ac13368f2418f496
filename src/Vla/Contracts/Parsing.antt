-- ===== src/Vla/Contracts/Parsing.antt =====
-- What the task contract lets through, and that an accepted task survives being printed and read back.
use action_stream.Prelude.{
  ◌≤◌, ◌≡◌, refl, ap, sym, ◌∙◌, ◌↔◌, String, Bool, true, false, ok, err, arith, eq_iff, str_eq,
  Result, not, ◌&&◌, ◌||◌, if◌then◌else◌, raise_if, ◌>>◌, [], ◌∷◌,
}
use action_stream.Vla.Text.{text_length}
use action_stream.Vla.Contracts.{
  Json, null, text, other_value, TaskSpec, check_task, parse_task, document_of, require_accepted,
  ContractError, task_mismatch, bad_decision, bad_reason, capability_mismatch, not_accepted,
  strict_object, accepted_instruction, json_eq, is_reason, is_one_of, fits_capability,
}

-- a text of 1 to 1000 characters
abbrev pub IsReason : Json → Type 0
IsReason (text s) = (1 ≤ text_length s) × (text_length s ≤ 1000)
IsReason value = ⊥

-- a task of the request that may be executed
pub record IsAcceptedTask (t : TaskSpec) : Type 0 where
  pub version : t.version ≡ text "1.0"
  pub decision : t.decision ≡ text "accept"
  pub skill : t.skill ≡ text "pick_place"
  pub target : t.target ≡ text "tomato_sauce"
  pub destination : t.destination ≡ text "basket"
  pub instruction : t.canonical_instruction ≡ text accepted_instruction
  pub reason : IsReason t.reason

parse_task-document_of :
    (t : TaskSpec) → parse_task (document_of t) t.request_id ≡ check_task t.request_id t
unfolding parse_task strict_object
parse_task-document_of t = refl

str_eq_refl : (s : String) → str_eq s s ≡ true
str_eq_refl s = (eq_iff s s).1 refl

json_eq_refl : (v : Json) → json_eq v v ≡ true
json_eq_refl null = refl
json_eq_refl (text s) = str_eq_refl s
json_eq_refl (other_value s) = str_eq_refl s

json_eq_text : (v : Json) (s : String) → json_eq v (text s) ≡ true → v ≡ text s
json_eq_text null s h = absurd (ground arith)
json_eq_text (text t) s h = ap text ((eq_iff t s).0 h)
json_eq_text (other_value t) s h = absurd (ground arith)

is_reason_iff : (v : Json) → (is_reason v ≡ true) ↔ IsReason v
is_reason_iff null = (λ h. ground arith, λ v. absurd v)
is_reason_iff (text s) = (λ h. ground arith, λ v. ground arith)
is_reason_iff (other_value s) = (λ h. ground arith, λ v. absurd v)

-- none of four checks has raised
checks_passed :
    (a b c d : Bool) (ea eb ec ed : ContractError) (t : TaskSpec)
    → (raise_if a ea >> (raise_if b eb >> (raise_if c ec >> (raise_if d ed >> ok t)))) ≡ ok t
    → (a ≡ false) × (b ≡ false) × (c ≡ false) × (d ≡ false)
checks_passed a b c d ea eb ec ed t h = ground arith

checks_same :
    (a b c d : Bool) (ea eb ec ed : ContractError) (t u : TaskSpec)
    → (raise_if a ea >> (raise_if b eb >> (raise_if c ec >> (raise_if d ed >> ok t)))) ≡ ok u
    → t ≡ u
checks_same a b c d ea eb ec ed t u h = ground arith

not-false : (b : Bool) → not b ≡ false → b ≡ true
not-false b h = ground arith

left_passed : (a b : Bool) → not a || not b ≡ false → a ≡ true
left_passed a b h = ground arith

all_four :
    (a b c d : Bool) → (a && b && c && d) ≡ true → (a ≡ true) × (b ≡ true) × (c ≡ true) × (d ≡ true)
all_four a b c d h = ground arith

if_taken : (b x y : Bool) → b ≡ true → (if b then x else y) ≡ true → x ≡ true
if_taken b x y h k = ground arith

fits_accepted :
    (t : TaskSpec)
    → json_eq t.decision (text "accept") ≡ true
    → fits_capability t ≡ true
    → (json_eq t.skill (text "pick_place") ≡ true)
      × (json_eq t.target (text "tomato_sauce") ≡ true)
      × (json_eq t.destination (text "basket") ≡ true)
      × (json_eq t.canonical_instruction (text accepted_instruction) ≡ true)
fits_accepted t accept fits = all_four _ _ _ _ (if_taken _ _ _ accept fits)

check_task_accepted :
    (t : TaskSpec)
    → check_task t.request_id t ≡ ok t
    → json_eq t.decision (text "accept") ≡ true
    → IsAcceptedTask t
unfolding check_task
check_task_accepted t h accept =
    let (same, known, reasoned, capable) =
      checks_passed
        (not (json_eq t.version (text "1.0")) || not (json_eq t.request_id t.request_id))
        (not (is_one_of t.decision ("accept" ∷ "reject" ∷ "unknown" ∷ [])))
        (not (is_reason t.reason)) (not (fits_capability t)) task_mismatch bad_decision bad_reason
        capability_mismatch t h in
    let (skill, target, destination, instruction) = fits_accepted t accept (not-false _ capable) in
    record {
      version = json_eq_text t.version "1.0" (left_passed _ _ same);
      decision = json_eq_text t.decision "accept" accept;
      skill = json_eq_text t.skill "pick_place" skill;
      target = json_eq_text t.target "tomato_sauce" target;
      destination = json_eq_text t.destination "basket" destination;
      instruction = json_eq_text t.canonical_instruction accepted_instruction instruction;
      reason = (is_reason_iff t.reason).0 (not-false _ reasoned);
    }

check_task_IsAccepted :
    (t : TaskSpec)
    → IsAcceptedTask t
    → (check_task t.request_id t ≡ ok t) × (json_eq t.decision (text "accept") ≡ true)
unfolding check_task
check_task_IsAccepted t v = (
  rw v.version (
      rw (json_eq_refl t.request_id) (
        rw v.decision (
          rw ((is_reason_iff t.reason).1 v.reason)
            (rw v.skill (rw v.target (rw v.destination (rw v.instruction refl))))))),
  rw v.decision refl,
)

then_passed :
    {A : Type 0} (m : Result ContractError A) (b : Bool) (e : ContractError)
    → (m >> raise_if b e) ≡ ok tt
    → ((a : A) × (m ≡ ok a)) × (b ≡ false)
then_passed (err e') b e h = absurd (ground arith)
then_passed (ok a) b e h = ((a, refl), ground arith)

check_task-same : (id : Json) (t u : TaskSpec) → check_task id t ≡ ok u → t ≡ u
unfolding check_task
check_task-same id t u h =
    checks_same (not (json_eq t.version (text "1.0")) || not (json_eq t.request_id id))
      (not (is_one_of t.decision ("accept" ∷ "reject" ∷ "unknown" ∷ []))) (not (is_reason t.reason))
      (not (fits_capability t)) task_mismatch bad_decision bad_reason capability_mismatch t u h

-- Only a task of version 1.0 that accepts the one capability, with a reason of 1 to 1000 characters, may
-- be executed, and every such task may, whatever its request id.
pub require_accepted_iff : (t : TaskSpec) → (require_accepted t ≡ ok tt) ↔ IsAcceptedTask t
unfolding require_accepted
require_accepted_iff t = (
  λ h.
      let (parsed, accepted) =
        then_passed (parse_task (document_of t) t.request_id)
          (not (json_eq t.decision (text "accept"))) not_accepted h in
      let checked = sym (parse_task-document_of t) ∙ parsed.1 in
      let same = check_task-same t.request_id t parsed.0 checked in
      check_task_accepted t (checked ∙ ap ok (sym same)) (not-false _ accepted),
  λ v.
      let (checked, accepted) = check_task_IsAccepted t v in
      rw (parse_task-document_of t ∙ checked) (rw accepted refl),
)
