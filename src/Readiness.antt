-- ===== src/Readiness.antt =====
-- src/analytics/readiness.ts and `pct` of src/analytics/senders.ts: is it safe to take the next
-- rollout step. A percentage is a number of tenths of a percent, as the code rounds it. A headline or
-- a reason's text is a constructor for each message of the code, with the values that it quotes.
pub mod Verdict
pub mod Stored
mod Tests
use mathlib.Core.Option
use inbox_angel_worker.Common.{
  ℕ, ◌+◌, ◌*◌, ◌/◌, ◌%◌, Bool, true, false, not, ◌&&◌, ◌||◌, List, [], ◌∷◌, ◌++◌, Option, none,
  some, ltb, leb, ◌==◌, if◌then◌else◌, keep,
}
use inbox_angel_worker.Common.Int.{ℤ, pos}
use inbox_angel_worker.Text.{Text, codes, text_eq, is_empty, join}
use inbox_angel_worker.Rollout.{
  RolloutStep, rollout_sequence, nth_step, Note, NextStepPlan, plan_next_step,
  step_index_for_record, step_index_from_stored, is_zero, step, p_none,
}

-- `Math.round((part / whole) * 1000) / 10`, in tenths.
unfoldable pub pct : ℕ → ℕ → ℕ
pct part whole = if ltb 0 whole then (2000 * part + whole) / (2 * whole) else 0

pub data ReadinessStatus : Type 0 where
  ready caution blocked insufficient_data complete no_policy : ReadinessStatus

pub data ReasonLevel : Type 0 where
  ok warn block : ReasonLevel

pub data FixKind : Type 0 where
  authorize_sender fix_dkim_alignment investigate_sender review_new_sender : FixKind

-- The fields of a fix that the assessment reads.
pub record Fix : Type 0 where
  pub kind : FixKind
  pub provider_id : Option Text
  pub name : Text
  pub affected_pct : ℕ
  pub share_pct : ℕ

pub data ReasonText : Type 0 where
  inherits_parent no_record unknown_policy fully_enforced no_known_failing : ReasonText
  plan_note : Note → ReasonText
  too_few enough : ℕ → ℕ → ℕ → ReasonText
  below_threshold clean_rate : ℕ → ReasonText
  below_ready : ℕ → Bool → ReasonText
  known_fails : Fix → Bool → ReasonText
  unknown_fails : Fix → ReasonText
  new_this_week : ℕ → ReasonText
  half_step : RolloutStep → ReasonText

pub record Reason : Type 0 where
  pub level : ReasonLevel
  pub text : ReasonText

pub data Headline : Type 0 where
  follows_parent publish_first not_steppable fully_enforced_now not_enough_data : Headline
  not_safe with_care safe : RolloutStep → Headline

pub data Label : Type 0 where
  no_dmarc_record unrecognised : Label
  described : RolloutStep → Label

pub record Current : Type 0 where
  pub policy : Option RolloutStep
  pub at : ℕ
  pub label : Label

pub record Metrics : Type 0 where
  pub messages : ℕ
  pub pass_rate : Option ℕ
  pub days_with_reports : ℕ
  pub window_days : ℕ

pub record Readiness : Type 0 where
  pub status : ReadinessStatus
  pub headline : Headline
  pub current : Current
  pub next : Option RolloutStep
  pub reasons : List Reason
  pub metrics : Metrics

abbrev pub min_messages : ℕ
min_messages = 100

abbrev pub min_days_with_reports : ℕ
min_days_with_reports = 7

-- 98 %, and PASS_RATE_THRESHOLD, in tenths.
abbrev pub ready_pass_rate : ℕ
ready_pass_rate = 980

abbrev pub pass_rate_tenths : ℕ
pass_rate_tenths = 900

pub data PolicyState : Type 0 where
  live : Option Text → PolicyState
  stored : Option Text → Option ℤ → PolicyState

pub record ReadinessInput : Type 0 where
  pub state : PolicyState
  pub messages : ℕ
  pub passed : ℕ
  pub days_with_reports : ℕ
  pub window_days : ℕ
  pub fixes : List Fix
  pub new_senders : ℕ
  pub inherits : Bool

-- The decimal digits of a number below 100.
abbrev pub print_small : ℕ → Text
print_small n = if ltb n 10 then (b'0' + n) ∷ [] else (b'0' + n / 10) ∷ (b'0' + n % 10) ∷ []

abbrev pct_tags : Option ℤ → List Text
pct_tags (some (pos n)) =
    if n == 0
    then codes "t=y" ∷ []
    else if ltb n 100
    then (codes "pct=" ++ print_small n) ∷ []
    else []
pct_tags _ = []

record_of : Text → Option ℤ → Text
record_of policy pct' = join (codes "; ") (
    codes "v=DMARC1"
    ∷ (codes "p=" ++ policy)
    ∷ (if text_eq policy (codes "none") then [] else pct_tags pct'))

unfoldable pub record_from_stored : Option Text → Option ℤ → Option Text
unfolding record_of
record_from_stored none pct' = none
record_from_stored (some policy) pct' =
    if is_empty policy then none else some (record_of policy pct')

abbrev pub pct_or_full : Option ℤ → Option ℤ
pct_or_full none = some (pos 100)
pct_or_full (some n) = some n

pub record Resolved : Type 0 where
  pub published : Option Text
  pub index : Option ℕ
  pub plan : Option NextStepPlan

resolve_record : Option Text → Option ℕ → Resolved
resolve_record none index = record { published = none; index = some 0; plan = plan_next_step none }
resolve_record (some r) index = record {
  published = some r;
  index = index;
  plan = plan_next_step (some r);
}

abbrev index_live : Option Text → Option ℕ
index_live none = some 0
index_live (some r) = step_index_for_record r

unfoldable pub resolve_step : PolicyState → Resolved
unfolding resolve_record
resolve_step (live r) = resolve_record r (index_live r)
resolve_step (stored policy pct') =
    resolve_record (record_from_stored policy pct')
      (step_index_from_stored policy (pct_or_full pct'))

-- `blocked`, `caution` and `reasons` while the reasons are collected.
pub record Findings : Type 0 where
  pub is_blocked : Bool
  pub is_caution : Bool
  pub reasons : List Reason

abbrev pub note_ok : ReasonText → Findings → Findings
note_ok t f = record f { reasons = f.reasons ++ record { level = ok; text = t } ∷ [] }

abbrev pub note_warn : ReasonText → Findings → Findings
note_warn t f = record f {
  is_caution = true;
  reasons = f.reasons ++ record { level = warn; text = t } ∷ [];
}

abbrev pub note_block : ReasonText → Findings → Findings
note_block t f = record f {
  is_blocked = true;
  reasons = f.reasons ++ record { level = block; text = t } ∷ [];
}

abbrev pub is_authorize : FixKind → Bool
is_authorize authorize_sender = true
is_authorize _ = false

abbrev pub is_investigate : FixKind → Bool
is_investigate investigate_sender = true
is_investigate _ = false

abbrev pub has_provider : Option Text → Bool
has_provider none = false
has_provider (some id) = not (is_empty id)

-- `f.sender.provider_id && f.kind === 'authorize-sender'`.
abbrev pub is_known : Fix → Bool
is_known f = has_provider f.provider_id && is_authorize f.kind

abbrev pub is_unknown : Fix → Bool
is_unknown f = is_investigate f.kind

unfoldable pub warn_all : (Fix → ReasonText) → List Fix → Findings → Findings
warn_all text [] f = f
warn_all text (x ∷ xs) f = warn_all text xs (note_warn (text x) f)

unfoldable pub judge_note : NextStepPlan → Findings → Findings
judge_note plan f = elim plan.note [
  | none ↦ f
  | some n ↦ if plan.drops_partial_pct then note_warn (plan_note n) f else note_ok (plan_note n) f
]

unfoldable pub judge_rate : Option ℕ → Bool → Findings → Findings
judge_rate none enforcing f = f
judge_rate (some rate) enforcing f =
    if ltb rate pass_rate_tenths
    then note_block (below_threshold rate) f
    else if ltb rate ready_pass_rate
    then note_warn (below_ready rate enforcing) f
    else note_ok (clean_rate rate) f

abbrev is_nil {ℓ} : {A : Type ℓ} → List A → Bool
is_nil [] = true
is_nil (_ ∷ _) = false

unfoldable pub judge_senders : List Fix → ℕ → RolloutStep → Findings → Findings
judge_senders fixes new_senders next f =
    let enforcing = not next.testing in
    let known = keep is_known fixes in
    let unknown = keep is_unknown fixes in
    let f₁ = warn_all (λ x. known_fails x enforcing) known f in
    let f₂ = warn_all unknown_fails unknown f₁ in
    let f₃ = if ltb 0 new_senders then note_warn (new_this_week new_senders) f₂ else f₂ in
    let f₄ = if is_nil known && is_nil unknown then note_ok no_known_failing f₃ else f₃ in
    if enforcing then f₄ else note_ok (half_step next) f₄

abbrev pub rate_of : ReadinessInput → Option ℕ
rate_of i = if ltb 0 i.messages then some (pct i.passed i.messages) else none

abbrev metrics_of : ReadinessInput → Metrics
metrics_of i = record {
  messages = i.messages;
  pass_rate = rate_of i;
  days_with_reports = i.days_with_reports;
  window_days = i.window_days;
}

-- `ROLLOUT_SEQUENCE[Math.max(index, 0)]`, with the index.
abbrev step_at : Option ℕ → RolloutStep
step_at index =
    Option.get_or (nth_step (Option.get_or index 0) rollout_sequence) (step p_none false)

current_of : Resolved → Current
current_of r = record {
  policy = Option.map (λ _. step_at r.index) r.published;
  at = Option.get_or r.index 0;
  label = elim r.published [
    | none ↦ no_dmarc_record
    | some _ ↦ elim r.index [ none ↦ unrecognised | some _ ↦ described (step_at r.index) ]
  ];
}

-- `done(...)`.
unfoldable pub finish :
    ReadinessInput
    → Resolved
    → ReadinessStatus
    → Headline
    → List Reason
    → Option RolloutStep
    → Readiness
unfolding current_of
finish i r s h reasons next = record {
  status = s;
  headline = h;
  current = current_of r;
  next = next;
  reasons = reasons;
  metrics = metrics_of i;
}

abbrev one : ReasonLevel → ReasonText → List Reason
one l t = record { level = l; text = t } ∷ []

abbrev no_findings : Findings
no_findings = record { is_blocked = false; is_caution = false; reasons = [] }

abbrev pub too_little : ReadinessInput → Bool
too_little i = ltb i.messages min_messages || ltb i.days_with_reports min_days_with_reports

unfoldable pub conclude : ReadinessInput → Resolved → RolloutStep → Findings → Readiness
conclude i r next f =
    if f.is_blocked
    then finish i r blocked (not_safe next) f.reasons (some next)
    else if f.is_caution
    then finish i r caution (with_care next) f.reasons (some next)
    else finish i r ready (safe next) f.reasons (some next)

unfoldable pub judge : ReadinessInput → Resolved → NextStepPlan → Readiness
judge i r plan =
    let next = plan.next in
    let f₀ = judge_note plan no_findings in
    if too_little i
    then finish i r insufficient_data not_enough_data
        (f₀.reasons ++ one block (too_few i.messages i.days_with_reports i.window_days)) (some next)
    else let f₁ = note_ok (enough i.messages i.days_with_reports i.window_days) f₀ in
      conclude i r next
        (judge_senders i.fixes i.new_senders next (judge_rate (rate_of i) (not next.testing) f₁))

unfoldable pub assess_published :
    ReadinessInput → Resolved → Option Text → Option ℕ → Option NextStepPlan → Readiness
assess_published i r none index plan =
    if i.inherits
    then finish i r no_policy follows_parent (one warn inherits_parent) none
    else finish i r no_policy publish_first (one block no_record) (Option.map (λ p. p.next) plan)
assess_published i r (some _) none plan =
    finish i r blocked not_steppable (one block unknown_policy) none
assess_published i r (some _) (some _) none =
    finish i r complete fully_enforced_now (one ok fully_enforced) none
assess_published i r (some _) (some _) (some plan) = judge i r plan

unfoldable pub assess_readiness : ReadinessInput → Readiness
assess_readiness i = let r = resolve_step i.state in assess_published i r r.published r.index r.plan
