-- ===== src/Rollout/Safety.antt =====
-- src/dmarc/rollout.ts: applying the planned step never weakens what a record publishes.
use mathlib.Core.Option.{get_or}
use mathlib.Core.Path.{subst}
use inbox_angel_worker.Common.{
  ℕ, ◌≤◌, ◌≡◌, refl, sym, ◌∙◌, ap, false, true, Bool, not, ◌&&◌, Option, none, some, arith,
  if◌then◌else◌, Option-cases, inl, inr, some_inj,
}
use inbox_angel_worker.Common.Int.{ℤ}
use inbox_angel_worker.Text.{Text, codes}
use inbox_angel_worker.Rollout.{
  RolloutPolicy, p_none, quarantine, reject, RolloutStep, Policies, rank, lower, get_tag, as_policy,
  parse_dmarc_tags, pct_of, is_testing_tag, is_partial, is_p_none, effective_policies,
  testing_would_weaken, step_index_for, step_index_for_record, plan_from, plan_record, NextStepPlan,
  build_step_record, step, keep_stricter,
}
use inbox_angel_worker.Rollout.Steps.{
  step_number, testing_mode, step_index_for_lem, nth_step-step_number,
}
use inbox_angel_worker.Rollout.Build.{
  record_text, record_text-policies, record_text-testing, build_step_record_lem,
}

-- What a record publishes, read by the code's own parser.
abbrev pub published : Text → Policies
published existing = effective_policies (parse_dmarc_tags existing)

abbrev pub published_mode : Text → Bool
published_mode existing =
    testing_mode (published existing).p (pct_of (parse_dmarc_tags existing))
      (is_testing_tag (parse_dmarc_tags existing))

index_for_mode :
    (o : Option Text) (pct : Option ℤ) (testing : Bool) (i : ℕ)
    → step_index_for o pct testing ≡ some i
    → i
      ≡ step_number
          (get_or (as_policy o) p_none)
          (testing_mode (get_or (as_policy o) p_none) pct testing)
index_for_mode none pct testing i h = unfold step_index_for as_policy in some_inj (sym h)
index_for_mode (some v) pct testing i h = elim (Option-cases (as_policy (some v))) [
  | inl e ↦ absurd (unfold step_index_for in cc (rw (e, step_index_for) at h))
  | inr (q, e) ↦ rw e (some_inj (sym h ∙ step_index_for_lem v pct testing q e))
]

-- A recognised record has the index of its policy and mode.
pub step_index_for_record-published :
    (existing : Text) (i : ℕ)
    → step_index_for_record existing ≡ some i
    → i ≡ step_number (published existing).p (published_mode existing)
unfolding step_index_for_record effective_policies
step_index_for_record-published existing i h =
    index_for_mode (get_tag (codes "p") (parse_dmarc_tags existing)) _ _ i h

-- What receivers apply to a surface while testing is set.
abbrev pub treated : Bool → RolloutPolicy → RolloutPolicy
treated testing p = if testing then lower p else p

-- A step that can be built, and that is at least as strong as the published policy.
abbrev pub Suits : Text → RolloutStep → Type 0
Suits existing s =
    (testing_would_weaken existing s ≡ false)
    × (rank (published existing).p ≤ rank (treated s.testing s.policy))

pub testing_would_weaken-enforced :
    (existing : Text) (p : RolloutPolicy) → testing_would_weaken existing (step p false) ≡ false
unfolding testing_would_weaken
testing_would_weaken-enforced existing p = refl

-- A partial percentage is never read as testing.
pub partial_mode :
    (q : RolloutPolicy) (pct : Option ℤ) (t : Bool)
    → is_partial pct ≡ true
    → testing_mode q pct t ≡ false
partial_mode p_none pct t h = refl
partial_mode quarantine pct t h = ground arith
partial_mode reject pct t h = ground arith

pub plan_from-Suits :
    (existing : Text) (pct : Option ℤ) (q : RolloutPolicy) (m : Bool) (plan : NextStepPlan)
    → (published existing).p ≡ q
    → (is_partial pct ≡ true → m ≡ false)
    → plan_from existing pct (step_number q m) (step q (not (is_p_none q) && m)) ≡ some plan
    → Suits existing plan.next
unfolding plan_from
plan_from-Suits existing pct p_none m plan e part h =
    ground (arith, testing_would_weaken-enforced existing quarantine)
plan_from-Suits existing pct quarantine true plan e part h =
    ground (arith, testing_would_weaken-enforced existing quarantine)
plan_from-Suits existing pct quarantine false plan e part h = ground (
  arith,
  testing_would_weaken-enforced existing quarantine,
  testing_would_weaken-enforced existing reject,
)
plan_from-Suits existing pct reject true plan e part h =
    ground (arith, testing_would_weaken-enforced existing reject)
plan_from-Suits existing pct reject false plan e part h =
    ground (arith, testing_would_weaken-enforced existing reject)

-- Every surface of the new record is applied at least as strictly as the old one was published.
pub record Strengthens (old new : Text) : Type 0 where
  pub keeps_p :
      rank (published old).p
      ≤ rank (treated (is_testing_tag (parse_dmarc_tags new)) (published new).p)
  pub keeps_sp :
      rank (published old).sp
      ≤ rank (treated (is_testing_tag (parse_dmarc_tags new)) (published new).sp)
  pub keeps_np :
      rank (published old).np
      ≤ rank (treated (is_testing_tag (parse_dmarc_tags new)) (published new).np)

keep_stricter-enforced : (q target : RolloutPolicy) → rank q ≤ rank (keep_stricter q target)
unfolding keep_stricter
keep_stricter-enforced q target = ground arith

keep_stricter-testing :
    (q target : RolloutPolicy)
    → rank q ≤ rank (lower target)
    → rank q ≤ rank (lower (keep_stricter q target))
unfolding keep_stricter
keep_stricter-testing q p_none h = ground arith
keep_stricter-testing q quarantine h = ground arith
keep_stricter-testing q reject h = ground arith

testing_floor :
    (existing : Text) (p : RolloutPolicy)
    → testing_would_weaken existing (step p true) ≡ false
    → (rank (published existing).sp ≤ rank (lower p))
      × (rank (published existing).np ≤ rank (lower p))
unfolding testing_would_weaken
testing_floor existing p h = ground arith

kept_surface :
    (existing : Text) (p q : RolloutPolicy) (t : Bool)
    → (t ≡ true → rank q ≤ rank (lower p))
    → rank q ≤ rank (treated t (keep_stricter q p))
kept_surface existing p q true h = keep_stricter-testing q p (h refl)
kept_surface existing p q false h = keep_stricter-enforced q p

built-Strengthens :
    (existing new : Text) (s : RolloutStep)
    → Suits existing s
    → published new ≡ record {
      p = s.policy;
      sp = keep_stricter (published existing).sp s.policy;
      np = keep_stricter (published existing).np s.policy;
    }
    → is_testing_tag (parse_dmarc_tags new) ≡ s.testing
    → Strengthens existing new
built-Strengthens existing new s (fits, strong) same mode = record {
  keeps_p = rw (mode, same) strong;
  keeps_sp =
      rw (mode, same)
        (kept_surface existing s.policy (published existing).sp s.testing
          (λ e. (testing_floor existing s.policy (floor e)).0));
  keeps_np =
      rw (mode, same)
        (kept_surface existing s.policy (published existing).np s.testing
          (λ e. (testing_floor existing s.policy (floor e)).1));
}
  where
    floor : s.testing ≡ true → testing_would_weaken existing (step s.policy true) ≡ false
    floor e = subst (λ t. testing_would_weaken existing (step s.policy t) ≡ false) e fits

pub Suits-Strengthens :
    (existing : Text) (s : RolloutStep)
    → Suits existing s
    → (b : Text) × (build_step_record existing s ≡ some b) × Strengthens existing b
Suits-Strengthens existing s suits = (
  record_text s.policy sp np s.testing existing,
  build_step_record_lem existing s suits.0,
  built-Strengthens existing _ s suits (record_text-policies s.policy sp np s.testing existing)
      (record_text-testing s.policy sp np s.testing existing),
)
  where
    sp : RolloutPolicy
    sp = keep_stricter (published existing).sp s.policy

    np : RolloutPolicy
    np = keep_stricter (published existing).np s.policy

-- The plan of a recognised record, by its policy and mode.
pub plan_record_lem :
    (existing : Text) (i : ℕ)
    → step_index_for_record existing ≡ some i
    → plan_record existing
      ≡ plan_from existing
          (pct_of (parse_dmarc_tags existing))
          (step_number (published existing).p (published_mode existing))
          (step
            (published existing).p
            (not (is_p_none (published existing).p) && published_mode existing))
unfolding plan_record
plan_record_lem existing i e =
    let at : i ≡ step_number (published existing).p (published_mode existing) =
      step_index_for_record-published existing i e in
    rw (
      e ∙ ap some at,
      nth_step-step_number (published existing).p (published_mode existing),
      plan_record,
    )

plan_record-none :
    (existing : Text) → step_index_for_record existing ≡ none → plan_record existing ≡ none
unfolding plan_record
plan_record-none existing e = rw (e, plan_record)

pub plan_record-cases :
    (existing : Text) (plan : NextStepPlan)
    → plan_record existing ≡ some plan
    → plan_from existing
        (pct_of (parse_dmarc_tags existing))
        (step_number (published existing).p (published_mode existing))
        (step
          (published existing).p
          (not (is_p_none (published existing).p) && published_mode existing))
      ≡ some plan
plan_record-cases existing plan h = elim (Option-cases (step_index_for_record existing)) [
  | inl e ↦ absurd (cc (plan_record-none existing e, h))
  | inr (i, e) ↦ sym (plan_record_lem existing i e) ∙ h
]

pub plan_record-Suits :
    (existing : Text) (plan : NextStepPlan)
    → plan_record existing ≡ some plan
    → Suits existing plan.next
plan_record-Suits existing plan h =
    plan_from-Suits existing (pct_of (parse_dmarc_tags existing)) (published existing).p
      (published_mode existing) plan refl
      (partial_mode (published existing).p (pct_of (parse_dmarc_tags existing))
        (is_testing_tag (parse_dmarc_tags existing)))
      (plan_record-cases existing plan h)

-- The planned step can always be built, and the record that it builds is applied by receivers at
-- least as strictly, for p, sp and np, as the old record was published, testing mode included.
pub plan_record-Strengthens :
    (existing : Text) (plan : NextStepPlan)
    → plan_record existing ≡ some plan
    → (b : Text) × (build_step_record existing plan.next ≡ some b) × Strengthens existing b
plan_record-Strengthens existing plan h =
    Suits-Strengthens existing plan.next (plan_record-Suits existing plan h)
