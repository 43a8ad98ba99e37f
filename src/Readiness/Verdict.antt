-- ===== src/Readiness/Verdict.antt =====
-- src/analytics/readiness.ts, `assessReadiness`: which status the collected findings give.
use inbox_angel_worker.Common.{
  ℕ, ◌≤◌, ◌<◌, ◌≡◌, ◌↔◌, ◌⊎◌, refl, sym, ◌∙◌, Bool, false, not, ◌&&◌, ◌||◌, List, [], ◌∷◌, Option,
  none, some, ltb, if◌then◌else◌, keep, some_of, arith, inl, inr, some_inj,
}
use inbox_angel_worker.Text.{Text}
use inbox_angel_worker.Rollout.{NextStepPlan, RolloutStep}
use inbox_angel_worker.Readiness.{
  pct, ReadinessStatus, ready, caution, blocked, no_policy, insufficient_data, Fix, Findings,
  ReadinessInput, Resolved, is_known, is_unknown, is_nil, warn_all, judge_note, judge_rate,
  judge_senders, conclude, judge, rate_of, too_little, no_findings, note_warn, note_ok, known_fails,
  unknown_fails, enough, ReasonText, assess_published, assess_readiness, resolve_step, finish,
  pass_rate_tenths, ready_pass_rate,
}

-- The flags that a list of warnings leaves.
warn_all-flags :
    (text : Fix → ReasonText) (xs : List Fix) (f : Findings)
    → ((warn_all text xs f).is_blocked ≡ f.is_blocked)
      × ((warn_all text xs f).is_caution ≡ (f.is_caution || not (is_nil xs)))
unfolding warn_all
warn_all-flags text [] f = ground arith
warn_all-flags text (x ∷ xs) f = ground (arith, warn_all-flags text xs (note_warn (text x) f))

is_nil-keep : (test : Fix → Bool) (xs : List Fix) → not (is_nil (keep test xs)) ≡ some_of test xs
is_nil-keep test [] = refl
is_nil-keep test (x ∷ xs) = ground (arith, is_nil-keep test xs)

judge_senders-flags :
    (fixes : List Fix) (n : ℕ) (next : RolloutStep) (f : Findings)
    → ((judge_senders fixes n next f).is_blocked ≡ f.is_blocked)
      × ((judge_senders fixes n next f).is_caution
          ≡ (f.is_caution || some_of is_known fixes || some_of is_unknown fixes || ltb 0 n))
unfolding judge_senders
judge_senders-flags fixes n next f =
    let known = keep is_known fixes in
    let unknown = keep is_unknown fixes in
    let f₁ = warn_all (λ x. known_fails x (not next.testing)) known f in
    ground (
      arith,
      warn_all-flags (λ x. known_fails x (not next.testing)) known f,
      warn_all-flags unknown_fails unknown f₁,
      is_nil-keep is_known fixes,
      is_nil-keep is_unknown fixes,
    )

abbrev has_caveat : NextStepPlan → Bool
has_caveat plan = elim plan.note [ none ↦ false | some _ ↦ plan.drops_partial_pct ]

abbrev below : ℕ → Option ℕ → Bool
below limit none = false
below limit (some rate) = ltb rate limit

judge_note-flags :
    (plan : NextStepPlan)
    → ((judge_note plan no_findings).is_blocked ≡ false)
      × ((judge_note plan no_findings).is_caution ≡ has_caveat plan)
unfolding judge_note
judge_note-flags plan = ground arith

judge_rate-flags :
    (rate : Option ℕ) (enforcing : Bool) (f : Findings)
    → ((judge_rate rate enforcing f).is_blocked ≡ (f.is_blocked || below pass_rate_tenths rate))
      × ((judge_rate rate enforcing f).is_caution
          ≡ (f.is_caution || not (below pass_rate_tenths rate) && below ready_pass_rate rate))
unfolding judge_rate
judge_rate-flags none enforcing f = ground arith
judge_rate-flags (some rate) enforcing f = ground arith

conclude-status :
    (i : ReadinessInput) (r : Resolved) (next : RolloutStep) (f : Findings)
    → (conclude i r next f).status
      ≡ (if f.is_blocked then blocked else if f.is_caution then caution else ready)
unfolding conclude finish
conclude-status i r next f = ground arith

-- The status by the inputs alone.
abbrev verdict : ReadinessInput → NextStepPlan → ReadinessStatus
verdict i plan =
    if too_little i
    then insufficient_data
    else if below pass_rate_tenths (rate_of i)
    then blocked
    else if has_caveat plan
        || below ready_pass_rate (rate_of i)
        || some_of is_known i.fixes
        || some_of is_unknown i.fixes
        || ltb 0 i.new_senders
    then caution
    else ready

judge_status :
    (i : ReadinessInput) (r : Resolved) (plan : NextStepPlan)
    → (judge i r plan).status ≡ verdict i plan
unfolding judge finish
judge_status i r plan =
    let f₁ =
      note_ok (enough i.messages i.days_with_reports i.window_days) (judge_note plan no_findings) in
    let f₂ = judge_rate (rate_of i) (not plan.next.testing) f₁ in
    ground (
      arith,
      conclude-status i r plan.next (judge_senders i.fixes i.new_senders plan.next f₂),
      judge_senders-flags i.fixes i.new_senders plan.next f₂,
      judge_rate-flags (rate_of i) (not plan.next.testing) f₁,
      judge_note-flags plan,
    )

-- What the inputs must be for the answer "ready".
pub record IsReady (i : ReadinessInput) (plan : NextStepPlan) : Type 0 where
  pub enough_messages : 100 ≤ i.messages
  pub enough_days : 7 ≤ i.days_with_reports
  pub clean : 980 ≤ pct i.passed i.messages
  pub whole : has_caveat plan ≡ false
  pub no_known : some_of is_known i.fixes ≡ false
  pub no_unknown : some_of is_unknown i.fixes ≡ false
  pub no_new : i.new_senders ≡ 0

verdict-ready :
    (i : ReadinessInput) (plan : NextStepPlan) → (verdict i plan ≡ ready) ↔ IsReady i plan
verdict-ready i plan = ground arith

verdict-blocked :
    (i : ReadinessInput) (plan : NextStepPlan)
    → (verdict i plan ≡ blocked)
      ↔ ((100 ≤ i.messages) × (7 ≤ i.days_with_reports) × (pct i.passed i.messages < 900))
verdict-blocked i plan = ground arith

module _ (i : ReadinessInput) (r : Resolved) where
  unpublished :
      (index : Option ℕ) (plan : Option NextStepPlan)
      → (assess_published i r none index plan).status ≡ no_policy
  unfolding assess_published finish
  unpublished index plan = ground arith

  ready_parts :
      (published : Option Text) (index : Option ℕ) (plan : Option NextStepPlan)
      → ((assess_published i r published index plan).status ≡ ready) ↔ (
          (x : Text) × (k : ℕ) × (p : NextStepPlan) × (published ≡ some x)
          × (index ≡ some k)
          × (plan ≡ some p)
          × IsReady i p)
  unfolding assess_published finish
  ready_parts none index plan =
      (λ h. absurd (cc (unpublished index plan, h)), λ (x, k, p, a, b, c, d). absurd (cc a))
  ready_parts (some x) none plan = (λ h. absurd (cc h), λ (y, k, p, a, b, c, d). absurd (cc b))
  ready_parts (some x) (some k) none = (λ h. absurd (cc h), λ (y, j, p, a, b, c, d). absurd (cc c))
  ready_parts (some x) (some k) (some p) = (
    λ h. (x, k, p, refl, refl, refl, (verdict-ready i p).0 (sym (judge_status i r p) ∙ h)),
    λ (y, j, q, a, b, c, d). judge_status i r p ∙ (verdict-ready i p).1 (rw (some_inj c) d),
  )

  blocked_parts :
      (published : Option Text) (index : Option ℕ) (plan : Option NextStepPlan)
      → ((assess_published i r published index plan).status ≡ blocked) ↔ (
          (x : Text) × (published ≡ some x)
          × ((index ≡ none)
              ⊎ ((k : ℕ) × (p : NextStepPlan) × (index ≡ some k)
                  × (plan ≡ some p)
                  × (100 ≤ i.messages)
                  × (7 ≤ i.days_with_reports)
                  × (pct i.passed i.messages < 900))))
  unfolding assess_published finish
  blocked_parts none index plan =
      (λ h. absurd (cc (unpublished index plan, h)), λ (x, a, d). absurd (cc a))
  blocked_parts (some x) none plan = (λ h. (x, refl, inl refl), λ _. refl)
  blocked_parts (some x) (some k) none = (
    λ h. absurd (cc h),
    λ (y, a, d). elim d [ inl e ↦ absurd (cc e) | inr (j, p, b, c, m, n, low) ↦ absurd (cc c) ],
  )
  blocked_parts (some x) (some k) (some p) = (
    λ h.
        let (m, d, low) = (verdict-blocked i p).0 (sym (judge_status i r p) ∙ h) in
        (x, refl, inr (k, p, refl, refl, m, d, low)),
    λ (y, a, d). elim d [
      | inl e ↦ absurd (cc e)
      | inr (j, q, b, c, m, n, low) ↦ judge_status i r p ∙ (verdict-blocked i p).1 (m, n, low)
    ],
  )

-- The code says "ready" exactly when there is a published record of a recognised policy with a next
-- step and: at least 100 messages over 7 days with reports, a pass rate of at least 98 %, no partial
-- percentage to drop, no sender that seems to fail, known or not, and no new sender.
pub assess_readiness-ready :
    (i : ReadinessInput)
    → ((assess_readiness i).status ≡ ready) ↔ (
        (record' : Text) × (index : ℕ) × (plan : NextStepPlan) × ((resolve_step i.state).published
          ≡ some record')
        × ((resolve_step i.state).index ≡ some index)
        × ((resolve_step i.state).plan ≡ some plan)
        × IsReady i plan)
unfolding assess_readiness
assess_readiness-ready i =
    let r = resolve_step i.state in ready_parts i r r.published r.index r.plan

-- Only the totals of the reports block: the code says "blocked" exactly when the policy is not
-- recognised, or there is a next step and enough data and the pass rate is below 90 %.
pub assess_readiness-blocked :
    (i : ReadinessInput)
    → ((assess_readiness i).status ≡ blocked) ↔ (
        (record' : Text) × ((resolve_step i.state).published ≡ some record')
        × (((resolve_step i.state).index ≡ none)
            ⊎ ((index : ℕ) × (plan : NextStepPlan) × ((resolve_step i.state).index ≡ some index)
                × ((resolve_step i.state).plan ≡ some plan)
                × (100 ≤ i.messages)
                × (7 ≤ i.days_with_reports)
                × (pct i.passed i.messages < 900))))
unfolding assess_readiness
assess_readiness-blocked i =
    let r = resolve_step i.state in blocked_parts i r r.published r.index r.plan
