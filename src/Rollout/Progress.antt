-- ===== src/Rollout/Progress.antt =====
-- src/dmarc/rollout.ts: the planned steps, applied one after another, reach full enforcement.
use inbox_angel_worker.Common.{
  ℕ, zero, suc, ◌+◌, ◌≤◌, ◌<◌, ◌≡◌, sym, ◌∙◌, ap, false, true, Bool, not, ◌&&◌, Option, none, some,
  arith, Option-cases, inl, inr,
}
use inbox_angel_worker.Common.Int.{ℤ}
use inbox_angel_worker.Text.{Text}
use inbox_angel_worker.Rollout.{
  RolloutPolicy, p_none, quarantine, reject, parse_dmarc_tags, pct_of, is_partial, is_p_none,
  step_index_for_record, plan_from, plan_record, NextStepPlan, build_step_record, step,
  keep_stricter,
}
use inbox_angel_worker.Rollout.Steps.{step_number}
use inbox_angel_worker.Rollout.Build.{record_text-index, record_text-pct, build_step_record_lem}
use inbox_angel_worker.Rollout.Safety.{
  published, published_mode, testing_would_weaken-enforced, plan_record_lem, plan_record-cases,
  plan_record-Suits, step_index_for_record-published,
}

-- The step of a plan is a later one, but for the plan that drops a partial percentage.
plan_from-later :
    (existing : Text) (pct : Option ℤ) (q : RolloutPolicy) (m : Bool) (plan : NextStepPlan)
    → is_partial pct ≡ false
    → plan_from existing pct (step_number q m) (step q (not (is_p_none q) && m)) ≡ some plan
    → step_number q m < step_number plan.next.policy plan.next.testing
unfolding plan_from
plan_from-later existing pct p_none m plan h e = ground arith
plan_from-later existing pct quarantine true plan h e = ground arith
plan_from-later existing pct quarantine false plan h e = ground arith
plan_from-later existing pct reject true plan h e = ground arith
plan_from-later existing pct reject false plan h e = ground arith

plan_from-pos :
    (existing : Text) (pct : Option ℤ) (q : RolloutPolicy) (m : Bool) (plan : NextStepPlan)
    → plan_from existing pct (step_number q m) (step q (not (is_p_none q) && m)) ≡ some plan
    → 0 < step_number plan.next.policy plan.next.testing
unfolding plan_from
plan_from-pos existing pct p_none m plan e = ground arith
plan_from-pos existing pct quarantine true plan e = ground arith
plan_from-pos existing pct quarantine false plan e = ground arith
plan_from-pos existing pct reject true plan e = ground arith
plan_from-pos existing pct reject false plan e = ground arith

-- There is a plan before the last step.
plan_from-none :
    (existing : Text) (pct : Option ℤ) (q : RolloutPolicy) (m : Bool)
    → plan_from existing pct (step_number q m) (step q (not (is_p_none q) && m)) ≡ none
    → step_number q m ≡ 4
unfolding plan_from
plan_from-none existing pct p_none m e = ground arith
plan_from-none existing pct quarantine true e = ground arith
plan_from-none existing pct quarantine false e = ground arith
plan_from-none existing pct reject true e =
    ground (arith, testing_would_weaken-enforced existing reject)
plan_from-none existing pct reject false e = ground arith

plan_from-last :
    (existing : Text) (pct : Option ℤ) (q : RolloutPolicy) (m : Bool)
    → is_partial pct ≡ false
    → step_number q m ≡ 4
    → plan_from existing pct (step_number q m) (step q (not (is_p_none q) && m)) ≡ none
unfolding plan_from
plan_from-last existing pct p_none m h e = ground arith
plan_from-last existing pct quarantine true h e = ground arith
plan_from-last existing pct quarantine false h e = ground arith
plan_from-last existing pct reject true h e = ground arith
plan_from-last existing pct reject false h e = ground arith

step_number-le : (p : RolloutPolicy) (t : Bool) → step_number p t ≤ 4
step_number-le p t = ground arith

-- Planned steps applied one after another, each to the record that the last one built.
pub data Reaches : ℕ → Text → Text → Type 0 where
  here : {r : Text} → Reaches 0 r r
  apply :
      {n : ℕ} {r b c : Text} (plan : NextStepPlan)
      → plan_record r ≡ some plan
      → build_step_record r plan.next ≡ some b
      → Reaches n b c
      → Reaches (suc n) r c

-- A record that the code built, at index `i`.
record IsClean (r : Text) (i : ℕ) : Type 0 where
  at : step_index_for_record r ≡ some i
  whole : pct_of (parse_dmarc_tags r) ≡ none

applied :
    (r : Text) (plan : NextStepPlan)
    → plan_record r ≡ some plan
    → (b : Text) × (build_step_record r plan.next ≡ some b)
      × IsClean b (step_number plan.next.policy plan.next.testing)
applied r plan h =
    let s = plan.next in
    let eff = published r in
    let sp = keep_stricter eff.sp s.policy in
    let np = keep_stricter eff.np s.policy in
    (
      _,
      build_step_record_lem r s (plan_record-Suits r plan h).0,
      record {
        at = record_text-index s.policy sp np s.testing r;
        whole = record_text-pct s.policy sp np s.testing r;
      },
    )

abbrev Finishes : ℕ → Text → Type 0
Finishes k r =
    (n : ℕ) × (b : Text) × (n ≤ k)
    × Reaches n r b
    × (step_index_for_record b ≡ some 4)
    × (plan_record b ≡ none)

clean_last : (r : Text) → IsClean r 4 → plan_record r ≡ none
clean_last r c =
    plan_record_lem r 4 c.at
    ∙ plan_from-last r _ (published r).p (published_mode r) (ap is_partial c.whole)
        (sym (step_index_for_record-published r 4 c.at))

clean_later :
    (r : Text) (i : ℕ) (plan : NextStepPlan)
    → IsClean r i
    → plan_record r ≡ some plan
    → i < step_number plan.next.policy plan.next.testing
clean_later r i plan c h = rw (step_index_for_record-published r i c.at) (
    plan_from-later r _ (published r).p (published_mode r) plan (ap is_partial c.whole)
      (plan_record-cases r plan h))

none_is_last : (r : Text) (i : ℕ) → step_index_for_record r ≡ some i → plan_record r ≡ none → i ≡ 4
none_is_last r i e h =
    step_index_for_record-published r i e
    ∙ plan_from-none r _ (published r).p (published_mode r) (sym (plan_record_lem r i e) ∙ h)

clean_stops : (k : ℕ) (r : Text) (i : ℕ) → IsClean r i → plan_record r ≡ none → Finishes k r
clean_stops k r i c e = (0, r, omega arith, here, c.at ∙ ap some (none_is_last r i c.at e), e)

apply_first :
    (k : ℕ) (r b : Text) (plan : NextStepPlan)
    → plan_record r ≡ some plan
    → build_step_record r plan.next ≡ some b
    → Finishes k b
    → Finishes (suc k) r
apply_first k r b plan e built (n, c, le, steps, last, stop) =
    (suc n, c, omega arith, apply plan e built steps, last, stop)

clean-Finishes : (k : ℕ) (r : Text) (i : ℕ) → IsClean r i → 4 ≤ i + k → Finishes k r
clean-Finishes zero r i c h = elim (Option-cases (plan_record r)) [
  | inl e ↦ clean_stops zero r i c e
  | inr (plan, e) ↦
      absurd
        (omega (arith, clean_later r i plan c e, step_number-le plan.next.policy plan.next.testing))
]
clean-Finishes (suc k) r i c h = elim (Option-cases (plan_record r)) [
  | inl e ↦ clean_stops (suc k) r i c e
  | inr (plan, e) ↦
      let (b, built, clean) = applied r plan e in
      apply_first k r b plan e built (
        clean-Finishes k b (step_number plan.next.policy plan.next.testing) clean
          (omega (arith, clean_later r i plan c e)))
]

-- A record whose policy is recognised is fully enforced after at most four planned steps, each of
-- which can be built; then the code plans no further step.
pub rollout_completes :
    (r : Text) (i : ℕ)
    → step_index_for_record r ≡ some i
    → (n : ℕ) × (b : Text) × (n ≤ 4)
      × Reaches n r b
      × (step_index_for_record b ≡ some 4)
      × (plan_record b ≡ none)
rollout_completes r i e = elim (Option-cases (plan_record r)) [
  | inl stop ↦ (0, r, omega arith, here, e ∙ ap some (none_is_last r i e stop), stop)
  | inr (plan, found) ↦
      let (b, built, clean) = applied r plan found in
      apply_first 3 r b plan found built (
        clean-Finishes 3 b (step_number plan.next.policy plan.next.testing) clean (
          omega (
            arith,
            plan_from-pos r _ (published r).p (published_mode r) plan
                (plan_record-cases r plan found),
          )))
]
