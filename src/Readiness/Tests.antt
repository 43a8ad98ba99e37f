-- ===== src/Readiness/Tests.antt =====
-- src/analytics/readiness.ts on three domains.
use inbox_angel_worker.Common.{ℕ, ◌≤◌, ◌<◌, ◌≡◌, refl, ◌↔◌, ◌⊎◌, false, some, none, []}
use inbox_angel_worker.Common.Int.{pos}
use inbox_angel_worker.Text.{Text, codes}
use inbox_angel_worker.Rollout.{
  NextStepPlan, plan_next_step, plan_record, plan_from, testing_would_weaken, effective_policies,
  get_tag, parse_dmarc_tags, step_index_for, as_policy, pct_of, is_testing_tag,
  step_index_for_record, step_index_from_stored, policy_text, quarantine,
}
use inbox_angel_worker.Readiness.{
  ReadinessInput, live, assess_readiness, resolve_step, record_from_stored, pct, ready, blocked,
  caution, pct_or_full, assess_published, judge, conclude, finish, judge_note, judge_rate,
  judge_senders, warn_all,
}
use inbox_angel_worker.Readiness.Verdict.{IsReady, assess_readiness-ready, assess_readiness-blocked}
use inbox_angel_worker.Readiness.Stored.{step_index_for_record-record_from_stored}

-- Four weeks of reports for a domain at p=none.
abbrev month : ℕ → ReadinessInput
month passed = record {
  state = live (some (codes "v=DMARC1; p=none"));
  messages = 2000;
  passed = passed;
  days_with_reports = 26;
  window_days = 28;
  fixes = [];
  new_senders = 0;
  inherits = false;
}

runs : Unit {0}
unfolding assess_readiness resolve_step assess_published judge pct conclude finish judge_note
    judge_rate judge_senders warn_all step_index_for_record step_index_for plan_next_step
    plan_record plan_from testing_would_weaken effective_policies get_tag parse_dmarc_tags as_policy
    pct_of is_testing_tag
runs = tt

clean_is_ready : (assess_readiness (month 1990)).status ≡ ready
unfolding runs
clean_is_ready = refl

mixed_is_caution : (assess_readiness (month 1900)).status ≡ caution
unfolding runs
mixed_is_caution = refl

failing_is_blocked : (assess_readiness (month 1700)).status ≡ blocked
unfolding runs
failing_is_blocked = refl

assess_readiness-ready_example : ((assess_readiness (month 1990)).status ≡ ready) ↔ (
    (record' : Text) × (index : ℕ) × (plan : NextStepPlan) × ((resolve_step
        (month 1990).state).published
      ≡ some record')
    × ((resolve_step (month 1990).state).index ≡ some index)
    × ((resolve_step (month 1990).state).plan ≡ some plan)
    × IsReady (month 1990) plan)
assess_readiness-ready_example = assess_readiness-ready (month 1990)

assess_readiness-blocked_example : ((assess_readiness (month 1700)).status ≡ blocked) ↔ (
    (record' : Text) × ((resolve_step (month 1700).state).published ≡ some record')
    × (((resolve_step (month 1700).state).index ≡ none)
        ⊎ ((index : ℕ) × (plan : NextStepPlan) × ((resolve_step (month 1700).state).index
              ≡ some index)
            × ((resolve_step (month 1700).state).plan ≡ some plan)
            × (100 ≤ (month 1700).messages)
            × (7 ≤ (month 1700).days_with_reports)
            × (pct (month 1700).passed (month 1700).messages < 900))))
assess_readiness-blocked_example = assess_readiness-blocked (month 1700)

step_index_for_record-record_from_stored_example :
    (r : Text) × (record_from_stored (some (policy_text quarantine)) (some (pos 25)) ≡ some r)
    × (step_index_for_record r
        ≡ step_index_from_stored (some (policy_text quarantine)) (pct_or_full (some (pos 25))))
step_index_for_record-record_from_stored_example =
    step_index_for_record-record_from_stored quarantine (some (pos 25))
