-- ===== src/Rollout/Tests.antt =====
-- src/dmarc/rollout.ts on records as customers publish them.
use inbox_angel_worker.Common.{ℕ, ◌≤◌, ◌≡◌, refl, true, false, some, none}
use inbox_angel_worker.Common.Int.{pos}
use inbox_angel_worker.Text.{Text, codes, join}
use inbox_angel_worker.Rollout.{
  NextStepPlan, skips_testing, quarantine, reject, step, nth_step, rollout_sequence, as_policy,
  step_index_for, step_index_for_record, step_index_from_stored, to_stored, plan_record,
  build_step_record, get_next_step, get_tag, parse_dmarc_tags, plan_from, testing_would_weaken,
  effective_policies, step_tags, tag_text, other_parts,
}
use inbox_angel_worker.Rollout.Steps.{step_index_for_mode, step_index_from_stored-to_stored}
use inbox_angel_worker.Rollout.Safety.{Strengthens, plan_record-Strengthens}
use inbox_angel_worker.Rollout.Progress.{Reaches, rollout_completes}

abbrev strict_sub : Text
strict_sub = codes "v=DMARC1; p=none; sp=reject; rua=mailto:d@x.test"

abbrev strict_plan : NextStepPlan
strict_plan = record {
  next = step quarantine false;
  drops_partial_pct = false;
  skipped_testing = true;
  note = some (skips_testing quarantine);
}

runs : Unit {0}
unfolding plan_record step_index_for_record step_index_for as_policy build_step_record get_next_step
    get_tag parse_dmarc_tags plan_from testing_would_weaken effective_policies join step_tags
    tag_text other_parts
runs = tt

strict_planned : plan_record strict_sub ≡ some strict_plan
unfolding runs
strict_planned = refl

-- The kept part stands after the written tags, and the stricter sp is kept.
strict_built :
    build_step_record strict_sub (step quarantine false)
    ≡ some (codes "v=DMARC1; p=quarantine; sp=reject; np=reject; rua=mailto:d@x.test")
unfolding runs
strict_built = refl

strict_refused : build_step_record strict_sub (step quarantine true) ≡ none
unfolding runs
strict_refused = refl

after_none : get_next_step (some (codes " None ")) none false ≡ some (step quarantine true)
unfolding runs
after_none = refl

strict_index : step_index_for_record strict_sub ≡ some 0
unfolding runs
strict_index = refl

quarantine_read : as_policy (some (codes "Quarantine ")) ≡ some quarantine
unfolding runs
quarantine_read = refl

plan_record-Strengthens_example :
    (b : Text) × (build_step_record strict_sub (step quarantine false) ≡ some b)
    × Strengthens strict_sub b
plan_record-Strengthens_example = plan_record-Strengthens strict_sub strict_plan strict_planned

rollout_completes_example :
    (n : ℕ) × (b : Text) × (n ≤ 4)
    × Reaches n strict_sub b
    × (step_index_for_record b ≡ some 4)
    × (plan_record b ≡ none)
rollout_completes_example = rollout_completes strict_sub 0 strict_index

step_index_for_mode_example :
    (i : ℕ) × (step_index_for (some (codes "Quarantine ")) (some (pos 10)) true ≡ some i)
    × (nth_step i rollout_sequence ≡ some (step quarantine false))
step_index_for_mode_example =
    step_index_for_mode (codes "Quarantine ") (some (pos 10)) true quarantine quarantine_read

step_index_from_stored-to_stored_example :
    step_index_from_stored
      (some (to_stored (step reject true)).0)
      (some (pos (to_stored (step reject true)).1))
    ≡ some 3
step_index_from_stored-to_stored_example =
    step_index_from_stored-to_stored 3 (step reject true) refl
