-- ===== src/Rollout/Steps.antt =====
-- src/dmarc/rollout.ts: where a published or stored policy stands in the sequence.
use mathlib.Core.Path.{subst}
use inbox_angel_worker.Common.{
  ℕ, zero, suc, some_inj, ◌≡◌, refl, true, false, Bool, Option, some, not, ◌&&◌, ◌||◌,
}
use inbox_angel_worker.Common.Int.{ℤ, pos}
use inbox_angel_worker.Text.{Text}
use inbox_angel_worker.Rollout.{
  RolloutPolicy, p_none, quarantine, reject, RolloutStep, policy_text, as_policy, rollout_sequence,
  nth_step, step_index_for, step_index_from_stored, to_stored, is_zero, is_partial, is_p_none,
  find_step, index_of_policy,
}

pub as_policy-policy_text : (p : RolloutPolicy) → as_policy (some (policy_text p)) ≡ some p
unfolding as_policy
as_policy-policy_text p_none = refl
as_policy-policy_text quarantine = refl
as_policy-policy_text reject = refl

-- The sequence has one index for each policy and testing mode.
abbrev pub step_number : RolloutPolicy → Bool → ℕ
step_number p_none _ = 0
step_number quarantine true = 1
step_number quarantine false = 2
step_number reject true = 3
step_number reject false = 4

-- The testing mode that a record stands for.
abbrev pub testing_mode : RolloutPolicy → Option ℤ → Bool → Bool
testing_mode p_none pct testing = false
testing_mode _ pct testing = is_zero pct || testing && not (is_partial pct)

find_quarantine :
    (t : Bool) → find_step quarantine t 0 rollout_sequence ≡ some (step_number quarantine t)
unfolding find_step
find_quarantine true = refl
find_quarantine false = refl

find_reject : (t : Bool) → find_step reject t 0 rollout_sequence ≡ some (step_number reject t)
unfolding find_step
find_reject true = refl
find_reject false = refl

index_of_policy_lem :
    (p : RolloutPolicy) (pct : Option ℤ) (testing : Bool)
    → index_of_policy p pct testing ≡ some (step_number p (testing_mode p pct testing))
unfolding index_of_policy
index_of_policy_lem p_none pct testing = refl
index_of_policy_lem quarantine pct testing =
    find_quarantine (is_zero pct || testing && not (is_partial pct))
index_of_policy_lem reject pct testing =
    find_reject (is_zero pct || testing && not (is_partial pct))

-- The index of a published policy, the legacy `pct` and the testing mode being read as one mode.
pub step_index_for_lem :
    (policy : Text) (pct : Option ℤ) (testing : Bool) (p : RolloutPolicy)
    → as_policy (some policy) ≡ some p
    → step_index_for (some policy) pct testing ≡ some (step_number p (testing_mode p pct testing))
unfolding step_index_for
step_index_for_lem policy pct testing p h =
    rw (h, step_index_for) (index_of_policy_lem p pct testing)

pub nth_step-step_number :
    (p : RolloutPolicy) (t : Bool)
    → nth_step (step_number p t) rollout_sequence
      ≡ some (record { policy = p; testing = not (is_p_none p) && t })
nth_step-step_number p_none t = refl
nth_step-step_number quarantine true = refl
nth_step-step_number quarantine false = refl
nth_step-step_number reject true = refl
nth_step-step_number reject false = refl

-- Migration of legacy records: a policy that the code reads always has a step; the step has that
-- policy, and it is a testing step only if `pct` is 0 or testing is asked for with no partial `pct`.
pub step_index_for_mode :
    (policy : Text) (pct : Option ℤ) (testing : Bool) (p : RolloutPolicy)
    → as_policy (some policy) ≡ some p
    → (i : ℕ) × (step_index_for (some policy) pct testing ≡ some i)
      × (nth_step i rollout_sequence
          ≡ some (record {
            policy = p;
            testing = not (is_p_none p) && (is_zero pct || testing && not (is_partial pct));
          }))
step_index_for_mode policy pct testing p h = (
  step_number p (testing_mode p pct testing),
  step_index_for_lem policy pct testing p h,
  mode_step p,
)
  where
    mode_step :
        (q : RolloutPolicy)
        → nth_step (step_number q (testing_mode q pct testing)) rollout_sequence
          ≡ some (record {
            policy = q;
            testing = not (is_p_none q) && (is_zero pct || testing && not (is_partial pct));
          })
    mode_step p_none = refl
    mode_step quarantine = nth_step-step_number quarantine _
    mode_step reject = nth_step-step_number reject _

abbrev Restores : ℕ → RolloutStep → Type 0
Restores i s = step_index_from_stored (some (to_stored s).0) (some (pos (to_stored s).1)) ≡ some i

-- Every step that is stored is read back as the same step.
pub step_index_from_stored-to_stored :
    (i : ℕ) (s : RolloutStep)
    → nth_step i rollout_sequence ≡ some s
    → step_index_from_stored (some (to_stored s).0) (some (pos (to_stored s).1)) ≡ some i
unfolding step_index_from_stored to_stored
step_index_from_stored-to_stored zero s h = subst (Restores 0) (some_inj h) refl
step_index_from_stored-to_stored (suc zero) s h = subst (Restores 1) (some_inj h) refl
step_index_from_stored-to_stored (suc (suc zero)) s h = subst (Restores 2) (some_inj h) refl
step_index_from_stored-to_stored (suc (suc (suc zero))) s h = subst (Restores 3) (some_inj h) refl
step_index_from_stored-to_stored (suc (suc (suc (suc zero)))) s h =
    subst (Restores 4) (some_inj h) refl
step_index_from_stored-to_stored (suc (suc (suc (suc (suc i))))) s h = cc
