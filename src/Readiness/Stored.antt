-- ===== src/Readiness/Stored.antt =====
-- src/analytics/readiness.ts, `recordFromStored`: the record that a stored policy stands for.
use inbox_angel_worker.Common.{
  ℕ, zero, suc, ◌≡◌, ◌<◌, refl, sym, ◌∙◌, Bool, true, false, ◌&&◌, Option, none, some, ◌==◌, arith,
  [], ◌≤◌,
}
use inbox_angel_worker.Common.Int.{ℤ, pos, negsuc}
use native.Mathlib.Decide.{dec_lt}
use inbox_angel_worker.Text
use inbox_angel_worker.Rollout
use inbox_angel_worker.Text.{Text}
use inbox_angel_worker.Rollout.{
  RolloutPolicy, p_none, quarantine, reject, policy_text, step_index_for_record,
  step_index_from_stored,
}
use inbox_angel_worker.Readiness.{record_from_stored, record_of, pct_tags, pct_or_full}

abbrev index_eq : Option ℕ → Option ℕ → Bool
index_eq none none = true
index_eq (some a) (some b) = a == b
index_eq _ _ = false

index_eq_sound : (a b : Option ℕ) → index_eq a b ≡ true → a ≡ b
index_eq_sound a b h = ground arith

-- The record of a stored policy and percentage stands at the stored index.
agrees : RolloutPolicy → ℤ → Bool
agrees p n =
    index_eq (step_index_for_record (record_of (policy_text p) (some n)))
      (step_index_from_stored (some (policy_text p)) (some n))

all_below : ℕ → (ℕ → Bool) → Bool
all_below zero test = true
all_below (suc n) test = test n && all_below n test

all_below_sound :
    (n : ℕ) (test : ℕ → Bool) (x : ℕ) → all_below n test ≡ true → x < n → test x ≡ true
unfolding all_below
all_below_sound zero test x h lt = absurd (omega arith)
all_below_sound (suc n) test x h lt = ground (arith, all_below_sound n test x)

runs : Unit {0}
unfolding step_index_for_record step_index_from_stored record_of Rollout.parse_dmarc_tags
    Rollout.pct_of Rollout.is_testing_tag Rollout.step_index_for Text.join
runs = tt

table : (p : RolloutPolicy) → all_below 100 (λ n. agrees p (pos n)) ≡ true
unfolding runs agrees all_below
table p_none = refl
table quarantine = refl
table reject = refl

full_tags : (n : ℕ) → 100 ≤ n → pct_tags (some (pos n)) ≡ []
full_tags n h = ground arith

full_record :
    (p : RolloutPolicy) (n : ℕ)
    → 100 ≤ n
    → record_of (policy_text p) (some (pos n)) ≡ record_of (policy_text p) none
unfolding record_of
full_record p n h = rw (full_tags n h) refl

full_index :
    (p : RolloutPolicy) (n : ℕ)
    → 100 ≤ n
    → step_index_from_stored (some (policy_text p)) (some (pos n))
      ≡ step_index_from_stored (some (policy_text p)) (some (pos 100))
unfolding step_index_from_stored Rollout.step_index_for
full_index p_none n h = ground arith
full_index quarantine n h = ground arith
full_index reject n h = ground arith

unset :
    (p : RolloutPolicy)
    → step_index_for_record (record_of (policy_text p) none)
      ≡ step_index_from_stored (some (policy_text p)) (some (pos 100))
unfolding runs
unset p_none = refl
unset quarantine = refl
unset reject = refl

negative :
    (p : RolloutPolicy) (n : ℕ)
    → step_index_for_record (record_of (policy_text p) (some (negsuc n)))
      ≡ step_index_from_stored (some (policy_text p)) (some (negsuc n))
unfolding runs
negative p_none n = refl
negative quarantine n = refl
negative reject n = refl

small :
    (p : RolloutPolicy) (n : ℕ)
    → n < 100
    → step_index_for_record (record_of (policy_text p) (some (pos n)))
      ≡ step_index_from_stored (some (policy_text p)) (some (pos n))
small p n h =
    index_eq_sound _ _ (unfold agrees in all_below_sound 100 (λ k. agrees p (pos k)) n (table p) h)

record_index :
    (p : RolloutPolicy) (pct' : Option ℤ)
    → step_index_for_record (record_of (policy_text p) pct')
      ≡ step_index_from_stored (some (policy_text p)) (pct_or_full pct')
record_index p none = unset p
record_index p (some (negsuc n)) = negative p n
record_index p (some (pos n)) = elim (dec_lt n 100) [
  | yes h ↦ small p n h
  | no h ↦
      let full : 100 ≤ n = omega arith in
      rw (full_record p n full) (unset p ∙ sym (full_index p n full))
]

-- For a stored policy of the three names and any stored percentage, the record that stands for it
-- has the index that the stored columns have: the two ways to find the current step agree.
pub step_index_for_record-record_from_stored :
    (p : RolloutPolicy) (pct' : Option ℤ)
    → (r : Text) × (record_from_stored (some (policy_text p)) pct' ≡ some r)
      × (step_index_for_record r ≡ step_index_from_stored (some (policy_text p)) (pct_or_full pct'))
unfolding record_from_stored
step_index_for_record-record_from_stored p_none pct' = (_, refl, record_index p_none pct')
step_index_for_record-record_from_stored quarantine pct' = (_, refl, record_index quarantine pct')
step_index_for_record-record_from_stored reject pct' = (_, refl, record_index reject pct')
