-- ===== src/Dmarc/Parse.antt =====
-- packages/dns-checks/src/dmarc.ts: which records are valid, and how they are graded.
use inbox_angel_worker.Common.{
  ℕ, ◌≤◌, ◌≡◌, refl, ◌∙◌, ap, Bool, true, false, not, ◌||◌, ◌↔◌, List, [], ◌∷◌, ◌++◌, Option, none,
  some, some_of, arith, Option-cases, Bool-cases, inl, inr,
}
use inbox_angel_worker.Common.Int.{ℤ, pos, negsuc}
use inbox_angel_worker.Text.{Text, codes, parse_int}
use inbox_angel_worker.Rollout.{RolloutPolicy, reject, get_tag}
use inbox_angel_worker.Dmarc.{
  parse_tags, read_policy, read_pct, all_digits, at_most_100, policy_issues, sp_issues, pct_issues,
  pct_value, spoils, parse_dmarc_record, DmarcRecord, grade_dmarc_policy, strict_grade, Issue,
}

at_most_100-le : (o : Option ℤ) (n : ℕ) → at_most_100 o ≡ some n → n ≤ 100
at_most_100-le none n h = absurd (cc h)
at_most_100-le (some (pos k)) n h = ground arith
at_most_100-le (some (negsuc k)) n h = absurd (cc h)

read_pct-le : (v : Text) (n : ℕ) → read_pct v ≡ some n → n ≤ 100
unfolding read_pct
read_pct-le v n h = elim (Bool-cases (all_digits v)) [
  | inl e ↦ at_most_100-le (parse_int v) n (rw (e, read_pct) at h)
  | inr e ↦ absurd (cc (rw (e, read_pct) at h))
]

pub pct_value-le : (o : Option Text) → pct_value o ≤ 100
unfolding pct_value
pct_value-le none = omega arith
pct_value-le (some v) = elim (Option-cases (read_pct v)) [
  | inl e ↦ rw e (omega arith)
  | inr (n, e) ↦ rw e (read_pct-le v n e)
]

some_of-append :
    (xs ys : List Issue) → some_of spoils (xs ++ ys) ≡ (some_of spoils xs || some_of spoils ys)
some_of-append [] ys = refl
some_of-append (x ∷ xs) ys = ground (arith, some_of-append xs ys)

sp_issues_sound : (o : Option Text) → some_of spoils (sp_issues o) ≡ false
unfolding sp_issues
sp_issues_sound none = refl
sp_issues_sound (some v) = ground arith

pct_issues_sound : (o : Option Text) → some_of spoils (pct_issues o) ≡ false
unfolding pct_issues
pct_issues_sound none = refl
pct_issues_sound (some v) = ground arith

abbrev is_named : Option RolloutPolicy → Bool
is_named none = false
is_named (some _) = true

policy_issues-named :
    (o : Option Text) → not (some_of spoils (policy_issues o)) ≡ is_named (read_policy o)
unfolding policy_issues read_policy
policy_issues-named none = refl
policy_issues-named (some v) = ground arith

abbrev policy_tag : Text → Option Text
policy_tag raw = get_tag (codes "p") (parse_tags raw)

valid_lem : (raw : Text) → (parse_dmarc_record raw).valid ≡ is_named (read_policy (policy_tag raw))
unfolding parse_dmarc_record
valid_lem raw =
    let tags = parse_tags raw in
    let o = get_tag (codes "sp") tags in
    let q = get_tag (codes "pct") tags in
    ap not (
      some_of-append (policy_issues (policy_tag raw)) (sp_issues o ++ pct_issues q)
      ∙ ap (◌||◌ (some_of spoils (policy_issues (policy_tag raw)))) (
          some_of-append (sp_issues o) (pct_issues q)
          ∙ rw (sp_issues_sound o, pct_issues_sound q) refl))
    ∙ ap not (or_false (some_of spoils (policy_issues (policy_tag raw))))
    ∙ policy_issues-named (policy_tag raw)
  where
    or_false : (b : Bool) → (b || false) ≡ b
    or_false true = refl
    or_false false = refl

-- A record is valid exactly when its p tag names a policy, which is then the policy that the record
-- has; problems in other tags do not spoil it.
pub parse_dmarc_record-valid :
    (raw : Text)
    → ((parse_dmarc_record raw).valid ≡ true) ↔ (
        (q : RolloutPolicy) × (read_policy (get_tag (codes "p") (parse_tags raw)) ≡ some q)
        × ((parse_dmarc_record raw).policy ≡ q))
unfolding parse_dmarc_record
parse_dmarc_record-valid raw = (
  λ h. elim (Option-cases (read_policy (policy_tag raw))) [
    | inl e ↦ absurd (cc (valid_lem raw, h, ap is_named e))
    | inr (q, e) ↦ (q, e, rw e refl)
  ],
  λ (q, e, _). valid_lem raw ∙ ap is_named e,
)

grade_strict :
    (r : DmarcRecord)
    → r.pct ≤ 100
    → (grade_dmarc_policy (some r) ≡ strict_grade)
      ↔ ((r.valid ≡ true) × (r.policy ≡ reject) × (r.pct ≡ 100))
unfolding grade_dmarc_policy
grade_strict r le = ground arith

-- A parsed record never has a percentage above 100, and it has the strictest grade exactly when it is
-- valid, its policy is reject and the percentage is 100.
pub grade_dmarc_policy-strict :
    (raw : Text)
    → ((parse_dmarc_record raw).pct ≤ 100)
      × ((grade_dmarc_policy (some (parse_dmarc_record raw)) ≡ strict_grade) ↔ (
          ((parse_dmarc_record raw).valid ≡ true)
          × ((parse_dmarc_record raw).policy ≡ reject)
          × ((parse_dmarc_record raw).pct ≡ 100)))
grade_dmarc_policy-strict raw =
    let le : (parse_dmarc_record raw).pct ≤ 100 =
      unfold parse_dmarc_record in pct_value-le (get_tag (codes "pct") (parse_tags raw)) in
    (le, grade_strict (parse_dmarc_record raw) le)
