-- ===== src/Dmarc/Tests.antt =====
-- packages/dns-checks/src/dmarc.ts: a subdomain that has the record of its organizational domain.
use inbox_angel_worker.Common.{◌≤◌, ◌≡◌, refl, true, ◌↔◌, [], ◌∷◌, Option, some, All, if◌then◌else◌}
use inbox_angel_worker.Text.{
  Text, codes, text_eq, trim, to_lower, trim_start, is_space, starts_with, split_on, cut, parse_int,
}
use inbox_angel_worker.Rollout.{RolloutPolicy, reject, get_tag, policy_named}
use inbox_angel_worker.Dmarc.{
  TxtAnswer, ok, lookup_dmarc, found, absent, names_to_ask, normalize_name, parse_dmarc_record,
  read_policy, parse_tags, grade_dmarc_policy, strict_grade, ask_names, ask_name, at_name,
  is_dmarc_record, add_parts, add_part, add_tag, policy_issues, sp_issues, pct_issues, pct_value,
  read_pct, read_align, text_list,
}
use inbox_angel_worker.Dmarc.Parse.{parse_dmarc_record-valid, grade_dmarc_policy-strict}
use inbox_angel_worker.Dmarc.Discovery.{IsSilent, FoundAt, lookup_dmarc-absent, lookup_dmarc-found}

abbrev rejecting : Text
rejecting = codes "v=DMARC1; p=Reject; pct=100; rua=mailto:d@x.test"

abbrev org_of : Text → Option Text
org_of _ = some (codes "x.test")

abbrev zone : Text → TxtAnswer
zone n =
    if text_eq n (codes "_dmarc.x.test")
    then ok (codes "google-site-verification=1" ∷ rejecting ∷ [])
    else ok []

runs : Unit {0}
unfolding lookup_dmarc names_to_ask normalize_name ask_names ask_name at_name is_dmarc_record
    text_eq to_lower trim trim_start is_space starts_with
runs = tt

found_above : (lookup_dmarc org_of zone (codes "Mail.x.test.")).status ≡ found
unfolding runs
found_above = refl

lookup_dmarc-found_example :
    FoundAt zone
      (names_to_ask
        (normalize_name (codes "Mail.x.test."))
        (org_of (normalize_name (codes "Mail.x.test."))))
      (lookup_dmarc org_of zone (codes "Mail.x.test."))
lookup_dmarc-found_example = lookup_dmarc-found org_of zone (codes "Mail.x.test.") found_above

lookup_dmarc-absent_example :
    ((lookup_dmarc org_of (λ _. ok []) (codes "x.test")).status ≡ absent)
    ↔ All
        (IsSilent (λ _. ok []))
        (names_to_ask (normalize_name (codes "x.test")) (org_of (normalize_name (codes "x.test"))))
lookup_dmarc-absent_example = lookup_dmarc-absent org_of (λ _. ok []) (codes "x.test")

parse_dmarc_record-valid_example : ((parse_dmarc_record rejecting).valid ≡ true) ↔ (
    (q : RolloutPolicy) × (read_policy (get_tag (codes "p") (parse_tags rejecting)) ≡ some q)
    × ((parse_dmarc_record rejecting).policy ≡ q))
parse_dmarc_record-valid_example = parse_dmarc_record-valid rejecting

grade_dmarc_policy-strict_example :
    ((parse_dmarc_record rejecting).pct ≤ 100)
    × ((grade_dmarc_policy (some (parse_dmarc_record rejecting)) ≡ strict_grade) ↔ (
        ((parse_dmarc_record rejecting).valid ≡ true)
        × ((parse_dmarc_record rejecting).policy ≡ reject)
        × ((parse_dmarc_record rejecting).pct ≡ 100)))
grade_dmarc_policy-strict_example = grade_dmarc_policy-strict rejecting

rejecting_is_strict : grade_dmarc_policy (some (parse_dmarc_record rejecting)) ≡ strict_grade
unfolding runs grade_dmarc_policy parse_dmarc_record parse_tags add_parts add_part add_tag split_on
    cut get_tag read_policy policy_named policy_issues sp_issues pct_issues pct_value read_pct
    parse_int read_align text_list
rejecting_is_strict = refl
