-- ===== src/Spf/Tests.antt =====
-- packages/dns-checks/src/spf.ts on a domain that includes a provider.
use inbox_angel_worker.Common.{◌≤◌, ◌≡◌, ◌↔◌, refl, List, [], ◌∷◌, some, none, keep, if◌then◌else◌}
use inbox_angel_worker.Common.Int.{pos}
use inbox_angel_worker.Text.{
  Text, codes, text_eq, to_lower, trim, trim_start, is_space, starts_with, split_on, cut, includes,
  parse_int,
}
use inbox_angel_worker.Dmarc.{TxtAnswer, ok, normalize_name}
use inbox_angel_worker.Spf.{
  mechanism, tilde, parse_term, parse_mechanism, parse_spf_terms, parse_cidr, read_value, words,
  is_spf_record, term_counts_as_lookup, strict, parse_spf_record,
}
use inbox_angel_worker.Spf.Walk.{
  Resolver, answers, fine, absent, fetch_spf_txt, count_lookup, count_void, own_target,
  judge_addresses, check_addresses, follow_fetch, follow_target, check_reference, check_counted,
  check_term, walk_terms, walk_record, walk, status_of, finish, walk_root, analyze_root,
  analyze_spf, loop,
}
use inbox_angel_worker.Spf.Status.{analyze_spf-limits, analyze_spf-absent}

abbrev zone : Text → TxtAnswer
zone n =
    if text_eq n (codes "x.test")
    then ok (codes "v=spf1 include:y.test A -all" ∷ [])
    else if text_eq n (codes "y.test")
    then ok (codes "v=spf1 ip4:192.0.2.0/24 ~all" ∷ [])
    else if text_eq n (codes "z.test")
    then ok (codes "v=spf1 include:z.test" ∷ [])
    else ok []

abbrev resolver : Resolver
resolver = record { txt = zone; resolve = λ _ _. answers [] }

runs : Unit {0}
unfolding parse_term parse_mechanism parse_spf_terms parse_cidr read_value words is_spf_record
    term_counts_as_lookup fetch_spf_txt count_lookup count_void own_target judge_addresses
    check_addresses follow_fetch follow_target check_reference check_counted check_term walk_terms
    walk_record walk status_of finish walk_root analyze_root analyze_spf normalize_name text_eq
    to_lower trim trim_start is_space starts_with split_on cut includes parse_int parse_spf_record
runs = tt

address_term : parse_term (codes "~MX:Mail.x.test/24") ≡ record {
  raw = codes "~MX:Mail.x.test/24";
  kind = mechanism;
  name = codes "mx";
  qualifier = tilde;
  value = some (codes "Mail.x.test");
  cidr4 = some (pos 24);
  cidr6 = none;
}
unfolding runs
address_term = refl

strict_record : (parse_spf_record (codes "v=spf1 A -ALL")).verdict ≡ strict
unfolding runs
strict_record = refl

two_lookups : (analyze_spf (codes "X.test.") resolver).lookup_count ≡ 2
unfolding runs
two_lookups = refl

self_include : (analyze_spf (codes "z.test") resolver).issues ≡ (loop, codes "z.test") ∷ []
unfolding runs
self_include = refl

is_fine : (analyze_spf (codes "X.test.") resolver).status ≡ fine
unfolding runs
is_fine = refl

analyze_spf-limits_example :
    ((analyze_spf (codes "X.test.") resolver).lookup_count ≤ 10)
    × ((analyze_spf (codes "X.test.") resolver).void_lookup_count ≤ 2)
analyze_spf-limits_example = analyze_spf-limits (codes "X.test.") resolver (λ e. cc (is_fine, e))

analyze_spf-absent_example : ((analyze_spf (codes "w.test") resolver).status ≡ absent) ↔ (
    (records : List Text) × (zone (normalize_name (normalize_name (codes "w.test"))) ≡ ok records)
    × (keep is_spf_record records ≡ []))
analyze_spf-absent_example = analyze_spf-absent (codes "w.test") resolver
