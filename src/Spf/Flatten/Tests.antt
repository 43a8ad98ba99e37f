-- ===== src/Spf/Flatten/Tests.antt =====
-- packages/dns-checks/src/spf.ts: a record with one include.
use mathlib.Core.List.{Memᴰ}
use inbox_angel_worker.Common.{
  ◌≡◌, refl, true, List, [], ◌∷◌, none, some, arith, All, if◌then◌else◌,
}
use inbox_angel_worker.Text.{
  Text, codes, text_eq, to_lower, trim, trim_start, is_space, starts_with, split_on, cut, includes,
  parse_int, join, print_nat, print_digits,
}
use inbox_angel_worker.Dmarc.{TxtAnswer, ok, normalize_name}
use inbox_angel_worker.Spf.{
  SpfTerm, mechanism, plus, parse_term, parse_mechanism, read_value, is_spf_record, words,
  parse_spf_terms, parse_cidr,
}
use inbox_angel_worker.Spf.Walk.{
  Resolver, one_record, no_answer, fetch_spf_txt, target_of, is_reference,
}
use inbox_angel_worker.Spf.Flatten.{
  Collected, flat, visit, visit_fetch, visit_terms, visit_term, visit_mechanism, visit_include,
  visit_redirect, add_ip, keep_raw, collect_ips, build_flat_record, with_spf_source, flatten_source,
  preview_flatten,
}
use inbox_angel_worker.Spf.Flatten.Total.{is_in, terms_at, collect_ips-enough}
use inbox_angel_worker.Spf.Flatten.Covers.{Leads, IsCovered, stays, steps}
use inbox_angel_worker.Spf.Flatten.Complete.{collect_ips_complete}

abbrev txt_of : Text → TxtAnswer
txt_of name =
    if text_eq name (codes "x.t")
    then ok (codes "v=spf1 include:y.t ~all" ∷ [])
    else if text_eq name (codes "y.t")
    then ok (codes "v=spf1 ip4:1.2.3.4 mx -all" ∷ [])
    else ok []

abbrev resolver : Resolver
resolver = record { txt = txt_of; resolve = λ _ _. no_answer }

runs : Unit {0}
unfolding visit visit_fetch visit_terms visit_term visit_mechanism visit_include visit_redirect
    add_ip keep_raw collect_ips build_flat_record with_spf_source flatten_source preview_flatten
    fetch_spf_txt normalize_name is_spf_record words parse_spf_terms parse_cidr parse_term
    parse_mechanism read_value text_eq to_lower trim trim_start is_space starts_with split_on cut
    includes parse_int join print_nat print_digits
runs = tt

abbrev found : Collected
found = record { ips = codes "ip4:1.2.3.4" ∷ []; extra = codes "mx:y.t" ∷ []; errors = [] }

flattens : collect_ips 3 (codes "X.t.") resolver ≡ some (codes "~all", found)
unfolding runs
flattens = refl

flat_source :
    flatten_source 3 (codes "x.t") (codes "v=spf1 include:y.t mx -all") resolver
    ≡ some (flat (codes "v=spf1 ip4:1.2.3.4 mx:y.t mx -all") 1)
unfolding runs
flat_source = refl

abbrev names : List Text
names = codes "x.t" ∷ codes "y.t" ∷ []

names_closed :
    All
      (λ d.
        All
          (λ t. is_reference t ≡ true → is_in names (target_of t.value) ≡ true)
          (terms_at (fetch_spf_txt resolver d)))
      names
unfolding runs
names_closed = (
  ((λ _. refl), ((λ e. absurd (cc e)), tt)),
  (((λ e. absurd (cc e)), ((λ e. absurd (cc e)), ((λ e. absurd (cc e)), tt))), tt),
)

root_known : is_in names (normalize_name (codes "X.t.")) ≡ true
unfolding runs
root_known = refl

collect_ips-enough_example :
    (x : Text × Collected) × (collect_ips 3 (codes "X.t.") resolver ≡ some x)
collect_ips-enough_example =
    collect_ips-enough 3 (codes "X.t.") resolver names names_closed root_known (omega arith)

abbrev the_include : SpfTerm
the_include = record {
  raw = codes "include:y.t";
  kind = mechanism;
  name = codes "include";
  qualifier = plus;
  value = some (codes "y.t");
  cidr4 = none;
  cidr6 = none;
}

root_fetched :
    fetch_spf_txt resolver (normalize_name (codes "X.t."))
    ≡ one_record (codes "v=spf1 include:y.t ~all")
unfolding runs
root_fetched = refl

leads_on : Leads resolver (normalize_name (codes "X.t.")) (codes "y.t")
unfolding runs
leads_on =
    steps (codes "x.t") (codes "y.t") (codes "v=spf1 include:y.t ~all") the_include refl
      (Memᴰ.head refl) refl (stays (codes "y.t"))

collect_ips_complete_example :
    IsCovered resolver (normalize_name (codes "X.t.")) (codes "y.t") found
collect_ips_complete_example =
    collect_ips_complete 3 (codes "X.t.") resolver (codes "v=spf1 include:y.t ~all") (codes "~all")
      found root_fetched flattens refl (codes "y.t") leads_on
