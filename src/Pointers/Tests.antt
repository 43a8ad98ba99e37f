-- ===== src/Pointers/Tests.antt =====
-- src/hosted/pointers.ts: a domain with two of the pointers.
use inbox_angel_worker.Common.{◌≡◌, ◌↔◌, refl, List, [], ◌∷◌, ◌++◌, keep, if◌then◌else◌}
use inbox_angel_worker.Text.{
  Text, codes, text_eq, to_lower, trim, trim_start, is_space, starts_with, split_on, cut, parse_int,
}
use inbox_angel_worker.Dmarc.{ok, normalize_name}
use inbox_angel_worker.Spf.{
  is_spf_record, parse_spf_record, parse_spf_terms, parse_term, parse_mechanism, parse_cidr,
  read_value, words,
}
use inbox_angel_worker.Pointers.{
  Resolver, targets, nodata, in_place, missing, verify_pointers, hosted_names, check_cname,
  check_spf_include, include_names,
}
use inbox_angel_worker.Pointers.Outage.{IsBare, verify_pointers-missing}

abbrev resolver : Resolver
resolver = record {
  cname = λ n.
      if text_eq n (codes "_dmarc.x.test")
      then targets (codes "k1._dmarc.h.y.test." ∷ [])
      else nodata;
  txt = λ n.
      if text_eq n (codes "x.test")
      then ok (codes "v=spf1 include:k1._spf.h.y.test -all" ∷ [])
      else ok [];
}

runs : Unit {0}
unfolding verify_pointers hosted_names check_cname check_spf_include include_names is_spf_record
    parse_spf_record parse_spf_terms parse_term parse_mechanism parse_cidr read_value words
    normalize_name text_eq to_lower trim trim_start is_space starts_with split_on cut parse_int
runs = tt

two_in_place :
    verify_pointers (codes "X.test") (codes "k1") (codes "h.y.test") resolver
    ≡ record { dmarc = in_place; spf = in_place; mta_sts = missing; tls_rpt = missing }
unfolding runs
two_in_place = refl

verify_pointers-missing_example :
    (((verify_pointers (codes "X.test") (codes "k1") (codes "h.y.test") resolver).dmarc ≡ missing)
      ↔ IsBare
          (resolver.cname (codes "_dmarc." ++ normalize_name (codes "X.test")))
          (resolver.txt (codes "_dmarc." ++ normalize_name (codes "X.test"))))
    × (((verify_pointers (codes "X.test") (codes "k1") (codes "h.y.test") resolver).spf ≡ missing)
        ↔ ((records : List Text) × (resolver.txt (normalize_name (codes "X.test")) ≡ ok records)
            × (keep is_spf_record records ≡ [])))
verify_pointers-missing_example =
    verify_pointers-missing (codes "X.test") (codes "k1") (codes "h.y.test") resolver
