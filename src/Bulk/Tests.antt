-- ===== src/Bulk/Tests.antt =====
-- src/domains/bulk.ts: a list with a repeated name and one that is no domain.
use inbox_angel_worker.Common.{true, ◌≤◌, ◌≡◌, refl, arith, ◌+◌, List, [], ◌∷◌, none}
use inbox_angel_worker.Text.{
  Text, codes, text_eq, to_lower, trim, trim_start, is_space, cut_last, split_on, join,
}
use inbox_angel_worker.Dmarc.{ok}
use inbox_angel_worker.DnsWrite.{selfhost, saas}
use inbox_angel_worker.Domains.{
  Store, count_claims, get_by_name, insert_domain, get_claim, upsert_claim, owned_by_other,
  new_claim,
}
use inbox_angel_worker.Ownership.{
  World, admit_domain, settle_claims, admit_new, proven_by_parent, proven_by_cloudflare,
}
use inbox_angel_worker.Bulk.{
  imported, invalid, pending_claim, parse_domain_list, validate_domain, insert_one,
  bulk_insert_domains,
}
use inbox_angel_worker.Bulk.Limit.{bulk_insert_domains-WithinLimit}

abbrev empty : Store
empty = record {
  domains = [];
  next_domain = 1;
  claims = [];
  next_claim = 1;
  connections = [];
  intake = [];
}

abbrev world : Text → World
world d = record {
  now = 100;
  print = λ n. (b'0' + n) ∷ [];
  token = d;
  cloudflare = λ _ _. none;
  txt = λ _. ok [];
}

abbrev names : List Text
names = codes "a.tt" ∷ codes "b" ∷ []

runs : Unit {0}
unfolding parse_domain_list validate_domain insert_one bulk_insert_domains admit_domain
    settle_claims admit_new proven_by_parent proven_by_cloudflare get_by_name insert_domain
    get_claim upsert_claim owned_by_other count_claims text_eq to_lower trim trim_start is_space
    cut_last split_on join
runs = tt

parsed_once : parse_domain_list (codes " A.tt,b\na.tt") ≡ names
unfolding runs
parsed_once = refl

one_imported :
    (bulk_insert_domains world (λ _. none) selfhost (codes "w") names empty).0
    ≡ (codes "a.tt", imported none true) ∷ (codes "b", invalid) ∷ []
unfolding runs
one_imported = refl

one_pending :
    (bulk_insert_domains world (λ _. none) saas (codes "w") names empty).0
    ≡ (codes "a.tt", pending_claim (new_claim 1 (codes "w") (codes "a.tt") (codes "a.tt")))
      ∷ (codes "b", invalid)
      ∷ []
unfolding runs
one_pending = refl

bulk_insert_domains-WithinLimit_example :
    count_claims (codes "w") (bulk_insert_domains world (λ _. none) saas (codes "w") names empty).1
    ≤ 25
unfolding count_claims
bulk_insert_domains-WithinLimit_example =
    bulk_insert_domains-WithinLimit world (λ _. none) saas (codes "w") names empty
      (λ other. omega arith) (codes "w")
