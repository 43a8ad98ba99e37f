-- ===== src/Ownership/Tests.antt =====
-- src/domains/ownership.ts: a workspace proves a name that another one only claims.
use inbox_angel_worker.Common.{
  ℕ, ◌+◌, ◌≡◌, refl, ◌⊎◌, true, false, [], ◌∷◌, ◌++◌, none, some, All, arith,
}
use inbox_angel_worker.Text.{
  Text, codes, text_eq, ends_with, to_lower, split_on, cut, starts_with, trim, is_space, trim_start,
  strip_quotes, join,
}
use inbox_angel_worker.Dmarc.{TxtAnswer, ok}
use inbox_angel_worker.DnsWrite.{saas, bare}
use inbox_angel_worker.Domains.{
  Domain, Store, Claim, new_domain, new_claim, legacy, via_existing, via_txt, owned_by_other,
  get_by_name, get_by_id, get_claim, count_claims, subdomains, detach, find_legacy_holder,
  record_check, upsert_claim, is_some, insert_domain,
}
use inbox_angel_worker.Ownership.{
  World, verified, is_verified, verify_claim, admit_domain, proven_by_parent, proven_by_cloudflare,
  proven_by_txt, within, walk, evicted_tree, evict_legacy_holder, admit_new, tree_from,
}
use inbox_angel_worker.Ownership.Proof.{
  IsProven, IsPublished, verify_claim-IsProven, admit_domain-IsProven,
}
use inbox_angel_worker.Ownership.Insert.{insert_domain-IsLayered}
use inbox_angel_worker.Ownership.Evict.{IsLayered, is_rival, verify_claim-NoRival, walk-enough}

abbrev legacy_row : Domain
legacy_row = new_domain 1 (codes "b") (codes "x.test") legacy none

abbrev child_row : Domain
child_row = new_domain 2 (codes "b") (codes "m.x.test") legacy (some 1)

abbrev my_claim : Claim
my_claim = new_claim 1 (codes "a") (codes "x.test") (codes "t0")

abbrev store : Store
store = record {
  domains = legacy_row ∷ child_row ∷ [];
  next_domain = 3;
  claims = my_claim ∷ [];
  next_claim = 2;
  connections = [];
  intake = 1 ∷ [];
}

abbrev answers : Text → TxtAnswer
answers _ = ok (codes "\"inboxangel-verify=t0\"" ∷ [])

abbrev world : World
world = record {
  now = 100;
  print = λ n. (b'0' + n) ∷ [];
  token = codes "t1";
  cloudflare = λ _ _. none;
  txt = answers;
}

runs : Unit {0}
unfolding verify_claim admit_domain owned_by_other proven_by_parent proven_by_cloudflare
    proven_by_txt within get_by_name get_by_id get_claim count_claims subdomains detach walk
    evicted_tree evict_legacy_holder find_legacy_holder record_check admit_new upsert_claim text_eq
    ends_with to_lower split_on cut bare starts_with trim is_space trim_start strip_quotes
    insert_domain join
runs = tt

verifies : (verify_claim world (codes "a") my_claim store).0 ≡ is_verified via_txt
unfolding runs
verifies = refl

-- The row of the subdomain goes before the row of the domain.
tree_of_holder : evicted_tree (codes "b") 1 store ≡ 2 ∷ 1 ∷ []
unfolding runs
tree_of_holder = refl

is_there : (admit_domain world saas (codes "b") (codes "x.test") store).0 ≡ verified via_existing
unfolding runs
is_there = refl

evicted_is_other :
    (n : ℕ)
    → text_eq (codes "evicted-" ++ world.print n ++ codes ".invalid") (codes "x.test") ≡ false
unfolding text_eq
evicted_is_other n = refl

child_is_other : text_eq (codes "m.x.test") (codes "x.test") ≡ false
unfolding text_eq
child_is_other = refl

verify_claim-IsProven_example :
    (owned_by_other (codes "x.test") (codes "a") store ≡ false)
    × (IsProven world (codes "a") (codes "x.test") store ⊎ IsPublished world my_claim)
verify_claim-IsProven_example =
    verify_claim-IsProven world (codes "a") my_claim store via_txt verifies

admit_domain-IsProven_example :
    (is_some (get_by_name (codes "b") (codes "x.test") store) ≡ true)
    ⊎ ((owned_by_other (codes "x.test") (codes "b") store ≡ false)
        × IsProven world (codes "b") (codes "x.test") store)
admit_domain-IsProven_example =
    admit_domain-IsProven world (codes "b") (codes "x.test") store via_existing is_there

verify_claim-NoRival_example :
    All
      (λ d. is_rival (codes "x.test") (codes "a") d ≡ false)
      (verify_claim world (codes "a") my_claim store).1.domains
verify_claim-NoRival_example =
    verify_claim-NoRival world (codes "a") my_claim store via_txt
      (record {
        id = 1;
        unique = ((λ _. refl), ((λ e. absurd (cc (e, child_is_other))), tt));
        live = ((λ _. refl), ((λ _. refl), tt));
        fresh = evicted_is_other;
      })
      verifies

walk-enough_example :
    tree_from (codes "b") 1 store (some legacy_row) ≡ walk 7 (codes "b") store legacy_row
walk-enough_example =
    walk-enough (codes "b") store legacy_row 7
      ((omega arith, λ p e. absurd (cc e)), ((omega arith, λ p e. ground (arith, e)), tt))
      (omega arith)

abbrev grown : Store
grown = record store {
  domains =
      legacy_row ∷ child_row ∷ new_domain 3 (codes "b") (codes "w.x.test") via_txt (some 1) ∷ [];
  next_domain = 4;
}

inserts : insert_domain (codes "b") (codes "w.x.test") via_txt store ≡ some grown
unfolding runs
inserts = refl

insert_domain-IsLayered_example : IsLayered grown
insert_domain-IsLayered_example =
    insert_domain-IsLayered (codes "b") (codes "w.x.test") via_txt store grown
      ((omega arith, λ p e. absurd (cc e)), ((omega arith, λ p e. ground (arith, e)), tt)) inserts
