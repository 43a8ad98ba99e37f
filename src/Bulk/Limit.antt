-- ===== src/Bulk/Limit.antt =====
-- src/domains/bulk.ts: an import keeps the limit of claims, and a parsed list has no name twice.
use mathlib.Core.Path.{subst}
use inbox_angel_worker.Common.{
  ℕ, ◌≤◌, ◌≡◌, refl, Bool, true, false, not, ◌&&◌, List, [], ◌∷◌, Option, none, some, arith,
  if◌then◌else◌, keep, change, length, take, some_of, Bool-cases, inl, inr, some_inj,
}
use inbox_angel_worker.Text.{Text, text_eq, is_empty}
use inbox_angel_worker.DnsWrite.{Mode}
use inbox_angel_worker.Domains.{
  Store, Claim, lost, VerifiedVia, count_claims, is_my_claim, insert_domain, get_by_name, is_some,
}
use inbox_angel_worker.Ownership.{
  World, Admission, verified, is_pending, taken, limit, admit_domain, settle_claims,
}
use inbox_angel_worker.Ownership.Claims.{WithinLimit, admit_domain-WithinLimit, keep-le}
use inbox_angel_worker.Bulk.{
  BulkImportStatus, Provision, invalid, duplicate, provisioned, inserted, admitted, insert_one,
  insert_all, bulk_insert_domains, batch_limit, validate_domain, set_dns_record,
}

kept_change :
    (ws : Text) (test : Claim → Bool) (cs : List Claim)
    → length (keep (is_my_claim ws) (change test (λ c. record c { status = lost }) cs))
      ≡ length (keep (is_my_claim ws) cs)
kept_change ws test [] = refl
kept_change ws test (c ∷ cs) = ground (arith, kept_change ws test cs)

settle_claims-WithinLimit :
    (ws domain : Text) (s : Store) → WithinLimit s → WithinLimit (settle_claims ws domain s)
unfolding settle_claims count_claims
settle_claims-WithinLimit ws domain s v other = omega (
  arith,
  v other,
  kept_change other (λ c. text_eq c.domain domain && not (is_my_claim ws c))
      (keep (λ c. not (is_my_claim ws c && text_eq c.domain domain)) s.claims),
  keep-le (is_my_claim other) (λ c. not (is_my_claim ws c && text_eq c.domain domain)) s.claims,
)

insert_domain-WithinLimit :
    (ws domain : Text) (via : VerifiedVia) (s t : Store)
    → insert_domain ws domain via s ≡ some t
    → WithinLimit s
    → WithinLimit t
unfolding insert_domain count_claims
insert_domain-WithinLimit ws domain via s t e v =
    elim (Bool-cases (some_of (λ d. text_eq d.name domain) s.domains)) [
      | inl k ↦ absurd (cc (rw k at e))
      | inr k ↦ subst WithinLimit (some_inj (rw k at e)) v
    ]

provisioned-WithinLimit :
    (ws : Text) (id : ℕ) (o : Option (Option Text × Bool)) (s : Store)
    → WithinLimit s
    → WithinLimit (provisioned ws id o s).1
unfolding count_claims
provisioned-WithinLimit ws id none s v = v
provisioned-WithinLimit ws id (some (none, manual)) s v = v
provisioned-WithinLimit ws id (some (some rid, manual)) s v = by_case (is_empty rid)
  where
    by_case : (b : Bool) → WithinLimit (if b then s else set_dns_record ws id rid s)
    by_case true = v
    by_case false = v

insert_one-WithinLimit :
    (w : Text → World) (provision : Provision) (mode : Mode) (ws domain : Text) (s : Store)
    → WithinLimit s
    → WithinLimit (insert_one w provision mode ws domain s).1
unfolding insert_one
insert_one-WithinLimit w provision mode ws domain s v =
    choose (not (validate_domain domain)) (invalid, s) _ v
      (choose (is_some (get_by_name ws domain s)) (duplicate, s) _ v
        (by_admission (admit_domain (w domain) mode ws domain s)
          (admit_domain-WithinLimit (w domain) mode ws domain s v)))
  where
    choose :
        (b : Bool) (x y : BulkImportStatus × Store)
        → WithinLimit x.1
        → WithinLimit y.1
        → WithinLimit (if b then x else y).1
    choose true x y vx vy = vx
    choose false x y vx vy = vy

    by_insert :
        (via : VerifiedVia) (t : Store) (o : Option Store)
        → insert_domain ws domain via t ≡ o
        → WithinLimit t
        → WithinLimit (inserted provision ws domain t.next_domain o t).1
    by_insert via t none e vt = vt
    by_insert via t (some t') e vt =
        provisioned-WithinLimit ws t.next_domain (provision domain) (settle_claims ws domain t') (
          settle_claims-WithinLimit ws domain t'
            (insert_domain-WithinLimit ws domain via t t' e vt))

    by_admission :
        (r : Admission × Store) → WithinLimit r.1 → WithinLimit (admitted provision ws domain r).1
    by_admission (taken, t) vt = vt
    by_admission (limit, t) vt = vt
    by_admission (is_pending c, t) vt = vt
    by_admission (verified via, t) vt = by_insert via t (insert_domain ws domain via t) refl vt

insert_all-WithinLimit :
    (w : Text → World) (provision : Provision) (mode : Mode) (ws : Text) (ds : List Text)
    (s : Store)
    → WithinLimit s
    → WithinLimit (insert_all w provision mode ws ds s).1
insert_all-WithinLimit w provision mode ws [] s v = v
insert_all-WithinLimit w provision mode ws (d ∷ ds) s v =
    insert_all-WithinLimit w provision mode ws ds (insert_one w provision mode ws d s).1
      (insert_one-WithinLimit w provision mode ws d s v)

-- However many domains an import names, and whatever is proven of them, no workspace comes to hold more
-- than 25 claims, where none did before.
pub bulk_insert_domains-WithinLimit :
    (w : Text → World) (provision : Provision) (mode : Mode) (ws : Text) (ds : List Text)
    (s : Store)
    → ((other : Text) → count_claims other s ≤ 25)
    → (other : Text) → count_claims other (bulk_insert_domains w provision mode ws ds s).1 ≤ 25
unfolding bulk_insert_domains
bulk_insert_domains-WithinLimit w provision mode ws ds s v =
    insert_all-WithinLimit w provision mode ws (take batch_limit ds) s v
