-- ===== src/Spf/Status.antt =====
-- packages/dns-checks/src/spf.ts: what the status of an analysis says.
use inbox_angel_worker.Common.{
  ◌≤◌, ◌≡◌, ◌≢◌, refl, Bool, true, false, ◌↔◌, List, [], ◌∷◌, some_of, arith, Bool-cases, inl, inr,
  keep,
}
use inbox_angel_worker.Text.{Text}
use inbox_angel_worker.Dmarc.{TxtAnswer, ok, failed, normalize_name}
use inbox_angel_worker.Spf.{is_spf_record}
use inbox_angel_worker.Spf.Walk.{
  SpfIssueCode, multiple_records, lookup_limit, void_lookup_limit, mx_name_limit, loop,
  include_no_record, redirect_no_record, syntax, depth_limit, dns_error, absent, permerror,
  Resolver, Ctx, TxtFetch, one_record, no_record, many_records, fetch_failed, fetch_of,
  fetch_answer, fetch_spf_txt, is_fatal, status_of, finish, new_ctx, walk, walk_root, analyze_root,
  analyze_spf, max_depth,
}
use inbox_angel_worker.Spf.Limits.{Inv, is_over_lookups, is_over_voids, walk-Inv, new_ctx-Inv}

some_of-weaken :
    (p q : SpfIssueCode × Text → Bool)
    → ((x : SpfIssueCode × Text) → p x ≡ true → q x ≡ true)
    → (xs : List (SpfIssueCode × Text)) → some_of p xs ≡ true
    → some_of q xs ≡ true
some_of-weaken p q f [] h = absurd (cc h)
some_of-weaken p q f (x ∷ xs) h = ground (arith, f x, some_of-weaken p q f xs)

over_lookups_fatal : (x : SpfIssueCode × Text) → is_over_lookups x ≡ true → is_fatal x ≡ true
over_lookups_fatal (dns_error, d) h = absurd (cc h)
over_lookups_fatal (lookup_limit, d) h = refl
over_lookups_fatal (multiple_records, d) h = refl
over_lookups_fatal (void_lookup_limit, d) h = refl
over_lookups_fatal (mx_name_limit, d) h = refl
over_lookups_fatal (loop, d) h = refl
over_lookups_fatal (include_no_record, d) h = refl
over_lookups_fatal (redirect_no_record, d) h = refl
over_lookups_fatal (syntax, d) h = refl
over_lookups_fatal (depth_limit, d) h = refl

over_voids_fatal : (x : SpfIssueCode × Text) → is_over_voids x ≡ true → is_fatal x ≡ true
over_voids_fatal (dns_error, d) h = absurd (cc h)
over_voids_fatal (lookup_limit, d) h = refl
over_voids_fatal (multiple_records, d) h = refl
over_voids_fatal (void_lookup_limit, d) h = refl
over_voids_fatal (mx_name_limit, d) h = refl
over_voids_fatal (loop, d) h = refl
over_voids_fatal (include_no_record, d) h = refl
over_voids_fatal (redirect_no_record, d) h = refl
over_voids_fatal (syntax, d) h = refl
over_voids_fatal (depth_limit, d) h = refl

no_fatal : (c : Ctx) → (status_of c ≡ permerror → ⊥) → some_of is_fatal c.issues ≡ false
unfolding status_of
no_fatal c h = elim (Bool-cases (some_of is_fatal c.issues)) [
  | inl e ↦ absurd (h (rw e refl))
  | inr e ↦ e
]

within : (c : Ctx) → Inv c → some_of is_fatal c.issues ≡ false → (c.lookups ≤ 10) × (c.voids ≤ 2)
within c v h = (
  ground
      (arith, v.over_lookups, some_of-weaken is_over_lookups is_fatal over_lookups_fatal c.issues),
  ground (arith, v.over_voids, some_of-weaken is_over_voids is_fatal over_voids_fatal c.issues),
)

module _ (r : Resolver) (name : Text) where
  root_within :
      (a : TxtFetch)
      → (analyze_root r name a).status ≢ permerror
      → ((analyze_root r name a).lookup_count ≤ 10)
        × ((analyze_root r name a).void_lookup_count ≤ 2)
  unfolding analyze_root walk_root finish
  root_within fetch_failed h = (omega arith, omega arith)
  root_within no_record h = (omega arith, omega arith)
  root_within (many_records rs) h = absurd (h refl)
  root_within (one_record raw) h =
      let c = walk max_depth r name raw (name ∷ []) new_ctx in
      within c (walk-Inv max_depth r name raw (name ∷ []) new_ctx new_ctx-Inv) (no_fatal c h)

  fetch_absent :
      (rs ms : List Text)
      → keep is_spf_record rs ≡ ms
      → (analyze_root r name (fetch_of ms)).status ≡ absent
      → ms ≡ []
  unfolding analyze_root walk_root finish status_of
  fetch_absent rs [] e h = refl
  fetch_absent rs (m ∷ []) e h = absurd (ground arith)
  fetch_absent rs (m ∷ n ∷ ms) e h = absurd (cc h)

  answer_absent :
      (a : TxtAnswer)
      → (analyze_root r name (fetch_answer a)).status ≡ absent
      → (records : List Text) × (a ≡ ok records) × (keep is_spf_record records ≡ [])
  unfolding analyze_root finish
  answer_absent (failed e) h = absurd (cc h)
  answer_absent (ok rs) h = (rs, refl, fetch_absent rs (keep is_spf_record rs) refl h)

-- An analysis that does not end in a permanent error has counted at most 10 terms that query the DNS
-- and at most 2 void lookups, in the whole tree of included records.
pub analyze_spf-limits :
    (domain : Text) (r : Resolver)
    → (analyze_spf domain r).status ≢ permerror
    → ((analyze_spf domain r).lookup_count ≤ 10) × ((analyze_spf domain r).void_lookup_count ≤ 2)
unfolding analyze_spf
analyze_spf-limits domain r h =
    let name = normalize_name domain in root_within r name (fetch_spf_txt r name) h

-- The analysis says that a domain has no SPF record exactly when the resolver has answered for the
-- name without one: a failure of the DNS is never taken for a missing record.
pub analyze_spf-absent :
    (domain : Text) (r : Resolver)
    → ((analyze_spf domain r).status ≡ absent) ↔ (
        (records : List Text) × (r.txt (normalize_name (normalize_name domain)) ≡ ok records)
        × (keep is_spf_record records ≡ []))
unfolding analyze_spf fetch_spf_txt
analyze_spf-absent domain r = (
  λ h. answer_absent r (normalize_name domain) (r.txt (normalize_name (normalize_name domain))) h,
  λ (rs, at, e). unfold analyze_root finish in rw (at, e) refl,
)
