-- ===== src/Ownership/Claims.antt =====
-- src/domains/ownership.ts: no workspace collects more claims than the limit.
use inbox_angel_worker.Common.{
  ℕ, ◌+◌, ◌≤◌, ◌<◌, ◌≡◌, refl, ◌∙◌, Bool, true, false, not, ◌&&◌, List, [], ◌∷◌, ◌++◌, Option, none,
  some, arith, Bool-cases, Option-cases, inl, inr, if◌then◌else◌, keep, length, leb, ◌==◌,
  length-append,
}
use inbox_angel_worker.Text.{Text, text_eq}
use inbox_angel_worker.Text.Equal.{text_eq_iff}
use inbox_angel_worker.DnsWrite.{Mode, selfhost, saas}
use inbox_angel_worker.Domains.{
  Store, Claim, get_by_name, owned_by_other, get_claim, is_some, is_my_claim, find_legacy_holder,
  detach_all, detach, count_claims, delete_claim, upsert_claim, new_claim, pending, lost,
  ClaimStatus,
}
use inbox_angel_worker.Ownership.{
  World, proven_by_parent, proven_by_cloudflare, admit_domain, admit_claimed, admit_new,
  evict_legacy_holder, evicted_tree, admit_standing, Admission,
}

-- Every workspace holds at most the limit.
abbrev pub WithinLimit : Store → Type 0
WithinLimit s = (ws : Text) → count_claims ws s ≤ 25

detach_all-claims :
    (print : ℕ → Text) (now : ℕ) (ids : List ℕ) (s : Store)
    → (detach_all print now ids s).claims ≡ s.claims
unfolding detach
detach_all-claims print now [] s = refl
detach_all-claims print now (id ∷ ids) s = detach_all-claims print now ids (detach print now id s)

evict-claims :
    (print : ℕ → Text) (now : ℕ) (ws domain : Text) (s : Store)
    → (evict_legacy_holder print now ws domain s).claims ≡ s.claims
unfolding evict_legacy_holder
evict-claims print now ws domain s = elim (Option-cases (find_legacy_holder domain ws s)) [
  | inl e ↦ rw (e, evict_legacy_holder) refl
  | inr (h, e) ↦
      rw (e, evict_legacy_holder) (detach_all-claims print now (evicted_tree h.workspace h.id s) s)
]

pub keep-le :
    {A : Type 0} (p q : A → Bool) (xs : List A) → length (keep p (keep q xs)) ≤ length (keep p xs)
keep-le p q [] = omega arith
keep-le p q (x ∷ xs) = ground (arith, keep-le p q xs)

keep-append :
    {A : Type 0} (p : A → Bool) (xs ys : List A) → keep p (xs ++ ys) ≡ keep p xs ++ keep p ys
keep-append p [] ys = refl
keep-append p (x ∷ xs) ys = ground (arith, keep-append p xs ys)

delete_claim-WithinLimit :
    (ws : Text) (id : ℕ) (s : Store) → WithinLimit s → WithinLimit (delete_claim ws id s)
unfolding delete_claim count_claims
delete_claim-WithinLimit ws id s v other = omega (
  arith,
  v other,
  keep-le (is_my_claim other) (λ c. not (is_my_claim ws c && c.id == id)) s.claims,
)

count_more :
    (other ws domain token : Text) (id : ℕ) (cs : List Claim)
    → length (keep (is_my_claim other) (cs ++ new_claim id ws domain token ∷ []))
      ≡ length (keep (is_my_claim other) cs) + (if text_eq ws other then 1 else 0)
count_more other ws domain token id cs =
    rw (keep-append (is_my_claim other) cs (new_claim id ws domain token ∷ []))
      (length-append (keep (is_my_claim other) cs) _ ∙ ground arith)

upsert_claim-WithinLimit :
    (ws domain token : Text) (s : Store)
    → WithinLimit s
    → count_claims ws s < 25
    → WithinLimit (upsert_claim ws domain token s).1
unfolding upsert_claim count_claims
upsert_claim-WithinLimit ws domain token s v few other =
    elim (Option-cases (get_claim ws domain s)) [
      | inr (c, e) ↦ rw (e, upsert_claim) (v other)
      | inl e ↦
          rw (e, upsert_claim, count_more other ws domain token s.next_claim s.claims)
            (elim (Bool-cases (text_eq ws other)) [
              | inr e' ↦ rw e' (omega (arith, v other))
              | inl e' ↦ rw e' (same ((text_eq_iff ws other).0 e'))
            ])
    ]
  where
    same : ws ≡ other → length (keep (is_my_claim other) s.claims) + 1 ≤ 25
    same e = rw (← e) (omega (arith, few))

admit_new-WithinLimit :
    (ws domain token : Text) (s : Store)
    → WithinLimit s
    → WithinLimit (admit_new ws domain token s).1
unfolding admit_new
admit_new-WithinLimit ws domain token s v = elim (Bool-cases (leb 25 (count_claims ws s))) [
  | inl e ↦ rw e v
  | inr e ↦ rw e (upsert_claim-WithinLimit ws domain token s v (ground arith))
]

admit_claimed-WithinLimit :
    (ws domain token : Text) (o : Option Claim) (s : Store)
    → WithinLimit s
    → WithinLimit (admit_claimed ws domain token o s).1
admit_claimed-WithinLimit ws domain token none s v = admit_new-WithinLimit ws domain token s v
admit_claimed-WithinLimit ws domain token (some c) s v = by_status c.status
  where
    by_status : (st : ClaimStatus) → WithinLimit (admit_standing ws domain token c st s).1
    by_status pending = v
    by_status lost =
        admit_new-WithinLimit ws domain token (delete_claim ws c.id s)
          (delete_claim-WithinLimit ws c.id s v)

evict-WithinLimit :
    (w : World) (ws domain : Text) (s : Store)
    → WithinLimit s
    → WithinLimit (evict_legacy_holder w.print w.now ws domain s)
unfolding count_claims
evict-WithinLimit w ws domain s v other = rw (evict-claims w.print w.now ws domain s) (v other)

-- Whatever is asked for, and whatever is proven, no workspace comes to hold more than 25 claims.
pub admit_domain-WithinLimit :
    (w : World) (mode : Mode) (ws domain : Text) (s : Store)
    → ((other : Text) → count_claims other s ≤ 25)
    → (other : Text) → count_claims other (admit_domain w mode ws domain s).1 ≤ 25
unfolding admit_domain
admit_domain-WithinLimit w selfhost ws domain s v = v
admit_domain-WithinLimit w saas ws domain s v = choose (is_some (get_by_name ws domain s)) _ _ v (
    choose (owned_by_other domain ws s) _ _ v (
      choose (proven_by_parent ws domain s) _ _ (evict-WithinLimit w ws domain s v) (
        choose (proven_by_cloudflare w.cloudflare ws domain s) _ _
          (evict-WithinLimit w ws domain s v)
          (admit_claimed-WithinLimit ws domain w.token (get_claim ws domain s) s v))))
  where
    choose :
        (b : Bool) (x y : Admission × Store)
        → WithinLimit x.1
        → WithinLimit y.1
        → WithinLimit (if b then x else y).1
    choose true x y vx vy = vx
    choose false x y vx vy = vy
