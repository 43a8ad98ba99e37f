-- ===== src/Ownership/Proof.antt =====
-- src/domains/ownership.ts: a claim is verified only with a proof, and never over another's.
use inbox_angel_worker.Common.{
  ◌≡◌, refl, ◌⊎◌, inl, inr, true, false, List, Option, none, some, some_of, arith, Bool-cases,
  Option-cases,
}
use inbox_angel_worker.Text.{Text, text_eq}
use inbox_angel_worker.Dmarc.{TxtAnswer, ok, failed}
use inbox_angel_worker.DnsWrite.{saas, bare}
use inbox_angel_worker.Domains.{
  VerifiedVia, Store, Claim, get_by_name, owned_by_other, get_claim, is_some, pending, lost,
  ClaimStatus, upsert_claim, delete_claim,
}
use inbox_angel_worker.Ownership.{
  World, verified, is_verified, proven_by_parent, proven_by_cloudflare, proven_by_txt,
  claim_txt_name, claim_txt_value, admit_domain, verify_claim, admit_claimed, admit_new,
  admit_standing,
}

-- A parent that is proven, or a live zone of the workspace.
abbrev pub IsProven : World → Text → Text → Store → Type 0
IsProven w ws domain s =
    (proven_by_parent ws domain s ≡ true) ⊎ (proven_by_cloudflare w.cloudflare ws domain s ≡ true)

-- The token is published at the name.
abbrev pub IsPublished : World → Claim → Type 0
IsPublished w c =
    (records : List Text) × (w.txt (claim_txt_name c.domain) ≡ ok records)
    × (some_of (λ r. text_eq (bare r) (claim_txt_value c.token)) records ≡ true)

txt_none : (w : World) (c : Claim) → proven_by_txt w.txt c.domain c.token ≡ none → IsPublished w c
unfolding proven_by_txt
txt_none w c h = go (w.txt (claim_txt_name c.domain)) refl
  where
    go : (a : TxtAnswer) → w.txt (claim_txt_name c.domain) ≡ a → IsPublished w c
    go (failed e) k = absurd (cc (rw (k, proven_by_txt) at h))
    go (ok records) k =
        elim (Bool-cases (some_of (λ r. text_eq (bare r) (claim_txt_value c.token)) records)) [
          | inl e ↦ (records, k, e)
          | inr e ↦ absurd (cc (rw e at (rw (k, proven_by_txt) at h)))
        ]

-- The button verifies a claim only where no other workspace has proven the name, and where the
-- workspace has a proven parent, a live Cloudflare zone, or the token of the claim published.
pub verify_claim-IsProven :
    (w : World) (ws : Text) (c : Claim) (s : Store) (via : VerifiedVia)
    → (verify_claim w ws c s).0 ≡ is_verified via
    → (owned_by_other c.domain ws s ≡ false) × (IsProven w ws c.domain s ⊎ IsPublished w c)
unfolding verify_claim
verify_claim-IsProven w ws c s via h = elim (Bool-cases (owned_by_other c.domain ws s)) [
  | inl e ↦ absurd (cc (rw e at h))
  | inr e ↦ elim (Bool-cases (proven_by_parent ws c.domain s)) [
    | inl p ↦ (e, inl (inl p))
    | inr p ↦ elim (Bool-cases (proven_by_cloudflare w.cloudflare ws c.domain s)) [
      | inl q ↦ (e, inl (inr q))
      | inr q ↦ elim (Option-cases (proven_by_txt w.txt c.domain c.token)) [
        | inl t ↦ (e, inr (txt_none w c t))
        | inr (reason, t) ↦ absurd (cc (rw t at (rw q at (rw p at (rw e at h)))))
      ]
    ]
  ]
]

admit_new-unverified :
    (ws domain token : Text) (s : Store) (via : VerifiedVia)
    → (admit_new ws domain token s).0 ≡ verified via
    → ⊥
unfolding admit_new upsert_claim
admit_new-unverified ws domain token s via h = ground arith

admit_claimed-unverified :
    (ws domain token : Text) (o : Option Claim) (s : Store) (via : VerifiedVia)
    → (admit_claimed ws domain token o s).0 ≡ verified via
    → ⊥
admit_claimed-unverified ws domain token none s via h = admit_new-unverified ws domain token s via h
admit_claimed-unverified ws domain token (some c) s via h = by_status c.status h
  where
    by_status : (st : ClaimStatus) → (admit_standing ws domain token c st s).0 ≡ verified via → ⊥
    by_status pending k = absurd (cc k)
    by_status lost k = admit_new-unverified ws domain token (delete_claim ws c.id s) via k

-- On the hosted service a domain is admitted as verified only where it is the workspace's already, or
-- where no other workspace has proven it and the workspace has a proven parent or a live zone.
pub admit_domain-IsProven :
    (w : World) (ws domain : Text) (s : Store) (via : VerifiedVia)
    → (admit_domain w saas ws domain s).0 ≡ verified via
    → (is_some (get_by_name ws domain s) ≡ true)
      ⊎ ((owned_by_other domain ws s ≡ false) × IsProven w ws domain s)
unfolding admit_domain
admit_domain-IsProven w ws domain s via h = elim (Bool-cases (is_some (get_by_name ws domain s))) [
  | inl e ↦ inl e
  | inr e ↦ elim (Bool-cases (owned_by_other domain ws s)) [
    | inl o ↦ absurd (cc (rw o at (rw e at h)))
    | inr o ↦ elim (Bool-cases (proven_by_parent ws domain s)) [
      | inl p ↦ inr (o, inl p)
      | inr p ↦ elim (Bool-cases (proven_by_cloudflare w.cloudflare ws domain s)) [
        | inl q ↦ inr (o, inr q)
        | inr q ↦ absurd (
            admit_claimed-unverified ws domain w.token (get_claim ws domain s) s via
              (rw q at (rw p at (rw o at (rw e at h)))))
      ]
    ]
  ]
]
