-- ===== src/Pointers/Outage.antt =====
-- src/hosted/pointers.ts: a pointer is called missing only when the DNS has said so.
use inbox_angel_worker.Common.{◌≡◌, refl, ◌⊎◌, inl, inr, ◌↔◌, List, [], ◌∷◌, ◌++◌, keep, arith}
use inbox_angel_worker.Text.{Text, codes}
use inbox_angel_worker.Dmarc.{TxtAnswer, ok, failed, normalize_name}
use inbox_angel_worker.Spf.{is_spf_record}
use inbox_angel_worker.Pointers.{
  missing, CnameAnswer, targets, nodata, nxdomain, lookup_failed, Resolver, judge_cname,
  check_cname, judge_records, judge_txt, check_spf_include, verify_pointers,
}

-- The DNS has nothing at a name, or no text there.
abbrev pub IsBare : CnameAnswer → TxtAnswer → Type 0
IsBare a txt = (a ≡ nxdomain) ⊎ ((a ≡ nodata) × (txt ≡ ok []))

judge_cname-missing :
    (a : CnameAnswer) (txt : TxtAnswer) (target : Text)
    → (judge_cname a txt target ≡ missing) ↔ IsBare a txt
judge_cname-missing (targets ts) txt target = ground arith
judge_cname-missing nxdomain txt target = ((λ _. inl refl), (λ _. refl))
judge_cname-missing lookup_failed txt target = ground arith
judge_cname-missing nodata (failed e) target = ground arith
judge_cname-missing nodata (ok []) target = ((λ _. inr (refl, refl)), (λ _. refl))
judge_cname-missing nodata (ok (r ∷ rs)) target = ground arith

judge_records-missing :
    (rs : List Text) (include : Text) → (judge_records rs include ≡ missing) ↔ (rs ≡ [])
judge_records-missing [] include = ground arith
judge_records-missing (r ∷ rs) include = ((λ h. absurd (ground arith)), (λ h. absurd (cc h)))

judge_txt-missing :
    (a : TxtAnswer) (include : Text)
    → (judge_txt a include ≡ missing)
      ↔ ((records : List Text) × (a ≡ ok records) × (keep is_spf_record records ≡ []))
judge_txt-missing (failed e) include = ((λ h. absurd (cc h)), (λ (rs, h, _). absurd (cc h)))
judge_txt-missing (ok rs) include = (
  (λ h. (rs, refl, (judge_records-missing _ include).0 h)),
  (λ (ms, h, e). (judge_records-missing _ include).1 (kept ms h e)),
)
  where
    kept :
        (ms : List Text) → ok rs ≡ ok ms → keep is_spf_record ms ≡ [] → keep is_spf_record rs ≡ []
    kept ms h e = cc

-- For the DMARC and the SPF pointer, "missing" is exactly an answer of the DNS that there is nothing: no
-- name, or no text at it, for the CNAME; no SPF record among the texts for the include. A failed lookup
-- is never "missing".
pub verify_pointers-missing :
    (domain id apex : Text) (r : Resolver)
    → (((verify_pointers domain id apex r).dmarc ≡ missing)
        ↔ IsBare
            (r.cname (codes "_dmarc." ++ normalize_name domain))
            (r.txt (codes "_dmarc." ++ normalize_name domain)))
      × (((verify_pointers domain id apex r).spf ≡ missing) ↔ (
          (records : List Text) × (r.txt (normalize_name domain) ≡ ok records)
          × (keep is_spf_record records ≡ [])))
unfolding verify_pointers check_cname check_spf_include
verify_pointers-missing domain id apex r = (judge_cname-missing _ _ _, judge_txt-missing _ _)
