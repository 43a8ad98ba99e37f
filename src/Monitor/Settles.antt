-- ===== src/Monitor/Settles.antt =====
-- src/monitor/check.ts: an outage reports nothing, and a change is reported once.
use mathlib.Core.Option.{get_or}
use inbox_angel_worker.Common.{
  ℕ, ◌≡◌, refl, ap, true, false, List, [], ◌∷◌, ◌++◌, Option, none, some, ==_refl, arith, ◌↔◌, ◌⊎◌,
}
use inbox_angel_worker.Text.{Text, codes, text_eq, is_empty}
use inbox_angel_worker.Text.Equal.{text_eq_refl, text_eq_iff}
use inbox_angel_worker.Monitor.{
  Baseline, SpfFound, DmarcFound, Settled, fulfilled, rejected, new_baseline, spf_change,
  policy_change, pct_change, changes_between, check_subscription, DomainChange, or_blank, degraded,
  spf_severity, spf_field, text,
}

no_change : (base : Baseline) (permerror : Option Text) → changes_between base base permerror ≡ []
unfolding changes_between spf_change policy_change pct_change
no_change base permerror =
    rw
      (
        text_eq_refl (or_blank base.spf_record),
        text_eq_refl (or_blank base.dmarc_policy),
        ==_refl (get_or base.dmarc_pct 100),
      )
      refl

new_baseline-again :
    (sub : Baseline) (spf : Settled SpfFound) (dmarc : Settled DmarcFound)
    → new_baseline (new_baseline sub spf dmarc) spf dmarc ≡ new_baseline sub spf dmarc
unfolding new_baseline
new_baseline-again sub spf dmarc = ground arith

-- When both lookups fail with a message, the check reports no change and stores what was stored
-- before.
pub check_subscription-outage :
    (sub : Baseline) (spf dmarc : Text)
    → is_empty spf ≡ false
    → is_empty dmarc ≡ false
    → ((check_subscription sub (rejected spf) (rejected dmarc)).baseline ≡ sub)
      × ((check_subscription sub (rejected spf) (rejected dmarc)).changes ≡ [])
unfolding check_subscription new_baseline
check_subscription-outage sub spf dmarc h k = rw (h, k) (refl, no_change sub none)

-- Whatever the lookups answer, the same answers checked against the baseline that the check stored
-- report no change: a change is reported once.
pub check_subscription-again :
    (sub : Baseline) (spf : Settled SpfFound) (dmarc : Settled DmarcFound)
    → (check_subscription (check_subscription sub spf dmarc).baseline spf dmarc).changes ≡ []
unfolding check_subscription
check_subscription-again sub spf dmarc =
    rw (new_baseline-again sub spf dmarc) (no_change (new_baseline sub spf dmarc) _)

spf_change-nil : (a b : Text) (e : Option Text) → (spf_change a b e ≡ []) ↔ (text_eq a b ≡ true)
unfolding spf_change
spf_change-nil a b e = ground arith

policy_change-nil : (a b : Text) → (policy_change a b ≡ []) ↔ (text_eq a b ≡ true)
unfolding policy_change
policy_change-nil a b = ground arith

pct_change-nil :
    (a b : ℕ) (p : Text)
    → (pct_change a b p ≡ []) ↔ ((a ≡ b) ⊎ (is_empty p ≡ true) ⊎ (text_eq p (codes "none") ≡ true))
unfolding pct_change
pct_change-nil a b p = ground arith

append_nil_iff : (xs ys : List DomainChange) → (xs ++ ys ≡ []) ↔ ((xs ≡ []) × (ys ≡ []))
append_nil_iff [] ys = ground arith
append_nil_iff (x ∷ xs) ys = (λ h. absurd (cc h), λ (h, k). absurd (cc h))

-- The check is silent exactly when the SPF text and the policy that it stores are those of before,
-- and the percentage is that of before or the policy is missing or none.
pub check_subscription-silent :
    (sub : Baseline) (spf : Settled SpfFound) (dmarc : Settled DmarcFound)
    → let base = (check_subscription sub spf dmarc).baseline in
      ((check_subscription sub spf dmarc).changes ≡ []) ↔ (
        (or_blank sub.spf_record ≡ or_blank base.spf_record)
        × (or_blank sub.dmarc_policy ≡ or_blank base.dmarc_policy)
        × ((get_or sub.dmarc_pct 100 ≡ get_or base.dmarc_pct 100)
            ⊎ (is_empty (or_blank base.dmarc_policy) ≡ true)
            ⊎ (text_eq (or_blank base.dmarc_policy) (codes "none") ≡ true)))
unfolding check_subscription changes_between
check_subscription-silent sub spf dmarc = (
  λ h.
      let (a, bc) = (append_nil_iff _ _).0 h in
      let (b, c) = (append_nil_iff _ _).0 bc in
      (
        (text_eq_iff _ _).0 ((spf_change-nil _ _ _).0 a),
        (text_eq_iff _ _).0 ((policy_change-nil _ _).0 b),
        (pct_change-nil _ _ _).0 c,
      ),
  λ (a, b, c). (append_nil_iff _ _).1 (
    (spf_change-nil _ _ _).1 ((text_eq_iff _ _).1 a),
    (append_nil_iff _ _).1
        ((policy_change-nil _ _).1 ((text_eq_iff _ _).1 b), (pct_change-nil _ _ _).1 c),
  ),
)

removed_change :
    (o : Option Text) (raw : Text)
    → o ≡ some raw
    → is_empty raw ≡ false
    → spf_change (or_blank o) [] none
      ≡ record { field = spf_field; was = text raw; now = text []; severity = degraded } ∷ []
unfolding spf_change spf_severity text_eq
removed_change o [] h k = absurd (cc k)
removed_change o (c ∷ raw) h k = rw h refl

-- A stored SPF record that the domain no longer has is the first change, and it is degraded, whatever
-- the DMARC lookup does.
pub check_subscription-removed :
    (sub : Baseline) (raw : Text) (dmarc : Settled DmarcFound)
    → sub.spf_record ≡ some raw
    → is_empty raw ≡ false
    → (rest : List DomainChange) × ((check_subscription sub (fulfilled none) dmarc).changes
        ≡ record { field = spf_field; was = text raw; now = text []; severity = degraded } ∷ rest)
unfolding check_subscription changes_between new_baseline
check_subscription-removed sub raw dmarc h k =
    let base = new_baseline sub (fulfilled none) dmarc in
    let rest : List DomainChange =
      policy_change (or_blank sub.dmarc_policy) (or_blank base.dmarc_policy)
      ++ pct_change (get_or sub.dmarc_pct 100) (get_or base.dmarc_pct 100)
          (or_blank base.dmarc_policy) in
    (rest, ap (λ xs. xs ++ rest) (removed_change sub.spf_record raw h k))
