-- ===== src/Monitor/Tests.antt =====
-- src/monitor/check.ts on a domain at p=quarantine.
use mathlib.Core.Option.{get_or}
use inbox_angel_worker.Common.{◌≡◌, refl, true, ◌↔◌, ◌⊎◌, [], ◌∷◌, none, some}
use inbox_angel_worker.Text.{codes, text_eq, is_empty, includes}
use inbox_angel_worker.Monitor.{
  Baseline, DmarcFound, Settled, fulfilled, rejected, check_subscription, spf_field, policy_field,
  text, degraded, or_blank, changes_between, spf_change, policy_change, pct_change, new_baseline,
  dmarc_severity, strength, spf_severity,
}
use inbox_angel_worker.Monitor.Settles.{
  check_subscription-outage, check_subscription-again, check_subscription-silent,
}

abbrev stored : Baseline
stored = record {
  spf_record = some (codes "v=spf1 -all");
  dmarc_policy = some (codes "quarantine");
  dmarc_pct = some 100;
  dmarc_record = some (codes "v=DMARC1; p=quarantine");
}

abbrev weaker : Settled DmarcFound
weaker =
    fulfilled (some (record { raw = codes "v=DMARC1; p=none"; policy = codes "none"; pct = 100 }))

weaker_is_degraded :
    (check_subscription stored (fulfilled none) weaker).changes
    ≡ record {
      field = spf_field;
      was = text (codes "v=spf1 -all");
      now = text [];
      severity = degraded;
    }
      ∷ record {
        field = policy_field;
        was = text (codes "quarantine");
        now = text (codes "none");
        severity = degraded;
      }
      ∷ []
unfolding check_subscription changes_between spf_change policy_change pct_change new_baseline
    dmarc_severity strength spf_severity text_eq includes
weaker_is_degraded = refl

check_subscription-outage_example :
    ((check_subscription stored (rejected (codes "SERVFAIL")) (rejected (codes "timeout"))).baseline
      ≡ stored)
    × ((check_subscription stored
          (rejected (codes "SERVFAIL"))
          (rejected (codes "timeout"))).changes
        ≡ [])
check_subscription-outage_example =
    check_subscription-outage stored (codes "SERVFAIL") (codes "timeout") refl refl

check_subscription-again_example :
    (check_subscription
      (check_subscription stored (fulfilled none) weaker).baseline
      (fulfilled none)
      weaker).changes
    ≡ []
check_subscription-again_example = check_subscription-again stored (fulfilled none) weaker

check_subscription-silent_example :
    ((check_subscription stored (rejected (codes "SERVFAIL")) weaker).changes ≡ []) ↔ (
      (or_blank stored.spf_record
        ≡ or_blank
            (check_subscription stored (rejected (codes "SERVFAIL")) weaker).baseline.spf_record)
      × (or_blank stored.dmarc_policy
          ≡ or_blank
              (check_subscription stored
                (rejected (codes "SERVFAIL"))
                weaker).baseline.dmarc_policy)
      × ((get_or stored.dmarc_pct 100
            ≡ get_or
                (check_subscription stored (rejected (codes "SERVFAIL")) weaker).baseline.dmarc_pct
                100)
          ⊎ (is_empty (
                or_blank
                  (check_subscription stored
                    (rejected (codes "SERVFAIL"))
                    weaker).baseline.dmarc_policy)
              ≡ true)
          ⊎ (text_eq
                (or_blank
                  (check_subscription stored
                    (rejected (codes "SERVFAIL"))
                    weaker).baseline.dmarc_policy)
                (codes "none")
              ≡ true)))
check_subscription-silent_example =
    check_subscription-silent stored (rejected (codes "SERVFAIL")) weaker
